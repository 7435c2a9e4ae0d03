-- ===== src/Rendezvous.antt =====
-- src/hop_central.c and src/hop_peripheral.c together: the central announces its mask, hops and
-- sends its beacon, and the peripheral's next tick follows.
pub mod Central
pub mod Received
pub mod Tick
pub mod Meeting
