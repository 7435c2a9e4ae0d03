-- ===== src/HopCentral.antt =====
-- src/hop_central.c: the central's hop engine.
pub mod State
pub mod Mask
pub mod Beacon
pub mod Decision
pub mod Receive
pub mod Invariant
