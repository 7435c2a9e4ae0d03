-- ===== src/HopPeripheral.antt =====
-- src/hop_peripheral.c: the peripheral's hop engine. `State` is the file's static state and its
-- configuration, `Step` its functions, and the other modules prove what they keep and reach.
pub mod State
pub mod Step
pub mod Receive
pub mod Invariant
pub mod Sweep
pub mod Retained
pub mod LinkState
