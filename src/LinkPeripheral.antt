-- ===== src/LinkPeripheral.antt =====
-- src/esb_link_peripheral.c, with the events of src/esb_link.c and the clock of src/esb_link_hfclk.c:
-- the peripheral's half of the link layer. The radio's and the clock's answers are arguments. A mutex
-- or an interrupt lock makes a function one step.
pub mod Settings
pub mod Restarts
pub mod Clock
