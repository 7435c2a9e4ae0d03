-- ===== src/Tests/LinkPeripheral.antt =====
-- src/esb_link_peripheral.c.
