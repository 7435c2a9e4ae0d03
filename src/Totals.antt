-- ===== src/Totals.antt =====
-- src/esb_motion_total.h and src/esb_sensor_sync.c: running totals whose receiver forwards the
-- difference of two totals, so that a lost packet loses no motion.
pub mod Motion
pub mod Sensor
