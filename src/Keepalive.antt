-- ===== src/Keepalive.antt =====
-- src/esb_keepalive.c, src/esb_keepalive.h: the uplink keepalive, a snapshot of a peripheral's state.
-- `Codec` encodes and reads it, `Bitmap` is its bitmap of pressed positions.
pub mod Codec
pub mod Bitmap
