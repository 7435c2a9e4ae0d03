-- ===== src/HopPolicy.antt =====
-- src/hop_policy.c, src/hop_policy.h: the pure decisions of the hop engine, one module per theme.
pub mod Grade
pub mod Mask
pub mod Channel
pub mod Survey
pub mod Vote
pub mod Store
