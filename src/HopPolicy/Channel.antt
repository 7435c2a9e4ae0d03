-- ===== src/HopPolicy/Channel.antt =====
-- src/hop_policy.c: which channel comes next, from the index, the epoch and the mask. Pool sizes
-- and indices are `size_t` far below its range; a result is cast to a byte.
pub mod Laws
use zmk_feature_split_esb.Prelude.{ℕ, zero, suc, ◌+◌, ◌*◌, ◌/◌, ◌%◌, Bool, true, false, List}
use zmk_feature_split_esb.HopPolicy.Mask.{mask_get}

unfoldable pub index_next : ℕ → ℕ → ℕ
index_next index count = (index + 1) % count % 256

unfoldable pub channel_for_epoch : ℕ → ℕ → ℕ
channel_for_epoch epoch hop_count = epoch % hop_count % 256

unfoldable pub anchor_default_index : ℕ → ℕ → ℕ → ℕ
anchor_default_index slot pool_count anchor_count =
    pool_count * (2 * slot + 1) / (2 * anchor_count) % 256

-- The first active channel among `rounds` candidates, the channels `start + step`,
-- `start + step + 1`, … taken round the pool, or `otherwise`.
unfoldable pub first_active : List ℕ → ℕ → ℕ → ℕ → ℕ → ℕ → ℕ
first_active mask count start zero step otherwise = otherwise
first_active mask count start (suc rounds) step otherwise =
    let candidate : ℕ = (start + step) % count in
    elim (mask_get mask candidate) [
      | true ↦ candidate % 256
      | false ↦ first_active mask count start rounds (suc step) otherwise
    ]

unfoldable pub index_next_active : ℕ → List ℕ → ℕ → ℕ
unfolding first_active
index_next_active index mask count = first_active mask count index count 1 index

unfoldable pub channel_for_epoch_masked : ℕ → List ℕ → ℕ → ℕ
unfolding first_active
channel_for_epoch_masked epoch mask pool_count =
    let base : ℕ = epoch % pool_count in first_active mask pool_count base pool_count 0 (base % 256)
