-- ===== src/HopCentral/Invariant.antt =====
-- The invariant of the central's hop engine, src/hop_central.c, once its masks are ready.
pub mod Mask
pub mod Tick
pub mod Boot
pub mod Reach
pub mod Anchors
pub mod Kept
use zmk_feature_split_esb.Prelude.{
  ℕ, zero, suc, ◌+◌, ◌-◌, ◌*◌, ◌/◌, ◌≤◌, ◌<◌, ◌≡◌, refl, ◌∙◌, ◌⊎◌, inl, inr, Bool, true, false,
  ◌==◌, if◌then◌else◌, List, length, arith, Bool-cases, ℕ_discrete,
}
use mathlib.Core.Path.{subst}
use zmk_feature_split_esb.HopPolicy.Mask.{
  mask_get, mask_set, mask_active_count, bit_value, length-mask_set, mask_get-mask_set,
  mask_active_count-mask_set,
}
use zmk_feature_split_esb.HopPolicy.Channel.{channel_for_epoch_masked}
use zmk_feature_split_esb.HopCentral.State.{CentralConfig, Central}

-- What the build asserts of the pool.
pub record IsPool (c : CentralConfig) : Type 0 where
  pub hops : 1 ≤ c.hop_count
  pub few : c.hop_count < 255

-- ESB_HOP_MASK_BYTES
abbrev pub mask_bytes : CentralConfig → ℕ
mask_bytes c = (c.hop_count + 7) / 8

-- A mask of the pool's size that keeps every anchor and at least `floor` channels.
pub record IsMask (c : CentralConfig) (floor : ℕ) (anchors mask : List ℕ) : Type 0 where
  pub size : length mask ≡ mask_bytes c
  pub anchored : (k : ℕ) → k < c.hop_count → (mask_get anchors k ≡ false) ⊎ (mask_get mask k ≡ true)
  pub enough : floor ≤ mask_active_count mask c.hop_count

-- The part of the state that the invariant reads: the index is the one of the epoch.
pub record IsOnEpoch (c : CentralConfig) (floor hop_index epoch : ℕ)
    (active pending anchors : List ℕ) : Type 0 where
  pub index : hop_index ≡ channel_for_epoch_masked epoch active c.hop_count
  pub active_is : IsMask c floor anchors active
  pub pending_is : IsMask c floor anchors pending

pub record IsSound (c : CentralConfig) (floor : ℕ) (p : Central) : Type 0 where
  pub ready : p.mask_ready ≡ true
  pub state : IsOnEpoch c floor p.hop_index p.hop_epoch p.active_mask p.pending_mask p.anchor_mask

module _ (c : CentralConfig) (ok : IsPool c) (floor : ℕ) (anchors mask : List ℕ)
    (v : IsMask c floor anchors mask) where
  byte_there : (k : ℕ) → k < c.hop_count → k / 8 < length mask
  byte_there k h = omega (arith, v.size)

  -- Taking a channel in keeps the mask good.
  pub mask_set-IsMask : (k : ℕ) → k < c.hop_count → IsMask c floor anchors (mask_set mask k true)
  mask_set-IsMask k h = record {
    size = length-mask_set mask k true ∙ v.size;
    anchored =
        λ j l. ground (arith, v.anchored j l, mask_get-mask_set mask k j true (byte_there k h));
    enough =
        ground
          (arith, mask_active_count-mask_set mask k true c.hop_count (byte_there k h) h, v.enough);
  }

  mask_clear-anchored :
      (k : ℕ)
      → k < c.hop_count
      → mask_get anchors k ≡ false
      → (j : ℕ) → (mask_get anchors j ≡ false) ⊎ (mask_get mask j ≡ true)
      → (mask_get anchors j ≡ false) ⊎ (mask_get (mask_set mask k false) j ≡ true)
  mask_clear-anchored k h free j (inl e) = inl e
  mask_clear-anchored k h free j (inr e) = elim (ℕ_discrete k j) [
    | yes s ↦ inl (subst (λ i. mask_get anchors i ≡ false) s free)
    | no n ↦ inr (ground (arith, mask_get-mask_set mask k j false (byte_there k h)))
  ]

  -- So does taking out a channel that is no anchor, with more than the floor there.
  pub mask_clear-IsMask :
      (k : ℕ)
      → k < c.hop_count
      → mask_get anchors k ≡ false
      → floor < mask_active_count mask c.hop_count
      → IsMask c floor anchors (mask_set mask k false)
  mask_clear-IsMask k h free more = record {
    size = length-mask_set mask k false ∙ v.size;
    anchored = λ j l. mask_clear-anchored k h free j (v.anchored j l);
    enough = ground (arith, mask_active_count-mask_set mask k false c.hop_count (byte_there k h) h);
  }

  -- And with no floor to keep, whatever the count.
  pub mask_drop-IsMask :
      (k : ℕ)
      → k < c.hop_count
      → mask_get anchors k ≡ false
      → IsMask c 0 anchors (mask_set mask k false)
  mask_drop-IsMask k h free = record {
    size = length-mask_set mask k false ∙ v.size;
    anchored = λ j l. mask_clear-anchored k h free j (v.anchored j l);
    enough = omega arith;
  }
