-- ===== src/HopCentral/Invariant/Anchors.antt =====
-- src/hop_central.c: the anchors of the devicetree, entered at the boot, stay as they are.
use zmk_feature_split_esb.Prelude.{
  ℕ, zero, suc, ◌+◌, ◌/◌, ◌<◌, ◌≡◌, refl, ◌∙◌, ap, inl, inr, true, false, ◌==◌, if◌then◌else◌, List,
  length, arith, Bool-cases, if_false, if_split,
}
use mathlib.Core.Path.{subst, sym}
use zmk_feature_split_esb.Prelude.Int.{ℤ}
use zmk_feature_split_esb.HopPolicy.Mask.{mask_get, mask_set, length-mask_set, mask_get-mask_set}
use zmk_feature_split_esb.HopCentral.State.{CentralConfig, Central}
use zmk_feature_split_esb.HopCentral.Mask.{enter_channels, ensure_mask, hop_boot_mask}
use zmk_feature_split_esb.HopCentral.Invariant.{IsPool, mask_bytes}

-- The anchor mask is made, and holds every anchor of the devicetree.
pub record HasAnchors (c : CentralConfig) (p : Central) : Type 0 where
  pub ready : p.mask_ready ≡ true
  pub anchors : (k : ℕ) → k < c.hop_count → c.is_anchor k ≡ true → mask_get p.anchor_mask k ≡ true

module _ (c : CentralConfig) (ok : IsPool c) where
  -- The anchors below `channel` are entered, in a mask of the pool's size.
  record HasEntered (channel : ℕ) (p : Central) : Type 0 where
    size : length p.anchor_mask ≡ mask_bytes c
    anchors : (k : ℕ) → k < channel → c.is_anchor k ≡ true → mask_get p.anchor_mask k ≡ true

  set_anchor :
      (mask : List ℕ) (channel : ℕ)
      → channel < c.hop_count
      → length mask ≡ mask_bytes c
      → ((k : ℕ) → k < channel → c.is_anchor k ≡ true → mask_get mask k ≡ true)
      → let after = if c.is_anchor channel then mask_set mask channel true else mask in
        (length after ≡ mask_bytes c)
        × ((k : ℕ) → k < suc channel → c.is_anchor k ≡ true → mask_get after k ≡ true)
  set_anchor mask channel l size h =
      let there : channel / 8 < length mask = omega (arith, size) in
      if_split
        (λ (after : List ℕ).
          (length after ≡ mask_bytes c)
          × ((k : ℕ) → k < suc channel → c.is_anchor k ≡ true → mask_get after k ≡ true))
        (c.is_anchor channel)
        (λ e. (length-mask_set mask channel true ∙ size, λ k m a. entered there k m a))
        (λ e. (size, λ k m a. earlier e k m a))
    where
      entered :
          channel / 8 < length mask
          → (k : ℕ) → k < suc channel
          → c.is_anchor k ≡ true
          → mask_get (mask_set mask channel true) k ≡ true
      entered there k m a =
          let got = mask_get-mask_set mask channel k true there in
          elim (Bool-cases (k == channel)) [
            | inl s ↦ ground (arith, got, s)
            | inr n ↦ ground (arith, got, n, h k (ground (arith, n)) a)
          ]

      earlier :
          c.is_anchor channel ≡ false
          → (k : ℕ) → k < suc channel
          → c.is_anchor k ≡ true
          → mask_get mask k ≡ true
      earlier e k m a = elim (Bool-cases (k == channel)) [
        | inl s ↦
            let same : k ≡ channel = ground (arith, s) in
            absurd (ground (arith, ap c.is_anchor same, e, a))
        | inr n ↦ h k (ground (arith, n)) a
      ]

  enter_channels-HasEntered :
      (n channel : ℕ) (p : Central)
      → channel + n ≡ c.hop_count
      → HasEntered channel p
      → HasEntered c.hop_count (enter_channels c n channel p)
  unfolding enter_channels
  enter_channels-HasEntered zero channel p e v = subst (λ k. HasEntered k p) (omega (arith, e)) v
  enter_channels-HasEntered (suc n) channel p e v =
      let (size, anchors) = set_anchor p.anchor_mask channel (omega (arith, e)) v.size v.anchors in
      enter_channels-HasEntered n (suc channel) _ (omega (arith, e))
        (record { size = size; anchors = anchors })

  ensure_mask-HasAnchors :
      (p : Central)
      → p.mask_ready ≡ false
      → length p.anchor_mask ≡ mask_bytes c
      → HasAnchors c (ensure_mask c p)
  unfolding ensure_mask
  ensure_mask-HasAnchors p fresh size =
      let none : HasEntered 0 p = record { size = size; anchors = λ k l a. absurd (omega arith) } in
      let w = enter_channels-HasEntered c.hop_count 0 p (omega arith) none in
      subst (HasAnchors c) (sym (if_false p _ fresh)) (record { ready = refl; anchors = w.anchors })

  pub hop_boot_mask-HasAnchors :
      (energy_dbm : List ℤ) (p : Central)
      → 1 < c.hop_count
      → p.mask_ready ≡ false
      → length p.anchor_mask ≡ mask_bytes c
      → HasAnchors c (hop_boot_mask c energy_dbm p)
  unfolding hop_boot_mask
  hop_boot_mask-HasAnchors energy_dbm p hopping fresh size =
      let v = ensure_mask-HasAnchors p fresh size in
      let booted = hop_boot_mask c energy_dbm p in
      let same : booted.anchor_mask ≡ (ensure_mask c p).anchor_mask = ground (arith, hopping) in
      let ready : booted.mask_ready ≡ true = ground (arith, hopping, v.ready) in
      record { ready = ready; anchors = λ k l a. ap (λ m. mask_get m k) same ∙ v.anchors k l a }
