-- ===== src/HopPeripheral/Retained.antt =====
-- src/hop_peripheral.c: the link state in retained RAM, written by `retain_link_state` and read
-- after a reboot by `hop_restore`.
use zmk_feature_split_esb.Prelude.{◌<◌, ◌≡◌, refl, true, false, leb, arith}
use zmk_feature_split_esb.HopPeripheral.State.{Config, Peripheral}
use zmk_feature_split_esb.HopPeripheral.Step.{
  hop_restore, is_retained, retain_link_state, retained_checksum,
}

module _ (c : Config) (p : Peripheral) (hops : 1 < c.hop_count)
    (index : p.hop_index < c.hop_count) where
  is_retained-retain : is_retained c (retain_link_state c p).retained_link ≡ true
  unfolding is_retained retain_link_state retained_checksum
  is_retained-retain = ground arith

  -- What a live window retained is what the next boot restores, whatever the state it boots in: the
  -- channel index, the epoch, as the adopted one and as the last one heard, and the mask; the link
  -- hops and the index was in the pool.
  pub hop_restore-retain_link_state :
      (boot : Peripheral)
      → let kept = (retain_link_state c p).retained_link in
        let q = hop_restore c (record boot { retained_link = kept }) in
        (q.hop_index ≡ p.hop_index)
        × (q.adopted_epoch ≡ p.adopted_epoch)
        × (q.beacon_epoch ≡ p.adopted_epoch)
        × (q.active_mask ≡ p.active_mask)
  unfolding hop_restore retain_link_state
  hop_restore-retain_link_state boot =
      let many : leb c.hop_count 1 ≡ false = ground arith in
      rw (many, is_retained-retain) (refl, refl, refl, refl)
