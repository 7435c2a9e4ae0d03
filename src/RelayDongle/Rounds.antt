-- ===== src/RelayDongle/Rounds.antt =====
-- src/esb_hid_relay_peripheral.c: the loop over a payload's reports ends by itself.
use zmk_feature_split_esb.Prelude.{
  ℕ, zero, suc, ◌≤◌, ◌≡◌, refl, Bool, true, false, ◌||◌, ltb, ◌==◌, if◌then◌else◌, List, [], ◌∷◌,
  length, drop, length-drop, arith,
}
use zmk_feature_split_esb.ByteOrder.{ByteOrder}
use zmk_feature_split_esb.RelayDongle.{
  Reports, Told, Dongle, relay_report_find, relay_report_length, deliver_from,
}

same_else :
    (test : Bool) (d : Dongle) {a b : Dongle}
    → (test ≡ false → a ≡ b)
    → (if test then d else a) ≡ (if test then d else b)
same_else true d h = refl
same_else false d h = h refl

module _ (order : ByteOrder) (z : Reports) (takes : List Told → List ℕ → Bool → Bool) where
  -- A round for each byte is enough: one more changes nothing, for each report takes a byte at least.
  pub deliver_from-suc :
      (loss_detect_ms now_ms fuel : ℕ) (bytes : List ℕ) (d : Dongle)
      → length bytes ≤ fuel
      → deliver_from order z takes loss_detect_ms now_ms (suc fuel) bytes d
        ≡ deliver_from order z takes loss_detect_ms now_ms fuel bytes d
  unfolding deliver_from
  deliver_from-suc loss_detect_ms now_ms zero [] d h = refl
  deliver_from-suc loss_detect_ms now_ms zero (report_id ∷ bytes) d h = absurd (omega arith)
  deliver_from-suc loss_detect_ms now_ms (suc fuel) [] d h = refl
  deliver_from-suc loss_detect_ms now_ms (suc fuel) (report_id ∷ bytes) d h =
      let size = relay_report_length z report_id (relay_report_find z report_id) in
      same_else (size == 0 || ltb (length (report_id ∷ bytes)) size) d (λ e.
        deliver_from-suc loss_detect_ms now_ms fuel (drop size (report_id ∷ bytes)) _
          (ground (arith, length-drop size (report_id ∷ bytes), h, e)))
