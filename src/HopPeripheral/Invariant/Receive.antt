-- ===== src/HopPeripheral/Invariant/Receive.antt =====
-- The notes of the radio and the packets from the central keep the invariant of
-- src/hop_peripheral.c.
use zmk_feature_split_esb.Prelude.{
  if_either, if_split, ℕ, ◌≡◌, Bool, true, false, not, ltb, leb, ◌==◌, List, length, take, drop,
  length-take, length-drop, arith,
}
use zmk_feature_split_esb.HopPeripheral.State.{Config, mask_bytes, Peripheral}
use zmk_feature_split_esb.HopPeripheral.Step.{
  record_tx_attempts, note_tx_success, note_tx_failed, note_noack_sent,
}
use zmk_feature_split_esb.HopPeripheral.Receive.{
  Note, nothing, has_beacon_tag, has_mask_update_tag, mask_update_length, consume_rx,
  consume_beacon, consume_mask_update,
}
use zmk_feature_split_esb.HopPeripheral.Invariant.{
  IsConfig, IsValid, IsValidResult, Keeps, set-All, with_pool,
}

module _ (c : Config) (ok : IsConfig c) where
  record_tx_attempts-IsValid : (attempts : ℕ) → Keeps c (record_tx_attempts attempts)
  unfolding record_tx_attempts
  record_tx_attempts-IsValid attempts p v = if_either (IsValid c) _ (record { shape = v.shape }) v

  pub note_tx_success-IsValid : (attempts : ℕ) → Keeps c (note_tx_success c attempts)
  unfolding note_tx_success
  note_tx_success-IsValid attempts p v =
      let w =
        record_tx_attempts-IsValid attempts (record p { tx_succeeded_since_tick = true })
          (record { shape = v.shape }) in
      if_either (IsValid c) _ (record { shape = w.shape }) (record { shape = v.shape })

  pub note_tx_failed-IsValid : Keeps c (note_tx_failed c)
  unfolding note_tx_failed
  note_tx_failed-IsValid p v =
      let q : Peripheral = record p {
        tx_failed_since_tick = true;
        tx_succeeded_since_tick = false;
      } in
      let w : IsValid c q = record { shape = v.shape } in
      if_either (IsValid c) (ltb 1 c.hop_count) (record_tx_attempts-IsValid 0xFF q w) w

  note_noack_sent-IsValid : Keeps c (note_noack_sent c)
  unfolding note_noack_sent
  note_noack_sent-IsValid p v =
      if_either (IsValid c) _ (record { shape = v.shape }) (record { shape = v.shape })

  consume_beacon-IsValid : (packet : List ℕ) → Keeps c (λ p. (consume_beacon c packet p).1)
  unfolding consume_beacon
  consume_beacon-IsValid packet p v =
      if_either (λ (r : Note × Peripheral). IsValid c r.1) _ v (record { shape = v.shape })

  consume_mask_update-IsValid :
      (packet : List ℕ) → Keeps c (λ p. (consume_mask_update c packet p).1)
  unfolding consume_mask_update
  consume_mask_update-IsValid packet p v =
      if_split (λ (r : Note × Peripheral). IsValid c r.1)
        (not (length packet == mask_update_length c)) (λ _. v)
        (λ e.
          let size : length (take (mask_bytes c) (drop 1 packet)) ≡ mask_bytes c =
            rw (length-take, length-drop) (ground arith) in
          record {
            shape = with_pool v.shape (
                set-All (λ m. length m ≡ mask_bytes c) p.staged_mask_pool _ _ v.shape.pool_size
                  size);
          })

  -- Every packet keeps the invariant, whatever its bytes and its length.
  pub consume_rx-IsValid :
      (owns_pipe : Bool) (packet : List ℕ) (p : Peripheral)
      → IsValid c p
      → IsValid c (consume_rx c owns_pipe packet p).2
  unfolding consume_rx
  consume_rx-IsValid owns_pipe packet p v =
      let on_beacon : IsValidResult c
          (not owns_pipe, (consume_beacon c packet p).0, (consume_beacon c packet p).1) =
        record { result = consume_beacon-IsValid packet p v } in
      let on_mask : IsValidResult c
          (true, (consume_mask_update c packet p).0, (consume_mask_update c packet p).1) =
        record { result = consume_mask_update-IsValid packet p v } in
      let on_other : IsValidResult c (false, nothing, p) = record { result = v } in
      (if_either (IsValidResult c) (has_beacon_tag packet) on_beacon (
        if_either (IsValidResult c) (leb c.hop_count 1) on_other
          (if_either (IsValidResult c) (has_mask_update_tag packet) on_mask on_other))).result
