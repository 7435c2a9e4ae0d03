-- ===== src/CentralInput/Told/Motion.antt =====
-- src/central_input.c: healed motion leaves the keys alone; the whole reconciliation.
use zmk_feature_split_esb.ByteOrder.{ByteOrder}
use zmk_feature_split_esb.Prelude.{
  ℕ, zero, suc, ◌≡◌, ◌≢◌, refl, sym, ◌∙◌, ap, Bool, true, false, if◌then◌else◌, Option, none, some,
  List, [], ◌∷◌, arith, if_either,
}
use zmk_feature_split_esb.Prelude.Int.{ℤ}
use zmk_feature_split_esb.Keepalive.Codec.{HeldKey, motion_count_of}
use zmk_feature_split_esb.CentralInput.State.{
  InputEvent, TrackedMotion, Pipe, tracks_key, apply_input_reset,
}
use zmk_feature_split_esb.CentralInput.Reconcile.{
  reconcile_keys, reconcile, heal_of, motion_heal_at, deliver_heal, deliver_pending, pending_behind,
  heal_from, heal_lost_motion,
}
use zmk_feature_split_esb.CentralInput.Told.{
  told_after, told_after-append, IsTold, reconcile_keys-IsTold,
}

module _ (order : ByteOrder) (ev_key ev_rel : ℕ) (apart : ev_rel ≢ ev_key) (keepalive : List ℕ)
    (k : HeldKey) where
  abbrev IsMotion : Option InputEvent → Type 0
  IsMotion none = Unit
  IsMotion (some e) = e.type ≡ ev_rel

  -- A step on the tables that tells nothing of keys.
  record IsQuiet (p : Pipe) (r : List InputEvent × Pipe) : Type 0 where
    keys : r.1.keys ≡ p.keys
    told : (before : Bool) → told_after ev_key k r.0 before ≡ before

  told_after-motion :
      (e : InputEvent) (sync : ℕ) (before : Bool)
      → e.type ≡ ev_rel
      → told_after ev_key k (record e { sync = sync } ∷ []) before ≡ before
  unfolding told_after
  told_after-motion e sync before h = ground (arith, apart)

  told_after-deliver_heal :
      (pending : Option InputEvent) (sync before : Bool)
      → IsMotion pending
      → told_after ev_key k (deliver_heal order ev_key ev_rel pending sync) before ≡ before
  unfolding deliver_heal told_after
  told_after-deliver_heal none sync before h = refl
  told_after-deliver_heal (some e) sync before h =
      told_after-motion e (if sync then 1 else 0) before h

  told_after-deliver_pending :
      (heal pending : Option InputEvent) (before : Bool)
      → IsMotion pending
      → told_after ev_key k (deliver_pending order ev_key ev_rel heal pending) before ≡ before
  unfolding deliver_pending told_after
  told_after-deliver_pending none pending before h = refl
  told_after-deliver_pending (some e) pending before h =
      told_after-deliver_heal pending false before h

  pending_behind-IsMotion :
      (heal pending : Option InputEvent)
      → IsMotion heal
      → IsMotion pending
      → IsMotion (pending_behind order ev_key ev_rel heal pending)
  pending_behind-IsMotion none pending h g = g
  pending_behind-IsMotion (some e) pending h g = h

  heal_of-IsMotion :
      (reg code : ℕ) (p : Pipe) (o : Option (Option ℤ × List TrackedMotion))
      → IsMotion (heal_of order ev_key ev_rel reg code p o).0
        × ((heal_of order ev_key ev_rel reg code p o).1.keys ≡ p.keys)
  unfolding heal_of
  heal_of-IsMotion reg code p none = (tt, refl)
  heal_of-IsMotion reg code p (some (none, motions)) = (tt, refl)
  heal_of-IsMotion reg code p (some (some delta, motions)) = (refl, refl)

  motion_heal_at-IsMotion :
      (index : ℕ) (p : Pipe)
      → IsMotion (motion_heal_at order ev_key ev_rel keepalive index p).0
        × ((motion_heal_at order ev_key ev_rel keepalive index p).1.keys ≡ p.keys)
  unfolding motion_heal_at
  motion_heal_at-IsMotion index p = heal_of-IsMotion _ _ p _

  heal_from-IsQuiet :
      (n index : ℕ) (pending : Option InputEvent) (p : Pipe)
      → IsMotion pending
      → IsQuiet p (heal_from order ev_key ev_rel keepalive n index pending p)
  unfolding heal_from
  heal_from-IsQuiet zero index pending p h = record {
    keys = refl;
    told = λ before. told_after-deliver_heal pending true before h;
  }
  heal_from-IsQuiet (suc n) index pending p h =
      let found = motion_heal_at order ev_key ev_rel keepalive index p in
      let (is_motion, same) = motion_heal_at-IsMotion index p in
      let rest =
        heal_from-IsQuiet n (suc index) (pending_behind order ev_key ev_rel found.0 pending) found.1
          (pending_behind-IsMotion found.0 pending is_motion h) in
      record {
        keys = rest.keys ∙ same;
        told = λ before.
            told_after-append ev_key k (deliver_pending order ev_key ev_rel found.0 pending) _
              before
            ∙ (rest.told _ ∙ told_after-deliver_pending found.0 pending before h);
      }

  heal_lost_motion-IsQuiet :
      (hop_window_ms uptime_ms : ℕ) (p : Pipe)
      → IsQuiet p (heal_lost_motion order ev_key ev_rel hop_window_ms uptime_ms keepalive p)
  unfolding heal_lost_motion told_after
  heal_lost_motion-IsQuiet hop_window_ms uptime_ms p =
      let still : IsQuiet p ([], p) = record { keys = refl; told = λ before. refl } in
      if_either (IsQuiet p) _ still (heal_from-IsQuiet (motion_count_of keepalive) 0 none p tt)

  -- After a keepalive the central tracks a key just if ZMK was told that it is pressed, whatever the
  -- tables had room for: where both agreed before they agree after.
  pub reconcile-IsTold :
      (hop_window_ms uptime_ms : ℕ) (p : Pipe)
      → IsTold order ev_key ev_rel keepalive k
          (apply_input_reset p)
          (reconcile order ev_key ev_rel hop_window_ms uptime_ms keepalive p)
  unfolding reconcile IsTold
  reconcile-IsTold hop_window_ms uptime_ms p =
      let noted = reconcile_keys order ev_key ev_rel keepalive p in
      let quiet = heal_lost_motion-IsQuiet hop_window_ms uptime_ms noted.1 in
      ap (tracks_key k) quiet.keys
      ∙ (reconcile_keys-IsTold order ev_key ev_rel keepalive k p
          ∙ (sym (quiet.told _) ∙ sym (told_after-append ev_key k noted.0 _ _)))
