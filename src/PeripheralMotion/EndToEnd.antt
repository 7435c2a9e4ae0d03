-- ===== src/PeripheralMotion/EndToEnd.antt =====
-- One axis from src/esb_peripheral.c to src/central_input.c: the totals on the peripheral, the deltas
-- on the central.
use mathlib.Core.Path.{subst}
use zmk_feature_split_esb.Prelude.{
  ℕ, ◌+◌, ◌-◌, ◌%◌, ◌^◌, ◌≤◌, ◌<◌, ◌≡◌, refl, sym, ◌∙◌, ap, true, Option, none, List, [], ◌∷◌,
  arith, if_true, ◌≢◌,
}
use zmk_feature_split_esb.Prelude.Int.{
  ℤ, pos, negsuc, pos_part, neg_part, ◌+ℤ◌, IsInt, to_word, of_word, to_word-lt, int_laws,
}
use zmk_feature_split_esb.CentralInput.Deliver.{or_zero}
use zmk_feature_split_esb.Totals.Motion.{
  MotionTrack, resync_counts, motion_total_add, motion_track_gap, wrapped_gap, motion_track_delta,
  motion_track_short_delta, short_of, motion_track_short_delta_agrees, word_back,
}

-- What becomes of a report of motion: it is lost, or its total arrives, or it is lost and the next
-- keepalive brings the low 16 bits of the total.
pub data Fate : Type 0 where
  lost arrives healed : Fate

unfoldable pub receive : Fate → MotionTrack → ℤ → Option ℤ × MotionTrack
unfolding motion_track_delta motion_track_short_delta short_of
receive lost track total = (none, track)
receive arrives track total = motion_track_delta track total
receive healed track total = motion_track_short_delta track (short_of total)

-- The sum of what the central forwards over a run of reports, from a total and a track.
unfoldable pub forwarded : List (ℤ × Fate) → ℤ → MotionTrack → ℤ
unfolding motion_total_add receive
forwarded [] total track = pos 0
forwarded ((value, fate) ∷ reports) total track =
    let next = motion_total_add total value in
    let (delta, after) = receive fate track next in or_zero delta +ℤ forwarded reports next after

abbrev pub moved : List (ℤ × Fate) → ℤ
moved [] = pos 0
moved ((value, fate) ∷ reports) = value +ℤ moved reports

-- What the central has not heard of behind a report, and behind a run.
abbrev pub owed_behind : Fate → ℤ → ℤ
owed_behind lost owed = owed
owed_behind arrives owed = pos 0
owed_behind healed owed = pos 0

abbrev pub owed_after : List (ℤ × Fate) → ℤ → ℤ
owed_after [] owed = owed
owed_after ((value, fate) ∷ reports) owed = owed_after reports (owed_behind fate (owed +ℤ value))

-- Between two that get through, no more is lost than the central takes for motion.
abbrev pub IsSmall : ℤ → Type 0
IsSmall z = (pos_part z ≤ resync_counts) × (neg_part z ≤ resync_counts)

abbrev pub LossIsSmall : List (ℤ × Fate) → ℤ → Type 0
LossIsSmall [] owed = Unit
LossIsSmall ((value, lost) ∷ reports) owed = LossIsSmall reports (owed +ℤ value)
LossIsSmall ((value, arrives) ∷ reports) owed =
    IsSmall (owed +ℤ value) × LossIsSmall reports (pos 0)
LossIsSmall ((value, healed) ∷ reports) owed = IsSmall (owed +ℤ value) × LossIsSmall reports (pos 0)

-- The total is the central's baseline and what is owed, as words of 32 bits.
pub record IsOwed (total : ℤ) (track : MotionTrack) (owed : ℤ) : Type 0 where
  pub valid : track.valid ≡ true
  pub word : to_word 32 total ≡ (to_word 32 track.last_total + to_word 32 owed) % 2 ^ 32

to_word-of_word : (n : ℕ) → n < 2 ^ 32 → to_word 32 (of_word 32 n) ≡ n
unfolding to_word of_word
to_word-of_word n h = ground arith

to_word-add : (a b : ℤ) → to_word 32 (a +ℤ b) ≡ (to_word 32 a + to_word 32 b) % 2 ^ 32
unfolding to_word ◌+ℤ◌
to_word-add (pos a) (pos b) = ground arith
to_word-add (pos a) (negsuc b) = ground arith
to_word-add (negsuc a) (pos b) = ground arith
to_word-add (negsuc a) (negsuc b) = ground arith

to_word-motion_total_add :
    (a b : ℤ) → to_word 32 (motion_total_add a b) ≡ (to_word 32 a + to_word 32 b) % 2 ^ 32
unfolding motion_total_add
to_word-motion_total_add a b = to_word-of_word _ (omega arith)

-- A report adds to what is owed.
add-IsOwed :
    (total value owed : ℤ) (track : MotionTrack)
    → IsOwed total track owed
    → IsOwed (motion_total_add total value) track (owed +ℤ value)
add-IsOwed total value owed track w = record {
  valid = w.valid;
  word = omega (arith, to_word-motion_total_add total value, to_word-add owed value, w.word);
}

-- The gap that the central computes is what is owed.
gap_owed :
    (total owed : ℤ) (track : MotionTrack)
    → IsOwed total track owed
    → IsSmall owed
    → wrapped_gap total track.last_total ≡ owed
unfolding wrapped_gap
gap_owed total owed track w small =
    let e : (to_word 32 total + (2 ^ 32 - to_word 32 track.last_total)) % 2 ^ 32 ≡ to_word 32 owed =
      omega
        (arith, w.word, to_word-lt 32 total, to_word-lt 32 track.last_total, to_word-lt 32 owed) in
    ap (of_word 32) e ∙ word_back owed (omega (arith, small.0), omega (arith, small.1))

gap_forwarded :
    (track : MotionTrack) (owed : ℤ) → IsSmall owed → or_zero (motion_track_gap track owed).0 ≡ owed
unfolding motion_track_gap
gap_forwarded track (pos n) small = ground (arith, small.0)
gap_forwarded track (negsuc n) small = ground (arith, small.1)

to_word-zero : to_word 32 (pos 0) ≡ 0
unfolding to_word
to_word-zero = refl

gap_baseline :
    (total owed : ℤ) (track : MotionTrack)
    → IsOwed total track owed
    → IsOwed total (motion_track_gap track owed).1 (pos 0)
unfolding motion_track_gap
gap_baseline total owed track w = record {
  valid = w.valid;
  word = omega (arith, w.word, to_word-motion_total_add track.last_total owed, to_word-zero);
}

-- It forwards what is owed, and owes nothing then.
arrives_lem :
    (total owed : ℤ) (track : MotionTrack)
    → IsOwed total track owed
    → IsSmall owed
    → (or_zero (motion_track_delta track total).0 ≡ owed)
      × IsOwed total (motion_track_delta track total).1 (pos 0)
unfolding motion_track_delta
arrives_lem total owed track w small =
    let e : motion_track_delta track total ≡ motion_track_gap track owed =
      if_true (motion_track_gap track (wrapped_gap total track.last_total))
        (none, record { last_total = total; valid = true }) w.valid
      ∙ ap (motion_track_gap track) (gap_owed total owed track w small) in
    subst (λ (r : Option ℤ × MotionTrack). (or_zero r.0 ≡ owed) × IsOwed total r.1 (pos 0)) (sym e)
      (gap_forwarded track owed small, gap_baseline total owed track w)

receive_lem :
    (fate : Fate) (total owed : ℤ) (track : MotionTrack)
    → IsOwed total track owed
    → IsSmall owed
    → fate ≢ lost
    → (or_zero (receive fate track total).0 ≡ owed)
      × IsOwed total (receive fate track total).1 (pos 0)
unfolding receive
receive_lem lost total owed track w small n = absurd (n refl)
receive_lem arrives total owed track w small n = arrives_lem total owed track w small
receive_lem healed total owed track w small n =
    let gap = gap_owed total owed track w small in
    let e =
      motion_track_short_delta_agrees track total w.valid
        (subst (IsInt 16) (sym gap) (omega (arith, small.0), omega (arith, small.1))) in
    subst (λ (r : Option ℤ × MotionTrack). (or_zero r.0 ≡ owed) × IsOwed total r.1 (pos 0)) (sym e)
      (arrives_lem total owed track w small)

+ℤ_assoc : (a b c : ℤ) → a +ℤ b +ℤ c ≡ a +ℤ (b +ℤ c)
+ℤ_assoc a b c = omega int_laws

zero-+ℤ : (a : ℤ) → pos 0 +ℤ a ≡ a
zero-+ℤ a = omega int_laws

-- One report that gets through: `d` is forwarded, and then `f`, and `a` is still owed.
forward_told :
    (d f a owed value m : ℤ)
    → d ≡ owed +ℤ value
    → f +ℤ a ≡ pos 0 +ℤ m
    → d +ℤ f +ℤ a ≡ owed +ℤ (value +ℤ m)
forward_told d f a owed value m told ih =
    +ℤ_assoc d f a
    ∙ ap (λ t. t +ℤ (f +ℤ a)) told
    ∙ ap (λ t. owed +ℤ value +ℤ t) (ih ∙ zero-+ℤ m)
    ∙ +ℤ_assoc owed value m

-- What the central forwards of one axis, with what it has not heard of yet, is what was reported,
-- whichever reports are lost and whichever total, whole or short, makes up for them, for a tracked
-- axis that never owes more than the resynchronisation limit when a total gets through; the totals
-- may wrap.
pub forwarded-moved :
    (reports : List (ℤ × Fate)) (total owed : ℤ) (track : MotionTrack)
    → IsOwed total track owed
    → LossIsSmall reports owed
    → forwarded reports total track +ℤ owed_after reports owed ≡ owed +ℤ moved reports
unfolding forwarded
forwarded-moved [] total owed track w small = omega int_laws
forwarded-moved ((value, lost) ∷ reports) total owed track w small =
    let ih =
      forwarded-moved reports (motion_total_add total value) (owed +ℤ value) track
        (add-IsOwed total value owed track w) small in
    ap (λ t. t +ℤ owed_after reports (owed +ℤ value))
      (zero-+ℤ (forwarded reports (motion_total_add total value) track))
    ∙ ih
    ∙ +ℤ_assoc owed value (moved reports)
forwarded-moved ((value, arrives) ∷ reports) total owed track w (now, small) =
    let next = motion_total_add total value in
    let (told, after) =
      receive_lem arrives next (owed +ℤ value) track (add-IsOwed total value owed track w) now
        (λ e. cc) in
    let ih = forwarded-moved reports next (pos 0) (receive arrives track next).1 after small in
    forward_told (or_zero (receive arrives track next).0)
      (forwarded reports next (receive arrives track next).1) (owed_after reports (pos 0)) owed
      value (moved reports) told ih
forwarded-moved ((value, healed) ∷ reports) total owed track w (now, small) =
    let next = motion_total_add total value in
    let (told, after) =
      receive_lem healed next (owed +ℤ value) track (add-IsOwed total value owed track w) now
        (λ e. cc) in
    let ih = forwarded-moved reports next (pos 0) (receive healed track next).1 after small in
    forward_told (or_zero (receive healed track next).0)
      (forwarded reports next (receive healed track next).1) (owed_after reports (pos 0)) owed value
      (moved reports) told ih
