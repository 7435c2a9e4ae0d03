-- ===== src/CentralKeys/Laws.antt =====
-- What src/central.c hands to ZMK for a pipe's keys.
use zmk_feature_split_esb.Prelude.{
  ℕ, zero, suc, ◌+◌, ◌≤◌, ◌<◌, ◌≡◌, ◌≢◌, refl, sym, ◌∙◌, ◌||◌, Bool, true, false, leb, ltb, List,
  [], ◌∷◌, length, get_or, set, get_or-set, arith, inl, inr, dec_lt,
}
use mathlib.Core.Path.{subst, ap₂}
use zmk_feature_split_esb.HopPolicy.Mask.{length-mask_set}
use zmk_feature_split_esb.Keepalive.Bitmap.{
  position_count, bitmap_set, bitmap_get, bitmap_diff_next, KeyVerdict, forward,
  drop_orphan_release, heal_lost_release, key_verdict, bitmap_get-bitmap_set, IsNextDiff,
  bitmap_diff_next-IsNextDiff, key_verdict_iff,
}
use zmk_feature_split_esb.CentralKeys.{
  pipe_max, KeyEvent, deliver_verdict, deliver_key_event, replay_from, replay_tracked,
  replay_position_diff,
}

-- The bitmaps hold the same keys down.
abbrev pub SameKeys : List ℕ → List ℕ → Type 0
SameKeys a b = (j : ℕ) → bitmap_get a j ≡ bitmap_get b j

-- A run of events in which each changes the state of its key, from one bitmap to another: no key is
-- pressed twice without a release between, and none is released that is up.
pub data IsAlternating : List ℕ → List KeyEvent → List ℕ → Type 0 where
  settled : {a b : List ℕ} → SameKeys a b → IsAlternating a [] b
  changes :
      {a b : List ℕ} {e : KeyEvent} {es : List KeyEvent}
      → e.position < position_count
      → bitmap_get a e.position ≢ e.pressed
      → IsAlternating (bitmap_set a e.position e.pressed) es b
      → IsAlternating a (e ∷ es) b

length-bitmap_set : (b : List ℕ) (i : ℕ) (v : Bool) → length (bitmap_set b i v) ≡ length b
unfolding bitmap_set
length-bitmap_set b i v = ground (arith, length-mask_set b i v)

bitmap_get-bitmap_set_self :
    (b : List ℕ) (i : ℕ) (v : Bool)
    → 8 ≤ length b
    → i < position_count
    → bitmap_get (bitmap_set b i v) i ≡ v
bitmap_get-bitmap_set_self b i v h l = ground (arith, bitmap_get-bitmap_set b i i v h)

bitmap_get-bitmap_set_ne :
    (b : List ℕ) (i j : ℕ) (v : Bool)
    → 8 ≤ length b
    → i ≢ j
    → bitmap_get (bitmap_set b i v) j ≡ bitmap_get b j
bitmap_get-bitmap_set_ne b i j v h n = ground (arith, bitmap_get-bitmap_set b i j v h)

-- The events that ZMK is due for a live one, by whether its key is down and whether it is a press: a
-- press of a key that is down has its lost release first, and the release of one that is up is none.
abbrev pub live_events : Bool → Bool → KeyEvent → List KeyEvent
live_events true true e = record e { pressed = false } ∷ e ∷ []
live_events true false e = e ∷ []
live_events false true e = e ∷ []
live_events false false e = []

live_events-changed :
    (down pressed : Bool) (e : KeyEvent) → down ≢ pressed → live_events down pressed e ≡ e ∷ []
live_events-changed true true e n = absurd (n refl)
live_events-changed true false e n = refl
live_events-changed false true e n = refl
live_events-changed false false e n = absurd (n refl)

-- The events of one pipe are those due.
deliver_verdict-live_events :
    (e : KeyEvent) (b : List ℕ) (v : KeyVerdict)
    → key_verdict b e.position e.pressed ≡ v
    → (deliver_verdict v e b).0 ≡ live_events (bitmap_get b e.position) e.pressed e
unfolding deliver_verdict
deliver_verdict-live_events e b forward q =
    sym (live_events-changed _ _ e ((key_verdict_iff b e.position e.pressed).0.0 q))
deliver_verdict-live_events e b drop_orphan_release q =
    let (up, off) = (key_verdict_iff b e.position e.pressed).1.0 q in rw (off, up) refl
deliver_verdict-live_events e b heal_lost_release q =
    let (down, on) = (key_verdict_iff b e.position e.pressed).2.0 q in
    sym (ap₂ (λ (x y : Bool). live_events x y e) on down)

-- Delivering an event to one pipe: the events alternate and the key ends as the event says.
deliver_verdict-IsAlternating :
    (e : KeyEvent) (b : List ℕ) (v : KeyVerdict)
    → 8 ≤ length b
    → e.position < position_count
    → key_verdict b e.position e.pressed ≡ v
    → IsAlternating b (deliver_verdict v e b).0 (deliver_verdict v e b).1
      × (bitmap_get (deliver_verdict v e b).1 e.position ≡ e.pressed)
unfolding deliver_verdict
deliver_verdict-IsAlternating e b forward h l q =
    let n = (key_verdict_iff b e.position e.pressed).0.0 q in
    (changes l n (settled (λ j. refl)), bitmap_get-bitmap_set_self b e.position e.pressed h l)
deliver_verdict-IsAlternating e b drop_orphan_release h l q =
    let (up, off) = (key_verdict_iff b e.position e.pressed).1.0 q in
    (settled (λ j. refl), off ∙ sym up)
deliver_verdict-IsAlternating e b heal_lost_release h l q =
    let (down, on) = (key_verdict_iff b e.position e.pressed).2.0 q in
    let m : 8 ≤ length (bitmap_set b e.position false) =
      omega (arith, length-bitmap_set b e.position false) in
    let off = bitmap_get-bitmap_set_self b e.position false h l in
    (
      changes l (λ z. ground arith)
          (changes l (λ z. ground arith)
            (settled (λ j. ground (
              arith,
              bitmap_get-bitmap_set _ e.position j e.pressed m,
              bitmap_get-bitmap_set b e.position j false h,
              bitmap_get-bitmap_set b e.position j e.pressed h,
            )))),
      bitmap_get-bitmap_set_self b e.position e.pressed h l,
    )

-- With no difference left the keys are the same.
no_diff-SameKeys : (a b : List ℕ) → IsNextDiff a b 0 position_count → SameKeys a b
unfolding bitmap_get
no_diff-SameKeys a b d j = elim (dec_lt j position_count) [
  | yes l ↦ d.agree_before j (omega arith) l
  | no g ↦ ground arith
]

-- A position put right, the search goes on behind it.
next_diff :
    (target b : List ℕ) (position : ℕ)
    → 8 ≤ length b
    → position < position_count
    → IsNextDiff b target 0 position
    → let noted = bitmap_set b position (bitmap_get target position) in
      IsNextDiff noted target 0 (bitmap_diff_next noted target (position + 1))
next_diff target b position h l d =
    let pressed = bitmap_get target position in
    let noted = bitmap_set b position pressed in
    let n = bitmap_diff_next-IsNextDiff noted target (position + 1) (omega arith) in
    let agree : (j : ℕ)
        → 0 ≤ j
        → j < bitmap_diff_next noted target (position + 1)
        → bitmap_get noted j ≡ bitmap_get target j =
      λ j z k. elim (dec_lt position j) [
        | yes p ↦ n.agree_before j (omega arith) k
        | no p ↦ elim (dec_lt j position) [
          | yes q ↦
              bitmap_get-bitmap_set_ne b position j pressed h (omega arith)
              ∙ d.agree_before j (omega arith) q
          | no q ↦
              let e : position ≡ j = omega arith in
              subst (λ i. bitmap_get noted i ≡ bitmap_get target i) e
                (bitmap_get-bitmap_set_self b position pressed h l)
        ]
      ] in
    record { from = omega arith; within = n.within; agree_before = agree; differs = n.differs }

replay_from-IsAlternating :
    (source fuel : ℕ) (target b : List ℕ) (position : ℕ)
    → 8 ≤ length b
    → position_count ≤ position + fuel
    → IsNextDiff b target 0 position
    → IsAlternating b
        (replay_from source fuel target b position).0
        (replay_from source fuel target b position).1
      × SameKeys (replay_from source fuel target b position).1 target
unfolding replay_from
replay_from-IsAlternating source zero target b position h k d =
    let e : position ≡ position_count = omega (arith, d.within) in
    (settled (λ j. refl), no_diff-SameKeys b target (subst (λ p. IsNextDiff b target 0 p) e d))
replay_from-IsAlternating source (suc fuel) target b position h k d =
    elim (dec_lt position position_count) [
      | yes l ↦
          let n = next_diff target b position h l d in
          let m : 8 ≤ length (bitmap_set b position (bitmap_get target position)) =
            omega (arith, length-bitmap_set b position (bitmap_get target position)) in
          let past =
            bitmap_diff_next-IsNextDiff (bitmap_set b position (bitmap_get target position)) target
              (position + 1) (omega arith) in
          let (alternate, same) =
            replay_from-IsAlternating source fuel target _ _ m (omega (arith, past.from)) n in
          let t : ltb position position_count ≡ true = ground arith in
          rw (t) (
            changes l (elim d.differs [ inl e ↦ absurd (omega arith) | inr x ↦ x ]) alternate,
            same,
          )
      | no g ↦
          let e : position ≡ position_count = omega (arith, d.within) in
          let t : ltb position position_count ≡ false = ground arith in
          rw (t) (
            settled (λ j. refl),
            no_diff-SameKeys b target (subst (λ p. IsNextDiff b target 0 p) e d),
          )
    ]

-- The replay on the bitmap of its pipe.
pub replay_tracked-IsAlternating :
    (source : ℕ) (target b : List ℕ)
    → 8 ≤ length b
    → let after = replay_tracked source target b in
      IsAlternating b after.0 after.1 × SameKeys after.1 target
unfolding replay_tracked
replay_tracked-IsAlternating source target b h =
    replay_from-IsAlternating source position_count target b (bitmap_diff_next b target 0) h
      (omega arith) (bitmap_diff_next-IsNextDiff b target 0 (omega arith))

-- What a pipe's keys are after a write of another pipe's, or of its own.
set_pipe :
    (all : List (List ℕ)) (i : ℕ) (b : List ℕ)
    → i < length all
    → (get_or (set all i b) i [] ≡ b)
      × ((j : ℕ) → i ≢ j → get_or (set all i b) j [] ≡ get_or all j [])
set_pipe all i b l =
    (ground (arith, get_or-set all i i b []), λ j n. ground (arith, get_or-set all i j b []))

module _ (tracked_positions : List (List ℕ)) where
  -- A pipe in range that has its bitmap.
  pub record IsTracked (source : ℕ) : Type 0 where
    pub low : source < pipe_max
    pub there : source < length tracked_positions
    pub wide : 8 ≤ length (get_or tracked_positions source [])

  -- A live event of a position reaches ZMK once, after its lost release if it presses a key that is
  -- tracked down, and not at all if it releases one that is up; so what ZMK gets of the pipe are real
  -- changes of the tracked keys, from the tracked state before to the one after, where the key is as
  -- the event says; the keys of the other pipes stay. The pipe is in range and has a map of 8 bytes at
  -- least.
  pub deliver_key_event-IsAlternating :
      (e : KeyEvent)
      → IsTracked e.source
      → e.position < position_count
      → let after = deliver_key_event e tracked_positions in
        (after.0
          ≡ live_events (bitmap_get (get_or tracked_positions e.source []) e.position) e.pressed e)
        × IsAlternating (get_or tracked_positions e.source []) after.0 (get_or after.1 e.source [])
        × (bitmap_get (get_or after.1 e.source []) e.position ≡ e.pressed)
        × ((j : ℕ) → e.source ≢ j → get_or after.1 j [] ≡ get_or tracked_positions j [])
  unfolding deliver_key_event
  deliver_key_event-IsAlternating e t l =
      let b = get_or tracked_positions e.source [] in
      let (alternate, reads) =
        deliver_verdict-IsAlternating e b (key_verdict b e.position e.pressed) t.wide l refl in
      let (own, others) =
        set_pipe tracked_positions e.source
          (deliver_verdict (key_verdict b e.position e.pressed) e b).1 t.there in
      let g : (leb pipe_max e.source || leb position_count e.position) ≡ false =
        ground (arith, t.low) in
      let due = deliver_verdict-live_events e b (key_verdict b e.position e.pressed) refl in
      rw (g, own) (due, alternate, reads, others)

  -- The replay of a keepalive's bitmap, or of the empty one for a silent peripheral: it ends, what
  -- ZMK gets are real changes of the tracked keys, and after them the pipe's tracked keys are those
  -- of the bitmap; the keys of the other pipes stay.
  pub replay_position_diff-IsAlternating :
      (source : ℕ) (target : List ℕ)
      → IsTracked source
      → let after = replay_position_diff source target tracked_positions in
        IsAlternating (get_or tracked_positions source []) after.0 (get_or after.1 source [])
        × SameKeys (get_or after.1 source []) target
        × ((j : ℕ) → source ≢ j → get_or after.1 j [] ≡ get_or tracked_positions j [])
  unfolding replay_position_diff
  replay_position_diff-IsAlternating source target t =
      let b = get_or tracked_positions source [] in
      let (alternate, same) = replay_tracked-IsAlternating source target b t.wide in
      let (own, others) =
        set_pipe tracked_positions source (replay_tracked source target b).1 t.there in
      let g : leb pipe_max source ≡ false = ground (arith, t.low) in
      rw (g, own) (alternate, same, others)
