-- ===== src/Keepalive/Bitmap.antt =====
-- src/esb_keepalive.c: the bitmap of pressed positions, the verdict on a live key event and the
-- search for the next position to reconcile.
use zmk_feature_split_esb.Prelude.{
  ℕ, zero, suc, ◌+◌, ◌-◌, ◌≤◌, ◌<◌, ◌≡◌, refl, ◌≢◌, inl, inr, Bool, true, false, ◌&&◌, not, leb,
  ltb, ◌==◌, if◌then◌else◌, List, length, arith, Bool-cases, ℕ_discrete, dec_lt, ◌↔◌, ◌⊎◌,
}
use mathlib.Core.Path.{subst}
use zmk_feature_split_esb.HopPolicy.Mask.{mask_get, mask_set, mask_get-mask_set}

-- ESB_KEEPALIVE_POSITION_COUNT
abbrev pub position_count : ℕ
position_count = 64

-- Within its range the bitmap is written and read as a channel mask is.
unfoldable pub bitmap_set : List ℕ → ℕ → Bool → List ℕ
unfolding mask_set
bitmap_set bitmap position pressed =
    if leb position_count position then bitmap else mask_set bitmap position pressed

unfoldable pub bitmap_get : List ℕ → ℕ → Bool
unfolding mask_get
bitmap_get bitmap position = if leb position_count position then false else mask_get bitmap position

pub data KeyVerdict : Type 0 where
  forward drop_orphan_release heal_lost_release : KeyVerdict

unfoldable pub key_verdict : List ℕ → ℕ → Bool → KeyVerdict
key_verdict tracked_bitmap position pressed =
    let tracked = bitmap_get tracked_bitmap position in
    if not pressed && not tracked
    then drop_orphan_release
    else if pressed && tracked
    then heal_lost_release
    else forward

-- `a != b` on `bool`.
abbrev pub differ : Bool → Bool → Bool
differ true b = not b
differ false b = b

unfoldable pub diff_from : List ℕ → List ℕ → ℕ → ℕ → ℕ
diff_from tracked received zero position = position_count
diff_from tracked received (suc n) position =
    elim (differ (bitmap_get tracked position) (bitmap_get received position)) [
      | true ↦ position
      | false ↦ diff_from tracked received n (suc position)
    ]

unfoldable pub bitmap_diff_next : List ℕ → List ℕ → ℕ → ℕ
unfolding diff_from
bitmap_diff_next tracked received position =
    diff_from tracked received (position_count - position) position

-- A written position reads back and every other keeps its state; a position of 64 or more is
-- neither written nor read.
pub bitmap_get-bitmap_set :
    (bitmap : List ℕ) (i j : ℕ) (pressed : Bool)
    → 8 ≤ length bitmap
    → bitmap_get (bitmap_set bitmap i pressed) j
      ≡ (if i == j && ltb i position_count then pressed else bitmap_get bitmap j)
unfolding bitmap_get bitmap_set
bitmap_get-bitmap_set bitmap i j pressed h = elim (dec_lt i position_count) [
  | yes l ↦ ground (arith, mask_get-mask_set bitmap i j pressed (omega arith))
  | no g ↦ ground arith
]

-- `next` is the first position from `position` on where the bitmaps differ, or 64 with no such
-- position left.
pub record IsNextDiff (tracked received : List ℕ) (position next : ℕ) : Type 0 where
  pub from : position ≤ next
  pub within : next ≤ position_count
  pub agree_before :
      (j : ℕ) → position ≤ j → j < next → bitmap_get tracked j ≡ bitmap_get received j
  pub differs : (next ≡ position_count) ⊎ (bitmap_get tracked next ≢ bitmap_get received next)

differ→ne : (a b : Bool) → differ a b ≡ true → a ≢ b
differ→ne true b h e = ground arith
differ→ne false b h e = ground arith

agree→eq : (a b : Bool) → differ a b ≡ false → a ≡ b
agree→eq true true h = refl
agree→eq false false h = refl
agree→eq true false h = absurd (cc)
agree→eq false true h = absurd (cc)

diff_from-IsNextDiff :
    (tracked received : List ℕ) (n position : ℕ)
    → position + n ≡ position_count
    → IsNextDiff tracked received position (diff_from tracked received n position)
unfolding diff_from
diff_from-IsNextDiff tracked received zero position e = record {
  from = omega arith;
  within = omega arith;
  agree_before = λ j l k. absurd (omega arith);
  differs = inl refl;
}
diff_from-IsNextDiff tracked received (suc n) position e =
    elim (Bool-cases (differ (bitmap_get tracked position) (bitmap_get received position))) [
      | inl d ↦
          rw (d, diff_from)
            (record {
              from = omega arith;
              within = omega arith;
              agree_before = λ j l k. absurd (omega arith);
              differs = inr (differ→ne _ _ d);
            })
      | inr d ↦
          rw (d, diff_from)
            (later d (diff_from-IsNextDiff tracked received n (suc position) (omega arith)))
    ]
  where
    later :
        {next : ℕ}
        → differ (bitmap_get tracked position) (bitmap_get received position) ≡ false
        → IsNextDiff tracked received (suc position) next
        → IsNextDiff tracked received position next
    later d h = record {
      from = omega (arith, h.from);
      within = h.within;
      agree_before = λ j l k. elim (ℕ_discrete position j) [
        | yes p ↦ subst (λ q. bitmap_get tracked q ≡ bitmap_get received q) p (agree→eq _ _ d)
        | no p ↦ h.agree_before j (omega arith) k
      ];
      differs = h.differs;
    }

-- The search answers with the first difference from the start on, or with 64.
pub bitmap_diff_next-IsNextDiff :
    (tracked received : List ℕ) (position : ℕ)
    → position ≤ position_count
    → IsNextDiff tracked received position (bitmap_diff_next tracked received position)
unfolding bitmap_diff_next
bitmap_diff_next-IsNextDiff tracked received position h =
    diff_from-IsNextDiff tracked received (position_count - position) position (omega arith)

-- An event is dropped exactly if it is a release that is not tracked, healed first exactly if it is
-- a press that is tracked, and forwarded exactly if it changes the tracked state.
pub key_verdict_iff :
    (bitmap : List ℕ) (position : ℕ) (pressed : Bool)
    → ((key_verdict bitmap position pressed ≡ forward) ↔ (bitmap_get bitmap position ≢ pressed))
      × ((key_verdict bitmap position pressed ≡ drop_orphan_release)
          ↔ ((pressed ≡ false) × (bitmap_get bitmap position ≡ false)))
      × ((key_verdict bitmap position pressed ≡ heal_lost_release)
          ↔ ((pressed ≡ true) × (bitmap_get bitmap position ≡ true)))
unfolding key_verdict
key_verdict_iff bitmap position pressed =
    ((ground arith, ground arith), (ground arith, ground arith), (ground arith, ground arith))
