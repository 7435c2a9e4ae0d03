-- ===== src/RelayPointer/Totals.antt =====
-- src/esb_hid_relay_pointer.c: a pointer report that is taken and sent brings the dongle up to date.
use zmk_feature_split_esb.Prelude.{
  ℕ, ◌%◌, ◌≤◌, ◌≡◌, ◌≢◌, ◌⊎◌, inl, inr, refl, sym, ◌∙◌, ap, Bool, true, false, ◌&&◌, not, ltb, ◌==◌,
  if_split, Option, none, some, arith,
}
use mathlib.Core.Path.{subst, ap₂}
use zmk_feature_split_esb.Prelude.Int.{ℤ, eq_of_parts}
use zmk_feature_split_esb.Totals.Motion.{short_of}
use zmk_feature_split_esb.RelayDongle.{pointer_length}
use zmk_feature_split_esb.RelayPointer.{
  Axes, Body, Pointer, same_ℤ, same_axes, short_totals, stamp_totals, report_buttons,
  body_is_written, pointer_take, motion_pending, pointer_sent,
}

same_ℤ_refl : (a : ℤ) → same_ℤ a a ≡ true
same_ℤ_refl a = ground arith

same_ℤ_eq : (a b : ℤ) → same_ℤ a b ≡ true → a ≡ b
same_ℤ_eq a b h = eq_of_parts a b (ground (arith, h))

same_axes_refl : (a : Axes) → same_axes a a ≡ true
same_axes_refl a =
    let x = same_ℤ_refl a.d_x in
    let y = same_ℤ_refl a.d_y in
    let v = same_ℤ_refl a.d_scroll_y in let w = same_ℤ_refl a.d_scroll_x in rw (x, y, v, w) refl

and_parts : (b c : Bool) → (b && c) ≡ true → (b ≡ true) × (c ≡ true)
and_parts true c h = (refl, h)
and_parts false c h = absurd (cc)

same_axes_eq : (a b : Axes) → same_axes a b ≡ true → a ≡ b
same_axes_eq a b h =
    let (x, r) = and_parts _ _ h in
    let (y, s) = and_parts _ _ r in
    let (v, w) = and_parts _ _ s in
    let p = same_ℤ_eq a.d_x b.d_x x in
    let q = same_ℤ_eq a.d_y b.d_y y in
    let t = same_ℤ_eq a.d_scroll_y b.d_scroll_y v in
    let u = same_ℤ_eq a.d_scroll_x b.d_scroll_x w in
    λ i. record { d_x = p i; d_y = q i; d_scroll_y = t i; d_scroll_x = u i }

body_is_written_eq : (body : Body) (p : Pointer) → body_is_written body p ≡ true → p.written ≡ body
unfolding body_is_written
body_is_written_eq body p h =
    let (b, a) = and_parts (body.buttons == p.written.buttons) _ h in
    let c : p.written.buttons ≡ body.buttons = ground (arith, b) in
    let d = same_axes_eq body.axes p.written.axes a in λ i. record { buttons = c i; axes = sym d i }

body_is_written-same :
    (body : Body) (p : Pointer) → p.written ≡ body → body_is_written body p ≡ true
unfolding body_is_written
body_is_written-same body p e =
    let b : (body.buttons == p.written.buttons) ≡ true =
      ground (arith, ap (λ (w : Body). w.buttons) e) in
    let a : same_axes body.axes p.written.axes ≡ true =
      ap (same_axes body.axes) (ap (λ (w : Body). w.axes) e) ∙ same_axes_refl body.axes in
    ap₂ (λ (x y : Bool). x && y) b a

-- The pointer after the report, if there is one, is sent.
abbrev pub after_sent : Option Body → Pointer → Pointer
after_sent none p = p
after_sent (some body) p = pointer_sent body p

-- The totals of the four sums.
abbrev totals : Axes → Axes
totals sums = record {
  d_x = short_of sums.d_x;
  d_y = short_of sums.d_y;
  d_scroll_y = short_of sums.d_scroll_y;
  d_scroll_x = short_of sums.d_scroll_x;
}

-- The state that the dongle is to have. Paused, no button and the totals that it has; active, the
-- totals of the sums, with the buttons that it has while changes of them are still queued before the
-- report, and those held now otherwise.
abbrev pub due : Bool → Bool → Pointer → Body
due false changes_queued p = record { buttons = 0; axes = p.written.axes }
due true true p = record { buttons = p.written.buttons; axes = totals p.sums }
due true false p = record { buttons = p.buttons % 256; axes = totals p.sums }

-- The report that the code makes up.
abbrev report_body : Bool → Bool → Pointer → Body
report_body active changes_queued p = record {
  buttons = report_buttons active changes_queued p;
  axes = stamp_totals active p;
}

report_body-due :
    (active changes_queued : Bool) (p : Pointer)
    → report_body active changes_queued p ≡ due active changes_queued p
unfolding report_buttons stamp_totals short_totals
report_body-due true true p = refl
report_body-due true false p = refl
report_body-due false changes_queued p = refl

written_sent : (body : Body) (p : Pointer) → (pointer_sent body p).written ≡ body
unfolding pointer_sent
written_sent body p = refl

sent_quiet : (body : Body) (p : Pointer) → (pointer_sent body p).refresh_due ≡ false
unfolding pointer_sent
sent_quiet body p = refl

-- Whether a report is taken: none if the dongle has what is due and no refresh is, and what is due
-- otherwise.
abbrev pub IsTaken : Bool → Bool → Pointer → Option Body → Type 0
IsTaken active changes_queued p taken =
    ((taken ≡ none) × (p.written ≡ due active changes_queued p) × (p.refresh_due ≡ false))
    ⊎ ((taken ≡ some (due active changes_queued p))
        × ((p.written ≢ due active changes_queued p) ⊎ (p.refresh_due ≡ true)))

-- What is sent leaves the dongle with what is due, and nothing more to take, whatever room the next
-- reply has, and no motion pending.
pub record IsSettled (active changes_queued : Bool) (p after : Pointer) : Type 0 where
  pub written : after.written ≡ due active changes_queued p
  pub same_due : due active changes_queued after ≡ due active changes_queued p
  pub nothing_more : (room : ℕ) → pointer_take active room changes_queued after ≡ none
  pub no_motion : motion_pending active after ≡ false

due-sent :
    (active changes_queued : Bool) (p : Pointer)
    → due active changes_queued (pointer_sent (due active changes_queued p) p)
      ≡ due active changes_queued p
unfolding pointer_sent
due-sent true true p = refl
due-sent true false p = refl
due-sent false changes_queued p = refl

settled :
    (active changes_queued : Bool) (p after : Pointer)
    → after.written ≡ due active changes_queued p
    → due active changes_queued after ≡ due active changes_queued p
    → after.refresh_due ≡ false
    → IsSettled active changes_queued p after
unfolding pointer_take motion_pending
settled active changes_queued p after w d r =
    let e = w ∙ sym d ∙ sym (report_body-due active changes_queued after) in
    let same = body_is_written-same (report_body active changes_queued after) after e in
    let axes = ap (λ (b : Body). b.axes) e in
    record {
      written = w;
      same_due = d;
      nothing_more = λ room. ground (arith, same, r);
      no_motion =
          ap (λ b. not b)
            (body_is_written-same (record after.written { axes = stamp_totals active after }) after
              (λ i. record after.written { axes = axes i }));
    }

not_written :
    (body : Body) (p : Pointer) (refresh_due : Bool)
    → (body_is_written body p && not refresh_due) ≡ false
    → (p.written ≢ body) ⊎ (refresh_due ≡ true)
not_written body p true h = inr refl
not_written body p false h = inl (λ e. absurd (ground (arith, h, body_is_written-same body p e)))

-- A reply with room takes the report that is due unless the dongle has it and no refresh is due; once
-- what was taken is sent, the dongle has the buttons and the totals that are due, nothing more is
-- taken and no motion waits, whether the relay is active or paused and whether or not changes are
-- queued before the report.
pub pointer_take-IsSettled :
    (active changes_queued : Bool) (room : ℕ) (p : Pointer)
    → pointer_length ≤ room
    → IsTaken active changes_queued p (pointer_take active room changes_queued p)
      × IsSettled active changes_queued p (after_sent (pointer_take active room changes_queued p) p)
unfolding pointer_take
pointer_take-IsSettled active changes_queued room p h =
    let body = report_body active changes_queued p in
    let is_due = report_body-due active changes_queued p in
    let P : Option Body → Type 0 =
      λ o. IsTaken active changes_queued p o × IsSettled active changes_queued p (after_sent o p) in
    if_split P (ltb room pointer_length) (λ e. absurd (ground (arith, e, h)))
      (λ e.
        if_split P (body_is_written body p && not p.refresh_due)
          (λ w.
            let (same, quiet) = and_parts (body_is_written body p) _ w in
            let has : p.written ≡ due active changes_queued p =
              body_is_written_eq body p same ∙ is_due in
            let calm : p.refresh_due ≡ false = ground (arith, quiet) in
            (inl (refl, has, calm), settled active changes_queued p p has refl calm))
          (λ w. (
            inr (
              ap some is_due,
              subst (λ b. (p.written ≢ b) ⊎ (p.refresh_due ≡ true)) is_due
                  (not_written body p p.refresh_due w),
            ),
            settled active changes_queued p (pointer_sent body p) (written_sent body p ∙ is_due)
                (subst
                  (λ b. due active changes_queued (pointer_sent b p) ≡ due active changes_queued p)
                  (sym is_due) (due-sent active changes_queued p))
                (sent_quiet body p),
          )))
