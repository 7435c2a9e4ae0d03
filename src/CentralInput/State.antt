-- ===== src/CentralInput/State.antt =====
-- src/central_input.c: the tables of a pipe. A slot that a C function answers with is written in
-- place here: `none` is the C code's NULL or -ENOMEM.
use zmk_feature_split_esb.Prelude.{
  ℕ, Bool, true, false, ◌&&◌, not, ltb, ◌==◌, if◌then◌else◌, Option, none, some, List, [], ◌∷◌, map,
}
use zmk_feature_split_esb.Prelude.Int.{ℤ, pos}
use zmk_feature_split_esb.Prelude.Bits.{set_bit}
use mathlib.Core.Option.{map as map_option}
use zmk_feature_split_esb.Keepalive.Codec.{HeldKey}
use zmk_feature_split_esb.Totals.Motion.{MotionTrack}

-- CENTRAL_INPUT_REG_MAX
abbrev pub reg_max : ℕ
reg_max = 32

-- `struct zmk_split_transport_peripheral_event` with an input event.
pub record InputEvent : Type 0 where
  pub reg : ℕ
  pub type : ℕ
  pub code : ℕ
  pub value : ℤ
  pub sync : ℕ

pub record TrackedKey : Type 0 where
  pub held : Bool
  pub key : HeldKey

pub record TrackedMotion : Type 0 where
  pub used : Bool
  pub reg : ℕ
  pub code : ℕ
  pub track : MotionTrack

-- What the static arrays hold for one pipe; the lengths of `keys` and `motions` are fixed.
pub record Pipe : Type 0 where
  pub seen_input_regs : ℕ
  pub keys : List TrackedKey
  pub motions : List TrackedMotion
  pub motion_heard_ms : ℕ
  pub reset_wanted : Bool

unfoldable pub note_input_reg : ℕ → Pipe → Pipe
note_input_reg reg p =
    if ltb reg reg_max then record p { seen_input_regs = set_bit p.seen_input_regs reg } else p

unfoldable pub input_keys_equal : HeldKey → HeldKey → Bool
input_keys_equal left right = if not (left.reg == right.reg) then false else left.code == right.code

unfoldable pub is_held_as : HeldKey → TrackedKey → Bool
unfolding input_keys_equal
is_held_as key slot = slot.held && input_keys_equal slot.key key

-- Whether `find_tracked_input_key` finds a slot.
unfoldable pub tracks_key : HeldKey → List TrackedKey → Bool
unfolding is_held_as
tracks_key key [] = false
tracks_key key (slot ∷ slots) = if is_held_as key slot then true else tracks_key key slots

unfoldable pub track_input_key : HeldKey → List TrackedKey → Option (List TrackedKey)
track_input_key key [] = none
track_input_key key (slot ∷ slots) =
    let rest = track_input_key key slots in
    if not slot.held
    then some (record { held = true; key = key } ∷ slots)
    else map_option (λ tracked. slot ∷ tracked) rest

unfoldable pub untrack_input_key : HeldKey → List TrackedKey → List TrackedKey
unfolding is_held_as
untrack_input_key key [] = []
untrack_input_key key (slot ∷ slots) =
    let rest = untrack_input_key key slots in
    if is_held_as key slot then record slot { held = false } ∷ slots else slot ∷ rest

unfoldable pub apply_input_reset : Pipe → Pipe
apply_input_reset p = if not p.reset_wanted then p else record p {
  reset_wanted = false;
  keys = map (λ (slot : TrackedKey). record slot { held = false }) p.keys;
  motions = map (λ (slot : TrackedMotion). record slot { used = false }) p.motions;
}

-- `find_motion_track`: what to do with the track that it finds, if any, is `step`; it answers with
-- a part to keep beside the track.
unfoldable pub at_motion_track {ℓ} :
    {A : Type ℓ}
    → ℕ
    → ℕ
    → (MotionTrack → A × MotionTrack)
    → List TrackedMotion
    → Option (A × List TrackedMotion)
at_motion_track reg code step [] = none
at_motion_track reg code step (slot ∷ slots) =
    let rest = at_motion_track reg code step slots in
    let (answer, track) = step slot.track in
    if slot.used && (slot.reg == reg && slot.code == code)
    then some (answer, record slot { track = track } ∷ slots)
    else map_option (λ found. (found.0, slot ∷ found.1)) rest

-- The part of `claim_motion_track` that takes a free slot.
unfoldable pub at_free_track {ℓ} :
    {A : Type ℓ}
    → ℕ
    → ℕ
    → (MotionTrack → A × MotionTrack)
    → List TrackedMotion
    → Option (A × List TrackedMotion)
at_free_track reg code step [] = none
at_free_track reg code step (slot ∷ slots) =
    let rest = at_free_track reg code step slots in
    let (answer, track) = step (record { last_total = pos 0; valid = false }) in
    if not slot.used
    then some (answer, record { used = true; reg = reg; code = code; track = track } ∷ slots)
    else map_option (λ found. (found.0, slot ∷ found.1)) rest

unfoldable pub at_claimed_track {ℓ} :
    {A : Type ℓ}
    → ℕ
    → ℕ
    → (MotionTrack → A × MotionTrack)
    → List TrackedMotion
    → Option (A × List TrackedMotion)
unfolding at_motion_track at_free_track
at_claimed_track reg code step motions = elim (at_motion_track reg code step motions) [
  | some found ↦ some found
  | none ↦ at_free_track reg code step motions
]
