-- ===== src/Tests/CentralInput.antt =====
-- src/central_input.c.
use zmk_feature_split_esb.Prelude.{ℕ, refl, true, false, List, [], ◌∷◌, ◌++◌, replicate, arith}
use zmk_feature_split_esb.Prelude.Int.{pos}
use zmk_feature_split_esb.Keepalive.Codec.{HeldKey}
use zmk_feature_split_esb.CentralInput.State.{InputEvent, Pipe, tracks_key, apply_input_reset}
use zmk_feature_split_esb.CentralInput.Deliver.{deliver_to}
use zmk_feature_split_esb.CentralInput.Reconcile.{reconcile}
use zmk_feature_split_esb.CentralInput.Distinct.{IsDistinct}
use zmk_feature_split_esb.CentralInput.Distinct.Reconcile.{apply_input_reset-IsDistinct}
use zmk_feature_split_esb.CentralInput.Told.{IsTold}
use zmk_feature_split_esb.CentralInput.Told.Motion.{reconcile-IsTold}
use zmk_feature_split_esb.CentralInput.Told.Deliver.{IsNoted, deliver_to-IsNoted}
use zmk_feature_split_esb.Tests.LittleEndian.{little_endian}

abbrev pub left_button : HeldKey
left_button = record { reg = 1; code = 0x110 }

-- The right button is tracked, and a slot is free.
abbrev pub pipe : Pipe
pipe = record {
  seen_input_regs = 2;
  keys =
      record { held = true; key = record { reg = 1; code = 0x111 } }
      ∷ record { held = false; key = record { reg = 0; code = 0 } }
      ∷ [];
  motions = [];
  motion_heard_ms = 0;
  reset_wanted = false;
}

-- A keepalive that holds the left button only.
abbrev keepalive : List ℕ
keepalive = 0xff ∷ 0 ∷ (replicate 8 0 ++ (90 ∷ 10 ∷ 1 ∷ 1 ∷ 0x10 ∷ 1 ∷ 0 ∷ []))

abbrev pub press : InputEvent
press = record { reg = 1; type = 1; code = 0x110; value = pos 1; sync = 1 }

pipe-IsDistinct : IsDistinct (apply_input_reset pipe).keys
unfolding tracks_key
pipe-IsDistinct = apply_input_reset-IsDistinct pipe (λ e. refl, (λ e. refl, tt))

reconcile-IsTold_example :
    IsTold little_endian 1 2 keepalive left_button
      (apply_input_reset pipe)
      (reconcile little_endian 1 2 40 5000 keepalive pipe)
reconcile-IsTold_example =
    reconcile-IsTold little_endian 1 2 (λ e. omega (arith, e)) keepalive left_button 40 5000 pipe

deliver_to-IsNoted_example :
    IsNoted 1 left_button (apply_input_reset pipe).keys (deliver_to 1 5000 press pipe)
deliver_to-IsNoted_example =
    deliver_to-IsNoted 1 left_button 5000 press pipe (λ e. refl) pipe-IsDistinct
