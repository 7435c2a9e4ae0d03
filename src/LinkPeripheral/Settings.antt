-- ===== src/LinkPeripheral/Settings.antt =====
-- src/esb_link_peripheral.c: the radio settings that wait until the radio is idle.
use zmk_feature_split_esb.Prelude.{
  ℕ, ◌≡◌, refl, sym, ◌∙◌, ap, Bool, true, false, not, ltb, ◌||◌, if◌then◌else◌, List, [], ◌∷◌, ◌⊎◌,
  inl, inr, arith, Bool-cases, if_either, if_split,
}
use zmk_feature_split_esb.Prelude.Int.{ℤ, pos, negsuc, ltb_ℤ}

pub record RadioSetting : Type 0 where
  pub requested : ℤ
  pub applied : ℤ
  pub pending : Bool

-- What the radio answers to a setting: 0, -EBUSY or another error.
pub data RadioAnswer : Type 0 where
  took busy refused : RadioAnswer

-- What a caller hears; -EINVAL is for a value out of its range.
pub data SettingResult : Type 0 where
  done rejected invalid : SettingResult

unfoldable pub settle : RadioAnswer → RadioSetting → SettingResult × RadioSetting
settle took s = (done, record s { pending = false; applied = s.requested })
settle busy s = (done, record s { pending = true })
settle refused s = (rejected, record s { pending = false })

unfoldable pub apply_setting : RadioAnswer → RadioSetting → SettingResult × RadioSetting
unfolding settle
apply_setting answer s = if not s.pending then (done, s) else settle answer s

unfoldable pub request_setting : RadioAnswer → ℤ → RadioSetting → SettingResult × RadioSetting
unfolding apply_setting
request_setting answer value s =
    apply_setting answer (record s { requested = value; pending = true })

-- `esb_link_set_tx_power`, for values of an `int8_t`.
unfoldable pub set_tx_power : RadioAnswer → ℤ → RadioSetting → SettingResult × RadioSetting
unfolding request_setting
set_tx_power answer dbm s =
    if ltb_ℤ dbm (negsuc 127) || ltb_ℤ (pos 127) dbm
    then (invalid, s)
    else request_setting answer dbm s

-- `esb_link_set_retransmit_delay`, for values of a `uint16_t`.
unfoldable pub set_retransmit_delay : RadioAnswer → ℕ → RadioSetting → SettingResult × RadioSetting
unfolding request_setting
set_retransmit_delay answer delay_us s =
    if ltb 0xFFFF delay_us then (invalid, s) else request_setting answer (pos delay_us) s

-- `tx_power_setting`, `retransmit_count_setting` and `retransmit_delay_setting`.
pub record Settings : Type 0 where
  pub tx_power : RadioSetting
  pub retransmit_count : RadioSetting
  pub retransmit_delay : RadioSetting

-- `esb_link_apply_pending`, with the radio's answer to each.
unfoldable pub apply_pending : RadioAnswer → RadioAnswer → RadioAnswer → Settings → Settings
unfolding apply_setting
apply_pending power count delay s = record {
  tx_power = (apply_setting power s.tx_power).1;
  retransmit_count = (apply_setting count s.retransmit_count).1;
  retransmit_delay = (apply_setting delay s.retransmit_delay).1;
}

-- A call for one setting: a request of a value, or the pending one once more.
pub data SettingStep : Type 0 where
  requests : RadioAnswer → ℤ → SettingStep
  applies : RadioAnswer → SettingStep

unfoldable pub step : SettingStep → RadioSetting → RadioSetting
unfolding request_setting apply_setting
step (requests answer value) s = (request_setting answer value s).1
step (applies answer) s = (apply_setting answer s).1

unfoldable pub run : List SettingStep → RadioSetting → RadioSetting
unfolding step
run [] s = s
run (c ∷ cs) s = run cs (step c s)

-- The value that was requested last.
abbrev pub last_requested : List SettingStep → ℤ → ℤ
last_requested [] value = value
last_requested (requests answer value ∷ cs) old = last_requested cs value
last_requested (applies answer ∷ cs) old = last_requested cs old

-- The radio takes every value or is busy.
abbrev pub NoneRefused : List SettingStep → Type 0
NoneRefused [] = Unit
NoneRefused (requests took value ∷ cs) = NoneRefused cs
NoneRefused (requests busy value ∷ cs) = NoneRefused cs
NoneRefused (requests refused value ∷ cs) = false ≡ true
NoneRefused (applies took ∷ cs) = NoneRefused cs
NoneRefused (applies busy ∷ cs) = NoneRefused cs
NoneRefused (applies refused ∷ cs) = false ≡ true

-- A value that does not wait is the radio's.
abbrev pub IsApplied : RadioSetting → Type 0
IsApplied s = s.pending ≡ false → s.applied ≡ s.requested

applies-requested :
    (answer : RadioAnswer) (s : RadioSetting) → (apply_setting answer s).1.requested ≡ s.requested
unfolding apply_setting settle
applies-requested took s =
    if_either (λ (r : SettingResult × RadioSetting). r.1.requested ≡ s.requested) (not s.pending)
      refl refl
applies-requested busy s =
    if_either (λ (r : SettingResult × RadioSetting). r.1.requested ≡ s.requested) (not s.pending)
      refl refl
applies-requested refused s =
    if_either (λ (r : SettingResult × RadioSetting). r.1.requested ≡ s.requested) (not s.pending)
      refl refl

applies_took-IsApplied :
    (s : RadioSetting)
    → IsApplied s
    → ((apply_setting took s).1.applied ≡ s.requested) × ((apply_setting took s).1.pending ≡ false)
unfolding apply_setting settle
applies_took-IsApplied s h =
    if_split
      (λ (r : SettingResult × RadioSetting). (r.1.applied ≡ s.requested) × (r.1.pending ≡ false))
      (not s.pending) (λ e. let idle : s.pending ≡ false = ground (arith, e) in (h idle, idle))
      (λ e. (refl, refl))

applies_busy-IsApplied : (s : RadioSetting) → IsApplied s → IsApplied (apply_setting busy s).1
unfolding apply_setting settle
applies_busy-IsApplied s h =
    if_either (λ (r : SettingResult × RadioSetting). IsApplied r.1) (not s.pending) h
      (λ p. absurd (cc))

requested_lem :
    (answer : RadioAnswer) (value : ℤ) (cs : List SettingStep) (s : RadioSetting)
    → IsApplied (run cs (request_setting answer value s).1)
      × ((run cs (request_setting answer value s).1).requested
          ≡ last_requested cs (request_setting answer value s).1.requested)
    → IsApplied (run cs (request_setting answer value s).1)
      × ((run cs (request_setting answer value s).1).requested ≡ last_requested cs value)
unfolding request_setting
requested_lem answer value cs s (kept, last) = (
  kept,
  last
      ∙ ap (last_requested cs)
          (applies-requested answer (record s { requested = value; pending = true })),
)

run_lem :
    (cs : List SettingStep) (s : RadioSetting)
    → NoneRefused cs
    → IsApplied s
    → IsApplied (run cs s) × ((run cs s).requested ≡ last_requested cs s.requested)
unfolding run step request_setting
run_lem [] s n h = (h, refl)
run_lem (requests took value ∷ cs) s n h = requested_lem took value cs s (
    run_lem cs (request_setting took value s).1 n
      (λ p. unfold request_setting apply_setting settle in refl))
run_lem (requests busy value ∷ cs) s n h = requested_lem busy value cs s (
    run_lem cs (request_setting busy value s).1 n
      (λ p. unfold request_setting apply_setting settle in absurd (cc)))
run_lem (requests refused value ∷ cs) s n h = absurd (cc)
run_lem (applies refused ∷ cs) s n h = absurd (cc)
run_lem (applies took ∷ cs) s n h =
    let (value, idle) = applies_took-IsApplied s h in
    let (kept, last) =
      run_lem cs (apply_setting took s).1 n (λ p. value ∙ sym (applies-requested took s)) in
    (kept, last ∙ ap (last_requested cs) (applies-requested took s))
run_lem (applies busy ∷ cs) s n h =
    let (kept, last) = run_lem cs (apply_setting busy s).1 n (applies_busy-IsApplied s h) in
    (kept, last ∙ ap (last_requested cs) (applies-requested busy s))

waits_or :
    (s : RadioSetting) (value : ℤ)
    → (s.pending ≡ false → s.applied ≡ value)
    → (s.pending ≡ true) ⊎ (s.applied ≡ value)
waits_or s value h = elim (Bool-cases s.pending) [ inl p ↦ inl p | inr p ↦ inr (h p) ]

-- After any requests, each taken by the radio or met by a busy one, a value that does not wait is the
-- radio's and the last requested, and the next time that the radio is idle it takes the last one.
pub run-last_requested :
    (cs : List SettingStep) (s : RadioSetting)
    → NoneRefused cs
    → IsApplied s
    → let value = last_requested cs s.requested in
      let after = run cs s in
      let idle = (apply_setting took after).1 in
      ((after.pending ≡ true) ⊎ (after.applied ≡ value))
      × (idle.applied ≡ value)
      × (idle.pending ≡ false)
run-last_requested cs s n h =
    let (kept, last) = run_lem cs s n h in
    let (value, settled) = applies_took-IsApplied (run cs s) kept in
    (waits_or (run cs s) _ (λ p. kept p ∙ last), value ∙ last, settled)
