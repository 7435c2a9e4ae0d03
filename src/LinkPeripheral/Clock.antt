-- ===== src/LinkPeripheral/Clock.antt =====
-- src/esb_link_peripheral.c and src/esb_link_hfclk.c: the clock that the radio needs, held while packets
-- may leave and released while an idle keyboard's radio rests.
use zmk_feature_split_esb.Prelude.{◌≡◌, Bool, true, false, not, if◌then◌else◌, List, [], ◌∷◌, arith}
use zmk_feature_split_esb.HopPolicy.Grade.{hfclk_release_allowed}

-- `hfclk_held`, `hfclk_gating`, and whether `hfclk_release_work` is scheduled.
pub record Clock : Type 0 where
  pub held : Bool
  pub gating : Bool
  pub release_due : Bool

-- `starts` is whether the clock starts when it is asked for.
unfoldable pub hfclk_acquire : Bool → Clock → Clock
hfclk_acquire starts k = if not k.held then record k { held = starts } else k

unfoldable pub hfclk_release : Clock → Clock
hfclk_release k = record k { held = false }

-- The delayed work; `radio_idle` is `esb_is_idle`.
unfoldable pub release_work : Bool → Clock → Clock
unfolding hfclk_release_allowed hfclk_release
release_work radio_idle k =
    let ran : Clock = record k { release_due = false } in
    if hfclk_release_allowed k.gating radio_idle
    then hfclk_release ran
    else if k.gating
    then record ran { release_due = true }
    else ran

unfoldable pub gate_hold : Bool → Clock → Clock
unfolding hfclk_acquire
gate_hold starts k =
    let acquired = hfclk_acquire starts k in
    if k.gating then record acquired { release_due = true } else acquired

unfoldable pub set_idle : Bool → Bool → Clock → Clock
unfolding hfclk_acquire
set_idle starts idle k =
    let gated : Clock = record k { gating = idle } in
    if idle
    then record gated { release_due = true }
    else hfclk_acquire starts (record gated { release_due = false })

-- The work, with what the radio is doing, a packet given to the radio, or a change of the idle state.
pub data ClockStep : Type 0 where
  works : Bool → ClockStep
  submits : ClockStep
  idles : Bool → ClockStep

-- With a clock that starts.
unfoldable pub clock_step : ClockStep → Clock → Clock
unfolding release_work gate_hold set_idle
clock_step (works radio_idle) k = release_work radio_idle k
clock_step submits k = gate_hold true k
clock_step (idles idle) k = set_idle true idle k

unfoldable pub run : List ClockStep → Clock → Clock
unfolding clock_step
run [] k = k
run (c ∷ cs) k = run cs (clock_step c k)

-- The clock runs unless the link is idle, and an idle link that still holds it has the release due.
pub record IsGated (k : Clock) : Type 0 where
  pub awake : k.gating ≡ false → k.held ≡ true
  pub resting : k.gating ≡ true → k.held ≡ true → k.release_due ≡ true

clock_step-IsGated : (c : ClockStep) (k : Clock) → IsGated k → IsGated (clock_step c k)
unfolding clock_step release_work gate_hold set_idle hfclk_acquire hfclk_release
    hfclk_release_allowed
clock_step-IsGated (works radio_idle) k g = ground arith
clock_step-IsGated submits k g = ground arith
clock_step-IsGated (idles idle) k g = ground arith

works_busy : (k : Clock) → (clock_step (works false) k).held ≡ k.held
unfolding clock_step release_work hfclk_release_allowed hfclk_release
works_busy k = ground arith

submits_held : (k : Clock) → (clock_step submits k).held ≡ true
unfolding clock_step gate_hold hfclk_acquire
submits_held k = ground arith

-- Over any run of sends, idle switches and delayed work, from a state as after boot: with the link not
-- idle the clock is held, with it idle a held clock has its release due, the work releases it only
-- while the radio rests, and after a send it is held.
pub run-IsGated :
    (cs : List ClockStep) (k : Clock)
    → IsGated k
    → let after = run cs k in
      IsGated after
      × ((clock_step (works false) after).held ≡ after.held)
      × ((clock_step submits after).held ≡ true)
unfolding run
run-IsGated [] k g = (g, works_busy k, submits_held k)
run-IsGated (c ∷ cs) k g = run-IsGated cs (clock_step c k) (clock_step-IsGated c k g)
