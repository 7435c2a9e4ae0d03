-- ===== src/HopPeripheral/Sweep.antt =====
-- src/hop_peripheral.c: a run of lost windows. The peripheral stays on a channel for a dwell and
-- then takes the next one of the whole pool, until it meets the central.
use zmk_feature_split_esb.Prelude.{
  if_split, ℕ, zero, suc, ◌+◌, ◌-◌, ◌*◌, ◌/◌, ◌%◌, ◌^◌, ◌≤◌, ◌<◌, ◌≡◌, refl, ◌∙◌, Bool, true, false,
  ◌==◌, List, [], ◌∷◌, length, replicate, length-replicate, arith, dec_lt,
}
use native.Mathlib.Nat.{
  mod-lt, mod-eq_of_lt, mod_self, add-div_left, mod-add-mod, div-eq_of_lt, div-eq_of_lt-le,
  mul-le-mul_left,
}
use zmk_feature_split_esb.HopPolicy.Channel.{index_next}
use zmk_feature_split_esb.HopPolicy.Channel.Laws.{reaches}
use zmk_feature_split_esb.HopPeripheral.State.{Config, sweep_dwell, Peripheral}
use zmk_feature_split_esb.HopPeripheral.Step.{apply_hop_channel, lost_window, clear_window_attempts}
use zmk_feature_split_esb.HopPeripheral.Invariant.{IsConfig}

-- A lost window for each answer of the radio.
unfoldable pub lost_windows : Config → List Bool → Peripheral → Peripheral
lost_windows c [] p = p
lost_windows c (t ∷ ts) p = lost_windows c ts (lost_window c t p)

abbrev pub dwell : Config → ℕ
dwell c = sweep_dwell c.idle_keepalive_ms c.hop_window_ms

-- A state in the sweep: no hop is to be undone.
pub record IsSweeping (c : Config) (p : Peripheral) : Type 0 where
  pub disarmed : p.degrade_undo_armed ≡ false
  pub index : p.hop_index < c.hop_count
  pub within : p.sweep_windows < dwell c

apply_hop_channel-keeps :
    (t : Bool) (q : Peripheral)
    → ((apply_hop_channel t q).hop_index ≡ q.hop_index)
      × ((apply_hop_channel t q).sweep_windows ≡ q.sweep_windows)
      × ((apply_hop_channel t q).degrade_undo_armed ≡ q.degrade_undo_armed)
unfolding apply_hop_channel
apply_hop_channel-keeps t q = ground arith

-- The radio stands on the channel of the index.
pub record IsTuned (p : Peripheral) : Type 0 where
  pub tuned : p.applied_index ≡ p.hop_index

apply_hop_channel-IsTuned : (q : Peripheral) → IsTuned (apply_hop_channel true q)
unfolding apply_hop_channel
apply_hop_channel-IsTuned q =
    if_split IsTuned (q.hop_index == q.applied_index) (λ e. record { tuned = ground arith })
      (λ _. record { tuned = refl })

lost_window-IsTuned : (c : Config) (p : Peripheral) → IsTuned p → IsTuned (lost_window c true p)
unfolding lost_window clear_window_attempts apply_hop_channel
lost_window-IsTuned c p h = record { tuned = ground (arith, h.tuned) }

lost_windows-IsTuned :
    (c : Config) (n : ℕ) (p : Peripheral)
    → IsTuned p
    → IsTuned (lost_windows c (replicate n true) p)
unfolding lost_windows
lost_windows-IsTuned c zero p h = h
lost_windows-IsTuned c (suc n) p h = lost_windows-IsTuned c n _ (lost_window-IsTuned c p h)

module _ (i s d count : ℕ) {j r : ℕ} where
  -- The two steps of the closed form: within a dwell, and at its end.
  stay_step :
      j ≡ i → r ≡ s + 1 → (n : ℕ) → (j + (r + n) / d) % count ≡ (i + (s + suc n) / d) % count
  stay_step e f n = let m : s + 1 + n ≡ s + suc n = omega arith in rw (e, f, m) refl

  hop_step :
      j ≡ (i + 1) % count
      → r ≡ 0
      → (n : ℕ) → s + 1 ≡ d
      → 0 < d
      → (j + (r + n) / d) % count ≡ (i + (s + suc n) / d) % count
  hop_step e f n h k =
      let m : s + suc n ≡ d + n = omega (arith, h) in
      let z : 0 + n ≡ n = omega arith in
      let q : (d + n) / d ≡ n / d + 1 = add-div_left n k in
      let o : i + 1 + n / d ≡ i + (n / d + 1) = omega arith in
      rw (e, f, m, q, z, ← o) (mod-add-mod (i + 1) count (n / d))

module _ (c : Config) (ok : IsConfig c) where
  lost_window-stays :
      (t : Bool) (p : Peripheral)
      → IsSweeping c p
      → p.sweep_windows + 1 < dwell c
      → ((lost_window c t p).hop_index ≡ p.hop_index)
        × ((lost_window c t p).sweep_windows ≡ p.sweep_windows + 1)
        × ((lost_window c t p).degrade_undo_armed ≡ false)
  unfolding lost_window clear_window_attempts
  lost_window-stays t p v h =
      let e : (p.sweep_windows + 1) % dwell c ≡ p.sweep_windows + 1 = mod-eq_of_lt h in
      let s : (p.sweep_windows + 1) % dwell c % 2 ^ 16 ≡ p.sweep_windows + 1 =
        omega (arith, e, ok.dwell, h) in
      let n : (p.sweep_windows + 1 == 0) ≡ false = ground arith in
      rw (v.disarmed, s, n) (refl, refl, refl)

  lost_window-hops :
      (t : Bool) (p : Peripheral)
      → IsSweeping c p
      → p.sweep_windows + 1 ≡ dwell c
      → ((lost_window c t p).hop_index ≡ (p.hop_index + 1) % c.hop_count)
        × ((lost_window c t p).sweep_windows ≡ 0)
        × ((lost_window c t p).degrade_undo_armed ≡ false)
  unfolding lost_window clear_window_attempts index_next
  lost_window-hops t p v h =
      let e : (p.sweep_windows + 1) % dwell c ≡ 0 = rw (h) (mod_self (dwell c)) in
      let s : (p.sweep_windows + 1) % dwell c % 2 ^ 16 ≡ 0 = omega (arith, e) in
      let b : (p.hop_index + 1) % c.hop_count % 256 ≡ (p.hop_index + 1) % c.hop_count =
        mod-eq_of_lt (
          omega (
            arith,
            ok.few,
            ok.hops,
            mod-lt (p.hop_index + 1) {m = c.hop_count} (omega (arith, ok.hops)),
          )) in
      rw (v.disarmed, s, b) (apply_hop_channel-keeps t _)

  -- After a run of lost windows, whatever the radio answers, the channel index has gone one step
  -- round the pool for each full dwell, the windows of the sweep before the run counted in.
  pub lost_windows-hop_index :
      (ts : List Bool) (p : Peripheral)
      → IsSweeping c p
      → (lost_windows c ts p).hop_index
        ≡ (p.hop_index + (p.sweep_windows + length ts) / dwell c) % c.hop_count
  unfolding lost_windows
  lost_windows-hop_index [] p v =
      let z : (p.sweep_windows + 0) / dwell c ≡ 0 = div-eq_of_lt (omega (arith, v.within)) in
      let m : p.hop_index ≡ (p.hop_index + 0) % c.hop_count = grind (arith, v.index) in rw (z) m
  lost_windows-hop_index (t ∷ ts) p v = elim (dec_lt (p.sweep_windows + 1) (dwell c)) [
    | yes h ↦
        let (i, s, a) = lost_window-stays t p v h in
        let w : IsSweeping c (lost_window c t p) = record {
          disarmed = a;
          index = omega (arith, i, v.index);
          within = omega (arith, s, h);
        } in
        lost_windows-hop_index ts (lost_window c t p) w
        ∙ stay_step p.hop_index p.sweep_windows (dwell c) c.hop_count i s (length ts)
    | no h ↦
        let d : p.sweep_windows + 1 ≡ dwell c = omega (arith, h, v.within) in
        let (i, s, a) = lost_window-hops t p v d in
        let w : IsSweeping c (lost_window c t p) = record {
          disarmed = a;
          index =
              omega (arith, i, mod-lt (p.hop_index + 1) {m = c.hop_count} (omega (arith, ok.hops)));
          within = omega arith;
        } in
        lost_windows-hop_index ts (lost_window c t p) w
        ∙ hop_step p.hop_index p.sweep_windows (dwell c) c.hop_count i s (length ts) d (omega arith)
  ]

  -- Whatever channel the central is on, a peripheral that keeps losing windows is on it within a
  -- dwell for each channel of the pool; the radio takes the retunes and no hop is to be undone.
  pub lost_windows-reaches :
      (p : Peripheral) (channel : ℕ)
      → IsSweeping c p
      → IsTuned p
      → channel < c.hop_count
      → (n : ℕ) × (n ≤ c.hop_count * dwell c)
        × ((lost_windows c (replicate n true) p).hop_index ≡ channel)
        × ((lost_windows c (replicate n true) p).applied_index ≡ channel)
  lost_windows-reaches p channel v tuned l =
      let (j, k, e) = reaches c.hop_count p.hop_index channel v.index l in
      let n = dwell c * j - p.sweep_windows in
      let q : (p.sweep_windows + length (replicate n true)) / dwell c ≡ j =
        rw (length-replicate n true)
          (div-eq_of_lt-le (dwell c) (omega arith) (omega (arith, v.within))) in
      let i : (lost_windows c (replicate n true) p).hop_index ≡ channel =
        lost_windows-hop_index (replicate n true) p v ∙ rw (q) e in
      (
        n,
        omega (arith, mul-le-mul_left {m = j} {n = c.hop_count} (dwell c) (omega (arith, k))),
        i,
        (lost_windows-IsTuned c n p tuned).tuned ∙ i,
      )
