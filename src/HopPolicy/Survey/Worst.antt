-- ===== src/HopPolicy/Survey/Worst.antt =====
-- The scan of src/hop_policy.c for the worst channel, for any test of candidates and any order.
use zmk_feature_split_esb.Prelude.{
  ℕ, zero, suc, ◌+◌, ◌≤◌, ◌<◌, ◌≡◌, ◌⊎◌, inl, inr, Bool, true, false, ◌&&◌, ◌||◌, ◌==◌,
  if◌then◌else◌, arith, Bool-cases, ℕ_discrete, refl, sym,
}
use mathlib.Core.Path.{subst}
use zmk_feature_split_esb.HopPolicy.Survey.{scan_worst}

below_suc : (P : ℕ → Type 0) (c : ℕ) → ((x : ℕ) → x < c → P x) → P c → (x : ℕ) → x < suc c → P x
below_suc P c h p x l = elim (ℕ_discrete x c) [
  | yes e ↦ subst P (sym e) p
  | no n ↦ h x (omega arith)
]

module _ (qualifies : ℕ → Bool) (worse : ℕ → ℕ → Bool) (pool_count : ℕ) where
  -- `worst` is `pool_count` if no channel below `top` qualifies, and else one that does and that
  -- no other is worse than.
  abbrev pub IsWorst : ℕ → ℕ → Type 0
  IsWorst top worst =
      ((worst ≡ pool_count) × ((x : ℕ) → x < top → qualifies x ≡ false))
      ⊎ ((worst < top)
          × (qualifies worst ≡ true)
          × ((x : ℕ) → x < top → qualifies x ≡ true → worse x worst ≡ false))

module _ (qualifies : ℕ → Bool) (worse : ℕ → ℕ → Bool) (pool_count : ℕ)
    (asym : (a b : ℕ) → worse a b ≡ true → worse b a ≡ false)
    (trans : (a b c : ℕ) → worse a b ≡ false → worse b c ≡ false → worse a c ≡ false) where
  irrefl : (a : ℕ) → worse a a ≡ false
  irrefl a = elim (Bool-cases (worse a a)) [ inl e ↦ asym a a e | inr e ↦ e ]

  abbrev chosen : ℕ → ℕ → ℕ
  chosen c worst = if qualifies c && (worst == pool_count || worse c worst) then c else worst

  step_IsWorst :
      (c worst : ℕ)
      → c < pool_count
      → IsWorst qualifies worse pool_count c worst
      → IsWorst qualifies worse pool_count (suc c) (chosen c worst)
  step_IsWorst c worst h (inl (e, none)) = elim (Bool-cases (qualifies c)) [
    | inl q ↦
        let pick : chosen c worst ≡ c = ground arith in
        rw pick (
          inr (
            omega arith,
            q,
            below_suc (λ x. qualifies x ≡ true → worse x c ≡ false) c (λ x l p. cc (none x l))
                (λ _. irrefl c),
          ))
    | inr q ↦
        let keep : chosen c worst ≡ worst = ground arith in
        rw keep (inl (e, below_suc (λ x. qualifies x ≡ false) c none q))
  ]
  step_IsWorst c worst h (inr (l, q, most)) = elim (Bool-cases (qualifies c && worse c worst)) [
    | inl w ↦
        let pick : chosen c worst ≡ c = ground arith in
        let over : worse c worst ≡ true = ground arith in
        rw pick (
          inr (
            omega arith,
            ground arith,
            below_suc (λ x. qualifies x ≡ true → worse x c ≡ false) c
                (λ x k p. trans x worst c (most x k p) (asym c worst over)) (λ _. irrefl c),
          ))
    | inr w ↦
        let keep : chosen c worst ≡ worst = ground arith in
        rw keep (
          inr (
            omega arith,
            q,
            below_suc (λ x. qualifies x ≡ true → worse x worst ≡ false) c most (λ p. ground arith),
          ))
  ]

  scan_from :
      (n c worst top : ℕ)
      → c + n ≡ top
      → top ≤ pool_count
      → IsWorst qualifies worse pool_count c worst
      → IsWorst qualifies worse pool_count top (scan_worst qualifies worse pool_count n c worst)
  unfolding scan_worst
  scan_from zero c worst top e h best =
      let e' : c ≡ top = omega arith in
      subst (λ t. IsWorst qualifies worse pool_count t worst) e' best
  scan_from (suc n) c worst top e h best =
      scan_from n (suc c) (chosen c worst) top (omega arith) h
        (step_IsWorst c worst (omega arith) best)

  -- The scan of the whole pool finds the worst candidate.
  pub scan_worst-IsWorst :
      IsWorst qualifies worse pool_count pool_count
        (scan_worst qualifies worse pool_count pool_count 0 pool_count)
  scan_worst-IsWorst =
      scan_from pool_count 0 pool_count pool_count (omega arith) (omega arith)
        (inl (refl, λ x l. absurd (omega arith)))
