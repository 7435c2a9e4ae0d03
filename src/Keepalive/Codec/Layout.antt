-- ===== src/Keepalive/Codec/Layout.antt =====
-- Where the parts of an encoded keepalive lie.
use zmk_feature_split_esb.Prelude.{
  ℕ, zero, suc, ◌+◌, ◌*◌, ◌<◌, ◌≡◌, ◌∙◌, List, [], ◌∷◌, ◌++◌, length, get_or, drop, length-append,
  arith,
}
use mathlib.Core.List.{append_assoc}
use zmk_feature_split_esb.Keepalive.Codec.{entries}

pub drop_at : (n i : ℕ) (xs ys : List ℕ) → length xs ≡ n → drop (n + i) (xs ++ ys) ≡ drop i ys
drop_at n i [] ys h = let e : n + i ≡ i = omega arith in rw e
drop_at zero i (x ∷ xs) ys h = absurd (omega arith)
drop_at (suc n) i (x ∷ xs) ys h =
    let e : suc n + i ≡ suc (n + i) = omega arith in rw e (drop_at n i xs ys (omega arith))

pub get_or_at :
    (n i : ℕ) (xs ys : List ℕ) → length xs ≡ n → get_or (xs ++ ys) (n + i) 0 ≡ get_or ys i 0
get_or_at n i [] ys h = let e : n + i ≡ i = omega arith in rw e
get_or_at zero i (x ∷ xs) ys h = absurd (omega arith)
get_or_at (suc n) i (x ∷ xs) ys h =
    let e : suc n + i ≡ suc (n + i) = omega arith in rw e (get_or_at n i xs ys (omega arith))

module _ {ℓ} {A : Type ℓ} (f : A → List ℕ) (w : ℕ) (width : (a : A) → length (f a) ≡ w) where
  pub length-entries : (xs : List A) → length (entries f xs) ≡ length xs * w
  length-entries [] = omega arith
  length-entries (x ∷ xs) =
      omega (arith, length-append (f x) (entries f xs), width x, length-entries xs)

  -- The entry at an index begins that many widths from the front.
  pub drop-entries :
      (xs : List A) (i : ℕ) (d : A) (r : List ℕ)
      → i < length xs
      → (rest : List ℕ) × (drop (i * w) (entries f xs ++ r) ≡ f (get_or xs i d) ++ rest)
  drop-entries [] i d r h = absurd (omega arith)
  drop-entries (x ∷ xs) zero d r h =
      let e : zero * w ≡ 0 = omega arith in
      (entries f xs ++ r, rw e (append_assoc (f x) (entries f xs) r))
  drop-entries (x ∷ xs) (suc i) d r h =
      let (rest, found) = drop-entries xs i d r (omega arith) in
      let e : suc i * w ≡ w + i * w = omega arith in
      (
        rest,
        rw (e, append_assoc (f x) (entries f xs) r)
            (drop_at w (i * w) (f x) (entries f xs ++ r) (width x) ∙ found),
      )
