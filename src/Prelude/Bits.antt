-- ===== src/Prelude/Bits.antt =====
-- Single bits of a mask word: the tests, sets and clears that the program writes with `&`, `|` and
-- `~`, and the laws that relate them. The libraries have none at variables.
use Prim.Native.Nat.{
  ℕ, zero, suc, ◌+◌, ◌-◌, ◌*◌, ◌/◌, ◌%◌, ◌^◌, ◌≤◌, ◌<◌, min, max, bit_and, bit_or, digits,
  bit_and-bitwise, bit_or-bitwise,
}
use mathlib.Core.Path.{◌≡◌, refl, sym, ◌∙◌, ap}
use mathlib.Core.Bool.{Bool, true, false, not}
use native.Mathlib.Nat.{div-div-eq-div-mul}
use native.Mathlib.Omega.{arith}
use zmk_feature_split_esb.Prelude.Tests.{◌==◌, if◌then◌else◌}

-- `m & (1u << i)` is not zero.
abbrev pub test_bit : ℕ → ℕ → Bool
test_bit m i = not (bit_and m (2 ^ i) == 0)

-- `m | (1u << i)`
abbrev pub set_bit : ℕ → ℕ → ℕ
set_bit m i = bit_or m (2 ^ i)

-- `m & ~(1u << i)` on a word of `w` bits.
abbrev pub clear_bit : ℕ → ℕ → ℕ → ℕ
clear_bit w m i = bit_and m (2 ^ w - 1 - 2 ^ i)

-- Induction by halves: from 0, and to a positive number from its half.
halves_below :
    (P : ℕ → Type 0) → P 0 → ((k : ℕ) → P (suc k / 2) → P (suc k)) → (bound k : ℕ) → k ≤ bound → P k
halves_below P base step bound zero small = base
halves_below P base step zero (suc k) small = absurd (omega arith)
halves_below P base step (suc bound) (suc k) small =
    step k (halves_below P base step bound (suc k / 2) (omega arith))

by_halves : (P : ℕ → Type 0) → P 0 → ((k : ℕ) → P (suc k / 2) → P (suc k)) → (k : ℕ) → P k
by_halves P base step k = halves_below P base step k k (omega arith)

-- The native operations stand for a recursion on digits with fuel. One unit more than a number
-- needs changes nothing, and so does any surplus.
module _ (rest : ℕ → ℕ) (join : ℕ → ℕ → ℕ) where
  one_more : (fuel x y : ℕ) → x ≤ fuel → digits rest join (suc fuel) x y ≡ digits rest join fuel x y
  one_more zero zero y small = refl
  one_more (suc fuel) zero y small = refl
  one_more zero (suc x) y small = absurd (omega arith)
  one_more (suc fuel) (suc x) y small =
      omega (arith, one_more fuel (suc x / 2) (y / 2) (omega arith))

  surplus : (extra x y : ℕ) → digits rest join (extra + x) x y ≡ digits rest join x x y
  surplus zero x y = let none : 0 + x ≡ x = omega arith in rw none refl
  surplus (suc extra) x y =
      let shift : suc extra + x ≡ suc (extra + x) = omega arith in
      rw shift (omega (arith, one_more (extra + x) x y (omega arith), surplus extra x y))

  halved :
      (x y : ℕ)
      → digits rest join x (suc x / 2) (y / 2) ≡ digits rest join (suc x / 2) (suc x / 2) (y / 2)
  halved x y =
      let split : x - suc x / 2 + suc x / 2 ≡ x = omega arith in
      rw (← surplus (x - suc x / 2) (suc x / 2) (y / 2), split) refl

-- An operand of 0.
pub zero-bit_and : (y : ℕ) → bit_and 0 y ≡ 0
zero-bit_and = bit_and-bitwise 0

zero-bit_or : (y : ℕ) → bit_or 0 y ≡ y
zero-bit_or = bit_or-bitwise 0

-- Each operation by its lowest digit.
pub bit_and_step : (x y : ℕ) → bit_and x y ≡ min (x % 2) (y % 2) + 2 * bit_and (x / 2) (y / 2)
bit_and_step zero y = omega (arith, zero-bit_and (y / 2), zero-bit_and y)
bit_and_step (suc x) y =
    let whole = bit_and-bitwise (suc x) y in
    let half = bit_and-bitwise (suc x / 2) (y / 2) in
    omega (arith, whole, half, halved (λ _. 0) min x y)

pub bit_or_step : (x y : ℕ) → bit_or x y ≡ max (x % 2) (y % 2) + 2 * bit_or (x / 2) (y / 2)
bit_or_step zero y = omega (arith, zero-bit_or (y / 2), zero-bit_or y)
bit_or_step (suc x) y =
    let whole = bit_or-bitwise (suc x) y in
    let half = bit_or-bitwise (suc x / 2) (y / 2) in
    omega (arith, whole, half, halved (λ n. n) max x y)

pub bit_and-zero : (x : ℕ) → bit_and x 0 ≡ 0
bit_and-zero =
    by_halves (λ x. bit_and x 0 ≡ 0) refl (λ k ih. omega (arith, ih, bit_and_step (suc k) 0))

pub bit_or-zero : (x : ℕ) → bit_or x 0 ≡ x
bit_or-zero =
    by_halves (λ x. bit_or x 0 ≡ x) refl (λ k ih. omega (arith, ih, bit_or_step (suc k) 0))

-- The same tests, from the low digit up.
pub test_bit-low : (m : ℕ) → test_bit m 0 ≡ (m % 2 == 1)
test_bit-low m = ground (arith, bit_and_step m 1, bit_and-zero (m / 2))

pub test_bit-suc : (m i : ℕ) → test_bit m (suc i) ≡ test_bit (m / 2) i
test_bit-suc m i =
    let half : 2 ^ suc i / 2 ≡ 2 ^ i = omega arith in
    let even : 2 ^ suc i % 2 ≡ 0 = omega arith in
    ground (arith, bit_and_step m (2 ^ suc i), ap (bit_and (m / 2)) half)

set_bit-low : (m : ℕ) → (set_bit m 0 % 2 ≡ 1) × (set_bit m 0 / 2 ≡ m / 2)
set_bit-low m = omega (arith, bit_or_step m 1, bit_or-zero (m / 2))

set_bit-suc :
    (m i : ℕ) → (set_bit m (suc i) % 2 ≡ m % 2) × (set_bit m (suc i) / 2 ≡ set_bit (m / 2) i)
set_bit-suc m i =
    let half : 2 ^ suc i / 2 ≡ 2 ^ i = omega arith in
    let even : 2 ^ suc i % 2 ≡ 0 = omega arith in
    omega (arith, bit_or_step m (2 ^ suc i), ap (bit_or (m / 2)) half)

-- A set bit reads back, and the others stay.
pub test_bit-set_bit :
    (m i j : ℕ) → test_bit (set_bit m i) j ≡ (if i == j then true else test_bit m j)
test_bit-set_bit m zero zero = ground (arith, test_bit-low (set_bit m 0), set_bit-low m)
test_bit-set_bit m zero (suc j) = ground (
  arith,
  test_bit-suc (set_bit m 0) j,
  test_bit-suc m j,
  ap (λ k. test_bit k j) (set_bit-low m).1,
)
test_bit-set_bit m (suc i) zero =
    ground (arith, test_bit-low (set_bit m (suc i)), test_bit-low m, set_bit-suc m i)
test_bit-set_bit m (suc i) (suc j) = ground (
  arith,
  test_bit-suc (set_bit m (suc i)) j,
  test_bit-suc m j,
  ap (λ k. test_bit k j) (set_bit-suc m i).1,
  test_bit-set_bit (m / 2) i j,
)

pub pow-pos : (k : ℕ) → 0 < 2 ^ k
pow-pos zero = omega arith
pow-pos (suc k) = omega (arith, pow-pos k)

pub pow-lt : (i w : ℕ) → i < w → 2 ^ i < 2 ^ w
pow-lt i zero h = elim h [ ]
pow-lt zero (suc w) h = omega (arith, pow-pos w)
pow-lt (suc i) (suc w) h = omega (arith, pow-lt i w (omega arith))

-- A mask of `w` ones keeps the bits below `w`.
test_bit-ones : (w m j : ℕ) → j < w → test_bit (bit_and m (2 ^ w - 1)) j ≡ test_bit m j
test_bit-ones zero m j h = elim h [ ]
test_bit-ones (suc w) m zero h = ground (
  arith,
  test_bit-low (bit_and m (2 ^ suc w - 1)),
  test_bit-low m,
  bit_and_step m (2 ^ suc w - 1),
  pow-pos w,
)
test_bit-ones (suc w) m (suc j) h =
    let ones : (2 ^ suc w - 1) / 2 ≡ 2 ^ w - 1 = omega (arith, pow-pos w) in
    let tail : bit_and m (2 ^ suc w - 1) / 2 ≡ bit_and (m / 2) (2 ^ w - 1) =
      omega (arith, bit_and_step m (2 ^ suc w - 1), ap (bit_and (m / 2)) ones) in
    ground (
      arith,
      test_bit-suc (bit_and m (2 ^ suc w - 1)) j,
      test_bit-suc m j,
      ap (λ k. test_bit k j) tail,
      test_bit-ones w (m / 2) j,
    )

-- A cleared bit reads back as clear, and the others below the width stay.
pub test_bit-clear_bit :
    (w m i j : ℕ)
    → i < w
    → j < w
    → test_bit (clear_bit w m i) j ≡ (if i == j then false else test_bit m j)
test_bit-clear_bit zero m i j h k = elim h [ ]
test_bit-clear_bit (suc w) m zero zero h k =
    ground
      (arith, test_bit-low (clear_bit (suc w) m 0), bit_and_step m (2 ^ suc w - 1 - 1), pow-pos w)
test_bit-clear_bit (suc w) m zero (suc j) h k =
    let ones : (2 ^ suc w - 1 - 1) / 2 ≡ 2 ^ w - 1 = omega (arith, pow-pos w) in
    let tail : clear_bit (suc w) m 0 / 2 ≡ bit_and (m / 2) (2 ^ w - 1) =
      omega (arith, bit_and_step m (2 ^ suc w - 1 - 1), ap (bit_and (m / 2)) ones) in
    ground (
      arith,
      test_bit-suc (clear_bit (suc w) m 0) j,
      test_bit-suc m j,
      ap (λ k. test_bit k j) tail,
      test_bit-ones w (m / 2) j,
    )
test_bit-clear_bit (suc w) m (suc i) zero h k = ground (
  arith,
  test_bit-low (clear_bit (suc w) m (suc i)),
  test_bit-low m,
  bit_and_step m (2 ^ suc w - 1 - 2 ^ suc i),
  pow-lt i w (omega arith),
)
test_bit-clear_bit (suc w) m (suc i) (suc j) h k =
    let rest : (2 ^ suc w - 1 - 2 ^ suc i) / 2 ≡ 2 ^ w - 1 - 2 ^ i =
      omega (arith, pow-lt i w (omega arith)) in
    let tail : clear_bit (suc w) m (suc i) / 2 ≡ clear_bit w (m / 2) i =
      omega (arith, bit_and_step m (2 ^ suc w - 1 - 2 ^ suc i), ap (bit_and (m / 2)) rest) in
    ground (
      arith,
      test_bit-suc (clear_bit (suc w) m (suc i)) j,
      test_bit-suc m j,
      ap (λ k. test_bit k j) tail,
      test_bit-clear_bit w (m / 2) i j,
    )

pub test_bit-zero : (j : ℕ) → test_bit 0 j ≡ false
test_bit-zero j = ground (arith, zero-bit_and (2 ^ j))

-- Both operations stay within a word.
pub bit_or-lt : (w a b : ℕ) → a < 2 ^ w → b < 2 ^ w → bit_or a b < 2 ^ w
bit_or-lt zero a b h k =
    let none : a ≡ 0 = omega arith in omega (arith, zero-bit_or b, ap (λ t. bit_or t b) none)
bit_or-lt (suc w) a b h k =
    omega (arith, bit_or_step a b, bit_or-lt w (a / 2) (b / 2) (omega arith) (omega arith))

pub bit_and-le : (x y : ℕ) → bit_and x y ≤ x
bit_and-le x y = every_mask x y
  where
    every_mask : (x : ℕ) → (y : ℕ) → bit_and x y ≤ x
    every_mask =
        by_halves (λ x. (y : ℕ) → bit_and x y ≤ x) (λ y. omega (arith, zero-bit_and y))
          (λ k ih y. omega (arith, ih (y / 2), bit_and_step (suc k) y))

-- The digit of a bit's weight.
test_bit-div : (m j : ℕ) → test_bit m j ≡ (m / 2 ^ j % 2 == 1)
test_bit-div m zero = ground (arith, test_bit-low m)
test_bit-div m (suc j) =
    test_bit-suc m j
    ∙ test_bit-div (m / 2) j
    ∙ ap (λ d. d % 2 == 1) (div-div-eq-div-mul m 2 (2 ^ j) ∙ ap (λ d. m / d) (omega arith))

byte_digit : (m j : ℕ) → j < 8 → m % 256 / 2 ^ j % 2 ≡ m / 2 ^ j % 2
byte_digit m zero h = omega arith
byte_digit m (suc zero) h = omega arith
byte_digit m (suc (suc zero)) h = omega arith
byte_digit m (suc (suc (suc zero))) h = omega arith
byte_digit m (suc (suc (suc (suc zero)))) h = omega arith
byte_digit m (suc (suc (suc (suc (suc zero))))) h = omega arith
byte_digit m (suc (suc (suc (suc (suc (suc zero)))))) h = omega arith
byte_digit m (suc (suc (suc (suc (suc (suc (suc zero))))))) h = omega arith
byte_digit m (suc (suc (suc (suc (suc (suc (suc (suc j)))))))) h = absurd (omega arith)

-- A byte keeps its eight bits.
pub test_bit-byte : (m j : ℕ) → j < 8 → test_bit (m % 256) j ≡ test_bit m j
test_bit-byte m j h =
    test_bit-div (m % 256) j ∙ ap (λ d. d == 1) (byte_digit m j h) ∙ sym (test_bit-div m j)
