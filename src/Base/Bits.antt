-- ===== src/Base/Bits.antt =====
-- The native `bit_or` by its lowest binary digit, and beside fields that it does not touch.
use Prim.Native.Nat.{
  ℕ, zero, suc, ◌+◌, ◌*◌, ◌/◌, ◌%◌, ◌^◌, ◌≤◌, ◌<◌, max, digits, bit_or, bit_or-bitwise,
}
use mathlib.Core.Path.{◌≡◌, refl, sym, ap, ◌∙◌}
use native.Mathlib.Nat.{pow-suc, mul_comm, div-div-eq-div-mul}
use native.Mathlib.Omega.{arith}

-- Any two amounts of fuel that reach the last digit of `a` give the same.
module _ (f : ℕ → ℕ → ℕ) where
  enough : (n m a b : ℕ) → a ≤ n → a ≤ m → digits (λ y. y) f n a b ≡ digits (λ y. y) f m a b
  enough zero zero a b h g = refl
  enough (suc n) (suc m) zero b h g = refl
  enough zero (suc m) zero b h g = refl
  enough (suc n) zero zero b h g = refl
  enough zero (suc m) (suc a) b h g = absurd (omega arith)
  enough (suc n) zero (suc a) b h g = absurd (omega arith)
  enough (suc n) (suc m) (suc a) b h g =
      ap (λ high. high * 2 + f (suc a % 2) (b % 2))
        (enough n m (suc a / 2) (b / 2) (omega arith) (omega arith))

pub bit_or_digit : (a b : ℕ) → bit_or a b ≡ bit_or (a / 2) (b / 2) * 2 + max (a % 2) (b % 2)
bit_or_digit zero b = simp bit_or-bitwise (omega arith)
bit_or_digit (suc a) b =
    simp bit_or-bitwise
      (omega (arith, enough max a (suc a / 2) (suc a / 2) (b / 2) (omega arith) (omega arith)))

-- With room for the digits of `a`: the recursion is on the bound.
bit_or_zero_below : (n a : ℕ) → a ≤ n → bit_or a 0 ≡ a
bit_or_zero_below zero zero h = refl
bit_or_zero_below zero (suc a) h = absurd (omega arith)
bit_or_zero_below (suc n) zero h = refl
bit_or_zero_below (suc n) (suc a) h =
    omega (arith, bit_or_digit (suc a) 0, bit_or_zero_below n (suc a / 2) (omega arith))

double : (k q : ℕ) → q * 2 ^ suc k ≡ q * 2 ^ k * 2
double k q = omega (arith, ap (λ p. q * p) (pow-suc 2 k))

half_div : (k a : ℕ) → a / 2 ^ suc k ≡ a / 2 / 2 ^ k
half_div k a =
    ap (λ d. a / d) (pow-suc 2 k ∙ mul_comm (2 ^ k) 2) ∙ sym (div-div-eq-div-mul a 2 (2 ^ k))

-- Bits below `2 ^ k` change nothing above.
pub bit_or_high : (k a b : ℕ) → b < 2 ^ k → bit_or a b / 2 ^ k ≡ a / 2 ^ k
bit_or_high zero a b h =
    let e : b ≡ 0 = omega arith in rw e (omega (arith, bit_or_zero_below a a (omega arith)))
bit_or_high (suc k) a b h = ground (
  arith,
  bit_or_digit a b,
  pow-suc 2 k,
  bit_or_high k (a / 2) (b / 2) (ground (arith, pow-suc 2 k)),
  half_div k (bit_or a b),
  half_div k a,
)

-- A multiple of `2 ^ k` and a number below it share no digit.
pub bit_or_sum : (k q r : ℕ) → r < 2 ^ k → bit_or (q * 2 ^ k) r ≡ q * 2 ^ k + r
bit_or_sum zero q r h =
    let e : r ≡ 0 = omega arith in
    rw e (omega (arith, bit_or_zero_below (q * 1) (q * 1) (omega arith)))
bit_or_sum (suc k) q r h = ground (
  arith,
  bit_or_digit (q * 2 ^ suc k) r,
  double k q,
  pow-suc 2 k,
  bit_or_sum k q (r / 2) (ground (arith, pow-suc 2 k)),
)
