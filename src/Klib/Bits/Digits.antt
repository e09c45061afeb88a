-- ===== src/Klib/Bits/Digits.antt =====
-- `|` and `&` by their binary digits.
use Prim.Native.Nat.{digits, bit_and-bitwise, bit_or-bitwise}
use native.Mathlib.Nat.{pow-suc, pow-le-pow_right}
use quark_os.Prelude.{
  ℕ, zero, suc, ◌+◌, ◌-◌, ◌*◌, ◌/◌, ◌%◌, ◌^◌, ◌≤◌, ◌<◌, min, max, bit_and, bit_or, ◌≡◌, refl, ap,
  ◌∙◌, arith,
}

module _ (z : ℕ → ℕ) (f : ℕ → ℕ → ℕ) where
  -- One more unit of fuel than the first number needs changes nothing.
  more : (n a b : ℕ) → a ≤ n → digits z f (suc n) a b ≡ digits z f n a b
  more zero zero b h = refl
  more zero (suc a) b h = absurd (omega arith)
  more (suc n) zero b h = refl
  more (suc n) (suc a) b h =
      ap (λ d. d * 2 + f (suc a % 2) (b % 2)) (more n (suc a / 2) (b / 2) (omega arith))

  enough : (d a n b : ℕ) → n ≡ d + a → digits z f n a b ≡ digits z f a a b
  enough zero a n b e = let e' : n ≡ a = omega arith in rw e'
  enough (suc d) a n b e =
      let e' : n ≡ suc (d + a) = omega arith in
      rw e' (more (d + a) a b (omega arith) ∙ enough d a (d + a) b refl)

  halve :
      (a b : ℕ)
      → digits z f (suc a) (suc a) b
        ≡ digits z f (suc a / 2) (suc a / 2) (b / 2) * 2 + f (suc a % 2) (b % 2)
  halve a b =
      ap (λ d. d * 2 + f (suc a % 2) (b % 2))
        (enough (a - suc a / 2) (suc a / 2) a (b / 2) (omega arith))

pub or_digit : (a b : ℕ) → bit_or a b ≡ bit_or (a / 2) (b / 2) * 2 + max (a % 2) (b % 2)
or_digit zero b = simp bit_or-bitwise (omega arith)
or_digit (suc a) b = simp bit_or-bitwise (halve (λ d. d) max a b)

pub and_digit : (a b : ℕ) → bit_and a b ≡ bit_and (a / 2) (b / 2) * 2 + min (a % 2) (b % 2)
and_digit zero b = simp bit_and-bitwise (omega arith)
and_digit (suc a) b = simp bit_and-bitwise (halve (λ d. 0) min a b)

pub pow_add : (m n : ℕ) → 2 ^ (m + n) ≡ 2 ^ m * 2 ^ n
pow_add m zero = let e : m + 0 ≡ m = omega arith in rw e (omega arith)
pow_add m (suc n) =
    let e : m + suc n ≡ suc (m + n) = omega arith in
    rw e (
      omega (
        arith,
        pow-suc 2 (m + n),
        pow-suc 2 n,
        pow_add m n,
        ap (λ (t : ℕ). 2 ^ m * t) (pow-suc 2 n),
      ))

pub one-le-two-pow : (n : ℕ) → 1 ≤ 2 ^ n
one-le-two-pow zero = omega arith
one-le-two-pow (suc n) = omega (arith, pow-suc 2 n, one-le-two-pow n)

pub two_pow_mono : (i j : ℕ) → i ≤ j → 2 ^ i ≤ 2 ^ j
two_pow_mono i j h = pow-le-pow_right (omega arith) h

-- A disjunction stays below a power of two that bounds both sides.
pub or-lt : (k a b : ℕ) → a < 2 ^ k → b < 2 ^ k → bit_or a b < 2 ^ k
or-lt zero a b ha hb =
    let e : a ≡ 0 = omega arith in let e' : b ≡ 0 = omega arith in rw (e, e') (omega arith)
or-lt (suc k) a b ha hb = omega (
  arith,
  or_digit a b,
  pow-suc 2 k,
  or-lt k (a / 2) (b / 2) (omega (arith, pow-suc 2 k)) (omega (arith, pow-suc 2 k)),
)

le-or_below : (n a b : ℕ) → a ≤ n → a ≤ bit_or a b
le-or_below n zero b h = omega arith
le-or_below zero (suc a) b h = absurd (omega arith)
le-or_below (suc n) (suc a) b h =
    omega (arith, or_digit (suc a) b, le-or_below n (suc a / 2) (b / 2) (omega arith))

pub le-or : (a b : ℕ) → a ≤ bit_or a b
le-or a b = le-or_below a a b (omega arith)

-- Over a number of at least `q * 2 ^ j`, the digits of `b` below the `j`-th come in whole.
pub or-ge : (j q a b : ℕ) → q * 2 ^ j ≤ a → b < 2 ^ j → q * 2 ^ j + b ≤ bit_or a b
or-ge zero q a b ha hb = omega (arith, le-or a b)
or-ge (suc j) q a b ha hb =
    let double : q * 2 ^ suc j ≡ q * 2 ^ j * 2 = rw pow-suc (omega arith) in
    omega (
      arith,
      double,
      or_digit a b,
      or-ge j q (a / 2) (b / 2) (omega (arith, double)) (omega (arith, pow-suc 2 j)),
    )

and_self_below : (n a : ℕ) → a ≤ n → bit_and a a ≡ a
and_self_below n zero h = refl
and_self_below zero (suc a) h = absurd (omega arith)
and_self_below (suc n) (suc a) h =
    omega (arith, and_digit (suc a) (suc a), and_self_below n (suc a / 2) (omega arith))

pub and_self : (a : ℕ) → bit_and a a ≡ a
and_self a = and_self_below a a (omega arith)

and-zero_below : (n a : ℕ) → a ≤ n → bit_and a 0 ≡ 0
and-zero_below n zero h = refl
and-zero_below zero (suc a) h = absurd (omega arith)
and-zero_below (suc n) (suc a) h =
    omega (arith, and_digit (suc a) 0, and-zero_below n (suc a / 2) (omega arith))

pub and-zero : (a : ℕ) → bit_and a 0 ≡ 0
and-zero a = and-zero_below a a (omega arith)

-- `y & 3` is the remainder by 4.
pub and_three : (a : ℕ) → bit_and a 3 ≡ a % 4
and_three a = omega (arith, and_digit a 3, and_digit (a / 2) 1, and-zero (a / 2 / 2))
