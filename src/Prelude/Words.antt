-- ===== src/Prelude/Words.antt =====
-- The bitwise or of machine words.
use Prim.Native.Nat.{ℕ, zero, suc, ◌+◌, ◌*◌, ◌/◌, ◌%◌, ◌^◌, ◌<◌}
use mathlib.Core.Path.{◌≡◌, refl, ◌∙◌}
use native.Mathlib.Nat.{mul_assoc}
use native.Mathlib.Omega.{arith}
use quark_os.Prelude.Tests.{◌==◌, if◌then◌else◌}

-- The lowest bit of `a | b`
abbrev pub low_or : ℕ → ℕ → ℕ
low_or a b = if a % 2 == 0 then b % 2 else 1

-- `a | b` of words of `w` bits
pub bit_or : ℕ → ℕ → ℕ → ℕ
bit_or zero a b = 0
bit_or (suc w) a b = low_or a b + 2 * bit_or w (a / 2) (b / 2)

abbrev pub or32 : ℕ → ℕ → ℕ
or32 a b = bit_or 32 a b

pub bit_or-zero : (w a : ℕ) → a < 2 ^ w → bit_or w a 0 ≡ a
unfolding bit_or
bit_or-zero zero a lt = omega (arith, lt)
bit_or-zero (suc w) a lt = let ih = bit_or-zero w (a / 2) (omega (arith, lt)) in ground (arith, ih)

-- One more low bit, which the first word lacks
pub bit_or-even : (w a b : ℕ) → bit_or (suc w) (2 * a) b ≡ b % 2 + 2 * bit_or w a (b / 2)
unfolding bit_or
bit_or-even w a b =
    let half : 2 * a / 2 ≡ a = omega arith in
    let even : 2 * a % 2 ≡ 0 = omega arith in rw (half, even) refl

-- The or of a multiple of `2 ^ k` and a number below `2 ^ k` is their sum.
pub bit_or-aligned :
    (k w a b : ℕ) → b < 2 ^ k → a < 2 ^ w → bit_or (k + w) (2 ^ k * a) b ≡ 2 ^ k * a + b
bit_or-aligned zero w a b lb la =
    let none_left : b ≡ 0 = omega (arith, lb) in
    let width : 0 + w ≡ w = omega arith in
    let whole : 1 * a ≡ a = omega arith in
    let sum : a + 0 ≡ a = omega arith in rw (none_left, width, whole, sum) (bit_or-zero w a la)
bit_or-aligned (suc k) w a b lb la =
    let ih = bit_or-aligned k w a (b / 2) (omega (arith, lb)) la in
    let width : suc k + w ≡ suc (k + w) = omega arith in
    let double : 2 ^ suc k ≡ 2 * 2 ^ k = omega arith in
    let twice : 2 ^ suc k * a ≡ 2 * (2 ^ k * a) = rw double (mul_assoc 2 (2 ^ k) a) in
    rw (width, twice) (bit_or-even (k + w) (2 ^ k * a) b ∙ omega (arith, ih))

pub or32-flags : or32 1 6 ≡ 7
unfolding bit_or
or32-flags = refl
