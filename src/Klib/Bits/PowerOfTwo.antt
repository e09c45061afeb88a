-- ===== src/Klib/Bits/PowerOfTwo.antt =====
-- `fixSize` of kernel/include/lib/qlib.h.
use native.Mathlib.Nat.{pow-suc, pow-le-pow_right}
use native.Mathlib.Decide.{dec_lt}
use native.Mathlib.Nat.{mul-le-mul_left, div-lt_iff_lt-mul, mod-add-div, mod-lt, div-le_self}
use quark_os.Prelude.{
  ℕ, zero, suc, ◌+◌, ◌-◌, ◌*◌, ◌/◌, ◌%◌, ◌^◌, ◌≤◌, ◌<◌, bit_and, ◌≡◌, ◌≢◌, refl, ap, inl, inr, ◌∙◌,
  sym, arith, false, Bool-cases, eq_or_ne,
}
use quark_os.Klib.Bits.{is_power_of_2, smear, smeared, fix_size}
use quark_os.Klib.Bits.Digits.{
  and_digit, pow_add, one-le-two-pow, two_pow_mono, or-lt, le-or, or-ge, and_self,
}

-- `v` has `k` digits of which the first `m` are ones.
abbrev TopOnes : ℕ → ℕ → ℕ → Type 0
TopOnes k m v = (v < 2 ^ k) × (2 ^ k ≤ v + 2 ^ (k - m))

-- The shifted number, when it is shorter than the ones.
shift_short : (p q b v r : ℕ) → v ≡ q * b + r → r < q → p ≤ q → p * q ≤ v + p → p ≤ b + 1
shift_short p q b v r e hr pq h = elim (dec_lt (b + 1) p) [
  | yes lt ↦ absurd (omega (arith, mul-le-mul_left q lt))
  | no ge ↦ omega arith
]

shift_long : (p q x b v r : ℕ) → v ≡ q * b + r → r < q → p ≡ q * x → p * q ≤ v + p → p ≤ b + x
shift_long p q x b v r e hr pq h = elim (dec_lt (b + x) p) [
  | yes lt ↦ absurd (omega (arith, mul-le-mul_left q lt, ap (λ (t : ℕ). t * q) pq))
  | no ge ↦ omega arith
]

-- `v >> m` for a `v` whose first `m` of `m + j` digits are ones: it has `j` digits, of which again
-- the first `m` are ones.
shifted :
    (j m v : ℕ)
    → v < 2 ^ (m + j)
    → 2 ^ (m + j) ≤ v + 2 ^ j
    → (v / 2 ^ m < 2 ^ j) × (2 ^ j ≤ v / 2 ^ m + 2 ^ (j - m))
shifted j m v below ones = (
  (div-lt_iff_lt-mul pos).1 (omega (arith, pow_add m j)),
  elim (dec_lt m j) [
    | no short ↦
        let e : j - m ≡ 0 = omega arith in
        rw e (
          shift_short (2 ^ j) (2 ^ m) (v / 2 ^ m) v (v % 2 ^ m) parts (mod-lt v pos)
            (pow-le-pow_right (omega arith) (omega arith)) full)
    | yes long ↦
        let e : 2 ^ j ≡ 2 ^ m * 2 ^ (j - m) =
          ap (λ (t : ℕ). 2 ^ t) (omega arith) ∙ pow_add m (j - m) in
        shift_long (2 ^ j) (2 ^ m) (2 ^ (j - m)) (v / 2 ^ m) v (v % 2 ^ m) parts (mod-lt v pos) e
          full
  ],
)
  where
    pos : 0 < 2 ^ m
    pos = one-le-two-pow m

    parts : v ≡ 2 ^ m * (v / 2 ^ m) + v % 2 ^ m
    parts = omega (arith, mod-add-div v (2 ^ m))

    full : 2 ^ j * 2 ^ m ≤ v + 2 ^ j
    full = omega (arith, pow_add m j)

sub_one_mul : (q p : ℕ) → 1 ≤ q → (q - 1) * p + p ≡ q * p
sub_one_mul zero p h = absurd (omega arith)
sub_one_mul (suc q) p h = let e : suc q - 1 ≡ q = omega arith in rw e (omega arith)

smear-TopOnes : (k m v : ℕ) → TopOnes k m v → TopOnes k (m + m) (smear m v)
smear-TopOnes k m v top = elim (dec_lt k m) [
  | yes short ↦
      let e : k - m ≡ 0 = omega arith in
      let e' : k - (m + m) ≡ 0 = omega arith in
      (or-lt k v (v / 2 ^ m) top.0 small, rw e' (omega (arith, le-or v (v / 2 ^ m), ones_of e)))
  | no long ↦
      let e : m + (k - m) ≡ k = omega arith in
      let e' : k - m - m ≡ k - (m + m) = omega arith in
      let (low, ones) = shifted (k - m) m v (rw e top.0) (rw e top.1) in
      (
        or-lt k v (v / 2 ^ m) top.0 small,
        rw (← e')
            (omega (arith, or-ge (k - m) (2 ^ m - 1) v (v / 2 ^ m) (front e) low, head e, ones)),
      )
]
  where
    small : v / 2 ^ m < 2 ^ k
    small = omega (arith, top.0, div-le_self v (2 ^ m))

    ones_of : k - m ≡ 0 → 2 ^ k ≤ v + 1
    ones_of e = rw e at top.1

    head : m + (k - m) ≡ k → (2 ^ m - 1) * 2 ^ (k - m) + 2 ^ (k - m) ≡ 2 ^ k
    head e =
        sub_one_mul (2 ^ m) (2 ^ (k - m)) (one-le-two-pow m)
        ∙ sym (pow_add m (k - m))
        ∙ ap (λ (t : ℕ). 2 ^ t) e

    front : m + (k - m) ≡ k → (2 ^ m - 1) * 2 ^ (k - m) ≤ v
    front e = omega (arith, head e, top.1)

-- The number of digits.
record Width (size : ℕ) : Type 0 where
  top : ℕ
  low : 2 ^ top ≤ size
  high : size < 2 ^ suc top

width : (n size : ℕ) → 0 < size → size ≤ n → Width size
width zero size pos h = absurd (omega arith)
width (suc n) size pos h = elim (dec_lt size 2) [
  | yes one ↦ record { top = 0; low = omega arith; high = omega arith }
  | no more ↦
      let half = width n (size / 2) (omega arith) (omega arith) in
      record {
        top = suc half.top;
        low = omega (arith, pow-suc 2 half.top, half.low);
        high = omega (arith, pow-suc 2 (suc half.top), half.high);
      }
]

-- `x & (x - 1)` is 0 at a power of two, and elsewhere only at 0.
test_pass : (j : ℕ) → bit_and (2 ^ j) (2 ^ j - 1) ≡ 0
test_pass zero = refl
test_pass (suc j) =
    let e : 2 ^ suc j / 2 ≡ 2 ^ j = omega (arith, pow-suc 2 j) in
    let e' : (2 ^ suc j - 1) / 2 ≡ 2 ^ j - 1 = omega (arith, pow-suc 2 j, one-le-two-pow j) in
    and_digit (2 ^ suc j) (2 ^ suc j - 1) ∙ rw (e, e', test_pass j) (omega (arith, pow-suc 2 j))

test_sound : (n x : ℕ) → x ≤ n → 0 < x → bit_and x (x - 1) ≡ 0 → (j : ℕ) × (x ≡ 2 ^ j)
test_sound zero x h pos e = absurd (omega arith)
test_sound (suc n) x h pos e = elim (eq_or_ne (x % 2) 0) [
  | inl even ↦
      let half : (x - 1) / 2 ≡ x / 2 - 1 = omega arith in
      let sub : bit_and (x / 2) (x / 2 - 1) ≡ 0 =
        omega (arith, and_digit x (x - 1), ap (bit_and (x / 2)) half) in
      let (j, is) = test_sound n (x / 2) (omega arith) (omega arith) sub in
      (suc j, omega (arith, is, pow-suc 2 j))
  | inr odd ↦
      let half : (x - 1) / 2 ≡ x / 2 = omega arith in
      (0, omega (arith, and_digit x (x - 1), ap (bit_and (x / 2)) half, and_self (x / 2)))
]

pred_word : (x : ℕ) → 0 < x → x < 2 ^ 32 → (x + 2 ^ 32 - 1) % 2 ^ 32 ≡ x - 1
pred_word x pos small = omega arith

-- Five rounds leave ones only.
all_ones : (k size : ℕ) → k ≤ 32 → TopOnes k 1 size → smeared size + 1 ≡ 2 ^ k
unfolding smeared
all_ones k size small top =
    let t2 = smear-TopOnes k 1 size top in
    let t4 = smear-TopOnes k 2 (smear 1 size) t2 in
    let t8 = smear-TopOnes k 4 (smear 2 (smear 1 size)) t4 in
    let t16 = smear-TopOnes k 8 (smear 4 (smear 2 (smear 1 size))) t8 in
    let t32 = smear-TopOnes k 16 (smear 8 (smear 4 (smear 2 (smear 1 size)))) t16 in
    let e : k - 32 ≡ 0 = omega arith in omega (arith, t32.0, ap (λ (t : ℕ). 2 ^ t) e, t32.1)

not_power : (size k : ℕ) → size ≤ 2 ^ 31 → is_power_of_2 size ≡ false → size ≢ 2 ^ k
not_power size k small other e =
    let pos : 0 < size = omega (arith, one-le-two-pow k) in
    let pass : bit_and size (size - 1) ≡ 0 = rw e (test_pass k) in
    ground (arith, pred_word size pos (omega arith))

one_top : (size k : ℕ) → 2 ^ k ≤ size → size < 2 ^ suc k → TopOnes (suc k) 1 size
one_top size k low high =
    let e : suc k - 1 ≡ k = omega arith in (high, rw e (omega (arith, pow-suc 2 k)))

top_below : (size k : ℕ) → size ≤ 2 ^ 31 → 2 ^ k ≤ size → size ≢ 2 ^ 31 → k < 31
top_below size k small low ne = elim (dec_lt k 31) [
  | yes lt ↦ lt
  | no ge ↦ absurd (omega (arith, two_pow_mono 31 k (omega arith)))
]

-- For a size from 1 byte to 2 GiB, `fixSize` is the power of two that is no smaller than the size
-- and less than twice it.
pub fix_size_lem :
    (size : ℕ)
    → 0 < size
    → size ≤ 2 ^ 31
    → (j : ℕ) × (fix_size size ≡ 2 ^ j) × (size ≤ fix_size size) × (fix_size size < 2 * size)
unfolding fix_size
fix_size_lem size pos small = elim (Bool-cases (is_power_of_2 size)) [
  | inl yes_power ↦
      let (j, is) =
        test_sound size size (omega arith) pos (ground (arith, pred_word size pos (omega arith))) in
      (j, rw yes_power is, rw yes_power (omega arith), rw yes_power (omega arith))
  | inr other ↦
      let w = width size size pos (omega arith) in
      let below : w.top < 31 = top_below size w.top small w.low (not_power size 31 small other) in
      let ones = all_ones (suc w.top) size (omega arith) (one_top size w.top w.low w.high) in
      let cap = two_pow_mono (suc w.top) 31 below in
      let r : (smeared size + 1) % 2 ^ 32 ≡ 2 ^ suc w.top = omega (arith, ones, cap) in
      let ne = not_power size w.top small other in
      (
        suc w.top,
        rw other r,
        rw (other, r) (omega (arith, w.high)),
        rw (other, r) (omega (arith, pow-suc 2 w.top, w.low, ne)),
      )
]
