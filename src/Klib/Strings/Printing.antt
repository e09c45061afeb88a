-- ===== src/Klib/Strings/Printing.antt =====
-- The numbers that `utoa` and `hex` of kernel/lib/qstring.c print.
use native.Mathlib.Nat.{
  pow-suc, pow-zero, div-one, div-div-eq-div-mul, div-lt_iff_lt-mul, le-div_iff_mul-le,
}
use quark_os.Prelude.{
  ℕ, zero, suc, ◌+◌, ◌-◌, ◌*◌, ◌/◌, ◌%◌, ◌^◌, ◌≤◌, ◌<◌, ◌≡◌, ◌≢◌, refl, inl, inr, ◌⊎◌, true, false,
  arith, some, ◌!=◌, store, eq_or_ne, ◌∙◌, ap,
}
use quark_os.Klib.Strings.{
  digit_loop, print_number, decimal_digit, hex_digit, utoa, hex, str_reverse,
}
use quark_os.Klib.Strings.Reverse.{mirrored, str_reverse_lem}

-- `value` has `n` digits, without a leading zero.
pub record HasDigits (base value n : ℕ) : Type 0 where
  pub some_digit : 0 < n
  pub below : value < base ^ n
  pub leading : (n ≡ 1) ⊎ (base ^ (n - 1) ≤ value)

-- The digits written, the least one first.
record Written (base : ℕ) (digit mem : ℕ → ℕ) (str value i fuel : ℕ) : Type 0 where
  n : ℕ
  after : ℕ → ℕ
  runs : digit_loop fuel base digit mem str value i ≡ some (i + n, after)
  short : n ≤ fuel
  digits : HasDigits base value n
  chars : (k : ℕ) → k < n → after (str + i + k) ≡ digit (value / base ^ k % base)
  kept : (a : ℕ) → (a < str + i) ⊎ (str + i + n ≤ a) → after a ≡ mem a

pow_one : (b : ℕ) → b ^ 1 ≡ b
pow_one b = pow-suc b 0 ∙ ap (λ (t : ℕ). t * b) (pow-zero b) ∙ omega arith

-- The last round: one digit is left.
module _ (base : ℕ) (digit mem : ℕ → ℕ) (str value i fuel : ℕ) (two : 1 < base)
    (last : value / base ≡ 0) where
  small : value < base
  small = omega (
    arith,
    (div-lt_iff_lt-mul {k = base} {x = value} {y = 1} (omega arith)).0 (omega (arith, last)),
  )

  char_last :
      (k : ℕ)
      → k < 1
      → store mem (str + i) (digit (value % base)) (str + i + k) ≡ digit (value / base ^ k % base)
  char_last zero h =
      let e : str + i + 0 ≡ str + i = omega arith in
      rw (e, pow-zero base, div-one value) (ground arith)
  char_last (suc k) h = absurd (omega arith)

  Written-last : (i + 1) % 2 ^ 8 ≡ i + 1 → Written base digit mem str value i (suc fuel)
  unfolding digit_loop
  Written-last next =
      let stop : (value / base != 0) ≡ false = ground arith in
      record {
        n = 1;
        after = store mem (str + i) (digit (value % base));
        runs = rw (stop, next) refl;
        short = omega arith;
        digits = record {
          some_digit = omega arith;
          below = omega (arith, small, pow_one base);
          leading = inl refl;
        };
        chars = char_last;
        kept = λ a out. elim out [ inl h ↦ ground arith | inr h ↦ ground arith ];
      }

-- Another round.
module _ (base : ℕ) (digit mem : ℕ → ℕ) (str value i fuel : ℕ) (two : 1 < base)
    (more : value / base ≢ 0)
    (w : Written base digit
      (store mem (str + i) (digit (value % base)))
      str
      (value / base)
      (i + 1)
      fuel) where
  below_more : value < base ^ suc w.n
  below_more = omega (
    arith,
    (div-lt_iff_lt-mul {k = base} {x = value} {y = base ^ w.n} (omega arith)).0 w.digits.below,
    pow-suc base w.n,
  )

  at_least : (x : ℕ) → x ≤ value / base → x * base ≤ value
  at_least x h = (le-div_iff_mul-le {k = base} {x = x} {y = value} (omega arith)).0 h

  leading_more : base ^ w.n ≤ value
  leading_more = elim w.digits.leading [
    | inl one ↦ rw one (omega (arith, pow_one base, at_least 1 (omega (arith, more))))
    | inr big ↦
        let e : suc (w.n - 1) ≡ w.n = omega (arith, w.digits.some_digit) in
        let p : base ^ w.n ≡ base ^ (w.n - 1) * base = rw e at (pow-suc base (w.n - 1)) in
        omega (arith, p, at_least (base ^ (w.n - 1)) big)
  ]

  char_more : (k : ℕ) → k < suc w.n → w.after (str + i + k) ≡ digit (value / base ^ k % base)
  char_more zero h =
      let e : str + i + 0 ≡ str + i = omega arith in
      rw (e, pow-zero base, div-one value) (w.kept (str + i) (inl (omega arith)) ∙ ground arith)
  char_more (suc k) h =
      let e : str + (i + 1) + k ≡ str + i + suc k = omega arith in
      let p : base * base ^ k ≡ base ^ suc k = omega (arith, pow-suc base k) in
      let d : value / base / base ^ k ≡ value / base ^ suc k =
        div-div-eq-div-mul value base (base ^ k) ∙ ap (λ (t : ℕ). value / t) p in
      rw (e, d) at (w.chars k (omega arith))

  Written-more : (i + 1) % 2 ^ 8 ≡ i + 1 → Written base digit mem str value i (suc fuel)
  unfolding digit_loop
  Written-more next =
      let go : (value / base != 0) ≡ true = ground arith in
      let e : i + 1 + w.n ≡ i + suc w.n = omega arith in
      record {
        n = suc w.n;
        after = w.after;
        runs = rw (go, next) (rw e at w.runs);
        short = omega (arith, w.short);
        digits = record {
          some_digit = omega arith;
          below = below_more;
          leading = inr (let e : suc w.n - 1 ≡ w.n = omega arith in rw e leading_more);
        };
        chars = char_more;
        kept = λ a out.
            w.kept a (elim out [ inl h ↦ inl (omega arith) | inr h ↦ inr (omega arith) ])
            ∙ elim out [ inl h ↦ ground arith | inr h ↦ ground arith ];
      }

digit_loop-Written :
    (fuel base : ℕ) (digit mem : ℕ → ℕ) (str value i : ℕ)
    → 1 < base
    → value / base < base ^ fuel
    → i + suc fuel < 2 ^ 8
    → Written base digit mem str value i (suc fuel)
digit_loop-Written zero base digit mem str value i two fits short =
    Written-last base digit mem str value i 0 two (omega (arith, fits, pow-zero base)) (omega arith)
digit_loop-Written (suc fuel) base digit mem str value i two fits short =
    elim (eq_or_ne (value / base) 0) [
      | inl last ↦ Written-last base digit mem str value i (suc fuel) two last (omega arith)
      | inr more ↦
          let down : value / base / base < base ^ fuel =
            (div-lt_iff_lt-mul {k = base} {x = value / base} {y = base ^ fuel} (omega arith)).1
              (omega (arith, fits, pow-suc base fuel)) in
          Written-more base digit mem str value i (suc fuel) two more
            (digit_loop-Written fuel base digit (store mem (str + i) (digit (value % base))) str
              (value / base) (i + 1) two down (omega arith))
            (omega arith)
    ]

-- At `str` stands `value` in base `base`, the highest digit first, with a final 0.
pub record Prints (base : ℕ) (digit mem : ℕ → ℕ) (value str : ℕ) (mem' : ℕ → ℕ) : Type 0 where
  pub n : ℕ
  pub digits : HasDigits base value n
  pub short : n ≤ 20
  pub chars : (k : ℕ) → k < n → mem' (str + k) ≡ digit (value / base ^ (n - 1 - k) % base)
  pub final : mem' (str + n) ≡ 0
  pub kept : (a : ℕ) → (a < str) ⊎ (str + n < a) → mem' a ≡ mem a

reversed-Prints :
    (base : ℕ) (digit mem : ℕ → ℕ) (value str : ℕ) {mem' : ℕ → ℕ}
    → (w : Written base digit mem str value 0 20)
    → ((a : ℕ) → mem' a ≡ mirrored (store w.after (str + w.n) 0) str (str + (w.n - 1)) a)
    → Prints base digit mem value str mem'
reversed-Prints base digit mem value str w all =
    let pos = w.digits.some_digit in
    let e : str + 0 ≡ str = omega arith in
    record {
      n = w.n;
      digits = w.digits;
      short = w.short;
      chars = λ k h.
          let at : str + (str + (w.n - 1)) - (str + k) ≡ str + (w.n - 1 - k) = omega arith in
          let char = rw e at (w.chars (w.n - 1 - k) (omega arith)) in
          all (str + k) ∙ ground (arith, ap (λ (t : ℕ). w.after t) at, char);
      final = all (str + w.n) ∙ ground arith;
      kept = λ a out. all a ∙ elim out [
        | inl h ↦ ground (arith, w.kept a (inl (omega arith)))
        | inr h ↦ ground (arith, w.kept a (inr (omega arith)))
      ];
    }

print_number-Prints :
    (base : ℕ) (digit mem : ℕ → ℕ) (value str : ℕ)
    → 1 < base
    → value / base < base ^ 19
    → str ≢ 0
    → (mem' : ℕ → ℕ) × (print_number base digit mem value str ≡ some mem')
      × Prints base digit mem value str mem'
unfolding print_number str_reverse
print_number-Prints base digit mem value str two fits real =
    let w = digit_loop-Written 19 base digit mem str value 0 two fits (omega arith) in
    let (mem', runs, all) = str_reverse_lem (store w.after (str + w.n) 0) str (w.n - 1) real in
    let go : (str != 0) ≡ true = ground arith in
    let e : 0 + w.n ≡ w.n = omega arith in
    (mem', rw (go, w.runs, e) (rw go at runs), reversed-Prints base digit mem value str w all)

-- `utoa` of a 64-bit value at an address other than NULL ends. It leaves the decimal digits of the value
-- there, the highest first and without leading zeros, at most 20 of them, and a final 0, and changes
-- no other byte.
pub utoa-Prints :
    (mem : ℕ → ℕ) (value str : ℕ)
    → value < 2 ^ 64
    → str ≢ 0
    → (mem' : ℕ → ℕ) × (utoa mem value str ≡ some mem') × Prints 10 decimal_digit mem value str mem'
unfolding utoa
utoa-Prints mem value str word real =
    print_number-Prints 10 decimal_digit mem value str (omega arith) (omega arith) real

-- `hex` of a 64-bit value at an address other than NULL ends. It leaves the hexadecimal digits of the
-- value there, the highest first and without leading zeros, at most 20 of them, and a final 0, and
-- changes no other byte.
pub hex-Prints :
    (mem : ℕ → ℕ) (value str : ℕ)
    → value < 2 ^ 64
    → str ≢ 0
    → (mem' : ℕ → ℕ) × (hex mem value str ≡ some mem') × Prints 16 hex_digit mem value str mem'
unfolding hex
hex-Prints mem value str word real =
    print_number-Prints 16 hex_digit mem value str (omega arith) (omega arith) real
