-- ===== src/Mm/Slab/Request.antt =====
-- `slab_alloc` of kernel/mm/slab.c: the list for a request of any size.
use native.Mathlib.Nat.{pow-suc}
use quark_os.Klib.Bits.{fix_size, log2}
use quark_os.Klib.Bits.Digits.{two_pow_mono}
use quark_os.Klib.Bits.Log.{log2_lem}
use quark_os.Klib.Bits.PowerOfTwo.{fix_size_lem}
use quark_os.Mm.Slab.{Slabs, slab_alloc, list_alloc, list_size, slab_max, at_least}
use quark_os.Prelude.{
  ℕ, ◌+◌, ◌-◌, ◌*◌, ◌^◌, ◌≤◌, ◌<◌, ◌≡◌, true, arith, ◌∙◌, ap, Bool-cases, eq_or_ne, ltb, leb, ◌!=◌,
  ◌&&◌, some, inl, inr, ◌⊎◌,
}

exponent : (j n : ℕ) → 4 ≤ n → n < 4096 → n ≡ 2 ^ j → (2 ≤ j) × (j < 12)
exponent j n low high e = (
  elim (Bool-cases (ltb j 2)) [
    | inl small ↦
        let less : j ≤ 1 = ground arith in absurd (omega (arith, e, two_pow_mono j 1 less))
    | inr large ↦ ground arith
  ],
  elim (Bool-cases (ltb j 12)) [
    | inl small ↦ ground arith
    | inr large ↦
        let more : 12 ≤ j = ground arith in absurd (omega (arith, e, two_pow_mono 12 j more))
  ],
)

-- What `fixSize` and `log2` make of a size that a slab can have.
request_list :
    (n : ℕ)
    → 4 ≤ n
    → n ≤ 2048
    → (i : ℕ) × (i < 10)
      × (fix_size n ≡ 2 ^ (i + 2))
      × (log2 (fix_size n) ≡ some (i + 2))
      × (n ≤ 2 ^ (i + 2))
      × (2 ^ (i + 2) < 2 * n)
request_list n low high =
    let (j, e, above, below) = fix_size_lem n (omega (arith, low)) (omega (arith, high)) in
    let (lo, hi) =
      exponent j (fix_size n) (omega (arith, low, above)) (omega (arith, high, below)) e in
    let k : j ≡ j - 2 + 2 = omega (arith, lo) in
    let e' : fix_size n ≡ 2 ^ (j - 2 + 2) = e ∙ ap (λ (x : ℕ). 2 ^ x) k in
    let log =
      log2_lem j (fix_size n) (omega (arith, e)) (omega (arith, e, pow-suc 2 j, low, above))
        (omega (arith, below, high)) in
    (
      j - 2,
      omega (arith, hi),
      e',
      log ∙ ap some k,
      omega (arith, above, e'),
      omega (arith, below, e'),
    )

-- A request of 1 to 2048 bytes goes to the list `i` of ten, whose chunks have 2^(i + 2) bytes: enough for the
-- request, and less than twice as many, except that no chunk has less than 4.
pub slab_alloc_lem :
    (s : Slabs) (size page : ℕ)
    → 0 < size
    → size ≤ slab_max
    → (i : ℕ) × (i < list_size)
      × (slab_alloc s size page ≡ list_alloc s i list_size (2 ^ (i + 2)) page)
      × (size ≤ 2 ^ (i + 2))
      × ((2 ^ (i + 2) < 2 * size) ⊎ (i ≡ 0))
unfolding slab_alloc
slab_alloc_lem s size page pos small =
    let n = at_least size in
    let low : 4 ≤ n = ground arith in
    let high : n ≤ 2048 = ground arith in
    let (i, in_range, fixed, log, above, below) = request_list n low high in
    let ok : (size != 0 && leb size slab_max) ≡ true = ground arith in
    (
      i,
      in_range,
      rw (ok, log, fixed)
          (ap (λ (x : ℕ). list_alloc s x list_size (2 ^ (i + 2)) page) (omega arith)),
      ground (arith, above),
      elim (Bool-cases (ltb size 4)) [
        | inl tiny ↦ elim (eq_or_ne i 0) [
          | inl e ↦ inr e
          | inr ne ↦
              let more : 3 ≤ i + 2 = omega (arith, ne) in
              let four : n ≡ 4 = ground arith in
              absurd (omega (arith, below, four, two_pow_mono 3 (i + 2) more))
        ]
        | inr larger ↦ inl (ground (arith, below))
      ],
    )
