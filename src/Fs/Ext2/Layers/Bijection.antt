-- ===== src/Fs/Ext2/Layers/Bijection.antt =====
-- `find_block_layer` of kernel/fs/ext2/block.c.
use native.Mathlib.Nat.{mul-le-mul, mod-lt, mod-add-div, div-div-eq-div-mul, div-lt_iff_lt-mul}
use quark_os.Prelude.{
  ℕ, zero, suc, ◌+◌, ◌-◌, ◌*◌, ◌/◌, ◌%◌, ◌≤◌, ◌<◌, ◌≡◌, refl, inl, inr, true, false, some, arith,
  leb, ltb, Bool-cases, if◌then◌else◌, ◌^◌, ap, subst,
}
use quark_os.Fs.Ext2.Layers.{
  Position, place, first_test, second_test, find_block_layer, block_number, n_direct_block,
}

-- The three digits of a number in base `n`.
digits_lem : (n b : ℕ) → b / (n * n) * (n * n) + b / n % n * n + b % n ≡ b
digits_lem n b = omega (
  arith,
  mod-add-div b n,
  ap (λ (t : ℕ). n * t) (mod-add-div (b / n) n),
  ap (λ (t : ℕ). n * n * t) (div-div-eq-div-mul b n n),
)

-- What the indices of a placed block say.
square_pos : (n : ℕ) → 0 < n → 0 < n * n
square_pos n pos = grind arith

record Placed (n layer b : ℕ) (p : Position) : Type 0 where
  at : p.layer ≡ layer
  number : p.id2 * (n * n) + p.id1 * n + p.id0 ≡ b
  low0 : p.id0 < n
  low1 : p.id1 < n
  low2 : p.id2 < n

le-mul_suc : (s n : ℕ) → s ≤ s * suc n
le-mul_suc s n = omega arith

square_fits : (n b : ℕ) → leb (n * n) b ≡ false → b < n * n * n
square_fits zero b h = ground arith
square_fits (suc n) b h = ground (arith, le-mul_suc (suc n * suc n) n)

-- The products of the source fit 32 bits: a block has at most 1024 pointers.
fits32 : (n : ℕ) → n ≤ 1024 → (n * n % 2 ^ 32 ≡ n * n) × (n * n * n % 2 ^ 32 ≡ n * n * n)
fits32 n h =
    let two : n * n ≤ 1024 * 1024 = mul-le-mul h h in
    let three : n * n * n ≤ 1024 * 1024 * 1024 = mul-le-mul two h in
    (omega (arith, two), omega (arith, three))

place_lem :
    (n layer b : ℕ)
    → 0 < n
    → n ≤ 1024
    → b < n * n * n
    → (p : Position) × (place n (n * n) (layer, b) ≡ some p) × Placed n layer b p
place_lem n layer b pos small h =
    let fits : ltb b (n * n * n % 2 ^ 32) ≡ true = ground (arith, (fits32 n small).1) in
    (
      record { layer = layer; id0 = b % n; id1 = b / n % n; id2 = b / (n * n) },
      rw fits refl,
      record {
        at = refl;
        number = digits_lem n b;
        low0 = mod-lt b pos;
        low1 = mod-lt (b / n) pos;
        low2 = (div-lt_iff_lt-mul (square_pos n pos)).1 (ground arith);
      },
    )

le_square : (n : ℕ) → n ≤ n * n
le_square zero = omega arith
le_square (suc n) = omega arith

small : (n b : ℕ) → leb n b ≡ false → leb (n * n) b ≡ false
small n b h = ground (arith, le_square n)

-- The layer of the block number `bno`: the first that reaches it.
abbrev pub layer_of : ℕ → ℕ → ℕ
layer_of n bno = if ltb bno (12 + n) then 0 else if ltb bno (12 + n + n * n) then 1 else 2

-- The position stands for the block number.
pub record StandsFor (n bno : ℕ) (p : Position) : Type 0 where
  pub layer : p.layer ≡ layer_of n bno
  pub number : block_number n p ≡ bno
  pub low0 : p.id0 < n
  pub low1 : p.id1 < n
  pub low2 : p.id2 < n

tests_lem :
    (n b : ℕ)
    → 0 < n
    → n ≤ 1024
    → b < n + n * n + n * n * n
    → (p : Position) × (place n (n * n) (second_test (n * n) (first_test n b)) ≡ some p)
      × StandsFor n (12 + b) p
unfolding block_number
tests_lem n b pos few h = elim (Bool-cases (leb n b)) [
  | inl beyond1 ↦ elim (Bool-cases (leb (n * n) (b - n))) [
    | inl beyond2 ↦
        let (p, e, q) = place_lem n 2 (b - n - n * n) pos few (ground arith) in
        (
          p,
          rw (beyond1, beyond2) e,
          record {
            layer = ground (arith, q);
            number = ground (arith, q);
            low0 = q.low0;
            low1 = q.low1;
            low2 = q.low2;
          },
        )
    | inr within2 ↦
        let (p, e, q) = place_lem n 1 (b - n) pos few (square_fits n (b - n) within2) in
        (
          p,
          rw (beyond1, within2) e,
          record {
            layer = ground (arith, q);
            number = ground (arith, q);
            low0 = q.low0;
            low1 = q.low1;
            low2 = q.low2;
          },
        )
  ]
  | inr within1 ↦
      let (p, e, q) = place_lem n 0 b pos few (square_fits n b (small n b within1)) in
      (
        p,
        rw (within1, small n b within1) e,
        record {
          layer = ground (arith, q);
          number = ground (arith, q);
          low0 = q.low0;
          low1 = q.low1;
          low2 = q.low2;
        },
      )
]

-- For pointer blocks of 1 to 1024 pointers and a block number from 12 on that three layers reach, no
-- assertion fails; the layer of the position found is the first that reaches the number, the indices
-- stand for the number there, and each is within a pointer block.
pub find_block_layer_lem :
    (n bno : ℕ)
    → 0 < n
    → n ≤ 1024
    → n_direct_block ≤ bno
    → bno < 12 + n + n * n + n * n * n
    → (p : Position) × (find_block_layer n bno ≡ some p) × StandsFor n bno p
unfolding find_block_layer
find_block_layer_lem n bno pos few big h =
    let (p, e, q) = tests_lem n (bno - 12) pos few (omega arith) in
    let back : 12 + (bno - 12) ≡ bno = omega arith in
    (p, rw (fits32 n few).0 e, subst (λ (x : ℕ). StandsFor n x p) back q)
