-- ===== src/Fs/Ext2/Bitmap/Scan.antt =====
-- `set_next_zero_bit` of kernel/fs/ext2/block.c, and the clearing of a bit.
use native.Mathlib.Decide.{dec_lt}
use quark_os.Prelude.{
  ℕ, zero, suc, ◌+◌, ◌*◌, ◌/◌, ◌%◌, ◌^◌, ◌≤◌, ◌<◌, bit_and, ◌≡◌, refl, inl, inr, Bool, true, false,
  ◌&&◌, ◌||◌, Option, none, some, arith, not, ltb, ◌==◌, ◌!=◌, store, Bool-cases, eq_or_ne,
}
use quark_os.Fs.Ext2.Bitmap.{
  set_bit, clear_bit, get_clear_bit, zero_bit_loop, set_next_zero_bit, clear_map_bit,
}

-- bit `i` of a byte, and bit `k` of a bitmap
abbrev pub test_bit : ℕ → ℕ → Bool
test_bit v i = bit_and v (2 ^ i) != 0

abbrev pub map_bit : (ℕ → ℕ) → ℕ → Bool
map_bit map k = test_bit (map (k / 8)) (k % 8)

abbrev bool_eq : Bool → Bool → Bool
bool_eq true b = b
bool_eq false b = not b

-- Every number below a bound passes a test.
every : ℕ → (ℕ → Bool) → Bool
every zero p = true
every (suc n) p = every n p && p n

every_lem : (n : ℕ) (p : ℕ → Bool) (x : ℕ) → every n p ≡ true → x < n → p x ≡ true
unfolding every
every_lem zero p x all h = absurd (omega arith)
every_lem (suc n) p x all h = elim (eq_or_ne x n) [
  | inl e ↦ rw e (ground arith)
  | inr ne ↦ every_lem n p x (ground arith) (omega arith)
]

-- The first clear bit of a byte is one of the eight, it is clear, and those below it are set.
clear_table :
    every 255 (λ v.
      ltb (get_clear_bit v) 8
      && not (test_bit v (get_clear_bit v))
      && every (get_clear_bit v) (λ i. test_bit v i))
    ≡ true
unfolding every get_clear_bit
clear_table = refl

set_table :
    every 256 (λ v.
      every 8 (λ b. every 8 (λ i. bool_eq (test_bit (set_bit v b) i) (i == b || test_bit v i))))
    ≡ true
unfolding every set_bit
set_table = refl

clear_bit_table :
    every 256 (λ v.
      every 8 (λ b. every 8 (λ i. bool_eq (test_bit (clear_bit v b) i) (i != b && test_bit v i))))
    ≡ true
unfolding every clear_bit
clear_bit_table = refl

-- All bytes are bytes.
abbrev pub IsBytes : (ℕ → ℕ) → Type 0
IsBytes map = (j : ℕ) → map j < 256

-- Bit `k` was the first clear one from `lo` on, and is the only one that changed.
pub record Took (map : ℕ → ℕ) (lo hi k : ℕ) (map' : ℕ → ℕ) : Type 0 where
  pub low : lo ≤ k
  pub high : k < hi
  pub was_clear : map_bit map k ≡ false
  pub first : (j : ℕ) → lo ≤ j → j < k → map_bit map j ≡ true
  pub set : (j : ℕ) → map_bit map' j ≡ (j == k || map_bit map j)

abbrev pub Outcome : (ℕ → ℕ) → ℕ → ℕ → Option ℕ × (ℕ → ℕ) → Type 0
Outcome map lo hi (some k, map') = Took map lo hi k map'
Outcome map lo hi (none, map') = (map' ≡ map) × ((j : ℕ) → lo ≤ j → j < hi → map_bit map j ≡ true)

bool_eq_lem : (a b : Bool) → bool_eq a b ≡ true → a ≡ b
bool_eq_lem true b h = ground arith
bool_eq_lem false b h = ground arith

clear_facts :
    (v : ℕ)
    → v < 255
    → (get_clear_bit v < 8)
      × (test_bit v (get_clear_bit v) ≡ false)
      × ((i : ℕ) → i < get_clear_bit v → test_bit v i ≡ true)
clear_facts v h =
    let row = every_lem 255 _ v clear_table h in
    (
      ground (arith, row),
      ground (arith, row),
      λ i hi. every_lem (get_clear_bit v) (λ i. test_bit v i) i (ground (arith, row)) hi,
    )

pub set_facts :
    (v b i : ℕ) → v < 256 → b < 8 → i < 8 → test_bit (set_bit v b) i ≡ (i == b || test_bit v i)
set_facts v b i hv hb hi =
    bool_eq_lem _ _ (every_lem 8 _ i (every_lem 8 _ b (every_lem 256 _ v set_table hv) hb) hi)

pub clear_bit_facts :
    (v b i : ℕ) → v < 256 → b < 8 → i < 8 → test_bit (clear_bit v b) i ≡ (i != b && test_bit v i)
clear_bit_facts v b i hv hb hi =
    bool_eq_lem _ _ (every_lem 8 _ i (every_lem 8 _ b (every_lem 256 _ v clear_bit_table hv) hb) hi)

full_byte : (b : ℕ) → b < 8 → test_bit 255 b ≡ true
unfolding every
full_byte b h = every_lem 8 (λ b. test_bit 255 b) b all h
  where
    all : every 8 (λ b. test_bit 255 b) ≡ true
    all = refl

-- The bits of byte `i`, one of which is written.
store_bit :
    (map : ℕ → ℕ) (i b j : ℕ)
    → IsBytes map
    → b < 8
    → map_bit (store map i (set_bit (map i) b)) j ≡ (j == b + i * 8 || map_bit map j)
store_bit map i b j bytes hb = elim (eq_or_ne i (j / 8)) [
  | inl e ↦ ground (arith, set_facts (map i) b (j % 8) (bytes i) hb (omega arith))
  | inr ne ↦ ground arith
]

zero_bit_found :
    (map : ℕ → ℕ) (i hi : ℕ)
    → IsBytes map
    → i * 8 + 8 ≤ hi
    → map i < 255
    → Took map
        (i * 8)
        hi
        (get_clear_bit (map i) + i * 8)
        (store map i (set_bit (map i) (get_clear_bit (map i))))
zero_bit_found map i hi bytes room low =
    let (small, clear, below) = clear_facts (map i) low in
    record {
      low = omega arith;
      high = omega arith;
      was_clear =
          let e : (get_clear_bit (map i) + i * 8) / 8 ≡ i = omega arith in
          let e' : (get_clear_bit (map i) + i * 8) % 8 ≡ get_clear_bit (map i) = omega arith in
          rw (e, e') clear;
      first = λ j lo up. let e : j / 8 ≡ i = omega arith in rw e (below (j % 8) (omega arith));
      set = λ j. store_bit map i (get_clear_bit (map i)) j bytes small;
    }

-- Starting one byte earlier, at a full byte.
later :
    (map : ℕ → ℕ) (i hi : ℕ) (out : Option ℕ × (ℕ → ℕ))
    → map i ≡ 255
    → Outcome map ((i + 1) * 8) hi out
    → Outcome map (i * 8) hi out
later map i hi (some k, map') full o = record {
  low = omega (arith, o.low);
  high = o.high;
  was_clear = o.was_clear;
  first = λ j lo up. elim (dec_lt j ((i + 1) * 8)) [
    | yes here ↦ let e : j / 8 ≡ i = omega arith in rw (e, full) (full_byte (j % 8) (omega arith))
    | no there ↦ o.first j (omega arith) up
  ];
  set = o.set;
}
later map i hi (none, map') full o = (
  o.0,
  λ j lo up. elim (dec_lt j ((i + 1) * 8)) [
    | yes here ↦ let e : j / 8 ≡ i = omega arith in rw (e, full) (full_byte (j % 8) (omega arith))
    | no there ↦ o.1 j (omega arith) up
  ],
)

zero_bit_loop_lem :
    (map : ℕ → ℕ) (n i : ℕ)
    → IsBytes map
    → Outcome map (i * 8) ((i + n) * 8) (zero_bit_loop map n i)
unfolding zero_bit_loop
zero_bit_loop_lem map zero i bytes = (refl, λ j lo up. absurd (omega arith))
zero_bit_loop_lem map (suc n) i bytes = elim (Bool-cases (map i != 0xff)) [
  | inl some_clear ↦
      rw some_clear
        (zero_bit_found map i ((i + suc n) * 8) bytes (omega arith) (ground (arith, bytes i)))
  | inr full ↦
      let e : i + 1 + n ≡ i + suc n = omega arith in
      rw full (
        later map i ((i + suc n) * 8) (zero_bit_loop map n (i + 1)) (ground arith)
          (rw e at (zero_bit_loop_lem map n (i + 1) bytes)))
]

-- On a bitmap of bytes, the scan of `max` of them takes the first clear bit, sets it and no other; it returns -1, with the
-- bitmap as it was, exactly when all of those bytes are full.
pub set_next_zero_bit_lem :
    (map : ℕ → ℕ) (max : ℕ) → IsBytes map → Outcome map 0 (max * 8) (set_next_zero_bit map max)
unfolding set_next_zero_bit
set_next_zero_bit_lem map max bytes =
    let e : 0 + max ≡ max = omega arith in rw e at (zero_bit_loop_lem map max 0 bytes)

-- On a bitmap of bytes, freeing a block clears its bit and no other.
pub clear_map_bit_lem :
    (map : ℕ → ℕ) (bid j : ℕ)
    → IsBytes map
    → map_bit (clear_map_bit map bid) j ≡ (j != bid && map_bit map j)
unfolding clear_map_bit
clear_map_bit_lem map bid j bytes = elim (eq_or_ne (bid / 8) (j / 8)) [
  | inl e ↦ ground (
    arith,
    clear_bit_facts (map (bid / 8)) (bid % 8) (j % 8) (bytes (bid / 8)) (omega arith) (omega arith),
  )
  | inr ne ↦ ground arith
]
