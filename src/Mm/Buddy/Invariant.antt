-- ===== src/Mm/Buddy/Invariant.antt =====
-- Well-formedness of kernel/mm/page_alloc.c: the heads tile the pages by aligned blocks, and the free
-- lists hold exactly the blocks without references.
use native.Mathlib.Decide.{dec_lt}
use native.Mathlib.Nat.{pow-suc}
use quark_os.Members.{Distinct, has}
use quark_os.Prelude.{ℕ, suc, ◌+◌, ◌*◌, ◌^◌, ◌≤◌, ◌<◌, ◌≡◌, ◌≢◌, Bool, true, false, arith, sym}
use quark_os.Klib.Bits.Digits.{two_pow_mono, one-le-two-pow}
use quark_os.Mm.Buddy.{Buddy, max_order, order_size}

abbrev pub is_head : Buddy → ℕ → Bool
is_head s p = (s.pages p).flag.head

abbrev pub HasOrder : Buddy → ℕ → ℕ → Type 0
HasOrder s p o = (s.pages p).size ≡ order_size o

pub record IsBuddy (s : Buddy) : Type 0 where
  -- every head has one of the eleven sizes
  pub sized :
      (p : ℕ) → p < s.page_cnt → is_head s p ≡ true → (o : ℕ) × (o ≤ max_order) × HasOrder s p o
  -- a block is aligned to its size, fits in the pages, and has no other head in it
  pub aligned :
      (p o : ℕ) → p < s.page_cnt → is_head s p ≡ true → HasOrder s p o → (k : ℕ) × (p ≡ k * 2 ^ o)
  pub fits :
      (p o : ℕ) → p < s.page_cnt → is_head s p ≡ true → HasOrder s p o → p + 2 ^ o ≤ s.page_cnt
  pub interior :
      (p o q : ℕ)
      → p < s.page_cnt
      → is_head s p ≡ true
      → HasOrder s p o
      → p < q
      → q < p + 2 ^ o
      → is_head s q ≡ false
  -- where a block ends, the next one begins
  pub adjoins :
      (p o : ℕ)
      → p < s.page_cnt
      → is_head s p ≡ true
      → HasOrder s p o
      → p + 2 ^ o < s.page_cnt
      → is_head s (p + 2 ^ o) ≡ true
  -- the first block begins at the first page
  pub first : 0 < s.page_cnt → is_head s 0 ≡ true
  -- only heads are referenced
  pub unreferenced : (p : ℕ) → p < s.page_cnt → is_head s p ≡ false → (s.pages p).ref_cnt ≡ 0
  pub listed :
      (o p : ℕ)
      → has p (s.root o) ≡ true
      → (p < s.page_cnt) × (is_head s p ≡ true) × ((s.pages p).ref_cnt ≡ 0) × HasOrder s p o
  pub complete :
      (o p : ℕ)
      → p < s.page_cnt
      → is_head s p ≡ true
      → (s.pages p).ref_cnt ≡ 0
      → HasOrder s p o
      → has p (s.root o) ≡ true
  pub distinct : (o : ℕ) → Distinct (s.root o)

-- The size of a block says its order.
order-lt : (a b : ℕ) → a < b → order_size a ≢ order_size b
order-lt a b h e =
    absurd (omega (arith, two_pow_mono (suc a) b h, pow-suc 2 a, one-le-two-pow a, e))

pub order_inj : (a b : ℕ) → order_size a ≡ order_size b → a ≡ b
order_inj a b e = elim (dec_lt a b) [
  | yes lt ↦ absurd (order-lt a b lt e)
  | no ge ↦ elim (dec_lt b a) [ yes gt ↦ absurd (order-lt b a gt (sym e)) | no le ↦ omega arith ]
]
