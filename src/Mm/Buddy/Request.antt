-- ===== src/Mm/Buddy/Request.antt =====
-- `__alloc_page` of kernel/mm/page_alloc.c from its request on.
use native.Mathlib.Nat.{pow-suc}
use native.Mathlib.Decide.{dec_lt}
use quark_os.Members.{has}
use quark_os.Prelude.{
  ℕ, suc, ◌+◌, ◌-◌, ◌*◌, ◌/◌, ◌%◌, ◌^◌, ◌≤◌, ◌<◌, ◌≡◌, Bool, true, ◌&&◌, arith, ◌==◌, sym, some, ap,
  ltb, leb, ◌∙◌, >>=-some, assertk-some, subst,
}
use mathlib.Core.Option.{some-injective}
use quark_os.Klib.Bits.{fix_size, log2}
use quark_os.Klib.Bits.Digits.{one-le-two-pow, two_pow_mono, pow_add}
use quark_os.Klib.Bits.PowerOfTwo.{fix_size_lem}
use quark_os.Klib.Bits.Log.{log2_lem}
use quark_os.Mm.Buddy.{Buddy, max_order, order_size, take_page, find_loop, alloc_sized, alloc_page}
use quark_os.Mm.Buddy.Invariant.{IsBuddy}
use quark_os.Mm.Buddy.Alloc.{Allocated, find_loop-Allocated, find_loop_total}

-- A power of two from 4 KiB to 4 MiB is the size of one of the orders.
power_order :
    (size j : ℕ)
    → size ≡ 2 ^ j
    → 4096 ≤ size
    → size ≤ 4 * 0x100000
    → (o : ℕ) × (o ≤ max_order) × (log2 (size / 4096) ≡ some o) × (size ≡ order_size o)
power_order size j e low high =
    let big : 12 ≤ j = elim (dec_lt j 12) [
      | yes lt ↦ absurd (omega (arith, two_pow_mono j 11 (omega arith), e))
      | no ge ↦ omega arith
    ] in
    let top : j ≤ 22 = elim (dec_lt 22 j) [
      | yes gt ↦ absurd (omega (arith, two_pow_mono 23 j gt, e))
      | no le ↦ omega arith
    ] in
    let whole : 12 + (j - 12) ≡ j = omega arith in
    let parts : size ≡ order_size (j - 12) =
      omega (arith, e, pow_add 12 (j - 12), ap (λ (t : ℕ). 2 ^ t) whole) in
    (
      j - 12,
      omega arith,
      log2_lem (j - 12) (size / 4096) (omega (arith, parts))
          (omega (arith, parts, pow-suc 2 (j - 12))) (omega arith),
      parts,
    )

-- The checks of the source on the rounded size.
abbrev accepts : ℕ → Bool
accepts size = ltb 0 size && leb size (4 * 0x100000) && size % 4096 == 0

at_least : (size : ℕ) → accepts size ≡ true → (4096 ≤ size) × (size ≤ 4 * 0x100000)
at_least size h = ground arith

alloc_sized-Allocated :
    (s : Buddy) (size p o : ℕ) {s' : Buddy}
    → IsBuddy s
    → o ≤ max_order
    → log2 (size / 4096) ≡ some o
    → size ≡ order_size o
    → alloc_sized s size ≡ some (p, s')
    → Allocated s size p s'
unfolding alloc_sized
alloc_sized-Allocated s size p o {s'} ok level log whole e =
    let (checked, next) = assertk-some (accepts size) _ e in
    let (order, log', rest) = >>=-some (log2 (size / 4096)) _ next in
    let same : o ≡ order = some-injective _ _ (sym log ∙ log') in
    let ((q, g), found, made) = >>=-some (find_loop s order order (max_order + 1 - order)) _ rest in
    let got =
      find_loop-Allocated s order order (max_order + 1 - order) q ok (omega arith) (omega arith)
        found in
    let is : (q, take_page g q size) ≡ (p, s') = some-injective _ _ made in
    let whole' : order_size order ≡ size = sym (whole ∙ ap (λ (n : ℕ). order_size n) same) in
    subst (λ (r : ℕ × Buddy). Allocated s size r.0 r.1) is
      (subst (λ z. Allocated s z q (take_page g q z)) whole' got)

checks : (s : Buddy) (size : ℕ) {r : ℕ × Buddy} → alloc_sized s size ≡ some r → accepts size ≡ true
unfolding alloc_sized
checks s size e = (assertk-some (accepts size) _ e).0

-- From a valid state, the page that `__alloc_page` returns for a request from 1 byte to 2 GiB was
-- free and now heads a block of exactly the rounded size, with one reference. The blocks still tile
-- the pages, so the new block overlaps no other one; no other reference count changes and no page in
-- use is touched; and the count of free bytes falls by the size.
pub alloc_page-Allocated :
    (s : Buddy) (request p : ℕ) {s' : Buddy}
    → IsBuddy s
    → 0 < request
    → request ≤ 2 ^ 31
    → alloc_page s request ≡ some (p, s')
    → Allocated s (fix_size request) p s'
unfolding alloc_page
alloc_page-Allocated s request p ok pos small e =
    let (j, power, above, below) = fix_size_lem request pos small in
    let (low, high) = at_least (fix_size request) (checks s (fix_size request) e) in
    let (o, level, log, whole) = power_order (fix_size request) j power low high in
    alloc_sized-Allocated s (fix_size request) p o ok level log whole e

alloc_sized_total :
    (s : Buddy) (size order o q : ℕ)
    → IsBuddy s
    → accepts size ≡ true
    → log2 (size / 4096) ≡ some order
    → order ≤ o
    → o ≤ max_order
    → has q (s.root o) ≡ true
    → (r : ℕ × Buddy) × (alloc_sized s size ≡ some r)
unfolding alloc_sized
alloc_sized_total s size order o q ok checked log low high there =
    let ((p, g), found) =
      find_loop_total s order order (max_order + 1 - order) o q ok (omega arith) (omega arith) low
        high there in
    ((p, take_page g p size), rw (checked, log, found))

-- A power of two between two others.
order_le : (a b : ℕ) → 2 ^ a < 2 * 2 ^ b → a ≤ b
order_le a b h = elim (dec_lt b a) [
  | yes gt ↦ absurd (omega (arith, two_pow_mono (suc b) a gt, pow-suc 2 b))
  | no le ↦ omega arith
]

page_multiple : (size o : ℕ) → size ≡ order_size o → o ≤ max_order → accepts size ≡ true
page_multiple size o e level = ground (arith, two_pow_mono o 10 level, one-le-two-pow o)

-- In a valid state, a request for more than 2 KiB does not panic while a block of at least that size
-- is free.
pub alloc_page_total :
    (s : Buddy) (request o q : ℕ)
    → IsBuddy s
    → 2048 < request
    → request ≤ order_size o
    → o ≤ max_order
    → has q (s.root o) ≡ true
    → (r : ℕ × Buddy) × (alloc_page s request ≡ some r)
unfolding alloc_page
alloc_page_total s request o q ok low fits level there =
    let max = two_pow_mono o 10 level in
    let (j, power, above, below) = fix_size_lem request (omega arith) (omega arith) in
    let big : 12 ≤ j = elim (dec_lt j 12) [
      | yes lt ↦ absurd (omega (arith, two_pow_mono j 11 (omega arith), power))
      | no ge ↦ omega arith
    ] in
    let le : j ≤ 12 + o = order_le j (12 + o) (omega (arith, power, pow_add 12 o)) in
    let top = two_pow_mono j (12 + o) le in
    let roof : 2 ^ (12 + o) ≤ 4 * 0x100000 = omega (arith, pow_add 12 o, max) in
    let (order, level', log, whole) =
      power_order (fix_size request) j power (omega (arith, two_pow_mono 12 j big, power))
        (omega (arith, power, top, roof)) in
    let near : order ≤ o = order_le order o (omega (arith, whole, below, fits)) in
    let ok' : accepts (fix_size request) ≡ true =
      page_multiple (fix_size request) order whole level' in
    alloc_sized_total s (fix_size request) order o q ok ok' log near level there
