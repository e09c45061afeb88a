-- ===== src/Mm/Buddy/Coalesce.antt =====
-- How far `__free_page` of kernel/mm/page_alloc.c merges: into a block that has no free buddy.
use mathlib.Core.Option.{some-injective}
use native.Mathlib.Nat.{pow-suc}
use quark_os.Klib.Bits.Digits.{one-le-two-pow}
use quark_os.Mm.Buddy.{Buddy, max_order, order_size, list_add_prev, get_buddy, stops}
use quark_os.Mm.Buddy.Invariant.{is_head, HasOrder}
use quark_os.Mm.Buddy.Merge.{joined}
use quark_os.Mm.Buddy.Loose.{IsLoose}
use quark_os.Prelude.{
  ℕ, suc, ◌+◌, ◌-◌, ◌/◌, ◌%◌, ◌^◌, ◌≤◌, ◌<◌, ◌≡◌, ◌≢◌, refl, inl, inr, ◌⊎◌, true, false, Option,
  some, none, arith, leb, ◌==◌, ◌!=◌, if◌then◌else◌, sym, ◌∙◌, ap,
}

-- Where the buddy of a block of order `o` starts: block number `k` of that order pairs with `k - 1` if `k` is
-- odd, and with `k + 1` if it is even.
abbrev pub buddy_start : ℕ → ℕ → ℕ
buddy_start p o = if p / 2 ^ o % 2 == 1 then p - 2 ^ o else p + 2 ^ o

-- The block of order `o` at `p` is part of a free block of `s'` with no free buddy of its size; the pages
-- outside are those of `s`.
pub record Coalesced (s : Buddy) (p o : ℕ) (s' : Buddy) : Type 0 where
  pub start : ℕ
  pub order : ℕ
  pub level : order ≤ max_order
  pub low : start ≤ p
  pub high : p + 2 ^ o ≤ start + 2 ^ order
  pub head : is_head s' start ≡ true
  pub size : HasOrder s' start order
  pub idle : (s'.pages start).ref_cnt ≡ 0
  pub outside : (q : ℕ) → (q < start) ⊎ (start + 2 ^ order ≤ q) → s'.pages q ≡ s.pages q
  pub whole :
      order ≢ max_order
      → buddy_start start order < s.page_cnt
      → (s'.pages (buddy_start start order)).ref_cnt ≡ 0
      → (s'.pages (buddy_start start order)).size ≢ order_size order

get_buddy-buddy_start :
    (s : Buddy) (p o : ℕ)
    → HasOrder s p o
    → get_buddy s p
      ≡ some (if leb s.page_cnt (buddy_start p o) then none else some (buddy_start p o))
unfolding get_buddy
get_buddy-buddy_start s p o size =
    let cnt : (s.pages p).size / 4096 ≡ 2 ^ o = omega (arith, size) in
    let nonzero : (2 ^ o != 0) ≡ true = ground (arith, one-le-two-pow o) in rw (cnt, nonzero) refl

-- A block where the loop stops has no free buddy.
pub stops-Coalesced :
    (s : Buddy) (p o : ℕ) (b : Option ℕ)
    → IsLoose s p o
    → get_buddy s p ≡ some b
    → stops s p o b ≡ true
    → Coalesced s p o (list_add_prev s p o)
stops-Coalesced s p o b l found stop = record {
  start = p;
  order = o;
  level = l.level;
  low = omega arith;
  high = omega arith;
  head = l.head;
  size = l.size;
  idle = l.idle;
  outside = λ q out. refl;
  whole = λ ne inside idle same.
      let here : leb s.page_cnt (buddy_start p o) ≡ false = ground (arith, inside) in
      let is : b ≡ some (buddy_start p o) =
        some-injective _ _ (sym found ∙ get_buddy-buddy_start s p o l.size ∙ rw here refl) in
      let stop' : stops s p o (some (buddy_start p o)) ≡ true = sym (ap (stops s p o) is) ∙ stop in
      let equal = same ∙ sym l.size in ground (arith, stop', idle, equal, ne);
}

-- A merge keeps what is said of the rest of the loop.
pub joined-Coalesced :
    (s : Buddy) (p b low tmp o : ℕ) {s' : Buddy}
    → (p ≡ low) ⊎ (p ≡ tmp)
    → tmp ≡ low + 2 ^ o
    → Coalesced (joined s b low tmp) low (suc o) s'
    → Coalesced s p o s'
joined-Coalesced s p b low tmp o which half c =
    let pos = one-le-two-pow o in
    let double = pow-suc 2 o in
    let below : low ≤ p = elim which [ inl e ↦ omega arith | inr e ↦ omega arith ] in
    let above : p ≤ tmp = elim which [ inl e ↦ omega arith | inr e ↦ omega arith ] in
    record {
      start = c.start;
      order = c.order;
      level = c.level;
      low = omega (arith, c.low);
      high = omega (arith, c.high, double, half);
      head = c.head;
      size = c.size;
      idle = c.idle;
      outside = λ q out.
          let ne : low ≢ q = λ e. elim out [
            | inl h ↦ omega (arith, c.low)
            | inr h ↦ omega (arith, c.high, double, pos)
          ] in
          let ne' : tmp ≢ q = λ e. elim out [
            | inl h ↦ omega (arith, c.low, half)
            | inr h ↦ omega (arith, c.high, double, pos, half)
          ] in
          c.outside q out ∙ ground arith;
      whole = c.whole;
    }
