-- ===== src/Mm/Buddy/Take.antt =====
-- Taking a free block off its list.
use quark_os.Members.{has, has-without_ne, has-without_self, without-Distinct}
use quark_os.Prelude.{ℕ, ◌+◌, ◌^◌, ◌<◌, ◌≡◌, inl, inr, true, arith, eq_or_ne}
use quark_os.Mm.Buddy.{Buddy, order_size, take_page}
use quark_os.Mm.Buddy.Invariant.{is_head, HasOrder, IsBuddy}

module _ (s : Buddy) (p i : ℕ) (ok : IsBuddy s) (free : has p (s.root i) ≡ true) where
  taken : Buddy
  taken = take_page s p (order_size i)

  at : (p < s.page_cnt) × (is_head s p ≡ true) × ((s.pages p).ref_cnt ≡ 0) × HasOrder s p i
  at = ok.listed i p free

  -- Nothing changes but the reference count of `p` and the lists.
  head-taken : (q : ℕ) → is_head taken q ≡ is_head s q
  unfolding taken
  head-taken q = ground arith

  size-taken : (q : ℕ) → (taken.pages q).size ≡ (s.pages q).size
  unfolding taken
  size-taken q = ground (arith, at)

  listed-taken :
      (o q : ℕ)
      → has q (taken.root o) ≡ true
      → (q < s.page_cnt)
        × (is_head taken q ≡ true)
        × ((taken.pages q).ref_cnt ≡ 0)
        × HasOrder taken q o
  unfolding taken
  listed-taken o q m = elim (eq_or_ne q p) [
    | inl e ↦ ground (arith, has-without_self p (s.root o) (ok.distinct o))
    | inr ne ↦ ground (arith, has-without_ne p q (s.root o) ne, ok.listed o q)
  ]

  complete-taken :
      (o q : ℕ)
      → q < s.page_cnt
      → is_head taken q ≡ true
      → (taken.pages q).ref_cnt ≡ 0
      → HasOrder taken q o
      → has q (taken.root o) ≡ true
  unfolding taken
  complete-taken o q small head zero_ref size = elim (eq_or_ne q p) [
    | inl e ↦ ground arith
    | inr ne ↦ ground (arith, has-without_ne p q (s.root o) ne, ok.complete o q)
  ]

  pub take-IsBuddy : IsBuddy (take_page s p (order_size i))
  unfolding taken
  take-IsBuddy = record {
    sized = λ q small head. ground (arith, ok.sized q, head-taken q, size-taken q);
    aligned = λ q o small head size.
        ok.aligned q o small (ground (arith, head-taken q)) (ground (arith, size-taken q));
    fits = λ q o small head size.
        ok.fits q o small (ground (arith, head-taken q)) (ground (arith, size-taken q));
    interior = λ q o r small head size lo hi. ground (
      arith,
      head-taken r,
      ok.interior q o r small (ground (arith, head-taken q)) (ground (arith, size-taken q)) lo hi,
    );
    adjoins = λ q o small head size inside. ground (
      arith,
      head-taken (q + 2 ^ o),
      ok.adjoins q o small (ground (arith, head-taken q)) (ground (arith, size-taken q)) inside,
    );
    first = λ some_pages. ground (arith, head-taken 0, ok.first);
    unreferenced = λ q small tail. ground (arith, ok.unreferenced q, at);
    listed = listed-taken;
    complete = complete-taken;
    distinct = λ o. without-Distinct p (s.root o) (ok.distinct o);
  }
