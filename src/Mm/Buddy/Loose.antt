-- ===== src/Mm/Buddy/Loose.antt =====
-- The end of the loop of `__free_page` of kernel/mm/page_alloc.c: the block goes on its free list.
use quark_os.Members.{Distinct, Distinct-snoc, has, has-append}
use quark_os.Prelude.{
  ℕ, ◌+◌, ◌^◌, ◌≤◌, ◌<◌, ◌≡◌, ◌≢◌, inl, inr, true, false, [], ◌∷◌, ◌++◌, arith, eq_or_ne,
  Bool-cases,
}
use quark_os.Mm.Buddy.{Buddy, max_order, list_add_prev}
use quark_os.Mm.Buddy.Invariant.{is_head, HasOrder, IsBuddy, order_inj}
use quark_os.Mm.Buddy.Merge.{hold}

-- The block at `p` is free but on no list.
pub record IsLoose (s : Buddy) (p o : ℕ) : Type 0 where
  pub held : IsBuddy (hold s p)
  pub inside : p < s.page_cnt
  pub head : is_head s p ≡ true
  pub size : HasOrder s p o
  pub idle : (s.pages p).ref_cnt ≡ 0
  pub level : o ≤ max_order

module _ (s : Buddy) (p o : ℕ) (l : IsLoose s p o) where
  after : Buddy
  after = list_add_prev s p o

  ok : IsBuddy (hold s p)
  ok = l.held

  same : (q : ℕ) → q ≢ p → (hold s p).pages q ≡ s.pages q
  same q ne = ground arith

  head-held : (q : ℕ) → is_head (hold s p) q ≡ is_head s q
  head-held q = ground arith

  size-held : (q : ℕ) → ((hold s p).pages q).size ≡ (s.pages q).size
  size-held q = ground arith

  unlisted : (m : ℕ) → has p (s.root m) ≡ false
  unlisted m = elim (Bool-cases (has p (s.root m))) [
    | inl there ↦ ground (arith, ok.listed m p there)
    | inr gone ↦ gone
  ]

  listed-after :
      (m q : ℕ)
      → has q (after.root m) ≡ true
      → (q < s.page_cnt) × (is_head s q ≡ true) × ((s.pages q).ref_cnt ≡ 0) × HasOrder s q m
  unfolding after
  listed-after m q there = elim (Bool-cases (has q (s.root m))) [
    | inl old ↦
        let (sq, h, z, size) = ok.listed m q old in
        let ne : q ≢ p = λ e. ground (arith, unlisted m) in
        let e = same q ne in
        (sq, ground (arith, e, h), ground (arith, e, z), ground (arith, e, size))
    | inr new ↦
        let at : (m ≡ o) × (q ≡ p) = ground (arith, has-append q (s.root o) (p ∷ [])) in
        (
          ground (arith, l.inside),
          ground (arith, l.head),
          ground (arith, l.idle),
          ground (arith, l.size),
        )
  ]

  complete-after :
      (m q : ℕ)
      → q < s.page_cnt
      → is_head s q ≡ true
      → (s.pages q).ref_cnt ≡ 0
      → HasOrder s q m
      → has q (after.root m) ≡ true
  unfolding after
  complete-after m q sq h z size = elim (eq_or_ne q p) [
    | inl e ↦
        let level : m ≡ o = order_inj m o (ground (arith, l.size)) in
        ground (arith, has-append q (s.root o) (p ∷ []))
    | inr ne ↦
        let at = same q ne in
        let old = ok.complete m q sq (ground arith) (ground arith) (ground arith) in
        ground (arith, old, has-append q (s.root o) (p ∷ []))
  ]

  Distinct-after : (m : ℕ) → Distinct (after.root m)
  unfolding after
  Distinct-after m = elim (eq_or_ne o m) [
    | inl e ↦
        let r : after.root m ≡ s.root m ++ (p ∷ []) = ground arith in
        rw r (Distinct-snoc (s.root m) p (ok.distinct m) (unlisted m))
    | inr ne ↦ let r : after.root m ≡ s.root m = ground arith in rw r (ok.distinct m)
  ]

  -- Listing a loose block.
  pub list-IsBuddy : IsBuddy (list_add_prev s p o)
  unfolding after
  list-IsBuddy = record {
    sized = λ q sq h.
        let (m, le, size) = ok.sized q sq (ground (arith, head-held q)) in
        (m, le, ground (arith, size-held q));
    aligned = λ q m sq h size.
        ok.aligned q m sq (ground (arith, head-held q)) (ground (arith, size-held q));
    fits =
        λ q m sq h size. ok.fits q m sq (ground (arith, head-held q)) (ground (arith, size-held q));
    interior = λ q m r sq h size lo hi. ground (
      arith,
      head-held r,
      ok.interior q m r sq (ground (arith, head-held q)) (ground (arith, size-held q)) lo hi,
    );
    adjoins = λ q m sq h size room. ground (
      arith,
      head-held (q + 2 ^ m),
      ok.adjoins q m sq (ground (arith, head-held q)) (ground (arith, size-held q)) room,
    );
    first = λ pages. ground (arith, head-held 0, ok.first pages);
    unreferenced = λ q sq h.
        let ne : q ≢ p = λ e. ground (arith, l.head) in
        ground (arith, same q ne, ok.unreferenced q sq);
    listed = listed-after;
    complete = complete-after;
    distinct = Distinct-after;
  }
