-- ===== src/Mm/Slab/Take.antt =====
-- `__slab_alloc` of kernel/mm/slab.c on a list that has a slab.
use native.Mathlib.Nat.{div-le_self}
use quark_os.Members.{has, has-without_ne, has-without_self, without-Distinct}
use quark_os.Mm.Slab.{Slabs, SlabInfo, page_size, page_ceil, take_chunk, move_page}
use quark_os.Mm.Slab.Invariant.{Chain, is_nil, IsSlab, IsSlabs, Touched, Touched-IsSlabs}
use quark_os.Prelude.{
  ℕ, ◌+◌, ◌%◌, ◌^◌, ◌≡◌, ◌≢◌, refl, Bool, true, false, List, [], ◌∷◌, inl, inr, ◌==◌, store, arith,
  sym, ◌∙◌, ap, eq_or_ne, Bool-cases, store_self, subst, List-cases, some,
}

-- The slab whose first chunk is taken.
taken-IsSlab :
    (s s' : Slabs) (p c : ℕ) (rest used : List ℕ)
    → s'.next ≡ s.next
    → s'.info p
      ≡ record (s.info p) { n_allocated = ((s.info p).n_allocated + 1) % 2 ^ 16; chunk = s.next c }
    → IsSlab s p (c ∷ rest) used
    → IsSlab s' p rest (c ∷ used)
taken-IsSlab s s' p c rest used e f ok = record {
  chain = rw (e, f) ok.chain.2;
  chunks = λ x m. rw f (
      ok.chunks x (elim m [
        | inl h ↦ inl (ground arith)
        | inr h ↦ elim (eq_or_ne x c) [ inl e ↦ inl (ground arith) | inr ne ↦ inr (ground arith) ]
      ]));
  free_once = ok.free_once.1;
  used_once = (
    elim (Bool-cases (has c used)) [ inl h ↦ ground (arith, ok.apart c h) | inr h ↦ h ],
    ok.used_once,
  );
  apart = λ x m. elim (eq_or_ne x c) [
    | inl e ↦ ground (arith, ok.free_once.0)
    | inr ne ↦ ground (arith, ok.apart x)
  ];
  total = rw f (omega (arith, ok.total));
  count = rw f (
      let small = div-le_self page_size (s.info p).size in
      omega (arith, ok.total, ok.count, small));
  flag = rw f ok.flag;
  stamped = rw f ok.stamped;
  aligned = ok.aligned;
  real = ok.real;
  big = rw f ok.big;
  fits = rw f ok.fits;
}

-- A page that leaves `src` for the front of `dst`.
moved-Touched :
    (is_full : ℕ → Bool) (chunk_size : ℕ → ℕ) (free used : ℕ → List ℕ) (s s' : Slabs)
    (page src dst : ℕ)
    → IsSlabs is_full chunk_size free used s
    → has page (s.list src) ≡ true
    → src ≢ dst
    → ((p : ℕ) → p ≢ page → s'.info p ≡ s.info p)
    → ((a : ℕ) → page_ceil a ≢ page → s'.next a ≡ s.next a)
    → ((h : ℕ) → s'.list h ≡ (move_page s page src dst).list h)
    → Touched s s' page dst
moved-Touched is_full chunk_size free used s s' page src dst ok on ne info next list = record {
  others = λ h p other m. ground (arith, list h, has-without_ne page p (s.list src) other);
  listed = λ h m. elim (eq_or_ne h dst) [
    | inl e ↦ e
    | inr off ↦ elim (eq_or_ne h src) [
      | inl e ↦ ground (arith, list h, has-without_self page (s.list src) (ok.once src))
      | inr far ↦ absurd (far (ok.one_list h src page (ground (arith, list h)) on))
    ]
  ];
  once = λ h. rw (list h) (elim (eq_or_ne h dst) [
    | inl e ↦
        let absent : has page (s.list dst) ≡ false = elim (Bool-cases (has page (s.list dst))) [
          | inl m ↦ absurd (ne (ok.one_list src dst page on m))
          | inr m ↦ m
        ] in
        ground (arith, absent, ok.once dst)
    | inr off ↦ elim (eq_or_ne h src) [
      | inl e ↦ ground (arith, without-Distinct page (s.list src) (ok.once src))
      | inr far ↦ ground (arith, ok.once h)
    ]
  ]);
  info = info;
  next = next;
}

-- A page that stays where it is.
pub kept-Touched :
    (is_full : ℕ → Bool) (chunk_size : ℕ → ℕ) (free used : ℕ → List ℕ) (s s' : Slabs) (page at : ℕ)
    → IsSlabs is_full chunk_size free used s
    → has page (s.list at) ≡ true
    → ((p : ℕ) → p ≢ page → s'.info p ≡ s.info p)
    → ((a : ℕ) → page_ceil a ≢ page → s'.next a ≡ s.next a)
    → s'.list ≡ s.list
    → Touched s s' page at
kept-Touched is_full chunk_size free used s s' page at ok on info next list = record {
  others = λ h p other m. subst (λ (l : ℕ → List ℕ). has p (l h) ≡ true) list m;
  listed =
      λ h m. ok.one_list h at page (subst (λ (l : ℕ → List ℕ). has page (l h) ≡ true) list m) on;
  once = λ h. rw list (ok.once h);
  info = info;
  next = next;
}

next-is_nil : (next : ℕ → ℕ) (c : ℕ) (xs : List ℕ) → Chain next c xs → (c == 0) ≡ is_nil xs
next-is_nil next c [] ch = ground arith
next-is_nil next c (x ∷ xs) ch = let at : c ≡ x = ch.0 in let real : x ≢ 0 = ch.1 in ground arith

-- The lists of slabs after a chunk of the page `p`, the first of the list `head`, is taken: `last` says whether
-- it was its last free chunk.
abbrev pub lists_after : Bool → (ℕ → List ℕ) → ℕ → ℕ → ℕ → List ℕ → (ℕ → List ℕ)
lists_after true list head full p pages = store (store list head pages) full (p ∷ list full)
lists_after false list head full p pages = store list head (p ∷ pages)

module _ (is_full : ℕ → Bool) (chunk_size : ℕ → ℕ) (free used : ℕ → List ℕ) (s : Slabs)
    (head full : ℕ) (ok : IsSlabs is_full chunk_size free used s) (partial : is_full head ≡ false)
    (filled : is_full full ≡ true) where
  pub apart : head ≢ full
  apart e = ground (arith, ap is_full e)

  -- What an allocation from the first page does to the chunks.
  pub record Taken (page c : ℕ) (rest : List ℕ) (s' : Slabs) : Type 0 where
    pub first : free page ≡ c ∷ rest
    pub runs : take_chunk s page head full ≡ some (c, s')
    pub valid :
        IsSlabs is_full chunk_size (store free page rest) (store used page (c ∷ used page)) s'
    pub lists :
        (pages : List ℕ)
        → s.list head ≡ page ∷ pages
        → (g : ℕ) → s'.list g ≡ lists_after (is_nil rest) s.list head full page pages g
    pub same_size : (s'.info page).size ≡ (s.info page).size
    pub others : (q : ℕ) → q ≢ page → s'.info q ≡ s.info q

  -- The lists after the first slab of `head` has gone to `full`.
  moved_lists :
      (p : ℕ) (pages : List ℕ) (g : ℕ)
      → s.list head ≡ p ∷ pages
      → (move_page s p head full).list g ≡ lists_after true s.list head full p pages g
  moved_lists p pages g first = elim (eq_or_ne full g) [
    | inl e ↦ ground (arith, apart)
    | inr ne ↦ elim (eq_or_ne head g) [ inl e ↦ ground (arith, first) | inr other ↦ ground arith ]
  ]

  taken : ℕ → ℕ → Slabs
  taken page c = record s {
    info = store s.info page (record (s.info page) {
      n_allocated = ((s.info page).n_allocated + 1) % 2 ^ 16;
      chunk = s.next c;
    });
  }

  take-Taken :
      (page : ℕ) (pages rest : List ℕ) (c : ℕ)
      → s.list head ≡ page ∷ pages
      → free page ≡ c ∷ rest
      → (s' : Slabs) × Taken page c rest s'
  unfolding take_chunk taken
  take-Taken page pages rest c first some_free =
      let on : has page (s.list head) ≡ true = ground arith in
      let old : IsSlab s page (c ∷ rest) (used page) =
        subst (λ f. IsSlab s page f (used page)) some_free (ok.slab head page on) in
      let at : (s.info page).chunk ≡ c = old.chain.0 in
      let real : (c == 0) ≡ false = ground (arith, old.chain.1) in
      let e = store_self s.info page (record (s.info page) {
        n_allocated = ((s.info page).n_allocated + 1) % 2 ^ 16;
        chunk = s.next c;
      }) in
      let nil : (s.next c == 0) ≡ is_nil rest = next-is_nil s.next (s.next c) rest old.chain.2 in
      elim (Bool-cases (s.next c == 0)) [
        | inl last ↦
            let s' = move_page (taken page c) page head full in
            (
              s',
              record {
                first = some_free;
                runs = rw (at, real, last) refl;
                valid =
                    Touched-IsSlabs is_full chunk_size free used s s' page full rest (c ∷ used page)
                      ok
                      (moved-Touched is_full chunk_size free used s s' page head full ok on apart
                        (λ p ne. ground arith) (λ a ne. refl) (λ h. refl))
                      (taken-IsSlab s s' page c rest (used page) refl e old)
                      (rw e (last ∙ sym filled)) (λ p. absurd (ground (arith, p, filled)));
                lists = λ ps at g. rw (sym nil, last) (moved_lists page ps g at);
                same_size = ap (λ (i : SlabInfo). i.size) e;
                others = λ q ne. ground arith;
              },
            )
        | inr more ↦
            let s' = taken page c in
            (
              s',
              record {
                first = some_free;
                runs = rw (at, real, more) refl;
                valid =
                    Touched-IsSlabs is_full chunk_size free used s s' page head rest (c ∷ used page)
                      ok
                      (kept-Touched is_full chunk_size free used s s' page head ok on
                        (λ p ne. ground arith) (λ a ne. refl) refl)
                      (taken-IsSlab s s' page c rest (used page) refl e old)
                      (rw e (more ∙ sym partial)) (rw e (ok.sized head page on));
                lists = λ ps at g. rw (sym nil, more) (ground (arith, at));
                same_size = ap (λ (i : SlabInfo). i.size) e;
                others = λ q ne. ground arith;
              },
            )
      ]

  -- The first slab of a list that is not full has a free chunk.
  pub take_chunk-Taken :
      (page : ℕ) (pages : List ℕ)
      → s.list head ≡ page ∷ pages
      → (c : ℕ) × ((rest : List ℕ) × ((s' : Slabs) × Taken page c rest s'))
  take_chunk-Taken page pages first =
      let on : has page (s.list head) ≡ true = ground arith in
      let old = ok.slab head page on in
      elim (List-cases (free page)) [
        | inl none_free ↦
            let zero_chunk : (s.info page).chunk ≡ 0 =
              (subst (λ f. IsSlab s page f (used page)) none_free old).chain in
            ground (arith, zero_chunk, ok.sorted head page on, partial)
        | inr (c, rest, some_free) ↦ (c, (rest, take-Taken page pages rest c first some_free))
      ]
