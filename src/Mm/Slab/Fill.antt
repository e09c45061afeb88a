-- ===== src/Mm/Slab/Fill.antt =====
-- `add_slab` of kernel/mm/slab.c: a page is cut into chunks.
use native.Mathlib.Nat.{div-mul-le_self, le-div_iff_mul-le}
use quark_os.Members.{has, Distinct}
use quark_os.Mm.Slab.{Slabs, SlabInfo, slab_magic, page_size, link_loop, add_slab, page_ceil}
use quark_os.Mm.Slab.Invariant.{Chain, IsSlab, IsSlabs, Touched-IsSlabs}
use quark_os.Prelude.{
  ℕ, zero, suc, ◌+◌, ◌-◌, ◌*◌, ◌/◌, ◌%◌, ◌≤◌, ◌<◌, ◌≡◌, ◌≢◌, refl, Bool, true, false, List, [], ◌∷◌,
  length, inl, inr, store, arith, ◌∙◌, ap, eq_or_ne, Bool-cases, store_self, subst, ltb,
}

-- `n` chunks from `c` on.
abbrev pub cut : ℕ → ℕ → ℕ → List ℕ
cut c size zero = []
cut c size (suc n) = c ∷ cut (c + size) size n

link_loop_below : (next : ℕ → ℕ) (c size n a : ℕ) → a < c → link_loop next c size n a ≡ next a
unfolding link_loop
link_loop_below next c size zero a out = ground arith
link_loop_below next c size (suc n) a out =
    ground (arith, link_loop_below (store next c (c + size)) (c + size) size n a (omega arith))

link_loop_above :
    (next : ℕ → ℕ) (c size n a : ℕ) → c + n * size < a → link_loop next c size n a ≡ next a
unfolding link_loop
link_loop_above next c size zero a out = ground arith
link_loop_above next c size (suc n) a out =
    ground (arith, link_loop_above (store next c (c + size)) (c + size) size n a (omega arith))

-- The loop links the chunks in order.
link_loop-Chain :
    (next : ℕ → ℕ) (c size n : ℕ)
    → c ≢ 0
    → 0 < size
    → Chain (link_loop next c size n) c (cut c size (suc n))
unfolding link_loop
link_loop-Chain next c size zero real pos = (refl, real, ground arith)
link_loop-Chain next c size (suc n) real pos =
    let next' = store next c (c + size) in
    let e : link_loop next' (c + size) size n c ≡ c + size =
      link_loop_below next' (c + size) size n c (omega arith) ∙ store_self next c (c + size) in
    (refl, real, rw e (link_loop-Chain next' (c + size) size n (ground arith) pos))

has-cut : (c size n a : ℕ) → has a (cut c size n) ≡ true → (k : ℕ) × (a ≡ c + k * size) × (k < n)
has-cut c size zero a m = absurd (ground arith)
has-cut c size (suc n) a m = elim (eq_or_ne a c) [
  | inl e ↦ (0, omega (arith, e), omega arith)
  | inr ne ↦
      let (k, e, small) = has-cut (c + size) size n a (ground arith) in
      (suc k, omega (arith, e), omega (arith, small))
]

cut-Distinct : (c size n : ℕ) → 0 < size → Distinct (cut c size n)
cut-Distinct c size zero pos = tt
cut-Distinct c size (suc n) pos = (
  elim (Bool-cases (has c (cut (c + size) size n))) [
    | inl m ↦ let (k, e, small) = has-cut (c + size) size n c m in absurd (omega (arith, e, pos))
    | inr h ↦ h
  ],
  cut-Distinct (c + size) size n pos,
)

length-cut : (c size n : ℕ) → length (cut c size n) ≡ n
length-cut c size zero = refl
length-cut c size (suc n) = omega (arith, length-cut (c + size) size n)

module _ (s : Slabs) (head size page : ℕ) (big : 4 ≤ size) (fits : size ≤ page_size)
    (aligned : page % page_size ≡ 0) (real : page ≢ 0) where
  count_positive : suc (page_size / size - 1) ≡ page_size / size
  count_positive =
      let some_left : 0 < page_size / size =
        (le-div_iff_mul-le (omega (arith, big))).1 (omega (arith, fits)) in
      omega (arith, some_left)

  -- The new slab has all its chunks free.
  pub add_slab-IsSlab :
      IsSlab (add_slab s head size page) page (cut page size (page_size / size)) []
  unfolding add_slab
  add_slab-IsSlab =
      let info : SlabInfo = record {
        chunk = page;
        size = size;
        n_allocated = 0;
        magic = slab_magic;
        is_slab = true;
      } in
      let e = store_self s.info page info in
      record {
        chain = rw e (
            subst
              (λ (n : ℕ).
                Chain (link_loop s.next page size (page_size / size - 1)) page (cut page size n))
              count_positive
              (link_loop-Chain s.next page size (page_size / size - 1) real (omega arith)));
        chunks = rw e (λ c m.
            let (k, at, small) = has-cut page size (page_size / size) c (ground arith) in
            record { index = k; place = at; small = small });
        free_once = cut-Distinct page size (page_size / size) (omega arith);
        used_once = tt;
        apart = λ c m. ground arith;
        total = rw e (omega (arith, length-cut page size (page_size / size)));
        count = rw e refl;
        flag = rw e refl;
        stamped = rw e refl;
        aligned = aligned;
        real = real;
        big = rw e big;
        fits = rw e fits;
      }

  -- Words of other pages stay as they are.
  add_slab-next : (a : ℕ) → page_ceil a ≢ page → (add_slab s head size page).next a ≡ s.next a
  unfolding add_slab
  add_slab-next a other =
      let whole = div-mul-le_self page_size size in
      let part : (page_size / size - 1) * size + size ≡ page_size / size * size =
        omega (arith, ap (λ (n : ℕ). n * size) count_positive) in
      elim (Bool-cases (ltb a page)) [
        | inl low ↦ link_loop_below s.next page size (page_size / size - 1) a (ground arith)
        | inr high ↦ link_loop_above s.next page size (page_size / size - 1) a (
            let high' : page ≤ a = ground arith in
            omega (arith, whole, part, other, high', aligned, big))
      ]

  module _ (is_full : ℕ → Bool) (chunk_size : ℕ → ℕ) (free used : ℕ → List ℕ)
      (ok : IsSlabs is_full chunk_size free used s) (partial : is_full head ≡ false)
      (same_size : size ≡ chunk_size head) (fresh : (h : ℕ) → has page (s.list h) ≡ false) where
    -- The new slab is the first of its list.
    pub add_slab-IsSlabs :
        IsSlabs is_full chunk_size
          (store free page (cut page size (page_size / size)))
          (store used page [])
          (add_slab s head size page)
    unfolding add_slab
    add_slab-IsSlabs =
        let t = add_slab s head size page in
        let info : SlabInfo = record {
          chunk = page;
          size = size;
          n_allocated = 0;
          magic = slab_magic;
          is_slab = true;
        } in
        let e = store_self s.info page info in
        Touched-IsSlabs is_full chunk_size free used s t page head
          (cut page size (page_size / size)) [] ok
          (record {
            others = λ h p ne m. ground arith;
            listed = λ h m. ground (arith, fresh h);
            once = λ h. ground (arith, ok.once h, fresh h);
            info = λ p ne. ground arith;
            next = add_slab-next;
          })
          add_slab-IsSlab (rw (e, partial) (ground arith)) (λ p. rw e same_size)
