-- ===== src/Mm/Slab/Invariant.antt =====
-- Well-formed slabs of kernel/mm/slab.c, seen as what they promise: for each page, the chunks that are
-- free and the chunks that are handed out.
use native.Mathlib.Nat.{div-mul-le_self, mul-le-mul_right}
use quark_os.Members.{has, Distinct}
use quark_os.Mm.Slab.{Slabs, slab_magic, page_size, page_ceil}
use quark_os.Prelude.{
  ℕ, ◌+◌, ◌*◌, ◌/◌, ◌%◌, ◌≤◌, ◌<◌, ◌≡◌, ◌≢◌, Bool, true, false, List, [], ◌∷◌, length, ◌⊎◌, inl,
  inr, ◌==◌, store, arith, eq_or_ne, sym, ◌∙◌, ap,
}

-- The chunks that are linked from `c` on.
abbrev pub Chain : (ℕ → ℕ) → ℕ → List ℕ → Type 0
Chain next c [] = c ≡ 0
Chain next c (x ∷ xs) = (c ≡ x) × (x ≢ 0) × Chain next (next x) xs

-- `c` is a chunk of the page.
pub record IsChunk (page size c : ℕ) : Type 0 where
  pub index : ℕ
  pub place : c ≡ page + index * size
  pub small : index < page_size / size

pub record IsSlab (s : Slabs) (page : ℕ) (free used : List ℕ) : Type 0 where
  pub chain : Chain s.next (s.info page).chunk free
  pub chunks :
      (c : ℕ) → (has c free ≡ true) ⊎ (has c used ≡ true) → IsChunk page (s.info page).size c
  pub free_once : Distinct free
  pub used_once : Distinct used
  pub apart : (c : ℕ) → has c used ≡ true → has c free ≡ false
  pub total : length free + length used ≡ page_size / (s.info page).size
  pub count : (s.info page).n_allocated ≡ length used
  pub flag : (s.info page).is_slab ≡ true
  pub stamped : (s.info page).magic ≡ slab_magic
  pub aligned : page % page_size ≡ 0
  pub real : page ≢ 0
  pub big : 4 ≤ (s.info page).size
  pub fits : (s.info page).size ≤ page_size

abbrev pub is_nil : List ℕ → Bool
is_nil [] = true
is_nil (c ∷ cs) = false

-- The chunk field of a slab is NULL when no chunk is free.
pub chunk-is_nil :
    (s : Slabs) (p : ℕ) (free used : List ℕ)
    → IsSlab s p free used
    → ((s.info p).chunk == 0) ≡ is_nil free
chunk-is_nil s p [] used ok = ground (arith, ok.chain)
chunk-is_nil s p (c ∷ cs) used ok =
    let at : (s.info p).chunk ≡ c = ok.chain.0 in let real : c ≢ 0 = ok.chain.1 in ground arith

-- `free` and `used` give the chunks of each page. A list for which `is_full` holds has the slabs that have no
-- free chunk; `chunk_size` is the size of the chunks on the other lists.
pub record IsSlabs (is_full : ℕ → Bool) (chunk_size : ℕ → ℕ) (free used : ℕ → List ℕ) (s : Slabs)
    : Type 0 where
  pub slab : (h p : ℕ) → has p (s.list h) ≡ true → IsSlab s p (free p) (used p)
  pub once : (h : ℕ) → Distinct (s.list h)
  pub one_list : (g h p : ℕ) → has p (s.list g) ≡ true → has p (s.list h) ≡ true → g ≡ h
  pub sorted : (h p : ℕ) → has p (s.list h) ≡ true → ((s.info p).chunk == 0) ≡ is_full h
  pub sized :
      (h p : ℕ) → has p (s.list h) ≡ true → is_full h ≡ false → (s.info p).size ≡ chunk_size h

-- A chunk lies within its page.
pub IsChunk-within :
    (page size c : ℕ) → IsChunk page size c → (page ≤ c) × (c + size ≤ page + page_size)
IsChunk-within page size c k =
    let whole = div-mul-le_self page_size size in
    let part : (k.index + 1) * size ≤ page_size / size * size =
      mul-le-mul_right size (omega (arith, k.small)) in
    (omega (arith, k.place), omega (arith, k.place, whole, part))

-- The page of a chunk.
pub IsChunk-page_ceil :
    (page size c : ℕ) → page % page_size ≡ 0 → 0 < size → IsChunk page size c → page_ceil c ≡ page
IsChunk-page_ceil page size c aligned pos k =
    let (low, high) = IsChunk-within page size c k in omega (arith, low, high, pos, aligned)

-- A chain depends on the words of its own chunks.
pub Chain-same :
    (next next' : ℕ → ℕ) (c : ℕ) (xs : List ℕ)
    → ((x : ℕ) → has x xs ≡ true → next' x ≡ next x)
    → Chain next c xs
    → Chain next' c xs
Chain-same next next' c [] same ch = ch
Chain-same next next' c (x ∷ xs) same ch = (
  ch.0,
  ch.1,
  rw (same x (ground arith))
      (Chain-same next next' (next x) xs (λ y m. same y (ground arith)) ch.2),
)

-- A slab whose fields and free chunks are not touched.
pub IsSlab-same :
    (s s' : Slabs) (p : ℕ) (free used : List ℕ)
    → s'.info p ≡ s.info p
    → ((a : ℕ) → page_ceil a ≡ p → s'.next a ≡ s.next a)
    → IsSlab s p free used
    → IsSlab s' p free used
IsSlab-same s s' p free used e same ok = record {
  chain = rw e (
      Chain-same s.next s'.next (s.info p).chunk free
        (λ x m. same x (
          IsChunk-page_ceil p (s.info p).size x ok.aligned (omega (arith, ok.big))
            (ok.chunks x (inl m))))
        ok.chain);
  chunks = rw e ok.chunks;
  free_once = ok.free_once;
  used_once = ok.used_once;
  apart = ok.apart;
  total = rw e ok.total;
  count = rw e ok.count;
  flag = rw e ok.flag;
  stamped = rw e ok.stamped;
  aligned = ok.aligned;
  real = ok.real;
  big = rw e ok.big;
  fits = rw e ok.fits;
}

-- From `s` to `s'` only `page` is touched, and `dst` is the one list that it can then be on.
pub record Touched (s s' : Slabs) (page dst : ℕ) : Type 0 where
  pub others : (h p : ℕ) → p ≢ page → has p (s'.list h) ≡ true → has p (s.list h) ≡ true
  pub listed : (h : ℕ) → has page (s'.list h) ≡ true → h ≡ dst
  pub once : (h : ℕ) → Distinct (s'.list h)
  pub info : (p : ℕ) → p ≢ page → s'.info p ≡ s.info p
  pub next : (a : ℕ) → page_ceil a ≢ page → s'.next a ≡ s.next a

pub Touched-IsSlabs :
    (is_full : ℕ → Bool) (chunk_size : ℕ → ℕ) (free used : ℕ → List ℕ) (s s' : Slabs) (page dst : ℕ)
    (f u : List ℕ)
    → IsSlabs is_full chunk_size free used s
    → Touched s s' page dst
    → IsSlab s' page f u
    → ((s'.info page).chunk == 0) ≡ is_full dst
    → (is_full dst ≡ false → (s'.info page).size ≡ chunk_size dst)
    → IsSlabs is_full chunk_size (store free page f) (store used page u) s'
Touched-IsSlabs is_full chunk_size free used s s' page dst f u ok t new sort size = record {
  slab = λ h p m. elim (eq_or_ne p page) [
    | inl e ↦
        let ef : store free page f p ≡ f = ground arith in
        let eu : store used page u p ≡ u = ground arith in rw (ef, eu, e) new
    | inr ne ↦
        let ef : store free page f p ≡ free p = ground arith in
        let eu : store used page u p ≡ used p = ground arith in
        rw (ef, eu)
          (IsSlab-same s s' p (free p) (used p) (t.info p ne)
            (λ a at. t.next a (λ same. ne (sym at ∙ same))) (ok.slab h p (t.others h p ne m)))
  ];
  once = t.once;
  one_list = λ g h p m n. elim (eq_or_ne p page) [
    | inl e ↦ ground (arith, t.listed g, t.listed h)
    | inr ne ↦ ok.one_list g h p (t.others g p ne m) (t.others h p ne n)
  ];
  sorted = λ h p m. elim (eq_or_ne p page) [
    | inl e ↦ let at : h ≡ dst = ground (arith, t.listed h) in rw (at, e) sort
    | inr ne ↦ rw (t.info p ne) (ok.sorted h p (t.others h p ne m))
  ];
  sized = λ h p m part. elim (eq_or_ne p page) [
    | inl e ↦
        let at : h ≡ dst = ground (arith, t.listed h) in
        rw (at, e) (size (sym (ap is_full at) ∙ part))
    | inr ne ↦ rw (t.info p ne) (ok.sized h p (t.others h p ne m) part)
  ];
}
