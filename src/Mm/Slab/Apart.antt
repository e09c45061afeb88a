-- ===== src/Mm/Slab/Apart.antt =====
-- Chunks that `__slab_alloc` of kernel/mm/slab.c hands out do not overlap.
use native.Mathlib.Nat.{mul-le-mul_right}
use mathlib.Core.Option.{some-injective}
use quark_os.Members.{has}
use quark_os.Mm.Slab.{Slabs, page_size, list_alloc}
use quark_os.Mm.Slab.Invariant.{IsChunk, IsChunk-within, IsSlab, IsSlabs, is_nil}
use quark_os.Mm.Slab.Take.{lists_after}
use quark_os.Mm.Slab.Alloc.{list_alloc-IsSlabs}
use quark_os.Prelude.{
  ℕ, ◌+◌, ◌*◌, ◌%◌, ◌≤◌, ◌<◌, ◌≡◌, ◌≢◌, Bool, true, false, List, ◌⊎◌, inl, inr, arith, sym, ◌∙◌, ap,
  eq_or_ne, Bool-cases, List-cases, subst, ltb, some,
}

-- Two chunks of one page.
chunks_apart : (p z c d : ℕ) → IsChunk p z c → IsChunk p z d → c ≢ d → (c + z ≤ d) ⊎ (d + z ≤ c)
chunks_apart p z c d k l ne = elim (Bool-cases (ltb k.index l.index)) [
  | inl low ↦
      let less : k.index < l.index = ground arith in
      inl (omega (arith, k.place, l.place, mul-le-mul_right z less))
  | inr high ↦ elim (eq_or_ne k.index l.index) [
    | inl e ↦ absurd (ne (k.place ∙ ap (λ (i : ℕ). p + i * z) e ∙ sym l.place))
    | inr other ↦
        let less : l.index < k.index = ground arith in
        inr (omega (arith, k.place, l.place, mul-le-mul_right z less))
  ]
]

-- Chunks of two pages.
pages_apart :
    (p q y z c d : ℕ)
    → p % page_size ≡ 0
    → q % page_size ≡ 0
    → p ≢ q
    → IsChunk p y c
    → IsChunk q z d
    → (c + y ≤ d) ⊎ (d + z ≤ c)
pages_apart p q y z c d left right ne k l =
    let w = IsChunk-within p y c k in
    let v = IsChunk-within q z d l in
    elim (Bool-cases (ltb c d)) [
      | inl low ↦
          let less : c < d = ground arith in inl (omega (arith, less, w, v, left, right, ne))
      | inr high ↦
          let less : d ≤ c = ground arith in inr (omega (arith, less, w, v, left, right, ne))
    ]

-- The slab from which a chunk was taken is on a list.
listed :
    (last : Bool) (list : ℕ → List ℕ) (head full p : ℕ) (pages : List ℕ)
    → (g : ℕ) × (has p (lists_after last list head full p pages g) ≡ true)
listed true list head full p pages = (full, ground arith)
listed false list head full p pages = (head, ground arith)

module _ (is_full : ℕ → Bool) (chunk_size : ℕ → ℕ) (free used : ℕ → List ℕ) (s : Slabs) (h q d : ℕ)
    (ok : IsSlabs is_full chunk_size free used s) (on : has q (s.list h) ≡ true)
    (out : has d (used q) ≡ true) where
  -- A chunk of `q` that was free.
  free_apart :
      (c : ℕ) → has c (free q) ≡ true → (c + (s.info q).size ≤ d) ⊎ (d + (s.info q).size ≤ c)
  free_apart c in_free =
      let slab = ok.slab h q on in
      let ne : c ≢ d = λ e. ground (arith, slab.apart d out) in
      chunks_apart q (s.info q).size c d (slab.chunks c (inl in_free)) (slab.chunks d (inr out)) ne

  -- A chunk of another page.
  other_apart :
      (s' : Slabs) (p c : ℕ) (rest taken : List ℕ)
      → IsSlab s' p rest taken
      → has c taken ≡ true
      → p ≢ q
      → (c + (s'.info p).size ≤ d) ⊎ (d + (s.info q).size ≤ c)
  other_apart s' p c rest taken a handed ne =
      let b = ok.slab h q on in
      pages_apart p q (s'.info p).size (s.info q).size c d a.aligned b.aligned ne
        (a.chunks c (inr handed)) (b.chunks d (inr out))

-- From well-formed slabs, with a page for a new slab that is aligned, is not NULL and is on no list, the chunk
-- that `__slab_alloc` yields overlaps no chunk that was handed out before, of whatever size and slab.
pub list_alloc-apart :
    (is_full : ℕ → Bool) (chunk_size : ℕ → ℕ) (free used : ℕ → List ℕ) (s : Slabs)
    (head full size page : ℕ)
    → IsSlabs is_full chunk_size free used s
    → is_full head ≡ false
    → is_full full ≡ true
    → size ≡ chunk_size head
    → 4 ≤ size
    → size ≤ page_size
    → page % page_size ≡ 0
    → page ≢ 0
    → ((h : ℕ) → has page (s.list h) ≡ false)
    → (c : ℕ) (s' : Slabs) → list_alloc s head full size page ≡ some (c, s')
    → (h q d : ℕ) → has q (s.list h) ≡ true
    → has d (used q) ≡ true
    → (c + size ≤ d) ⊎ (d + (s.info q).size ≤ c)
list_alloc-apart is_full chunk_size free used s head full size page ok partial filled same big fits
      aligned real fresh c s' runs h q d on out =
    let (p, (c₁, (rest, (t, runs₁, first, valid, after)))) =
      list_alloc-IsSlabs is_full chunk_size free used s head full size page ok partial filled same
        big fits aligned real fresh in
    let at : c₁ ≡ c = ap (λ (r : ℕ × Slabs). r.0) (some-injective _ _ (sym runs₁ ∙ runs)) in
    subst (λ (x : ℕ). (x + size ≤ d) ⊎ (d + (s.info q).size ≤ x)) at
      (elim (eq_or_ne p q) [
        | inl e ↦ elim (List-cases (s.list head)) [
          | inl empty ↦
              let new : page ≡ p = ground (arith, rw empty at after.place) in
              absurd (ground (arith, fresh h))
          | inr (x, xs, some_page) ↦
              let here : has q (s.list head) ≡ true = ground (arith, rw some_page at after.place) in
              let sized : (s.info q).size ≡ size = ok.sized head q here partial ∙ sym same in
              let was_free : has c₁ (free q) ≡ true = ground (arith, rw some_page at first) in
              subst (λ (z : ℕ). (c₁ + z ≤ d) ⊎ (d + (s.info q).size ≤ c₁)) sized
                (free_apart is_full chunk_size free used s h q d ok on out c₁ was_free)
        ]
        | inr ne ↦
            let (g, there) = listed (is_nil rest) s.list head full p after.pages in
            let there' : has p (t.list g) ≡ true = ap (has p) (after.lists g) ∙ there in
            subst (λ (z : ℕ). (c₁ + z ≤ d) ⊎ (d + (s.info q).size ≤ c₁)) after.sized
              (other_apart is_full chunk_size free used s h q d ok on out t p c₁ _ _
                (valid.slab g p there') (ground arith) ne)
      ])
