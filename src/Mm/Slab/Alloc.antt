-- ===== src/Mm/Slab/Alloc.antt =====
-- `__slab_alloc` of kernel/mm/slab.c, with the slab that an empty list gets.
use quark_os.Members.{has}
use quark_os.Mm.Slab.{Slabs, page_size, take_chunk, first_chunk, list_alloc, supplied, add_slab}
use quark_os.Mm.Slab.Invariant.{is_nil, IsSlabs}
use quark_os.Mm.Slab.Fill.{cut, add_slab-IsSlabs}
use quark_os.Prelude.{
  ℕ, ◌/◌, ◌%◌, ◌≤◌, ◌≡◌, ◌≢◌, refl, Bool, true, false, List, [], ◌∷◌, inl, inr, store, arith, sym,
  ◌∙◌, ap, store_self, List-cases, Option, some, none,
}
use quark_os.Mm.Slab.Take.{take_chunk-Taken, lists_after, apart}

-- The chunks of the slabs once the list `pages`, if it is empty, has got the slab `page`.
abbrev pub with_slab : List ℕ → (ℕ → List ℕ) → ℕ → List ℕ → ℕ → List ℕ
with_slab [] chunks page new = store chunks page new
with_slab (p ∷ pages) chunks page new = chunks

first_chunk-take_chunk :
    (s : Slabs) (head full p : ℕ) (pages : List ℕ)
    → s.list head ≡ p ∷ pages
    → first_chunk s head full ≡ take_chunk s p head full
unfolding first_chunk
first_chunk-take_chunk s head full p pages first =
    ap
      (λ (l : List ℕ). elim l as (λ x. Option (ℕ × Slabs)) [
        | [] ↦ none
        | q ∷ qs ↦ take_chunk s q head full
      ])
      first

list_alloc-first :
    (s s₁ : Slabs) (head full size page p : ℕ) (pages : List ℕ)
    → supplied s head size page ≡ s₁
    → s₁.list head ≡ p ∷ pages
    → list_alloc s head full size page ≡ take_chunk s₁ p head full
unfolding list_alloc
list_alloc-first s s₁ head full size page p pages e first =
    ap (λ (t : Slabs). first_chunk t head full) e
    ∙ first_chunk-take_chunk s₁ head full p pages first

supplied_none :
    (s : Slabs) (head size page : ℕ)
    → s.list head ≡ []
    → supplied s head size page ≡ add_slab s head size page
supplied_none s head size page empty = rw (empty, supplied) refl

new_first :
    (s : Slabs) (head size page : ℕ)
    → s.list head ≡ []
    → (add_slab s head size page).list head ≡ page ∷ []
unfolding add_slab
new_first s head size page empty =
    store_self s.list head (page ∷ s.list head) ∙ ap (λ (l : List ℕ). page ∷ l) empty

-- The list of slabs, once it has one.
abbrev pub or_page : List ℕ → ℕ → List ℕ
or_page [] page = page ∷ []
or_page (p ∷ pages) page = p ∷ pages

-- What stood in the list `head` before does not matter.
new_lists :
    (last : Bool) (list : ℕ → List ℕ) (head full p : ℕ) (pages : List ℕ) (g : ℕ)
    → head ≢ full
    → lists_after last (store list head pages) head full p [] g
      ≡ lists_after last list head full p [] g
new_lists true list head full p pages g ne = ground arith
new_lists false list head full p pages g ne = ground arith

-- Where the slab `p` stood from which `list_alloc` takes a chunk, and what becomes of the lists and of the fields
-- of the pages; `rest` are the chunks of `p` that are still free.
pub record Handed (s : Slabs) (head full size page p : ℕ) (rest : List ℕ) (s' : Slabs)
    : Type 0 where
  pub pages : List ℕ
  pub place : or_page (s.list head) page ≡ p ∷ pages
  pub lists : (g : ℕ) → s'.list g ≡ lists_after (is_nil rest) s.list head full p pages g
  pub sized : (s'.info p).size ≡ size
  pub others : (q : ℕ) → q ≢ p → s'.info q ≡ s.info q

new_size : (s : Slabs) (head size page : ℕ) → ((add_slab s head size page).info page).size ≡ size
unfolding add_slab
new_size s head size page = ground arith

supplied-Handed :
    (s : Slabs) (head full size page : ℕ) (rest : List ℕ) (s' : Slabs)
    → s.list head ≡ []
    → ((g : ℕ)
        → s'.list g
          ≡ lists_after (is_nil rest) (add_slab s head size page).list head full page [] g)
    → head ≢ full
    → (s'.info page).size ≡ size
    → ((q : ℕ) → q ≢ page → s'.info q ≡ (add_slab s head size page).info q)
    → Handed s head full size page page rest s'
unfolding add_slab
supplied-Handed s head full size page rest s' empty lists ne sized others = record {
  pages = [];
  place = rw empty refl;
  lists = λ g. lists g ∙ new_lists (is_nil rest) s.list head full page (page ∷ s.list head) g ne;
  sized = sized;
  others = λ q other. others q other ∙ ground arith;
}

-- From well-formed slabs, with a page for a new slab that is aligned, is not NULL and is on no list,
-- `__slab_alloc` succeeds. It takes the first free chunk of a slab of the list, which is the new page, cut into
-- free chunks, if the list was empty, and the first slab of the list otherwise; that chunk is then handed
-- out and no other chunk changes, so the slabs are well-formed again and a chunk is never handed out twice.
-- If the slab has no other free chunk it goes from its list to the front of the list of full slabs, and
-- otherwise it stays; no other list changes, and no other page's fields, but those of a new slab.
pub list_alloc-IsSlabs :
    (is_full : ℕ → Bool) (chunk_size : ℕ → ℕ) (free used : ℕ → List ℕ) (s : Slabs)
    (head full size page : ℕ)
    → IsSlabs is_full chunk_size free used s
    → is_full head ≡ false
    → is_full full ≡ true
    → size ≡ chunk_size head
    → 4 ≤ size
    → size ≤ page_size
    → page % page_size ≡ 0
    → page ≢ 0
    → ((h : ℕ) → has page (s.list h) ≡ false)
    → (p : ℕ) × ((c : ℕ) × ((rest : List ℕ) × ((s' : Slabs) × (list_alloc s head full size page
              ≡ some (c, s'))
            × (with_slab (s.list head) free page (cut page size (page_size / size)) p ≡ c ∷ rest)
            × IsSlabs is_full chunk_size
                (store
                  (with_slab (s.list head) free page (cut page size (page_size / size)))
                  p
                  rest)
                (store
                  (with_slab (s.list head) used page [])
                  p
                  (c ∷ with_slab (s.list head) used page [] p))
                s'
            × Handed s head full size page p rest s')))
list_alloc-IsSlabs is_full chunk_size free used s head full size page ok partial filled same big
      fits aligned real fresh =
    elim (List-cases (s.list head)) [
      | inl empty ↦
          let s₁ = add_slab s head size page in
          let free₁ = store free page (cut page size (page_size / size)) in
          let used₁ = store used page [] in
          let ok₁ =
            add_slab-IsSlabs s head size page big fits aligned real is_full chunk_size free used ok
              partial same fresh in
          let first : s₁.list head ≡ page ∷ [] = new_first s head size page empty in
          let (c, (rest, (s', t))) =
            take_chunk-Taken is_full chunk_size free₁ used₁ s₁ head full ok₁ partial filled page []
              first in
          (
            page,
            (
              c,
              (
                rest,
                (
                  s',
                  list_alloc-first s s₁ head full size page page []
                        (supplied_none s head size page empty) first
                      ∙ t.runs,
                  rw empty t.first,
                  rw empty t.valid,
                  supplied-Handed s head full size page rest s' empty (t.lists [] first)
                      (apart is_full chunk_size free used s head full ok partial filled)
                      (t.same_size ∙ new_size s head size page) t.others,
                ),
              ),
            ),
          )
      | inr (p, pages, first) ↦
          let (c, (rest, (s', t))) =
            take_chunk-Taken is_full chunk_size free used s head full ok partial filled p pages
              first in
          (
            p,
            (
              c,
              (
                rest,
                (
                  s',
                  list_alloc-first s s head full size page p pages (rw (first, supplied) refl) first
                      ∙ t.runs,
                  rw first t.first,
                  rw first t.valid,
                  record {
                    pages = pages;
                    place = rw first refl;
                    lists = t.lists pages first;
                    sized = t.same_size ∙ ok.sized head p (ground arith) partial ∙ sym same;
                    others = t.others;
                  },
                ),
              ),
            ),
          )
    ]
