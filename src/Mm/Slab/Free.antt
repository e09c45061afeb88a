-- ===== src/Mm/Slab/Free.antt =====
-- `__slab_free` of kernel/mm/slab.c.
use quark_os.Members.{
  has, Distinct, without, has-without_ne, has-without_self, without-Distinct, length-without,
}
use quark_os.Mm.Slab.{Slabs, SlabInfo, slab_magic, page_ceil, list_free, free_chunk}
use quark_os.Mm.Slab.Invariant.{
  Chain, Chain-same, IsChunk-within, IsChunk-page_ceil, IsSlab, IsSlabs, Touched, Touched-IsSlabs,
  is_nil, chunk-is_nil,
}
use quark_os.Mm.Slab.Take.{kept-Touched}
use quark_os.Prelude.{
  ℕ, ◌-◌, ◌<◌, ◌≡◌, ◌≢◌, refl, Bool, true, false, List, ◌∷◌, inl, inr, ◌==◌, store, arith, sym, ◌∙◌,
  ap, eq_or_ne, Bool-cases, store_ne, store_self, subst, ltb, some,
}

module _ (s : Slabs) (p addr : ℕ) (free used : List ℕ) (ok : IsSlab s p free used)
    (out : has addr used ≡ true) where
  own : page_ceil addr ≡ p
  own =
      IsChunk-page_ceil p (s.info p).size addr ok.aligned (omega (arith, ok.big))
        (ok.chunks addr (inr out))

  positive : 0 < (s.info p).n_allocated
  positive = omega (arith, ok.count, length-without addr used out)

  freed_info : SlabInfo
  freed_info = record (s.info p) { n_allocated = (s.info p).n_allocated - 1; chunk = addr }

  addr_real : addr ≢ 0
  addr_real e =
      omega
        (arith, e, (IsChunk-within p (s.info p).size addr (ok.chunks addr (inr out))).0, ok.real)

  linked : Chain (store s.next addr (s.info p).chunk) addr (addr ∷ free)
  linked = (
    refl,
    addr_real,
    rw (store_self s.next addr (s.info p).chunk) (
        Chain-same s.next (store s.next addr (s.info p).chunk) (s.info p).chunk free
          (λ x m. ground (arith, ok.apart addr out)) ok.chain),
  )

  -- The slab to which a chunk that was handed out has come back.
  freed-IsSlab :
      (s' : Slabs)
      → s'.next ≡ store s.next addr (s.info p).chunk
      → s'.info p ≡ freed_info
      → IsSlab s' p (addr ∷ free) (without addr used)
  unfolding freed_info
  freed-IsSlab s' e f = record {
    chain = rw f (subst (λ (n : ℕ → ℕ). Chain n addr (addr ∷ free)) (sym e) linked);
    chunks = λ x m. rw f (
        ok.chunks x (elim (eq_or_ne x addr) [
          | inl e ↦ inr (ground arith)
          | inr ne ↦ elim m [
            | inl h ↦ inl (ground arith)
            | inr h ↦ inr (ground (arith, has-without_ne addr x used ne))
          ]
        ]));
    free_once = (ok.apart addr out, ok.free_once);
    used_once = without-Distinct addr used ok.used_once;
    apart = λ x m. elim (eq_or_ne x addr) [
      | inl e ↦ ground (arith, has-without_self addr used ok.used_once)
      | inr ne ↦ ground (arith, has-without_ne addr x used ne, ok.apart x)
    ];
    total = rw f (omega (arith, ok.total, length-without addr used out));
    count = rw f (omega (arith, ok.count, length-without addr used out));
    flag = rw f ok.flag;
    stamped = rw f ok.stamped;
    aligned = ok.aligned;
    real = ok.real;
    big = rw f ok.big;
    fits = rw f ok.fits;
  }

module _ (is_full : ℕ → Bool) (chunk_size : ℕ → ℕ) (free used : ℕ → List ℕ) (s : Slabs)
    (ok : IsSlabs is_full chunk_size free used s) where
  -- A page that leaves its list for the front of `dst`.
  back-Touched :
      (s' : Slabs) (page src dst : ℕ)
      → has page (s.list src) ≡ true
      → ((p : ℕ) → p ≢ page → s'.info p ≡ s.info p)
      → ((a : ℕ) → page_ceil a ≢ page → s'.next a ≡ s.next a)
      → s'.list ≡ store (λ h. without page (s.list h)) dst (page ∷ without page (s.list dst))
      → Touched s s' page dst
  back-Touched s' page src dst on info next list =
      let gone : (h : ℕ) → has page (without page (s.list h)) ≡ false =
        λ h. has-without_self page (s.list h) (ok.once h) in
      let left : (h : ℕ) → Distinct (without page (s.list h)) =
        λ h. without-Distinct page (s.list h) (ok.once h) in
      let now = store (λ h. without page (s.list h)) dst (page ∷ without page (s.list dst)) in
      record {
        others = λ h p other m.
            let m' = subst (λ (l : ℕ → List ℕ). has p (l h) ≡ true) list m in
            elim (eq_or_ne h dst) [
              | inl e ↦ ground (arith, m', has-without_ne page p (s.list h) other)
              | inr off ↦ ground (arith, m', has-without_ne page p (s.list h) other)
            ];
        listed = λ h m.
            let m' = subst (λ (l : ℕ → List ℕ). has page (l h) ≡ true) list m in
            elim (eq_or_ne h dst) [ inl e ↦ e | inr off ↦ ground (arith, m', gone h) ];
        once = λ h. rw list (elim (eq_or_ne h dst) [
          | inl e ↦ ground (arith, gone dst, left dst)
          | inr off ↦ ground (arith, left h)
        ]);
        info = info;
        next = next;
      }

-- The lists of slabs after a chunk of the page `p` has come back: `filled` says whether none was free.
abbrev pub lists_after_free : Bool → (ℕ → List ℕ) → ℕ → ℕ → (ℕ → List ℕ)
lists_after_free true list p head = store (λ g. without p (list g)) head (p ∷ without p (list head))
lists_after_free false list p head = list

-- From well-formed slabs, `__slab_free` of a chunk that is handed out, with the list of slabs for its size,
-- does not panic. The chunk is free afterwards, first of its slab's free chunks, no other chunk changes,
-- and the slabs are well-formed again. A slab that had no free chunk leaves its list and becomes the first
-- of that list of its size; otherwise no list changes. The slab's chunks keep their size and no other
-- page's fields change.
pub list_free-IsSlabs :
    (is_full : ℕ → Bool) (chunk_size : ℕ → ℕ) (free used : ℕ → List ℕ) (s : Slabs)
    (h p addr head : ℕ)
    → IsSlabs is_full chunk_size free used s
    → has p (s.list h) ≡ true
    → has addr (used p) ≡ true
    → is_full head ≡ false
    → (s.info p).size ≡ chunk_size head
    → (s' : Slabs) × (list_free s addr head ≡ some s')
      × IsSlabs is_full chunk_size
          (store free p (addr ∷ free p))
          (store used p (without addr (used p)))
          s'
      × ((g : ℕ) → s'.list g ≡ lists_after_free (is_nil (free p)) s.list p head g)
      × ((s'.info p).size ≡ (s.info p).size)
      × ((q : ℕ) → q ≢ p → s'.info q ≡ s.info q)
unfolding list_free free_chunk freed_info
list_free-IsSlabs is_full chunk_size free used s h p addr head ok on out partial same =
    let slab = ok.slab h p on in
    let info = freed_info s p addr (free p) (used p) slab out in
    let e = store_self s.info p info in
    let at = own s p addr (free p) (used p) slab out in
    let some_out : ltb 0 (s.info p).n_allocated ≡ true =
      ground (arith, positive s p addr (free p) (used p) slab out) in
    let stamped : ((s.info p).magic == slab_magic) ≡ true = ground (arith, slab.stamped) in
    let info' = λ (q : ℕ) (ne : q ≢ p). store_ne s.info info (λ (same : p ≡ q). ne (sym same)) in
    let next' : (a : ℕ) → page_ceil a ≢ p → store s.next addr (s.info p).chunk a ≡ s.next a =
      λ a other. store_ne s.next (s.info p).chunk (λ same. other (ap page_ceil (sym same) ∙ at)) in
    let nonzero : (addr == 0) ≡ false =
      ground (arith, addr_real s p addr (free p) (used p) slab out) in
    let nil = chunk-is_nil s p (free p) (used p) slab in
    elim (Bool-cases ((s.info p).chunk == 0)) [
      | inl filled ↦
          let t : Slabs = record {
            list = store (λ h. without p (s.list h)) head (p ∷ without p (s.list head));
            info = store s.info p info;
            next = store s.next addr (s.info p).chunk;
          } in
          (
            t,
            ap (λ (q : ℕ). free_chunk s q addr head) at
                ∙ rw (slab.flag, stamped, some_out, filled) refl,
            Touched-IsSlabs is_full chunk_size free used s t p head (addr ∷ free p)
                (without addr (used p)) ok
                (back-Touched is_full chunk_size free used s ok t p h head on info' next' refl)
                (freed-IsSlab s p addr (free p) (used p) slab out t refl e)
                (rw (e, partial) nonzero) (λ q. rw e same),
            λ g. rw (sym nil, filled) refl,
            ap (λ (x : SlabInfo). x.size) e,
            info',
          )
      | inr more ↦
          let t : Slabs = record {
            list = s.list;
            info = store s.info p info;
            next = store s.next addr (s.info p).chunk;
          } in
          let here : is_full h ≡ false = sym (ok.sorted h p on) ∙ more in
          (
            t,
            ap (λ (q : ℕ). free_chunk s q addr head) at
                ∙ rw (slab.flag, stamped, some_out, more) refl,
            Touched-IsSlabs is_full chunk_size free used s t p h (addr ∷ free p)
                (without addr (used p)) ok
                (kept-Touched is_full chunk_size free used s t p h ok on info' next' refl)
                (freed-IsSlab s p addr (free p) (used p) slab out t refl e) (rw (e, here) nonzero)
                (λ q. rw e (ok.sized h p on here)),
            λ g. rw (sym nil, more) refl,
            ap (λ (x : SlabInfo). x.size) e,
            info',
          )
    ]
