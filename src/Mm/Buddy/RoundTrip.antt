-- ===== src/Mm/Buddy/RoundTrip.antt =====
-- Allocation followed by release, in kernel/mm/page_alloc.c.
use quark_os.Prelude.{
  ℕ, ◌+◌, ◌-◌, ◌%◌, ◌^◌, ◌≤◌, ◌<◌, ◌≡◌, arith, some, eq_or_ne, inl, inr, sym, ◌∙◌, subst,
}
use quark_os.Klib.Bits.{fix_size}
use quark_os.Mm.Buddy.{Buddy, alloc_page, free_page}
use quark_os.Mm.Buddy.Invariant.{IsBuddy}
use quark_os.Mm.Buddy.Request.{alloc_page-Allocated}
use quark_os.Mm.Buddy.Free.{free_page_total}

-- From a valid state, a block that `__alloc_page` returned for a request from 1 byte to 2 GiB can be
-- given back to `__free_page` at once, without a panic. This leads to a valid state with all reference
-- counts as they were before; but the count of free bytes has fallen by the rounded size.
pub free_page-alloc_page :
    (s : Buddy) (request p : ℕ) {s' : Buddy}
    → IsBuddy s
    → 0 < request
    → request ≤ 2 ^ 31
    → alloc_page s request ≡ some (p, s')
    → (s₂ : Buddy) × (free_page s' p ≡ some s₂)
      × IsBuddy s₂
      × ((q : ℕ) → (s₂.pages q).ref_cnt ≡ (s.pages q).ref_cnt)
      × (s₂.size ≡ (s.size + 2 ^ 32 - fix_size request) % 2 ^ 32)
free_page-alloc_page s request p {s'} ok pos small e =
    let a = alloc_page-Allocated s request p ok pos small e in
    let inside : p < s'.page_cnt = subst (λ n. p < n) (sym a.count) a.inside in
    let (s₂, runs, valid, idle, refs, kept, bytes, whole) =
      free_page_total s' p a.valid inside a.head a.held in
    (
      s₂,
      runs,
      valid,
      λ q. elim (eq_or_ne q p) [
        | inl same ↦ ground (arith, idle, a.was_free)
        | inr ne ↦ refs q ne ∙ a.refs q ne
      ],
      bytes ∙ a.bytes,
    )
