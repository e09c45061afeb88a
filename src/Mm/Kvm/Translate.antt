-- ===== src/Mm/Kvm/Translate.antt =====
-- kernel/mm/vm.c: what addresses of a mapped range translate to, and undoing a mapping.
use quark_os.Mm.Kvm.{
  Kvm, page_bytes, kernel_start, vm_npres, get_page_table_entry, v2p, frame, kvm_maps, kvm_unmap3,
}
use quark_os.Mm.Kvm.Maps.{Free, pages, kvm_maps-Mapped, kvm_unmap3-Cleared}
use quark_os.Prelude.{
  ℕ, ◌+◌, ◌-◌, ◌*◌, ◌/◌, ◌%◌, ◌^◌, ◌<◌, ◌≤◌, ltb, leb, true, false, some, Bool-cases, ◌&&◌, ◌≡◌,
  refl, sym, ap, ◌∙◌, or32, bit_or-aligned, arith, inl, inr,
}

-- The entry of a frame at a page boundary with flags below a page is their sum.
pub or32-page :
    (pa flags : ℕ)
    → pa % page_bytes ≡ 0
    → pa < 2 ^ 32
    → flags < page_bytes
    → or32 pa flags ≡ pa + flags
or32-page pa flags al lt fl =
    let at : 4096 * (pa / 4096) ≡ pa = omega (arith, al) in
    let o = bit_or-aligned 12 20 (pa / 4096) flags fl (omega (arith, lt)) in rw at at o

v2p-entry :
    (s : Kvm) (v e : ℕ)
    → kernel_start ≤ v
    → s.pte ((v - kernel_start) / page_bytes) ≡ e
    → v2p s v ≡ some (frame e)
unfolding v2p get_page_table_entry
v2p-entry s v e ge at =
    let ok : leb kernel_start v ≡ true = ground (arith, ge) in rw ok (ap (λ x. some (frame x)) at)

v2p-same :
    (s s' : Kvm) (v : ℕ)
    → (kernel_start ≤ v
        → s'.pte ((v - kernel_start) / page_bytes) ≡ s.pte ((v - kernel_start) / page_bytes))
    → v2p s' v ≡ v2p s v
unfolding v2p get_page_table_entry
v2p-same s s' v f = elim (Bool-cases (leb kernel_start v)) [
  | inl e ↦ let at = f (ground (arith, e)) in rw e (ap (λ x. some (frame x)) at)
  | inr e ↦ rw e refl
]

frame-page :
    (pa flags k : ℕ)
    → pa % page_bytes ≡ 0
    → flags < page_bytes
    → pa + k * page_bytes < 2 ^ 32
    → frame (or32 (pa + k * page_bytes) flags) ≡ pa + k * page_bytes
frame-page pa flags k al fl lt =
    let e = or32-page (pa + k * page_bytes) flags (omega (arith, al)) lt fl in
    rw e (omega (arith, al, fl))

-- The range of `size` bytes at `va` maps the frames from `pa` on.
abbrev pub Maps : Kvm → ℕ → ℕ → ℕ → Kvm → Type 0
Maps s va pa size s' =
    ((v : ℕ) → va ≤ v → v < va + size → v2p s' v ≡ some (pa + (v - va) / page_bytes * page_bytes))
    × ((v : ℕ) → (leb va v && ltb v (va + pages size * page_bytes)) ≡ false → v2p s' v ≡ v2p s v)

-- Mapping a free range at page boundaries does not panic; afterwards each address of the range translates
-- to the frame that is as many pages behind `pa` as the address is behind `va`, and the translation of
-- no address outside the pages of the range changes.
pub v2p-kvm_maps :
    (rounds : ℕ) (s : Kvm) (va pa size flags : ℕ)
    → pages size < rounds
    → va % page_bytes ≡ 0
    → pa % page_bytes ≡ 0
    → flags < page_bytes
    → kernel_start ≤ va
    → va + pages size * page_bytes < 2 ^ 32
    → pa + pages size * page_bytes < 2 ^ 32
    → Free s ((va - kernel_start) / page_bytes) (pages size)
    → (s' : Kvm) × (kvm_maps rounds s va pa size flags ≡ some s') × Maps s va pa size s'
v2p-kvm_maps rounds s va pa size flags lt av al fl ge fv fp free =
    let (s', runs, m) = kvm_maps-Mapped rounds s va pa size flags lt av ge fv fp free in
    let i = (va - kernel_start) / page_bytes in
    (
      s',
      runs,
      (
        λ v lo hi.
            let k = (v - va) / page_bytes in
            let at : i + k ≡ (v - kernel_start) / page_bytes = omega (arith, lo, av, ge) in
            let lt : k < pages size = omega (arith, lo, hi) in
            let e = ap s'.pte (sym at) ∙ m.inside k lt in
            v2p-entry s' v _ (omega (arith, lo, ge)) e
            ∙ ap some (frame-page pa flags k al fl (omega (arith, lt, fp))),
        λ v out.
            v2p-same s s' v
              (λ hv. m.outside ((v - kernel_start) / page_bytes) (ground (arith, out, ge, hv, av))),
      ),
    )

-- Unmapping a range that was mapped into empty entries leaves every entry as it was.
pub kvm_unmap3-kvm_maps :
    (rounds : ℕ) (s : Kvm) (va pa size flags : ℕ)
    → pages size < rounds
    → va % page_bytes ≡ 0
    → size % page_bytes ≡ 0
    → kernel_start < va
    → va + size < 2 ^ 32
    → pa + size < 2 ^ 32
    → ((k : ℕ)
        → (va - kernel_start) / page_bytes ≤ k
        → k < (va - kernel_start) / page_bytes + pages size
        → s.pte k ≡ vm_npres)
    → (s1 : Kvm) × ((s2 : Kvm) × ((kvm_maps rounds s va pa size flags ≡ some s1)
          × ((kvm_unmap3 rounds s1 va size ≡ some s2) × ((k : ℕ) → s2.pte k ≡ s.pte k))))
unfolding Free
kvm_unmap3-kvm_maps rounds s va pa size flags lt av as_ gt fv fp empty =
    let (s1, runs, m) =
      kvm_maps-Mapped rounds s va pa size flags lt av (omega (arith, gt)) (omega (arith, fv, as_))
        (omega (arith, fp, as_)) (λ k a b. let e = empty k a b in ground (arith, e)) in
    let (s2, runs2, c) = kvm_unmap3-Cleared rounds s1 va size lt as_ gt fv in
    let i = (va - kernel_start) / page_bytes in
    (
      s1,
      (
        s2,
        (
          runs,
          (
            runs2,
            λ k. elim (Bool-cases (leb i k && ltb k (i + pages size))) [
              | inl e ↦
                  c.inside k (ground (arith, e)) (ground (arith, e))
                  ∙ sym (empty k (ground (arith, e)) (ground (arith, e)))
              | inr e ↦ c.outside k e ∙ m.outside k e
            ],
          ),
        ),
      ),
    )
