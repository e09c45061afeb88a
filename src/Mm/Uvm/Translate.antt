-- ===== src/Mm/Uvm/Translate.antt =====
-- kernel/mm/uvm.c: what the addresses of a mapped area translate to.
use quark_os.Mm.Kvm.{page_bytes, is_present, frame}
use quark_os.Mm.Kvm.Maps.{pages}
use quark_os.Mm.Kvm.Translate.{or32-page}
use quark_os.Mm.Uvm.{Tables, VmArea, pde_index, vm_map_area, vm_vm2pm}
use quark_os.Mm.Uvm.View.{entry, IsTables, vm_page_iter-found}
use quark_os.Mm.Uvm.Areas.{page_no, map_area_loop-MapsArea}
use quark_os.Prelude.{
  ℕ, ◌+◌, ◌-◌, ◌*◌, ◌%◌, ◌^◌, ◌<◌, ◌≤◌, ltb, leb, Bool, true, false, some, length, ◌&&◌, Bool-cases,
  ◌≡◌, refl, ap, ◌∙◌, inl, inr, arith,
}

-- An address whose entry is present has a table.
entry-present :
    (s : Tables) (pgdir v : ℕ)
    → is_present (entry s pgdir v) ≡ true
    → is_present (s.table pgdir (pde_index v)) ≡ true
entry-present s pgdir v e = elim (Bool-cases (is_present (s.table pgdir (pde_index v)))) [
  | inl p ↦ p
  | inr p ↦
      let none_there : is_present (entry s pgdir v) ≡ false = rw p refl in
      ground (arith, e, none_there)
]

vm_vm2pm-entry :
    (managed : ℕ → Bool) (s : Tables) (pgdir v : ℕ)
    → IsTables managed s pgdir
    → is_present (entry s pgdir v) ≡ true
    → vm_vm2pm managed s v pgdir ≡ some (frame (entry s pgdir v))
unfolding vm_vm2pm
vm_vm2pm-entry managed s pgdir v h e =
    let p = entry-present s pgdir v e in
    let found = vm_page_iter-found managed s v pgdir false h p in rw found (rw p refl)

-- Each address of the area translates to its place behind `pa`, and no other address has another entry than
-- before.
abbrev pub MapsTo : (ℕ → Bool) → Tables → VmArea → ℕ → ℕ → Tables → Type 0
MapsTo managed s area pa pgdir s' =
    IsTables managed s' pgdir
    × (((v : ℕ)
          → page_no area.va ≤ page_no v
          → page_no v < page_no area.va + pages area.size
          → vm_vm2pm managed s' v pgdir ≡ some (pa + (page_no v - page_no area.va) * page_bytes))
        × ((v : ℕ)
            → (leb (page_no area.va) (page_no v)
                && ltb (page_no v) (page_no area.va + pages area.size))
              ≡ false
            → entry s' pgdir v ≡ entry s pgdir v))

-- Mapping an area none of whose entries is in use does not panic, given more rounds than it has pages and as
-- many pages for tables. Afterwards each address of its pages translates to the frame as many pages behind
-- `pa` as the address is behind the start, the entries of all other addresses are as before, and the
-- tables are well-formed.
pub vm_map_area-MapsTo :
    (rounds : ℕ) (managed : ℕ → Bool) (s : Tables) (area : VmArea) (pa pgdir : ℕ)
    → pages area.size < rounds
    → pages area.size ≤ length s.fresh
    → IsTables managed s pgdir
    → ((v : ℕ)
        → page_no area.va ≤ page_no v
        → page_no v < page_no area.va + pages area.size
        → is_present (entry s pgdir v) ≡ false)
    → area.va + pages area.size * page_bytes < 2 ^ 32
    → pa + pages area.size * page_bytes < 2 ^ 32
    → pa % page_bytes ≡ 0
    → is_present area.flag ≡ true
    → area.flag < page_bytes
    → (s' : Tables) × ((vm_map_area rounds managed s area pa pgdir ≡ some s')
        × MapsTo managed s area pa pgdir s')
unfolding vm_map_area
vm_map_area-MapsTo rounds managed s area pa pgdir lt fr h free fv fp al on fl =
    let (s', (runs, m)) =
      map_area_loop-MapsArea (pages area.size) rounds managed s area.va pa area.size area.flag pgdir
        lt fr h free fv fp (omega arith) (omega arith) in
    (
      s',
      (
        runs,
        (
          m.is_tables,
          (
            λ v a b.
                let f = pa + (page_no v - page_no area.va) * page_bytes in
                let aligned : f % page_bytes ≡ 0 = omega (arith, al) in
                let e =
                  m.inside v a b ∙ or32-page f area.flag aligned (omega (arith, fp, a, b)) fl in
                let odd : is_present (entry s' pgdir v) ≡ true =
                  ap is_present e ∙ ground (arith, aligned, on) in
                let back : frame (f + area.flag) ≡ f = omega (arith, aligned, fl) in
                vm_vm2pm-entry managed s' pgdir v m.is_tables odd ∙ ap some (ap frame e ∙ back),
            m.outside,
          ),
        ),
      ),
    )
