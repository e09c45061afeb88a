-- ===== src/Mm/Kvm.antt =====
-- kernel/mm/vm.c: the page table of the kernel's part of the address space. The entries of `kPageTables` go by
-- their index from the start of the array. Words have 32 bits; a loop is given the number of rounds it may take.
pub mod Maps
pub mod Translate
mod Tests
use quark_os.Prelude.{
  ℕ, zero, suc, ◌+◌, ◌-◌, ◌*◌, ◌/◌, ◌%◌, ◌^◌, ltb, leb, Bool, true, false, Option, none, some, List,
  [], ◌∷◌, ◌==◌, ◌!=◌, not, if◌then◌else◌, ◌>>=◌, ◌>>◌, assertk, store, or32,
}

abbrev pub page_bytes : ℕ
page_bytes = 4096

abbrev pub kernel_start : ℕ
kernel_start = 0xc0000000

-- `1 GiB - DEVSP_SIZE`
abbrev pub phys_top : ℕ
phys_top = 0x3e000000

abbrev pub vm_pres : ℕ
vm_pres = 1

abbrev pub vm_npres : ℕ
vm_npres = 0

abbrev pub n_pde : ℕ
n_pde = 1024

-- `kPageTables`, and the addresses whose translation the processor was told to forget, the last first
pub record Kvm : Type 0 where
  pub pte : ℕ → ℕ
  pub flushed : List ℕ

-- The bit VM_PRES of an entry
abbrev pub is_present : ℕ → Bool
is_present e = e % 2 != 0

abbrev pub frame : ℕ → ℕ
frame e = e - e % page_bytes

pub tlb_flush : Kvm → ℕ → Kvm
tlb_flush s va = record s { flushed = va ∷ s.flushed }

-- The index of an entry
pub get_page_table_entry : ℕ → Option ℕ
get_page_table_entry va = do assertk (leb kernel_start va); some ((va - kernel_start) / page_bytes)

-- The loop of `kvm_page_init`.
pub page_init_loop : ℕ → Kvm → ℕ → ℕ → ℕ → ℕ → Option Kvm
page_init_loop zero s pa end flags i = none
page_init_loop (suc rounds) s pa end flags i =
    let s' = record s { pte = store s.pte i (or32 (or32 pa vm_pres) flags) } in
    let rest = page_init_loop rounds s' ((pa + page_bytes) % 2 ^ 32) end flags (i + 1) in
    if ltb pa end then assertk (not (is_present (s.pte i))) >> rest else some s

pub kvm_page_init : ℕ → Kvm → ℕ → ℕ → ℕ → Option Kvm
kvm_page_init rounds s va size flags = do
  assertk (va % page_bytes == 0)
  i ← get_page_table_entry va
  let pa = va - kernel_start
  page_init_loop rounds s pa ((pa + size) % 2 ^ 32) flags i

-- The loop of `kvm_maps4` over numbers of frames.
pub maps4_loop : ℕ → Kvm → ℕ → ℕ → ℕ → ℕ → Option Kvm
maps4_loop zero s vpa end flags i = none
maps4_loop (suc rounds) s vpa end flags i =
    let e = or32 (or32 (vpa * page_bytes % 2 ^ 32) vm_pres) flags in
    let rest = maps4_loop rounds (record s { pte = store s.pte i e }) (vpa + 1) end flags (i + 1) in
    if ltb vpa end then assertk (not (is_present (s.pte i))) >> rest else some s

pub kvm_maps4 : ℕ → Kvm → ℕ → ℕ → ℕ → ℕ → Option Kvm
kvm_maps4 rounds s va pa size flags = do
  assertk (va % page_bytes == 0)
  let vpa = pa / page_bytes
  let pages = (size + (page_bytes - 1)) % 2 ^ 32 / page_bytes
  i ← get_page_table_entry va
  maps4_loop rounds s vpa (vpa + pages) flags i

-- The loop of `kvm_maps`.
pub maps_loop : ℕ → Kvm → ℕ → ℕ → ℕ → ℕ → ℕ → Option Kvm
maps_loop zero s va end pa flags i = none
maps_loop (suc rounds) s va end pa flags i =
    let s' = tlb_flush (record s { pte = store s.pte i (or32 pa flags) }) va in
    let rest =
      maps_loop rounds s' ((va + page_bytes) % 2 ^ 32) end ((pa + page_bytes) % 2 ^ 32) flags
        (i + 1) in
    if ltb va end then assertk (not (is_present (s.pte i))) >> rest else some s

pub kvm_maps : ℕ → Kvm → ℕ → ℕ → ℕ → ℕ → Option Kvm
kvm_maps rounds s va pa size flags = do
  assertk (va % page_bytes == 0)
  i ← get_page_table_entry va
  maps_loop rounds s va ((va + size) % 2 ^ 32) pa flags i

-- `kvm_map` of the page at the physical address `pa` of `size` bytes; the value for the field `data` too.
pub kvm_map : ℕ → Kvm → ℕ → ℕ → ℕ → Option (ℕ × Kvm)
kvm_map rounds s pa size flags = do
  let va = (pa + kernel_start) % 2 ^ 32
  assertk (ltb pa phys_top)
  s' ← kvm_maps rounds s va pa size flags
  some (va, s')

pub v2p : Kvm → ℕ → Option ℕ
v2p s va = do i ← get_page_table_entry va; some (frame (s.pte i))

-- `get_page` is the page of a physical address, as the page allocator keeps it.
pub kvm_vm2page : {P : Type 0} → (ℕ → P) → Kvm → ℕ → Option P
kvm_vm2page get_page s va = do i ← get_page_table_entry va; some (get_page (frame (s.pte i)))

-- The loop of `kvm_unmap3`.
pub unmap_loop : ℕ → Kvm → ℕ → ℕ → ℕ → Option Kvm
unmap_loop zero s va end i = none
unmap_loop (suc rounds) s va end i =
    let s' = tlb_flush (record s { pte = store s.pte i vm_npres }) va in
    let rest = unmap_loop rounds s' ((va + page_bytes) % 2 ^ 32) end (i + 1) in
    if ltb va end then rest else some s

pub kvm_unmap3 : ℕ → Kvm → ℕ → ℕ → Option Kvm
kvm_unmap3 rounds s va size = do
  assertk (ltb kernel_start va)
  assertk (size % page_bytes == 0)
  i ← get_page_table_entry va
  unmap_loop rounds s va ((va + size) % 2 ^ 32) i

-- The loop of `kvm_copy` over the last quarter of a page directory, from entry `i`, with `n` left.
pub copy_loop : (ℕ → ℕ) → (ℕ → ℕ) → ℕ → ℕ → (ℕ → ℕ)
copy_loop page_dir pgdir i zero = pgdir
copy_loop page_dir pgdir i (suc n) =
    let e = page_dir i in
    copy_loop page_dir (if is_present e then store pgdir i e else pgdir) (i + 1) n

pub kvm_copy : (ℕ → ℕ) → (ℕ → ℕ) → (ℕ → ℕ)
kvm_copy page_dir pgdir = copy_loop page_dir pgdir (n_pde / 4 * 3) (n_pde / 4)
