-- ===== src/Mm/Uvm.antt =====
-- kernel/mm/uvm.c: the page tables of a user process, in two levels. A page of entries goes by its physical
-- address, the page directory too. `managed` says for which addresses `get_page` finds a page; the
-- addresses of the pages that `kcalloc` will yield are an argument. Words have 32 bits.
pub mod View
pub mod Areas
pub mod Translate
mod Tests
use quark_os.Mm.Kvm.{page_bytes, kernel_start, vm_pres, vm_npres, is_present, frame}
use quark_os.Prelude.{
  ℕ, zero, suc, ◌+◌, ◌-◌, ◌*◌, ◌/◌, ◌%◌, ◌^◌, ltb, leb, Bool, true, false, not, Option, none, some,
  List, [], ◌∷◌, ◌==◌, ◌!=◌, ◌&&◌, if◌then◌else◌, ◌>>=◌, ◌>>◌, assertk, store, or32,
}

abbrev pub vm_ur : ℕ
vm_ur = 4

abbrev pub vm_urw : ℕ
vm_urw = 6

-- The entries of each page of entries, and the pages that `kcalloc` will yield
pub record Tables : Type 0 where
  pub table : ℕ → ℕ → ℕ
  pub fresh : List ℕ

abbrev pub pde_index : ℕ → ℕ
pde_index va = va / 2 ^ 22

abbrev pub pte_index : ℕ → ℕ
pte_index va = va / 2 ^ 12 % 2 ^ 10

-- `*pte = e` for the entry `i` of the page at `t`
pub write_entry : Tables → ℕ → ℕ → ℕ → Tables
write_entry s t i e = record s { table = store s.table t (store (s.table t) i e) }

-- `kcalloc(PAGE_SIZE)`: a page of zeros
pub calloc_from : (ℕ → ℕ → ℕ) → List ℕ → Option (ℕ × Tables)
calloc_from table [] = none
calloc_from table (t ∷ ts) = some (t, record { table = store table t (λ i. 0); fresh = ts })

pub calloc_table : Tables → Option (ℕ × Tables)
calloc_table s = calloc_from s.table s.fresh

-- The page directory of a new process.
pub vm_map_init : Tables → Option (ℕ × Tables)
vm_map_init s = calloc_table s

-- The page of the table that has the entry of `va`; its index there is `pte_index va`. The constants of
-- a new entry of the directory are joined first.
pub vm_page_iter : (ℕ → Bool) → Tables → ℕ → ℕ → Bool → Option (ℕ × Tables)
vm_page_iter managed s va pgdir new =
    let pde = s.table pgdir (pde_index va) in
    let made = do
      (t, s') ← calloc_table s
      some (t, write_entry s' pgdir (pde_index va) (or32 t (or32 vm_pres vm_urw)))
    in let found = assertk (managed (frame pde)) >> some (frame pde, s) in
      if new && not (is_present pde) then made else found

pub record VmArea : Type 0 where
  pub va : ℕ
  pub size : ℕ
  pub flag : ℕ

-- A subtraction from the signed size left, which ends the loop where it is not positive
abbrev pub next_size : ℕ → ℕ
next_size size = size - page_bytes

-- The loop of `vm_map_area`.
pub map_area_loop : ℕ → (ℕ → Bool) → Tables → ℕ → ℕ → ℕ → ℕ → ℕ → Option Tables
map_area_loop zero managed s va pa size flag pgdir = none
map_area_loop (suc rounds) managed s va pa size flag pgdir =
    let va' = (va + page_bytes) % 2 ^ 32 in
    let pa' = (pa + page_bytes) % 2 ^ 32 in
    let round = do
      (t, s') ← vm_page_iter managed s va pgdir true
      assertk (not (is_present (s'.table t (pte_index va))))
      let mapped = write_entry s' t (pte_index va) (or32 pa flag)
      map_area_loop rounds managed mapped va' pa' (next_size size) flag pgdir
    in if size == 0 then some s else round

pub vm_map_area : ℕ → (ℕ → Bool) → Tables → VmArea → ℕ → ℕ → Option Tables
vm_map_area rounds managed s area pa pgdir =
    map_area_loop rounds managed s area.va pa area.size area.flag pgdir

-- The loop of `vm_maps`, which leaves entries in use as they are.
pub vm_maps_loop : ℕ → (ℕ → Bool) → Tables → ℕ → ℕ → ℕ → ℕ → ℕ → Option Tables
vm_maps_loop zero managed s va pa flag size pgdir = none
vm_maps_loop (suc rounds) managed s va pa flag size pgdir =
    let va' = (va + page_bytes) % 2 ^ 32 in
    let pa' = (pa + page_bytes) % 2 ^ 32 in
    let round = do
      (t, s') ← vm_page_iter managed s va pgdir true
      let e = s'.table t (pte_index va)
      let mapped = if is_present e then s' else write_entry s' t (pte_index va) (or32 pa flag)
      vm_maps_loop rounds managed mapped va' pa' flag (next_size size) pgdir
    in if size == 0 then some s else round

-- `pgdir` is the page directory of the current task.
pub vm_maps : ℕ → (ℕ → Bool) → Tables → ℕ → ℕ → ℕ → ℕ → ℕ → Option Tables
vm_maps rounds managed s va pa flag size pgdir = do
  assertk (pa % page_bytes == 0)
  vm_maps_loop rounds managed s (frame va) pa flag size pgdir

pub vm_vm2pm : (ℕ → Bool) → Tables → ℕ → ℕ → Option ℕ
vm_vm2pm managed s addr pgdir = do
  (t, s') ← vm_page_iter managed s addr pgdir false
  some (frame (s'.table t (pte_index addr)))
