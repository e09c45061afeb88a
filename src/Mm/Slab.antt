-- ===== src/Mm/Slab.antt =====
-- kernel/mm/slab.c: small blocks of kernel memory. A slab is a page cut into chunks of one size, whose
-- free chunks are linked through their first words. A page goes by its virtual address; the head of
-- a list of slabs goes by its place after `allocator`, counted in `list_head_t`s. The locks are not modelled.
pub mod Invariant
pub mod Fill
pub mod Take
pub mod Alloc
pub mod Apart
pub mod Free
pub mod Request
mod Tests
use quark_os.Klib.Bits.{fix_size, log2}
use quark_os.Members.{without}
use quark_os.Prelude.{
  ℕ, zero, suc, ◌+◌, ◌-◌, ◌/◌, ◌%◌, ◌^◌, Bool, true, false, ◌&&◌, Option, none, some, List, [], ◌∷◌,
  ltb, leb, ◌==◌, ◌!=◌, if◌then◌else◌, ◌>>=◌, ◌>>◌, assertk, store,
}

abbrev pub page_size : ℕ
page_size = 4096

-- `LIST_SIZE`, and the place of `allocator.full_slab`
abbrev pub list_size : ℕ
list_size = 10

abbrev pub slab_max : ℕ
slab_max = 2048

abbrev pub slab_min : ℕ
slab_min = 4

abbrev pub slab_magic : ℕ
slab_magic = 0xac616749

-- `PAGE_CEIL`: the start of the page of an address.
abbrev pub page_ceil : ℕ → ℕ
page_ceil addr = addr - addr % page_size

-- The `slab` field of a page, with the bit PG_SLAB of its flag; an address of no page has a clear bit.
pub record SlabInfo : Type 0 where
  pub chunk : ℕ
  pub size : ℕ
  pub n_allocated : ℕ
  pub magic : ℕ
  pub is_slab : Bool

-- `struct allocator` and the caches: the pages on each list of slabs, first to last, the pages' fields, and
-- the word at each address in slabs.
pub record Slabs : Type 0 where
  pub list : ℕ → List ℕ
  pub info : ℕ → SlabInfo
  pub next : ℕ → ℕ

-- The loop that links the chunks, with `n` rounds left, and the end of the list.
pub link_loop : (ℕ → ℕ) → ℕ → ℕ → ℕ → (ℕ → ℕ)
link_loop next chunk size zero = store next chunk 0
link_loop next chunk size (suc n) =
    link_loop (store next chunk (chunk + size)) (chunk + size) size n

-- `page` is the page that `__alloc_page` has yielded and `kvm_map` has mapped.
pub add_slab : Slabs → ℕ → ℕ → ℕ → Slabs
unfolding link_loop
add_slab s slab chunk_size page =
    let cnt_unused = page_size / chunk_size in
    record {
      list = store s.list slab (page ∷ s.list slab);
      info = store s.info page (record {
        chunk = page;
        size = chunk_size;
        n_allocated = 0;
        magic = slab_magic;
        is_slab = true;
      });
      next = link_loop s.next page chunk_size (cnt_unused - 1);
    }

-- A page goes from one list to the front of another.
abbrev pub move_page : Slabs → ℕ → ℕ → ℕ → Slabs
move_page s page src dst =
    let left = store s.list src (without page (s.list src)) in
    record s { list = store left dst (page ∷ left dst) }

-- `__slab_alloc` from the slab `page`, the first of the list `head`.
pub take_chunk : Slabs → ℕ → ℕ → ℕ → Option (ℕ × Slabs)
take_chunk s page head full =
    let info = s.info page in
    let chunk = s.next info.chunk in
    let taken = record s {
      info =
          store s.info page
            (record info { n_allocated = (info.n_allocated + 1) % 2 ^ 16; chunk = chunk });
    } in
    if info.chunk == 0
    then none
    else some (info.chunk, if chunk == 0 then move_page taken page head full else taken)

-- `__slab_alloc` once the list has a slab
pub first_chunk : Slabs → ℕ → ℕ → Option (ℕ × Slabs)
first_chunk s head full = elim (s.list head) [
  | [] ↦ none
  | first ∷ pages ↦ take_chunk s first head full
]

-- A list without slabs gets one.
abbrev pub supplied : Slabs → ℕ → ℕ → ℕ → Slabs
supplied s head size page = elim (s.list head) [ [] ↦ add_slab s head size page | p ∷ pages ↦ s ]

-- `__slab_alloc`; `page` is the page for a new slab, if one is needed.
pub list_alloc : Slabs → ℕ → ℕ → ℕ → ℕ → Option (ℕ × Slabs)
unfolding first_chunk
list_alloc s head full size page = first_chunk (supplied s head size page) head full

-- `list_del` of a page, from the list that it is on.
abbrev pub unlink_page : Slabs → ℕ → Slabs
unlink_page s page = record s { list = λ h. without page (s.list h) }

-- `__slab_free` of a chunk of `page`
pub free_chunk : Slabs → ℕ → ℕ → ℕ → Option Slabs
free_chunk s page addr head = do
  let info = s.info page
  assertk info.is_slab
  assertk (info.magic == slab_magic)
  assertk (ltb 0 info.n_allocated)
  let off = unlink_page s page
  let back = record off { list = store off.list head (page ∷ off.list head) }
  let s' = if info.chunk == 0 then back else s
  some (record s' {
    info = store s.info page (record info { n_allocated = info.n_allocated - 1; chunk = addr });
    next = store s.next addr info.chunk;
  })

pub list_free : Slabs → ℕ → ℕ → Option Slabs
unfolding free_chunk
list_free s addr head = free_chunk s (page_ceil addr) addr head

-- `if (size < SLAB_MIN) size = SLAB_MIN;`
abbrev pub at_least : ℕ → ℕ
at_least size = if ltb size slab_min then slab_min else size

-- `slab_alloc`
pub slab_alloc : Slabs → ℕ → ℕ → Option (ℕ × Slabs)
unfolding list_alloc fix_size log2
slab_alloc s size page = do
  assertk (size != 0 && leb size slab_max)
  let fixed = fix_size (at_least size)
  i ← log2 fixed
  list_alloc s (i - 2) list_size fixed page

-- `slab_free`
pub slab_free : Slabs → ℕ → Option Slabs
unfolding list_free log2
slab_free s addr = do
  let info = s.info (page_ceil addr)
  assertk info.is_slab
  i ← log2 info.size
  list_free s addr (i - 2)

-- `slab_chunk_size`
pub slab_chunk_size : Slabs → ℕ → Option ℕ
slab_chunk_size s addr = do
  let info = s.info (page_ceil addr)
  assertk info.is_slab
  assertk (leb info.size slab_max)
  some info.size

-- `struct slabCache`, by the places of its lists
pub record SlabCache : Type 0 where
  pub cache_list : ℕ
  pub full_list : ℕ
  pub size : ℕ

pub cache_alloc_create : Slabs → SlabCache → ℕ → Slabs × SlabCache
cache_alloc_create s cache size = (
  record s { list = store (store s.list cache.cache_list []) cache.full_list [] },
  record cache { size = size },
)

pub cache_alloc : Slabs → SlabCache → ℕ → Option (ℕ × Slabs)
unfolding list_alloc
cache_alloc s cache page = list_alloc s cache.cache_list cache.full_list (cache.size % 2 ^ 16) page

pub cache_free : Slabs → SlabCache → ℕ → Option Slabs
unfolding list_free
cache_free s cache addr = list_free s addr cache.cache_list

-- `slab_init`
pub slab_init : Slabs → Slabs
slab_init s = record s { list = λ h. if leb h list_size then [] else s.list h }
