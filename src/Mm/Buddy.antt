-- ===== src/Mm/Buddy.antt =====
-- kernel/mm/page_alloc.c: the buddy allocator of physical pages. A `struct page *` is its index in
-- `allocator.pages`; the free lists `root[0]` to `root[10]` are lists of those indices in place of the
-- linked nodes of kernel/include/lib/list.h, which are the subject of Klib/LinkedList. Sizes are in
-- bytes, as in the source. The locks are not modelled: each operation runs alone.
pub mod Invariant
pub mod Take
pub mod Split
pub mod Alloc
pub mod Request
pub mod Merge
pub mod Cover
pub mod Loose
pub mod Coalesce
pub mod Free
pub mod RoundTrip
pub mod Address
mod Tests
use quark_os.Members.{without}
use quark_os.Prelude.{
  ℕ, zero, suc, ◌+◌, ◌-◌, ◌*◌, ◌/◌, ◌%◌, ◌^◌, min, max, Bool, true, false, ◌&&◌, ◌||◌, Option, none,
  some, List, [], ◌∷◌, ◌++◌, ltb, leb, ◌==◌, ◌!=◌, if◌then◌else◌, ◌>>=◌, ◌>>◌, assertk, store,
}
use quark_os.Klib.Bits.{fix_size, log2}

abbrev pub max_order : ℕ
max_order = 10

abbrev pub order_cnt : ℕ → ℕ
order_cnt order = 2 ^ order

abbrev pub order_size : ℕ → ℕ
order_size order = 2 ^ order * 4096

-- The bits of `page->flag`.
pub record Flag : Type 0 where
  pub head : Bool
  pub in_use : Bool
  pub dirty : Bool
  pub valid : Bool
  pub cache : Bool
  pub slab : Bool

-- The fields of `struct page` that the allocator uses, and `magic`.
pub record Page : Type 0 where
  pub size : ℕ
  pub flag : Flag
  pub ref_cnt : ℕ
  pub magic : ℕ

abbrev pub page_magic : ℕ
page_magic = 0x265ef118

-- `struct buddyAllocator`
pub record Buddy : Type 0 where
  pub root : ℕ → List ℕ
  pub addr : ℕ
  pub size : ℕ
  pub pages : ℕ → Page
  pub page_cnt : ℕ

abbrev pub list_del : Buddy → ℕ → Buddy
list_del s p = record s { root = λ o. without p (s.root o) }

-- `list_add_prev(&page->head, &allocator.root[order])`
abbrev pub list_add_prev : Buddy → ℕ → ℕ → Buddy
list_add_prev s p order = record s { root = store s.root order (s.root order ++ (p ∷ [])) }

abbrev pub set_page : Buddy → ℕ → Page → Buddy
set_page s p page = record s { pages = store s.pages p page }

abbrev pub set_head : Flag → Bool → Flag
set_head f b = record f { head = b }

-- Physical addresses: `page_addr` and `get_page`.
pub page_addr : Buddy → ℕ → ℕ
page_addr s p = (s.addr + p * 4096) % 2 ^ 32

-- The inner `none` is NULL.
pub get_page : Buddy → ℕ → Option (Option ℕ)
get_page s addr = if addr % 4096 != 0 then some none else if ltb addr s.addr then some none else do
  assertk ((s.pages ((addr - s.addr) / 4096)).magic == page_magic)
  some (some ((addr - s.addr) / 4096))

-- A page of size 0 is a division by zero.
pub get_buddy : Buddy → ℕ → Option (Option ℕ)
get_buddy s p =
    let cnt = (s.pages p).size / 4096 in
    do
      assertk (cnt != 0)
      let buddy = if p / cnt % 2 == 1 then p - cnt else p + cnt
      some (if leb s.page_cnt buddy then none else some buddy)

-- The inner loop of `__alloc_page`, `n` rounds down from order `j + n - 1` to order `j`: the upper
-- half of the block goes to the free list.
pub split_loop : Buddy → ℕ → ℕ → ℕ → Option Buddy
split_loop s p j zero = some s
split_loop s p j (suc n) =
    let new = p + order_cnt (j + n) in
    let old = s.pages new in
    let page = record old { size = order_size (j + n); flag = set_head old.flag true } in
    let rest = split_loop (list_add_prev (set_page s new page) new (j + n)) p j n in
    if old.flag.head then none else rest

-- The outer loop, from order `i` with `n` orders left; the page found and the state.
pub find_loop : Buddy → ℕ → ℕ → ℕ → Option (ℕ × Buddy)
unfolding split_loop
find_loop s order i zero = none
find_loop s order i (suc n) = elim (s.root i) [
  | [] ↦ find_loop s order (i + 1) n
  | p ∷ ps ↦ do assertk (s.pages p).flag.head; s' ← split_loop s p order (i - order); some (p, s')
]

abbrev pub take_page : Buddy → ℕ → ℕ → Buddy
take_page s p size =
    let s' = list_del (record s { size = (s.size + 2 ^ 32 - size) % 2 ^ 32 }) p in
    let page = s'.pages p in set_page s' p (record page { size = size; ref_cnt = 1 })

-- `__alloc_page` on the rounded size.
pub alloc_sized : Buddy → ℕ → Option (ℕ × Buddy)
unfolding find_loop
alloc_sized s size = do
  assertk (ltb 0 size && leb size (4 * 0x100000) && size % 4096 == 0)
  order ← log2 (size / 4096)
  (p, s') ← find_loop s order order (max_order + 1 - order)
  some (p, take_page s' p size)

pub alloc_page : Buddy → ℕ → Option (ℕ × Buddy)
unfolding alloc_sized
alloc_page s request = alloc_sized s (fix_size request)

-- Whether a page stops merging: no buddy, a buddy in use, a buddy in parts, or the largest order.
abbrev pub stops : Buddy → ℕ → ℕ → Option ℕ → Bool
stops s p order none = true
stops s p order (some buddy) =
    (s.pages buddy).ref_cnt != 0 || (s.pages buddy).size != (s.pages p).size || order == max_order

-- One merge: the upper page loses its head bit, the lower one doubles its size.
abbrev pub merge : Buddy → ℕ → ℕ → ℕ × Buddy
merge s p buddy =
    let s' = list_del s buddy in
    let tmp = max buddy p in
    let low = min buddy p in
    let upper = s'.pages tmp in
    let s'' = set_page s' tmp (record upper { flag = set_head upper.flag false }) in
    let lower = s''.pages low in
    (low, set_page s'' low (record lower { size = lower.size * 2 % 2 ^ 32 }))

-- The merging loop of `__free_page`, with `n` orders left.
pub merge_loop : Buddy → ℕ → ℕ → ℕ → Option Buddy
unfolding get_buddy
merge_loop s p order zero = some s
merge_loop s p order (suc n) =
    let again = λ (buddy : ℕ). do
      let low = min buddy p
      assertk (low + (s.pages low).size / 4096 == max buddy p)
      merge_loop (merge s p buddy).1 (merge s p buddy).0 (order + 1) n
    in let round = do
      buddy ← get_buddy s p
      if stops s p order buddy then some (list_add_prev s p order) else (buddy >>= again)
      in if (s.pages p).ref_cnt != 0 then some s else round

-- The returned state still holds the page's write lock where references are left.
pub free_page : Buddy → ℕ → Option Buddy
unfolding merge_loop
free_page s p =
    let page = s.pages p in
    let count = page.ref_cnt - 1 in
    do
      assertk (page.ref_cnt != 0)
      assertk page.flag.head
      if count != 0 then some (set_page s p (record page { ref_cnt = count })) else do
        order ← log2 (page.size / 4096)
        let flag = record (page.flag) { head = true; in_use = true }
        merge_loop (set_page s p (record page { ref_cnt = 0; flag = flag })) p order
            (max_order + 1 - order)

-- `alloc_page` and `free_page`, which name a block by its physical address; -1 is 2 ^ 32 - 1.
pub alloc_address : Buddy → ℕ → Option (ℕ × Buddy)
unfolding alloc_page page_addr
alloc_address s request = do (p, s') ← alloc_page s request; some (page_addr s' p, s')

pub free_found : Buddy → Option ℕ → Option (ℕ × Buddy)
free_found s none = some (2 ^ 32 - 1, s)
free_found s (some p) = do assertk (s.pages p).flag.head; s' ← free_page s p; some (0, s')

pub free_address : Buddy → ℕ → Option (ℕ × Buddy)
free_address s addr = do assertk (addr % 4096 == 0); page ← get_page s addr; free_found s page
