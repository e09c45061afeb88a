-- ===== src/Mm/Buddy/Address.antt =====
-- Physical addresses in kernel/mm/page_alloc.c.
use quark_os.Prelude.{
  ℕ, ◌+◌, ◌-◌, ◌*◌, ◌/◌, ◌%◌, ◌^◌, ◌≤◌, ◌<◌, ◌≡◌, refl, arith, some, true, false, ◌==◌, ◌!=◌, ltb,
}
use quark_os.Mm.Buddy.{Buddy, page_magic, page_addr, get_page, free_page, free_found, free_address}
use quark_os.Mm.Buddy.Invariant.{is_head}

-- The managed pages start at a page boundary and do not pass the end of memory, and the page `p` bears
-- its magic number.
pub record HasAddress (s : Buddy) (p : ℕ) : Type 0 where
  pub inside : p < s.page_cnt
  pub boundary : s.addr % 4096 ≡ 0
  pub memory : s.addr + s.page_cnt * 4096 ≤ 2 ^ 32
  pub magic : (s.pages p).magic ≡ page_magic

address_lem : (s : Buddy) (p : ℕ) → HasAddress s p → page_addr s p ≡ s.addr + p * 4096
unfolding page_addr
address_lem s p h = omega (arith, h.inside, h.memory)

-- Where the managed memory begins at a page boundary and does not pass the end of memory, `get_page`
-- finds the page at the address that `page_addr` gives a managed page with its magic number.
pub get_page-page_addr :
    (s : Buddy) (p : ℕ) → HasAddress s p → get_page s (page_addr s p) ≡ some (some p)
unfolding get_page
get_page-page_addr s p h =
    let at : (s.addr + p * 4096 - s.addr) / 4096 ≡ p = omega arith in
    let whole : ((s.addr + p * 4096) % 4096 != 0) ≡ false = ground (arith, h.boundary) in
    let above : ltb (s.addr + p * 4096) s.addr ≡ false = ground arith in
    let magic : ((s.pages p).magic == page_magic) ≡ true = ground (arith, h.magic) in
    rw (address_lem s p h, whole, above, at, magic) refl

-- For a page with an address, as above, that heads a block: where `__free_page` frees the block, freeing
-- its address does so too, and returns 0.
pub free_address-page_addr :
    (s : Buddy) (p : ℕ) {s' : Buddy}
    → HasAddress s p
    → is_head s p ≡ true
    → free_page s p ≡ some s'
    → free_address s (page_addr s p) ≡ some (0, s')
unfolding free_address free_found
free_address-page_addr s p h head runs =
    let whole : (page_addr s p % 4096 == 0) ≡ true =
      ground (arith, address_lem s p h, h.boundary) in
    rw (whole, get_page-page_addr s p h, head, runs) refl
