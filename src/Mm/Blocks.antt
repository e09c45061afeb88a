-- ===== src/Mm/Blocks.antt =====
-- kernel/mm/block_alloc.c: the first allocator of physical memory, which the page allocator takes over from.
-- The list of free blocks is its blocks in order. Words have 32 bits.
pub mod First
mod Tests
use quark_os.Prelude.{
  ℕ, zero, suc, ◌+◌, ◌-◌, ◌%◌, ◌^◌, ltb, leb, Bool, true, false, ◌&&◌, Option, none, some, List, [],
  ◌∷◌, ◌==◌, ◌!=◌, if◌then◌else◌, ◌>>=◌, ◌>>◌, assertk,
}

-- `MEM_ALIGN(s, align)` for an alignment that is a power of two
abbrev pub mem_align : ℕ → ℕ → ℕ
mem_align s align = (s + (align - 1)) % 2 ^ 32 - (s + (align - 1)) % 2 ^ 32 % align

pub record BlockInfo : Type 0 where
  pub addr : ℕ
  pub size : ℕ

-- `blockAllocator`
pub record BlockAllocator : Type 0 where
  pub blocks : List BlockInfo
  pub addr : ℕ
  pub size : ℕ

-- A block without its first `size` bytes
abbrev pub cut : BlockInfo → ℕ → BlockInfo
cut b size = record { addr = (b.addr + size) % 2 ^ 32; size = b.size - size }

-- The loop of `block_alloc`: the address that it finds, or 0, and the blocks afterwards.
pub first_block : List BlockInfo → ℕ → ℕ × List BlockInfo
first_block [] size = (0, [])
first_block (b ∷ bs) size =
    let rest = first_block bs size in
    if leb size b.size then (b.addr, cut b size ∷ bs) else (rest.0, b ∷ rest.1)

-- The address of the first block, which the allocator keeps
unfoldable pub first_addr : List BlockInfo → ℕ → ℕ
first_addr [] addr = addr
first_addr (b ∷ bs) addr = b.addr

-- Whether the loop stops at the first block
pub stops_first : List BlockInfo → ℕ → Bool
stops_first [] size = false
stops_first (b ∷ bs) size = leb size b.size

-- `addr` is kept up to date where it was the first block that was cut.
pub block_alloc : BlockAllocator → ℕ → Option (ℕ × BlockAllocator)
block_alloc s request = do
  assertk (leb request s.size)
  let size = mem_align request 4
  let found = first_block s.blocks size
  assertk (found.0 != 0)
  let addr = if stops_first s.blocks size then first_addr found.1 s.addr else s.addr
  let left = (s.size + (2 ^ 32 - size)) % 2 ^ 32
  some (found.0, record { blocks = found.1; addr = addr; size = left })

pub block_alloc_align : BlockAllocator → ℕ → ℕ → Option (ℕ × BlockAllocator)
block_alloc_align s size align = do
  assertk (ltb 4 align && align % 4 == 0)
  (addr, s') ← block_alloc s ((size + (align - 1)) % 2 ^ 32)
  some (mem_align addr align, s')

pub block_start : BlockAllocator → ℕ
block_start s = s.addr

-- The end of the last block
pub last_end : List BlockInfo → Option ℕ
last_end [] = none
last_end (b ∷ []) = some ((b.addr + b.size) % 2 ^ 32)
last_end (b ∷ c ∷ bs) = last_end (c ∷ bs)

pub block_end : BlockAllocator → Option ℕ
block_end s = last_end s.blocks

pub block_size : BlockAllocator → ℕ
block_size s = s.size
