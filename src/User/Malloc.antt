-- ===== src/User/Malloc.antt =====
-- userspace/malloc.c: the chunks of the heap of a process, in a list by their addresses. A chunk goes by the
-- address of its header, NULL is 0, and words have 32 bits. `fuel` bounds the chunks of the list.
pub mod Chunks
pub mod Fit
pub mod Join
mod Tests
use quark_os.Prelude.{
  ℕ, zero, suc, ◌+◌, ◌-◌, ◌%◌, ◌^◌, ltb, leb, Bool, true, false, not, ◌&&◌, ◌||◌, Option, none,
  some, ◌==◌, ◌!=◌, if◌then◌else◌, ◌>>=◌, ◌>>◌, assertk, store,
}

abbrev pub heap_magic : ℕ
heap_magic = 0x35e92b2e

-- `sizeof(chunk_t)`
abbrev pub header_bytes : ℕ
header_bytes = 12

pub record Chunk : Type 0 where
  pub next : ℕ
  pub size : ℕ
  pub used : Bool
  pub magic : ℕ

-- The header at each address, with `head` and `tail`
pub record Heap : Type 0 where
  pub chunk : ℕ → Chunk
  pub head : ℕ
  pub tail : ℕ

-- `ALIGN(s, 2)`
abbrev pub align2 : ℕ → ℕ
align2 s = (s + 1) % 2 ^ 32 - (s + 1) % 2 ^ 32 % 2

abbrev pub alloc_addr : ℕ → ℕ
alloc_addr addr = (addr + header_bytes) % 2 ^ 32

abbrev pub chunk_header : ℕ → ℕ
chunk_header addr = (addr + (2 ^ 32 - header_bytes)) % 2 ^ 32

-- A chunk as `chunk_init` leaves it
abbrev pub new_chunk : ℕ → ℕ → Chunk
new_chunk next size = record { next = next; size = size; used = false; magic = heap_magic }

pub chunk_init : Heap → ℕ → ℕ → ℕ → Heap
chunk_init h new next size = record h { chunk = store h.chunk new (new_chunk next size) }

-- `alloc_chunk` where the rest of the chunk is too small for one of its own
pub take_whole : Heap → ℕ → Heap
take_whole h c = record h { chunk = store h.chunk c (record (h.chunk c) { used = true }) }

-- `alloc_chunk` where the rest becomes a chunk of its own
pub split_chunk : Heap → ℕ → ℕ → ℕ → Heap
split_chunk h c size free_size =
    let new = (c + size) % 2 ^ 32 in
    let h' = chunk_init h new (h.chunk c).next free_size in
    let taken = record (h'.chunk c) { next = new; used = true; size = size } in
    record h' { chunk = store h'.chunk c taken; tail = if c == h.tail then new else h.tail }

pub alloc_chunk : Heap → ℕ → ℕ → Option (ℕ × Heap)
alloc_chunk h c size = do
  assertk (not (h.chunk c).used && (h.chunk c).magic == heap_magic)
  let free_size = ((h.chunk c).size + (2 ^ 32 - size)) % 2 ^ 32
  let whole = take_whole h c
  let split = split_chunk h c size free_size
  some (alloc_addr c, if ltb free_size (header_bytes + 2) then whole else split)

-- The loop of `malloc`: the first chunk that is free and large enough, or NULL.
pub find_chunk : ℕ → Heap → ℕ → ℕ → Option ℕ
find_chunk zero h hdr size = none
find_chunk (suc fuel) h hdr size =
    let rest = find_chunk fuel h (h.chunk hdr).next size in
    if hdr == 0
    then some 0
    else if not (h.chunk hdr).used && leb size (h.chunk hdr).size
    then some hdr
    else rest

-- The end of `malloc`, with the chunk `b` that `sbrk` yields
pub grow : Heap → ℕ → ℕ → Option (ℕ × Heap)
grow h b size = do
  assertk (b != 0)
  let h' = chunk_init (record h { head = if h.head == 0 then b else h.head }) b 0 4096
  alloc_chunk (record h' { tail = b }) b size

pub malloc : ℕ → Heap → ℕ → ℕ → Option (ℕ × Heap)
malloc fuel h b request = do
  let size = align2 ((request + header_bytes) % 2 ^ 32)
  hdr ← find_chunk fuel h h.head size
  if hdr == 0 then grow h b size else alloc_chunk h hdr size

-- The loop of `free`: the first chunk in use from `p` on, or NULL, and the size with those before it.
pub join_loop : ℕ → Heap → ℕ → ℕ → ℕ → Option (ℕ × ℕ)
join_loop zero h c p size = none
join_loop (suc fuel) h c p size =
    let rest = join_loop fuel h c (h.chunk p).next ((size + (h.chunk p).size) % 2 ^ 32) in
    if p == 0 || (h.chunk p).used
    then some (p, size)
    else assertk ((h.chunk c).magic == heap_magic) >> rest

pub free : ℕ → Heap → ℕ → Option Heap
free fuel h addr = do
  let c = chunk_header addr
  assertk ((h.chunk c).used && (h.chunk c).magic == heap_magic)
  let h' = record h { chunk = store h.chunk c (record (h.chunk c) { used = false }) }
  (p, size) ← join_loop fuel h' c (h.chunk c).next (h.chunk c).size
  let joined = record (h'.chunk c) { next = p; size = size }
  let tail = if p == 0 then c else h.tail
  some (
      if p == (h.chunk c).next
      then h'
      else record h' { chunk = store h'.chunk c joined; tail = tail })
