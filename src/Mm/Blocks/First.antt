-- ===== src/Mm/Blocks/First.antt =====
-- kernel/mm/block_alloc.c: memory comes from the first block that is large enough.
use quark_os.Mm.Blocks.{
  BlockInfo, BlockAllocator, stops_first, mem_align, cut, first_block, first_addr, block_alloc,
}
use quark_os.Prelude.{
  ℕ, ◌+◌, ◌-◌, ◌%◌, ◌^◌, ◌<◌, ◌≤◌, leb, true, false, some, List, [], ◌∷◌, ◌++◌, ◌!=◌, if◌then◌else◌,
  ◌≡◌, ◌≢◌, refl, ap, subst, ◌∙◌, arith,
}

-- The bytes of blocks
abbrev pub free_bytes : List BlockInfo → ℕ
free_bytes [] = 0
free_bytes (b ∷ bs) = b.size + free_bytes bs

-- No two blocks share a byte.
abbrev pub Apart : BlockInfo → List BlockInfo → Type 0
Apart b [] = Unit
Apart b (c ∷ cs) = ((b.addr + b.size ≤ c.addr) × Apart b cs)

abbrev pub Ordered : List BlockInfo → Type 0
Ordered [] = Unit
Ordered (b ∷ bs) = Apart b bs × Ordered bs

-- The blocks end before the end of the address space.
abbrev pub InWord : List BlockInfo → Type 0
InWord [] = Unit
InWord (b ∷ bs) = (b.addr + b.size < 2 ^ 32) × InWord bs

-- The allocator knows the bytes of its blocks and where the first begins; the blocks go by their addresses.
pub record IsBlocks (s : BlockAllocator) : Type 0 where
  pub bytes_at : s.size ≡ free_bytes s.blocks
  pub addr_at : s.addr ≡ first_addr s.blocks s.addr
  pub ordered : Ordered s.blocks
  pub in_word : InWord s.blocks
  pub size_word : s.size < 2 ^ 32

-- All blocks are too small.
abbrev pub TooSmall : ℕ → List BlockInfo → Type 0
TooSmall size [] = Unit
TooSmall size (b ∷ bs) = (b.size < size) × TooSmall size bs

first_block-fits :
    (size : ℕ) (xs : List BlockInfo) (b : BlockInfo) (ys : List BlockInfo)
    → TooSmall size xs
    → size ≤ b.size
    → first_block (xs ++ (b ∷ ys)) size ≡ (b.addr, xs ++ (cut b size ∷ ys))
unfolding first_block
first_block-fits size [] b ys t le =
    let go : leb size b.size ≡ true = ground (arith, le) in rw go refl
first_block-fits size (x ∷ xs) b ys (t, ts) le =
    let go : leb size x.size ≡ false = ground (arith, t) in
    let ih = first_block-fits size xs b ys ts le in rw (go, ih) refl

free_bytes-cut :
    (size : ℕ) (xs : List BlockInfo) (b : BlockInfo) (ys : List BlockInfo)
    → size ≤ b.size
    → free_bytes (xs ++ (b ∷ ys)) ≡ free_bytes (xs ++ (cut b size ∷ ys)) + size
free_bytes-cut size [] b ys le = omega (arith, le)
free_bytes-cut size (x ∷ xs) b ys le = let ih = free_bytes-cut size xs b ys le in omega (arith, ih)

InWord-middle :
    (xs : List BlockInfo) (b : BlockInfo) (ys : List BlockInfo)
    → InWord (xs ++ (b ∷ ys))
    → b.addr + b.size < 2 ^ 32
InWord-middle [] b ys (w, ws) = w
InWord-middle (x ∷ xs) b ys (w, ws) = InWord-middle xs b ys ws

InWord-cut :
    (size : ℕ) (xs : List BlockInfo) (b : BlockInfo) (ys : List BlockInfo)
    → size ≤ b.size
    → InWord (xs ++ (b ∷ ys))
    → InWord (xs ++ (cut b size ∷ ys))
InWord-cut size [] b ys le (w, ws) = (omega (arith, w, le), ws)
InWord-cut size (x ∷ xs) b ys le (w, ws) = (w, InWord-cut size xs b ys le ws)

Apart-cut :
    (size : ℕ) (a : BlockInfo) (xs : List BlockInfo) (b : BlockInfo) (ys : List BlockInfo)
    → size ≤ b.size
    → b.addr + b.size < 2 ^ 32
    → Apart a (xs ++ (b ∷ ys))
    → Apart a (xs ++ (cut b size ∷ ys))
Apart-cut size a [] b ys le w (d, ds) = (omega (arith, d, le, w), ds)
Apart-cut size a (x ∷ xs) b ys le w (d, ds) = (d, Apart-cut size a xs b ys le w ds)

Apart-shrink :
    (size : ℕ) (b : BlockInfo) (ys : List BlockInfo)
    → size ≤ b.size
    → b.addr + b.size < 2 ^ 32
    → Apart b ys
    → Apart (cut b size) ys
Apart-shrink size b [] le w d = tt
Apart-shrink size b (y ∷ ys) le w (d, ds) =
    (omega (arith, d, le, w), Apart-shrink size b ys le w ds)

Ordered-cut :
    (size : ℕ) (xs : List BlockInfo) (b : BlockInfo) (ys : List BlockInfo)
    → size ≤ b.size
    → b.addr + b.size < 2 ^ 32
    → Ordered (xs ++ (b ∷ ys))
    → Ordered (xs ++ (cut b size ∷ ys))
Ordered-cut size [] b ys le w (d, ds) = (Apart-shrink size b ys le w d, ds)
Ordered-cut size (x ∷ xs) b ys le w (d, ds) =
    (Apart-cut size x xs b ys le w d, Ordered-cut size xs b ys le w ds)

first_addr-kept :
    (size : ℕ) (xs : List BlockInfo) (b : BlockInfo) (ys : List BlockInfo) (a : ℕ)
    → TooSmall size xs
    → size ≤ b.size
    → a ≡ first_addr (xs ++ (b ∷ ys)) a
    → (if stops_first (xs ++ (b ∷ ys)) size then first_addr (xs ++ (cut b size ∷ ys)) a else a)
      ≡ first_addr (xs ++ (cut b size ∷ ys)) a
unfolding first_addr stops_first
first_addr-kept size [] b ys a t le e =
    let go : leb size b.size ≡ true = ground (arith, le) in rw go refl
first_addr-kept size (x ∷ xs) b ys a (t, ts) le e =
    let go : leb size x.size ≡ false = ground (arith, t) in rw go e

first_addr-cons :
    (xs : List BlockInfo) (b : BlockInfo) (ys : List BlockInfo) (a a' : ℕ)
    → first_addr (xs ++ (b ∷ ys)) a ≡ first_addr (xs ++ (b ∷ ys)) a'
unfolding first_addr
first_addr-cons [] b ys a a' = refl
first_addr-cons (x ∷ xs) b ys a a' = refl

enough :
    (request size left : ℕ)
    → request < 2 ^ 31
    → size ≡ left + mem_align request 4
    → leb request size ≡ true
enough request size left small e =
    let le : request ≤ size = omega (arith, small, e) in ground (arith, le)

left_over :
    (size request left : ℕ)
    → request < 2 ^ 31
    → size < 2 ^ 32
    → size ≡ left + mem_align request 4
    → (size + (2 ^ 32 - mem_align request 4)) % 2 ^ 32 ≡ left
left_over size request left small word e = omega (arith, small, word, e)

-- From a consistent allocator, a request that fits in some block, made a multiple of 4, is cut off the start
-- of the first such block, if that block does not begin at 0; `block_alloc` returns the address where that
-- block began, no other block changes, and the allocator is consistent again.
pub block_alloc-IsBlocks :
    (s : BlockAllocator) (request : ℕ) (xs : List BlockInfo) (b : BlockInfo) (ys : List BlockInfo)
    → s.blocks ≡ xs ++ (b ∷ ys)
    → IsBlocks s
    → request < 2 ^ 31
    → b.addr ≢ 0
    → TooSmall (mem_align request 4) xs
    → mem_align request 4 ≤ b.size
    → (s' : BlockAllocator) × ((block_alloc s request ≡ some (b.addr, s'))
        × ((s'.blocks ≡ xs ++ (cut b (mem_align request 4) ∷ ys)) × IsBlocks s'))
unfolding block_alloc
block_alloc-IsBlocks s request xs b ys e h small real t le =
    let size = mem_align request 4 in
    let total = h.bytes_at ∙ ap free_bytes e ∙ free_bytes-cut size xs b ys le in
    let ok : leb request s.size ≡ true =
      enough request s.size (free_bytes (xs ++ (cut b size ∷ ys))) small total in
    let found = first_block-fits size xs b ys t le in
    let go : (b.addr != 0) ≡ true = ground (arith, real) in
    let word = h.size_word in
    let in_word = subst InWord e h.in_word in
    let w = InWord-middle xs b ys in_word in
    let new =
      if stops_first s.blocks size then first_addr (xs ++ (cut b size ∷ ys)) s.addr else s.addr in
    let old = h.addr_at ∙ ap (λ bs. first_addr bs s.addr) e in
    let kept =
      ap (λ bs. if stops_first bs size then first_addr (xs ++ (cut b size ∷ ys)) s.addr else s.addr)
        e
      ∙ first_addr-kept size xs b ys s.addr t le old in
    let s' : BlockAllocator = record {
      blocks = xs ++ (cut b size ∷ ys);
      addr = new;
      size = (s.size + (2 ^ 32 - size)) % 2 ^ 32;
    } in
    let looked = ap (λ bs. first_block bs size) e ∙ found in
    (
      s',
      (
        rw (ok, looked, go) refl,
        (
          refl,
          record {
            bytes_at =
                left_over s.size request (free_bytes (xs ++ (cut b size ∷ ys))) small word total;
            addr_at = kept ∙ first_addr-cons xs (cut b size) ys s.addr new;
            ordered = Ordered-cut size xs b ys le w (subst Ordered e h.ordered);
            in_word = InWord-cut size xs b ys le in_word;
            size_word = omega arith;
          },
        ),
      ),
    )
