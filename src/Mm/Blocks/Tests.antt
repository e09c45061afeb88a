-- ===== src/Mm/Blocks/Tests.antt =====
-- Two blocks of memory, and the theorem there.
use quark_os.Mm.Blocks.{BlockInfo, BlockAllocator, cut, block_alloc, first_addr}
use quark_os.Mm.Blocks.First.{IsBlocks, block_alloc-IsBlocks}
use quark_os.Prelude.{some, [], ◌∷◌, ◌≡◌, refl, arith}

abbrev small_block : BlockInfo
small_block = record { addr = 0x1000; size = 16 }

abbrev large_block : BlockInfo
large_block = record { addr = 0x2000; size = 4096 }

abbrev two_blocks : BlockAllocator
two_blocks = record { blocks = small_block ∷ large_block ∷ []; addr = 0x1000; size = 4112 }

two_blocks-IsBlocks : IsBlocks two_blocks
unfolding first_addr
two_blocks-IsBlocks = record {
  bytes_at = refl;
  addr_at = refl;
  ordered = ((omega arith, tt), (tt, tt));
  in_word = (omega arith, (omega arith, tt));
  size_word = omega arith;
}

-- 18 bytes are made 20.
block_alloc-IsBlocks_example :
    (s : BlockAllocator) × ((block_alloc two_blocks 18 ≡ some (0x2000, s))
      × ((s.blocks ≡ small_block ∷ cut large_block 20 ∷ []) × IsBlocks s))
block_alloc-IsBlocks_example =
    block_alloc-IsBlocks two_blocks 18 (small_block ∷ []) large_block [] refl two_blocks-IsBlocks
      (omega arith) (omega arith) (omega arith, tt) (omega arith)
