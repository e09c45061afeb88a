-- ===== src/Fs/Ext2/Tests.antt =====
-- A bitmap and a block number, and the theorems there.
use quark_os.Prelude.{ℕ, ◌*◌, ◌≡◌, refl, arith, some, ◌==◌, if◌then◌else◌}
use quark_os.Fs.Ext2.Bitmap.{set_next_zero_bit}
use quark_os.Fs.Ext2.Bitmap.Scan.{IsBytes, Outcome, set_next_zero_bit_lem}
use quark_os.Fs.Ext2.Layers.{Position, find_block_layer}
use quark_os.Fs.Ext2.Layers.Bijection.{find_block_layer_lem, StandsFor}

-- One full byte and one with two bits taken.
abbrev blocks : ℕ → ℕ
blocks j = if j == 0 then 0xff else if j == 1 then 0x03 else 0

blocks-IsBytes : IsBytes blocks
blocks-IsBytes j = ground arith

set_next_zero_bit_lem_example : Outcome blocks 0 (2 * 8) (set_next_zero_bit blocks 2)
set_next_zero_bit_lem_example = set_next_zero_bit_lem blocks 2 blocks-IsBytes

-- Blocks of 1 KiB hold 256 pointers.
find_block_layer_lem_example :
    (p : Position) × (find_block_layer 256 70000 ≡ some p) × StandsFor 256 70000 p
find_block_layer_lem_example =
    find_block_layer_lem 256 70000 (omega arith) (omega arith) (omega arith) (omega arith)

-- Block number 812 is found in the second layer.
finds : find_block_layer 256 812 ≡ some (record { layer = 1; id0 = 32; id1 = 2; id2 = 0 })
unfolding find_block_layer
finds = refl
