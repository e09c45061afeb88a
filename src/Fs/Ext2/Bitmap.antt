-- ===== src/Fs/Ext2/Bitmap.antt =====
-- The block bitmap of kernel/fs/ext2/block.c: the search for a free bit, with `set_bit` and `clear_bit`
-- of kernel/include/lib/qlib.h. The bitmap is the array of its bytes.
pub mod Scan
use quark_os.Prelude.{
  ℕ, zero, suc, ◌+◌, ◌-◌, ◌*◌, ◌/◌, ◌%◌, ◌^◌, bit_and, bit_or, Bool, Option, none, some, ◌==◌, ◌!=◌,
  if◌then◌else◌, store,
}

-- `value |= 1 << bit` on a byte
unfoldable pub set_bit : ℕ → ℕ → ℕ
set_bit value bit = bit_or value (2 ^ bit) % 2 ^ 8

-- `value &= ~(1 << bit)` on a byte
unfoldable pub clear_bit : ℕ → ℕ → ℕ
clear_bit value bit = bit_and value (2 ^ 32 - 1 - 2 ^ bit) % 2 ^ 8

-- `while (ch & 1) { ch >>= 1; no++; }`: a byte runs out of ones after eight rounds.
unfoldable pub clear_loop : ℕ → ℕ → ℕ → ℕ
clear_loop zero ch count = count
clear_loop (suc fuel) ch count =
    let rest = clear_loop fuel (ch / 2) (count + 1) in if bit_and ch 1 == 0 then count else rest

unfoldable pub get_clear_bit : ℕ → ℕ
unfolding clear_loop
get_clear_bit ch = clear_loop 9 ch 0

-- The loop from byte `i` with `n` bytes left; `none` is the -1.
pub zero_bit_loop : (ℕ → ℕ) → ℕ → ℕ → Option ℕ × (ℕ → ℕ)
unfolding set_bit get_clear_bit
zero_bit_loop map zero i = (none, map)
zero_bit_loop map (suc n) i =
    let rest = zero_bit_loop map n (i + 1) in
    let bit = get_clear_bit (map i) in
    if map i != 0xff then (some (bit + i * 8), store map i (set_bit (map i) bit)) else rest

pub set_next_zero_bit : (ℕ → ℕ) → ℕ → Option ℕ × (ℕ → ℕ)
unfolding zero_bit_loop
set_next_zero_bit map max = zero_bit_loop map max 0

-- The bit that `clear_block_bitmap` clears for block `bid`.
pub clear_map_bit : (ℕ → ℕ) → ℕ → ℕ → ℕ
unfolding clear_bit
clear_map_bit map bid = store map (bid / 8) (clear_bit (map (bid / 8)) (bid % 8))
