-- ===== src/Klib/Bits.antt =====
-- kernel/include/lib/qlib.h and `log2` of kernel/lib/qlib.c: powers of two and bits of a byte.
pub mod Digits
pub mod Log
pub mod PowerOfTwo
use quark_os.Prelude.{
  ℕ, zero, suc, ◌+◌, ◌-◌, ◌*◌, ◌/◌, ◌%◌, ◌^◌, bit_and, bit_or, Bool, Option, none, some, ◌==◌,
  if◌then◌else◌,
}

-- IS_POWER_OF_2; `x - 1` wraps at 0, where the conjunction is 0 all the same.
abbrev pub is_power_of_2 : ℕ → Bool
is_power_of_2 x = bit_and x ((x + 2 ^ 32 - 1) % 2 ^ 32) == 0

-- `size |= size >> k`
abbrev pub smear : ℕ → ℕ → ℕ
smear k size = bit_or size (size / 2 ^ k)

unfoldable pub smeared : ℕ → ℕ
smeared size = smear 16 (smear 8 (smear 4 (smear 2 (smear 1 size))))

unfoldable pub fix_size : ℕ → ℕ
fix_size size = if is_power_of_2 size then size else (smeared size + 1) % 2 ^ 32

-- `while (val != 1) { cnt++; val >>= 1; }`; the counter is a byte. `none` is running out of rounds.
unfoldable pub log2_loop : ℕ → ℕ → ℕ → Option ℕ
log2_loop zero val cnt = none
log2_loop (suc fuel) val cnt =
    let rest = log2_loop fuel (val / 2) ((cnt + 1) % 2 ^ 8) in if val == 1 then some cnt else rest

-- The argument is a `uint16_t`, so sixteen rounds see every bit of it.
unfoldable pub log2 : ℕ → Option ℕ
unfolding log2_loop
log2 val = log2_loop 16 (val % 2 ^ 16) 0
