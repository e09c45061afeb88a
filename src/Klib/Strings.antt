-- ===== src/Klib/Strings.antt =====
-- kernel/lib/qstring.c: memory and strings. Memory is the byte at each address; a loop is given the
-- number of rounds that it may take, and NULL is 0.
pub mod Memory
pub mod Length
pub mod Equality
pub mod Reverse
pub mod Printing
mod Tests
use quark_os.Prelude.{
  ℕ, zero, suc, ◌+◌, ◌-◌, ◌/◌, ◌%◌, ◌^◌, ltb, Bool, true, false, Option, none, some, ◌==◌, ◌!=◌,
  ◌&&◌, if◌then◌else◌, ◌>>=◌, ◌>>◌, assertk, store,
}

-- `while (str[len]) len++`
pub strlen_loop : ℕ → (ℕ → ℕ) → ℕ → ℕ → Option ℕ
strlen_loop zero mem str len = none
strlen_loop (suc fuel) mem str len =
    let rest = strlen_loop fuel mem str (len + 1) in if mem (str + len) != 0 then rest else some len

pub strlen : ℕ → (ℕ → ℕ) → ℕ → Option ℕ
unfolding strlen_loop
strlen fuel mem str = do assertk (str != 0); strlen_loop fuel mem str 0

-- The loop of `memcmp` from index `i`, with `n` bytes left.
pub memcmp_loop : (ℕ → ℕ) → ℕ → ℕ → ℕ → ℕ → Bool
memcmp_loop mem s1 s2 zero i = true
memcmp_loop mem s1 s2 (suc n) i =
    let rest = memcmp_loop mem s1 s2 n (i + 1) in
    if mem (s1 + i) != mem (s2 + i) then false else rest

pub memcmp : (ℕ → ℕ) → ℕ → ℕ → ℕ → Option Bool
unfolding memcmp_loop
memcmp mem s1 s2 len = do assertk (s1 != 0 && s2 != 0); some (memcmp_loop mem s1 s2 len 0)

pub strcmp : ℕ → (ℕ → ℕ) → ℕ → ℕ → Option Bool
unfolding strlen memcmp
strcmp fuel mem s1 s2 = do
  assertk (s1 != 0 && s2 != 0)
  len ← strlen fuel mem s1
  memcmp mem s1 s2 (len + 1)

-- The loop of `memcpy` from index `i`, with `n` bytes left.
pub memcpy_loop : (ℕ → ℕ) → ℕ → ℕ → ℕ → ℕ → (ℕ → ℕ)
memcpy_loop mem dest src zero i = mem
memcpy_loop mem dest src (suc n) i =
    memcpy_loop (store mem (dest + i) (mem (src + i))) dest src n (i + 1)

pub memcpy : (ℕ → ℕ) → ℕ → ℕ → ℕ → (ℕ → ℕ)
unfolding memcpy_loop
memcpy mem dest src n = memcpy_loop mem dest src n 0

pub memset_loop : (ℕ → ℕ) → ℕ → ℕ → ℕ → ℕ → (ℕ → ℕ)
memset_loop mem s c zero i = mem
memset_loop mem s c (suc n) i = memset_loop (store mem (s + i) (c % 2 ^ 8)) s c n (i + 1)

pub memset : (ℕ → ℕ) → ℕ → ℕ → ℕ → Option (ℕ → ℕ)
unfolding memset_loop
memset mem s c n = do assertk (s != 0); some (memset_loop mem s c n 0)

pub bzero : (ℕ → ℕ) → ℕ → ℕ → Option (ℕ → ℕ)
unfolding memset
bzero mem s n = memset mem s 0 n

-- The loop of `strncat` from index `is`, with `n` rounds left; the index `id` after it too.
pub strncat_loop : (ℕ → ℕ) → ℕ → ℕ → ℕ → ℕ → ℕ → ℕ × (ℕ → ℕ)
strncat_loop mem dest src zero is id = (id, mem)
strncat_loop mem dest src (suc n) is id =
    let rest = strncat_loop (store mem (dest + id) (mem (src + is))) dest src n (is + 1) (id + 1) in
    if mem (src + is) == 0 then (id, mem) else rest

pub strncat : ℕ → (ℕ → ℕ) → ℕ → ℕ → ℕ → Option (ℕ → ℕ)
unfolding strlen strncat_loop
strncat fuel mem dest src n = do
  assertk (dest != 0 && src != 0)
  id ← strlen fuel mem dest
  let r = strncat_loop mem dest src n 0 id
  some (store r.1 (dest + r.0) 0)

pub strcat : ℕ → (ℕ → ℕ) → ℕ → ℕ → Option (ℕ → ℕ)
unfolding strlen strncat
strcat fuel mem dest src = do
  assertk (dest != 0 && src != 0)
  len ← strlen fuel mem src
  strncat fuel mem dest src len

-- The loop of `str_reverse`.
pub reverse_loop : ℕ → (ℕ → ℕ) → ℕ → ℕ → ℕ → Option (ℕ → ℕ)
reverse_loop zero mem s i j = none
reverse_loop (suc fuel) mem s i j =
    let temp = mem (s + i) in
    let mem' = store mem (s + i) (mem (s + j)) in
    let rest = reverse_loop fuel (store mem' (s + j) temp) s (i + 1) (j - 1) in
    if ltb i j then rest else some mem

-- `li` is the index of the last character.
pub str_reverse : (ℕ → ℕ) → ℕ → ℕ → Option (ℕ → ℕ)
unfolding reverse_loop
str_reverse mem s li = do assertk (s != 0); reverse_loop (li + 1) mem s 0 li

-- `'0' + d`, and the entry of the table of `hex`
abbrev pub decimal_digit : ℕ → ℕ
decimal_digit d = d + 48

abbrev pub hex_digit : ℕ → ℕ
hex_digit d = if ltb d 10 then d + 48 else d + 87

-- The loops of `utoa` and `hex`, which differ in the base and the digits; the index is a byte.
pub digit_loop : ℕ → ℕ → (ℕ → ℕ) → (ℕ → ℕ) → ℕ → ℕ → ℕ → Option (ℕ × (ℕ → ℕ))
digit_loop zero base digit mem str value i = none
digit_loop (suc fuel) base digit mem str value i =
    let mem' = store mem (str + i) (digit (value % base)) in
    let i' = (i + 1) % 2 ^ 8 in
    let rest = digit_loop fuel base digit mem' str (value / base) i' in
    if value / base != 0 then rest else some (i', mem')

-- A 64-bit value has at most 20 decimal digits and 16 hexadecimal ones.
pub print_number : ℕ → (ℕ → ℕ) → (ℕ → ℕ) → ℕ → ℕ → Option (ℕ → ℕ)
unfolding digit_loop str_reverse
print_number base digit mem value str = do
  assertk (str != 0)
  (i, mem') ← digit_loop 20 base digit mem str value 0
  str_reverse (store mem' (str + i) 0) str (i - 1)

pub utoa : (ℕ → ℕ) → ℕ → ℕ → Option (ℕ → ℕ)
unfolding print_number
utoa mem value str = print_number 10 decimal_digit mem value str

pub hex : (ℕ → ℕ) → ℕ → ℕ → Option (ℕ → ℕ)
unfolding print_number
hex mem n str = print_number 16 hex_digit mem n str
