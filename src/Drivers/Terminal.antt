-- ===== src/Drivers/Terminal.antt =====
-- kernel/terminal.c: printing on the screen. `text` is the address of the local array `str` of the
-- functions that print a number; `fuel` bounds the characters of a string.
pub mod Numbers
use quark_os.Drivers.Screen.{Screen, vga_put_char, vga_sync_cursor, vga_clean}
use quark_os.Klib.Strings.{strlen, utoa, hex}
use quark_os.Prelude.{
  ℕ, zero, suc, ◌+◌, ◌-◌, ◌%◌, ◌^◌, ltb, leb, Bool, true, false, ◌&&◌, Option, none, some, List, [],
  ◌∷◌, ◌==◌, if◌then◌else◌, ◌>>=◌, store,
}

-- The loop of `put_string` and `put_strings`, with `n` characters left.
pub put_loop : (ℕ → ℕ) → ℕ → ℕ → Screen → Screen
put_loop mem str zero s = s
put_loop mem str (suc n) s = put_loop mem (str + 1) n (vga_put_char s (mem str))

pub put_strings : (ℕ → ℕ) → ℕ → ℕ → Screen → Screen
put_strings mem str size s = vga_sync_cursor (put_loop mem str size s)

pub put_string : ℕ → (ℕ → ℕ) → ℕ → Screen → Option Screen
put_string fuel mem str s = do size ← strlen fuel mem str; some (put_strings mem str size s)

pub put_char : Screen → ℕ → Screen
put_char s c = vga_sync_cursor (vga_put_char s c)

pub terminal_clear : Screen → Screen
terminal_clear s = vga_clean s

-- A negative `len` asks for a whole string.
pub k_puts : ℕ → (ℕ → ℕ) → ℕ → ℕ → Screen → Option Screen
k_puts fuel mem buf len s =
    if leb (2 ^ 31) len then put_string fuel mem buf s else some (put_strings mem buf len s)

-- Memory and the screen, which printing a number changes
pub record Console : Type 0 where
  pub mem : ℕ → ℕ
  pub screen : Screen

-- `put_string` of what has been written at `text`
pub put_text : ℕ → ℕ → (ℕ → ℕ) → Console → Option Console
put_text fuel text mem c = do
  s ← put_string fuel mem text c.screen
  some (record { mem = mem; screen = s })

-- `num` is a 64-bit number in two's complement.
pub print_d : ℕ → ℕ → Console → ℕ → Option Console
print_d fuel text c num =
    let negative = utoa (store c.mem text b'-') (2 ^ 64 - num) (text + 1) in
    let positive = utoa c.mem num text in
    (if leb (2 ^ 63) num then negative else positive) >>= λ mem. put_text fuel text mem c

pub print_u : ℕ → ℕ → Console → ℕ → Option Console
print_u fuel text c num = utoa c.mem num text >>= λ mem. put_text fuel text mem c

-- `"0x"` at the start of `str`
pub hex_prefix : (ℕ → ℕ) → ℕ → (ℕ → ℕ)
hex_prefix mem text = store (store mem text b'0') (text + 1) b'x'

pub print_hex : ℕ → ℕ → Console → ℕ → Option Console
print_hex fuel text c x = do
  mem ← hex (hex_prefix c.mem text) x (text + 2)
  put_text fuel text mem c

pub print_pointer : ℕ → ℕ → Console → ℕ → Option Console
print_pointer fuel text c p = do
  mem ← hex (hex_prefix c.mem text) p (text + 2)
  put_text fuel text mem c

-- A 32-bit number in two's complement as one of 64 bits
pub sign_extend : ℕ → ℕ
sign_extend num = if leb (2 ^ 31) num then 2 ^ 64 - 2 ^ 32 + num else num

-- `va_arg`: an argument that was not given is no defined value.
pub va_arg : List ℕ → Option (ℕ × List ℕ)
va_arg [] = none
va_arg (a ∷ ap) = some (a, ap)

-- What a conversion letter prints: the index after it, the arguments that are left and the console
abbrev pub Converted : Type 0
Converted = Option (ℕ × (List ℕ × Console))

-- The next argument goes to a printer.
pub convert : (Console → ℕ → Option Console) → ℕ → List ℕ → Console → Converted
convert print i ap c = do (a, ap') ← va_arg ap; c' ← print c a; some (i, (ap', c'))

-- The inner switch, after `%l`; `i` is the index of the letter after it.
pub convert_long : ℕ → ℕ → ℕ → ℕ → List ℕ → Console → Converted
convert_long fuel text str i ap c =
    let letter = c.mem (str + i) in
    if letter == b'd'
    then convert (print_d fuel text) i ap c
    else if letter == b'u'
    then convert (print_u fuel text) i ap c
    else if letter == b'x'
    then convert (print_hex fuel text) i ap c
    else some (i - 1, (ap, c))

-- The outer switch; `i` is the index of the letter after `%`.
pub convert_letter : ℕ → ℕ → ℕ → ℕ → List ℕ → Console → Converted
convert_letter fuel text str i ap c =
    let letter = c.mem (str + i) in
    let put_arg = λ (d : Console) (a : ℕ). do
      s ← put_string fuel d.mem a d.screen
      some (record d { screen = s })
    in let char_arg =
        λ (d : Console) (a : ℕ). some (record d { screen = put_char d.screen (a % 2 ^ 8) }) in
      if letter == b'd'
      then convert (λ d a. print_d fuel text d (sign_extend a)) i ap c
      else if letter == b'u'
      then convert (print_u fuel text) i ap c
      else if letter == b's'
      then convert put_arg i ap c
      else if letter == b'c'
      then convert char_arg i ap c
      else if letter == b'p'
      then convert (print_pointer fuel text) i ap c
      else if letter == b'x'
      then convert (print_hex fuel text) i ap c
      else if letter == b'l'
      then convert_long fuel text str (i + 1) ap c
      else some (i - 1, (ap, record c { screen = put_char c.screen (c.mem (str + (i - 1))) }))

-- The loop of `printfk` from index `i`.
pub printfk_loop : ℕ → ℕ → ℕ → ℕ → ℕ → ℕ → List ℕ → Console → Option Console
printfk_loop zero fuel text str str_len i ap c = none
printfk_loop (suc rounds) fuel text str str_len i ap c =
    let at = c.mem (str + i) in
    let plain = record c { screen = put_char c.screen at } in
    let next_plain = printfk_loop rounds fuel text str str_len (i + 1) ap plain in
    let next_converted = do
      (j, (ap', c')) ← convert_letter fuel text str (i + 1) ap c
      printfk_loop rounds fuel text str str_len (j + 1) ap' c'
    in if leb str_len i
      then some c
      else if at == b'%' && ltb (i + 1) str_len
      then next_converted
      else next_plain

pub printfk : ℕ → ℕ → Console → ℕ → List ℕ → Option Console
printfk fuel text c str ap = do
  str_len ← strlen fuel c.mem str
  printfk_loop (str_len + 1) fuel text str str_len 0 ap c
