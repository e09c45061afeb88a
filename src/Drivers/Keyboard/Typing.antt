-- ===== src/Drivers/Keyboard/Typing.antt =====
-- kernel/terminal.c: what it takes to type a character. The make code of a key comes first, and its
-- break code, which is 0xf0 and the make code again, when the key is let go.
use mathlib.Core.Option.{some-injective}
use quark_os.Drivers.Keyboard.{
  Terminal, KbStatus, q_append, kb_sc_parse, kb_press_handle, kb_release_handle, key_table,
  press_type, release_type, kb_key_type, char,
}
use quark_os.Drivers.Keyboard.Codes.{knull, f1, ascii_non_shift1, ascii_shift1}
use quark_os.Prelude.{
  ℕ, zero, suc, Bool, true, false, not, ◌&&◌, ◌||◌, Option, some, List, [], ◌∷◌, ltb, ◌==◌, ◌!=◌,
  if◌then◌else◌, ◌>>=◌, ◌≡◌, refl, ◌≢◌, get_elem?, arith,
}

-- Scan codes parsed in turn
pub parse_all : Terminal → List ℕ → Option Terminal
parse_all t [] = some t
parse_all t (c ∷ cs) = kb_sc_parse t c >>= λ t'. parse_all t' cs

-- A key of a table that is a character
abbrev pub is_char : ℕ → Bool
is_char r = r != knull && ltb r f1

-- Where the first table has a character, so has the second.
pub all_chars : List ℕ → List ℕ → Bool
all_chars [] ss = true
all_chars (r ∷ rs) [] = false
all_chars (r ∷ rs) (s ∷ ss) = (not (is_char r) || is_char s) && all_chars rs ss

pub all_chars-char :
    (rs ss : List ℕ)
    → all_chars rs ss ≡ true
    → (i r : ℕ) → get_elem? rs i ≡ some r
    → is_char r ≡ true
    → (s : ℕ) × ((get_elem? ss i ≡ some s) × (is_char s ≡ true))
unfolding all_chars
all_chars-char [] ss h i r e c = cc
all_chars-char (q ∷ rs) [] h i r e c = cc
all_chars-char (q ∷ rs) (s ∷ ss) h zero r e c =
    (s, (refl, ground (arith, h, c, some-injective _ _ e)))
all_chars-char (q ∷ rs) (s ∷ ss) h (suc i) r e c =
    let h' : all_chars rs ss ≡ true = ground (arith, h) in all_chars-char rs ss h' i r e c

-- No key but those of the modifiers is held, and no prefix has come.
pub record Idle (k : KbStatus) (shift : Bool) : Type 0 where
  pub no_e0 : k.e0 ≡ false
  pub no_f0 : k.f0 ≡ false
  pub shifted : (k.l_shift || k.r_shift) ≡ shift

abbrev pub char_table : Bool → List ℕ
char_table shift = if shift then ascii_shift1 else ascii_non_shift1

pub char_table-shift :
    (shift : Bool) (code r : ℕ)
    → get_elem? (char_table shift) code ≡ some r
    → is_char r ≡ true
    → (s : ℕ) × ((get_elem? ascii_shift1 code ≡ some s) × (is_char s ≡ true))
unfolding all_chars ascii_non_shift1 ascii_shift1
char_table-shift true code r e c = (r, (e, c))
char_table-shift false code r e c = all_chars-char ascii_non_shift1 ascii_shift1 refl code r e c

pub kb_key_type-char : (r : ℕ) → is_char r ≡ true → kb_key_type r ≡ char
unfolding kb_key_type
kb_key_type-char r c = ground (arith, c)

pub kb_press_handle-char :
    (t : Terminal) (r : ℕ)
    → is_char r ≡ true
    → kb_press_handle t r
      ≡ record t { kb_buf = q_append t.kb_buf r; status = record t.status { e0 = false } }
unfolding kb_press_handle press_type
kb_press_handle-char t r c = rw (kb_key_type-char r c) refl

pub kb_release_handle-char :
    (t : Terminal) (r : ℕ)
    → is_char r ≡ true
    → kb_release_handle t r ≡ record t { status = record t.status { e0 = false; f0 = false } }
unfolding kb_release_handle release_type
kb_release_handle-char t r c = rw (kb_key_type-char r c) refl

pub kb_sc_parse-code :
    (t : Terminal) (code r : ℕ)
    → code ≢ 0xe0
    → code ≢ 0xf0
    → get_elem? (key_table t.status) code ≡ some r
    → (r != knull) ≡ true
    → kb_sc_parse t code ≡ some (if t.status.f0 then kb_release_handle t r else kb_press_handle t r)
unfolding kb_sc_parse
kb_sc_parse-code t code r ne nf e c =
    let a : (code == 0xe0) ≡ false = ground (arith, ne) in
    let b : (code == 0xf0) ≡ false = ground (arith, nf) in rw (a, b, e, c) refl

pub kb_sc_parse-f0 :
    (t : Terminal) → kb_sc_parse t 0xf0 ≡ some (record t { status = record t.status { f0 = true } })
unfolding kb_sc_parse
kb_sc_parse-f0 t = refl

pub key_table-Idle : (k : KbStatus) (shift : Bool) → Idle k shift → key_table k ≡ char_table shift
unfolding key_table
key_table-Idle k shift i =
    let a = i.no_e0 in let b = i.no_f0 in let c = i.shifted in rw (a, b, c) refl
