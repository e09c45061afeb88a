-- ===== src/Drivers/Keyboard.antt =====
-- kernel/terminal.c with the types of kernel/include/drivers/keyboard.h: the characters that wait for a
-- reader, and what the keyboard's scan codes do. A byte read past the end of a table is no defined value.
pub mod Codes
pub mod Ring
pub mod Typing
use quark_os.Drivers.Keyboard.Codes.{
  knull, f1, f12, esc, capslock, backspace, number_lock, scroll_lock, cursor_left, cursor_down,
  cursor_right, cursor_up, page_up, left_alt, left_ctrl, left_shift, right_alt, right_ctrl,
  right_shift, left_gui, m_www_search, m_media_select, ascii_non_shift1, ascii2, ascii_shift1,
}
use quark_os.Drivers.Screen.{
  Screen, vga_cursor_left, vga_cursor_right, vga_cursor_up, vga_cursor_down, vga_delete,
}
use quark_os.Prelude.{
  ℕ, zero, suc, ◌+◌, ◌%◌, Bool, true, false, not, ◌&&◌, ◌||◌, Option, none, some, ltb, leb, ◌==◌,
  ◌!=◌, if◌then◌else◌, ◌>>=◌, ◌>>◌, assertk, store, get_elem?, List,
}

abbrev pub kb_buffer_size : ℕ
kb_buffer_size = 256

abbrev pub kb_null : ℕ
kb_null = 0

pub record KbQueue : Type 0 where
  pub buffer : ℕ → ℕ
  pub header : ℕ
  pub tail : ℕ

pub kb_clear : KbQueue → KbQueue
kb_clear q = record q { tail = q.header }

pub q_append : KbQueue → ℕ → KbQueue
q_append q c = record q { buffer = store q.buffer q.tail c; tail = (q.tail + 1) % kb_buffer_size }

-- The character, or KB_NULL.
pub q_pop : KbQueue → ℕ × KbQueue
q_pop q =
    if q.header == q.tail
    then (kb_null, q)
    else (q.buffer q.header, record q { header = (q.header + 1) % kb_buffer_size })

-- A key that is held is `true`.
pub record KbStatus : Type 0 where
  pub e0 : Bool
  pub f0 : Bool
  pub l_shift : Bool
  pub r_shift : Bool
  pub l_ctrl : Bool
  pub r_ctrl : Bool
  pub l_gui : Bool
  pub l_alt : Bool
  pub r_alt : Bool
  pub num_lk : Bool
  pub caps_lk : Bool
  pub scroll_lk : Bool

pub data KeyType : Type 0 where
  char : KeyType
  fkey : KeyType
  fn : KeyType
  meta : KeyType
  media : KeyType
  acpi : KeyType

-- `kbStatus`, `kb_buf` and the screen that function keys act on
pub record Terminal : Type 0 where
  pub status : KbStatus
  pub kb_buf : KbQueue
  pub screen : Screen

pub kb_meta : KbStatus → ℕ → Bool → KbStatus
kb_meta k type s =
    if type == left_alt
    then record k { l_alt = s }
    else if type == left_ctrl
    then record k { l_ctrl = s }
    else if type == left_shift
    then record k { l_shift = s }
    else if type == right_alt
    then record k { r_alt = s }
    else if type == right_ctrl
    then record k { r_ctrl = s }
    else if type == right_shift
    then record k { r_shift = s }
    else if type == left_gui
    then record k { l_gui = s }
    else k

pub kb_fn : Terminal → ℕ → Terminal
kb_fn t scancode =
    let k = t.status in
    if scancode == number_lock
    then record t { status = record k { num_lk = not k.num_lk } }
    else if scancode == capslock
    then record t { status = record k { caps_lk = not k.caps_lk } }
    else if scancode == scroll_lock
    then record t { status = record k { scroll_lk = not k.scroll_lk } }
    else if scancode == cursor_left
    then record t { screen = vga_cursor_left t.screen }
    else if scancode == cursor_up
    then record t { screen = vga_cursor_up t.screen }
    else if scancode == cursor_right
    then record t { screen = vga_cursor_right t.screen }
    else if scancode == cursor_down
    then record t { screen = vga_cursor_down t.screen }
    else if scancode == backspace
    then record t { screen = vga_delete t.screen }
    else t

pub kb_key_type : ℕ → KeyType
kb_key_type value =
    if ltb value f1
    then char
    else if leb left_alt value && leb value left_gui
    then meta
    else if leb value page_up && leb esc value
    then fn
    else if leb m_www_search value && leb value m_media_select
    then media
    else if leb value f12 && leb f1 value
    then fkey
    else acpi

-- The switch of `kb_press_handle`
pub press_type : Terminal → ℕ → KeyType → Terminal
press_type t r char = record t { kb_buf = q_append t.kb_buf r }
press_type t r meta = record t { status = kb_meta t.status r true }
press_type t r fn = kb_fn t r
press_type t r fkey = t
press_type t r media = t
press_type t r acpi = t

pub kb_press_handle : Terminal → ℕ → Terminal
kb_press_handle t r =
    press_type (record t { status = record t.status { e0 = false } }) r (kb_key_type r)

-- The switch of `kb_release_handle`
pub release_type : Terminal → ℕ → KeyType → Terminal
release_type t r meta = record t { status = kb_meta t.status r false }
release_type t r char = t
release_type t r fn = t
release_type t r fkey = t
release_type t r media = t
release_type t r acpi = t

pub kb_release_handle : Terminal → ℕ → Terminal
kb_release_handle t r =
    let status = record t.status { e0 = false; f0 = false } in
    release_type (record t { status = status }) r (kb_key_type r)

-- The table that a scan code is looked up in
pub key_table : KbStatus → List ℕ
key_table k =
    if k.f0
    then if k.e0 then ascii2 else ascii_shift1
    else if k.e0
    then ascii2
    else if k.l_shift || k.r_shift
    then ascii_shift1
    else ascii_non_shift1

pub kb_sc_parse : Terminal → ℕ → Option Terminal
kb_sc_parse t scancode =
    let k = t.status in
    let parsed = do
      r ← get_elem? (key_table k) scancode
      assertk (r != knull)
      some (if k.f0 then kb_release_handle t r else kb_press_handle t r)
    in if scancode == 0xe0
      then some (record t { status = record k { e0 = true } })
      else if scancode == 0xf0
      then some (record t { status = record k { f0 = true } })
      else parsed
