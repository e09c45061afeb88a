-- ===== src/Drivers/Screen.antt =====
-- kernel/drivers/vga.c: the screen in text mode, 80 columns by 25 rows.
-- A cell of the screen's memory is a 16-bit number, as the code's `terminal_buffer` has it.
pub mod Cells
pub mod Cursor
use quark_os.Prelude.{
  ℕ, zero, suc, ◌+◌, ◌-◌, ◌*◌, ◌/◌, ◌%◌, ◌^◌, leb, Bool, List, [], ◌∷◌, ◌==◌, if◌then◌else◌, store,
}

abbrev pub vga_width : ℕ
vga_width = 80

abbrev pub vga_height : ℕ
vga_height = 25

abbrev pub newline : ℕ
newline = 10

-- `cursor`, `terminal_color`, the cells, and the two bytes that the device holds of its own cursor
pub record Screen : Type 0 where
  pub row : ℕ
  pub col : ℕ
  pub color : ℕ
  pub cells : ℕ → ℕ
  pub shown_low : ℕ
  pub shown_high : ℕ

abbrev pub buf_index : ℕ → ℕ → ℕ
buf_index col row = row * vga_width + col

pub vga_entry_color : ℕ → ℕ → ℕ
vga_entry_color fg bg = (fg % 2 ^ 4 + bg * 2 ^ 4) % 2 ^ 8

-- The two bytes of a cell share no bit, so `|` adds them.
pub vga_entry : ℕ → ℕ → ℕ
vga_entry uc color = uc % 2 ^ 8 + color % 2 ^ 8 * 2 ^ 8

abbrev pub vga_space : Screen → ℕ
vga_space s = vga_entry 32 s.color

-- `memset16` of `n` cells from `i`
pub memset16 : (ℕ → ℕ) → ℕ → ℕ → ℕ → (ℕ → ℕ)
memset16 cells i c zero = cells
memset16 cells i c (suc n) = memset16 (store cells i c) (i + 1) c n

-- `memcpy` of `n` cells from `j` to `i`, the lowest first
pub move_cells : (ℕ → ℕ) → ℕ → ℕ → ℕ → (ℕ → ℕ)
move_cells cells i j zero = cells
move_cells cells i j (suc n) = move_cells (store cells i (cells j)) (i + 1) (j + 1) n

pub vga_set_buf : Screen → ℕ → Screen
vga_set_buf s c = record s { cells = store s.cells (buf_index s.col s.row) (vga_entry c s.color) }

pub vga_clean_line : Screen → ℕ → Screen
vga_clean_line s row = record s {
  cells = memset16 s.cells (buf_index 0 row) (vga_space s) vga_width;
}

pub vga_scroll_up : Screen → Screen
vga_scroll_up s =
    let moved = move_cells s.cells 0 (buf_index 0 1) ((vga_height - 1) * vga_width) in
    vga_clean_line (record s { cells = moved }) (vga_height - 1)

pub set_cursor : Screen → ℕ → ℕ → Screen
set_cursor s row col = record s { row = row; col = col }

pub cursor_row_up : Screen → Screen
cursor_row_up s = record s { row = if s.row == 0 then 0 else s.row - 1 }

pub cursor_row_down : Screen → Screen
cursor_row_down s =
    let nr = (s.row + 1) % 2 ^ 8 in record s { row = if leb vga_height nr then s.row else nr }

pub inc_row : Screen → Screen
inc_row s =
    let up = vga_scroll_up s in
    let s' = if s.row + 1 == vga_height then up else record s { row = (s.row + 1) % 2 ^ 8 } in
    record s' { col = 0 }

pub dec_row : Screen → Screen
dec_row s = if s.row == 0 then s else record s { row = s.row - 1; col = vga_width - 1 }

pub inc_col : Screen → Screen
inc_col s =
    let next = inc_row s in
    if s.col + 1 == vga_width then next else record s { col = (s.col + 1) % 2 ^ 8 }

pub dec_col : Screen → Screen
dec_col s = let last = dec_row s in if s.col == 0 then last else record s { col = s.col - 1 }

-- `__vga_clean`
pub clean_cells : Screen → Screen
clean_cells s = record s { cells = memset16 s.cells 0 (vga_space s) (vga_width * vga_height) }

-- `__vga_cleanc` at the cursor
pub clean_cell : Screen → Screen
clean_cell s = record s { cells = memset16 s.cells (buf_index s.col s.row) (vga_space s) 1 }

-- The ports get the low byte of the position and then the high one.
pub vga_sync_cursor : Screen → Screen
vga_sync_cursor s =
    let pos = buf_index s.col s.row % 2 ^ 16 in
    record s { shown_low = pos % 2 ^ 8; shown_high = pos / 2 ^ 8 % 2 ^ 8 }

pub vga_clean : Screen → Screen
vga_clean s = vga_sync_cursor (clean_cells (set_cursor s 0 0))

-- `vga_init`: light grey on black. What `vga_enable_cursor` tells the device is no part of the state.
pub vga_init : Screen → Screen
vga_init s =
    let s' = record (set_cursor s 0 0) { color = vga_entry_color 7 0 } in
    vga_sync_cursor (clean_cells s')

pub vga_set_color : Screen → ℕ → Screen
vga_set_color s color = record s { color = color }

pub vga_put_char : Screen → ℕ → Screen
vga_put_char s c =
    let line = inc_row s in
    let next = inc_col (vga_set_buf s c) in if c == newline then line else next

pub vga_delete : Screen → Screen
vga_delete s = vga_sync_cursor (clean_cell (dec_col s))

pub vga_cursor_left : Screen → Screen
vga_cursor_left s = vga_sync_cursor (dec_col s)

pub vga_cursor_right : Screen → Screen
vga_cursor_right s = vga_sync_cursor (inc_col s)

pub vga_cursor_up : Screen → Screen
vga_cursor_up s = vga_sync_cursor (cursor_row_up s)

pub vga_cursor_down : Screen → Screen
vga_cursor_down s = vga_sync_cursor (cursor_row_down s)
