-- ===== src/Drivers/Screen/Cursor.antt =====
-- kernel/drivers/vga.c: where the cursor is, and what writing a character does to the screen.
use quark_os.Drivers.Screen.{
  Screen, buf_index, newline, vga_width, vga_height, vga_space, vga_entry, vga_set_buf, inc_col,
  inc_row, dec_row, dec_col, vga_scroll_up, vga_clean_line, vga_put_char, move_cells,
}
use quark_os.Drivers.Screen.Cells.{memset16-cell, move_cells-cell}
use quark_os.Prelude.{
  ℕ, ◌+◌, ◌<◌, ◌≤◌, ltb, if◌then◌else◌, ◌≡◌, refl, ◌≢◌, store, if-elim, arith, ◌==◌,
}

-- The cursor is in a row and a column of the screen.
pub record OnScreen (s : Screen) : Type 0 where
  pub row_lt : s.row < vga_height
  pub col_lt : s.col < vga_width

pub inc_row-OnScreen : (s : Screen) → OnScreen s → OnScreen (inc_row s)
unfolding inc_row vga_scroll_up vga_clean_line
inc_row-OnScreen s o =
    let r = o.row_lt in record { row_lt = ground (arith, r); col_lt = omega arith }

pub inc_col-OnScreen : (s : Screen) → OnScreen s → OnScreen (inc_col s)
unfolding inc_col
inc_col-OnScreen s o =
    let r = o.row_lt in
    let c = o.col_lt in
    if-elim OnScreen (s.col + 1 == vga_width) (λ e. inc_row-OnScreen s o)
      (λ e. record { row_lt = r; col_lt = ground (arith, c, e) })

pub dec_col-OnScreen : (s : Screen) → OnScreen s → OnScreen (dec_col s)
unfolding dec_col dec_row
dec_col-OnScreen s o =
    let r = o.row_lt in
    let c = o.col_lt in
    if-elim OnScreen (s.col == 0)
      (λ e.
        if-elim OnScreen (s.row == 0) (λ f. o)
          (λ f. record { row_lt = omega (arith, r); col_lt = omega arith }))
      (λ e. record { row_lt = r; col_lt = omega (arith, c) })

pub vga_put_char-OnScreen : (s : Screen) (c : ℕ) → OnScreen s → OnScreen (vga_put_char s c)
unfolding vga_put_char vga_set_buf
vga_put_char-OnScreen s c o =
    let r = o.row_lt in
    let l = o.col_lt in
    if-elim OnScreen (c == newline) (λ e. inc_row-OnScreen s o)
      (λ e. inc_col-OnScreen _ (record { row_lt = r; col_lt = l }))

pub vga_scroll_up-cell :
    (s : Screen) (k : ℕ)
    → (vga_scroll_up s).cells k
      ≡ (if ltb k 1920 then s.cells (k + 80) else if ltb k 2000 then vga_space s else s.cells k)
unfolding vga_scroll_up vga_clean_line
vga_scroll_up-cell s k =
    let f = memset16-cell (move_cells s.cells 0 80 1920) 1920 (vga_space s) 80 k in
    let m = move_cells-cell s.cells 0 80 80 1920 k refl in ground (arith, f, m)

-- The cell of the cursor
abbrev pub cursor_cell : Screen → ℕ
cursor_cell s = buf_index s.col s.row

-- The cells of `s` with `c` at the cursor
abbrev pub written_cells : Screen → ℕ → ℕ → ℕ
written_cells s c = store s.cells (cursor_cell s) (vga_entry c s.color)

-- What writing a character that is not a line end does: the character goes to the cell of the cursor
-- and the cursor goes on to the next cell. After the last cell all lines move up by one.
pub record Writes (s : Screen) (c : ℕ) (r : Screen) : Type 0 where
  pub on_screen : OnScreen r
  pub next : cursor_cell r ≡ (if cursor_cell s + 1 == 2000 then 1920 else cursor_cell s + 1)
  pub cell :
      (k : ℕ)
      → k < 2000
      → r.cells k ≡ (
          if cursor_cell s + 1 == 2000
          then (if ltb k 1920 then written_cells s c (k + 80) else vga_space s)
          else written_cells s c k)
  pub outside : (k : ℕ) → 2000 ≤ k → r.cells k ≡ s.cells k

pub vga_scroll_up-row : (s : Screen) → (vga_scroll_up s).row ≡ s.row
unfolding vga_scroll_up vga_clean_line
vga_scroll_up-row s = refl

-- `w` is the screen with the character written.
pub inc_row-Writes :
    (s : Screen) (c : ℕ)
    → OnScreen s
    → s.col + 1 ≡ vga_width
    → Writes s c (inc_row (vga_set_buf s c))
unfolding vga_set_buf inc_row
inc_row-Writes s c o e =
    let w = vga_set_buf s c in
    let r = o.row_lt in
    let row = vga_scroll_up-row w in
    let on = inc_row-OnScreen w (record { row_lt = r; col_lt = o.col_lt }) in
    if-elim (λ s'. OnScreen (record s' { col = 0 }) → Writes s c (record s' { col = 0 }))
      (w.row + 1 == vga_height)
      (λ f on. record {
        on_screen = on;
        next = ground (arith, e, f, row);
        cell = λ k lt. let g = vga_scroll_up-cell w k in ground (arith, g, e, f, lt);
        outside = λ k le. let g = vga_scroll_up-cell w k in ground (arith, g, e, f, le);
      })
      (λ f on. record {
        on_screen = on;
        next = ground (arith, e, f, r);
        cell = λ k lt. ground (arith, e, f, lt, r);
        outside = λ k le. ground (arith, e, f, le, r);
      })
      on

-- A character other than a line end is written at the cursor, and the cursor goes on; the screen
-- moves up by a line after its last cell, and nothing past the screen's memory is written.
pub vga_put_char-Writes :
    (s : Screen) (c : ℕ) → OnScreen s → c ≢ newline → Writes s c (vga_put_char s c)
unfolding vga_put_char vga_set_buf inc_col
vga_put_char-Writes s c o ne =
    let r = o.row_lt in
    let l = o.col_lt in
    if-elim (Writes s c) (c == newline) (λ e. ground (arith, e, ne))
      (λ e.
        if-elim (Writes s c) (s.col + 1 == vga_width)
          (λ f. inc_row-Writes s c o (ground (arith, f)))
          (λ f. record {
            on_screen = record { row_lt = r; col_lt = ground (arith, f, l) };
            next = ground (arith, f, r, l);
            cell = λ k lt. ground (arith, f, r, l, lt);
            outside = λ k le. ground (arith, f, r, l, le);
          }))
