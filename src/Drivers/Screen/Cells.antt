-- ===== src/Drivers/Screen/Cells.antt =====
-- kernel/drivers/vga.c: what filling and moving cells do to each cell.
use quark_os.Drivers.Screen.{memset16, move_cells}
use quark_os.Prelude.{
  ℕ, zero, suc, ◌+◌, leb, ltb, ◌&&◌, if◌then◌else◌, ◌≡◌, ap, inl, inr, store, eq_or_ne, arith,
}

pub memset16-cell :
    (cells : ℕ → ℕ) (i c n k : ℕ)
    → memset16 cells i c n k ≡ (if leb i k && ltb k (i + n) then c else cells k)
unfolding memset16
memset16-cell cells i c zero k = ground arith
memset16-cell cells i c (suc n) k =
    let ih = memset16-cell (store cells i c) (i + 1) c n k in ground (arith, ih)

-- Moving cells to lower places in increasing order reads every cell before it is written.
pub move_cells-cell :
    (cells : ℕ → ℕ) (i j d n k : ℕ)
    → j ≡ i + d
    → move_cells cells i j n k ≡ (if leb i k && ltb k (i + n) then cells (k + d) else cells k)
unfolding move_cells
move_cells-cell cells i j d zero k h = ground arith
move_cells-cell cells i j d (suc n) k h =
    let ih = move_cells-cell (store cells i (cells j)) (i + 1) (j + 1) d n k (omega (arith, h)) in
    elim (eq_or_ne i k) [
      | inl e ↦
          let at : j ≡ k + d = omega (arith, h, e) in
          let f = ap cells at in ground (arith, ih, e, f)
      | inr ne ↦ ground (arith, ih, ne)
    ]
