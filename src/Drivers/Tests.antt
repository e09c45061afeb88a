-- ===== src/Drivers/Tests.antt =====
-- The screen and the keyboard on a few inputs, and their theorems there.
use quark_os.Drivers.Keyboard.{KbStatus, KbQueue, Terminal}
use quark_os.Drivers.Keyboard.Ring.{
  IsQueue, Use, typed, taken, use_ring, use_queue, use_ring-use_queue, Fits,
}
use quark_os.Drivers.Screen.{Screen, vga_put_char}
use quark_os.Drivers.Screen.Cursor.{Writes, vga_put_char-Writes}
use quark_os.Prelude.{true, false, List, [], ◌∷◌, ◌≡◌, ◌%◌, refl, arith}

-- A screen with the cursor on the last cell
abbrev last_cell : Screen
last_cell = record {
  row = 24;
  col = 79;
  color = 7;
  cells = λ i. i % 2000;
  shown_low = 0;
  shown_high = 0;
}

vga_put_char-Writes_example : Writes last_cell 65 (vga_put_char last_cell 65)
vga_put_char-Writes_example =
    vga_put_char-Writes last_cell 65 (record { row_lt = omega arith; col_lt = omega arith })
      (omega arith)

abbrev empty_ring : KbQueue
empty_ring = record { buffer = λ i. 0; header = 255; tail = 255 }

-- The ring wraps around.
abbrev uses : List Use
uses = typed 65 ∷ typed 66 ∷ taken ∷ taken ∷ taken ∷ []

use_ring-use_queue_example :
    ((use_ring empty_ring uses).0 ≡ (use_queue [] uses).0)
    × IsQueue (use_ring empty_ring uses).1 (use_queue [] uses).1
unfolding Fits
use_ring-use_queue_example =
    use_ring-use_queue uses empty_ring []
      (record { header_lt = omega arith; room = omega arith; tail_at = refl; holds = tt })
      (omega arith, (omega arith, tt))

-- The left shift key is held.
abbrev shift_held : KbStatus
shift_held = record {
  e0 = false;
  f0 = false;
  l_shift = true;
  r_shift = false;
  l_ctrl = false;
  r_ctrl = false;
  l_gui = false;
  l_alt = false;
  r_alt = false;
  num_lk = false;
  caps_lk = false;
  scroll_lk = false;
}

abbrev terminal : Terminal
terminal = record { status = shift_held; kb_buf = empty_ring; screen = last_cell }
