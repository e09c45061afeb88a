-- ===== src/Klib/Tests.antt =====
-- The library's routines on small inputs, and its theorems there.
use quark_os.Prelude.{ℕ, ◌+◌, ◌*◌, ◌^◌, ◌≤◌, ◌<◌, ◌≡◌, refl, [], ◌∷◌, arith, if◌then◌else◌}
use quark_os.Klib.Bits.{fix_size}
use quark_os.Klib.Bits.PowerOfTwo.{fix_size_lem}
use quark_os.Klib.Calendar.{CmosTime, utc2stamp}
use quark_os.Klib.Calendar.Stamp.{IsDate, unix_time, gregorian_leap, utc2stamp_lem}
use quark_os.Klib.LinkedList.{Links, list_header_init, list_add_prev, list_del}
use quark_os.Klib.LinkedList.Ring.{IsRing}
use quark_os.Klib.LinkedList.Edit.{list_header_init-IsRing, list_add_prev-IsRing, list_del-IsRing}

fix_size_lem_example :
    (j : ℕ) × (fix_size 5000 ≡ 2 ^ j) × (5000 ≤ fix_size 5000) × (fix_size 5000 < 2 * 5000)
fix_size_lem_example = fix_size_lem 5000 (omega arith) (omega arith)

abbrev party : CmosTime
party = record { second = 30; minute = 59; hour = 23; day = 31; month = 12; year = 2024 }

party-IsDate : IsDate party
party-IsDate = record {
  year_from = omega arith;
  year_to = omega arith;
  month = omega arith;
  day_from = omega arith;
  day_to = omega arith;
  hour = omega arith;
  minute = omega arith;
  second = omega arith;
}

utc2stamp_lem_example :
    utc2stamp party ≡ unix_time party + (if gregorian_leap 2024 then 86400 else 0)
utc2stamp_lem_example = utc2stamp_lem party party-IsDate

-- A list under the head 1 with the nodes 2, 3 and 4.
abbrev nodes : Links
nodes = record { next = λ a. 0; prev = λ a. 0 }

abbrev just_two : Links
just_two = list_add_prev (list_header_init nodes 1) 2 1

abbrev two_three : Links
two_three = list_add_prev just_two 3 1

just_two-IsRing : IsRing just_two 1 (2 ∷ [])
just_two-IsRing =
    list_add_prev-IsRing (list_header_init nodes 1) 1 2 [] (list_header_init-IsRing nodes 1) refl

two_three-IsRing : IsRing two_three 1 (2 ∷ 3 ∷ [])
two_three-IsRing = list_add_prev-IsRing just_two 1 3 (2 ∷ []) just_two-IsRing refl

list_del-IsRing_example : IsRing (list_del two_three 2) 1 (3 ∷ [])
list_del-IsRing_example = list_del-IsRing two_three 1 2 [] (3 ∷ []) two_three-IsRing
