-- ===== src/Mm/Uvm/Tests.antt =====
-- A new page directory, an area of two pages, and the theorems there.
use quark_os.Mm.Uvm.{Tables, VmArea, vm_map_area}
use quark_os.Mm.Uvm.View.{IsTables}
use quark_os.Mm.Uvm.Translate.{MapsTo, vm_map_area-MapsTo}
use quark_os.Prelude.{true, some, [], ◌∷◌, ◌≡◌, refl, arith}

-- The directory is at 0x1000, and tables come from 0x2000 and 0x3000 on.
abbrev new_tables : Tables
new_tables = record { table = λ t i. 0; fresh = 0x2000 ∷ 0x3000 ∷ [] }

abbrev text_area : VmArea
text_area = record { va = 0x3ff000; size = 5000; flag = 5 }

new_tables-IsTables : IsTables (λ t. true) new_tables 0x1000
new_tables-IsTables = record {
  tables_managed = λ i p. refl;
  tables_apart = λ i j p q e. ground (arith, p);
  tables_not_pgdir = λ i p e. ground (arith, p);
  fresh_free = λ t m. record {
    is_managed = refl;
    aligned = ground (arith, m);
    word = ground (arith, m);
    not_pgdir = ground (arith, m);
    not_table = λ i p e. ground (arith, p);
  };
  fresh_distinct = (refl, (refl, tt));
}

vm_map_area-MapsTo_example :
    (s : Tables) × ((vm_map_area 3 (λ t. true) new_tables text_area 0x800000 0x1000 ≡ some s)
      × MapsTo (λ t. true) new_tables text_area 0x800000 0x1000 s)
vm_map_area-MapsTo_example =
    vm_map_area-MapsTo 3 (λ t. true) new_tables text_area 0x800000 0x1000 (omega arith)
      (omega arith) new_tables-IsTables (λ v a b. refl) (omega arith) (omega arith) refl refl
      (omega arith)
