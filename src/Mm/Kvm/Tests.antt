-- ===== src/Mm/Kvm/Tests.antt =====
-- The kernel's page table, empty, and its theorems there.
use quark_os.Mm.Kvm.{Kvm, kvm_maps, kvm_unmap3, vm_npres}
use quark_os.Mm.Kvm.Maps.{Free}
use quark_os.Mm.Kvm.Translate.{Maps, v2p-kvm_maps, kvm_unmap3-kvm_maps}
use quark_os.Prelude.{ℕ, [], some, ◌≡◌, refl, arith}

abbrev empty_table : Kvm
empty_table = record { pte = λ k. vm_npres; flushed = [] }

-- Two pages at 0xc0400000, of which 5000 bytes are asked for.
v2p-kvm_maps_example :
    (s : Kvm) × (kvm_maps 3 empty_table 0xc0400000 0x800000 5000 3 ≡ some s)
    × Maps empty_table 0xc0400000 0x800000 5000 s
unfolding Free
v2p-kvm_maps_example =
    v2p-kvm_maps 3 empty_table 0xc0400000 0x800000 5000 3 (omega arith) refl refl (omega arith)
      (omega arith) (omega arith) (omega arith) (λ k a b. refl)

kvm_unmap3-kvm_maps_example :
    (s1 : Kvm) × ((s2 : Kvm) × ((kvm_maps 3 empty_table 0xc0400000 0x800000 8192 3 ≡ some s1)
        × ((kvm_unmap3 3 s1 0xc0400000 8192 ≡ some s2) × ((k : ℕ) → s2.pte k ≡ vm_npres))))
kvm_unmap3-kvm_maps_example =
    kvm_unmap3-kvm_maps 3 empty_table 0xc0400000 0x800000 8192 3 (omega arith) refl refl
      (omega arith) (omega arith) (omega arith) (λ k a b. refl)
