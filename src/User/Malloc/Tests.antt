-- ===== src/User/Malloc/Tests.antt =====
-- A heap of three chunks, and the theorems there.
use quark_os.User.Malloc.{Heap, heap_magic, malloc, free}
use quark_os.User.Malloc.Chunks.{Chain}
use quark_os.User.Malloc.Fit.{malloc-Chain}
use quark_os.User.Malloc.Join.{free-Chain}
use quark_os.Prelude.{true, false, some, [], ◌∷◌, ◌==◌, if◌then◌else◌, ◌≡◌, refl, arith}

-- At 4096 a used chunk of 32 bytes, then a free one of 64, then a used one of 4000
abbrev three_chunks : Heap
three_chunks = record {
  chunk = λ a.
      if a == 4096
      then record { next = 4128; size = 32; used = true; magic = heap_magic }
      else if a == 4128
      then record { next = 4192; size = 64; used = false; magic = heap_magic }
      else record { next = 0; size = 4000; used = true; magic = heap_magic };
  head = 4096;
  tail = 4192;
}

three_chunks-Chain : Chain three_chunks.chunk 4096 ((32, true) ∷ (64, false) ∷ (4000, true) ∷ [])
three_chunks-Chain = (
  record {
    has_size = refl;
    has_used = refl;
    has_magic = refl;
    has_next = refl;
    not_empty = omega arith;
  },
  (
    record {
      has_size = refl;
      has_used = refl;
      has_magic = refl;
      has_next = refl;
      not_empty = omega arith;
    },
    (
      record {
        has_size = refl;
        has_used = refl;
        has_magic = refl;
        has_next = refl;
        not_empty = omega arith;
      },
      tt,
    ),
  ),
)

-- 7 bytes and a header of 12 take 20.
malloc-Chain_example :
    (h : Heap) × ((malloc 4 three_chunks 0 7 ≡ some (4140, h))
      × ((h.head ≡ 4096)
          × Chain h.chunk 4096 ((32, true) ∷ (20, true) ∷ (44, false) ∷ (4000, true) ∷ [])))
malloc-Chain_example =
    malloc-Chain 4 three_chunks 0 7 64 ((32, true) ∷ []) ((4000, true) ∷ []) (omega arith)
      (omega arith) (omega arith) (omega arith) (omega arith) (refl, tt) three_chunks-Chain

free-Chain_example :
    (h : Heap) × ((free 4 three_chunks 4108 ≡ some h)
      × ((h.head ≡ 4096) × Chain h.chunk 4096 ((96, false) ∷ (4000, true) ∷ [])))
free-Chain_example =
    free-Chain 4 three_chunks 32 [] ((64, false) ∷ []) ((4000, true) ∷ []) (omega arith) (refl, tt)
      refl (omega arith) three_chunks-Chain
