-- ===== src/Fs/Ext2/Directory/Tests.antt =====
-- Concrete runs of kernel/fs/ext2/dir.c.
use quark_os.Fs.Ext2.Directory.{DirEntry, Block, create_loop, find_entry_loop, remove_loop}
use quark_os.Fs.Ext2.Directory.Tiles.{Tiles, live, Crowded}
use quark_os.Fs.Ext2.Directory.Create.{create_loop_lem}
use quark_os.Fs.Ext2.Directory.Remove.{find_entry_loop_lem, remove_loop_lem, lookup}
use quark_os.Klib.Strings.Equality.{same}
use quark_os.Prelude.{ℕ, ◌≡◌, refl, ◌⊎◌, true, false, List, [], ◌∷◌, ◌++◌, some, none, arith}

-- `a`, with all of a block of 64 bytes
abbrev only : DirEntry
only = record { inode = 5; entry_size = 64; name_len = 1; type = 1; name = 97 ∷ [] }

abbrev block : Block
block o = only

block-Tiles : Tiles block 0 64 (only ∷ [])
block-Tiles =
    (refl, record { big = omega arith; room = λ ne. omega arith; counted = λ ne. refl }, refl)

create_loop_lem_example :
    ((create_loop 65 block 0 64 64 7 (98 ∷ []) 1 ≡ some (false, block)) × Crowded 12 (only ∷ []))
    ⊎ ((b' : Block) × ((left : List DirEntry) × ((xs : List (List ℕ × ℕ)) × ((ys : List
                (List ℕ × ℕ))
              × (create_loop 65 block 0 64 64 7 (98 ∷ []) 1 ≡ some (true, b'))
              × Tiles b' 0 64 left
              × (live (only ∷ []) ≡ xs ++ ys)
              × (live left ≡ xs ++ ((98 ∷ [], 7) ∷ ys))))))
create_loop_lem_example =
    create_loop_lem block 7 1 64 (98 ∷ []) (only ∷ []) block-Tiles (λ e. absurd (omega (arith, e)))
      (omega arith) (omega arith)

find_entry_loop_lem_example : find_entry_loop 65 block 0 64 (97 ∷ []) ≡ some (some 5)
find_entry_loop_lem_example =
    find_entry_loop_lem 65 block 0 64 (97 ∷ []) (only ∷ []) block-Tiles (omega arith)

remove_loop_lem_example :
    ((remove_loop 65 block 0 64 64 (97 ∷ []) ≡ some (false, block))
      × (lookup (97 ∷ []) (live (only ∷ [])) ≡ none))
    ⊎ ((b' : Block) × ((left : List DirEntry) × ((xs : List (List ℕ × ℕ)) × ((n : List ℕ)
              × ((ino : ℕ) × ((ys : List (List ℕ × ℕ)) × (remove_loop 65 block 0 64 64 (97 ∷ [])
                      ≡ some (true, b'))
                    × Tiles b' 0 64 left
                    × (same (97 ∷ []) n ≡ true)
                    × (lookup (97 ∷ []) xs ≡ none)
                    × (live (only ∷ []) ≡ xs ++ ((n, ino) ∷ ys))
                    × (live left ≡ xs ++ ys)))))))
remove_loop_lem_example = remove_loop_lem block 64 (97 ∷ []) (only ∷ []) block-Tiles (omega arith)
