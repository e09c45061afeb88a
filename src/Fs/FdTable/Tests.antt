-- ===== src/Fs/FdTable/Tests.antt =====
-- Two open files, and the theorems there.
use quark_os.Prelude.{ℕ, ◌+◌, ◌-◌, ◌%◌, ◌≡◌, ◌≢◌, refl, arith, Option, some, none}
use quark_os.Fs.FdTable.{
  Hash, empty_hash, hash_generate, hash_conflict, insert_loop, hash_insert, findf_loop, hash_findf,
  free_fd, alloc_loop, alloc_found, alloc_fd, get_inode,
}
use quark_os.Fs.FdTable.Invariant.{IsConsistent}
use quark_os.Fs.FdTable.Alloc.{Allocates, alloc_fd-Allocates}
use quark_os.Fs.FdTable.Free.{free_fd_total}
use quark_os.Fs.FdTable.Progress.{alloc_fd_total}

abbrev first_inode : ℕ
first_inode = 0xc0001000

-- It hashes to the same entry.
abbrev second_inode : ℕ
second_inode = first_inode + 1031

empty-IsConsistent : IsConsistent empty_hash
empty-IsConsistent = record {
  slot_bound = λ j used. absurd (used refl);
  slot = λ j used. absurd (used refl);
  unique = λ i j used same. absurd (used refl);
  file = λ fd small used. absurd (used refl);
}

-- The result of `alloc_fd`, where there is one.
opened_or : Hash → Option (ℕ × Hash) → ℕ × Hash
opened_or h none = (0, h)
opened_or h (some r) = r

one : ℕ × Hash
unfolding alloc_fd alloc_found alloc_loop hash_findf findf_loop hash_generate hash_insert
    insert_loop opened_or
one = opened_or empty_hash (alloc_fd empty_hash first_inode)

opens_one : alloc_fd empty_hash first_inode ≡ some (one.0, one.1)
unfolding one alloc_fd alloc_found alloc_loop hash_findf findf_loop hash_generate hash_insert
    insert_loop opened_or
opens_one = refl

alloc_fd-Allocates_example : Allocates empty_hash first_inode one.0 one.1
alloc_fd-Allocates_example =
    alloc_fd-Allocates empty_hash first_inode one.0 empty-IsConsistent opens_one

one-IsConsistent : IsConsistent one.1
one-IsConsistent =
    (alloc_fd-Allocates empty_hash first_inode one.0 empty-IsConsistent opens_one).consistent

one_used : get_inode one.1 0 ≢ 0
unfolding one alloc_fd alloc_found alloc_loop hash_findf findf_loop hash_generate hash_insert
    insert_loop opened_or get_inode
one_used = ground arith

free_fd_total_example :
    (h' : Hash) × (free_fd one.1 0 ≡ some h')
    × IsConsistent h'
    × (get_inode h' 0 ≡ 0)
    × ((k : ℕ) → k ≢ 0 → get_inode h' k ≡ get_inode one.1 k)
free_fd_total_example = free_fd_total one.1 0 one-IsConsistent (omega arith) one_used

one_free :
    (one.1.file_table 1 ≡ 0)
    × (one.1.key (hash_conflict ((second_inode - 0xc0000000) % 1031) 1) ≡ 0)
unfolding one alloc_fd alloc_found alloc_loop hash_findf findf_loop hash_generate hash_insert
    insert_loop opened_or
one_free = (refl, refl)

alloc_fd_total_example : (r : ℕ × Hash) × (alloc_fd one.1 second_inode ≡ some r)
alloc_fd_total_example =
    alloc_fd_total one.1 second_inode 1 1 (omega arith) (omega arith) one_free.0 (omega arith)
      one_free.1
