-- ===== src/Fs/FdTable/Free.antt =====
-- `free_fd` of kernel/fs/hash.c.
use quark_os.Prelude.{ℕ, ◌<◌, ◌≡◌, ◌≢◌, refl, some, arith, store}
use quark_os.Fs.FdTable.{Hash, file_table_size, free_fd, get_inode}
use quark_os.Fs.FdTable.Invariant.{IsConsistent, Found, findf-key, findf-store}
use quark_os.Fs.FdTable.Alloc.{findf-file_table}

-- the tables without descriptor `fd`, whose entry is `index`
abbrev closed : Hash → ℕ → ℕ → Hash
closed h index fd = record h { key = store h.key index 0; file_table = store h.file_table fd 0 }

module _ (h : Hash) (fd : ℕ) (ok : IsConsistent h) (small : fd < file_table_size)
    (used : h.file_table fd ≢ 0) where
  entry : Found h (h.file_table fd) fd
  entry = ok.file fd small used

  at : h.key entry.index ≡ h.file_table fd
  at = findf-key h (h.file_table fd) entry.lookup

  closed_slot :
      (j : ℕ)
      → store h.key entry.index 0 j ≢ 0
      → (h.value j < file_table_size)
        × (store h.file_table fd 0 (h.value j) ≡ store h.key entry.index 0 j)
  closed_slot j live =
      ground (arith, ok.slot j, ok.slot_bound j, ok.unique j entry.index, at, entry.holds)

  other_file :
      (k : ℕ)
      → k < file_table_size
      → k ≢ fd
      → h.file_table k ≢ 0
      → Found (closed h entry.index fd) (h.file_table k) k
  other_file k hk ne live =
      let old = ok.file k hk live in
      record {
        index = old.index;
        lookup =
            findf-store h (closed h entry.index fd) entry.index 0 (h.file_table k) refl
              (λ same. ground (arith, entry.lookup, old.lookup, at, same, entry.holds, old.holds))
              (ground arith) old.lookup;
        holds = old.holds;
      }

  closed_file :
      (k : ℕ)
      → k < file_table_size
      → store h.file_table fd 0 k ≢ 0
      → Found (closed h entry.index fd) (store h.file_table fd 0 k) k
  closed_file k hk live =
      let ne : k ≢ fd = λ e. live (ground arith) in
      let old = other_file k hk ne (ground arith) in
      record { index = old.index; lookup = ground (arith, old.lookup); holds = old.holds }

  closed-IsConsistent : IsConsistent (closed h entry.index fd)
  closed-IsConsistent = record {
    slot_bound = λ j live. (closed_slot j live).0;
    slot = λ j live. (closed_slot j live).1;
    unique = λ i j live same. ground (arith, ok.unique i j);
    file = closed_file;
  }

-- From consistent tables, freeing an open descriptor below 1024 never panics. Afterwards the descriptor is free, every other one names
-- the inode that it named, and the tables are consistent.
pub free_fd_total :
    (h : Hash) (fd : ℕ)
    → IsConsistent h
    → fd < file_table_size
    → get_inode h fd ≢ 0
    → (h' : Hash) × (free_fd h fd ≡ some h')
      × IsConsistent h'
      × (get_inode h' fd ≡ 0)
      × ((k : ℕ) → k ≢ fd → get_inode h' k ≡ get_inode h k)
unfolding free_fd get_inode
free_fd_total h fd ok small used =
    let at = entry h fd ok small used in
    (
      closed h at.index fd,
      ground (arith, at.lookup, findf-file_table h (store h.file_table fd 0) (h.file_table fd)),
      closed-IsConsistent h fd ok small used,
      ground arith,
      λ k ne. ground arith,
    )
