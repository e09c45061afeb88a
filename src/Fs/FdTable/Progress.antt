-- ===== src/Fs/FdTable/Progress.antt =====
-- When `alloc_fd` of kernel/fs/hash.c succeeds.
use quark_os.Prelude.{
  ℕ, zero, suc, ◌+◌, ◌-◌, ◌%◌, ◌<◌, ◌≤◌, ◌≡◌, refl, inl, inr, Option, none, some, true, arith, ◌==◌,
  ◌!=◌, store, eq_or_ne, Bool-cases,
}
use quark_os.Fs.FdTable.{
  Hash, file_hash_size, file_table_size, kernel_start, hash_conflict, findf_loop, hash_findf,
  hash_insert, insert_loop, alloc_fd, alloc_loop, alloc_found,
}

insert_loop_total :
    (h : Hash) (base inode fd n i k : ℕ)
    → h.key (hash_conflict base k) ≡ 0
    → i ≤ k
    → k < i + n
    → (h' : Hash) × (insert_loop h base inode fd n i ≡ some h')
unfolding insert_loop
insert_loop_total h base inode fd zero i k free low small = absurd (omega arith)
insert_loop_total h base inode fd (suc n) i k free low small =
    elim (Bool-cases (h.key (hash_conflict base i) == 0)) [
      | inl hit ↦ (
        record h {
          key = store h.key (hash_conflict base i) inode;
          value = store h.value (hash_conflict base i) fd;
        },
        rw hit,
      )
      | inr miss ↦ rw miss (
          insert_loop_total h base inode fd n (i + 1) k free
            (elim (eq_or_ne i k) [ inl e ↦ absurd (ground arith) | inr ne ↦ omega arith ])
            (omega arith))
    ]

hash_insert_total :
    (h : Hash) (inode fd k : ℕ)
    → kernel_start < inode
    → k < 33
    → h.key (hash_conflict ((inode - kernel_start) % file_hash_size) k) ≡ 0
    → (h' : Hash) × (hash_insert h inode fd ≡ some h')
unfolding hash_insert
hash_insert_total h inode fd k real small free =
    let base = (inode - kernel_start) % file_hash_size in
    let (h', e) = insert_loop_total h base inode fd 33 0 k free (omega arith) (omega arith) in
    (h', ground arith)

alloc_loop_total :
    (h : Hash) (inode n i fd k : ℕ)
    → kernel_start < inode
    → k < 33
    → h.key (hash_conflict ((inode - kernel_start) % file_hash_size) k) ≡ 0
    → h.file_table fd ≡ 0
    → i ≤ fd
    → fd < i + n
    → (r : ℕ × Hash) × (alloc_loop h inode n i ≡ some r)
unfolding alloc_loop
alloc_loop_total h inode zero i fd k real small free unused low high = absurd (omega arith)
alloc_loop_total h inode (suc n) i fd k real small free unused low high =
    elim (Bool-cases (h.file_table i == 0)) [
      | inl hit ↦
          let (h', e) =
            hash_insert_total (record h { file_table = store h.file_table i inode }) inode i k real
              small free in
          ((i, h'), rw (hit, e))
      | inr miss ↦ rw miss (
          alloc_loop_total h inode n (i + 1) fd k real small free unused
            (elim (eq_or_ne i fd) [ inl e ↦ absurd (ground arith) | inr ne ↦ omega arith ])
            (omega arith))
    ]

real-ne : (inode : ℕ) → kernel_start < inode → (inode != 0) ≡ true
real-ne inode real = ground arith

alloc_found_total :
    (h : Hash) (inode : ℕ) (entry : Option ℕ) {r : ℕ × Hash}
    → alloc_loop h inode file_table_size 0 ≡ some r
    → (q : ℕ × Hash) × (alloc_found h inode entry ≡ some q)
unfolding alloc_found
alloc_found_total h inode none {r} e = (r, e)
alloc_found_total h inode (some index) e = ((h.value index, h), refl)

hash_findf_real :
    (h : Hash) (inode : ℕ) → kernel_start < inode → (r : Option ℕ) × (hash_findf h inode ≡ some r)
unfolding hash_findf
hash_findf_real h inode real =
    (findf_loop h ((inode - kernel_start) % file_hash_size) inode 33 0, ground arith)

-- `alloc_fd` does not panic for an inode in kernel memory, as long as one descriptor is free and
-- one of the 33 slots on the inode's probe sequence is.
pub alloc_fd_total :
    (h : Hash) (inode fd k : ℕ)
    → kernel_start < inode
    → fd < file_table_size
    → h.file_table fd ≡ 0
    → k < 33
    → h.key (hash_conflict ((inode - kernel_start) % file_hash_size) k) ≡ 0
    → (r : ℕ × Hash) × (alloc_fd h inode ≡ some r)
unfolding alloc_fd
alloc_fd_total h inode fd k real bound unused small free =
    let (r, e) =
      alloc_loop_total h inode file_table_size 0 fd k real small free unused (omega arith) bound in
    let (entry, found) = hash_findf_real h inode real in
    let (q, done) = alloc_found_total h inode entry e in (q, rw (real-ne inode real, found) done)
