-- ===== src/Fs/FdTable.antt =====
-- kernel/fs/hash.c: the file descriptors. `file_table` maps a descriptor to its inode, and an open
-- hash table with quadratic probing maps an inode back to its descriptor.
-- An `inode_t *` is its address, and NULL is 0.
pub mod Probe
pub mod Invariant
pub mod Alloc
pub mod Free
pub mod Progress
mod Tests
use quark_os.Prelude.{
  ℕ, zero, suc, ◌+◌, ◌-◌, ◌*◌, ◌%◌, Option, none, some, ltb, ◌==◌, ◌!=◌, if◌then◌else◌, ◌>>=◌, ◌>>◌,
  assertk, store,
}

abbrev pub file_table_size : ℕ
file_table_size = 1024

abbrev pub file_hash_size : ℕ
file_hash_size = 1031

abbrev pub file_hash_sqrt : ℕ
file_hash_sqrt = 32

abbrev pub kernel_start : ℕ
kernel_start = 0xc0000000

-- `struct hash`, the array of entries as two arrays
pub record Hash : Type 0 where
  pub key : ℕ → ℕ
  pub value : ℕ → ℕ
  pub file_table : ℕ → ℕ

abbrev pub empty_hash : Hash
empty_hash = record { key = λ i. 0; value = λ i. 0; file_table = λ fd. 0 }

pub hash_generate : ℕ → Option ℕ
hash_generate inode = do
  assertk (ltb kernel_start inode)
  some ((inode - kernel_start) % file_hash_size)

-- `index + i * i` is an `int` sum of at most 1030 + 32 * 32.
abbrev pub hash_conflict : ℕ → ℕ → ℕ
hash_conflict index i = (index + i * i) % file_hash_size

-- The loop of `hash_insert`, with `n` rounds left from round `i`.
pub insert_loop : Hash → ℕ → ℕ → ℕ → ℕ → ℕ → Option Hash
insert_loop h base inode fd zero i = none
insert_loop h base inode fd (suc n) i =
    let index = hash_conflict base i in
    let rest = insert_loop h base inode fd n (i + 1) in
    if h.key index == 0
    then some (record h { key = store h.key index inode; value = store h.value index fd })
    else rest

pub hash_insert : Hash → ℕ → ℕ → Option Hash
unfolding hash_generate
hash_insert h inode fd = do
  base ← hash_generate inode
  insert_loop h base inode fd (file_hash_sqrt + 1) 0

pub findf_loop : Hash → ℕ → ℕ → ℕ → ℕ → Option ℕ
findf_loop h base inode zero i = none
findf_loop h base inode (suc n) i =
    let index = hash_conflict base i in
    let rest = findf_loop h base inode n (i + 1) in
    if h.key index == inode then some index else rest

-- The index of the entry; the inner `none` is the NULL that `hash_findf` returns.
pub hash_findf : Hash → ℕ → Option (Option ℕ)
unfolding hash_generate
hash_findf h inode = do
  base ← hash_generate inode
  some (findf_loop h base inode (file_hash_sqrt + 1) 0)

pub hash_findi : Hash → ℕ → ℕ
hash_findi h fd = h.file_table fd

pub hash_del : Hash → ℕ → Option Hash
unfolding hash_findf
hash_del h inode = do
  entry ← hash_findf h inode
  index ← entry
  some (record h { key = store h.key index 0 })

-- A `fd_t` is never negative here, so `assertk(fd >= 0)` holds.
pub free_fd : Hash → ℕ → Option Hash
unfolding hash_del
free_fd h fd = do
  assertk (h.file_table fd != 0)
  hash_del (record h { file_table = store h.file_table fd 0 }) (h.file_table fd)

pub alloc_loop : Hash → ℕ → ℕ → ℕ → Option (ℕ × Hash)
unfolding hash_insert
alloc_loop h inode zero i = none
alloc_loop h inode (suc n) i =
    let rest = alloc_loop h inode n (i + 1) in
    let taken = do
      h' ← hash_insert (record h { file_table = store h.file_table i inode }) inode i
      some (i, h')
    in if h.file_table i == 0 then taken else rest

alloc_found : Hash → ℕ → Option ℕ → Option (ℕ × Hash)
unfolding alloc_loop
alloc_found h inode (some index) = some (h.value index, h)
alloc_found h inode none = alloc_loop h inode file_table_size 0

pub alloc_fd : Hash → ℕ → Option (ℕ × Hash)
unfolding hash_findf alloc_found
alloc_fd h inode = do assertk (inode != 0); entry ← hash_findf h inode; alloc_found h inode entry

pub get_inode : Hash → ℕ → ℕ
unfolding hash_findi
get_inode h fd = hash_findi h fd
