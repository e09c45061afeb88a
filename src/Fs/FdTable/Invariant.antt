-- ===== src/Fs/FdTable/Invariant.antt =====
-- What it is for the two directions of the descriptor table of kernel/fs/hash.c to agree.
use quark_os.Prelude.{
  ℕ, ◌<◌, ◌≡◌, ◌≢◌, refl, inl, inr, Option, none, some, arith, store, eq_or_ne, sym, ap,
}
use quark_os.Fs.FdTable.{Hash, file_table_size, hash_findf, hash_insert}
use quark_os.Fs.FdTable.Probe.{
  findf_loop_cong, findf_loop-key, inserted, insert_loop-Inserts, hash_findf_inv,
}

-- `inode` is found, with descriptor `fd`.
pub record Found (h : Hash) (inode fd : ℕ) : Type 0 where
  pub index : ℕ
  pub lookup : hash_findf h inode ≡ some (some index)
  pub holds : h.value index ≡ fd

pub record IsConsistent (h : Hash) : Type 0 where
  -- every entry of the hash table is confirmed by the file table
  pub slot_bound : (j : ℕ) → h.key j ≢ 0 → h.value j < file_table_size
  pub slot : (j : ℕ) → h.key j ≢ 0 → h.file_table (h.value j) ≡ h.key j
  -- no inode has two entries
  pub unique : (i j : ℕ) → h.key i ≢ 0 → h.key i ≡ h.key j → i ≡ j
  -- every open file is found through its inode
  pub file : (fd : ℕ) → fd < file_table_size → h.file_table fd ≢ 0 → Found h (h.file_table fd) fd

-- Rewriting an entry that neither was nor becomes `p` does not change what is found for `p`.
pub findf-store :
    (h g : Hash) (index inode p : ℕ) {r : Option ℕ}
    → g.key ≡ store h.key index inode
    → h.key index ≢ p
    → inode ≢ p
    → hash_findf h p ≡ some r
    → hash_findf g p ≡ some r
unfolding hash_findf
findf-store h g index inode p e old new found =
    let (base, made, at) = hash_findf_inv h p found in
    let same = findf_loop_cong h g base p 33 0 (λ j. ground (arith, ap (λ (k : ℕ → ℕ). k j) e)) in
    ground (arith, made, at, same)

pub findf-key :
    (h : Hash) (p : ℕ) {index : ℕ} → hash_findf h p ≡ some (some index) → h.key index ≡ p
findf-key h p e = let (base, made, at) = hash_findf_inv h p e in (findf_loop-key h base p 33 0 at).0

-- What `hash_insert` does for an inode that is not there yet.
pub hash_insert_lem :
    (h : Hash) (inode fd : ℕ) {h' : Hash}
    → hash_findf h inode ≡ some none
    → hash_insert h inode fd ≡ some h'
    → (index : ℕ) × (h.key index ≡ 0)
      × (h' ≡ inserted h index inode fd)
      × (hash_findf (inserted h index inode fd) inode ≡ some (some index))
unfolding hash_insert hash_findf
hash_insert_lem h inode fd {h'} absent done =
    let (base, made, at) = hash_findf_inv h inode absent in
    let put = insert_loop-Inserts h base inode fd 33 0 {h' = h'} at (ground (arith, made)) in
    (put.index, put.free, put.result, ground (arith, made, put.found))

-- The table after a new file is recorded under descriptor `fd` and entry `index`.
abbrev pub opened : Hash → ℕ → ℕ → ℕ → Hash
opened h index inode fd =
    inserted (record h { file_table = store h.file_table fd inode }) index inode fd

module _ (h : Hash) (inode fd index : ℕ) (ok : IsConsistent h) (real : inode ≢ 0)
    (absent : hash_findf h inode ≡ some none) (small : fd < file_table_size)
    (unused : h.file_table fd ≡ 0) (free : h.key index ≡ 0)
    (found : hash_findf (opened h index inode fd) inode ≡ some (some index)) where
  key-ne : (j : ℕ) → h.key j ≢ inode
  key-ne j e = ground (
    arith,
    ok.slot j,
    ok.slot_bound j,
    (ok.file (h.value j) (ok.slot_bound j (ground arith)) (ground (arith, ok.slot j))).lookup,
  )

  old_file :
      (k : ℕ)
      → k < file_table_size
      → k ≢ fd
      → h.file_table k ≢ 0
      → Found (opened h index inode fd) (h.file_table k) k
  old_file k hk ne used =
      let old = ok.file k hk used in
      record {
        index = old.index;
        lookup =
            findf-store h (opened h index inode fd) index inode (h.file_table k) refl (ground arith)
              (ground (arith, old.lookup)) old.lookup;
        holds = ground (arith, old.holds, findf-key h (h.file_table k) old.lookup);
      }

  new_file :
      (k : ℕ)
      → k < file_table_size
      → (opened h index inode fd).file_table k ≢ 0
      → Found (opened h index inode fd) ((opened h index inode fd).file_table k) k
  new_file k hk used = elim (eq_or_ne fd k) [
    | inl e ↦ record { index = index; lookup = ground (arith, found); holds = ground arith }
    | inr ne ↦
        let old = old_file k hk (λ e. ne (sym e)) (ground arith) in
        record { index = old.index; lookup = ground (arith, old.lookup); holds = old.holds }
  ]

  pub opened-IsConsistent : IsConsistent (opened h index inode fd)
  opened-IsConsistent = record {
    slot_bound = λ j used. ground (arith, ok.slot_bound j);
    slot = λ j used. ground (arith, ok.slot j);
    unique = λ i j used same. ground (arith, ok.unique i j, key-ne i, key-ne j);
    file = new_file;
  }
