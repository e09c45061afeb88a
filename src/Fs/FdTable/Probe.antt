-- ===== src/Fs/FdTable/Probe.antt =====
-- What the probe loops of kernel/fs/hash.c find and where they write.
use quark_os.Prelude.{
  ℕ, zero, suc, ◌+◌, ◌<◌, ◌≡◌, refl, inl, inr, Option, none, some, arith, ◌==◌, store, Bool-cases,
}
use quark_os.Fs.FdTable.{
  Hash, file_hash_size, hash_conflict, insert_loop, findf_loop, hash_generate, hash_findf,
}

-- Two tables that agree on where `p` stands answer alike.
pub findf_loop_cong :
    (h g : Hash) (base p n i : ℕ)
    → ((j : ℕ) → (g.key j == p) ≡ (h.key j == p))
    → findf_loop g base p n i ≡ findf_loop h base p n i
unfolding findf_loop
findf_loop_cong h g base p zero i same = refl
findf_loop_cong h g base p (suc n) i same =
    ground (arith, same (hash_conflict base i), findf_loop_cong h g base p n (i + 1) same)

pub findf_loop-key :
    (h : Hash) (base p n i : ℕ) {index : ℕ}
    → findf_loop h base p n i ≡ some index
    → (h.key index ≡ p) × (index < file_hash_size)
unfolding findf_loop
findf_loop-key h base p zero i e = ground arith
findf_loop-key h base p (suc n) i {index} e =
    elim (Bool-cases (h.key (hash_conflict base i) == p)) [
      | inl hit ↦ ground arith
      | inr miss ↦ findf_loop-key h base p n (i + 1) (ground arith)
    ]

-- the table after an entry is written
abbrev pub inserted : Hash → ℕ → ℕ → ℕ → Hash
inserted h index inode fd = record h {
  key = store h.key index inode;
  value = store h.value index fd;
}

-- An insertion fills a free slot, and a look-up finds the entry there.
pub record Inserts (h : Hash) (base inode fd n i : ℕ) (h' : Hash) : Type 0 where
  pub index : ℕ
  pub free : h.key index ≡ 0
  pub result : h' ≡ inserted h index inode fd
  pub found : findf_loop (inserted h index inode fd) base inode n i ≡ some index

pub insert_loop-Inserts :
    (h : Hash) (base inode fd n i : ℕ) {h' : Hash}
    → findf_loop h base inode n i ≡ none
    → insert_loop h base inode fd n i ≡ some h'
    → Inserts h base inode fd n i h'
unfolding insert_loop findf_loop
insert_loop-Inserts h base inode fd zero i absent e = ground arith
insert_loop-Inserts h base inode fd (suc n) i {h'} absent e =
    elim (Bool-cases (h.key (hash_conflict base i) == 0)) [
      | inl empty ↦ record {
        index = hash_conflict base i;
        free = ground arith;
        result = ground arith;
        found = ground arith;
      }
      | inr used ↦
          let rest =
            insert_loop-Inserts h base inode fd n (i + 1) {h' = h'} (ground arith) (ground arith) in
          record {
            index = rest.index;
            free = rest.free;
            result = rest.result;
            found = ground (arith, rest.found, rest.free);
          }
    ]

-- `hash_findf` is its loop from the start of the probe sequence.
pub hash_findf_inv :
    (h : Hash) (p : ℕ) {r : Option ℕ}
    → hash_findf h p ≡ some r
    → (base : ℕ) × (hash_generate p ≡ some base) × (findf_loop h base p 33 0 ≡ r)
unfolding hash_findf
hash_findf_inv h p e = ground arith
