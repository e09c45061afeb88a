-- ===== src/Fs/FdTable/Alloc.antt =====
-- `alloc_fd` of kernel/fs/hash.c.
use quark_os.Prelude.{
  ℕ, zero, suc, ◌+◌, ◌-◌, ◌%◌, ◌<◌, ◌≡◌, ◌≢◌, refl, inl, inr, Option, none, some, arith, ◌==◌,
  store, Bool-cases, sym, ◌∙◌, ap, subst, ◌!=◌, >>=-some, assertk-some,
}
use quark_os.Fs.FdTable.{
  Hash, file_hash_size, file_table_size, kernel_start, hash_findf, hash_insert, alloc_fd,
  alloc_loop, alloc_found, get_inode,
}
use quark_os.Fs.FdTable.Probe.{findf_loop_cong}
use quark_os.Fs.FdTable.Invariant.{
  IsConsistent, Found, findf-key, hash_insert_lem, opened-IsConsistent,
}

-- The descriptor that the scan takes is free, and the insertion ran with it.
alloc_loop_inv :
    (h : Hash) (inode n i : ℕ) {fd : ℕ} {h' : Hash}
    → alloc_loop h inode n i ≡ some (fd, h')
    → (fd < i + n)
      × (h.file_table fd ≡ 0)
      × (hash_insert (record h { file_table = store h.file_table fd inode }) inode fd ≡ some h')
unfolding alloc_loop
alloc_loop_inv h inode zero i e = ground arith
alloc_loop_inv h inode (suc n) i {fd} {h'} e = elim (Bool-cases (h.file_table i == 0)) [
  | inl free ↦ ground arith
  | inr used ↦
      let rest = alloc_loop_inv h inode n (i + 1) {fd = fd} {h' = h'} (ground arith) in
      ground (arith, rest)
]

pub findf-file_table :
    (h : Hash) (ft : ℕ → ℕ) (p : ℕ) → hash_findf (record h { file_table = ft }) p ≡ hash_findf h p
unfolding hash_findf
findf-file_table h ft p = ground (
  arith,
  findf_loop_cong h (record h { file_table = ft }) ((p - kernel_start) % file_hash_size) p 33 0
      (λ j. refl),
)

-- What an allocation promises.
pub record Allocates (h : Hash) (inode fd : ℕ) (h' : Hash) : Type 0 where
  pub consistent : IsConsistent h'
  pub bound : fd < file_table_size
  pub opens : get_inode h' fd ≡ inode
  pub others : (k : ℕ) → k ≢ fd → get_inode h' k ≡ get_inode h k
  pub indexed : Found h' inode fd

alloc_new :
    (h : Hash) (inode fd : ℕ) {h' : Hash}
    → IsConsistent h
    → inode ≢ 0
    → hash_findf h inode ≡ some none
    → alloc_loop h inode file_table_size 0 ≡ some (fd, h')
    → Allocates h inode fd h'
unfolding get_inode
alloc_new h inode fd {h'} ok real absent e =
    let (bound, unused, put) = alloc_loop_inv h inode file_table_size 0 e in
    let g = record h { file_table = store h.file_table fd inode } in
    let (index, free, result, found) =
      hash_insert_lem g inode fd (findf-file_table h _ inode ∙ absent) put in
    let new = opened-IsConsistent h inode fd index ok real absent bound unused free found in
    record {
      consistent = ground (arith, result, new);
      bound = bound;
      opens = ground (arith, ap (λ (x : Hash). x.file_table fd) result);
      others = λ k ne. ground (arith, ap (λ (x : Hash). x.file_table k) result);
      indexed =
          subst (λ x. Found x inode fd) (sym result)
            (record { index = index; lookup = found; holds = ground arith });
    }

alloc_old :
    (h : Hash) (inode index : ℕ)
    → IsConsistent h
    → inode ≢ 0
    → hash_findf h inode ≡ some (some index)
    → Allocates h inode (h.value index) h
unfolding get_inode
alloc_old h inode index ok real there =
    let here : h.key index ≡ inode = findf-key h inode there in
    record {
      consistent = ok;
      bound = ok.slot_bound index (ground arith);
      opens = ok.slot index (ground arith) ∙ here;
      others = λ k ne. refl;
      indexed = record { index = index; lookup = there; holds = refl };
    }

alloc_found_lem :
    (h : Hash) (inode fd : ℕ) (entry : Option ℕ) {h' : Hash}
    → IsConsistent h
    → inode ≢ 0
    → hash_findf h inode ≡ some entry
    → alloc_found h inode entry ≡ some (fd, h')
    → Allocates h inode fd h'
unfolding alloc_found
alloc_found_lem h inode fd none ok real found e = alloc_new h inode fd ok real found e
alloc_found_lem h inode fd (some index) {h'} ok real found e =
    ground (arith, alloc_old h inode index ok real found)

-- From consistent tables, whatever descriptor `alloc_fd` returns lies in the table and names the inode, the tables stay
-- consistent, and no other descriptor is touched.
pub alloc_fd-Allocates :
    (h : Hash) (inode fd : ℕ) {h' : Hash}
    → IsConsistent h
    → alloc_fd h inode ≡ some (fd, h')
    → Allocates h inode fd h'
unfolding alloc_fd
alloc_fd-Allocates h inode fd ok e =
    let (real, next) = assertk-some (inode != 0) _ e in
    let (entry, found, last) = >>=-some (hash_findf h inode) (alloc_found h inode) next in
    alloc_found_lem h inode fd entry ok (ground arith) found last

-- From consistent tables, a second `alloc_fd` for an inode that has a descriptor returns that descriptor and changes
-- nothing.
pub alloc_fd_again :
    (h : Hash) (inode fd : ℕ) {h' : Hash}
    → IsConsistent h
    → alloc_fd h inode ≡ some (fd, h')
    → alloc_fd h' inode ≡ some (fd, h')
unfolding alloc_fd alloc_found
alloc_fd_again h inode fd {h'} ok e =
    let at = (alloc_fd-Allocates h inode fd ok e).indexed in ground (arith, at.lookup, at.holds)
