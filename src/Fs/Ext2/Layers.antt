-- ===== src/Fs/Ext2/Layers.antt =====
-- The block pointers of an inode in kernel/fs/ext2/block.c: twelve direct ones, and three trees of
-- pointer blocks with one, two and three layers.
pub mod Bijection
use quark_os.Prelude.{
  ℕ, zero, suc, ◌+◌, ◌-◌, ◌*◌, ◌/◌, ◌%◌, ◌^◌, ◌≤◌, ◌<◌, ◌≡◌, refl, inl, inr, Bool, true, false,
  Option, none, some, arith, leb, ltb, if◌then◌else◌, ◌>>=◌, ◌>>◌, assertk, Bool-cases,
}

abbrev pub n_direct_block : ℕ
n_direct_block = 12

-- The layer and the three indices.
pub record Position : Type 0 where
  pub layer : ℕ
  pub id0 : ℕ
  pub id1 : ℕ
  pub id2 : ℕ

-- The assertion and the indices; `sqr` is the number of blocks below a pointer block with two layers.
abbrev pub place : ℕ → ℕ → ℕ × ℕ → Option Position
place n_ptr sqr (layer, bno) = do
  assertk (ltb bno (sqr * n_ptr % 2 ^ 32))
  some (record { layer = layer; id0 = bno % n_ptr; id1 = bno / n_ptr % n_ptr; id2 = bno / sqr })

-- The two tests of the source: the layer, and the block number within its tree.
abbrev pub first_test : ℕ → ℕ → ℕ × ℕ
first_test n_ptr bno = if leb n_ptr bno then (1, bno - n_ptr) else (0, bno)

abbrev pub second_test : ℕ → ℕ × ℕ → ℕ × ℕ
second_test sqr (layer, bno) = if leb sqr bno then (2, bno - sqr) else (layer, bno)

-- A block number below 12 never gets here; `n_ptr` is the number of pointers of a block.
unfoldable pub find_block_layer : ℕ → ℕ → Option Position
find_block_layer n_ptr bno =
    let sqr = n_ptr * n_ptr % 2 ^ 32 in
    place n_ptr sqr (second_test sqr (first_test n_ptr (bno - n_direct_block)))

-- The block number that a position stands for.
pub block_number : ℕ → Position → ℕ
block_number n_ptr p =
    n_direct_block
    + (if ltb 0 p.layer then n_ptr else 0)
    + (if ltb 1 p.layer then n_ptr * n_ptr else 0)
    + (p.id2 * (n_ptr * n_ptr) + p.id1 * n_ptr + p.id0)
