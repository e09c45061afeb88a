-- ===== src/Fs/Ext2/Directory.antt =====
-- kernel/fs/ext2/dir.c: the entries of directory blocks. A block is its entries by their offset; the bytes of an
-- entry are its fields, and those between the end of its name and the next entry are not modelled.
pub mod Tiles
pub mod Merge
pub mod Create
pub mod Remove
mod Tests
use quark_os.Klib.Strings.Equality.{same}
use quark_os.Prelude.{
  ℕ, zero, suc, ◌+◌, ◌-◌, ◌%◌, ◌^◌, Bool, true, false, ◌&&◌, Option, none, some, List, [], ◌∷◌,
  length, ltb, leb, ◌==◌, ◌!=◌, if◌then◌else◌, ◌>>=◌, ◌>>◌, assertk, store,
}

-- `struct ext2_directory_entry`
pub record DirEntry : Type 0 where
  pub inode : ℕ
  pub entry_size : ℕ
  pub name_len : ℕ
  pub type : ℕ
  pub name : List ℕ

abbrev pub Block : Type 0
Block = ℕ → DirEntry

-- `sizeof(ext2_dir_t)`
abbrev pub header_size : ℕ
header_size = 8

abbrev pub file_name_len : ℕ
file_name_len = 128

abbrev pub align4 : ℕ → ℕ
align4 size = size + 3 - (size + 3) % 4

-- `DIR_END`
abbrev pub dir_end : ℕ → ℕ → ℕ
dir_end dir block_size = dir - dir % block_size + block_size

abbrev pub next_entry : Block → ℕ → ℕ
next_entry b dir = dir + (b dir).entry_size

abbrev pub dir_len : DirEntry → ℕ
dir_len e = align4 (header_size + e.name_len)

-- The loop over the entries that are not used, from `hdr`; `none` is running out of rounds.
pub merge_entry_loop : ℕ → Block → ℕ → ℕ → ℕ → Option ℕ
merge_entry_loop zero b end hdr size = none
merge_entry_loop (suc fuel) b end hdr size =
    let rest = merge_entry_loop fuel b end (next_entry b hdr) (size + (b hdr).entry_size) in
    if ltb hdr end then if (b hdr).inode != 0 then some size else rest else some size

-- As many rounds as a block has bytes, and one.
pub merge_dir_entry : Block → ℕ → ℕ → Option Block
merge_dir_entry b dir block_size =
    let merged = merge_entry_loop (suc block_size) b (dir_end dir block_size) dir 0 >>= λ size.
    some (store b dir (record (b dir) { entry_size = size % 2 ^ 16 })) in
    if (b dir).inode != 0 then some b else merged

-- `new_dir_entry` once the entry at `new` is free: what is left becomes a free entry if it is large enough.
-- NULL is `none`.
pub put_entry : Block → ℕ → ℕ → ℕ → List ℕ → ℕ → Option ℕ × Block
put_entry b new entry_size ino name type =
    let e = b new in
    let filled = record e {
      inode = ino;
      name_len = length name % 2 ^ 8;
      type = type;
      name = name;
    } in
    let remain = e.entry_size - entry_size in
    let at = new + entry_size in
    let cut = store b new (record filled { entry_size = entry_size % 2 ^ 16 }) in
    if ltb e.entry_size entry_size
    then (none, b)
    else if ltb (align4 (header_size + 1)) remain
    then (some at, store cut at (record (cut at) { inode = 0; entry_size = remain }))
    else (some new, store b new filled)

pub new_dir_entry : Block → ℕ → ℕ → List ℕ → ℕ → Option (Option ℕ × Block)
new_dir_entry b dir ino name type = do
  assertk (ltb (length name) file_name_len)
  let e = b dir
  let entry_size = align4 (length name + header_size)
  let len = align4 (dir_len e)
  let room = (e.entry_size + 2 ^ 32 - len) % 2 ^ 32
  let new = dir + len
  let carved = store b new (record (b new) { entry_size = room % 2 ^ 16 })
  let cut = store carved dir (record (carved dir) { entry_size = len % 2 ^ 16 })
  some (
      if e.inode != 0
      then if ltb room entry_size then (none, b) else put_entry cut new entry_size ino name type
      else put_entry b dir entry_size ino name type)

-- What `create_dir_entry` does with the answer of `new_dir_entry`; `rest` is the rest of the loop.
pub create_step : Option (Bool × Block) → ℕ → Option ℕ × Block → Option (Bool × Block)
create_step rest block_size (none, b) = rest
create_step rest block_size (some new, b) =
    merge_dir_entry b new block_size >>= λ b'. some (true, b')

-- The loop of `create_dir_entry` over one block: whether there was room.
pub create_loop : ℕ → Block → ℕ → ℕ → ℕ → ℕ → List ℕ → ℕ → Option (Bool × Block)
create_loop zero b dir end block_size ino name type = none
create_loop (suc fuel) b dir end block_size ino name type =
    let rest = create_loop fuel b (next_entry b dir) end block_size ino name type in
    let made = new_dir_entry b dir ino name type >>= create_step rest block_size in
    if ltb dir end then made else some (false, b)

-- The test of `find_entry_disk` and `remove_from_parent`
abbrev pub is_named : List ℕ → DirEntry → Bool
is_named name e = e.inode != 0 && e.name_len == length name && same name e.name

-- The loop of `find_entry_disk` over one block
pub find_entry_loop : ℕ → Block → ℕ → ℕ → List ℕ → Option (Option ℕ)
find_entry_loop zero b dir end name = none
find_entry_loop (suc fuel) b dir end name =
    let rest = find_entry_loop fuel b (next_entry b dir) end name in
    if ltb dir end
    then if is_named name (b dir) then some (some (b dir).inode) else rest
    else some none

-- The loop of `remove_from_parent` over one block: whether the entry was there
pub remove_loop : ℕ → Block → ℕ → ℕ → ℕ → List ℕ → Option (Bool × Block)
remove_loop zero b dir end block_size name = none
remove_loop (suc fuel) b dir end block_size name =
    let rest = remove_loop fuel b (next_entry b dir) end block_size name in
    let removed =
      merge_dir_entry (store b dir (record (b dir) { inode = 0 })) dir block_size >>= λ b'.
      some (true, b') in
    if ltb dir end then if is_named name (b dir) then removed else rest else some (false, b)
