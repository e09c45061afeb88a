-- ===== src/Fs/Ext2/Directory/Merge.antt =====
-- `merge_dir_entry` of kernel/fs/ext2/dir.c.
use native.Mathlib.Nat.{mod-eq_of_lt}
use quark_os.Fs.Ext2.Directory.{DirEntry, Block, dir_end, merge_entry_loop, merge_dir_entry}
use quark_os.Fs.Ext2.Directory.Tiles.{Tiles, live, Tiles-end, Tiles-same}
use quark_os.Prelude.{
  ℕ, zero, suc, ◌+◌, ◌%◌, ◌^◌, ◌<◌, ◌≡◌, refl, inl, inr, true, false, List, [], ◌∷◌, arith, ◌∙◌, ap,
  ◌!=◌, store, store_self, store_ne, ltb, Option, some, eq_or_ne, subst,
}

-- The loop adds up the free entries at the front.
pub record Merged (b : Block) (o end size : ℕ) (es : List DirEntry) (r : Option ℕ) : Type 0 where
  pub amount : ℕ
  pub left : List DirEntry
  pub runs : r ≡ some (size + amount)
  pub tiles : Tiles b (o + amount) end left
  pub names : live left ≡ live es

-- A round of the loop over a free entry
skip_free :
    (fuel : ℕ) (b : Block) (o end size w : ℕ)
    → o < end
    → (b o).inode ≡ 0
    → (b o).entry_size ≡ w
    → merge_entry_loop (suc fuel) b end o size ≡ merge_entry_loop fuel b end (o + w) (size + w)
unfolding merge_entry_loop
skip_free fuel b o end size w inside unused width =
    let go : ltb o end ≡ true = ground (arith, inside) in
    let free : ((b o).inode != 0) ≡ false = ground (arith, unused) in rw (go, free, width) refl

merge_entry_loop-Merged :
    (fuel : ℕ) (b : Block) (o end size : ℕ) (es : List DirEntry)
    → Tiles b o end es
    → end < fuel + o
    → Merged b o end size es (merge_entry_loop fuel b end o size)
unfolding merge_entry_loop
merge_entry_loop-Merged zero b o end size es t enough =
    absurd (omega (arith, Tiles-end b o end es t, enough))
merge_entry_loop-Merged (suc fuel) b o end size [] t enough =
    let stop : ltb o end ≡ false = ground (arith, t) in
    record {
      amount = 0;
      left = [];
      runs = rw stop (ap some (omega arith));
      tiles = omega (arith, t);
      names = refl;
    }
merge_entry_loop-Merged (suc fuel) b o end size (e ∷ es) t enough =
    let ent = t.1 in
    let go : ltb o end ≡ true =
      ground (arith, Tiles-end b (o + e.entry_size) end es t.2, ent.big) in
    elim (eq_or_ne e.inode 0) [
      | inl unused ↦
          let width : (b o).entry_size ≡ e.entry_size = ap (λ (x : DirEntry). x.entry_size) t.0 in
          let m =
            merge_entry_loop-Merged fuel b (o + e.entry_size) end (size + e.entry_size) es t.2
              (omega (arith, enough, ent.big)) in
          let sum : some (size + e.entry_size + m.amount)
              ≡ some (size + (e.entry_size + m.amount)) =
            ap some (omega arith) in
          record {
            amount = e.entry_size + m.amount;
            left = m.left;
            runs =
                skip_free fuel b o end size e.entry_size
                  (omega (arith, Tiles-end b (o + e.entry_size) end es t.2, ent.big))
                  (ap (λ (x : DirEntry). x.inode) t.0 ∙ unused) width
                ∙ m.runs
                ∙ sum;
            tiles = subst (λ (x : ℕ). Tiles b x end m.left) (omega arith) m.tiles;
            names = m.names ∙ rw unused refl;
          }
      | inr used ↦
          let busy : ((b o).inode != 0) ≡ true =
            ground (arith, ap (λ (x : DirEntry). x.inode) t.0, used) in
          record {
            amount = 0;
            left = e ∷ es;
            runs = rw (go, busy) (ap some (omega arith));
            tiles = subst (λ (x : ℕ). Tiles b x end (e ∷ es)) (omega arith) t;
            names = refl;
          }
    ]

-- What `merge_dir_entry` makes of the entries from `o` on.
pub record Merges (b : Block) (o end : ℕ) (es : List DirEntry) (b' : Block) : Type 0 where
  pub left : List DirEntry
  pub tiles : Tiles b' o end left
  pub names : live left ≡ live es
  pub before : (x : ℕ) → x < o → b' x ≡ b x

pub merge_dir_entry-Merges :
    (b : Block) (o block_size : ℕ) (e : DirEntry) (es : List DirEntry)
    → Tiles b o block_size (e ∷ es)
    → block_size < 2 ^ 16
    → (b' : Block) × (merge_dir_entry b o block_size ≡ some b') × Merges b o block_size (e ∷ es) b'
unfolding merge_dir_entry
merge_dir_entry-Merges b o block_size e es t small =
    let ent = t.1 in
    let inside = Tiles-end b (o + e.entry_size) block_size es t.2 in
    let inode : (b o).inode ≡ e.inode = ap (λ (x : DirEntry). x.inode) t.0 in
    elim (eq_or_ne e.inode 0) [
      | inl unused ↦
          let free : ((b o).inode != 0) ≡ false = ground (arith, inode, unused) in
          let end : dir_end o block_size ≡ block_size =
            let low : o < block_size = omega (arith, inside, ent.big) in
            omega (arith, mod-eq_of_lt low) in
          let width : (b o).entry_size ≡ e.entry_size = ap (λ (x : DirEntry). x.entry_size) t.0 in
          let m =
            merge_entry_loop-Merged block_size b (o + e.entry_size) block_size e.entry_size es t.2
              (omega (arith, ent.big)) in
          let n = e.entry_size + m.amount in
          let merged : DirEntry = record (b o) { entry_size = n } in
          let b' = store b o merged in
          let within = Tiles-end b (o + e.entry_size + m.amount) block_size m.left m.tiles in
          let fits : n % 2 ^ 16 ≡ n = omega (arith, within, small) in
          let runs : merge_entry_loop (suc block_size) b (dir_end o block_size) o 0 ≡ some n =
            ap (λ (x : ℕ). merge_entry_loop (suc block_size) b x o 0) end
            ∙ skip_free block_size b o block_size 0 e.entry_size (omega (arith, inside, ent.big))
                (inode ∙ unused) width
            ∙ ap (λ (x : ℕ). merge_entry_loop block_size b block_size (o + e.entry_size) x)
                (omega arith)
            ∙ m.runs in
          let rest : Tiles b (o + n) block_size m.left =
            subst (λ (x : ℕ). Tiles b x block_size m.left) (omega arith) m.tiles in
          (
            b',
            rw (free, runs, fits) refl,
            record {
              left = merged ∷ m.left;
              tiles = (
                store_self b o merged,
                record {
                  big = omega (arith, ent.big);
                  room = λ ne. absurd (ne (inode ∙ unused));
                  counted = λ ne. absurd (ne (inode ∙ unused));
                },
                Tiles-same b b' (o + n) block_size m.left
                    (λ x h. store_ne b merged (λ same. omega (arith, same, h, ent.big))) rest,
              );
              names = rw (inode, unused) m.names;
              before = λ x h. store_ne b merged (λ same. omega (arith, same, h));
            },
          )
      | inr used ↦
          let busy : ((b o).inode != 0) ≡ true = ground (arith, inode, used) in
          (b, rw busy refl, record { left = e ∷ es; tiles = t; names = refl; before = λ x h. refl })
    ]
