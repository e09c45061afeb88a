-- ===== src/Fs/Ext2/Directory/Remove.antt =====
-- `find_entry_disk` and `remove_from_parent` of kernel/fs/ext2/dir.c.
use quark_os.Fs.Ext2.Directory.{
  DirEntry, Block, next_entry, merge_dir_entry, is_named, find_entry_loop, remove_loop,
}
use quark_os.Fs.Ext2.Directory.Tiles.{
  IsEntry, Tiles, live, own_name, live-cons, Tiles-end, Tiles-same,
}
use quark_os.Fs.Ext2.Directory.Merge.{merge_dir_entry-Merges}
use quark_os.Klib.Strings.Equality.{same}
use quark_os.Prelude.{
  ℕ, zero, suc, ◌+◌, ◌^◌, ◌<◌, ◌≡◌, ◌≢◌, refl, inl, inr, ◌⊎◌, true, false, ◌&&◌, List, [], ◌∷◌,
  ◌++◌, length, arith, sym, ◌∙◌, ap, ◌==◌, ◌!=◌, if◌then◌else◌, store, store_self, store_ne, ltb,
  Option, some, none, Bool-cases, eq_or_ne, subst, append_assoc,
}

-- The inode that a name has.
abbrev pub lookup : List ℕ → List (List ℕ × ℕ) → Option ℕ
lookup name [] = none
lookup name ((n, ino) ∷ xs) = if same name n then some ino else lookup name xs

same-length : (xs ys : List ℕ) → same xs ys ≡ true → length xs ≡ length ys
same-length [] [] e = refl
same-length [] (y ∷ ys) e = absurd (ground arith)
same-length (x ∷ xs) [] e = absurd (ground arith)
same-length (x ∷ xs) (y ∷ ys) e = ap suc (same-length xs ys (ground arith))

-- The test is that the entry is in use and has the name.
is_named_lem :
    (name : List ℕ) (e : DirEntry)
    → IsEntry e
    → is_named name e ≡ (e.inode != 0 && same name e.name)
is_named_lem name e ent = elim (eq_or_ne e.inode 0) [
  | inl unused ↦ let h : (e.inode != 0) ≡ false = ground (arith, unused) in rw h refl
  | inr used ↦
      let h : (e.inode != 0) ≡ true = ground (arith, used) in
      elim (Bool-cases (same name e.name)) [
        | inl match ↦
            let len : (e.name_len == length name) ≡ true =
              ground (arith, ent.counted used, same-length name e.name match) in
            rw (h, match, len) refl
        | inr other ↦ elim (Bool-cases (e.name_len == length name)) [
          | inl l ↦ rw (h, other, l) refl
          | inr l ↦ rw (h, other, l) refl
        ]
      ]
]

-- In a block that entries fill, the loop of `find_entry_disk`, given more rounds than there are bytes left, ends and
-- finds the inode of the first use of the name, if it is in use.
pub find_entry_loop_lem :
    (fuel : ℕ) (b : Block) (o end : ℕ) (name : List ℕ) (es : List DirEntry)
    → Tiles b o end es
    → end < fuel + o
    → find_entry_loop fuel b o end name ≡ some (lookup name (live es))
unfolding find_entry_loop
find_entry_loop_lem zero b o end name es t enough =
    absurd (omega (arith, Tiles-end b o end es t, enough))
find_entry_loop_lem (suc fuel) b o end name [] t enough =
    let stop : ltb o end ≡ false = ground (arith, t) in rw stop refl
find_entry_loop_lem (suc fuel) b o end name (e ∷ es) t enough =
    let go : ltb o end ≡ true =
      ground (arith, Tiles-end b (o + e.entry_size) end es t.2, t.1.big) in
    let next : next_entry b o ≡ o + e.entry_size = ap (λ (x : DirEntry). o + x.entry_size) t.0 in
    let test = ap (λ x. is_named name x) t.0 ∙ is_named_lem name e t.1 in
    let rest =
      find_entry_loop_lem fuel b (next_entry b o) end name es
        (subst (λ (x : ℕ). Tiles b x end es) (sym next) t.2)
        (omega (arith, enough, next, t.1.big)) in
    let inode : (b o).inode ≡ e.inode = ap (λ (x : DirEntry). x.inode) t.0 in
    elim (Bool-cases (e.inode == 0)) [
      | inl unused ↦
          let h : (e.inode != 0) ≡ false = ground (arith, unused) in
          let miss : is_named name (b o) ≡ false = test ∙ rw h refl in rw (go, miss, unused) rest
      | inr used ↦
          let h : (e.inode != 0) ≡ true = ground (arith, used) in
          elim (Bool-cases (same name e.name)) [
            | inl match ↦
                let hit : is_named name (b o) ≡ true = test ∙ rw (h, match) refl in
                rw (go, hit, used, match) (ap (λ (x : ℕ). some (some x)) inode)
            | inr other ↦
                let miss : is_named name (b o) ≡ false = test ∙ rw (h, other) refl in
                rw (go, miss, used, other) rest
          ]
    ]

-- The block without the name.
record Removes (b : Block) (o end : ℕ) (name : List ℕ) (es : List DirEntry) (b' : Block)
    : Type 0 where
  left : List DirEntry
  xs : List (List ℕ × ℕ)
  ys : List (List ℕ × ℕ)
  n : List ℕ
  ino : ℕ
  tiles : Tiles b' o end left
  old : live es ≡ xs ++ ((n, ino) ∷ ys)
  new : live left ≡ xs ++ ys
  named : same name n ≡ true
  first : lookup name xs ≡ none
  before : (x : ℕ) → x < o → b' x ≡ b x

remove_here :
    (b : Block) (o block_size : ℕ) (name : List ℕ) (e : DirEntry) (es : List DirEntry)
    → Tiles b o block_size (e ∷ es)
    → block_size < 2 ^ 16
    → e.inode ≢ 0
    → same name e.name ≡ true
    → (b' : Block) × (merge_dir_entry (store b o (record (b o) { inode = 0 })) o block_size
        ≡ some b')
      × Removes b o block_size name (e ∷ es) b'
remove_here b o block_size name e es t small used match =
    let e₀ : DirEntry = record (b o) { inode = 0 } in
    let b₀ = store b o e₀ in
    let width : e.entry_size ≡ e₀.entry_size = ap (λ (x : DirEntry). x.entry_size) (sym t.0) in
    let rest =
      Tiles-same b b₀ (o + e.entry_size) block_size es
        (λ x h. store_ne b e₀ (λ here. omega (arith, here, h, t.1.big))) t.2 in
    let tiles : Tiles b₀ o block_size (e₀ ∷ es) = (
      store_self b o e₀,
      record {
        big = omega (arith, width, t.1.big);
        room = λ ne. absurd (ne refl);
        counted = λ ne. absurd (ne refl);
      },
      subst (λ (x : ℕ). Tiles b₀ (o + x) block_size es) width rest,
    ) in
    let (b', merges, m) = merge_dir_entry-Merges b₀ o block_size e₀ es tiles small in
    let busy : (e.inode == 0) ≡ false = ground (arith, used) in
    (
      b',
      merges,
      record {
        left = m.left;
        xs = [];
        ys = live es;
        n = e.name;
        ino = e.inode;
        tiles = m.tiles;
        old = rw busy refl;
        new = m.names;
        named = match;
        first = refl;
        before = λ x h. m.before x h ∙ store_ne b e₀ (λ here. omega (arith, here, h));
      },
    )

lookup-append :
    (name : List ℕ) (xs ys : List (List ℕ × ℕ))
    → lookup name xs ≡ none
    → lookup name (xs ++ ys) ≡ lookup name ys
lookup-append name [] ys e = refl
lookup-append name ((n, ino) ∷ xs) ys e = elim (Bool-cases (same name n)) [
  | inl match ↦ absurd (ground (arith, match, e))
  | inr other ↦ rw other (lookup-append name xs ys (ground (arith, other, e)))
]

skipped :
    (b b' : Block) (o end : ℕ) (name : List ℕ) (e : DirEntry) (es : List DirEntry)
    → b o ≡ e
    → IsEntry e
    → lookup name (own_name e) ≡ none
    → Removes b (o + e.entry_size) end name es b'
    → Removes b o end name (e ∷ es) b'
skipped b b' o end name e es at ent miss r = record {
  left = e ∷ r.left;
  xs = own_name e ++ r.xs;
  ys = r.ys;
  n = r.n;
  ino = r.ino;
  tiles = (r.before o (omega (arith, ent.big)) ∙ at, ent, r.tiles);
  old =
      live-cons e es
      ∙ ap (λ (l : List (List ℕ × ℕ)). own_name e ++ l) r.old
      ∙ sym (append_assoc (own_name e) r.xs ((r.n, r.ino) ∷ r.ys));
  new =
      live-cons e r.left
      ∙ ap (λ (l : List (List ℕ × ℕ)). own_name e ++ l) r.new
      ∙ sym (append_assoc (own_name e) r.xs r.ys);
  named = r.named;
  first = lookup-append name (own_name e) r.xs miss ∙ r.first;
  before = λ x h. r.before x (omega (arith, h));
}

-- A name is on no entry of the block, or the first entry with it is removed.
remove_loop-Removes :
    (fuel : ℕ) (b : Block) (o block_size : ℕ) (name : List ℕ) (es : List DirEntry)
    → Tiles b o block_size es
    → block_size < fuel + o
    → block_size < 2 ^ 16
    → ((remove_loop fuel b o block_size block_size name ≡ some (false, b))
        × (lookup name (live es) ≡ none))
      ⊎ ((b' : Block) × (remove_loop fuel b o block_size block_size name ≡ some (true, b'))
          × Removes b o block_size name es b')
unfolding remove_loop
remove_loop-Removes zero b o block_size name es t enough small =
    absurd (omega (arith, Tiles-end b o block_size es t, enough))
remove_loop-Removes (suc fuel) b o block_size name [] t enough small =
    let stop : ltb o block_size ≡ false = ground (arith, t) in inl (rw stop refl, refl)
remove_loop-Removes (suc fuel) b o block_size name (e ∷ es) t enough small =
    let go : ltb o block_size ≡ true =
      ground (arith, Tiles-end b (o + e.entry_size) block_size es t.2, t.1.big) in
    let next : next_entry b o ≡ o + e.entry_size = ap (λ (x : DirEntry). o + x.entry_size) t.0 in
    let test = ap (λ x. is_named name x) t.0 ∙ is_named_lem name e t.1 in
    let rest =
      remove_loop-Removes fuel b (next_entry b o) block_size name es
        (subst (λ (x : ℕ). Tiles b x block_size es) (sym next) t.2)
        (omega (arith, enough, next, t.1.big)) small in
    let miss : is_named name (b o) ≡ false
        → lookup name (own_name e) ≡ none
        → ((remove_loop (suc fuel) b o block_size block_size name ≡ some (false, b))
            × (lookup name (live (e ∷ es)) ≡ none))
          ⊎ ((b' : Block) × (remove_loop (suc fuel) b o block_size block_size name
                ≡ some (true, b'))
              × Removes b o block_size name (e ∷ es) b') =
      λ off none_here. elim rest [
        | inl (runs, absent) ↦ inl (
          rw (go, off) runs,
          ap (λ l. lookup name l) (live-cons e es)
              ∙ lookup-append name (own_name e) (live es) none_here
              ∙ absent,
        )
        | inr (b', runs, r) ↦ inr (
          b',
          rw (go, off) runs,
          skipped b b' o block_size name e es t.0 t.1 none_here
              (subst (λ (x : ℕ). Removes b x block_size name es b') next r),
        )
      ] in
    elim (Bool-cases (e.inode == 0)) [
      | inl unused ↦
          let h : (e.inode != 0) ≡ false = ground (arith, unused) in
          miss (test ∙ rw h refl) (rw unused refl)
      | inr used ↦
          let h : (e.inode != 0) ≡ true = ground (arith, used) in
          elim (Bool-cases (same name e.name)) [
            | inl match ↦
                let hit : is_named name (b o) ≡ true = test ∙ rw (h, match) refl in
                let (b', merges, r) =
                  remove_here b o block_size name e es t small (ground (arith, used)) match in
                inr (b', rw (go, hit, merges) refl, r)
            | inr other ↦ miss (test ∙ rw (h, other) refl) (rw (used, other) refl)
          ]
    ]

-- In a block of less than 64 KiB that entries fill, the loop of `remove_from_parent` either changes nothing, and the
-- name is not in use in the block, or leaves a block that entries fill, in which the first use of the name is gone
-- and all other names are kept in order.
pub remove_loop_lem :
    (b : Block) (block_size : ℕ) (name : List ℕ) (es : List DirEntry)
    → Tiles b 0 block_size es
    → block_size < 2 ^ 16
    → ((remove_loop (suc block_size) b 0 block_size block_size name ≡ some (false, b))
        × (lookup name (live es) ≡ none))
      ⊎ ((b' : Block) × ((left : List DirEntry) × ((xs : List (List ℕ × ℕ)) × ((n : List ℕ)
                × ((ino : ℕ) × ((ys : List (List ℕ × ℕ)) × (remove_loop
                          (suc block_size)
                          b
                          0
                          block_size
                          block_size
                          name
                        ≡ some (true, b'))
                      × Tiles b' 0 block_size left
                      × (same name n ≡ true)
                      × (lookup name xs ≡ none)
                      × (live es ≡ xs ++ ((n, ino) ∷ ys))
                      × (live left ≡ xs ++ ys)))))))
remove_loop_lem b block_size name es t small =
    elim (remove_loop-Removes (suc block_size) b 0 block_size name es t (omega arith) small) [
      | inl kept ↦ inl kept
      | inr (b', runs, r) ↦ inr (
        b',
        (r.left, (r.xs, (r.n, (r.ino, (r.ys, runs, r.tiles, r.named, r.first, r.old, r.new))))),
      )
    ]
