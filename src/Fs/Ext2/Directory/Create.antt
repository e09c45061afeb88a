-- ===== src/Fs/Ext2/Directory/Create.antt =====
-- `new_dir_entry` and `create_dir_entry` of kernel/fs/ext2/dir.c.
use quark_os.Fs.Ext2.Directory.{
  DirEntry, Block, header_size, file_name_len, align4, dir_len, next_entry, merge_dir_entry,
  put_entry, new_dir_entry, create_step, create_loop,
}
use quark_os.Fs.Ext2.Directory.Tiles.{
  IsEntry, Tiles, live, own_name, live-cons, Tiles-end, Tiles-same, spare, Crowded,
}
use quark_os.Fs.Ext2.Directory.Merge.{merge_dir_entry-Merges}
use quark_os.Prelude.{
  ℕ, zero, suc, ◌+◌, ◌-◌, ◌%◌, ◌^◌, ◌≤◌, ◌<◌, ◌≡◌, ◌≢◌, refl, inl, inr, ◌⊎◌, Bool, true, false,
  List, [], ◌∷◌, ◌++◌, length, arith, sym, ◌∙◌, ap, ◌==◌, ◌!=◌, if◌then◌else◌, store, store_self,
  store_ne, ltb, Option, some, none, ◌>>=◌, Bool-cases, eq_or_ne, subst, append_assoc,
}

module _ (ino type block_size : ℕ) (name : List ℕ) (used : ino ≢ 0)
    (short : length name < file_name_len) (small : block_size < 2 ^ 16) where
  need : ℕ
  need = align4 (length name + header_size)

  need_big : header_size ≤ need
  unfolding need
  need_big = omega arith

  -- A new entry is put and what follows it merged.
  record Puts (b : Block) (o : ℕ) (es : List DirEntry) (r : Option ℕ × Block) : Type 0 where
    at : ℕ
    mid : Block
    after : Block
    left : List DirEntry
    runs : r ≡ (some at, mid)
    merges : merge_dir_entry mid at block_size ≡ some after
    tiles : Tiles after o block_size left
    names : live left ≡ (name, ino) ∷ live es
    before : (x : ℕ) → x < o → after x ≡ b x

  filled : DirEntry → DirEntry
  filled e = record e { inode = ino; name_len = length name % 2 ^ 8; type = type; name = name }

  filled-IsEntry :
      (e : DirEntry) (w : ℕ) → need ≤ w → IsEntry (record (filled e) { entry_size = w })
  unfolding filled need
  filled-IsEntry e w h = record {
    big = omega (arith, h);
    room = λ ne. omega (arith, h, short);
    counted = λ ne. omega (arith, short);
  }

  live-used :
      (e : DirEntry) (es : List DirEntry)
      → e.inode ≢ 0
      → live (e ∷ es) ≡ (e.name, e.inode) ∷ live es
  live-used e es ne = let h : (e.inode == 0) ≡ false = ground (arith, ne) in rw h refl

  put_entry-Puts :
      (b : Block) (o : ℕ) (es : List DirEntry)
      → need ≤ (b o).entry_size
      → Tiles b (o + (b o).entry_size) block_size es
      → Puts b o es (put_entry b o need ino name type)
  unfolding put_entry filled
  put_entry-Puts b o es fits t =
      let e = b o in
      let enough : ltb e.entry_size need ≡ false = ground (arith, fits) in
      let inside = Tiles-end b (o + e.entry_size) block_size es t in
      elim (Bool-cases (ltb (align4 (header_size + 1)) (e.entry_size - need))) [
        | inl split ↦
            let f : DirEntry = record (filled e) { entry_size = need % 2 ^ 16 } in
            let cut = store b o f in
            let at = o + need in
            let g : DirEntry = record (cut at) { inode = 0; entry_size = e.entry_size - need } in
            let b' = store cut at g in
            let word : need % 2 ^ 16 ≡ need = omega (arith, fits, inside, small) in
            let large : 12 < e.entry_size - need = ground (arith, split) in
            let end : at + (e.entry_size - need) ≡ o + e.entry_size = omega (arith, fits) in
            let far : (x : ℕ) → o + e.entry_size ≤ x → b' x ≡ b x = λ x h.
              store_ne cut g (λ same. omega (arith, same, h, large))
              ∙ store_ne b f (λ same. omega (arith, same, h, large)) in
            let rest : Tiles b' (at + (e.entry_size - need)) block_size es =
              subst (λ (x : ℕ). Tiles b' x block_size es) (sym end)
                (Tiles-same b b' (o + e.entry_size) block_size es far t) in
            let g_tiles : Tiles b' at block_size (g ∷ es) = (
              store_self cut at g,
              record {
                big = omega (arith, large);
                room = λ ne. absurd (ne refl);
                counted = λ ne. absurd (ne refl);
              },
              rest,
            ) in
            let (b'', merges, m) = merge_dir_entry-Merges b' at block_size g es g_tiles small in
            let here : b'' o ≡ f =
              m.before o (omega (arith, need_big))
              ∙ store_ne cut g (λ same. omega (arith, same, need_big))
              ∙ store_self b o f in
            let next : o + f.entry_size ≡ at = ap (λ (x : ℕ). o + x) word in
            record {
              at = at;
              mid = b';
              after = b'';
              left = f ∷ m.left;
              runs = rw (enough, split) refl;
              merges = merges;
              tiles = (
                here,
                filled-IsEntry e (need % 2 ^ 16) (omega (arith, word)),
                subst (λ (x : ℕ). Tiles b'' x block_size m.left) (sym next) m.tiles,
              );
              names =
                  live-used f m.left used ∙ ap (λ (l : List (List ℕ × ℕ)). (name, ino) ∷ l) m.names;
              before = λ x h.
                  m.before x (omega (arith, h))
                  ∙ store_ne cut g (λ same. omega (arith, same, h))
                  ∙ store_ne b f (λ same. omega (arith, same, h));
            }
        | inr whole ↦
            let b' = store b o (filled e) in
            let tiles : Tiles b' o block_size (filled e ∷ es) = (
              store_self b o (filled e),
              filled-IsEntry e e.entry_size fits,
              Tiles-same b b' (o + e.entry_size) block_size es
                  (λ x h. store_ne b (filled e) (λ same. omega (arith, same, h, need_big, fits))) t,
            ) in
            let (b'', merges, m) =
              merge_dir_entry-Merges b' o block_size (filled e) es tiles small in
            record {
              at = o;
              mid = b';
              after = b'';
              left = m.left;
              runs = rw (enough, whole) refl;
              merges = merges;
              tiles = m.tiles;
              names = m.names ∙ live-used (filled e) es used;
              before = λ x h. m.before x h ∙ store_ne b (filled e) (λ same. omega (arith, same, h));
            }
      ]

  -- The block with the new entry among its names.
  pub record Adds (b : Block) (o : ℕ) (es : List DirEntry) (b' : Block) : Type 0 where
    pub left : List DirEntry
    pub xs : List (List ℕ × ℕ)
    pub ys : List (List ℕ × ℕ)
    pub tiles : Tiles b' o block_size left
    pub old : live es ≡ xs ++ ys
    pub new : live left ≡ xs ++ ((name, ino) ∷ ys)
    pub before : (x : ℕ) → x < o → b' x ≡ b x

  attempt : Block → ℕ → Option (Bool × Block) → Option (Bool × Block)
  attempt b o rest = new_dir_entry b o ino name type >>= create_step rest block_size

  -- `new_dir_entry` and `merge_dir_entry` at one entry, or NULL
  Tries : Block → ℕ → List DirEntry → Option (Bool × Block) → Type 0
  Tries b o es rest =
      ((attempt b o rest ≡ rest) × (spare (b o) < need))
      ⊎ ((b' : Block) × (attempt b o rest ≡ some (true, b')) × Adds b o es b')

  refused :
      (b b' : Block) (o : ℕ) (rest : Option (Bool × Block))
      → new_dir_entry b o ino name type ≡ some (none, b')
      → attempt b o rest ≡ rest
  unfolding attempt create_step
  refused b b' o rest e =
      ap (λ (m : Option (Option ℕ × Block)). m >>= create_step rest block_size) e

  accepted :
      (b mid after : Block) (o at : ℕ) (rest : Option (Bool × Block))
      → new_dir_entry b o ino name type ≡ some (some at, mid)
      → merge_dir_entry mid at block_size ≡ some after
      → attempt b o rest ≡ some (true, after)
  unfolding attempt create_step
  accepted b mid after o at rest e m =
      ap (λ (m : Option (Option ℕ × Block)). m >>= create_step rest block_size) e
      ∙ ap (λ (m : Option Block). m >>= λ b'. some (true, b')) m

  at_free :
      (b : Block) (o : ℕ)
      → (b o).inode ≡ 0
      → new_dir_entry b o ino name type ≡ some (put_entry b o need ino name type)
  unfolding new_dir_entry need
  at_free b o unused =
      let ok : ltb (length name) file_name_len ≡ true = ground (arith, short) in
      let free : ((b o).inode != 0) ≡ false = ground (arith, unused) in rw (ok, free) refl

  try_free :
      (b : Block) (o : ℕ) (es : List DirEntry) (rest : Option (Bool × Block))
      → (b o).inode ≡ 0
      → Tiles b (o + (b o).entry_size) block_size es
      → Tries b o (b o ∷ es) rest
  unfolding Tries put_entry
  try_free b o es rest unused t = elim (Bool-cases (ltb (b o).entry_size need)) [
    | inl tight ↦
        let null : put_entry b o need ino name type ≡ (none, b) = rw (tight, put_entry) refl in
        inl (refused b b o rest (at_free b o unused ∙ ap some null), ground (arith, tight, unused))
    | inr fits ↦
        let p = put_entry-Puts b o es (ground (arith, fits)) t in
        let zero_inode : ((b o).inode == 0) ≡ true = ground (arith, unused) in
        inr (
          p.after,
          accepted b p.mid p.after o p.at rest (at_free b o unused ∙ ap some p.runs) p.merges,
          record {
            left = p.left;
            xs = [];
            ys = live es;
            tiles = p.tiles;
            old = rw zero_inode refl;
            new = p.names;
            before = p.before;
          },
        )
  ]

  -- The block in which the entry at `o` is cut to `len` bytes.
  carved : Block → ℕ → ℕ → ℕ → Block
  carved b o len room =
      let new = o + len in
      let b' = store b new (record (b new) { entry_size = room % 2 ^ 16 }) in
      store b' o (record (b' o) { entry_size = len % 2 ^ 16 })

  at_used :
      (b : Block) (o len room : ℕ)
      → (b o).inode ≢ 0
      → len ≡ align4 (dir_len (b o))
      → room ≡ ((b o).entry_size + 2 ^ 32 - len) % 2 ^ 32
      → new_dir_entry b o ino name type
        ≡ some (
            if ltb room need
            then (none, b)
            else put_entry (carved b o len room) (o + len) need ino name type)
  unfolding new_dir_entry need carved
  at_used b o len room busy is_len is_room =
      let ok : ltb (length name) file_name_len ≡ true = ground (arith, short) in
      let taken : ((b o).inode != 0) ≡ true = ground (arith, busy) in
      rw (is_room, is_len, ok, taken) refl

  module _ (b : Block) (o len room : ℕ) (big : header_size ≤ len) where
    front : DirEntry
    front = record (b o) { entry_size = len % 2 ^ 16 }

    carved_here : carved b o len room o ≡ front
    unfolding carved front
    carved_here =
        let first : DirEntry = record (b (o + len)) { entry_size = room % 2 ^ 16 } in
        let there : o + len ≢ o = λ e. omega (arith, e, big) in
        store_self (store b (o + len) first) o
          (record (store b (o + len) first o) { entry_size = len % 2 ^ 16 })
        ∙ ap (λ (x : DirEntry). record x { entry_size = len % 2 ^ 16 }) (store_ne b first there)

    carved_new : (carved b o len room (o + len)).entry_size ≡ room % 2 ^ 16
    unfolding carved
    carved_new =
        let first : DirEntry = record (b (o + len)) { entry_size = room % 2 ^ 16 } in
        let there : o ≢ o + len = λ e. omega (arith, e, big) in
        let e =
          store_ne (store b (o + len) first)
            (record (store b (o + len) first o) { entry_size = len % 2 ^ 16 }) there in
        ap (λ (x : DirEntry). x.entry_size) (e ∙ store_self b (o + len) first)

    carved_else : (x : ℕ) → x ≢ o → x ≢ o + len → carved b o len room x ≡ b x
    unfolding carved
    carved_else x ne ne' =
        let first : DirEntry = record (b (o + len)) { entry_size = room % 2 ^ 16 } in
        store_ne (store b (o + len) first)
          (record (store b (o + len) first o) { entry_size = len % 2 ^ 16 }) (λ e. ne (sym e))
        ∙ store_ne b first (λ e. ne' (sym e))

    try_carved :
        (es : List DirEntry) (rest : Option (Bool × Block))
        → (b o).inode ≢ 0
        → IsEntry (b o)
        → Tiles b (o + (b o).entry_size) block_size es
        → len ≡ align4 (dir_len (b o))
        → len + room ≡ (b o).entry_size
        → Tries b o (b o ∷ es) rest
    unfolding Tries front
    try_carved es rest busy ent t is_len sum =
        let inside = Tiles-end b (o + (b o).entry_size) block_size es t in
        let cut = carved b o len room in
        let is_room : room ≡ ((b o).entry_size + 2 ^ 32 - len) % 2 ^ 32 =
          omega (arith, sum, inside, small) in
        let eq = at_used b o len room busy is_len is_room in
        let width : (cut (o + len)).entry_size ≡ room =
          carved_new ∙ omega (arith, sum, inside, small) in
        let word : len % 2 ^ 16 ≡ len = omega (arith, sum, inside, small) in
        elim (Bool-cases (ltb room need)) [
          | inl tight ↦
              inl
                (refused b b o rest (eq ∙ rw tight refl), ground (arith, tight, busy, is_len, sum))
          | inr fits ↦
              let wide : need ≤ room = ground (arith, fits) in
              let enough : need ≤ (cut (o + len)).entry_size = omega (arith, wide, width) in
              let end : o + (b o).entry_size ≡ o + len + (cut (o + len)).entry_size =
                omega (arith, sum, width) in
              let far =
                Tiles-same b cut (o + (b o).entry_size) block_size es
                  (λ x h.
                    carved_else x (λ e. omega (arith, e, h, sum, big))
                      (λ e. omega (arith, e, h, sum, wide, need_big)))
                  t in
              let p =
                put_entry-Puts cut (o + len) es enough
                  (subst (λ (x : ℕ). Tiles cut x block_size es) end far) in
              let next : o + len ≡ o + front.entry_size = omega (arith, word) in
              inr (
                p.after,
                accepted b p.mid p.after o p.at rest (eq ∙ rw fits (ap some p.runs)) p.merges,
                record {
                  left = front ∷ p.left;
                  xs = ((b o).name, (b o).inode) ∷ [];
                  ys = live es;
                  tiles = (
                    p.before o (omega (arith, big)) ∙ carved_here,
                    record {
                      big = omega (arith, word, big);
                      room = λ ne. omega (arith, word, is_len);
                      counted = ent.counted;
                    },
                    subst (λ (x : ℕ). Tiles p.after x block_size p.left) next p.tiles,
                  );
                  old = live-used (b o) es busy;
                  new =
                      live-used front p.left busy
                      ∙ ap (λ (l : List (List ℕ × ℕ)). ((b o).name, (b o).inode) ∷ l) p.names;
                  before = λ x h.
                      p.before x (omega (arith, h))
                      ∙ carved_else x (λ e. omega (arith, e, h)) (λ e. omega (arith, e, h));
                },
              )
        ]

  try_entry :
      (b : Block) (o : ℕ) (es : List DirEntry) (rest : Option (Bool × Block))
      → IsEntry (b o)
      → Tiles b (o + (b o).entry_size) block_size es
      → Tries b o (b o ∷ es) rest
  try_entry b o es rest ent t = elim (eq_or_ne (b o).inode 0) [
    | inl unused ↦ try_free b o es rest unused t
    | inr busy ↦
        let len = align4 (dir_len (b o)) in
        try_carved b o len ((b o).entry_size - len) (omega arith) es rest busy ent t refl
          (omega (arith, ent.room busy))
  ]

  -- An entry before those among which the name is.
  further :
      (b b' : Block) (o : ℕ) (e : DirEntry) (es : List DirEntry)
      → b o ≡ e
      → IsEntry e
      → Adds b (o + e.entry_size) es b'
      → Adds b o (e ∷ es) b'
  further b b' o e es at ent a = record {
    left = e ∷ a.left;
    xs = own_name e ++ a.xs;
    ys = a.ys;
    tiles = (a.before o (omega (arith, ent.big)) ∙ at, ent, a.tiles);
    old =
        live-cons e es
        ∙ ap (λ (l : List (List ℕ × ℕ)). own_name e ++ l) a.old
        ∙ sym (append_assoc (own_name e) a.xs a.ys);
    new =
        live-cons e a.left
        ∙ ap (λ (l : List (List ℕ × ℕ)). own_name e ++ l) a.new
        ∙ sym (append_assoc (own_name e) a.xs ((name, ino) ∷ a.ys));
    before = λ x h. a.before x (omega (arith, h));
  }

  -- The loop of `create_dir_entry` over one block finds no room and changes nothing, or adds the name.
  create_loop-Adds :
      (fuel : ℕ) (b : Block) (o : ℕ) (es : List DirEntry)
      → Tiles b o block_size es
      → block_size < fuel + o
      → ((create_loop fuel b o block_size block_size ino name type ≡ some (false, b))
          × Crowded need es)
        ⊎ ((b' : Block) × (create_loop fuel b o block_size block_size ino name type
              ≡ some (true, b'))
            × Adds b o es b')
  unfolding create_loop Tries attempt
  create_loop-Adds zero b o es t enough =
      absurd (omega (arith, Tiles-end b o block_size es t, enough))
  create_loop-Adds (suc fuel) b o [] t enough =
      let stop : ltb o block_size ≡ false = ground (arith, t) in inl (rw stop refl, tt)
  create_loop-Adds (suc fuel) b o (e ∷ es) t enough =
      let go : ltb o block_size ≡ true =
        ground (arith, Tiles-end b (o + e.entry_size) block_size es t.2, t.1.big) in
      let width : (b o).entry_size ≡ e.entry_size = ap (λ (x : DirEntry). x.entry_size) t.0 in
      let next : next_entry b o ≡ o + e.entry_size = ap (λ (x : ℕ). o + x) width in
      let rest = create_loop fuel b (next_entry b o) block_size block_size ino name type in
      let tail : Tiles b (o + (b o).entry_size) block_size es =
        subst (λ (x : ℕ). Tiles b x block_size es) (sym next) t.2 in
      elim (try_entry b o es rest (subst (λ x. IsEntry x) (sym t.0) t.1) tail) [
        | inl (e₀, tight) ↦
            elim (create_loop-Adds fuel b (next_entry b o) es tail
              (omega (arith, enough, next, t.1.big))) [
                | inl (e₁, crowded) ↦
                    inl (rw go (e₀ ∙ e₁), (subst (λ x. spare x < need) t.0 tight, crowded))
                | inr (b', e₁, a) ↦ inr (
                  b',
                  rw go (e₀ ∙ e₁),
                  further b b' o e es t.0 t.1 (subst (λ (x : ℕ). Adds b x es b') next a),
                )
              ]
        | inr (b', e₀, a) ↦ inr (b', rw go e₀, subst (λ x. Adds b o (x ∷ es) b') t.0 a)
      ]

-- In a block that entries fill, `create_dir_entry` of a name of fewer than 128 bytes for an inode other than 0 either
-- finds no entry with enough bytes to spare and changes nothing, or leaves a block that entries fill, in which the
-- name has been added to the names in use, whose order is kept. The blocks have less than 64 KiB.
pub create_loop_lem :
    (b : Block) (ino type block_size : ℕ) (name : List ℕ) (es : List DirEntry)
    → Tiles b 0 block_size es
    → ino ≢ 0
    → length name < file_name_len
    → block_size < 2 ^ 16
    → ((create_loop (suc block_size) b 0 block_size block_size ino name type ≡ some (false, b))
        × Crowded (align4 (length name + header_size)) es)
      ⊎ ((b' : Block) × ((left : List DirEntry) × ((xs : List (List ℕ × ℕ)) × ((ys : List
                  (List ℕ × ℕ))
                × (create_loop (suc block_size) b 0 block_size block_size ino name type
                    ≡ some (true, b'))
                × Tiles b' 0 block_size left
                × (live es ≡ xs ++ ys)
                × (live left ≡ xs ++ ((name, ino) ∷ ys))))))
unfolding need
create_loop_lem b ino type block_size name es t used short small =
    elim (create_loop-Adds ino type block_size name used short small (suc block_size) b 0 es t
      (omega arith)) [
        | inl tight ↦ inl tight
        | inr (b', runs, a) ↦ inr (b', (a.left, (a.xs, (a.ys, runs, a.tiles, a.old, a.new))))
      ]
