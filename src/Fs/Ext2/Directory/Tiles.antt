-- ===== src/Fs/Ext2/Directory/Tiles.antt =====
-- Directory blocks of kernel/fs/ext2/dir.c that entries fill without gaps, seen as their entries in order.
use quark_os.Fs.Ext2.Directory.{DirEntry, Block, header_size, align4, dir_len}
use quark_os.Prelude.{
  ℕ, ◌+◌, ◌-◌, ◌≤◌, ◌<◌, ◌≡◌, ◌≢◌, refl, inl, inr, List, [], ◌∷◌, ◌++◌, length, arith, ◌∙◌,
  Bool-cases, ◌==◌, if◌then◌else◌,
}

pub record IsEntry (e : DirEntry) : Type 0 where
  pub big : header_size ≤ e.entry_size
  pub room : e.inode ≢ 0 → dir_len e ≤ e.entry_size
  pub counted : e.inode ≢ 0 → e.name_len ≡ length e.name

-- The entries `es` fill the block from `o` to `end`.
abbrev pub Tiles : Block → ℕ → ℕ → List DirEntry → Type 0
Tiles b o end [] = o ≡ end
Tiles b o end (e ∷ es) = (b o ≡ e) × IsEntry e × Tiles b (o + e.entry_size) end es

-- The names in use and their inodes.
abbrev pub live : List DirEntry → List (List ℕ × ℕ)
live [] = []
live (e ∷ es) = if e.inode == 0 then live es else (e.name, e.inode) ∷ live es

pub Tiles-end : (b : Block) (o end : ℕ) (es : List DirEntry) → Tiles b o end es → o ≤ end
Tiles-end b o end [] t = omega (arith, t)
Tiles-end b o end (e ∷ es) t = omega (arith, Tiles-end b (o + e.entry_size) end es t.2)

pub Tiles-same :
    (b b' : Block) (o end : ℕ) (es : List DirEntry)
    → ((x : ℕ) → o ≤ x → b' x ≡ b x)
    → Tiles b o end es
    → Tiles b' o end es
Tiles-same b b' o end [] same t = t
Tiles-same b b' o end (e ∷ es) same t = (
  same o (omega arith) ∙ t.0,
  t.1,
  Tiles-same b b' (o + e.entry_size) end es (λ x h. same x (omega (arith, h))) t.2,
)

-- What an entry adds to the names.
abbrev pub own_name : DirEntry → List (List ℕ × ℕ)
own_name e = if e.inode == 0 then [] else (e.name, e.inode) ∷ []

pub live-cons : (e : DirEntry) (es : List DirEntry) → live (e ∷ es) ≡ own_name e ++ live es
live-cons e es = elim (Bool-cases (e.inode == 0)) [ inl h ↦ rw h refl | inr h ↦ rw h refl ]

-- The bytes of an entry that a new one can have.
abbrev pub spare : DirEntry → ℕ
spare e = if e.inode == 0 then e.entry_size else e.entry_size - align4 (dir_len e)

-- No entry has as many bytes to spare.
abbrev pub Crowded : ℕ → List DirEntry → Type 0
Crowded need [] = Unit
Crowded need (e ∷ es) = (spare e < need) × Crowded need es
