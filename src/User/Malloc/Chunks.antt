-- ===== src/User/Malloc/Chunks.antt =====
-- userspace/malloc.c: a list of chunks that lie one behind the other, as their sizes and whether they are used.
use quark_os.User.Malloc.{Chunk, heap_magic}
use quark_os.Prelude.{ℕ, ◌+◌, ◌<◌, ◌≤◌, Bool, List, [], ◌∷◌, ◌++◌, ◌≡◌, refl, subst, ◌∙◌, arith}

abbrev pub Piece : Type 0
Piece = ℕ × Bool

-- The bytes of chunks
abbrev pub bytes : List Piece → ℕ
bytes [] = 0
bytes (x ∷ xs) = x.0 + bytes xs

-- The address of the first of some chunks at `a`, NULL if there are none
abbrev pub start_of : List Piece → ℕ → ℕ
start_of [] a = 0
start_of (x ∷ xs) a = a

-- The header of a chunk, and its link
pub record IsChunk (c : Chunk) (a : ℕ) (x : Piece) (xs : List Piece) : Type 0 where
  pub has_size : c.size ≡ x.0
  pub has_used : c.used ≡ x.1
  pub has_magic : c.magic ≡ heap_magic
  pub has_next : c.next ≡ start_of xs (a + x.0)
  pub not_empty : 0 < x.0

-- The chunks at `a`
abbrev pub Chain : (ℕ → Chunk) → ℕ → List Piece → Type 0
Chain m a [] = Unit
Chain m a (x ∷ xs) = IsChunk (m a) a x xs × Chain m (a + x.0) xs

-- Headers before the chunks may change.
pub Chain-frame :
    (m m' : ℕ → Chunk) (a : ℕ) (xs : List Piece)
    → ((p : ℕ) → a ≤ p → m p ≡ m' p)
    → Chain m a xs
    → Chain m' a xs
Chain-frame m m' a [] f c = tt
Chain-frame m m' a (x ∷ xs) f (c, cs) = (
  subst (λ (k : Chunk). IsChunk k a x xs) (f a (omega arith)) c,
  Chain-frame m m' (a + x.0) xs (λ p le. f p (omega (arith, le))) cs,
)

-- The chunks behind others
pub Chain-append :
    (m : ℕ → Chunk) (a : ℕ) (xs ys : List Piece) → Chain m a (xs ++ ys) → Chain m (a + bytes xs) ys
Chain-append m a [] ys c = let at : a ≡ a + 0 = omega arith in subst (λ (b : ℕ). Chain m b ys) at c
Chain-append m a (x ∷ xs) ys (c, cs) =
    let at : a + x.0 + bytes xs ≡ a + (x.0 + bytes xs) = omega arith in
    subst (λ (b : ℕ). Chain m b ys) at (Chain-append m (a + x.0) xs ys cs)

start_of-append :
    (xs : List Piece) (y z : Piece) (ys zs : List Piece) (a : ℕ)
    → start_of (xs ++ (y ∷ ys)) a ≡ start_of (xs ++ (z ∷ zs)) a
start_of-append [] y z ys zs a = refl
start_of-append (x ∷ xs) y z ys zs a = refl

-- Chunks from one on are replaced by others.
pub Chain-replace :
    (m m' : ℕ → Chunk) (a : ℕ) (xs : List Piece) (y z : Piece) (ys zs : List Piece)
    → ((p : ℕ) → p < a + bytes xs → m p ≡ m' p)
    → Chain m a (xs ++ (y ∷ ys))
    → Chain m' (a + bytes xs) (z ∷ zs)
    → Chain m' a (xs ++ (z ∷ zs))
Chain-replace m m' a [] y z ys zs f c d =
    let at : a + 0 ≡ a = omega arith in subst (λ (b : ℕ). Chain m' b (z ∷ zs)) at d
Chain-replace m m' a (x ∷ xs) y z ys zs f (c, cs) d =
    let pos = c.not_empty in
    let at : a + (x.0 + bytes xs) ≡ a + x.0 + bytes xs = omega arith in
    let same = f a (omega (arith, pos)) in
    let link = start_of-append xs y z ys zs (a + x.0) in
    (
      subst (λ (k : Chunk). IsChunk k a x (xs ++ (z ∷ zs))) same
          (record {
            has_size = c.has_size;
            has_used = c.has_used;
            has_magic = c.has_magic;
            has_next = c.has_next ∙ link;
            not_empty = pos;
          }),
      Chain-replace m m' (a + x.0) xs y z ys zs (λ p lt. f p (omega (arith, lt))) cs
          (subst (λ (b : ℕ). Chain m' b (z ∷ zs)) at d),
    )
