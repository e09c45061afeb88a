-- ===== src/User/Malloc/Fit.antt =====
-- userspace/malloc.c: taking a chunk, and giving it back.
use quark_os.User.Malloc.{
  Heap, Chunk, heap_magic, header_bytes, align2, alloc_addr, new_chunk, chunk_init, take_whole,
  split_chunk, alloc_chunk, find_chunk, malloc,
}
use quark_os.User.Malloc.Chunks.{
  Piece, bytes, start_of, IsChunk, Chain, Chain-frame, Chain-append, Chain-replace,
}
use quark_os.Prelude.{
  ℕ, zero, suc, ◌+◌, ◌-◌, ◌%◌, ◌^◌, ◌<◌, ◌≤◌, ltb, leb, Bool, true, false, not, ◌&&◌, some, List,
  [], ◌∷◌, ◌++◌, length, ◌==◌, if◌then◌else◌, store, store_self, store_ne, Bool-cases, ◌≡◌, ◌≢◌,
  refl, sym, ap, subst, ◌∙◌, inl, inr, arith,
}

-- The chunks that are left of one that `size` bytes are taken from
abbrev pub taken_from : ℕ → ℕ → List Piece → List Piece
taken_from n size ys =
    if ltb (n - size) 14 then (n, true) ∷ ys else (size, true) ∷ (n - size, false) ∷ ys

-- Taking `size` bytes from a free chunk with as many makes it used, and what is left of it a chunk of its
-- own, unless that would have fewer than 2 bytes behind its header.
take_whole-Chain :
    (h : Heap) (c n : ℕ) (ys : List Piece)
    → Chain h.chunk c ((n, false) ∷ ys)
    → Chain (take_whole h c).chunk c ((n, true) ∷ ys)
unfolding take_whole
take_whole-Chain h c n ys (d, ds) =
    let pos = d.not_empty in
    let self = store_self h.chunk c (record (h.chunk c) { used = true }) in
    (
      subst (λ (k : Chunk). IsChunk k c (n, true) ys) (sym self)
          (record {
            has_size = d.has_size;
            has_used = refl;
            has_magic = d.has_magic;
            has_next = d.has_next;
            not_empty = pos;
          }),
      Chain-frame h.chunk _ (c + n) ys
          (λ p le. sym (store_ne h.chunk _ ((λ e. omega (arith, e, le, pos))))) ds,
    )

split_chunk-Chain :
    (h : Heap) (c n size : ℕ) (ys : List Piece)
    → Chain h.chunk c ((n, false) ∷ ys)
    → 0 < size
    → size < n
    → c + n ≤ 2 ^ 32
    → Chain (split_chunk h c size (n - size)).chunk c ((size, true) ∷ (n - size, false) ∷ ys)
unfolding split_chunk chunk_init
split_chunk-Chain h c n size ys (d, ds) pos lt word =
    let at : (c + size) % 2 ^ 32 ≡ c + size = omega (arith, lt, word) in
    let m1 = store h.chunk (c + size) (new_chunk (h.chunk c).next (n - size)) in
    let top = record (m1 c) { next = c + size; used = true; size = size } in
    let new = store_self h.chunk (c + size) (new_chunk (h.chunk c).next (n - size)) in
    let old : m1 c ≡ h.chunk c = store_ne h.chunk _ (λ e. omega (arith, e, pos)) in
    let self = store_self m1 c top in
    let below = store_ne m1 {j = c + size} top (λ e. omega (arith, e, pos)) in
    let magic = ap (λ (k : Chunk). k.magic) old ∙ d.has_magic in
    let next = d.has_next in
    let end : c + n ≡ c + size + (n - size) = omega (arith, lt) in
    let whole : (split_chunk h c size (n - size)).chunk ≡ store m1 c top = rw at refl in
    subst (λ (m : ℕ → Chunk). Chain m c ((size, true) ∷ (n - size, false) ∷ ys)) (sym whole)
      (
        subst (λ (k : Chunk). IsChunk k c (size, true) ((n - size, false) ∷ ys)) (sym self)
            (record {
              has_size = refl;
              has_used = refl;
              has_magic = magic;
              has_next = refl;
              not_empty = pos;
            }),
        (
          subst (λ (k : Chunk). IsChunk k (c + size) (n - size, false) ys) (sym (below ∙ new))
              (record {
                has_size = refl;
                has_used = refl;
                has_magic = refl;
                has_next = next ∙ ap (λ (b : ℕ). start_of ys b) end;
                not_empty = omega (arith, lt);
              }),
          Chain-frame h.chunk (store m1 c top) (c + size + (n - size)) ys
              (λ p le. sym (
                store_ne m1 {j = p} top (λ e. omega (arith, e, le, pos))
                ∙ store_ne h.chunk {j = p} _ (λ e. omega (arith, e, le, lt))))
              (subst (λ (b : ℕ). Chain h.chunk b ys) end ds),
        ),
      )

-- What `alloc_chunk` leaves of the heap
pub record Allots (h : Heap) (c : ℕ) (ys : List Piece) (h' : Heap) : Type 0 where
  pub chain : Chain h'.chunk c ys
  pub before : (p : ℕ) → p < c → h.chunk p ≡ h'.chunk p
  pub same_head : h'.head ≡ h.head

take_whole-Allots :
    (h : Heap) (c n : ℕ) (ys : List Piece)
    → Chain h.chunk c ((n, false) ∷ ys)
    → Allots h c ((n, true) ∷ ys) (take_whole h c)
unfolding take_whole
take_whole-Allots h c n ys d = record {
  chain = take_whole-Chain h c n ys d;
  before = λ p lt. sym (store_ne h.chunk {j = p} _ (λ e. omega (arith, e, lt)));
  same_head = refl;
}

split_chunk-Allots :
    (h : Heap) (c n size : ℕ) (ys : List Piece)
    → Chain h.chunk c ((n, false) ∷ ys)
    → 0 < size
    → size < n
    → c + n ≤ 2 ^ 32
    → Allots h c ((size, true) ∷ (n - size, false) ∷ ys) (split_chunk h c size (n - size))
unfolding split_chunk chunk_init
split_chunk-Allots h c n size ys d pos lt word = record {
  chain = split_chunk-Chain h c n size ys d pos lt word;
  before = λ p less.
      let at : (c + size) % 2 ^ 32 ≢ p = λ e. omega (arith, e, less, lt, word) in
      let new = new_chunk (h.chunk c).next (n - size) in
      let m1 = store h.chunk ((c + size) % 2 ^ 32) new in
      sym (store_ne m1 {j = p} _ (λ e. omega (arith, e, less)) ∙ store_ne h.chunk {j = p} new at);
  same_head = refl;
}

alloc_chunk-Allots :
    (h : Heap) (c n size : ℕ) (ys : List Piece)
    → Chain h.chunk c ((n, false) ∷ ys)
    → 0 < size
    → size ≤ n
    → c + n ≤ 2 ^ 32
    → (h' : Heap) × ((alloc_chunk h c size ≡ some (alloc_addr c, h'))
        × Allots h c (taken_from n size ys) h')
unfolding alloc_chunk
alloc_chunk-Allots h c n size ys d pos le word =
    let free = d.0.has_used in
    let magic : ((h.chunk c).magic == heap_magic) ≡ true =
      let e = d.0.has_magic in ground (arith, e) in
    let at = d.0.has_size in
    let left : (n + (2 ^ 32 - size)) % 2 ^ 32 ≡ n - size =
      omega (arith, pos, le, word, d.0.not_empty) in
    elim (Bool-cases (ltb (n - size) 14)) [
      | inl e ↦ (
        take_whole h c,
        (rw (free, magic, at, left, e) refl, rw e (take_whole-Allots h c n ys d)),
      )
      | inr e ↦ (
        split_chunk h c size (n - size),
        (
          rw (free, magic, at, left, e) refl,
          rw e (split_chunk-Allots h c n size ys d pos (ground (arith, e)) word),
        ),
      )
    ]

-- No chunk is free and has `size` bytes.
abbrev pub NoneFits : ℕ → List Piece → Type 0
NoneFits size [] = Unit
NoneFits size (x ∷ xs) = ((not x.1 && leb size x.0) ≡ false) × NoneFits size xs

start_of-fits :
    (xs : List Piece) (n : ℕ) (ys : List Piece) (a : ℕ) → start_of (xs ++ ((n, false) ∷ ys)) a ≡ a
start_of-fits [] n ys a = refl
start_of-fits (x ∷ xs) n ys a = refl

find_chunk-fits :
    (fuel : ℕ) (h : Heap) (a n size : ℕ) (xs ys : List Piece)
    → length xs < fuel
    → a ≢ 0
    → NoneFits size xs
    → size ≤ n
    → Chain h.chunk a (xs ++ ((n, false) ∷ ys))
    → find_chunk fuel h a size ≡ some (a + bytes xs)
unfolding find_chunk
find_chunk-fits zero h a n size xs ys lt real nf le c = ground (arith, lt)
find_chunk-fits (suc fuel) h a n size [] ys lt real nf le c =
    let go : (a == 0) ≡ false = ground (arith, real) in
    let free = c.0.has_used in
    let at = c.0.has_size in
    let fit : leb size n ≡ true = ground (arith, le) in
    let end : a ≡ a + 0 = omega arith in rw (go, free, at, fit) (ap some end)
find_chunk-fits (suc fuel) h a n size (x ∷ xs) ys lt real nf le c =
    let go : (a == 0) ≡ false = ground (arith, real) in
    let used = c.0.has_used in
    let at = c.0.has_size in
    let miss = nf.0 in
    let link = c.0.has_next ∙ start_of-fits xs n ys (a + x.0) in
    let ih =
      find_chunk-fits fuel h (a + x.0) n size xs ys (omega (arith, lt))
        (λ e. real (omega (arith, e))) nf.1 le c.1 in
    let end : a + x.0 + bytes xs ≡ a + (x.0 + bytes xs) = omega arith in
    rw (go, used, at, miss, link) (ih ∙ ap some end)

taken_from-replace :
    (h h' : Heap) (xs : List Piece) (n size : ℕ) (ys : List Piece)
    → Allots h (h.head + bytes xs) (taken_from n size ys) h'
    → Chain h.chunk h.head (xs ++ ((n, false) ∷ ys))
    → Chain h'.chunk h.head (xs ++ taken_from n size ys)
taken_from-replace h h' xs n size ys a c = elim (Bool-cases (ltb (n - size) 14)) [
  | inl e ↦
      let d =
        subst
          (λ (b : Bool).
            Chain h'.chunk (h.head + bytes xs)
              (if b then (n, true) ∷ ys else (size, true) ∷ (n - size, false) ∷ ys))
          e a.chain in
      rw e (Chain-replace h.chunk h'.chunk h.head xs _ _ ys ys a.before c d)
  | inr e ↦
      let d =
        subst
          (λ (b : Bool).
            Chain h'.chunk (h.head + bytes xs)
              (if b then (n, true) ∷ ys else (size, true) ∷ (n - size, false) ∷ ys))
          e a.chain in
      rw e (Chain-replace h.chunk h'.chunk h.head xs _ _ ys ((n - size, false) ∷ ys) a.before c d)
]

-- `malloc` takes the first chunk that is free and large enough for the request and a header, made even.
-- It returns the address behind its header; that chunk is used afterwards, what is left of it is a free
-- chunk of its own unless that would be too small, and no other chunk changes.
pub malloc-Chain :
    (fuel : ℕ) (h : Heap) (b request n : ℕ) (xs ys : List Piece)
    → length xs < fuel
    → h.head ≢ 0
    → request < 2 ^ 31
    → align2 (request + header_bytes) ≤ n
    → h.head + bytes xs + n < 2 ^ 32 - header_bytes
    → NoneFits (align2 (request + header_bytes)) xs
    → Chain h.chunk h.head (xs ++ ((n, false) ∷ ys))
    → (h' : Heap) × ((malloc fuel h b request ≡ some (h.head + bytes xs + header_bytes, h'))
        × ((h'.head ≡ h.head)
            × Chain h'.chunk h.head (xs ++ taken_from n (align2 (request + header_bytes)) ys)))
unfolding malloc
malloc-Chain fuel h b request n xs ys lt real small le word nf c =
    let size = align2 (request + header_bytes) in
    let c0 = h.head + bytes xs in
    let d = Chain-append h.chunk h.head xs ((n, false) ∷ ys) c in
    let found = find_chunk-fits fuel h h.head n size xs ys lt real nf le c in
    let plain : (request + header_bytes) % 2 ^ 32 ≡ request + header_bytes = omega (arith, small) in
    let go : (c0 == 0) ≡ false = ground (arith, real) in
    let pos : 0 < size = omega (arith, small) in
    let (h', (runs, a)) = alloc_chunk-Allots h c0 n size ys d pos le (omega (arith, word)) in
    let at : alloc_addr c0 ≡ c0 + header_bytes = omega (arith, word) in
    let step : malloc fuel h b request ≡ alloc_chunk h c0 size = rw (plain, found, go) refl in
    (
      h',
      (
        step ∙ runs ∙ ap (λ (r : ℕ). some (r, h')) at,
        (a.same_head, taken_from-replace h h' xs n size ys a c),
      ),
    )
