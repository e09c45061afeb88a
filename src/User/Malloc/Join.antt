-- ===== src/User/Malloc/Join.antt =====
-- userspace/malloc.c: giving a chunk back, which joins the free chunks behind it.
use quark_os.User.Malloc.{Heap, Chunk, heap_magic, header_bytes, chunk_header, join_loop, free}
use quark_os.User.Malloc.Chunks.{
  Piece, bytes, start_of, IsChunk, Chain, Chain-frame, Chain-append, Chain-replace,
}
use quark_os.Prelude.{
  ℕ, zero, suc, ◌+◌, ◌-◌, ◌%◌, ◌^◌, ◌<◌, true, false, ◌||◌, some, List, [], ◌∷◌, ◌++◌, length, ◌==◌,
  if◌then◌else◌, store, store_self, store_ne, if-elim, ◌≡◌, ◌≢◌, refl, sym, ap, ap₂, subst, ◌∙◌,
  arith,
}

abbrev pub AllFree : List Piece → Type 0
AllFree [] = Unit
AllFree (x ∷ xs) = (x.1 ≡ false) × AllFree xs

-- The chunks are at their end, or the next one is used.
abbrev pub Stops : List Piece → Type 0
Stops [] = Unit
Stops (x ∷ xs) = x.1 ≡ true

join_loop-Stops :
    (fuel : ℕ) (h : Heap) (c b size : ℕ) (zs : List Piece)
    → Stops zs
    → Chain h.chunk b zs
    → join_loop (suc fuel) h c (start_of zs b) size ≡ some (start_of zs b, size)
unfolding join_loop
join_loop-Stops fuel h c b size [] st d = refl
join_loop-Stops fuel h c b size (z ∷ zs) st (d, ds) =
    let used = d.has_used ∙ st in
    let or_true : ((b == 0) || true) ≡ true = ground arith in rw (used, or_true) refl

join_loop-free :
    (fuel : ℕ) (h : Heap) (c b size : ℕ) (fs zs : List Piece)
    → length fs < fuel
    → AllFree fs
    → Stops zs
    → b ≢ 0
    → (h.chunk c).magic ≡ heap_magic
    → size + bytes fs < 2 ^ 32
    → Chain h.chunk b (fs ++ zs)
    → join_loop fuel h c (start_of (fs ++ zs) b) size
      ≡ some (start_of zs (b + bytes fs), size + bytes fs)
unfolding join_loop
join_loop-free zero h c b size fs zs lt af st real magic word d = ground (arith, lt)
join_loop-free (suc fuel) h c b size [] zs lt af st real magic word d =
    let at : b + 0 ≡ b = omega arith in
    let same : size + 0 ≡ size = omega arith in
    rw (at, same) (join_loop-Stops fuel h c b size zs st d)
join_loop-free (suc fuel) h c b size (x ∷ fs) zs lt (af, afs) st real magic word (d, ds) =
    let unused = d.has_used ∙ af in
    let go : (b == 0) ≡ false = ground (arith, real) in
    let ok : ((h.chunk c).magic == heap_magic) ≡ true = ground (arith, magic) in
    let n = d.has_size in
    let link = d.has_next in
    let sum : (size + x.0) % 2 ^ 32 ≡ size + x.0 = omega (arith, word) in
    let ih =
      join_loop-free fuel h c (b + x.0) (size + x.0) fs zs (omega (arith, lt)) afs st
        (λ e. real (omega (arith, e))) magic (omega (arith, word)) ds in
    let at : b + x.0 + bytes fs ≡ b + (x.0 + bytes fs) = omega arith in
    let all : size + x.0 + bytes fs ≡ size + (x.0 + bytes fs) = omega arith in
    rw (unused, go, ok, n, link, sum) (rw (at, all) at ih)

-- The end of `free`: the chunk at `c`, no longer used, with what it is joined with
joined-Chain :
    (m : ℕ → Chunk) (c n : ℕ) (fs zs : List Piece) (d : Chunk)
    → Chain m c ((n, true) ∷ (fs ++ zs))
    → IsChunk d c (n + bytes fs, false) zs
    → Chain (store m c d) c ((n + bytes fs, false) ∷ zs)
joined-Chain m c n fs zs d (k, ks) new =
    let pos = k.not_empty in
    let self = store_self m c d in
    let rest = Chain-append m (c + n) fs zs ks in
    let at : c + n + bytes fs ≡ c + (n + bytes fs) = omega arith in
    (
      subst (λ (e : Chunk). IsChunk e c (n + bytes fs, false) zs) (sym self) new,
      Chain-frame m (store m c d) (c + (n + bytes fs)) zs
          (λ p le. sym (store_ne m {j = p} d (λ e. omega (arith, e, le, pos))))
          (subst (λ (b : ℕ). Chain m b zs) at rest),
    )

-- What `free` leaves of the heap: only the header at `c` differs.
pub record Frees (h : Heap) (c n : ℕ) (fs zs : List Piece) (h' : Heap) : Type 0 where
  pub chain : Chain h'.chunk c ((n + bytes fs, false) ∷ zs)
  pub others : (p : ℕ) → p < c → h.chunk p ≡ h'.chunk p
  pub same_head : h'.head ≡ h.head

eq_of_test : (a b : ℕ) → (a == b) ≡ true → a ≡ b
eq_of_test a b e = ground (arith, e)

next_behind : (zs : List Piece) (a m : ℕ) → 0 < m → 0 < a → start_of zs (a + m) ≢ a
next_behind [] a m pos real e = omega (arith, real, e)
next_behind (z ∷ zs) a m pos real e = omega (arith, pos, e)

-- The header of the chunk when it is no longer used, and when it is joined with the free ones behind it
abbrev unused_at : Heap → ℕ → Chunk
unused_at h c = record (h.chunk c) { used = false }

abbrev joined_at : Heap → ℕ → ℕ → ℕ → Chunk
joined_at h c p size = record (store h.chunk c (unused_at h c) c) { next = p; size = size }

unused-Frees :
    (h : Heap) (c n : ℕ) (fs zs : List Piece)
    → start_of zs (c + n + bytes fs) ≡ (h.chunk c).next
    → Chain h.chunk c ((n, true) ∷ (fs ++ zs))
    → Frees h c n fs zs (record h { chunk = store h.chunk c (unused_at h c) })
unused-Frees h c n [] zs e (k, ks) = record {
  chain =
      joined-Chain h.chunk c n [] zs (unused_at h c) (k, ks)
        (record {
          has_size = k.has_size ∙ omega arith;
          has_used = refl;
          has_magic = k.has_magic;
          has_next =
              let at : c + n + 0 ≡ c + (n + 0) = omega arith in
              sym e ∙ ap (λ (b : ℕ). start_of zs b) at;
          not_empty = let pos = k.not_empty in omega (arith, pos);
        });
  others = λ p lt. sym (store_ne h.chunk {j = p} _ (λ f. omega (arith, f, lt)));
  same_head = refl;
}
unused-Frees h c n (x ∷ fs) zs e (k, ks) =
    let pos = k.not_empty in
    let first = ks.0.not_empty in
    let no = next_behind zs (c + n) (x.0 + bytes fs) (omega (arith, first)) (omega (arith, pos)) in
    absurd (no (e ∙ k.has_next))

joined-Frees :
    (h : Heap) (c n t : ℕ) (fs zs : List Piece)
    → Chain h.chunk c ((n, true) ∷ (fs ++ zs))
    → Frees h c n fs zs (record h {
      chunk =
          store
            (store h.chunk c (unused_at h c))
            c
            (joined_at h c (start_of zs (c + n + bytes fs)) (n + bytes fs));
      tail = t;
    })
joined-Frees h c n t fs zs (k, ks) =
    let pos = k.not_empty in
    let m1 = store h.chunk c (unused_at h c) in
    let new = joined_at h c (start_of zs (c + n + bytes fs)) (n + bytes fs) in
    let self = store_self h.chunk c (unused_at h c) in
    let same : (p : ℕ) → store h.chunk c new p ≡ store m1 c new p = λ p. ground arith in
    let at : c + n + bytes fs ≡ c + (n + bytes fs) = omega arith in
    record {
      chain =
          Chain-frame (store h.chunk c new) (store m1 c new) c ((n + bytes fs, false) ∷ zs)
            (λ p le. same p)
            (joined-Chain h.chunk c n fs zs new (k, ks)
              (record {
                has_size = refl;
                has_used = ap (λ (d : Chunk). d.used) self;
                has_magic = ap (λ (d : Chunk). d.magic) self ∙ k.has_magic;
                has_next = ap (λ (b : ℕ). start_of zs b) at;
                not_empty = omega (arith, pos);
              }));
      others = λ p lt. sym (
          store_ne m1 {j = p} new (λ f. omega (arith, f, lt))
          ∙ store_ne h.chunk {j = p} (unused_at h c) (λ f. omega (arith, f, lt)));
      same_head = refl;
    }

free-Frees :
    (fuel : ℕ) (h : Heap) (c n : ℕ) (fs zs : List Piece)
    → length fs < fuel
    → AllFree fs
    → Stops zs
    → c + n + bytes fs < 2 ^ 32 - header_bytes
    → Chain h.chunk c ((n, true) ∷ (fs ++ zs))
    → (h' : Heap) × ((free fuel h (c + header_bytes) ≡ some h') × Frees h c n fs zs h')
unfolding free
free-Frees fuel h c n fs zs lt af st word (k, ks) =
    let pos = k.not_empty in
    let at : chunk_header (c + header_bytes) ≡ c = omega (arith, word) in
    let used = k.has_used in
    let ok : ((h.chunk c).magic == heap_magic) ≡ true = let e = k.has_magic in ground (arith, e) in
    let m1 = store h.chunk c (unused_at h c) in
    let h1 = record h { chunk = m1 } in
    let magic = ap (λ (d : Chunk). d.magic) (store_self h.chunk c (unused_at h c)) ∙ k.has_magic in
    let after =
      Chain-frame h.chunk m1 (c + n) (fs ++ zs)
        (λ p le. sym (store_ne h.chunk {j = p} (unused_at h c) (λ e. omega (arith, e, le, pos))))
        ks in
    let loop =
      ap₂ (λ (p : ℕ) (z : ℕ). join_loop fuel h1 c p z) k.has_next k.has_size
      ∙ join_loop-free fuel h1 c (c + n) n fs zs lt af st (λ e. omega (arith, e, pos)) magic
          (omega (arith, word)) after in
    let p = start_of zs (c + n + bytes fs) in
    let t = if p == 0 then c else h.tail in
    let h2 = record h { chunk = store m1 c (joined_at h c p (n + bytes fs)); tail = t } in
    (
      if p == (h.chunk c).next then h1 else h2,
      (
        rw (at, used, ok, loop) refl,
        if-elim (Frees h c n fs zs) (p == (h.chunk c).next)
            (λ e. unused-Frees h c n fs zs (eq_of_test p (h.chunk c).next e) (k, ks))
            (λ e. joined-Frees h c n t fs zs (k, ks)),
      ),
    )

-- `free` of a chunk in use, before chunks that are free and then one in use or the end, gives back that
-- chunk joined with the free ones, and changes no other chunk.
pub free-Chain :
    (fuel : ℕ) (h : Heap) (n : ℕ) (xs fs zs : List Piece)
    → length fs < fuel
    → AllFree fs
    → Stops zs
    → h.head + bytes xs + n + bytes fs < 2 ^ 32 - header_bytes
    → Chain h.chunk h.head (xs ++ ((n, true) ∷ (fs ++ zs)))
    → (h' : Heap) × ((free fuel h (h.head + bytes xs + header_bytes) ≡ some h')
        × ((h'.head ≡ h.head) × Chain h'.chunk h.head (xs ++ ((n + bytes fs, false) ∷ zs))))
free-Chain fuel h n xs fs zs lt af st word c =
    let d = Chain-append h.chunk h.head xs ((n, true) ∷ (fs ++ zs)) c in
    let (h', (runs, f)) = free-Frees fuel h (h.head + bytes xs) n fs zs lt af st word d in
    (
      h',
      (
        runs,
        (
          f.same_head,
          Chain-replace h.chunk h'.chunk h.head xs (n, true) (n + bytes fs, false) (fs ++ zs) zs
              f.others c f.chain,
        ),
      ),
    )
