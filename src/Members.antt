-- ===== src/Members.antt =====
-- Lists of numbers without repetitions: membership, and what is left when one is taken out.
use mathlib.Core.List.{reverse, reverse-cons}
use quark_os.Prelude.{
  ℕ, suc, ◌≡◌, ◌≢◌, refl, inl, inr, Bool, true, false, ◌||◌, List, [], ◌∷◌, ◌++◌, ◌∙◌, arith,
  length, ◌==◌, if◌then◌else◌, eq_or_ne,
}

abbrev pub has : ℕ → List ℕ → Bool
has a [] = false
has a (x ∷ xs) = (a == x) || has a xs

abbrev pub Distinct : List ℕ → Type 0
Distinct [] = Unit
Distinct (x ∷ xs) = (has x xs ≡ false) × Distinct xs

-- `list_del`: a node leaves the list that it is on.
abbrev pub without : ℕ → List ℕ → List ℕ
without p [] = []
without p (x ∷ xs) = if x == p then xs else x ∷ without p xs

pub has-append : (a : ℕ) (xs ys : List ℕ) → has a (xs ++ ys) ≡ (has a xs || has a ys)
has-append a [] ys = refl
has-append a (x ∷ xs) ys = ground (arith, has-append a xs ys)

pub Distinct-snoc :
    (xs : List ℕ) (x : ℕ) → Distinct xs → has x xs ≡ false → Distinct (xs ++ (x ∷ []))
Distinct-snoc [] x d out = (refl, tt)
Distinct-snoc (y ∷ xs) x d out =
    (ground (arith, has-append y xs (x ∷ [])), Distinct-snoc xs x d.1 (ground arith))

-- What a list with `x` in the middle says of its parts.
pub Distinct-middle :
    (xs ys : List ℕ) (x : ℕ)
    → Distinct (xs ++ (x ∷ ys))
    → Distinct (xs ++ ys)
      × (has x (xs ++ ys) ≡ false)
      × Distinct xs
      × Distinct ys
      × ((a : ℕ) → has a xs ≡ true → has a ys ≡ false)
Distinct-middle [] ys x d = (d.1, d.0, tt, d.1, λ a m. ground arith)
Distinct-middle (y ∷ xs) ys x d =
    let (whole, out, left, right, sep) = Distinct-middle xs ys x d.1 in
    let e = has-append y xs (x ∷ ys) in
    let e' = has-append y xs ys in
    (
      (ground (arith, e, e', d.0), whole),
      ground (arith, e, d.0, out),
      (ground (arith, e, d.0), left),
      right,
      λ a m. ground (arith, e, d.0, sep a),
    )

-- Deletion from a list without repetitions.
pub has-without_ne : (p q : ℕ) (xs : List ℕ) → q ≢ p → has q (without p xs) ≡ has q xs
has-without_ne p q [] ne = refl
has-without_ne p q (x ∷ xs) ne = ground (arith, has-without_ne p q xs ne)

pub has-without_self : (p : ℕ) (xs : List ℕ) → Distinct xs → has p (without p xs) ≡ false
has-without_self p [] d = refl
has-without_self p (x ∷ xs) d = ground (arith, has-without_self p xs d.1)

pub without-Distinct : (p : ℕ) (xs : List ℕ) → Distinct xs → Distinct (without p xs)
without-Distinct p [] d = tt
without-Distinct p (x ∷ xs) d = elim (eq_or_ne x p) [
  | inl e ↦ let hit : (x == p) ≡ true = ground arith in rw hit d.1
  | inr ne ↦
      let miss : (x == p) ≡ false = ground arith in
      rw miss (ground (arith, has-without_ne p x xs ne, d.0), without-Distinct p xs d.1)
]

pub has-reverse : (a : ℕ) (xs : List ℕ) → has a (reverse xs) ≡ has a xs
has-reverse a [] = refl
has-reverse a (x ∷ xs) =
    rw (reverse-cons x xs) (ground (arith, has-append a (reverse xs) (x ∷ []), has-reverse a xs))

pub Distinct-append :
    (xs ys : List ℕ)
    → Distinct xs
    → Distinct ys
    → ((a : ℕ) → has a xs ≡ true → has a ys ≡ false)
    → Distinct (xs ++ ys)
Distinct-append [] ys d e apart = e
Distinct-append (x ∷ xs) ys d e apart = (
  ground (arith, has-append x xs ys, apart x, d.0),
  Distinct-append xs ys d.1 e (λ a m. apart a (ground arith)),
)

pub Distinct-reverse : (xs : List ℕ) → Distinct xs → Distinct (reverse xs)
Distinct-reverse [] d = tt
Distinct-reverse (x ∷ xs) d =
    rw (reverse-cons x xs)
      (Distinct-snoc (reverse xs) x (Distinct-reverse xs d.1) (has-reverse x xs ∙ d.0))

pub without-absent : (p : ℕ) (xs : List ℕ) → has p xs ≡ false → without p xs ≡ xs
without-absent p [] h = refl
without-absent p (x ∷ xs) h = ground (arith, without-absent p xs)

pub length-without :
    (p : ℕ) (xs : List ℕ) → has p xs ≡ true → suc (length (without p xs)) ≡ length xs
length-without p [] m = absurd (ground arith)
length-without p (x ∷ xs) m = elim (eq_or_ne x p) [
  | inl e ↦ let hit : (x == p) ≡ true = ground arith in rw hit refl
  | inr ne ↦
      let miss : (x == p) ≡ false = ground arith in
      rw miss (omega (arith, length-without p xs (ground arith)))
]
