-- ===== src/Klib/LinkedList/Ring.antt =====
-- What it is for pointers to form a circular list, and how local changes affect it.
use quark_os.Members.{Distinct, has}
use quark_os.Prelude.{ℕ, ◌≡◌, ◌≢◌, true, false, List, [], ◌∷◌, ◌++◌, arith}
use quark_os.Klib.LinkedList.{Links}

-- From `p` the pointers lead through `xs` to `q`, and back.
abbrev pub Chain : Links → ℕ → List ℕ → ℕ → Type 0
Chain h p [] q = (h.next p ≡ q) × (h.prev q ≡ p)
Chain h p (x ∷ xs) q = (h.next p ≡ x) × (h.prev x ≡ p) × Chain h x xs q

-- The list under `header` holds the nodes `xs` in this order.
pub record IsRing (h : Links) (header : ℕ) (xs : List ℕ) : Type 0 where
  pub chain : Chain h header xs header
  pub apart : has header xs ≡ false
  pub distinct : Distinct xs

pub Chain-join :
    (h : Links) (p x q : ℕ) (xs ys : List ℕ)
    → Chain h p xs x
    → Chain h x ys q
    → Chain h p (xs ++ (x ∷ ys)) q
Chain-join h p x q [] ys a b = (a.0, a.1, b)
Chain-join h p x q (y ∷ xs) ys a b = (a.0, a.1, Chain-join h y x q xs ys a.2 b)

pub Chain-split :
    (h : Links) (p x q : ℕ) (xs ys : List ℕ)
    → Chain h p (xs ++ (x ∷ ys)) q
    → Chain h p xs x × Chain h x ys q
Chain-split h p x q [] ys c = ((c.0, c.1), c.2)
Chain-split h p x q (y ∷ xs) ys c = let (a, b) = Chain-split h y x q xs ys c.2 in ((c.0, c.1, a), b)

-- The node before the end of a chain is on it.
pub prev-mem : (h : Links) (p q : ℕ) (xs : List ℕ) → Chain h p xs q → has (h.prev q) (p ∷ xs) ≡ true
prev-mem h p q [] c = ground arith
prev-mem h p q (x ∷ xs) c = ground (arith, prev-mem h x q xs c.2)

-- A chain does not notice changes elsewhere.
pub Chain-frame :
    (h g : Links) (p q : ℕ) (xs : List ℕ)
    → ((a : ℕ) → has a (p ∷ xs) ≡ true → g.next a ≡ h.next a)
    → ((a : ℕ) → has a (q ∷ xs) ≡ true → g.prev a ≡ h.prev a)
    → Chain h p xs q
    → Chain g p xs q
Chain-frame h g p q [] fwd bwd c = ground (arith, fwd p, bwd q)
Chain-frame h g p q (x ∷ xs) fwd bwd c = (
  ground (arith, fwd p),
  ground (arith, bwd x),
  Chain-frame h g x q xs (λ a m. fwd a (ground arith)) (λ a m. bwd a (ground arith)) c.2,
)

-- A chain whose last node is linked to `r` in place of `q` leads to `r`.
pub Chain-retarget :
    (h g : Links) (p q r : ℕ) (xs : List ℕ)
    → has p xs ≡ false
    → Distinct xs
    → g.next (h.prev q) ≡ r
    → g.prev r ≡ h.prev q
    → ((a : ℕ) → has a (p ∷ xs) ≡ true → a ≢ h.prev q → g.next a ≡ h.next a)
    → ((a : ℕ) → has a xs ≡ true → g.prev a ≡ h.prev a)
    → Chain h p xs q
    → Chain g p xs r
Chain-retarget h g p q r [] out d there back fwd bwd c = ground arith
Chain-retarget h g p q r (x ∷ xs) out d there back fwd bwd c =
    let last = prev-mem h x q xs c.2 in
    (
      ground (arith, fwd p, last),
      ground (arith, bwd x),
      Chain-retarget h g x q r xs d.0 d.1 there back (λ a m. fwd a (ground arith))
          (λ a m. bwd a (ground arith)) c.2,
    )
