-- ===== src/Klib/Queue/Fifo.antt =====
-- The linked queue of kernel/lib/queue.c as a list.
use quark_os.Members.{Distinct, Distinct-snoc, has, has-append}
use quark_os.Prelude.{
  ℕ, ◌≡◌, ◌≢◌, refl, true, false, List, [], ◌∷◌, ◌++◌, arith, ◌==◌, store, sym, subst,
}
use quark_os.Klib.Queue.{LfQueue, init, put, get}

-- From `p` the nodes `xs` are linked, and the last one to NULL.
abbrev Linked : (ℕ → ℕ) → ℕ → List ℕ → Type 0
Linked next p [] = next p ≡ 0
Linked next p (x ∷ xs) = (next p ≡ x) × (x ≢ 0) × Linked next x xs

-- `tail` is the last node, if there is one.
abbrev EndsAt : ℕ → List ℕ → Type 0
EndsAt t [] = Unit
EndsAt t (x ∷ []) = t ≡ x
EndsAt t (x ∷ (y ∷ ys)) = EndsAt t (y ∷ ys)

pub record IsQueue (q : LfQueue) (xs : List ℕ) : Type 0 where
  pub linked : Linked q.next q.head xs
  pub ends : EndsAt q.tail xs
  pub apart : has q.head xs ≡ false
  pub distinct : Distinct xs

Linked-frame :
    (f g : ℕ → ℕ) (p : ℕ) (xs : List ℕ)
    → ((a : ℕ) → has a (p ∷ xs) ≡ true → g a ≡ f a)
    → Linked f p xs
    → Linked g p xs
Linked-frame f g p [] same l = ground (arith, same p)
Linked-frame f g p (x ∷ xs) same l =
    (ground (arith, same p), l.1, Linked-frame f g x xs (λ a m. same a (ground arith)) l.2)

ends-mem : (t : ℕ) (x : ℕ) (xs : List ℕ) → EndsAt t (x ∷ xs) → has t (x ∷ xs) ≡ true
ends-mem t x [] e = ground arith
ends-mem t x (y ∷ ys) e = ground (arith, ends-mem t y ys e)

-- Linking `node` behind the last node of a list that is not empty.
Linked-snoc :
    (f : ℕ → ℕ) (p t node x : ℕ) (xs : List ℕ)
    → Linked f p (x ∷ xs)
    → EndsAt t (x ∷ xs)
    → has p (x ∷ xs) ≡ false
    → Distinct (x ∷ xs)
    → node ≢ 0
    → has node (p ∷ (x ∷ xs)) ≡ false
    → Linked (store (store f t node) node 0) p (x ∷ (xs ++ (node ∷ [])))
Linked-snoc f p t node x [] l e out d real new = ground arith
Linked-snoc f p t node x (y ∷ ys) l e out d real new =
    let at = ends-mem t y ys e in
    (ground arith, l.1, Linked-snoc f x t node y ys l.2 e d.0 d.1 real (ground arith))

ends_snoc : (t : ℕ) (xs : List ℕ) → EndsAt t (xs ++ (t ∷ []))
ends_snoc t [] = refl
ends_snoc t (x ∷ []) = refl
ends_snoc t (x ∷ (y ∷ ys)) = ends_snoc t (y ∷ ys)

pub init-IsQueue : (next : ℕ → ℕ) (dummy : ℕ) → IsQueue (init next dummy) []
unfolding init
init-IsQueue next dummy = record { linked = ground arith; ends = tt; apart = refl; distinct = tt }

put-Linked :
    (q : LfQueue) (node : ℕ) (xs : List ℕ)
    → IsQueue q xs
    → node ≢ 0
    → has node (q.head ∷ xs) ≡ false
    → Linked (put q node).next (put q node).head (xs ++ (node ∷ []))
unfolding put
put-Linked q node [] is real new = ground (arith, is.linked)
put-Linked q node (x ∷ xs) is real new =
    let first : (q.next q.head == 0) ≡ false = ground (arith, is.linked) in
    let e : (put q node).next ≡ store (store q.next q.tail node) node 0 = rw first in
    subst (λ f. Linked f q.head (x ∷ (xs ++ (node ∷ [])))) (sym e)
      (Linked-snoc q.next q.head q.tail node x xs is.linked is.ends is.apart is.distinct real new)

-- `lfQueue_put` puts a node that is neither NULL, the dummy nor in the queue behind all others.
pub put-IsQueue :
    (q : LfQueue) (node : ℕ) (xs : List ℕ)
    → IsQueue q xs
    → node ≢ 0
    → has node (q.head ∷ xs) ≡ false
    → IsQueue (put q node) (xs ++ (node ∷ []))
unfolding put
put-IsQueue q node xs is real new = record {
  linked = put-Linked q node xs is real new;
  ends = ends_snoc node xs;
  apart = ground (arith, has-append q.head xs (node ∷ []), is.apart);
  distinct = Distinct-snoc xs node is.distinct (ground arith);
}

-- `lfQueue_get` returns NULL on an empty queue and changes nothing.
pub get-nil : (q : LfQueue) → IsQueue q [] → get q ≡ (0, q)
unfolding get
get-nil q is = ground (arith, is.linked)

rest_ends : (t x : ℕ) (xs : List ℕ) → EndsAt t (x ∷ xs) → EndsAt t xs
rest_ends t x [] e = tt
rest_ends t x (y ∷ ys) e = e

unlink_first :
    (f : ℕ → ℕ) (p x : ℕ) (xs : List ℕ)
    → has p xs ≡ false
    → Linked f x xs
    → Linked (store f p (f x)) p xs
unlink_first f p x [] out l = ground (arith, l)
unlink_first f p x (y ∷ ys) out l =
    (ground (arith, l.0), l.1, Linked-frame f (store f p (f x)) y ys (λ a m. ground arith) l.2)

get-eq :
    (q : LfQueue) (x : ℕ)
    → q.next q.head ≡ x
    → x ≢ 0
    → get q ≡ (x, record q { next = store q.next q.head (q.next x) })
unfolding get
get-eq q x e real = let found : (x == 0) ≡ false = ground arith in rw (e, found)

-- `lfQueue_get` on a queue that is not empty takes and returns the oldest node.
pub get-cons :
    (q : LfQueue) (x : ℕ) (xs : List ℕ)
    → IsQueue q (x ∷ xs)
    → ((get q).0 ≡ x) × (x ≢ 0) × IsQueue (get q).1 xs
get-cons q x xs is = rw (get-eq q x is.linked.0 is.linked.1) (
  refl,
  is.linked.1,
  record {
    linked = unlink_first q.next q.head x xs (ground (arith, is.apart)) is.linked.2;
    ends = rest_ends q.tail x xs is.ends;
    apart = ground (arith, is.apart);
    distinct = is.distinct.1;
  },
)
