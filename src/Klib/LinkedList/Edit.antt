-- ===== src/Klib/LinkedList/Edit.antt =====
-- Insertion and deletion of kernel/include/lib/list.h.
use quark_os.Members.{Distinct-middle, Distinct-snoc, has, has-append}
use quark_os.Prelude.{ℕ, ◌≡◌, refl, false, List, [], ◌∷◌, ◌++◌, arith, append-nil}
use quark_os.Klib.LinkedList.{Links, list_header_init, list_add_next, list_add_prev, list_del}
use quark_os.Klib.LinkedList.Ring.{
  IsRing, Chain-join, Chain-split, prev-mem, Chain-frame, Chain-retarget,
}

-- `list_header_init` makes an empty list.
pub list_header_init-IsRing :
    (h : Links) (header : ℕ) → IsRing (list_header_init h header) header []
unfolding list_header_init
list_header_init-IsRing h header = record { chain = ground arith; apart = refl; distinct = tt }

-- `list_add_prev` on the head of a list puts a node that is not on it last.
pub list_add_prev-IsRing :
    (h : Links) (header new : ℕ) (xs : List ℕ)
    → IsRing h header xs
    → has new (header ∷ xs) ≡ false
    → IsRing (list_add_prev h new header) header (xs ++ (new ∷ []))
unfolding list_add_prev
list_add_prev-IsRing h header new xs r out =
    let g = list_add_prev h new header in
    let last = prev-mem h header header xs r.chain in
    record {
      chain =
          Chain-join g header new header xs []
            (Chain-retarget h g header header new xs r.apart r.distinct (ground arith)
              (ground (arith, last)) (λ a m ne. ground arith) (λ a m. ground (arith, r.apart))
              r.chain)
            (ground (arith, last), ground arith);
      apart = ground (arith, has-append header xs (new ∷ []), r.apart);
      distinct = Distinct-snoc xs new r.distinct (ground arith);
    }

-- `list_add_next` on the head of a list puts a node that is not on it first.
pub list_add_next-IsRing :
    (h : Links) (header new : ℕ) (xs : List ℕ)
    → IsRing h header xs
    → has new (header ∷ xs) ≡ false
    → IsRing (list_add_next h new header) header (new ∷ xs)
unfolding list_add_next
list_add_next-IsRing h header new [] r out = record {
  chain = ground (arith, r.chain);
  apart = ground arith;
  distinct = (refl, tt);
}
list_add_next-IsRing h header new (x ∷ xs) r out =
    let g = list_add_next h new header in
    let c = r.chain in
    record {
      chain = (
        ground arith,
        ground (arith, c.0, r.apart),
        (
          ground (arith, c.0),
          ground (arith, c.0),
          Chain-frame h g x header xs (λ a m. ground (arith, r.apart))
              (λ a m. ground (arith, c.0, r.apart, r.distinct.0)) c.2,
        ),
      );
      apart = ground (arith, r.apart);
      distinct = (ground arith, r.distinct);
    }

-- `list_del` takes a node out, wherever it stands, and leaves the order of the others.
pub list_del-IsRing :
    (h : Links) (header x : ℕ) (xs ys : List ℕ)
    → IsRing h header (xs ++ (x ∷ ys))
    → IsRing (list_del h x) header (xs ++ ys)
unfolding list_del
list_del-IsRing h header x xs [] r =
    let g = list_del h x in
    let (front, back) = Chain-split h header x header xs [] r.chain in
    let (whole, out, left, right, sep) = Distinct-middle xs [] x r.distinct in
    let apart = rw has-append at r.apart in
    let last = prev-mem h header x xs front in
    record {
      chain = rw append-nil (
          Chain-retarget h g header x header xs (ground (arith, apart)) left (ground (arith, back))
            (ground (arith, back)) (λ a m ne. ground arith) (λ a m. ground (arith, back, apart))
            front);
      apart = ground (arith, has-append header xs [], apart);
      distinct = whole;
    }
list_del-IsRing h header x xs (y ∷ ys) r =
    let g = list_del h x in
    let (front, back) = Chain-split h header x header xs (y ∷ ys) r.chain in
    let (whole, out, left, right, sep) = Distinct-middle xs (y ∷ ys) x r.distinct in
    let apart = rw has-append at r.apart in
    let last = prev-mem h header x xs front in
    record {
      chain =
          Chain-join g header y header xs ys
            (Chain-retarget h g header x y xs (ground (arith, apart)) left (ground (arith, back))
              (ground (arith, back)) (λ a m ne. ground arith) (λ a m. ground (arith, back, sep a))
              front)
            (Chain-frame h g y header ys (λ a m. ground (arith, last, sep (h.prev x), apart))
              (λ a m. ground (arith, back, apart, right.0)) back.2);
      apart = ground (arith, has-append header xs (y ∷ ys), apart);
      distinct = whole;
    }
