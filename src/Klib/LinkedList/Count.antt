-- ===== src/Klib/LinkedList/Count.antt =====
-- `list_empty`, `list_cnt` and `list_get_first` of kernel/include/lib/list.h, and the two ends.
use quark_os.Members.{has}
use quark_os.Prelude.{
  ℕ, zero, suc, ◌+◌, ◌%◌, ◌^◌, ◌<◌, ◌≡◌, refl, false, none, some, List, [], ◌∷◌, arith, ◌==◌, ap,
  length, ◌∙◌,
}
use quark_os.Klib.LinkedList.{Links, cnt_loop, list_cnt, list_get_first}
use quark_os.Klib.LinkedList.Ring.{Chain, IsRing}
use quark_os.Klib.LinkedList.Edit.{list_del-IsRing}

-- The loop, standing at the node after `p`.
cnt_loop_lem :
    (fuel : ℕ) (h : Links) (header p cnt : ℕ) (xs : List ℕ)
    → Chain h p xs header
    → has header xs ≡ false
    → length xs < fuel
    → cnt + length xs < 2 ^ 32
    → cnt_loop fuel h header (h.next p) cnt ≡ some (cnt + length xs)
unfolding cnt_loop
cnt_loop_lem zero h header p cnt xs c out more small = absurd (omega arith)
cnt_loop_lem (suc fuel) h header p cnt [] c out more small =
    let e : cnt + 0 ≡ cnt = omega arith in ground (arith, e)
cnt_loop_lem (suc fuel) h header p cnt (x ∷ xs) c out more small =
    let fits : (cnt + 1) % 2 ^ 32 ≡ cnt + 1 = omega arith in
    let other : (x == header) ≡ false = ground arith in
    let e : cnt + 1 + length xs ≡ cnt + suc (length xs) = omega arith in
    let rest =
      cnt_loop_lem fuel h header x (cnt + 1) xs c.2 (ground arith) (omega arith) (omega arith) in
    rw (c.0, other, fits) (rest ∙ ap some e)

-- `list_cnt` ends, and counts the nodes, given more rounds than there are nodes and fewer than
-- 2 ^ 32 nodes.
pub list_cnt-length :
    (fuel : ℕ) (h : Links) (header : ℕ) (xs : List ℕ)
    → IsRing h header xs
    → length xs < fuel
    → length xs < 2 ^ 32
    → list_cnt fuel h header ≡ some (length xs)
unfolding list_cnt
list_cnt-length fuel h header xs r more small =
    cnt_loop_lem fuel h header header 0 xs r.chain r.apart more (omega arith)
    ∙ ap some (omega arith)

-- `list_get_first` on an empty list returns NULL and changes nothing.
pub list_get_first-nil :
    (h : Links) (header : ℕ) → IsRing h header [] → list_get_first h header ≡ (none, h)
unfolding list_get_first
list_get_first-nil h header r = ground (arith, r.chain)

-- `list_get_first` on a list that is not empty removes and returns its first node.
pub list_get_first-cons :
    (h : Links) (header x : ℕ) (xs : List ℕ)
    → IsRing h header (x ∷ xs)
    → ((list_get_first h header).0 ≡ some x) × IsRing (list_get_first h header).1 header xs
unfolding list_get_first
list_get_first-cons h header x xs r =
    let other : (x == header) ≡ false = ground (arith, r.apart) in
    rw (r.chain.0, other) (refl, list_del-IsRing h header x [] xs r)
