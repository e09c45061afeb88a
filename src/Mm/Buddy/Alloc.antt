-- ===== src/Mm/Buddy/Alloc.antt =====
-- `__alloc_page` of kernel/mm/page_alloc.c.
use mathlib.Core.Option.{some-injective}
use quark_os.Members.{has}
use quark_os.Prelude.{
  List-cases, ℕ, zero, suc, ◌+◌, ◌-◌, ◌%◌, ◌^◌, ◌≤◌, ◌<◌, ◌≡◌, ◌≢◌, refl, inl, inr, true, List, [],
  ◌∷◌, arith, sym, subst, some, ◌∙◌,
}
use quark_os.Klib.Bits.Digits.{one-le-two-pow}
use quark_os.Mm.Buddy.{Buddy, max_order, order_size, take_page, split_loop, find_loop}
use quark_os.Mm.Buddy.Invariant.{is_head, IsBuddy}
use quark_os.Mm.Buddy.Take.{take-IsBuddy}
use quark_os.Mm.Buddy.Split.{halved, split-IsBuddy, upper_half}

-- What the inner loop leaves: with `p` taken at its final order the blocks tile the pages again, and
-- no page in use was touched.
record Splits (s : Buddy) (p j n : ℕ) : Type 0 where
  state : Buddy
  runs : split_loop s p j n ≡ some state
  valid : IsBuddy (take_page state p (order_size j))
  count : state.page_cnt ≡ s.page_cnt
  bytes : state.size ≡ s.size
  page : state.pages p ≡ s.pages p
  refs : (q : ℕ) → (state.pages q).ref_cnt ≡ (s.pages q).ref_cnt
  kept : (q : ℕ) → (s.pages q).ref_cnt ≢ 0 → state.pages q ≡ s.pages q

split_loop-Splits :
    (s : Buddy) (p j n : ℕ)
    → p < s.page_cnt
    → j + n ≤ max_order
    → is_head s p ≡ true
    → IsBuddy (take_page s p (order_size (j + n)))
    → Splits s p j n
unfolding split_loop
split_loop-Splits s p j zero small low head ok =
    let e : j + 0 ≡ j = omega arith in
    record {
      state = s;
      runs = refl;
      valid = rw e at ok;
      count = refl;
      bytes = refl;
      page = refl;
      refs = λ q. refl;
      kept = λ q h. refl;
    }
split_loop-Splits s p j (suc n) small low head ok =
    let e : j + suc n ≡ suc (j + n) = omega arith in
    let ok' = rw e at ok in
    let low' : suc (j + n) ≤ max_order = omega arith in
    let (fresh, idle) = upper_half s p (j + n) small low' ok' head in
    let ne : p + 2 ^ (j + n) ≢ p = λ same. omega (arith, one-le-two-pow (j + n)) in
    let rest =
      split_loop-Splits (halved s (p + 2 ^ (j + n)) (j + n)) p j n small (omega arith)
        (ground (arith, head, ne)) (split-IsBuddy s p (j + n) small low' ok' head) in
    record {
      state = rest.state;
      runs = rw fresh rest.runs;
      valid = rest.valid;
      count = rest.count;
      bytes = rest.bytes;
      page = ground (arith, rest.page, ne);
      refs = λ q. ground (arith, rest.refs q);
      kept = λ q used. ground (arith, rest.kept q, idle);
    }

-- What `__alloc_page` promises for the page `p` that it returns.
pub record Allocated (s : Buddy) (size p : ℕ) (s' : Buddy) : Type 0 where
  pub valid : IsBuddy s'
  pub inside : p < s.page_cnt
  pub count : s'.page_cnt ≡ s.page_cnt
  pub head : is_head s' p ≡ true
  pub size_of : (s'.pages p).size ≡ size
  pub held : (s'.pages p).ref_cnt ≡ 1
  pub was_free : (s.pages p).ref_cnt ≡ 0
  pub bytes : s'.size ≡ (s.size + 2 ^ 32 - size) % 2 ^ 32
  pub refs : (q : ℕ) → q ≢ p → (s'.pages q).ref_cnt ≡ (s.pages q).ref_cnt
  pub kept : (q : ℕ) → (s.pages q).ref_cnt ≢ 0 → s'.pages q ≡ s.pages q

-- Taking the first block of list `j + n` and splitting it down to order `j`.
take_first :
    (s : Buddy) (p j n : ℕ)
    → IsBuddy s
    → j + n ≤ max_order
    → has p (s.root (j + n)) ≡ true
    → (s' : Buddy) × (split_loop s p j n ≡ some s')
      × Allocated s (order_size j) p (take_page s' p (order_size j))
take_first s p j n ok low first =
    let (small, head, zero_ref, size) = ok.listed (j + n) p first in
    let done = split_loop-Splits s p j n small low head (take-IsBuddy s p (j + n) ok first) in
    (
      done.state,
      done.runs,
      record {
        valid = done.valid;
        inside = small;
        count = done.count;
        head = ground (arith, done.page, head);
        size_of = ground arith;
        held = ground arith;
        was_free = zero_ref;
        bytes = ground (arith, done.bytes);
        refs = λ q ne. ground (arith, done.refs q);
        kept = λ q used. ground (arith, done.kept q, zero_ref);
      },
    )

-- The search finds a block wherever list `i` or a later one is not empty.
find_loop-nil :
    (s : Buddy) (order i n : ℕ)
    → s.root i ≡ []
    → find_loop s order i (suc n) ≡ find_loop s order (i + 1) n
unfolding find_loop
find_loop-nil s order i n e = rw (e, find_loop)

find_loop-cons :
    (s : Buddy) (order i n p : ℕ) (ps : List ℕ) {s' : Buddy}
    → s.root i ≡ p ∷ ps
    → is_head s p ≡ true
    → split_loop s p order (i - order) ≡ some s'
    → find_loop s order i (suc n) ≡ some (p, s')
unfolding find_loop
find_loop-cons s order i n p ps e head done = rw (e, find_loop, head, done)

take_found :
    (s : Buddy) (order i n p : ℕ) (ps : List ℕ)
    → IsBuddy s
    → order ≤ i
    → i ≤ max_order
    → s.root i ≡ p ∷ ps
    → (s' : Buddy) × (find_loop s order i (suc n) ≡ some (p, s'))
      × Allocated s (order_size order) p (take_page s' p (order_size order))
take_found s order i n p ps ok low high e =
    let same : order + (i - order) ≡ i = omega arith in
    let first : has p (s.root (order + (i - order))) ≡ true = rw (same, e) (ground arith) in
    let (s', done, all) = take_first s p order (i - order) ok (omega arith) first in
    let there : has p (s.root i) ≡ true = rw same at first in
    let (small, head, zero_ref, size) = ok.listed i p there in
    (s', find_loop-cons s order i n p ps e head done, all)

pub find_loop-Allocated :
    (s : Buddy) (order i n p : ℕ) {s' : Buddy}
    → IsBuddy s
    → order ≤ i
    → i + n ≡ max_order + 1
    → find_loop s order i n ≡ some (p, s')
    → Allocated s (order_size order) p (take_page s' p (order_size order))
unfolding find_loop
find_loop-Allocated s order i zero p ok low e found = ground arith
find_loop-Allocated s order i (suc n) p {s'} ok low e found = elim (List-cases (s.root i)) [
  | inl empty ↦
      find_loop-Allocated s order (i + 1) n p ok (omega arith) (omega arith)
        (sym (find_loop-nil s order i n empty) ∙ found)
  | inr (q, qs, first) ↦
      let (g, done, all) = take_found s order i n q qs ok low (omega arith) first in
      let same : (q, g) ≡ (p, s') = some-injective _ _ (sym done ∙ found) in
      subst
        (λ (r : ℕ × Buddy).
          Allocated s (order_size order) r.0 (take_page r.1 r.0 (order_size order)))
        same all
]

pub find_loop_total :
    (s : Buddy) (order i n o q : ℕ)
    → IsBuddy s
    → order ≤ i
    → i + n ≡ max_order + 1
    → i ≤ o
    → o ≤ max_order
    → has q (s.root o) ≡ true
    → (r : ℕ × Buddy) × (find_loop s order i n ≡ some r)
find_loop_total s order i zero o q ok low e lo hi there = absurd (omega arith)
find_loop_total s order i (suc n) o q ok low e lo hi there = elim (List-cases (s.root i)) [
  | inl empty ↦
      let ne : i ≢ o = λ same. ground arith in
      rw (find_loop-nil s order i n empty) (
        find_loop_total s order (i + 1) n o q ok (omega arith) (omega arith) (omega arith) hi there)
  | inr (p, ps, first) ↦
      let (g, done, all) = take_found s order i n p ps ok low (omega arith) first in ((p, g), done)
]
