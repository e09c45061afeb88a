-- ===== src/Mm/Buddy/Split.antt =====
-- Splitting a block in two: the upper half becomes a free block of its own.
use native.Mathlib.Decide.{dec_lt}
use native.Mathlib.Nat.{pow-suc}
use quark_os.Members.{Distinct, Distinct-snoc, has, has-append, without}
use quark_os.Prelude.{
  ℕ, suc, ◌+◌, ◌*◌, ◌^◌, ◌≤◌, ◌<◌, ◌≡◌, ◌≢◌, inl, inr, true, false, ◌||◌, List, [], ◌∷◌, ◌++◌,
  arith, ◌==◌, eq_or_ne, if◌then◌else◌, Bool-cases, ap,
}
use quark_os.Klib.Bits.Digits.{one-le-two-pow}
use quark_os.Mm.Buddy.{Buddy, max_order, order_size, take_page, list_add_prev, set_page, set_head}
use quark_os.Mm.Buddy.Invariant.{is_head, HasOrder, IsBuddy, order_inj}

-- the state after one round of the inner loop of `__alloc_page`
abbrev pub halved : Buddy → ℕ → ℕ → Buddy
halved s new m =
    let old = s.pages new in
    list_add_prev
      (set_page s new (record old { size = order_size m; flag = set_head old.flag true })) new m

without-snoc :
    (p x : ℕ) (xs : List ℕ) → x ≢ p → without p (xs ++ (x ∷ [])) ≡ without p xs ++ (x ∷ [])
without-snoc p x [] ne = ground arith
without-snoc p x (y ∷ ys) ne = ground (arith, without-snoc p x ys ne)

module _ (s : Buddy) (p m : ℕ) (small : p < s.page_cnt) (low : suc m ≤ max_order)
    (ok : IsBuddy (take_page s p (order_size (suc m)))) (head : is_head s p ≡ true) where
  new : ℕ
  new = p + 2 ^ m

  before : Buddy
  before = take_page s p (order_size (suc m))

  after : Buddy
  after = take_page (halved s new m) p (order_size m)

  double : 2 ^ suc m ≡ 2 ^ m + 2 ^ m
  double = omega (arith, pow-suc 2 m)

  above : p < new
  unfolding new
  above = omega (arith, one-le-two-pow m)

  block : p + 2 ^ suc m ≤ s.page_cnt
  block = ok.fits p (suc m) small (ground (arith, head)) (ground arith)

  inside : new < s.page_cnt
  unfolding new
  inside = omega (arith, block, double, one-le-two-pow m)

  tail : (q : ℕ) → p < q → q < p + 2 ^ suc m → is_head s q ≡ false
  tail q lo hi =
      ground (arith, ok.interior p (suc m) q small (ground (arith, head)) (ground arith) lo hi)

  tail_new : is_head s new ≡ false
  unfolding new
  tail_new = tail new above (omega (arith, double, one-le-two-pow m))

  -- The pages after the split, case by case.
  head-after : (q : ℕ) → is_head after q ≡ (q == new || is_head s q)
  unfolding after
  head-after q = ground (arith, head, above)

  order_p : HasOrder after p m
  unfolding after
  order_p = ground arith

  order_new : HasOrder after new m
  unfolding after
  order_new = ground (arith, above)

  order_other : (q o : ℕ) → q ≢ p → q ≢ new → HasOrder after q o → HasOrder before q o
  unfolding after before
  order_other q o ne ne' h = ground arith

  -- A head after the split is `p`, `new`, or was one before.
  data Which (q o : ℕ) : Type 0 where
    lower : q ≡ p → o ≡ m → Which q o
    upper : q ≡ new → o ≡ m → Which q o
    other : q ≢ p → q ≢ new → is_head before q ≡ true → HasOrder before q o → Which q o

  which : (q o : ℕ) → is_head after q ≡ true → HasOrder after q o → Which q o
  unfolding before
  which q o h size = elim (eq_or_ne q p) [
    | inl e ↦ lower e (order_inj o m (ground (arith, order_p)))
    | inr ne ↦ elim (eq_or_ne q new) [
      | inl e ↦ upper e (order_inj o m (ground (arith, order_new)))
      | inr ne' ↦ other ne ne' (ground (arith, head-after q)) (order_other q o ne ne' size)
    ]
  ]

  head-before : (q : ℕ) → is_head before q ≡ is_head s q
  unfolding before
  head-before q = ground arith

  head_p : is_head before p ≡ true
  unfolding before
  head_p = ground (arith, head)

  -- No old block had `new` inside, but that of `p`.
  clear :
      (q o : ℕ)
      → q < s.page_cnt
      → q ≢ p
      → is_head before q ≡ true
      → HasOrder before q o
      → q < new
      → new < q + 2 ^ o
      → ⊥
  unfolding before new
  clear q o sq ne hq size lo hi = elim (dec_lt q p) [
    | yes left ↦ cc (ok.interior q o p sq hq size left (omega (arith, above)), head_p)
    | no right ↦
        cc (tail q (omega arith) (omega (arith, double, one-le-two-pow m)), head-before q, hq)
  ]

  aligned-after :
      (q o : ℕ)
      → q < s.page_cnt
      → is_head after q ≡ true
      → HasOrder after q o
      → (k : ℕ) × (q ≡ k * 2 ^ o)
  unfolding before new
  aligned-after q o sq h size =
      let (k, e) = ok.aligned p (suc m) small head_p (ground arith) in
      let e' : p ≡ (k + k) * 2 ^ m = omega (arith, e, ap (λ (t : ℕ). k * t) double) in
      elim (which q o h size) [
        | lower is level ↦ (k + k, rw (is, level) e')
        | upper is level ↦ (k + k + 1, rw (is, level) (omega (arith, e')))
        | other ne ne' old size' ↦ ok.aligned q o sq old size'
      ]

  fits-after :
      (q o : ℕ)
      → q < s.page_cnt
      → is_head after q ≡ true
      → HasOrder after q o
      → q + 2 ^ o ≤ s.page_cnt
  unfolding before new
  fits-after q o sq h size = elim (which q o h size) [
    | lower is level ↦ rw (is, level) (omega (arith, block, double))
    | upper is level ↦ rw (is, level) (omega (arith, block, double))
    | other ne ne' old size' ↦ ok.fits q o sq old size'
  ]

  interior-after :
      (q o r : ℕ)
      → q < s.page_cnt
      → is_head after q ≡ true
      → HasOrder after q o
      → q < r
      → r < q + 2 ^ o
      → is_head after r ≡ false
  unfolding before new
  interior-after q o r sq h size lo hi = elim (which q o h size) [
    | lower is level ↦
        let hi' : r < p + 2 ^ m = rw (is, level) at hi in
        ground (arith, head-after r, tail r (omega (arith, is)) (omega (arith, double, hi')))
    | upper is level ↦
        let hi' : r < p + 2 ^ m + 2 ^ m = rw (is, level) at hi in
        ground (arith, head-after r, tail r (omega (arith, is, above)) (omega (arith, double, hi')))
    | other ne ne' old size' ↦ elim (eq_or_ne r new) [
      | inl e ↦ absurd (clear q o sq ne old size' (ground arith) (ground arith))
      | inr ne'' ↦ ground (arith, head-after r, head-before r, ok.interior q o r sq old size' lo hi)
    ]
  ]

  adjoins-after :
      (q o : ℕ)
      → q < s.page_cnt
      → is_head after q ≡ true
      → HasOrder after q o
      → q + 2 ^ o < s.page_cnt
      → is_head after (q + 2 ^ o) ≡ true
  unfolding before new
  adjoins-after q o sq h size room = elim (which q o h size) [
    | lower is level ↦ rw (is, level) (ground (arith, head-after (p + 2 ^ m)))
    | upper is level ↦
        let e : p + 2 ^ m + 2 ^ m ≡ p + 2 ^ suc m = omega (arith, double) in
        let room' : p + 2 ^ m + 2 ^ m < s.page_cnt = rw (is, level) at room in
        rw (is, level, e)
          (ground (
            arith,
            head-after (p + 2 ^ suc m),
            head-before (p + 2 ^ suc m),
            ok.adjoins p (suc m) small head_p (ground arith) (omega (arith, e, room')),
          ))
    | other ne ne' old size' ↦
        ground
          (arith, head-after (q + 2 ^ o), head-before (q + 2 ^ o), ok.adjoins q o sq old size' room)
  ]

  same_size : (q o : ℕ) → q ≢ p → q ≢ new → HasOrder before q o → HasOrder after q o
  unfolding after before
  same_size q o ne ne' size = ground arith

  sized-after :
      (q : ℕ)
      → q < s.page_cnt
      → is_head after q ≡ true
      → (o : ℕ) × (o ≤ max_order) × HasOrder after q o
  unfolding before new
  sized-after q sq h = elim (eq_or_ne q p) [
    | inl e ↦ (m, omega arith, ground (arith, order_p))
    | inr ne ↦ elim (eq_or_ne q new) [
      | inl e ↦ (m, omega arith, ground (arith, order_new))
      | inr ne' ↦
          let (o, le, size) = ok.sized q sq (ground (arith, head-after q, head-before q)) in
          (o, le, same_size q o ne ne' size)
    ]
  ]

  ref-after : (q : ℕ) → q ≢ p → (after.pages q).ref_cnt ≡ (s.pages q).ref_cnt
  unfolding after
  ref-after q ne = ground arith

  ref-before : (q : ℕ) → q ≢ p → (before.pages q).ref_cnt ≡ (s.pages q).ref_cnt
  unfolding before
  ref-before q ne = ground arith

  ref_new : (s.pages new).ref_cnt ≡ 0
  unfolding before new
  ref_new =
      ground (arith, ref-before new, ok.unreferenced new inside, head-before new, tail_new, above)

  held : (after.pages p).ref_cnt ≡ 1
  unfolding after
  held = ground arith

  unreferenced-after :
      (q : ℕ) → q < s.page_cnt → is_head after q ≡ false → (after.pages q).ref_cnt ≡ 0
  unfolding before
  unreferenced-after q sq h = elim (eq_or_ne q p) [
    | inl e ↦ ground (arith, head-after p, head)
    | inr ne ↦
        ground (
          arith,
          ref-after q ne,
          ref-before q ne,
          ok.unreferenced q sq,
          head-after q,
          head-before q,
        )
  ]

  -- The free lists: `new` joins list `m`.
  root-after :
      (o : ℕ) → after.root o ≡ (if o == m then before.root m ++ (new ∷ []) else before.root o)
  unfolding after before
  root-after o = elim (eq_or_ne m o) [
    | inl e ↦ ground (arith, without-snoc p new (s.root m) (λ e. ground (arith, above)))
    | inr ne ↦ ground arith
  ]

  new_unlisted : has new (before.root m) ≡ false
  unfolding before
  new_unlisted = elim (Bool-cases (has new (before.root m))) [
    | inl there ↦ ground (arith, ok.listed m new there, head-before new, tail_new)
    | inr gone ↦ gone
  ]

  listed-old :
      (o q : ℕ)
      → has q (before.root o) ≡ true
      → (q < s.page_cnt)
        × (is_head after q ≡ true)
        × ((after.pages q).ref_cnt ≡ 0)
        × HasOrder after q o
  unfolding before
  listed-old o q there =
      let (sq, hq, zq, size) = ok.listed o q there in
      let ne : q ≢ p = λ e. ground arith in
      let ne' : q ≢ new = λ e. ground (arith, head-before new, tail_new) in
      (
        sq,
        ground (arith, head-after q, head-before q, hq),
        ground (arith, ref-after q ne, ref-before q ne, zq),
        same_size q o ne ne' size,
      )

  listed_new :
      (new < s.page_cnt)
      × (is_head after new ≡ true)
      × ((after.pages new).ref_cnt ≡ 0)
      × HasOrder after new m
  listed_new = (
    inside,
    ground (arith, head-after new),
    ground (arith, ref-after new, ref_new, above),
    order_new,
  )

  listed-after :
      (o q : ℕ)
      → has q (after.root o) ≡ true
      → (q < s.page_cnt)
        × (is_head after q ≡ true)
        × ((after.pages q).ref_cnt ≡ 0)
        × HasOrder after q o
  listed-after o q there = elim (eq_or_ne o m) [
    | inl e ↦ elim (eq_or_ne q new) [
      | inl e' ↦ rw (e, e') listed_new
      | inr ne ↦
          listed-old o q
            (ground (arith, root-after o, has-append q (before.root m) (new ∷ []), there))
    ]
    | inr ne ↦ listed-old o q (ground (arith, root-after o, there))
  ]

  complete-after :
      (o q : ℕ)
      → q < s.page_cnt
      → is_head after q ≡ true
      → (after.pages q).ref_cnt ≡ 0
      → HasOrder after q o
      → has q (after.root o) ≡ true
  unfolding before
  complete-after o q sq h z size = elim (which q o h size) [
    | lower is level ↦ ground (arith, held)
    | upper is level ↦
        rw (is, level) (ground (arith, root-after m, has-append new (before.root m) (new ∷ [])))
    | other ne ne' old size' ↦
        let there =
          ok.complete o q sq old (ground (arith, ref-after q ne, ref-before q ne, z)) size' in
        ground (arith, root-after o, has-append q (before.root m) (new ∷ []), there)
  ]

  Distinct-after : (o : ℕ) → Distinct (after.root o)
  unfolding before
  Distinct-after o = elim (eq_or_ne o m) [
    | inl e ↦
        let r : after.root o ≡ before.root m ++ (new ∷ []) = ground (arith, root-after o) in
        rw r (Distinct-snoc (before.root m) new (ok.distinct m) new_unlisted)
    | inr ne ↦
        let r : after.root o ≡ before.root o = ground (arith, root-after o) in rw r (ok.distinct o)
  ]

  first-after : 0 < s.page_cnt → is_head after 0 ≡ true
  unfolding before
  first-after h = ground (arith, head-after 0, head-before 0, ok.first h)

  pub split-IsBuddy : IsBuddy (take_page (halved s (p + 2 ^ m) m) p (order_size m))
  unfolding after new
  split-IsBuddy = record {
    sized = sized-after;
    aligned = aligned-after;
    fits = fits-after;
    interior = interior-after;
    adjoins = adjoins-after;
    first = first-after;
    unreferenced = unreferenced-after;
    listed = listed-after;
    complete = complete-after;
    distinct = Distinct-after;
  }

  pub upper_half : (is_head s (p + 2 ^ m) ≡ false) × ((s.pages (p + 2 ^ m)).ref_cnt ≡ 0)
  unfolding new
  upper_half = (tail_new, ref_new)
