-- ===== src/Mm/Buddy/Merge.antt =====
-- Joining two halves of a block, as one round of the loop of `__free_page` does.
use quark_os.Members.{Distinct, has, has-without_ne, has-without_self, without, without-Distinct}
use quark_os.Prelude.{
  ℕ, suc, ◌+◌, ◌*◌, ◌^◌, ◌%◌, ◌≤◌, ◌<◌, ◌≡◌, ◌≢◌, refl, inl, inr, ◌⊎◌, true, false, arith, eq_or_ne,
}
use native.Mathlib.Nat.{pow-suc}
use native.Mathlib.Decide.{dec_lt}
use quark_os.Klib.Bits.Digits.{one-le-two-pow, two_pow_mono}
use quark_os.Mm.Buddy.{Buddy, max_order, order_size, list_del, set_page, set_head}
use quark_os.Mm.Buddy.Invariant.{is_head, HasOrder, IsBuddy, order_inj}

-- The state in which `p` counts as referenced: between its release and its listing.
abbrev pub hold : Buddy → ℕ → Buddy
hold s p = set_page s p (record (s.pages p) { ref_cnt = 1 })

-- The state after `merge`, where `b` is the buddy, and `low` and `tmp` are the two halves.
abbrev pub joined : Buddy → ℕ → ℕ → ℕ → Buddy
joined s b low tmp =
    let s' = list_del s b in
    let upper = s'.pages tmp in
    let s'' = set_page s' tmp (record upper { flag = set_head upper.flag false }) in
    let lower = s''.pages low in set_page s'' low (record lower { size = lower.size * 2 % 2 ^ 32 })

module _ (s : Buddy) (p b low tmp o : ℕ) (ok : IsBuddy (hold s p))
    (pair : ((p ≡ low) × (b ≡ tmp)) ⊎ ((p ≡ tmp) × (b ≡ low))) (half : tmp ≡ low + 2 ^ o)
    (even : (k : ℕ) × (low ≡ k * 2 ^ suc o)) (small : tmp < s.page_cnt) (level : suc o ≤ max_order)
    (head_low : is_head s low ≡ true) (head_tmp : is_head s tmp ≡ true)
    (size_low : HasOrder s low o) (size_tmp : HasOrder s tmp o)
    (idle_tmp : (s.pages tmp).ref_cnt ≡ 0) where
  before : Buddy
  before = hold s p

  after : Buddy
  after = hold (joined s b low tmp) low

  above : low < tmp
  above = omega (arith, half, one-le-two-pow o)

  double : 2 ^ suc o ≡ 2 ^ o + 2 ^ o
  double = omega (arith, pow-suc 2 o)

  not_p : (q : ℕ) → q ≢ low → q ≢ tmp → q ≢ p
  not_p q ne ne' = elim pair [ inl e ↦ ground arith | inr e ↦ ground arith ]

  not_b : (q : ℕ) → q ≢ low → q ≢ tmp → q ≢ b
  not_b q ne ne' = elim pair [ inl e ↦ ground arith | inr e ↦ ground arith ]

  head-before : (q : ℕ) → is_head before q ≡ is_head s q
  unfolding before
  head-before q = ground arith

  size-before : (q : ℕ) → (before.pages q).size ≡ (s.pages q).size
  unfolding before
  size-before q = ground arith

  -- The pages after the merge, case by case.
  page-after : (q : ℕ) → q ≢ low → q ≢ tmp → after.pages q ≡ before.pages q
  unfolding after before
  page-after q ne ne' = ground (arith, not_p q ne ne')

  tmp-after : (is_head after tmp ≡ false) × ((after.pages tmp).ref_cnt ≡ 0)
  unfolding after
  tmp-after = (ground (arith, above), ground (arith, above))

  fits_word : order_size o * 2 % 2 ^ 32 ≡ order_size (suc o)
  fits_word = omega (arith, double, two_pow_mono (suc o) 10 level)

  low-after :
      (is_head after low ≡ true) × ((after.pages low).ref_cnt ≡ 1) × HasOrder after low (suc o)
  unfolding after
  low-after = (ground (arith, above), ground arith, ground (arith, above, fits_word))

  data Which (q m : ℕ) : Type 0 where
    whole : q ≡ low → m ≡ suc o → Which q m
    other : q ≢ low → q ≢ tmp → is_head before q ≡ true → HasOrder before q m → Which q m

  which : (q m : ℕ) → is_head after q ≡ true → HasOrder after q m → Which q m
  which q m h size = elim (eq_or_ne q low) [
    | inl e ↦ whole e (order_inj m (suc o) (ground (arith, low-after)))
    | inr ne ↦ elim (eq_or_ne q tmp) [
      | inl e ↦ absurd (ground (arith, tmp-after))
      | inr ne' ↦
          other ne ne' (ground (arith, page-after q ne ne')) (ground (arith, page-after q ne ne'))
    ]
  ]

  old_low : (is_head before low ≡ true) × HasOrder before low o × (low < before.page_cnt)
  unfolding before
  old_low = (
    ground (arith, head-before low),
    ground (arith, size-before low),
    omega (arith, above, small),
  )

  old_tmp : (is_head before tmp ≡ true) × HasOrder before tmp o
  old_tmp = (ground (arith, head-before tmp), ground (arith, size-before tmp))

  room : low + 2 ^ suc o ≤ s.page_cnt
  unfolding before
  room = omega (arith, double, half, ok.fits tmp o small old_tmp.0 old_tmp.1)

  sized-after :
      (q : ℕ)
      → q < s.page_cnt
      → is_head after q ≡ true
      → (m : ℕ) × (m ≤ max_order) × HasOrder after q m
  unfolding before
  sized-after q sq h = elim (eq_or_ne q low) [
    | inl e ↦ (suc o, level, ground (arith, low-after))
    | inr ne ↦ elim (eq_or_ne q tmp) [
      | inl e ↦ absurd (ground (arith, tmp-after))
      | inr ne' ↦
          let (m, le, size) = ok.sized q sq (ground (arith, page-after q ne ne')) in
          (m, le, ground (arith, page-after q ne ne'))
    ]
  ]

  aligned-after :
      (q m : ℕ)
      → q < s.page_cnt
      → is_head after q ≡ true
      → HasOrder after q m
      → (k : ℕ) × (q ≡ k * 2 ^ m)
  unfolding before
  aligned-after q m sq h size = elim (which q m h size) [
    | whole e e' ↦ rw (e, e') even
    | other ne ne' old size' ↦ ok.aligned q m sq old size'
  ]

  fits-after :
      (q m : ℕ)
      → q < s.page_cnt
      → is_head after q ≡ true
      → HasOrder after q m
      → q + 2 ^ m ≤ s.page_cnt
  unfolding before
  fits-after q m sq h size = elim (which q m h size) [
    | whole e e' ↦ rw (e, e') room
    | other ne ne' old size' ↦ ok.fits q m sq old size'
  ]

  interior-after :
      (q m r : ℕ)
      → q < s.page_cnt
      → is_head after q ≡ true
      → HasOrder after q m
      → q < r
      → r < q + 2 ^ m
      → is_head after r ≡ false
  unfolding before
  interior-after q m r sq h size lo hi = elim (eq_or_ne r tmp) [
    | inl e ↦ ground (arith, tmp-after)
    | inr ne ↦ elim (which q m h size) [
      | whole e e' ↦
          let ne' : r ≢ low = λ same. omega arith in
          let hi' : r < low + 2 ^ suc o = rw (e, e') at hi in
          elim (dec_lt r tmp) [
            | yes left ↦ ground (
              arith,
              page-after r ne' ne,
              ok.interior low o r old_low.2 old_low.0 old_low.1 (omega (arith, e))
                  (omega (arith, half)),
            )
            | no right ↦ ground (
              arith,
              page-after r ne' ne,
              ok.interior tmp o r small old_tmp.0 old_tmp.1 (omega arith)
                  (omega (arith, half, double, hi')),
            )
          ]
      | other ne₁ ne₂ old size' ↦
          let inner = ok.interior q m r sq old size' lo hi in
          let ne' : r ≢ low = λ same. ground (arith, old_low.0) in
          ground (arith, page-after r ne' ne, inner)
    ]
  ]

  adjoins-after :
      (q m : ℕ)
      → q < s.page_cnt
      → is_head after q ≡ true
      → HasOrder after q m
      → q + 2 ^ m < s.page_cnt
      → is_head after (q + 2 ^ m) ≡ true
  unfolding before
  adjoins-after q m sq h size inside = elim (which q m h size) [
    | whole e e' ↦
        let next : tmp + 2 ^ o ≡ q + 2 ^ m = rw (e, e') (omega (arith, half, double)) in
        let old =
          rw next at (ok.adjoins tmp o small old_tmp.0 old_tmp.1 (omega (arith, next, inside))) in
        let far : tmp < q + 2 ^ m = omega (arith, next, one-le-two-pow o) in
        ground (arith, page-after (q + 2 ^ m), old, far, above)
    | other ne ne' old size' ↦ elim (eq_or_ne (q + 2 ^ m) low) [
      | inl e ↦ ground (arith, low-after)
      | inr ne₂ ↦
          let next = ok.adjoins q m sq old size' inside in
          let ne₃ : q + 2 ^ m ≢ tmp = λ e. elim (dec_lt q low) [
            | yes left ↦
                cc (ok.interior q m low sq old size' left (omega (arith, above, e)), old_low.0)
            | no right ↦ cc (
              ok.interior low o q old_low.2 old_low.0 old_low.1 (omega (arith, ne, right))
                  (omega (arith, half, e, one-le-two-pow m)),
              old,
            )
          ] in
          ground (arith, page-after (q + 2 ^ m) ne₂ ne₃, next)
    ]
  ]

  first-after : 0 < s.page_cnt → is_head after 0 ≡ true
  unfolding before
  first-after h = elim (eq_or_ne 0 low) [
    | inl e ↦ ground (arith, low-after)
    | inr ne ↦ ground (arith, page-after 0 ne (omega (arith, above)), ok.first h)
  ]

  unreferenced-after :
      (q : ℕ) → q < s.page_cnt → is_head after q ≡ false → (after.pages q).ref_cnt ≡ 0
  unfolding before
  unreferenced-after q sq h = elim (eq_or_ne q low) [
    | inl e ↦ ground (arith, low-after)
    | inr ne ↦ elim (eq_or_ne q tmp) [
      | inl e ↦ ground (arith, tmp-after)
      | inr ne' ↦ ground (arith, page-after q ne ne', ok.unreferenced q sq)
    ]
  ]

  root-after : (m : ℕ) → after.root m ≡ without b (before.root m)
  unfolding after before
  root-after m = refl

  -- Neither half is on a list now.
  unlisted :
      (m q : ℕ)
      → has q (after.root m) ≡ true
      → (has q (before.root m) ≡ true) × (q ≢ low) × (q ≢ tmp)
  unfolding before
  unlisted m q there =
      let ne : q ≢ b =
        λ e. ground (arith, root-after m, has-without_self b (before.root m) (ok.distinct m)) in
      let old : has q (before.root m) ≡ true =
        ground (arith, root-after m, has-without_ne b q (before.root m) ne) in
      let ne' : q ≢ p = λ e. ground (arith, ok.listed m q old) in
      (
        old,
        elim pair [ inl e ↦ ground arith | inr e ↦ ground arith ],
        elim pair [ inl e ↦ ground arith | inr e ↦ ground arith ],
      )

  listed-after :
      (m q : ℕ)
      → has q (after.root m) ≡ true
      → (q < s.page_cnt)
        × (is_head after q ≡ true)
        × ((after.pages q).ref_cnt ≡ 0)
        × HasOrder after q m
  unfolding before
  listed-after m q there =
      let (old, ne, ne') = unlisted m q there in
      let e = page-after q ne ne' in
      let (sq, h, z, size) = ok.listed m q old in
      (sq, ground (arith, e, h), ground (arith, e, z), ground (arith, e, size))

  complete-after :
      (m q : ℕ)
      → q < s.page_cnt
      → is_head after q ≡ true
      → (after.pages q).ref_cnt ≡ 0
      → HasOrder after q m
      → has q (after.root m) ≡ true
  unfolding before
  complete-after m q sq h z size = elim (which q m h size) [
    | whole e e' ↦ ground (arith, low-after)
    | other ne ne' old size' ↦
        let there = ok.complete m q sq old (ground (arith, page-after q ne ne', z)) size' in
        ground (arith, root-after m, has-without_ne b q (before.root m) (not_b q ne ne'), there)
  ]

  Distinct-after : (m : ℕ) → Distinct (after.root m)
  unfolding before
  Distinct-after m = rw root-after (without-Distinct b (before.root m) (ok.distinct m))

  pub joined-IsBuddy : IsBuddy (hold (joined s b low tmp) low)
  unfolding after
  joined-IsBuddy = record {
    sized = sized-after;
    aligned = aligned-after;
    fits = fits-after;
    interior = interior-after;
    adjoins = adjoins-after;
    first = first-after;
    unreferenced = unreferenced-after;
    listed = listed-after;
    complete = complete-after;
    distinct = Distinct-after;
  }

  -- The joined block is the next one to look at.
  pub joined_low :
      (is_head (joined s b low tmp) low ≡ true) × HasOrder (joined s b low tmp) low (suc o)
  joined_low = (ground (arith, above), ground (arith, above, fits_word))
