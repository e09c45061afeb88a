-- ===== src/Klib/Strings/Reverse.antt =====
-- `str_reverse` of kernel/lib/qstring.c.
use quark_os.Prelude.{
  ℕ, zero, suc, ◌+◌, ◌-◌, ◌≤◌, ◌<◌, ◌≡◌, ◌≢◌, refl, inl, inr, true, arith, some, ◌!=◌, ltb, leb,
  ◌&&◌, if◌then◌else◌, store, eq_or_ne, ◌∙◌, ap, Bool-cases,
}
use quark_os.Klib.Strings.{reverse_loop, str_reverse}

-- The bytes from `lo` to `hi` in reverse, and all others as they are.
abbrev pub mirrored : (ℕ → ℕ) → ℕ → ℕ → ℕ → ℕ
mirrored mem lo hi a = if leb lo a && leb a hi then mem (lo + hi - a) else mem a

abbrev swapped : (ℕ → ℕ) → ℕ → ℕ → (ℕ → ℕ)
swapped mem lo hi = store (store mem lo (mem hi)) hi (mem lo)

mirror_step :
    (mem : ℕ → ℕ) (lo hi a : ℕ)
    → lo < hi
    → mirrored (swapped mem lo hi) (lo + 1) (hi - 1) a ≡ mirrored mem lo hi a
mirror_step mem lo hi a less = elim (eq_or_ne a lo) [
  | inl e ↦ let at : lo + hi - a ≡ hi = omega (arith, e) in ground (arith, ap (λ (t : ℕ). mem t) at)
  | inr ne ↦ elim (eq_or_ne a hi) [
    | inl e ↦
        let at : lo + hi - a ≡ lo = omega (arith, e) in ground (arith, ap (λ (t : ℕ). mem t) at)
    | inr ne' ↦ let at : lo + 1 + (hi - 1) - a ≡ lo + hi - a = omega arith in rw at (ground arith)
  ]
]

mirror_one : (mem : ℕ → ℕ) (lo hi a : ℕ) → hi ≤ lo → mem a ≡ mirrored mem lo hi a
mirror_one mem lo hi a le = elim (eq_or_ne a lo) [
  | inl e ↦ elim (eq_or_ne hi lo) [
    | inl e' ↦
        let at : lo + hi - a ≡ a = omega (arith, e, e') in ground (arith, ap (λ (t : ℕ). mem t) at)
    | inr ne ↦ ground arith
  ]
  | inr ne ↦ ground arith
]

reverse_loop_lem :
    (fuel : ℕ) (mem : ℕ → ℕ) (s i j : ℕ)
    → j < i + fuel
    → 0 < fuel
    → (mem' : ℕ → ℕ) × (reverse_loop fuel mem s i j ≡ some mem')
      × ((a : ℕ) → mem' a ≡ mirrored mem (s + i) (s + j) a)
unfolding reverse_loop
reverse_loop_lem zero mem s i j enough pos = absurd (omega arith)
reverse_loop_lem (suc fuel) mem s i j enough pos = elim (Bool-cases (ltb i j)) [
  | inl go ↦
      let less : i < j = ground arith in
      let (mem', runs, all) =
        reverse_loop_lem fuel (swapped mem (s + i) (s + j)) s (i + 1) (j - 1) (omega arith)
          (omega arith) in
      let up : s + (i + 1) ≡ s + i + 1 = omega arith in
      let down : s + (j - 1) ≡ s + j - 1 = omega arith in
      (
        mem',
        rw go runs,
        λ a. rw (up, down) at (all a) ∙ mirror_step mem (s + i) (s + j) a (omega arith),
      )
  | inr stop ↦ (mem, rw stop refl, λ a. mirror_one mem (s + i) (s + j) a (ground arith))
]

-- `str_reverse` at an address other than NULL ends; the characters up to index `li` are then in reverse
-- order, and no other byte changes.
pub str_reverse_lem :
    (mem : ℕ → ℕ) (s li : ℕ)
    → s ≢ 0
    → (mem' : ℕ → ℕ) × (str_reverse mem s li ≡ some mem')
      × ((a : ℕ) → mem' a ≡ mirrored mem s (s + li) a)
unfolding str_reverse
str_reverse_lem mem s li real =
    let (mem', runs, all) = reverse_loop_lem (li + 1) mem s 0 li (omega arith) (omega arith) in
    let go : (s != 0) ≡ true = ground arith in
    let e : s + 0 ≡ s = omega arith in (mem', rw go runs, λ a. rw e at (all a))
