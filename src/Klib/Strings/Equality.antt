-- ===== src/Klib/Strings/Equality.antt =====
-- `strlen`, `memcmp` and `strcmp` of kernel/lib/qstring.c.
use quark_os.Prelude.{
  ℕ, zero, suc, ◌+◌, ◌<◌, ◌≡◌, ◌≢◌, inl, inr, Bool, true, false, arith, some, ◌==◌, ◌!=◌, ◌&&◌,
  List, [], ◌∷◌, eq_or_ne, ◌∙◌, ap, length,
}
use quark_os.Klib.Strings.{strlen_loop, strlen, memcmp_loop, memcmp, strcmp}

-- At `p` stands the string `xs`, with its final 0.
abbrev pub IsString : (ℕ → ℕ) → ℕ → List ℕ → Type 0
IsString mem p [] = mem p ≡ 0
IsString mem p (x ∷ xs) = (mem p ≡ x) × (x ≢ 0) × IsString mem (p + 1) xs

abbrev pub same : List ℕ → List ℕ → Bool
same [] [] = true
same [] (y ∷ ys) = false
same (x ∷ xs) [] = false
same (x ∷ xs) (y ∷ ys) = (x == y) && same xs ys

strlen_loop_lem :
    (fuel : ℕ) (mem : ℕ → ℕ) (str len : ℕ) (xs : List ℕ)
    → IsString mem (str + len) xs
    → length xs < fuel
    → strlen_loop fuel mem str len ≡ some (len + length xs)
unfolding strlen_loop
strlen_loop_lem zero mem str len xs is more = absurd (omega arith)
strlen_loop_lem (suc fuel) mem str len [] is more =
    let e : len + 0 ≡ len = omega arith in ground (arith, e)
strlen_loop_lem (suc fuel) mem str len (x ∷ xs) is more =
    let e : str + len + 1 ≡ str + (len + 1) = omega arith in
    let e' : len + 1 + length xs ≡ len + suc (length xs) = omega arith in
    let go : (mem (str + len) != 0) ≡ true = ground arith in
    let rest = strlen_loop_lem fuel mem str (len + 1) xs (rw e at is.2) (omega arith) in
    rw go (rest ∙ ap some e')

-- `strlen` of a string ends, in one round more than its length, and returns the length.
pub strlen-length :
    (fuel : ℕ) (mem : ℕ → ℕ) (str : ℕ) (xs : List ℕ)
    → str ≢ 0
    → IsString mem str xs
    → length xs < fuel
    → strlen fuel mem str ≡ some (length xs)
unfolding strlen
strlen-length fuel mem str xs real is more =
    let e : str + 0 ≡ str = omega arith in
    let go : (str != 0) ≡ true = ground arith in
    rw go (strlen_loop_lem fuel mem str 0 xs (rw e is) more ∙ ap some (omega arith))

memcmp_loop_lem :
    (mem : ℕ → ℕ) (s1 s2 i : ℕ) (xs ys : List ℕ)
    → IsString mem (s1 + i) xs
    → IsString mem (s2 + i) ys
    → memcmp_loop mem s1 s2 (length xs + 1) i ≡ same xs ys
unfolding memcmp_loop
memcmp_loop_lem mem s1 s2 i [] [] a b = ground arith
memcmp_loop_lem mem s1 s2 i [] (y ∷ ys) a b = ground arith
memcmp_loop_lem mem s1 s2 i (x ∷ xs) [] a b = ground arith
memcmp_loop_lem mem s1 s2 i (x ∷ xs) (y ∷ ys) a b =
    let e : s1 + i + 1 ≡ s1 + (i + 1) = omega arith in
    let e' : s2 + i + 1 ≡ s2 + (i + 1) = omega arith in
    let rest = memcmp_loop_lem mem s1 s2 (i + 1) xs ys (rw e at a.2) (rw e' at b.2) in
    elim (eq_or_ne x y) [ inl eq ↦ ground (arith, rest) | inr ne ↦ ground arith ]

-- `strcmp` on two strings that are not NULL ends, and says whether they are the same.
pub strcmp-same :
    (fuel : ℕ) (mem : ℕ → ℕ) (s1 s2 : ℕ) (xs ys : List ℕ)
    → s1 ≢ 0
    → s2 ≢ 0
    → IsString mem s1 xs
    → IsString mem s2 ys
    → length xs < fuel
    → strcmp fuel mem s1 s2 ≡ some (same xs ys)
unfolding strcmp memcmp
strcmp-same fuel mem s1 s2 xs ys real1 real2 a b more =
    let e : s1 + 0 ≡ s1 = omega arith in
    let e' : s2 + 0 ≡ s2 = omega arith in
    let go : (s1 != 0 && s2 != 0) ≡ true = ground arith in
    rw (go, strlen-length fuel mem s1 xs real1 a more)
      (ap some (memcmp_loop_lem mem s1 s2 0 xs ys (rw e a) (rw e' b)))
