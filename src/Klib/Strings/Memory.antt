-- ===== src/Klib/Strings/Memory.antt =====
-- `memcpy` and `memset` of kernel/lib/qstring.c.
use quark_os.Prelude.{
  ℕ, zero, suc, ◌+◌, ◌-◌, ◌%◌, ◌^◌, ◌≤◌, ◌≡◌, ◌≢◌, inl, inr, ◌⊎◌, Bool, arith, some, ltb, leb, ◌&&◌,
  if◌then◌else◌, store, eq_or_ne, ◌∙◌, ap,
}
use quark_os.Klib.Strings.{memcpy_loop, memcpy, memset_loop, memset}

-- The `n` bytes from `dest` on, and whether `a` is one of them.
abbrev pub within : ℕ → ℕ → ℕ → Bool
within a dest n = leb dest a && ltb a (dest + n)

-- The two ranges of a copy share no byte.
abbrev pub Apart : ℕ → ℕ → ℕ → Type 0
Apart dest src n = (dest + n ≤ src) ⊎ (src + n ≤ dest)

memcpy_loop_lem :
    (mem : ℕ → ℕ) (dest src n i a : ℕ)
    → Apart dest src (i + n)
    → memcpy_loop mem dest src n i a
      ≡ (if within a (dest + i) n then mem (src + (a - dest)) else mem a)
unfolding memcpy_loop
memcpy_loop_lem mem dest src zero i a apart = ground arith
memcpy_loop_lem mem dest src (suc n) i a apart =
    let e : i + 1 + n ≡ i + suc n = omega arith in
    let rest =
      memcpy_loop_lem (store mem (dest + i) (mem (src + i))) dest src n (i + 1) a
        (elim apart [ inl h ↦ inl (omega arith) | inr h ↦ inr (omega arith) ]) in
    elim (eq_or_ne a (dest + i)) [
      | inl at ↦
          let there : src + (a - dest) ≡ src + i = omega (arith, at) in
          rest ∙ ground (arith, ap (λ (t : ℕ). mem t) there)
      | inr ne ↦ elim apart [ inl h ↦ rest ∙ ground arith | inr h ↦ rest ∙ ground arith ]
    ]

-- `memcpy` between two ranges that share no byte: the destination then holds the bytes of the source,
-- and no other byte changes.
pub memcpy_lem :
    (mem : ℕ → ℕ) (dest src n a : ℕ)
    → Apart dest src n
    → memcpy mem dest src n a ≡ (if within a dest n then mem (src + (a - dest)) else mem a)
unfolding memcpy
memcpy_lem mem dest src n a apart =
    let e : dest + 0 ≡ dest = omega arith in
    let e' : 0 + n ≡ n = omega arith in rw e at (memcpy_loop_lem mem dest src n 0 a (rw e' apart))

memset_loop_lem :
    (mem : ℕ → ℕ) (s c n i a : ℕ)
    → memset_loop mem s c n i a ≡ (if within a (s + i) n then c % 2 ^ 8 else mem a)
unfolding memset_loop
memset_loop_lem mem s c zero i a = ground arith
memset_loop_lem mem s c (suc n) i a =
    let rest = memset_loop_lem (store mem (s + i) (c % 2 ^ 8)) s c n (i + 1) a in
    elim (eq_or_ne a (s + i)) [ inl at ↦ rest ∙ ground arith | inr ne ↦ rest ∙ ground arith ]

-- `memset` at an address other than NULL fills its range with the low byte of `c`, and changes no
-- other byte.
pub memset_lem :
    (mem : ℕ → ℕ) (s c n : ℕ)
    → s ≢ 0
    → (mem' : ℕ → ℕ) × (memset mem s c n ≡ some mem')
      × ((a : ℕ) → mem' a ≡ (if within a s n then c % 2 ^ 8 else mem a))
unfolding memset
memset_lem mem s c n real = (
  memset_loop mem s c n 0,
  ground arith,
  λ a. let e : s + 0 ≡ s = omega arith in rw e at (memset_loop_lem mem s c n 0 a),
)
