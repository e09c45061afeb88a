-- ===== src/Mm/Buddy/Cover.antt =====
-- `get_buddy` of kernel/mm/page_alloc.c: where the buddy of a block stands, and that it heads a block.
use native.Mathlib.Nat.{pow-suc, mul-le-mul_right, mul-div_cancel}
use native.Mathlib.Decide.{dec_lt}
use quark_os.Prelude.{
  ℕ, zero, suc, ◌+◌, ◌-◌, ◌*◌, ◌/◌, ◌%◌, ◌^◌, ◌≤◌, ◌<◌, ◌≡◌, inl, inr, true, false, arith, ◌==◌,
  eq_or_ne, sym, ap, Option, some, none, leb, Bool-cases, ◌!=◌, ◌∙◌,
}
use quark_os.Klib.Bits.Digits.{one-le-two-pow, pow_add}
use quark_os.Mm.Buddy.{Buddy, get_buddy}
use quark_os.Mm.Buddy.Invariant.{is_head, HasOrder, IsBuddy}

-- The block that a page lies in.
record Cover (s : Buddy) (q : ℕ) : Type 0 where
  block : ℕ
  order : ℕ
  inside : block < s.page_cnt
  head : is_head s block ≡ true
  size : HasOrder s block order
  start : block ≤ q
  end : q < block + 2 ^ order

begins : (s : Buddy) (q : ℕ) → IsBuddy s → q < s.page_cnt → is_head s q ≡ true → Cover s q
begins s q ok sq h =
    let (o, le, size) = ok.sized q sq h in
    record {
      block = q;
      order = o;
      inside = sq;
      head = h;
      size = size;
      start = omega arith;
      end = omega (arith, one-le-two-pow o);
    }

cover : (s : Buddy) (q : ℕ) → IsBuddy s → q < s.page_cnt → Cover s q
cover s zero ok sq = begins s 0 ok sq (ok.first sq)
cover s (suc q) ok sq =
    let c = cover s q ok (omega arith) in
    elim (dec_lt (suc q) (c.block + 2 ^ c.order)) [
      | yes within ↦ record {
        block = c.block;
        order = c.order;
        inside = c.inside;
        head = c.head;
        size = c.size;
        start = omega (arith, c.start);
        end = within;
      }
      | no beyond ↦
          let e : c.block + 2 ^ c.order ≡ suc q = omega (arith, c.end) in
          begins s (suc q) ok sq
            (rw e at (ok.adjoins c.block c.order c.inside c.head c.size (rw e sq)))
    ]

-- Between an even multiple of `u` and the next odd one there is no other even one.
no_between : (n r u : ℕ) → r * (2 * u) < n * (2 * u) → n * (2 * u) ≤ (2 * r + 1) * u → 0 < u → ⊥
no_between n r u lo hi pos = elim (dec_lt r n) [
  | yes more ↦ omega (arith, mul-le-mul_right (2 * u) more)
  | no less ↦ omega (arith, mul-le-mul_right {m = n} {n = r} (2 * u) (omega arith))
]

same_multiple : (n j v : ℕ) → j * v ≤ n * v → n * v < j * v + v → n * v ≡ j * v
same_multiple n j v lo hi = elim (dec_lt j n) [
  | yes more ↦ absurd (omega (arith, mul-le-mul_right v more))
  | no less ↦ omega (arith, mul-le-mul_right {m = n} {n = j} v (omega arith))
]

-- A large block ends at an even multiple of a smaller size.
large_end : (t j w u d : ℕ) → t ≡ j * w → w ≡ 2 * u * d → t + w ≡ (j + 1) * d * (2 * u)
large_end t j w u d e e' = omega (arith, e, e', ap (λ (x : ℕ). j * x) e')

-- The left neighbour of a block at an odd multiple of its size heads a block.
pub left_head :
    (s : Buddy) (p o r : ℕ)
    → IsBuddy s
    → p < s.page_cnt
    → is_head s p ≡ true
    → p ≡ (2 * r + 1) * 2 ^ o
    → is_head s (2 * r * 2 ^ o) ≡ true
left_head s p o r ok sp h odd =
    let q = 2 * r * 2 ^ o in
    let pos = one-le-two-pow o in
    let c = cover s q ok (omega (arith, odd, sp)) in
    let (j, at) = ok.aligned c.block c.order c.inside c.head c.size in
    let before : c.block + 2 ^ c.order ≤ p = elim (dec_lt p (c.block + 2 ^ c.order)) [
      | yes inner ↦ absurd (
          cc (
            ok.interior c.block c.order p c.inside c.head c.size (omega (arith, c.start, odd, pos))
                inner,
            h,
          ))
      | no le ↦ omega arith
    ] in
    elim (dec_lt o c.order) [
      | yes large ↦
          let d = c.order - suc o in
          let e : suc o + d ≡ c.order = omega arith in
          let w : 2 ^ c.order ≡ 2 * 2 ^ o * 2 ^ d =
            rw e at (pow_add (suc o) d) ∙ ap (λ (x : ℕ). x * 2 ^ d) (pow-suc 2 o ∙ omega arith) in
          let ends = large_end c.block j (2 ^ c.order) (2 ^ o) (2 ^ d) at w in
          absurd (
            no_between ((j + 1) * 2 ^ d) r (2 ^ o) (omega (arith, ends, c.end))
              (omega (arith, ends, before, odd)) pos)
      | no little ↦
          let d = o - c.order in
          let e : c.order + d ≡ o = omega arith in
          let w : 2 ^ o ≡ 2 ^ c.order * 2 ^ d = rw e at (pow_add c.order d) in
          let parts : q ≡ 2 * r * 2 ^ d * 2 ^ c.order =
            omega (arith, ap (λ (x : ℕ). 2 * r * x) w) in
          let same : q ≡ c.block =
            parts
            ∙ same_multiple (2 * r * 2 ^ d) j (2 ^ c.order) (omega (arith, parts, at, c.start))
                (omega (arith, parts, at, c.end))
            ∙ sym at in
          rw same c.head
    ]

-- What `get_buddy` returns for a block at `p` of order `o`.
pub data Neighbour (s : Buddy) (p o : ℕ) : Option ℕ → Type 0 where
  alone : Neighbour s p o none
  above : p + 2 ^ o < s.page_cnt → (k : ℕ) → p ≡ k * 2 ^ suc o → Neighbour s p o (some (p + 2 ^ o))
  below : (r : ℕ) → p ≡ (2 * r + 1) * 2 ^ o → Neighbour s p o (some (2 * r * 2 ^ o))

pub get_buddy_lem :
    (s : Buddy) (p o : ℕ)
    → IsBuddy s
    → p < s.page_cnt
    → is_head s p ≡ true
    → HasOrder s p o
    → (b : Option ℕ) × (get_buddy s p ≡ some b) × Neighbour s p o b
unfolding get_buddy
get_buddy_lem s p o ok sp h size =
    let (k, at) = ok.aligned p o sp h size in
    let pos = one-le-two-pow o in
    let cnt : (s.pages p).size / 4096 ≡ 2 ^ o = omega (arith, size) in
    let nonzero : (2 ^ o != 0) ≡ true = ground arith in
    let div : p / 2 ^ o ≡ k = ap (λ (t : ℕ). t / 2 ^ o) at ∙ mul-div_cancel k pos in
    elim (eq_or_ne (k % 2) 1) [
      | inl odd ↦
          let r = k / 2 in
          let twice : k ≡ 2 * r + 1 = omega (arith, odd) in
          let spot : p ≡ (2 * r + 1) * 2 ^ o = at ∙ ap (λ (t : ℕ). t * 2 ^ o) twice in
          let there : p - 2 ^ o ≡ 2 * r * 2 ^ o = omega (arith, spot) in
          let in_range : leb s.page_cnt (2 * r * 2 ^ o) ≡ false = ground (arith, spot) in
          let is_odd : (k % 2 == 1) ≡ true = ground arith in
          (some (2 * r * 2 ^ o), rw (cnt, nonzero, div, is_odd, there, in_range), below r spot)
      | inr even ↦
          let is_even : (k % 2 == 1) ≡ false = ground arith in
          elim (Bool-cases (leb s.page_cnt (p + 2 ^ o))) [
            | inl out ↦ (none, rw (cnt, nonzero, div, is_even, out), alone)
            | inr within ↦
                let twice : k ≡ k / 2 * 2 = omega (arith, even) in
                let spot : p ≡ k / 2 * 2 ^ suc o =
                  at
                  ∙ ap (λ (t : ℕ). t * 2 ^ o) twice
                  ∙ omega (arith, ap (λ (t : ℕ). k / 2 * t) (pow-suc 2 o)) in
                (
                  some (p + 2 ^ o),
                  rw (cnt, nonzero, div, is_even, within),
                  above (ground arith) (k / 2) spot,
                )
          ]
    ]
