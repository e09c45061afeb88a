-- ===== src/Klib/Bits/Log.antt =====
-- `log2` of kernel/lib/qlib.c.
use native.Mathlib.Nat.{pow-suc}
use native.Mathlib.Decide.{dec_lt}
use quark_os.Prelude.{
  ℕ, zero, suc, ◌+◌, ◌/◌, ◌%◌, ◌^◌, ◌≤◌, ◌<◌, ◌≡◌, ap, ◌∙◌, arith, false, some, ◌==◌,
}
use quark_os.Klib.Bits.{log2_loop, log2}
use quark_os.Klib.Bits.Digits.{one-le-two-pow, two_pow_mono}

log2_loop_lem :
    (fuel j val cnt : ℕ)
    → 2 ^ j ≤ val
    → val < 2 ^ suc j
    → j < fuel
    → cnt + j < 256
    → log2_loop fuel val cnt ≡ some (cnt + j)
unfolding log2_loop
log2_loop_lem zero j val cnt low high more small = absurd (omega arith)
log2_loop_lem (suc fuel) zero val cnt low high more small =
    let e : val ≡ 1 = omega (arith, pow-suc 2 0) in rw e (ap some (omega arith))
log2_loop_lem (suc fuel) (suc j) val cnt low high more small =
    let big : (val == 1) ≡ false = ground (arith, pow-suc 2 j, one-le-two-pow j) in
    let step : (cnt + 1) % 2 ^ 8 ≡ cnt + 1 = omega arith in
    let e : cnt + 1 + j ≡ cnt + suc j = omega arith in
    rw (big, step)
      (log2_loop_lem fuel j (val / 2) (cnt + 1) (omega (arith, pow-suc 2 j))
          (omega (arith, pow-suc 2 (suc j))) (omega arith) (omega arith)
        ∙ ap some e)

below : (j val : ℕ) → 2 ^ j ≤ val → val < 2 ^ 16 → j < 16
below j val low word = elim (dec_lt j 16) [
  | yes lt ↦ lt
  | no ge ↦ absurd (omega (arith, two_pow_mono 16 j (omega arith)))
]

-- For a 16-bit value other than 0, `log2` ends and is the exponent of its highest binary digit.
pub log2_lem : (j val : ℕ) → 2 ^ j ≤ val → val < 2 ^ suc j → val < 2 ^ 16 → log2 val ≡ some j
unfolding log2
log2_lem j val low high word =
    let e : val % 2 ^ 16 ≡ val = omega arith in
    rw e (
      log2_loop_lem 16 j val 0 low high (below j val low word) (omega (arith, below j val low word))
      ∙ ap some (omega arith))
