-- ===== src/Klib/Strings/Length.antt =====
-- kernel/lib/qstring.c: the length of a string from where its first 0 is.
use quark_os.Klib.Strings.{strlen, strlen_loop}
use quark_os.Prelude.{ℕ, zero, suc, ◌+◌, ◌<◌, true, false, some, ◌!=◌, ◌≡◌, ap, ◌≢◌, arith}

strlen_loop-end :
    (rest fuel n : ℕ) (mem : ℕ → ℕ) (str i : ℕ)
    → i + rest ≡ n
    → ((k : ℕ) → k < n → mem (str + k) ≢ 0)
    → mem (str + n) ≡ 0
    → rest < fuel
    → strlen_loop fuel mem str i ≡ some n
unfolding strlen_loop
strlen_loop-end rest zero n mem str i at f e lt = ground (arith, lt)
strlen_loop-end zero (suc fuel) n mem str i at f e lt =
    let same : i ≡ n = omega (arith, at) in
    let stop : (mem (str + i) != 0) ≡ false = rw same (ground (arith, e)) in rw stop (ap some same)
strlen_loop-end (suc rest) (suc fuel) n mem str i at f e lt =
    let h = f i (omega (arith, at)) in
    let go : (mem (str + i) != 0) ≡ true = ground (arith, h) in
    rw go (strlen_loop-end rest fuel n mem str (i + 1) (omega (arith, at)) f e (omega (arith, lt)))

-- A string whose first 0 is at index `n` has length `n`.
pub strlen-end :
    (n fuel : ℕ) (mem : ℕ → ℕ) (str : ℕ)
    → str ≢ 0
    → ((k : ℕ) → k < n → mem (str + k) ≢ 0)
    → mem (str + n) ≡ 0
    → n < fuel
    → strlen fuel mem str ≡ some n
unfolding strlen
strlen-end n fuel mem str real f e lt =
    let go : (str != 0) ≡ true = ground (arith, real) in
    rw go (strlen_loop-end n fuel n mem str 0 (omega arith) f e lt)
