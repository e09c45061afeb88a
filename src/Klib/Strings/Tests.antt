-- ===== src/Klib/Strings/Tests.antt =====
-- A memory with two strings, and the theorems there.
use quark_os.Prelude.{ℕ, ◌≡◌, refl, arith, some, [], ◌∷◌, ◌==◌, if◌then◌else◌}
use quark_os.Klib.Strings.{utoa, decimal_digit}
use quark_os.Klib.Strings.Printing.{Prints, utoa-Prints}
use quark_os.Klib.Strings.Equality.{IsString}

-- "ab" at 100 and "ac" at 200
abbrev mem : ℕ → ℕ
mem a =
    if a == 100
    then 97
    else if a == 101
    then 98
    else if a == 200
    then 97
    else if a == 201
    then 99
    else 0

ab-IsString : IsString mem 100 (97 ∷ 98 ∷ [])
ab-IsString = (refl, omega arith, (refl, omega arith, refl))

ac-IsString : IsString mem 200 (97 ∷ 99 ∷ [])
ac-IsString = (refl, omega arith, (refl, omega arith, refl))

utoa-Prints_example :
    (mem' : ℕ → ℕ) × (utoa mem 4096 300 ≡ some mem') × Prints 10 decimal_digit mem 4096 300 mem'
utoa-Prints_example = utoa-Prints mem 4096 300 (omega arith) (omega arith)
