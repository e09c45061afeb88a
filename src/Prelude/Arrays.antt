-- ===== src/Prelude/Arrays.antt =====
-- C arrays as functions from the index. The length is no part of it.
use Prim.Native.Nat.{ℕ}
use mathlib.Core.Path.{◌≡◌}
use mathlib.Core.Logic.{◌≢◌}
use native.Mathlib.Omega.{arith}
use quark_os.Prelude.Tests.{◌==◌, if◌then◌else◌}

module _ {ℓ} {A : Type ℓ} where
  -- `a[i] = v`
  abbrev pub store : (ℕ → A) → ℕ → A → ℕ → A
  store a i v j = if i == j then v else a j

  pub store_self : (a : ℕ → A) (i : ℕ) (v : A) → store a i v i ≡ v
  store_self a i v = ground arith

  pub store_ne : (a : ℕ → A) {i j : ℕ} (v : A) → i ≢ j → store a i v j ≡ a j
  store_ne a v h = ground arith
