-- ===== src/Prelude/Arrays.antt =====
-- C arrays of fixed size as functions of the index. An index out of bounds is the caller's fault
-- in the source, so the theorems assume the bounds that the callers keep.
use Prim.Native.Nat.{ℕ}
use mathlib.Core.Path.{◌≡◌}
use mathlib.Core.Logic.{◌≢◌}
use mathlib.Core.Bool.{true, false}
use native.Mathlib.Omega.{arith}
use csapp_stay.Prelude.Tests.{◌==◌, if◌then◌else◌}

-- `a[i] = v`
abbrev pub update {ℓ} : {A : Type ℓ} → (ℕ → A) → ℕ → A → ℕ → A
update a i v j = if i == j then v else a j

==_refl : (i : ℕ) → (i == i) ≡ true
==_refl i = ground arith

pub update_self {ℓ} : {A : Type ℓ} (a : ℕ → A) (i : ℕ) (v : A) → update a i v i ≡ v
update_self a i v = rw (==_refl i)

pub update_ne {ℓ} : {A : Type ℓ} (a : ℕ → A) (i j : ℕ) (v : A) → i ≢ j → update a i v j ≡ a j
update_ne a i j v h = let e : (i == j) ≡ false = ground arith in rw e
