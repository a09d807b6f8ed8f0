-- ===== src/Prelude/Texts.antt =====
-- C strings: the bytes before the end.
use Prim.Native.Nat.{ℕ}
use mathlib.Core.Path.{◌≡◌, refl}
use mathlib.Core.Logic.{◌≢◌, inl, inr}
use mathlib.Core.Bool.{Bool, true, false}
use mathlib.Core.List.{List, [], ◌∷◌}
use native.Mathlib.Omega.{arith}
use csapp_stay.Prelude.Tests.{◌==◌, ==_iff, if◌then◌else◌, Bool-cases}

-- `strcmp(a, b) == 0`
unfoldable pub same : List ℕ → List ℕ → Bool
same [] [] = true
same [] (d ∷ b) = false
same (c ∷ a) [] = false
same (c ∷ a) (d ∷ b) = let rest = same a b in if c == d then rest else false

pub same_iff : (a b : List ℕ) → same a b ≡ true → a ≡ b
unfolding same
same_iff [] [] e = refl
same_iff [] (d ∷ b) e = cc
same_iff (c ∷ a) [] e = cc
same_iff (c ∷ a) (d ∷ b) e = elim (Bool-cases (c == d)) [
  | inl h ↦ let t : same a b ≡ true = rw h at e in cc ((==_iff c d).0 h, same_iff a b t)
  | inr h ↦ let t : false ≡ true = rw h at e in cc
]

pub same_refl : (a : List ℕ) → same a a ≡ true
unfolding same
same_refl [] = refl
same_refl (c ∷ a) = let e : (c == c) ≡ true = ground arith in rw (e, same_refl a) refl

pub same_ne : (a b : List ℕ) → same a b ≡ false → a ≢ b
same_ne a b h e = let t : same a a ≡ true = same_refl a in cc

pub ne_same : (a b : List ℕ) → a ≢ b → same a b ≡ false
ne_same a b n = elim (Bool-cases (same a b)) [ inl h ↦ absurd (n (same_iff a b h)) | inr h ↦ h ]
