-- ===== src/Prelude/Bits.antt =====
-- The low bits of a number: `x & ((1 << d) - 1)` is `x % 2 ^ d`, and bit d of x is x / 2 ^ d % 2.
use Prim.Native.Nat.{ℕ, zero, suc, ◌+◌, ◌*◌, ◌/◌, ◌%◌, ◌^◌, ◌≤◌, ◌<◌}
use mathlib.Core.Path.{◌≡◌, refl, sym, ap, ◌∙◌}
use mathlib.Core.Bool.{Bool}
use native.Mathlib.Omega.{arith}
use native.Mathlib.Nat.{
  dvd-mul_right, mod-mod, mod-mod_of_dvd, div-add-mod, div-div-eq-div-mul, mod-lt, mod-eq_of_lt,
  pow-suc,
}
use native.Mathlib.Decide.{ℕ_discrete}
use csapp_stay.Prelude.Tests.{◌==◌}

-- `x & b` as a condition, for a power of two b
abbrev pub and_bit : ℕ → ℕ → Bool
and_bit x b = x / b % 2 == 1

pub two-pow-pos : (d : ℕ) → 0 < 2 ^ d
two-pow-pos zero = omega arith
two-pow-pos (suc d) = omega (arith, pow-suc 2 d, two-pow-pos d)

pub mod-pow-lt : (x d : ℕ) → x % 2 ^ d < 2 ^ d
mod-pow-lt x d = mod-lt x (two-pow-pos d)

mod-double : (x p : ℕ) → 0 < p → (x % (p * 2) ≡ x % p + x / p % 2 * p)
mod-double x p h =
    let q = x / p in
    let n = x / (p * 2) in
    let whole : p * q + x % p ≡ x = div-add-mod x p in
    let half : q / 2 ≡ n = div-div-eq-div-mul x p 2 in
    let parts : p * q ≡ p * (2 * n + q % 2) = ap (λ k. p * k) (omega (arith, half)) in
    let outer : p * 2 * n + x % (p * 2) ≡ x = div-add-mod x (p * 2) in
    let even : p * (2 * n + q % 2) ≡ p * 2 * n + q % 2 * p = omega arith in
    omega (arith, whole, parts, outer, even)

-- One bit more.
pub mod-pow-suc : (x d : ℕ) → x % 2 ^ suc d ≡ x % 2 ^ d + x / 2 ^ d % 2 * 2 ^ d
mod-pow-suc x d = rw (pow-suc 2 d) (mod-double x (2 ^ d) (two-pow-pos d))

-- Two numbers with the same low bits.
abbrev pub Agree : ℕ → ℕ → ℕ → Type 0
Agree d a b = a % 2 ^ d ≡ b % 2 ^ d

pub Agree-suc :
    (d a b : ℕ) → Agree d a b → and_bit a (2 ^ d) ≡ and_bit b (2 ^ d) → Agree (suc d) a b
Agree-suc d a b h e =
    let same : a / 2 ^ d % 2 ≡ b / 2 ^ d % 2 = ground arith in
    mod-pow-suc a d ∙ (rw (h, same) refl) ∙ sym (mod-pow-suc b d)

low-low-le : (d e a : ℕ) → d ≤ e → a % 2 ^ e % 2 ^ d ≡ a % 2 ^ d
low-low-le d zero a h = let e : d ≡ 0 = omega arith in rw e (mod-mod a 1)
low-low-le d (suc e) a h = elim (ℕ_discrete d (suc e)) [
  | yes q ↦ rw q (mod-mod a (2 ^ suc e))
  | no q ↦
      let half : a % (2 ^ e * 2) % 2 ^ e ≡ a % 2 ^ e =
        mod-mod_of_dvd (2 ^ e) a (dvd-mul_right (2 ^ e) 2) in
      rw (pow-suc 2 e) (
        sym (low-low-le d e (a % (2 ^ e * 2)) (omega arith))
        ∙ ap (λ x. x % 2 ^ d) half
        ∙ low-low-le d e a (omega arith))
]

-- The low bits of the low bits.
pub low-low : {d e : ℕ} (a : ℕ) → d ≤ e → Agree d (a % 2 ^ e) a
low-low {d} {e} a h = low-low-le d e a h

pub Agree-down : {d e : ℕ} (a b : ℕ) → d ≤ e → Agree e a b → Agree d a b
Agree-down {d} {e} a b h q = sym (low-low a h) ∙ ap (λ x. x % 2 ^ d) q ∙ low-low b h

times-eq : (a b p : ℕ) → 0 < p → a < 2 → b < 2 → a * p ≡ b * p → a ≡ b
times-eq zero zero p h ha hb e = refl
times-eq zero (suc zero) p h ha hb e = absurd (omega arith)
times-eq (suc zero) zero p h ha hb e = absurd (omega arith)
times-eq (suc zero) (suc zero) p h ha hb e = refl
times-eq (suc (suc a)) b p h ha hb e = absurd (omega arith)
times-eq zero (suc (suc b)) p h ha hb e = absurd (omega arith)
times-eq (suc zero) (suc (suc b)) p h ha hb e = absurd (omega arith)

pub Agree-bit : (d a b : ℕ) → Agree (suc d) a b → and_bit a (2 ^ d) ≡ and_bit b (2 ^ d)
Agree-bit d a b h =
    let low : Agree d a b = Agree-down a b (omega arith) h in
    let sum = sym (mod-pow-suc a d) ∙ h ∙ mod-pow-suc b d in
    let same : a / 2 ^ d % 2 * 2 ^ d ≡ b / 2 ^ d % 2 * 2 ^ d = omega (arith, low, sum) in
    rw
      (times-eq (a / 2 ^ d % 2) (b / 2 ^ d % 2) (2 ^ d) (two-pow-pos d) (omega arith) (omega arith)
        same)
      refl

pub bit-low : {d e : ℕ} (a : ℕ) → d < e → and_bit (a % 2 ^ e) (2 ^ d) ≡ and_bit a (2 ^ d)
bit-low {d} {e} a h = Agree-bit d (a % 2 ^ e) a (low-low a h)

-- Numbers below 2 ^ d that agree on d bits are equal.
pub Agree-eq : (d a b : ℕ) → a < 2 ^ d → b < 2 ^ d → Agree d a b → a ≡ b
Agree-eq d a b ha hb h = sym (mod-eq_of_lt ha) ∙ h ∙ mod-eq_of_lt hb
