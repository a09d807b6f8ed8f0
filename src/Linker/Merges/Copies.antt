-- ===== src/Linker/Merges/Copies.antt =====
-- src/linker/staticlink.c: the rows that merge_section copies.
use mathlib.Core.Option.{some_inj}
use csapp_stay.Prelude.{
  ℕ, zero, suc, ◌+◌, ◌%◌, ◌^◌, ◌<◌, ◌≡◌, refl, sym, ◌∙◌, ap, arith, Option, none, some, List, Bool,
  true, false, get_elem?, update, update_self, update_ne,
}
use csapp_stay.Linker.Elf.{assert, ◌>>=◌, ◌>>◌}
use csapp_stay.Linker.Merges.{Texts, copy_rows}

-- The n rows from `src` on, each at its index as an int, stand in the buffer from `at` on.
abbrev pub Copied : List (List ℕ) → ℕ → ℕ → ℕ → Texts → Type 0
Copied rows src at n buffer =
    (l : ℕ) → l < n → get_elem? rows ((src + l) % 2 ^ 32) ≡ some (buffer (at + l))

-- The rows in front of `at` are the same.
abbrev pub Kept : ℕ → Texts → Texts → Type 0
Kept at b b' = (r : ℕ) → r < at → b' r ≡ b r

-- What the loop leaves, with the fields that a step is inverted to.
copy_step :
    (row b : Bool) (m : Option (List ℕ)) (f : List ℕ → Option Texts) (b' : Texts)
    → (assert row >> assert b >> m >>= f) ≡ some b'
    → (x : List ℕ) × (m ≡ some x) × (f x ≡ some b')
copy_step true true (some x) f b' e = (x, refl, e)
copy_step true true none f b' e = cc
copy_step true false m f b' e = cc
copy_step false b m f b' e = cc

Copied-suc :
    (rows : List (List ℕ)) (src at n : ℕ) (row : List ℕ) (b : Texts)
    → get_elem? rows (src % 2 ^ 32) ≡ some row
    → b at ≡ row
    → Copied rows (suc src) (suc at) n b
    → Copied rows src at (suc n) b
Copied-suc rows src at n row b e f c zero h =
    let s : src + 0 ≡ src = omega arith in let t : at + 0 ≡ at = omega arith in rw (s, t, f) e
Copied-suc rows src at n row b e f c (suc l) h =
    let s : src + suc l ≡ suc src + l = omega arith in
    let t : at + suc l ≡ suc at + l = omega arith in rw (s, t) (c l (omega arith))

pub copy_rows_lem :
    (rows : List (List ℕ)) (src at n : ℕ) (b b' : Texts)
    → copy_rows rows src at n b ≡ some b'
    → Copied rows src at n b' × Kept at b b'
unfolding copy_rows
copy_rows_lem rows src at zero b b' e =
    ((λ l h. absurd (omega (arith, h))), (λ r h. ap (λ t. t r) (sym (some_inj.0 e))))
copy_rows_lem rows src at (suc n) b b' e =
    let (row, p, q) = copy_step _ _ (get_elem? rows (src % 2 ^ 32)) _ b' e in
    let (c, k) = copy_rows_lem rows (suc src) (suc at) n (update b at row) b' q in
    (
      Copied-suc rows src at n row b' p (k at (omega arith) ∙ update_self b at row) c,
      λ r h. k r (omega (arith, h)) ∙ update_ne b at r row (omega (arith, h)),
    )
