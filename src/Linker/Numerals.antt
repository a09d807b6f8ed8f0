-- ===== src/Linker/Numerals.antt =====
-- src/linker/staticlink.c and parseELF.c: the numerals that sprintf writes are read back.
use native.Mathlib.Nat.{pow-suc}
use csapp_stay.Prelude.{
  ℕ, zero, suc, ◌+◌, ◌-◌, ◌*◌, ◌/◌, ◌%◌, ◌^◌, ◌≤◌, ◌<◌, ◌≡◌, refl, ◌∙◌, ap, arith, true, Bool-cases,
  inl, inr, some, List, [], ◌∷◌, ◌++◌, map, ltb, length, length-append, if◌then◌else◌,
}
use csapp_stay.Convert.{string2uint}
use csapp_stay.Convert.Numerals.{digit, value_from, AllBelow, string2uint-hex}
use csapp_stay.Linker.Elf.Columns.{NoComma, IsColumn}
use csapp_stay.Linker.Elf.Symbols.{IsNumeral, numeral_lem, numeral-IsColumn, length-map-digit}
use csapp_stay.Linker.Relocations.Texts.{value_from-append}

-- The digits of a number of up to n digits.
unfoldable pub digits_of : ℕ → ℕ → ℕ → List ℕ
digits_of base zero v = []
digits_of base (suc n) v =
    let front = digits_of base n (v / base) in if ltb v base then v ∷ [] else front ++ v % base ∷ []

-- `%ld`
unfoldable pub long_text : ℕ → List ℕ
unfolding digits_of
long_text v =
    if ltb v (2 ^ 63)
    then map digit (digits_of 10 19 v)
    else b'-' ∷ map digit (digits_of 10 19 (2 ^ 64 - v))

-- `0x%lx`
unfoldable pub address_text : ℕ → List ℕ
unfolding digits_of
address_text v = b'0' ∷ b'x' ∷ map digit (digits_of 16 16 v)

cons-append : (ds : List ℕ) (d : ℕ) → (x : ℕ) × (xs : List ℕ) × (ds ++ d ∷ [] ≡ x ∷ xs)
cons-append [] d = (d, [], refl)
cons-append (x ∷ ds) d = (x, ds ++ d ∷ [], refl)

-- What division by the base gives.
module _ (base : ℕ) (one : base ^ 1 ≡ base) (below : (x : ℕ) → x % base < base)
    (whole : (x : ℕ) → x / base * base + x % base ≡ x)
    (shrinks : (x n : ℕ) → x < base ^ n * base → x / base < base ^ n) where
  AllBelow-append :
      (ds : List ℕ) (d : ℕ) → AllBelow base ds → d < base → AllBelow base (ds ++ d ∷ [])
  AllBelow-append [] d a h = (h, tt)
  AllBelow-append (x ∷ ds) d (y, a) h = (y, AllBelow-append ds d a h)

  Digits : ℕ → ℕ → List ℕ → Type 0
  Digits n v ds =
      AllBelow base ds
      × (length ds ≤ n)
      × (value_from base 0 ds ≡ v)
      × (x : ℕ) × (xs : List ℕ) × (ds ≡ x ∷ xs)

  one_digit : (n v : ℕ) → v < base → Digits (suc n) v (v ∷ [])
  unfolding Digits value_from
  one_digit n v h = ((h, tt), omega arith, omega arith, v, [], refl)

  more-Digits :
      (n v : ℕ) (front : List ℕ)
      → Digits n (v / base) front
      → Digits (suc n) v (front ++ v % base ∷ [])
  unfolding Digits
  more-Digits n v front (low, len, value, _, _, _) =
      let (x, xs, parts) = cons-append front (v % base) in
      (
        AllBelow-append front (v % base) low (below v),
        omega (arith, len, length-append front (v % base ∷ [])),
        value_from-append base 0 front (v % base) ∙ ap (λ t. t * base + v % base) value ∙ whole v,
        x,
        xs,
        parts,
      )

  digits_of-Digits : (n v : ℕ) → v < base ^ suc n → Digits (suc n) v (digits_of base (suc n) v)
  unfolding digits_of
  digits_of-Digits zero v h =
      let small : v < base = rw one at h in
      let e : ltb v base ≡ true = ground arith in rw e (one_digit 0 v small)
  digits_of-Digits (suc n) v h = elim (Bool-cases (ltb v base)) [
    | inl e ↦ rw e (one_digit (suc n) v (ground arith))
    | inr e ↦
        let p : base ^ suc (suc n) ≡ base ^ suc n * base = pow-suc base (suc n) in
        rw e (
          more-Digits (suc n) v (digits_of base (suc n) (v / base))
            (digits_of-Digits n (v / base) (shrinks v (suc n) (rw p at h))))
  ]

pub long_text-IsNumeral :
    (v : ℕ) → v < 2 ^ 63 → (ds : List ℕ) × (long_text v ≡ map digit ds) × IsNumeral v ds
unfolding long_text Digits
long_text-IsNumeral v h =
    let e : ltb v (2 ^ 63) ≡ true = ground arith in
    let (below, len, value, x, xs, whole) =
      digits_of-Digits 10 refl (λ x. omega arith) (λ x. omega arith) (λ x n l. omega (arith, l)) 18
        v (omega arith) in
    (
      digits_of 10 19 v,
      rw e refl,
      record {
        first_digit = x;
        digits = xs;
        whole = whole;
        below = below;
        short = omega (arith, len);
        value = value;
        small = omega arith;
      },
    )

pub long_text-reads : (v : ℕ) → v < 2 ^ 63 → string2uint (long_text v) ≡ some v
long_text-reads v h = let (ds, e, n) = long_text-IsNumeral v h in rw e (numeral_lem v ds n)

pub long_text-IsColumn : (v : ℕ) → v < 2 ^ 63 → IsColumn (long_text v)
long_text-IsColumn v h = let (ds, e, n) = long_text-IsNumeral v h in rw e (numeral-IsColumn v ds n)

digits-NoComma : (ds : List ℕ) → AllBelow 16 ds → NoComma (map digit ds)
digits-NoComma [] a = tt
digits-NoComma (d ∷ ds) (h, a) = ((λ e. absurd (ground arith)), digits-NoComma ds a)

pub address_text-reads :
    (v : ℕ) → v < 2 ^ 64 → (string2uint (address_text v) ≡ some v) × IsColumn (address_text v)
unfolding address_text Digits
address_text-reads v h =
    let (below, len, value, _, _, _) =
      digits_of-Digits 16 refl (λ x. omega arith) (λ x. omega arith) (λ x n l. omega (arith, l)) 15
        v (omega arith) in
    let ds = digits_of 16 16 v in
    (
      string2uint-hex ds below (rw value h) ∙ ap some value,
      (
        ((λ e. absurd (omega arith)), ((λ e. absurd (omega arith)), digits-NoComma ds below)),
        omega (arith, length-map-digit ds, len),
      ),
    )
