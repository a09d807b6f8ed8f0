-- ===== src/Convert/Numerals.antt =====
-- What `string2uint` reads from decimal and hexadecimal numerals.
use csapp_stay.Prelude.{
  ℕ, ◌+◌, ◌-◌, ◌*◌, ◌%◌, ◌^◌, ◌≤◌, ◌<◌, ◌≡◌, refl, arith, Option, some, List, [], ◌∷◌, map, ltb,
  ◌⊎◌, inl, inr, Bool-cases, ◌==◌, if◌then◌else◌,
}
use csapp_stay.Convert.{Dfa, dfa, step, run, string2uint}

-- The number that digits stand for, most significant first.
unfoldable pub value_from : ℕ → ℕ → List ℕ → ℕ
value_from base v [] = v
value_from base v (d ∷ ds) = value_from base (v * base + d) ds

abbrev pub AllBelow : ℕ → List ℕ → Type 0
AllBelow base [] = Unit
AllBelow base (d ∷ ds) = (d < base) × AllBelow base ds

abbrev pub digit : ℕ → ℕ
digit d = if ltb d 10 then d + b'0' else d - 10 + b'a'

le-value_from : (base v : ℕ) (ds : List ℕ) → 0 < base → v ≤ value_from base v ds
unfolding value_from
le-value_from base v [] h = omega arith
le-value_from base v (d ∷ ds) h = let t = le-value_from base (v * base + d) ds h in grind arith

run-decimal :
    (uv s : ℕ) (ds : List ℕ)
    → AllBelow 10 ds
    → value_from 10 uv ds < 2 ^ 64
    → run (map digit ds) (dfa 2 uv s) ≡ some (dfa 2 (value_from 10 uv ds) s)
unfolding run step value_from
run-decimal uv s [] all lt = refl
run-decimal uv s (d ∷ ds) all lt =
    let grows = le-value_from 10 (uv * 10 + d) ds (omega arith) in
    let fits : uv * 10 + d < 2 ^ 64 = omega arith in ground (arith, run-decimal (uv * 10 + d) s ds)

-- A run that ends with the value of the digits.
abbrev Reads : ℕ → ℕ → Option Dfa → Type 0
Reads uv s r = (q : ℕ) × (r ≡ some (dfa q uv s))

after_zero :
    (s : ℕ) (ds : List ℕ)
    → AllBelow 10 ds
    → value_from 10 0 ds < 2 ^ 64
    → Reads (value_from 10 0 ds) s (run (map digit ds) (dfa 1 0 s))
unfolding run step value_from
after_zero s [] all lt = (1, refl)
after_zero s (d ∷ ds) all lt =
    let e : 0 * 10 + d ≡ d = omega arith in
    let rest = run-decimal d s ds all.1 (rw e at lt) in (2, rw e (ground (arith, rest)))

-- After the sign, or at the start of an unsigned number, with `q` 3 or 0.
first_digit :
    (q s d : ℕ) (ds : List ℕ)
    → (q ≡ 0) ⊎ (q ≡ 3)
    → d < 10
    → AllBelow 10 ds
    → value_from 10 d ds < 2 ^ 64
    → Reads (value_from 10 d ds) s (run (map digit (d ∷ ds)) (dfa q 0 s))
unfolding run step
first_digit q s d ds start hd all lt = elim (Bool-cases (d == 0)) [
  | inl z ↦
      let e : d ≡ 0 = ground arith in
      let (q', rest) = after_zero s ds all (rw e at lt) in (q', rw e (ground (arith, rest)))
  | inr n ↦ (2, ground (arith, run-decimal d s ds))
]

run-hex :
    (q uv s : ℕ) (ds : List ℕ)
    → (q ≡ 4) ⊎ (q ≡ 5)
    → AllBelow 16 ds
    → value_from 16 uv ds < 2 ^ 64
    → Reads (value_from 16 uv ds) s (run (map digit ds) (dfa q uv s))
unfolding run step value_from
run-hex q uv s [] start all lt = (q, refl)
run-hex q uv s (d ∷ ds) start all lt =
    let grows = le-value_from 16 (uv * 16 + d) ds (omega arith) in
    let fits : uv * 16 + d < 2 ^ 64 = omega arith in
    let (q', rest) = run-hex 5 (uv * 16 + d) s ds (inr refl) all.1 lt in (q', ground (arith, rest))

run-minus : (cs : List ℕ) → run (b'-' ∷ cs) (dfa 0 0 0) ≡ run cs (dfa 3 0 1)
unfolding run step
run-minus cs = refl

run-prefix : (cs : List ℕ) → run (b'0' ∷ b'x' ∷ cs) (dfa 0 0 0) ≡ run cs (dfa 4 0 0)
unfolding run step
run-prefix cs = refl

-- A decimal numeral of one or more digits whose value is below 2^64 is read as that value.
pub string2uint-decimal :
    (d : ℕ) (ds : List ℕ)
    → AllBelow 10 (d ∷ ds)
    → value_from 10 d ds < 2 ^ 64
    → string2uint (map digit (d ∷ ds)) ≡ some (value_from 10 d ds)
unfolding string2uint
string2uint-decimal d ds all lt =
    let (q, r) = first_digit 0 0 d ds (inl refl) all.0 all.1 lt in rw r

-- A decimal numeral after a minus sign whose value is below 2^63 is read as the two's complement
-- of that value in 64 bits.
pub string2uint-negative :
    (d : ℕ) (ds : List ℕ)
    → AllBelow 10 (d ∷ ds)
    → value_from 10 d ds < 2 ^ 63
    → string2uint (b'-' ∷ map digit (d ∷ ds)) ≡ some ((2 ^ 64 - value_from 10 d ds) % 2 ^ 64)
unfolding string2uint
string2uint-negative d ds all lt =
    let (q, r) = first_digit 3 1 d ds (inr refl) all.0 all.1 (omega arith) in
    rw (run-minus (map digit (d ∷ ds)), r) (ground arith)

-- A hexadecimal numeral after 0x, of any number of digits, whose value is below 2^64 is read as
-- that value.
pub string2uint-hex :
    (ds : List ℕ)
    → AllBelow 16 ds
    → value_from 16 0 ds < 2 ^ 64
    → string2uint (b'0' ∷ b'x' ∷ map digit ds) ≡ some (value_from 16 0 ds)
unfolding string2uint
string2uint-hex ds all lt =
    let (q, r) = run-hex 4 0 0 ds (inl refl) all lt in rw (run-prefix (map digit ds), r)

-- The test for overflow compares with the number before only: a number that wraps round to one
-- that is not smaller is accepted.
pub step_overflow :
    (uv d s : ℕ)
    → d < 10
    → 2 ^ 64 ≤ uv * 10 + d
    → uv ≤ (uv * 10 + d) % 2 ^ 64
    → step (digit d) (dfa 2 uv s) ≡ some (dfa 2 ((uv * 10 + d) % 2 ^ 64) s)
unfolding step
step_overflow uv d s hd big kept = ground arith
