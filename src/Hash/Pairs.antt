-- ===== src/Hash/Pairs.antt =====
-- src/algorithm/hashtable.c: lists of pairs, the pairs whose keys pass a test, and what `find` and
-- the rehash of a bucket do to them.
use csapp_stay.Prelude.{
  ℕ, suc, ◌^◌, ◌≤◌, ◌≡◌, refl, inl, inr, arith, Bool, true, not, Option, none, some, List, [], ◌∷◌,
  ◌++◌, map, Bool-cases, length, if◌then◌else◌, append_assoc, append-nil, Agree, Agree-suc, and_bit,
  same,
}
use csapp_stay.Hash.{
  Pair, Bucket, hash_function, hash_function_index, push, rehash_pair, rehash, find,
}

-- The pairs whose key passes the test, in order.
unfoldable pub select : (List ℕ → Bool) → List Pair → List Pair
select test [] = []
select test (p ∷ ps) = let rest = select test ps in if test p.key then p ∷ rest else rest

pub select-append :
    (test : List ℕ → Bool) (ps qs : List Pair)
    → select test (ps ++ qs) ≡ select test ps ++ select test qs
unfolding select
select-append test [] qs = refl
select-append test (p ∷ ps) qs = elim (Bool-cases (test p.key)) [
  | inl h ↦ rw (h, select-append test ps qs) refl
  | inr h ↦ rw (h, select-append test ps qs) refl
]

-- A test that implies another sees no difference when the other has been made before.
pub select-select :
    (test before : List ℕ → Bool) (ps : List Pair)
    → ((key : List ℕ) → test key ≡ true → before key ≡ true)
    → select test (select before ps) ≡ select test ps
unfolding select
select-select test before [] imp = refl
select-select test before (p ∷ ps) imp = elim (Bool-cases (test p.key)) [
  | inl h ↦ rw (imp p.key h, h, select-select test before ps imp) refl
  | inr h ↦ elim (Bool-cases (before p.key)) [
    | inl g ↦ rw (g, h) (select-select test before ps imp)
    | inr g ↦ rw (g, h) (select-select test before ps imp)
  ]
]

pub length-select : (test : List ℕ → Bool) (ps : List Pair) → length (select test ps) ≤ length ps
unfolding select
length-select test [] = omega arith
length-select test (p ∷ ps) = elim (Bool-cases (test p.key)) [
  | inl h ↦ rw h (omega (arith, length-select test ps))
  | inr h ↦ rw h (omega (arith, length-select test ps))
]

-- The values of the key, the oldest first where no pair was moved.
abbrev pub values : List ℕ → List Pair → List ℕ
values key ps = map (λ p. p.val) (select (λ k. same k key) ps)

abbrev pub first : List ℕ → Option ℕ
first [] = none
first (v ∷ vs) = some v

pub find_lem : (key : List ℕ) (ps : List Pair) → find key ps ≡ first (values key ps)
unfolding select find
find_lem key [] = refl
find_lem key (p ∷ ps) = elim (Bool-cases (same p.key key)) [
  | inl h ↦ rw h refl
  | inr h ↦ rw h (find_lem key ps)
]

-- Every key's hash has the low d bits of i.
abbrev pub Homed : ℕ → ℕ → List Pair → Type 0
Homed d i [] = Unit
Homed d i (p ∷ ps) = Agree d (hash_function p.key) i × Homed d i ps

-- The side of a key when a bucket is split on the bit.
abbrev pub goes : ℕ → ℕ → List ℕ → Bool
goes g bit key = and_bit (hash_function_index g key) bit

abbrev pub stays : ℕ → ℕ → List ℕ → Bool
stays g bit key = not (goes g bit key)

abbrev pub filled : Bucket → List Pair → Bucket
filled b ps = record b { pairs = ps }

pub rehash_lem :
    (g bit : ℕ) (ps : List Pair) (old new : Bucket)
    → rehash g bit ps (old, new) ≡ (
      filled old (old.pairs ++ select (stays g bit) ps),
      filled new (new.pairs ++ select (goes g bit) ps),
    )
unfolding rehash rehash_pair push select
rehash_lem g bit [] old new = rw (append-nil old.pairs, append-nil new.pairs) refl
rehash_lem g bit (p ∷ ps) old new = elim (Bool-cases (goes g bit p.key)) [
  | inl h ↦
      rw (h, rehash_lem g bit ps old (push p new))
        (rw (append_assoc new.pairs (p ∷ []) (select (goes g bit) ps)) refl)
  | inr h ↦
      rw (h, rehash_lem g bit ps (push p old) new)
        (rw (append_assoc old.pairs (p ∷ []) (select (stays g bit) ps)) refl)
]

-- The pairs that pass the test have one bit more in common.
pub select-Homed :
    (test : List ℕ → Bool) (d i : ℕ) (ps : List Pair)
    → ((key : List ℕ) → test key ≡ true → and_bit (hash_function key) (2 ^ d) ≡ and_bit i (2 ^ d))
    → Homed d i ps
    → Homed (suc d) i (select test ps)
unfolding select
select-Homed test d i [] bit h = tt
select-Homed test d i (p ∷ ps) bit (a, h) = elim (Bool-cases (test p.key)) [
  | inl e ↦
      rw e (Agree-suc d (hash_function p.key) i a (bit p.key e), select-Homed test d i ps bit h)
  | inr e ↦ rw e (select-Homed test d i ps bit h)
]
