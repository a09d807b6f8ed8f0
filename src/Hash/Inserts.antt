-- ===== src/Hash/Inserts.antt =====
-- src/algorithm/hashtable.c: `hashtable_insert` returns, unless a whole bucket of pairs has the
-- low bits of the key's hash, and adds one value to those of the key.
use csapp_stay.Prelude.{
  ℕ, zero, suc, ◌+◌, ◌%◌, ◌^◌, ◌≤◌, ◌<◌, ◌≡◌, ◌≢◌, refl, sym, ◌∙◌, ap, inl, inr, arith, Bool, true,
  false, some, List, [], ◌∷◌, ◌++◌, map, ◌==◌, ==_iff, Bool-cases, leb, length, length-append,
  Agree, Agree-down, same, same_iff, same_refl, ne_same,
}
use native.Mathlib.Decide.{ℕ_discrete, dec_lt}
use csapp_stay.Hash.{
  Pair, HashTable, hash_function, hash_function_index, bucket_address, bucket_of, store, push,
  split_bucket, hashtable_insert,
}
use csapp_stay.Hash.Pairs.{Homed, select, values}
use csapp_stay.Hash.Tables.{IsTable}
use csapp_stay.Hash.SplitBucket.{Split, split_bucket-Split}
use csapp_stay.Hash.Doubles.{Homed-Agree}
use csapp_stay.Hash.Stores.{
  key-IsEntry, index-inside, index-Agree, store-at, store-off, store-IsTable,
}

-- The values that the table has for a key.
abbrev pub entries : HashTable → List ℕ → List ℕ
entries t k = values k (bucket_of t k).pairs

-- The hash of k has the low d bits of the key's.
abbrev pub near : ℕ → List ℕ → List ℕ → Bool
near d key k = (hash_function k % 2 ^ d) == (hash_function key % 2 ^ d)

-- The pairs of the key's bucket that share the low d bits of its hash.
abbrev pub crowd : HashTable → ℕ → List ℕ → ℕ
crowd t d key = length (select (near d key) (bucket_of t key).pairs)

pub record Inserted (t : HashTable) (key : List ℕ) (val : ℕ) (u : HashTable) : Type 0 where
  pub table : IsTable u
  pub bounded : u.bucket_capacity ≡ t.bucket_capacity
  pub own : entries u key ≡ entries t key ++ val ∷ []
  pub others : (k : List ℕ) → k ≢ key → entries u k ≡ entries t k

append-Homed :
    (d i : ℕ) (ps : List Pair) (p : Pair)
    → Agree d (hash_function p.key) i
    → Homed d i ps
    → Homed d i (ps ++ p ∷ [])
append-Homed d i [] p e h = (e, tt)
append-Homed d i (q ∷ ps) p e (a, h) = (a, append-Homed d i ps p e h)

values-push_self :
    (k : List ℕ) (ps : List Pair) (p : Pair)
    → same p.key k ≡ true
    → values k (ps ++ p ∷ []) ≡ values k ps ++ p.val ∷ []
unfolding select
values-push_self k [] p e = rw e refl
values-push_self k (q ∷ ps) p e = elim (Bool-cases (same q.key k)) [
  | inl h ↦ rw (h, values-push_self k ps p e) refl
  | inr h ↦ rw h (values-push_self k ps p e)
]

values-push_ne :
    (k : List ℕ) (ps : List Pair) (p : Pair)
    → same p.key k ≡ false
    → values k (ps ++ p ∷ []) ≡ values k ps
unfolding select
values-push_ne k [] p e = rw e refl
values-push_ne k (q ∷ ps) p e = elim (Bool-cases (same q.key k)) [
  | inl h ↦ rw (h, values-push_ne k ps p e) refl
  | inr h ↦ rw h (values-push_ne k ps p e)
]

-- In a bucket that is deep enough every pair is near.
select-near :
    (d e : ℕ) (key : List ℕ) (ps : List Pair)
    → d ≤ e
    → Homed e (hash_function key) ps
    → select (near d key) ps ≡ ps
unfolding select
select-near d e key [] l h = refl
select-near d e key (p ∷ ps) l (a, h) =
    let n : near d key p.key ≡ true = (==_iff _ _).1 (Agree-down _ _ l a) in
    rw (n, select-near d e key ps l h) refl

-- There is room in the bucket.
module _ (t : HashTable) (w : IsTable t) (key : List ℕ) (val : ℕ) where
  abbrev pair : Pair
  pair = record { key = key; val = val }

  pub own-Homed : Homed (bucket_of t key).localdepth (hash_function key) (bucket_of t key).pairs
  own-Homed = Homed-Agree _ _ _ _ (index-Agree t w key) (key-IsEntry t w key).homed

  pub push-Inserted :
      length (bucket_of t key).pairs < t.bucket_capacity
      → Inserted t key val (store t key (push pair (bucket_of t key)))
  unfolding push
  push-Inserted room =
      let ps = (bucket_of t key).pairs ++ pair ∷ [] in
      record {
        table =
            store-IsTable t w key ps
              (omega (arith, length-append (bucket_of t key).pairs (pair ∷ [])))
              (append-Homed _ _ (bucket_of t key).pairs pair refl own-Homed);
        bounded = refl;
        own =
            rw (store-at t w key ps key refl)
              (values-push_self key (bucket_of t key).pairs pair (same_refl key));
        others = λ k n. elim (ℕ_discrete (bucket_address t k) (bucket_address t key)) [
          | yes e ↦ rw (store-at t w key ps k e) (
              values-push_ne k (bucket_of t key).pairs pair (ne_same key k (λ q. n (sym q)))
              ∙ ap (λ a. values k (t.buckets a).pairs) (sym e))
          | no e ↦ rw (store-off t w key ps k e) refl
        ];
      }

-- The bucket is full.
module _ (t : HashTable) (w : IsTable t) (key : List ℕ) where
  abbrev level : ℕ
  level = (bucket_of t key).localdepth

  abbrev pub split : HashTable
  split = split_bucket t (hash_function_index t.globaldepth key)

  pub split_facts : Split t w (hash_function_index t.globaldepth key) (index-inside t w key) split
  split_facts = split_bucket-Split t w _ (index-inside t w key)

  entries-split : (k : List ℕ) → entries split k ≡ entries t k
  unfolding bucket_address
  entries-split k = ap (map (λ p. p.val)) (
      split_facts.selected k (λ l. same l k)
        (λ l e. ap (λ x. hash_function x % 2 ^ suc level) (same_iff l k e)))

  crowd-split : (d : ℕ) → level < d → crowd split d key ≡ crowd t d key
  unfolding bucket_address
  crowd-split d l =
      ap length (split_facts.selected key (near d key) (λ k p. Agree-down _ _ l ((==_iff _ _).0 p)))

  level-split : (bucket_of split key).localdepth ≡ suc level
  unfolding bucket_address
  level-split = split_facts.deeper key refl

  -- A full bucket is not as deep as the bits that set most of its pairs apart.
  level-lt :
      (d : ℕ)
      → crowd t d key < t.bucket_capacity
      → t.bucket_capacity ≤ length (bucket_of t key).pairs
      → level < d
  level-lt d c full = elim (dec_lt level d) [
    | yes l ↦ l
    | no n ↦
        let all =
          select-near d level key (bucket_of t key).pairs (omega arith) (own-Homed t w key 0) in
        absurd (omega (arith, ap length all))
  ]

  pub split-Inserted : (val : ℕ) (v : HashTable) → Inserted split key val v → Inserted t key val v
  split-Inserted val v i = record {
    table = i.table;
    bounded = i.bounded ∙ split_facts.bounded;
    own = i.own ∙ ap (λ es. es ++ val ∷ []) (entries-split key);
    others = λ k n. i.others k n ∙ entries-split k;
  }

-- What the insert needs: less than a bucket of pairs share d bits of the key's hash.
pub hashtable_insert-Inserted :
    (fuel d : ℕ) (t : HashTable) (key : List ℕ) (val : ℕ)
    → IsTable t
    → crowd t d key < t.bucket_capacity
    → 0 < fuel
    → d < fuel + (bucket_of t key).localdepth
    → (u : HashTable) × (hashtable_insert fuel t key val ≡ some u) × Inserted t key val u
unfolding hashtable_insert
hashtable_insert-Inserted zero d t key val w c h f = absurd (omega arith)
hashtable_insert-Inserted (suc fuel) d t key val w c h f =
    let b = bucket_of t key in
    let room : b.capacity ≡ t.bucket_capacity = (key-IsEntry t w key).room in
    elim (Bool-cases (leb b.capacity (length b.pairs))) [
      | inl full ↦
          let s = split_facts t w key in
          let l : (bucket_of t key).localdepth < d = level-lt t w key d c (ground arith) in
          let (v, e, i) =
            hashtable_insert-Inserted fuel d (split t w key) key val s.table
              (omega (arith, c, crowd-split t w key d l, s.bounded)) (omega arith)
              (omega (arith, level-split t w key, f)) in
          (v, rw full e, split-Inserted t w key val v i)
      | inr free ↦ (
        store t key (push (record { key = key; val = val }) b),
        rw free refl,
        push-Inserted t w key val (ground arith),
      )
    ]
