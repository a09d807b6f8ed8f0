-- ===== src/Hash/Histories.antt =====
-- src/algorithm/hashtable.c: the tables that a client can build, and what a lookup in them returns.
use csapp_stay.Prelude.{
  ℕ, zero, suc, ◌+◌, ◌≤◌, ◌<◌, ◌≡◌, ◌≢◌, refl, sym, ◌∙◌, ap, ◌⊎◌, inl, inr, arith, Bool-cases, leb,
  Option, none, some, List, [], ◌∷◌, ◌++◌, ◌==◌, length, same, same_iff, same_ne,
}
use mathlib.Core.List.{Perm}
use mathlib.Core.List.Perm as Perm
use mathlib.Core.Path.{subst}
use mathlib.Core.Option.{some_inj}
use csapp_stay.Hash.{
  HashTable, create_bucket, hash_function_index, bucket_address, bucket_of, hashtable_construct,
  hashtable_insert, hashtable_get, hashtable_delete,
}
use csapp_stay.Hash.Pairs.{select, values, find_lem, first}
use csapp_stay.Hash.Tables.{IsTable, hashtable_construct-IsTable}
use csapp_stay.Hash.Stores.{key-IsEntry, index-inside}
use csapp_stay.Hash.Inserts.{
  entries, crowd, Inserted, hashtable_insert-Inserted, split, split_facts, split-Inserted,
  push-Inserted,
}
use csapp_stay.Hash.Deletes.{hashtable_delete-Deleted}

-- The tables that calls of the insert and of the delete that return make out of a new one.
pub data Reached (bsize : ℕ) : HashTable → Type 0 where
  constructed : Reached bsize (hashtable_construct bsize)
  inserted :
      {t u : HashTable} (fuel : ℕ) (key : List ℕ) (val : ℕ)
      → Reached bsize t
      → hashtable_insert fuel t key val ≡ some u
      → Reached bsize u
  deleted :
      {t u : HashTable} (key : List ℕ)
      → Reached bsize t
      → hashtable_delete t key ≡ some u
      → Reached bsize u

pub insert-returned :
    (fuel : ℕ) (t : HashTable) (key : List ℕ) (val : ℕ) (u : HashTable)
    → IsTable t
    → hashtable_insert fuel t key val ≡ some u
    → Inserted t key val u
unfolding hashtable_insert
insert-returned zero t key val u w e = cc
insert-returned (suc fuel) t key val u w e =
    let b = bucket_of t key in
    let room : b.capacity ≡ t.bucket_capacity = (key-IsEntry t w key).room in
    elim (Bool-cases (leb b.capacity (length b.pairs))) [
      | inl full ↦ split-Inserted t w key val u (
          insert-returned fuel (split t w key) key val u (split_facts t w key).table (rw full at e))
      | inr free ↦
          subst (Inserted t key val) (some_inj.0 (rw free at e))
            (push-Inserted t w key val (ground arith))
    ]

-- Every table made by calls of the insert and of the delete that return out of a new one has a
-- directory of 2 to the global depth entries, each of which points to an allocated bucket that is
-- no deeper and holds no more pairs than its capacity, all with the low bits of its index; two
-- entries share a bucket exactly if they agree in as many low bits as its depth; and the capacity
-- is the one asked for.
pub Reached-IsTable :
    (bsize : ℕ) (t : HashTable) → Reached bsize t → IsTable t × (t.bucket_capacity ≡ bsize)
unfolding hashtable_construct
Reached-IsTable bsize t constructed = (hashtable_construct-IsTable bsize, refl)
Reached-IsTable bsize u (inserted {t} fuel key val r e) =
    let (w, c) = Reached-IsTable bsize t r in
    let i = insert-returned fuel t key val u w e in (i.table, i.bounded ∙ c)
Reached-IsTable bsize u (deleted {t} key r e) =
    let (w, c) = Reached-IsTable bsize t r in
    elim (hashtable_delete-Deleted t key w) [
      | inl (f, g) ↦ let q : none ≡ some u = sym f ∙ e in cc q
      | inr (val, v, f, d) ↦
          subst (λ x. IsTable x × (x.bucket_capacity ≡ bsize)) (some_inj.0 (sym f ∙ e))
            (d.table, d.bounded ∙ c)
    ]

-- In every table that a client can build, the index of a key is in the directory, and its bucket
-- is allocated and holds no more pairs than its array, which has the size asked for.
pub Reached-within :
    (bsize : ℕ) (t : HashTable) (key : List ℕ)
    → Reached bsize t
    → (hash_function_index t.globaldepth key < t.directory_size)
      × (bucket_address t key < t.next_bucket)
      × (length (bucket_of t key).pairs ≤ (bucket_of t key).capacity)
      × ((bucket_of t key).capacity ≡ bsize)
Reached-within bsize t key r =
    let (w, c) = Reached-IsTable bsize t r in
    let o = key-IsEntry t w key in
    (
      omega (arith, index-inside t w key, w.size),
      o.allocated,
      omega (arith, o.within, o.room),
      o.room ∙ c,
    )

-- The value that a lookup finds: the one that was there first.
pub or_else : Option ℕ → ℕ → Option ℕ
or_else none val = some val
or_else (some old) val = some old

first-append : (es : List ℕ) (val : ℕ) → first (es ++ val ∷ []) ≡ or_else (first es) val
unfolding or_else
first-append [] val = refl
first-append (e ∷ es) val = refl

pub get-entries : (t : HashTable) (k : List ℕ) → hashtable_get t k ≡ first (entries t k)
unfolding hashtable_get
get-entries t k = find_lem k (bucket_of t k).pairs

Inserted-get :
    (t u : HashTable) (key : List ℕ) (val : ℕ)
    → Inserted t key val u
    → hashtable_get u key ≡ or_else (hashtable_get t key) val
Inserted-get t u key val i =
    get-entries u key
    ∙ ap first i.own
    ∙ first-append (entries t key) val
    ∙ ap (λ o. or_else o val) (sym (get-entries t key))

-- From any table that a client can build, the insert of a key returns if fewer than bsize pairs of
-- the key's bucket share the low d bits of its hash, with fuel that is positive and above d less
-- the bucket's depth: the value is added behind the key's values, so a lookup of the key finds the
-- value that was there first, or the new one if there was none, and the values of another key are
-- as before.
pub insert-entries :
    (bsize fuel d : ℕ) (t : HashTable) (key k : List ℕ) (val : ℕ)
    → Reached bsize t
    → crowd t d key < bsize
    → 0 < fuel
    → d < fuel + (bucket_of t key).localdepth
    → k ≢ key
    → (u : HashTable) × (hashtable_insert fuel t key val ≡ some u)
      × (entries u key ≡ entries t key ++ val ∷ [])
      × (hashtable_get u key ≡ or_else (hashtable_get t key) val)
      × (entries u k ≡ entries t k)
insert-entries bsize fuel d t key k val r h hf hd n =
    let (w, c) = Reached-IsTable bsize t r in
    let (u, e, i) = hashtable_insert-Inserted fuel d t key val w (omega (arith, h, c)) hf hd in
    (u, e, i.own, Inserted-get t u key val i, i.others k n)

-- In any table that a client can build, a delete either fails, where a lookup of the key finds
-- nothing, or returns a table: the value that a lookup found is gone from the key's values, and
-- the values of another key are the same, both up to their order.
pub delete-entries :
    (bsize : ℕ) (t : HashTable) (key k : List ℕ)
    → Reached bsize t
    → k ≢ key
    → ((hashtable_delete t key ≡ none) × (hashtable_get t key ≡ none))
      ⊎ ((val : ℕ) × (u : HashTable) × (hashtable_delete t key ≡ some u)
          × (hashtable_get t key ≡ some val)
          × Perm (entries t key) (val ∷ entries u key)
          × Perm (entries t k) (entries u k))
delete-entries bsize t key k r n =
    elim (hashtable_delete-Deleted t key (Reached-IsTable bsize t r).0) [
      | inl h ↦ inl h
      | inr (val, u, e, d) ↦ inr (val, u, e, d.found, d.own, d.others k n)
    ]

first-none : (es : List ℕ) → first es ≡ none → es ≡ []
first-none [] e = refl
first-none (v ∷ es) e = cc

-- If the insert of a key that is missing returns, a delete of the key succeeds, the key is missing
-- again, and every key has the values that it had before, up to their order.
pub delete-insert :
    (bsize fuel : ℕ) (t u : HashTable) (key k : List ℕ) (val : ℕ)
    → Reached bsize t
    → hashtable_get t key ≡ none
    → hashtable_insert fuel t key val ≡ some u
    → (v : HashTable) × (hashtable_delete u key ≡ some v)
      × Reached bsize v
      × (hashtable_get v key ≡ none)
      × Perm (entries t k) (entries v k)
delete-insert bsize fuel t u key k val r f e =
    let (w, c) = Reached-IsTable bsize t r in
    let i = insert-returned fuel t key val u w e in
    let new : entries t key ≡ [] = first-none (entries t key) (sym (get-entries t key) ∙ f) in
    let only : entries u key ≡ val ∷ [] = i.own ∙ ap (λ es. es ++ val ∷ []) new in
    let got : hashtable_get u key ≡ some val = get-entries u key ∙ ap first only in
    elim (hashtable_delete-Deleted u key i.table) [
      | inl (g, h) ↦ let q : none ≡ some val = sym h ∙ got in cc q
      | inr (val', v, g, d) ↦
          let q : val' ≡ val = some_inj.0 (sym d.found ∙ got) in
          let own : Perm (val ∷ []) (val ∷ entries v key) = rw (only, q) at d.own in
          let gone : entries v key ≡ [] = sym (Perm.nil-eq (Perm.cons_inv own)) in
          (
            v,
            g,
            deleted key (inserted fuel key val r e) g,
            get-entries v key ∙ ap first gone,
            elim (Bool-cases (same k key)) [
              | inl s ↦ rw (same_iff k key s, new, gone) (Perm.refl [])
              | inr s ↦
                  let n = same_ne k key s in
                  subst (λ es. Perm es (entries v k)) (i.others k n) (d.others k n)
            ],
          )
    ]

pub entries-construct : (bsize : ℕ) (key : List ℕ) → entries (hashtable_construct bsize) key ≡ []
unfolding hashtable_construct bucket_address create_bucket select
entries-construct bsize key = none_at (bucket_address (hashtable_construct bsize) key)
  where
    none_at : (a : ℕ) → values key ((hashtable_construct bsize).buckets a).pairs ≡ []
    none_at a = elim (Bool-cases (1 == a)) [
      | inl e ↦ rw e refl
      | inr e ↦ elim (Bool-cases (0 == a)) [ inl f ↦ rw (e, f) refl | inr f ↦ rw (e, f) refl ]
    ]
