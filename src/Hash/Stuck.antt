-- ===== src/Hash/Stuck.antt =====
-- src/algorithm/hashtable.c: the loop of `hashtable_insert` splits for ever once a bucket is full of
-- pairs of one hash.
use csapp_stay.Prelude.{
  ℕ, zero, suc, ◌%◌, ◌^◌, ◌≤◌, ◌≡◌, refl, ap, arith, true, none, List, ◌==◌, ==_iff, leb, length,
}
use csapp_stay.Hash.{HashTable, hash_function, bucket_address, bucket_of, hashtable_insert}
use csapp_stay.Hash.Pairs.{select, length-select}
use csapp_stay.Hash.Tables.{IsTable}
use csapp_stay.Hash.Stores.{key-IsEntry}
use csapp_stay.Hash.Inserts.{split, split_facts}

-- The pairs of the key's bucket that have its hash.
abbrev pub twins : HashTable → List ℕ → ℕ
twins t key = length (select (λ k. hash_function k == hash_function key) (bucket_of t key).pairs)

twins-split :
    (t : HashTable) (w : IsTable t) (key : List ℕ) → twins (split t w key) key ≡ twins t key
unfolding bucket_address
twins-split t w key = ap length (
    (split_facts t w key).selected key (λ k. hash_function k == hash_function key)
      (λ k e. ap (λ x. x % 2 ^ suc (bucket_of t key).localdepth) ((==_iff _ _).0 e)))

-- In a table that meets the invariant, the insert of a key whose bucket has as many pairs of its
-- hash as it has room for does not return, whatever the fuel.
pub hashtable_insert-stuck :
    (fuel : ℕ) (t : HashTable) (key : List ℕ) (val : ℕ)
    → IsTable t
    → t.bucket_capacity ≤ twins t key
    → hashtable_insert fuel t key val ≡ none
unfolding hashtable_insert
hashtable_insert-stuck zero t key val w h = refl
hashtable_insert-stuck (suc fuel) t key val w h =
    let b = bucket_of t key in
    let room : b.capacity ≡ t.bucket_capacity = (key-IsEntry t w key).room in
    let most = length-select (λ k. hash_function k == hash_function key) b.pairs in
    let full : leb b.capacity (length b.pairs) ≡ true = ground (arith, room, most) in
    let s = split_facts t w key in
    rw full (
      hashtable_insert-stuck fuel (split t w key) key val s.table
        (omega (arith, h, s.bounded, twins-split t w key)))
