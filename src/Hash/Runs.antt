-- ===== src/Hash/Runs.antt =====
-- src/algorithm/hashtable.c: tests, and the theorems at concrete inputs.
use mathlib.Core.List.{Perm}
use csapp_stay.Prelude.{
  ℕ, ◌≡◌, ◌≢◌, refl, ap, ◌⊎◌, arith, Option, none, some, List, [], ◌∷◌, ◌++◌, same,
}
use csapp_stay.Hash.{
  HashTable, key_block, hash_function, hash_function_index, hashtable_construct, hashtable_insert,
  hashtable_get, hashtable_delete, hashtable_free, create_bucket, copy_directory, double_directory,
  push, rehash_pair, rehash, update_directory, split_at, split_bucket, bucket_address, bucket_of,
  find, split_last, swap_last, delete_pair,
}
use csapp_stay.Hash.Pairs.{select}
use csapp_stay.Hash.Tables.{IsTable}
use csapp_stay.Hash.Inserts.{entries, crowd}
use csapp_stay.Hash.Stuck.{twins, hashtable_insert-stuck}
use csapp_stay.Hash.Blocks.{times_freed, once}
use csapp_stay.Hash.Frees.{owned, hashtable_free-once}
use csapp_stay.Hash.Histories.{
  Reached, constructed, inserted, or_else, Reached-IsTable, insert-entries, delete-entries,
}

-- The keys of one letter: their hashes are 31 times the byte.
abbrev key : ℕ → List ℕ
key c = c ∷ []

hash_ab : hash_function (b'a' ∷ b'b' ∷ []) ≡ 97185
unfolding hash_function
hash_ab = refl

-- The hash of a byte above 127 is negative as an int.
hash_high : hash_function (key 255) ≡ 18446744073709551585
unfolding hash_function
hash_high = refl

-- The letters, inserted with their bytes as values.
insert_all : List ℕ → HashTable → Option HashTable
unfolding hashtable_insert hash_function
insert_all [] t = some t
insert_all (c ∷ cs) t = elim (hashtable_insert 9 t (key c) c) [
  | none ↦ none
  | some u ↦ insert_all cs u
]

abbrev get_of : Option HashTable → ℕ → Option ℕ
get_of none c = none
get_of (some t) c = hashtable_get t (key c)

abbrev delete_of : Option HashTable → ℕ → Option HashTable
delete_of none c = none
delete_of (some t) c = hashtable_delete t (key c)

-- Four keys in buckets of one pair.
four : Option HashTable
unfolding insert_all
four = insert_all (b'a' ∷ b'b' ∷ b'e' ∷ b'd' ∷ []) (hashtable_construct 1)

four_e : get_of four b'e' ≡ some b'e'
unfolding four hashtable_get find same hash_function_index bucket_address hashtable_construct
    split_bucket split_at rehash rehash_pair update_directory copy_directory double_directory push
    create_bucket
four_e = refl

four_deleted : get_of (delete_of four b'b') b'b' ≡ none
unfolding four hashtable_get find same hash_function_index bucket_address hashtable_construct
    split_bucket split_at rehash rehash_pair update_directory copy_directory double_directory push
    create_bucket hashtable_delete delete_pair swap_last split_last
four_deleted = refl

-- A table of one pair, in buckets of one pair.
one : HashTable
unfolding hashtable_insert
one = elim (hashtable_insert 1 (hashtable_construct 1) (key b'a') 7) [
  | none ↦ hashtable_construct 1
  | some t ↦ t
]

one_inserted : hashtable_insert 1 (hashtable_construct 1) (key b'a') 7 ≡ some one
unfolding one hashtable_insert hashtable_construct hash_function hash_function_index bucket_address
    create_bucket
one_inserted = refl

one-Reached : Reached 1 one
one-Reached = inserted 1 (key b'a') 7 constructed one_inserted

letters : key b'a' ≢ key b'c'
letters e = let f = ap head_or e in absurd (omega (arith, f))
  where
    head_or : List ℕ → ℕ
    head_or [] = 0
    head_or (c ∷ cs) = c

one-entries : entries one (key b'a') ≡ 7 ∷ []
unfolding one hashtable_insert hashtable_construct hash_function hash_function_index bucket_address
    create_bucket push same select
one-entries = refl

one_missing : hashtable_get one (key b'c') ≡ none
unfolding one hashtable_insert hashtable_construct hash_function hash_function_index bucket_address
    create_bucket push same hashtable_get find
one_missing = refl

one-crowd : crowd one 2 (key b'c') ≡ 0
unfolding one hashtable_insert hashtable_construct hash_function hash_function_index bucket_address
    create_bucket push select
one-crowd = refl

one-twins : twins one (key b'a') ≡ 1
unfolding one hashtable_insert hashtable_construct hash_function hash_function_index bucket_address
    create_bucket push select
one-twins = refl

one_bounded : one.bucket_capacity ≡ 1
unfolding one hashtable_insert hashtable_construct hash_function hash_function_index bucket_address
    create_bucket
one_bounded = refl

one_depth : (bucket_of one (key b'c')).localdepth ≡ 1
unfolding one hashtable_insert hashtable_construct hash_function hash_function_index bucket_address
    create_bucket push
one_depth = refl

insert-entries_example :
    (u : HashTable) × (hashtable_insert 2 one (key b'c') 9 ≡ some u)
    × (entries u (key b'c') ≡ entries one (key b'c') ++ 9 ∷ [])
    × (hashtable_get u (key b'c') ≡ or_else (hashtable_get one (key b'c')) 9)
    × (entries u (key b'a') ≡ entries one (key b'a'))
insert-entries_example =
    insert-entries 1 2 2 one (key b'c') (key b'a') 9 one-Reached (omega (arith, one-crowd))
      (omega arith) (omega (arith, one_depth)) letters

hashtable_insert-stuck_example : hashtable_insert 30 one (key b'a') 9 ≡ none
hashtable_insert-stuck_example =
    hashtable_insert-stuck 30 one (key b'a') 9 (Reached-IsTable 1 one one-Reached).0
      (omega (arith, one-twins, one_bounded))

Reached-IsTable_example : IsTable one × (one.bucket_capacity ≡ 1)
Reached-IsTable_example = Reached-IsTable 1 one one-Reached

delete-entries_example :
    ((hashtable_delete one (key b'c') ≡ none) × (hashtable_get one (key b'c') ≡ none))
    ⊎ ((val : ℕ) × (u : HashTable) × (hashtable_delete one (key b'c') ≡ some u)
        × (hashtable_get one (key b'c') ≡ some val)
        × Perm (entries one (key b'c')) (val ∷ entries u (key b'c'))
        × Perm (entries one (key b'a')) (entries u (key b'a')))
delete-entries_example = delete-entries 1 one (key b'c') (key b'a') one-Reached letters

construct_missing : hashtable_get (hashtable_construct 1) (key b'a') ≡ none
unfolding hashtable_construct hash_function hash_function_index bucket_address create_bucket
    hashtable_get find
construct_missing = refl

hashtable_free-once_example :
    times_freed (key_block 1 0) (hashtable_free one) ≡ once (owned one (key_block 1 0))
hashtable_free-once_example = hashtable_free-once one (key_block 1 0)
