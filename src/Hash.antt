-- ===== src/Hash.antt =====
-- src/algorithm/hashtable.c: the extendible hash table. A bucket is known by its address in a heap,
-- since several entries of the directory may point to one bucket. Allocation succeeds. The depths
-- are those at which `1 << depth` is in the range of an int.
pub mod Directories
pub mod Pairs
pub mod Tables
pub mod Doubles
pub mod Splits
pub mod Shares
pub mod SplitBucket
pub mod Stores
pub mod Inserts
pub mod Removals
pub mod Deletes
pub mod Stuck
pub mod Histories
pub mod Blocks
pub mod Frees
mod Runs
use mathlib.Core.Option
use csapp_stay.Prelude.{
  ℕ, zero, suc, ◌+◌, ◌-◌, ◌*◌, ◌%◌, ◌^◌, Bool, true, false, Option, none, some, List, [], ◌∷◌, ◌++◌,
  ◌==◌, ltb, leb, length, if◌then◌else◌, update, and_bit, same, ◌&&◌, ◌||◌,
}

-- `pair_t`: the key is the copy's bytes.
pub record Pair : Type 0 where
  pub key : List ℕ
  pub val : ℕ

-- `bucket_t`: `pairs`, the field `data`, holds the pairs in use, so `counter` is its length.
pub record Bucket : Type 0 where
  pub localdepth : ℕ
  pub capacity : ℕ
  pub pairs : List Pair

-- `hash_table_t`, with the heap of the buckets and the next free address.
pub record HashTable : Type 0 where
  pub bucket_capacity : ℕ
  pub directory_size : ℕ
  pub globaldepth : ℕ
  pub directory : ℕ → ℕ
  pub buckets : ℕ → Bucket
  pub next_bucket : ℕ

-- An int as the 32 bits that stand for it.
abbrev pub int : ℕ → ℕ
int x = x % 2 ^ 32

abbrev pub negate : ℕ → ℕ
negate x = int (2 ^ 32 - x)

-- `(int)c` for a signed char
char_to_int : ℕ → ℕ
char_to_int c = if ltb c 128 then c else negate (256 - c)

-- `x % m` for a positive m: the sign is that of x.
int_rem : ℕ → ℕ → ℕ
int_rem x m = if ltb x (2 ^ 31) then x % m else negate (negate x % m)

hash_loop : List ℕ → ℕ → ℕ → ℕ
hash_loop [] k v = v
hash_loop (c ∷ str) k v =
    let m : ℕ = 1000000007 in
    hash_loop str (int_rem (int (k * 31)) m)
      (int_rem (int (v + int_rem (int (char_to_int c * k)) m)) m)

-- The sign is extended to 64 bits.
unfoldable pub hash_function : List ℕ → ℕ
unfolding hash_loop int_rem char_to_int
hash_function str =
    let v = hash_loop str 31 0 in if ltb v (2 ^ 31) then v else v + (2 ^ 64 - 2 ^ 32)

-- `hash_value & mask`
unfoldable pub hash_function_index : ℕ → List ℕ → ℕ
hash_function_index globaldepth key = hash_function key % 2 ^ globaldepth

unfoldable pub create_bucket : ℕ → ℕ → Bucket
create_bucket depth capacity = record { localdepth = depth; capacity = capacity; pairs = [] }

unfoldable pub hashtable_construct : ℕ → HashTable
hashtable_construct bsize = record {
  bucket_capacity = bsize;
  directory_size = 2 ^ 1;
  globaldepth = 1;
  directory = update (update (λ _. 0) 0 0) 1 1;
  buckets =
      update (update (λ _. create_bucket 0 0) 0 (create_bucket 1 bsize)) 1 (create_bucket 1 bsize);
  next_bucket = 2;
}

-- The first n rounds of the loop that copies the directory of 2 ^ g entries.
unfoldable pub copy_directory : ℕ → ℕ → (ℕ → ℕ) → ℕ → ℕ
copy_directory zero g directory = directory
copy_directory (suc n) g directory =
    let before = copy_directory n g directory in update before (n + 2 ^ g) (before n)

unfoldable pub double_directory : HashTable → HashTable
double_directory t = record t {
  directory_size = t.directory_size * 2;
  directory = copy_directory (2 ^ t.globaldepth) t.globaldepth t.directory;
  globaldepth = suc t.globaldepth;
}

unfoldable pub push : Pair → Bucket → Bucket
push p b = record b { pairs = b.pairs ++ p ∷ [] }

-- The old bucket, and the new one.
unfoldable pub rehash_pair : ℕ → ℕ → Pair → Bucket × Bucket → Bucket × Bucket
rehash_pair g bit_to_check p (old, new) =
    if and_bit (hash_function_index g p.key) bit_to_check
    then (old, push p new)
    else (push p old, new)

unfoldable pub rehash : ℕ → ℕ → List Pair → Bucket × Bucket → Bucket × Bucket
rehash g bit_to_check [] bs = bs
rehash g bit_to_check (p ∷ ps) bs = rehash g bit_to_check ps (rehash_pair g bit_to_check p bs)

-- The first n rounds of the loop that updates the directory.
unfoldable pub update_directory : ℕ → ℕ → ℕ → ℕ → (ℕ → ℕ) → ℕ → ℕ
update_directory zero bit_to_check old new directory = directory
update_directory (suc n) bit_to_check old new directory =
    let before = update_directory n bit_to_check old new directory in
    if (before n == old) && and_bit n bit_to_check then update before n new else before

-- `split_bucket` from the creation of the new bucket on.
unfoldable pub split_at : HashTable → ℕ → HashTable
split_at t index =
    let old = t.directory index in
    let new = t.next_bucket in
    let old_bucket = t.buckets old in
    let depth = old_bucket.localdepth in
    let emptied = record old_bucket { localdepth = suc depth; pairs = [] } in
    let (b, c) =
      rehash t.globaldepth (2 ^ depth) old_bucket.pairs
        (emptied, create_bucket (suc depth) t.bucket_capacity) in
    record t {
      directory = update_directory t.directory_size (2 ^ depth) old new t.directory;
      buckets = update (update t.buckets old b) new c;
      next_bucket = suc new;
    }

unfoldable pub split_bucket : HashTable → ℕ → HashTable
split_bucket t index =
    let depth = (t.buckets (t.directory index)).localdepth in
    split_at (if depth == t.globaldepth then double_directory t else t) index

-- The bucket of a key.
unfoldable pub bucket_address : HashTable → List ℕ → ℕ
bucket_address t key = t.directory (hash_function_index t.globaldepth key)

abbrev pub bucket_of : HashTable → List ℕ → Bucket
bucket_of t key = t.buckets (bucket_address t key)

abbrev pub store : HashTable → List ℕ → Bucket → HashTable
store t key b = record t { buckets = update t.buckets (bucket_address t key) b }

-- `while (1)` with fuel: `none` when it runs out.
unfoldable pub hashtable_insert : ℕ → HashTable → List ℕ → ℕ → Option HashTable
hashtable_insert zero t key val = none
hashtable_insert (suc fuel) t key val =
    let b = bucket_of t key in
    let split = split_bucket t (hash_function_index t.globaldepth key) in
    let rest = hashtable_insert fuel split key val in
    if leb b.capacity (length b.pairs)
    then rest
    else some (store t key (push (record { key = key; val = val }) b))

unfoldable pub find : List ℕ → List Pair → Option ℕ
find key [] = none
find key (p ∷ ps) = let rest = find key ps in if same p.key key then some p.val else rest

unfoldable pub hashtable_get : HashTable → List ℕ → Option ℕ
hashtable_get t key = find key (bucket_of t key).pairs

pub split_last : List Pair → Option (Pair × List Pair)
split_last [] = none
split_last (p ∷ ps) = elim (split_last ps) [
  | none ↦ some (p, [])
  | some (l, front) ↦ some (l, p ∷ front)
]

-- What follows the deleted pair: the last pair takes its place.
pub swap_last : List Pair → List Pair
swap_last ps = elim (split_last ps) [ none ↦ [] | some (l, front) ↦ l ∷ front ]

pub delete_pair : List ℕ → List Pair → Option (List Pair)
delete_pair key [] = none
delete_pair key (p ∷ ps) =
    let rest = Option.map (λ qs. p ∷ qs) (delete_pair key ps) in
    if same p.key key then some (swap_last ps) else rest

-- `none` where the key is missing.
pub hashtable_delete : HashTable → List ℕ → Option HashTable
hashtable_delete t key =
    let b = bucket_of t key in
    Option.map (λ ps. store t key (record b { pairs = ps })) (delete_pair key b.pairs)

-- The first n entries: whether one of them points to the bucket.
pub found_before : ℕ → (ℕ → ℕ) → ℕ → Bool
found_before zero directory a = false
found_before (suc n) directory a = found_before n directory a || (directory n == a)

-- What `free` is called with.
pub data Block : Type 0 where
  key_block : ℕ → ℕ → Block
  data_block bucket_block : ℕ → Block
  directory_block table_block : Block

free_keys : ℕ → ℕ → List Block
free_keys zero a = []
free_keys (suc n) a = free_keys n a ++ key_block a n ∷ []

pub free_bucket : ℕ → Bucket → List Block
unfolding free_keys
free_bucket a b = free_keys (length b.pairs) a ++ data_block a ∷ bucket_block a ∷ []

pub free_directory : ℕ → HashTable → List Block
free_directory zero t = []
free_directory (suc n) t =
    let a = t.directory n in
    let before = free_directory n t in
    if found_before n t.directory a then before else before ++ free_bucket a (t.buckets a)

-- The calls of `free`, in order.
pub hashtable_free : HashTable → List Block
hashtable_free t = free_directory t.directory_size t ++ directory_block ∷ table_block ∷ []
