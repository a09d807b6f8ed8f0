-- ===== src/Hash/Blocks.antt =====
-- src/algorithm/hashtable.c: how often each block is freed, for one bucket.
use csapp_stay.Prelude.{
  ℕ, zero, suc, ◌+◌, ◌≡◌, refl, ◌∙◌, ap, arith, Bool, true, false, List, [], ◌∷◌, ◌++◌, ◌&&◌, ◌==◌,
  ltb, length, if◌then◌else◌,
}
use csapp_stay.Hash.{
  Bucket, Block, key_block, data_block, bucket_block, directory_block, table_block, free_keys,
  free_bucket,
}

abbrev pub same_block : Block → Block → Bool
same_block (key_block a i) (key_block b j) = (a == b) && (i == j)
same_block (data_block a) (data_block b) = a == b
same_block (bucket_block a) (bucket_block b) = a == b
same_block directory_block directory_block = true
same_block table_block table_block = true
same_block x y = false

-- How often a block is freed.
unfoldable pub times_freed : Block → List Block → ℕ
times_freed x [] = 0
times_freed x (y ∷ ys) = (if same_block y x then 1 else 0) + times_freed x ys

pub times_freed-append :
    (x : Block) (ys zs : List Block)
    → times_freed x (ys ++ zs) ≡ times_freed x ys + times_freed x zs
unfolding times_freed
times_freed-append x [] zs = omega arith
times_freed-append x (y ∷ ys) zs = omega (arith, times_freed-append x ys zs)

abbrev pub once : Bool → ℕ
once b = if b then 1 else 0

-- The blocks that belong to the bucket at the address.
abbrev pub of_bucket : ℕ → Bucket → Block → Bool
of_bucket a b (key_block c i) = (a == c) && ltb i (length b.pairs)
of_bucket a b (data_block c) = a == c
of_bucket a b (bucket_block c) = a == c
of_bucket a b directory_block = false
of_bucket a b table_block = false

abbrev of_keys : ℕ → ℕ → Block → Bool
of_keys a n (key_block c i) = (a == c) && ltb i n
of_keys a n (data_block c) = false
of_keys a n (bucket_block c) = false
of_keys a n directory_block = false
of_keys a n table_block = false

times_freed-keys : (n a : ℕ) (x : Block) → times_freed x (free_keys n a) ≡ once (of_keys a n x)
unfolding times_freed free_keys
times_freed-keys zero a (key_block c i) = ground arith
times_freed-keys zero a (data_block c) = refl
times_freed-keys zero a (bucket_block c) = refl
times_freed-keys zero a directory_block = refl
times_freed-keys zero a table_block = refl
times_freed-keys (suc n) a (key_block c i) =
    times_freed-append (key_block c i) (free_keys n a) (key_block a n ∷ [])
    ∙ ground (arith, times_freed-keys n a (key_block c i))
times_freed-keys (suc n) a (data_block c) =
    times_freed-append (data_block c) (free_keys n a) (key_block a n ∷ [])
    ∙ omega (arith, times_freed-keys n a (data_block c))
times_freed-keys (suc n) a (bucket_block c) =
    times_freed-append (bucket_block c) (free_keys n a) (key_block a n ∷ [])
    ∙ omega (arith, times_freed-keys n a (bucket_block c))
times_freed-keys (suc n) a directory_block =
    times_freed-append directory_block (free_keys n a) (key_block a n ∷ [])
    ∙ omega (arith, times_freed-keys n a directory_block)
times_freed-keys (suc n) a table_block =
    times_freed-append table_block (free_keys n a) (key_block a n ∷ [])
    ∙ omega (arith, times_freed-keys n a table_block)

times_freed-rest :
    (a n : ℕ) (x : Block) (b : Bucket)
    → length b.pairs ≡ n
    → once (of_keys a n x) + times_freed x (data_block a ∷ bucket_block a ∷ [])
      ≡ once (of_bucket a b x)
unfolding times_freed
times_freed-rest a n (key_block c i) b e = rw e (omega arith)
times_freed-rest a n (data_block c) b e = omega arith
times_freed-rest a n (bucket_block c) b e = omega arith
times_freed-rest a n directory_block b e = omega arith
times_freed-rest a n table_block b e = omega arith

pub times_freed-bucket :
    (a : ℕ) (b : Bucket) (x : Block) → times_freed x (free_bucket a b) ≡ once (of_bucket a b x)
unfolding free_bucket
times_freed-bucket a b x =
    let n = length b.pairs in
    times_freed-append x (free_keys n a) (data_block a ∷ bucket_block a ∷ [])
    ∙ ap (λ k. k + times_freed x (data_block a ∷ bucket_block a ∷ [])) (times_freed-keys n a x)
    ∙ times_freed-rest a n x b refl
