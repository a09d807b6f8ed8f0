-- ===== src/Hash/Frees.antt =====
-- src/algorithm/hashtable.c: `hashtable_free` frees every block of the table once.
use mathlib.Core.Path.{subst}
use csapp_stay.Prelude.{
  ℕ, zero, suc, ◌+◌, ◌≡◌, refl, sym, ◌∙◌, ap, inl, inr, arith, Bool, true, false, [], ◌∷◌, ◌&&◌,
  ◌||◌, ◌==◌, ==_iff, ltb, Bool-cases, length,
}
use csapp_stay.Hash.{
  HashTable, Block, key_block, data_block, bucket_block, directory_block, table_block, found_before,
  free_bucket, free_directory, hashtable_free,
}
use csapp_stay.Hash.Blocks.{times_freed, times_freed-append, times_freed-bucket, once, of_bucket}

or_false : (b : Bool) → (b || false) ≡ b
or_false true = refl
or_false false = refl

-- The blocks of the buckets in the first n entries.
abbrev pub in_entries : ℕ → HashTable → Block → Bool
in_entries n t (key_block c i) = found_before n t.directory c && ltb i (length (t.buckets c).pairs)
in_entries n t (data_block c) = found_before n t.directory c
in_entries n t (bucket_block c) = found_before n t.directory c
in_entries n t directory_block = false
in_entries n t table_block = false

-- The blocks that the table owns.
abbrev pub owned : HashTable → Block → Bool
owned t (key_block c i) = in_entries t.directory_size t (key_block c i)
owned t (data_block c) = in_entries t.directory_size t (data_block c)
owned t (bucket_block c) = in_entries t.directory_size t (bucket_block c)
owned t directory_block = true
owned t table_block = true

-- The count when the bucket a of the entry n is new, for one that has n before it.
module _ (n : ℕ) (t : HashTable) where
  abbrev here : ℕ
  here = t.directory n

  module _ (e : found_before n t.directory here ≡ true) where
    found-again : (c : ℕ) → found_before (suc n) t.directory c ≡ found_before n t.directory c
    unfolding found_before
    found-again c = elim (Bool-cases (here == c)) [
      | inl h ↦
          let f : found_before n t.directory c ≡ true =
            subst (λ x. found_before n t.directory x ≡ true) ((==_iff here c).0 h) e in
          rw (h, f) refl
      | inr h ↦ rw h (or_false (found_before n t.directory c))
    ]

    in_entries-again : (x : Block) → in_entries (suc n) t x ≡ in_entries n t x
    in_entries-again (key_block c i) = rw (found-again c) refl
    in_entries-again (data_block c) = found-again c
    in_entries-again (bucket_block c) = found-again c
    in_entries-again directory_block = refl
    in_entries-again table_block = refl

  module _ (e : found_before n t.directory here ≡ false) where
    absent_at : (c : ℕ) → here ≡ c → found_before n t.directory c ≡ false
    absent_at c q = subst (λ x. found_before n t.directory x ≡ false) q e

    found-new :
        (c : ℕ)
        → once (found_before n t.directory c) + once (here == c)
          ≡ once (found_before (suc n) t.directory c)
    unfolding found_before
    found-new c = elim (Bool-cases (here == c)) [
      | inl h ↦ rw (h, absent_at c ((==_iff here c).0 h)) refl
      | inr h ↦ rw (h, or_false (found_before n t.directory c)) (omega arith)
    ]

    found-new_key :
        (c i : ℕ)
        → once (in_entries n t (key_block c i))
            + once (of_bucket here (t.buckets here) (key_block c i))
          ≡ once (in_entries (suc n) t (key_block c i))
    unfolding found_before
    found-new_key c i = elim (Bool-cases (here == c)) [
      | inl h ↦
          let q = (==_iff here c).0 h in
          rw (h, absent_at c q)
            (omega (arith, ap (λ a. once (ltb i (length (t.buckets a).pairs))) q))
      | inr h ↦ rw (h, or_false (found_before n t.directory c)) (omega arith)
    ]

    in_entries-new :
        (x : Block)
        → once (in_entries n t x) + once (of_bucket here (t.buckets here) x)
          ≡ once (in_entries (suc n) t x)
    in_entries-new (key_block c i) = found-new_key c i
    in_entries-new (data_block c) = found-new c
    in_entries-new (bucket_block c) = found-new c
    in_entries-new directory_block = refl
    in_entries-new table_block = refl

times_freed-directory :
    (n : ℕ) (t : HashTable) (x : Block)
    → times_freed x (free_directory n t) ≡ once (in_entries n t x)
unfolding free_directory times_freed found_before
times_freed-directory zero t x = none_before x
  where
    none_before : (x : Block) → 0 ≡ once (in_entries 0 t x)
    none_before (key_block c i) = refl
    none_before (data_block c) = refl
    none_before (bucket_block c) = refl
    none_before directory_block = refl
    none_before table_block = refl
times_freed-directory (suc n) t x =
    let a = t.directory n in
    let before = times_freed-directory n t x in
    elim (Bool-cases (found_before n t.directory a)) [
      | inl e ↦ rw e (before ∙ ap once (sym (in_entries-again n t e x)))
      | inr e ↦ rw e (
          times_freed-append x (free_directory n t) (free_bucket a (t.buckets a))
          ∙ omega (arith, before, times_freed-bucket a (t.buckets a) x, in_entries-new n t e x))
    ]

-- The release of any table frees the key of each pair in use, the array and the bucket of each
-- entry of the directory, the directory and the table once each, however many entries share a
-- bucket, and frees nothing else.
pub hashtable_free-once :
    (t : HashTable) (x : Block) → times_freed x (hashtable_free t) ≡ once (owned t x)
unfolding hashtable_free times_freed
hashtable_free-once t x =
    times_freed-append x (free_directory t.directory_size t) (directory_block ∷ table_block ∷ [])
    ∙ ap (λ k. k + times_freed x (directory_block ∷ table_block ∷ []))
        (times_freed-directory t.directory_size t x)
    ∙ last x
  where
    last :
        (x : Block)
        → once (in_entries t.directory_size t x)
            + times_freed x (directory_block ∷ table_block ∷ [])
          ≡ once (owned t x)
    last (key_block c i) = omega arith
    last (data_block c) = omega arith
    last (bucket_block c) = omega arith
    last directory_block = refl
    last table_block = refl
