-- ===== src/Hash/SplitBucket.antt =====
-- src/algorithm/hashtable.c: `split_bucket` keeps the invariant and the pairs of every key.
use mathlib.Core.Path.{subst}
use csapp_stay.Prelude.{
  ℕ, suc, ◌^◌, ◌<◌, ◌≡◌, ◌≢◌, sym, ◌∙◌, ap, inl, inr, arith, Bool, true, List, ◌==◌, ==_iff,
  Bool-cases, Agree,
}
use csapp_stay.Hash.{
  HashTable, hash_function, bucket_address, bucket_of, split_at, split_bucket, double_directory,
}
use csapp_stay.Hash.Pairs.{select}
use csapp_stay.Hash.Tables.{IsTable}
use csapp_stay.Hash.Doubles.{double_directory-IsTable, bucket_address-double, double_directory-low}
use native.Mathlib.Nat.{pow-suc}
use csapp_stay.Hash.Shares.{split_at-bounded, split_at-IsTable, split_at-select, split_at-deeper}

-- `split_bucket`, on both branches.
module _ (t : HashTable) (w : IsTable t) (index : ℕ) (inside : index < 2 ^ t.globaldepth) where
  abbrev address : ℕ
  address = t.directory index

  -- What the caller learns of the split table.
  pub record Split (u : HashTable) : Type 0 where
    pub table : IsTable u
    pub bounded : u.bucket_capacity ≡ t.bucket_capacity
    pub deeper :
        (key : List ℕ)
        → bucket_address t key ≡ address
        → (bucket_of u key).localdepth ≡ suc (t.buckets address).localdepth
    pub selected :
        (key : List ℕ) (test : List ℕ → Bool)
        → ((k : List ℕ)
            → test k ≡ true
            → Agree (suc (t.buckets address).localdepth) (hash_function k) (hash_function key))
        → select test (bucket_of u key).pairs ≡ select test (bucket_of t key).pairs

  in_place : t.globaldepth ≢ (t.buckets address).localdepth → Split (split_at t index)
  in_place n =
      let shallow = (w.entry index inside).shallow in
      let deep : (t.buckets address).localdepth < t.globaldepth = omega arith in
      record {
        table = split_at-IsTable t w index inside deep;
        bounded = split_at-bounded t w index inside deep;
        deeper = λ key h. split_at-deeper t w index inside deep key h;
        selected = λ key test close. split_at-select t w index inside deep key test close;
      }

  doubled :
      (t.buckets address).localdepth ≡ t.globaldepth → Split (split_at (double_directory t) index)
  unfolding double_directory
  doubled e =
      let u : HashTable = double_directory t in
      let v = double_directory-IsTable t w in
      let inside' : index < 2 ^ u.globaldepth = omega (arith, pow-suc 2 t.globaldepth) in
      let same : u.directory index ≡ address = double_directory-low t w index inside in
      let deep : (u.buckets (u.directory index)).localdepth < u.globaldepth =
        rw (same, e) (omega arith) in
      record {
        table = split_at-IsTable u v index inside' deep;
        bounded = split_at-bounded u v index inside' deep;
        deeper = λ key h.
            split_at-deeper u v index inside' deep key
              (bucket_address-double t w key ∙ h ∙ sym same)
            ∙ ap (λ a. suc (t.buckets a).localdepth) same;
        selected = λ key test close.
            split_at-select u v index inside' deep key test (
              subst
                (λ a.
                  (k : List ℕ)
                  → test k ≡ true
                  → Agree (suc (t.buckets a).localdepth) (hash_function k) (hash_function key))
                (sym same) close)
            ∙ ap (λ a. select test (t.buckets a).pairs) (bucket_address-double t w key);
      }

  pub split_bucket-Split : Split (split_bucket t index)
  unfolding split_bucket
  split_bucket-Split = elim (Bool-cases ((t.buckets address).localdepth == t.globaldepth)) [
    | inl e ↦ rw e (doubled ((==_iff _ _).0 e))
    | inr e ↦ rw e (in_place (ground arith))
  ]
