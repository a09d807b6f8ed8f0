-- ===== src/Hash/Shares.antt =====
-- src/algorithm/hashtable.c: a split bucket, its key's pairs and the invariant.
use mathlib.Core.Path.{subst}
use csapp_stay.Prelude.{
  ℕ, suc, ◌%◌, ◌^◌, ◌<◌, ◌≡◌, ◌≢◌, refl, sym, ◌∙◌, ap, arith, Bool, true, false, List, and_bit,
  Agree, Agree-suc, Agree-bit, Agree-down, mod-pow-lt, bit-low,
}
use csapp_stay.Hash.{
  HashTable, hash_function, hash_function_index, bucket_address, bucket_of, split_at,
}
use csapp_stay.Hash.Pairs.{select, select-select}
use csapp_stay.Hash.Tables.{Shares, IsTable}
use csapp_stay.Hash.Splits.{
  side, lem_side, half, place, parted, split_at_lem, bucket-half, bucket-other, place_inj, Placed,
  halved, other, placed, parted-IsEntry,
}

module _ (t : HashTable) (w : IsTable t) (index : ℕ) (inside : index < 2 ^ t.globaldepth)
    (deep : (t.buckets (t.directory index)).localdepth < t.globaldepth) where
  abbrev after : HashTable
  after = parted t w index inside deep

  abbrev spot : Bool → ℕ
  spot b = place t w index inside deep b

  abbrev level : ℕ
  level = (t.buckets (t.directory index)).localdepth

  module _ (i j : ℕ) (hi : i < 2 ^ t.globaldepth) (hj : j < 2 ^ t.globaldepth) where
    halved-halved :
        (b c : Bool)
        → t.directory i ≡ t.directory index
        → t.directory j ≡ t.directory index
        → and_bit i (2 ^ level) ≡ b
        → and_bit j (2 ^ level) ≡ c
        → Shares after (spot b) (spot c) i j
    halved-halved b c di dj bi bj =
        let same : Agree level i j =
          (subst (λ a. Shares t a (t.directory j) i j) di (w.shares i j hi hj)).0 (sym dj) in
        rw (bucket-half t w index inside deep b) (
          λ e. Agree-suc level i j same (bi ∙ place_inj t w index inside deep b c e ∙ sym bj),
          λ q. ap spot (sym bi ∙ Agree-bit level i j q ∙ bj),
        )

    spot-ne : (b : Bool) (a : ℕ) → a < t.next_bucket → a ≢ t.directory index → spot b ≢ a
    spot-ne true a h n e = omega arith
    spot-ne false a h n e = n (sym e)

    halved-other :
        (b : Bool)
        → t.directory i ≡ t.directory index
        → t.directory j ≢ t.directory index
        → Shares after (spot b) (t.directory j) i j
    halved-other b di nj = rw (bucket-half t w index inside deep b) (
      λ e. absurd (spot-ne b (t.directory j) (w.entry j hj).allocated nj e),
      λ q. absurd (nj (sym (together (Agree-down i j (omega arith) q)) ∙ di)),
    )
      where
        together : Agree level i j → t.directory i ≡ t.directory j
        together =
            (subst (λ a. Agree (t.buckets a).localdepth i j → t.directory i ≡ t.directory j) di
              ((w.shares i j hi hj).1))

    other-halved :
        (c : Bool)
        → t.directory i ≢ t.directory index
        → t.directory j ≡ t.directory index
        → Shares after (t.directory i) (spot c) i j
    other-halved c ni dj =
        rw (bucket-other t w index inside deep (t.directory i) (w.entry i hi).allocated ni) (
          λ e. absurd (spot-ne c (t.directory i) (w.entry i hi).allocated ni (sym e)),
          λ q. absurd (ni ((w.shares i j hi hj).1 q ∙ dj)),
        )

    other-other :
        t.directory i ≢ t.directory index → Shares after (t.directory i) (t.directory j) i j
    other-other ni =
        rw (bucket-other t w index inside deep (t.directory i) (w.entry i hi).allocated ni)
          (w.shares i j hi hj)

    Placed-Shares :
        (a b : ℕ)
        → Placed t w index inside deep i a
        → Placed t w index inside deep j b
        → Shares after a b i j
    Placed-Shares a b (halved x di bi ei) (halved y dj bj ej) =
        rw (ei, ej) (halved-halved x y di dj bi bj)
    Placed-Shares a b (halved x di bi ei) (other nj ej) = rw (ei, ej) (halved-other x di nj)
    Placed-Shares a b (other ni ei) (halved y dj bj ej) = rw (ei, ej) (other-halved y ni dj)
    Placed-Shares a b (other ni ei) (other nj ej) = rw (ei, ej) (other-other ni)

  parted-IsTable : IsTable after
  parted-IsTable = record {
    size = w.size;
    entry = λ i h. parted-IsEntry t w index inside deep i h;
    shares = λ i j hi hj.
        Placed-Shares i j hi hj _ _ (placed t w index inside deep i hi)
          (placed t w index inside deep j hj);
  }

  pub split_at-bounded : (split_at t index).bucket_capacity ≡ t.bucket_capacity
  split_at-bounded = rw (split_at_lem t w index inside deep) refl

  pub split_at-IsTable : IsTable (split_at t index)
  split_at-IsTable = subst IsTable (sym (split_at_lem t w index inside deep)) parted-IsTable

  -- The pairs of the key's bucket that pass a test which implies the key's bit.
  module _ (key : List ℕ) (test : List ℕ → Bool)
      (close : (k : List ℕ)
        → test k ≡ true
        → Agree (suc level) (hash_function k) (hash_function key)) where
    half-select :
        (b : Bool)
        → and_bit (hash_function key) (2 ^ level) ≡ b
        → select test (half t w index inside deep b).pairs
          ≡ select test (t.buckets (t.directory index)).pairs
    half-select b e =
        select-select test (side t.globaldepth (2 ^ level) b) (t.buckets (t.directory index)).pairs
          (λ k p.
            lem_side t.globaldepth level b k deep
              (Agree-bit level (hash_function k) (hash_function key) (close k p) ∙ e))

    Placed-select :
        (a : ℕ)
        → Placed t w index inside deep (hash_function_index t.globaldepth key) a
        → select test (after.buckets a).pairs ≡ select test (bucket_of t key).pairs
    unfolding bucket_address hash_function_index
    Placed-select a (halved b d e q) =
        rw (q, bucket-half t w index inside deep b)
          (half-select b (sym (bit-low (hash_function key) deep) ∙ e)
            ∙ ap (λ x. select test (t.buckets x).pairs) (sym d))
    Placed-select a (other n q) =
        let h = (w.entry (hash_function key % 2 ^ t.globaldepth) (mod-pow-lt _ _)).allocated in
        rw (q, bucket-other t w index inside deep _ h n) refl

    pub split_at-select :
        select test (bucket_of (split_at t index) key).pairs ≡ select test (bucket_of t key).pairs
    unfolding bucket_address hash_function_index
    split_at-select = rw (split_at_lem t w index inside deep) (
        Placed-select _
          (placed t w index inside deep (hash_function key % 2 ^ t.globaldepth) (mod-pow-lt _ _)))

  -- A key of the old bucket is one bit deeper.
  pub split_at-deeper :
      (key : List ℕ)
      → bucket_address t key ≡ t.directory index
      → (bucket_of (split_at t index) key).localdepth ≡ suc level
  unfolding bucket_address hash_function_index
  split_at-deeper key e =
      rw (split_at_lem t w index inside deep)
        (elim (placed t w index inside deep (hash_function key % 2 ^ t.globaldepth)
          (mod-pow-lt _ _)) [
            | halved b d p q ↦ rw (q, bucket-half t w index inside deep b) refl
            | other n q ↦ absurd (n e)
          ])
