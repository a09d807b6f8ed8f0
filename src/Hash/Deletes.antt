-- ===== src/Hash/Deletes.antt =====
-- src/algorithm/hashtable.c: `hashtable_delete` takes one pair out of a bucket. The last pair takes
-- its place, so the order of a key's values may change.
use mathlib.Core.List.{Perm}
use mathlib.Core.List.Perm as Perm
use mathlib.Core.Path.{subst}
use csapp_stay.Prelude.{
  ℕ, ◌≡◌, ◌≢◌, refl, sym, ◌∙◌, ◌⊎◌, inl, inr, arith, true, false, none, some, List, ◌∷◌, same,
  same_refl, ne_same,
}
use native.Mathlib.Decide.{ℕ_discrete}
use csapp_stay.Hash.{
  Pair, HashTable, bucket_address, bucket_of, store, hashtable_get, hashtable_delete,
}
use csapp_stay.Hash.Pairs.{select, filled, values}
use csapp_stay.Hash.Tables.{IsTable}
use csapp_stay.Hash.Stores.{key-IsEntry, store-at, store-off, store-IsTable}
use csapp_stay.Hash.Inserts.{entries, own-Homed}
use csapp_stay.Hash.Removals.{Removed, delete_pair-cases}

pub record Deleted (t : HashTable) (key : List ℕ) (val : ℕ) (u : HashTable) : Type 0 where
  pub table : IsTable u
  pub bounded : u.bucket_capacity ≡ t.bucket_capacity
  pub found : hashtable_get t key ≡ some val
  pub own : Perm (entries t key) (val ∷ entries u key)
  pub others : (k : List ℕ) → k ≢ key → Perm (entries t k) (entries u k)

module _ (t : HashTable) (w : IsTable t) (key : List ℕ) (p : Pair) (qs : List Pair)
    (r : Removed key (bucket_of t key).pairs p qs) where
  values-own : Perm (entries t key) (p.val ∷ values key qs)
  unfolding select
  values-own =
      let h = Perm.map (λ q. q.val) (r.selected (λ k. same k key)) in
      let e : same p.key key ≡ true = rw r.matching (same_refl key) in rw e at h

  values-others : (k : List ℕ) → k ≢ key → Perm (values k (bucket_of t key).pairs) (values k qs)
  unfolding select
  values-others k n =
      let h = Perm.map (λ q. q.val) (r.selected (λ l. same l k)) in
      let e : same p.key k ≡ false = ne_same p.key k (λ q. n (sym q ∙ r.matching)) in rw e at h

  store-Deleted : Deleted t key p.val (store t key (filled (bucket_of t key) qs))
  unfolding hashtable_get
  store-Deleted = record {
    table =
        store-IsTable t w key qs (omega (arith, r.shorter, (key-IsEntry t w key).within))
          (r.homed _ _ (own-Homed t w key 0));
    bounded = refl;
    found = r.found;
    own = rw (store-at t w key qs key refl) values-own;
    others = λ k n. elim (ℕ_discrete (bucket_address t k) (bucket_address t key)) [
      | yes e ↦
          let h = values-others k n in
          rw (store-at t w key qs k e)
            (subst (λ a. Perm (values k (t.buckets a).pairs) (values k qs)) (sym e) h)
      | no e ↦ rw (store-off t w key qs k e) (Perm.refl _)
    ];
  }

pub hashtable_delete-Deleted :
    (t : HashTable) (key : List ℕ)
    → IsTable t
    → ((hashtable_delete t key ≡ none) × (hashtable_get t key ≡ none))
      ⊎ ((val : ℕ) × (u : HashTable) × (hashtable_delete t key ≡ some u) × Deleted t key val u)
unfolding hashtable_delete hashtable_get
hashtable_delete-Deleted t key w = elim (delete_pair-cases key (bucket_of t key).pairs) [
  | inl (e, f) ↦ inl (rw e refl, f)
  | inr (p, qs, e, r) ↦
      inr
        (p.val, store t key (filled (bucket_of t key) qs), rw e refl, store-Deleted t w key p qs r)
]
