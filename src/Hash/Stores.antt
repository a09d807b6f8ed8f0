-- ===== src/Hash/Stores.antt =====
-- src/algorithm/hashtable.c: a table in which one bucket has new pairs.
use mathlib.Core.Path.{subst}
use csapp_stay.Prelude.{
  ℕ, ◌%◌, ◌^◌, ◌≤◌, ◌<◌, ◌≡◌, ◌≢◌, sym, ◌∙◌, ap, List, length, update_self, update_ne, Agree,
  low-low, mod-pow-lt,
}
use native.Mathlib.Decide.{ℕ_discrete}
use csapp_stay.Hash.{
  Pair, HashTable, hash_function, hash_function_index, bucket_address, bucket_of, store,
}
use csapp_stay.Hash.Pairs.{Homed, filled}
use csapp_stay.Hash.Tables.{IsEntry, IsTable}
use csapp_stay.Hash.Doubles.{Homed-Agree}

module _ (t : HashTable) (w : IsTable t) (key : List ℕ) where
  -- What holds of the key's own entry.
  pub key-IsEntry : IsEntry t (bucket_address t key) (hash_function_index t.globaldepth key)
  unfolding bucket_address hash_function_index
  key-IsEntry = w.entry (hash_function key % 2 ^ t.globaldepth) (mod-pow-lt _ _)

  pub index-inside : hash_function_index t.globaldepth key < 2 ^ t.globaldepth
  unfolding hash_function_index
  index-inside = mod-pow-lt _ _

  -- The low bits of the index are those of the hash.
  pub index-Agree :
      Agree (bucket_of t key).localdepth (hash_function_index t.globaldepth key) (hash_function key)
  unfolding hash_function_index
  index-Agree = low-low (hash_function key) key-IsEntry.shallow

  module _ (ps : List Pair) where
    abbrev u : HashTable
    u = store t key (filled (bucket_of t key) ps)

    pub store-at :
        (k : List ℕ)
        → bucket_address t k ≡ bucket_address t key
        → bucket_of u k ≡ filled (bucket_of t key) ps
    unfolding bucket_address
    store-at k e = rw e (update_self t.buckets (bucket_address t key) (filled (bucket_of t key) ps))

    pub store-off :
        (k : List ℕ) → bucket_address t k ≢ bucket_address t key → bucket_of u k ≡ bucket_of t k
    unfolding bucket_address
    store-off k n = update_ne t.buckets _ (bucket_address t k) _ (λ e. n (sym e))

    depth-same : (a : ℕ) → (u.buckets a).localdepth ≡ (t.buckets a).localdepth
    depth-same a = elim (ℕ_discrete (bucket_address t key) a) [
      | yes e ↦
          subst (λ x. (u.buckets x).localdepth ≡ (t.buckets x).localdepth) e
            (ap (λ b. b.localdepth)
              (update_self t.buckets (bucket_address t key) (filled (bucket_of t key) ps)))
      | no n ↦
          ap (λ b. b.localdepth)
            (update_ne t.buckets (bucket_address t key) a (filled (bucket_of t key) ps) n)
    ]

    module _ (within : length ps ≤ t.bucket_capacity)
        (homed : Homed (bucket_of t key).localdepth (hash_function key) ps) where
      own-IsEntry :
          (i : ℕ)
          → i < 2 ^ t.globaldepth
          → bucket_address t key ≡ t.directory i
          → IsEntry u (bucket_address t key) i
      unfolding bucket_address
      own-IsEntry i h e =
          let o = key-IsEntry in
          let new = update_self t.buckets (bucket_address t key) (filled (bucket_of t key) ps) in
          let near = (w.shares _ i index-inside h).0 e in
          record {
            allocated = o.allocated;
            shallow = rw new o.shallow;
            room = rw new o.room;
            within = rw new within;
            homed = rw new (Homed-Agree _ _ i ps (sym index-Agree ∙ near) homed);
          }

      other-IsEntry :
          (i : ℕ)
          → i < 2 ^ t.globaldepth
          → bucket_address t key ≢ t.directory i
          → IsEntry u (t.directory i) i
      other-IsEntry i h n =
          let o = w.entry i h in
          let same =
            update_ne t.buckets (bucket_address t key) (t.directory i) (filled (bucket_of t key) ps)
              n in
          record {
            allocated = o.allocated;
            shallow = rw same o.shallow;
            room = rw same o.room;
            within = rw same o.within;
            homed = rw same o.homed;
          }

      pub store-IsTable : IsTable u
      store-IsTable = record {
        size = w.size;
        entry = λ i h. elim (ℕ_discrete (bucket_address t key) (t.directory i)) [
          | yes e ↦ subst (λ a. IsEntry u a i) e (own-IsEntry i h e)
          | no n ↦ other-IsEntry i h n
        ];
        shares = λ i j hi hj. rw (depth-same (t.directory i)) (w.shares i j hi hj);
      }
