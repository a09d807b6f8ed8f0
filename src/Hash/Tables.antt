-- ===== src/Hash/Tables.antt =====
-- src/algorithm/hashtable.c: the invariant of the table, and the table after a split.
use csapp_stay.Prelude.{ℕ, zero, suc, ◌^◌, ◌≤◌, ◌<◌, ◌≡◌, refl, arith, length, Agree}
use csapp_stay.Hash.{HashTable, hashtable_construct, create_bucket}
use csapp_stay.Hash.Pairs.{Homed}

-- What holds of the bucket at the address a, which is the directory's entry i.
pub record IsEntry (t : HashTable) (a i : ℕ) : Type 0 where
  pub allocated : a < t.next_bucket
  pub shallow : (t.buckets a).localdepth ≤ t.globaldepth
  pub room : (t.buckets a).capacity ≡ t.bucket_capacity
  pub within : length (t.buckets a).pairs ≤ t.bucket_capacity
  pub homed : Homed (t.buckets a).localdepth i (t.buckets a).pairs

-- The entries i and j, with their buckets a and b: they share a bucket just if they agree in as
-- many low bits as its depth.
abbrev pub Shares : HashTable → ℕ → ℕ → ℕ → ℕ → Type 0
Shares t a b i j =
    (a ≡ b → Agree (t.buckets a).localdepth i j) × (Agree (t.buckets a).localdepth i j → a ≡ b)

pub record IsTable (t : HashTable) : Type 0 where
  pub size : t.directory_size ≡ 2 ^ t.globaldepth
  pub entry : (i : ℕ) → i < 2 ^ t.globaldepth → IsEntry t (t.directory i) i
  pub shares :
      (i j : ℕ)
      → i < 2 ^ t.globaldepth
      → j < 2 ^ t.globaldepth
      → Shares t (t.directory i) (t.directory j) i j

pub hashtable_construct-IsTable : (bsize : ℕ) → IsTable (hashtable_construct bsize)
unfolding hashtable_construct create_bucket
hashtable_construct-IsTable bsize = record {
  size = refl;
  entry = λ i h. entry i h;
  shares = λ i j hi hj. shares i j hi hj;
}
  where
    t : HashTable
    t = hashtable_construct bsize

    Entry : ℕ → Type 0
    Entry i = IsEntry t (t.directory i) i

    Shared : ℕ → ℕ → Type 0
    Shared i j = Shares t (t.directory i) (t.directory j) i j

    entry : (i : ℕ) → i < 2 → Entry i
    entry zero h = record {
      allocated = omega arith;
      shallow = omega arith;
      room = refl;
      within = omega arith;
      homed = tt;
    }
    entry (suc zero) h = record {
      allocated = omega arith;
      shallow = omega arith;
      room = refl;
      within = omega arith;
      homed = tt;
    }
    entry (suc (suc i)) h = absurd (omega arith)

    shares : (i j : ℕ) → i < 2 → j < 2 → Shared i j
    shares zero zero hi hj = (λ _. refl, λ _. refl)
    shares (suc zero) (suc zero) hi hj = (λ _. refl, λ _. refl)
    shares zero (suc zero) hi hj = (λ e. absurd (omega arith), λ e. absurd (omega arith))
    shares (suc zero) zero hi hj = (λ e. absurd (omega arith), λ e. absurd (omega arith))
    shares (suc (suc i)) j hi hj = absurd (omega arith)
    shares zero (suc (suc j)) hi hj = absurd (omega arith)
    shares (suc zero) (suc (suc j)) hi hj = absurd (omega arith)
