-- ===== src/Hash/Splits.antt =====
-- src/algorithm/hashtable.c: a bucket split in a directory that is large enough.
use mathlib.Core.Path.{subst}
use csapp_stay.Prelude.{
  ℕ, suc, ◌^◌, ◌<◌, ◌≡◌, ◌≢◌, refl, sym, ◌∙◌, ap, inl, inr, arith, Bool, true, false, not, List,
  ◌==◌, ==_iff, Bool-cases, if◌then◌else◌, update, update_self, update_ne, and_bit, bit-low,
}
use csapp_stay.Hash.{
  Bucket, HashTable, hash_function, hash_function_index, split_at, create_bucket, update_directory,
}
use csapp_stay.Hash.Directories.{update_directory_lem}
use csapp_stay.Hash.Pairs.{select, goes, stays, length-select, select-Homed, rehash_lem}
use csapp_stay.Hash.Tables.{IsEntry, IsTable}

-- The pairs of one side, for the value b of the bit.
abbrev pub side : ℕ → ℕ → Bool → List ℕ → Bool
side g bit true = goes g bit
side g bit false = stays g bit

side_lem :
    (g d : ℕ) (b : Bool) (key : List ℕ)
    → d < g
    → side g (2 ^ d) b key ≡ true
    → and_bit (hash_function key) (2 ^ d) ≡ b
unfolding hash_function_index
side_lem g d true key h e = sym (bit-low (hash_function key) h) ∙ e
side_lem g d false key h e = sym (bit-low (hash_function key) h) ∙ not_true _ e
  where
    not_true : (c : Bool) → not c ≡ true → c ≡ false
    not_true true e = cc
    not_true false e = refl

pub lem_side :
    (g d : ℕ) (b : Bool) (key : List ℕ)
    → d < g
    → and_bit (hash_function key) (2 ^ d) ≡ b
    → side g (2 ^ d) b key ≡ true
unfolding hash_function_index
lem_side g d true key h e = bit-low (hash_function key) h ∙ e
lem_side g d false key h e = let f = bit-low (hash_function key) h ∙ e in ap not f

module _ (t : HashTable) (w : IsTable t) (index : ℕ) (inside : index < 2 ^ t.globaldepth)
    (deep : (t.buckets (t.directory index)).localdepth < t.globaldepth) where
  abbrev pub old : ℕ
  old = t.directory index

  abbrev pub depth : ℕ
  depth = (t.buckets old).localdepth

  -- The two halves of the old bucket, and their addresses.
  abbrev pub half : Bool → Bucket
  half b = record {
    localdepth = suc depth;
    capacity = if b then t.bucket_capacity else (t.buckets old).capacity;
    pairs = select (side t.globaldepth (2 ^ depth) b) (t.buckets old).pairs;
  }

  abbrev pub place : Bool → ℕ
  place true = t.next_bucket
  place false = old

  abbrev pub parted : HashTable
  parted = record t {
    directory = update_directory t.directory_size (2 ^ depth) old t.next_bucket t.directory;
    buckets = update (update t.buckets old (half false)) t.next_bucket (half true);
    next_bucket = suc t.next_bucket;
  }

  pub split_at_lem : split_at t index ≡ parted
  unfolding split_at create_bucket
  split_at_lem = rw rehash_lem refl

  pub old-allocated : old < t.next_bucket
  old-allocated = (w.entry index inside).allocated

  pub bucket-half : (b : Bool) → parted.buckets (place b) ≡ half b
  bucket-half true = update_self (update t.buckets old (half false)) t.next_bucket (half true)
  bucket-half false =
      update_ne (update t.buckets old (half false)) t.next_bucket old (half true)
        (omega (arith, old-allocated))
      ∙ update_self t.buckets old (half false)

  pub bucket-other : (a : ℕ) → a < t.next_bucket → a ≢ old → parted.buckets a ≡ t.buckets a
  bucket-other a h e =
      update_ne (update t.buckets old (half false)) t.next_bucket a (half true) (omega arith)
      ∙ update_ne t.buckets old a (half false) (λ q. e (sym q))

  pub place_inj : (b c : Bool) → place b ≡ place c → b ≡ c
  place_inj true true e = refl
  place_inj true false e = absurd (omega (arith, old-allocated))
  place_inj false true e = absurd (omega (arith, old-allocated))
  place_inj false false e = refl

  -- Where the entry i points to after the split.
  pub data Placed (i a : ℕ) : Type 0 where
    halved : (b : Bool) → t.directory i ≡ old → and_bit i (2 ^ depth) ≡ b → a ≡ place b → Placed i a
    other : t.directory i ≢ old → a ≡ t.directory i → Placed i a

  pub placed : (i : ℕ) → i < 2 ^ t.globaldepth → Placed i (parted.directory i)
  placed i h =
      let e : parted.directory i ≡ _ =
        update_directory_lem (2 ^ depth) old t.next_bucket t.directory t.directory_size i
          (omega (arith, w.size)) in
      elim (Bool-cases (t.directory i == old)) [
        | inl q ↦
            let d = (==_iff (t.directory i) old).0 q in
            elim (Bool-cases (and_bit i (2 ^ depth))) [
              | inl b ↦ halved true d b (rw (q, b) at e)
              | inr b ↦ halved false d b (let f = rw (q, b) at e in f ∙ d)
            ]
        | inr q ↦ other (ground arith) (rw q at e)
      ]

  IsEntry-halved :
      (b : Bool) (i : ℕ)
      → i < 2 ^ t.globaldepth
      → t.directory i ≡ old
      → and_bit i (2 ^ depth) ≡ b
      → IsEntry parted (place b) i
  IsEntry-halved b i h d e =
      let o = subst (λ a. IsEntry t a i) d (w.entry i h) in
      record {
        allocated = below b;
        shallow = rw (bucket-half b) deep;
        room = rw (bucket-half b) (capacity b);
        within = rw (bucket-half b) (
            omega (
              arith,
              length-select (side t.globaldepth (2 ^ depth) b) (t.buckets old).pairs,
              o.within,
            ));
        homed = rw (bucket-half b) (
            select-Homed (side t.globaldepth (2 ^ depth) b) depth i (t.buckets old).pairs
              (λ key s. side_lem t.globaldepth depth b key deep s ∙ sym e) o.homed);
      }
    where
      below : (b : Bool) → place b < suc t.next_bucket
      below true = omega arith
      below false = omega (arith, old-allocated)

      capacity : (b : Bool) → (half b).capacity ≡ t.bucket_capacity
      capacity true = refl
      capacity false = (w.entry index inside).room

  IsEntry-other :
      (i : ℕ) → i < 2 ^ t.globaldepth → t.directory i ≢ old → IsEntry parted (t.directory i) i
  IsEntry-other i h n =
      let o = w.entry i h in
      let e = bucket-other (t.directory i) o.allocated n in
      record {
        allocated = omega (arith, o.allocated);
        shallow = rw e o.shallow;
        room = rw e o.room;
        within = rw e o.within;
        homed = rw e o.homed;
      }

  pub parted-IsEntry : (i : ℕ) → i < 2 ^ t.globaldepth → IsEntry parted (parted.directory i) i
  parted-IsEntry i h = elim (placed i h) [
    | halved b d e q ↦ subst (λ a. IsEntry parted a i) (sym q) (IsEntry-halved b i h d e)
    | other n q ↦ subst (λ a. IsEntry parted a i) (sym q) (IsEntry-other i h n)
  ]
