-- ===== src/Hash/Doubles.antt =====
-- src/algorithm/hashtable.c: the directory doubled.
use mathlib.Core.Path.{subst}
use csapp_stay.Prelude.{
  ℕ, suc, ◌%◌, ◌^◌, ◌<◌, ◌≡◌, sym, ◌∙◌, ap, arith, List, [], ◌∷◌, Agree, low-low, mod-pow-lt,
}
use native.Mathlib.Nat.{pow-suc, mod-eq_of_lt}
use csapp_stay.Hash.{
  Pair, HashTable, hash_function, hash_function_index, bucket_address, double_directory,
}
use csapp_stay.Hash.Directories.{copy_directory_lem}
use csapp_stay.Hash.Pairs.{Homed}
use csapp_stay.Hash.Tables.{IsEntry, Shares, IsTable}

pub Homed-Agree : (d i j : ℕ) (ps : List Pair) → Agree d i j → Homed d i ps → Homed d j ps
Homed-Agree d i j [] e h = tt
Homed-Agree d i j (p ∷ ps) e (a, h) = (a ∙ e, Homed-Agree d i j ps e h)

module _ (t : HashTable) (w : IsTable t) where
  double_directory-entry :
      (i : ℕ)
      → i < 2 ^ suc t.globaldepth
      → (double_directory t).directory i ≡ t.directory (i % 2 ^ t.globaldepth)
  unfolding double_directory
  double_directory-entry i h =
      copy_directory_lem t.globaldepth t.directory i (omega (arith, pow-suc 2 t.globaldepth))

  double_directory-IsEntry :
      (i : ℕ) → (let k = i % 2 ^ t.globaldepth in IsEntry (double_directory t) (t.directory k) i)
  unfolding double_directory
  double_directory-IsEntry i =
      let k = i % 2 ^ t.globaldepth in
      let e = w.entry k (mod-pow-lt i t.globaldepth) in
      record {
        allocated = e.allocated;
        shallow = omega (arith, e.shallow);
        room = e.room;
        within = e.within;
        homed = Homed-Agree _ k i _ (low-low i e.shallow) e.homed;
      }

  double_directory-Shares :
      (i j : ℕ)
      → (let k = i % 2 ^ t.globaldepth in
          let l = j % 2 ^ t.globaldepth in
          Shares (double_directory t) (t.directory k) (t.directory l) i j)
  unfolding double_directory
  double_directory-Shares i j =
      let k = i % 2 ^ t.globaldepth in
      let l = j % 2 ^ t.globaldepth in
      let e = w.entry k (mod-pow-lt i t.globaldepth) in
      let (f, g) = w.shares k l (mod-pow-lt i t.globaldepth) (mod-pow-lt j t.globaldepth) in
      let ik = low-low i e.shallow in
      let jl = low-low j e.shallow in (λ q. sym ik ∙ f q ∙ jl, λ q. g (ik ∙ q ∙ sym jl))

  pub double_directory-IsTable : IsTable (double_directory t)
  unfolding double_directory
  double_directory-IsTable = record {
    size = omega (arith, w.size, pow-suc 2 t.globaldepth);
    entry = λ i h.
        subst (λ a. IsEntry (double_directory t) a i) (sym (double_directory-entry i h))
          (double_directory-IsEntry i);
    shares = λ i j hi hj.
        rw (double_directory-entry i hi, double_directory-entry j hj) (double_directory-Shares i j);
  }

  pub double_directory-low :
      (i : ℕ) → i < 2 ^ t.globaldepth → (double_directory t).directory i ≡ t.directory i
  double_directory-low i h =
      double_directory-entry i (omega (arith, pow-suc 2 t.globaldepth))
      ∙ ap t.directory (mod-eq_of_lt h)

  -- The bucket of a key stays.
  pub bucket_address-double :
      (key : List ℕ) → bucket_address (double_directory t) key ≡ bucket_address t key
  unfolding bucket_address hash_function_index double_directory
  bucket_address-double key =
      double_directory-entry (hash_function key % 2 ^ suc t.globaldepth) (mod-pow-lt _ _)
      ∙ ap t.directory (low-low (hash_function key) (omega arith))
