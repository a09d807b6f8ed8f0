-- ===== src/Hash/Directories.antt =====
-- src/algorithm/hashtable.c: what the two loops over the directory leave in it.
use csapp_stay.Prelude.{
  ℕ, zero, suc, ◌+◌, ◌-◌, ◌*◌, ◌%◌, ◌^◌, ◌≤◌, ◌<◌, ◌≡◌, ◌≢◌, refl, sym, ◌∙◌, arith, Bool, true,
  false, ◌&&◌, ◌==◌, if◌then◌else◌, update, update_self, update_ne, and_bit, ap,
}
use native.Mathlib.Decide.{ℕ_discrete, dec_lt}
use native.Mathlib.Nat.{mod-eq_of_lt, mod-eq-sub-mod}
use csapp_stay.Hash.{copy_directory, update_directory}

copy_directory-low : (n g : ℕ) (dir : ℕ → ℕ) (j : ℕ) → j < 2 ^ g → copy_directory n g dir j ≡ dir j
unfolding copy_directory
copy_directory-low zero g dir j h = refl
copy_directory-low (suc n) g dir j h =
    update_ne (copy_directory n g dir) (n + 2 ^ g) j _ (omega arith)
    ∙ copy_directory-low n g dir j h

copy_directory-high :
    (n g : ℕ) (dir : ℕ → ℕ) (j : ℕ) → n ≤ 2 ^ g → j < n → copy_directory n g dir (j + 2 ^ g) ≡ dir j
unfolding copy_directory
copy_directory-high zero g dir j hn hj = elim hj [ ]
copy_directory-high (suc n) g dir j hn hj = elim (ℕ_discrete j n) [
  | yes e ↦ rw e (
      update_self (copy_directory n g dir) (n + 2 ^ g) (copy_directory n g dir n)
      ∙ copy_directory-low n g dir n (omega arith))
  | no e ↦
      update_ne (copy_directory n g dir) (n + 2 ^ g) (j + 2 ^ g) _ (omega arith)
      ∙ copy_directory-high n g dir j (omega arith) (omega arith)
]

-- After the copy, an entry is the one of its low bits.
pub copy_directory_lem :
    (g : ℕ) (dir : ℕ → ℕ) (j : ℕ) → j < 2 ^ g * 2 → copy_directory (2 ^ g) g dir j ≡ dir (j % 2 ^ g)
copy_directory_lem g dir j h = elim (dec_lt j (2 ^ g)) [
  | yes l ↦ copy_directory-low (2 ^ g) g dir j l ∙ ap dir (sym (mod-eq_of_lt l))
  | no l ↦
      let low : j - 2 ^ g < 2 ^ g = omega arith in
      ap (copy_directory (2 ^ g) g dir) (omega arith)
      ∙ copy_directory-high (2 ^ g) g dir (j - 2 ^ g) (omega arith) low
      ∙ ap dir (sym (mod-eq-sub-mod (omega arith) ∙ mod-eq_of_lt low))
]

-- One round of the update, where the test is c.
update-self-if :
    (c : Bool) (before : ℕ → ℕ) (n new : ℕ)
    → (if c then update before n new else before) n ≡ (if c then new else before n)
update-self-if true before n new = update_self before n new
update-self-if false before n new = refl

update-ne-if :
    (c : Bool) (before : ℕ → ℕ) (n new i : ℕ)
    → n ≢ i
    → (if c then update before n new else before) i ≡ before i
update-ne-if true before n new i h = update_ne before n i new h
update-ne-if false before n new i h = refl

module _ (bit old new : ℕ) (dir : ℕ → ℕ) where
  update_directory-above : (n i : ℕ) → n ≤ i → update_directory n bit old new dir i ≡ dir i
  unfolding update_directory
  update_directory-above zero i h = refl
  update_directory-above (suc n) i h =
      update-ne-if _ (update_directory n bit old new dir) n new i (omega arith)
      ∙ update_directory-above n i (omega arith)

  -- After the update, each entry for the old bucket with the bit is one for the new.
  pub update_directory_lem :
      (n i : ℕ)
      → i < n
      → update_directory n bit old new dir i
        ≡ (if (dir i == old) && and_bit i bit then new else dir i)
  unfolding update_directory
  update_directory_lem zero i h = elim h [ ]
  update_directory_lem (suc n) i h = elim (ℕ_discrete i n) [
    | yes q ↦
        let same = update_directory-above n n (omega arith) in
        rw q (
          update-self-if _ (update_directory n bit old new dir) n new
          ∙ ap (λ e. if (e == old) && and_bit n bit then new else e) same)
    | no q ↦
        update-ne-if _ (update_directory n bit old new dir) n new i (omega arith)
        ∙ update_directory_lem n i (omega arith)
  ]
