-- ===== src/Mesi/Counts.antt =====
-- The counters of `check_state`, and how a write to one line moves them.
use csapp_stay.Prelude.{
  ℕ, zero, suc, ◌+◌, ◌≤◌, ◌<◌, ◌≡◌, ◌≢◌, ◌↔◌, refl, arith, update, Bool-cases, ◌==◌, inl, inr, ◌⊎◌,
  true,
}
use csapp_stay.Mesi.{
  State, modified, exclusive, shared, invalid, Line, Machine, is, count, check_state,
}

pub count-update_above :
    (s : State) (c : ℕ → Line) (i n : ℕ) (l : Line) → n ≤ i → count s (update c i l) n ≡ count s c n
unfolding count
count-update_above s c i zero l h = refl
count-update_above s c i (suc n) l h = ground (arith, count-update_above s c i n l)

pub count-update :
    (s old : State) (c : ℕ → Line) (i n : ℕ) (l : Line)
    → (c i).state ≡ old
    → i < n
    → count s (update c i l) n + is s old ≡ count s c n + is s l.state
unfolding count
count-update s old c i zero l e h = absurd (omega arith)
count-update s old c i (suc n) l e h = elim (Bool-cases (i == n)) [
  | inl same ↦ last same
  | inr other ↦ rw other (omega (arith, count-update s old c i n l e (ground arith)))
]
  where
    last :
        (i == n) ≡ true
        → count s (update c i l) (suc n) + is s old ≡ count s c (suc n) + is s l.state
    last same =
        let at : i ≡ n = ground arith in
        rw same (rw (← at, e) (omega (arith, count-update_above s c i i l)))

pub count_total :
    (c : ℕ → Line) (n : ℕ)
    → count modified c n + count exclusive c n + count shared c n + count invalid c n ≡ n
unfolding count
count_total c zero = refl
count_total c (suc n) = ground (arith, count_total c n)

-- How the four counters move when line `i` goes from state `old` to `new`.
pub record Moved (c d : ℕ → Line) (old new : State) : Type 0 where
  pub ms : count modified d 5 + is modified old ≡ count modified c 5 + is modified new
  pub es : count exclusive d 5 + is exclusive old ≡ count exclusive c 5 + is exclusive new
  pub ss : count shared d 5 + is shared old ≡ count shared c 5 + is shared new
  pub is_ : count invalid d 5 + is invalid old ≡ count invalid c 5 + is invalid new

pub update-Moved :
    (c : ℕ → Line) (i : ℕ) (l : Line) {old : State}
    → (c i).state ≡ old
    → i < 5
    → Moved c (update c i l) old l.state
update-Moved c i l {old} e h = record {
  ms = count-update modified old c i 5 l e h;
  es = count-update exclusive old c i 5 l e h;
  ss = count-update shared old c i 5 l e h;
  is_ = count-update invalid old c i 5 l e h;
}

-- What `check_state` accepts: at most one owner, an owner is alone, and no lone sharer.
pub record IsShape (c : ℕ → Line) : Type 0 where
  pub owner : count modified c 5 + count exclusive c 5 ≤ 1
  pub alone : (count modified c 5 + count exclusive c 5 ≡ 0) ⊎ (count shared c 5 ≡ 0)
  pub no_lone : count shared c 5 ≢ 1

-- The check that counts states returns 1 exactly for the legal shapes: one modified or exclusive
-- line and the rest invalid, at least two shared lines and the rest invalid, or all invalid.
pub check_state-IsShape : (m : Machine) → (check_state m ≡ 1) ↔ IsShape m.cache
unfolding check_state
check_state-IsShape m = (
  λ h. let t = count_total m.cache 5 in ground arith,
  λ h. let t = count_total m.cache 5 in ground arith,
)

pub count_all :
    (s : State) (c : ℕ → Line) (n : ℕ) → ((j : ℕ) → j < n → (c j).state ≡ s) → count s c n ≡ n
unfolding count
count_all s c zero h = refl
count_all s c (suc n) h =
    rw (h n (omega arith)) (ground (arith, count_all s c n (λ j k. h j (omega arith))))

is-invalid : (s : State) → s ≢ invalid → is invalid s ≡ 0
is-invalid invalid h = absurd (h refl)
is-invalid _ h = refl

-- Two lines that are both valid leave at most three invalid ones.
pub count_pair :
    (c : ℕ → Line) (i j : ℕ)
    → i < 5
    → j < 5
    → i ≢ j
    → (c i).state ≢ invalid
    → (c j).state ≢ invalid
    → count invalid c 5 ≤ 3
count_pair c i j hi hj ne ni nj =
    let off : Line = record { state = invalid; value = 0 } in
    let one = update-Moved c i off refl hi in
    let other : (update c i off j).state ≡ (c j).state = ground arith in
    let two = update-Moved (update c i off) j off other hj in
    omega (
      arith,
      is-invalid (c i).state ni,
      is-invalid (c j).state nj,
      count_total (update (update c i off) j off) 5,
    )
