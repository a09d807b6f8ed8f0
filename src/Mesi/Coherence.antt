-- ===== src/Mesi/Coherence.antt =====
-- What the operations keep: the protocol's shape, and one value for all valid copies.
use csapp_stay.Prelude.{ℕ, ◌+◌, ◌≤◌, ◌<◌, ◌≡◌, ◌≢◌, refl, arith, ◌⊎◌, update}
use csapp_stay.Mesi.{State, modified, exclusive, shared, invalid, Line, line, Machine, count}
use csapp_stay.Mesi.Counts.{Moved, update-Moved, IsShape, count_total, count_all, count_pair}
use csapp_stay.Mesi.Bus.{Others}

-- Every valid line holds `v`, and so does memory unless a line is modified.
pub record Holds (v : ℕ) (m : Machine) : Type 0 where
  pub shape : IsShape m.cache
  pub valid : (k : ℕ) → k < 5 → (m.cache k).state ≢ invalid → (m.cache k).value ≡ v
  pub memory : count modified m.cache 5 ≡ 0 → m.mem_value ≡ v

invalid_of : (s : State) → ¬ (s ≢ invalid) → s ≡ invalid
invalid_of invalid h = refl
invalid_of modified h = absurd (h (λ q. cc))
invalid_of exclusive h = absurd (h (λ q. cc))
invalid_of shared h = absurd (h (λ q. cc))

-- With three invalid lines at most, an owner is not alone.
alone_absurd :
    {c d : ℕ → Line} {s : State}
    → (s ≡ modified) ⊎ (s ≡ exclusive)
    → Moved c d s invalid
    → count modified c 5 + count exclusive c 5 + count shared c 5 + count invalid c 5 ≡ 5
    → count invalid c 5 ≤ 3
    → IsShape c
    → ⊥
alone_absurd {s = modified} q a t le h = omega arith
alone_absurd {s = exclusive} q a t le h = omega arith
alone_absurd {s = shared} q a t le h = ground arith
alone_absurd {s = invalid} q a t le h = ground arith

-- An owner's line is the only valid one.
pub owner-Others :
    (c : ℕ → Line) (i : ℕ) {s : State}
    → IsShape c
    → i < 5
    → (c i).state ≡ s
    → (s ≡ modified) ⊎ (s ≡ exclusive)
    → Others c i 5
owner-Others c i {s} h hi e q k hk ne =
    let off : Line = line invalid 0 in
    let a = update-Moved c i off e hi in
    let t = count_total c 5 in
    let n : (c i).state ≢ invalid = ground arith in
    invalid_of (c k).state λ v. alone_absurd q a t (count_pair c i k hi hk ne n v) h

-- A machine where processor `i` has just become the owner of `w`.
pub owned-Holds :
    {w : ℕ} {m : Machine} (i : ℕ)
    → i < 5
    → m.cache i ≡ line modified w
    → Others m.cache i 5
    → Holds w m
owned-Holds {w} {m} i hi e o =
    let off : Line = line invalid 0 in
    let all = count_all invalid (update m.cache i off) 5 (λ j hj. ground (arith, o j hj)) in
    let a = update-Moved m.cache i off {old = modified} (ground arith) hi in
    let t = count_total m.cache 5 in
    record {
      shape = ground arith;
      valid = λ j hj nj. ground (arith, o j hj);
      memory = λ z. absurd (omega arith);
    }
