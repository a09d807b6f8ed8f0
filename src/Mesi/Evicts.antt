-- ===== src/Mesi/Evicts.antt =====
-- `evict_cacheline` keeps the cell's value, and promotes a sharer that is left alone.
use csapp_stay.Prelude.{
  ℕ, zero, suc, ◌≤◌, ◌<◌, ◌≡◌, ◌≢◌, refl, arith, inl, inr, some, ◌==◌, Bool-cases, update,
}
use csapp_stay.Mesi.{
  State, modified, exclusive, shared, invalid, Line, line, Machine, set_line, is, count,
  last_shared, promote, evict_state, evict_cacheline,
}
use csapp_stay.Mesi.Counts.{update-Moved, count_total, count_all}
use csapp_stay.Mesi.Bus.{Others}
use csapp_stay.Mesi.Coherence.{Holds, owner-Others}

is-shared : (s : State) → is shared s ≡ 1 → s ≡ shared
is-shared shared h = refl
is-shared modified h = absurd (omega arith)
is-shared exclusive h = absurd (omega arith)
is-shared invalid h = absurd (omega arith)

-- A positive count has a last shared line.
last_shared-some :
    (c : ℕ → Line) (n : ℕ)
    → 0 < count shared c n
    → (j : ℕ) × (last_shared c n ≡ some j) × (j < n) × ((c j).state ≡ shared)
unfolding count last_shared
last_shared-some c zero h = absurd (omega arith)
last_shared-some c (suc n) h = elim (Bool-cases (is shared (c n).state == 1)) [
  | inl e ↦ (n, rw e, omega arith, is-shared (c n).state (ground arith))
  | inr e ↦
      let z : is shared (c n).state ≢ 1 = ground arith in
      let (j, got, lt, s) = last_shared-some c n (omega (arith, is-le-one (c n).state)) in
      (j, rw e got, omega arith, s)
]
  where
    is-le-one : (s : State) → is shared s ≤ 1
    is-le-one shared = omega arith
    is-le-one modified = omega arith
    is-le-one exclusive = omega arith
    is-le-one invalid = omega arith

-- An owner that leaves makes every line invalid, with memory holding the value.
left-Holds :
    {v : ℕ} (m : Machine) (i mem : ℕ) {s : State}
    → i < 5
    → (m.cache i).state ≡ s
    → Others m.cache i 5
    → mem ≡ v
    → Holds v (set_line (record m { mem_value = mem }) i (line invalid 0))
left-Holds m i mem hi e o q =
    let d = update m.cache i (line invalid 0) in
    let all = count_all invalid d 5 (λ j hj. ground (arith, o j hj)) in
    let t = count_total d 5 in
    record { shape = ground arith; valid = λ j hj nj. ground (arith, o j hj); memory = λ _. q }

-- One sharer leaves; with exactly one left, that one becomes exclusive.
module _ {v : ℕ} {m : Machine} (i : ℕ) (hi : i < 5) (e : (m.cache i).state ≡ shared)
    (h : Holds v m) where
  clean : count modified m.cache 5 ≡ 0
  clean = let a = update-Moved m.cache i (line invalid 0) e hi in omega (arith, h.shape.alone)

  promoted-Holds :
      count shared (update m.cache i (line invalid 0)) 5 ≡ 1
      → Holds v (
          promote
            (set_line m i (line invalid 0))
            (last_shared (update m.cache i (line invalid 0)) 5))
  unfolding promote
  promoted-Holds one =
      let d = update m.cache i (line invalid 0) in
      let a = update-Moved m.cache i (line invalid 0) e hi in
      let (j, got, hj, s) = last_shared-some d 5 (omega arith) in
      let b = update-Moved d j (line exclusive (d j).value) s hj in
      let c = h.shape in
      let z = clean in
      let nij : i ≢ j = ground arith in
      rw got (record {
        shape = ground arith;
        valid = λ k hk nk. ground (arith, h.valid k, h.valid j);
        memory = λ _. h.memory z;
      })

  kept-Holds :
      count shared (update m.cache i (line invalid 0)) 5 ≢ 1
      → Holds v (set_line m i (line invalid 0))
  kept-Holds many =
      let a = update-Moved m.cache i (line invalid 0) e hi in
      let c = h.shape in
      let z = clean in
      record {
        shape = ground arith;
        valid = λ k hk nk. ground (arith, h.valid k);
        memory = λ _. h.memory z;
      }

-- From a state that keeps the protocol's invariant with a value, an eviction by one of the five
-- processors, on every branch, keeps the invariant and the value: dirty data reach the memory, and
-- a last shared line is promoted.
pub evict_cacheline-Holds :
    {v : ℕ} {m : Machine} (i : ℕ) → i < 5 → Holds v m → Holds v (evict_cacheline i m).0
unfolding evict_cacheline
evict_cacheline-Holds {v} {m} i hi h = by_state (m.cache i).state refl
  where
    by_state : (s : State) → (m.cache i).state ≡ s → Holds v (evict_state i m s).0
    by_state modified e =
        left-Holds m i _ hi e (owner-Others m.cache i h.shape hi e (inl refl))
          (h.valid i hi (ground arith))
    by_state exclusive e =
        let a = update-Moved m.cache i (line invalid 0) e hi in
        left-Holds m i _ hi e (owner-Others m.cache i h.shape hi e (inr refl))
          (h.memory (omega (arith, h.shape.owner)))
    by_state shared e =
        elim (Bool-cases (count shared (update m.cache i (line invalid 0)) 5 == 1)) [
          | inl q ↦ rw q (promoted-Holds i hi e h (ground arith))
          | inr q ↦ rw q (kept-Holds i hi e h (ground arith))
        ]
    by_state invalid e = h
