-- ===== src/Mesi/Reads.antt =====
-- `read_cacheline` keeps the protocol's state and returns the cell's value.
use mathlib.Core.Path.{subst, sym}
use mathlib.Core.Option.{some_inj}
use csapp_stay.Prelude.{
  ℕ, ◌<◌, ◌≡◌, ◌≢◌, refl, arith, inl, inr, some, ◌==◌, update, Bool-cases, ==_iff,
}
use csapp_stay.Mesi.{
  State, modified, exclusive, shared, invalid, line, Machine, Read, read_snoop, read_state,
  read_cacheline,
}
use csapp_stay.Mesi.Counts.{update-Moved, count_total, count_all}
use csapp_stay.Mesi.Coherence.{Holds}
use csapp_stay.Mesi.Bus.{Answered, read_miss-Answered}

read_hit-Holds :
    {v : ℕ} {m : Machine} (i k : ℕ) (s : State) (r : Read)
    → Holds v m
    → i < 5
    → k < 5
    → i ≢ k
    → (m.cache i).state ≡ invalid
    → (m.cache k).state ≡ s
    → read_snoop i k m s ≡ some r
    → Holds v r.machine × (r.read_value ≡ v)
unfolding read_snoop
read_hit-Holds {v} {m} i k modified r h hi hk ne ei ek got =
    let w = (m.cache k).value in
    let c₁ = update m.cache k (line shared w) in
    let a = update-Moved m.cache k (line shared w) ek hk in
    let b = update-Moved c₁ i (line shared w) {old = invalid} (ground arith) hi in
    let e : w ≡ v = h.valid k hk (ground arith) in
    subst (λ (r : Read). Holds v r.machine × (r.read_value ≡ v)) (some_inj.0 got)
      (
        record {
          shape = ground arith;
          valid = λ j hj nj. ground (arith, h.valid j);
          memory = λ _. e;
        },
        e,
      )
read_hit-Holds {v} {m} i k exclusive r h hi hk ne ei ek got =
    let w = (m.cache k).value in
    let c₁ = update m.cache i (line shared w) in
    let a = update-Moved m.cache i (line shared w) ei hi in
    let b = update-Moved c₁ k (line shared w) {old = exclusive} (ground arith) hk in
    let e : w ≡ v = h.valid k hk (ground arith) in
    subst (λ (r : Read). Holds v r.machine × (r.read_value ≡ v)) (some_inj.0 got)
      (
        record {
          shape = ground arith;
          valid = λ j hj nj. ground (arith, h.valid j);
          memory = λ _. h.memory (ground arith);
        },
        e,
      )
read_hit-Holds {v} {m} i k shared r h hi hk ne ei ek got =
    let w = (m.cache k).value in
    let a = update-Moved m.cache i (line shared w) ei hi in
    let b = update-Moved m.cache k (line invalid 0) ek hk in
    let e : w ≡ v = h.valid k hk (ground arith) in
    subst (λ (r : Read). Holds v r.machine × (r.read_value ≡ v)) (some_inj.0 got)
      (
        record {
          shape = ground arith;
          valid = λ j hj nj. ground (arith, h.valid j);
          memory = λ _. h.memory (ground arith);
        },
        e,
      )
read_hit-Holds i k invalid r h hi hk ne ei ek got = cc

-- From a state that keeps the protocol's invariant with a value, a read by one of the five
-- processors, on every branch, keeps the invariant and the value, and stores that value at the
-- pointer.
pub read_cacheline-Holds :
    {v : ℕ} {m : Machine} (i : ℕ)
    → i < 5
    → Holds v m
    → Holds v (read_cacheline i m).machine × ((read_cacheline i m).read_value ≡ v)
unfolding read_cacheline
read_cacheline-Holds {v} {m} i hi h = by_state (m.cache i).state refl
  where
    missed :
        (m.cache i).state ≡ invalid
        → (r : Read) → Answered i m r
        → Holds v r.machine × (r.read_value ≡ v)
    missed e r (inl (k, hk, ne, got)) = read_hit-Holds i k _ r h hi hk ne e refl got
    missed e r (inr (o, got)) =
        let all = count_all invalid m.cache 5 λ j hj. elim (Bool-cases (i == j)) [
          | inl q ↦ subst (λ x. (m.cache x).state ≡ invalid) ((==_iff i j).0 q) e
          | inr q ↦ o j hj (ground arith)
        ] in
        let a = update-Moved m.cache i (line exclusive m.mem_value) e hi in
        let t = count_total m.cache 5 in
        let fresh : m.mem_value ≡ v = h.memory (omega arith) in
        subst (λ (r : Read). Holds v r.machine × (r.read_value ≡ v)) (sym got)
          (
            record {
              shape = ground arith;
              valid = λ j hj nj. ground (arith, h.valid j);
              memory = λ _. fresh;
            },
            fresh,
          )

    by_state :
        (s : State)
        → (m.cache i).state ≡ s
        → Holds v (read_state i m s).machine × ((read_state i m s).read_value ≡ v)
    by_state invalid e =
        missed e _ (read_miss-Answered i m 5 0 (omega arith) (λ k b. absurd (omega arith)))
    by_state modified e = (h, h.valid i hi (ground arith))
    by_state exclusive e = (h, h.valid i hi (ground arith))
    by_state shared e = (h, h.valid i hi (ground arith))
