-- ===== src/Mesi/Writes.antt =====
-- `write_cacheline` makes its processor the owner of the new value.
use mathlib.Core.Path.{subst, sym}
use mathlib.Core.Option.{some_inj}
use csapp_stay.Prelude.{ℕ, ◌<◌, ◌≡◌, ◌≢◌, refl, arith, inl, inr, some, ap}
use csapp_stay.Mesi.{
  State, modified, exclusive, shared, invalid, Line, line, Machine, write_snoop, write_state,
  write_cacheline, invalidate_others,
}
use csapp_stay.Mesi.Bus.{Others, Taken, write_miss-Taken, invalidate_others-cache}
use csapp_stay.Mesi.Coherence.{Holds, owner-Others, owned-Holds}

-- After the write: processor `i` owns `w`, and every other line is invalid.
abbrev pub Owned : ℕ → ℕ → Machine → Type 0
Owned i w m = (m.cache i ≡ line modified w) × Others m.cache i 5

cleared-Others : (i : ℕ) (m : Machine) → Others (invalidate_others i 5 0 m).cache i 5
cleared-Others i m k hk ne =
    ap Line.state (invalidate_others-cache i 5 0 k m ne (omega arith) (omega arith))

write_snoop-Owned :
    {v w : ℕ} {m : Machine} (i k : ℕ) (s : State) (r : Machine)
    → Holds v m
    → i < 5
    → k < 5
    → i ≢ k
    → (m.cache k).state ≡ s
    → write_snoop i w k m s ≡ some r
    → Owned i w r
unfolding write_snoop
write_snoop-Owned {m} i k modified r h hi hk ne e got =
    let o = owner-Others m.cache k h.shape hk e (inl refl) in
    subst (Owned i _) (some_inj.0 got) (ground arith, λ j hj nj. ground (arith, o j hj))
write_snoop-Owned {m} i k exclusive r h hi hk ne e got =
    let o = owner-Others m.cache k h.shape hk e (inr refl) in
    subst (Owned i _) (some_inj.0 got) (ground arith, λ j hj nj. ground (arith, o j hj))
write_snoop-Owned {m} i k shared r h hi hk ne e got =
    subst (Owned i _) (some_inj.0 got)
      (ground arith, λ j hj nj. ground (arith, cleared-Others i m j hj nj))
write_snoop-Owned i k invalid r h hi hk ne e got = cc

-- From a state that keeps the protocol's invariant, after a write by one of the five processors
-- its line is modified and has the value, and every other line is invalid.
pub write_cacheline-Owned :
    {v : ℕ} {m : Machine} (i w : ℕ) → i < 5 → Holds v m → Owned i w (write_cacheline i w m).0
unfolding write_cacheline
write_cacheline-Owned {v} {m} i w hi h = by_state (m.cache i).state refl
  where
    missed : (r : Machine) → Taken i w m r → Owned i w r
    missed r (inl (k, hk, ne, got)) = write_snoop-Owned i k _ r h hi hk ne refl got
    missed r (inr (o, got)) =
        subst (Owned i w) (sym got) (ground arith, λ j hj nj. ground (arith, o j hj))

    by_state : (s : State) → (m.cache i).state ≡ s → Owned i w (write_state i w m s)
    by_state invalid e =
        missed _ (write_miss-Taken i w m 5 0 (omega arith) (λ k b. absurd (omega arith)))
    by_state modified e =
        let o = owner-Others m.cache i h.shape hi e (inl refl) in
        (ground arith, λ j hj nj. ground (arith, o j hj))
    by_state exclusive e =
        let o = owner-Others m.cache i h.shape hi e (inr refl) in
        (ground arith, λ j hj nj. ground (arith, o j hj))
    by_state shared e = (ground arith, λ j hj nj. ground (arith, cleared-Others i m j hj nj))

-- From a state that keeps the protocol's invariant with some value, a write by one of the five
-- processors, on every branch, keeps the invariant, with the written value as the new value.
pub write_cacheline-Holds :
    {v : ℕ} {m : Machine} (i w : ℕ) → i < 5 → Holds v m → Holds w (write_cacheline i w m).0
write_cacheline-Holds i w hi h =
    let (own, o) = write_cacheline-Owned i w hi h in owned-Holds i hi own o
