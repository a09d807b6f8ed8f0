-- ===== src/Mesi/Bus.antt =====
-- What the bus loops of `read_cacheline` and `write_cacheline` find.
use mathlib.Core.Path.{subst, sym, ◌∙◌}
use csapp_stay.Prelude.{
  ℕ, zero, suc, ◌+◌, ◌≤◌, ◌<◌, ◌≡◌, ◌≢◌, refl, arith, Bool-cases, Option-cases, ◌==◌, inl, inr, ◌⊎◌,
  none, some, if◌then◌else◌,
}
use csapp_stay.Mesi.{
  State, modified, exclusive, shared, invalid, Line, line, Machine, set_line, Read, hit, read_snoop,
  read_miss, write_snoop, write_miss, invalidate_others,
}

abbrev pub Others : (ℕ → Line) → ℕ → ℕ → Type 0
Others c i n = (k : ℕ) → k < n → i ≢ k → (c k).state ≡ invalid

Others-next :
    (c : ℕ → Line) (i j : ℕ) → Others c i j → (i ≢ j → (c j).state ≡ invalid) → Others c i (j + 1)
Others-next c i j old new k h ne = elim (Bool-cases (k == j)) [
  | inl e ↦
      let at : k ≡ j = ground arith in
      subst (λ x. (c x).state ≡ invalid) (sym at) (new (λ q. ne (q ∙ sym at)))
  | inr e ↦ old k (ground arith) ne
]

read_snoop-none : (i j : ℕ) (m : Machine) (s : State) → read_snoop i j m s ≡ none → s ≡ invalid
unfolding read_snoop
read_snoop-none i j m invalid e = refl
read_snoop-none i j m modified e = cc
read_snoop-none i j m exclusive e = cc
read_snoop-none i j m shared e = cc

-- Either a valid line answers, or there is none and memory supplies the value.
abbrev pub Answered : ℕ → Machine → Read → Type 0
Answered i m r =
    ((k : ℕ) × (k < 5) × (i ≢ k) × (read_snoop i k m (m.cache k).state ≡ some r))
    ⊎ (Others m.cache i 5 × (r ≡ hit (set_line m i (line exclusive m.mem_value)) m.mem_value))

pub read_miss-Answered :
    (i : ℕ) (m : Machine) (n j : ℕ)
    → n + j ≡ 5
    → Others m.cache i j
    → Answered i m (read_miss i n j m)
unfolding read_miss
read_miss-Answered i m zero j e o = inr (λ k h. o k (omega arith), refl)
read_miss-Answered i m (suc n) j e o = elim (Bool-cases (i == j)) [
  | inl self ↦ rw self (
      read_miss-Answered i m n (j + 1) (omega arith)
        (Others-next m.cache i j o (λ q. absurd (q (ground arith)))))
  | inr ne ↦ rw ne (elim (Option-cases (read_snoop i j m (m.cache j).state)) [
    | inl none_ ↦ rw none_ (
        read_miss-Answered i m n (j + 1) (omega arith)
          (Others-next m.cache i j o (λ _. read_snoop-none i j m _ none_)))
    | inr (r, got) ↦ rw got (inl (j, omega arith, ground arith, got))
  ])
]

write_snoop-none :
    (i w j : ℕ) (m : Machine) (s : State) → write_snoop i w j m s ≡ none → s ≡ invalid
unfolding write_snoop
write_snoop-none i w j m invalid e = refl
write_snoop-none i w j m modified e = cc
write_snoop-none i w j m exclusive e = cc
write_snoop-none i w j m shared e = cc

abbrev pub Taken : ℕ → ℕ → Machine → Machine → Type 0
Taken i w m r =
    ((k : ℕ) × (k < 5) × (i ≢ k) × (write_snoop i w k m (m.cache k).state ≡ some r))
    ⊎ (Others m.cache i 5
        × (r ≡ set_line (set_line m i (line (m.cache i).state m.mem_value)) i (line modified w)))

pub write_miss-Taken :
    (i w : ℕ) (m : Machine) (n j : ℕ)
    → n + j ≡ 5
    → Others m.cache i j
    → Taken i w m (write_miss i w n j m)
unfolding write_miss
write_miss-Taken i w m zero j e o = inr (λ k h. o k (omega arith), refl)
write_miss-Taken i w m (suc n) j e o = elim (Bool-cases (i == j)) [
  | inl self ↦ rw self (
      write_miss-Taken i w m n (j + 1) (omega arith)
        (Others-next m.cache i j o (λ q. absurd (q (ground arith)))))
  | inr ne ↦ rw ne (elim (Option-cases (write_snoop i w j m (m.cache j).state)) [
    | inl none_ ↦ rw none_ (
        write_miss-Taken i w m n (j + 1) (omega arith)
          (Others-next m.cache i j o (λ _. write_snoop-none i w j m _ none_)))
    | inr (r, got) ↦ rw got (inl (j, omega arith, ground arith, got))
  ])
]

invalidate_others-below :
    (i n j k : ℕ) (m : Machine) → k < j → (invalidate_others i n j m).cache k ≡ m.cache k
unfolding invalidate_others
invalidate_others-below i zero j k m h = refl
invalidate_others-below i (suc n) j k m h =
    let m' = if i == j then m else set_line m j (line invalid 0) in
    invalidate_others-below i n (j + 1) k m' (omega arith) ∙ ground arith

pub invalidate_others_self :
    (i n j : ℕ) (m : Machine) → (invalidate_others i n j m).cache i ≡ m.cache i
unfolding invalidate_others
invalidate_others_self i zero j m = refl
invalidate_others_self i (suc n) j m =
    let m' = if i == j then m else set_line m j (line invalid 0) in
    invalidate_others_self i n (j + 1) m' ∙ ground arith

pub invalidate_others-mem :
    (i n j : ℕ) (m : Machine) → (invalidate_others i n j m).mem_value ≡ m.mem_value
unfolding invalidate_others
invalidate_others-mem i zero j m = refl
invalidate_others-mem i (suc n) j m =
    let m' = if i == j then m else set_line m j (line invalid 0) in
    invalidate_others-mem i n (j + 1) m' ∙ ground arith

-- The invalidating loop clears every other line from `j` on.
pub invalidate_others-cache :
    (i n j k : ℕ) (m : Machine)
    → i ≢ k
    → j ≤ k
    → k < j + n
    → (invalidate_others i n j m).cache k ≡ line invalid 0
unfolding invalidate_others
invalidate_others-cache i zero j k m ne lo hi = absurd (omega arith)
invalidate_others-cache i (suc n) j k m ne lo hi =
    let m' = if i == j then m else set_line m j (line invalid 0) in
    elim (Bool-cases (k == j)) [
      | inl e ↦ invalidate_others-below i n (j + 1) k m' (ground arith) ∙ ground arith
      | inr e ↦ invalidate_others-cache i n (j + 1) k m' ne (ground arith) (omega arith)
    ]
