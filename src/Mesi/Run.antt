-- ===== src/Mesi/Run.antt =====
-- The loop of `main`, and runs of the protocol as runs of one shared memory cell.
use csapp_stay.Prelude.{
  ℕ, zero, suc, ◌+◌, ◌%◌, ◌<◌, ◌≡◌, refl, ap, arith, inl, inr, Bool, Bool-cases, true, false, List,
  [], ◌∷◌, ◌==◌, if◌then◌else◌,
}
use csapp_stay.Mesi.{
  invalid, line, Machine, count, num_processor, check_state, read_cacheline, write_cacheline,
  evict_cacheline,
}
use csapp_stay.Mesi.Counts.{check_state-IsShape}
use csapp_stay.Mesi.Coherence.{Holds}
use csapp_stay.Mesi.Reads.{read_cacheline-Holds}
use csapp_stay.Mesi.Writes.{write_cacheline-Holds}
use csapp_stay.Mesi.Evicts.{evict_cacheline-Holds}

-- `rand` gives the results of `rand()` in order; `k` calls have been made.
-- One round of the loop of `main` up to the check: the machine and the calls made after it.
main_step : (ℕ → ℕ) → ℕ → Machine → Machine × ℕ
main_step rand k m =
    let core_index = rand k % num_processor in
    let op = rand (k + 1) % 3 in
    if op == 0
    then ((read_cacheline core_index m).machine, k + 2)
    else if op == 1
    then ((write_cacheline core_index (rand (k + 2) % 1000) m).0, k + 3)
    else if op == 2
    then ((evict_cacheline core_index m).0, k + 2)
    else (m, k + 2)

-- `true` is the output "pass", `false` is "failed".
main_loop : (ℕ → ℕ) → ℕ → ℕ → Machine → Bool
unfolding main_step
main_loop rand zero k m = true
main_loop rand (suc n) k m =
    let (m', k') = main_step rand k m in
    let rest = main_loop rand n k' m' in if check_state m' == 0 then false else rest

pub start : Machine
start = record { cache = λ _. line invalid 0; mem_value = 15213 }

-- `srand` and the loop of 100 rounds, after all lines are made invalid.
pub main : (ℕ → ℕ) → Bool
unfolding main_loop start
main rand = main_loop rand 100 0 start

pub start-Holds : Holds 15213 start
unfolding start count
start-Holds = record { shape = ground arith; valid = λ k h n. absurd (n refl); memory = λ _. refl }

main_step-Holds :
    (rand : ℕ → ℕ) (k : ℕ) {v : ℕ} {m : Machine}
    → Holds v m
    → (w : ℕ) × Holds w (main_step rand k m).0
unfolding main_step
main_step-Holds rand k {v} {m} h = elim (Bool-cases (rand (k + 1) % 3 == 0)) [
  | inl a ↦ rw a (v, (read_cacheline-Holds (rand k % 5) (omega arith) h).0)
  | inr a ↦ rw a (elim (Bool-cases (rand (k + 1) % 3 == 1)) [
    | inl b ↦ rw b (_, write_cacheline-Holds (rand k % 5) (rand (k + 2) % 1000) (omega arith) h)
    | inr b ↦ rw b (elim (Bool-cases (rand (k + 1) % 3 == 2)) [
      | inl c ↦ rw c (v, evict_cacheline-Holds (rand k % 5) (omega arith) h)
      | inr c ↦ rw c (v, h)
    ])
  ])
]

main_loop-true :
    (rand : ℕ → ℕ) (n k : ℕ) {v : ℕ} {m : Machine} → Holds v m → main_loop rand n k m ≡ true
unfolding main_loop
main_loop-true rand zero k h = refl
main_loop-true rand (suc n) k {m} h =
    let (w, h') = main_step-Holds rand k h in
    let ok = (check_state-IsShape (main_step rand k m).0).1 h'.shape in
    rw ok (main_loop-true rand n _ h')

-- For every sequence of results of rand, the test program prints pass: check_state returns 1 after
-- each of its 100 rounds of a read, a write or an eviction by one of the processors.
pub main-true : (rand : ℕ → ℕ) → main rand ≡ true
unfolding main
main-true rand = main_loop-true rand 100 0 start-Holds

-- A request of one processor.
pub data Request : Type 0 where
  read : ℕ → Request
  write : ℕ → ℕ → Request
  evict : ℕ → Request

abbrev pub processor : Request → ℕ
processor (read i) = i
processor (write i _) = i
processor (evict i) = i

abbrev pub Known : List Request → Type 0
Known [] = Unit
Known (r ∷ rs) = (processor r < num_processor) × Known rs

-- The values that the reads of a sequence of requests return.
pub run : List Request → Machine → List ℕ
run [] m = []
run (read i ∷ rs) m = let r = read_cacheline i m in r.read_value ∷ run rs r.machine
run (write i v ∷ rs) m = run rs (write_cacheline i v m).0
run (evict i ∷ rs) m = run rs (evict_cacheline i m).0

-- The specification: one memory cell, without caches.
pub cell_run : List Request → ℕ → List ℕ
cell_run [] v = []
cell_run (read i ∷ rs) v = v ∷ cell_run rs v
cell_run (write i w ∷ rs) v = cell_run rs w
cell_run (evict i ∷ rs) v = cell_run rs v

-- From any state that keeps the protocol with the one value v, every sequence of reads, writes and
-- evictions by the five processors returns what one cell holding v would: each read gets the value
-- last written.
pub run-cell_run :
    (rs : List Request) {v : ℕ} {m : Machine} → Known rs → Holds v m → run rs m ≡ cell_run rs v
unfolding run cell_run
run-cell_run [] known h = refl
run-cell_run (read i ∷ rs) {v} known h =
    let (h', got) = read_cacheline-Holds i known.0 h in
    rw got (ap (λ l. v ∷ l) (run-cell_run rs known.1 h'))
run-cell_run (write i w ∷ rs) known h =
    run-cell_run rs known.1 (write_cacheline-Holds i w known.0 h)
run-cell_run (evict i ∷ rs) known h = run-cell_run rs known.1 (evict_cacheline-Holds i known.0 h)
