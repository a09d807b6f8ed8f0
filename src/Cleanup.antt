-- ===== src/Cleanup.antt =====
-- src/common/cleanup.c: the events that run at the end of the program. An event is the address of a
-- function, and NULL is the address 0 or the missing array. `none` is a failed assertion or an access
-- through NULL.
pub mod Orders
mod Runs
use csapp_stay.Prelude.{ℕ, zero, suc, ◌+◌, Option, none, some, List, [], ◌∷◌, ◌==◌, if◌then◌else◌}
use csapp_stay.Array.{Array, array_construct, array_insert, array_get}

infixl 5 ◌>>=◌
abbrev pub ◌>>=◌ {ℓ κ} : {A : Type ℓ} {B : Type κ} → Option A → (A → Option B) → Option B
none >>= f = none
some a >>= f = f a

-- `cleanup_events`, created on demand.
pub opened : (ℕ → ℕ) → Option Array → Array
opened table none = array_construct table 10
opened table (some arr) = arr

-- `table` and `grown` are the blocks that malloc returns.
pub add_cleanup_event : (ℕ → ℕ) → (ℕ → ℕ) → Option Array → ℕ → Option (Option Array)
unfolding opened
add_cleanup_event table grown events func =
    let inserted = array_insert grown (opened table events) func >>= λ arr. some (some arr) in
    if func == 0 then none else inserted

-- The calls, with n rounds left at index i. `call` is what the function at an address does.
pub run_events {ℓ} : {S : Type ℓ} → (ℕ → S → Option S) → Array → ℕ → ℕ → S → Option S
run_events call arr zero i s = some s
run_events call arr (suc n) i s =
    array_get arr i >>= λ func. call func s >>= run_events call arr n (suc i)

-- The array is freed at the end.
pub finally_cleanup {ℓ} :
    {S : Type ℓ} → (ℕ → S → Option S) → Option Array → S → Option (Option Array × S)
unfolding run_events
finally_cleanup call none s = none
finally_cleanup call (some arr) s = run_events call arr arr.count 0 s >>= λ s'. some (none, s')
