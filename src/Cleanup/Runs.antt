-- ===== src/Cleanup/Runs.antt =====
-- src/common/cleanup.c: the theorem at a concrete input.
use csapp_stay.Prelude.{ℕ, ◌≡◌, refl, arith, Option, none, some, List, [], ◌∷◌, ◌++◌}
use csapp_stay.Array.{Array}
use csapp_stay.Cleanup.{◌>>=◌, add_cleanup_event, finally_cleanup}
use csapp_stay.Cleanup.Orders.{
  nothing, added, Lists, run_all, add_cleanup_event-Lists, finally_cleanup-Added,
}

-- Two events, at 7 and 9.
first :
    (arr : Array) × (add_cleanup_event (λ _. 0) (λ _. 0) none 7 ≡ some (some arr))
    × Lists arr (7 ∷ [])
first =
    add_cleanup_event-Lists (λ _. 0) (λ _. 0) none [] 7 refl (omega arith)
      (λ e. absurd (omega arith))

second :
    (arr : Array) × (add_cleanup_event (λ _. 0) (λ _. 0) (some first.0) 9 ≡ some (some arr))
    × Lists arr (7 ∷ 9 ∷ [])
second =
    add_cleanup_event-Lists (λ _. 0) (λ _. 0) (some first.0) (7 ∷ []) 9 first.2 (omega arith)
      (λ e. absurd (omega arith))

-- A call adds its address to a trace.
abbrev trace : ℕ → List ℕ → Option (List ℕ)
trace f fs = some (fs ++ f ∷ [])

finally_cleanup-Added_example :
    finally_cleanup trace (some second.0) []
    ≡ (run_all trace (7 ∷ 9 ∷ []) [] >>= λ s. some (none, s))
finally_cleanup-Added_example =
    finally_cleanup-Added trace 7 (9 ∷ []) (some second.0) []
      (added (λ _. 0) (λ _. 0) 9 (added (λ _. 0) (λ _. 0) 7 nothing first.1) second.1) (omega arith)

trace_lem : run_all trace (7 ∷ 9 ∷ []) [] ≡ some (7 ∷ 9 ∷ [])
unfolding run_all
trace_lem = refl
