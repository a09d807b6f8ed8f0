-- ===== src/Mesi/Runs.antt =====
-- src/headware/cpu/mesi.c at concrete inputs: the five caches as `main` starts them.
use csapp_stay.Prelude.{◌≡◌, ◌+◌, ◌*◌, ◌↔◌, arith, List, [], ◌∷◌, true}
use csapp_stay.Mesi.{check_state, read_cacheline, write_cacheline}
use csapp_stay.Mesi.Counts.{IsShape, check_state-IsShape}
use csapp_stay.Mesi.Coherence.{Holds}
use csapp_stay.Mesi.Reads.{read_cacheline-Holds}
use csapp_stay.Mesi.Writes.{write_cacheline-Holds}
use csapp_stay.Mesi.Run.{
  start, start-Holds, main, main-true, Request, Known, read, write, evict, run, cell_run,
  run-cell_run,
}

abbrev requests : List Request
requests = read 0 ∷ write 3 7 ∷ read 0 ∷ read 4 ∷ evict 3 ∷ evict 0 ∷ write 4 9 ∷ read 3 ∷ []

ok : Known requests
ok = (
  omega arith,
  (
    omega arith,
    (omega arith, (omega arith, (omega arith, (omega arith, (omega arith, (omega arith, tt)))))),
  ),
)

run-cell_run_example : run requests start ≡ cell_run requests 15213
run-cell_run_example = run-cell_run requests ok start-Holds

main-true_example : main (λ k. k * k + 3) ≡ true
main-true_example = main-true (λ k. k * k + 3)

write_cacheline-Holds_example : Holds 7 (write_cacheline 3 7 start).0
write_cacheline-Holds_example = write_cacheline-Holds 3 7 (omega arith) start-Holds

read_cacheline-Holds_example :
    Holds 15213 (read_cacheline 2 start).machine × ((read_cacheline 2 start).read_value ≡ 15213)
read_cacheline-Holds_example = read_cacheline-Holds 2 (omega arith) start-Holds

check_state-IsShape_example : (check_state start ≡ 1) ↔ IsShape start.cache
check_state-IsShape_example = check_state-IsShape start
