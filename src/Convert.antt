-- ===== src/Convert.antt =====
-- src/common/convert.c: the automaton that reads a decimal or hexadecimal number from text.
-- A text is the list of its bytes, without the final NUL. `none` is the label `fail` or the signed
-- overflow, where the program prints a message and exits.
pub mod Numerals
mod Runs
use csapp_stay.Prelude.{
  ℕ, suc, ◌+◌, ◌-◌, ◌*◌, ◌%◌, ◌^◌, Bool, Option, none, some, List, [], ◌∷◌, ◌++◌, ◌&&◌, ◌||◌, ◌==◌,
  ltb, leb, if◌then◌else◌, take, drop,
}

-- `state`, `uv` and `sign_bit`.
pub record Dfa : Type 0 where
  pub state : ℕ
  pub uv : ℕ
  pub sign_bit : ℕ

abbrev pub dfa : ℕ → ℕ → ℕ → Dfa
dfa state uv sign_bit = record { state = state; uv = uv; sign_bit = sign_bit }

abbrev pub within : ℕ → ℕ → ℕ → Bool
within lo hi c = leb lo c && leb c hi

abbrev pub is_space : ℕ → Bool
is_space c = (c == 32) || (c == 9) || (c == 13) || (c == 10)

-- `uv = uv * base + c - first + ten`, with the test for overflow against the value before.
pub accumulate : ℕ → ℕ → ℕ → ℕ → ℕ → Dfa → Option Dfa
accumulate state base c first ten d =
    let uv = (d.uv * base + c - first + ten) % 2 ^ 64 in
    if ltb uv d.uv then none else some (record d { state = state; uv = uv })

step_start : ℕ → Dfa → Option Dfa
step_start c d =
    if c == b'0'
    then some (record d { state = 1; uv = 0 })
    else if within b'1' b'9' c
    then some (record d { state = 2; uv = c - b'0' })
    else if c == b'-'
    then some (record d { state = 3; sign_bit = 1 })
    else if c == b' '
    then some (record d { state = 0 })
    else none

step_zero : ℕ → Dfa → Option Dfa
step_zero c d =
    if within b'0' b'9' c
    then some (record d { state = 2; uv = (d.uv * 10 + c - b'0') % 2 ^ 64 })
    else if c == b'x'
    then some (record d { state = 4 })
    else if c == b' '
    then some (record d { state = 6 })
    else none

step_decimal : ℕ → Dfa → Option Dfa
unfolding accumulate
step_decimal c d =
    if within b'0' b'9' c
    then accumulate 2 10 c b'0' 0 d
    else if c == b' '
    then some (record d { state = 6 })
    else none

step_sign : ℕ → Dfa → Option Dfa
step_sign c d =
    if c == b'0'
    then some (record d { state = 1 })
    else if within b'1' b'9' c
    then some (record d { state = 2; uv = c - b'0' })
    else none

step_hex : ℕ → Dfa → Option Dfa
unfolding accumulate
step_hex c d =
    if within b'0' b'9' c
    then accumulate 5 16 c b'0' 0 d
    else if within b'a' b'f' c
    then accumulate 5 16 c b'a' 10 d
    else if (d.state == 5) && is_space c
    then some (record d { state = 6 })
    else none

step_end : ℕ → Dfa → Option Dfa
step_end c d = if is_space c then some (record d { state = 6 }) else none

-- One round of the loop.
unfoldable pub step : ℕ → Dfa → Option Dfa
unfolding step_start step_zero step_decimal step_sign step_hex step_end
step c d =
    if d.state == 0
    then step_start c d
    else if d.state == 1
    then step_zero c d
    else if d.state == 2
    then step_decimal c d
    else if d.state == 3
    then step_sign c d
    else if (d.state == 4) || (d.state == 5)
    then step_hex c d
    else if d.state == 6
    then step_end c d
    else some d

unfoldable pub run : List ℕ → Dfa → Option Dfa
run [] d = some d
run (c ∷ cs) d = elim (step c d) [ none ↦ none | some d' ↦ run cs d' ]

-- The sign and the test of the top bit.
pub finish : Dfa → Option ℕ
finish d =
    if d.sign_bit == 0
    then some d.uv
    else if leb (2 ^ 63) d.uv
    then none
    else some ((2 ^ 64 - d.uv) % 2 ^ 64)

pub finish_run : Option Dfa → Option ℕ
unfolding finish
finish_run none = none
finish_run (some d) = finish d

-- `end` is `none` for -1. An `end` past the text reads the NUL, which fails in every state.
pub string2uint_range : List ℕ → ℕ → Option ℕ → Option ℕ
unfolding finish_run
string2uint_range str start end =
    let chars : List ℕ = elim end [
      | none ↦ drop start str
      | some last ↦ take (last + 1 - start) (drop start (str ++ 0 ∷ []))
    ] in
    finish_run (run chars (dfa 0 0 0))

unfoldable pub string2uint : List ℕ → Option ℕ
unfolding string2uint_range
string2uint str = string2uint_range str 0 none
