-- ===== src/Mesi.antt =====
-- src/headware/cpu/mesi.c: the MESI protocol for one line in the caches of five processors.
-- The globals `cache` and `mem_value` are the record `Machine`. An `int` value is only copied.
pub mod Counts
pub mod Bus
pub mod Coherence
pub mod Reads
pub mod Writes
pub mod Evicts
pub mod Run
mod Runs
use csapp_stay.Prelude.{
  ℕ, zero, suc, ◌+◌, ◌-◌, Option, none, some, ◌&&◌, ◌||◌, ◌==◌, leb, if◌then◌else◌, update,
}

pub data State : Type 0 where
  modified exclusive shared invalid : State

pub record Line : Type 0 where
  pub state : State
  pub value : ℕ

abbrev pub line : State → ℕ → Line
line s v = record { state = s; value = v }

pub record Machine : Type 0 where
  pub cache : ℕ → Line
  pub mem_value : ℕ

abbrev pub num_processor : ℕ
num_processor = 5

abbrev pub set_line : Machine → ℕ → Line → Machine
set_line m i l = record m { cache = update m.cache i l }

abbrev pub is : State → State → ℕ
is modified modified = 1
is exclusive exclusive = 1
is shared shared = 1
is invalid invalid = 1
is _ _ = 0

-- The four counters of the loop in `check_state`, one at a time: lines `j < n` in state `s`.
pub count : State → (ℕ → Line) → ℕ → ℕ
count s c zero = 0
count s c (suc n) = count s c n + is s (c n).state

pub check_state : Machine → ℕ
check_state m =
    let m_count = count modified m.cache num_processor in
    let e_count = count exclusive m.cache num_processor in
    let s_count = count shared m.cache num_processor in
    let i_count = count invalid m.cache num_processor in
    if ((m_count == 1) && (i_count == num_processor - 1))
      || ((e_count == 1) && (i_count == num_processor - 1))
      || (leb 2 s_count && (i_count == num_processor - s_count))
      || (i_count == num_processor)
    then 1
    else 0

-- The machine after a call, what was stored in `*read_value`, and the returned flag.
pub record Read : Type 0 where
  pub machine : Machine
  pub read_value : ℕ
  pub related : ℕ

abbrev pub hit : Machine → ℕ → Read
hit m v = record { machine = m; read_value = v; related = 1 }

-- What one round of the bus loop does at another processor's line; `none` goes on with the loop.
pub read_snoop : ℕ → ℕ → Machine → State → Option Read
read_snoop i j m modified =
    let v = (m.cache j).value in
    let m₁ = record (set_line m j (line shared v)) { mem_value = v } in
    some (hit (set_line m₁ i (line shared v)) v)
read_snoop i j m exclusive =
    let v = (m.cache j).value in
    let m₁ = set_line m i (line shared v) in some (hit (set_line m₁ j (line shared v)) v)
read_snoop i j m shared = let v = (m.cache j).value in some (hit (set_line m i (line shared v)) v)
read_snoop i j m invalid = none

-- The loop, with `n` rounds left at index `j`, and what follows it.
pub read_miss : ℕ → ℕ → ℕ → Machine → Read
read_miss i zero j m = hit (set_line m i (line exclusive m.mem_value)) m.mem_value
read_miss i (suc n) j m =
    let rest = read_miss i n (j + 1) m in
    if i == j then rest else elim (read_snoop i j m (m.cache j).state) [ none ↦ rest | some r ↦ r ]

read_state : ℕ → Machine → State → Read
read_state i m invalid = read_miss i num_processor 0 m
read_state i m _ = hit m (m.cache i).value

pub read_cacheline : ℕ → Machine → Read
unfolding read_state
read_cacheline i m = read_state i m (m.cache i).state

-- `for (j ...) if (j != i) cache[j] = invalid, 0`, with `n` rounds left at index `j`.
pub invalidate_others : ℕ → ℕ → ℕ → Machine → Machine
invalidate_others i zero j m = m
invalidate_others i (suc n) j m =
    invalidate_others i n (j + 1) (if i == j then m else set_line m j (line invalid 0))

pub write_snoop : ℕ → ℕ → ℕ → Machine → State → Option Machine
unfolding invalidate_others
write_snoop i w j m modified =
    let m₁ = record (set_line m j (line invalid 0)) { mem_value = (m.cache j).value } in
    let m₂ = set_line m₁ i (line (m₁.cache i).state m₁.mem_value) in
    some (set_line m₂ i (line modified w))
write_snoop i w j m exclusive = some (set_line (set_line m j (line invalid 0)) i (line modified w))
write_snoop i w j m shared =
    some (set_line (invalidate_others i num_processor 0 m) i (line modified w))
write_snoop i w j m invalid = none

pub write_miss : ℕ → ℕ → ℕ → ℕ → Machine → Machine
write_miss i w zero j m =
    let m₁ = set_line m i (line (m.cache i).state m.mem_value) in set_line m₁ i (line modified w)
write_miss i w (suc n) j m =
    let rest = write_miss i w n (j + 1) m in
    if i == j
    then rest
    else elim (write_snoop i w j m (m.cache j).state) [ none ↦ rest | some m' ↦ m' ]

write_state : ℕ → ℕ → Machine → State → Machine
write_state i w m modified = set_line m i (line modified w)
write_state i w m exclusive = set_line m i (line modified w)
write_state i w m shared = set_line (invalidate_others i num_processor 0 m) i (line modified w)
write_state i w m invalid = write_miss i w num_processor 0 m

-- The new machine and the returned flag, 1 on every path.
pub write_cacheline : ℕ → ℕ → Machine → Machine × ℕ
unfolding write_state
write_cacheline i w m = (write_state i w m (m.cache i).state, 1)

-- `s_count` is `count shared`; `last_s` is the last shared index, here with -1 as `none`.
pub last_shared : (ℕ → Line) → ℕ → Option ℕ
last_shared c zero = none
last_shared c (suc n) = if is shared (c n).state == 1 then some n else last_shared c n

-- `cache[last_s].state = EXCLUSIVE`; with `last_s` -1 the write would be out of bounds.
promote : Machine → Option ℕ → Machine
promote m none = m
promote m (some j) = set_line m j (line exclusive (m.cache j).value)

evict_state : ℕ → Machine → State → Machine × ℕ
unfolding promote
evict_state i m modified =
    let m₁ = record m { mem_value = (m.cache i).value } in (set_line m₁ i (line invalid 0), 1)
evict_state i m exclusive = (set_line m i (line invalid 0), 1)
evict_state i m shared =
    let m₁ = set_line m i (line invalid 0) in
    (
      if count shared m₁.cache num_processor == 1
          then promote m₁ (last_shared m₁.cache num_processor)
          else m₁,
      1,
    )
evict_state i m invalid = (m, 0)

pub evict_cacheline : ℕ → Machine → Machine × ℕ
unfolding evict_state
evict_cacheline i m = evict_state i m (m.cache i).state
