-- ===== src/Memory/Sram.antt =====
-- src/headware/cpu/sram.c: the set-associative write-back cache, 64 sets of 8 lines of 64 bytes.
-- `Memory` is the static `cache` with the `pm` behind it. `time` is a plain number: the source's
-- `int` would overflow after 2^31 accesses to a set that never touch one of its lines.
pub mod Lines
pub mod Coherent
pub mod Accesses
pub mod Reads
pub mod Writes
mod Runs
use csapp_stay.Prelude.{
  ℕ, zero, suc, ◌+◌, ◌%◌, ◌^◌, Bool, true, false, Option, none, some, ◌&&◌, ◌==◌, ltb, update,
  if◌then◌else◌,
}
use csapp_stay.Memory.Address.{paddr_value, cache_offset, cache_index, cache_tag}
use csapp_stay.Memory.Bytes.{Bytes, bus_read_cacheline, bus_write_cacheline}

-- `CACHE_LINE_INVALID`, `CACHE_LINE_CLEAN`, `CACHE_LINE_DIRTY`.
pub data LineState : Type 0 where
  invalid clean dirty : LineState

pub record CacheLine : Type 0 where
  pub state : LineState
  pub time : ℕ
  pub tag : ℕ
  pub block : Bytes

abbrev pub CacheSet : Type 0
CacheSet = ℕ → CacheLine

pub record Memory : Type 0 where
  pub sets : ℕ → CacheSet
  pub pm : Bytes

abbrev pub num_cache_line_per_set : ℕ
num_cache_line_per_set = 8

abbrev pub is_invalid : LineState → Bool
is_invalid invalid = true
is_invalid _ = false

-- The locals of the first loop. `victim` is the pointer with `max_time`, `none` for NULL and -1.
pub record Scan : Type 0 where
  pub lines : CacheSet
  pub victim : Option (ℕ × ℕ)
  pub free : Option ℕ

abbrev pub older : Option (ℕ × ℕ) → ℕ → Bool
older none time = true
older (some (_, max_time)) time = ltb max_time time

-- One round: the line ages, and may become the victim and the free line.
pub scan_line : ℕ → Scan → Scan
scan_line i s =
    let l = s.lines i in
    let time = l.time + 1 in
    record {
      lines = update s.lines i (record l { time = time });
      victim = if older s.victim time then some (i, time) else s.victim;
      free = if is_invalid l.state then some i else s.free;
    }

pub scan : ℕ → ℕ → Scan → Scan
unfolding scan_line
scan zero i s = s
scan (suc n) i s = scan n (i + 1) (scan_line i s)

abbrev pub hits : CacheLine → ℕ → Bool
hits l tag = if is_invalid l.state then false else l.tag == tag

-- The second loop, with `n` rounds left at line `i`.
pub find_hit : ℕ → ℕ → CacheSet → ℕ → Option ℕ
find_hit zero i lines tag = none
find_hit (suc n) i lines tag =
    let rest = find_hit n (i + 1) lines tag in if hits (lines i) tag then some i else rest

-- How an access ends: at a line that hits, at a free line, at the victim, or at a failed `assert`.
pub data Outcome : Type 0 where
  hit fill evict : ℕ → Outcome
  failed : Outcome

choose_victim : Option (ℕ × ℕ) → Outcome
choose_victim none = failed
choose_victim (some (i, _)) = evict i

choose_free : Option ℕ → Option (ℕ × ℕ) → Outcome
unfolding choose_victim
choose_free none victim = choose_victim victim
choose_free (some i) victim = fill i

choose : Option ℕ → Option ℕ → Option (ℕ × ℕ) → Outcome
unfolding choose_free
choose none free victim = choose_free free victim
choose (some i) free victim = hit i

pub scan_set : CacheSet → Scan
scan_set lines =
    scan num_cache_line_per_set 0 (record { lines = lines; victim = none; free = none })

pub outcome : CacheSet → ℕ → Outcome
unfolding choose
outcome lines tag =
    let s = scan_set lines in choose (find_hit num_cache_line_per_set 0 s.lines tag) s.free s.victim

abbrev pub set_of : Memory → ℕ → CacheSet
set_of m p = m.sets (cache_index p)

abbrev pub put_line : Memory → ℕ → CacheSet → ℕ → CacheLine → Memory
put_line m p lines i l = record m { sets = update m.sets (cache_index p) (update lines i l) }

-- Eviction writes a dirty victim to the line of the address that is accessed.
pub write_back : Memory → ℕ → CacheLine → LineState → Memory
write_back m p l dirty = record m { pm = bus_write_cacheline m.pm p l.block }
write_back m p l _ = m

-- The line after it is loaded from memory for address `p`.
abbrev pub loaded : Bytes → ℕ → CacheLine → CacheLine
loaded pm p l = record {
  state = clean;
  time = 0;
  tag = cache_tag p;
  block = bus_read_cacheline pm p l.block;
}

-- The end of `sram_cache_read`: the memory and the byte, or `none` for a failed assertion.
pub read_at : Memory → ℕ → CacheSet → Outcome → Option (Memory × ℕ)
unfolding write_back
read_at m p lines (hit i) =
    let l = record (lines i) { time = 0 } in some (put_line m p lines i l, l.block (cache_offset p))
read_at m p lines (fill i) =
    let l = loaded m.pm p (lines i) in some (put_line m p lines i l, l.block (cache_offset p))
read_at m p lines (evict i) =
    let m₁ = write_back m p (lines i) (lines i).state in
    let l = loaded m₁.pm p (lines i) in some (put_line m₁ p lines i l, l.block (cache_offset p))
read_at m p lines failed = none

pub sram_cache_read : Memory → ℕ → Option (Memory × ℕ)
unfolding read_at
sram_cache_read m a =
    let p = paddr_value a in
    read_at m p (scan_set (set_of m p)).lines (outcome (set_of m p) (cache_tag p))

-- A line that is written: the byte is stored, the line is dirty and just used.
abbrev pub written : ℕ → ℕ → CacheLine → CacheLine
written p byte l = record {
  state = dirty;
  time = 0;
  tag = l.tag;
  block = update l.block (cache_offset p) byte;
}

pub write_at : Memory → ℕ → ℕ → CacheSet → Outcome → Option Memory
unfolding write_back
write_at m p byte lines (hit i) = some (put_line m p lines i (written p byte (lines i)))
write_at m p byte lines (fill i) =
    some (put_line m p lines i (written p byte (loaded m.pm p (lines i))))
write_at m p byte lines (evict i) =
    let m₁ = write_back m p (lines i) (lines i).state in
    some (put_line m₁ p lines i (written p byte (loaded m₁.pm p (lines i))))
write_at m p byte lines failed = none

pub sram_cache_write : Memory → ℕ → ℕ → Option Memory
unfolding write_at
sram_cache_write m a byte =
    let p = paddr_value a in
    write_at m p byte (scan_set (set_of m p)).lines (outcome (set_of m p) (cache_tag p))
