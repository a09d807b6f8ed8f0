-- ===== src/Memory/Dram.antt =====
-- src/headware/memory/dram.c: the 64-bit accesses of the processor and the instruction fetch.
pub mod Words
pub mod Texts
use mathlib.Core.Option
use csapp_stay.Prelude.{
  ℕ, zero, suc, ◌+◌, ◌-◌, ◌*◌, ◌/◌, ◌%◌, ◌^◌, ◌<◌, Option, none, some, List, [], ◌∷◌, ◌==◌, ltb,
  leb, length, get_elem?, if◌then◌else◌, update,
}
use csapp_stay.Memory.Bytes.{Bytes, load64, store64}
use csapp_stay.Memory.Sram.{Memory, sram_cache_read, sram_cache_write}

-- The macro of headers/common.h that selects the branch of both accesses.
abbrev pub debug_enable_sram_cache : ℕ
debug_enable_sram_cache = 1

abbrev pub max_instruction_char : ℕ
max_instruction_char = 64

-- `(uint64_t)(byte << k)`: the byte is promoted to `int`, so the shift is one of 32 bits. C leaves
-- it undefined where k ≥ 32 or the result does not fit; here it is what x86-64 computes: the count
-- is taken modulo 32, and the 32-bit result is sign-extended.
pub shl_int : ℕ → ℕ → ℕ
shl_int byte k =
    let w = byte * 2 ^ (k % 32) % 2 ^ 32 in if ltb w (2 ^ 31) then w else w + (2 ^ 64 - 2 ^ 32)

-- The loop of the cached branch, with `n` rounds left at byte `i`.
pub read_cached : ℕ → ℕ → Memory → ℕ → ℕ → Option (Memory × ℕ)
read_cached zero i m paddr val = some (m, val)
read_cached (suc n) i m paddr val = elim (sram_cache_read m (paddr + i)) [
  | none ↦ none
  | some (m', byte) ↦ read_cached n (i + 1) m' paddr ((val + shl_int byte (i * 8)) % 2 ^ 64)
]

unfoldable pub cpu_read64bits_dram : ℕ → Memory → ℕ → Option (Memory × ℕ)
cpu_read64bits_dram enabled m paddr =
    if enabled == 1 then read_cached 8 0 m paddr 0 else some (m, load64 m.pm paddr)

pub write_cached : ℕ → ℕ → Memory → ℕ → ℕ → Option Memory
write_cached zero i m paddr word = some m
write_cached (suc n) i m paddr word =
    elim (sram_cache_write m (paddr + i) (word / 2 ^ (i * 8) % 256)) [
      | none ↦ none
      | some m' ↦ write_cached n (i + 1) m' paddr word
    ]

unfoldable pub cpu_write64bits_dram : ℕ → Memory → ℕ → ℕ → Option Memory
cpu_write64bits_dram enabled m paddr word =
    if enabled == 1
    then write_cached 8 0 m paddr word
    else some (record m { pm = store64 m.pm paddr word })

-- `cpu_readinst_dram`: the bytes of `buf`, with `n` rounds left at byte `i`.
pub read_inst : ℕ → ℕ → Bytes → ℕ → List ℕ
read_inst zero i pm paddr = []
read_inst (suc n) i pm paddr = pm (paddr + i) ∷ read_inst n (i + 1) pm paddr

pub cpu_readinst_dram : Bytes → ℕ → List ℕ
unfolding read_inst
cpu_readinst_dram pm paddr = read_inst max_instruction_char 0 pm paddr

abbrev char_at : List ℕ → ℕ → ℕ
char_at str i = elim (get_elem? str i) [ none ↦ 0 | some c ↦ c ]

-- The padded copy of the string, with `n` rounds left at byte `i`.
write_inst : ℕ → ℕ → Bytes → ℕ → List ℕ → Bytes
write_inst zero i pm paddr str = pm
write_inst (suc n) i pm paddr str =
    write_inst n (i + 1) (update pm (paddr + i) (if ltb i (length str) then char_at str i else 0))
      paddr str

-- `none` is the failed `assert(len < MAX_INSTRUCTION_CHAR)`.
pub cpu_writeinst_dram : Bytes → ℕ → List ℕ → Option Bytes
unfolding write_inst
cpu_writeinst_dram pm paddr str =
    if ltb (length str) max_instruction_char
    then some (write_inst max_instruction_char 0 pm paddr str)
    else none

-- The string that starts at the first byte; `none` where no NUL ends it.
pub text_of : List ℕ → Option (List ℕ)
text_of [] = none
text_of (c ∷ cs) = if c == 0 then some [] else Option.map (λ str. c ∷ str) (text_of cs)
