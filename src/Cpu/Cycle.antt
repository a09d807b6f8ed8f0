-- ===== src/Cpu/Cycle.antt =====
-- src/headware/cpu/isa.c: `instruction_cycle`, over the memory of headware/memory/dram.c. The fetch
-- reads the physical memory itself, past the cache.
use csapp_stay.Prelude.{ℕ, Option, none, some}
use csapp_stay.Memory.Address.{va2pa}
use csapp_stay.Memory.Dram.{cpu_readinst_dram, text_of}
use csapp_stay.Memory.Interface.{dram}
use csapp_stay.Trie.{Trie}
use csapp_stay.Cpu.{Cpu}
use csapp_stay.Cpu.Parser.{parse_instruction}
use csapp_stay.Cpu.Handlers.{execute}

-- `enabled` is DEBUG_ENABLE_SRAM_CACHE. `none` is an exit or a fault of the parser, a failed
-- assertion, or a text without its NUL.
pub instruction_cycle :
    (enabled : ℕ) → Trie → Trie → Cpu (dram enabled) → Option (Cpu (dram enabled))
instruction_cycle enabled registers operators c =
    elim (text_of (cpu_readinst_dram c.memory.pm (va2pa c.rip))) [
      | none ↦ none
      | some str ↦ elim (parse_instruction registers operators str) [
        | none ↦ none
        | some inst ↦ execute (dram enabled) inst c
      ]
    ]
