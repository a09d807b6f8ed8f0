-- ===== src/Cpu/Runs.antt =====
-- src/headware/cpu/isa.c at concrete inputs: the stack pointer at 4096, 700 in `rbx`, and the
-- memory without its cache.
use csapp_stay.Prelude.{ℕ, ◌≡◌, refl, arith, some, inl}
use csapp_stay.Memory.Address.{va2pa}
use csapp_stay.Memory.Bytes.{Bytes, load64, store64}
use csapp_stay.Memory.Sram.{CacheLine, Memory}
use csapp_stay.Memory.Sram
use csapp_stay.Memory.Interface.{dram, dram-IsFlat}
use csapp_stay.Cpu.{reg, mem_imm, OperandType, Operand, rbp, rsp, no_flags, Cpu}
use csapp_stay.Cpu.Handlers.{push_handler, pop_handler, ret_handler, get_reg}
use csapp_stay.Cpu.Stack.{InRange, below, Popped, push-pop}
use csapp_stay.Cpu.Calls.{Framed, call-Pushed, call-ret}

abbrev rbx : ℕ
rbx = 8

abbrev rcx : ℕ
rcx = 16

abbrev operand : OperandType → ℕ → ℕ → Operand
operand t i r = record { type = t; imm_value = i; scal = 0; reg1 = r; reg2 = 0 }

abbrev registers : Bytes
registers = store64 (store64 (λ k. 0) rsp 4096) rbx 700

abbrev memory : Memory
memory = record {
  sets =
      λ i k. record { state = csapp_stay.Memory.Sram.invalid; time = 0; tag = 0; block = λ j. 0 };
  pm = λ k. 0;
}

abbrev c : Cpu (dram 0)
c = record { cpu_reg = registers; cpu_flags = no_flags; rip = 4194304; memory = memory }

c-InRange : InRange (below (get_reg (dram 0) rsp c))
unfolding va2pa load64 store64
c-InRange = omega arith

push-pop_example :
    (c₁ c₂ : Cpu (dram 0)) × (push_handler (dram 0) (operand reg 0 rbx) (operand reg 0 0) c
      ≡ some c₁)
    × (pop_handler (dram 0) (operand reg 0 rcx) (operand reg 0 0) c₁ ≡ some c₂)
    × Popped (dram 0) dram-IsFlat (get_reg (dram 0) rbx c) rcx c c₂
push-pop_example =
    push-pop (dram 0) dram-IsFlat (operand reg 0 rbx) (operand reg 0 rcx) (operand reg 0 0)
      (operand reg 0 0) c refl refl (inl (omega arith)) (inl (omega arith)) c-InRange

abbrev called : Cpu (dram 0)
called =
    (call-Pushed (dram 0) dram-IsFlat (operand mem_imm 4200000 0) (operand mem_imm 0 0) c
      c-InRange).0

-- A function that returns at once.
call-ret_example :
    (c₃ : Cpu (dram 0)) × (ret_handler (dram 0) (operand mem_imm 0 0) (operand mem_imm 0 0) called
      ≡ some c₃)
    × (c₃.rip ≡ 4194368)
    × (get_reg (dram 0) rsp c₃ ≡ get_reg (dram 0) rsp c)
call-ret_example =
    call-ret (dram 0) dram-IsFlat (operand mem_imm 4200000 0) (operand mem_imm 0 0)
      (operand mem_imm 0 0) (operand mem_imm 0 0) c called called c-InRange
      (call-Pushed (dram 0) dram-IsFlat (operand mem_imm 4200000 0) (operand mem_imm 0 0) c
        c-InRange).1
      refl refl

-- `rbp` at 4088, where the memory has the caller's, which is 0.
abbrev framed : Cpu (dram 0)
framed = record c { cpu_reg = store64 registers rbp 4088 }

framed-Framed : Framed (dram 0) dram-IsFlat c framed
unfolding va2pa load64 store64
framed-Framed = record { base = refl; saved = refl }
