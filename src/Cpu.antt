-- ===== src/Cpu.antt =====
-- src/headware/cpu/isa.c: the processor, its operands and the handlers of its instructions.
-- `cpu_reg` is the array of the 128 bytes of `cpu_reg_t`: a register's address is its offset there,
-- and every access to a register is one of 64 bits, whatever part of it the name means.
pub mod Names
pub mod Parser
pub mod Handlers
pub mod Cycle
pub mod Stack
pub mod Calls
pub mod Conditions
pub mod Jumps
mod Runs
use csapp_stay.Prelude.{ℕ, ◌+◌, ◌-◌, ◌/◌, ◌%◌, ◌^◌, Bool, true, false, ◌==◌}
use csapp_stay.Memory.Bytes.{Bytes}
use csapp_stay.Memory.Interface.{Ram}

-- `op_t` of headers/instruction.h.
pub data Operator : Type 0 where
  mov push pop leave call ret add sub cmp jne jmp : Operator

-- `od_type_t`.
pub data OperandType : Type 0 where
  empty imm reg mem_imm mem_reg1 mem_imm_reg1 mem_reg1_reg2 mem_imm_reg1_reg2 : OperandType
  mem_reg2_scal mem_imm_reg2_scal mem_reg1_reg2_scal mem_imm_reg1_reg2_scal : OperandType

pub record Operand : Type 0 where
  pub type : OperandType
  pub imm_value : ℕ
  pub scal : ℕ
  pub reg1 : ℕ
  pub reg2 : ℕ

pub record Instruction : Type 0 where
  pub op : Operator
  pub src : Operand
  pub dst : Operand

-- Offsets in `cpu_reg_t` that the handlers name.
abbrev pub rbp : ℕ
rbp = 48

abbrev pub rsp : ℕ
rsp = 56

-- The four 16-bit fields of `cpu_flags_t`; writing 0 to `flag_value` clears them all.
pub record Flags : Type 0 where
  pub cf : ℕ
  pub zf : ℕ
  pub sf : ℕ
  pub of : ℕ

abbrev pub no_flags : Flags
no_flags = record { cf = 0; zf = 0; sf = 0; of = 0 }

abbrev pub wrap : ℕ → ℕ
wrap n = n % 2 ^ 64

-- `~n + 1` on `uint64_t`.
abbrev pub negate : ℕ → ℕ
negate n = wrap (2 ^ 64 - 1 - n + 1)

abbrev pub to_nat : Bool → ℕ
to_nat true = 1
to_nat false = 0

abbrev pub sign : ℕ → ℕ
sign n = n / 2 ^ 63 % 2

-- `(src_sign == dst_sign) ^ val_sign`
abbrev pub overflow : ℕ → ℕ → ℕ → ℕ
overflow src_sign dst_sign val_sign = (to_nat (src_sign == dst_sign) + val_sign) % 2

module _ (ram : Ram) where
  pub record Cpu : Type 0 where
    pub cpu_reg : Bytes
    pub cpu_flags : Flags
    pub rip : ℕ
    pub memory : ram.Store
