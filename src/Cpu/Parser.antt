-- ===== src/Cpu/Parser.antt =====
-- src/headware/cpu/isa.c: `parse_instruction` and `parse_operand`. A text is the list of its bytes,
-- without the final NUL. The source's buffers are never checked: a text that leaves no room for its
-- NUL is `none` here, as are the calls of `exit`.
pub mod Splits
pub mod Operands
mod Runs
use csapp_stay.Prelude.{
  ℕ, zero, suc, ◌+◌, Bool, true, false, not, Option, none, some, List, [], ◌∷◌, ◌++◌, ◌&&◌, ◌||◌,
  ◌==◌, ltb, length, if◌then◌else◌,
}
use mathlib.Core.Option
use csapp_stay.Convert.{string2uint, string2uint_range}
use csapp_stay.Trie.{Trie}
use csapp_stay.Cpu.{
  Operator, mov, push, pop, leave, call, ret, add, sub, cmp, jne, jmp, OperandType, empty, imm, reg,
  mem_imm, mem_reg1, mem_imm_reg1, mem_reg1_reg2, mem_imm_reg1_reg2, mem_reg2_scal,
  mem_imm_reg2_scal, mem_reg1_reg2_scal, mem_imm_reg1_reg2_scal, Operand, Instruction,
}
use csapp_stay.Cpu.Names.{try_get_from_trie}

-- `buffer[len] = c; len++`, where the buffer has `size` bytes and a NUL must follow.
abbrev pub append : ℕ → ℕ → List ℕ → Option (List ℕ)
append size c buffer = if ltb (length buffer + 1) size then some (buffer ++ c ∷ []) else none

-- The locals of the loop of `parse_instruction`.
pub record Split : Type 0 where
  pub state : ℕ
  pub count_parent : ℕ
  pub op_str : List ℕ
  pub src_str : List ℕ
  pub dst_str : List ℕ

abbrev pub is_parent : ℕ → Bool
is_parent c = (c == b'(') || (c == b')')

abbrev pub counted : ℕ → ℕ → ℕ
counted c n = if is_parent c then n + 1 else n

-- The chain of transitions, with the parentheses counted up to `c`.
abbrev pub next_state : ℕ → ℕ → ℕ → ℕ
next_state c count_parent state =
    if (state == 0) && not (c == b' ')
    then 1
    else if (state == 1) && (c == b' ')
    then 2
    else if (state == 2) && not (c == b' ')
    then 3
    else if (state == 3) && (c == b',') && ((count_parent == 0) || (count_parent == 2))
    then 4
    else if (state == 4) && not (c == b' ') && not (c == b',')
    then 5
    else if (state == 5) && (c == b' ')
    then 6
    else state

-- What is stored in the new state; the states 2, 4 and 6, where the loop continues, store nothing.
abbrev pub store_char : ℕ → Split → Option Split
store_char c s =
    if s.state == 1
    then Option.map (λ b. record s { op_str = b }) (append 64 c s.op_str)
    else if s.state == 3
    then Option.map (λ b. record s { src_str = b }) (append 64 c s.src_str)
    else if s.state == 5
    then Option.map (λ b. record s { dst_str = b }) (append 64 c s.dst_str)
    else some s

pub split_char : ℕ → Split → Option Split
split_char c s =
    let n = counted c s.count_parent in
    store_char c (record s { state = next_state c n s.state; count_parent = n })

pub split : List ℕ → Split → Option Split
split [] s = some s
split (c ∷ cs) s = elim (split_char c s) [ none ↦ none | some s' ↦ split cs s' ]

abbrev pub no_split : Split
no_split = record { state = 0; count_parent = 0; op_str = []; src_str = []; dst_str = [] }

-- The buffers and counters of the memory branch of `parse_operand`.
pub record Parts : Type 0 where
  pub parent : ℕ
  pub comma : ℕ
  pub imm_str : List ℕ
  pub reg1_str : List ℕ
  pub reg2_str : List ℕ
  pub scal_str : List ℕ

abbrev pub no_parts : Parts
no_parts = record {
  parent = 0;
  comma = 0;
  imm_str = [];
  reg1_str = [];
  reg2_str = [];
  scal_str = [];
}

abbrev pub part_char : ℕ → Parts → Option Parts
part_char c p =
    if is_parent c
    then some (record p { parent = p.parent + 1 })
    else if c == b','
    then some (record p { comma = p.comma + 1 })
    else if p.parent == 0
    then Option.map (λ b. record p { imm_str = b }) (append 64 c p.imm_str)
    else if p.parent == 1
    then (if p.comma == 0
        then Option.map (λ b. record p { reg1_str = b }) (append 8 c p.reg1_str)
        else if p.comma == 1
        then Option.map (λ b. record p { reg2_str = b }) (append 8 c p.reg2_str)
        else if p.comma == 2
        then Option.map (λ b. record p { scal_str = b }) (append 2 c p.scal_str)
        else some p)
    else some p

pub parts : List ℕ → Parts → Option Parts
parts [] p = some p
parts (c ∷ cs) p = elim (part_char c p) [ none ↦ none | some p' ↦ parts cs p' ]

abbrev pub no_operand : Operand
no_operand = record { type = empty; imm_value = 0; scal = 0; reg1 = 0; reg2 = 0 }

abbrev pub given : List ℕ → Bool
given s = ltb 0 (length s)

-- `if (len > 0) od->field = f(buffer)`, where the field is 0 otherwise.
abbrev pub value_of : List ℕ → (List ℕ → Option ℕ) → Option ℕ
value_of s f = if given s then f s else some 0

-- `string2uint` of the scale, which must be 1, 2, 4 or 8.
abbrev pub scale_of : List ℕ → Option ℕ
scale_of s = elim (string2uint s) [
  | none ↦ none
  | some n ↦ if (n == 1) || (n == 2) || (n == 4) || (n == 8) then some n else none
]

-- The type that the counters and lengths select; with three commas or more it stays EMPTY.
abbrev pub memory_type : Parts → OperandType
memory_type p =
    if p.comma == 0
    then (if given p.imm_str then mem_imm_reg1 else mem_reg1)
    else if p.comma == 1
    then (if given p.imm_str then mem_imm_reg1_reg2 else mem_reg1_reg2)
    else if p.comma == 2
    then (if given p.reg1_str
        then (if given p.imm_str then mem_imm_reg1_reg2_scal else mem_reg1_reg2_scal)
        else if given p.imm_str
        then mem_imm_reg2_scal
        else mem_reg2_scal)
    else empty

module _ (registers : Trie) where
  pub memory_operand : Parts → Option Operand
  memory_operand p = elim (value_of p.imm_str string2uint) [
    | none ↦ none
    | some i ↦
        if given p.imm_str && (p.parent == 0)
        then some (record no_operand { type = mem_imm; imm_value = i })
        else elim (value_of p.scal_str scale_of) [
          | none ↦ none
          | some s ↦ elim (value_of p.reg1_str (try_get_from_trie registers)) [
            | none ↦ none
            | some r ↦ elim (value_of p.reg2_str (try_get_from_trie registers)) [
              | none ↦ none
              | some r' ↦
                  some
                    (record { type = memory_type p; imm_value = i; scal = s; reg1 = r; reg2 = r' })
            ]
          ]
        ]
  ]

  pub parse_operand : List ℕ → Option Operand
  unfolding memory_operand parts
  parse_operand [] = some no_operand
  parse_operand (c ∷ cs) =
      if c == b'$'
      then Option.map (λ n. record no_operand { type = imm; imm_value = n })
          (string2uint_range (c ∷ cs) 1 none)
      else if c == b'%'
      then Option.map (λ r. record no_operand { type = reg; reg1 = r })
          (try_get_from_trie registers (c ∷ cs))
      else elim (parts (c ∷ cs) no_parts) [ none ↦ none | some p ↦ memory_operand p ]

-- `(op_t)val`; the table of operators has no other numbers.
pub operator_of : ℕ → Option Operator
operator_of zero = some mov
operator_of (suc zero) = some push
operator_of (suc (suc n)) =
    if n == 0
    then some pop
    else if n == 1
    then some leave
    else if n == 2
    then some call
    else if n == 3
    then some ret
    else if n == 4
    then some add
    else if n == 5
    then some sub
    else if n == 6
    then some cmp
    else if n == 7
    then some jne
    else if n == 8
    then some jmp
    else none

module _ (registers operators : Trie) where
  pub parse_strings : Split → Option Instruction
  unfolding operator_of
  parse_strings s = elim (parse_operand registers s.src_str) [
    | none ↦ none
    | some src ↦ elim (parse_operand registers s.dst_str) [
      | none ↦ none
      | some dst ↦ elim (try_get_from_trie operators s.op_str) [
        | none ↦ none
        | some n ↦ Option.map (λ op. record { op = op; src = src; dst = dst }) (operator_of n)
      ]
    ]
  ]

  pub parse_instruction : List ℕ → Option Instruction
  unfolding parse_strings split
  parse_instruction str = elim (split str no_split) [ none ↦ none | some s ↦ parse_strings s ]
