-- ===== src/Cpu/Parser/Runs.antt =====
-- src/headware/cpu/isa.c: the parser at concrete texts, with small mappings.
use csapp_stay.Prelude.{ℕ, ◌≡◌, refl, ◌-◌, ◌^◌, arith, none, some, List, [], ◌∷◌, inl}
use csapp_stay.Convert.{string2uint}
use csapp_stay.Convert.Numerals.{value_from, string2uint-decimal, string2uint-negative}
use csapp_stay.Trie.{Trie, null, node, trie_insert, trie_get, get_index, with_child}
use csapp_stay.Cpu.{mov, reg}
use csapp_stay.Cpu.Names.{insert_all, try_get_from_trie, lazy_init_trie}
use csapp_stay.Cpu.Names.Lookup.{
  Maps, machine_registers, count_from, instructions, lazy_init_trie-Maps,
}
use csapp_stay.Cpu.Parser.{parse_operand, parse_instruction, operator_of}
use csapp_stay.Cpu.Parser.Splits.{IsWord, NoBlank, IsOperand, instruction_text}
use csapp_stay.Cpu.Parser.Operands.{Plain, parse_instruction-fields}

abbrev rbp_name : List ℕ
rbp_name = b'%' ∷ b'r' ∷ b'b' ∷ b'p' ∷ []

abbrev rcx_name : List ℕ
rcx_name = b'%' ∷ b'r' ∷ b'c' ∷ b'x' ∷ []

abbrev mov_name : List ℕ
mov_name = b'm' ∷ b'o' ∷ b'v' ∷ []

abbrev tree : List (List ℕ × ℕ) → Trie
tree names = elim (insert_all (node (λ i. null) 0 0) names null) [ none ↦ null | some t ↦ t ]

abbrev registers : Trie
registers = tree ((rbp_name, 48) ∷ (rcx_name, 16) ∷ [])

abbrev operators : Trie
operators = tree ((mov_name, 0) ∷ [])

rbp-value : try_get_from_trie registers rbp_name ≡ some 48
unfolding insert_all trie_insert with_child get_index trie_get try_get_from_trie
rbp-value = refl

rcx-value : try_get_from_trie registers rcx_name ≡ some 16
unfolding insert_all trie_insert with_child get_index trie_get try_get_from_trie
rcx-value = refl

mov-value : try_get_from_trie operators mov_name ≡ some 0
unfolding insert_all trie_insert with_child get_index trie_get try_get_from_trie
mov-value = refl

minus_eight : string2uint (b'-' ∷ b'8' ∷ []) ≡ some (2 ^ 64 - 8)
unfolding value_from
minus_eight = string2uint-negative 8 [] (omega arith, tt) (omega arith)

four : string2uint (b'4' ∷ []) ≡ some 4
unfolding value_from
four = string2uint-decimal 4 [] (omega arith, tt) (omega arith)

Plain-eight : Plain (b'-' ∷ b'8' ∷ [])
Plain-eight = (omega arith, omega arith, omega arith, (omega arith, omega arith, omega arith, tt))

Plain-rbp : Plain rbp_name
Plain-rbp = (
  omega arith,
  omega arith,
  omega arith,
  (
    omega arith,
    omega arith,
    omega arith,
    (omega arith, omega arith, omega arith, (omega arith, omega arith, omega arith, tt)),
  ),
)

Plain-rcx : Plain rcx_name
Plain-rcx = (
  omega arith,
  omega arith,
  omega arith,
  (
    omega arith,
    omega arith,
    omega arith,
    (omega arith, omega arith, omega arith, (omega arith, omega arith, omega arith, tt)),
  ),
)

IsWord-mov : IsWord mov_name
IsWord-mov = (
  omega arith,
  omega arith,
  omega arith,
  (omega arith, omega arith, omega arith, (omega arith, omega arith, omega arith, tt)),
)

IsOperand-rbp : IsOperand 0 rbp_name
IsOperand-rbp = (
  (λ e. absurd (omega arith)),
  (
    (λ e. absurd (omega arith)),
    ((λ e. absurd (omega arith)), ((λ e. absurd (omega arith)), inl refl)),
  ),
)

NoBlank-rcx : NoBlank rcx_name
NoBlank-rcx = (omega arith, (omega arith, (omega arith, (omega arith, tt))))

parse_operand-rbp :
    parse_operand registers rbp_name
    ≡ some (record { type = reg; imm_value = 0; scal = 0; reg1 = 48; reg2 = 0 })
unfolding parse_operand
parse_operand-rbp = rw rbp-value refl

parse_operand-rcx :
    parse_operand registers rcx_name
    ≡ some (record { type = reg; imm_value = 0; scal = 0; reg1 = 16; reg2 = 0 })
unfolding parse_operand
parse_operand-rcx = rw rcx-value refl

operator_of-mov : operator_of 0 ≡ some mov
unfolding operator_of
operator_of-mov = refl

lazy_init_trie-Maps_example :
    (r o : Trie) × (lazy_init_trie (node (λ i. null) 0 0) ≡ some (r, o))
    × Maps r machine_registers
    × Maps o (count_from 0 instructions)
lazy_init_trie-Maps_example = lazy_init_trie-Maps 0 0

-- "mov %rbp, %rcx"
parse_instruction-fields_example :
    parse_instruction registers operators (
      instruction_text b'm'
        (b'o' ∷ b'v' ∷ [])
        b'%'
        (b'r' ∷ b'b' ∷ b'p' ∷ [])
        b'%'
        (b'r' ∷ b'c' ∷ b'x' ∷ []))
    ≡ some (record {
      op = mov;
      src = record { type = reg; imm_value = 0; scal = 0; reg1 = 48; reg2 = 0 };
      dst = record { type = reg; imm_value = 0; scal = 0; reg1 = 16; reg2 = 0 };
    })
parse_instruction-fields_example =
    parse_instruction-fields registers operators b'm' (b'o' ∷ b'v' ∷ []) b'%'
      (b'r' ∷ b'b' ∷ b'p' ∷ []) b'%' (b'r' ∷ b'c' ∷ b'x' ∷ []) 0 mov
      (record { type = reg; imm_value = 0; scal = 0; reg1 = 48; reg2 = 0 })
      (record { type = reg; imm_value = 0; scal = 0; reg1 = 16; reg2 = 0 }) IsWord-mov (omega arith)
      IsOperand-rbp (omega arith) NoBlank-rcx (omega arith) (omega arith) (omega arith)
      parse_operand-rbp parse_operand-rcx mov-value operator_of-mov
