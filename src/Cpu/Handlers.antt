-- ===== src/Cpu/Handlers.antt =====
-- src/headware/cpu/isa.c: `decode_operand`, `next_rip` and the handlers that `handler_table` names.
-- A combination of operands that a handler does not treat leaves the state as it is.
use csapp_stay.Prelude.{ℕ, ◌+◌, ◌-◌, ◌*◌, ◌^◌, Option, some, ◌==◌, ltb, if◌then◌else◌}
use mathlib.Core.Option
use csapp_stay.Memory.Address.{va2pa}
use csapp_stay.Memory.Bytes.{Bytes, load64, store64}
use csapp_stay.Memory.Dram.{max_instruction_char}
use csapp_stay.Memory.Interface.{Ram}
use csapp_stay.Cpu.{
  mov, push, pop, leave, call, ret, add, sub, cmp, jne, jmp, empty, imm, reg, mem_imm, mem_reg1,
  mem_imm_reg1, mem_reg1_reg2, mem_imm_reg1_reg2, mem_reg2_scal, mem_imm_reg2_scal,
  mem_reg1_reg2_scal, mem_imm_reg1_reg2_scal, Operand, Instruction, rbp, rsp, Flags, no_flags, wrap,
  negate, to_nat, sign, overflow, Cpu,
}

-- `decode_operand`: the value of an immediate, the address of a register (its offset here), the
-- virtual address of a memory operand.
unfoldable pub decode_operand : Bytes → Operand → ℕ
decode_operand regs od =
    let at = load64 regs in
    elim od.type [
      | imm ↦ od.imm_value
      | reg ↦ od.reg1
      | empty ↦ 0
      | mem_imm ↦ od.imm_value
      | mem_reg1 ↦ at od.reg1
      | mem_imm_reg1 ↦ wrap (at od.reg1 + od.imm_value)
      | mem_reg1_reg2 ↦ wrap (at od.reg1 + at od.reg2)
      | mem_imm_reg1_reg2 ↦ wrap (at od.reg1 + at od.reg2 + od.imm_value)
      | mem_reg2_scal ↦ wrap (at od.reg2 * od.scal)
      | mem_imm_reg2_scal ↦ wrap (od.imm_value + at od.reg2 * od.scal)
      | mem_reg1_reg2_scal ↦ wrap (at od.reg1 + at od.reg2 * od.scal)
      | mem_imm_reg1_reg2_scal ↦ wrap (od.imm_value + at od.reg1 + at od.reg2 * od.scal)
    ]

module _ (ram : Ram) where
  abbrev pub next_rip : Cpu ram → Cpu ram
  next_rip c = record c { rip = wrap (c.rip + max_instruction_char) }

  abbrev pub clear_flags : Cpu ram → Cpu ram
  clear_flags c = record c { cpu_flags = no_flags }

  -- `*(uint64_t *)r = v`
  abbrev pub set_reg : ℕ → ℕ → Cpu ram → Cpu ram
  set_reg r v c = record c { cpu_reg = store64 c.cpu_reg r v }

  abbrev pub get_reg : ℕ → Cpu ram → ℕ
  get_reg r c = load64 c.cpu_reg r

  -- `cpu_read64bits_dram(va2pa(a))`, and the state that continues with the word.
  abbrev pub reading : Cpu ram → ℕ → (ℕ → Cpu ram → Cpu ram) → Option (Cpu ram)
  reading c a k =
      Option.map (λ (s, v). k v (record c { memory = s })) (ram.read64 c.memory (va2pa a))

  abbrev pub writing : Cpu ram → ℕ → ℕ → (Cpu ram → Cpu ram) → Option (Cpu ram)
  writing c a v k = Option.map (λ s. k (record c { memory = s })) (ram.write64 c.memory (va2pa a) v)

  abbrev pub done : Cpu ram → Cpu ram
  done c = clear_flags (next_rip c)

  unfoldable pub mov_handler : Operand → Operand → Cpu ram → Option (Cpu ram)
  mov_handler src_od dst_od c =
      let src = decode_operand c.cpu_reg src_od in
      let dst = decode_operand c.cpu_reg dst_od in
      elim src_od.type [
        | reg ↦ elim dst_od.type [
          | reg ↦ some (done (set_reg dst (get_reg src c) c))
          | mem_imm_reg1 ↦ writing c dst (get_reg src c) done
          | _ ↦ some c
        ]
        | mem_imm_reg1 ↦ elim dst_od.type [
          | reg ↦ reading c src (λ v c'. done (set_reg dst v c'))
          | _ ↦ some c
        ]
        | imm ↦ elim dst_od.type [ reg ↦ some (done (set_reg dst src c)) | _ ↦ some c ]
        | _ ↦ some c
      ]

  unfoldable pub push_handler : Operand → Operand → Cpu ram → Option (Cpu ram)
  push_handler src_od dst_od c =
      let src = decode_operand c.cpu_reg src_od in
      elim src_od.type [
        | reg ↦
            let c' = set_reg rsp (wrap (get_reg rsp c + (2 ^ 64 - 8))) c in
            writing c' (get_reg rsp c') (get_reg src c') done
        | _ ↦ some c
      ]

  unfoldable pub pop_handler : Operand → Operand → Cpu ram → Option (Cpu ram)
  pop_handler src_od dst_od c =
      let src = decode_operand c.cpu_reg src_od in
      elim src_od.type [
        | reg ↦
            reading c (get_reg rsp c)
              (λ v c'. done (set_reg src v (set_reg rsp (wrap (get_reg rsp c' + 8)) c')))
        | _ ↦ some c
      ]

  unfoldable pub leave_handler : Operand → Operand → Cpu ram → Option (Cpu ram)
  leave_handler src_od dst_od c =
      let c' = set_reg rsp (get_reg rbp c) c in
      reading c' (get_reg rsp c')
        (λ v c₁. let c₂ = set_reg rbp v c₁ in done (set_reg rsp (wrap (get_reg rsp c₂ + 8)) c₂))

  unfoldable pub call_handler : Operand → Operand → Cpu ram → Option (Cpu ram)
  call_handler src_od dst_od c =
      let src = decode_operand c.cpu_reg src_od in
      let c' = set_reg rsp (wrap (get_reg rsp c + (2 ^ 64 - 8))) c in
      writing c' (get_reg rsp c') (wrap (c'.rip + max_instruction_char))
        (λ c₁. clear_flags (record c₁ { rip = src }))

  unfoldable pub ret_handler : Operand → Operand → Cpu ram → Option (Cpu ram)
  ret_handler src_od dst_od c =
      reading c (get_reg rsp c)
        (λ v c'. clear_flags (record (set_reg rsp (wrap (get_reg rsp c' + 8)) c') { rip = v }))

  -- The flags of `src + dst`, as `add_handler` sets them.
  abbrev pub sum_flags : ℕ → ℕ → ℕ → Flags
  sum_flags src dst val = record {
    cf = to_nat (ltb val src);
    zf = to_nat (val == 0);
    sf = sign val;
    of = overflow (sign src) (sign dst) (sign val);
  }

  -- The operands' values for the flags are read after the result has replaced the destination.
  unfoldable pub add_handler : Operand → Operand → Cpu ram → Option (Cpu ram)
  add_handler src_od dst_od c =
      let src = decode_operand c.cpu_reg src_od in
      let dst = decode_operand c.cpu_reg dst_od in
      elim src_od.type [
        | reg ↦ elim dst_od.type [
          | reg ↦
              let val = wrap (get_reg src c + get_reg dst c) in
              let c' = set_reg dst val c in
              let flags = sum_flags (get_reg src c') (get_reg dst c') val in
              some (next_rip (record c' { cpu_flags = flags }))
          | _ ↦ some c
        ]
        | _ ↦ some c
      ]

  -- The flags of `dval - src`, as `sub_handler` and `cmp_handler` set them.
  abbrev pub difference_flags : ℕ → ℕ → ℕ → Flags
  difference_flags src dval val = record {
    cf = to_nat (ltb dval val);
    zf = to_nat (val == 0);
    sf = sign val;
    of = overflow (sign src) (sign dval) (sign val);
  }

  unfoldable pub sub_handler : Operand → Operand → Cpu ram → Option (Cpu ram)
  sub_handler src_od dst_od c =
      let src = decode_operand c.cpu_reg src_od in
      let dst = decode_operand c.cpu_reg dst_od in
      elim src_od.type [
        | imm ↦ elim dst_od.type [
          | reg ↦
              let val = wrap (get_reg dst c + negate src) in
              let c' = record c { cpu_flags = difference_flags src (get_reg dst c) val } in
              some (next_rip (set_reg dst val c'))
          | _ ↦ some c
        ]
        | _ ↦ some c
      ]

  unfoldable pub cmp_handler : Operand → Operand → Cpu ram → Option (Cpu ram)
  cmp_handler src_od dst_od c =
      let src = decode_operand c.cpu_reg src_od in
      let dst = decode_operand c.cpu_reg dst_od in
      elim src_od.type [
        | imm ↦ elim dst_od.type [
          | mem_imm_reg1 ↦ reading c dst (λ dval c'.
              let val = wrap (dval + negate src) in
              next_rip (record c' { cpu_flags = difference_flags src dval val }))
          | _ ↦ some c
        ]
        | _ ↦ some c
      ]

  unfoldable pub jne_handler : Operand → Operand → Cpu ram → Option (Cpu ram)
  jne_handler src_od dst_od c =
      let src = decode_operand c.cpu_reg src_od in
      some (
        clear_flags (elim src_od.type [
          | mem_imm ↦ if c.cpu_flags.zf == 0 then record c { rip = src } else next_rip c
          | _ ↦ c
        ]))

  unfoldable pub jmp_handler : Operand → Operand → Cpu ram → Option (Cpu ram)
  jmp_handler src_od dst_od c =
      let src = decode_operand c.cpu_reg src_od in
      elim src_od.type [ mem_imm ↦ some (clear_flags (record c { rip = src })) | _ ↦ some c ]

  -- `handler_table`, indexed by `inst.op_t`.
  pub execute : Instruction → Cpu ram → Option (Cpu ram)
  execute inst = elim inst.op [
    | mov ↦ mov_handler inst.src inst.dst
    | push ↦ push_handler inst.src inst.dst
    | pop ↦ pop_handler inst.src inst.dst
    | leave ↦ leave_handler inst.src inst.dst
    | call ↦ call_handler inst.src inst.dst
    | ret ↦ ret_handler inst.src inst.dst
    | add ↦ add_handler inst.src inst.dst
    | sub ↦ sub_handler inst.src inst.dst
    | cmp ↦ cmp_handler inst.src inst.dst
    | jne ↦ jne_handler inst.src inst.dst
    | jmp ↦ jmp_handler inst.src inst.dst
  ]
