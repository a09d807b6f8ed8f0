-- ===== src/Cpu/Jumps.antt =====
-- src/headware/cpu/isa.c: a comparison and the conditional jump that reads its flags.
use csapp_stay.Prelude.{
  ℕ, ◌+◌, ◌^◌, ◌<◌, ◌≡◌, refl, ◌∙◌, ap, some, inl, inr, Bool-cases, ◌==◌, if◌then◌else◌,
}
use csapp_stay.Memory.Address.{va2pa}
use csapp_stay.Memory.Bytes.{load64, load64-bound}
use csapp_stay.Memory.Interface.{Ram, IsFlat}
use csapp_stay.Cpu.{imm, mem_imm, mem_imm_reg1, Operand, wrap, negate, to_nat, no_flags, Cpu}
use csapp_stay.Cpu.Handlers.{
  cmp_handler, jne_handler, next_rip, clear_flags, decode_operand, reading, difference_flags,
}
use csapp_stay.Cpu.Stack.{InRange, reading-some}
use csapp_stay.Cpu.Conditions.{Compared, difference-Compared}

module _ (ram : Ram) where
  -- The state after `cmp` has read the word `v`.
  abbrev compared : ℕ → ℕ → Cpu ram → Cpu ram
  compared n v c =
      next_rip ram (record c { cpu_flags = difference_flags ram n v (wrap (v + negate n)) })

  cmp-reading :
      (p q : Operand) (c : Cpu ram)
      → p.type ≡ imm
      → q.type ≡ mem_imm_reg1
      → cmp_handler ram p q c ≡ reading ram c (decode_operand c.cpu_reg q) (compared p.imm_value)
  unfolding cmp_handler decode_operand
  cmp-reading p q c t t' = rw (t, t') refl

  decode-mem_imm :
      (j : Operand) (c : Cpu ram) → j.type ≡ mem_imm → decode_operand c.cpu_reg j ≡ j.imm_value
  unfolding decode_operand
  decode-mem_imm j c t = rw t refl

  jne-at :
      (j j' : Operand) (c : Cpu ram)
      → j.type ≡ mem_imm
      → (n : ℕ) → c.cpu_flags.zf ≡ n
      → jne_handler ram j j' c
        ≡ some (clear_flags ram (if n == 0 then record c { rip = j.imm_value } else next_rip ram c))
  unfolding jne_handler
  jne-at j j' c t n z =
      let jumped = λ (m : ℕ).
        some
          (clear_flags ram (if m == 0 then record c { rip = j.imm_value } else next_rip ram c)) in
      let step : jne_handler ram j j' c ≡ jumped c.cpu_flags.zf =
        rw (t, decode-mem_imm j c t) refl in
      step ∙ ap jumped z

  -- The jump, where the flags are those of a comparison of `a` with `b`.
  jne-Compared :
      (j j' : Operand) (c : Cpu ram) (a b : ℕ)
      → j.type ≡ mem_imm
      → Compared a b c.cpu_flags
      → (c' : Cpu ram) × (jne_handler ram j j' c ≡ some c')
        × (c'.rip ≡ (if a == b then wrap (c.rip + 64) else j.imm_value))
        × (c'.cpu_reg ≡ c.cpu_reg)
        × (c'.memory ≡ c.memory)
        × (c'.cpu_flags ≡ no_flags)
  jne-Compared j j' c a b t z = elim (Bool-cases (a == b)) [
    | inl e ↦ (
      clear_flags ram (next_rip ram c),
      jne-at j j' c t 1 (z.zero ∙ ap to_nat e),
      rw e refl,
      refl,
      refl,
      refl,
    )
    | inr e ↦ (
      clear_flags ram (record c { rip = j.imm_value }),
      jne-at j j' c t 0 (z.zero ∙ ap to_nat e),
      rw e refl,
      refl,
      refl,
      refl,
    )
  ]

module _ (ram : Ram) (flat : IsFlat ram) where
  -- cmp of an immediate below 2^64 with a word of a flat memory, then jne: both succeed, the zero,
  -- carry and sign flags are those of the comparison, registers and memory are unchanged by cmp,
  -- and the jump is taken exactly where the word differs from the immediate.
  pub cmp-jne :
      (p q j j' : Operand) (c : Cpu ram)
      → p.type ≡ imm
      → q.type ≡ mem_imm_reg1
      → j.type ≡ mem_imm
      → p.imm_value < 2 ^ 64
      → InRange (decode_operand c.cpu_reg q)
      → (let v = load64 (flat.view c.memory) (va2pa (decode_operand c.cpu_reg q)) in
          (c₁ c₂ : Cpu ram) × (cmp_handler ram p q c ≡ some c₁)
          × Compared v p.imm_value c₁.cpu_flags
          × (c₁.cpu_reg ≡ c.cpu_reg)
          × (flat.view c₁.memory ≡ flat.view c.memory)
          × (jne_handler ram j j' c₁ ≡ some c₂)
          × (c₂.rip ≡ (if v == p.imm_value then wrap (wrap (c.rip + 64) + 64) else j.imm_value)))
  cmp-jne p q j j' c t t' u b i =
      let v = load64 (flat.view c.memory) (va2pa (decode_operand c.cpu_reg q)) in
      let (s, e, w) =
        reading-some ram flat c (decode_operand c.cpu_reg q) (compared ram p.imm_value) i in
      let c₁ = compared ram p.imm_value v (record c { memory = s }) in
      let z = difference-Compared ram v p.imm_value (load64-bound _ _) b in
      let (c₂, e₂, r, _, _, _) = jne-Compared ram j j' c₁ v p.imm_value u z in
      (c₁, c₂, cmp-reading ram p q c t t' ∙ e, z, refl, w, e₂, r)
