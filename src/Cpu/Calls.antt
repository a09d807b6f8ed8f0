-- ===== src/Cpu/Calls.antt =====
-- src/headware/cpu/isa.c: calls, returns and the frames of functions, over a flat memory.
use csapp_stay.Prelude.{ℕ, ◌+◌, ◌≡◌, refl, ◌∙◌, sym, ap, some, arith}
use mathlib.Core.Path.{subst}
use mathlib.Core.Option.{some_inj}
use csapp_stay.Memory.Address.{va2pa}
use csapp_stay.Memory.Bytes.{load64, load64-store64, load64-store64_apart, load64-bound}
use csapp_stay.Memory.Interface.{Ram, IsFlat}
use csapp_stay.Cpu.{reg, Operand, rbp, rsp, wrap, Cpu}
use csapp_stay.Cpu.Handlers.{
  push_handler, call_handler, ret_handler, leave_handler, mov_handler, clear_flags, set_reg,
  get_reg, decode_operand, reading, done,
}
use csapp_stay.Cpu.Stack.{
  InRange, below, wrap_back, writing-some, reading-some, Pushed, pushed, Pushed-top, Pushed-back,
  push-Pushed,
}

module _ (ram : Ram) where
  -- The last two writes of `leave`, with the word `v` that it has read.
  abbrev left : ℕ → Cpu ram → Cpu ram
  left v c =
      let c₂ = set_reg ram rbp v c in done ram (set_reg ram rsp (wrap (get_reg ram rsp c₂ + 8)) c₂)

  leave-reading :
      (p q : Operand) (c : Cpu ram)
      → leave_handler ram p q c
        ≡ reading ram (set_reg ram rsp (get_reg ram rbp c) c) (get_reg ram rbp c) left
  unfolding leave_handler
  leave-reading p q c =
      let at = load64-store64 c.cpu_reg rsp (get_reg ram rbp c) (load64-bound c.cpu_reg rbp) in
      rw at refl

module _ (ram : Ram) (flat : IsFlat ram) where
  -- A call, whatever its operand, succeeds on a flat memory with the slot in range, pushes the
  -- address of the next instruction, leaves the registers apart from the stack pointer, and goes
  -- to the operand's value.
  pub call-Pushed :
      (p q : Operand) (c : Cpu ram)
      → InRange (below (get_reg ram rsp c))
      → (c' : Cpu ram) × (call_handler ram p q c ≡ some c')
        × (c'.rip ≡ decode_operand c.cpu_reg p)
        × Pushed ram flat (wrap (c.rip + 64)) c c'
  unfolding call_handler
  call-Pushed p q c i =
      let at = load64-store64 c.cpu_reg rsp (below (get_reg ram rsp c)) (omega arith) in
      let (s, e, w) =
        writing-some ram flat (set_reg ram rsp (below (get_reg ram rsp c)) c)
          (below (get_reg ram rsp c)) (wrap (c.rip + 64))
          (λ c₁. clear_flags ram (record c₁ { rip = decode_operand c.cpu_reg p })) i in
      let c' = clear_flags ram (record (set_reg ram rsp (below (get_reg ram rsp c)) c) {
        memory = s;
        rip = decode_operand c.cpu_reg p;
      }) in
      (c', rw at e, refl, pushed ram flat _ c c' refl w)

  -- A call on a flat memory, then any run that leaves the stack pointer and the word at it as the
  -- call did, then a return: the return succeeds, goes on at the instruction after the call, and
  -- the stack pointer is the caller's.
  pub call-ret :
      (p p' q q' : Operand) (c c₁ c₂ : Cpu ram)
      → InRange (below (get_reg ram rsp c))
      → call_handler ram p q c ≡ some c₁
      → get_reg ram rsp c₂ ≡ get_reg ram rsp c₁
      → load64 (flat.view c₂.memory) (va2pa (get_reg ram rsp c₁))
        ≡ load64 (flat.view c₁.memory) (va2pa (get_reg ram rsp c₁))
      → (c₃ : Cpu ram) × (ret_handler ram p' q' c₂ ≡ some c₃)
        × (c₃.rip ≡ wrap (c.rip + 64))
        × (get_reg ram rsp c₃ ≡ get_reg ram rsp c)
  unfolding ret_handler
  call-ret p p' q q' c c₁ c₂ i h k l =
      let (c', e, _, z') = call-Pushed p q c i in
      let z : Pushed ram flat (wrap (c.rip + 64)) c c₁ =
        subst (Pushed ram flat (wrap (c.rip + 64)) c) (some_inj.0 (sym e ∙ h)) z' in
      let (s, e₂, _) =
        reading-some ram flat c₂ (get_reg ram rsp c₂)
          (λ v c'.
            clear_flags ram
              (record (set_reg ram rsp (wrap (get_reg ram rsp c' + 8)) c') { rip = v }))
          (rw (k, z.stack) i) in
      (
        _,
        e₂,
        rw k (l ∙ Pushed-top ram flat _ c c₁ (omega arith) z),
        load64-store64 c₂.cpu_reg rsp _ (omega arith) ∙ rw k (Pushed-back ram flat _ c c₁ z),
      )

  -- A function's frame: `rbp` is where the caller's is stored, just below the caller's stack.
  pub record Framed (c c' : Cpu ram) : Type 0 where
    pub base : get_reg ram rbp c' ≡ below (get_reg ram rsp c)
    pub saved : load64 (flat.view c'.memory) (va2pa (below (get_reg ram rsp c))) ≡ get_reg ram rbp c

  -- push %rbp and mov %rsp, %rbp succeed on a flat memory with the slot in range, and set up a
  -- frame: rbp is the address of the caller's rbp, eight below the caller's stack pointer.
  pub prologue-Framed :
      (p q p' q' : Operand) (c : Cpu ram)
      → (p.type ≡ reg) × (p.reg1 ≡ rbp)
      → (p'.type ≡ reg) × (p'.reg1 ≡ rsp)
      → (q'.type ≡ reg) × (q'.reg1 ≡ rbp)
      → InRange (below (get_reg ram rsp c))
      → (c₁ c₂ : Cpu ram) × (push_handler ram p q c ≡ some c₁)
        × (mov_handler ram p' q' c₁ ≡ some c₂)
        × Framed c c₂
  unfolding mov_handler decode_operand
  prologue-Framed p q p' q' c (t, r) (t', r') (t₂, r₂) i =
      let (c₁, e, z, _) = push-Pushed ram flat p q c t (rw r (omega arith)) i in
      (
        c₁,
        done ram (set_reg ram rbp (get_reg ram rsp c₁) c₁),
        e,
        rw (t', t₂, r', r₂) refl,
        record {
          base = load64-store64 _ rbp _ (load64-bound c₁.cpu_reg rsp) ∙ z.stack;
          saved = rw (z.stored, r) (load64-store64 _ _ _ (load64-bound c.cpu_reg rbp));
        },
      )

  -- From any state in a function's frame, wherever the stack pointer is, leave succeeds on a flat
  -- memory and brings the caller's rbp and rsp back.
  pub leave-Framed :
      (p q : Operand) (c c' : Cpu ram)
      → Framed c c'
      → InRange (below (get_reg ram rsp c))
      → (c₂ : Cpu ram) × (leave_handler ram p q c' ≡ some c₂)
        × (get_reg ram rbp c₂ ≡ get_reg ram rbp c)
        × (get_reg ram rsp c₂ ≡ get_reg ram rsp c)
  leave-Framed p q c c' f i =
      let d = set_reg ram rsp (get_reg ram rbp c') c' in
      let (s, e, _) = reading-some ram flat d (get_reg ram rbp c') (left ram) (rw f.base i) in
      let v = get_reg ram rbp c in
      let at : load64 (flat.view c'.memory) (va2pa (get_reg ram rbp c')) ≡ v = rw f.base f.saved in
      (
        left ram v (record d { memory = s }),
        leave-reading ram p q c' ∙ e ∙ ap (λ w. some (left ram w (record d { memory = s }))) at,
        load64-store64_apart _ rsp rbp _ (omega arith)
            ∙ load64-store64 _ rbp v (load64-bound c.cpu_reg rbp),
        load64-store64 _ rsp _ (omega arith)
            ∙ ap (λ n. wrap (n + 8))
                (load64-store64_apart _ rbp rsp v (omega arith)
                  ∙ load64-store64 _ rsp _ (load64-bound c'.cpu_reg rbp)
                  ∙ f.base)
            ∙ wrap_back _ (load64-bound c.cpu_reg rsp),
      )
