-- ===== src/Cpu/Stack.antt =====
-- src/headware/cpu/isa.c: the instructions that move the stack, over a flat memory.
use csapp_stay.Prelude.{ℕ, ◌+◌, ◌-◌, ◌^◌, ◌≤◌, ◌<◌, ◌≡◌, refl, ◌∙◌, ap, ◌⊎◌, some, arith}
use csapp_stay.Memory.Address.{va2pa, physical_memory_space}
use csapp_stay.Memory.Bytes.{load64, store64, load64-store64, load64-store64_apart, load64-bound}
use csapp_stay.Memory.Interface.{Ram, IsFlat}
use csapp_stay.Cpu.{reg, Operand, rsp, wrap, Cpu}
use csapp_stay.Cpu.Handlers.{
  push_handler, pop_handler, set_reg, get_reg, decode_operand, reading, writing, done,
}

-- The eight bytes of a register that are none of the stack pointer's.
abbrev pub Apart : ℕ → ℕ → Type 0
Apart p q = (p + 8 ≤ q) ⊎ (q + 8 ≤ p)

pub wrap_back : (n : ℕ) → n < 2 ^ 64 → wrap (wrap (n + (2 ^ 64 - 8)) + 8) ≡ n
wrap_back n h = omega arith

-- The word at a virtual address lies in the physical memory.
abbrev pub InRange : ℕ → Type 0
InRange a = va2pa a + 8 ≤ physical_memory_space

-- The stack pointer, eight bytes down, and back.
abbrev pub below : ℕ → ℕ
below n = wrap (n + (2 ^ 64 - 8))

module _ (ram : Ram) where
  push-reg :
      (p q : Operand) (c : Cpu ram)
      → p.type ≡ reg
      → Apart p.reg1 rsp
      → push_handler ram p q c ≡ (
          let c' = set_reg ram rsp (below (get_reg ram rsp c)) c in
          writing ram c' (below (get_reg ram rsp c)) (get_reg ram p.reg1 c) (done ram))
  unfolding push_handler decode_operand
  push-reg p q c t h =
      let at = load64-store64 c.cpu_reg rsp (below (get_reg ram rsp c)) (omega arith) in
      let apart = load64-store64_apart c.cpu_reg rsp p.reg1 (below (get_reg ram rsp c)) h in
      rw (t, at, apart) refl

  pop-reg :
      (p q : Operand) (c : Cpu ram)
      → p.type ≡ reg
      → pop_handler ram p q c
        ≡ reading ram c (get_reg ram rsp c) (λ v c'.
          done ram (set_reg ram p.reg1 v (set_reg ram rsp (wrap (get_reg ram rsp c' + 8)) c')))
  unfolding pop_handler decode_operand
  pop-reg p q c t = rw t refl

module _ (ram : Ram) (flat : IsFlat ram) where
  pub writing-some :
      (c : Cpu ram) (a v : ℕ) (k : Cpu ram → Cpu ram)
      → InRange a
      → (s : ram.Store) × (writing ram c a v k ≡ some (k (record c { memory = s })))
        × (flat.view s ≡ store64 (flat.view c.memory) (va2pa a) v)
  writing-some c a v k h =
      let (s, e, w) = flat.write64-view c.memory (va2pa a) v h in (s, rw e refl, w)

  pub reading-some :
      (c : Cpu ram) (a : ℕ) (k : ℕ → Cpu ram → Cpu ram)
      → InRange a
      → (s : ram.Store) × (reading ram c a k
          ≡ some (k (load64 (flat.view c.memory) (va2pa a)) (record c { memory = s })))
        × (flat.view s ≡ flat.view c.memory)
  reading-some c a k h = let (s, e, w) = flat.read64-view c.memory (va2pa a) h in (s, rw e refl, w)

  -- The state after the word `v` is pushed.
  pub record Pushed (v : ℕ) (c c' : Cpu ram) : Type 0 where
    pub stack : get_reg ram rsp c' ≡ below (get_reg ram rsp c)
    pub stored :
        flat.view c'.memory ≡ store64 (flat.view c.memory) (va2pa (below (get_reg ram rsp c))) v
    pub others : (r : ℕ) → Apart r rsp → get_reg ram r c' ≡ get_reg ram r c

  pub pushed :
      (v : ℕ) (c c' : Cpu ram)
      → c'.cpu_reg ≡ store64 c.cpu_reg rsp (below (get_reg ram rsp c))
      → flat.view c'.memory ≡ store64 (flat.view c.memory) (va2pa (below (get_reg ram rsp c))) v
      → Pushed v c c'
  pushed v c c' r w = record {
    stack = ap (λ b. load64 b rsp) r ∙ load64-store64 c.cpu_reg rsp _ (omega arith);
    stored = w;
    others = λ r' h. ap (λ b. load64 b r') r ∙ load64-store64_apart c.cpu_reg rsp r' _ h;
  }

  -- After a pop into `r`, the word is in `r`, and the stack pointer and the others stand as before
  -- the push.
  pub record Popped (v r : ℕ) (c c' : Cpu ram) : Type 0 where
    pub popped : get_reg ram r c' ≡ v
    pub stack_back : get_reg ram rsp c' ≡ get_reg ram rsp c
    pub unchanged : (r' : ℕ) → Apart r' rsp → Apart r' r → get_reg ram r' c' ≡ get_reg ram r' c

  pub push-Pushed :
      (p q : Operand) (c : Cpu ram)
      → p.type ≡ reg
      → Apart p.reg1 rsp
      → InRange (below (get_reg ram rsp c))
      → (c' : Cpu ram) × (push_handler ram p q c ≡ some c')
        × Pushed (get_reg ram p.reg1 c) c c'
        × (c'.rip ≡ wrap (c.rip + 64))
  push-Pushed p q c t h i =
      let (s, e, w) =
        writing-some (set_reg ram rsp (below (get_reg ram rsp c)) c) (below (get_reg ram rsp c))
          (get_reg ram p.reg1 c) (done ram) i in
      (_, push-reg ram p q c t h ∙ e, pushed _ c _ refl w, refl)

  -- The word on top of the stack.
  pub Pushed-top :
      (v : ℕ) (c c' : Cpu ram)
      → v < 2 ^ 64
      → Pushed v c c'
      → load64 (flat.view c'.memory) (va2pa (get_reg ram rsp c')) ≡ v
  Pushed-top v c c' b z = rw (z.stack, z.stored) (load64-store64 _ _ v b)

  pub Pushed-back :
      (v : ℕ) (c c' : Cpu ram) → Pushed v c c' → wrap (get_reg ram rsp c' + 8) ≡ get_reg ram rsp c
  Pushed-back v c c' z = rw z.stack (wrap_back _ (load64-bound c.cpu_reg rsp))

  Popped-Pushed :
      (r v : ℕ) (c₀ c c' : Cpu ram)
      → Apart r rsp
      → v < 2 ^ 64
      → Pushed v c₀ c
      → c'.cpu_reg ≡ store64 (store64 c.cpu_reg rsp (get_reg ram rsp c₀)) r v
      → Popped v r c₀ c'
  Popped-Pushed r v c₀ c c' h b z e = record {
    popped = ap (λ f. load64 f r) e ∙ load64-store64 _ r v b;
    stack_back =
        ap (λ f. load64 f rsp) e
        ∙ load64-store64_apart _ r rsp v (omega (arith, h))
        ∙ load64-store64 c.cpu_reg rsp _ (load64-bound c₀.cpu_reg rsp);
    unchanged = λ r' k l.
        ap (λ f. load64 f r') e
        ∙ load64-store64_apart _ r r' v (omega (arith, l))
        ∙ load64-store64_apart c.cpu_reg rsp r' _ (omega (arith, k))
        ∙ z.others r' k;
  }

  pop-Popped :
      (p q : Operand) (v : ℕ) (c₀ c : Cpu ram)
      → p.type ≡ reg
      → Apart p.reg1 rsp
      → v < 2 ^ 64
      → InRange (below (get_reg ram rsp c₀))
      → Pushed v c₀ c
      → (c' : Cpu ram) × (pop_handler ram p q c ≡ some c') × Popped v p.reg1 c₀ c'
  pop-Popped p q v c₀ c t h b i z =
      let (s, e, w) =
        reading-some c (get_reg ram rsp c)
          (λ v c'.
            done ram (set_reg ram p.reg1 v (set_reg ram rsp (wrap (get_reg ram rsp c' + 8)) c')))
          (rw z.stack i) in
      (
        _,
        pop-reg ram p q c t ∙ e,
        Popped-Pushed p.reg1 v c₀ c _ h b z (rw (Pushed-top v c₀ c b z, Pushed-back v c₀ c z) refl),
      )

  -- A push of a register and a pop into a register, both apart from the stack pointer, on a flat
  -- memory with the slot in range: both succeed, the second register has the first one's word, the
  -- stack pointer is back, every register apart from these is unchanged.
  pub push-pop :
      (p p' q q' : Operand) (c : Cpu ram)
      → p.type ≡ reg
      → p'.type ≡ reg
      → Apart p.reg1 rsp
      → Apart p'.reg1 rsp
      → InRange (below (get_reg ram rsp c))
      → (c₁ c₂ : Cpu ram) × (push_handler ram p q c ≡ some c₁)
        × (pop_handler ram p' q' c₁ ≡ some c₂)
        × Popped (get_reg ram p.reg1 c) p'.reg1 c c₂
  push-pop p p' q q' c t t' h h' i =
      let (c₁, e, z, _) = push-Pushed p q c t h i in
      let (c₂, e', z') = pop-Popped p' q' _ c c₁ t' h' (load64-bound c.cpu_reg p.reg1) i z in
      (c₁, c₂, e, e', z')
