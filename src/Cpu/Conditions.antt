-- ===== src/Cpu/Conditions.antt =====
-- src/headware/cpu/isa.c: the condition flags of `add`, `sub` and `cmp`.
use csapp_stay.Prelude.{
  ℕ, ◌+◌, ◌-◌, ◌/◌, ◌%◌, ◌^◌, ◌≤◌, ◌<◌, ◌≡◌, refl, ◌∙◌, ap, ◌⊎◌, some, arith, ◌==◌, ltb, leb,
  if◌then◌else◌,
}
use csapp_stay.Memory.Bytes.{load64-store64, load64-store64_apart, load64-bound}
use csapp_stay.Memory.Interface.{Ram}
use csapp_stay.Cpu.{imm, reg, Operand, wrap, negate, to_nat, sign, overflow, Flags, Cpu}
use csapp_stay.Cpu.Handlers.{
  add_handler, sub_handler, next_rip, set_reg, get_reg, decode_operand, difference_flags, sum_flags,
}

-- `a - b` on 64 bits.
abbrev pub difference : ℕ → ℕ → ℕ
difference a b = if leb b a then a - b else a + 2 ^ 64 - b

-- The flags that an unsigned comparison of `a` with `b` is read from.
pub record Compared (a b : ℕ) (f : Flags) : Type 0 where
  pub zero : f.zf ≡ to_nat (a == b)
  pub borrow : f.cf ≡ to_nat (ltb a b)
  pub negative : f.sf ≡ sign (difference a b)

difference-wrap : (a b : ℕ) → a < 2 ^ 64 → b < 2 ^ 64 → wrap (a + negate b) ≡ difference a b
difference-wrap a b ha hb = ground arith

pub difference-Compared :
    (ram : Ram) (a b : ℕ)
    → a < 2 ^ 64
    → b < 2 ^ 64
    → Compared a b (difference_flags ram b a (wrap (a + negate b)))
difference-Compared ram a b ha hb =
    rw (difference-wrap a b ha hb)
      record { zero = ground arith; borrow = ground arith; negative = refl }

-- The state after a sum `val` is stored in `q`, with the flags for the values that are then in the
-- registers.
abbrev added : (ram : Ram) → ℕ → ℕ → ℕ → Cpu ram → Cpu ram
added ram p q val c =
    let c' = set_reg ram q val c in
    next_rip ram (record c' { cpu_flags = sum_flags ram (get_reg ram p c') (get_reg ram q c') val })

abbrev subtracted : (ram : Ram) → ℕ → ℕ → Cpu ram → Cpu ram
subtracted ram n q c =
    let v = get_reg ram q c in
    let d = wrap (v + negate n) in
    next_rip ram (set_reg ram q d (record c { cpu_flags = difference_flags ram n v d }))

sub-subtracted :
    (ram : Ram) (p q : Operand) (c : Cpu ram)
    → p.type ≡ imm
    → q.type ≡ reg
    → sub_handler ram p q c ≡ some (subtracted ram p.imm_value q.reg1 c)
unfolding sub_handler decode_operand
sub-subtracted ram p q c t t' = rw (t, t') refl

add-added :
    (ram : Ram) (p q : Operand) (c : Cpu ram)
    → p.type ≡ reg
    → q.type ≡ reg
    → add_handler ram p q c
      ≡ some (added ram p.reg1 q.reg1 (wrap (get_reg ram p.reg1 c + get_reg ram q.reg1 c)) c)
unfolding add_handler decode_operand
add-added ram p q c t t' = rw (t, t') refl

sum_carry : (a b : ℕ) → b < 2 ^ 64 → ltb (wrap (a + b)) a ≡ leb (2 ^ 64) (a + b)
sum_carry a b h = ground arith

sum_overflow : (a d : ℕ) → overflow (sign a) (sign d) (sign d) ≡ 1 - sign a
sum_overflow a d = ground arith

difference_overflow :
    (n v : ℕ) → n ≤ v → v < 2 ^ 63 → overflow (sign n) (sign v) (sign (wrap (v + negate n))) ≡ 1
difference_overflow n v l h =
    let d : wrap (v + negate n) ≡ v - n = omega arith in rw d (ground arith)

-- sub of an immediate below 2^64 from a register succeeds: the register has the difference modulo
-- 2^64, registers apart from it are unchanged, the zero, carry and sign flags are those of the
-- comparison of the old value with the immediate, and the instruction pointer advances.
pub sub_handler-Compared :
    (ram : Ram) (p q : Operand) (c : Cpu ram)
    → p.type ≡ imm
    → q.type ≡ reg
    → p.imm_value < 2 ^ 64
    → (c' : Cpu ram) × (sub_handler ram p q c ≡ some c')
      × (get_reg ram q.reg1 c' ≡ difference (get_reg ram q.reg1 c) p.imm_value)
      × ((r : ℕ) → (r + 8 ≤ q.reg1) ⊎ (q.reg1 + 8 ≤ r) → get_reg ram r c' ≡ get_reg ram r c)
      × Compared (get_reg ram q.reg1 c) p.imm_value c'.cpu_flags
      × (c'.rip ≡ wrap (c.rip + 64))
sub_handler-Compared ram p q c t t' b =
    let v = get_reg ram q.reg1 c in
    let d = wrap (v + negate p.imm_value) in
    let hv = load64-bound c.cpu_reg q.reg1 in
    (
      subtracted ram p.imm_value q.reg1 c,
      sub-subtracted ram p q c t t',
      load64-store64 c.cpu_reg q.reg1 d (omega arith) ∙ difference-wrap v p.imm_value hv b,
      λ r h. load64-store64_apart c.cpu_reg q.reg1 r d (omega (arith, h)),
      difference-Compared ram v p.imm_value hv b,
      refl,
    )

-- sub of an immediate from a register whose value is at least that and below 2^63 sets the
-- overflow flag, although nothing overflows.
pub sub_handler-of :
    (ram : Ram) (p q : Operand) (c : Cpu ram)
    → p.type ≡ imm
    → q.type ≡ reg
    → p.imm_value ≤ get_reg ram q.reg1 c
    → get_reg ram q.reg1 c < 2 ^ 63
    → (c' : Cpu ram) × (sub_handler ram p q c ≡ some c') × (c'.cpu_flags.of ≡ 1)
sub_handler-of ram p q c t t' l h = (
  subtracted ram p.imm_value q.reg1 c,
  sub-subtracted ram p q c t t',
  difference_overflow _ _ l h,
)

-- add of two registers apart succeeds: the destination has the sum modulo 2^64, carry says that
-- the sum exceeds 64 bits, zero and sign are the sum's, and the instruction pointer advances.
pub add_handler-sum :
    (ram : Ram) (p q : Operand) (c : Cpu ram)
    → p.type ≡ reg
    → q.type ≡ reg
    → (p.reg1 + 8 ≤ q.reg1) ⊎ (q.reg1 + 8 ≤ p.reg1)
    → (let a = get_reg ram p.reg1 c in
        let b = get_reg ram q.reg1 c in
        (c' : Cpu ram) × (add_handler ram p q c ≡ some c')
        × (get_reg ram q.reg1 c' ≡ (a + b) % 2 ^ 64)
        × (c'.cpu_flags.cf ≡ to_nat (leb (2 ^ 64) (a + b)))
        × (c'.cpu_flags.zf ≡ to_nat ((a + b) % 2 ^ 64 == 0))
        × (c'.cpu_flags.sf ≡ (a + b) % 2 ^ 64 / 2 ^ 63)
        × (c'.rip ≡ wrap (c.rip + 64)))
add_handler-sum ram p q c t t' h =
    let a = get_reg ram p.reg1 c in
    let b = get_reg ram q.reg1 c in
    let stored = load64-store64 c.cpu_reg q.reg1 (wrap (a + b)) (omega arith) in
    let kept = load64-store64_apart c.cpu_reg q.reg1 p.reg1 (wrap (a + b)) h in
    let ha = load64-bound c.cpu_reg p.reg1 in
    let hb = load64-bound c.cpu_reg q.reg1 in
    (
      added ram p.reg1 q.reg1 (wrap (a + b)) c,
      add-added ram p q c t t',
      stored,
      rw kept (ap to_nat (sum_carry a b hb)),
      refl,
      omega arith,
      refl,
    )

-- add of two registers apart sets the overflow flag to the negation of the source's sign, whatever
-- the destination.
pub add_handler-of :
    (ram : Ram) (p q : Operand) (c : Cpu ram)
    → p.type ≡ reg
    → q.type ≡ reg
    → (p.reg1 + 8 ≤ q.reg1) ⊎ (q.reg1 + 8 ≤ p.reg1)
    → (c' : Cpu ram) × (add_handler ram p q c ≡ some c')
      × (c'.cpu_flags.of ≡ 1 - sign (get_reg ram p.reg1 c))
add_handler-of ram p q c t t' h =
    let a = get_reg ram p.reg1 c in
    let b = get_reg ram q.reg1 c in
    let stored = load64-store64 c.cpu_reg q.reg1 (wrap (a + b)) (omega arith) in
    let kept = load64-store64_apart c.cpu_reg q.reg1 p.reg1 (wrap (a + b)) h in
    (
      added ram p.reg1 q.reg1 (wrap (a + b)) c,
      add-added ram p q c t t',
      rw (stored, kept) (sum_overflow a (wrap (a + b))),
    )
