-- ===== src/Cpu/Parser/Operands.antt =====
-- src/headware/cpu/isa.c: what `parse_operand` and `parse_instruction` make of well-formed texts.
use csapp_stay.Prelude.{
  ℕ, ◌+◌, ◌<◌, ◌≡◌, ◌≢◌, refl, ◌∙◌, sym, ap, arith, Option, some, List, [], ◌∷◌, ◌++◌, length,
  length-append, append_assoc, append-nil, true, false, ◌==◌, ◌&&◌,
}
use csapp_stay.Convert.{string2uint}
use csapp_stay.Trie.{Trie}
use csapp_stay.Cpu.{Operator, Operand, mem_imm_reg1, mem_imm_reg1_reg2_scal}
use csapp_stay.Cpu.Names.{try_get_from_trie}
use csapp_stay.Cpu.Parser.{
  Parts, parts, part_char, no_parts, memory_operand, parse_operand, scale_of, given, value_of,
  memory_type, operator_of, parse_strings, parse_instruction,
}
use csapp_stay.Cpu.Parser.Splits.{
  IsWord, IsOperand, NoBlank, instruction_text, split-instruction_text,
}

abbrev pub Plain : List ℕ → Type 0
Plain [] = Unit
Plain (c ∷ cs) = (c ≢ b'(') × (c ≢ b')') × (c ≢ b',') × Plain cs

parts-step :
    (c : ℕ) (cs : List ℕ) (p p' : Parts) → part_char c p ≡ some p' → parts (c ∷ cs) p ≡ parts cs p'
unfolding parts
parts-step c cs p p' e = rw (e, parts) refl

-- A plain text, where its characters go to one buffer of the parts `k`.
text_run :
    (size : ℕ) (k : List ℕ → Parts)
    → ((c : ℕ) (b : List ℕ)
        → c ≢ b'('
        → c ≢ b')'
        → c ≢ b','
        → length b + 1 < size
        → part_char c (k b) ≡ some (k (b ++ c ∷ [])))
    → (cs rest b : List ℕ) → Plain cs
    → length b + length cs < size
    → parts (cs ++ rest) (k b) ≡ parts rest (k (b ++ cs))
text_run size k step [] rest b h l = ap (λ t. parts rest (k t)) (sym (append-nil b))
text_run size k step (c ∷ cs) rest b (n, m, o, h) l =
    let e = length-append b (c ∷ []) in
    parts-step c (cs ++ rest) _ _ (step c b n m o (omega arith))
    ∙ text_run size k step cs rest (b ++ c ∷ []) h (omega arith)
    ∙ ap (λ t. parts rest (k t)) (append_assoc b (c ∷ []) cs)

abbrev parts_of : ℕ → ℕ → List ℕ → List ℕ → List ℕ → List ℕ → Parts
parts_of p c i r r' s = record {
  parent = p;
  comma = c;
  imm_str = i;
  reg1_str = r;
  reg2_str = r';
  scal_str = s;
}

imm_run :
    (cs rest : List ℕ)
    → Plain cs
    → length cs < 64
    → parts (cs ++ rest) no_parts ≡ parts rest (parts_of 0 0 cs [] [] [])
imm_run cs rest h l =
    text_run 64 (λ b. parts_of 0 0 b [] [] []) (λ c b n m o l. ground arith) cs rest [] h
      (omega arith)

reg1_run :
    (cs rest i : List ℕ)
    → Plain cs
    → length cs < 8
    → parts (cs ++ rest) (parts_of 1 0 i [] [] []) ≡ parts rest (parts_of 1 0 i cs [] [])
reg1_run cs rest i h l =
    text_run 8 (λ b. parts_of 1 0 i b [] []) (λ c b n m o l. ground arith) cs rest [] h
      (omega arith)

reg2_run :
    (cs rest i r : List ℕ)
    → Plain cs
    → length cs < 8
    → parts (cs ++ rest) (parts_of 1 1 i r [] []) ≡ parts rest (parts_of 1 1 i r cs [])
reg2_run cs rest i r h l =
    text_run 8 (λ b. parts_of 1 1 i r b []) (λ c b n m o l. ground arith) cs rest [] h (omega arith)

-- `imm(reg1)`.
parts-imm_reg1 :
    (i r : List ℕ)
    → Plain i
    → length i < 64
    → Plain r
    → length r < 8
    → parts (i ++ b'(' ∷ (r ++ b')' ∷ [])) no_parts ≡ some (parts_of 2 0 i r [] [])
unfolding parts
parts-imm_reg1 i r hi li hr lr = imm_run i _ hi li ∙ reg1_run r (b')' ∷ []) i hr lr

-- `imm(reg1,reg2,scal)`.
parts-full :
    (i r r' : List ℕ) (s : ℕ)
    → Plain i
    → length i < 64
    → Plain r
    → length r < 8
    → Plain r'
    → length r' < 8
    → Plain (s ∷ [])
    → parts (i ++ b'(' ∷ (r ++ b',' ∷ (r' ++ b',' ∷ s ∷ b')' ∷ []))) no_parts
      ≡ some (parts_of 2 2 i r r' (s ∷ []))
unfolding parts
parts-full i r r' s hi li hr lr hr' lr' (k, l, m, _) =
    let e : part_char s (parts_of 1 2 i r r' []) ≡ some (parts_of 1 2 i r r' (s ∷ [])) =
      ground arith in
    imm_run i _ hi li
    ∙ reg1_run r _ i hr lr
    ∙ reg2_run r' _ i r hr' lr'
    ∙ parts-step s (b')' ∷ []) (parts_of 1 2 i r r' []) _ e

given-cons : (c : ℕ) (cs : List ℕ) → given (c ∷ cs) ≡ true
given-cons c cs = ground arith

module _ (registers : Trie) where
  parse_operand-parts :
      (c : ℕ) (cs : List ℕ) (p : Parts)
      → c ≢ b'$'
      → c ≢ b'%'
      → parts (c ∷ cs) no_parts ≡ some p
      → parse_operand registers (c ∷ cs) ≡ memory_operand registers p
  unfolding parse_operand
  parse_operand-parts c cs p h k e =
      let d : (c == b'$') ≡ false = ground arith in
      let d' : (c == b'%') ≡ false = ground arith in rw (d, d', e) refl

  -- The values of the parts, where the parts with a text have one.
  memory_operand_lem :
      (p : Parts) (i s r r' : ℕ)
      → 0 < p.parent
      → value_of p.imm_str string2uint ≡ some i
      → value_of p.scal_str scale_of ≡ some s
      → value_of p.reg1_str (try_get_from_trie registers) ≡ some r
      → value_of p.reg2_str (try_get_from_trie registers) ≡ some r'
      → memory_operand registers p
        ≡ some (record { type = memory_type p; imm_value = i; scal = s; reg1 = r; reg2 = r' })
  unfolding memory_operand
  memory_operand_lem p i s r r' h ei es er er' =
      let z : (given p.imm_str && (p.parent == 0)) ≡ false = ground arith in
      rw (memory_operand, ei, z, es, er, er') refl

  value_of-cons : (c : ℕ) (cs : List ℕ) (f : List ℕ → Option ℕ) → value_of (c ∷ cs) f ≡ f (c ∷ cs)
  value_of-cons c cs f = rw (given-cons c cs) refl

  module _ (c : ℕ) (cs : List ℕ) (d : ℕ) (ds : List ℕ) (n a : ℕ) where
    -- A memory operand imm(reg1), whose number and register name are not empty, fit their buffers,
    -- have a value, contain no punctuation, where the number starts with neither $ nor %, is
    -- parsed into the type MEM_IMM_REG1 with their values.
    pub parse_operand-imm_reg1 :
        c ≢ b'$'
        → c ≢ b'%'
        → Plain (c ∷ cs)
        → length cs < 63
        → Plain (d ∷ ds)
        → length ds < 7
        → string2uint (c ∷ cs) ≡ some n
        → try_get_from_trie registers (d ∷ ds) ≡ some a
        → parse_operand registers (c ∷ cs ++ b'(' ∷ (d ∷ ds ++ b')' ∷ []))
          ≡ some (record { type = mem_imm_reg1; imm_value = n; scal = 0; reg1 = a; reg2 = 0 })
    parse_operand-imm_reg1 h k pi li pr lr ei er =
        parse_operand-parts c _ (parts_of 2 0 (c ∷ cs) (d ∷ ds) [] []) h k
          (parts-imm_reg1 (c ∷ cs) (d ∷ ds) pi (omega arith) pr (omega arith))
        ∙ memory_operand_lem (parts_of 2 0 (c ∷ cs) (d ∷ ds) [] []) n 0 a 0 (omega arith)
            (value_of-cons c cs string2uint ∙ ei) refl
            (value_of-cons d ds (try_get_from_trie registers) ∙ er) refl
        ∙ rw (given-cons c cs) refl

    -- A memory operand imm(reg1,reg2,scal), whose number and register names are not empty, fit
    -- their buffers, have a value like the one-character scale, contain no punctuation, where the
    -- number starts with neither $ nor %, is parsed into the type MEM_IMM_REG1_REG2_SCAL with the
    -- values that the number, the scale and the names have.
    pub parse_operand-full :
        (e : ℕ) (es : List ℕ) (s k a' : ℕ)
        → c ≢ b'$'
        → c ≢ b'%'
        → Plain (c ∷ cs)
        → length cs < 63
        → Plain (d ∷ ds)
        → length ds < 7
        → Plain (e ∷ es)
        → length es < 7
        → Plain (s ∷ [])
        → string2uint (c ∷ cs) ≡ some n
        → try_get_from_trie registers (d ∷ ds) ≡ some a
        → try_get_from_trie registers (e ∷ es) ≡ some a'
        → scale_of (s ∷ []) ≡ some k
        → parse_operand registers
            (c ∷ cs ++ b'(' ∷ (d ∷ ds ++ b',' ∷ (e ∷ es ++ b',' ∷ s ∷ b')' ∷ [])))
          ≡ some (record {
            type = mem_imm_reg1_reg2_scal;
            imm_value = n;
            scal = k;
            reg1 = a;
            reg2 = a';
          })
    parse_operand-full e es s k a' h h' pi li pr lr pr' lr' ps ei er er' ek =
        let p = parts_of 2 2 (c ∷ cs) (d ∷ ds) (e ∷ es) (s ∷ []) in
        parse_operand-parts c _ p h h' (
          parts-full (c ∷ cs) (d ∷ ds) (e ∷ es) s pi (omega arith) pr (omega arith) pr'
            (omega arith) ps)
        ∙ memory_operand_lem p n k a a' (omega arith) (value_of-cons c cs string2uint ∙ ei)
            (value_of-cons s [] scale_of ∙ ek)
            (value_of-cons d ds (try_get_from_trie registers) ∙ er)
            (value_of-cons e es (try_get_from_trie registers) ∙ er')
        ∙ rw (given-cons c cs, given-cons d ds) refl

module _ (registers operators : Trie) (o : ℕ) (op : List ℕ) (s : ℕ) (src : List ℕ) (d : ℕ)
    (dst : List ℕ) where
  -- A text of an operator, a blank, an operand, a comma, a blank and an operand is parsed into the
  -- three, if the operands' own texts are parsed, the operator's name is in the tree, the operator
  -- has no blank or parenthesis, the commas of the first operand stand between its one pair of
  -- parentheses, the first operand starts with no blank, the second one has no blank and starts
  -- with no comma, and each has fewer than 64 characters.
  pub parse_instruction-fields :
      (n : ℕ) (operator : Operator) (a b : Operand)
      → IsWord (o ∷ op)
      → s ≢ b' '
      → IsOperand 0 (s ∷ src)
      → d ≢ b','
      → NoBlank (d ∷ dst)
      → length op < 63
      → length src < 63
      → length dst < 63
      → parse_operand registers (s ∷ src) ≡ some a
      → parse_operand registers (d ∷ dst) ≡ some b
      → try_get_from_trie operators (o ∷ op) ≡ some n
      → operator_of n ≡ some operator
      → parse_instruction registers operators (instruction_text o op s src d dst)
        ≡ some (record { op = operator; src = a; dst = b })
  unfolding parse_instruction parse_strings
  parse_instruction-fields n operator a b w hs ws hd wd bo bs bd ea eb en eo =
      let (m, e) = split-instruction_text o op s src d dst w hs ws hd wd bo bs bd in
      rw (parse_instruction, e, parse_strings, ea, eb, en, eo) refl
