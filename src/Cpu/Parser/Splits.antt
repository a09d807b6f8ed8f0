-- ===== src/Cpu/Parser/Splits.antt =====
-- src/headware/cpu/isa.c: how the automaton of `parse_instruction` cuts an instruction.
use csapp_stay.Prelude.{
  ℕ, ◌+◌, ◌<◌, ◌≡◌, ◌≢◌, refl, ◌∙◌, sym, ap, arith, some, List, [], ◌∷◌, ◌++◌, length,
  length-append, append_assoc, append-nil, ◌⊎◌,
}
use csapp_stay.Cpu.Parser.{Split, split, split_char, no_split, counted}

abbrev at : ℕ → ℕ → List ℕ → List ℕ → List ℕ → Split
at state n op src dst = record {
  state = state;
  count_parent = n;
  op_str = op;
  src_str = src;
  dst_str = dst;
}

-- Characters of an operator: no blank and no parenthesis.
abbrev pub IsWord : List ℕ → Type 0
IsWord [] = Unit
IsWord (c ∷ cs) = (c ≢ b' ') × (c ≢ b'(') × (c ≢ b')') × IsWord cs

abbrev pub NoBlank : List ℕ → Type 0
NoBlank [] = Unit
NoBlank (c ∷ cs) = (c ≢ b' ') × NoBlank cs

-- Every comma stands between parentheses; `n` of them are before the text, and none or two at its
-- end.
abbrev pub IsOperand : ℕ → List ℕ → Type 0
IsOperand n [] = (n ≡ 0) ⊎ (n ≡ 2)
IsOperand n (c ∷ cs) = ((c ≡ b',') → n ≡ 1) × IsOperand (counted c n) cs

split-step :
    (c : ℕ) (cs : List ℕ) (s s' : Split) → split_char c s ≡ some s' → split (c ∷ cs) s ≡ split cs s'
unfolding split
split-step c cs s s' e = rw (e, split) refl

op_char :
    (c : ℕ) (op : List ℕ)
    → c ≢ b' '
    → c ≢ b'('
    → c ≢ b')'
    → length op + 1 < 64
    → split_char c (at 1 0 op [] []) ≡ some (at 1 0 (op ++ c ∷ []) [] [])
unfolding split_char
op_char c op h k l b = ground arith

src_char :
    (c n : ℕ) (op src : List ℕ)
    → ((c ≡ b',') → n ≡ 1)
    → length src + 1 < 64
    → split_char c (at 3 n op src []) ≡ some (at 3 (counted c n) op (src ++ c ∷ []) [])
unfolding split_char
src_char c n op src h b = ground arith

dst_char :
    (c n : ℕ) (op src dst : List ℕ)
    → c ≢ b' '
    → length dst + 1 < 64
    → split_char c (at 5 n op src dst) ≡ some (at 5 (counted c n) op src (dst ++ c ∷ []))
unfolding split_char
dst_char c n op src dst h b = ground arith

length-snoc : (xs : List ℕ) (c : ℕ) → length (xs ++ c ∷ []) ≡ length xs + 1
length-snoc xs c = length-append xs (c ∷ [])

-- Where a character is stored at each step, a text is.
op_run :
    (cs rest op : List ℕ)
    → IsWord cs
    → length op + length cs < 64
    → split (cs ++ rest) (at 1 0 op [] []) ≡ split rest (at 1 0 (op ++ cs) [] [])
op_run [] rest op h b = ap (λ t. split rest (at 1 0 t [] [])) (sym (append-nil op))
op_run (c ∷ cs) rest op (n, l, r, h) b =
    let e = length-snoc op c in
    split-step c (cs ++ rest) _ _ (op_char c op n l r (omega arith))
    ∙ op_run cs rest (op ++ c ∷ []) h (omega arith)
    ∙ ap (λ t. split rest (at 1 0 t [] [])) (append_assoc op (c ∷ []) cs)

-- The parentheses after a text.
pub count_all : ℕ → List ℕ → ℕ
count_all n [] = n
count_all n (c ∷ cs) = count_all (counted c n) cs

src_run :
    (cs rest op src : List ℕ) (n : ℕ)
    → IsOperand n cs
    → length src + length cs < 64
    → split (cs ++ rest) (at 3 n op src []) ≡ split rest (at 3 (count_all n cs) op (src ++ cs) [])
unfolding count_all
src_run [] rest op src n h b = ap (λ t. split rest (at 3 n op t [])) (sym (append-nil src))
src_run (c ∷ cs) rest op src n (k, h) b =
    let e = length-snoc src c in
    split-step c (cs ++ rest) _ _ (src_char c n op src k (omega arith))
    ∙ src_run cs rest op (src ++ c ∷ []) (counted c n) h (omega arith)
    ∙ ap (λ t. split rest (at 3 (count_all (counted c n) cs) op t []))
        (append_assoc src (c ∷ []) cs)

count_all-IsOperand : (n : ℕ) (cs : List ℕ) → IsOperand n cs → IsOperand (count_all n cs) []
unfolding count_all
count_all-IsOperand n [] h = h
count_all-IsOperand n (c ∷ cs) (k, h) = count_all-IsOperand (counted c n) cs h

dst_run :
    (cs op src dst : List ℕ) (n : ℕ)
    → NoBlank cs
    → length dst + length cs < 64
    → split cs (at 5 n op src dst) ≡ some (at 5 (count_all n cs) op src (dst ++ cs))
unfolding count_all split
dst_run [] op src dst n h b = ap (λ t. some (at 5 n op src t)) (sym (append-nil dst))
dst_run (c ∷ cs) op src dst n (k, h) b =
    let e = length-snoc dst c in
    split-step c cs _ _ (dst_char c n op src dst k (omega arith))
    ∙ dst_run cs op src (dst ++ c ∷ []) (counted c n) h (omega arith)
    ∙ ap (λ t. some (at 5 (count_all (counted c n) cs) op src t)) (append_assoc dst (c ∷ []) cs)

op_first :
    (c : ℕ)
    → c ≢ b' '
    → c ≢ b'('
    → c ≢ b')'
    → split_char c (at 0 0 [] [] []) ≡ some (at 1 0 (c ∷ []) [] [])
unfolding split_char
op_first c h k l = ground arith

after_op : (op : List ℕ) → split_char b' ' (at 1 0 op [] []) ≡ some (at 2 0 op [] [])
unfolding split_char
after_op op = refl

src_first :
    (c : ℕ) (op : List ℕ)
    → c ≢ b' '
    → split_char c (at 2 0 op [] []) ≡ some (at 3 (counted c 0) op (c ∷ []) [])
unfolding split_char
src_first c op h = ground arith

after_src :
    (n : ℕ) (op src : List ℕ)
    → (n ≡ 0) ⊎ (n ≡ 2)
    → split_char b',' (at 3 n op src []) ≡ some (at 4 n op src [])
unfolding split_char
after_src n op src h = ground arith

between : (n : ℕ) (op src : List ℕ) → split_char b' ' (at 4 n op src []) ≡ some (at 4 n op src [])
unfolding split_char
between n op src = refl

dst_first :
    (c n : ℕ) (op src : List ℕ)
    → c ≢ b' '
    → c ≢ b','
    → split_char c (at 4 n op src []) ≡ some (at 5 (counted c n) op src (c ∷ []))
unfolding split_char
dst_first c n op src h k = ground arith

-- `op src, dst`, each given by its first character and the others.
abbrev pub instruction_text :
    (o : ℕ) (op : List ℕ) (s : ℕ) (src : List ℕ) (d : ℕ) (dst : List ℕ) → List ℕ
instruction_text o op s src d dst = o ∷ (op ++ b' ' ∷ s ∷ (src ++ b',' ∷ b' ' ∷ d ∷ dst))

module _ (o : ℕ) (op : List ℕ) (s : ℕ) (src : List ℕ) (d : ℕ) (dst : List ℕ) where
  pub split-instruction_text :
      IsWord (o ∷ op)
      → s ≢ b' '
      → IsOperand 0 (s ∷ src)
      → d ≢ b','
      → NoBlank (d ∷ dst)
      → length op < 63
      → length src < 63
      → length dst < 63
      → (n : ℕ) × (split (instruction_text o op s src d dst) no_split
          ≡ some (at 5 n (o ∷ op) (s ∷ src) (d ∷ dst)))
  split-instruction_text (h, k, l, w) hs (ks, ws) hd (kd, wd) bo bs bd =
      let n = count_all (counted s 0) src in
      (
        _,
        split-step o _ _ _ (op_first o h k l)
            ∙ op_run op _ (o ∷ []) w (omega arith)
            ∙ split-step b' ' _ _ _ (after_op (o ∷ op))
            ∙ split-step s _ _ _ (src_first s (o ∷ op) hs)
            ∙ src_run src _ (o ∷ op) (s ∷ []) (counted s 0) ws (omega arith)
            ∙ split-step b',' _ _ _
                (after_src n (o ∷ op) (s ∷ src) (count_all-IsOperand (counted s 0) src ws))
            ∙ split-step b' ' _ _ _ (between n (o ∷ op) (s ∷ src))
            ∙ split-step d _ _ _ (dst_first d n (o ∷ op) (s ∷ src) kd hd)
            ∙ dst_run dst (o ∷ op) (s ∷ src) (d ∷ []) (counted d n) wd (omega arith),
      )
