-- ===== src/Memory/Dram/Texts.antt =====
-- src/headware/memory/dram.c: an instruction's text in the memory.
use csapp_stay.Prelude.{
  ℕ, zero, suc, ◌+◌, ◌≤◌, ◌<◌, ◌≡◌, ◌≢◌, refl, ap, ◌∙◌, ◌⊎◌, inl, inr, arith, Bool-cases, true,
  false, some, List, [], ◌∷◌, length, drop, ltb, if◌then◌else◌, ◌==◌, ==_iff,
}
use csapp_stay.Memory.Bytes.{Bytes}
use csapp_stay.Memory.Dram.{
  max_instruction_char, char_at, read_inst, write_inst, cpu_readinst_dram, cpu_writeinst_dram,
  text_of,
}

abbrev pub NoNul : List ℕ → Type 0
NoNul [] = Unit
NoNul (c ∷ cs) = (c ≢ 0) × NoNul cs

-- The padded text.
abbrev padded : List ℕ → ℕ → ℕ
padded str k = if ltb k (length str) then char_at str k else 0

write_inst-outside :
    (n i : ℕ) (pm : Bytes) (a : ℕ) (str : List ℕ) (b : ℕ)
    → (b < a + i) ⊎ (a + i + n ≤ b)
    → write_inst n i pm a str b ≡ pm b
unfolding write_inst
write_inst-outside zero i pm a str b h = refl
write_inst-outside (suc n) i pm a str b h =
    write_inst-outside n (i + 1) _ a str b (omega arith) ∙ ground arith

write_inst-at :
    (n i : ℕ) (pm : Bytes) (a : ℕ) (str : List ℕ) (k : ℕ)
    → i ≤ k
    → k < i + n
    → write_inst n i pm a str (a + k) ≡ padded str k
unfolding write_inst
write_inst-at zero i pm a str k lo hi = absurd (omega arith)
write_inst-at (suc n) i pm a str k lo hi = elim (Bool-cases (i == k)) [
  | inl e ↦
      let at : i ≡ k = (==_iff i k).0 e in
      write_inst-outside n (i + 1) _ a str (a + k) (omega arith) ∙ rw at (ground arith)
  | inr e ↦ write_inst-at n (i + 1) _ a str k (ground arith) (omega arith)
]

drop-cons :
    (str : List ℕ) (i : ℕ)
    → i < length str
    → NoNul str
    → (drop i str ≡ char_at str i ∷ drop (suc i) str) × (char_at str i ≢ 0)
drop-cons [] i h z = absurd (omega arith)
drop-cons (c ∷ str) zero h z = (refl, z.0)
drop-cons (c ∷ str) (suc i) h z = drop-cons str i (omega arith) z.1

drop-all : (str : List ℕ) (i : ℕ) → length str ≤ i → drop i str ≡ []
drop-all [] zero h = refl
drop-all [] (suc i) h = refl
drop-all (c ∷ str) zero h = absurd (omega arith)
drop-all (c ∷ str) (suc i) h = drop-all str i (omega arith)

text_of-read_inst :
    (n i : ℕ) (pm : Bytes) (a : ℕ) (str : List ℕ)
    → NoNul str
    → i ≤ length str
    → length str < i + n
    → ((k : ℕ) → i ≤ k → k < i + n → pm (a + k) ≡ padded str k)
    → text_of (read_inst n i pm a) ≡ some (drop i str)
unfolding read_inst text_of
text_of-read_inst zero i pm a str z b l h = absurd (omega arith)
text_of-read_inst (suc n) i pm a str z b l h = elim (Bool-cases (ltb i (length str))) [
  | inl e ↦
      let (q, ne) = drop-cons str i (ground arith) z in
      let at : pm (a + i) ≡ char_at str i = h i (omega arith) (omega arith) ∙ rw e refl in
      let rest =
        text_of-read_inst n (i + 1) pm a str z (ground arith) (omega arith)
          (λ k lo hi. h k (omega arith) (omega arith)) in
      let no : (char_at str i == 0) ≡ false = ground arith in
      let j : i + 1 ≡ suc i = omega arith in
      rw (at, no, rest, q) (ap (λ k. some (char_at str i ∷ drop k str)) j)
  | inr e ↦
      let at : pm (a + i) ≡ 0 = h i (omega arith) (omega arith) ∙ rw e refl in
      rw (at, drop-all str i (ground arith)) refl
]

-- An instruction's text of fewer than 64 characters, none of them NUL, is stored without a
-- failure, is read back by the fetch as it was, and no byte outside its 64 is changed.
pub text_of-cpu_writeinst_dram :
    (pm : Bytes) (a : ℕ) (str : List ℕ)
    → NoNul str
    → length str < max_instruction_char
    → (pm' : Bytes) × (cpu_writeinst_dram pm a str ≡ some pm')
      × (text_of (cpu_readinst_dram pm' a) ≡ some str)
      × ((b : ℕ) → (b < a) ⊎ (a + 64 ≤ b) → pm' b ≡ pm b)
unfolding cpu_writeinst_dram cpu_readinst_dram
text_of-cpu_writeinst_dram pm a str z l =
    let t : ltb (length str) 64 ≡ true = ground arith in
    (
      write_inst 64 0 pm a str,
      rw t refl,
      text_of-read_inst 64 0 (write_inst 64 0 pm a str) a str z (omega arith) (omega arith)
          (λ k lo hi. write_inst-at 64 0 pm a str k (omega arith) hi),
      λ b h. write_inst-outside 64 0 pm a str b (omega (arith, h)),
    )
