-- ===== src/Linker/Merges/Loops.antt =====
-- src/linker/staticlink.c: the loops of merge_section keep what each merged symbol keeps.
use mathlib.Core.Option.{some_inj}
use mathlib.Core.Path.{subst}
use csapp_stay.Prelude.{
  ℕ, suc, ◌+◌, ◌≡◌, refl, arith, Bool, true, false, Bool-cases, inl, inr, Option, none, some, List,
  [], ◌∷◌, get_elem?, same, same_iff,
}
use csapp_stay.Linker.Symbols.{Symbol}
use csapp_stay.Linker.Elf.{Section, assert, ◌>>=◌, ◌>>◌}
use csapp_stay.Linker.Elf.Files.{Elf, find_section}
use csapp_stay.Linker.Elf.Files.Tables.{>>=-eq-some}
use csapp_stay.Linker.Merges.{
  Texts, Mapped, Merge, merge_symbol, merge_entries, merge_symbols, merge_file, merge_files,
  points_to,
}

pub assert-some {ℓ} :
    {A : Type ℓ} (b : Bool) (m : Option A) (x : A)
    → (assert b >> m) ≡ some x
    → (b ≡ true) × (m ≡ some x)
assert-some true m x e = (refl, e)
assert-some false m x e = cc

-- A statement of the fields that the merging of a symbol changes, and what keeps it.
abbrev pub At : (List Symbol → Texts → ℕ → ℕ → Type 0) → Merge → Type 0
At I m = I m.symt m.buffer m.line_written m.sym_section_offset

unfoldable pub Keeps : (List Symbol → Texts → ℕ → ℕ → Type 0) → (Merge → Option Merge) → Type 0
Keeps I f = (m m' : Merge) → f m ≡ some m' → At I m → At I m'

merge_entries-Keeps :
    (I : List Symbol → Texts → ℕ → ℕ → Type 0) (i j : ℕ) (step : Merge → Option Merge)
    → Keeps I step
    → (es done : List Mapped) → Keeps I (merge_entries i j step done es)
unfolding Keeps merge_entries
merge_entries-Keeps I i j step keeps [] done m m' e h = subst (At I) (some_inj.0 e) h
merge_entries-Keeps I i j step keeps (x ∷ es) done m m' e h = elim (Bool-cases (points_to i j x)) [
  | inl t ↦
      let e' : (step m >>= merge_entries i j step _ es) ≡ some m' = rw t at e in
      let (m₁, p, q) = >>=-eq-some (step m) _ e' in
      merge_entries-Keeps I i j step keeps es _ m₁ m' q (keeps m m₁ p h)
  | inr f ↦ merge_entries-Keeps I i j step keeps es _ m m' (rw f at e) h
]

-- The elements of xs stand in ys from j on.
Suffix {ℓ} : {A : Type ℓ} → List A → List A → ℕ → Type ℓ
Suffix {A} xs ys j = (l : ℕ) (x : A) → get_elem? xs l ≡ some x → get_elem? ys (j + l) ≡ some x

suffix_head {ℓ} :
    {A : Type ℓ} (x : A) (xs ys : List A) (j : ℕ) → Suffix (x ∷ xs) ys j → get_elem? ys j ≡ some x
unfolding Suffix
suffix_head x xs ys j s =
    let e : j + 0 ≡ j = omega arith in subst (λ k. get_elem? ys k ≡ some x) e (s 0 x refl)

suffix_tail {ℓ} :
    {A : Type ℓ} (x : A) (xs ys : List A) (j : ℕ) → Suffix (x ∷ xs) ys j → Suffix xs ys (suc j)
unfolding Suffix
suffix_tail x xs ys j s l y h =
    let e : j + suc l ≡ suc j + l = omega arith in
    subst (λ k. get_elem? ys k ≡ some y) e (s (suc l) y h)

suffix_all {ℓ} : {A : Type ℓ} (xs : List A) → Suffix xs xs 0
unfolding Suffix
suffix_all xs l x h = let e : l ≡ 0 + l = omega arith in subst (λ k. get_elem? xs k ≡ some x) e h

-- Each symbol of a file that stands in the section of the name.
unfoldable pub Steps : List Elf → ℕ → List ℕ → (List Symbol → Texts → ℕ → ℕ → Type 0) → Type 0
Steps srcs n name I =
    (i j : ℕ) (elf : Elf) (sh : Section) (s : Symbol)
    → get_elem? srcs i ≡ some elf
    → get_elem? elf.symt j ≡ some s
    → find_section name elf.sht ≡ some sh
    → s.st_shndx ≡ name
    → Keeps I (merge_symbol elf sh n s)

module _ (srcs : List Elf) (n : ℕ) (name : List ℕ) (I : List Symbol → Texts → ℕ → ℕ → Type 0)
    (steps : Steps srcs n name I) where
  merge_symbols-Keeps :
      (i : ℕ) (elf : Elf) (sh : Section)
      → get_elem? srcs i ≡ some elf
      → find_section name elf.sht ≡ some sh
      → (j : ℕ) (syms : List Symbol) → Suffix syms elf.symt j
      → Keeps I (merge_symbols i elf sh name n j syms)
  unfolding Keeps Steps merge_symbols
  merge_symbols-Keeps i elf sh of_file of_section j [] suf m m' e h = subst (At I) (some_inj.0 e) h
  merge_symbols-Keeps i elf sh of_file of_section j (s ∷ syms) suf m m' e h =
      let rest =
        merge_symbols-Keeps i elf sh of_file of_section (suc j) syms
          (suffix_tail s syms elf.symt j suf) in
      elim (Bool-cases (same s.st_shndx name)) [
        | inl t ↦
            let e' : (merge_entries i j (merge_symbol elf sh n s) [] m.smap m
                  >>= merge_symbols i elf sh name n (suc j) syms)
                ≡ some m' =
              rw t at e in
            let (m₁, p, q) =
              >>=-eq-some (merge_entries i j (merge_symbol elf sh n s) [] m.smap m) _ e' in
            let step =
              steps i j elf sh s of_file (suffix_head s syms elf.symt j suf) of_section
                (same_iff s.st_shndx name t) in
            rest m₁ m' q
              (merge_entries-Keeps I i j (merge_symbol elf sh n s) step m.smap [] m m₁ p h)
        | inr f ↦ rest m m' (rw f at e) h
      ]

  merge_file-Keeps :
      (i : ℕ) (elf : Elf) (sh : Option Section)
      → get_elem? srcs i ≡ some elf
      → find_section name elf.sht ≡ sh
      → Keeps I (merge_file i elf name n sh)
  unfolding Keeps merge_file
  merge_file-Keeps i elf none p q m m' e h = subst (At I) (some_inj.0 e) h
  merge_file-Keeps i elf (some sh) p q m m' e h =
      merge_symbols-Keeps i elf sh p q 0 elf.symt (suffix_all elf.symt) m m' e h

  files-Keeps : (i : ℕ) (elfs : List Elf) → Suffix elfs srcs i → Keeps I (merge_files i elfs name n)
  unfolding Keeps merge_files
  files-Keeps i [] suf m m' e h = subst (At I) (some_inj.0 e) h
  files-Keeps i (elf ∷ elfs) suf m m' e h =
      let sh = find_section name elf.sht in
      let (m₁, p, q) = >>=-eq-some (merge_file i elf name n sh m) _ e in
      files-Keeps (suc i) elfs (suffix_tail elf elfs srcs i suf) m₁ m' q
        (merge_file-Keeps i elf sh (suffix_head elf elfs srcs i suf) refl m m₁ p h)

  pub merge_files-Keeps : Keeps I (merge_files 0 srcs name n)
  merge_files-Keeps = files-Keeps 0 srcs (suffix_all srcs)
