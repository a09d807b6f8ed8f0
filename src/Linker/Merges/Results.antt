-- ===== src/Linker/Merges/Results.antt =====
-- src/linker/staticlink.c: what merge_section leaves.
use mathlib.Core.Option.{some_inj}
use mathlib.Core.Path.{subst}
use csapp_stay.Prelude.{
  ℕ, zero, suc, ◌+◌, ◌-◌, Option, length-append, ◌≡◌, refl, sym, ◌∙◌, ap, arith, some, List, [],
  ◌∷◌, ◌++◌, ◌==◌, ==_iff, ltb, length, update, update_self, update_ne, ◌⊎◌, ◌≤◌, inl, inr,
}
use csapp_stay.Linker.Symbols.{Symbol}
use csapp_stay.Linker.Elf.{Section, ◌>>=◌}
use csapp_stay.Linker.Elf.Files.{Elf, find_section, max_elf_file_length}
use csapp_stay.Linker.Elf.Files.Tables.{All, >>=-eq-some}
use csapp_stay.Linker.Elf.Symbols.{print_symbol}
use csapp_stay.Linker.Numerals.{long_text}
use csapp_stay.Linker.Merges.{
  Texts, Mapped, Merge, copy_rows, merge_symbol, merge_files, merge_sections, merge_section,
  print_symbols, unset_from, print_table,
}
use csapp_stay.Linker.Merges.Copies.{Kept, copy_rows_lem}
use csapp_stay.Linker.Merges.Placements.{
  lines_of, Placed, AllPlaced, AllPlaced-Kept, AllPlaced-append, lines_of-append, All-append,
  All-map, Follows,
}
use csapp_stay.Linker.Merges.Loops.{assert-some, At, Keeps, Steps, merge_files-Keeps}

-- A symbol of one of the files.
merge_symbol-Keeps :
    (srcs : List Elf) (start : ℕ) (b : Texts) (n : ℕ) (name : List ℕ)
    → Steps srcs n name (Follows srcs start b)
unfolding Steps Keeps merge_symbol
merge_symbol-Keeps srcs start b n name i j elf sh s of_file of_table found named m m' e
      (lines, k, a, off, vs) =
    let of_section : find_section s.st_shndx elf.sht ≡ some sh =
      subst (λ x. find_section x elf.sht ≡ some sh) (sym named) found in
    let (b', p, q) =
      >>=-eq-some
        (copy_rows elf.buffer (sh.sh_offset + s.st_value) m.line_written s.st_size m.buffer) _ e in
    let entry : Symbol = record s { st_value = m.sym_section_offset } in
    let m₁ : Merge = record m {
      symt = m.symt ++ entry ∷ [];
      buffer = b';
      line_written = m.line_written + s.st_size;
      sym_section_offset = m.sym_section_offset + s.st_size;
    } in
    let (_, r) = assert-some (ltb (length m.symt) n) (some m₁) m' q in
    let (c, k') = copy_rows_lem elf.buffer _ m.line_written s.st_size m.buffer b' p in
    let placed : Placed srcs b' m.line_written entry = record {
      file = i;
      index = j;
      elf = elf;
      src = s;
      section = sh;
      of_file = of_file;
      of_table = of_table;
      of_section = of_section;
      entry = refl;
      rows = c;
    } in
    let kept : Kept start b b' = λ x h. k' x (omega (arith, h, lines)) ∙ k x h in
    let all : AllPlaced srcs b' start m.symt =
      AllPlaced-Kept srcs m.buffer b' start m.line_written m.symt (omega (arith, lines)) k' a in
    let merged : At (Follows srcs start b) m₁ = (
      omega (arith, lines, lines_of-append m.symt entry),
      kept,
      AllPlaced-append srcs b' start m.symt entry all
          (subst (λ x. Placed srcs b' x entry) lines placed),
      omega (arith, off),
      All-append (λ t. t.st_value ≤ m.line_written + s.st_size) m.symt entry
          (All-map (λ t. t.st_value ≤ m.line_written) (λ t. t.st_value ≤ m.line_written + s.st_size)
            m.symt (λ t le. omega (arith, le)) vs)
          (omega (arith, off)),
    ) in
    subst (At (Follows srcs start b)) (some_inj.0 r) merged

merge_sections-Keeps :
    (srcs : List Elf) (start : ℕ) (b : Texts) (n : ℕ) (shs : List Section)
    → Keeps (Follows srcs start b) (merge_sections srcs n shs)
unfolding Keeps merge_sections
merge_sections-Keeps srcs start b n [] m m' e h = subst (At (Follows srcs start b)) (some_inj.0 e) h
merge_sections-Keeps srcs start b n (sh ∷ shs) m m' e (lines, k, a, _, vs) =
    let m₀ : Merge = record m { sym_section_offset = 0 } in
    let (m₁, p, q) = >>=-eq-some (merge_files 0 srcs sh.sh_name n m₀) _ e in
    merge_sections-Keeps srcs start b n shs m₁ m' q (
      merge_files-Keeps srcs n sh.sh_name (Follows srcs start b)
        (merge_symbol-Keeps srcs start b n sh.sh_name) m₀ m₁ p (lines, k, a, omega arith, vs))

-- The rows of the printed symbols.
abbrev pub Printed : Texts → ℕ → List Symbol → Type 0
Printed b at [] = Unit
Printed b at (s ∷ ss) =
    (b at ≡ print_symbol s (long_text s.st_value) (long_text s.st_size)) × Printed b (suc at) ss

print_symbols_lem :
    (ss : List Symbol) (at : ℕ) (b b' : Texts)
    → print_symbols ss at b ≡ some b'
    → Printed b' at ss × Kept at b b'
unfolding print_symbols
print_symbols_lem [] at b b' e = (tt, (λ r h. ap (λ t. t r) (sym (some_inj.0 e))))
print_symbols_lem (s ∷ ss) at b b' e =
    let row = print_symbol s (long_text s.st_value) (long_text s.st_size) in
    let (_, q) = assert-some (ltb at max_elf_file_length) _ _ e in
    let (p, k) = print_symbols_lem ss (suc at) (update b at row) b' q in
    (
      (k at (omega arith) ∙ update_self b at row, p),
      λ r h. k r (omega (arith, h)) ∙ update_ne b at r row (omega (arith, h)),
    )

-- What merge_section leaves: the symbols that are set, and the rest of the table.
abbrev pub Merged : (ℕ → Option Symbol) → List Elf → ℕ → ℕ → ℕ → Texts → Merge → Type 0
Merged block srcs start line_count sym_count buffer m =
    (start + lines_of m.symt + sym_count ≡ line_count)
    × Kept start buffer m.buffer
    × AllPlaced srcs m.buffer start m.symt
    × All (λ s. s.st_value ≤ line_count) m.symt
    × (rest : List Symbol) × (unset_from block (length m.symt) (sym_count - length m.symt)
        ≡ some rest)
    × Printed m.buffer (start + lines_of m.symt) (m.symt ++ rest)

print_table-Merged :
    (block : ℕ → Option Symbol) (srcs : List Elf) (start line_count sym_count : ℕ) (buffer : Texts)
    (m m' : Merge)
    → print_table block line_count sym_count m ≡ some m'
    → At (Follows srcs start buffer) m
    → Merged block srcs start line_count sym_count buffer m'
unfolding print_table
print_table-Merged block srcs start line_count sym_count buffer m m' e (lines, k, a, _, vs) =
    let reading = unset_from block (length m.symt) (sym_count - length m.symt) in
    let printing = λ (rest : List Symbol). print_symbols (m.symt ++ rest) m.line_written m.buffer in
    let (b', p, q) = >>=-eq-some (reading >>= printing) _ e in
    let (rest, unset, r) = >>=-eq-some reading printing p in
    let m₁ : Merge = record m { buffer = b'; line_written = m.line_written + sym_count } in
    let (total, t) = assert-some (m.line_written + sym_count == line_count) (some m₁) m' q in
    let (printed, k') = print_symbols_lem (m.symt ++ rest) m.line_written m.buffer b' r in
    let count = (==_iff _ _).0 total in
    let result : Merged block srcs start line_count sym_count buffer m₁ = (
      omega (arith, count, lines),
      (λ r h. k' r (omega (arith, h, lines)) ∙ k r h),
      AllPlaced-Kept srcs m.buffer b' start m.line_written m.symt (omega (arith, lines)) k' a,
      All-map (λ s. s.st_value ≤ m.line_written) (λ s. s.st_value ≤ line_count) m.symt
          (λ s le. omega (arith, le, count)) vs,
      rest,
      unset,
      subst (λ x. Printed b' x (m.symt ++ rest)) lines printed,
    ) in
    subst (Merged block srcs start line_count sym_count buffer) (some_inj.0 t) result

-- When merge_section succeeds, the header rows are as they were, and the rows of the symbols that
-- were set follow them in the order of the symbol table: each entry is that of a symbol of one of
-- the files, and its rows are the symbol's rows there. No value is larger than the file's line
-- count. Behind them stands one printed row for each entry of the table, with what malloc left in
-- those that were not set, and the rows are as many as the line count.
pub merge_section_lem :
    (block : ℕ → Option Symbol) (srcs : List Elf) (sht : List Section) (line_count sym_count : ℕ)
    (smap : List Mapped) (buffer : Texts) (m : Merge)
    → merge_section block srcs sht line_count sym_count smap buffer ≡ some m
    → Merged block srcs (2 + length sht) line_count sym_count buffer m
unfolding merge_section Keeps lines_of
merge_section_lem block srcs sht line_count sym_count smap buffer m e =
    let start = 2 + length sht in
    let m₀ : Merge = record {
      smap = smap;
      symt = [];
      buffer = buffer;
      line_written = start;
      sym_section_offset = 0;
    } in
    let (m₁, p, q) = >>=-eq-some (merge_sections srcs sym_count sht m₀) _ e in
    print_table-Merged block srcs start line_count sym_count buffer m₁ m q (
      merge_sections-Keeps srcs start buffer sym_count sht m₀ m₁ p
        (omega arith, (λ r h. refl), tt, omega arith, tt))

print_symbols-room :
    (ss : List Symbol) (at : ℕ) (b b' : Texts)
    → print_symbols ss at b ≡ some b'
    → (length ss ≡ 0) ⊎ (at + length ss ≤ max_elf_file_length)
unfolding print_symbols
print_symbols-room [] at b b' e = inl refl
print_symbols-room (s ∷ ss) at b b' e =
    let row = print_symbol s (long_text s.st_value) (long_text s.st_size) in
    let (room, q) = assert-some (ltb at max_elf_file_length) _ _ e in
    inr (elim (print_symbols-room ss (suc at) (update b at row) b' q) [
      | inl none_left ↦ ground (arith, room, none_left)
      | inr fits ↦ omega (arith, fits)
    ])

unset_from-length :
    (block : ℕ → Option Symbol) (j n : ℕ) (ss : List Symbol)
    → unset_from block j n ≡ some ss
    → length ss ≡ n
unfolding unset_from
unset_from-length block j zero ss e = ap length (some_inj.0 (sym e))
unset_from-length block j (suc n) ss e =
    let (s, _, e₁) = >>=-eq-some (block j) _ e in
    let (rest, p, e₂) = >>=-eq-some (unset_from block (suc j) n) _ e₁ in
    let len = unset_from-length block (suc j) n rest p in
    subst (λ xs. length xs ≡ suc n) (some_inj.0 e₂) (omega (arith, len))

-- A table that is printed fits the buffer.
pub merge_section-room :
    (block : ℕ → Option Symbol) (srcs : List Elf) (sht : List Section) (line_count sym_count : ℕ)
    (smap : List Mapped) (buffer : Texts) (m : Merge)
    → merge_section block srcs sht line_count sym_count smap buffer ≡ some m
    → (sym_count ≡ 0) ⊎ (line_count ≤ max_elf_file_length)
unfolding merge_section print_table
merge_section-room block srcs sht line_count sym_count smap buffer m e =
    let m₀ : Merge = record {
      smap = smap;
      symt = [];
      buffer = buffer;
      line_written = 1 + 1 + length sht;
      sym_section_offset = 0;
    } in
    let (m₁, _, q) = >>=-eq-some (merge_sections srcs sym_count sht m₀) _ e in
    let reading = unset_from block (length m₁.symt) (sym_count - length m₁.symt) in
    let printing =
      λ (rest : List Symbol). print_symbols (m₁.symt ++ rest) m₁.line_written m₁.buffer in
    let (b, p, t) = >>=-eq-some (reading >>= printing) _ q in
    let (rest, unset, r) = >>=-eq-some reading printing p in
    let m₂ : Merge = record m₁ { buffer = b; line_written = m₁.line_written + sym_count } in
    let (total, _) = assert-some (m₁.line_written + sym_count == line_count) (some m₂) m t in
    let len = unset_from-length block (length m₁.symt) (sym_count - length m₁.symt) rest unset in
    let whole = length-append m₁.symt rest in
    let lines = (==_iff _ _).0 total in
    elim (print_symbols-room (m₁.symt ++ rest) m₁.line_written m₁.buffer b r) [
      | inl z ↦ inl (omega (arith, z, len, whole))
      | inr f ↦ inr (omega (arith, f, len, whole, lines))
    ]
