-- ===== src/Linker/Merges/Values.antt =====
-- src/linker/staticlink.c: the values of the symbols are their places in the merged sections.
use mathlib.Core.Option.{some_inj}
use mathlib.Core.Path.{subst}
use csapp_stay.Prelude.{
  ℕ, ◌+◌, ◌-◌, Option, ◌≡◌, ◌≢◌, refl, sym, ◌∙◌, ap, arith, false, some, List, [], ◌∷◌, ◌++◌, ◌==◌,
  ltb, length, same, same_refl, ne_same, if◌then◌else◌,
}
use csapp_stay.Linker.Symbols.{Symbol}
use csapp_stay.Linker.Elf.{Section, ◌>>=◌}
use csapp_stay.Linker.Elf.Files.{Elf}
use csapp_stay.Linker.Elf.Files.Tables.{All, >>=-eq-some}
use csapp_stay.Linker.Merges.{
  Texts, Mapped, Merge, copy_rows, merge_symbol, merge_files, merge_sections, merge_section,
  print_symbols, unset_from, print_table,
}
use csapp_stay.Linker.Merges.Copies.{Kept}
use csapp_stay.Linker.Merges.Placements.{lines_of, AllPlaced, lines_of-append, All-append}
use csapp_stay.Linker.Merges.Tallies.{
  tally, AllValued, AllValued-append, tally-append, tally-others, no_lines,
}
use csapp_stay.Linker.Merges.Loops.{assert-some, At, Keeps, Steps, merge_files-Keeps}
use csapp_stay.Linker.Merges.Results.{Printed, merge_section_lem}

-- Each symbol stands, at its value, behind the first row of its section.
abbrev pub AllAt : (List ℕ → ℕ) → ℕ → List Symbol → Type 0
AllAt base at [] = Unit
AllAt base at (s ∷ ss) = (at ≡ base s.st_shndx + s.st_value) × AllAt base (at + s.st_size) ss

abbrev pub Distinct : List Section → Type 0
Distinct [] = Unit
Distinct (sh ∷ shs) = All (λ x. sh.sh_name ≢ x.sh_name) shs × Distinct shs

-- No symbol is of one of the sections.
abbrev Outside : List Section → List Symbol → Type 0
Outside shs ss = All (λ s. All (λ x. s.st_shndx ≢ x.sh_name) shs) ss

AllAt-append :
    (base : List ℕ → ℕ) (at : ℕ) (ss : List Symbol) (s : Symbol)
    → AllAt base at ss
    → at + lines_of ss ≡ base s.st_shndx + s.st_value
    → AllAt base at (ss ++ s ∷ [])
unfolding lines_of
AllAt-append base at [] s a e = (omega (arith, e), tt)
AllAt-append base at (t ∷ ss) s (q, a) e =
    (q, AllAt-append base (at + t.st_size) ss s a (omega (arith, e)))

-- The first rows, with that of one more section.
abbrev first_row : (List ℕ → ℕ) → List ℕ → ℕ → List ℕ → ℕ
first_row base name r x = if same x name then r else base x

AllAt-first_row :
    (base : List ℕ → ℕ) (name : List ℕ) (r at : ℕ) (ss : List Symbol)
    → All (λ s. s.st_shndx ≢ name) ss
    → AllAt base at ss
    → AllAt (first_row base name r) at ss
AllAt-first_row base name r at [] o a = tt
AllAt-first_row base name r at (s ∷ ss) (n, o) (q, a) =
    let other : same s.st_shndx name ≡ false = ne_same s.st_shndx name n in
    (rw other q, AllAt-first_row base name r (at + s.st_size) ss o a)

-- While the section of the name is merged, with others to come.
abbrev InSection : (List ℕ → ℕ) → List ℕ → List Section → ℕ → List Symbol → Texts → ℕ → ℕ → Type 0
InSection base name shs start symt buffer line_written offset =
    (line_written ≡ start + lines_of symt)
    × AllAt base start symt
    × (line_written ≡ base name + offset)
    × (offset ≡ tally no_lines symt name)
    × AllValued no_lines symt
    × Outside shs symt

merge_symbol-InSection :
    (base : List ℕ → ℕ) (shs : List Section) (start : ℕ) (srcs : List Elf) (n : ℕ) (name : List ℕ)
    → All (λ x. name ≢ x.sh_name) shs
    → Steps srcs n name (InSection base name shs start)
unfolding Steps Keeps merge_symbol
merge_symbol-InSection base shs start srcs n name apart i j elf sh s _ _ _ named m m' e
      (lines, a, place, counted, v, o) =
    let (b, p, q) =
      >>=-eq-some
        (copy_rows elf.buffer (sh.sh_offset + s.st_value) m.line_written s.st_size m.buffer) _ e in
    let entry : Symbol = record s { st_value = m.sym_section_offset } in
    let m₁ : Merge = record m {
      symt = m.symt ++ entry ∷ [];
      buffer = b;
      line_written = m.line_written + s.st_size;
      sym_section_offset = m.sym_section_offset + s.st_size;
    } in
    let (_, r) = assert-some (ltb (length m.symt) n) (some m₁) m' q in
    let at : start + lines_of m.symt ≡ base s.st_shndx + m.sym_section_offset =
      sym lines ∙ place ∙ ap (λ x. base x + m.sym_section_offset) (sym named) in
    let outside : All (λ x. s.st_shndx ≢ x.sh_name) shs =
      subst (λ y. All (λ x. y ≢ x.sh_name) shs) (sym named) apart in
    let merged : At (InSection base name shs start) m₁ = (
      omega (arith, lines, lines_of-append m.symt entry),
      AllAt-append base start m.symt entry a at,
      omega (arith, place),
      ap (λ x. x + s.st_size) counted ∙ sym (tally-append no_lines m.symt entry name named),
      AllValued-append no_lines m.symt entry v (counted ∙ ap (tally no_lines m.symt) (sym named)),
      All-append (λ t. All (λ x. t.st_shndx ≢ x.sh_name) shs) m.symt entry o outside,
    ) in
    subst (At (InSection base name shs start)) (some_inj.0 r) merged

Outside-split :
    (sh : Section) (shs : List Section) (ss : List Symbol)
    → Outside (sh ∷ shs) ss
    → All (λ s. s.st_shndx ≢ sh.sh_name) ss × Outside shs ss
Outside-split sh shs [] o = (tt, tt)
Outside-split sh shs (s ∷ ss) ((n, q), o) =
    let (ns, qs) = Outside-split sh shs ss o in ((n, ns), (q, qs))

merge_sections-AllAt :
    (srcs : List Elf) (n start : ℕ) (shs : List Section) (base : List ℕ → ℕ) (m m' : Merge)
    → Distinct shs
    → merge_sections srcs n shs m ≡ some m'
    → m.line_written ≡ start + lines_of m.symt
    → AllAt base start m.symt
    → AllValued no_lines m.symt
    → Outside shs m.symt
    → ((base' : List ℕ → ℕ) × AllAt base' start m'.symt) × AllValued no_lines m'.symt
unfolding merge_sections Keeps
merge_sections-AllAt srcs n start [] base m m' d e lines a v o = (
  (base, subst (λ x. AllAt base start x.symt) (some_inj.0 e) a),
  subst (λ x. AllValued no_lines x.symt) (some_inj.0 e) v,
)
merge_sections-AllAt srcs n start (sh ∷ shs) base m m' (apart, d) e lines a v o =
    let name = sh.sh_name in
    let base' = first_row base name m.line_written in
    let (others, rest) = Outside-split sh shs m.symt o in
    let m₀ : Merge = record m { sym_section_offset = 0 } in
    let (m₁, p, q) = >>=-eq-some (merge_files 0 srcs name n m₀) _ e in
    let here : base' name ≡ m.line_written = rw (same_refl name) refl in
    let keeps =
      merge_files-Keeps srcs n name (InSection base' name shs start)
        (merge_symbol-InSection base' shs start srcs n name apart) in
    let (lines₁, a₁, _, _, v₁, o₁) = keeps m₀ m₁ p (
      lines,
      AllAt-first_row base name m.line_written start m.symt others a,
      omega (arith, here),
      sym (tally-others no_lines m.symt name others),
      v,
      rest,
    ) in
    merge_sections-AllAt srcs n start shs base' m₁ m' d q lines₁ a₁ v₁ o₁

print_table-symt :
    (block : ℕ → Option Symbol) (line_count sym_count : ℕ) (m m' : Merge)
    → print_table block line_count sym_count m ≡ some m'
    → m.symt ≡ m'.symt
unfolding print_table
print_table-symt block line_count sym_count m m' e =
    let printing = unset_from block (length m.symt) (sym_count - length m.symt) >>= λ rest.
    print_symbols (m.symt ++ rest) m.line_written m.buffer in
    let (b, _, q) = >>=-eq-some printing _ e in
    let m₁ : Merge = record m { buffer = b; line_written = m.line_written + sym_count } in
    let (_, t) = assert-some (m.line_written + sym_count == line_count) (some m₁) m' q in
    ap (λ x. x.symt) (some_inj.0 t)

-- When merge_section succeeds for sections of distinct names, the header rows are as they were,
-- and the rows of the symbols that were set follow them in the order of the symbol table: each
-- entry is that of a symbol of one of the files, its rows are the symbol's rows there, its value
-- is the number of the lines of its section's symbols in front of it, and its first row is that
-- many behind a first row of its section, so that a section's rows are in one piece. Behind them
-- stands one printed row for each entry, the set ones first and then what malloc left in the
-- others, and the rows are as many as the file's line count.
pub merge_section-placed :
    (block : ℕ → Option Symbol) (srcs : List Elf) (sht : List Section) (line_count sym_count : ℕ)
    (smap : List Mapped) (buffer : Texts) (m : Merge)
    → Distinct sht
    → merge_section block srcs sht line_count sym_count smap buffer ≡ some m
    → (2 + length sht + lines_of m.symt + sym_count ≡ line_count)
      × Kept (2 + length sht) buffer m.buffer
      × AllPlaced srcs m.buffer (2 + length sht) m.symt
      × AllValued no_lines m.symt
      × ((base : List ℕ → ℕ) × AllAt base (2 + length sht) m.symt)
      × (rest : List Symbol) × (unset_from block (length m.symt) (sym_count - length m.symt)
          ≡ some rest)
      × Printed m.buffer (2 + length sht + lines_of m.symt) (m.symt ++ rest)
unfolding merge_section lines_of
merge_section-placed block srcs sht line_count sym_count smap buffer m d e =
    let start = 2 + length sht in
    let m₀ : Merge = record {
      smap = smap;
      symt = [];
      buffer = buffer;
      line_written = start;
      sym_section_offset = 0;
    } in
    let (m₁, p, q) = >>=-eq-some (merge_sections srcs sym_count sht m₀) _ e in
    let ((base, a), v) =
      merge_sections-AllAt srcs sym_count start sht (λ _. 0) m₀ m₁ d p (omega arith) tt tt tt in
    let (total, kept, placed, _, rest, unset, printed) =
      merge_section_lem block srcs sht line_count sym_count smap buffer m e in
    let symt = print_table-symt block line_count sym_count m₁ m q in
    (
      total,
      kept,
      placed,
      subst (AllValued no_lines) symt v,
      (base, subst (AllAt base start) symt a),
      rest,
      unset,
      printed,
    )
