-- ===== src/Linker/Linking/Headers.antt =====
-- src/linker/staticlink.c: the header rows of the linked file.
use mathlib.Core.Path.{subst}
use mathlib.Core.Option.{some_inj}
use csapp_stay.Prelude.{
  sym, ℕ, ◌+◌, ◌≤◌, ◌<◌, ◌≡◌, ◌∙◌, ap, arith, Option-cases, Bool-cases, inl, inr, some, List, [],
  ◌∷◌, ◌++◌, map, length, get_elem?, same, zero, suc, ◌^◌, ltb, none, Option,
}
use csapp_stay.Linker.Symbols.{Symbol, Entry, symbol_processing, text, data_section}
use csapp_stay.Linker.Elf.{Section, parse_sh}
use csapp_stay.Linker.Elf.Files.{Elf, find_section, parse_rows}
use csapp_stay.Linker.Elf.Files.Tables.{All, >>=-eq-some}
use csapp_stay.Linker.Numerals.{long_text}
use csapp_stay.Linker.Sections.{
  Headers, compute_section_header, symtab_header, count_lines, count_headers, headers_of,
  data_layout, add_section,
}
use csapp_stay.Linker.Sections.Layouts.{Fits, count_of}
use csapp_stay.Linker.Sections.Rows.{compute_section_header-rows}
use csapp_stay.Linker.Merges.{merge_section}
use csapp_stay.Linker.Merges.Placements.{lines_of, All-map}
use csapp_stay.Linker.Merges.Results.{merge_section_lem, merge_section-room}
use csapp_stay.Linker.Processing.{Linked, relocation_processing}
use csapp_stay.Linker.Processing.Frames.{Behind}
use csapp_stay.Linker.Processing.Headers.{AllForward, relocation_processing-Framed}
use csapp_stay.Linker.Linking.{Eof, set_elf, store_symbols, mapped, texts_of, bytes_of, link_elf}

find_section-Behind :
    (h : ℕ) (name : List ℕ) (ss : List Section)
    → All (λ s. (h ≤ s.sh_offset) × (s.sh_offset < 2 ^ 55)) ss
    → Behind h (find_section name ss)
unfolding find_section
find_section-Behind h name [] a = tt
find_section-Behind h name (s ∷ ss) (p, a) = elim (Option-cases (find_section name ss)) [
  | inr (t, e) ↦ let rest = find_section-Behind h name ss a in rw e (rw e at rest)
  | inl e ↦ elim (Bool-cases (same s.sh_name name)) [ inl q ↦ rw (e, q) p | inr q ↦ rw (e, q) tt ]
]

-- The symbols of a file are changed, its relocations are not.
set_elf-AllForward :
    (i j : ℕ) (s : Symbol) (srcs : List Elf) → AllForward srcs → AllForward (set_elf i j s srcs)
unfolding set_elf
set_elf-AllForward i j s [] f = tt
set_elf-AllForward zero j s (elf ∷ srcs) f = f
set_elf-AllForward (suc i) j s (elf ∷ srcs) (p, f) = (p, set_elf-AllForward i j s srcs f)

store_symbols-AllForward :
    (smap : List Entry) (srcs : List Elf) → AllForward srcs → AllForward (store_symbols smap srcs)
unfolding store_symbols
store_symbols-AllForward [] srcs f = f
store_symbols-AllForward (e ∷ smap) srcs f =
    store_symbols-AllForward smap (set_elf e.elf e.index e.src srcs)
      (set_elf-AllForward e.elf e.index e.src srcs f)

-- A map whose headers are computed fits.
compute_section_header-Fits :
    (n : ℕ) (smap : List Entry) (h : Headers)
    → compute_section_header n smap ≡ some h
    → Fits (count_of smap) (length smap)
unfolding compute_section_header headers_of
compute_section_header-Fits n smap h e =
    let c = count_of smap in
    let lines = c.count_text + c.count_data + c.count_rodata + length smap + 1 + 1 in
    let few = Bool-cases (ltb c.count_text (2 ^ 25)) in
    let room = Bool-cases (ltb lines (2 ^ 31)) in
    elim few [
      | inr p ↦ let f : none ≡ some h = rw p at e in cc f
      | inl p ↦ elim room [
        | inr q ↦ let f : none ≡ some h = rw (p, q) at e in cc f
        | inl q ↦ record { texts = ground (arith, p); lines = ground (arith, q) }
      ]
    ]

-- What compute_section_header leaves for n symbols.
abbrev HeaderRows : ℕ → Headers → Type 0
HeaderRows n h =
    (front : List Section) × (offset : ℕ) × (parse_rows parse_sh h.rows 2 h.sh_count
      ≡ some (front ++ symtab_header offset n ∷ []))
    × (length h.sht ≡ h.sh_count)
    × (h.sht ≡ front ++ symtab_header (offset + n) n ∷ [])
    × (get_elem? h.rows 0 ≡ some (long_text h.line_count))
    × All (λ s. (2 + h.sh_count ≤ s.sh_offset) × (s.sh_offset < 2 ^ 55)) h.sht

compute_section_header-HeaderRows :
    (n : ℕ) (smap : List Entry) (h : Headers)
    → compute_section_header n smap ≡ some h
    → HeaderRows (length smap) h
compute_section_header-HeaderRows n smap h e =
    let (h', front, e', offset, read, len, sht, first, behind) =
      compute_section_header-rows n smap (compute_section_header-Fits n smap h e) in
    subst (HeaderRows (length smap)) (some_inj.0 (sym e' ∙ e))
      (front, offset, read, len, sht, first, behind)

-- The header of no symbols.
no_symbols-lines :
    (n : ℕ) (smap : List Entry) (h : Headers)
    → compute_section_header n smap ≡ some h
    → length smap ≡ 0
    → h.line_count ≡ 3
unfolding compute_section_header headers_of count_lines count_headers data_layout add_section
no_symbols-lines n [] h e z = ap (λ t. t.line_count) (some_inj.0 (sym e))
no_symbols-lines n (x ∷ smap) h e z = absurd (omega (arith, z))

-- What the linked file has at the row r of its header.
abbrev pub Headed : Eof → ℕ → Type 0
Headed k r =
    (rows : List (List ℕ)) × (front : List Section) × (offset : ℕ) × (parse_rows parse_sh rows 2
        k.sh_count
      ≡ some (front ++ symtab_header offset k.sym_count ∷ []))
    × (k.sht ≡ front ++ symtab_header (offset + k.sym_count) k.sym_count ∷ [])
    × (get_elem? rows 0 ≡ some (long_text k.line_count))
    × (k.buffer r ≡ bytes_of (texts_of rows) r)
    × (2 + k.sh_count + lines_of k.symt + k.sym_count ≡ k.line_count)

pub link_elf_lem :
    (block : ℕ → Option Symbol) (srcs : List Elf) (k : Eof) (r : ℕ)
    → AllForward srcs
    → link_elf block srcs ≡ some k
    → r < 2 + k.sh_count
    → (rows : List (List ℕ)) × (front : List Section) × (offset : ℕ) × (parse_rows parse_sh rows 2
          k.sh_count
        ≡ some (front ++ symtab_header offset k.sym_count ∷ []))
      × (k.sht ≡ front ++ symtab_header (offset + k.sym_count) k.sym_count ∷ [])
      × (get_elem? rows 0 ≡ some (long_text k.line_count))
      × (k.buffer r ≡ bytes_of (texts_of rows) r)
      × (2 + k.sh_count + lines_of k.symt + k.sym_count ≡ k.line_count)
unfolding link_elf
link_elf_lem block srcs k r forward e =
    let (smap, _, e₀) = >>=-eq-some (symbol_processing (map (λ elf. elf.symt) srcs)) _ e in
    let n = length smap in
    let sources = store_symbols smap srcs in
    let (h, eh, e₁) = >>=-eq-some (compute_section_header n smap) _ e₀ in
    let start = texts_of h.rows in
    let merging = merge_section block sources h.sht h.line_count n (map mapped smap) start in
    let (m, em, e₂) = >>=-eq-some merging _ e₁ in
    let room = merge_section-room block sources h.sht h.line_count n (map mapped smap) start m em in
    let (front, offset, read, len, sht, first, behind) =
      compute_section_header-HeaderRows n smap h eh in
    let (total, kept, _, values, _, _, _) =
      merge_section_lem block sources h.sht h.line_count n (map mapped smap) start m em in
    let short : h.line_count ≤ 64 = elim room [
      | inl z ↦ omega (arith, no_symbols-lines n smap h eh z)
      | inr f ↦ f
    ] in
    let low =
      All-map (λ s. s.st_value ≤ h.line_count) (λ s. s.st_value < 2 ^ 30) m.symt
        (λ s le. omega (arith, le, short)) values in
    let linked : Linked = record { sht = h.sht; symt = m.symt; smap = m.smap } in
    let (b, eb, e₃) = >>=-eq-some (relocation_processing sources linked (bytes_of m.buffer)) _ e₂ in
    let at = λ (name : List ℕ). find_section-Behind (2 + h.sh_count) name h.sht behind in
    let framed =
      relocation_processing-Framed sources linked (bytes_of m.buffer) b (2 + h.sh_count) (at text)
        (at data_section) low (store_symbols-AllForward smap srcs forward) eb in
    subst (λ k. r < 2 + k.sh_count → Headed k r) (some_inj.0 e₃)
      (λ hr. (
        h.rows,
        front,
        offset,
        read,
        sht,
        first,
        framed r hr ∙ ap (λ t. bytes_of (λ x. t) r) (kept r (omega (arith, hr, len))),
        omega (arith, total, len),
      ))
