-- ===== src/Linker/Sections/Layouts.antt =====
-- src/linker/staticlink.c: where the sections of the linked file lie.
use csapp_stay.Prelude.{
  ℕ, ◌+◌, ◌-◌, ◌*◌, ◌%◌, ◌^◌, ◌<◌, ltb, ◌≡◌, refl, ◌∙◌, ap, arith, true, false, some, List, [], ◌∷◌,
  ◌++◌, map, ◌==◌, ==_iff, length, if◌then◌else◌, same, length-append, Bool-cases, inl, inr,
}
use csapp_stay.Linker.Symbols.{Symbol, Entry, text, rodata, data_section}
use csapp_stay.Linker.Elf.{Section}
use csapp_stay.Linker.Elf.Files.{symtab_name}
use csapp_stay.Linker.Numerals.{long_text}
use csapp_stay.Linker.Relocations.{text_base, inst_size, section_bases, get_sym_runtime_address}
use csapp_stay.Linker.Sections.{
  Counts, count_lines, add_section, count_headers, Headers, data_layout, headers_of,
  compute_section_header, symtab_header, print_section,
}
use csapp_stay.Linker.Sections.Bases.{
  add_section-offset, add_section-length, section_bases-append, bases, start, first_bases, text_end,
  text-bases, other_step, rodata-bases, other_bases,
}

-- The first line behind the sections of the files.
abbrev pub section_end : Counts → ℕ
section_end c = 1 + 1 + count_headers c + c.count_text + c.count_rodata * 8 + c.count_data

-- The counts of a map that fit: none is negative, and neither the address behind .text nor the line
-- count overflows an int.
pub record Fits (c : Counts) (smap_count : ℕ) : Type 0 where
  pub texts : c.count_text < 2 ^ 25
  pub lines : c.count_text + c.count_data + c.count_rodata + smap_count + 2 < 2 ^ 31

data_layout-offset :
    (c : Counts) (n : ℕ) → Fits c n → (data_layout c).section_offset ≡ section_end c
unfolding data_layout
data_layout-offset c n g =
    add_section-offset c.count_data c.count_data data_section _ _ (omega (arith, g.lines)) (λ e. e)
    ∙ ap (λ k. k + c.count_data)
        (add_section-offset c.count_rodata (c.count_rodata * 8) rodata _ _ (omega (arith, g.lines))
            (λ e. omega arith)
          ∙ ap (λ k. k + c.count_rodata * 8)
              (add_section-offset c.count_text c.count_text text _ (start c)
                (omega (arith, g.lines)) (λ e. e)))

pub data_layout-length :
    (c : Counts) (n : ℕ) → Fits c n → length (data_layout c).sht + 1 ≡ count_headers c
unfolding data_layout count_headers
data_layout-length c n g = omega (
  arith,
  add_section-length c.count_data c.count_data data_section
      (text_base + c.count_text * 64 + c.count_rodata * 8)
      (add_section c.count_rodata rodata (text_base + c.count_text * 64) (c.count_rodata * 8)
        (add_section c.count_text text text_base c.count_text (start c)))
      (omega (arith, g.lines)),
  add_section-length c.count_rodata (c.count_rodata * 8) rodata (text_base + c.count_text * 64)
      (add_section c.count_text text text_base c.count_text (start c)) (omega (arith, g.lines)),
  add_section-length c.count_text c.count_text text text_base (start c) (omega (arith, g.lines)),
)

data_layout-bases :
    (c : Counts) (n : ℕ)
    → Fits c n
    → section_bases (data_layout c).sht first_bases
      ≡ bases (text_end c.count_text) ((text_end c.count_text + c.count_rodata * 64) % 2 ^ 64)
unfolding data_layout same
data_layout-bases c n g =
    other_bases _ c.count_data _ c.count_data data_section first_bases refl refl
      (omega (arith, g.lines))
    ∙ rodata-bases _ c.count_rodata _ first_bases (text_end c.count_text)
        (text-bases (start c) c.count_text refl (omega (arith, g.lines))) (omega arith)
        (omega (arith, g.lines))

-- The address of a symbol, for the lines of each section.
unfoldable pub address_of : Counts → Symbol → ℕ
address_of c s =
    let text_lines = c.count_text * inst_size in
    if same s.st_shndx text
    then (text_base + inst_size * s.st_value) % 2 ^ 64
    else if same s.st_shndx rodata
    then (text_base + text_lines + 8 * s.st_value) % 2 ^ 64
    else if same s.st_shndx data_section
    then (text_base + text_lines + c.count_rodata * 64 + 8 * s.st_value) % 2 ^ 64
    else 2 ^ 64 - 1

bases-address :
    (c : Counts) (sht : List Section) (s : Symbol)
    → section_bases sht first_bases
      ≡ bases (text_end c.count_text) ((text_end c.count_text + c.count_rodata * 64) % 2 ^ 64)
    → get_sym_runtime_address sht s ≡ address_of c s
unfolding get_sym_runtime_address address_of
bases-address c sht s e = elim (Bool-cases (same s.st_shndx text)) [
  | inl f ↦ rw f refl
  | inr f ↦ elim (Bool-cases (same s.st_shndx rodata)) [
    | inl g ↦ rw (f, g, e) (omega arith)
    | inr g ↦ elim (Bool-cases (same s.st_shndx data_section)) [
      | inl d ↦ rw (f, g, d, e) (omega arith)
      | inr d ↦ rw (f, g, d) refl
    ]
  ]
]

abbrev pub count_of : List Entry → Counts
count_of smap = count_lines smap (record { count_text = 0; count_data = 0; count_rodata = 0 })

-- The two tests of an overflow.
pub fitting :
    (c : Counts) (n : ℕ)
    → Fits c n
    → (ltb c.count_text (2 ^ 25) ≡ true)
      × (ltb (c.count_text + c.count_data + c.count_rodata + n + 1 + 1) (2 ^ 31) ≡ true)
fitting c n g = let t = g.texts in let l = g.lines in (ground (arith, t), ground (arith, l))

not_text : same symtab_name text ≡ false
unfolding same
not_text = refl

not_rodata : same symtab_name rodata ≡ false
unfolding same
not_rodata = refl

-- For every map whose counts fit, that is with fewer than 2^25 lines of .text and a line count
-- that is no overflow of an int, the section headers are computed, as many as counted. The
-- sections end where the counted lines end, with .rodata eight times as long as its lines; with
-- the symbols this is the line count and seven for each line of .rodata. With these headers a
-- symbol's address at run time is that of its section, in the order .text with 88 bytes a line,
-- .rodata with 64 and .data, plus its place in it, modulo 2^64.
pub compute_section_header_lem :
    (sym_count : ℕ) (smap : List Entry) (s : Symbol)
    → Fits (count_of smap) (length smap)
    → (h : Headers) × (compute_section_header sym_count smap ≡ some h)
      × (length h.sht ≡ h.sh_count)
      × (section_end (count_of smap) + length smap
          ≡ h.line_count + (count_of smap).count_rodata * 7)
      × ((data_layout (count_of smap)).section_offset ≡ section_end (count_of smap))
      × (get_sym_runtime_address h.sht s ≡ address_of (count_of smap) s)
unfolding compute_section_header headers_of
compute_section_header_lem sym_count smap s g =
    let c = count_of smap in
    let l = data_layout c in
    let symtab = symtab_header (l.section_offset + length smap) (length smap) in
    let line_count =
      c.count_text + c.count_data + c.count_rodata + length smap + 1 + 1 + count_headers c in
    let printed = l.sht ++ symtab_header l.section_offset (length smap) ∷ [] in
    let counted : (length l.sht + 1 == count_headers c) ≡ true =
      (==_iff _ _).1 (data_layout-length c (length smap) g) in
    let (few, room) = fitting c (length smap) g in
    (
      record {
        sh_count = count_headers c;
        line_count = line_count;
        sht = l.sht ++ symtab ∷ [];
        rows = long_text line_count ∷ long_text sym_count ∷ map print_section printed;
      },
      rw (few, room, counted) refl,
      length-append l.sht (symtab ∷ []) ∙ data_layout-length c (length smap) g,
      omega arith,
      data_layout-offset c (length smap) g,
      bases-address c (l.sht ++ symtab ∷ []) s (
          section_bases-append l.sht symtab first_bases
          ∙ other_step symtab (section_bases l.sht first_bases) not_text not_rodata
          ∙ data_layout-bases c (length smap) g),
    )
