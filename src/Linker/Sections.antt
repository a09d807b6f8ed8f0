-- ===== src/Linker/Sections.antt =====
-- src/linker/staticlink.c: the section headers of the linked file, and the rows printed from them.
pub mod Bases
pub mod Layouts
pub mod Rows
mod Runs
use csapp_stay.Prelude.{
  ℕ, zero, suc, ◌+◌, ◌*◌, ◌%◌, ◌^◌, ◌&&◌, Bool, true, false, Option, none, some, List, [], ◌∷◌,
  ◌++◌, map, ◌==◌, ltb, length, if◌then◌else◌, same,
}
use csapp_stay.Linker.Symbols.{Symbol, Entry, text, rodata, data_section}
use csapp_stay.Linker.Elf.{Section, assert, ◌>>=◌, ◌>>◌}
use csapp_stay.Linker.Elf.Files.{symtab_name}
use csapp_stay.Linker.Elf.Columns.{join}
use csapp_stay.Linker.Numerals.{long_text, address_text}
use csapp_stay.Linker.Relocations.{text_base}

-- The lines of each section: an int is the remainder of its value modulo 2^32, which is 2^31 or
-- more if it is negative.
pub record Counts : Type 0 where
  pub count_text : ℕ
  pub count_data : ℕ
  pub count_rodata : ℕ

unfoldable pub count_symbol : Symbol → Counts → Counts
count_symbol sym c =
    if same sym.st_shndx text
    then record c { count_text = (c.count_text + sym.st_size) % 2 ^ 32 }
    else if same sym.st_shndx data_section
    then record c { count_data = (c.count_data + sym.st_size) % 2 ^ 32 }
    else if same sym.st_shndx rodata
    then record c { count_rodata = (c.count_rodata + sym.st_size) % 2 ^ 32 }
    else c

unfoldable pub count_lines : List Entry → Counts → Counts
count_lines [] c = c
count_lines (e ∷ smap) c = count_lines smap (count_symbol e.src c)

-- The headers written so far, and `section_offset`.
pub record Layout : Type 0 where
  pub sht : List Section
  pub section_offset : ℕ

abbrev pub positive : ℕ → Bool
positive count = ltb 0 count && ltb count (2 ^ 31)

-- One header, if its count is positive.
unfoldable pub add_section : ℕ → List ℕ → ℕ → ℕ → Layout → Layout
add_section count name addr size l =
    if positive count
    then record {
      sht =
          l.sht
          ++ record { sh_name = name; sh_addr = addr; sh_offset = l.section_offset; sh_size = size }
            ∷ [];
      section_offset = l.section_offset + size;
    }
    else l

abbrev pub one_if : ℕ → ℕ
one_if n = if n == 0 then 0 else 1

unfoldable pub count_headers : Counts → ℕ
count_headers c = one_if c.count_text + one_if c.count_data + one_if c.count_rodata + 1

-- `dst->sh_count`, `dst->line_count`, `dst->sht` and the first rows of `dst->buffer`.
pub record Headers : Type 0 where
  pub sh_count : ℕ
  pub line_count : ℕ
  pub sht : List Section
  pub rows : List (List ℕ)

unfoldable pub data_layout : Counts → Layout
data_layout c =
    let rodata_addr = text_base + c.count_text * 64 in
    let data_addr = rodata_addr + c.count_rodata * 8 in
    let start : Layout = record { sht = []; section_offset = 1 + 1 + count_headers c } in
    add_section c.count_data data_section data_addr c.count_data (
      add_section c.count_rodata rodata rodata_addr (c.count_rodata * 8)
        (add_section c.count_text text text_base c.count_text start))

-- The line "%s,0x%lx,%ld,%ld".
abbrev pub print_section : Section → List ℕ
print_section sh =
    join sh.sh_name (address_text sh.sh_addr ∷ long_text sh.sh_offset ∷ long_text sh.sh_size ∷ [])

-- The header of .symtab at an offset: it is printed with that of its first line, and moved behind
-- the symbols then.
abbrev pub symtab_header : ℕ → ℕ → Section
symtab_header offset smap_count = record {
  sh_name = symtab_name;
  sh_addr = 0;
  sh_offset = offset;
  sh_size = smap_count;
}

-- `none` is the overflow of an int, in the address behind .text or in the line count, or the failed
-- assertion. A negative count fails it: it is counted, but has no header.
unfoldable pub headers_of : ℕ → Counts → ℕ → Option Headers
headers_of sym_count c smap_count =
    let l = data_layout c in
    let sh_count = count_headers c in
    let line_count = c.count_text + c.count_data + c.count_rodata + smap_count + 1 + 1 + sh_count in
    let printed = l.sht ++ symtab_header l.section_offset smap_count ∷ [] in
    assert (ltb c.count_text (2 ^ 25))
    >> assert (ltb (c.count_text + c.count_data + c.count_rodata + smap_count + 1 + 1) (2 ^ 31))
    >> assert (length l.sht + 1 == sh_count)
    >> some (record {
      sh_count = sh_count;
      line_count = line_count;
      sht = l.sht ++ symtab_header (l.section_offset + smap_count) smap_count ∷ [];
      rows = long_text line_count ∷ long_text sym_count ∷ map print_section printed;
    })

-- `sym_count` is `dst->sym_count`.
unfoldable pub compute_section_header : ℕ → List Entry → Option Headers
compute_section_header sym_count smap =
    headers_of sym_count
      (count_lines smap (record { count_text = 0; count_data = 0; count_rodata = 0 })) (length smap)
