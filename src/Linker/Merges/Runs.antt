-- ===== src/Linker/Merges/Runs.antt =====
-- src/linker/staticlink.c: tests of merge_section, and the theorems at concrete inputs.
use csapp_stay.Prelude.{
  ℕ, Option, ◌+◌, ◌-◌, ◌++◌, ◌≡◌, refl, arith, none, some, List, [], ◌∷◌, length, same, same_ne,
}
use csapp_stay.Linker.Symbols.{Symbol, stb_global, stt_func, stt_object, data_section}
use csapp_stay.Linker.Elf.{Section, parse_symtab}
use csapp_stay.Linker.Elf.Columns.{IsColumn}
use csapp_stay.Linker.Elf.Dictionary.{init_constant_dict-built}
use csapp_stay.Linker.Elf.Files.{Elf, find_section}
use csapp_stay.Linker.Elf.Symbols.{print_symbol}
use csapp_stay.Linker.Numerals.{long_text}
use csapp_stay.Linker.Merges.{
  Texts, Mapped, Merge, copy_rows, merge_symbol, merge_entries, merge_symbols, merge_file,
  merge_files, merge_sections, merge_section, print_symbols, unset_from, print_table,
}
use csapp_stay.Linker.Merges.Copies.{Kept}
use csapp_stay.Linker.Merges.Placements.{lines_of, AllPlaced}
use csapp_stay.Linker.Merges.Results.{Printed}
use csapp_stay.Linker.Merges.Values.{AllAt, Distinct, merge_section-placed}
use csapp_stay.Linker.Merges.Tallies.{AllValued, no_lines}
use csapp_stay.Linker.Merges.Numerals.{parse_symtab-long_text}

abbrev main : Symbol
main = record {
  st_name = b'm' ∷ b'a' ∷ b'i' ∷ b'n' ∷ [];
  st_shndx = b'.' ∷ b't' ∷ b'e' ∷ b'x' ∷ b't' ∷ [];
  bind = stb_global;
  type = stt_func;
  st_value = 0;
  st_size = 2;
}

main_name : IsColumn main.st_name
main_name = (
  (
    (λ e. absurd (omega arith)),
    ((λ e. absurd (omega arith)), ((λ e. absurd (omega arith)), ((λ e. absurd (omega arith)), tt))),
  ),
  omega arith,
)

main_shndx : IsColumn main.st_shndx
main_shndx = (
  (
    (λ e. absurd (omega arith)),
    (
      (λ e. absurd (omega arith)),
      (
        (λ e. absurd (omega arith)),
        ((λ e. absurd (omega arith)), ((λ e. absurd (omega arith)), tt)),
      ),
    ),
  ),
  omega arith,
)

abbrev array : Symbol
array = record {
  st_name = b'a' ∷ [];
  st_shndx = data_section;
  bind = stb_global;
  type = stt_object;
  st_value = 0;
  st_size = 1;
}

abbrev header : List ℕ → ℕ → ℕ → Section
header name offset size = record { sh_name = name; sh_addr = 0; sh_offset = offset; sh_size = size }

-- A file with one section and one symbol.
abbrev file : Symbol → List (List ℕ) → Elf
file s buffer = record {
  buffer = buffer;
  line_count = length buffer;
  sh_count = 1;
  sht = header s.st_shndx 1 s.st_size ∷ [];
  sym_count = 1;
  symt = s ∷ [];
  reltext_count = 0;
  reltext = [];
  reldata_count = 0;
  reldata = [];
}

-- A function of two rows, and an array of one.
abbrev srcs : List Elf
srcs =
    file main ((b'#' ∷ []) ∷ (b'x' ∷ []) ∷ (b'y' ∷ []) ∷ [])
    ∷ file array ((b'#' ∷ []) ∷ (b'z' ∷ []) ∷ [])
    ∷ []

abbrev sht : List Section
sht = header main.st_shndx 4 2 ∷ header data_section 6 1 ∷ []

-- The map has the array first.
abbrev smap : List Mapped
smap = record { elf = 1; index = 0; dst = none } ∷ record { elf = 0; index = 0; dst = none } ∷ []

abbrev empty : Texts
empty r = []

-- The block of the table, of which nothing is read.
abbrev block : ℕ → Option Symbol
block j = none

linked : (m : Merge) × (merge_section block srcs sht 9 2 smap empty ≡ some m)
unfolding copy_rows merge_symbol merge_entries merge_symbols merge_file merge_files merge_sections
    merge_section print_symbols unset_from print_table find_section same
linked = (_, refl)

-- The array is the second symbol of the linked file.
array_entry :
    linked.0.smap
    ≡ record { elf = 1; index = 0; dst = some 1 } ∷ record { elf = 0; index = 0; dst = some 0 } ∷ []
unfolding linked
array_entry = refl

array_row : linked.0.buffer 6 ≡ b'z' ∷ []
unfolding linked
array_row = refl

sht-Distinct : Distinct sht
unfolding same
sht-Distinct = ((same_ne _ _ refl, tt), (tt, tt))

merge_section-placed_example :
    (2 + length sht + lines_of linked.0.symt + 2 ≡ 9)
    × Kept (2 + length sht) empty linked.0.buffer
    × AllPlaced srcs linked.0.buffer (2 + length sht) linked.0.symt
    × AllValued no_lines linked.0.symt
    × ((base : List ℕ → ℕ) × AllAt base (2 + length sht) linked.0.symt)
    × (rest : List Symbol) × (unset_from block (length linked.0.symt) (2 - length linked.0.symt)
        ≡ some rest)
    × Printed linked.0.buffer (2 + length sht + lines_of linked.0.symt) (linked.0.symt ++ rest)
merge_section-placed_example =
    merge_section-placed block srcs sht 9 2 smap empty linked.0 sht-Distinct linked.1

-- "main,STB_GLOBAL,STT_FUNC,.text,0,2"
parse_symtab-long_text_example :
    parse_symtab (init_constant_dict-built []).0 (print_symbol main (long_text 0) (long_text 2))
    ≡ some main
parse_symtab-long_text_example =
    parse_symtab-long_text (init_constant_dict-built []).0 main (init_constant_dict-built []).1
      main_name main_shndx (omega arith) (omega arith) (omega arith)
