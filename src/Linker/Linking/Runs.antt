-- ===== src/Linker/Linking/Runs.antt =====
-- src/linker/staticlink.c: two files linked, and the theorem at them.
use csapp_stay.Prelude.{ℕ, Option, none, ◌≡◌, refl, some, List, [], ◌∷◌, length, same}
use csapp_stay.Linker.Symbols.{
  Symbol, stb_global, stt_func, stt_object, stt_notype, text, data_section, shn_undef,
  symbol_processing, process_elfs, process_symbols, process_symbol, resolved, search_conflict,
  replace, keep, insert_symbol, simple_resolution, choose_some, choose, symbol_precedence,
  cleanup_all, cleanup,
}
use csapp_stay.Linker.Elf.{Relocation}
use csapp_stay.Linker.Elf.Files.{Elf, find_section}
use csapp_stay.Linker.Relocations.{rela_handler, r_x86_64_32_handler, write_at, as_int}
use csapp_stay.Linker.Sections.{
  count_symbol, count_lines, count_headers, add_section, data_layout, headers_of,
  compute_section_header,
}
use csapp_stay.Linker.Merges.{
  copy_rows, merge_symbol, merge_entries, merge_symbols, merge_file, merge_files, merge_sections,
  merge_section, print_symbols, unset_from, print_table,
}
use csapp_stay.Linker.Processing.{
  dst_symbol, is_reference, search_reference, relocate, visit_reference, visit_entries, after_visit,
  visit_symbols, visit_relocations, visit_files, relocation_processing,
}
use csapp_stay.Linker.Linking.{Eof, set_symbol, set_elf, store_symbols, link_elf}

abbrev main : Symbol
main = record {
  st_name = b'm' ∷ [];
  st_shndx = text;
  bind = stb_global;
  type = stt_func;
  st_value = 0;
  st_size = 2;
}

abbrev array : Symbol
array = record {
  st_name = b'a' ∷ [];
  st_shndx = data_section;
  bind = stb_global;
  type = stt_object;
  st_value = 0;
  st_size = 1;
}

-- The name that main uses.
abbrev undefined : Symbol
undefined = record array { st_shndx = shn_undef; type = stt_notype; st_size = 0 }

abbrev file : List (List ℕ) → List ℕ → List Symbol → List Relocation → Elf
file buffer name symt rs = record {
  buffer = buffer;
  line_count = length buffer;
  sh_count = 1;
  sht = record { sh_name = name; sh_addr = 0; sh_offset = 1; sh_size = 1 } ∷ [];
  sym_count = length symt;
  symt = symt;
  reltext_count = length rs;
  reltext = rs;
  reldata_count = 0;
  reldata = [];
}

-- The second instruction of main has the array's address at column 4.
abbrev srcs : List Elf
srcs =
    file ((b'#' ∷ []) ∷ (b'x' ∷ []) ∷ (b'y' ∷ []) ∷ []) text (main ∷ undefined ∷ [])
      (record { r_row = 1; r_col = 4; r_type = 0; sym = 1; r_addend = 0 } ∷ [])
    ∷ file ((b'#' ∷ []) ∷ (b'z' ∷ []) ∷ []) data_section (array ∷ []) []
    ∷ []

abbrev block : ℕ → Option Symbol
block j = none

linked : (k : Eof) × (link_elf block srcs ≡ some k)
unfolding link_elf store_symbols set_elf set_symbol symbol_processing process_elfs process_symbols
    process_symbol resolved search_conflict replace keep insert_symbol simple_resolution choose_some
    choose symbol_precedence cleanup_all cleanup same compute_section_header headers_of data_layout
    add_section count_headers count_lines count_symbol copy_rows merge_symbol merge_entries
    merge_symbols merge_file merge_files merge_sections merge_section print_symbols unset_from
    print_table dst_symbol is_reference search_reference relocate visit_reference visit_entries
    after_visit visit_symbols visit_relocations visit_files relocation_processing find_section
    rela_handler r_x86_64_32_handler write_at as_int
linked = (_, refl)
