-- ===== src/Linker/Driver/Runs.antt =====
-- src/linker/linker.c: a run of the program, and the theorems at concrete inputs.
use csapp_stay.Prelude.{
  false, ℕ, ◌≡◌, refl, Option, none, some, List, [], ◌∷◌, ◌++◌, same, length, if◌then◌else◌,
}
use csapp_stay.Convert.{string2uint, run, step}
use csapp_stay.Hash.{
  HashTable, hashtable_get, find, hash_function, hash_function_index, create_bucket,
  hashtable_construct, copy_directory, double_directory, push, rehash_pair, rehash,
  update_directory, split_at, split_bucket, bucket_address, hashtable_insert,
}
use csapp_stay.Linker.Symbols.{
  Symbol, stb_global, stt_func, text, symbol_processing, process_elfs, process_symbols,
  process_symbol, resolved, search_conflict, replace, keep, insert_symbol, simple_resolution,
  choose_some, choose, symbol_precedence, cleanup_all, cleanup,
}
use csapp_stay.Linker.Elf.{
  table_columns, count_columns, parse_table_entry, bind_of, type_of, parse_sh, parse_symtab,
  parse_reloution, insert_constants, init_constant_dict, get_stb_string, get_stt_string,
}
use csapp_stay.Linker.Elf.Columns.{join}
use csapp_stay.Linker.Elf.Files.{
  Elf, symtab_name, is_empty, is_white, copy_line, read_lines, read_elf, parse_rows, find_section,
  check_relocation, parse_relocations, parse_buffer, parse_elf, write_eof,
}
use csapp_stay.Linker.Relocations.{rela_handler}
use csapp_stay.Linker.Numerals.{digits_of, long_text, address_text}
use csapp_stay.Linker.Sections.{
  count_symbol, count_lines, count_headers, add_section, data_layout, headers_of,
  compute_section_header,
}
use csapp_stay.Linker.Merges.{
  copy_rows, merge_symbol, merge_entries, merge_symbols, merge_file, merge_files, merge_sections,
  merge_section, print_symbols, unset_from, print_table,
}
use csapp_stay.Linker.Processing.{
  dst_symbol, is_reference, search_reference, relocate, visit_reference, visit_entries, after_visit,
  visit_symbols, visit_relocations, visit_files, relocation_processing,
}
use csapp_stay.Linker.Linking.{Eof, set_symbol, set_elf, store_symbols, link_elf}
use csapp_stay.Linker.Driver.{
  given, parse_arguments, add_name, path_of, parse_files, string_at, strings_from, written_to,
  link_names, main, executable_dir,
}
use csapp_stay.Linker.Driver.Counts.{main-count}

-- The file a.elf.txt, with one instruction and its symbol.
abbrev object : List (List ℕ)
object =
    (b'6' ∷ 10 ∷ [])
    ∷ (b'2' ∷ 10 ∷ [])
    ∷ (b'.' ∷ b't' ∷ b'e' ∷ b'x' ∷ b't' ∷ b',' ∷ b'0' ∷ b'x' ∷ b'0' ∷ b',' ∷ b'4' ∷ b',' ∷ b'1' ∷ 10
        ∷ [])
    ∷ (b'.' ∷ b's' ∷ b'y' ∷ b'm' ∷ b't' ∷ b'a' ∷ b'b' ∷ b',' ∷ b'0' ∷ b'x' ∷ b'0' ∷ b',' ∷ b'5'
        ∷ b',' ∷ b'1' ∷ 10 ∷ [])
    ∷ (b'm' ∷ b'o' ∷ b'v' ∷ 10 ∷ [])
    ∷ (b'm' ∷ b'a' ∷ b'i' ∷ b'n' ∷ b',' ∷ b'S' ∷ b'T' ∷ b'B' ∷ b'_' ∷ b'G' ∷ b'L' ∷ b'O' ∷ b'B'
        ∷ b'A' ∷ b'L' ∷ b',' ∷ b'S' ∷ b'T' ∷ b'T' ∷ b'_' ∷ b'F' ∷ b'U' ∷ b'N' ∷ b'C' ∷ b',' ∷ b'.'
        ∷ b't' ∷ b'e' ∷ b'x' ∷ b't' ∷ b',' ∷ b'0' ∷ b',' ∷ b'1' ∷ 10 ∷ [])
    ∷ []

abbrev files : List ℕ → Option (List (List ℕ))
files path =
    if same path
      (executable_dir ++ b'/' ∷ b'a' ∷ b'.' ∷ b'e' ∷ b'l' ∷ b'f' ∷ b'.' ∷ b't' ∷ b'x' ∷ b't' ∷ [])
    then some object
    else none

abbrev argv : List (List ℕ)
argv = (b'a' ∷ []) ∷ (b'-' ∷ b'o' ∷ []) ∷ (b'b' ∷ []) ∷ []

abbrev written_path : List ℕ
written_path =
    executable_dir ++ b'/' ∷ b'b' ∷ b'.' ∷ b'e' ∷ b'o' ∷ b'f' ∷ b'.' ∷ b't' ∷ b'x' ∷ b't' ∷ []

-- The file b.eof.txt, with the symbols' number where parse_elf reads that of the sections.
abbrev written_lines : List (List ℕ)
written_lines =
    (b'6' ∷ 10 ∷ [])
    ∷ (b'1' ∷ 10 ∷ [])
    ∷ (b'.' ∷ b't' ∷ b'e' ∷ b'x' ∷ b't' ∷ b',' ∷ b'0' ∷ b'x' ∷ b'4' ∷ b'0' ∷ b'0' ∷ b'0' ∷ b'0'
        ∷ b'0' ∷ b',' ∷ b'4' ∷ b',' ∷ b'1' ∷ 10 ∷ [])
    ∷ (b'.' ∷ b's' ∷ b'y' ∷ b'm' ∷ b't' ∷ b'a' ∷ b'b' ∷ b',' ∷ b'0' ∷ b'x' ∷ b'0' ∷ b',' ∷ b'5'
        ∷ b',' ∷ b'1' ∷ 10 ∷ [])
    ∷ (b'm' ∷ b'o' ∷ b'v' ∷ 10 ∷ [])
    ∷ (b'm' ∷ b'a' ∷ b'i' ∷ b'n' ∷ b',' ∷ b'S' ∷ b'T' ∷ b'B' ∷ b'_' ∷ b'G' ∷ b'L' ∷ b'O' ∷ b'B'
        ∷ b'A' ∷ b'L' ∷ b',' ∷ b'S' ∷ b'T' ∷ b'T' ∷ b'_' ∷ b'F' ∷ b'U' ∷ b'N' ∷ b'C' ∷ b',' ∷ b'.'
        ∷ b't' ∷ b'e' ∷ b'x' ∷ b't' ∷ b',' ∷ b'0' ∷ b',' ∷ b'1' ∷ 10 ∷ [])
    ∷ []

abbrev elf : Elf
elf = record {
  buffer =
      (b'6' ∷ [])
      ∷ (b'2' ∷ [])
      ∷ (b'.' ∷ b't' ∷ b'e' ∷ b'x' ∷ b't' ∷ b',' ∷ b'0' ∷ b'x' ∷ b'0' ∷ b',' ∷ b'4' ∷ b',' ∷ b'1'
          ∷ [])
      ∷ (b'.' ∷ b's' ∷ b'y' ∷ b'm' ∷ b't' ∷ b'a' ∷ b'b' ∷ b',' ∷ b'0' ∷ b'x' ∷ b'0' ∷ b',' ∷ b'5'
          ∷ b',' ∷ b'1' ∷ [])
      ∷ (b'm' ∷ b'o' ∷ b'v' ∷ [])
      ∷ (b'm' ∷ b'a' ∷ b'i' ∷ b'n' ∷ b',' ∷ b'S' ∷ b'T' ∷ b'B' ∷ b'_' ∷ b'G' ∷ b'L' ∷ b'O' ∷ b'B'
          ∷ b'A' ∷ b'L' ∷ b',' ∷ b'S' ∷ b'T' ∷ b'T' ∷ b'_' ∷ b'F' ∷ b'U' ∷ b'N' ∷ b'C' ∷ b',' ∷ b'.'
          ∷ b't' ∷ b'e' ∷ b'x' ∷ b't' ∷ b',' ∷ b'0' ∷ b',' ∷ b'1' ∷ [])
      ∷ [];
  line_count = 6;
  sh_count = 2;
  sht =
      record { sh_name = text; sh_addr = 0; sh_offset = 4; sh_size = 1 }
      ∷ record { sh_name = symtab_name; sh_addr = 0; sh_offset = 5; sh_size = 1 }
      ∷ [];
  sym_count = 1;
  symt =
      record {
        st_name = b'm' ∷ b'a' ∷ b'i' ∷ b'n' ∷ [];
        st_shndx = text;
        bind = stb_global;
        type = stt_func;
        st_value = 0;
        st_size = 1;
      }
      ∷ [];
  reltext_count = 0;
  reltext = [];
  reldata_count = 0;
  reldata = [];
}

parsed : (d : HashTable) × (parse_files files ((b'a' ∷ []) ∷ []) none ≡ some (elf ∷ [], some d))
unfolding parse_files path_of same string2uint run step hashtable_get find hash_function
    hash_function_index create_bucket hashtable_construct copy_directory double_directory push
    rehash_pair rehash update_directory split_at split_bucket bucket_address hashtable_insert
    table_columns count_columns parse_table_entry bind_of type_of parse_sh parse_symtab
    parse_reloution insert_constants init_constant_dict is_empty is_white copy_line read_lines
    read_elf parse_rows find_section check_relocation parse_relocations parse_buffer parse_elf
parsed = (_, refl)

abbrev block : ℕ → Option Symbol
block j = none

linked : (k : Eof) × (link_elf block (elf ∷ []) ≡ some k)
unfolding same link_elf store_symbols set_elf set_symbol symbol_processing process_elfs
    process_symbols process_symbol resolved search_conflict replace keep insert_symbol
    simple_resolution choose_some choose symbol_precedence cleanup_all cleanup
    compute_section_header headers_of data_layout add_section count_headers count_lines count_symbol
    copy_rows merge_symbol merge_entries merge_symbols merge_file merge_files merge_sections
    merge_section print_symbols unset_from print_table dst_symbol is_reference search_reference
    relocate visit_reference visit_entries after_visit visit_symbols visit_relocations visit_files
    relocation_processing find_section rela_handler
linked = (_, refl)

abbrev texts : List (List ℕ)
texts =
    (b'6' ∷ [])
    ∷ (b'1' ∷ [])
    ∷ (b'.' ∷ b't' ∷ b'e' ∷ b'x' ∷ b't' ∷ b',' ∷ b'0' ∷ b'x' ∷ b'4' ∷ b'0' ∷ b'0' ∷ b'0' ∷ b'0'
        ∷ b'0' ∷ b',' ∷ b'4' ∷ b',' ∷ b'1' ∷ [])
    ∷ (b'.' ∷ b's' ∷ b'y' ∷ b'm' ∷ b't' ∷ b'a' ∷ b'b' ∷ b',' ∷ b'0' ∷ b'x' ∷ b'0' ∷ b',' ∷ b'5'
        ∷ b',' ∷ b'1' ∷ [])
    ∷ (b'm' ∷ b'o' ∷ b'v' ∷ [])
    ∷ (b'm' ∷ b'a' ∷ b'i' ∷ b'n' ∷ b',' ∷ b'S' ∷ b'T' ∷ b'B' ∷ b'_' ∷ b'G' ∷ b'L' ∷ b'O' ∷ b'B'
        ∷ b'A' ∷ b'L' ∷ b',' ∷ b'S' ∷ b'T' ∷ b'T' ∷ b'_' ∷ b'F' ∷ b'U' ∷ b'N' ∷ b'C' ∷ b',' ∷ b'.'
        ∷ b't' ∷ b'e' ∷ b'x' ∷ b't' ∷ b',' ∷ b'0' ∷ b',' ∷ b'1' ∷ [])
    ∷ []

strings : strings_from linked.0.line_count 0 linked.0.buffer ≡ some texts
unfolding linked strings_from string_at long_text digits_of address_text join get_stb_string
    get_stt_string
strings = refl

finished : main block files argv ≡ some (written_to written_path written_lines)
unfolding main parse_arguments add_name link_names path_of write_eof same
finished = rw (parsed.1, linked.1, strings) refl

names :
    parse_arguments false (record { elf_fn = []; eof_fn = none }) argv
    ≡ some (given (record { elf_fn = (b'a' ∷ []) ∷ []; eof_fn = some (b'b' ∷ []) }))
unfolding parse_arguments add_name same
names = refl

main-count_example :
    (rest : List (List ℕ)) × (written_lines ≡ (long_text (length written_lines) ++ 10 ∷ []) ∷ rest)
main-count_example =
    main-count block files argv (record { elf_fn = (b'a' ∷ []) ∷ []; eof_fn = some (b'b' ∷ []) })
      (elf ∷ []) (some parsed.0) written_path written_lines names parsed.1 ((tt, tt), tt) finished
