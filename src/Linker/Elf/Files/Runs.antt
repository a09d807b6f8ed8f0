-- ===== src/Linker/Elf/Files/Runs.antt =====
-- src/linker/parseELF.c: tests, and the theorems at concrete inputs.
use csapp_stay.Prelude.{ℕ, ◌≡◌, refl, arith, Option, none, some, List, [], ◌∷◌, same}
use csapp_stay.Convert.{string2uint, run, step}
use csapp_stay.Hash.{
  HashTable, hashtable_get, find, hash_function, hash_function_index, create_bucket,
  hashtable_construct, copy_directory, double_directory, push, rehash_pair, rehash,
  update_directory, split_at, split_bucket, bucket_address, hashtable_insert,
}
use csapp_stay.Linker.Elf.{
  table_columns, count_columns, parse_table_entry, bind_of, type_of, parse_sh, parse_symtab,
  parse_reloution, insert_constants, init_constant_dict,
}
use csapp_stay.Linker.Elf.Files.{
  Elf, is_empty, is_white, copy_line, read_lines, read_elf, parse_rows, find_section,
  check_relocation, parse_relocations, parse_buffer, parse_elf, write_eof,
}
use csapp_stay.Linker.Elf.Files.Lines.{read_elf-write_eof}

-- A file with one symbol and one relocation.
abbrev object : List (List ℕ)
object =
    (b'6' ∷ 10 ∷ [])
    ∷ (b'2' ∷ 10 ∷ [])
    ∷ (b'.' ∷ b's' ∷ b'y' ∷ b'm' ∷ b't' ∷ b'a' ∷ b'b' ∷ b',' ∷ b'0' ∷ b',' ∷ b'4' ∷ b',' ∷ b'1' ∷ 10
        ∷ [])
    ∷ (b'.' ∷ b'r' ∷ b'e' ∷ b'l' ∷ b'.' ∷ b't' ∷ b'e' ∷ b'x' ∷ b't' ∷ b',' ∷ b'0' ∷ b',' ∷ b'5'
        ∷ b',' ∷ b'1' ∷ 10 ∷ [])
    ∷ (b'a' ∷ b',' ∷ b'S' ∷ b'T' ∷ b'B' ∷ b'_' ∷ b'G' ∷ b'L' ∷ b'O' ∷ b'B' ∷ b'A' ∷ b'L' ∷ b','
        ∷ b'S' ∷ b'T' ∷ b'T' ∷ b'_' ∷ b'F' ∷ b'U' ∷ b'N' ∷ b'C' ∷ b',' ∷ b'.' ∷ b't' ∷ b'e' ∷ b'x'
        ∷ b't' ∷ b',' ∷ b'0' ∷ b',' ∷ b'1' ∷ 10 ∷ [])
    ∷ (b'0' ∷ b',' ∷ b'0' ∷ b',' ∷ b'R' ∷ b'_' ∷ b'X' ∷ b'8' ∷ b'6' ∷ b'_' ∷ b'6' ∷ b'4' ∷ b'_'
        ∷ b'3' ∷ b'2' ∷ b',' ∷ b'0' ∷ b',' ∷ b'0' ∷ 10 ∷ [])
    ∷ []

parsed : Option (Elf × HashTable)
unfolding parse_elf
parsed = parse_elf object none

abbrev get_elf : Option (Elf × HashTable) → Elf
get_elf none = record {
  buffer = [];
  line_count = 0;
  sh_count = 0;
  sht = [];
  sym_count = 0;
  symt = [];
  reltext_count = 0;
  reltext = [];
  reldata_count = 0;
  reldata = [];
}
get_elf (some (elf, dict)) = elf

one_symbol : (get_elf parsed).sym_count ≡ 1
unfolding parsed parse_elf read_elf read_lines is_empty is_white copy_line string2uint run step
    init_constant_dict insert_constants parse_buffer parse_rows parse_sh parse_table_entry
    table_columns count_columns find_section same parse_symtab bind_of type_of hashtable_get find
    parse_relocations parse_reloution check_relocation hash_function hash_function_index
    create_bucket hashtable_construct copy_directory double_directory push rehash_pair rehash
    update_directory split_at split_bucket bucket_address hashtable_insert
one_symbol = refl

abbrev get_dict : Option (Elf × HashTable) → HashTable
get_dict none = hashtable_construct 4
get_dict (some (elf, dict)) = dict

-- A line of blanks is kept, since its newline is not one.
blank_line : read_lines ((b' ' ∷ 10 ∷ []) ∷ []) [] ≡ some ((b' ' ∷ []) ∷ [])
unfolding read_lines is_empty is_white copy_line
blank_line = refl

read_elf-write_eof_example :
    read_elf (write_eof ((b'2' ∷ []) ∷ (b'r' ∷ b'e' ∷ b't' ∷ []) ∷ []))
    ≡ some ((b'2' ∷ []) ∷ (b'r' ∷ b'e' ∷ b't' ∷ []) ∷ [])
unfolding string2uint run step
read_elf-write_eof_example =
    read_elf-write_eof (b'2' ∷ []) ((b'r' ∷ b'e' ∷ b't' ∷ []) ∷ [])
      (
        (λ e. cc e),
        (refl, refl, tt),
        ((λ e. cc e), (refl, refl, (refl, refl, (refl, refl, tt))), tt),
      )
      (omega arith) refl
