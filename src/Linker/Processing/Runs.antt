-- ===== src/Linker/Processing/Runs.antt =====
-- src/linker/staticlink.c: tests of relocation_processing, and the theorem at a concrete input.
use csapp_stay.Prelude.{◌≡◌, refl, some, List, [], ◌∷◌, length, same}
use csapp_stay.Linker.Symbols.{Symbol, stb_global, stt_func, stt_object, text, data_section}
use csapp_stay.Linker.Elf.{Relocation}
use csapp_stay.Linker.Elf.Files.{Elf, find_section}
use csapp_stay.Linker.Relocations.{Rows, rela_handler, r_x86_64_32_handler, write_at, as_int}
use csapp_stay.Linker.Processing.{
  Linked, dst_symbol, is_reference, search_reference, relocate, visit_reference, visit_entries,
  after_visit, visit_symbols, visit_relocations, visit_files, relocation_processing,
}

abbrev main : Symbol
main = record {
  st_name = b'm' ∷ [];
  st_shndx = text;
  bind = stb_global;
  type = stt_func;
  st_value = 0;
  st_size = 2;
}

abbrev array : Symbol
array = record {
  st_name = b'a' ∷ [];
  st_shndx = data_section;
  bind = stb_global;
  type = stt_object;
  st_value = 0;
  st_size = 1;
}

-- The name that main uses.
abbrev undefined : Symbol
undefined = record array { st_shndx = []; st_size = 0 }

abbrev file : List Symbol → List Relocation → Elf
file symt rs = record {
  buffer = [];
  line_count = 0;
  sh_count = 0;
  sht = [];
  sym_count = length symt;
  symt = symt;
  reltext_count = length rs;
  reltext = rs;
  reldata_count = 0;
  reldata = [];
}

-- The second instruction of main has the array's address at column 4.
abbrev use_array : Relocation
use_array = record { r_row = 1; r_col = 4; r_type = 0; sym = 1; r_addend = 0 }

abbrev srcs : List Elf
srcs = file (main ∷ undefined ∷ []) (use_array ∷ []) ∷ file (array ∷ []) [] ∷ []

abbrev linked : Linked
linked = record {
  sht =
      record { sh_name = text; sh_addr = 0; sh_offset = 4; sh_size = 2 }
      ∷ record { sh_name = data_section; sh_addr = 0; sh_offset = 6; sh_size = 1 }
      ∷ [];
  symt = main ∷ array ∷ [];
  smap =
      record { elf = 0; index = 0; dst = some 0 }
      ∷ record { elf = 1; index = 0; dst = some 1 }
      ∷ [];
}

abbrev blank : Rows
blank r c = b' '

processed : (b : Rows) × (relocation_processing srcs linked blank ≡ some b)
unfolding dst_symbol is_reference search_reference relocate visit_reference visit_entries
    after_visit visit_symbols visit_relocations visit_files relocation_processing find_section
    rela_handler r_x86_64_32_handler write_at as_int same
processed = (_, refl)

-- Row 5 gets the numeral of the array's address, as the handler writes it.
array_relocated :
    some processed.0
    ≡ r_x86_64_32_handler linked.sht
        (record { sh_name = text; sh_addr = 0; sh_offset = 4; sh_size = 2 })
        1
        4
        array
        blank
unfolding processed r_x86_64_32_handler
array_relocated = refl
