-- ===== src/Linker/Sections/Runs.antt =====
-- src/linker/staticlink.c: tests, and the theorems at concrete inputs.
use csapp_stay.Prelude.{arith, ◌+◌, ◌*◌, ◌≡◌, refl, some, List, [], ◌∷◌, length, same}
use csapp_stay.Linker.Symbols.{Symbol, Entry, stb_global, stt_func, stt_object, text, data_section}
use csapp_stay.Linker.Relocations.{get_sym_runtime_address}
use csapp_stay.Linker.Sections.{
  Headers, count_symbol, count_lines, data_layout, compute_section_header,
}
use csapp_stay.Linker.Sections.Layouts.{
  Fits, section_end, address_of, count_of, compute_section_header_lem,
}

abbrev main : Symbol
main = record {
  st_name = b'm' ∷ [];
  st_shndx = text;
  bind = stb_global;
  type = stt_func;
  st_value = 0;
  st_size = 33;
}

abbrev array : Symbol
array = record {
  st_name = b'a' ∷ [];
  st_shndx = data_section;
  bind = stb_global;
  type = stt_object;
  st_value = 2;
  st_size = 3;
}

abbrev smap : List Entry
smap = record { elf = 0; index = 0; src = main } ∷ record { elf = 1; index = 0; src = array } ∷ []

-- 33 instructions of 88 bytes, and two words.
array_address : address_of (count_of smap) array ≡ 4194304 + 33 * 88 + 2 * 8
unfolding address_of count_lines count_symbol same
array_address = refl

fits : Fits (count_of smap) 2
unfolding count_lines count_symbol same
fits = record { texts = omega arith; lines = omega arith }

compute_section_header_lem_example :
    (h : Headers) × (compute_section_header 2 smap ≡ some h)
    × (length h.sht ≡ h.sh_count)
    × (section_end (count_of smap) + 2 ≡ h.line_count + (count_of smap).count_rodata * 7)
    × ((data_layout (count_of smap)).section_offset ≡ section_end (count_of smap))
    × (get_sym_runtime_address h.sht array ≡ address_of (count_of smap) array)
compute_section_header_lem_example = compute_section_header_lem 2 smap array fits
