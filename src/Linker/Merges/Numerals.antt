-- ===== src/Linker/Merges/Numerals.antt =====
-- src/linker/staticlink.c and parseELF.c: the symbol rows that merge_section prints are read back.
use csapp_stay.Prelude.{◌^◌, ◌<◌, ◌≡◌, none, some, length}
use csapp_stay.Hash.{HashTable}
use csapp_stay.Linker.Symbols.{Symbol}
use csapp_stay.Linker.Elf.{parse_symtab, init_constant_dict}
use csapp_stay.Linker.Elf.Columns.{IsColumn}
use csapp_stay.Linker.Elf.Symbols.{print_symbol, parse_symtab-print}
use csapp_stay.Linker.Numerals.{long_text, long_text-IsNumeral}

-- With the dictionary that init_constant_dict builds, the row that merge_section prints of a
-- symbol is parsed as the symbol, if its name and section are columns that fit, the section in its
-- 16 characters, and its value and size are below 2^63.
pub parse_symtab-long_text :
    (dict : HashTable) (s : Symbol)
    → init_constant_dict none ≡ some dict
    → IsColumn s.st_name
    → IsColumn s.st_shndx
    → length s.st_shndx < 16
    → s.st_value < 2 ^ 63
    → s.st_size < 2 ^ 63
    → parse_symtab dict (print_symbol s (long_text s.st_value) (long_text s.st_size)) ≡ some s
parse_symtab-long_text dict s d name shndx short hv hz =
    let (vs, ev, nv) = long_text-IsNumeral s.st_value hv in
    let (zs, ez, nz) = long_text-IsNumeral s.st_size hz in
    rw (ev, ez) (parse_symtab-print dict s vs zs d name shndx short nv nz)
