-- ===== src/Linker/Elf/Files.antt =====
-- src/linker/parseELF.c: the file's lines, and the tables of the object file.
pub mod Lines
pub mod Tables
mod Runs
use csapp_stay.Prelude.{
  ℕ, zero, suc, ◌+◌, ◌%◌, ◌^◌, Bool, true, false, Option, none, some, List, [], ◌∷◌, ◌++◌, ◌&&◌,
  ◌||◌, not, ◌==◌, ltb, leb, length, get_elem?, if◌then◌else◌, same,
}
use csapp_stay.Convert.{string2uint}
use csapp_stay.Hash.{HashTable}
use csapp_stay.Linker.Symbols.{Symbol}
use csapp_stay.Linker.Elf.{
  ◌>>=◌, ◌>>◌, assert, Section, Relocation, parse_sh, parse_symtab, parse_reloution,
  init_constant_dict,
}

-- The characters at which a line ends: '\n' and '\r'.
abbrev pub ends_line : ℕ → Bool
ends_line c = (c == 10) || (c == 13)

abbrev pub starts_with : ℕ → List ℕ → Bool
starts_with c [] = false
starts_with c (d ∷ ds) = c == d

-- The start of a comment, for a character and those after it.
abbrev pub starts_comment : ℕ → List ℕ → Bool
starts_comment c cs = (c == b'/') && starts_with b'/' cs

-- An empty line or a comment.
unfoldable pub is_empty : List ℕ → Bool
is_empty [] = true
is_empty (c ∷ cs) = ends_line c || starts_comment c cs

-- Blanks, tabs and '\r' only.
unfoldable pub is_white : List ℕ → Bool
is_white [] = true
is_white (c ∷ cs) = ((c == b' ') || (c == 9) || (c == 13)) && is_white cs

-- The copy of a line up to its end or a comment.
unfoldable pub copy_line : List ℕ → List ℕ
copy_line [] = []
copy_line (c ∷ cs) =
    let rest = copy_line cs in if ends_line c || starts_comment c cs then [] else c ∷ rest

abbrev pub max_elf_file_length : ℕ
max_elf_file_length = 64

abbrev pub max_elf_file_width : ℕ
max_elf_file_width = 128

-- The lines that are stored behind those in the buffer.
unfoldable pub read_lines : List (List ℕ) → List (List ℕ) → Option (List (List ℕ))
read_lines [] buffer = some buffer
read_lines (line ∷ lines) buffer =
    let skipped = read_lines lines buffer in
    let stored = read_lines lines (buffer ++ copy_line line ∷ []) in
    if is_empty line || is_white line
    then skipped
    else if ltb (length buffer) max_elf_file_length
    then stored
    else none

unfoldable pub read_elf : List (List ℕ) → Option (List (List ℕ))
read_elf lines = read_lines lines [] >>= λ buffer. get_elem? buffer 0 >>= λ first.
    string2uint first >>= λ count. assert (length buffer == count) >> some buffer

-- `elf_t`, where a table that is NULL has no entries.
pub record Elf : Type 0 where
  pub buffer : List (List ℕ)
  pub line_count : ℕ
  pub sh_count : ℕ
  pub sht : List Section
  pub sym_count : ℕ
  pub symt : List Symbol
  pub reltext_count : ℕ
  pub reltext : List Relocation
  pub reldata_count : ℕ
  pub reldata : List Relocation

-- The loops that parse n lines from the line `at` on.
unfoldable pub parse_rows {ℓ} :
    {A : Type ℓ} → (List ℕ → Option A) → List (List ℕ) → ℕ → ℕ → Option (List A)
parse_rows parse buffer at zero = some []
parse_rows parse buffer at (suc n) = get_elem? buffer (at % 2 ^ 64) >>= λ line.
    parse line >>= λ x. parse_rows parse buffer (suc at) n >>= λ xs. some (x ∷ xs)

-- The last section of the name.
unfoldable pub find_section : List ℕ → List Section → Option Section
find_section name [] = none
find_section name (s ∷ ss) = elim (find_section name ss) [
  | some t ↦ some t
  | none ↦ if same s.sh_name name then some s else none
]

-- An entry whose index is one of the symbol table.
unfoldable pub check_relocation : ℕ → Relocation → Option Relocation
check_relocation sym_count r = assert (ltb r.sym (2 ^ 31) && ltb r.sym sym_count) >> some r

unfoldable pub parse_relocations :
    HashTable → ℕ → List (List ℕ) → Option Section → Option (List Relocation)
parse_relocations dict sym_count buffer none = some []
parse_relocations dict sym_count buffer (some s) =
    parse_rows (λ line. parse_reloution dict line >>= check_relocation sym_count) buffer s.sh_offset
      s.sh_size

abbrev pub symtab_name : List ℕ
symtab_name = b'.' ∷ b's' ∷ b'y' ∷ b'm' ∷ b't' ∷ b'a' ∷ b'b' ∷ []

abbrev pub rel_text_name : List ℕ
rel_text_name = b'.' ∷ b'r' ∷ b'e' ∷ b'l' ∷ b'.' ∷ b't' ∷ b'e' ∷ b'x' ∷ b't' ∷ []

abbrev pub rel_data_name : List ℕ
rel_data_name = b'.' ∷ b'r' ∷ b'e' ∷ b'l' ∷ b'.' ∷ b'd' ∷ b'a' ∷ b't' ∷ b'a' ∷ []

-- The `sh_size` of a section, 0 if there is none.
abbrev pub size_of : Option Section → ℕ
size_of o = elim o [ some s ↦ s.sh_size | none ↦ 0 ]

-- The tables of a buffer, and the dictionary. `line_count` is what read_elf returns.
unfoldable pub parse_buffer : HashTable → List (List ℕ) → Option Elf
parse_buffer dict buffer = do
  second ← get_elem? buffer 1
  sh_count ← string2uint second
  sht ← parse_rows parse_sh buffer 2 sh_count
  sym_sh ← find_section symtab_name sht
  symt ← parse_rows (parse_symtab dict) buffer sym_sh.sh_offset sym_sh.sh_size
  reltext ← parse_relocations dict sym_sh.sh_size buffer (find_section rel_text_name sht)
  reldata ← parse_relocations dict sym_sh.sh_size buffer (find_section rel_data_name sht)
  some (record {
    buffer = buffer;
    line_count = length buffer;
    sh_count = sh_count;
    sht = sht;
    sym_count = sym_sh.sh_size;
    symt = symt;
    reltext_count = size_of (find_section rel_text_name sht);
    reltext = reltext;
    reldata_count = size_of (find_section rel_data_name sht);
    reldata = reldata;
  })

-- The object file, and `link_constant_dict` afterwards.
unfoldable pub parse_elf : List (List ℕ) → Option HashTable → Option (Elf × HashTable)
parse_elf lines link_constant_dict = do
  buffer ← read_elf lines
  dict ← init_constant_dict link_constant_dict
  elf ← parse_buffer dict buffer
  some (elf, dict)

-- The lines of the file that is written.
unfoldable pub write_eof : List (List ℕ) → List (List ℕ)
write_eof [] = []
write_eof (line ∷ lines) = (line ++ 10 ∷ []) ∷ write_eof lines
