-- ===== src/Linker/Relocations.antt =====
-- src/linker/staticlink.c: the addresses of symbols at run time, and the two relocation handlers.
pub mod Texts
pub mod Targets
mod Runs
use csapp_stay.Prelude.{
  ℕ, zero, suc, ◌+◌, ◌-◌, ◌*◌, ◌/◌, ◌%◌, ◌^◌, Bool, true, false, Option, none, some, List, [], ◌∷◌,
  ◌++◌, map, ◌==◌, ◌||◌, ltb, leb, if◌then◌else◌, update, same,
}
use csapp_stay.Convert.Numerals.{digit}
use csapp_stay.Linker.Symbols.{Symbol, text, rodata, data_section}
use csapp_stay.Linker.Elf.{Section}
use csapp_stay.Linker.Elf.Files.{max_elf_file_length, max_elf_file_width}

-- `sizeof(isnt_t)` on the processor that is simulated: two operands of five words, and the operator.
abbrev pub inst_size : ℕ
inst_size = 88

-- The bases of the sections .rodata and .data.
pub record Bases : Type 0 where
  pub rodata_base : ℕ
  pub data_base : ℕ

abbrev pub text_base : ℕ
text_base = 4194304

-- The loop over the sections.
unfoldable pub section_bases : List Section → Bases → Bases
section_bases [] b = b
section_bases (s ∷ sht) b =
    let after_text = (text_base + s.sh_size * inst_size) % 2 ^ 64 in
    let next : Bases =
      if same s.sh_name text
      then record { rodata_base = after_text; data_base = after_text }
      else if same s.sh_name rodata
      then record b { data_base = (b.rodata_base + s.sh_size * 8) % 2 ^ 64 }
      else b in
    section_bases sht next

unfoldable pub get_sym_runtime_address : List Section → Symbol → ℕ
get_sym_runtime_address sht sym =
    let b = section_bases sht (record { rodata_base = text_base; data_base = text_base }) in
    if same sym.st_shndx text
    then (text_base + inst_size * sym.st_value) % 2 ^ 64
    else if same sym.st_shndx rodata
    then (b.rodata_base + 8 * sym.st_value) % 2 ^ 64
    else if same sym.st_shndx data_section
    then (b.data_base + 8 * sym.st_value) % 2 ^ 64
    else 2 ^ 64 - 1

-- The digits of `%0nlx`.
pub hex_digits : ℕ → ℕ → List ℕ
hex_digits zero v = []
hex_digits (suc n) v = hex_digits n (v / 16) ++ v % 16 ∷ []

-- `sprintf(temp, "0x%016lx", val)`
pub hex_text : ℕ → List ℕ
hex_text val = b'0' ∷ b'x' ∷ map digit (hex_digits 16 val)

-- The loop that copies the characters, from a place on.
pub write_chars : List ℕ → ℕ → (ℕ → ℕ) → ℕ → ℕ
write_chars [] col row = row
write_chars (c ∷ cs) col row = write_chars cs (suc col) (update row col c)

pub write_relocation : ℕ → ℕ → (ℕ → ℕ) → ℕ → ℕ
write_relocation val col row = write_chars (hex_text val) col row

-- The rows of the file, as bytes.
abbrev pub Rows : Type 0
Rows = ℕ → ℕ → ℕ

-- A uint64_t that is converted to int, as the uint64_t that the int is converted to.
unfoldable pub as_int : ℕ → ℕ
as_int x = if ltb (x % 2 ^ 32) (2 ^ 31) then x % 2 ^ 32 else x % 2 ^ 32 + (2 ^ 64 - 2 ^ 32)

-- The buffer as one array, with the rows behind each other.
abbrev pub flat : Rows → ℕ → ℕ
flat buffer p = buffer (p / max_elf_file_width) (p % max_elf_file_width)

-- The write at `&dst->buffer[sh->sh_offset + row][col]`, for `row` and `col` converted to int, which
-- goes on in the next row at the end of one. `none` is a place outside the buffer.
unfoldable pub write_at : Section → ℕ → ℕ → ℕ → Rows → Option Rows
unfolding as_int
write_at sh row col val buffer =
    let p = ((sh.sh_offset + as_int row) * max_elf_file_width + as_int col) % 2 ^ 64 in
    let after = write_relocation val p (flat buffer) in
    if leb (p + 18) (max_elf_file_length * max_elf_file_width)
    then some
        (λ r c. if ltb c max_elf_file_width then after (r * max_elf_file_width + c) else buffer r c)
    else none

-- `sh` is the section that the handler writes to.
unfoldable pub r_x86_64_32_handler : List Section → Section → ℕ → ℕ → Symbol → Rows → Option Rows
unfolding write_at
r_x86_64_32_handler sht sh row col sym buffer =
    write_at sh row col (get_sym_runtime_address sht sym) buffer

-- The address behind the instruction.
unfoldable pub rip_value : ℕ → ℕ
unfolding as_int
rip_value row = (text_base + (as_int row + 1) * inst_size) % 2 ^ 64

-- `none` is the failed assertion, or that of the write.
unfoldable pub r_x86_64_pc32_handler : List Section → Section → ℕ → ℕ → Symbol → Rows → Option Rows
unfolding write_at rip_value
r_x86_64_pc32_handler sht sh row col sym buffer =
    let val = (get_sym_runtime_address sht sym + (2 ^ 64 - rip_value row)) % 2 ^ 64 in
    if same sh.sh_name text then write_at sh row col val buffer else none

-- `rela_handler_table`
unfoldable pub rela_handler : ℕ → List Section → Section → ℕ → ℕ → Symbol → Rows → Option Rows
rela_handler r_type sht sh row col sym buffer =
    if r_type == 0
    then r_x86_64_32_handler sht sh row col sym buffer
    else if (r_type == 1) || (r_type == 2)
    then r_x86_64_pc32_handler sht sh row col sym buffer
    else none
