-- ===== src/Linker/Merges.antt =====
-- src/linker/staticlink.c: `merge_section`. The rows of the linked file's buffer are texts, and the
-- pointer to a symbol is the number of its file and its index there. `none` is a failed assertion,
-- or a row outside those of a file.
pub mod Copies
pub mod Placements
pub mod Loops
pub mod Results
pub mod Tallies
pub mod Values
pub mod Numerals
mod Runs
use mathlib.Core.Option
use csapp_stay.Prelude.{
  ℕ, zero, suc, ◌+◌, ◌-◌, ◌/◌, ◌%◌, ◌^◌, Bool, true, false, Option, none, some, List, [], ◌∷◌, ◌++◌,
  map, ◌&&◌, ◌==◌, ltb, length, get_elem?, update, if◌then◌else◌, same,
}
use csapp_stay.Linker.Symbols.{Symbol}
use csapp_stay.Linker.Elf.{Section, assert, ◌>>=◌, ◌>>◌}
use csapp_stay.Linker.Elf.Files.{Elf, find_section, max_elf_file_length}
use csapp_stay.Linker.Elf.Symbols.{print_symbol}
use csapp_stay.Linker.Numerals.{long_text}

abbrev pub Texts : Type 0
Texts = ℕ → List ℕ

-- `smap_t` without the file: `dst` is an index of the linked file's symbols.
pub record Mapped : Type 0 where
  pub elf : ℕ
  pub index : ℕ
  pub dst : Option ℕ

-- `symt` holds the `sym_written` symbols that are set.
pub record Merge : Type 0 where
  pub smap : List Mapped
  pub symt : List Symbol
  pub buffer : Texts
  pub line_written : ℕ
  pub sym_section_offset : ℕ

-- The loop that copies n rows. The index of the source is an int: a negative one, which passes the
-- assertion, is outside the rows.
unfoldable pub copy_rows : List (List ℕ) → ℕ → ℕ → ℕ → Texts → Option Texts
copy_rows rows src_index dst_index zero buffer = some buffer
copy_rows rows src_index dst_index (suc n) buffer =
    assert (ltb dst_index max_elf_file_length)
    >> assert (ltb (src_index % 2 ^ 32) max_elf_file_length)
    >> get_elem? rows (src_index % 2 ^ 32)
    >>= λ row. copy_rows rows (suc src_index) (suc dst_index) n (update buffer dst_index row)

-- The symbol's rows, its entry of the symbol table, and the counters.
unfoldable pub merge_symbol : Elf → Section → ℕ → Symbol → Merge → Option Merge
merge_symbol elf sh sym_count sym m =
    copy_rows elf.buffer (sh.sh_offset + sym.st_value) m.line_written sym.st_size m.buffer
    >>= λ buffer.
        assert (ltb (length m.symt) sym_count)
        >> some (record m {
          symt = m.symt ++ record sym { st_value = m.sym_section_offset } ∷ [];
          buffer = buffer;
          line_written = m.line_written + sym.st_size;
          sym_section_offset = m.sym_section_offset + sym.st_size;
        })

abbrev pub points_to : ℕ → ℕ → Mapped → Bool
points_to i j e = (e.elf == i) && (e.index == j)

-- The loop over the map: every entry of the symbol merges it. The entries that were passed are kept
-- in order in front.
unfoldable pub merge_entries :
    ℕ → ℕ → (Merge → Option Merge) → List Mapped → List Mapped → Merge → Option Merge
merge_entries i j step done [] m = some (record m { smap = done })
merge_entries i j step done (e ∷ es) m =
    let set : Mapped = record e { dst = some (length m.symt) } in
    if points_to i j e
    then step m >>= merge_entries i j step (done ++ set ∷ []) es
    else merge_entries i j step (done ++ e ∷ []) es m

-- The symbols of one file that stand in the section.
unfoldable pub merge_symbols :
    ℕ → Elf → Section → List ℕ → ℕ → ℕ → List Symbol → Merge → Option Merge
merge_symbols i elf sh name sym_count j [] m = some m
merge_symbols i elf sh name sym_count j (sym ∷ syms) m =
    let merged =
      if same sym.st_shndx name
      then merge_entries i j (merge_symbol elf sh sym_count sym) [] m.smap m
      else some m in
    merged >>= merge_symbols i elf sh name sym_count (suc j) syms

unfoldable pub merge_file : ℕ → Elf → List ℕ → ℕ → Option Section → Merge → Option Merge
merge_file i elf name sym_count none m = some m
merge_file i elf name sym_count (some sh) m = merge_symbols i elf sh name sym_count 0 elf.symt m

unfoldable pub merge_files : ℕ → List Elf → List ℕ → ℕ → Merge → Option Merge
merge_files i [] name sym_count m = some m
merge_files i (elf ∷ elfs) name sym_count m =
    merge_file i elf name sym_count (find_section name elf.sht) m
    >>= merge_files (suc i) elfs name sym_count

unfoldable pub merge_sections : List Elf → ℕ → List Section → Merge → Option Merge
merge_sections srcs sym_count [] m = some m
merge_sections srcs sym_count (sh ∷ shs) m =
    merge_files 0 srcs sh.sh_name sym_count (record m { sym_section_offset = 0 })
    >>= merge_sections srcs sym_count shs

-- The loop that prints the symbols.
unfoldable pub print_symbols : List Symbol → ℕ → Texts → Option Texts
print_symbols [] line_written buffer = some buffer
print_symbols (sym ∷ syms) line_written buffer =
    let row = print_symbol sym (long_text sym.st_value) (long_text sym.st_size) in
    assert (ltb line_written max_elf_file_length)
    >> print_symbols syms (suc line_written) (update buffer line_written row)

-- The n entries of the symbol table from number j on that were never set: what they hold is what
-- malloc left in the block, `none` for bytes that are no symbol.
unfoldable pub unset_from : (ℕ → Option Symbol) → ℕ → ℕ → Option (List Symbol)
unset_from block j zero = some []
unset_from block j (suc n) = block j >>= λ s. unset_from block (suc j) n >>= λ ss. some (s ∷ ss)

unfoldable pub print_table : (ℕ → Option Symbol) → ℕ → ℕ → Merge → Option Merge
unfolding unset_from
print_table block line_count sym_count m =
    let printing = unset_from block (length m.symt) (sym_count - length m.symt) >>= λ unset.
    print_symbols (m.symt ++ unset) m.line_written m.buffer in
    printing >>= λ buffer.
    assert (m.line_written + sym_count == line_count)
    >> some (record m { buffer = buffer; line_written = m.line_written + sym_count })

-- `buffer` holds the header rows, and `block` is what malloc left in `dst->symt`.
unfoldable pub merge_section :
    (ℕ → Option Symbol) → List Elf → List Section → ℕ → ℕ → List Mapped → Texts → Option Merge
merge_section block srcs sht line_count sym_count smap buffer =
    merge_sections srcs sym_count sht (record {
      smap = smap;
      symt = [];
      buffer = buffer;
      line_written = 1 + 1 + length sht;
      sym_section_offset = 0;
    })
    >>= print_table block line_count sym_count
