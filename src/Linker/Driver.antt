-- ===== src/Linker/Driver.antt =====
-- src/linker/linker.c: the program that links files, with the lines of the file at a path as an
-- argument. `none` is a failed pass, a path or an array that does not fit, or a name that is not set.
pub mod Counts
pub mod Arguments
mod Runs
use csapp_stay.Prelude.{
  ℕ, zero, suc, ◌+◌, Bool, true, false, Option, none, some, List, [], ◌∷◌, ◌++◌, ◌||◌, ◌==◌, ltb,
  length, if◌then◌else◌, same,
}
use csapp_stay.Hash.{HashTable}
use csapp_stay.Linker.Elf.{assert, ◌>>=◌, ◌>>◌}
use csapp_stay.Linker.Elf.Files.{Elf, parse_elf, write_eof}
use csapp_stay.Linker.Relocations.{Rows}
use csapp_stay.Linker.Symbols.{Symbol}
use csapp_stay.Linker.Linking.{Eof, link_elf}

-- `elf_fn` and `eof_fn`.
pub record Names : Type 0 where
  pub elf_fn : List (List ℕ)
  pub eof_fn : Option (List ℕ)

pub data Parsed : Type 0 where
  usage : Parsed
  given : Names → Parsed

abbrev pub is_help : List ℕ → Bool
is_help str = same str (b'-' ∷ b'h' ∷ []) || same str (b'-' ∷ b'-' ∷ b'h' ∷ b'e' ∷ b'l' ∷ b'p' ∷ [])

abbrev pub is_output : List ℕ → Bool
is_output str = same str (b'-' ∷ b'o' ∷ [])

-- One name: a file to link while `eof_flag` is not set, of which there are at most 64.
unfoldable pub add_name : Bool → List ℕ → Names → Option Names
add_name false str n =
    if ltb (length n.elf_fn) 64 then some (record n { elf_fn = n.elf_fn ++ str ∷ [] }) else none
add_name true str n = some (record n { eof_fn = some str })

-- The loop over the arguments behind the program's name.
unfoldable pub parse_arguments : Bool → Names → List (List ℕ) → Option Parsed
unfolding add_name
parse_arguments eof_flag n [] = some (given n)
parse_arguments eof_flag n (str ∷ argv) =
    let output = parse_arguments true n argv in
    let name = add_name eof_flag str n >>= λ n'. parse_arguments eof_flag n' argv in
    if is_help str then some usage else if is_output str then output else name

-- `sprintf(path, "%s/%s.elf.txt", EXECUTABLE_DIR, name)`, for a path of 100 characters.
abbrev pub executable_dir : List ℕ
executable_dir =
    b'/' ∷ b'c' ∷ b's' ∷ b'a' ∷ b'p' ∷ b'p' ∷ b'_' ∷ b's' ∷ b't' ∷ b'a' ∷ b'y' ∷ b'/' ∷ b'f' ∷ b'i'
    ∷ b'l' ∷ b'e' ∷ b's' ∷ b'/' ∷ b'e' ∷ b'x' ∷ b'e' ∷ []

unfoldable pub path_of : ℕ → List ℕ → Option (List ℕ)
path_of kind name =
    let path =
      executable_dir ++ b'/' ∷ name ++ b'.' ∷ b'e' ∷ kind ∷ b'f' ∷ b'.' ∷ b't' ∷ b'x' ∷ b't' ∷ [] in
    if ltb (length path) 100 then some path else none

-- The files, and `link_constant_dict`.
unfoldable pub parse_files :
    (List ℕ → Option (List (List ℕ)))
    → List (List ℕ)
    → Option HashTable
    → Option (List Elf × Option HashTable)
unfolding path_of
parse_files files [] dict = some ([], dict)
parse_files files (name ∷ names) dict = path_of b'l' name >>= λ path. files path >>= λ lines.
    parse_elf lines dict >>= λ (elf, dict').
    parse_files files names (some dict') >>= λ (srcs, d). some (elf ∷ srcs, d)

-- The string in a row from a column on, with n characters left in the row.
unfoldable pub string_at : ℕ → ℕ → (ℕ → ℕ) → Option (List ℕ)
string_at zero col row = none
string_at (suc n) col row =
    let rest = string_at n (suc col) row >>= λ s. some (row col ∷ s) in
    if row col == 0 then some [] else rest

-- The strings of n rows, of 128 characters each.
unfoldable pub strings_from : ℕ → ℕ → Rows → Option (List (List ℕ))
unfolding string_at
strings_from zero r buffer = some []
strings_from (suc n) r buffer =
    string_at 128 0 (buffer r) >>= λ s. strings_from n (suc r) buffer >>= λ ss. some (s ∷ ss)

-- What the program does: it prints its usage, or writes the lines to the file at a path.
pub data Outcome : Type 0 where
  usage_shown : Outcome
  written_to : List ℕ → List (List ℕ) → Outcome

-- `block` is what malloc leaves in the symbol table of the linked file.
unfoldable pub link_names :
    (ℕ → Option Symbol) → (List ℕ → Option (List (List ℕ))) → Parsed → Option Outcome
unfolding parse_files strings_from path_of
link_names block files usage = some usage_shown
link_names block files (given n) = parse_files files n.elf_fn none >>= λ (srcs, dict).
    link_elf block srcs >>= λ k. n.eof_fn >>= path_of b'o' >>= λ path. dict >>= λ _.
    strings_from k.line_count 0 k.buffer >>= λ rows. some (written_to path (write_eof rows))

unfoldable pub main :
    (ℕ → Option Symbol) → (List ℕ → Option (List (List ℕ))) → List (List ℕ) → Option Outcome
unfolding parse_arguments link_names
main block files argv =
    parse_arguments false (record { elf_fn = []; eof_fn = none }) argv >>= link_names block files
