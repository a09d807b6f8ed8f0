-- ===== src/Linker/Symbols.antt =====
-- src/linker/staticlink.c: `symbol_processing`, which builds the map of symbols. An entry of the map
-- points to a symbol of one of the files: here it has the file's number, the symbol's index there
-- and the symbol itself.
-- `none` is a failed assertion or a call of `exit`.
pub mod Rules
pub mod Maps
pub mod Totals
pub mod Results
pub mod Cleanup
mod Runs
use mathlib.Core.Option
use csapp_stay.Prelude.{
  same, ℕ, zero, suc, ◌+◌, Bool, true, false, not, Option, none, some, List, [], ◌∷◌, ◌++◌, ◌&&◌,
  ◌||◌, ◌==◌, ltb, length, if◌then◌else◌,
}

-- `st_bind_t` and `st_type_t` of headers/linker.h.
pub data Bind : Type 0 where
  stb_local stb_global stb_weak : Bind

pub data SymbolType : Type 0 where
  stt_notype stt_object stt_func : SymbolType

pub record Symbol : Type 0 where
  pub st_name : List ℕ
  pub st_shndx : List ℕ
  pub bind : Bind
  pub type : SymbolType
  pub st_value : ℕ
  pub st_size : ℕ

-- `smap_t`, whose field `dst` this pass does not set.
pub record Entry : Type 0 where
  pub elf : ℕ
  pub index : ℕ
  pub src : Symbol

abbrev pub is_global : Bind → Bool
is_global stb_global = true
is_global _ = false

abbrev pub is_type : SymbolType → SymbolType → Bool
is_type stt_notype stt_notype = true
is_type stt_object stt_object = true
is_type stt_func stt_func = true
is_type _ _ = false

abbrev pub shn_undef : List ℕ
shn_undef = b'S' ∷ b'H' ∷ b'N' ∷ b'_' ∷ b'U' ∷ b'N' ∷ b'D' ∷ b'E' ∷ b'F' ∷ []

abbrev pub common : List ℕ
common = b'C' ∷ b'O' ∷ b'M' ∷ b'M' ∷ b'O' ∷ b'N' ∷ []

abbrev pub text : List ℕ
text = b'.' ∷ b't' ∷ b'e' ∷ b'x' ∷ b't' ∷ []

abbrev pub data_section : List ℕ
data_section = b'.' ∷ b'd' ∷ b'a' ∷ b't' ∷ b'a' ∷ []

abbrev pub rodata : List ℕ
rodata = b'.' ∷ b'r' ∷ b'o' ∷ b'd' ∷ b'a' ∷ b't' ∷ b'a' ∷ []

abbrev pub bss : List ℕ
bss = b'.' ∷ b'b' ∷ b's' ∷ b's' ∷ []

unfoldable pub symbol_precedence : Symbol → Option ℕ
symbol_precedence sym =
    let in_section = λ (s : List ℕ). same sym.st_shndx s in
    let object = is_type sym.type stt_object in
    if not (is_global sym.bind)
    then none
    else if in_section shn_undef && is_type sym.type stt_notype
    then some 0
    else if in_section common && object
    then some 1
    else if (in_section text && is_type sym.type stt_func)
        || (in_section data_section && object)
        || (in_section rodata && object)
        || (in_section bss && object)
    then some 2
    else none

-- The three rules, for the precedences of the symbol and of the candidate.
unfoldable pub choose : ℕ → ℕ → Entry → Entry → Option Entry
choose pre1 pre2 sym candidate =
    if (pre1 == 2) && (pre2 == 2)
    then none
    else if not (pre1 == 2) && not (pre2 == 2)
    then some (if ltb pre2 pre1 then sym else candidate)
    else if pre1 == 2
    then some sym
    else some candidate

unfoldable pub choose_some : Option ℕ → Option ℕ → Entry → Entry → Option Entry
unfolding choose
choose_some none p sym candidate = none
choose_some (some pre1) none sym candidate = none
choose_some (some pre1) (some pre2) sym candidate = choose pre1 pre2 sym candidate

-- The new contents of the candidate's entry.
unfoldable pub simple_resolution : Entry → Entry → Option Entry
unfolding choose_some
simple_resolution sym candidate =
    choose_some (symbol_precedence sym.src) (symbol_precedence candidate.src) sym candidate

-- The search for a conflict: there is none, its resolution fails, or the map that it leaves.
pub data Search : Type 0 where
  absent failed : Search
  replaced : List Entry → Search

abbrev pub conflicts : Entry → Entry → Bool
conflicts sym k = is_global k.src.bind && same k.src.st_name sym.src.st_name

unfoldable pub replace : Option Entry → List Entry → Search
replace none ks = failed
replace (some k) ks = replaced (k ∷ ks)

unfoldable pub keep : Entry → Search → Search
keep k absent = absent
keep k failed = failed
keep k (replaced ks) = replaced (k ∷ ks)

unfoldable pub search_conflict : Entry → List Entry → Search
unfolding replace keep
search_conflict sym [] = absent
search_conflict sym (k ∷ ks) =
    let rest = search_conflict sym ks in
    if conflicts sym k then replace (simple_resolution sym k) ks else keep k rest

abbrev pub max_symbol_map_length : ℕ
max_symbol_map_length = 64

unfoldable pub insert_symbol : Entry → List Entry → Option (List Entry)
insert_symbol sym smap =
    if ltb (length smap) max_symbol_map_length then some (smap ++ sym ∷ []) else none

unfoldable pub resolved : Search → Entry → List Entry → Option (List Entry)
unfolding insert_symbol
resolved absent sym smap = insert_symbol sym smap
resolved failed sym smap = none
resolved (replaced ks) sym smap = some ks

-- The body of the inner loop, by the symbol's binding.
unfoldable pub process_symbol : Bind → Entry → List Entry → Option (List Entry)
unfolding insert_symbol resolved
process_symbol stb_local sym smap = insert_symbol sym smap
process_symbol stb_global sym smap = resolved (search_conflict sym smap) sym smap
process_symbol stb_weak sym smap = some smap

unfoldable pub process_symbols : ℕ → ℕ → List Symbol → List Entry → Option (List Entry)
process_symbols elf j [] smap = some smap
process_symbols elf j (sym ∷ syms) smap =
    elim (process_symbol sym.bind (record { elf = elf; index = j; src = sym }) smap) [
      | none ↦ none
      | some smap' ↦ process_symbols elf (suc j) syms smap'
    ]

unfoldable pub process_elfs : ℕ → List (List Symbol) → List Entry → Option (List Entry)
unfolding process_symbols
process_elfs elf [] smap = some smap
process_elfs elf (symt ∷ srcs) smap = elim (process_symbols elf 0 symt smap) [
  | none ↦ none
  | some smap' ↦ process_elfs (elf + 1) srcs smap'
]

abbrev pub notype_name : List ℕ
notype_name = b'S' ∷ b'T' ∷ b'T' ∷ b'_' ∷ b'N' ∷ b'O' ∷ b'T' ∷ b'Y' ∷ b'P' ∷ b'E' ∷ []

-- The body of the last loop: the assertions, and COMMON turned into .bss.
unfoldable pub cleanup : Entry → Option Entry
cleanup e =
    if same e.src.st_name notype_name || is_type e.src.type stt_notype
    then none
    else if same e.src.st_shndx common
    then some (record e { src = record e.src { st_shndx = bss; st_value = 0 } })
    else some e

unfoldable pub cleanup_all : List Entry → Option (List Entry)
unfolding cleanup
cleanup_all [] = some []
cleanup_all (e ∷ es) = elim (cleanup e) [
  | none ↦ none
  | some e' ↦ Option.map (λ es'. e' ∷ es') (cleanup_all es)
]

-- The map starts empty.
unfoldable pub symbol_processing : List (List Symbol) → Option (List Entry)
unfolding process_elfs cleanup_all
symbol_processing srcs = elim (process_elfs 0 srcs []) [
  | none ↦ none
  | some smap ↦ cleanup_all smap
]
