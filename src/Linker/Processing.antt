-- ===== src/Linker/Processing.antt =====
-- src/linker/staticlink.c: `relocation_processing`. `none` is a failed assertion, a section or an
-- entry of the map that is not set, or an index outside a table.
pub mod Frames
pub mod Headers
mod Runs
use mathlib.Core.Option
use csapp_stay.Prelude.{
  ℕ, zero, suc, ◌+◌, ◌-◌, ◌%◌, ◌^◌, Bool, true, false, Option, none, some, List, [], ◌∷◌, ◌&&◌,
  ◌==◌, leb, get_elem?, if◌then◌else◌, same,
}
use csapp_stay.Linker.Symbols.{Symbol, is_global, text, data_section}
use csapp_stay.Linker.Elf.{Section, Relocation, assert, ◌>>=◌, ◌>>◌}
use csapp_stay.Linker.Elf.Files.{Elf, find_section}
use csapp_stay.Linker.Relocations.{Rows, as_int, rela_handler}
use csapp_stay.Linker.Merges.{Mapped, points_to}

-- The linked file: its section headers, its symbols, and the map.
pub record Linked : Type 0 where
  pub sht : List Section
  pub symt : List Symbol
  pub smap : List Mapped

-- `smap_table[u].dst`
unfoldable pub dst_symbol : Linked → Mapped → Option Symbol
dst_symbol k e = e.dst >>= get_elem? k.symt

-- The search for the symbol that is referenced: an unset pointer, no symbol, or the symbol.
pub data Reference : Type 0 where
  fault missing : Reference
  found : Symbol → Reference

unfoldable pub is_reference : List ℕ → Option Symbol → Reference → Reference
is_reference name none rest = fault
is_reference name (some s) rest = if same name s.st_name && is_global s.bind then found s else rest

-- The loop over u.
unfoldable pub search_reference : Linked → List ℕ → List Mapped → Reference
unfolding is_reference
search_reference k name [] = missing
search_reference k name (e ∷ es) =
    let rest = search_reference k name es in is_reference name (dst_symbol k e) rest

-- `found`, `smap_found` and the rows.
pub record Visit : Type 0 where
  pub done : Bool
  pub smap_found : Bool
  pub buffer : Rows

-- The call of the handler for a symbol `start` lines behind the start of its section.
unfoldable pub relocate :
    Linked → Option Section → Relocation → ℕ → Option Symbol → Symbol → Rows → Option Visit
relocate k none r start referencing s buffer = none
relocate k (some sh) r start none s buffer = none
relocate k (some sh) r start (some referencing) s buffer =
    rela_handler r.r_type k.sht sh ((r.r_row + (2 ^ 64 - start) + referencing.st_value) % 2 ^ 64)
      r.r_col s buffer
    >>= λ b. some (record { done = true; smap_found = true; buffer = b })

-- An entry of the map that is the referencing symbol's.
unfoldable pub visit_reference :
    Linked
    → Option Section
    → Relocation
    → ℕ
    → Option Symbol
    → Reference
    → Option Visit
    → Rows
    → Option Visit
unfolding relocate
visit_reference k sh r start referencing fault rest buffer = none
visit_reference k sh r start referencing missing rest buffer = rest
visit_reference k sh r start referencing (found s) rest buffer =
    relocate k sh r start referencing s buffer

-- The loop over t, for the symbol number j of file i.
unfoldable pub visit_entries :
    Linked
    → Option Section
    → Relocation
    → List ℕ
    → ℕ
    → ℕ
    → ℕ
    → List Mapped
    → Bool
    → Rows
    → Option Visit
unfolding visit_reference
visit_entries k sh r name i j start [] smap_found buffer =
    some (record { done = false; smap_found = smap_found; buffer = buffer })
visit_entries k sh r name i j start (e ∷ es) smap_found buffer =
    let passed = visit_entries k sh r name i j start es smap_found buffer in
    let rest = visit_entries k sh r name i j start es true buffer in
    if points_to i j e
    then visit_reference k sh r start (dst_symbol k e) (search_reference k name k.smap) rest buffer
    else passed

-- The last line of a symbol, as an int: -1 for an empty symbol at 0 of .text, which the comparison
-- with the row takes for 2^64 - 1.
abbrev pub text_end : Symbol → ℕ
text_end s = as_int (s.st_value + s.st_size + (2 ^ 64 - 1))

abbrev pub data_end : Symbol → ℕ
data_end s = as_int (s.st_value + s.st_size)

-- What follows the loop over t.
unfoldable pub after_visit : (Rows → Option Rows) → Visit → Option Rows
after_visit rest v = assert v.smap_found >> (if v.done then some v.buffer else rest v.buffer)

-- The loop over the symbols of file i, from number j on.
unfoldable pub visit_symbols :
    Linked
    → Option Section
    → List ℕ
    → (Symbol → ℕ)
    → Relocation
    → List ℕ
    → ℕ
    → ℕ
    → List Symbol
    → Rows
    → Option Rows
unfolding visit_entries after_visit
visit_symbols k sh section end r name i j [] buffer = some buffer
visit_symbols k sh section end r name i j (s ∷ ss) buffer =
    let rest = visit_symbols k sh section end r name i (suc j) ss in
    if same s.st_shndx section && (leb (as_int s.st_value) r.r_row && leb r.r_row (end s))
    then visit_entries k sh r name i j s.st_value k.smap false buffer >>= after_visit rest
    else rest buffer

-- The loop over the relocations of file i.
unfoldable pub visit_relocations :
    Linked
    → Option Section
    → List ℕ
    → (Symbol → ℕ)
    → ℕ
    → List Symbol
    → List Relocation
    → Rows
    → Option Rows
visit_relocations k sh section end i symt [] buffer = some buffer
visit_relocations k sh section end i symt (r ∷ rs) buffer = get_elem? symt r.sym >>= λ s.
    visit_symbols k sh section end r s.st_name i 0 symt buffer
    >>= visit_relocations k sh section end i symt rs

unfoldable pub visit_files : Linked → ℕ → List Elf → Rows → Option Rows
visit_files k i [] buffer = some buffer
visit_files k i (elf ∷ elfs) buffer =
    let text_sh = find_section text k.sht in
    let data_sh = find_section data_section k.sht in
    visit_relocations k text_sh text text_end i elf.symt elf.reltext buffer
    >>= visit_relocations k data_sh data_section data_end i elf.symt elf.reldata
    >>= visit_files k (suc i) elfs

unfoldable pub relocation_processing : List Elf → Linked → Rows → Option Rows
relocation_processing srcs k buffer = visit_files k 0 srcs buffer
