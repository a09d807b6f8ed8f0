-- ===== src/Linker/Linking.antt =====
-- src/linker/staticlink.c: `link_elf`, the composition of the passes.
pub mod Headers
mod Runs
use csapp_stay.Prelude.{ℕ, zero, suc, Option, none, some, List, [], ◌∷◌, map, length, get_elem?}
use csapp_stay.Linker.Symbols.{Symbol, Entry, symbol_processing}
use csapp_stay.Linker.Elf.{Section, ◌>>=◌}
use csapp_stay.Linker.Elf.Files.{Elf}
use csapp_stay.Linker.Relocations.{Rows}
use csapp_stay.Linker.Sections.{compute_section_header}
use csapp_stay.Linker.Merges.{Texts, Mapped, merge_section}
use csapp_stay.Linker.Processing.{relocation_processing}

-- The fields of `dst` that are set, with the entries of `dst->symt` that are.
pub record Eof : Type 0 where
  pub buffer : Rows
  pub line_count : ℕ
  pub sh_count : ℕ
  pub sht : List Section
  pub sym_count : ℕ
  pub symt : List Symbol

unfoldable pub set_symbol : ℕ → Symbol → List Symbol → List Symbol
set_symbol j s [] = []
set_symbol zero s (t ∷ symt) = s ∷ symt
set_symbol (suc j) s (t ∷ symt) = t ∷ set_symbol j s symt

unfoldable pub set_elf : ℕ → ℕ → Symbol → List Elf → List Elf
unfolding set_symbol
set_elf i j s [] = []
set_elf zero j s (elf ∷ srcs) = record elf { symt = set_symbol j s elf.symt } ∷ srcs
set_elf (suc i) j s (elf ∷ srcs) = elf ∷ set_elf i j s srcs

-- The files with the symbols as symbol_processing left them, since the map points to them.
unfoldable pub store_symbols : List Entry → List Elf → List Elf
unfolding set_elf
store_symbols [] srcs = srcs
store_symbols (e ∷ smap) srcs = store_symbols smap (set_elf e.elf e.index e.src srcs)

abbrev pub mapped : Entry → Mapped
mapped e = record { elf = e.elf; index = e.index; dst = none }

-- The rows that were printed, in a buffer of empty rows, and a buffer's bytes, which are 0 behind
-- the texts.
abbrev pub texts_of : List (List ℕ) → Texts
texts_of rows r = elim (get_elem? rows r) [ some row ↦ row | none ↦ [] ]

abbrev pub bytes_of : Texts → Rows
bytes_of texts r c = elim (get_elem? (texts r) c) [ some x ↦ x | none ↦ 0 ]

-- `block` is what malloc leaves in `dst->symt`.
unfoldable pub link_elf : (ℕ → Option Symbol) → List Elf → Option Eof
unfolding store_symbols
link_elf block srcs = do
  smap ← symbol_processing (map (λ elf. elf.symt) srcs)
  h ← compute_section_header (length smap) smap
  m ←
      merge_section block (store_symbols smap srcs) h.sht h.line_count (length smap)
        (map mapped smap) (texts_of h.rows)
  buffer ←
      relocation_processing (store_symbols smap srcs)
        (record { sht = h.sht; symt = m.symt; smap = m.smap }) (bytes_of m.buffer)
  some (record {
    buffer = buffer;
    line_count = h.line_count;
    sh_count = h.sh_count;
    sht = h.sht;
    sym_count = length smap;
    symt = m.symt;
  })
