-- ===== src/Linker/Symbols/Runs.antt =====
-- src/linker/staticlink.c at concrete inputs: one file declares "a" tentatively and refers to "b",
-- the other defines both.
use csapp_stay.Prelude.{
  same, ◌⊎◌, none, ℕ, ◌≡◌, refl, sym, ap, ◌≢◌, arith, some, List, [], ◌∷◌, inr,
}
use csapp_stay.Linker.Symbols.{
  Symbol, Entry, SymbolType, stb_global, stt_notype, stt_object, stt_func, shn_undef, common, text,
  data_section, symbol_precedence, choose, choose_some, simple_resolution, search_conflict, replace,
  keep, insert_symbol, resolved, process_symbol, process_symbols, process_elfs, symbol_processing,
}
use csapp_stay.Linker.Symbols.Maps.{Unique}
use csapp_stay.Linker.Symbols.Totals.{All, IsRanked}
use csapp_stay.Linker.Symbols.Results.{
  entries, entries_of, NoClash, AllCovered, process_elfs-Processed,
}
use csapp_stay.Linker.Symbols.Cleanup.{IsTyped, AllCleaned, symbol_processing-Cleaned}

abbrev symbol : ℕ → List ℕ → SymbolType → ℕ → Symbol
symbol name shndx type value = record {
  st_name = name ∷ [];
  st_shndx = shndx;
  bind = stb_global;
  type = type;
  st_value = value;
  st_size = 8;
}

abbrev files : List (List Symbol)
files =
    (symbol b'a' common stt_object 8 ∷ symbol b'b' shn_undef stt_notype 0 ∷ [])
    ∷ (symbol b'a' data_section stt_object 4 ∷ symbol b'b' text stt_func 1 ∷ [])
    ∷ []

-- The map names the second file for both.
abbrev linked : List Entry
linked =
    record { elf = 1; index = 0; src = symbol b'a' data_section stt_object 4 }
    ∷ record { elf = 1; index = 1; src = symbol b'b' text stt_func 1 }
    ∷ []

files-IsRanked : All IsRanked (entries 0 files)
unfolding entries entries_of symbol_precedence same
files-IsRanked = ((λ g. (1, refl)), ((λ g. (0, refl)), ((λ g. (2, refl)), ((λ g. (2, refl)), tt))))

process_elfs-linked : process_elfs 0 files [] ≡ some linked
unfolding process_elfs process_symbols process_symbol resolved search_conflict replace keep
    insert_symbol simple_resolution choose_some choose symbol_precedence same
process_elfs-linked = refl

symbol_processing-Cleaned_example :
    (All IsTyped linked
      × ((ds : List Entry) × (symbol_processing files ≡ some ds) × AllCleaned linked ds))
    ⊎ ((All IsTyped linked → ⊥) × (symbol_processing files ≡ none))
symbol_processing-Cleaned_example = symbol_processing-Cleaned files linked process_elfs-linked

a_b : ◌≢◌ {A = List ℕ} (b'a' ∷ []) (b'b' ∷ [])
a_b e =
    let head : List ℕ → ℕ = λ xs. elim xs [ [] ↦ 0 | x ∷ rest ↦ x ] in
    let f : ◌≡◌ {A = ℕ} 97 98 = ap head e in absurd (omega arith)

files-NoClash : NoClash (entries 0 files)
unfolding entries entries_of symbol_precedence same
files-NoClash = (
  ((λ g g' n. absurd (a_b n)), ((λ g g' n. inr (λ h. cc)), ((λ g g' n. absurd (a_b n)), tt))),
  (
    ((λ g g' n. absurd (a_b (sym n))), ((λ g g' n. inr (λ h. cc)), tt)),
    (((λ g g' n. absurd (a_b n)), tt), (tt, tt)),
  ),
)

process_elfs-Processed_example :
    (smap : List Entry) × (process_elfs 0 files [] ≡ some smap)
    × Unique smap
    × AllCovered (entries 0 files) smap
unfolding entries entries_of
process_elfs-Processed_example =
    process_elfs-Processed files files-IsRanked files-NoClash (omega arith)
