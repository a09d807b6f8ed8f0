-- ===== src/Linker/Elf/Runs.antt =====
-- src/linker/parseELF.c: tests, and the theorems at concrete inputs.
use csapp_stay.Prelude.{◌≡◌, ◌↔◌, refl, some, [], ◌∷◌}
use csapp_stay.Linker.Elf.{table_columns, count_columns, parse_table_entry}
use csapp_stay.Linker.Elf.Columns.{Splits, parse_table_entry_iff}

-- "a,,b" has three columns.
columns :
    parse_table_entry (b'a' ∷ b',' ∷ b',' ∷ b'b' ∷ []) ≡ some ((b'a' ∷ []) ∷ [] ∷ (b'b' ∷ []) ∷ [])
unfolding parse_table_entry table_columns count_columns
columns = refl

parse_table_entry_iff_example :
    (parse_table_entry (b'a' ∷ b',' ∷ b'b' ∷ []) ≡ some ((b'a' ∷ []) ∷ (b'b' ∷ []) ∷ []))
    ↔ Splits (b'a' ∷ b',' ∷ b'b' ∷ []) ((b'a' ∷ []) ∷ (b'b' ∷ []) ∷ [])
parse_table_entry_iff_example =
    parse_table_entry_iff (b'a' ∷ b',' ∷ b'b' ∷ []) ((b'a' ∷ []) ∷ (b'b' ∷ []) ∷ [])
