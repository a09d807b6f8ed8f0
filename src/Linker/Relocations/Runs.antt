-- ===== src/Linker/Relocations/Runs.antt =====
-- src/linker/staticlink.c: tests, and the theorems at concrete inputs.
use csapp_stay.Prelude.{ℕ, ◌+◌, ◌*◌, ◌%◌, ◌^◌, ◌≡◌, inr, refl, arith, some, [], ◌∷◌}
use csapp_stay.Convert.{string2uint}
use csapp_stay.Linker.Symbols.{Symbol, stb_global, stt_func, text}
use csapp_stay.Linker.Elf.{Section}
use csapp_stay.Linker.Relocations.{
  Rows, get_sym_runtime_address, r_x86_64_pc32_handler, text_base, inst_size, hex_text, hex_digits,
}
use csapp_stay.Linker.Relocations.Texts.{row_text}
use csapp_stay.Linker.Relocations.Targets.{r_x86_64_pc32_handler-target}

abbrev main : Symbol
main = record {
  st_name = b'm' ∷ [];
  st_shndx = text;
  bind = stb_global;
  type = stt_func;
  st_value = 22;
  st_size = 11;
}

abbrev section : Section
section = record { sh_name = text; sh_addr = 4194304; sh_offset = 5; sh_size = 33 }

abbrev blank : Rows
blank r c = b' '

-- "0x0000000000000538"
printed :
    hex_text 1336
    ≡ b'0' ∷ b'x' ∷ b'0' ∷ b'0' ∷ b'0' ∷ b'0' ∷ b'0' ∷ b'0' ∷ b'0' ∷ b'0' ∷ b'0' ∷ b'0' ∷ b'0'
      ∷ b'0' ∷ b'0' ∷ b'5' ∷ b'3' ∷ b'8' ∷ []
unfolding hex_text hex_digits
printed = refl

r_x86_64_pc32_handler-target_example :
    (after : Rows) × (val : ℕ) × (r_x86_64_pc32_handler (section ∷ []) section 29 7 main blank
      ≡ some after)
    × (string2uint (row_text 18 7 (after 34)) ≡ some val)
    × (((text_base + (29 + 1) * inst_size) + val) % 2 ^ 64
        ≡ get_sym_runtime_address (section ∷ []) main)
    × (after 34 25 ≡ b' ')
r_x86_64_pc32_handler-target_example =
    r_x86_64_pc32_handler-target (section ∷ []) section 29 7 main blank 34 25 refl (omega arith)
      (omega arith) (inr (inr (omega arith)))
