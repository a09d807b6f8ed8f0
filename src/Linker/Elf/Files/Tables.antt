-- ===== src/Linker/Elf/Files/Tables.antt =====
-- src/linker/parseELF.c: the tables that parse_elf leaves, and a printed symbol.
use csapp_stay.Prelude.{ℕ, ◌<◌, ◌≡◌, refl, sym, Option, none, some, List, [], ◌∷◌, length}
use csapp_stay.Linker.Elf.{◌>>=◌, Relocation}
use csapp_stay.Linker.Elf.Files.{Elf}

-- Inversion of a step that succeeds.
pub >>=-eq-some {ℓ κ} :
    {A : Type ℓ} {B : Type κ} (m : Option A) (f : A → Option B) {b : B}
    → (m >>= f) ≡ some b
    → (a : A) × (m ≡ some a) × (f a ≡ some b)
>>=-eq-some none f e = cc
>>=-eq-some (some a) f e = (a, refl, e)

abbrev pub All {ℓ κ} : {A : Type ℓ} → (A → Type κ) → List A → Type κ
All P [] = Unit
All P (x ∷ xs) = P x × All P xs

abbrev pub InTable : ℕ → Relocation → Type 0
InTable sym_count r = r.sym < sym_count

-- The counts of an object file are those of its tables, and each relocation is of one of its symbols.
pub record IsElf (elf : Elf) : Type 0 where
  pub lines : elf.line_count ≡ length elf.buffer
  pub sections : elf.sh_count ≡ length elf.sht
  pub symbols : elf.sym_count ≡ length elf.symt
  pub texts : elf.reltext_count ≡ length elf.reltext
  pub datas : elf.reldata_count ≡ length elf.reldata
  pub text_symbols : All (InTable elf.sym_count) elf.reltext
  pub data_symbols : All (InTable elf.sym_count) elf.reldata
