-- ===== src/Linker/Merges/Tallies.antt =====
-- src/linker/staticlink.c: the lines of a section's symbols, in the order of the symbol table.
use csapp_stay.Prelude.{
  ℕ, ◌+◌, ◌≡◌, ◌≢◌, refl, ◌∙◌, true, false, List, [], ◌∷◌, ◌++◌, same, same_refl, ne_same,
  if◌then◌else◌,
}
use csapp_stay.Linker.Symbols.{Symbol}
use csapp_stay.Linker.Elf.Files.Tables.{All}

-- The lines of the symbols of a section, after the symbols ss.
abbrev pub add_lines : (List ℕ → ℕ) → Symbol → List ℕ → ℕ
add_lines count s name = if same s.st_shndx name then count name + s.st_size else count name

pub tally : (List ℕ → ℕ) → List Symbol → List ℕ → ℕ
tally count [] = count
tally count (s ∷ ss) = tally (add_lines count s) ss

-- Each symbol's value is the number of the lines of its section's symbols in front of it.
abbrev pub AllValued : (List ℕ → ℕ) → List Symbol → Type 0
AllValued count [] = Unit
AllValued count (s ∷ ss) = (s.st_value ≡ count s.st_shndx) × AllValued (add_lines count s) ss

pub AllValued-append :
    (count : List ℕ → ℕ) (ss : List Symbol) (s : Symbol)
    → AllValued count ss
    → s.st_value ≡ tally count ss s.st_shndx
    → AllValued count (ss ++ s ∷ [])
unfolding tally
AllValued-append count [] s a e = (e, tt)
AllValued-append count (t ∷ ss) s (q, a) e = (q, AllValued-append (add_lines count t) ss s a e)

pub tally-append :
    (count : List ℕ → ℕ) (ss : List Symbol) (s : Symbol) (name : List ℕ)
    → s.st_shndx ≡ name
    → tally count (ss ++ s ∷ []) name ≡ tally count ss name + s.st_size
unfolding tally
tally-append count [] s name e =
    let named : same s.st_shndx name ≡ true = rw e (same_refl name) in rw named refl
tally-append count (t ∷ ss) s name e = tally-append (add_lines count t) ss s name e

pub tally-others :
    (count : List ℕ → ℕ) (ss : List Symbol) (name : List ℕ)
    → All (λ s. s.st_shndx ≢ name) ss
    → tally count ss name ≡ count name
unfolding tally
tally-others count [] name a = refl
tally-others count (s ∷ ss) name (n, a) =
    let other : same s.st_shndx name ≡ false = ne_same s.st_shndx name n in
    tally-others (add_lines count s) ss name a ∙ rw other refl

abbrev pub no_lines : List ℕ → ℕ
no_lines name = 0
