-- ===== src/Linker/Merges/Placements.antt =====
-- src/linker/staticlink.c: where merge_section puts the rows of the symbols.
use mathlib.Core.Path.{subst}
use csapp_stay.Prelude.{ℕ, ◌+◌, ◌≤◌, ◌≡◌, sym, ◌∙◌, ap, arith, some, List, [], ◌∷◌, ◌++◌, get_elem?}
use csapp_stay.Linker.Symbols.{Symbol}
use csapp_stay.Linker.Elf.{Section}
use csapp_stay.Linker.Elf.Files.{Elf, find_section}
use csapp_stay.Linker.Elf.Files.Tables.{All}
use csapp_stay.Linker.Merges.{Texts}
use csapp_stay.Linker.Merges.Copies.{Copied, Kept}

-- The lines of the symbols.
unfoldable pub lines_of : List Symbol → ℕ
lines_of [] = 0
lines_of (s ∷ ss) = s.st_size + lines_of ss

-- The entry s is that of a symbol of a file, whose rows stand in the buffer from `at` on.
pub record Placed (srcs : List Elf) (b : Texts) (at : ℕ) (s : Symbol) : Type 0 where
  pub file : ℕ
  pub index : ℕ
  pub elf : Elf
  pub src : Symbol
  pub section : Section
  pub of_file : get_elem? srcs file ≡ some elf
  pub of_table : get_elem? elf.symt index ≡ some src
  pub of_section : find_section src.st_shndx elf.sht ≡ some section
  pub entry : s ≡ record src { st_value = s.st_value }
  pub rows : Copied elf.buffer (section.sh_offset + src.st_value) at s.st_size b

abbrev pub AllPlaced : List Elf → Texts → ℕ → List Symbol → Type 0
AllPlaced srcs b at [] = Unit
AllPlaced srcs b at (s ∷ ss) = Placed srcs b at s × AllPlaced srcs b (at + s.st_size) ss

Copied-Kept :
    (rows : List (List ℕ)) (src at n end : ℕ) (b b' : Texts)
    → at + n ≤ end
    → Kept end b b'
    → Copied rows src at n b
    → Copied rows src at n b'
Copied-Kept rows src at n end b b' h k c l lt = c l lt ∙ ap some (sym (k (at + l) (omega arith)))

pub AllPlaced-Kept :
    (srcs : List Elf) (b b' : Texts) (at end : ℕ) (ss : List Symbol)
    → at + lines_of ss ≤ end
    → Kept end b b'
    → AllPlaced srcs b at ss
    → AllPlaced srcs b' at ss
unfolding lines_of
AllPlaced-Kept srcs b b' at end [] h k a = tt
AllPlaced-Kept srcs b b' at end (s ∷ ss) h k (p, a) = (
  record {
    file = p.file;
    index = p.index;
    elf = p.elf;
    src = p.src;
    section = p.section;
    of_file = p.of_file;
    of_table = p.of_table;
    of_section = p.of_section;
    entry = p.entry;
    rows = Copied-Kept p.elf.buffer _ at s.st_size end b b' (omega (arith, h)) k p.rows;
  },
  AllPlaced-Kept srcs b b' (at + s.st_size) end ss (omega (arith, h)) k a,
)

pub AllPlaced-append :
    (srcs : List Elf) (b : Texts) (at : ℕ) (ss : List Symbol) (s : Symbol)
    → AllPlaced srcs b at ss
    → Placed srcs b (at + lines_of ss) s
    → AllPlaced srcs b at (ss ++ s ∷ [])
unfolding lines_of
AllPlaced-append srcs b at [] s a p =
    let e : at + 0 ≡ at = omega arith in (subst (λ x. Placed srcs b x s) e p, tt)
AllPlaced-append srcs b at (t ∷ ss) s (q, a) p =
    let e : at + (t.st_size + lines_of ss) ≡ at + t.st_size + lines_of ss = omega arith in
    (q, AllPlaced-append srcs b (at + t.st_size) ss s a (subst (λ x. Placed srcs b x s) e p))

pub lines_of-append :
    (ss : List Symbol) (s : Symbol) → lines_of (ss ++ s ∷ []) ≡ lines_of ss + s.st_size
unfolding lines_of
lines_of-append [] s = omega arith
lines_of-append (t ∷ ss) s = omega (arith, lines_of-append ss s)

pub All-append :
    {A : Type 0} (P : A → Type 0) (xs : List A) (x : A) → All P xs → P x → All P (xs ++ x ∷ [])
All-append P [] x a p = (p, tt)
All-append P (y ∷ xs) x (q, a) p = (q, All-append P xs x a p)

pub All-map :
    {A : Type 0} (P Q : A → Type 0) (xs : List A) → ((x : A) → P x → Q x) → All P xs → All Q xs
All-map P Q [] f a = tt
All-map P Q (x ∷ xs) f (p, a) = (f x p, All-map P Q xs f a)

-- The invariant: the rows in front of `start` are kept, those of the symbols follow each other, and
-- no value is larger than the number of the rows.
abbrev pub Follows : List Elf → ℕ → Texts → List Symbol → Texts → ℕ → ℕ → Type 0
Follows srcs start b symt buffer line_written offset =
    (line_written ≡ start + lines_of symt)
    × Kept start b buffer
    × AllPlaced srcs buffer start symt
    × (offset ≤ line_written)
    × All (λ s. s.st_value ≤ line_written) symt
