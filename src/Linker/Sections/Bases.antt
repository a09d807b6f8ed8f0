-- ===== src/Linker/Sections/Bases.antt =====
-- src/linker/staticlink.c: what one section header adds to the offset, the count and the bases.
use csapp_stay.Prelude.{
  ℕ, zero, suc, ◌+◌, ◌*◌, ◌%◌, ◌^◌, ◌<◌, ◌≡◌, refl, ◌∙◌, ap, arith, true, false, List, [], ◌∷◌,
  ◌++◌, length, same, length-append,
}
use csapp_stay.Linker.Symbols.{text, rodata}
use csapp_stay.Linker.Elf.{Section}
use csapp_stay.Linker.Relocations.{text_base, inst_size, Bases, section_bases}
use csapp_stay.Linker.Sections.{Counts, Layout, add_section, positive, one_if, count_headers}

is_positive : (n : ℕ) → suc n < 2 ^ 31 → positive (suc n) ≡ true
is_positive n h = ground arith

pub add_section-offset :
    (count size : ℕ) (name : List ℕ) (addr : ℕ) (l : Layout)
    → count < 2 ^ 31
    → (count ≡ 0 → size ≡ 0)
    → (add_section count name addr size l).section_offset ≡ l.section_offset + size
unfolding add_section
add_section-offset zero size name addr l lt h = omega (arith, h refl)
add_section-offset (suc n) size name addr l lt h = rw (is_positive n lt) refl

pub add_section-length :
    (count size : ℕ) (name : List ℕ) (addr : ℕ) (l : Layout)
    → count < 2 ^ 31
    → length (add_section count name addr size l).sht ≡ length l.sht + one_if count
unfolding add_section
add_section-length zero size name addr l lt = omega arith
add_section-length (suc n) size name addr l lt =
    let one : one_if (suc n) ≡ 1 = ground arith in
    rw (is_positive n lt, one)
      (length-append l.sht (
        record { sh_name = name; sh_addr = addr; sh_offset = l.section_offset; sh_size = size }
        ∷ []))

-- The bases that the address computation finds.
pub section_bases-append :
    (ss : List Section) (s : Section) (b : Bases)
    → section_bases (ss ++ s ∷ []) b ≡ section_bases (s ∷ []) (section_bases ss b)
unfolding section_bases
section_bases-append [] s b = refl
section_bases-append (x ∷ ss) s b = section_bases-append ss s _

abbrev pub bases : ℕ → ℕ → Bases
bases r d = record { rodata_base = r; data_base = d }

abbrev pub start : Counts → Layout
start c = record { sht = []; section_offset = 1 + 1 + count_headers c }

abbrev pub first_bases : Bases
first_bases = bases text_base text_base

abbrev pub text_end : ℕ → ℕ
text_end n = (text_base + n * inst_size) % 2 ^ 64

pub text-bases :
    (l : Layout) (n : ℕ)
    → l.sht ≡ []
    → n < 2 ^ 31
    → section_bases (add_section n text text_base n l).sht first_bases
      ≡ bases (text_end n) (text_end n)
unfolding add_section section_bases same
text-bases l zero e lt = rw e refl
text-bases l (suc n) e lt = rw (is_positive n lt, e) refl

-- One section behind the others.
rodata_step :
    (s : Section) (r n : ℕ)
    → s.sh_name ≡ rodata
    → s.sh_size ≡ n * 8
    → section_bases (s ∷ []) (bases r r) ≡ bases r ((r + n * 64) % 2 ^ 64)
unfolding section_bases same
rodata_step s r n e z = rw (e, z) (ap (bases r) (omega arith))

pub other_step :
    (s : Section) (b : Bases)
    → same s.sh_name text ≡ false
    → same s.sh_name rodata ≡ false
    → section_bases (s ∷ []) b ≡ b
unfolding section_bases
other_step s b e f = rw (e, f) refl

pub rodata-bases :
    (l : Layout) (n addr : ℕ) (b : Bases) (r : ℕ)
    → section_bases l.sht b ≡ bases r r
    → r < 2 ^ 64
    → n < 2 ^ 31
    → section_bases (add_section n rodata addr (n * 8) l).sht b ≡ bases r ((r + n * 64) % 2 ^ 64)
unfolding add_section
rodata-bases l zero addr b r e h lt = e ∙ ap (bases r) (omega arith)
rodata-bases l (suc n) addr b r e h lt =
    let s : Section = record {
      sh_name = rodata;
      sh_addr = addr;
      sh_offset = l.section_offset;
      sh_size = suc n * 8;
    } in
    rw (is_positive n lt) (
      section_bases-append l.sht s b
      ∙ ap (section_bases (s ∷ [])) e
      ∙ rodata_step s r (suc n) refl refl)

pub other_bases :
    (l : Layout) (n addr size : ℕ) (name : List ℕ) (b : Bases)
    → same name text ≡ false
    → same name rodata ≡ false
    → n < 2 ^ 31
    → section_bases (add_section n name addr size l).sht b ≡ section_bases l.sht b
unfolding add_section
other_bases l zero addr size name b e f lt = refl
other_bases l (suc n) addr size name b e f lt =
    let s : Section = record {
      sh_name = name;
      sh_addr = addr;
      sh_offset = l.section_offset;
      sh_size = size;
    } in
    rw (is_positive n lt)
      (section_bases-append l.sht s b ∙ other_step s (section_bases l.sht b) e f)
