-- ===== src/Linker/Elf/Files/Lines.antt =====
-- src/linker/parseELF.c: the lines that write_eof writes are read back by read_elf.
use csapp_stay.Prelude.{
  ℕ, ◌+◌, ◌≤◌, ◌≡◌, ◌≢◌, refl, sym, ◌∙◌, ap, arith, Bool, true, false, some, List, [], ◌∷◌, ◌++◌,
  ◌&&◌, ◌==◌, ==_iff, ltb, length, append_assoc, append-nil, length-append,
}
use csapp_stay.Convert.{string2uint}
use csapp_stay.Linker.Elf.Files.{
  ends_line, starts_comment, is_empty, is_white, copy_line, max_elf_file_length, read_lines,
  read_elf, write_eof,
}

-- No end of line and no comment in the line.
abbrev pub NoEnd : List ℕ → Type 0
NoEnd [] = Unit
NoEnd (c ∷ cs) = (ends_line c ≡ false) × (starts_comment c cs ≡ false) × NoEnd cs

abbrev pub AllLines : List (List ℕ) → Type 0
AllLines [] = Unit
AllLines (line ∷ lines) = (line ≢ []) × NoEnd line × AllLines lines

starts_comment-append :
    (c : ℕ) (cs : List ℕ) → starts_comment c cs ≡ false → starts_comment c (cs ++ 10 ∷ []) ≡ false
starts_comment-append c [] h = ground arith
starts_comment-append c (d ∷ cs) h = h

copy_line-append : (line : List ℕ) → NoEnd line → copy_line (line ++ 10 ∷ []) ≡ line
unfolding copy_line
copy_line-append [] n = refl
copy_line-append (c ∷ cs) (e, s, n) =
    rw (e, starts_comment-append c cs s, copy_line-append cs n) refl

is_empty-append : (line : List ℕ) → line ≢ [] → NoEnd line → is_empty (line ++ 10 ∷ []) ≡ false
unfolding is_empty
is_empty-append [] h n = absurd (h refl)
is_empty-append (c ∷ cs) h (e, s, n) = rw (e, starts_comment-append c cs s) refl

is_white-append : (line : List ℕ) → is_white (line ++ 10 ∷ []) ≡ false
unfolding is_white
is_white-append [] = refl
is_white-append (c ∷ cs) = rw (is_white-append cs) (and_false _)
  where
    and_false : (b : Bool) → (b && false) ≡ false
    and_false true = refl
    and_false false = refl

read_lines-write_eof :
    (lines buffer : List (List ℕ))
    → AllLines lines
    → length buffer + length lines ≤ max_elf_file_length
    → read_lines (write_eof lines) buffer ≡ some (buffer ++ lines)
unfolding read_lines write_eof
read_lines-write_eof [] buffer a h = ap some (sym (append-nil buffer))
read_lines-write_eof (line ∷ lines) buffer (ne, n, a) h =
    let room : ltb (length buffer) max_elf_file_length ≡ true = ground arith in
    rw (is_empty-append line ne n, is_white-append line, room, copy_line-append line n)
      (read_lines-write_eof lines (buffer ++ line ∷ []) a
          (omega (arith, length-append buffer (line ∷ [])))
        ∙ ap some (append_assoc buffer (line ∷ []) lines))

-- Lines that write_eof writes are read back as they were, if there are at most 64, none is empty
-- or has a newline, a carriage return or the start of a comment, and the first is a numeral of
-- their number.
pub read_elf-write_eof :
    (first : List ℕ) (lines : List (List ℕ))
    → AllLines (first ∷ lines)
    → length (first ∷ lines) ≤ max_elf_file_length
    → string2uint first ≡ some (length (first ∷ lines))
    → read_elf (write_eof (first ∷ lines)) ≡ some (first ∷ lines)
unfolding read_elf
read_elf-write_eof first lines a h count =
    let same : (length (first ∷ lines) == length (first ∷ lines)) ≡ true = (==_iff _ _).1 refl in
    rw (read_lines-write_eof (first ∷ lines) [] a (omega arith), count, same) refl
