-- ===== src/Linker/Driver/Arguments.antt =====
-- src/linker/linker.c: what the arguments of the program name.
use csapp_stay.Prelude.{
  ℕ, ◌+◌, ◌≤◌, ◌≡◌, refl, sym, ◌∙◌, ap, arith, true, false, none, some, List, [], ◌∷◌, ◌++◌, ltb,
  length, length-append, append_assoc, append-nil, same,
}
use csapp_stay.Linker.Driver.{Names, given, is_help, is_output, add_name, parse_arguments}

-- Neither -h, --help nor -o.
abbrev pub IsName : List ℕ → Type 0
IsName str = (is_help str ≡ false) × (is_output str ≡ false)

abbrev pub AllNames : List (List ℕ) → Type 0
AllNames [] = Unit
AllNames (str ∷ strs) = IsName str × AllNames strs

abbrev output : List ℕ
output = b'-' ∷ b'o' ∷ []

output-after :
    (n : Names) (out : List ℕ)
    → IsName out
    → parse_arguments false n (output ∷ out ∷ []) ≡ some (given (record n { eof_fn = some out }))
unfolding parse_arguments add_name same
output-after n out (h, o) = rw (h, o) refl

names-before :
    (front strs : List (List ℕ)) (out : List ℕ)
    → AllNames strs
    → IsName out
    → length front + length strs ≤ 64
    → parse_arguments false (record { elf_fn = front; eof_fn = none }) (strs ++ output ∷ out ∷ [])
      ≡ some (given (record { elf_fn = front ++ strs; eof_fn = some out }))
unfolding parse_arguments add_name
names-before front [] out a o h =
    output-after (record { elf_fn = front; eof_fn = none }) out o
    ∙ ap (λ f. some (given (record { elf_fn = f; eof_fn = some out }))) (sym (append-nil front))
names-before front (str ∷ strs) out ((help, flag), a) o h =
    let room : ltb (length front) 64 ≡ true = ground arith in
    let len = length-append front (str ∷ []) in
    rw (help, flag, room)
      (names-before (front ++ str ∷ []) strs out a o (omega (arith, h, len))
        ∙ ap (λ f. some (given (record { elf_fn = f; eof_fn = some out })))
            (append_assoc front (str ∷ []) strs))

pub parse_arguments-output :
    (strs : List (List ℕ)) (out : List ℕ)
    → AllNames strs
    → IsName out
    → length strs ≤ 64
    → parse_arguments false
        (record { elf_fn = []; eof_fn = none })
        (strs ++ (b'-' ∷ b'o' ∷ []) ∷ out ∷ [])
      ≡ some (given (record { elf_fn = strs; eof_fn = some out }))
parse_arguments-output strs out a o h = names-before [] strs out a o (omega arith)
