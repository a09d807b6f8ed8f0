-- ===== src/Linker/Driver/Counts.antt =====
-- src/linker/linker.c: the first line of the file that is written.
use mathlib.Core.Option.{some_inj}
use mathlib.Core.Path.{subst}
use csapp_stay.Prelude.{
  ℕ, zero, suc, ◌+◌, ◌-◌, ◌/◌, ◌%◌, ◌^◌, ◌≤◌, ◌<◌, ◌≡◌, ◌≢◌, refl, sym, ◌∙◌, ap, arith, true, false,
  Bool-cases, inl, inr, Option, none, some, List, [], ◌∷◌, ◌++◌, ◌==◌, ltb, map, length,
  length-append, get_elem?,
}
use csapp_stay.Convert.Numerals.{digit}
use csapp_stay.Linker.Elf.{◌>>=◌}
use csapp_stay.Linker.Elf.Files.{Elf, write_eof}
use csapp_stay.Linker.Elf.Files.Tables.{>>=-eq-some}
use csapp_stay.Linker.Elf.Symbols.{length-map-digit}
use csapp_stay.Hash.{HashTable}
use csapp_stay.Linker.Symbols.{Symbol}
use csapp_stay.Linker.Relocations.{Rows}
use csapp_stay.Linker.Processing.Headers.{AllForward}
use csapp_stay.Linker.Numerals.{digits_of, long_text}
use csapp_stay.Linker.Linking.{Eof, texts_of, bytes_of, link_elf}
use csapp_stay.Linker.Linking.Headers.{Headed, link_elf_lem}
use csapp_stay.Linker.Driver.{
  Names, given, parse_arguments, parse_files, path_of, string_at, strings_from, Outcome, written_to,
  usage_shown, link_names, main,
}

-- Text without NUL.
abbrev NonNul : List ℕ → Type 0
NonNul [] = Unit
NonNul (c ∷ cs) = (c ≢ 0) × NonNul cs

digits-NonNul : (ds : List ℕ) → NonNul (map digit ds)
digits-NonNul [] = tt
digits-NonNul (d ∷ ds) = ((λ e. absurd (ground arith)), digits-NonNul ds)

digits_of-length : (base n v : ℕ) → length (digits_of base n v) ≤ n
unfolding digits_of
digits_of-length base zero v = omega arith
digits_of-length base (suc n) v = elim (Bool-cases (ltb v base)) [
  | inl e ↦ rw e (omega arith)
  | inr e ↦ rw e (
      omega (
        arith,
        digits_of-length base n (v / base),
        length-append (digits_of base n (v / base)) (v % base ∷ []),
      ))
]

long_text-fits : (v : ℕ) → NonNul (long_text v) × (length (long_text v) < 128)
unfolding long_text
long_text-fits v = elim (Bool-cases (ltb v (2 ^ 63))) [
  | inl e ↦ rw e (
    digits-NonNul (digits_of 10 19 v),
    omega (arith, length-map-digit (digits_of 10 19 v), digits_of-length 10 19 v),
  )
  | inr e ↦
      let ds = digits_of 10 19 (2 ^ 64 - v) in
      rw e (
        ((λ q. absurd (omega arith)), digits-NonNul ds),
        omega (arith, length-map-digit ds, digits_of-length 10 19 (2 ^ 64 - v)),
      )
]

string_at-text :
    (text : List ℕ) (n c : ℕ) (row : ℕ → ℕ)
    → NonNul text
    → length text < n
    → ((i x : ℕ) → get_elem? text i ≡ some x → row (c + i) ≡ x)
    → row (c + length text) ≡ 0
    → string_at n c row ≡ some text
unfolding string_at
string_at-text text zero c row a h at end = absurd (omega (arith, h))
string_at-text [] (suc n) c row a h at end =
    let zero_at : c + 0 ≡ c = omega arith in
    let e : row c ≡ 0 = subst (λ k. row k ≡ 0) zero_at end in
    let z : (row c == 0) ≡ true = ground (arith, e) in rw z refl
string_at-text (x ∷ text) (suc n) c row (ne, a) h at end =
    let zero_at : c + 0 ≡ c = omega arith in
    let e : row c ≡ x = subst (λ k. row k ≡ x) zero_at (at 0 x refl) in
    let z : (row c == 0) ≡ false = ground (arith, e, ne) in
    let rest =
      string_at-text text n (suc c) row a (omega (arith, h))
        (λ i y q. let s : suc c + i ≡ c + suc i = omega arith in rw s (at (suc i) y q))
        (let s : suc c + length text ≡ c + suc (length text) = omega arith in rw s end) in
    rw (z, rest, e) refl

get_elem?-length : (xs : List ℕ) → get_elem? xs (length xs) ≡ none
get_elem?-length [] = refl
get_elem?-length (x ∷ xs) = get_elem?-length xs

abbrev byte_of : Option ℕ → ℕ
byte_of o = elim o [ some x ↦ x | none ↦ 0 ]

-- A text in a row of zeros.
text_row :
    (text : List ℕ) (rows : List (List ℕ))
    → get_elem? rows 0 ≡ some text
    → NonNul text
    → length text < 128
    → string_at 128 0 (bytes_of (texts_of rows) 0) ≡ some text
text_row text [] e a h = cc
text_row text (t ∷ rows) e a h =
    let same_text : t ≡ text = some_inj.0 e in
    subst (λ t. string_at 128 0 (bytes_of (texts_of (t ∷ rows)) 0) ≡ some text) (sym same_text)
      (string_at-text text 128 0 (bytes_of (texts_of (text ∷ rows)) 0) a h
        (λ i x q.
          let e : 0 + i ≡ i = omega arith in ap (λ j. byte_of (get_elem? text j)) e ∙ ap byte_of q)
        (ap (λ j. byte_of (get_elem? text j))
            (let e : 0 + length text ≡ length text = omega arith in e)
          ∙ ap byte_of (get_elem?-length text)))

strings_from-length :
    (n r : ℕ) (buffer : Rows) (rows : List (List ℕ))
    → strings_from n r buffer ≡ some rows
    → length rows ≡ n
unfolding strings_from
strings_from-length zero r buffer rows e = ap length (some_inj.0 (sym e))
strings_from-length (suc n) r buffer rows e =
    let (s, _, e₁) = >>=-eq-some (string_at 128 0 (buffer r)) _ e in
    let (ss, p, e₂) = >>=-eq-some (strings_from n (suc r) buffer) _ e₁ in
    let len = strings_from-length n (suc r) buffer ss p in
    subst (λ ys. length ys ≡ suc n) (some_inj.0 e₂) (omega (arith, len))

length-write_eof : (rows : List (List ℕ)) → length (write_eof rows) ≡ length rows
unfolding write_eof
length-write_eof [] = refl
length-write_eof (row ∷ rows) = ap suc (length-write_eof rows)

strings_from-first :
    (n r : ℕ) (buffer : Rows) (rows : List (List ℕ)) (text : List ℕ)
    → strings_from n r buffer ≡ some rows
    → 0 < n
    → string_at 128 0 (buffer r) ≡ some text
    → (rest : List (List ℕ)) × (rows ≡ text ∷ rest)
unfolding strings_from
strings_from-first zero r buffer rows text e h t = absurd (omega arith)
strings_from-first (suc n) r buffer rows text e h t =
    let (s, p, e₁) = >>=-eq-some (string_at 128 0 (buffer r)) _ e in
    let (ss, _, e₂) = >>=-eq-some (strings_from n (suc r) buffer) _ e₁ in
    (ss, some_inj.0 (sym e₂) ∙ ap (λ x. x ∷ ss) (some_inj.0 (sym p ∙ t)))

abbrev Counted : List (List ℕ) → Type 0
Counted lines = (rest : List (List ℕ)) × (lines ≡ (long_text (length lines) ++ 10 ∷ []) ∷ rest)

count_line :
    (k : Eof) (ss : List (List ℕ))
    → Headed k 0
    → strings_from k.line_count 0 k.buffer ≡ some ss
    → Counted (write_eof ss)
unfolding write_eof
count_line k ss (rows, front, offset, _, _, first, at, total) e =
    let count = length-write_eof ss ∙ strings_from-length k.line_count 0 k.buffer ss e in
    let (fill, short) = long_text-fits k.line_count in
    let text = ap (string_at 128 0) at ∙ text_row (long_text k.line_count) rows first fill short in
    let (rest, shape) =
      strings_from-first k.line_count 0 k.buffer ss (long_text k.line_count) e
        (omega (arith, total)) text in
    (
      write_eof rest,
      ap write_eof shape ∙ ap (λ n. (long_text n ++ 10 ∷ []) ∷ write_eof rest) (sym count),
    )

abbrev written : Outcome → List (List ℕ)
written usage_shown = []
written (written_to path lines) = lines

abbrev IsWritten : Outcome → Type 0
IsWritten usage_shown = Unit
IsWritten (written_to path lines) = Counted lines

link_names-count :
    (block : ℕ → Option Symbol) (files : List ℕ → Option (List (List ℕ))) (n : Names)
    (srcs : List Elf) (dict : Option HashTable) (o : Outcome)
    → parse_files files n.elf_fn none ≡ some (srcs, dict)
    → AllForward srcs
    → link_names block files (given n) ≡ some o
    → IsWritten o
unfolding link_names
link_names-count block files n srcs dict o parsing forward e =
    let ((srcs', dict'), p, e₁) = >>=-eq-some (parse_files files n.elf_fn none) _ e in
    let equal : srcs ≡ srcs' = ap (λ x. x.0) (some_inj.0 (sym parsing ∙ p)) in
    let (k, linked, e₂) = >>=-eq-some (link_elf block srcs') _ e₁ in
    let (path, _, e₃) = >>=-eq-some (n.eof_fn >>= path_of b'o') _ e₂ in
    let (_, _, e₄) = >>=-eq-some dict' _ e₃ in
    let (ss, strings, e₅) = >>=-eq-some (strings_from k.line_count 0 k.buffer) _ e₄ in
    let header =
      link_elf_lem block srcs' k 0 (subst AllForward equal forward) linked (omega arith) in
    subst IsWritten (some_inj.0 e₅) (count_line k ss header strings)

-- If the arguments name files that are parsed, the rows of their relocations are below 2^30 and
-- the columns below 2^31, and the linker writes a file, then its first line is the numeral of the
-- number of the lines that it writes.
pub main-count :
    (block : ℕ → Option Symbol) (files : List ℕ → Option (List (List ℕ))) (argv : List (List ℕ))
    (n : Names) (srcs : List Elf) (dict : Option HashTable) (path : List ℕ) (lines : List (List ℕ))
    → parse_arguments false (record { elf_fn = []; eof_fn = none }) argv ≡ some (given n)
    → parse_files files n.elf_fn none ≡ some (srcs, dict)
    → AllForward srcs
    → main block files argv ≡ some (written_to path lines)
    → (rest : List (List ℕ)) × (lines ≡ (long_text (length lines) ++ 10 ∷ []) ∷ rest)
unfolding main
main-count block files argv n srcs dict path lines names parsing forward e =
    link_names-count block files n srcs dict (written_to path lines) parsing forward (rw names at e)
