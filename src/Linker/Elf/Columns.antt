-- ===== src/Linker/Elf/Columns.antt =====
-- src/linker/parseELF.c: the columns of a line.
use mathlib.Core.Path.{subst}
use mathlib.Core.Option.{some_inj}
use csapp_stay.Prelude.{
  ℕ, ◌+◌, ◌≤◌, ◌<◌, ◌≡◌, ◌≢◌, ◌↔◌, inl, inr, refl, sym, ◌∙◌, ap, arith, true, false, none, some,
  List, [], ◌∷◌, ◌++◌, ◌==◌, ==_iff, ltb, leb, length, Bool-cases, append_assoc, append-nil,
  length-append, Option-cases,
}
use csapp_stay.Linker.Elf.{table_columns, count_columns, parse_table_entry}

-- The line of the columns.
unfoldable pub join : List ℕ → List (List ℕ) → List ℕ
join col [] = col
join col (next ∷ cols) = col ++ b',' ∷ join next cols

abbrev pub NoComma : List ℕ → Type 0
NoComma [] = Unit
NoComma (c ∷ cs) = (c ≢ b',') × NoComma cs

-- A column that fits the buffer.
abbrev pub IsColumn : List ℕ → Type 0
IsColumn col = NoComma col × (length col ≤ 32)

abbrev pub AllColumns : List (List ℕ) → Type 0
AllColumns [] = Unit
AllColumns (col ∷ cols) = IsColumn col × AllColumns cols

-- The characters of a column go to the buffer.
table_columns-append :
    (col str buf : List ℕ)
    → NoComma col
    → length buf + length col ≤ 32
    → table_columns (col ++ str) buf ≡ table_columns str (buf ++ col)
unfolding table_columns
table_columns-append [] str buf n h = rw (append-nil buf) refl
table_columns-append (c ∷ col) str buf (ne, n) h =
    let plain : (c == b',') ≡ false = ground arith in
    let fits : ltb (length buf) 32 ≡ true = ground arith in
    rw (plain, fits)
      (table_columns-append col str (buf ++ c ∷ []) n (omega (arith, length-append buf (c ∷ [])))
        ∙ ap (table_columns str) (append_assoc buf (c ∷ []) col))

table_columns-join :
    (col : List ℕ) (cols : List (List ℕ))
    → IsColumn col
    → AllColumns cols
    → table_columns (join col cols) [] ≡ some (col ∷ cols)
unfolding table_columns join
table_columns-join col [] (n, h) a =
    ap (λ s. table_columns s []) (sym (append-nil col))
    ∙ table_columns-append col [] [] n (omega arith)
table_columns-join col (next ∷ cols) (n, h) (k, a) =
    table_columns-append col (b',' ∷ join next cols) [] n (omega arith)
    ∙ rw (table_columns-join next cols k a) refl

count_columns-bound :
    (str buf : List ℕ) (cols : List (List ℕ))
    → table_columns str buf ≡ some cols
    → length cols ≡ count_columns str
unfolding table_columns count_columns
count_columns-bound [] buf cols e = ap length (sym (some_inj.0 e))
count_columns-bound (c ∷ str) buf cols e = elim (Bool-cases (c == b',')) [
  | inl h ↦ elim (Option-cases (table_columns str [])) [
    | inl n ↦ let f : none ≡ some cols = rw (h, n) at e in cc f
    | inr (rest, r) ↦
        let f : some (buf ∷ rest) ≡ some cols = rw (h, r) at e in
        rw h (ap length (sym (some_inj.0 f)) ∙ omega (arith, count_columns-bound str [] rest r))
  ]
  | inr h ↦ elim (Bool-cases (ltb (length buf) 32)) [
    | inl g ↦ rw h (count_columns-bound str (buf ++ c ∷ []) cols (rw (h, g) at e))
    | inr g ↦ let f : none ≡ some cols = rw (h, g) at e in cc f
  ]
]

-- The array has room for every column.
pub parse_table_entry_lem : (str : List ℕ) → parse_table_entry str ≡ table_columns str []
unfolding parse_table_entry
parse_table_entry_lem str = elim (Option-cases (table_columns str [])) [
  | inl n ↦ rw n refl
  | inr (cols, e) ↦
      let room : leb (length cols) (count_columns str) ≡ true =
        ground (arith, count_columns-bound str [] cols e) in
      rw (e, room) refl
]

-- A line of columns is taken apart into them.
pub parse_table_entry-join :
    (col : List ℕ) (cols : List (List ℕ))
    → IsColumn col
    → AllColumns cols
    → parse_table_entry (join col cols) ≡ some (col ∷ cols)
parse_table_entry-join col cols h a =
    parse_table_entry_lem (join col cols) ∙ table_columns-join col cols h a

NoComma-append : (cs : List ℕ) (c : ℕ) → NoComma cs → c ≢ b',' → NoComma (cs ++ c ∷ [])
NoComma-append [] c n h = (h, tt)
NoComma-append (d ∷ cs) c (e, n) h = (e, NoComma-append cs c n h)

-- The columns of a line: each fits, and the line is what they make.
pub record Splits (str : List ℕ) (cols : List (List ℕ)) : Type 0 where
  pub head : List ℕ
  pub tail : List (List ℕ)
  pub whole : cols ≡ head ∷ tail
  pub joined : join head tail ≡ str
  pub fits : IsColumn head
  pub rest : AllColumns tail

table_columns-Splits :
    (str buf : List ℕ) (cols : List (List ℕ))
    → NoComma buf
    → length buf ≤ 32
    → table_columns str buf ≡ some cols
    → Splits (buf ++ str) cols
unfolding table_columns join
table_columns-Splits [] buf cols n h e = record {
  head = buf;
  tail = [];
  whole = sym (some_inj.0 e);
  joined = sym (append-nil buf);
  fits = (n, h);
  rest = tt;
}
table_columns-Splits (c ∷ str) buf cols n h e = elim (Bool-cases (c == b',')) [
  | inl comma ↦ elim (Option-cases (table_columns str [])) [
    | inl r ↦ let f : none ≡ some cols = rw (comma, r) at e in cc f
    | inr (cols', r) ↦
        let f : some (buf ∷ cols') ≡ some cols = rw (comma, r) at e in
        let s = table_columns-Splits str [] cols' tt (omega arith) r in
        record {
          head = buf;
          tail = s.head ∷ s.tail;
          whole = sym (some_inj.0 f) ∙ ap (λ t. buf ∷ t) s.whole;
          joined =
              ap (λ t. buf ++ b',' ∷ t) s.joined
              ∙ ap (λ d. buf ++ d ∷ str) (sym ((==_iff c b',').0 comma));
          fits = (n, h);
          rest = (s.fits, s.rest);
        }
  ]
  | inr plain ↦ elim (Bool-cases (ltb (length buf) 32)) [
    | inl room ↦
        let ne : c ≢ b',' = ground arith in
        subst (λ t. Splits t cols) (append_assoc buf (c ∷ []) str)
          (table_columns-Splits str (buf ++ c ∷ []) cols (NoComma-append buf c n ne)
            (omega
              (arith, (let r : length buf < 32 = ground arith in r), length-append buf (c ∷ [])))
            (rw (plain, room) at e))
    | inr full ↦ let f : none ≡ some cols = rw (plain, full) at e in cc f
  ]
]

-- Only such a line is taken apart.
pub parse_table_entry-Splits :
    (str : List ℕ) (cols : List (List ℕ)) → parse_table_entry str ≡ some cols → Splits str cols
parse_table_entry-Splits str cols e =
    table_columns-Splits str [] cols tt (omega arith) (sym (parse_table_entry_lem str) ∙ e)

-- A line is taken apart into a list of columns exactly if the list is not empty, each column has
-- at most 32 characters and no comma, and the columns with commas between them are the line.
pub parse_table_entry_iff :
    (str : List ℕ) (cols : List (List ℕ)) → (parse_table_entry str ≡ some cols) ↔ Splits str cols
parse_table_entry_iff str cols = (
  λ e. parse_table_entry-Splits str cols e,
  λ s.
      ap parse_table_entry (sym s.joined)
      ∙ parse_table_entry-join s.head s.tail s.fits s.rest
      ∙ ap some (sym s.whole),
)
