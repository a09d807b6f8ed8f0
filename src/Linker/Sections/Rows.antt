-- ===== src/Linker/Sections/Rows.antt =====
-- src/linker/staticlink.c and parseELF.c: the header rows of the linked file are read back.
use csapp_stay.Prelude.{
  ℕ, suc, ◌+◌, ◌*◌, ◌^◌, ◌≤◌, ◌<◌, ◌≡◌, refl, ◌∙◌, arith, true, some, List, [], ◌∷◌, ◌++◌, ◌%◌, map,
  length, ltb, get_elem?, length-append, append_assoc, ◌==◌, ==_iff, Bool-cases, inl, inr,
}
use csapp_stay.Linker.Symbols.{Entry, text, rodata, data_section}
use csapp_stay.Linker.Elf.{Section, section_of, parse_sh}
use csapp_stay.Linker.Elf.Files.{symtab_name, parse_rows}
use csapp_stay.Linker.Elf.Files.Tables.{All}
use csapp_stay.Linker.Elf.Symbols.{no_comma, no_comma-NoComma}
use csapp_stay.Linker.Elf.Columns.{IsColumn, parse_table_entry-join}
use csapp_stay.Linker.Numerals.{
  long_text, address_text, long_text-reads, long_text-IsColumn, address_text-reads,
}
use csapp_stay.Linker.Sections.{
  Counts, Layout, positive, add_section, count_headers, data_layout, Headers, headers_of,
  compute_section_header, symtab_header, print_section,
}
use csapp_stay.Linker.Sections.Layouts.{Fits, fitting, count_of, data_layout-length}
use csapp_stay.Linker.Relocations.{text_base}

pub parse_sh-print_section :
    (sh : Section)
    → IsColumn sh.sh_name
    → length sh.sh_name < 32
    → sh.sh_addr < 2 ^ 64
    → sh.sh_offset < 2 ^ 63
    → sh.sh_size < 2 ^ 63
    → parse_sh (print_section sh) ≡ some sh
unfolding parse_sh section_of
parse_sh-print_section sh name short addr offset size =
    let (read, column) = address_text-reads sh.sh_addr addr in
    let line =
      parse_table_entry-join sh.sh_name
        (address_text sh.sh_addr ∷ long_text sh.sh_offset ∷ long_text sh.sh_size ∷ []) name
        (
          column,
          (long_text-IsColumn sh.sh_offset offset, (long_text-IsColumn sh.sh_size size, tt)),
        ) in
    let fits : ltb (length sh.sh_name) 32 ≡ true = ground arith in
    rw (line, fits, read, long_text-reads sh.sh_offset offset, long_text-reads sh.sh_size size) refl

-- A header whose row the parser reads.
pub record IsPrintable (sh : Section) : Type 0 where
  pub column : IsColumn sh.sh_name
  pub name : length sh.sh_name < 32
  pub addr : sh.sh_addr < 2 ^ 64
  pub offset : sh.sh_offset < 2 ^ 63
  pub size : sh.sh_size < 2 ^ 63

get_elem?-append :
    {A : Type 0} (pre rest : List A) (x : A) → get_elem? (pre ++ x ∷ rest) (length pre) ≡ some x
get_elem?-append [] rest x = refl
get_elem?-append (y ∷ pre) rest x = get_elem?-append pre rest x

parse_rows-print_section :
    (pre : List (List ℕ)) (ss : List Section)
    → All IsPrintable ss
    → length pre + length ss < 2 ^ 64
    → parse_rows parse_sh (pre ++ map print_section ss) (length pre) (length ss) ≡ some ss
unfolding parse_rows
parse_rows-print_section pre [] a h = refl
parse_rows-print_section pre (s ∷ ss) (p, a) h =
    let row = print_section s in
    let rows = map print_section ss in
    let at : length pre % 2 ^ 64 ≡ length pre = omega (arith, h) in
    let here = get_elem?-append pre rows row in
    let read = parse_sh-print_section s p.column p.name p.addr p.offset p.size in
    let len : length (pre ++ row ∷ []) ≡ suc (length pre) =
      omega (arith, length-append pre (row ∷ [])) in
    let whole : (pre ++ row ∷ []) ++ rows ≡ pre ++ row ∷ rows = append_assoc pre (row ∷ []) rows in
    let next = parse_rows-print_section (pre ++ row ∷ []) ss a (omega (arith, h, len)) in
    let next' : parse_rows parse_sh (pre ++ row ∷ rows) (suc (length pre)) (length ss) ≡ some ss =
      rw (whole, len) at next in
    rw (at, here, read, next') refl

-- The bounds of the headers written so far.
record IsBounded (base b : ℕ) (l : Layout) : Type 0 where
  printable : All IsPrintable l.sht
  behind : All (λ s. (base ≤ s.sh_offset) × (s.sh_offset < 2 ^ 55)) l.sht
  start : base ≤ l.section_offset
  offset : l.section_offset ≤ b

All-append :
    {A : Type 0} (P : A → Type 0) (xs : List A) (x : A) → All P xs → P x → All P (xs ++ x ∷ [])
All-append P [] x a p = (p, tt)
All-append P (y ∷ xs) x (q, a) p = (q, All-append P xs x a p)

add_section-IsBounded :
    (base b count addr size : ℕ) (name : List ℕ) (l : Layout)
    → IsColumn name
    → length name < 32
    → addr < 2 ^ 64
    → b + size < 2 ^ 55
    → IsBounded base b l
    → IsBounded base (b + size) (add_section count name addr size l)
unfolding add_section
add_section-IsBounded base b count addr size name l column short small fits g =
    elim (Bool-cases (positive count)) [
      | inl e ↦ rw e (record {
        printable = All-append IsPrintable l.sht _ g.printable (record {
          column = column;
          name = short;
          addr = small;
          offset = omega (arith, g.offset, fits);
          size = omega (arith, fits);
        });
        behind =
            All-append (λ s. (base ≤ s.sh_offset) × (s.sh_offset < 2 ^ 55)) l.sht _ g.behind
              (g.start, omega (arith, g.offset, fits));
        start = omega (arith, g.start);
        offset = omega (arith, g.offset);
      })
      | inr e ↦ rw e (record {
        printable = g.printable;
        behind = g.behind;
        start = g.start;
        offset = omega (arith, g.offset);
      })
    ]

names-IsColumn : IsColumn text × IsColumn rodata × IsColumn data_section × IsColumn symtab_name
unfolding no_comma
names-IsColumn = (
  (no_comma-NoComma text refl, omega arith),
  (no_comma-NoComma rodata refl, omega arith),
  (no_comma-NoComma data_section refl, omega arith),
  (no_comma-NoComma symtab_name refl, omega arith),
)

count_headers-le : (c : Counts) → count_headers c ≤ 4
unfolding count_headers
count_headers-le c = ground arith

data_layout-IsBounded :
    (c : Counts) (n : ℕ) → Fits c n → IsBounded (2 + count_headers c) (2 ^ 50) (data_layout c)
unfolding data_layout
data_layout-IsBounded c n h =
    let base = 2 + count_headers c in
    let (t, r, d, _) = names-IsColumn in
    let few = count_headers-le c in
    let start : IsBounded base base
        (record { sht = []; section_offset = 1 + 1 + count_headers c }) =
      record { printable = tt; behind = tt; start = omega arith; offset = omega arith } in
    let texts =
      add_section-IsBounded base base c.count_text text_base c.count_text text _ t (omega arith)
        (omega arith) (omega (arith, few, h.lines)) start in
    let rodatas =
      add_section-IsBounded base (base + c.count_text) c.count_rodata
        (text_base + c.count_text * 64) (c.count_rodata * 8) rodata _ r (omega arith)
        (omega (arith, h.lines)) (omega (arith, few, h.lines)) texts in
    let g =
      add_section-IsBounded base (base + c.count_text + c.count_rodata * 8) c.count_data
        (text_base + c.count_text * 64 + c.count_rodata * 8) c.count_data data_section _ d
        (omega arith) (omega (arith, h.lines)) (omega (arith, few, h.lines)) rodatas in
    record {
      printable = g.printable;
      behind = g.behind;
      start = g.start;
      offset = omega (arith, g.offset, few, h.lines);
    }

pub compute_section_header-rows :
    (sym_count : ℕ) (smap : List Entry)
    → Fits (count_of smap) (length smap)
    → (h : Headers) × (front : List Section) × (compute_section_header sym_count smap ≡ some h)
      × (offset : ℕ) × (parse_rows parse_sh h.rows 2 h.sh_count
          ≡ some (front ++ symtab_header offset (length smap) ∷ []))
      × (length h.sht ≡ h.sh_count)
      × (h.sht ≡ front ++ symtab_header (offset + length smap) (length smap) ∷ [])
      × (get_elem? h.rows 0 ≡ some (long_text h.line_count))
      × All (λ s. (2 + h.sh_count ≤ s.sh_offset) × (s.sh_offset < 2 ^ 55)) h.sht
unfolding compute_section_header headers_of
compute_section_header-rows sym_count smap small =
    let c = count_of smap in
    let l = data_layout c in
    let n = length smap in
    let g = data_layout-IsBounded c n small in
    let (few, room) = fitting c n small in
    let counted : (length l.sht + 1 == count_headers c) ≡ true =
      (==_iff _ _).1 (data_layout-length c n small) in
    let line_count = c.count_text + c.count_data + c.count_rodata + n + 1 + 1 + count_headers c in
    let printed = symtab_header l.section_offset n in
    let moved = symtab_header (l.section_offset + n) n in
    let all = All-append IsPrintable l.sht printed g.printable (record {
      column = names-IsColumn.3;
      name = omega arith;
      addr = omega arith;
      offset = omega (arith, g.offset);
      size = omega (arith, small.lines);
    }) in
    let len : length (l.sht ++ printed ∷ []) ≡ count_headers c =
      length-append l.sht (printed ∷ []) ∙ data_layout-length c n small in
    let read =
      parse_rows-print_section (long_text line_count ∷ long_text sym_count ∷ [])
        (l.sht ++ printed ∷ []) all (omega (arith, len, count_headers-le c)) in
    (
      record {
        sh_count = count_headers c;
        line_count = line_count;
        sht = l.sht ++ moved ∷ [];
        rows =
            long_text line_count ∷ long_text sym_count ∷ map print_section (l.sht ++ printed ∷ []);
      },
      l.sht,
      rw (few, room, counted) refl,
      l.section_offset,
      rw len at read,
      length-append l.sht (moved ∷ []) ∙ data_layout-length c n small,
      refl,
      refl,
      All-append (λ s. (2 + count_headers c ≤ s.sh_offset) × (s.sh_offset < 2 ^ 55)) l.sht moved
          g.behind (omega (arith, g.start), omega (arith, g.offset, small.lines)),
    )
