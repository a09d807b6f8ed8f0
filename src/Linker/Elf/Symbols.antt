-- ===== src/Linker/Elf/Symbols.antt =====
-- src/linker/parseELF.c and staticlink.c: a symbol that merge_section prints is read by parse_symtab.
use csapp_stay.Prelude.{
  ℕ, ◌≤◌, ◌<◌, ◌≡◌, refl, ◌∙◌, ap, arith, none, some, List, [], ◌∷◌, map, ◌^◌, ◌+◌, ◌*◌, ◌==◌, Bool,
  true, false, Bool-cases, inl, inr, length, ltb, if◌then◌else◌, same,
}
use csapp_stay.Convert.{string2uint}
use csapp_stay.Convert.Numerals.{digit, value_from, AllBelow, string2uint-decimal}
use csapp_stay.Hash.{HashTable, hashtable_get}
use csapp_stay.Hash.Pairs.{first}
use csapp_stay.Linker.Symbols.{
  Bind, stb_local, stb_global, stb_weak, SymbolType, stt_notype, stt_object, stt_func, Symbol,
}
use csapp_stay.Linker.Elf.{
  ◌>>=◌, bind_of, type_of, parse_symtab, init_constant_dict, constants, get_stb_string,
  get_stt_string,
}
use csapp_stay.Linker.Elf.Columns.{join, NoComma, IsColumn, parse_table_entry-join}
use csapp_stay.Linker.Elf.Dictionary.{constants_of, init_constant_dict-get}

-- The line "%s,%s,%s,%s,%ld,%ld", with the two numerals.
abbrev pub print_symbol : Symbol → List ℕ → List ℕ → List ℕ
print_symbol s value size =
    join s.st_name (get_stb_string s.bind ∷ get_stt_string s.type ∷ s.st_shndx ∷ value ∷ size ∷ [])

bind-Known : (b : Bind) → (first (constants_of (get_stb_string b) constants) >>= bind_of) ≡ some b
unfolding constants_of get_stb_string bind_of same
bind-Known stb_local = refl
bind-Known stb_global = refl
bind-Known stb_weak = refl

type-Known :
    (t : SymbolType) → (first (constants_of (get_stt_string t) constants) >>= type_of) ≡ some t
unfolding constants_of get_stt_string type_of same
type-Known stt_notype = refl
type-Known stt_object = refl
type-Known stt_func = refl

unfoldable pub no_comma : List ℕ → Bool
no_comma [] = true
no_comma (c ∷ cs) = let rest = no_comma cs in if c == b',' then false else rest

pub no_comma-NoComma : (cs : List ℕ) → no_comma cs ≡ true → NoComma cs
unfolding no_comma
no_comma-NoComma [] e = tt
no_comma-NoComma (c ∷ cs) e = elim (Bool-cases (c == b',')) [
  | inl h ↦ let f : false ≡ true = rw h at e in cc f
  | inr h ↦ (ground arith, no_comma-NoComma cs (rw h at e))
]

bind-IsColumn : (b : Bind) → IsColumn (get_stb_string b)
unfolding get_stb_string no_comma
bind-IsColumn stb_local = (no_comma-NoComma (get_stb_string stb_local) refl, omega arith)
bind-IsColumn stb_global = (no_comma-NoComma (get_stb_string stb_global) refl, omega arith)
bind-IsColumn stb_weak = (no_comma-NoComma (get_stb_string stb_weak) refl, omega arith)

type-IsColumn : (t : SymbolType) → IsColumn (get_stt_string t)
unfolding get_stt_string no_comma
type-IsColumn stt_notype = (no_comma-NoComma (get_stt_string stt_notype) refl, omega arith)
type-IsColumn stt_object = (no_comma-NoComma (get_stt_string stt_object) refl, omega arith)
type-IsColumn stt_func = (no_comma-NoComma (get_stt_string stt_func) refl, omega arith)

digits-NoComma : (ds : List ℕ) → AllBelow 10 ds → NoComma (map digit ds)
digits-NoComma [] a = tt
digits-NoComma (d ∷ ds) (h, a) = ((λ e. absurd (ground arith)), digits-NoComma ds a)

pub length-map-digit : (ds : List ℕ) → length (map digit ds) ≡ length ds
length-map-digit [] = refl
length-map-digit (d ∷ ds) = omega (arith, length-map-digit ds)

-- A decimal numeral of up to 32 digits whose value has 64 bits.
pub record IsNumeral (n : ℕ) (ds : List ℕ) : Type 0 where
  pub first_digit : ℕ
  pub digits : List ℕ
  pub whole : ds ≡ first_digit ∷ digits
  pub below : AllBelow 10 ds
  pub short : length ds ≤ 32
  pub value : value_from 10 0 ds ≡ n
  pub small : n < 2 ^ 64

pub numeral-IsColumn : (n : ℕ) (ds : List ℕ) → IsNumeral n ds → IsColumn (map digit ds)
numeral-IsColumn n ds h = (digits-NoComma ds h.below, omega (arith, length-map-digit ds, h.short))

pub numeral_lem : (n : ℕ) (ds : List ℕ) → IsNumeral n ds → string2uint (map digit ds) ≡ some n
unfolding value_from
numeral_lem n ds h =
    let below : AllBelow 10 (h.first_digit ∷ h.digits) = rw h.whole at h.below in
    let value : value_from 10 (0 * 10 + h.first_digit) h.digits ≡ n = rw h.whole at h.value in
    let same : 0 * 10 + h.first_digit ≡ h.first_digit = omega arith in
    let value' : value_from 10 h.first_digit h.digits ≡ n = rw same at value in
    rw h.whole
      (string2uint-decimal h.first_digit h.digits below (rw value' h.small) ∙ ap some value')

-- With the dictionary that init_constant_dict builds, the line that merge_section prints of a
-- symbol is parsed as the symbol, if its name and section are columns that fit, the section in its
-- 16 characters, and the numerals are decimals of up to 32 digits of its value and size, below
-- 2^64.
pub parse_symtab-print :
    (dict : HashTable) (s : Symbol) (vs zs : List ℕ)
    → init_constant_dict none ≡ some dict
    → IsColumn s.st_name
    → IsColumn s.st_shndx
    → length s.st_shndx < 16
    → IsNumeral s.st_value vs
    → IsNumeral s.st_size zs
    → parse_symtab dict (print_symbol s (map digit vs) (map digit zs)) ≡ some s
unfolding parse_symtab
parse_symtab-print dict s vs zs d name shndx short hv hz =
    let value = map digit vs in
    let size = map digit zs in
    let line =
      parse_table_entry-join s.st_name
        (get_stb_string s.bind ∷ get_stt_string s.type ∷ s.st_shndx ∷ value ∷ size ∷ []) name
        (
          bind-IsColumn s.bind,
          (
            type-IsColumn s.type,
            (shndx, (numeral-IsColumn s.st_value vs hv, (numeral-IsColumn s.st_size zs hz, tt))),
          ),
        ) in
    let fits : ltb (length s.st_name) 64 ≡ true = ground (arith, name.1) in
    let fits' : ltb (length s.st_shndx) 16 ≡ true = ground arith in
    let bind : (hashtable_get dict (get_stb_string s.bind) >>= bind_of) ≡ some s.bind =
      rw (init_constant_dict-get (get_stb_string s.bind) dict d) (bind-Known s.bind) in
    let type : (hashtable_get dict (get_stt_string s.type) >>= type_of) ≡ some s.type =
      rw (init_constant_dict-get (get_stt_string s.type) dict d) (type-Known s.type) in
    rw (line, fits, bind, type, fits', numeral_lem s.st_value vs hv, numeral_lem s.st_size zs hz)
      refl
