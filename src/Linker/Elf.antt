-- ===== src/Linker/Elf.antt =====
-- src/linker/parseELF.c: the parser of object files. A file is the list of the lines that fgets
-- returns, each with its newline; a string is the bytes before the NUL. `none` is a failed
-- assertion, a call of exit, or a write past a buffer.
pub mod Columns
pub mod Dictionary
pub mod Symbols
pub mod Files
mod Runs
use csapp_stay.Prelude.{
  ℕ, zero, suc, ◌+◌, ◌*◌, ◌%◌, ◌^◌, Bool, true, false, Option, none, some, List, [], ◌∷◌, ◌++◌,
  ◌&&◌, ◌||◌, not, ◌==◌, ltb, leb, length, get_elem?, if◌then◌else◌, same,
}
use csapp_stay.Convert.{string2uint}
use csapp_stay.Hash.{HashTable, hashtable_construct, hashtable_insert, hashtable_get}
use csapp_stay.Linker.Symbols.{
  Bind, stb_local, stb_global, stb_weak, SymbolType, stt_notype, stt_object, stt_func, Symbol,
}

infixl 5 ◌>>=◌ ◌>>◌
abbrev pub ◌>>=◌ {ℓ κ} : {A : Type ℓ} {B : Type κ} → Option A → (A → Option B) → Option B
none >>= f = none
some a >>= f = f a

abbrev pub ◌>>◌ {κ} : {B : Type κ} → Option (Unit {0}) → Option B → Option B
m >> k = m >>= λ _. k

-- `assert(b)`
abbrev pub assert : Bool → Option (Unit {0})
assert true = some tt
assert false = none

-- `strcpy` to a buffer of n characters
abbrev pub strcpy : ℕ → List ℕ → Option (List ℕ)
strcpy n s = if ltb (length s) n then some s else none

-- The columns of a line, where `col_buf` has the characters of the current one.
unfoldable pub table_columns : List ℕ → List ℕ → Option (List (List ℕ))
table_columns [] col_buf = some (col_buf ∷ [])
table_columns (c ∷ str) col_buf =
    let next = table_columns str [] >>= λ cols. some (col_buf ∷ cols) in
    let more = table_columns str (col_buf ++ c ∷ []) in
    if c == b',' then next else if ltb (length col_buf) 32 then more else none

unfoldable pub count_columns : List ℕ → ℕ
count_columns [] = 1
count_columns (c ∷ str) = let rest = count_columns str in if c == b',' then suc rest else rest

-- The columns, in an array that has room for `count_columns` of them.
unfoldable pub parse_table_entry : List ℕ → Option (List (List ℕ))
parse_table_entry str =
    table_columns str [] >>= λ cols. assert (leb (length cols) (count_columns str)) >> some cols

-- `st_entry_t`
pub record Section : Type 0 where
  pub sh_name : List ℕ
  pub sh_addr : ℕ
  pub sh_offset : ℕ
  pub sh_size : ℕ

unfoldable pub section_of : List (List ℕ) → Option Section
section_of (name ∷ addr ∷ offset ∷ size ∷ []) = do
  sh_name ← strcpy 32 name
  sh_addr ← string2uint addr
  sh_offset ← string2uint offset
  sh_size ← string2uint size
  some (record { sh_name = sh_name; sh_addr = sh_addr; sh_offset = sh_offset; sh_size = sh_size })
section_of _ = none

unfoldable pub parse_sh : List ℕ → Option Section
unfolding section_of
parse_sh str = parse_table_entry str >>= section_of

-- The casts of a constant to the enumerations.
unfoldable pub bind_of : ℕ → Option Bind
bind_of n =
    if n == 0
    then some stb_local
    else if n == 1
    then some stb_global
    else if n == 2
    then some stb_weak
    else none

unfoldable pub type_of : ℕ → Option SymbolType
type_of n =
    if n == 0
    then some stt_notype
    else if n == 1
    then some stt_object
    else if n == 2
    then some stt_func
    else none

symbol_of : HashTable → List (List ℕ) → Option Symbol
symbol_of dict (name ∷ bind ∷ type ∷ shndx ∷ value ∷ size ∷ []) = do
  st_name ← strcpy 64 name
  bind' ← hashtable_get dict bind >>= bind_of
  type' ← hashtable_get dict type >>= type_of
  st_shndx ← strcpy 16 shndx
  st_value ← string2uint value
  st_size ← string2uint size
  some (record {
    st_name = st_name;
    st_shndx = st_shndx;
    bind = bind';
    type = type';
    st_value = st_value;
    st_size = st_size;
  })
symbol_of dict _ = none

unfoldable pub parse_symtab : HashTable → List ℕ → Option Symbol
unfolding symbol_of
parse_symtab dict str = parse_table_entry str >>= symbol_of dict

-- `rl_entry_t`: `r_addend` is the 64 bits of the number, `r_type` the number of the type.
pub record Relocation : Type 0 where
  pub r_row : ℕ
  pub r_col : ℕ
  pub r_type : ℕ
  pub sym : ℕ
  pub r_addend : ℕ

relocation_of : HashTable → List (List ℕ) → Option Relocation
relocation_of dict (row ∷ col ∷ type ∷ sym ∷ addend ∷ []) = do
  r_row ← string2uint row
  r_col ← string2uint col
  r_type ← hashtable_get dict type
  sym' ← string2uint sym
  r_addend ← string2uint addend
  some (record {
    r_row = r_row;
    r_col = r_col;
    r_type = r_type;
    sym = sym' % 2 ^ 32;
    r_addend = r_addend;
  })
relocation_of dict _ = none

unfoldable pub parse_reloution : HashTable → List ℕ → Option Relocation
unfolding relocation_of
parse_reloution dict str = parse_table_entry str >>= relocation_of dict

abbrev pub name_stb_global : List ℕ
name_stb_global = b'S' ∷ b'T' ∷ b'B' ∷ b'_' ∷ b'G' ∷ b'L' ∷ b'O' ∷ b'B' ∷ b'A' ∷ b'L' ∷ []

abbrev pub name_stb_weak : List ℕ
name_stb_weak = b'S' ∷ b'T' ∷ b'B' ∷ b'_' ∷ b'W' ∷ b'E' ∷ b'A' ∷ b'K' ∷ []

abbrev pub name_stb_local : List ℕ
name_stb_local = b'S' ∷ b'T' ∷ b'B' ∷ b'_' ∷ b'L' ∷ b'O' ∷ b'C' ∷ b'A' ∷ b'L' ∷ []

abbrev pub name_stt_notype : List ℕ
name_stt_notype = b'S' ∷ b'T' ∷ b'T' ∷ b'_' ∷ b'N' ∷ b'O' ∷ b'T' ∷ b'Y' ∷ b'P' ∷ b'E' ∷ []

abbrev pub name_stt_object : List ℕ
name_stt_object = b'S' ∷ b'T' ∷ b'T' ∷ b'_' ∷ b'O' ∷ b'B' ∷ b'J' ∷ b'E' ∷ b'C' ∷ b'T' ∷ []

abbrev pub name_stt_func : List ℕ
name_stt_func = b'S' ∷ b'T' ∷ b'T' ∷ b'_' ∷ b'F' ∷ b'U' ∷ b'N' ∷ b'C' ∷ []

abbrev pub name_r_x86_64_pc32 : List ℕ
name_r_x86_64_pc32 =
    b'R' ∷ b'_' ∷ b'X' ∷ b'8' ∷ b'6' ∷ b'_' ∷ b'6' ∷ b'4' ∷ b'_' ∷ b'P' ∷ b'C' ∷ b'3' ∷ b'2' ∷ []

abbrev pub name_r_x86_64_32 : List ℕ
name_r_x86_64_32 = b'R' ∷ b'_' ∷ b'X' ∷ b'8' ∷ b'6' ∷ b'_' ∷ b'6' ∷ b'4' ∷ b'_' ∷ b'3' ∷ b'2' ∷ []

abbrev pub name_r_x86_64_plt32 : List ℕ
name_r_x86_64_plt32 =
    b'R' ∷ b'_' ∷ b'X' ∷ b'8' ∷ b'6' ∷ b'_' ∷ b'6' ∷ b'4' ∷ b'_' ∷ b'P' ∷ b'L' ∷ b'T' ∷ b'3' ∷ b'2'
    ∷ []

abbrev pub constants : List (List ℕ × ℕ)
constants =
    (name_stb_global, 1)
    ∷ (name_stb_weak, 2)
    ∷ (name_stb_local, 0)
    ∷ (name_stt_notype, 0)
    ∷ (name_stt_object, 1)
    ∷ (name_stt_func, 2)
    ∷ (name_r_x86_64_pc32, 1)
    ∷ (name_r_x86_64_32, 0)
    ∷ (name_r_x86_64_plt32, 2)
    ∷ []

-- The insertions of a list of constants, each with fuel for a number of splits.
unfoldable pub insert_constants : ℕ → List (List ℕ × ℕ) → HashTable → Option HashTable
insert_constants fuel [] t = some t
insert_constants fuel ((key, val) ∷ cs) t =
    hashtable_insert fuel t key val >>= insert_constants fuel cs

-- `link_constant_dict` is `none` where it is NULL.
unfoldable pub init_constant_dict : Option HashTable → Option HashTable
init_constant_dict (some dict) = some dict
init_constant_dict none = insert_constants 8 constants (hashtable_construct 4)

unfoldable pub get_stb_string : Bind → List ℕ
get_stb_string stb_local = name_stb_local
get_stb_string stb_global = name_stb_global
get_stb_string stb_weak = name_stb_weak

unfoldable pub get_stt_string : SymbolType → List ℕ
get_stt_string stt_notype = name_stt_notype
get_stt_string stt_object = name_stt_object
get_stt_string stt_func = name_stt_func
