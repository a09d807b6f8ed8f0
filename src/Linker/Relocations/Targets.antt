-- ===== src/Linker/Relocations/Targets.antt =====
-- src/linker/staticlink.c: what the relocated instruction refers to.
use csapp_stay.Prelude.{
  ℕ, zero, suc, ◌+◌, ◌-◌, ◌*◌, ◌/◌, ◌%◌, if◌then◌else◌, ◌^◌, ltb, leb, ◌≤◌, ◌<◌, ◌≡◌, ◌≢◌, ◌⊎◌, inl,
  inr, refl, sym, ◌∙◌, ap, arith, true, Bool-cases, some, List, same, same_refl,
}
use csapp_stay.Convert.{string2uint}
use csapp_stay.Linker.Symbols.{Symbol, text, rodata, data_section}
use csapp_stay.Linker.Elf.{Section}
use csapp_stay.Linker.Relocations.{
  Rows, get_sym_runtime_address, write_relocation, r_x86_64_32_handler, r_x86_64_pc32_handler, flat,
  as_int, write_at, rip_value, text_base, inst_size,
}
use csapp_stay.Linker.Relocations.Texts.{
  string2uint-hex_text, row_text, row_text-write_relocation, write_relocation-other,
}

get_sym_runtime_address-bound :
    (sht : List Section) (sym : Symbol) → get_sym_runtime_address sht sym < 2 ^ 64
unfolding get_sym_runtime_address
get_sym_runtime_address-bound sht sym = elim (Bool-cases (same sym.st_shndx text)) [
  | inl e ↦ rw e (omega arith)
  | inr e ↦ elim (Bool-cases (same sym.st_shndx rodata)) [
    | inl f ↦ rw (e, f) (omega arith)
    | inr f ↦ elim (Bool-cases (same sym.st_shndx data_section)) [
      | inl g ↦ rw (e, f, g) (omega arith)
      | inr g ↦ rw (e, f, g) (omega arith)
    ]
  ]
]

-- The characters of a row in the buffer as one array.
abbrev after_write : Rows → ℕ → ℕ → Rows
after_write buffer p val r c =
    if ltb c 128 then write_relocation val p (flat buffer) (r * 128 + c) else buffer r c

row_text-after_write :
    (buffer : Rows) (p val at n col : ℕ)
    → col + n ≤ 128
    → row_text n col (after_write buffer p val at)
      ≡ row_text n (at * 128 + col) (write_relocation val p (flat buffer))
unfolding row_text
row_text-after_write buffer p val at zero col h = refl
row_text-after_write buffer p val at (suc n) col h =
    let inside : ltb col 128 ≡ true = ground (arith, h) in
    let next : at * 128 + suc col ≡ suc (at * 128 + col) = omega arith in
    rw (inside, row_text-after_write buffer p val at n (suc col) (omega (arith, h)), next) refl

-- A character that is not among the 18.
pub unwritten :
    (buffer : Rows) (p val r c : ℕ)
    → c < 128
    → (r * 128 + c < p) ⊎ (p + 18 ≤ r * 128 + c)
    → write_relocation val p (flat buffer) (r * 128 + c) ≡ buffer r c
unwritten buffer p val r c h far =
    let row : (r * 128 + c) / 128 ≡ r = omega (arith, h) in
    let column : (r * 128 + c) % 128 ≡ c = omega (arith, h) in
    write_relocation-other val p (r * 128 + c) (flat buffer) far
    ∙ ap (λ x. buffer x ((r * 128 + c) % 128)) row
    ∙ ap (buffer r) column

-- A place in one row, and a character.
module _ (buffer : Rows) (at col val : ℕ) (room : col + 18 ≤ 128) where
  abbrev written : Rows
  written = after_write buffer (at * 128 + col) val

  written-value : val < 2 ^ 64 → string2uint (row_text 18 col (written at)) ≡ some val
  written-value h =
      ap string2uint (
        row_text-after_write buffer (at * 128 + col) val at 18 col room
        ∙ row_text-write_relocation val (at * 128 + col) (flat buffer))
      ∙ string2uint-hex_text val h

  written-other : (r c : ℕ) → (r ≢ at) ⊎ ((c < col) ⊎ (col + 18 ≤ c)) → written r c ≡ buffer r c
  written-other r c h = elim (Bool-cases (ltb c 128)) [
    | inr e ↦ rw e refl
    | inl e ↦
        let inside : c < 128 = ground (arith, e) in
        rw e (unwritten buffer (at * 128 + col) val r c inside (ground (arith, h, inside, room)))
  ]

pub as_int-small : (x : ℕ) → x < 2 ^ 31 → as_int x ≡ x
unfolding as_int
as_int-small x h =
    let p : x % 2 ^ 32 ≡ x = omega (arith, h) in
    let q : ltb x (2 ^ 31) ≡ true = ground (arith, h) in rw (p, q) refl

-- A place in one row of the buffer.
write_at-written :
    (sh : Section) (row col val : ℕ) (buffer : Rows)
    → sh.sh_offset + row < 64
    → (room : col + 18 ≤ 128)
    → write_at sh row col val buffer ≡ some (written buffer (sh.sh_offset + row) col val room)
unfolding write_at
write_at-written sh row col val buffer r c =
    let p = as_int-small row (omega (arith, r)) in
    let q = as_int-small col (omega (arith, c)) in
    let whole : ((sh.sh_offset + row) * 128 + col) % 2 ^ 64 ≡ (sh.sh_offset + row) * 128 + col =
      omega (arith, r, c) in
    let inside : leb ((sh.sh_offset + row) * 128 + col + 18) 8192 ≡ true = ground (arith, r, c) in
    rw (p, q, whole, inside) refl

-- The absolute relocation: the numeral in the place is the symbol's address, and every other
-- character is as before.
pub r_x86_64_32_handler-target :
    (sht : List Section) (sh : Section) (row col : ℕ) (s : Symbol) (buffer : Rows) (r c : ℕ)
    → sh.sh_offset + row < 64
    → col + 18 ≤ 128
    → (r ≢ sh.sh_offset + row) ⊎ ((c < col) ⊎ (col + 18 ≤ c))
    → (after : Rows) × (r_x86_64_32_handler sht sh row col s buffer ≡ some after)
      × (string2uint (row_text 18 col (after (sh.sh_offset + row)))
          ≡ some (get_sym_runtime_address sht s))
      × (after r c ≡ buffer r c)
unfolding r_x86_64_32_handler
r_x86_64_32_handler-target sht sh row col s buffer r c inside room h =
    let val = get_sym_runtime_address sht s in
    let at = sh.sh_offset + row in
    (
      written buffer at col val room,
      write_at-written sh row col val buffer inside room,
      written-value buffer at col val room (get_sym_runtime_address-bound sht s),
      written-other buffer at col val room r c h,
    )

-- In a section named .text, for a row below 64 in the buffer and 18 characters that end within its
-- 128 columns, the relocation relative to the program counter succeeds: the numeral in its place,
-- added to the address behind the instruction modulo 2^64, gives the symbol's address, and a
-- character in another row or outside the 18 is as before.
pub r_x86_64_pc32_handler-target :
    (sht : List Section) (sh : Section) (row col : ℕ) (s : Symbol) (buffer : Rows) (r c : ℕ)
    → sh.sh_name ≡ text
    → sh.sh_offset + row < 64
    → col + 18 ≤ 128
    → (r ≢ sh.sh_offset + row) ⊎ ((c < col) ⊎ (col + 18 ≤ c))
    → (after : Rows) × (val : ℕ) × (r_x86_64_pc32_handler sht sh row col s buffer ≡ some after)
      × (string2uint (row_text 18 col (after (sh.sh_offset + row))) ≡ some val)
      × (((text_base + (row + 1) * inst_size) + val) % 2 ^ 64 ≡ get_sym_runtime_address sht s)
      × (after r c ≡ buffer r c)
unfolding r_x86_64_pc32_handler rip_value
r_x86_64_pc32_handler-target sht sh row col s buffer r c name inside room h =
    let address = get_sym_runtime_address sht s in
    let val = (address + (2 ^ 64 - rip_value row)) % 2 ^ 64 in
    let at = sh.sh_offset + row in
    let is_text : same sh.sh_name text ≡ true = rw name (same_refl text) in
    let small = as_int-small row (omega (arith, inside)) in
    (
      written buffer at col val room,
      val,
      rw is_text (write_at-written sh row col val buffer inside room),
      written-value buffer at col val room (omega arith),
      rw small (omega (arith, inside, get_sym_runtime_address-bound sht s)),
      written-other buffer at col val room r c h,
    )
