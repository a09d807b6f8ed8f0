-- ===== src/Linker/Relocations/Texts.antt =====
-- src/linker/staticlink.c: the numeral that write_relocation leaves in a row.
use csapp_stay.Prelude.{
  ℕ, zero, suc, ◌+◌, ◌*◌, ◌/◌, ◌%◌, ◌^◌, ◌≤◌, ◌<◌, ◌≡◌, ◌⊎◌, inl, inr, refl, sym, ◌∙◌, ap, arith,
  some, List, [], ◌∷◌, ◌++◌, map, length, length-append, update, update_self, update_ne,
}
use native.Mathlib.Nat.{pow-suc}
use csapp_stay.Convert.{string2uint}
use csapp_stay.Convert.Numerals.{digit, value_from, AllBelow, string2uint-hex}
use csapp_stay.Linker.Relocations.{hex_digits, hex_text, write_chars, write_relocation}

pub value_from-append :
    (base v : ℕ) (ds : List ℕ) (d : ℕ)
    → value_from base v (ds ++ d ∷ []) ≡ value_from base v ds * base + d
unfolding value_from
value_from-append base v [] d = refl
value_from-append base v (e ∷ ds) d = value_from-append base (v * base + e) ds d

value_from-hex_digits : (n v : ℕ) → v < 16 ^ n → value_from 16 0 (hex_digits n v) ≡ v
unfolding hex_digits value_from
value_from-hex_digits zero v h = omega arith
value_from-hex_digits (suc n) v h =
    let low : v / 16 < 16 ^ n = omega (arith, pow-suc 16 n) in
    value_from-append 16 0 (hex_digits n (v / 16)) (v % 16)
    ∙ omega (arith, value_from-hex_digits n (v / 16) low)

AllBelow-append :
    (base : ℕ) (ds : List ℕ) (d : ℕ) → AllBelow base ds → d < base → AllBelow base (ds ++ d ∷ [])
AllBelow-append base [] d a h = (h, tt)
AllBelow-append base (e ∷ ds) d (g, a) h = (g, AllBelow-append base ds d a h)

hex_digits-AllBelow : (n v : ℕ) → AllBelow 16 (hex_digits n v)
unfolding hex_digits
hex_digits-AllBelow zero v = tt
hex_digits-AllBelow (suc n) v =
    AllBelow-append 16 (hex_digits n (v / 16)) (v % 16) (hex_digits-AllBelow n (v / 16))
      (omega arith)

-- The text is read as the number that it was printed from.
pub string2uint-hex_text : (val : ℕ) → val < 2 ^ 64 → string2uint (hex_text val) ≡ some val
unfolding hex_text
string2uint-hex_text val h =
    let value = value_from-hex_digits 16 val h in
    string2uint-hex (hex_digits 16 val) (hex_digits-AllBelow 16 val) (rw value h) ∙ ap some value

length-hex_digits : (n v : ℕ) → length (hex_digits n v) ≡ n
unfolding hex_digits
length-hex_digits zero v = refl
length-hex_digits (suc n) v =
    length-append (hex_digits n (v / 16)) (v % 16 ∷ [])
    ∙ omega (arith, length-hex_digits n (v / 16))

length-map_ {ℓ} : {A B : Type ℓ} (f : A → B) (xs : List A) → length (map f xs) ≡ length xs
length-map_ f [] = refl
length-map_ f (x ∷ xs) = omega (arith, length-map_ f xs)

pub length-hex_text : (val : ℕ) → length (hex_text val) ≡ 18
unfolding hex_text
length-hex_text val = omega (arith, length-map_ digit (hex_digits 16 val), length-hex_digits 16 val)

-- The characters of a row from a column on.
unfoldable pub row_text : ℕ → ℕ → (ℕ → ℕ) → List ℕ
row_text zero col row = []
row_text (suc n) col row = row col ∷ row_text n (suc col) row

write_chars-before :
    (cs : List ℕ) (col c : ℕ) (row : ℕ → ℕ) → c < col → write_chars cs col row c ≡ row c
unfolding write_chars
write_chars-before [] col c row h = refl
write_chars-before (d ∷ cs) col c row h =
    write_chars-before cs (suc col) c (update row col d) (omega arith)
    ∙ update_ne row col c d (omega arith)

write_chars-after :
    (cs : List ℕ) (col c : ℕ) (row : ℕ → ℕ) → col + length cs ≤ c → write_chars cs col row c ≡ row c
unfolding write_chars
write_chars-after [] col c row h = refl
write_chars-after (d ∷ cs) col c row h =
    write_chars-after cs (suc col) c (update row col d) (omega arith)
    ∙ update_ne row col c d (omega arith)

row_text-write_chars :
    (cs : List ℕ) (col : ℕ) (row : ℕ → ℕ) → row_text (length cs) col (write_chars cs col row) ≡ cs
unfolding write_chars row_text
row_text-write_chars [] col row = refl
row_text-write_chars (c ∷ cs) col row =
    let head : write_chars cs (suc col) (update row col c) col ≡ c =
      write_chars-before cs (suc col) col (update row col c) (omega arith)
      ∙ update_self row col c in
    rw (head, row_text-write_chars cs (suc col) (update row col c)) refl

pub row_text-write_relocation :
    (val col : ℕ) (row : ℕ → ℕ) → row_text 18 col (write_relocation val col row) ≡ hex_text val
unfolding write_relocation
row_text-write_relocation val col row =
    ap (λ n. row_text n col (write_chars (hex_text val) col row)) (sym (length-hex_text val))
    ∙ row_text-write_chars (hex_text val) col row

-- The other characters of the row stay.
pub write_relocation-other :
    (val col c : ℕ) (row : ℕ → ℕ)
    → (c < col) ⊎ (col + 18 ≤ c)
    → write_relocation val col row c ≡ row c
unfolding write_relocation
write_relocation-other val col c row (inl h) = write_chars-before (hex_text val) col c row h
write_relocation-other val col c row (inr h) =
    write_chars-after (hex_text val) col c row (omega (arith, length-hex_text val))
