-- ===== src/Cpu/Names/Lookup.antt =====
-- src/headware/cpu/isa.c: the mappings that `lazy_init_trie` builds.
use csapp_stay.Prelude.{
  ℕ, suc, ◌+◌, ◌*◌, ◌++◌, map, ◌≡◌, refl, ap, List, [], ◌∷◌, Option, none, some, Bool, true, false,
  Bool-cases, inl, inr, ==_iff, ◌==◌, if◌then◌else◌,
}
use csapp_stay.Trie.{Trie, null, node, get_index, trie_insert, with_child, trie_get}
use csapp_stay.Cpu.Names.{insert_all, lazy_init_trie, try_get_from_trie}

-- Every name of the table leads to its number.
pub Maps : Trie → List (List ℕ × ℕ) → Type 0
Maps t [] = Unit
Maps t ((key, val) ∷ names) = (try_get_from_trie t key ≡ some val) × Maps t names

reads : Option ℕ → ℕ → Bool
reads none val = false
reads (some n) val = n == val

reads_iff : (o : Option ℕ) (val : ℕ) → reads o val ≡ true → o ≡ some val
unfolding reads
reads_iff none val e = cc
reads_iff (some n) val e = ap some ((==_iff n val).0 e)

all_reads : Trie → List (List ℕ × ℕ) → Bool
all_reads t [] = true
all_reads t ((key, val) ∷ names) =
    let rest = all_reads t names in if reads (try_get_from_trie t key) val then rest else false

all_reads-Maps : (t : Trie) (names : List (List ℕ × ℕ)) → all_reads t names ≡ true → Maps t names
unfolding all_reads Maps
all_reads-Maps t [] e = tt
all_reads-Maps t ((key, val) ∷ names) e = elim (Bool-cases (reads (try_get_from_trie t key) val)) [
  | inl h ↦ (reads_iff (try_get_from_trie t key) val h, all_reads-Maps t names (rw h at e))
  | inr h ↦ let f : false ≡ true = rw h at e in cc
]

-- The register number k of the machine, of eight bytes, by its letters: %r, %e and % for its 64, 32
-- and 16 bits, h for its second byte and l for its first one.
abbrev pub lettered : List ℕ → List ℕ → ℕ → List (List ℕ × ℕ)
lettered letters byte k =
    (b'%' ∷ b'r' ∷ letters, 8 * k)
    ∷ (b'%' ∷ b'e' ∷ letters, 8 * k)
    ∷ (b'%' ∷ letters, 8 * k)
    ∷ (b'%' ∷ byte ++ b'h' ∷ [], 8 * k + 1)
    ∷ (b'%' ∷ byte ++ b'l' ∷ [], 8 * k)
    ∷ []

-- By its number: d, w and b for its 32, 16 and 8 bits.
abbrev pub numbered : List ℕ → ℕ → List (List ℕ × ℕ)
numbered digits k =
    map (λ size. (b'%' ∷ b'r' ∷ digits ++ size, 8 * k))
      ([] ∷ (b'd' ∷ []) ∷ (b'w' ∷ []) ∷ (b'b' ∷ []) ∷ [])

abbrev pub machine_registers : List (List ℕ × ℕ)
machine_registers =
    lettered (b'a' ∷ b'x' ∷ []) (b'a' ∷ []) 0
    ++ lettered (b'b' ∷ b'x' ∷ []) (b'b' ∷ []) 1
    ++ lettered (b'c' ∷ b'x' ∷ []) (b'c' ∷ []) 2
    ++ lettered (b'd' ∷ b'x' ∷ []) (b'd' ∷ []) 3
    ++ lettered (b's' ∷ b'i' ∷ []) (b's' ∷ b'i' ∷ []) 4
    ++ lettered (b'd' ∷ b'i' ∷ []) (b'd' ∷ b'i' ∷ []) 5
    ++ lettered (b'b' ∷ b'p' ∷ []) (b'b' ∷ b'p' ∷ []) 6
    ++ lettered (b's' ∷ b'p' ∷ []) (b's' ∷ b'p' ∷ []) 7
    ++ numbered (b'8' ∷ []) 8
    ++ numbered (b'9' ∷ []) 9
    ++ numbered (b'1' ∷ b'0' ∷ []) 10
    ++ numbered (b'1' ∷ b'1' ∷ []) 11
    ++ numbered (b'1' ∷ b'2' ∷ []) 12
    ++ numbered (b'1' ∷ b'3' ∷ []) 13
    ++ numbered (b'1' ∷ b'4' ∷ []) 14
    ++ numbered (b'1' ∷ b'5' ∷ []) 15

-- The operators in the order of their instructions, with those of one instruction together.
abbrev pub instructions : List (List (List ℕ))
instructions =
    ((b'm' ∷ b'o' ∷ b'v' ∷ []) ∷ (b'm' ∷ b'o' ∷ b'v' ∷ b'q' ∷ []) ∷ [])
    ∷ ((b'p' ∷ b'u' ∷ b's' ∷ b'h' ∷ []) ∷ [])
    ∷ ((b'p' ∷ b'o' ∷ b'p' ∷ []) ∷ [])
    ∷ ((b'l' ∷ b'e' ∷ b'a' ∷ b'v' ∷ b'e' ∷ b'q' ∷ []) ∷ [])
    ∷ ((b'c' ∷ b'a' ∷ b'l' ∷ b'l' ∷ b'q' ∷ []) ∷ [])
    ∷ ((b'r' ∷ b'e' ∷ b't' ∷ b'q' ∷ []) ∷ [])
    ∷ ((b'a' ∷ b'd' ∷ b'd' ∷ []) ∷ [])
    ∷ ((b's' ∷ b'u' ∷ b'b' ∷ []) ∷ [])
    ∷ ((b'c' ∷ b'm' ∷ b'p' ∷ b'q' ∷ []) ∷ [])
    ∷ ((b'j' ∷ b'n' ∷ b'e' ∷ []) ∷ [])
    ∷ ((b'j' ∷ b'm' ∷ b'p' ∷ []) ∷ [])
    ∷ []

abbrev pub count_from : ℕ → List (List (List ℕ)) → List (List ℕ × ℕ)
count_from n [] = []
count_from n (names ∷ rest) = map (λ name. (name, n)) names ++ count_from (suc n) rest

-- Whatever the number fields of a new node are, if its children are NULL, then the initialisation
-- of the two trees succeeds. The names of the machine's register k, formed from its letters or its
-- number, lead to its place in cpu_reg_t, 8 k, those of its second byte to 8 k + 1, and the names
-- of an operator lead to its number in the order of op_t.
pub lazy_init_trie-Maps :
    (address isvalid : ℕ)
    → (registers operators : Trie) × (lazy_init_trie (node (λ i. null) address isvalid)
        ≡ some (registers, operators))
      × Maps registers machine_registers
      × Maps operators (count_from 0 instructions)
unfolding all_reads reads lazy_init_trie insert_all trie_insert with_child get_index trie_get
    try_get_from_trie
lazy_init_trie-Maps a v = (
  _,
  _,
  refl,
  all_reads-Maps _ machine_registers refl,
  all_reads-Maps _ (count_from 0 instructions) refl,
)
