-- ===== src/Cpu/Names.antt =====
-- src/headware/cpu/isa.c: the names that `lazy_init_trie` inserts, in its order. A register's value
-- is its offset in `cpu_reg_t`, an operator's is its number in `op_t`.
pub mod Lookup
use csapp_stay.Prelude.{ℕ, List, [], ◌∷◌, Option, none, some}
use csapp_stay.Trie.{Trie, null, trie_insert, trie_get, Found, found, missing, fault}

abbrev pub register_names : List (List ℕ × ℕ)
register_names =
    (b'%' ∷ b'r' ∷ b'a' ∷ b'x' ∷ [], 0)
    ∷ (b'%' ∷ b'e' ∷ b'a' ∷ b'x' ∷ [], 0)
    ∷ (b'%' ∷ b'a' ∷ b'x' ∷ [], 0)
    ∷ (b'%' ∷ b'a' ∷ b'h' ∷ [], 1)
    ∷ (b'%' ∷ b'a' ∷ b'l' ∷ [], 0)
    ∷ (b'%' ∷ b'r' ∷ b'b' ∷ b'x' ∷ [], 8)
    ∷ (b'%' ∷ b'e' ∷ b'b' ∷ b'x' ∷ [], 8)
    ∷ (b'%' ∷ b'b' ∷ b'x' ∷ [], 8)
    ∷ (b'%' ∷ b'b' ∷ b'h' ∷ [], 9)
    ∷ (b'%' ∷ b'b' ∷ b'l' ∷ [], 8)
    ∷ (b'%' ∷ b'r' ∷ b'c' ∷ b'x' ∷ [], 16)
    ∷ (b'%' ∷ b'e' ∷ b'c' ∷ b'x' ∷ [], 16)
    ∷ (b'%' ∷ b'c' ∷ b'x' ∷ [], 16)
    ∷ (b'%' ∷ b'c' ∷ b'h' ∷ [], 17)
    ∷ (b'%' ∷ b'c' ∷ b'l' ∷ [], 16)
    ∷ (b'%' ∷ b'r' ∷ b'd' ∷ b'x' ∷ [], 24)
    ∷ (b'%' ∷ b'e' ∷ b'd' ∷ b'x' ∷ [], 24)
    ∷ (b'%' ∷ b'd' ∷ b'x' ∷ [], 24)
    ∷ (b'%' ∷ b'd' ∷ b'h' ∷ [], 25)
    ∷ (b'%' ∷ b'd' ∷ b'l' ∷ [], 24)
    ∷ (b'%' ∷ b'r' ∷ b's' ∷ b'i' ∷ [], 32)
    ∷ (b'%' ∷ b'e' ∷ b's' ∷ b'i' ∷ [], 32)
    ∷ (b'%' ∷ b's' ∷ b'i' ∷ [], 32)
    ∷ (b'%' ∷ b's' ∷ b'i' ∷ b'h' ∷ [], 33)
    ∷ (b'%' ∷ b's' ∷ b'i' ∷ b'l' ∷ [], 32)
    ∷ (b'%' ∷ b'r' ∷ b'd' ∷ b'i' ∷ [], 40)
    ∷ (b'%' ∷ b'e' ∷ b'd' ∷ b'i' ∷ [], 40)
    ∷ (b'%' ∷ b'd' ∷ b'i' ∷ [], 40)
    ∷ (b'%' ∷ b'd' ∷ b'i' ∷ b'h' ∷ [], 41)
    ∷ (b'%' ∷ b'd' ∷ b'i' ∷ b'l' ∷ [], 40)
    ∷ (b'%' ∷ b'r' ∷ b'b' ∷ b'p' ∷ [], 48)
    ∷ (b'%' ∷ b'e' ∷ b'b' ∷ b'p' ∷ [], 48)
    ∷ (b'%' ∷ b'b' ∷ b'p' ∷ [], 48)
    ∷ (b'%' ∷ b'b' ∷ b'p' ∷ b'h' ∷ [], 49)
    ∷ (b'%' ∷ b'b' ∷ b'p' ∷ b'l' ∷ [], 48)
    ∷ (b'%' ∷ b'r' ∷ b's' ∷ b'p' ∷ [], 56)
    ∷ (b'%' ∷ b'e' ∷ b's' ∷ b'p' ∷ [], 56)
    ∷ (b'%' ∷ b's' ∷ b'p' ∷ [], 56)
    ∷ (b'%' ∷ b's' ∷ b'p' ∷ b'h' ∷ [], 57)
    ∷ (b'%' ∷ b's' ∷ b'p' ∷ b'l' ∷ [], 56)
    ∷ (b'%' ∷ b'r' ∷ b'8' ∷ [], 64)
    ∷ (b'%' ∷ b'r' ∷ b'8' ∷ b'd' ∷ [], 64)
    ∷ (b'%' ∷ b'r' ∷ b'8' ∷ b'w' ∷ [], 64)
    ∷ (b'%' ∷ b'r' ∷ b'8' ∷ b'b' ∷ [], 64)
    ∷ (b'%' ∷ b'r' ∷ b'9' ∷ [], 72)
    ∷ (b'%' ∷ b'r' ∷ b'9' ∷ b'd' ∷ [], 72)
    ∷ (b'%' ∷ b'r' ∷ b'9' ∷ b'w' ∷ [], 72)
    ∷ (b'%' ∷ b'r' ∷ b'9' ∷ b'b' ∷ [], 72)
    ∷ (b'%' ∷ b'r' ∷ b'1' ∷ b'0' ∷ [], 80)
    ∷ (b'%' ∷ b'r' ∷ b'1' ∷ b'0' ∷ b'd' ∷ [], 80)
    ∷ (b'%' ∷ b'r' ∷ b'1' ∷ b'0' ∷ b'w' ∷ [], 80)
    ∷ (b'%' ∷ b'r' ∷ b'1' ∷ b'0' ∷ b'b' ∷ [], 80)
    ∷ (b'%' ∷ b'r' ∷ b'1' ∷ b'1' ∷ [], 88)
    ∷ (b'%' ∷ b'r' ∷ b'1' ∷ b'1' ∷ b'd' ∷ [], 88)
    ∷ (b'%' ∷ b'r' ∷ b'1' ∷ b'1' ∷ b'w' ∷ [], 88)
    ∷ (b'%' ∷ b'r' ∷ b'1' ∷ b'1' ∷ b'b' ∷ [], 88)
    ∷ (b'%' ∷ b'r' ∷ b'1' ∷ b'2' ∷ [], 96)
    ∷ (b'%' ∷ b'r' ∷ b'1' ∷ b'2' ∷ b'd' ∷ [], 96)
    ∷ (b'%' ∷ b'r' ∷ b'1' ∷ b'2' ∷ b'w' ∷ [], 96)
    ∷ (b'%' ∷ b'r' ∷ b'1' ∷ b'2' ∷ b'b' ∷ [], 96)
    ∷ (b'%' ∷ b'r' ∷ b'1' ∷ b'3' ∷ [], 104)
    ∷ (b'%' ∷ b'r' ∷ b'1' ∷ b'3' ∷ b'd' ∷ [], 104)
    ∷ (b'%' ∷ b'r' ∷ b'1' ∷ b'3' ∷ b'w' ∷ [], 104)
    ∷ (b'%' ∷ b'r' ∷ b'1' ∷ b'3' ∷ b'b' ∷ [], 104)
    ∷ (b'%' ∷ b'r' ∷ b'1' ∷ b'4' ∷ [], 112)
    ∷ (b'%' ∷ b'r' ∷ b'1' ∷ b'4' ∷ b'd' ∷ [], 112)
    ∷ (b'%' ∷ b'r' ∷ b'1' ∷ b'4' ∷ b'w' ∷ [], 112)
    ∷ (b'%' ∷ b'r' ∷ b'1' ∷ b'4' ∷ b'b' ∷ [], 112)
    ∷ (b'%' ∷ b'r' ∷ b'1' ∷ b'5' ∷ [], 120)
    ∷ (b'%' ∷ b'r' ∷ b'1' ∷ b'5' ∷ b'd' ∷ [], 120)
    ∷ (b'%' ∷ b'r' ∷ b'1' ∷ b'5' ∷ b'w' ∷ [], 120)
    ∷ (b'%' ∷ b'r' ∷ b'1' ∷ b'5' ∷ b'b' ∷ [], 120)
    ∷ []

abbrev pub operator_names : List (List ℕ × ℕ)
operator_names =
    (b'm' ∷ b'o' ∷ b'v' ∷ [], 0)
    ∷ (b'm' ∷ b'o' ∷ b'v' ∷ b'q' ∷ [], 0)
    ∷ (b'p' ∷ b'u' ∷ b's' ∷ b'h' ∷ [], 1)
    ∷ (b'p' ∷ b'o' ∷ b'p' ∷ [], 2)
    ∷ (b'l' ∷ b'e' ∷ b'a' ∷ b'v' ∷ b'e' ∷ b'q' ∷ [], 3)
    ∷ (b'c' ∷ b'a' ∷ b'l' ∷ b'l' ∷ b'q' ∷ [], 4)
    ∷ (b'r' ∷ b'e' ∷ b't' ∷ b'q' ∷ [], 5)
    ∷ (b'a' ∷ b'd' ∷ b'd' ∷ [], 6)
    ∷ (b's' ∷ b'u' ∷ b'b' ∷ [], 7)
    ∷ (b'c' ∷ b'm' ∷ b'p' ∷ b'q' ∷ [], 8)
    ∷ (b'j' ∷ b'n' ∷ b'e' ∷ [], 9)
    ∷ (b'j' ∷ b'm' ∷ b'p' ∷ [], 10)
    ∷ []

-- The insertions into one tree; `fresh` is what `malloc` returns for a node.
unfoldable pub insert_all : Trie → List (List ℕ × ℕ) → Trie → Option Trie
insert_all fresh [] t = some t
insert_all fresh ((key, val) ∷ names) t = elim (trie_insert fresh key val t) [
  | none ↦ none
  | some t' ↦ insert_all fresh names t'
]

-- `lazy_init_trie`: the register mapping and the operator mapping, from NULL.
pub lazy_init_trie : Trie → Option (Trie × Trie)
unfolding insert_all
lazy_init_trie fresh = elim (insert_all fresh register_names null) [
  | none ↦ none
  | some registers ↦ elim (insert_all fresh operator_names null) [
    | none ↦ none
    | some operators ↦ some (registers, operators)
  ]
]

-- `none` is the exit on a missing key, or the fault in `trie_get`.
unfoldable pub try_get_from_trie : Trie → List ℕ → Option ℕ
try_get_from_trie t key = elim (trie_get t key) [
  | found val ↦ some val
  | missing ↦ none
  | fault ↦ none
]
