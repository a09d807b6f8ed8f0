-- ===== src/Trie.antt =====
-- src/algorithm/trie.c: the prefix tree that maps register and operator names to numbers.
-- A key is the list of its bytes, without the final NUL. `fresh` is what `malloc` returns for a
-- node: the source does not clear it, so its contents are a parameter.
pub mod Lookup
pub mod Updates
mod Runs
use csapp_stay.Prelude.{
  ℕ, ◌+◌, ◌-◌, Bool, true, false, Option, none, some, List, [], ◌∷◌, ◌&&◌, ◌==◌, leb, if◌then◌else◌,
  update,
}

-- `node next address isvalid`, or NULL.
pub data Trie : Type 0 where
  null : Trie
  node : (ℕ → Trie) → ℕ → ℕ → Trie

-- `none` is -1.
unfoldable pub get_index : ℕ → Option ℕ
get_index c =
    if c == b'%'
    then some 36
    else if leb b'0' c && leb c b'9'
    then some (c - b'0')
    else if leb b'a' c && leb c b'z'
    then some (c - b'a' + 10)
    else none

-- `none` is the failed assertion.
pub get_char : ℕ → Option ℕ
get_char index =
    if leb index 36
    then (if index == 36
        then some b'%'
        else if leb index 9
        then some (b'0' + index)
        else if leb 10 index && leb index 35
        then some (b'a' + index - 10)
        else some 0)
    else none

-- `if (*p == NULL) *p = malloc(sizeof(trie_node_t))`
abbrev pub alloc : Trie → Trie → Trie
alloc fresh null = fresh
alloc fresh t = t

unfoldable pub with_child : Option Trie → (ℕ → Trie) → ℕ → ℕ → ℕ → Option Trie
with_child none next i address isvalid = none
with_child (some child) next i address isvalid = some (node (update next i child) address isvalid)

-- `none` is a write through NULL, or through `next[-1]`.
unfoldable pub trie_insert : Trie → List ℕ → ℕ → Trie → Option Trie
unfolding with_child
trie_insert fresh [] val t = elim (alloc fresh t) [
  | null ↦ none
  | node next address isvalid ↦ some (node next val isvalid)
]
trie_insert fresh (c ∷ key) val t = elim (alloc fresh t) [
  | null ↦ none
  | node next address isvalid ↦ elim (get_index c) [
    | none ↦ none
    | some i ↦ with_child (trie_insert fresh key val (next i)) next i address isvalid
  ]
]

-- The new node of `trie_insert_with_isvalid`: its flag and address are cleared, `next` is not.
abbrev pub alloc_valid : Trie → Trie → Trie
alloc_valid null null = null
alloc_valid (node next _ _) null = node next 0 0
alloc_valid fresh t = t

-- The walk from a node that is there; `none` as above.
pub insert_valid : Trie → List ℕ → ℕ → Trie → Option Trie
unfolding with_child
insert_valid fresh key val null = none
insert_valid fresh [] val (node next address isvalid) = some (node next val 1)
insert_valid fresh (c ∷ key) val (node next address isvalid) = elim (get_index c) [
  | none ↦ none
  | some i ↦ with_child (insert_valid fresh key val (alloc_valid fresh (next i))) next i address 1
]

-- `trie_insert_with_isvalid`: the tree, and the result, where `false` is -1.
pub trie_insert_with_isvalid : Trie → List ℕ → ℕ → Trie → Option (Trie × Bool)
unfolding insert_valid
trie_insert_with_isvalid fresh key val null = some (null, false)
trie_insert_with_isvalid fresh key val t = elim (insert_valid fresh key val t) [
  | none ↦ none
  | some t' ↦ some (t', true)
]

-- `trie_get`: 1 with the stored value, 0, or a read through NULL or `next[-1]`.
pub data Found : Type 0 where
  found : ℕ → Found
  missing : Found
  fault : Found

unfoldable pub trie_get : Trie → List ℕ → Found
trie_get null [] = fault
trie_get (node next address isvalid) [] = found address
trie_get null (c ∷ key) = missing
trie_get (node next address isvalid) (c ∷ key) = elim (get_index c) [
  | none ↦ fault
  | some i ↦ trie_get (next i) key
]
