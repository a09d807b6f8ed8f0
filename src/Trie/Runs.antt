-- ===== src/Trie/Runs.antt =====
-- src/algorithm/trie.c at concrete inputs: a tree for the register names "%rax" and "%rbx".
use csapp_stay.Prelude.{ℕ, ◌≡◌, List, [], ◌∷◌, some, update}
use csapp_stay.Trie.{Trie, null, node, get_index, trie_insert, trie_get, found}
use csapp_stay.Trie.Lookup.{IsKey}
use csapp_stay.Trie.Updates.{Spared, trie_insert_lem}

abbrev rax : List ℕ
rax = b'%' ∷ b'r' ∷ b'a' ∷ b'x' ∷ []

abbrev cleared : Trie
cleared = node (λ i. null) 0 0

-- A chain of nodes for "%r".
abbrev chain : Trie
chain = node (update (λ i. null) 36 (node (update (λ i. null) 27 cleared) 0 0)) 0 0

rax-IsKey : IsKey rax
unfolding get_index
rax-IsKey = ((λ e. cc), ((λ e. cc), ((λ e. cc), ((λ e. cc), tt))))

trie_insert_lem_example :
    (t' : Trie) × (trie_insert cleared rax 0 null ≡ some t')
    × (trie_get t' rax ≡ found 0)
    × Spared (λ i. null) 0 0 rax null t'
trie_insert_lem_example = trie_insert_lem (λ i. null) 0 0 rax 0 null rax-IsKey
