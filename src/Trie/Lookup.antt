-- ===== src/Trie/Lookup.antt =====
-- Which keys `trie_get` can walk, and where it faults.
use mathlib.Core.Path.{subst}
use csapp_stay.Prelude.{
  ℕ, ◌<◌, ◌≡◌, ◌≢◌, sym, ap, ◌∙◌, arith, none, some, List, [], ◌∷◌, ◌++◌, Option-cases, inl, inr,
}
use csapp_stay.Trie.{Trie, null, node, get_index, get_char, fault, trie_get}

-- A character that has an index below it is given back by the index, and the index is below 37.
pub get_char-get_index : (c i : ℕ) → get_index c ≡ some i → (get_char i ≡ some c) × (i < 37)
unfolding get_index get_char
get_char-get_index c i h = ground arith

-- Keys of the characters that have an index.
abbrev pub IsKey : List ℕ → Type 0
IsKey [] = Unit
IsKey (c ∷ key) = (get_index c ≢ none) × IsKey key

pub index_of : (c : ℕ) → get_index c ≢ none → (i : ℕ) × (get_index c ≡ some i)
index_of c h = elim (Option-cases (get_index c)) [ inl e ↦ absurd (h e) | inr e ↦ e ]

-- The subtree that a key leads to, NULL if there is none.
unfoldable pub walk : Trie → List ℕ → Trie
walk t [] = t
walk null (c ∷ key) = null
walk (node next address isvalid) (c ∷ key) = elim (get_index c) [
  | none ↦ null
  | some i ↦ walk (next i) key
]

pub trie_get-cons :
    (next : ℕ → Trie) (address isvalid c i : ℕ) (key : List ℕ)
    → get_index c ≡ some i
    → trie_get (node next address isvalid) (c ∷ key) ≡ trie_get (next i) key
unfolding trie_get
trie_get-cons next a v c i key e = rw (e, trie_get)

-- A key that leads to a node, extended by one indexed character without a node there, makes the
-- lookup read through NULL instead of reporting the key missing.
pub trie_get-fault :
    (t : Trie) (key : List ℕ) (c i address isvalid : ℕ) (next : ℕ → Trie)
    → walk t key ≡ node next address isvalid
    → get_index c ≡ some i
    → next i ≡ null
    → trie_get t (key ++ c ∷ []) ≡ fault
unfolding trie_get walk
trie_get-fault t [] c i a v next h e n =
    subst (λ t. trie_get t (c ∷ []) ≡ fault) (sym h)
      (trie_get-cons next a v c i [] e ∙ ap (λ t. trie_get t []) n)
trie_get-fault null (d ∷ key) c i a v next h e n = cc
trie_get-fault (node more b w) (d ∷ key) c i a v next h e n = elim (Option-cases (get_index d)) [
  | inl q ↦ cc (rw (q, walk) at h)
  | inr (j, q) ↦
      trie_get-cons more b w d j _ q
      ∙ trie_get-fault (more j) key c i a v next (rw (q, walk) at h) e n
]
