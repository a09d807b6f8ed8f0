-- ===== src/Trie/Updates.antt =====
-- What a lookup finds after an insertion.
use mathlib.Core.Option.{some_inj}
use mathlib.Core.Path.{subst}
use csapp_stay.Prelude.{
  ℕ, ◌≡◌, refl, sym, ap, ◌∙◌, arith, Bool, true, false, Option, none, some, List, [], ◌∷◌, ◌==◌,
  ==_iff, ◌&&◌, Bool-cases, Option-cases, inl, inr, update, update_self, update_ne,
}
use csapp_stay.Trie.{
  Trie, null, node, get_index, alloc, trie_insert, Found, found, missing, fault, trie_get,
}
use csapp_stay.Trie.Lookup.{IsKey, index_of, get_char-get_index, trie_get-cons}

-- What a lookup tells of the key: a value, or none for a key that is missing or faults.
abbrev pub value_of : Found → Option ℕ
value_of (found v) = some v
value_of missing = none
value_of fault = none

abbrev pub is_prefix : List ℕ → List ℕ → Bool
is_prefix [] key = true
is_prefix (d ∷ ds) [] = false
is_prefix (d ∷ ds) (c ∷ key) = (d == c) && is_prefix ds key

value_of-null : (key : List ℕ) → value_of (trie_get null key) ≡ none
unfolding trie_get
value_of-null [] = refl
value_of-null (c ∷ key) = refl

abbrev child : Option ℕ → (ℕ → Trie) → List ℕ → Option ℕ
child none next key = none
child (some i) next key = value_of (trie_get (next i) key)

abbrev next_of : Trie → ℕ → Trie
next_of null = λ _. null
next_of (node next _ _) = next

value_of-cons :
    (d address isvalid : ℕ) (key : List ℕ) (next : ℕ → Trie)
    → value_of (trie_get (node next address isvalid) (d ∷ key)) ≡ child (get_index d) next key
unfolding trie_get
value_of-cons d a v key next = elim (Option-cases (get_index d)) [
  | inl e ↦ rw (e, trie_get)
  | inr (i, e) ↦ rw (e, trie_get)
]

get_index-injective : (c d i : ℕ) → get_index c ≡ some i → get_index d ≡ some i → c ≡ d
get_index-injective c d i p q =
    some_inj.0 (sym (get_char-get_index c i p).0 ∙ (get_char-get_index d i q).0)

-- `next₀`, `address₀` and `isvalid₀` are the contents of a new node.
module _ (next₀ : ℕ → Trie) (address₀ isvalid₀ : ℕ) where
  abbrev fresh : Trie
  fresh = node next₀ address₀ isvalid₀

  alloc-node :
      (t : Trie)
      → (next : ℕ → Trie) × (address : ℕ) × (isvalid : ℕ) × (alloc fresh t
          ≡ node next address isvalid)
  alloc-node null = (next₀, address₀, isvalid₀, refl)
  alloc-node (node next a v) = (next, a, v, refl)

  insert-nil :
      (val address isvalid : ℕ) (next : ℕ → Trie) (t : Trie)
      → alloc fresh t ≡ node next address isvalid
      → trie_insert fresh [] val t ≡ some (node next val isvalid)
  unfolding trie_insert
  insert-nil val a v next t e = rw (e, trie_insert)

  insert-cons :
      (c i val address isvalid : ℕ) (key : List ℕ) (next : ℕ → Trie) (t : Trie) {t' : Trie}
      → alloc fresh t ≡ node next address isvalid
      → get_index c ≡ some i
      → trie_insert fresh key val (next i) ≡ some t'
      → trie_insert fresh (c ∷ key) val t ≡ some (node (update next i t') address isvalid)
  unfolding trie_insert
  insert-cons c i val a v key next t e q r = rw (e, q, r, trie_insert)

  -- Keys on other paths are found as before, if a new node's children are NULL.
  abbrev pub Spared : List ℕ → Trie → Trie → Type 0
  Spared key t t' =
      ((i : ℕ) → next₀ i ≡ null)
      → (other : List ℕ) → is_prefix other key ≡ false
      → value_of (trie_get t' other) ≡ value_of (trie_get t other)

  -- Lookups below the root of a tree that may be NULL.
  value_of-alloc :
      (t : Trie) (d address isvalid : ℕ) (key : List ℕ) (next : ℕ → Trie)
      → ((i : ℕ) → next₀ i ≡ null)
      → alloc fresh t ≡ node next address isvalid
      → value_of (trie_get t (d ∷ key)) ≡ child (get_index d) next key
  unfolding trie_get
  value_of-alloc null d a v key next z e =
      subst (λ n. none ≡ child (get_index d) n key) (ap next_of e) (none_below (get_index d))
    where
      none_below : (j : Option ℕ) → none ≡ child j next₀ key
      none_below none = refl
      none_below (some j) = sym (ap (λ t. value_of (trie_get t key)) (z j) ∙ value_of-null key)
  value_of-alloc (node n b w) d a v key next z e =
      value_of-cons d b w key n ∙ ap (λ n. child (get_index d) n key) (ap next_of e)

  nil-Spared :
      (val address isvalid : ℕ) (next : ℕ → Trie) (t : Trie)
      → alloc fresh t ≡ node next address isvalid
      → Spared [] t (node next val isvalid)
  nil-Spared val a v next t e z [] p = cc
  nil-Spared val a v next t e z (d ∷ other) p =
      value_of-cons d val v other next ∙ sym (value_of-alloc t d a v other next z e)

  cons-Spared :
      (c i address isvalid : ℕ) (key : List ℕ) (next : ℕ → Trie) (t u : Trie)
      → alloc fresh t ≡ node next address isvalid
      → get_index c ≡ some i
      → Spared key (next i) u
      → Spared (c ∷ key) t (node (update next i u) address isvalid)
  cons-Spared c i a v key next t u e q below z [] p = cc
  cons-Spared c i a v key next t u e q below z (d ∷ other) p =
      value_of-cons d a v other (update next i u)
      ∙ same (get_index d) refl
      ∙ sym (value_of-alloc t d a v other next z e)
    where
      same : (j : Option ℕ) → get_index d ≡ j → child j (update next i u) other ≡ child j next other
      same none w = refl
      same (some j) w = elim (Bool-cases (i == j)) [
        | inl x ↦
            let at : i ≡ j = (==_iff i j).0 x in
            let here : c ≡ d = get_index-injective c d i q (w ∙ ap some (sym at)) in
            let rest = below z other (ground arith) in
            subst
              (λ k.
                value_of (trie_get (update next i u k) other) ≡ value_of (trie_get (next k) other))
              at (ap (λ t. value_of (trie_get t other)) (update_self next i u) ∙ rest)
        | inr x ↦ ap (λ t. value_of (trie_get t other)) (update_ne next i j u (ground arith))
      ]

  -- Whatever malloc returns for a new node, inserting a key made of indexed characters succeeds,
  -- and the key is then found with its value; if a new node's children are NULL, every key that
  -- was found and is no prefix of the inserted one is found as before.
  pub trie_insert_lem :
      (key : List ℕ) (val : ℕ) (t : Trie)
      → IsKey key
      → (t' : Trie) × (trie_insert fresh key val t ≡ some t')
        × (trie_get t' key ≡ found val)
        × Spared key t t'
  unfolding trie_get
  trie_insert_lem [] val t k =
      let (next, a, v, e) = alloc-node t in
      (node next val v, insert-nil val a v next t e, refl, nil-Spared val a v next t e)
  trie_insert_lem (c ∷ key) val t k =
      let (next, a, v, e) = alloc-node t in
      let (i, q) = index_of c k.0 in
      let (t', run, got, below) = trie_insert_lem key val (next i) k.1 in
      (
        node (update next i t') a v,
        insert-cons c i val a v key next t e q run,
        trie_get-cons (update next i t') a v c i key q
            ∙ (ap (λ t. trie_get t key) (update_self next i t') ∙ got),
        cons-Spared c i a v key next t t' e q below,
      )
