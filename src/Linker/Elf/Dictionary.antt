-- ===== src/Linker/Elf/Dictionary.antt =====
-- src/linker/parseELF.c: the dictionary of the constants, on the hash table.
use mathlib.Core.Option.{some_inj}
use csapp_stay.Prelude.{
  ℕ, ◌≡◌, inl, inr, refl, sym, ◌∙◌, ap, none, some, List, [], ◌∷◌, ◌++◌, Bool-cases, Option-cases,
  if◌then◌else◌, same, same_iff, same_ne, append_assoc, append-nil,
}
use csapp_stay.Hash.{
  HashTable, hash_function, hash_function_index, create_bucket, copy_directory, double_directory,
  push, rehash_pair, rehash, update_directory, split_at, split_bucket, bucket_address,
  hashtable_construct, hashtable_insert, hashtable_get,
}
use csapp_stay.Hash.Pairs.{first}
use csapp_stay.Hash.Inserts.{entries}
use csapp_stay.Hash.Histories.{
  Reached, constructed, inserted, Reached-IsTable, insert-returned, get-entries, entries-construct,
}
use csapp_stay.Linker.Elf.{insert_constants, init_constant_dict, constants}

-- The values of a name in a list of constants.
unfoldable pub constants_of : List ℕ → List (List ℕ × ℕ) → List ℕ
constants_of name [] = []
constants_of name ((key, val) ∷ cs) =
    let rest = constants_of name cs in if same name key then val ∷ rest else rest

insert_constants-entries :
    (bsize fuel : ℕ) (cs : List (List ℕ × ℕ)) (t u : HashTable) (name : List ℕ)
    → Reached bsize t
    → insert_constants fuel cs t ≡ some u
    → entries u name ≡ entries t name ++ constants_of name cs
unfolding insert_constants constants_of
insert_constants-entries bsize fuel [] t u name r e =
    ap (λ x. entries x name) (sym (some_inj.0 e)) ∙ sym (append-nil (entries t name))
insert_constants-entries bsize fuel ((key, val) ∷ cs) t u name r e =
    elim (Option-cases (hashtable_insert fuel t key val)) [
      | inl n ↦ let f : none ≡ some u = rw n at e in cc f
      | inr (s, q) ↦
          let i = insert-returned fuel t key val s (Reached-IsTable bsize t r).0 q in
          let h =
            insert_constants-entries bsize fuel cs s u name (inserted fuel key val r q)
              (rw q at e) in
          elim (Bool-cases (same name key)) [
            | inl m ↦
                let k = same_iff name key m in
                let own : entries s name ≡ entries t name ++ val ∷ [] = rw k i.own in
                rw m (
                  h
                  ∙ ap (λ es. es ++ constants_of name cs) own
                  ∙ append_assoc (entries t name) (val ∷ []) (constants_of name cs))
            | inr m ↦
                rw m
                  (h ∙ ap (λ es. es ++ constants_of name cs) (i.others name (same_ne name key m)))
          ]
    ]

-- The dictionary, by computation.
constant_dict : HashTable
unfolding init_constant_dict insert_constants
constant_dict = elim (init_constant_dict none) [ none ↦ hashtable_construct 4 | some dict ↦ dict ]

constant_dict_lem : insert_constants 8 constants (hashtable_construct 4) ≡ some constant_dict
unfolding constant_dict hash_function hash_function_index create_bucket hashtable_construct
    copy_directory double_directory push rehash_pair rehash update_directory split_at split_bucket
    bucket_address hashtable_insert
constant_dict_lem = refl

-- A lookup in the new dictionary is one in the list of the constants.
pub init_constant_dict-get :
    (name : List ℕ) (dict : HashTable)
    → init_constant_dict none ≡ some dict
    → hashtable_get dict name ≡ first (constants_of name constants)
unfolding init_constant_dict
init_constant_dict-get name dict e =
    get-entries dict name
    ∙ ap first (
        insert_constants-entries 4 8 constants (hashtable_construct 4) dict name constructed e
        ∙ ap (λ es. es ++ constants_of name constants) (entries-construct 4 name))

-- The dictionary of the nine constants is built, with fuel for eight rounds at each insertion, and
-- a lookup of any name finds the value of the first constant of that name, or nothing.
pub init_constant_dict-built :
    (name : List ℕ)
    → (dict : HashTable) × (init_constant_dict none ≡ some dict)
      × (hashtable_get dict name ≡ first (constants_of name constants))
unfolding init_constant_dict
init_constant_dict-built name =
    (constant_dict, constant_dict_lem, init_constant_dict-get name constant_dict constant_dict_lem)
