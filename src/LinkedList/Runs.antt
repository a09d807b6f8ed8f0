-- ===== src/LinkedList/Runs.antt =====
-- src/algorithm/linkedlist.c: tests, and the theorems at concrete inputs.
use csapp_stay.Prelude.{ℕ, zero, suc, ◌+◌, ◌*◌, ◌<◌, ◌≡◌, refl, arith, Option, none, some, update}
use csapp_stay.LinkedList.{
  Heap, LinkedList, Code, done, returned, running, linkedlist_construct, linkedlist_add, add_first,
  add_last, set_next, set_prev, linkedlist_delete, linkedlist_get, get_loop, linkedlist_free,
}
use csapp_stay.LinkedList.Rings.{link, skip, IsRing}
use csapp_stay.LinkedList.Adds.{linkedlist_add-IsRing}
use csapp_stay.LinkedList.Deletes.{linkedlist_delete-IsRing}
use csapp_stay.LinkedList.Frees.{linkedlist_free-IsRing}

-- Three nodes at 8, 16 and 24, with the values 5, 6 and 7.
abbrev place : ℕ → ℕ
place i = 8 + i * 8

abbrev number : ℕ → ℕ
number i = 5 + i

abbrev three : LinkedList
three = record {
  nodes =
      update
        (update (update (λ _. none) 8 (some (record { value = 5; next = 16; prev = 24 }))) 16
          (some (record { value = 6; next = 24; prev = 8 })))
        24 (some (record { value = 7; next = 8; prev = 16 }));
  head = 8;
  count = 3;
}

three-IsRing : IsRing three 3 place number
three-IsRing = record {
  size = refl;
  start = refl;
  present = λ i h e. absurd (omega arith);
  holds = record { node = λ i h. node i h; apart = λ i j hi hj e. omega arith };
}
  where
    node : (i : ℕ) → i < 3 → three.nodes (place i) ≡ some (link 3 place number i)
    node zero h = refl
    node (suc zero) h = refl
    node (suc (suc zero)) h = refl
    node (suc (suc (suc i))) h = absurd (omega arith)

-- Built by the insertion.
built : Option (Code × Option LinkedList)
unfolding linkedlist_add add_first add_last set_next set_prev linkedlist_construct
built = elim (linkedlist_add 8 (some (linkedlist_construct (λ _. none))) 5) [
  | none ↦ none
  | some (c, l) ↦ linkedlist_add 16 l 6
]

built_get :
    (elim built [
      | none ↦ running
      | some (c, o) ↦ elim o [ none ↦ running | some l ↦ linkedlist_get 5 l 6 ]
    ])
    ≡ returned 16
unfolding built linkedlist_get get_loop
built_get = refl

linkedlist_add-IsRing_example :
    (l : LinkedList) × (linkedlist_add 32 (some three) 9 ≡ some (done, some l))
    × IsRing l 4 (update place 3 32) (update number 3 9)
linkedlist_add-IsRing_example =
    linkedlist_add-IsRing three 3 place number 32 9 three-IsRing (omega arith)
      (λ i h e. absurd (omega arith)) (omega arith)

linkedlist_delete-IsRing_example :
    (l : LinkedList) × (linkedlist_delete (some three) 16 ≡ some (done, some l))
    × IsRing l 2 (λ i. place (skip 1 i)) (λ i. number (skip 1 i))
    × (l.nodes 16 ≡ none)
linkedlist_delete-IsRing_example =
    linkedlist_delete-IsRing three 2 1 place number three-IsRing (omega arith) (omega arith)

linkedlist_free-IsRing_example :
    (h : Heap) × (linkedlist_free 4 three ≡ some h) × (h 16 ≡ none) × (h 40 ≡ none)
linkedlist_free-IsRing_example =
    linkedlist_free-IsRing three 3 place number 4 1 40 three-IsRing (omega arith) (omega arith)
      (λ i h e. absurd (omega arith))
