-- ===== src/LinkedList.antt =====
-- src/algorithm/linkedlist.c: the circular doubly linked list, on a heap of nodes. The address 0 is
-- NULL. `none` is an access through NULL or to a node that was freed. What malloc returns is a
-- parameter of the insertion; allocation succeeds.
pub mod Rings
pub mod Adds
pub mod Deletes
pub mod Lookups
pub mod Frees
mod Runs
use csapp_stay.Prelude.{
  ℕ, zero, suc, ◌+◌, ◌-◌, ◌%◌, ◌^◌, Option, none, some, List, [], ◌∷◌, ◌==◌, if◌then◌else◌, update,
}

-- `linkedlist_node_t`
pub record Node : Type 0 where
  pub value : ℕ
  pub next : ℕ
  pub prev : ℕ

abbrev pub Heap : Type 0
Heap = ℕ → Option Node

-- `linkedlist_t`, with the heap.
pub record LinkedList : Type 0 where
  pub nodes : Heap
  pub head : ℕ
  pub count : ℕ

-- 0 and -1
pub data Code : Type 0 where
  done refused : Code

infixl 5 ◌>>=◌
abbrev pub ◌>>=◌ : {A B : Type 0} → Option A → (A → Option B) → Option B
none >>= f = none
some a >>= f = f a

-- `a->next = x`
pub set_next : Heap → ℕ → ℕ → Option Heap
set_next h a x = h a >>= λ node. some (update h a (some (record node { next = x })))

-- `a->prev = x`
pub set_prev : Heap → ℕ → ℕ → Option Heap
set_prev h a x = h a >>= λ node. some (update h a (some (record node { prev = x })))

-- `free(a)`
pub free_node : Heap → ℕ → Option Heap
free_node h a = h a >>= λ node. some (update h a none)

pub linkedlist_construct : Heap → LinkedList
linkedlist_construct h = record { nodes = h; head = 0; count = 0 }

-- The node at the end, where the list has a head.
pub add_last : ℕ → LinkedList → ℕ → Option LinkedList
add_last new_node list value = list.nodes list.head >>= λ first.
    let node : Node = record { value = value; next = list.head; prev = first.prev } in
    set_prev (update list.nodes new_node (some node)) node.next new_node >>= λ h.
    set_next h node.prev new_node >>= λ h'.
    some (record { nodes = h'; head = list.head; count = (list.count + 1) % 2 ^ 64 })

pub add_first : ℕ → LinkedList → ℕ → LinkedList
add_first new_node list value = record {
  nodes =
      update list.nodes new_node
        (some (record { value = value; next = new_node; prev = new_node }));
  head = new_node;
  count = (list.count + 1) % 2 ^ 64;
}

-- The list is `none` where the pointer is NULL.
pub linkedlist_add : ℕ → Option LinkedList → ℕ → Option (Code × Option LinkedList)
linkedlist_add new_node none value = some (refused, none)
linkedlist_add new_node (some list) value =
    let last = add_last new_node list value >>= λ l. some (done, some l) in
    if list.count == 0 then some (done, some (add_first new_node list value)) else last

-- The deletion of the head.
pub unlink_head : LinkedList → ℕ → Option LinkedList
unlink_head list node = list.nodes node >>= λ n. set_prev list.nodes n.next n.prev >>= λ h.
    h node >>= λ n'.
    set_next h n'.prev n.next >>= λ h'. some (record list { nodes = h'; head = n.next })

pub unlink : LinkedList → ℕ → Option LinkedList
unlink list node = list.nodes node >>= λ n. set_next list.nodes n.prev n.next >>= λ h.
    h node >>= λ n'. set_prev h n'.next n'.prev >>= λ h'. some (record list { nodes = h' })

pub release : ℕ → LinkedList → Option (Code × LinkedList)
release node list = free_node list.nodes node >>= λ h.
    some (done, record list { nodes = h; count = (list.count + (2 ^ 64 - 1)) % 2 ^ 64 })

pub delete_node : LinkedList → ℕ → Option (Code × LinkedList)
delete_node list node =
    (if list.head == node
      then if list.count == 1 then some (record list { head = 0 }) else unlink_head list node
      else unlink list node)
    >>= release node

pub linkedlist_delete : Option LinkedList → ℕ → Option (Code × Option LinkedList)
linkedlist_delete none node = some (refused, none)
linkedlist_delete (some list) node =
    let deleted = delete_node list node >>= λ r. some (r.0, some r.1) in
    if node == 0 then some (refused, some list) else deleted

-- The address that a lookup returns, where NULL is 0.
pub data Lookup : Type 0 where
  returned : ℕ → Lookup
  running fault : Lookup

-- `while (current != NULL)` with fuel.
pub get_loop : ℕ → Heap → ℕ → ℕ → Lookup
get_loop zero h value current = running
get_loop (suc fuel) h value current =
    let step : Lookup = elim (h current) [
      | none ↦ fault
      | some node ↦
          let rest = get_loop fuel h value node.next in
          if node.value == value then returned current else rest
    ] in
    if current == 0 then returned 0 else step

pub linkedlist_get : ℕ → LinkedList → ℕ → Lookup
linkedlist_get fuel list value =
    if list.head == 0 then returned 0 else get_loop fuel list.nodes value list.head

-- The node that was the head, and the list with the next one as its head.
pub linkedlist_next : LinkedList → Option (ℕ × LinkedList)
linkedlist_next list =
    if list.head == 0
    then some (0, list)
    else (list.nodes list.head >>= λ n.
        list.nodes n.next >>= λ n'. some (n'.prev, record list { head = n.next }))

-- `while (current)` with fuel.
pub free_loop : ℕ → Heap → ℕ → Option Heap
free_loop zero h current = none
free_loop (suc fuel) h current =
    let step = h current >>= λ node. free_node h current >>= λ h'. free_loop fuel h' node.next in
    if current == 0 then some h else step

-- The heap without the nodes.
pub linkedlist_free : ℕ → LinkedList → Option Heap
linkedlist_free fuel list =
    if list.head == 0
    then some list.nodes
    else (list.nodes list.head >>= λ first.
        set_next list.nodes first.prev 0 >>= λ h. free_loop fuel h list.head)
