-- ===== src/Tags.antt =====
-- src/common/tagmalloc.c: the blocks that are registered in a linked list, on a heap of blocks and a
-- heap of the data that they own. `none` is an access to memory that is not allocated, which is a
-- use after free, or a second release.
pub mod Registers
pub mod Searches
pub mod Releases
pub mod Destroys
mod Runs
use csapp_stay.Prelude.{ℕ, zero, suc, ◌+◌, Option, none, some, List, ◌==◌, if◌then◌else◌, update}
use csapp_stay.Array.{Array}
use csapp_stay.Cleanup.{◌>>=◌, add_cleanup_event}
use csapp_stay.Hash.{hash_function}
use csapp_stay.LinkedList.{
  LinkedList, linkedlist_construct, linkedlist_add, linkedlist_delete, linkedlist_next,
  linkedlist_free,
}

-- `tag_block_t`
pub record TagBlock : Type 0 where
  pub tag : ℕ
  pub size : ℕ
  pub ptr : ℕ

-- `tag_list`, the blocks and the sizes of the data at each address, and the cleanup events.
pub record Tags : Type 0 where
  pub tag_list : Option LinkedList
  pub blocks : ℕ → Option TagBlock
  pub sizes : ℕ → Option ℕ
  pub events : Option Array

-- What malloc returns at each of its calls, and the address of tag_destroy.
pub record Fresh : Type 0 where
  pub block : ℕ
  pub ptr : ℕ
  pub node : ℕ
  pub table : ℕ → ℕ
  pub grown : ℕ → ℕ
  pub destroy : ℕ

-- The loops of hash_function.
abbrev pub compute_tag : List ℕ → ℕ
compute_tag = hash_function

-- The list, created on demand with its cleanup event.
pub open_list : Fresh → Tags → Option (LinkedList × Option Array)
open_list f t = elim t.tag_list [
  | some list ↦ some (list, t.events)
  | none ↦ add_cleanup_event f.table f.grown t.events f.destroy >>= λ events.
      some (linkedlist_construct (λ _. none), events)
]

pub register : Fresh → ℕ → ℕ → Tags → Option (ℕ × Tags)
unfolding open_list
register f size tag t = open_list f t >>= λ (list, events).
    linkedlist_add f.node (some list) f.block >>= λ (_, tag_list). some (
      f.ptr,
      record {
        tag_list = tag_list;
        blocks = update t.blocks f.block (some (record { tag = tag; size = size; ptr = f.ptr }));
        sizes = update t.sizes f.ptr (some size);
        events = events;
      },
    )

-- The pointer, NULL if one of the first two calls of malloc fails.
pub tag_malloc : Fresh → ℕ → List ℕ → Tags → Option (ℕ × Tags)
unfolding register
tag_malloc f size tagstr t =
    let registered = register f size (compute_tag tagstr) t in
    if f.block == 0 then some (0, t) else if f.ptr == 0 then some (0, t) else registered

-- `free(bl->ptr)` and `free(bl)`, for the block at an address.
pub free_block : ℕ → Tags → Option Tags
free_block a t = t.blocks a >>= λ bl. t.sizes bl.ptr >>= λ _.
    some (record t { blocks = update t.blocks a none; sizes = update t.sizes bl.ptr none })

-- `p->value`, and the block there.
pub block_at : ℕ → LinkedList → Tags → Option (ℕ × TagBlock)
block_at p list t = list.nodes p >>= λ node. t.blocks node.value >>= λ bl. some (node.value, bl)

-- The block is found at the node p.
pub delete_found : ℕ → ℕ → LinkedList → Tags → Option (ℕ × Tags)
unfolding free_block
delete_found p a list t = linkedlist_delete (some list) p >>= λ (_, list').
    free_block a (record t { tag_list = list' }) >>= λ t'. some (1, t')

-- The loop of tag_free with n rounds left.
pub search_block : ℕ → ℕ → ℕ → LinkedList → Tags → Option (ℕ × Tags)
unfolding delete_found block_at
search_block ptr zero p list t = some (0, record t { tag_list = some list })
search_block ptr (suc n) p list t = block_at p list t >>= λ (a, bl).
    let rest = linkedlist_next list >>= λ (p', list'). search_block ptr n p' list' t in
    if bl.ptr == ptr then delete_found p a list t else rest

pub free_in : Option LinkedList → ℕ → Tags → Option (ℕ × Tags)
unfolding search_block
free_in none ptr t = some (0, t)
free_in (some list) ptr t = search_block ptr list.count list.head list t

pub tag_free : ℕ → Tags → Option (ℕ × Tags)
unfolding free_in
tag_free ptr t = free_in t.tag_list ptr t

-- The loop of tag_sweep.
pub sweep_blocks : ℕ → ℕ → ℕ → LinkedList → Tags → Option Tags
unfolding free_block block_at
sweep_blocks tag zero p list t = some (record t { tag_list = some list })
sweep_blocks tag (suc n) p list t = block_at p list t >>= λ (a, bl).
    linkedlist_next list >>= λ (p', list').
    (if bl.tag == tag then free_block a t else some t) >>= sweep_blocks tag n p' list'

pub sweep_in : Option LinkedList → List ℕ → Tags → Option Tags
unfolding sweep_blocks
sweep_in none tagstr t = some t
sweep_in (some list) tagstr t = sweep_blocks (compute_tag tagstr) list.count list.head list t

pub tag_sweep : List ℕ → Tags → Option Tags
unfolding sweep_in
tag_sweep tagstr t = sweep_in t.tag_list tagstr t

-- The loop of tag_destroy.
pub destroy_blocks : ℕ → ℕ → LinkedList → Tags → Option (LinkedList × Tags)
unfolding free_block block_at
destroy_blocks zero p list t = some (list, t)
destroy_blocks (suc n) p list t = block_at p list t >>= λ (a, _).
    free_block a t >>= λ t'. linkedlist_next list >>= λ (p', list'). destroy_blocks n p' list' t'

-- The release of the list has a round for each node and one more.
pub destroy_in : Option LinkedList → Tags → Option Tags
unfolding destroy_blocks
destroy_in none t = some t
destroy_in (some list) t = destroy_blocks list.count list.head list t >>= λ (list', t').
    linkedlist_free (suc list.count) list' >>= λ _. some (record t' { tag_list = none })

pub tag_destroy : Tags → Option Tags
unfolding destroy_in
tag_destroy t = destroy_in t.tag_list t
