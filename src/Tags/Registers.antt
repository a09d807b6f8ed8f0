-- ===== src/Tags/Registers.antt =====
-- src/common/tagmalloc.c: the registered blocks, and `tag_malloc`.
use mathlib.Core.Path.{fun_ext, subst}
use csapp_stay.Prelude.{
  ℕ, suc, ◌^◌, ◌<◌, ◌≡◌, ◌≢◌, refl, sym, arith, false, Bool-cases, inl, inr, Option, none, some,
  List, [], ◌∷◌, ◌++◌, length, ◌==◌, update,
}
use csapp_stay.Array.{Array}
use csapp_stay.Cleanup.Orders.{InOrder, add_cleanup_event-Lists}
use csapp_stay.LinkedList.{LinkedList, linkedlist_construct}
use csapp_stay.LinkedList.Rings.{Holds, IsRing, extend-Holds, linkedlist_construct-IsRing}
use csapp_stay.LinkedList.Adds.{linkedlist_add-IsRing}
use csapp_stay.Tags.{TagBlock, Tags, Fresh, compute_tag, open_list, register, tag_malloc}

-- The list is a ring of n nodes, or there is none and no node.
abbrev pub Tracked : Option LinkedList → ℕ → (ℕ → ℕ) → (ℕ → ℕ) → Type 0
Tracked none n p v = n ≡ 0
Tracked (some l) n p v = IsRing l n p v

-- The registered blocks: the node p i has the address v i of the block bl i, which is allocated, as
-- are its data, and no two share an address.
pub record IsTags (t : Tags) (n : ℕ) (p v : ℕ → ℕ) (bl : ℕ → TagBlock) : Type 0 where
  pub tracked : Tracked t.tag_list n p v
  pub allocated : Holds t.blocks n v bl
  pub owned : Holds t.sizes n (λ i. (bl i).ptr) (λ i. (bl i).size)

-- What a new block relies on: malloc returns addresses that are not in use, and the event of
-- tag_destroy fits among those that were added.
pub record IsFresh (f : Fresh) (t : Tags) (n : ℕ) (p v : ℕ → ℕ) (bl : ℕ → TagBlock) (fs : List ℕ)
    : Type 0 where
  pub some_block : f.block ≢ 0
  pub some_ptr : f.ptr ≢ 0
  pub some_node : f.node ≢ 0
  pub some_destroy : f.destroy ≢ 0
  pub new_node : (i : ℕ) → i < n → p i ≢ f.node
  pub new_block : (i : ℕ) → i < n → v i ≢ f.block
  pub new_ptr : (i : ℕ) → i < n → (bl i).ptr ≢ f.ptr
  pub small : suc n < 2 ^ 64
  pub events : InOrder t.events fs
  pub few : length fs < 2 ^ 29

map-update :
    {A B : Type 0} (g : A → B) (a : ℕ → A) (n : ℕ) (x : A)
    → update (λ i. g (a i)) n (g x) ≡ (λ i. g (update a n x i))
map-update g a n x =
    fun_ext λ i. elim (Bool-cases (n == i)) [ inl e ↦ rw e refl | inr e ↦ rw e refl ]

-- The events of clean-up: that of tag_destroy is added with the list.
abbrev pub events_after : Option LinkedList → List ℕ → ℕ → List ℕ
events_after none fs destroy = fs ++ destroy ∷ []
events_after (some l) fs destroy = fs

open_list-IsRing :
    (f : Fresh) (t : Tags) (n : ℕ) (p v : ℕ → ℕ) (bl : ℕ → TagBlock) (fs : List ℕ)
    → IsFresh f t n p v bl fs
    → (o : Option LinkedList) → t.tag_list ≡ o
    → Tracked o n p v
    → (l : LinkedList) × (events : Option Array) × (open_list f t ≡ some (l, events))
      × IsRing l n p v
      × InOrder events (events_after o fs f.destroy)
unfolding open_list
open_list-IsRing f t n p v bl fs fresh none e zero_nodes =
    let (arr, q, lists) =
      add_cleanup_event-Lists f.table f.grown t.events fs f.destroy fresh.events fresh.few
        fresh.some_destroy in
    (
      linkedlist_construct (λ _. none),
      some arr,
      rw (e, q) refl,
      subst (λ m. IsRing (linkedlist_construct (λ _. none)) m p v) (sym zero_nodes)
          (linkedlist_construct-IsRing (λ _. none) p v),
      lists,
    )
open_list-IsRing f t n p v bl fs fresh (some l) e r = (l, t.events, rw e refl, r, fresh.events)

-- The block that tag_malloc makes.
abbrev pub new_block_of : Fresh → ℕ → List ℕ → TagBlock
new_block_of f size tagstr = record { tag = compute_tag tagstr; size = size; ptr = f.ptr }

-- With n blocks registered, all allocated with their data and no two sharing an address, new
-- addresses from malloc, and fewer than 2^29 cleanup events in order, tag_malloc succeeds and
-- returns the address of the new data: n + 1 blocks are registered, the new one last, with its
-- tag, size and data. If there was no list, the call of tag_destroy is added behind the other
-- cleanup events; otherwise the events are the same.
pub tag_malloc-IsTags :
    (f : Fresh) (size : ℕ) (tagstr : List ℕ) (t : Tags) (n : ℕ) (p v : ℕ → ℕ) (bl : ℕ → TagBlock)
    (fs : List ℕ)
    → IsTags t n p v bl
    → IsFresh f t n p v bl fs
    → (t' : Tags) × (tag_malloc f size tagstr t ≡ some (f.ptr, t'))
      × IsTags t'
          (suc n)
          (update p n f.node)
          (update v n f.block)
          (update bl n (new_block_of f size tagstr))
      × InOrder t'.events (events_after t.tag_list fs f.destroy)
unfolding tag_malloc register
tag_malloc-IsTags f size tagstr t n p v bl fs g fresh =
    let b : TagBlock = new_block_of f size tagstr in
    let (l, events, e, r, order) =
      open_list-IsRing f t n p v bl fs fresh t.tag_list refl g.tracked in
    let (l', e', r') =
      linkedlist_add-IsRing l n p v f.node f.block r fresh.some_node fresh.new_node fresh.small in
    let block : (f.block == 0) ≡ false = ground (arith, fresh.some_block) in
    let ptr : (f.ptr == 0) ≡ false = ground (arith, fresh.some_ptr) in
    let owned = extend-Holds g.owned f.ptr size fresh.new_ptr in
    let at : (λ i. (update bl n b i).ptr) ≡ update (λ i. (bl i).ptr) n f.ptr =
      sym (map-update (λ x. x.ptr) bl n b) in
    let of : (λ i. (update bl n b i).size) ≡ update (λ i. (bl i).size) n size =
      sym (map-update (λ x. x.size) bl n b) in
    (
      record {
        tag_list = some l';
        blocks = update t.blocks f.block (some b);
        sizes = update t.sizes f.ptr (some size);
        events = events;
      },
      rw (block, ptr, e, e') refl,
      record {
        tracked = r';
        allocated = extend-Holds g.allocated f.block b fresh.new_block;
        owned = rw (at, of) owned;
      },
      order,
    )
