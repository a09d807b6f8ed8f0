-- ===== src/Tags/Destroys.antt =====
-- src/common/tagmalloc.c: `tag_destroy` and `tag_sweep`, whose rounds meet the first block twice.
use csapp_stay.Prelude.{
  ℕ, suc, ◌≡◌, refl, ◌∙◌, ap, arith, true, Option, none, some, List, ◌==◌, ==_iff, update,
  update_self,
}
use csapp_stay.LinkedList.{LinkedList, Node}
use csapp_stay.LinkedList.Rings.{IsRing, IsRing-head, IsRing-same}
use csapp_stay.Tags.{
  TagBlock, Tags, compute_tag, block_at, free_block, destroy_blocks, destroy_in, tag_destroy,
  sweep_blocks, sweep_in, tag_sweep,
}
use csapp_stay.Tags.Registers.{Tracked, IsTags}
use csapp_stay.Tags.Searches.{turn, Turned, Turned-next, Turned-start, node_at, block_at-node}

-- The first block freed.
abbrev pub without : Tags → ℕ → TagBlock → Tags
without t a b = record t { blocks = update t.blocks a none; sizes = update t.sizes b.ptr none }

module _ (t : Tags) (m : ℕ) (p v : ℕ → ℕ) (bl : ℕ → TagBlock) (g : IsTags t (suc m) p v bl)
    (l : LinkedList) (ring : IsRing l (suc m) p v) where
  start : Turned l (suc m) 0 p v
  start = Turned-start l (suc m) p v ring

  first_block : block_at (p 0) l t ≡ some (v 0, bl 0)
  first_block = block_at-node t m p v bl g.allocated g.owned l 0 0 (omega arith) (omega arith) start

  first_freed : free_block (v 0) t ≡ some (without t (v 0) (bl 0))
  unfolding free_block
  first_freed = rw (g.allocated.node 0 (omega arith), g.owned.node 0 (omega arith)) refl

  -- The first block was freed, and the next round is at the same node.
  again :
      (l' : LinkedList) (t' : Tags)
      → Turned l' (suc m) 1 p v
      → t'.blocks (v 0) ≡ none
      → block_at (p 0) l' t' ≡ none
  unfolding block_at
  again l' t' r freed =
      let (x, e, value) =
        node_at t m p v bl g.allocated g.owned l' 1 0 (omega arith) (omega arith) r in
      rw (e, value, freed) refl

-- The loops, from the head on and with the count of the list.
module _ (t : Tags) (l : LinkedList) (n : ℕ) (p v : ℕ → ℕ) (ring : IsRing l (suc n) p v) where
  destroy_blocks-start : destroy_blocks l.count l.head l t ≡ destroy_blocks (suc n) (p 0) l t
  destroy_blocks-start =
      ap (λ c. destroy_blocks c l.head l t) ring.size
      ∙ ap (λ a. destroy_blocks (suc n) a l t) (IsRing-head ring (omega arith))

  sweep_blocks-start :
      (tag : ℕ) → sweep_blocks tag l.count l.head l t ≡ sweep_blocks tag (suc n) (p 0) l t
  sweep_blocks-start tag =
      ap (λ c. sweep_blocks tag c l.head l t) ring.size
      ∙ ap (λ a. sweep_blocks tag (suc n) a l t) (IsRing-head ring (omega arith))

-- The list t.tag_list is l, its first block is freed in the first round, which leaves the heaps of
-- `freed` and the list l', and the second round is at a node of that block, which is not allocated.
pub record ReadFreed (t : Tags) (m a : ℕ) : Type 0 where
  pub l : LinkedList
  pub freed : Tags
  pub l' : LinkedList
  pub next : ℕ
  pub at : Node
  pub listed : t.tag_list ≡ some l
  pub release : free_block a t ≡ some freed
  pub first_round : destroy_blocks l.count l.head l t ≡ destroy_blocks (suc m) next l' freed
  pub second_node : l'.nodes next ≡ some at
  pub second_block : at.value ≡ a
  pub no_block : freed.blocks a ≡ none

destroy_blocks-ReadFreed :
    (t : Tags) (m : ℕ) (p v : ℕ → ℕ) (bl : ℕ → TagBlock)
    → IsTags t (suc (suc m)) p v bl
    → (o : Option LinkedList) → t.tag_list ≡ o
    → Tracked o (suc (suc m)) p v
    → ReadFreed t m (v 0)
unfolding destroy_blocks
destroy_blocks-ReadFreed t m p v bl g none e z = absurd (omega arith)
destroy_blocks-ReadFreed t m p v bl g (some l) e ring =
    let (l', next, ring') =
      Turned-next l (suc m) 0 p v (omega arith) (start t (suc m) p v bl g l ring) in
    let (x, node, value) =
      node_at t (suc m) p v bl g.allocated g.owned l' 1 0 (omega arith) (omega arith) ring' in
    record {
      l = l;
      freed = without t (v 0) (bl 0);
      l' = l';
      next = p 0;
      at = x;
      listed = e;
      release = first_freed t (suc m) p v bl g l ring;
      first_round =
          destroy_blocks-start t l (suc m) p v ring
          ∙ rw (first_block t (suc m) p v bl g l ring, first_freed t (suc m) p v bl g l ring, next)
              refl;
      second_node = node;
      second_block = value;
      no_block = update_self t.blocks (v 0) none;
    }

ReadFreed-fault : (t : Tags) (m a : ℕ) → ReadFreed t m a → tag_destroy t ≡ none
unfolding tag_destroy destroy_in destroy_blocks block_at
ReadFreed-fault t m a r =
    let fault : destroy_blocks (suc m) r.next r.l' r.freed ≡ none =
      rw (r.second_node, r.second_block, r.no_block) refl in
    let stuck : destroy_in (some r.l) t ≡ none = rw (r.first_round, fault) refl in
    ap (λ o. destroy_in o t) r.listed ∙ stuck

-- With two or more blocks registered, the first round of tag_destroy frees the first block, the
-- second round is at a node whose value is the address of that block, where no block is allocated
-- any more, and so tag_destroy faults.
pub tag_destroy-twice :
    (t : Tags) (m : ℕ) (p v : ℕ → ℕ) (bl : ℕ → TagBlock)
    → IsTags t (suc (suc m)) p v bl
    → ReadFreed t m (v 0) × (tag_destroy t ≡ none)
tag_destroy-twice t m p v bl g =
    let r = destroy_blocks-ReadFreed t m p v bl g t.tag_list refl g.tracked in
    (r, ReadFreed-fault t m (v 0) r)

-- One block of the tag.
module _ (s : List ℕ) (t : Tags) (p v : ℕ → ℕ) (bl : ℕ → TagBlock) (g : IsTags t 1 p v bl)
    (same : (bl 0).tag ≡ compute_tag s) (l : LinkedList) (ring : IsRing l 1 p v) where
  swept : Tags
  swept = without t (v 0) (bl 0)

  sweep_blocks-one :
      (l' : LinkedList) × (sweep_blocks (compute_tag s) l.count l.head l t
        ≡ some (record swept { tag_list = some l' }))
      × Turned l' 1 1 p v
  unfolding sweep_blocks swept
  sweep_blocks-one =
      let (l', next, ring') = Turned-next l 0 0 p v (omega arith) (start t 0 p v bl g l ring) in
      let tag : ((bl 0).tag == compute_tag s) ≡ true = (==_iff _ _).1 same in
      (
        l',
        sweep_blocks-start t l 0 p v ring (compute_tag s)
            ∙ rw (first_block t 0 p v bl g l ring, next, tag, first_freed t 0 p v bl g l ring) refl,
        ring',
      )

  destroy_blocks-swept :
      (l' : LinkedList)
      → Turned l' 1 1 p v
      → destroy_blocks l'.count l'.head l' (record swept { tag_list = some l' }) ≡ none
  unfolding destroy_blocks swept
  destroy_blocks-swept l' r =
      let t' : Tags = record swept { tag_list = some l' } in
      let r' : IsRing l' 1 p v = IsRing-same p v (turn 1 1) (λ j. j) r (λ j h. ground arith) in
      let gone = again t 0 p v bl g l ring l' t' r (update_self t.blocks (v 0) none) in
      destroy_blocks-start t' l' 0 p v r' ∙ rw gone refl

swept_one :
    (s : List ℕ) (t : Tags) (p v : ℕ → ℕ) (bl : ℕ → TagBlock)
    → IsTags t 1 p v bl
    → (bl 0).tag ≡ compute_tag s
    → (o : Option LinkedList) → t.tag_list ≡ o
    → Tracked o 1 p v
    → (t' : Tags) × (tag_sweep s t ≡ some t') × (t'.blocks (v 0) ≡ none) × (tag_destroy t' ≡ none)
unfolding tag_sweep sweep_in tag_destroy destroy_in swept
swept_one s t p v bl g same none e z = absurd (omega arith)
swept_one s t p v bl g same (some l) e ring =
    let (l', q, r) = sweep_blocks-one s t p v bl g same l ring in
    let d = destroy_blocks-swept s t p v bl g same l ring l' r in
    (
      record (without t (v 0) (bl 0)) { tag_list = some l' },
      ap (λ o. sweep_in o s t) e ∙ q,
      update_self t.blocks (v 0) none,
      rw d refl,
    )

pub tag_sweep-destroy :
    (s : List ℕ) (t : Tags) (p v : ℕ → ℕ) (bl : ℕ → TagBlock)
    → IsTags t 1 p v bl
    → (bl 0).tag ≡ compute_tag s
    → (t' : Tags) × (tag_sweep s t ≡ some t') × (t'.blocks (v 0) ≡ none) × (tag_destroy t' ≡ none)
tag_sweep-destroy s t p v bl g same = swept_one s t p v bl g same t.tag_list refl g.tracked
