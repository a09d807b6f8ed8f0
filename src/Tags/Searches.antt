-- ===== src/Tags/Searches.antt =====
-- src/common/tagmalloc.c: `tag_free`, which turns the ring as it searches.
use mathlib.Core.Path.{subst}
use csapp_stay.Prelude.{
  ℕ, suc, ◌+◌, ◌-◌, ◌^◌, ◌≤◌, ◌<◌, ◌≡◌, refl, sym, ◌∙◌, ap, arith, Option, none, some,
  if◌then◌else◌, ltb, update, update_self,
}
use csapp_stay.LinkedList.{Node, LinkedList, linkedlist_next, linkedlist_delete}
use csapp_stay.LinkedList.Rings.{
  Holds, IsRing, after, skip, release-Holds, Holds-along, Holds-turned, IsRing-same,
}
use csapp_stay.LinkedList.Deletes.{linkedlist_delete-IsRing}
use csapp_stay.LinkedList.Lookups.{linkedlist_next-IsRing}
use csapp_stay.Tags.{TagBlock, Tags, block_at, free_block, delete_found}
use csapp_stay.Tags.Registers.{IsTags}

-- The index j of a ring of n nodes that was turned by i.
abbrev pub turn : ℕ → ℕ → ℕ → ℕ
turn n i j = if ltb (i + j) n then i + j else i + j - n

-- The ring turned by i.
abbrev pub Turned : LinkedList → ℕ → ℕ → (ℕ → ℕ) → (ℕ → ℕ) → Type 0
Turned l n i p v = IsRing l n (λ j. p (turn n i j)) (λ j. v (turn n i j))

pub turn_inj : (n i : ℕ) → i ≤ n → (j k : ℕ) → j < n → k < n → turn n i j ≡ turn n i k → j ≡ k
turn_inj n i h j k hj hk e = ground arith

turn-lt : (n i j : ℕ) → i ≤ n → j < n → turn n i j < n
turn-lt n i j h hj = ground arith

turn-after : (n i j : ℕ) → i < n → j < n → turn n i (after n j) ≡ turn n (suc i) j
turn-after n i j h hj = ground arith

pub Turned-next :
    (l : LinkedList) (m i : ℕ) (p v : ℕ → ℕ)
    → i ≤ m
    → Turned l (suc m) i p v
    → (l' : LinkedList) × (linkedlist_next l ≡ some (p i, l')) × Turned l' (suc m) (suc i) p v
Turned-next l m i p v h r =
    let n = suc m in
    let (l', e, r') = linkedlist_next-IsRing l m (λ j. p (turn n i j)) (λ j. v (turn n i j)) r in
    let first : turn n i 0 ≡ i = ground arith in
    (
      l',
      e ∙ ap (λ j. some (p j, l')) first,
      IsRing-same p v (λ j. turn n i (after n j)) (turn n (suc i)) r'
          (λ j hj. turn-after n i j (omega arith) hj),
    )

-- The place of the index c in the turned ring.
abbrev pub place : ℕ → ℕ → ℕ → ℕ
place n i c = if ltb c i then c + n - i else c - i

place-lt : (n i c : ℕ) → i ≤ n → c < n → place n i c < n
place-lt n i c h hc = ground arith

turn-place : (n i c : ℕ) → i ≤ n → c < n → turn n i (place n i c) ≡ c
turn-place n i c h hc = ground arith

pub Turned-start : (l : LinkedList) (n : ℕ) (p v : ℕ → ℕ) → IsRing l n p v → Turned l n 0 p v
Turned-start l n p v r = IsRing-same p v (λ j. j) (turn n 0) r (λ j h. ground arith)

module _ (t : Tags) (m : ℕ) (p v : ℕ → ℕ) (bl : ℕ → TagBlock) (g : Holds t.blocks (suc m) v bl)
    (owned : Holds t.sizes (suc m) (λ i. (bl i).ptr) (λ i. (bl i).size)) where
  abbrev n : ℕ
  n = suc m

  pub node_at :
      (l : LinkedList) (i c : ℕ)
      → i ≤ n
      → c < n
      → Turned l n i p v
      → (x : Node) × (l.nodes (p c) ≡ some x) × (x.value ≡ v c)
  node_at l i c hi hc r =
      let at : turn n i (place n i c) ≡ c = turn-place n i c hi hc in
      let node = r.holds.node (place n i c) (place-lt n i c hi hc) in
      (_, ap (λ a. l.nodes (p a)) (sym at) ∙ node, ap v at)

  pub block_at-node :
      (l : LinkedList) (i c : ℕ)
      → i ≤ n
      → c < n
      → Turned l n i p v
      → block_at (p c) l t ≡ some (v c, bl c)
  unfolding block_at
  block_at-node l i c hi hc r =
      let (x, e, value) = node_at l i c hi hc r in rw (e, value, g.node c hc) refl

  -- What is left when the block k was freed.
  unfoldable pub Removed : ℕ → Option (ℕ × Tags) → Type 0
  Removed k o =
      (t' : Tags) × (o ≡ some (1, t'))
      × IsTags t' m (λ j. p (turn n (suc k) j)) (λ j. v (turn n (suc k) j))
          (λ j. bl (turn n (suc k) j))
      × (t'.blocks (v k) ≡ none)
      × (t'.sizes (bl k).ptr ≡ none)

  pub delete_found-Removed :
      (l : LinkedList) (i j k : ℕ)
      → i ≤ n
      → j ≤ m
      → turn n i j ≡ k
      → ((x : ℕ) → x < m → turn n i (skip j x) ≡ turn n (suc k) x)
      → n < 2 ^ 64
      → Turned l n i p v
      → Removed k (delete_found (p k) (v k) l t)
  unfolding delete_found free_block Removed
  delete_found-Removed l i j k hi hj at same small r =
      let (l', e, r', _) =
        linkedlist_delete-IsRing l m j (λ x. p (turn n i x)) (λ x. v (turn n i x)) r hj small in
      let inside : k < n = subst (λ x. x < n) at (turn-lt n i j hi (omega arith)) in
      let blocks =
        release-Holds
          (Holds-along g (turn n i) (λ x h. turn-lt n i x hi h)
            (λ x y hx hy q. turn_inj n i hi x y hx hy q))
          j hj in
      let sizes =
        release-Holds
          (Holds-along owned (turn n i) (λ x h. turn-lt n i x hi h)
            (λ x y hx hy q. turn_inj n i hi x y hx hy q))
          j hj in
      let s = λ (x : ℕ). turn n i (skip j x) in
      let deleted : linkedlist_delete (some l) (p k) ≡ _ = rw at at e in
      (
        record t {
          tag_list = some l';
          blocks = update t.blocks (v k) none;
          sizes = update t.sizes (bl k).ptr none;
        },
        rw (deleted, g.node k inside, owned.node k inside) refl,
        record {
          tracked = IsRing-same p v s (turn n (suc k)) r' same;
          allocated = Holds-turned v bl s (turn n (suc k)) (rw at at blocks) same;
          owned =
              Holds-turned (λ x. (bl x).ptr) (λ x. (bl x).size) s (turn n (suc k)) (rw at at sizes)
                same;
        },
        update_self t.blocks (v k) none,
        update_self t.sizes (bl k).ptr none,
      )
