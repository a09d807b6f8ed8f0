-- ===== src/Tags/Releases.antt =====
-- src/common/tagmalloc.c: which block `tag_free` releases.
use mathlib.Core.Path.{subst}
use csapp_stay.Prelude.{
  ℕ, zero, suc, ◌+◌, ◌^◌, ◌≤◌, ◌<◌, ◌≡◌, ◌≢◌, ◌⊎◌, inl, inr, refl, sym, ◌∙◌, ap, arith, true, false,
  Option, none, some, ◌==◌, ==_iff,
}
use native.Mathlib.Decide.{ℕ_discrete}
use csapp_stay.LinkedList.{LinkedList}
use csapp_stay.LinkedList.Rings.{Holds, IsRing, IsRing-head, skip, IsRing-same}
use csapp_stay.Tags.{TagBlock, Tags, search_block, free_in, tag_free}
use csapp_stay.Tags.Registers.{Tracked, IsTags}
use csapp_stay.Tags.Searches.{
  turn, Turned, Turned-next, Turned-start, block_at-node, Removed, delete_found-Removed,
}

module _ (t : Tags) (m : ℕ) (p v : ℕ → ℕ) (bl : ℕ → TagBlock) (g : Holds t.blocks (suc m) v bl)
    (owned : Holds t.sizes (suc m) (λ i. (bl i).ptr) (λ i. (bl i).size)) where
  abbrev n : ℕ
  n = suc m

  -- A round at another block.
  search_miss :
      (ptr r i c : ℕ) (l : LinkedList)
      → i ≤ m
      → c < n
      → (bl c).ptr ≢ ptr
      → Turned l n i p v
      → (l' : LinkedList) × (search_block ptr (suc r) (p c) l t ≡ search_block ptr r (p i) l' t)
        × Turned l' n (suc i) p v
  unfolding search_block
  search_miss ptr r i c l hi hc ne ring =
      let at = block_at-node t m p v bl g owned l i c (omega arith) hc ring in
      let (l', e, ring') = Turned-next l m i p v hi ring in
      let other : ((bl c).ptr == ptr) ≡ false = ground arith in (l', rw (at, other, e) refl, ring')

  -- The round at the block.
  search_hit :
      (r i j k : ℕ) (l : LinkedList)
      → i ≤ n
      → j ≤ m
      → k < n
      → turn n i j ≡ k
      → ((x : ℕ) → x < m → turn n i (skip j x) ≡ turn n (suc k) x)
      → n < 2 ^ 64
      → Turned l n i p v
      → Removed t m p v bl g owned k (search_block (bl k).ptr (suc r) (p k) l t)
  unfolding search_block
  search_hit r i j k l hi hj hk at same small ring =
      let here = block_at-node t m p v bl g owned l i k hi hk ring in
      let found : ((bl k).ptr == (bl k).ptr) ≡ true = (==_iff _ _).1 refl in
      let step : search_block (bl k).ptr (suc r) (p k) l t ≡ _ = rw (here, found) refl in
      subst (Removed t m p v bl g owned k) (sym step)
        (delete_found-Removed t m p v bl g owned l i j k hi hj at same small ring)

  -- The rounds after the first, at the index c of the ring turned by c + 1.
  search_found :
      (r c k : ℕ) (l : LinkedList)
      → suc c + r ≡ n
      → c ≤ k
      → suc k < n
      → n < 2 ^ 64
      → Turned l n (suc c) p v
      → Removed t m p v bl g owned k (search_block (bl k).ptr r (p c) l t)
  search_found zero c k l left hc hk small ring = absurd (omega arith)
  search_found (suc r) c k l left hc hk small ring = elim (ℕ_discrete c k) [
    | yes e ↦
        let ring' : Turned l n (suc k) p v = rw e at ring in
        subst (λ x. Removed t m p v bl g owned k (search_block (bl k).ptr (suc r) (p x) l t))
          (sym e)
          (search_hit r (suc k) m k l (omega arith) (omega arith) (omega arith) (ground arith)
            (λ x h. ground arith) small ring')
    | no e ↦
        let ne : (bl c).ptr ≢ (bl k).ptr = λ q. e (owned.apart c k (omega arith) (omega arith) q) in
        let (l', step, ring') =
          search_miss (bl k).ptr r (suc c) c l (omega arith) (omega arith) ne ring in
        subst (Removed t m p v bl g owned k) (sym step)
          (search_found r (suc c) k l' (omega arith) (omega arith) hk small ring')
  ]

  search_none :
      (ptr r c : ℕ) (l : LinkedList)
      → suc c + r ≡ n
      → ((x : ℕ) → suc x < n → (bl x).ptr ≢ ptr)
      → Turned l n (suc c) p v
      → (l' : LinkedList) × (search_block ptr r (p c) l t
          ≡ some (0, record t { tag_list = some l' }))
        × Turned l' n n p v
  unfolding search_block
  search_none ptr zero c l left others ring =
      let e : suc c ≡ n = omega arith in (l, refl, rw e at ring)
  search_none ptr (suc r) c l left others ring =
      let (l', step, ring') =
        search_miss ptr r (suc c) c l (omega arith) (omega arith) (others c (omega arith)) ring in
      let (l'', e, ring'') = search_none ptr r (suc c) l' (omega arith) others ring' in
      (l'', step ∙ e, ring'')

  free_at :
      (l : LinkedList) (k : ℕ)
      → IsRing l n p v
      → k ≤ m
      → (suc k < n) ⊎ (m ≡ 0)
      → n < 2 ^ 64
      → Removed t m p v bl g owned k (search_block (bl k).ptr n (p 0) l t)
  free_at l zero ring hk early small =
      search_hit m 0 0 0 l (omega arith) (omega arith) (omega arith) (ground arith)
        (λ x h. ground arith) small (Turned-start l n p v ring)
  free_at l (suc k) ring hk early small =
      let inner : suc (suc k) < n = elim early [
        | inl h ↦ h
        | inr z ↦ absurd (omega (arith, z, hk))
      ] in
      let ne : (bl 0).ptr ≢ (bl (suc k)).ptr =
        λ q. absurd (omega (arith, owned.apart 0 (suc k) (omega arith) (omega arith) q)) in
      let (l', step, ring') =
        search_miss (bl (suc k)).ptr m 0 0 l (omega arith) (omega arith) ne
          (Turned-start l n p v ring) in
      subst (Removed t m p v bl g owned (suc k)) (sym step)
        (search_found m 0 (suc k) l' (omega arith) (omega arith) inner small ring')

tag_free-start :
    (t : Tags) (l : LinkedList) (m ptr : ℕ) (p v : ℕ → ℕ)
    → t.tag_list ≡ some l
    → IsRing l (suc m) p v
    → tag_free ptr t ≡ search_block ptr (suc m) (p 0) l t
unfolding tag_free free_in
tag_free-start t l m ptr p v e ring =
    ap (λ o. free_in o ptr t) e
    ∙ ap (λ c. search_block ptr c l.head l t) ring.size
    ∙ ap (λ a. search_block ptr (suc m) a l t) (IsRing-head ring (omega arith))

-- For n blocks registered, fewer than 2^64, tag_free of the data of the block k, if that is not
-- the last one or is the only one, returns 1, frees the block and its data, and leaves the others
-- registered, in their order from the block behind it on.
pub tag_free-early :
    (t : Tags) (m k : ℕ) (p v : ℕ → ℕ) (bl : ℕ → TagBlock)
    → IsTags t (suc m) p v bl
    → k ≤ m
    → (k < m) ⊎ (m ≡ 0)
    → suc m < 2 ^ 64
    → (t' : Tags) × (tag_free (bl k).ptr t ≡ some (1, t'))
      × IsTags t' m
          (λ j. p (turn (suc m) (suc k) j))
          (λ j. v (turn (suc m) (suc k) j))
          (λ j. bl (turn (suc m) (suc k) j))
      × (t'.blocks (v k) ≡ none)
      × (t'.sizes (bl k).ptr ≡ none)
unfolding Removed
tag_free-early t m k p v bl g hk early small = found t.tag_list refl g.tracked
  where
    found :
        (o : Option LinkedList)
        → t.tag_list ≡ o
        → Tracked o (suc m) p v
        → Removed t m p v bl g.allocated g.owned k (tag_free (bl k).ptr t)
    found none e z = absurd (omega arith)
    found (some l) e ring =
        let early' : (suc k < suc m) ⊎ (m ≡ 0) = elim early [
          | inl h ↦ inl (omega arith)
          | inr z ↦ inr z
        ] in
        subst (Removed t m p v bl g.allocated g.owned k)
          (sym (tag_free-start t l m (bl k).ptr p v e ring))
          (free_at t m p v bl g.allocated g.owned l k ring hk early' small)

-- With two or more blocks registered, tag_free of the data of the last one returns 0, frees
-- nothing, and leaves the same blocks registered in the same order.
pub tag_free-last :
    (t : Tags) (m : ℕ) (p v : ℕ → ℕ) (bl : ℕ → TagBlock)
    → IsTags t (suc (suc m)) p v bl
    → (l : LinkedList) × (tag_free (bl (suc m)).ptr t ≡ some (0, record t { tag_list = some l }))
      × IsTags (record t { tag_list = some l }) (suc (suc m)) p v bl
tag_free-last t m p v bl g = unfound t.tag_list refl g.tracked
  where
    unfound :
        (o : Option LinkedList)
        → t.tag_list ≡ o
        → Tracked o (suc (suc m)) p v
        → (l : LinkedList) × (tag_free (bl (suc m)).ptr t
            ≡ some (0, record t { tag_list = some l }))
          × IsTags (record t { tag_list = some l }) (suc (suc m)) p v bl
    unfound none e z = absurd (omega arith)
    unfound (some l) e ring =
        let n = suc (suc m) in
        let ptr = (bl (suc m)).ptr in
        let others : (x : ℕ) → suc x < n → (bl x).ptr ≢ ptr =
          λ x h q. absurd (omega (arith, g.owned.apart x (suc m) (omega arith) (omega arith) q)) in
        let (l₁, step, ring₁) =
          search_miss t (suc m) p v bl g.allocated g.owned ptr (suc m) 0 0 l (omega arith)
            (omega arith) (others 0 (omega arith)) (Turned-start l n p v ring) in
        let (l₂, last, ring₂) =
          search_none t (suc m) p v bl g.allocated g.owned ptr (suc m) 0 l₁ (omega arith) others
            ring₁ in
        (
          l₂,
          tag_free-start t l (suc m) ptr p v e ring ∙ step ∙ last,
          record {
            tracked = IsRing-same p v (turn n n) (λ j. j) ring₂ (λ j h. ground arith);
            allocated = g.allocated;
            owned = g.owned;
          },
        )
