-- ===== src/LinkedList/Deletes.antt =====
-- src/algorithm/linkedlist.c: `linkedlist_delete` takes a node out of the ring and frees it.
use csapp_stay.Prelude.{
  ℕ, zero, suc, ◌+◌, ◌-◌, ◌^◌, ◌%◌, ◌≤◌, ◌<◌, ◌≡◌, ◌≢◌, true, false, refl, sym, ◌∙◌, ap, arith,
  none, some, ◌==◌, ==_iff, if◌then◌else◌, update, update_self, update_ne,
}
use csapp_stay.LinkedList.{
  Node, Heap, LinkedList, done, free_node, release, unlink_head, unlink, delete_node,
  linkedlist_delete,
}
use csapp_stay.LinkedList.Rings.{
  after, before, link, skip, Holds, IsRing, set_next-Holds, set_prev-Holds, release-Holds,
  Holds-same, IsRing-head,
}

-- The nodes after the two writes, in either order, are those of the shorter ring.
prev_first :
    (m : ℕ) (p v : ℕ → ℕ) (i : ℕ)
    → i < suc m
    → (let n = suc (suc m) in
        let f = link n p v in
        let f₁ = update f 1 (record (f 1) { prev = p (suc m) }) in
        update f₁ (suc m) (record (f₁ (suc m)) { next = p 1 }) (skip 0 i)
        ≡ link (suc m) (λ j. p (skip 0 j)) (λ j. v (skip 0 j)) i)
prev_first m p v i h = ground arith

next_first :
    (m k : ℕ) (p v : ℕ → ℕ) (i : ℕ)
    → i < suc m
    → 0 < k
    → k ≤ suc m
    → (let n = suc (suc m) in
        let f = link n p v in
        let a = after n k in
        let b = k - 1 in
        let f₁ = update f b (record (f b) { next = p a }) in
        update f₁ a (record (f₁ a) { prev = p b }) (skip k i)
        ≡ link (suc m) (λ j. p (skip k j)) (λ j. v (skip k j)) i)
next_first m k p v i h hk hm = ground arith

module _ (l : LinkedList) (m : ℕ) (p v : ℕ → ℕ) (r : IsRing l (suc (suc m)) p v) where
  abbrev f : ℕ → Node
  f = link (suc (suc m)) p v

  abbrev Unlinked : ℕ → Heap → Type 0
  Unlinked k h =
      (f' : ℕ → Node) × Holds h (suc (suc m)) p f'
      × ((i : ℕ)
          → i < suc m
          → f' (skip k i) ≡ link (suc m) (λ j. p (skip k j)) (λ j. v (skip k j)) i)

  unlink_head-Unlinked :
      (h : Heap) × (unlink_head l (p 0) ≡ some (record l { nodes = h; head = p 1 })) × Unlinked 0 h
  unfolding unlink_head
  unlink_head-Unlinked =
      let first = r.holds.node 0 (omega arith) in
      let next : p (after (suc (suc m)) 0) ≡ p 1 = ap p (ground arith) in
      let prev : p (before (suc (suc m)) 0) ≡ p (suc m) = ap p (ground arith) in
      let (h₁, e₁, g₁) = set_prev-Holds r.holds 1 (p (suc m)) (omega arith) in
      let kept : update f 1 (record (f 1) { prev = p (suc m) }) 0 ≡ f 0 =
        update_ne f 1 0 (record (f 1) { prev = p (suc m) }) (omega arith) in
      let again : h₁ (p 0) ≡ some (f 0) = g₁.node 0 (omega arith) ∙ ap some kept in
      let (h₂, e₂, g₂) = set_next-Holds g₁ (suc m) (p 1) (omega arith) in
      (h₂, rw (first, next, prev, e₁, again, prev, e₂) refl, (_, g₂, λ i hi. prev_first m p v i hi))

  unlink-Unlinked :
      (k : ℕ)
      → 0 < k
      → k ≤ suc m
      → (h : Heap) × (unlink l (p k) ≡ some (record l { nodes = h })) × Unlinked k h
  unfolding unlink
  unlink-Unlinked k hk hm =
      let n = suc (suc m) in
      let here = r.holds.node k (omega arith) in
      let prev : p (before (suc (suc m)) k) ≡ p (k - 1) = ap p (ground arith) in
      let a : ℕ = after n k in
      let inside : a < n = ground arith in
      let (h₁, e₁, g₁) = set_next-Holds r.holds (k - 1) (p a) (omega arith) in
      let kept : update f (k - 1) (record (f (k - 1)) { next = p a }) k ≡ f k =
        update_ne f (k - 1) k (record (f (k - 1)) { next = p a }) (omega arith) in
      let again : h₁ (p k) ≡ some (f k) = g₁.node k (omega arith) ∙ ap some kept in
      let (h₂, e₂, g₂) = set_prev-Holds g₁ a (p (k - 1)) inside in
      (
        h₂,
        rw (here, prev, e₁, again, prev, e₂) refl,
        (_, g₂, λ i hi. next_first m k p v i hi hk hm),
      )

-- What is left after the release of the node.
module _ (l : LinkedList) (n k : ℕ) (p v : ℕ → ℕ) (r : IsRing l (suc n) p v) (hk : k ≤ n)
    (small : suc n < 2 ^ 64) where
  Remains : LinkedList → Type 0
  Remains l' = IsRing l' n (λ i. p (skip k i)) (λ i. v (skip k i)) × (l'.nodes (p k) ≡ none)

  release-Remains :
      (h : Heap) (a : ℕ) (f' : ℕ → Node)
      → Holds h (suc n) p f'
      → ((i : ℕ) → i < n → f' (skip k i) ≡ link n (λ j. p (skip k j)) (λ j. v (skip k j)) i)
      → a ≡ (if n == 0 then 0 else p (skip k 0))
      → (l' : LinkedList) × (release (p k) (record { nodes = h; head = a; count = l.count })
          ≡ some (done, l'))
        × Remains l'
  unfolding release free_node Remains
  release-Remains h a f' g same start =
      let count : (l.count + (2 ^ 64 - 1)) % 2 ^ 64 ≡ n = rw r.size (omega arith) in
      (
        record { nodes = update h (p k) none; head = a; count = (l.count + (2 ^ 64 - 1)) % 2 ^ 64 },
        rw (g.node k (omega arith)) refl,
        (
          record {
            size = count;
            start = start;
            present = λ i hi. r.present (skip k i) (ground arith);
            holds = Holds-same (release-Holds g k hk) same;
          },
          update_self h (p k) none,
        ),
      )

  Deleted : Type 0
  Deleted = (l' : LinkedList) × (delete_node l (p k) ≡ some (done, l')) × Remains l'

-- The three ways to take the node out.
delete_only :
    (l : LinkedList) (p v : ℕ → ℕ) (r : IsRing l 1 p v)
    → Deleted l 0 0 p v r (omega arith) (omega arith)
unfolding delete_node Deleted
delete_only l p v r =
    let head : (l.head == p 0) ≡ true = (==_iff _ _).1 (IsRing-head r (omega arith)) in
    let one : (l.count == 1) ≡ true = (==_iff _ _).1 r.size in
    let (l', e, g) =
      release-Remains l 0 0 p v r (omega arith) (omega arith) l.nodes 0 (link 1 p v) r.holds
        (λ i hi. absurd (omega arith)) refl in
    (l', rw (head, one, e) refl, g)

module _ (l : LinkedList) (m : ℕ) (p v : ℕ → ℕ) (r : IsRing l (suc (suc m)) p v)
    (small : suc (suc m) < 2 ^ 64) where
  delete_head : Deleted l (suc m) 0 p v r (omega arith) small
  unfolding delete_node Deleted
  delete_head =
      let head : (l.head == p 0) ≡ true = (==_iff _ _).1 (IsRing-head r (omega arith)) in
      let several : (l.count == 1) ≡ false = ground (arith, r.size) in
      let (h, u, (f', g, same)) = unlink_head-Unlinked l m p v r in
      let (l', e, d) =
        release-Remains l (suc m) 0 p v r (omega arith) small h (p 1) f' g same (ground arith) in
      (l', rw (head, several, u, e) refl, d)

  delete_inner : (k : ℕ) (hk : 0 < k) (hm : k ≤ suc m) → Deleted l (suc m) k p v r hm small
  unfolding delete_node Deleted
  delete_inner k hk hm =
      let start = IsRing-head r (omega arith) in
      let apart : l.head ≢ p k = λ q.
        absurd (omega (arith, r.holds.apart 0 k (omega arith) (omega arith) (sym start ∙ q))) in
      let head : (l.head == p k) ≡ false = ground arith in
      let (h, u, (f', g, same)) = unlink-Unlinked l m p v r k hk hm in
      let (l', e, d) =
        release-Remains l (suc m) k p v r hm small h l.head f' g same (start ∙ ground arith) in
      (l', rw (head, u, e) refl, d)

-- On a list that is a ring of n + 1 nodes below 2^64, the deletion of the node at any index
-- succeeds, gives the ring of the others in their order, from the next node on where the head was
-- deleted, and frees the node.
pub linkedlist_delete-IsRing :
    (l : LinkedList) (n k : ℕ) (p v : ℕ → ℕ)
    → IsRing l (suc n) p v
    → k ≤ n
    → suc n < 2 ^ 64
    → (l' : LinkedList) × (linkedlist_delete (some l) (p k) ≡ some (done, some l'))
      × IsRing l' n (λ i. p (skip k i)) (λ i. v (skip k i))
      × (l'.nodes (p k) ≡ none)
unfolding linkedlist_delete Remains Deleted
linkedlist_delete-IsRing l n k p v r hk small =
    let node : (p k == 0) ≡ false = ground (arith, r.present k (omega arith)) in
    let (l', e, (g, freed)) = cases n k r hk small in (l', rw (node, e) refl, g, freed)
  where
    cases :
        (n k : ℕ) (r : IsRing l (suc n) p v) (hk : k ≤ n) (small : suc n < 2 ^ 64)
        → Deleted l n k p v r hk small
    cases zero zero r hk small = delete_only l p v r
    cases zero (suc k) r hk small = absurd (omega arith)
    cases (suc m) zero r hk small = delete_head l m p v r small
    cases (suc m) (suc k) r hk small = delete_inner l m p v r small (suc k) (omega arith) hk
