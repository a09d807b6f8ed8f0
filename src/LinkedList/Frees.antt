-- ===== src/LinkedList/Frees.antt =====
-- src/algorithm/linkedlist.c: `linkedlist_free` frees each node of the ring and nothing else. A
-- second release of a node would be a fault.
use csapp_stay.Prelude.{
  ℕ, zero, suc, ◌+◌, ◌≤◌, ◌<◌, ◌≡◌, ◌≢◌, false, refl, sym, ◌∙◌, ap, arith, none, some, ◌==◌,
  if◌then◌else◌, update, update_self, update_ne,
}
use native.Mathlib.Decide.{ℕ_discrete}
use csapp_stay.LinkedList.{Node, Heap, LinkedList, set_next, free_node, free_loop, linkedlist_free}
use csapp_stay.LinkedList.Rings.{before, link, IsRing, IsRing-head, write-Holds}

-- The address of the index i in a chain of n nodes, with NULL behind it.
abbrev chain : ℕ → (ℕ → ℕ) → ℕ → ℕ
chain n p i = if i == n then 0 else p i

module _ (n : ℕ) (p : ℕ → ℕ) (present : (i : ℕ) → i < n → p i ≢ 0)
    (apart : (i j : ℕ) → i < n → j < n → p i ≡ p j → i ≡ j) where
  -- The nodes from the index i on are there, each pointing to the next.
  abbrev Chain : ℕ → Heap → Type 0
  Chain i h =
      (k : ℕ)
      → i ≤ k
      → k < n
      → (node : Node) × (h (p k) ≡ some node) × (node.next ≡ chain n p (suc k))

  -- What the loop leaves of the heap.
  record Freed (i : ℕ) (h h' : Heap) : Type 0 where
    gone : (k : ℕ) → i ≤ k → k < n → h' (p k) ≡ none
    kept : (a : ℕ) → ((k : ℕ) → i ≤ k → k < n → p k ≢ a) → h' a ≡ h a

  free_loop-Freed :
      (fuel i : ℕ) (h : Heap)
      → i ≤ n
      → n < fuel + i
      → Chain i h
      → (h' : Heap) × (free_loop fuel h (chain n p i) ≡ some h') × Freed i h h'
  unfolding free_loop free_node
  free_loop-Freed zero i h hi hf c = absurd (omega arith)
  free_loop-Freed (suc fuel) i h hi hf c = elim (ℕ_discrete i n) [
    | yes e ↦
        let null : chain n p i ≡ 0 = ground arith in
        (
          h,
          rw null refl,
          record { gone = λ k ki kn. absurd (omega arith); kept = λ a others. refl },
        )
    | no e ↦
        let here : chain n p i ≡ p i = ground arith in
        let (node, at, next) = c i (omega arith) (omega arith) in
        let some_node : (p i == 0) ≡ false = ground (arith, present i (omega arith)) in
        let h₁ : Heap = update h (p i) none in
        let c₁ : Chain (suc i) h₁ = λ k ki kn.
          let (m, a, q) = c k (omega arith) kn in
          (m, update_ne h (p i) (p k) none (λ z. ne_of i k ki kn z) ∙ a, q) in
        let (h', r, f) = free_loop-Freed fuel (suc i) h₁ (omega arith) (omega arith) c₁ in
        (
          h',
          rw (here, some_node, at, next, r) refl,
          record {
            gone = λ k ki kn. elim (ℕ_discrete i k) [
              | yes q ↦
                  f.kept (p k) (λ j kj jn z. ne_of i j kj jn (ap p q ∙ sym z))
                  ∙ ap h₁ (ap p (sym q))
                  ∙ update_self h (p i) none
              | no q ↦ f.gone k (omega arith) kn
            ];
            kept = λ a others.
                f.kept a (λ k ki kn. others k (omega arith) kn)
                ∙ update_ne h (p i) a none (others i (omega arith) (omega arith));
          },
        )
  ]
    where
      ne_of : (i k : ℕ) → suc i ≤ k → k < n → p i ≢ p k
      ne_of i k ki kn z = absurd (omega (arith, apart i k (omega arith) kn z))

-- On a ring of n nodes with fuel above n, the release ends without a fault: the node of any index
-- is free afterwards, and an address that no node of the ring has is as before.
pub linkedlist_free-IsRing :
    (l : LinkedList) (n : ℕ) (p v : ℕ → ℕ) (fuel k a : ℕ)
    → IsRing l n p v
    → n < fuel
    → k < n
    → ((i : ℕ) → i < n → p i ≢ a)
    → (h : Heap) × (linkedlist_free fuel l ≡ some h) × (h (p k) ≡ none) × (h a ≡ l.nodes a)
unfolding linkedlist_free set_next
linkedlist_free-IsRing l zero p v fuel k a r hf hk others = absurd (omega arith)
linkedlist_free-IsRing l (suc m) p v fuel k a r hf hk others =
    let head = IsRing-head r (omega arith) in
    let some_head : (p 0 == 0) ≡ false = ground (arith, r.present 0 (omega arith)) in
    let first = r.holds.node 0 (omega arith) in
    let last : p (before (suc m) 0) ≡ p m = ap p (ground arith) in
    let end = r.holds.node m (omega arith) in
    let node : Node = record (link (suc m) p v m) { next = 0 } in
    let h₁ : Heap = update l.nodes (p m) (some node) in
    let g = write-Holds r.holds m node (omega arith) in
    let (h, e, f) =
      free_loop-Freed (suc m) p r.present r.holds.apart fuel 0 h₁ (omega arith) (omega arith)
        (λ j _ jn. (update (link (suc m) p v) m node j, g.node j jn, cut j jn)) in
    let start : chain (suc m) p 0 ≡ p 0 = ground arith in
    let e' : free_loop fuel h₁ (p 0) ≡ some h = rw start at e in
    (
      h,
      rw (head, some_head, first, last, end, e') refl,
      f.gone k (omega arith) hk,
      f.kept a (λ j _ jn. others j jn)
          ∙ update_ne l.nodes (p m) a (some node) (others m (omega arith)),
    )
  where
    cut :
        (j : ℕ)
        → j < suc m
        → (update (link (suc m) p v) m (record (link (suc m) p v m) { next = 0 }) j).next
          ≡ chain (suc m) p (suc j)
    cut j h = ground arith
