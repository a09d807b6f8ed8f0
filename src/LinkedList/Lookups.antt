-- ===== src/LinkedList/Lookups.antt =====
-- src/algorithm/linkedlist.c: `linkedlist_get` and `linkedlist_next` on a ring.
use csapp_stay.Prelude.{
  ℕ, zero, suc, ◌+◌, ◌≤◌, ◌<◌, ◌≡◌, ◌≢◌, true, false, refl, ◌∙◌, ap, arith, some, ◌==◌, ==_iff,
}
use native.Mathlib.Decide.{ℕ_discrete}
use csapp_stay.LinkedList.{LinkedList, returned, running, get_loop, linkedlist_get, linkedlist_next}
use csapp_stay.LinkedList.Rings.{after, before, link, IsRing, IsRing-head}

module _ (l : LinkedList) (n : ℕ) (p v : ℕ → ℕ) (r : IsRing l n p v) (x : ℕ) where
  -- One round of the loop, at a node with another value.
  get_loop-step :
      (fuel i : ℕ)
      → i < n
      → v i ≢ x
      → get_loop (suc fuel) l.nodes x (p i) ≡ get_loop fuel l.nodes x (p (after n i))
  unfolding get_loop
  get_loop-step fuel i h ne =
      let node : (p i == 0) ≡ false = ground (arith, r.present i h) in
      let other : (v i == x) ≡ false = ground arith in rw (node, r.holds.node i h, other) refl

  get_loop-hit :
      (fuel i : ℕ) → i < n → v i ≡ x → get_loop (suc fuel) l.nodes x (p i) ≡ returned (p i)
  unfolding get_loop
  get_loop-hit fuel i h e =
      let node : (p i == 0) ≡ false = ground (arith, r.present i h) in
      let same : (v i == x) ≡ true = (==_iff _ _).1 e in rw (node, r.holds.node i h, same) refl

  get_loop-first :
      (fuel i k : ℕ)
      → i ≤ k
      → k < n
      → v k ≡ x
      → ((j : ℕ) → j < k → v j ≢ x)
      → k < fuel + i
      → get_loop fuel l.nodes x (p i) ≡ returned (p k)
  get_loop-first zero i k hi hk e others f = absurd (omega arith)
  get_loop-first (suc fuel) i k hi hk e others f = elim (ℕ_discrete i k) [
    | yes q ↦ get_loop-hit fuel i (omega arith) (ap v q ∙ e) ∙ ap (λ j. returned (p j)) q
    | no q ↦
        get_loop-step fuel i (omega arith) (others i (omega arith))
        ∙ ap (λ j. get_loop fuel l.nodes x (p j)) (next i (omega arith))
        ∙ get_loop-first fuel (suc i) k (omega arith) hk e others (omega arith)
  ]
    where
      next : (i : ℕ) → suc i < n → after n i ≡ suc i
      next i h = ground arith

  get_loop-missing :
      (fuel i : ℕ) → i < n → ((j : ℕ) → j < n → v j ≢ x) → get_loop fuel l.nodes x (p i) ≡ running
  unfolding get_loop
  get_loop-missing zero i h missing = refl
  get_loop-missing (suc fuel) i h missing =
      get_loop-step fuel i h (missing i h)
      ∙ get_loop-missing fuel (after n i) (ground arith) missing

  head-some : 0 < n → (l.head == 0) ≡ false
  head-some h = ground (arith, IsRing-head r h, r.present 0 h)

-- A value of the ring is found at its first node, with a round for each node up to it.
pub linkedlist_get-first :
    (l : LinkedList) (n : ℕ) (p v : ℕ → ℕ) (fuel k : ℕ)
    → IsRing l n p v
    → k < n
    → ((j : ℕ) → j < k → v j ≢ v k)
    → k < fuel
    → linkedlist_get fuel l (v k) ≡ returned (p k)
unfolding linkedlist_get
linkedlist_get-first l n p v fuel k r h others f =
    rw (head-some l n p v r (v k) (omega arith), IsRing-head r (omega arith))
      (get_loop-first l n p v r (v k) fuel 0 k (omega arith) h refl others (omega arith))

-- In a ring of one or more nodes, the lookup of a value that no node has keeps running, whatever
-- the fuel.
pub linkedlist_get-missing :
    (l : LinkedList) (n : ℕ) (p v : ℕ → ℕ) (x fuel : ℕ)
    → IsRing l n p v
    → 0 < n
    → ((j : ℕ) → j < n → v j ≢ x)
    → linkedlist_get fuel l x ≡ running
unfolding linkedlist_get
linkedlist_get-missing l n p v x fuel r h missing =
    rw (head-some l n p v r x h, IsRing-head r h) (get_loop-missing l n p v r x fuel 0 h missing)

-- On a ring, linkedlist_next returns the node that was the head, and leaves the same ring turned
-- by one node.
pub linkedlist_next-IsRing :
    (l : LinkedList) (m : ℕ) (p v : ℕ → ℕ)
    → IsRing l (suc m) p v
    → (l' : LinkedList) × (linkedlist_next l ≡ some (p 0, l'))
      × IsRing l' (suc m) (λ i. p (after (suc m) i)) (λ i. v (after (suc m) i))
unfolding linkedlist_next
linkedlist_next-IsRing l m p v r =
    let n = suc m in
    let head = IsRing-head r (omega arith) in
    let first = r.holds.node 0 (omega arith) in
    let second = r.holds.node (after (suc m) 0) (ground arith) in
    let back : p (before (suc m) (after (suc m) 0)) ≡ p 0 = ap p (ground arith) in
    (
      record l { head = p (after (suc m) 0) },
      rw (head-some l n p v r 0 (omega arith), head, first, second, back) refl,
      record {
        size = r.size;
        start = ground arith;
        present = λ i h. r.present (after (suc m) i) (ground arith);
        holds = record {
          node = λ i h. r.holds.node (after (suc m) i) (ground arith) ∙ ap some (turned i h);
          apart = λ i j hi hj q.
              turn_inj i j hi hj
                (r.holds.apart (after (suc m) i) (after (suc m) j) (ground arith) (ground arith) q);
        };
      },
    )
  where
    turned :
        (i : ℕ)
        → i < suc m
        → link (suc m) p v (after (suc m) i)
          ≡ link (suc m) (λ j. p (after (suc m) j)) (λ j. v (after (suc m) j)) i
    turned i h = ground arith

    turn_inj : (i j : ℕ) → i < suc m → j < suc m → after (suc m) i ≡ after (suc m) j → i ≡ j
    turn_inj i j hi hj e = ground arith
