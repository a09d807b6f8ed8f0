-- ===== src/LinkedList/Adds.antt =====
-- src/algorithm/linkedlist.c: `linkedlist_add` puts a node at the end of the ring.
use csapp_stay.Prelude.{
  ℕ, zero, suc, ◌+◌, ◌^◌, ◌%◌, ◌<◌, ◌≡◌, ◌≢◌, false, refl, sym, ◌∙◌, ap, arith, some, ◌==◌, update,
  update_self, update_ne,
}
use native.Mathlib.Decide.{ℕ_discrete}
use csapp_stay.LinkedList.{
  Node, LinkedList, done, set_next, set_prev, add_first, add_last, linkedlist_add,
}
use csapp_stay.LinkedList.Rings.{
  before, link, IsRing, set_next-Holds, set_prev-Holds, extend-Holds, Holds-same, IsRing-head,
}

-- The nodes after the two writes are those of the longer ring.
relinked :
    (m : ℕ) (p v : ℕ → ℕ) (b x i : ℕ)
    → i < suc (suc m)
    → (let n = suc m in
        let node : Node = record { value = x; next = p 0; prev = p m } in
        let f₁ = update (link n p v) n node in
        let f₂ = update f₁ 0 (record (f₁ 0) { prev = b }) in
        update f₂ m (record (f₂ m) { next = b }) i ≡ link (suc n) (update p n b) (update v n x) i)
relinked m p v b x i h = ground arith

-- What the caller of the insertion relies on.
module _ (l : LinkedList) (n : ℕ) (p v : ℕ → ℕ) (r : IsRing l n p v) (b x : ℕ) (used : b ≢ 0)
    (new : (i : ℕ) → i < n → p i ≢ b) (small : suc n < 2 ^ 64) where
  counted : (l.count + 1) % 2 ^ 64 ≡ suc n
  counted = rw r.size (omega arith)

  present-update : (i : ℕ) → i < suc n → update p n b i ≢ 0
  present-update i h e = elim (ℕ_discrete n i) [
    | yes q ↦ used (sym (update_self p n b) ∙ ap (update p n b) q ∙ e)
    | no q ↦ r.present i (omega arith) (sym (update_ne p n i b q) ∙ e)
  ]

  add_first-IsRing : n ≡ 0 → IsRing (add_first b l x) (suc n) (update p n b) (update v n x)
  unfolding add_first
  add_first-IsRing e =
      let node : Node = record { value = x; next = b; prev = b } in
      record {
        size = counted;
        start = rw e refl;
        present = present-update;
        holds = Holds-same (extend-Holds r.holds b node new) (λ i h. alone i h);
      }
    where
      alone :
          (i : ℕ)
          → i < suc n
          → update (link n p v) n (record { value = x; next = b; prev = b }) i
            ≡ link (suc n) (update p n b) (update v n x) i
      alone i h = ground arith

module _ (l : LinkedList) (m : ℕ) (p v : ℕ → ℕ) (r : IsRing l (suc m) p v) (b x : ℕ) (used : b ≢ 0)
    (new : (i : ℕ) → i < suc m → p i ≢ b) (small : suc (suc m) < 2 ^ 64) where
  add_last-IsRing :
      (l' : LinkedList) × (add_last b l x ≡ some l')
      × IsRing l' (suc (suc m)) (update p (suc m) b) (update v (suc m) x)
  unfolding add_last
  add_last-IsRing =
      let n = suc m in
      let node : Node = record { value = x; next = p 0; prev = p m } in
      let head : l.head ≡ p 0 = IsRing-head r (omega arith) in
      let first : l.nodes (p 0) ≡ some (link n p v 0) = r.holds.node 0 (omega arith) in
      let last : p (before (suc m) 0) ≡ p m = ap p (ground arith) in
      let g = extend-Holds r.holds b node new in
      let (h₂, e₂, g₂) = set_prev-Holds g 0 b (omega arith) in
      let (h₃, e₃, g₃) = set_next-Holds g₂ m b (omega arith) in
      let q₀ : update p n b 0 ≡ p 0 = update_ne p n 0 b (omega arith) in
      let qₘ : update p n b m ≡ p m = update_ne p n m b (omega arith) in
      let e₂' : set_prev (update l.nodes b (some node)) (p 0) b ≡ some h₂ = rw q₀ at e₂ in
      let e₃' : set_next h₂ (p m) b ≡ some h₃ = rw qₘ at e₃ in
      let list : LinkedList = record {
        nodes = h₃;
        head = l.head;
        count = (l.count + 1) % 2 ^ 64;
      } in
      (
        list,
        rw (head, first, last, e₂', e₃') refl,
        record {
          size = counted l n p v r b x used new small;
          start = head ∙ ground arith;
          present = present-update l n p v r b x used new small;
          holds = Holds-same g₃ (λ i h. relinked m p v b x i h);
        },
      )

-- On a list that is a ring of n nodes, with n + 1 below 2^64, and an address from malloc that is
-- not NULL and that no node has, the insertion succeeds and gives the ring with the new node and
-- value at its end: each node points to the one after it and to the one before it, all around.
pub linkedlist_add-IsRing :
    (l : LinkedList) (n : ℕ) (p v : ℕ → ℕ) (b x : ℕ)
    → IsRing l n p v
    → b ≢ 0
    → ((i : ℕ) → i < n → p i ≢ b)
    → suc n < 2 ^ 64
    → (l' : LinkedList) × (linkedlist_add b (some l) x ≡ some (done, some l'))
      × IsRing l' (suc n) (update p n b) (update v n x)
unfolding linkedlist_add
linkedlist_add-IsRing l zero p v b x r used new small =
    (add_first b l x, rw r.size refl, add_first-IsRing l 0 p v r b x used new small refl)
linkedlist_add-IsRing l (suc m) p v b x r used new small =
    let (l', e, g) = add_last-IsRing l m p v r b x used new small in
    let some_count : (l.count == 0) ≡ false = ground (arith, r.size) in
    (l', rw (some_count, e) refl, g)
