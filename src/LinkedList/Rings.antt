-- ===== src/LinkedList/Rings.antt =====
-- src/algorithm/linkedlist.c: a heap that holds a ring of nodes, and the writes to it. A sequence of
-- addresses and one of values stand for the nodes, from the head on.
use mathlib.Core.Path.{subst}
use csapp_stay.Prelude.{
  ℕ, suc, ◌-◌, ◌≤◌, ◌<◌, ◌≡◌, ◌≢◌, refl, sym, ◌∙◌, ap, arith, Option, none, some, ◌==◌,
  if◌then◌else◌, ltb, update, update_self, update_ne,
}
use native.Mathlib.Decide.{ℕ_discrete}
use csapp_stay.LinkedList.{Node, Heap, LinkedList, set_next, set_prev, linkedlist_construct}

-- The neighbours of the index i in a ring of n nodes.
abbrev pub after : ℕ → ℕ → ℕ
after n i = if suc i == n then 0 else suc i

abbrev pub before : ℕ → ℕ → ℕ
before n i = if i == 0 then n - 1 else i - 1

abbrev pub link : ℕ → (ℕ → ℕ) → (ℕ → ℕ) → ℕ → Node
link n p v i = record { value = v i; next = p (after n i); prev = p (before n i) }

-- The nodes, or the contents of another heap, at the first n addresses, which are apart.
pub record Holds {A : Type 0} (h : ℕ → Option A) (n : ℕ) (p : ℕ → ℕ) (f : ℕ → A) : Type 0 where
  pub node : (i : ℕ) → i < n → h (p i) ≡ some (f i)
  pub apart : (i j : ℕ) → i < n → j < n → p i ≡ p j → i ≡ j

pub record IsRing (l : LinkedList) (n : ℕ) (p v : ℕ → ℕ) : Type 0 where
  pub size : l.count ≡ n
  pub start : l.head ≡ (if n == 0 then 0 else p 0)
  pub present : (i : ℕ) → i < n → p i ≢ 0
  pub holds : Holds l.nodes n p (link n p v)

module _ {A : Type 0} {h : ℕ → Option A} {n : ℕ} {p : ℕ → ℕ} {f : ℕ → A} (g : Holds h n p f) where
  -- A write of a whole cell.
  pub write-Holds : (k : ℕ) (x : A) → k < n → Holds (update h (p k) (some x)) n p (update f k x)
  write-Holds k x hk = record {
    node = λ i hi. elim (ℕ_discrete k i) [
      | yes e ↦
          subst (λ j. update h (p k) (some x) (p j) ≡ some (update f k x j)) e
            (update_self h (p k) (some x) ∙ ap some (sym (update_self f k x)))
      | no e ↦
          update_ne h (p k) (p i) (some x) (λ q. e (g.apart k i hk hi q))
          ∙ g.node i hi
          ∙ ap some (sym (update_ne f k i x e))
    ];
    apart = g.apart;
  }

  -- A new node at the end.
  pub extend-Holds :
      (b : ℕ) (x : A)
      → ((i : ℕ) → i < n → p i ≢ b)
      → Holds (update h b (some x)) (suc n) (update p n b) (update f n x)
  extend-Holds b x new = record {
    node = λ i hi. elim (ℕ_discrete n i) [
      | yes e ↦
          subst (λ j. update h b (some x) (update p n b j) ≡ some (update f n x j)) e
            (rw (update_self p n b, update_self f n x) (update_self h b (some x)))
      | no e ↦
          rw (update_ne p n i b e, update_ne f n i x e)
            (update_ne h b (p i) (some x) (λ q. new i (omega arith) (sym q))
              ∙ g.node i (omega arith))
    ];
    apart = apart_too;
  }
    where
      apart_too : (i j : ℕ) → i < suc n → j < suc n → update p n b i ≡ update p n b j → i ≡ j
      apart_too i j hi hj q = elim (ℕ_discrete n i) [
        | yes e ↦ elim (ℕ_discrete n j) [
          | yes e' ↦ sym e ∙ e'
          | no e' ↦ absurd (
              new j (omega arith) (
                sym (update_ne p n j b e') ∙ sym q ∙ ap (update p n b) (sym e) ∙ update_self p n b))
        ]
        | no e ↦ elim (ℕ_discrete n j) [
          | yes e' ↦ absurd (
              new i (omega arith)
                (sym (update_ne p n i b e) ∙ q ∙ ap (update p n b) (sym e') ∙ update_self p n b))
          | no e' ↦
              g.apart i j (omega arith) (omega arith)
                (sym (update_ne p n i b e) ∙ q ∙ update_ne p n j b e')
        ]
      ]

module _ {h : Heap} {n : ℕ} {p : ℕ → ℕ} {f : ℕ → Node} (g : Holds h n p f) where
  pub set_next-Holds :
      (k x : ℕ)
      → k < n
      → (h' : Heap) × (set_next h (p k) x ≡ some h')
        × Holds h' n p (update f k (record (f k) { next = x }))
  unfolding set_next
  set_next-Holds k x hk = (
    update h (p k) (some (record (f k) { next = x })),
    rw (g.node k hk) refl,
    write-Holds g k (record (f k) { next = x }) hk,
  )

  pub set_prev-Holds :
      (k x : ℕ)
      → k < n
      → (h' : Heap) × (set_prev h (p k) x ≡ some h')
        × Holds h' n p (update f k (record (f k) { prev = x }))
  unfolding set_prev
  set_prev-Holds k x hk = (
    update h (p k) (some (record (f k) { prev = x })),
    rw (g.node k hk) refl,
    write-Holds g k (record (f k) { prev = x }) hk,
  )

-- The indices of a ring without the index k.
abbrev pub skip : ℕ → ℕ → ℕ
skip k i = if ltb i k then i else suc i

skip_inj : (k i j : ℕ) → skip k i ≡ skip k j → i ≡ j
skip_inj k i j e = ground arith

skip_ne : (k i : ℕ) → k ≢ skip k i
skip_ne k i e = ground arith

skip-lt : (k i n : ℕ) → k ≤ n → i < n → skip k i < suc n
skip-lt k i n hk hi = ground arith

pub release-Holds :
    {A : Type 0} {h : ℕ → Option A} {n : ℕ} {p : ℕ → ℕ} {f : ℕ → A} (g : Holds h (suc n) p f)
    (k : ℕ)
    → k ≤ n
    → Holds (update h (p k) none) n (λ i. p (skip k i)) (λ i. f (skip k i))
release-Holds {h} {n} {p} {f} g k hk = record {
  node = λ i hi.
      update_ne h (p k) (p (skip k i)) none
        (λ q. skip_ne k i (g.apart k (skip k i) (omega arith) (skip-lt k i n hk hi) q))
      ∙ g.node (skip k i) (skip-lt k i n hk hi);
  apart = λ i j hi hj q.
      skip_inj k i j (g.apart (skip k i) (skip k j) (skip-lt k i n hk hi) (skip-lt k j n hk hj) q);
}

-- The same nodes written in another way.
pub Holds-same :
    {A : Type 0} {h : ℕ → Option A} {n : ℕ} {p : ℕ → ℕ} {f f' : ℕ → A}
    → Holds h n p f
    → ((i : ℕ) → i < n → f i ≡ f' i)
    → Holds h n p f'
Holds-same g e = record { node = λ i hi. g.node i hi ∙ ap some (e i hi); apart = g.apart }

pub IsRing-head : {l : LinkedList} {n : ℕ} {p v : ℕ → ℕ} → IsRing l n p v → 0 < n → l.head ≡ p 0
IsRing-head {l} {n} {p} r h = r.start ∙ ground arith

pub linkedlist_construct-IsRing : (h : Heap) (p v : ℕ → ℕ) → IsRing (linkedlist_construct h) 0 p v
unfolding linkedlist_construct
linkedlist_construct-IsRing h p v = record {
  size = refl;
  start = refl;
  present = λ i h. absurd (omega arith);
  holds = record { node = λ i h. absurd (omega arith); apart = λ i j h. absurd (omega arith) };
}

-- The same ring written in another way.
pub Holds-along :
    {A : Type 0} {h : ℕ → Option A} {n m : ℕ} {p : ℕ → ℕ} {f : ℕ → A} (g : Holds h n p f)
    (s : ℕ → ℕ)
    → ((i : ℕ) → i < m → s i < n)
    → ((i j : ℕ) → i < m → j < m → s i ≡ s j → i ≡ j)
    → Holds h m (λ i. p (s i)) (λ i. f (s i))
Holds-along g s within inj = record {
  node = λ i h. g.node (s i) (within i h);
  apart = λ i j hi hj e. inj i j hi hj (g.apart (s i) (s j) (within i hi) (within j hj) e);
}

pub Holds-turned :
    {A : Type 0} {h : ℕ → Option A} {n : ℕ} (p : ℕ → ℕ) (f : ℕ → A) (s s' : ℕ → ℕ)
    → Holds h n (λ i. p (s i)) (λ i. f (s i))
    → ((i : ℕ) → i < n → s i ≡ s' i)
    → Holds h n (λ i. p (s' i)) (λ i. f (s' i))
Holds-turned {h} p f s s' g e = record {
  node = λ i hi. ap (λ a. h (p a)) (sym (e i hi)) ∙ g.node i hi ∙ ap (λ a. some (f a)) (e i hi);
  apart = λ i j hi hj q. g.apart i j hi hj (ap p (e i hi) ∙ q ∙ ap p (sym (e j hj)));
}

pub IsRing-same :
    {l : LinkedList} {n : ℕ} (p v s s' : ℕ → ℕ)
    → IsRing l n (λ i. p (s i)) (λ i. v (s i))
    → ((i : ℕ) → i < n → s i ≡ s' i)
    → IsRing l n (λ i. p (s' i)) (λ i. v (s' i))
IsRing-same {l} {n} p v s s' r e = record {
  size = r.size;
  start = r.start ∙ ground (arith, e 0);
  present = λ i h q. r.present i h (ap p (e i h) ∙ q);
  holds = record {
    node =
        λ i h. ap (λ a. l.nodes (p a)) (sym (e i h)) ∙ r.holds.node i h ∙ ap some (same_link i h);
    apart = λ i j hi hj q. r.holds.apart i j hi hj (ap p (e i hi) ∙ q ∙ ap p (sym (e j hj)));
  };
}
  where
    same_link :
        (i : ℕ)
        → i < n
        → link n (λ j. p (s j)) (λ j. v (s j)) i ≡ link n (λ j. p (s' j)) (λ j. v (s' j)) i
    same_link i h = rw (e i h, e (after n i) (ground arith), e (before n i) (ground arith)) refl
