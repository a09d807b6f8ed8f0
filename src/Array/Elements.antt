-- ===== src/Array/Elements.antt =====
-- src/algorithm/Dynamic_array.c: what the operations do to the elements.
use mathlib.Core.Path.{subst}
use mathlib.Core.Option.{some_inj}
use csapp_stay.Prelude.{
  ℕ, zero, suc, ◌+◌, ◌-◌, ◌*◌, ◌%◌, ◌^◌, ◌≤◌, ◌<◌, ◌≡◌, ◌⊎◌, refl, sym, ◌∙◌, ap, arith, true, false,
  some, ◌==◌, ltb, leb, ◌||◌, update, update_self, update_ne, Bool-cases, inl, inr, ==_iff,
}
use csapp_stay.Array.{
  Array, copy_table, grow, array_insert, shift_left, shrink, array_delete, array_get,
}

copy_table-at :
    (n i : ℕ) (old new : ℕ → ℕ) (k : ℕ)
    → k < i + n
    → (k < i → new k ≡ old k)
    → copy_table n i old new k ≡ old k
unfolding copy_table
copy_table-at zero i old new k l h = h (omega arith)
copy_table-at (suc n) i old new k l h = copy_table-at n (i + 1) old _ k (omega arith) (λ b.
    elim (Bool-cases (i == k)) [
      | inl e ↦ let at : i ≡ k = (==_iff i k).0 e in rw at (ground arith)
      | inr e ↦ ground (arith, h)
    ])

-- There is room, and doubling does not wrap.
pub record IsArray (arr : Array) : Type 0 where
  pub fits : arr.count ≤ arr.size
  pub room : 0 < arr.size
  pub small : arr.size < 2 ^ 31

-- The array before the new element is stored.
record Roomy (arr g : Array) : Type 0 where
  same_count : g.count ≡ arr.count
  free : g.count < g.size
  kept : (k : ℕ) → k < arr.count → g.table k ≡ arr.table k

grow-Roomy : (block : ℕ → ℕ) (arr : Array) → IsArray arr → Roomy arr (grow block arr)
unfolding grow
grow-Roomy block arr h = elim (Bool-cases (arr.count == arr.size)) [
  | inl e ↦
      let q : arr.count ≡ arr.size = (==_iff arr.count arr.size).0 e in
      let doubled : Array = record {
        size = arr.size * 2 % 2 ^ 32;
        count = arr.count;
        table = copy_table arr.count 0 arr.table block;
      } in
      let r : Roomy arr doubled = record {
        same_count = refl;
        free = omega (arith, q, h.room, h.small);
        kept = λ k l.
            copy_table-at arr.count 0 arr.table block k (omega arith) (λ b. absurd (omega arith));
      } in
      let step : grow block arr ≡ doubled = rw (grow, e) refl in subst (Roomy arr) (sym step) r
  | inr e ↦
      let r : Roomy arr arr = record {
        same_count = refl;
        free = ground (arith, e, h.fits);
        kept = λ k l. refl;
      } in
      let step : grow block arr ≡ arr = rw (grow, e) refl in subst (Roomy arr) (sym step) r
]

got :
    {arr : Array} (val k : ℕ)
    → k < arr.count
    → (g : Array) → Roomy arr g
    → array_get (record g { table = update g.table g.count val; count = g.count + 1 }) k
      ≡ array_get arr k
unfolding array_get
got val k l g r = let q = r.kept k l in ground (arith, r.same_count, q)

last :
    {arr : Array} (val : ℕ) (g : Array)
    → Roomy arr g
    → array_get (record g { table = update g.table g.count val; count = g.count + 1 }) arr.count
      ≡ some val
unfolding array_get
last val g r = ground (arith, r.same_count)

-- Insertion into an array with a block that its elements fit in, whose size is positive and below
-- 2^31, succeeds whatever malloc returns: one element more, which fits, the old elements as they
-- were, and the new one after them.
pub array_insert-IsArray :
    (block : ℕ → ℕ) (arr : Array) (val : ℕ)
    → IsArray arr
    → (arr' : Array) × (array_insert block arr val ≡ some arr')
      × (arr'.count ≡ arr.count + 1)
      × (arr'.count ≤ arr'.size)
      × ((k : ℕ) → k < arr.count → array_get arr' k ≡ array_get arr k)
      × (array_get arr' arr.count ≡ some val)
unfolding array_insert array_get
array_insert-IsArray block arr val h =
    let g = grow block arr in
    let r = grow-Roomy block arr h in
    let e : ltb g.count g.size ≡ true = ground (arith, r.free) in
    (
      record g { table = update g.table g.count val; count = g.count + 1 },
      rw (array_insert, e) refl,
      omega (arith, r.same_count),
      omega (arith, r.free),
      λ k l. got val k l (grow block arr) r,
      last val (grow block arr) r,
    )

shift_left-at :
    (n i : ℕ) (table : ℕ → ℕ)
    → (t : ℕ → ℕ) × (shift_left n (suc i) table ≡ some t)
      × ((k : ℕ) → k < i → t k ≡ table k)
      × ((k : ℕ) → i ≤ k → k < i + n → t k ≡ table (suc k))
      × ((k : ℕ) → i + n ≤ k → t k ≡ table k)
unfolding shift_left
shift_left-at zero i table =
    (table, refl, (λ k l. refl), (λ k l b. absurd (omega arith)), λ k l. refl)
shift_left-at (suc n) i table =
    let (t, e, a, b, c) = shift_left-at n (suc i) (update table i (table (suc i))) in
    (
      t,
      e,
      λ k l. a k (omega arith) ∙ update_ne table i k (table (suc i)) (λ q. absurd (omega arith)),
      λ k l h. elim (Bool-cases (i == k)) [
        | inl q ↦
            let at : i ≡ k = (==_iff i k).0 q in
            a k (omega arith) ∙ rw at (update_self table k (table (suc k)))
        | inr q ↦
            b k (ground arith) (omega arith)
            ∙ update_ne table i (suc k) (table (suc i)) (λ z. absurd (omega arith))
      ],
      λ k l. c k (omega arith) ∙ update_ne table i k (table (suc i)) (λ q. absurd (omega arith)),
    )

-- In an array with a block that its elements fit in, whose size is positive and below 2^31,
-- deleting a positive index below the count succeeds and removes the element before that index,
-- not the one at it: the elements from there on move down by one, those before are as they were,
-- and the rest still fits the block.
pub array_delete-before :
    (arr : Array) (i : ℕ)
    → IsArray arr
    → suc i < arr.count
    → (arr' : Array) × (array_delete arr (suc i) ≡ some (arr', 1))
      × (arr'.count + 1 ≡ arr.count)
      × (arr'.count ≤ arr'.size)
      × ((k : ℕ) → k < i → array_get arr' k ≡ array_get arr k)
      × ((k : ℕ) → i ≤ k → k < arr'.count → array_get arr' k ≡ array_get arr (suc k))
unfolding array_delete array_get shrink
array_delete-before arr i h l =
    let (t, e, a, b, _) = shift_left-at (arr.count - suc i) i arr.table in
    let d : (leb (2 ^ 31) (suc i) || ltb arr.count (suc i)) ≡ false =
      ground (arith, l, h.fits, h.small) in
    (
      shrink arr t,
      rw (array_delete, d, e) refl,
      omega (arith, h.fits, h.small),
      ground (arith, h.fits, h.small),
      (λ k lo. let q = a k lo in ground (arith, l, h.fits, h.small)),
      λ k lo hi.
          let q = b k lo (omega (arith, h.fits, h.small)) in ground (arith, l, h.fits, h.small),
    )

-- The size after an insertion: as before, or twice the count.
pub array_insert-size :
    (block : ℕ → ℕ) (arr arr' : Array) (val : ℕ)
    → IsArray arr
    → array_insert block arr val ≡ some arr'
    → (arr'.size ≡ arr.size) ⊎ ((arr.count ≡ arr.size) × (arr'.size ≡ arr.size * 2))
unfolding array_insert grow
array_insert-size block arr arr' val h e = elim (Bool-cases (arr.count == arr.size)) [
  | inl q ↦
      let full : arr.count ≡ arr.size = (==_iff _ _).0 q in
      let room : ltb arr.count (arr.size * 2 % 2 ^ 32) ≡ true =
        ground (arith, full, h.room, h.small) in
      inr (full, sym (ap (λ a. a.size) (some_inj.0 (rw (q, room) at e))) ∙ omega (arith, h.small))
  | inr q ↦
      let room : ltb arr.count arr.size ≡ true = ground (arith, q, h.fits) in
      inl (sym (ap (λ a. a.size) (some_inj.0 (rw (q, room) at e))))
]
