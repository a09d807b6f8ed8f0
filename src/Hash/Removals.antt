-- ===== src/Hash/Removals.antt =====
-- src/algorithm/hashtable.c: the pairs of a bucket without the deleted one. The last takes its place,
-- so the pairs that stay may be in another order.
use mathlib.Core.List.{Perm, perm_append_comm}
use mathlib.Core.List.Perm as Perm
use mathlib.Core.Path.{subst}
use csapp_stay.Prelude.{
  ℕ, suc, ◌≡◌, refl, ◌⊎◌, inl, inr, arith, Bool, none, some, List, [], ◌∷◌, ◌++◌, Bool-cases,
  Option-cases, length, same, same_iff, length-append,
}
use csapp_stay.Hash.{Pair, find, split_last, swap_last, delete_pair}
use csapp_stay.Hash.Pairs.{select, select-append, Homed}

split_last-none : (ps : List Pair) → split_last ps ≡ none → ps ≡ []
unfolding split_last
split_last-none [] e = refl
split_last-none (p ∷ ps) e = elim (Option-cases (split_last ps)) [
  | inl h ↦ let f : some (p, []) ≡ none = rw h at e in cc f
  | inr ((l, front), h) ↦ let f : some (l, p ∷ front) ≡ none = rw h at e in cc f
]

split_last-some :
    (ps : List Pair) (l : Pair) (front : List Pair)
    → split_last ps ≡ some (l, front)
    → ps ≡ front ++ l ∷ []
unfolding split_last
split_last-some [] l front e = cc
split_last-some (p ∷ ps) l front e = elim (Option-cases (split_last ps)) [
  | inl h ↦ let f : some (p, []) ≡ some (l, front) = rw h at e in rw (split_last-none ps h) (cc f)
  | inr ((m, rest), h) ↦
      let f : some (m, p ∷ rest) ≡ some (l, front) = rw h at e in
      rw (split_last-some ps m rest h) (cc f)
]

-- The last pair moved to the front.
pub swap_last-cases :
    (ps : List Pair)
    → ((ps ≡ []) × (swap_last ps ≡ []))
      ⊎ ((l : Pair) × (front : List Pair) × (ps ≡ front ++ l ∷ []) × (swap_last ps ≡ l ∷ front))
unfolding swap_last
swap_last-cases ps = elim (Option-cases (split_last ps)) [
  | inl h ↦ inl (split_last-none ps h, rw (swap_last, h) refl)
  | inr ((l, front), h) ↦ inr (l, front, split_last-some ps l front h, rw (swap_last, h) refl)
]

swap_last-perm :
    (test : List ℕ → Bool) (ps : List Pair) → Perm (select test ps) (select test (swap_last ps))
swap_last-perm test ps = elim (swap_last-cases ps) [
  | inl (e, f) ↦ rw (f, e) (Perm.refl _)
  | inr (l, front, e, f) ↦
      rw (f, e, select-append test front (l ∷ []), select-append test (l ∷ []) front)
        (perm_append_comm (select test front) (select test (l ∷ [])))
]

select-cons :
    (test : List ℕ → Bool) (p : Pair) (ps qs : List Pair)
    → Perm (select test ps) (select test qs)
    → Perm (select test (p ∷ ps)) (select test (p ∷ qs))
unfolding select
select-cons test p ps qs h = elim (Bool-cases (test p.key)) [
  | inl e ↦ rw e (Perm.cons p h)
  | inr e ↦ rw e h
]

select-swap :
    (test : List ℕ → Bool) (p q : Pair) (ps : List Pair)
    → Perm (select test (p ∷ q ∷ ps)) (select test (q ∷ p ∷ ps))
unfolding select
select-swap test p q ps = elim (Bool-cases (test p.key)) [
  | inl e ↦ elim (Bool-cases (test q.key)) [
    | inl f ↦ rw (e, f) (Perm.swap q p (select test ps))
    | inr f ↦ rw (e, f) (Perm.refl _)
  ]
  | inr e ↦ rw e (Perm.refl _)
]

-- The pair that was found, and the pairs that stay.
pub record Removed (key : List ℕ) (ps : List Pair) (p : Pair) (qs : List Pair) : Type 0 where
  pub matching : p.key ≡ key
  pub found : find key ps ≡ some p.val
  pub selected : (test : List ℕ → Bool) → Perm (select test ps) (select test (p ∷ qs))
  pub shorter : suc (length qs) ≡ length ps
  pub homed : (d i : ℕ) → Homed d i ps → Homed d i qs

length-swap_last : (ps : List Pair) → length (swap_last ps) ≡ length ps
length-swap_last ps = elim (swap_last-cases ps) [
  | inl (e, f) ↦ rw (f, e) refl
  | inr (l, front, e, f) ↦ rw (f, e) (omega (arith, length-append front (l ∷ [])))
]

Homed-append_last :
    (d i : ℕ) (ps : List Pair) (p : Pair) → Homed d i (ps ++ p ∷ []) → Homed d i (p ∷ ps)
Homed-append_last d i [] p h = h
Homed-append_last d i (q ∷ ps) p (a, h) = let (b, g) = Homed-append_last d i ps p h in (b, (a, g))

swap_last-Homed : (d i : ℕ) (ps : List Pair) → Homed d i ps → Homed d i (swap_last ps)
swap_last-Homed d i ps h = elim (swap_last-cases ps) [
  | inl (e, f) ↦ rw f tt
  | inr (l, front, e, f) ↦ rw f (Homed-append_last d i front l (subst (Homed d i) e h))
]

pub delete_pair-cases :
    (key : List ℕ) (ps : List Pair)
    → ((delete_pair key ps ≡ none) × (find key ps ≡ none))
      ⊎ ((p : Pair) × (qs : List Pair) × (delete_pair key ps ≡ some qs) × Removed key ps p qs)
unfolding delete_pair find
delete_pair-cases key [] = inl (refl, refl)
delete_pair-cases key (p ∷ ps) = elim (Bool-cases (same p.key key)) [
  | inl h ↦ inr (
    p,
    swap_last ps,
    rw h refl,
    record {
      matching = same_iff p.key key h;
      found = rw h refl;
      selected = λ test. select-cons test p ps (swap_last ps) (swap_last-perm test ps);
      shorter = omega (arith, length-swap_last ps);
      homed = λ d i g. swap_last-Homed d i ps g.1;
    },
  )
  | inr h ↦ elim (delete_pair-cases key ps) [
    | inl (e, f) ↦ inl (rw (h, e) refl, rw (h, f) refl)
    | inr (q, qs, e, r) ↦ inr (
      q,
      p ∷ qs,
      rw (h, e) refl,
      record {
        matching = r.matching;
        found = rw h r.found;
        selected = λ test.
            Perm.trans (select-cons test p ps (q ∷ qs) (r.selected test)) (select-swap test p q qs);
        shorter = omega (arith, r.shorter);
        homed = λ d i g. (g.0, r.homed d i g.1);
      },
    )
  ]
]
