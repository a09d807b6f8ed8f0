-- ===== src/Linker/Symbols/Rules.antt =====
-- src/linker/staticlink.c: the precedence of symbols and the choice between two.
use mathlib.Core.Path.{subst}
use mathlib.Core.Option.{some_inj}
use csapp_stay.Prelude.{
  ℕ, ◌≤◌, ◌≡◌, ◌≢◌, refl, sym, ◌∙◌, ◌⊎◌, inl, inr, arith, true, Option, none, some, Bool-cases,
  if◌then◌else◌, ltb,
}
use csapp_stay.Linker.Symbols.{
  Symbol, Entry, is_global, symbol_precedence, choose, choose_some, simple_resolution,
}

-- The precedence, or 0 for a symbol that has none.
pub rank : Symbol → ℕ
rank s = elim (symbol_precedence s) [ none ↦ 0 | some p ↦ p ]

pub symbol_precedence-bound : (s : Symbol) (p : ℕ) → symbol_precedence s ≡ some p → p ≤ 2
unfolding symbol_precedence
symbol_precedence-bound s p e = ground arith

pub choose_lem :
    (p q : ℕ) (s k : Entry)
    → p ≤ 2
    → q ≤ 2
    → ((p ≡ 2) × (q ≡ 2) × (choose p q s k ≡ none))
      ⊎ (((p ≢ 2) ⊎ (q ≢ 2)) × (choose p q s k ≡ some (if ltb q p then s else k)))
unfolding choose
choose_lem p q s k hp hq = ground arith

-- A global entry of the same name whose precedence is no lower.
pub record Covers (s k : Entry) : Type 0 where
  pub global : is_global k.src.bind ≡ true
  pub name : k.src.st_name ≡ s.src.st_name
  pub high : rank s.src ≤ rank k.src

pub Covers-refl : (s : Entry) → is_global s.src.bind ≡ true → Covers s s
Covers-refl s g = record { global = g; name = refl; high = omega arith }

pub Covers-trans : {s k l : Entry} → Covers s k → Covers k l → Covers s l
Covers-trans h g = record {
  global = g.global;
  name = g.name ∙ h.name;
  high = omega (arith, h.high, g.high);
}

rank-some : (s : Symbol) (p : ℕ) → symbol_precedence s ≡ some p → rank s ≡ p
unfolding rank
rank-some s p e = rw (rank, e) refl

chosen :
    (o o' : Option ℕ) (s k k' : Entry)
    → symbol_precedence s.src ≡ o
    → symbol_precedence k.src ≡ o'
    → choose_some o o' s k ≡ some k'
    → ((k' ≡ s) × (rank k.src ≤ rank s.src)) ⊎ ((k' ≡ k) × (rank s.src ≤ rank k.src))
unfolding choose_some
chosen none o' s k k' e e' h = cc
chosen (some p) none s k k' e e' h = cc
chosen (some p) (some q) s k k' e e' h =
    let b = symbol_precedence-bound s.src p e in
    let b' = symbol_precedence-bound k.src q e' in
    let r = rank-some s.src p e in
    let r' = rank-some k.src q e' in
    elim (choose_lem p q s k b b') [
      | inl (_, _, n) ↦ cc
      | inr (_, c) ↦ elim (Bool-cases (ltb q p)) [
        | inl l ↦
            let f : k' ≡ s = some_inj.0 (sym h ∙ c ∙ rw l refl) in inl (f, ground (arith, r, r', l))
        | inr l ↦
            let f : k' ≡ k = some_inj.0 (sym h ∙ c ∙ rw l refl) in inr (f, ground (arith, r, r', l))
      ]
    ]

-- The entry that is kept is one of the two, and covers both.
pub simple_resolution-Covers :
    (s k k' : Entry)
    → is_global s.src.bind ≡ true
    → is_global k.src.bind ≡ true
    → k.src.st_name ≡ s.src.st_name
    → simple_resolution s k ≡ some k'
    → ((k' ≡ s) ⊎ (k' ≡ k)) × Covers s k' × Covers k k'
unfolding simple_resolution
simple_resolution-Covers s k k' g g' n e = elim (chosen _ _ s k k' refl refl e) [
  | inl (f, l) ↦ (
    inl f,
    subst (Covers s) (sym f) (Covers-refl s g),
    subst (Covers k) (sym f) (record { global = g; name = sym n; high = l }),
  )
  | inr (f, l) ↦ (
    inr f,
    subst (Covers s) (sym f) (record { global = g'; name = n; high = l }),
    subst (Covers k) (sym f) (Covers-refl k g'),
  )
]

-- Two symbols with a precedence, not both defined, resolve.
pub simple_resolution-some :
    (s k : Entry) (p q : ℕ)
    → symbol_precedence s.src ≡ some p
    → symbol_precedence k.src ≡ some q
    → (p ≢ 2) ⊎ (q ≢ 2)
    → (k' : Entry) × (simple_resolution s k ≡ some k')
unfolding simple_resolution
simple_resolution-some s k p q e e' h =
    elim (choose_lem p q s k (symbol_precedence-bound s.src p e)
      (symbol_precedence-bound k.src q e')) [
        | inl (a, b, _) ↦ absurd (omega (arith, h))
        | inr (_, c) ↦ (if ltb q p then s else k, rw (e, e') c)
      ]
