-- ===== src/Linker/Symbols/Totals.antt =====
-- src/linker/staticlink.c: when one symbol is taken into the map without a failure.
use mathlib.Core.Path.{subst}
use csapp_stay.Prelude.{
  ℕ, suc, ◌+◌, ◌≤◌, ◌<◌, ◌≡◌, ◌≢◌, refl, sym, ap, ◌∙◌, ◌⊎◌, inl, inr, arith, true, Option, some,
  List, [], ◌∷◌, ◌++◌, Bool-cases, ltb, length, length-append,
}
use csapp_stay.Linker.Symbols.{
  Entry, Bind, stb_local, stb_global, stb_weak, is_global, symbol_precedence, simple_resolution,
  conflicts, Search, absent, failed, replaced, replace, keep, search_conflict, insert_symbol,
  resolved, process_symbol,
}
use csapp_stay.Linker.Symbols.Rules.{simple_resolution-some, simple_resolution-Covers}
use csapp_stay.Linker.Symbols.Maps.{conflicts_iff, Replaced, here, there, search_conflict-Replaced}

abbrev pub All {ℓ} : (Entry → Type ℓ) → List Entry → Type ℓ
All P [] = Unit
All P (k ∷ ks) = P k × All P ks

-- A global symbol has a precedence.
abbrev pub IsRanked : Entry → Type 0
IsRanked k = is_global k.src.bind ≡ true → (p : ℕ) × (symbol_precedence k.src ≡ some p)

-- Not two definitions of one global name.
abbrev pub Compatible : Entry → Entry → Type 0
Compatible s k =
    is_global s.src.bind ≡ true
    → is_global k.src.bind ≡ true
    → k.src.st_name ≡ s.src.st_name
    → (symbol_precedence s.src ≢ some 2) ⊎ (symbol_precedence k.src ≢ some 2)

not_two : (o : Option ℕ) (p : ℕ) → o ≡ some p → o ≢ some 2 → p ≢ 2
not_two o p e h q = h (e ∙ ap some q)

resolves :
    (s k : Entry)
    → IsRanked s
    → IsRanked k
    → Compatible s k
    → is_global s.src.bind ≡ true
    → conflicts s k ≡ true
    → (k' : Entry) × (simple_resolution s k ≡ some k')
resolves s k rs rk c g e =
    let (gk, n) = conflicts_iff s k e in
    let (p, ep) = rs g in
    let (q, eq) = rk gk in
    simple_resolution-some s k p q ep eq
      (elim (c g gk n) [ inl h ↦ inl (not_two _ p ep h) | inr h ↦ inr (not_two _ q eq h) ])

keep-failed : (k : Entry) (r : Search) → keep k r ≡ failed → r ≡ failed
unfolding keep
keep-failed k absent e = cc
keep-failed k failed e = refl
keep-failed k (replaced ks) e = cc

search_conflict-succeeds :
    (s : Entry) (ks : List Entry)
    → is_global s.src.bind ≡ true
    → IsRanked s
    → All IsRanked ks
    → All (Compatible s) ks
    → search_conflict s ks ≢ failed
unfolding search_conflict replace
search_conflict-succeeds s [] g rs rk c e = cc
search_conflict-succeeds s (k ∷ ks) g rs (rk, rks) (c, cs) e = elim (Bool-cases (conflicts s k)) [
  | inl h ↦
      let (k', r) = resolves s k rs rk c g h in
      let f : replaced (k' ∷ ks) ≡ failed = rw (h, r) at e in cc
  | inr h ↦
      search_conflict-succeeds s ks g rs rks cs (keep-failed k (search_conflict s ks) (rw h at e))
]

-- The map after a symbol has entries from the map before it, and the symbol; it grows by one entry
-- at most.
pub record Grown {ℓ} (P : Entry → Type ℓ) (ks : List Entry) (ks' : List Entry) : Type ℓ where
  pub size : length ks' ≤ length ks + 1
  pub all : All P ks → All P ks'

append-All {ℓ} :
    (P : Entry → Type ℓ) (s : Entry) (ks : List Entry) → P s → All P ks → All P (ks ++ s ∷ [])
append-All P s [] p h = (p, tt)
append-All P s (k ∷ ks) p (q, h) = (q, append-All P s ks p h)

Replaced-All {ℓ} :
    (P : Entry → Type ℓ) (s : Entry) {ks ks' : List Entry}
    → is_global s.src.bind ≡ true
    → P s
    → Replaced s ks ks'
    → All P ks
    → All P ks'
Replaced-All P s g p (here {k} {k'} {ks} c r) (q, h) =
    let (gk, n) = conflicts_iff s k c in
    (
      elim (simple_resolution-Covers s k k' g gk n r).0 [
        | inl e ↦ subst P (sym e) p
        | inr e ↦ subst P (sym e) q
      ],
      h,
    )
Replaced-All P s g p (there t) (q, h) = (q, Replaced-All P s g p t h)

Replaced-length : {s : Entry} {ks ks' : List Entry} → Replaced s ks ks' → length ks' ≡ length ks
Replaced-length (here c r) = refl
Replaced-length (there t) = ap suc (Replaced-length t)

insert-Grown {ℓ} :
    (P : Entry → Type ℓ) (s : Entry) (ks : List Entry)
    → P s
    → length ks < 64
    → (ks' : List Entry) × (insert_symbol s ks ≡ some ks') × Grown P ks ks'
unfolding insert_symbol
insert-Grown P s ks p h =
    let e : ltb (length ks) 64 ≡ true = ground arith in
    (
      ks ++ s ∷ [],
      rw e refl,
      record { size = omega (arith, length-append ks (s ∷ [])); all = append-All P s ks p },
    )

resolved-Grown {ℓ} :
    (P : Entry → Type ℓ) (s : Entry) (ks : List Entry) (r : Search)
    → is_global s.src.bind ≡ true
    → P s
    → length ks < 64
    → search_conflict s ks ≡ r
    → r ≢ failed
    → (ks' : List Entry) × (resolved r s ks ≡ some ks') × Grown P ks ks'
unfolding resolved
resolved-Grown P s ks absent g p h e n = insert-Grown P s ks p h
resolved-Grown P s ks failed g p h e n = absurd (n refl)
resolved-Grown P s ks (replaced ks') g p h e n =
    let t = search_conflict-Replaced s ks ks' e in
    (ks', refl, record { size = omega (arith, Replaced-length t); all = Replaced-All P s g p t })

pub process_symbol-Grown {ℓ} :
    (P : Entry → Type ℓ) (b : Bind) (s : Entry) (ks : List Entry)
    → s.src.bind ≡ b
    → P s
    → IsRanked s
    → All IsRanked ks
    → All (Compatible s) ks
    → length ks < 64
    → (ks' : List Entry) × (process_symbol b s ks ≡ some ks') × Grown P ks ks'
unfolding process_symbol
process_symbol-Grown P stb_local s ks q p rs rk c h = insert-Grown P s ks p h
process_symbol-Grown P stb_global s ks q p rs rk c h =
    let g : is_global s.src.bind ≡ true = rw q refl in
    resolved-Grown P s ks _ g p h refl (search_conflict-succeeds s ks g rs rk c)
process_symbol-Grown P stb_weak s ks q p rs rk c h =
    (ks, refl, record { size = omega arith; all = λ a. a })
