-- ===== src/Linker/Symbols/Maps.antt =====
-- src/linker/staticlink.c: what one symbol does to the map.
use mathlib.Core.Path.{subst}
use mathlib.Core.Option.{some_inj}
use csapp_stay.Prelude.{
  same, same_iff, same_refl, ℕ, ◌≡◌, ◌≢◌, refl, sym, ◌∙◌, ◌⊎◌, inl, inr, Bool, true, false, Option,
  none, some, List, [], ◌∷◌, ◌++◌, Bool-cases, ltb, length, ◌&&◌,
}
use csapp_stay.Linker.Symbols.{
  Entry, Bind, stb_local, stb_global, stb_weak, is_global, simple_resolution, conflicts, Search,
  absent, failed, replaced, replace, keep, search_conflict, insert_symbol, resolved, process_symbol,
  max_symbol_map_length,
}
use csapp_stay.Linker.Symbols.Rules.{Covers, Covers-refl, Covers-trans, simple_resolution-Covers}

abbrev pub Covered : Entry → List Entry → Type 0
Covered s [] = ⊥
Covered s (k ∷ ks) = Covers s k ⊎ Covered s ks

-- No global entry has the name.
abbrev pub Fresh : List ℕ → List Entry → Type 0
Fresh n [] = Unit
Fresh n (k ∷ ks) = (is_global k.src.bind ≡ true → k.src.st_name ≢ n) × Fresh n ks

-- No two global entries have one name.
abbrev pub Unique : List Entry → Type 0
Unique [] = Unit
Unique (k ∷ ks) = (is_global k.src.bind ≡ true → Fresh k.src.st_name ks) × Unique ks

and_true : (a b : Bool) → (a && b) ≡ true → (a ≡ true) × (b ≡ true)
and_true true true e = (refl, refl)
and_true true false e = cc
and_true false b e = cc

pub conflicts_iff :
    (s k : Entry)
    → conflicts s k ≡ true
    → (is_global k.src.bind ≡ true) × (k.src.st_name ≡ s.src.st_name)
conflicts_iff s k e =
    let (g, n) = and_true (is_global k.src.bind) (same k.src.st_name s.src.st_name) e in
    (g, same_iff k.src.st_name s.src.st_name n)

no_conflict :
    (s k : Entry)
    → conflicts s k ≡ false
    → is_global k.src.bind ≡ true
    → k.src.st_name ≢ s.src.st_name
no_conflict s k h g n =
    let t : same k.src.st_name s.src.st_name ≡ true =
      subst (λ m. same k.src.st_name m ≡ true) n (same_refl k.src.st_name) in
    let f : true ≡ false = sym (rw (g, t) refl) ∙ h in cc

-- What a search that replaces an entry has done.
pub data Replaced (s : Entry) : List Entry → List Entry → Type 0 where
  here :
      {k k' : Entry} {ks : List Entry}
      → conflicts s k ≡ true
      → simple_resolution s k ≡ some k'
      → Replaced s (k ∷ ks) (k' ∷ ks)
  there : {k : Entry} {ks ks' : List Entry} → Replaced s ks ks' → Replaced s (k ∷ ks) (k ∷ ks')

keep-replaced :
    (k : Entry) (r : Search) (ks' : List Entry)
    → keep k r ≡ replaced ks'
    → (ks : List Entry) × (r ≡ replaced ks) × (ks' ≡ k ∷ ks)
unfolding keep
keep-replaced k absent ks' e = cc
keep-replaced k failed ks' e = cc
keep-replaced k (replaced ks) ks' e = (ks, refl, cc)

replace-replaced :
    (o : Option Entry) (ks ks' : List Entry)
    → replace o ks ≡ replaced ks'
    → (k : Entry) × (o ≡ some k) × (ks' ≡ k ∷ ks)
unfolding replace
replace-replaced none ks ks' e = cc
replace-replaced (some k) ks ks' e = (k, refl, cc)

pub search_conflict-Replaced :
    (s : Entry) (ks ks' : List Entry) → search_conflict s ks ≡ replaced ks' → Replaced s ks ks'
unfolding search_conflict
search_conflict-Replaced s [] ks' e = absurd cc
search_conflict-Replaced s (k ∷ ks) ks' e = elim (Bool-cases (conflicts s k)) [
  | inl h ↦
      let (k', r, q) = replace-replaced (simple_resolution s k) ks ks' (rw h at e) in
      subst (Replaced s (k ∷ ks)) (sym q) (here h r)
  | inr h ↦
      let (rest, r, q) = keep-replaced k (search_conflict s ks) ks' (rw h at e) in
      subst (Replaced s (k ∷ ks)) (sym q) (there (search_conflict-Replaced s ks rest r))
]

module _ {s : Entry} (g : is_global s.src.bind ≡ true) where
  Replaced-Covered : {ks ks' : List Entry} → Replaced s ks ks' → Covered s ks'
  Replaced-Covered (here {k} {k'} {ks} c r) =
      let (gk, n) = conflicts_iff s k c in inl (simple_resolution-Covers s k k' g gk n r).1
  Replaced-Covered (there h) = inr (Replaced-Covered h)

  Replaced-kept :
      {ks ks' : List Entry} (x : Entry) → Replaced s ks ks' → Covered x ks → Covered x ks'
  Replaced-kept x (here {k} {k'} {ks} c r) (inl h) =
      let (gk, n) = conflicts_iff s k c in
      inl (Covers-trans h (simple_resolution-Covers s k k' g gk n r).2)
  Replaced-kept x (here c r) (inr h) = inr h
  Replaced-kept x (there t) (inl h) = inl h
  Replaced-kept x (there t) (inr h) = inr (Replaced-kept x t h)

  Replaced-Fresh : {ks ks' : List Entry} (n : List ℕ) → Replaced s ks ks' → Fresh n ks → Fresh n ks'
  Replaced-Fresh n (here {k} {k'} {ks} c r) (f, h) =
      let (gk, m) = conflicts_iff s k c in
      let cover = (simple_resolution-Covers s k k' g gk m r).2 in
      (λ _ e. f gk (sym cover.name ∙ e), h)
  Replaced-Fresh n (there t) (f, h) = (f, Replaced-Fresh n t h)

  Replaced-Unique : {ks ks' : List Entry} → Replaced s ks ks' → Unique ks → Unique ks'
  Replaced-Unique (here {k} {k'} {ks} c r) (f, h) =
      let (gk, m) = conflicts_iff s k c in
      let cover = (simple_resolution-Covers s k k' g gk m r).2 in
      (λ _. subst (λ n. Fresh n ks) (sym cover.name) (f gk), h)
  Replaced-Unique (there {k} t) (f, h) =
      (λ gk. Replaced-Fresh k.src.st_name t (f gk), Replaced-Unique t h)

keep-absent : (k : Entry) (r : Search) → keep k r ≡ absent → r ≡ absent
unfolding keep
keep-absent k absent e = refl
keep-absent k failed e = cc
keep-absent k (replaced ks) e = cc

replace-present : (o : Option Entry) (ks : List Entry) → replace o ks ≢ absent
unfolding replace
replace-present none ks e = cc
replace-present (some k) ks e = cc

search_conflict-Fresh :
    (s : Entry) (ks : List Entry) → search_conflict s ks ≡ absent → Fresh s.src.st_name ks
unfolding search_conflict
search_conflict-Fresh s [] e = tt
search_conflict-Fresh s (k ∷ ks) e = elim (Bool-cases (conflicts s k)) [
  | inl h ↦ absurd (replace-present (simple_resolution s k) ks (rw h at e))
  | inr h ↦ (
    λ gk n. no_conflict s k h gk n,
    search_conflict-Fresh s ks (keep-absent k (search_conflict s ks) (rw h at e)),
  )
]

append-Covered :
    (s : Entry) (ks : List Entry) → is_global s.src.bind ≡ true → Covered s (ks ++ s ∷ [])
append-Covered s [] g = inl (Covers-refl s g)
append-Covered s (k ∷ ks) g = inr (append-Covered s ks g)

append-kept : (x s : Entry) (ks : List Entry) → Covered x ks → Covered x (ks ++ s ∷ [])
append-kept x s [] h = absurd h
append-kept x s (k ∷ ks) (inl h) = inl h
append-kept x s (k ∷ ks) (inr h) = inr (append-kept x s ks h)

append-Fresh :
    (n : List ℕ) (s : Entry) (ks : List Entry)
    → (is_global s.src.bind ≡ true → s.src.st_name ≢ n)
    → Fresh n ks
    → Fresh n (ks ++ s ∷ [])
append-Fresh n s [] f h = (f, tt)
append-Fresh n s (k ∷ ks) f (e, h) = (e, append-Fresh n s ks f h)

append-Unique :
    (s : Entry) (ks : List Entry)
    → (is_global s.src.bind ≡ true → Fresh s.src.st_name ks)
    → Unique ks
    → Unique (ks ++ s ∷ [])
append-Unique s [] f h = (λ g. tt, tt)
append-Unique s (k ∷ ks) f (e, h) = (
  λ gk. append-Fresh k.src.st_name s ks (λ gs n. (f gs).0 gk (sym n)) (e gk),
  append-Unique s ks (λ gs. (f gs).1) h,
)

-- What the map owes to the symbol `s`, and to those before it.
pub record Mapped (s : Entry) (ks ks' : List Entry) : Type 0 where
  pub covered : is_global s.src.bind ≡ true → Covered s ks'
  pub kept : (x : Entry) → Covered x ks → Covered x ks'
  pub unique : Unique ks → Unique ks'

pub insert_symbol_lem :
    (s : Entry) (ks ks' : List Entry) → insert_symbol s ks ≡ some ks' → ks' ≡ ks ++ s ∷ []
unfolding insert_symbol
insert_symbol_lem s ks ks' e = elim (Bool-cases (ltb (length ks) max_symbol_map_length)) [
  | inl h ↦ let f : some (ks ++ s ∷ []) ≡ some ks' = rw h at e in sym (some_inj.0 f)
  | inr h ↦ let f : none ≡ some ks' = rw h at e in cc
]

insert_symbol-Mapped :
    (s : Entry) (ks ks' : List Entry)
    → (is_global s.src.bind ≡ true → Fresh s.src.st_name ks)
    → insert_symbol s ks ≡ some ks'
    → Mapped s ks ks'
insert_symbol-Mapped s ks ks' f e =
    subst (Mapped s ks) (sym (insert_symbol_lem s ks ks' e)) (record {
      covered = append-Covered s ks;
      kept = λ x h. append-kept x s ks h;
      unique = append-Unique s ks f;
    })

resolved-Mapped :
    (s : Entry) (ks ks' : List Entry) (r : Search)
    → is_global s.src.bind ≡ true
    → search_conflict s ks ≡ r
    → resolved r s ks ≡ some ks'
    → Mapped s ks ks'
unfolding resolved
resolved-Mapped s ks ks' absent g e h =
    insert_symbol-Mapped s ks ks' (λ _. search_conflict-Fresh s ks e) h
resolved-Mapped s ks ks' failed g e h = cc
resolved-Mapped s ks ks' (replaced r) g e h =
    let t = search_conflict-Replaced s ks r e in
    subst (Mapped s ks) (some_inj.0 h) (record {
      covered = λ _. Replaced-Covered g t;
      kept = λ x c. Replaced-kept g x t c;
      unique = Replaced-Unique g t;
    })

pub process_symbol-Mapped :
    (b : Bind) (s : Entry) (ks ks' : List Entry)
    → s.src.bind ≡ b
    → process_symbol b s ks ≡ some ks'
    → Mapped s ks ks'
unfolding process_symbol
process_symbol-Mapped stb_local s ks ks' q e =
    insert_symbol-Mapped s ks ks' (λ g. let f : false ≡ true = rw q at g in cc) e
process_symbol-Mapped stb_global s ks ks' q e = resolved-Mapped s ks ks' _ (rw q refl) refl e
process_symbol-Mapped stb_weak s ks ks' q e = subst (Mapped s ks) (some_inj.0 e) (record {
  covered = λ g. let f : false ≡ true = rw q at g in cc;
  kept = λ x h. h;
  unique = λ u. u;
})
