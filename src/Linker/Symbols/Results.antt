-- ===== src/Linker/Symbols/Results.antt =====
-- src/linker/staticlink.c: the map of all files' symbols.
use mathlib.Core.Path.{subst}
use mathlib.Core.Option.{some_inj}
use csapp_stay.Prelude.{
  ℕ, suc, ◌+◌, ◌≤◌, ◌≡◌, refl, sym, ◌∙◌, inl, inr, arith, true, Option, none, some, List, [], ◌∷◌,
  ◌++◌, Option-cases, length,
}
use csapp_stay.Linker.Symbols.{
  Symbol, Entry, is_global, process_symbol, process_symbols, process_elfs,
}
use csapp_stay.Linker.Symbols.Maps.{Covered, Unique, process_symbol-Mapped}
use csapp_stay.Linker.Symbols.Totals.{All, IsRanked, Compatible, process_symbol-Grown}

-- The files' symbols, in the order of the two loops.
unfoldable pub entries_of : ℕ → ℕ → List Symbol → List Entry
entries_of elf j [] = []
entries_of elf j (s ∷ syms) = record { elf = elf; index = j; src = s } ∷ entries_of elf (suc j) syms

unfoldable pub entries : ℕ → List (List Symbol) → List Entry
unfolding entries_of
entries elf [] = []
entries elf (symt ∷ srcs) = entries_of elf 0 symt ++ entries (elf + 1) srcs

process_all : List Entry → List Entry → Option (List Entry)
process_all [] smap = some smap
process_all (e ∷ es) smap = elim (process_symbol e.src.bind e smap) [
  | none ↦ none
  | some smap' ↦ process_all es smap'
]

process_symbols-entries_of :
    (elf j : ℕ) (syms : List Symbol) (rest smap : List Entry)
    → process_all (entries_of elf j syms ++ rest) smap ≡ (elim (process_symbols elf j syms smap) [
      | none ↦ none
      | some smap' ↦ process_all rest smap'
    ])
unfolding process_all process_symbols entries_of
process_symbols-entries_of elf j [] rest smap = refl
process_symbols-entries_of elf j (s ∷ syms) rest smap =
    elim (Option-cases (process_symbol s.bind (record { elf = elf; index = j; src = s }) smap)) [
      | inl e ↦ rw (process_symbols, e) (rw (process_all, e) refl)
      | inr (smap', e) ↦
          rw (process_symbols, e)
            (rw (process_all, e) (process_symbols-entries_of elf (suc j) syms rest smap'))
    ]

process_elfs-entries :
    (elf : ℕ) (srcs : List (List Symbol)) (smap : List Entry)
    → process_all (entries elf srcs) smap ≡ process_elfs elf srcs smap
unfolding process_all process_elfs entries
process_elfs-entries elf [] smap = refl
process_elfs-entries elf (symt ∷ srcs) smap =
    process_symbols-entries_of elf 0 symt (entries (elf + 1) srcs) smap
    ∙ elim (Option-cases (process_symbols elf 0 symt smap)) [
      | inl e ↦ rw (process_elfs, e) refl
      | inr (smap', e) ↦ rw (process_elfs, e) (process_elfs-entries (elf + 1) srcs smap')
    ]

-- Every global symbol of a list is covered.
abbrev pub AllCovered : List Entry → List Entry → Type 0
AllCovered [] smap = Unit
AllCovered (e ∷ es) smap = (is_global e.src.bind ≡ true → Covered e smap) × AllCovered es smap

pub record Processed (es smap smap' : List Entry) : Type 0 where
  pub covered : AllCovered es smap'
  pub kept : (x : Entry) → Covered x smap → Covered x smap'
  pub unique : Unique smap → Unique smap'

process_all-Processed :
    (es smap smap' : List Entry) → process_all es smap ≡ some smap' → Processed es smap smap'
unfolding process_all
process_all-Processed [] smap smap' e =
    subst (Processed [] smap) (some_inj.0 e)
      (record { covered = tt; kept = λ x h. h; unique = λ u. u })
process_all-Processed (s ∷ es) smap smap' e =
    elim (Option-cases (process_symbol s.src.bind s smap)) [
      | inl h ↦ let f : none ≡ some smap' = rw (process_all, h) at e in cc
      | inr (smap₁, h) ↦
          let first = process_symbol-Mapped s.src.bind s smap smap₁ refl h in
          let rest = process_all-Processed es smap₁ smap' (rw (process_all, h) at e) in
          record {
            covered = (λ g. rest.kept s (first.covered g), rest.covered);
            kept = λ x c. rest.kept x (first.kept x c);
            unique = λ u. rest.unique (first.unique u);
          }
    ]

-- No two symbols of the list define one global name.
abbrev pub NoClash : List Entry → Type 0
NoClash [] = Unit
NoClash (e ∷ es) = All (λ x. Compatible x e) es × NoClash es

-- An entry of the map that no later symbol clashes with.
abbrev Ready : List Entry → Entry → Type 0
Ready es k = IsRanked k × All (λ x. Compatible x k) es

All-map {ℓ κ} :
    (P : Entry → Type ℓ) (Q : Entry → Type κ) (ks : List Entry)
    → ((k : Entry) → P k → Q k)
    → All P ks
    → All Q ks
All-map P Q [] f h = tt
All-map P Q (k ∷ ks) f (p, h) = (f k p, All-map P Q ks f h)

process_all-some :
    (es smap : List Entry)
    → All IsRanked es
    → NoClash es
    → All (Ready es) smap
    → length smap + length es ≤ 64
    → (smap' : List Entry) × (process_all es smap ≡ some smap')
unfolding process_all
process_all-some [] smap r c a l = (smap, refl)
process_all-some (s ∷ es) smap (rs, r) (cs, c) a l =
    let (smap₁, e, grown) =
      process_symbol-Grown (Ready es) s.src.bind s smap refl (rs, cs) rs
        (All-map (Ready (s ∷ es)) IsRanked smap (λ k h. h.0) a)
        (All-map (Ready (s ∷ es)) (Compatible s) smap (λ k h. h.1.0) a) (omega arith) in
    let (smap', f) =
      process_all-some es smap₁ r c
        (grown.all (All-map (Ready (s ∷ es)) (Ready es) smap (λ k h. (h.0, h.1.1)) a))
        (omega (arith, grown.size)) in
    (smap', rw (process_all, e) f)

-- If every global symbol of the files has a precedence, no two define one global name, and there
-- are at most 64 symbols, then the map of symbols is built without a failure, no two of its global
-- entries have one name, and every global symbol of a file has a global entry of its name whose
-- precedence is no lower.
pub process_elfs-Processed :
    (srcs : List (List Symbol))
    → All IsRanked (entries 0 srcs)
    → NoClash (entries 0 srcs)
    → length (entries 0 srcs) ≤ 64
    → (smap : List Entry) × (process_elfs 0 srcs [] ≡ some smap)
      × Unique smap
      × AllCovered (entries 0 srcs) smap
process_elfs-Processed srcs r c l =
    let (smap, e) = process_all-some (entries 0 srcs) [] r c tt (omega arith) in
    let h = process_all-Processed (entries 0 srcs) [] smap e in
    (smap, sym (process_elfs-entries 0 srcs []) ∙ e, h.unique tt, h.covered)
