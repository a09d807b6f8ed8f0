-- ===== src/Linker/Symbols/Cleanup.antt =====
-- src/linker/staticlink.c: the last loop of `symbol_processing`.
use csapp_stay.Prelude.{
  same, ◌⊎◌, ◌≡◌, refl, sym, ◌∙◌, inl, inr, true, false, none, some, List, [], ◌∷◌, Bool-cases,
}
use csapp_stay.Linker.Symbols.{
  Symbol, Entry, stt_notype, is_type, common, bss, notype_name, process_elfs, cleanup, cleanup_all,
  symbol_processing,
}
use csapp_stay.Linker.Symbols.Totals.{All}

-- Neither undefined nor tentative.
pub record IsDefined (e : Entry) : Type 0 where
  pub typed : is_type e.src.type stt_notype ≡ false
  pub placed : same e.src.st_shndx common ≡ false

bss-placed : same bss common ≡ false
unfolding same
bss-placed = refl

-- The two assertions of the loop.
pub record IsTyped (e : Entry) : Type 0 where
  pub named : same e.src.st_name notype_name ≡ false
  pub typed : is_type e.src.type stt_notype ≡ false

-- What the loop makes of an entry.
pub record Cleaned (e d : Entry) : Type 0 where
  pub defined : IsDefined d
  pub file : d.elf ≡ e.elf
  pub place : d.index ≡ e.index
  pub name : d.src.st_name ≡ e.src.st_name
  pub binding : d.src.bind ≡ e.src.bind

pub AllCleaned : List Entry → List Entry → Type 0
AllCleaned [] [] = Unit
AllCleaned [] (d ∷ ds) = ⊥
AllCleaned (e ∷ es) [] = ⊥
AllCleaned (e ∷ es) (d ∷ ds) = Cleaned e d × AllCleaned es ds

cleanup-Cleaned : (e : Entry) → IsTyped e → (d : Entry) × (cleanup e ≡ some d) × Cleaned e d
unfolding cleanup
cleanup-Cleaned e t = elim (Bool-cases (same e.src.st_shndx common)) [
  | inl c ↦ (
    record e { src = record e.src { st_shndx = bss; st_value = 0 } },
    rw (cleanup, t.named, t.typed, c) refl,
    record {
      defined = record { typed = t.typed; placed = bss-placed };
      file = refl;
      place = refl;
      name = refl;
      binding = refl;
    },
  )
  | inr c ↦ (
    e,
    rw (cleanup, t.named, t.typed, c) refl,
    record {
      defined = record { typed = t.typed; placed = c };
      file = refl;
      place = refl;
      name = refl;
      binding = refl;
    },
  )
]

cleanup_all-Cleaned :
    (es : List Entry)
    → All IsTyped es
    → (ds : List Entry) × (cleanup_all es ≡ some ds) × AllCleaned es ds
unfolding cleanup_all AllCleaned
cleanup_all-Cleaned [] t = ([], refl, tt)
cleanup_all-Cleaned (e ∷ es) (t, ts) =
    let (d, q, c) = cleanup-Cleaned e t in
    let (ds, r, cs) = cleanup_all-Cleaned es ts in (d ∷ ds, rw (cleanup_all, q, r) refl, (c, cs))

-- An entry that violates an assertion.
cleanup-none :
    (e : Entry)
    → (same e.src.st_name notype_name ≡ true) ⊎ (is_type e.src.type stt_notype ≡ true)
    → cleanup e ≡ none
unfolding cleanup
cleanup-none e (inl h) = rw (cleanup, h) refl
cleanup-none e (inr h) = elim (Bool-cases (same e.src.st_name notype_name)) [
  | inl n ↦ rw (cleanup, n) refl
  | inr n ↦ rw (cleanup, n, h) refl
]

checked : (e : Entry) → (cleanup e ≡ none) ⊎ IsTyped e
checked e = elim (Bool-cases (same e.src.st_name notype_name)) [
  | inl n ↦ inl (cleanup-none e (inl n))
  | inr n ↦ elim (Bool-cases (is_type e.src.type stt_notype)) [
    | inl t ↦ inl (cleanup-none e (inr t))
    | inr t ↦ inr (record { named = n; typed = t })
  ]
]

cleanup_all-checked : (es : List Entry) → (cleanup_all es ≡ none) ⊎ All IsTyped es
unfolding cleanup_all
cleanup_all-checked [] = inr tt
cleanup_all-checked (e ∷ es) = elim (checked e) [
  | inl h ↦ inl (rw (cleanup_all, h) refl)
  | inr t ↦ elim (cleanup_all-checked es) [
    | inr ts ↦ inr (t, ts)
    | inl h ↦ let (d, q, c) = cleanup-Cleaned e t in inl (rw (cleanup_all, q, h) refl)
  ]
]

-- Where the map of the files' symbols is built: if every entry is typed and none is named
-- STT_NOTYPE, the whole pass succeeds, and its entries are those of the map in their order, with
-- the same files, names and bindings, none of them untyped or in COMMON; otherwise the pass fails.
pub symbol_processing-Cleaned :
    (srcs : List (List Symbol)) (smap : List Entry)
    → process_elfs 0 srcs [] ≡ some smap
    → (All IsTyped smap
        × ((ds : List Entry) × (symbol_processing srcs ≡ some ds) × AllCleaned smap ds))
      ⊎ ((All IsTyped smap → ⊥) × (symbol_processing srcs ≡ none))
unfolding symbol_processing
symbol_processing-Cleaned srcs smap e = elim (cleanup_all-checked smap) [
  | inr t ↦
      let (ds, q, c) = cleanup_all-Cleaned smap t in inl (t, (ds, rw (symbol_processing, e) q, c))
  | inl h ↦ inr (
    (λ t. let (ds, q, c) = cleanup_all-Cleaned smap t in let f : some ds ≡ none = sym q ∙ h in cc),
    rw (symbol_processing, e) h,
  )
]
