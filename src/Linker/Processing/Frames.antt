-- ===== src/Linker/Processing/Frames.antt =====
-- src/linker/staticlink.c: the rows that relocation_processing leaves as they are.
use mathlib.Core.Option.{some_inj}
use mathlib.Core.Path.{fun_ext, subst}
use csapp_stay.Prelude.{
  ℕ, zero, suc, ◌+◌, ◌-◌, ◌*◌, ◌%◌, ◌^◌, ltb, leb, get_elem?, Option-cases, ◌≤◌, ◌<◌, ◌≡◌, refl,
  sym, ◌∙◌, ap, arith, Bool, true, Bool-cases, inl, inr, Option, none, some, List, [], ◌∷◌, ◌||◌,
  ◌==◌, same,
}
use csapp_stay.Linker.Symbols.{Symbol, text}
use csapp_stay.Linker.Elf.{Section, Relocation}
use csapp_stay.Linker.Elf.Files.Tables.{All, >>=-eq-some}
use csapp_stay.Linker.Relocations.{
  Rows, as_int, write_at, rela_handler, r_x86_64_32_handler, r_x86_64_pc32_handler,
}
use csapp_stay.Linker.Relocations.Targets.{as_int-small, unwritten}
use csapp_stay.Linker.Merges.{Mapped, points_to}
use csapp_stay.Linker.Processing.{
  Linked, Reference, fault, missing, found, Visit, dst_symbol, search_reference, relocate,
  visit_reference, visit_entries,
}

-- The rows in front of row h are the same.
abbrev pub Framed : ℕ → Rows → Rows → Type 0
Framed h b b' = (r : ℕ) → r < h → b' r ≡ b r

-- The section, if it is set, starts at row h or later, and its offset does not wrap.
abbrev pub Behind : ℕ → Option Section → Type 0
Behind h none = Unit
Behind h (some sh) = (h ≤ sh.sh_offset) × (sh.sh_offset < 2 ^ 55)

-- A relocation whose row is below 2^30 and whose column is below 2^31: they are no negative ints.
abbrev pub IsForward : Relocation → Type 0
IsForward r = (r.r_row < 2 ^ 30) × (r.r_col < 2 ^ 31)

-- The value of the symbol, if it is set, is small.
abbrev pub IsLow : Option Symbol → Type 0
IsLow none = Unit
IsLow (some s) = s.st_value < 2 ^ 30

pub get_elem?-IsLow :
    (ss : List Symbol) (j : ℕ) → All (λ s. s.st_value < 2 ^ 30) ss → IsLow (get_elem? ss j)
get_elem?-IsLow [] j a = tt
get_elem?-IsLow (s ∷ ss) zero (p, a) = p
get_elem?-IsLow (s ∷ ss) (suc j) (p, a) = get_elem?-IsLow ss j a

dst_symbol-IsLow :
    (k : Linked) (e : Mapped) → All (λ s. s.st_value < 2 ^ 30) k.symt → IsLow (dst_symbol k e)
unfolding dst_symbol
dst_symbol-IsLow k e a = elim (Option-cases e.dst) [
  | inl p ↦ rw p tt
  | inr (j, p) ↦ rw p (get_elem?-IsLow k.symt j a)
]

-- The row of a relocation that stands behind the start of its symbol is no negative int.
row-nonneg :
    (row start value : ℕ)
    → row < 2 ^ 30
    → value < 2 ^ 30
    → as_int start ≤ row
    → as_int ((row + (2 ^ 64 - start) + value) % 2 ^ 64) < 2 ^ 31
unfolding as_int
row-nonneg row start value h v le = elim (Bool-cases (ltb (start % 2 ^ 32) (2 ^ 31))) [
  | inr p ↦
      let far : start % 2 ^ 32 + (2 ^ 64 - 2 ^ 32) ≤ row = rw p at le in
      absurd (omega (arith, far, h))
  | inl p ↦
      let near : start % 2 ^ 32 ≤ row = rw p at le in
      let small : (row + (2 ^ 64 - start) + value) % 2 ^ 64 % 2 ^ 32 < 2 ^ 31 =
        omega (arith, near, h, v) in
      let q : ltb ((row + (2 ^ 64 - start) + value) % 2 ^ 64 % 2 ^ 32) (2 ^ 31) ≡ true =
        ground (arith, small) in
      rw q small
]

pub Framed-∙ : (h : ℕ) (b b' b'' : Rows) → Framed h b b' → Framed h b' b'' → Framed h b b''
Framed-∙ h b b' b'' f g r lt = g r lt ∙ f r lt

pub Framed-some : (h : ℕ) (b b' : Rows) → some b ≡ some b' → Framed h b b'
Framed-some h b b' e r lt = ap (λ t. t r) (sym (some_inj.0 e))

write_at-Framed :
    (h : ℕ) (sh : Section) (row col val : ℕ) (b b' : Rows)
    → Behind h (some sh)
    → as_int row < 2 ^ 31
    → col < 2 ^ 31
    → write_at sh row col val b ≡ some b'
    → Framed h b b'
unfolding write_at
write_at-Framed h sh row col val b b' (le, top) small narrow e =
    let p = ((sh.sh_offset + as_int row) * 128 + as_int col) % 2 ^ 64 in
    let column = as_int-small col narrow in
    let far : h * 128 ≤ p = omega (arith, le, top, small, narrow, column) in
    elim (Bool-cases (leb (p + 18) 8192)) [
      | inr q ↦ let f : none ≡ some b' = rw q at e in cc f
      | inl q ↦ λ r lt.
          Framed-some h _ b' (rw q at e) r lt
          ∙ fun_ext λ c. elim (Bool-cases (ltb c 128)) [
            | inr o ↦ rw o refl
            | inl o ↦
                let inside : c < 128 = ground (arith, o) in
                rw o (unwritten b p val r c inside (inl (omega (arith, inside, lt, far))))
          ]
    ]

rela_handler-Framed :
    (h t : ℕ) (sht : List Section) (sh : Section) (row col : ℕ) (s : Symbol) (b b' : Rows)
    → Behind h (some sh)
    → as_int row < 2 ^ 31
    → col < 2 ^ 31
    → rela_handler t sht sh row col s b ≡ some b'
    → Framed h b b'
unfolding rela_handler r_x86_64_32_handler r_x86_64_pc32_handler
rela_handler-Framed h t sht sh row col s b b' le small narrow e = elim (Bool-cases (t == 0)) [
  | inl p ↦ write_at-Framed h sh row col _ b b' le small narrow (rw p at e)
  | inr p ↦ elim (Bool-cases ((t == 1) || (t == 2))) [
    | inr q ↦ let f : none ≡ some b' = rw (p, q) at e in cc f
    | inl q ↦ elim (Bool-cases (same sh.sh_name text)) [
      | inr n ↦ let f : none ≡ some b' = rw (p, q, n) at e in cc f
      | inl n ↦ write_at-Framed h sh row col _ b b' le small narrow (rw (p, q, n) at e)
    ]
  ]
]

unfoldable pub VisitFramed : ℕ → Rows → Option Visit → Type 0
VisitFramed h b o = (v : Visit) → o ≡ some v → Framed h b v.buffer

relocate-VisitFramed :
    (h : ℕ) (k : Linked) (sh : Option Section) (r : Relocation) (start : ℕ) (d : Option Symbol)
    (s : Symbol) (b : Rows)
    → Behind h sh
    → IsForward r
    → as_int start ≤ r.r_row
    → IsLow d
    → VisitFramed h b (relocate k sh r start d s b)
unfolding VisitFramed relocate
relocate-VisitFramed h k none r start d s b be fo st lo v e = cc
relocate-VisitFramed h k (some sh) r start none s b be fo st lo v e = cc
relocate-VisitFramed h k (some sh) r start (some d) s b be fo st lo v e =
    let row = (r.r_row + (2 ^ 64 - start) + d.st_value) % 2 ^ 64 in
    let (b', p, q) = >>=-eq-some (rela_handler r.r_type k.sht sh row r.r_col s b) _ e in
    subst (λ u. Framed h b u.buffer) (some_inj.0 q)
      (rela_handler-Framed h r.r_type k.sht sh row r.r_col s b b' be
        (row-nonneg r.r_row start d.st_value fo.0 lo st) fo.1 p)

visit_reference-VisitFramed :
    (h : ℕ) (k : Linked) (sh : Option Section) (r : Relocation) (start : ℕ) (d : Option Symbol)
    (t : Reference) (rest : Option Visit) (b : Rows)
    → Behind h sh
    → IsForward r
    → as_int start ≤ r.r_row
    → IsLow d
    → VisitFramed h b rest
    → VisitFramed h b (visit_reference k sh r start d t rest b)
unfolding VisitFramed visit_reference
visit_reference-VisitFramed h k sh r start d fault rest b be fo st lo ok v e = cc
visit_reference-VisitFramed h k sh r start d missing rest b be fo st lo ok v e = ok v e
visit_reference-VisitFramed h k sh r start d (found s) rest b be fo st lo ok v e =
    relocate-VisitFramed h k sh r start d s b be fo st lo v e

pub visit_entries-VisitFramed :
    (h : ℕ) (k : Linked) (sh : Option Section) (r : Relocation) (name : List ℕ) (i j start : ℕ)
    (es : List Mapped) (f : Bool) (b : Rows)
    → Behind h sh
    → IsForward r
    → as_int start ≤ r.r_row
    → All (λ s. s.st_value < 2 ^ 30) k.symt
    → VisitFramed h b (visit_entries k sh r name i j start es f b)
unfolding VisitFramed visit_entries
visit_entries-VisitFramed h k sh r name i j start [] f b be fo st lo v e =
    subst (λ u. Framed h b u.buffer) (some_inj.0 e) (λ r lt. refl)
visit_entries-VisitFramed h k sh r name i j start (x ∷ es) f b be fo st lo v e =
    elim (Bool-cases (points_to i j x)) [
      | inl p ↦
          visit_reference-VisitFramed h k sh r start (dst_symbol k x)
            (search_reference k name k.smap) (visit_entries k sh r name i j start es true b) b be fo
            st (dst_symbol-IsLow k x lo)
            (visit_entries-VisitFramed h k sh r name i j start es true b be fo st lo) v (rw p at e)
      | inr p ↦ visit_entries-VisitFramed h k sh r name i j start es f b be fo st lo v (rw p at e)
    ]
