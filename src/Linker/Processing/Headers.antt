-- ===== src/Linker/Processing/Headers.antt =====
-- src/linker/staticlink.c: the header rows and relocation_processing.
use csapp_stay.Prelude.{
  ℕ, suc, arith, ◌^◌, ◌<◌, ◌≤◌, ◌≡◌, false, Bool-cases, inl, inr, Option, some, List, [], ◌∷◌, ◌&&◌,
  leb, get_elem?, same,
}
use csapp_stay.Linker.Symbols.{Symbol, text, data_section}
use csapp_stay.Linker.Elf.{Section, Relocation, ◌>>=◌}
use csapp_stay.Linker.Elf.Files.{Elf, find_section}
use csapp_stay.Linker.Elf.Files.Tables.{All, >>=-eq-some}
use csapp_stay.Linker.Relocations.{Rows, as_int}
use csapp_stay.Linker.Merges.Loops.{assert-some}
use csapp_stay.Linker.Processing.{
  Linked, Visit, visit_entries, visit_symbols, visit_relocations, visit_files, after_visit,
  relocation_processing, text_end, data_end,
}
use csapp_stay.Linker.Processing.Frames.{
  Framed, Behind, IsForward, Framed-∙, Framed-some, VisitFramed, visit_entries-VisitFramed,
}

Frames : ℕ → (Rows → Option Rows) → Type 0
Frames h f = (b b' : Rows) → f b ≡ some b' → Framed h b b'

after_visit-Framed :
    (h : ℕ) (rest : Rows → Option Rows) (b b' : Rows) (v : Visit)
    → Frames h rest
    → Framed h b v.buffer
    → after_visit rest v ≡ some b'
    → Framed h b b'
unfolding Frames after_visit
after_visit-Framed h rest b b' v frames f e = elim (Bool-cases v.done) [
  | inl p ↦
      Framed-∙ h b v.buffer b' f
        (Framed-some h v.buffer b' (assert-some v.smap_found (some v.buffer) b' (rw p at e)).1)
  | inr p ↦
      Framed-∙ h b v.buffer b' f
        (frames v.buffer b' (assert-some v.smap_found (rest v.buffer) b' (rw p at e)).1)
]

visit_symbols-Frames :
    (h : ℕ) (k : Linked) (sh : Option Section) (section : List ℕ) (end : Symbol → ℕ)
    (r : Relocation) (name : List ℕ) (i j : ℕ) (ss : List Symbol)
    → Behind h sh
    → IsForward r
    → All (λ s. s.st_value < 2 ^ 30) k.symt
    → Frames h (visit_symbols k sh section end r name i j ss)
unfolding Frames visit_symbols VisitFramed
visit_symbols-Frames h k sh section end r name i j [] be fo lo b b' e = Framed-some h b b' e
visit_symbols-Frames h k sh section end r name i j (s ∷ ss) be fo lo b b' e =
    let rest = visit_symbols-Frames h k sh section end r name i (suc j) ss be fo lo in
    elim (Bool-cases
      (same s.st_shndx section && (leb (as_int s.st_value) r.r_row && leb r.r_row (end s)))) [
        | inr p ↦ rest b b' (rw p at e)
        | inl p ↦
            let behind : as_int s.st_value ≤ r.r_row = ground (arith, p) in
            let visit = visit_entries k sh r name i j s.st_value k.smap false b in
            let (v, q, t) = >>=-eq-some visit _ (rw p at e) in
            after_visit-Framed h (visit_symbols k sh section end r name i (suc j) ss) b b' v rest
              (visit_entries-VisitFramed h k sh r name i j s.st_value k.smap false b be fo behind lo
                v q)
              t
      ]

visit_relocations-Frames :
    (h : ℕ) (k : Linked) (sh : Option Section) (section : List ℕ) (end : Symbol → ℕ) (i : ℕ)
    (symt : List Symbol) (rs : List Relocation)
    → Behind h sh
    → All (λ s. s.st_value < 2 ^ 30) k.symt
    → All IsForward rs
    → Frames h (visit_relocations k sh section end i symt rs)
unfolding Frames visit_relocations
visit_relocations-Frames h k sh section end i symt [] be lo fo b b' e = Framed-some h b b' e
visit_relocations-Frames h k sh section end i symt (r ∷ rs) be lo (f, fo) b b' e =
    let (s, _, e₁) = >>=-eq-some (get_elem? symt r.sym) _ e in
    let (b₁, p, q) = >>=-eq-some (visit_symbols k sh section end r s.st_name i 0 symt b) _ e₁ in
    Framed-∙ h b b₁ b' (visit_symbols-Frames h k sh section end r s.st_name i 0 symt be f lo b b₁ p)
      (visit_relocations-Frames h k sh section end i symt rs be lo fo b₁ b' q)

-- The relocations of the files.
abbrev pub AllForward : List Elf → Type 0
AllForward srcs = All (λ elf. All IsForward elf.reltext × All IsForward elf.reldata) srcs

visit_files-Frames :
    (h : ℕ) (k : Linked) (i : ℕ) (srcs : List Elf)
    → Behind h (find_section text k.sht)
    → Behind h (find_section data_section k.sht)
    → All (λ s. s.st_value < 2 ^ 30) k.symt
    → AllForward srcs
    → Frames h (visit_files k i srcs)
unfolding Frames visit_files
visit_files-Frames h k i [] bt bd lo fo b b' e = Framed-some h b b' e
visit_files-Frames h k i (elf ∷ elfs) bt bd lo ((ft, fd), fo) b b' e =
    let text_sh = find_section text k.sht in
    let data_sh = find_section data_section k.sht in
    let texts = visit_relocations k text_sh text text_end i elf.symt elf.reltext in
    let datas = visit_relocations k data_sh data_section data_end i elf.symt elf.reldata in
    let (b₂, p, q) = >>=-eq-some (texts b >>= datas) _ e in
    let (b₁, p₁, p₂) = >>=-eq-some (texts b) _ p in
    let framed_text =
      visit_relocations-Frames h k text_sh text text_end i elf.symt elf.reltext bt lo ft in
    let framed_data =
      visit_relocations-Frames h k data_sh data_section data_end i elf.symt elf.reldata bd lo fd in
    Framed-∙ h b b₁ b' (framed_text b b₁ p₁) (
      Framed-∙ h b₁ b₂ b' (framed_data b₁ b₂ p₂)
        (visit_files-Frames h k (suc i) elfs bt bd lo fo b₂ b' q))

-- When relocation_processing succeeds and the sections .text and .data of the linked file, those
-- of them that it has, start at row h or later and before 2^55, the rows in front of row h are as
-- they were, if the relocations' rows and the symbols' values are below 2^30 and the relocations'
-- columns below 2^31.
pub relocation_processing-Framed :
    (srcs : List Elf) (k : Linked) (b b' : Rows) (h : ℕ)
    → Behind h (find_section text k.sht)
    → Behind h (find_section data_section k.sht)
    → All (λ s. s.st_value < 2 ^ 30) k.symt
    → AllForward srcs
    → relocation_processing srcs k b ≡ some b'
    → Framed h b b'
unfolding relocation_processing Frames
relocation_processing-Framed srcs k b b' h bt bd lo fo e =
    visit_files-Frames h k 0 srcs bt bd lo fo b b' e
