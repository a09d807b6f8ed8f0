-- ===== src/Memory/Sram/Coherent.antt =====
-- What the cache and the memory behind it stand for: one byte for each 52-bit address.
use mathlib.Core.Path.{subst}
use csapp_stay.Prelude.{
  ℕ, ◌^◌, ◌<◌, ◌≡◌, ◌≢◌, refl, sym, ap, ◌∙◌, ◌⊎◌, inl, inr, arith, ◌==◌, ==_iff, Bool-cases, update,
}
use csapp_stay.Memory.Address.{cache_offset, cache_index, cache_tag}
use csapp_stay.Memory.Sram.{
  LineState, invalid, clean, dirty, CacheLine, CacheSet, Memory, set_of, put_line,
}
use csapp_stay.Memory.Sram.Lines.{SameLine}

-- No tag is valid twice in a set; valid lines hold the bytes of `f`; and so does the memory, but
-- for the addresses of dirty lines.
pub record Represents (m : Memory) (f : ℕ → ℕ) : Type 0 where
  pub unique :
      (c i j : ℕ)
      → i < 8
      → j < 8
      → i ≢ j
      → (m.sets c i).state ≢ invalid
      → (m.sets c j).state ≢ invalid
      → (m.sets c i).tag ≢ (m.sets c j).tag
  pub cached :
      (b i : ℕ)
      → b < 2 ^ 52
      → i < 8
      → (set_of m b i).state ≢ invalid
      → (set_of m b i).tag ≡ cache_tag b
      → (set_of m b i).block (cache_offset b) ≡ f b
  pub backed :
      (b : ℕ)
      → b < 2 ^ 52
      → ((i : ℕ) → i < 8 → (set_of m b i).state ≡ dirty → (set_of m b i).tag ≢ cache_tag b)
      → m.pm b ≡ f b

-- A valid line of the set holds the line of address `p`.
abbrev pub Resident : Memory → ℕ → Type 0
Resident m p =
    (k : ℕ) × (k < 8) × ((set_of m p k).state ≢ invalid) × ((set_of m p k).tag ≡ cache_tag p)

-- `b` lies in the line of `p`.
abbrev pub InLine : ℕ → ℕ → Type 0
InLine p b = (cache_index p ≡ cache_index b) × (cache_tag p ≡ cache_tag b)

pub dirty_or : (s : LineState) → (s ≡ dirty) ⊎ (s ≢ dirty)
dirty_or invalid = inr (λ e. cc)
dirty_or clean = inr (λ e. cc)
dirty_or dirty = inl refl

-- What a line `l` must satisfy to be put at place `i` of the set of `p`, where the lines `c` differ
-- from the set's in their times only.
pub record Fits (m : Memory) (f g : ℕ → ℕ) (p i : ℕ) (l : CacheLine) : Type 0 where
  pub valid : l.state ≢ invalid
  pub tag : l.tag ≡ cache_tag p
  pub only :
      (k : ℕ) → k < 8 → i ≢ k → (set_of m p k).state ≢ invalid → (set_of m p k).tag ≢ cache_tag p
  pub block : (b : ℕ) → b < 2 ^ 52 → InLine p b → l.block (cache_offset b) ≡ g b
  pub outside : (b : ℕ) → (InLine p b → ⊥) → g b ≡ f b
  pub dropped : (set_of m p i).state ≡ dirty → (set_of m p i).tag ≡ cache_tag p
  pub behind : l.state ≢ dirty → (b : ℕ) → b < 2 ^ 52 → InLine p b → m.pm b ≡ g b

module _ {m : Memory} {f g : ℕ → ℕ} (p i : ℕ) (lines : CacheSet) {l : CacheLine}
    (same : (k : ℕ) → SameLine (lines k) (set_of m p k)) (hi : i < 8) (h : Represents m f)
    (fits : Fits m f g p i l) where
  unique_here :
      (j k : ℕ)
      → j < 8
      → k < 8
      → j ≢ k
      → (update lines i l j).state ≢ invalid
      → (update lines i l k).state ≢ invalid
      → (update lines i l j).tag ≢ (update lines i l k).tag
  unique_here j k hj hk ne vj vk =
      let (sj, tj, _) = same j in
      let (sk, tk, _) = same k in
      ground (arith, fits.only j, fits.only k, h.unique (cache_index p) j k, fits.tag)

  put_unique :
      (c j k : ℕ)
      → j < 8
      → k < 8
      → j ≢ k
      → ((put_line m p lines i l).sets c j).state ≢ invalid
      → ((put_line m p lines i l).sets c k).state ≢ invalid
      → ((put_line m p lines i l).sets c j).tag ≢ ((put_line m p lines i l).sets c k).tag
  put_unique c j k hj hk ne vj vk = elim (Bool-cases (cache_index p == c)) [
    | inl e ↦ rw e (unique_here j k hj hk ne (rw e at vj) (rw e at vk))
    | inr e ↦ rw e (h.unique c j k hj hk ne (rw e at vj) (rw e at vk))
  ]

  cached_here :
      (b k : ℕ)
      → b < 2 ^ 52
      → k < 8
      → cache_index p ≡ cache_index b
      → (update lines i l k).state ≢ invalid
      → (update lines i l k).tag ≡ cache_tag b
      → (update lines i l k).block (cache_offset b) ≡ g b
  cached_here b k hb hk at v t = elim (Bool-cases (i == k)) [
    | inl q ↦ rw q (fits.block b hb (at, sym fits.tag ∙ rw q at t))
    | inr q ↦
        let (sk, tk, bk) = same k in
        let v' : (set_of m p k).state ≢ invalid = λ w. (rw q at v) (sk ∙ w) in
        let t' : (set_of m p k).tag ≡ cache_tag b = sym tk ∙ rw q at t in
        let apart = fits.only k hk (λ w. ground arith) v' in
        rw q (
          ap (λ block. block (cache_offset b)) bk
          ∙ (subst
              (λ x.
                (m.sets x k).state ≢ invalid
                → (m.sets x k).tag ≡ cache_tag b
                → (m.sets x k).block (cache_offset b) ≡ f b)
              (sym at) (h.cached b k hb hk) v' t')
          ∙ sym (fits.outside b (λ (_, w). apart (t' ∙ sym w))))
  ]

  put-cached :
      (b k : ℕ)
      → b < 2 ^ 52
      → k < 8
      → (set_of (put_line m p lines i l) b k).state ≢ invalid
      → (set_of (put_line m p lines i l) b k).tag ≡ cache_tag b
      → (set_of (put_line m p lines i l) b k).block (cache_offset b) ≡ g b
  put-cached b k hb hk v t = elim (Bool-cases (cache_index p == cache_index b)) [
    | inl e ↦ rw e (cached_here b k hb hk ((==_iff _ (cache_index b)).0 e) (rw e at v) (rw e at t))
    | inr e ↦
        rw e (h.cached b k hb hk (rw e at v) (rw e at t) ∙ sym (fits.outside b (λ s. ground arith)))
  ]

  -- In the set of `p`, at an address of another line.
  backed_here :
      (b : ℕ)
      → cache_index p ≡ cache_index b
      → cache_tag p ≢ cache_tag b
      → ((k : ℕ)
          → k < 8
          → (update lines i l k).state ≡ dirty
          → (update lines i l k).tag ≢ cache_tag b)
      → (k : ℕ) → k < 8
      → (set_of m b k).state ≡ dirty
      → (set_of m b k).tag ≢ cache_tag b
  backed_here b at ne d k hk =
      subst (λ x. (m.sets x k).state ≡ dirty → (m.sets x k).tag ≢ cache_tag b) at
        λ s. let (sk, tk, _) = same k in ground (arith, d k, fits.dropped)

  put-backed :
      (b : ℕ)
      → b < 2 ^ 52
      → ((k : ℕ)
          → k < 8
          → (set_of (put_line m p lines i l) b k).state ≡ dirty
          → (set_of (put_line m p lines i l) b k).tag ≢ cache_tag b)
      → m.pm b ≡ g b
  put-backed b hb d = elim (Bool-cases (cache_index p == cache_index b)) [
    | inr e ↦ h.backed b hb (λ k hk. rw e at (d k hk)) ∙ sym (fits.outside b (λ s. ground arith))
    | inl e ↦
        let at = (==_iff (cache_index p) (cache_index b)).0 e in
        elim (Bool-cases (cache_tag p == cache_tag b)) [
          | inl q ↦
              let in_line : InLine p b = (at, (==_iff (cache_tag p) (cache_tag b)).0 q) in
              elim (dirty_or l.state) [
                | inl w ↦ absurd (d i hi (rw e (ground arith)) (rw e (ground (arith, fits.tag))))
                | inr w ↦ fits.behind w b hb in_line
              ]
          | inr q ↦
              h.backed b hb (backed_here b at (ground arith) (λ k hk. rw e at (d k hk)))
              ∙ sym (fits.outside b (λ s. ground arith))
        ]
  ]

  pub put-Represents : Represents (put_line m p lines i l) g
  put-Represents = record { unique = put_unique; cached = put-cached; backed = put-backed }

  pub put-Resident : Resident (put_line m p lines i l) p
  put-Resident = (i, hi, ground (arith, fits.valid), ground (arith, fits.tag))
