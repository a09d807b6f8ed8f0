-- ===== src/Memory/Sram/Accesses.antt =====
-- The lines that an access puts back fit the set that they come from.
use mathlib.Core.Path.{subst}
use csapp_stay.Prelude.{
  ℕ, ◌^◌, ◌<◌, ◌≡◌, ◌≢◌, refl, sym, ◌∙◌, arith, ◌==◌, ==_iff, Bool-cases, inl, inr, update,
}
use csapp_stay.Memory.Address.{cache_offset, cache_index, cache_tag, same_line}
use csapp_stay.Memory.Bytes.{bus_read_cacheline-at}
use csapp_stay.Memory.Sram.{
  LineState, invalid, clean, dirty, CacheLine, Memory, set_of, write_back, loaded, written,
}
use csapp_stay.Memory.Sram.Lines.{SameLine, Missed}
use csapp_stay.Memory.Sram.Coherent.{Represents, InLine, Fits}

-- A line that hits, with another time.
pub hit-Fits :
    {m : Memory} {f : ℕ → ℕ} (p i time : ℕ) (l : CacheLine)
    → p < 2 ^ 52
    → i < 8
    → SameLine l (set_of m p i)
    → (set_of m p i).state ≢ invalid
    → (set_of m p i).tag ≡ cache_tag p
    → Represents m f
    → Fits m f f p i (record l { time = time })
hit-Fits {m} {f} p i time l hp hi (a, b, c) v t h = record {
  valid = λ w. v (sym a ∙ w);
  tag = b ∙ t;
  only = only;
  block = λ x hx s. rw c (held x hx s);
  outside = λ x s. refl;
  dropped = λ s. t;
  behind = λ w x hx s. h.backed x hx (spared w x s);
}
  where
    only :
        (k : ℕ) → k < 8 → i ≢ k → (set_of m p k).state ≢ invalid → (set_of m p k).tag ≢ cache_tag p
    only k hk ne vk q = h.unique (cache_index p) i k hi hk ne v vk (t ∙ sym q)

    held : (x : ℕ) → x < 2 ^ 52 → InLine p x → (set_of m p i).block (cache_offset x) ≡ f x
    held x hx (at, same) =
        subst
          (λ (y : ℕ).
            (m.sets y i).state ≢ invalid
            → (m.sets y i).tag ≡ cache_tag x
            → (m.sets y i).block (cache_offset x) ≡ f x)
          (sym at) (h.cached x i hx hi) v (t ∙ same)

    spared :
        l.state ≢ dirty
        → (x : ℕ) → InLine p x
        → (k : ℕ) → k < 8
        → (set_of m x k).state ≡ dirty
        → (set_of m x k).tag ≢ cache_tag x
    spared w x (at, same) k hk =
        subst (λ (y : ℕ). (m.sets y k).state ≡ dirty → (m.sets y k).tag ≢ cache_tag x) at
          λ d q. elim (Bool-cases (i == k)) [
            | inl e ↦
                let z : i ≡ k = (==_iff i k).0 e in
                w (a ∙ subst (λ (y : ℕ). (set_of m p y).state ≡ dirty) (sym z) d)
            | inr e ↦ only k hk (ground arith) (λ z. cc) (q ∙ sym same)
          ]

-- A line loaded from memory in place of one that is not dirty, where no line has the tag.
pub loaded-Fits :
    {m : Memory} {f : ℕ → ℕ} (p i : ℕ) (l : CacheLine)
    → p < 2 ^ 52
    → i < 8
    → (set_of m p i).state ≢ dirty
    → Missed (set_of m p) (cache_tag p)
    → Represents m f
    → Fits m f f p i (loaded m.pm p l)
loaded-Fits {m} {f} p i l hp hi nd miss h = record {
  valid = λ w. cc;
  tag = refl;
  only = λ k hk ne v. miss k hk v;
  block = λ x hx (at, same).
      bus_read_cacheline-at m.pm p l.block (cache_offset x) (omega arith)
      ∙ rw (same_line p x hp hx at same) (fetched x hx (at, same));
  outside = λ x s. refl;
  dropped = λ s. absurd (nd s);
  behind = λ w x hx s. fetched x hx s;
}
  where
    fetched : (x : ℕ) → x < 2 ^ 52 → InLine p x → m.pm x ≡ f x
    fetched x hx (at, same) = h.backed x hx λ k hk.
        subst (λ (y : ℕ). (m.sets y k).state ≡ dirty → (m.sets y k).tag ≢ cache_tag x) at
          λ d q. miss k hk (λ z. cc) (q ∙ sym same)

-- Storing a byte in a line that fits makes it fit the updated memory.
pub written-Fits :
    {m : Memory} {f : ℕ → ℕ} (p i byte : ℕ) {l : CacheLine}
    → p < 2 ^ 52
    → Fits m f f p i l
    → Fits m f (update f p byte) p i (written p byte l)
written-Fits {m} {f} p i byte {l} hp fits = record {
  valid = λ w. cc;
  tag = fits.tag;
  only = fits.only;
  block = λ x hx s. stored x hx s;
  outside = λ x s. apart x s;
  dropped = fits.dropped;
  behind = λ w. absurd (w refl);
}
  where
    stored :
        (x : ℕ)
        → x < 2 ^ 52
        → InLine p x
        → update l.block (cache_offset p) byte (cache_offset x) ≡ update f p byte x
    stored x hx (at, same) =
        let whole = same_line p x hp hx at same in
        let held = fits.block x hx (at, same) in
        elim (Bool-cases (p == x)) [
          | inl e ↦ let z : p ≡ x = (==_iff p x).0 e in rw z (ground arith)
          | inr e ↦
              let pq : p ≢ x = ground arith in
              let ne : cache_offset p ≢ cache_offset x = λ q. pq (omega arith) in
              rw e (ground arith)
        ]

    apart : (x : ℕ) → (InLine p x → ⊥) → update f p byte x ≡ f x
    apart x s = elim (Bool-cases (p == x)) [
      | inl e ↦ let z : p ≡ x = (==_iff p x).0 e in absurd (s (rw z (refl, refl)))
      | inr e ↦ rw e
    ]

pub write_back-clean :
    (m : Memory) (p : ℕ) (l : CacheLine) (s : LineState) → s ≢ dirty → write_back m p l s ≡ m
unfolding write_back
write_back-clean m p l dirty n = absurd (n refl)
write_back-clean m p l clean n = refl
write_back-clean m p l invalid n = refl
