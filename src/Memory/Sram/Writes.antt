-- ===== src/Memory/Sram/Writes.antt =====
-- `sram_cache_write` against one flat memory.
use csapp_stay.Prelude.{ℕ, ◌^◌, ◌<◌, ◌≡◌, ◌≢◌, refl, sym, ◌∙◌, arith, Option, some, update}
use csapp_stay.Memory.Address.{paddr_value, cache_tag}
use csapp_stay.Memory.Sram.{
  dirty, CacheSet, Memory, set_of, Outcome, hit, fill, evict, failed, write_at, sram_cache_write,
}
use csapp_stay.Memory.Sram.Lines.{SameLine, Selected, scan_set-SameLine, outcome-Selected}
use csapp_stay.Memory.Sram.Coherent.{Represents, Resident, put-Represents, put-Resident}
use csapp_stay.Memory.Sram.Accesses.{hit-Fits, loaded-Fits, written-Fits, write_back-clean}
use csapp_stay.Memory.Sram.Reads.{EvictsDirty}

-- The new state stands for `f`, and the line of `p` is in the cache.
abbrev pub Stored : (ℕ → ℕ) → ℕ → Option Memory → Type 0
Stored f p r = (m' : Memory) × (r ≡ some m') × Represents m' f × Resident m' p

module _ {m : Memory} {f : ℕ → ℕ} (p byte : ℕ) (lines : CacheSet) (hp : p < 2 ^ 52)
    (same : (k : ℕ) → SameLine (lines k) (set_of m p k)) (h : Represents m f) where
  write_at-Stored :
      (o : Outcome)
      → Selected (set_of m p) (cache_tag p) o
      → ((i : ℕ) → o ≡ evict i → (set_of m p i).state ≢ dirty)
      → Stored (update f p byte) p (write_at m p byte lines o)
  unfolding write_at
  write_at-Stored (hit i) (hi, v, t) nd =
      let fits = hit-Fits p i 0 (lines i) hp hi (same i) v t h in
      (
        _,
        refl,
        put-Represents p i lines same hi h (written-Fits p i byte hp fits),
        put-Resident p i lines same hi h (written-Fits p i byte hp fits),
      )
  write_at-Stored (fill i) (hi, v, miss) nd =
      let fits = loaded-Fits p i (lines i) hp hi (λ d. cc) miss h in
      (
        _,
        refl,
        put-Represents p i lines same hi h (written-Fits p i byte hp fits),
        put-Resident p i lines same hi h (written-Fits p i byte hp fits),
      )
  write_at-Stored (evict i) (hi, v, miss, _) nd =
      let fits = loaded-Fits p i (lines i) hp hi (nd i refl) miss h in
      rw (write_back-clean m p (lines i) (lines i).state (λ d. nd i refl (sym (same i).0 ∙ d))) (
        _,
        refl,
        put-Represents p i lines same hi h (written-Fits p i byte hp fits),
        put-Resident p i lines same hi h (written-Fits p i byte hp fits),
      )
  write_at-Stored failed sel nd = absurd sel

-- Where cache and memory stand for one flat memory, and the access does not evict a dirty line, a
-- write succeeds, the cache and memory stand after for the flat memory with that one byte changed,
-- and leaves the line in the cache.
pub sram_cache_write-Stored :
    {m : Memory} {f : ℕ → ℕ} (a byte : ℕ)
    → Represents m f
    → ((i : ℕ) → ¬ EvictsDirty m a i)
    → Stored (update f (paddr_value a) byte) (paddr_value a) (sram_cache_write m a byte)
unfolding sram_cache_write
sram_cache_write-Stored {m} a byte h nd =
    let p = paddr_value a in
    write_at-Stored p byte _ (omega arith) (scan_set-SameLine (set_of m p)) h _
      (outcome-Selected (set_of m p) (cache_tag p)) (λ i e d. nd i (e, d))
