-- ===== src/Memory/Sram/Reads.antt =====
-- `sram_cache_read` against one flat memory.
use mathlib.Core.Path.{subst}
use csapp_stay.Prelude.{ℕ, ◌^◌, ◌<◌, ◌≡◌, ◌≢◌, refl, sym, ap, ◌∙◌, arith, Option, some, update}
use csapp_stay.Memory.Address.{paddr_value, cache_offset, cache_index, cache_tag}
use csapp_stay.Memory.Bytes.{bus_read_cacheline-at, bus_write_cacheline, bus_write_cacheline-at}
use csapp_stay.Memory.Sram.{
  dirty, CacheSet, Memory, set_of, scan_set, Outcome, hit, fill, evict, failed, outcome, loaded,
  read_at, sram_cache_read,
}
use csapp_stay.Memory.Sram.Lines.{SameLine, Selected, scan_set-SameLine, outcome-Selected}
use csapp_stay.Memory.Sram.Coherent.{Represents, put-Represents, put-Resident, Resident}
use csapp_stay.Memory.Sram.Accesses.{hit-Fits, loaded-Fits, write_back-clean}

-- The access to `a` misses in a full set whose victim is dirty.
abbrev pub EvictsDirty : Memory → ℕ → ℕ → Type 0
EvictsDirty m a i =
    let p = paddr_value a in
    (outcome (set_of m p) (cache_tag p) ≡ evict i) × ((set_of m p i).state ≡ dirty)

-- The byte of `f` is returned, the new state still stands for `f`, and the line is in the cache.
abbrev pub Returned : (ℕ → ℕ) → ℕ → Option (Memory × ℕ) → Type 0
Returned f p r = (m' : Memory) × (r ≡ some (m', f p)) × Represents m' f × Resident m' p

returned :
    {f : ℕ → ℕ} {p : ℕ} (m' : Memory) (v : ℕ)
    → v ≡ f p
    → Represents m' f
    → Resident m' p
    → Returned f p (some (m', v))
returned m' v e h r = (m', ap (λ v. some (m', v)) e, h, r)

module _ {m : Memory} {f : ℕ → ℕ} (p : ℕ) (lines : CacheSet) (hp : p < 2 ^ 52)
    (same : (k : ℕ) → SameLine (lines k) (set_of m p k)) (h : Represents m f) where
  read_at-Returned :
      (o : Outcome)
      → Selected (set_of m p) (cache_tag p) o
      → ((i : ℕ) → o ≡ evict i → (set_of m p i).state ≢ dirty)
      → Returned f p (read_at m p lines o)
  unfolding read_at
  read_at-Returned (hit i) (hi, v, t) nd =
      let fits = hit-Fits p i 0 (lines i) hp hi (same i) v t h in
      (returned _ _ (fits.block p hp (refl, refl)) (put-Represents p i lines same hi h fits)
        (put-Resident p i lines same hi h fits))
  read_at-Returned (fill i) (hi, v, miss) nd =
      let fits = loaded-Fits p i (lines i) hp hi (λ d. cc) miss h in
      (returned _ _ (fits.block p hp (refl, refl)) (put-Represents p i lines same hi h fits)
        (put-Resident p i lines same hi h fits))
  read_at-Returned (evict i) (hi, v, miss, _) nd =
      let fits = loaded-Fits p i (lines i) hp hi (nd i refl) miss h in
      rw (write_back-clean m p (lines i) (lines i).state (λ d. nd i refl (sym (same i).0 ∙ d))) (
        returned _ _ (fits.block p hp (refl, refl)) (put-Represents p i lines same hi h fits)
          (put-Resident p i lines same hi h fits))
  read_at-Returned failed sel nd = absurd sel

-- Where cache and memory stand for one flat memory, and the access does not evict a dirty line, a
-- read succeeds, returns the flat memory's byte, leaves cache and memory standing for the same
-- flat memory, and leaves the line in the cache.
pub sram_cache_read-Returned :
    {m : Memory} {f : ℕ → ℕ} (a : ℕ)
    → Represents m f
    → ((i : ℕ) → ¬ EvictsDirty m a i)
    → Returned f (paddr_value a) (sram_cache_read m a)
unfolding sram_cache_read
sram_cache_read-Returned {m} a h nd =
    let p = paddr_value a in
    read_at-Returned p _ (omega arith) (scan_set-SameLine (set_of m p)) h _
      (outcome-Selected (set_of m p) (cache_tag p)) (λ i e d. nd i (e, d))

read_at-victim :
    (m : Memory) (p i : ℕ) (lines : CacheSet)
    → (lines i).state ≡ dirty
    → (m' : Memory) × (read_at m p lines (evict i) ≡ some (m', (lines i).block (cache_offset p)))
unfolding read_at
read_at-victim m p i lines d =
    let block = (lines i).block in
    let pm = bus_write_cacheline m.pm p block in
    let copied =
      bus_read_cacheline-at pm p block (cache_offset p) (omega arith)
      ∙ bus_write_cacheline-at m.pm p block (cache_offset p) (omega arith) in
    let m' : Memory = record {
      sets = update m.sets (cache_index p) (update lines i (loaded pm p (lines i)));
      pm = pm;
    } in
    (m', rw d (ap (λ v. some (m', v)) copied))

-- A read that evicts a dirty line succeeds and returns the victim's byte at its own offset,
-- whatever the memory held: the victim is written to the address of the read and read back from
-- there.
pub sram_cache_read-victim :
    (m : Memory) (a i : ℕ)
    → EvictsDirty m a i
    → (m' : Memory) × (sram_cache_read m a
        ≡ some (m', (set_of m (paddr_value a) i).block (cache_offset (paddr_value a))))
unfolding sram_cache_read
sram_cache_read-victim m a i (e, d) =
    let p = paddr_value a in
    let (s, _, b) = scan_set-SameLine (set_of m p) i in
    let (m', got) = read_at-victim m p i (scan_set (set_of m p)).lines (s ∙ d) in
    (m', rw (e, ← b) got)

-- No line of a resident address is evicted by an access to it.
pub Resident-quiet :
    (m : Memory) (a : ℕ) → Resident m (paddr_value a) → (i : ℕ) → ¬ EvictsDirty m a i
Resident-quiet m a (k, hk, v, t) i (e, d) =
    let p = paddr_value a in
    let sel =
      subst (Selected (set_of m p) (cache_tag p)) e (outcome-Selected (set_of m p) (cache_tag p)) in
    sel.2 k hk v t
