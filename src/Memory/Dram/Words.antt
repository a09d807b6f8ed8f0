-- ===== src/Memory/Dram/Words.antt =====
-- Aligned 64-bit accesses through the cache, against one flat memory.
use mathlib.Core.Path.{subst, subst₂}
use csapp_stay.Prelude.{
  ℕ, zero, suc, ◌+◌, ◌*◌, ◌/◌, ◌%◌, ◌^◌, ◌<◌, ◌≡◌, ◌≢◌, refl, arith, some, update,
}
use csapp_stay.Memory.Address.{paddr_value, cache_index, cache_tag}
use csapp_stay.Memory.Bytes.{load64, write_bytes, store64}
use csapp_stay.Memory.Sram.{Memory, invalid, sram_cache_read}
use csapp_stay.Memory.Sram.Coherent.{Represents, Resident}
use csapp_stay.Memory.Sram.Reads.{EvictsDirty, sram_cache_read-Returned, Resident-quiet}
use csapp_stay.Memory.Sram.Writes.{sram_cache_write-Stored}
use csapp_stay.Memory.Dram.{
  shl_int, read_cached, cpu_read64bits_dram, write_cached, cpu_write64bits_dram,
}

-- The address of an aligned word.
pub record IsAligned (a : ℕ) : Type 0 where
  pub multiple : a % 8 ≡ 0
  pub small : a < 2 ^ 52

-- The bytes of an aligned word share a line.
next_byte :
    (m : Memory) (a i : ℕ)
    → IsAligned a
    → i < 7
    → Resident m (paddr_value (a + i))
    → Resident m (paddr_value (a + (i + 1)))
next_byte m a i al hi r =
    let s : cache_index (paddr_value (a + i)) ≡ cache_index (paddr_value (a + (i + 1))) =
      omega arith in
    let t : cache_tag (paddr_value (a + i)) ≡ cache_tag (paddr_value (a + (i + 1))) = omega arith in
    subst₂ (λ x y. (k : ℕ) × (k < 8) × ((m.sets x k).state ≢ invalid) × ((m.sets x k).tag ≡ y)) s t
      r

-- No access to the next byte of the word evicts a dirty line, if there is a next byte.
abbrev Quiet : ℕ → Memory → ℕ → Type 0
Quiet n m a = 0 < n → (j : ℕ) → ¬ EvictsDirty m a j

next-Quiet :
    (m : Memory) (a i n : ℕ)
    → IsAligned a
    → i + suc n ≡ 8
    → Resident m (paddr_value (a + i))
    → Quiet n m (a + (i + 1))
next-Quiet m a i n al e r h = Resident-quiet m (a + (i + 1)) (next_byte m a i al (omega arith) r)

write_cached-Represents :
    (n i : ℕ) {m : Memory} {f : ℕ → ℕ} (a word : ℕ)
    → IsAligned a
    → i + n ≡ 8
    → Represents m f
    → Quiet n m (a + i)
    → (m' : Memory) × (write_cached n i m a word ≡ some m')
      × Represents m' (write_bytes n i f a word)
unfolding write_cached write_bytes
write_cached-Represents zero i {m} a word al e h q = (m, refl, h)
write_cached-Represents (suc n) i {m} {f} a word al e h q =
    let byte = word / 2 ^ (i * 8) % 256 in
    let here : paddr_value (a + i) ≡ a + i = omega arith in
    let (m₁, run, h₁, r) = sram_cache_write-Stored (a + i) byte h (q (omega arith)) in
    let h₂ = subst (λ p. Represents m₁ (update f p byte)) here h₁ in
    let (m₂, run₂, h₃) =
      write_cached-Represents n (i + 1) a word al (omega arith) h₂ (next-Quiet m₁ a i n al e r) in
    (m₂, rw (run, write_cached) run₂, h₃)

-- A 64-bit write through the cache to an aligned 52-bit address, whose first byte does not evict a
-- dirty line, succeeds and stores the eight bytes in the flat memory, little end first.
pub cpu_write64bits_dram-Represents :
    {m : Memory} {f : ℕ → ℕ} (a word : ℕ)
    → IsAligned a
    → Represents m f
    → ((j : ℕ) → ¬ EvictsDirty m a j)
    → (m' : Memory) × (cpu_write64bits_dram 1 m a word ≡ some m') × Represents m' (store64 f a word)
unfolding cpu_write64bits_dram store64
cpu_write64bits_dram-Represents {m} a word al h q =
    write_cached-Represents 8 0 a word al refl h
      (λ _. subst (λ (x : ℕ). (j : ℕ) → ¬ EvictsDirty m x j) (omega arith) q)

-- What the read loop adds up.
pub sum_cached : ℕ → ℕ → (ℕ → ℕ) → ℕ → ℕ → ℕ
sum_cached zero i f a val = val
sum_cached (suc n) i f a val =
    sum_cached n (i + 1) f a ((val + shl_int (f (a + i)) (i * 8)) % 2 ^ 64)

read_cached-Represents :
    (n i : ℕ) {m : Memory} {f : ℕ → ℕ} (a val : ℕ)
    → IsAligned a
    → i + n ≡ 8
    → Represents m f
    → Quiet n m (a + i)
    → (m' : Memory) × (read_cached n i m a val ≡ some (m', sum_cached n i f a val))
      × Represents m' f
unfolding read_cached sum_cached
read_cached-Represents zero i {m} a val al e h q = (m, refl, h)
read_cached-Represents (suc n) i {m} {f} a val al e h q =
    let here : paddr_value (a + i) ≡ a + i = omega arith in
    let (m₁, run, h₁, r) = sram_cache_read-Returned (a + i) h (q (omega arith)) in
    let run' = subst (λ x. sram_cache_read m (a + i) ≡ some (m₁, f x)) here run in
    let val₁ = (val + shl_int (f (a + i)) (i * 8)) % 2 ^ 64 in
    let (m₂, run₂, h₃) =
      read_cached-Represents n (i + 1) a val₁ al (omega arith) h₁ (next-Quiet m₁ a i n al e r) in
    (m₂, rw (run', read_cached) run₂, h₃)

shl_int-zero : (k : ℕ) → shl_int 0 k ≡ 0
unfolding shl_int
shl_int-zero k = ground arith

shl_int_low :
    (b : ℕ) → b < 128 → (shl_int b 0 ≡ b) × (shl_int b 24 ≡ b * 2 ^ 24) × (shl_int b 32 ≡ b)
unfolding shl_int
shl_int_low b h = ground arith

shl_int_mid :
    (b : ℕ) → b < 256 → (shl_int b 0 ≡ b) × (shl_int b 8 ≡ b * 2 ^ 8) × (shl_int b 16 ≡ b * 2 ^ 16)
unfolding shl_int
shl_int_mid b h = ground arith

module _ (f : ℕ → ℕ) (a : ℕ) (b : (k : ℕ) → f k < 256) where
  -- The last bytes of a small word are zero.
  small_bytes :
      load64 f a < 2 ^ 31
      → (f (a + 3) < 128) × (f (a + 4) ≡ 0) × (f (a + 5) ≡ 0) × (f (a + 6) ≡ 0) × (f (a + 7) ≡ 0)
  unfolding load64
  small_bytes h = omega (
    arith,
    b (a + 0),
    b (a + 1),
    b (a + 2),
    b (a + 3),
    b (a + 4),
    b (a + 5),
    b (a + 6),
    b (a + 7),
  )

  sum_cached-small : load64 f a < 2 ^ 31 → sum_cached 8 0 f a 0 ≡ load64 f a
  unfolding load64 sum_cached
  sum_cached-small h =
      let (e3, e4, e5, e6, e7) = small_bytes h in
      rw (e4, e5, e6, e7)
        (omega (
          arith,
          shl_int_mid (f (a + 0)) (b (a + 0)),
          shl_int_mid (f (a + 1)) (b (a + 1)),
          shl_int_mid (f (a + 2)) (b (a + 2)),
          shl_int_low (f (a + 3)) e3,
          shl_int-zero 32,
          shl_int-zero 40,
          shl_int-zero 48,
          shl_int-zero 56,
        ))

  high_bytes :
      (c : ℕ)
      → c < 128
      → load64 f a ≡ c * 2 ^ 32
      → (f (a + 0) ≡ 0)
        × (f (a + 1) ≡ 0)
        × (f (a + 2) ≡ 0)
        × (f (a + 3) ≡ 0)
        × (f (a + 4) ≡ c)
        × (f (a + 5) ≡ 0)
        × (f (a + 6) ≡ 0)
        × (f (a + 7) ≡ 0)
  unfolding load64
  high_bytes c hc h = omega (
    arith,
    b (a + 0),
    b (a + 1),
    b (a + 2),
    b (a + 3),
    b (a + 4),
    b (a + 5),
    b (a + 6),
    b (a + 7),
  )

  sum_cached-high : (c : ℕ) → c < 128 → load64 f a ≡ c * 2 ^ 32 → sum_cached 8 0 f a 0 ≡ c
  unfolding sum_cached
  sum_cached-high c hc h =
      let (e0, e1, e2, e3, e4, e5, e6, e7) = high_bytes c hc h in
      rw (e0, e1, e2, e3, e4, e5, e6, e7)
        (omega (
          arith,
          shl_int-zero 0,
          shl_int-zero 8,
          shl_int-zero 16,
          shl_int-zero 24,
          shl_int_low c hc,
          shl_int-zero 40,
          shl_int-zero 48,
          shl_int-zero 56,
        ))

module _ {m : Memory} {f : ℕ → ℕ} (a : ℕ) (al : IsAligned a) (h : Represents m f)
    (q : (j : ℕ) → ¬ EvictsDirty m a j) (b : (k : ℕ) → f k < 256) where
  read_sum :
      (m' : Memory) × (cpu_read64bits_dram 1 m a ≡ some (m', sum_cached 8 0 f a 0))
      × Represents m' f
  unfolding cpu_read64bits_dram
  read_sum =
      read_cached-Represents 8 0 a 0 al refl h
        (λ _. subst (λ (x : ℕ). (j : ℕ) → ¬ EvictsDirty m x j) (omega arith) q)

  -- A 64-bit read through the cache at an aligned 52-bit address, from a flat memory of bytes,
  -- whose first byte does not evict a dirty line, succeeds and returns the word, if the word is
  -- below 2^31.
  pub cpu_read64bits_dram-small :
      load64 f a < 2 ^ 31
      → (m' : Memory) × (cpu_read64bits_dram 1 m a ≡ some (m', load64 f a)) × Represents m' f
  cpu_read64bits_dram-small lt =
      subst (λ v. (m' : Memory) × (cpu_read64bits_dram 1 m a ≡ some (m', v)) × Represents m' f)
        (sum_cached-small f a b lt) read_sum

  -- At an aligned 52-bit address, from a flat memory of bytes, where the first byte does not evict
  -- a dirty line, a 64-bit read through the cache of a word c * 2^32 with c below 128 succeeds and
  -- returns c: the promoted byte's shift count is taken modulo 32.
  pub cpu_read64bits_dram-high :
      (c : ℕ)
      → c < 128
      → load64 f a ≡ c * 2 ^ 32
      → (m' : Memory) × (cpu_read64bits_dram 1 m a ≡ some (m', c)) × Represents m' f
  cpu_read64bits_dram-high c hc e =
      subst (λ v. (m' : Memory) × (cpu_read64bits_dram 1 m a ≡ some (m', v)) × Represents m' f)
        (sum_cached-high f a b c hc e) read_sum
