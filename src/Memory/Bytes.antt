-- ===== src/Memory/Bytes.antt =====
-- Byte arrays: 64-bit little-endian access as in the uncached branches of headware/memory/dram.c,
-- and the line transfers of the I/O bus.
use csapp_stay.Prelude.{
  ℕ, zero, suc, ◌+◌, ◌*◌, ◌/◌, ◌%◌, ◌^◌, ◌≤◌, ◌<◌, ◌≡◌, refl, ◌∙◌, arith, update, ◌==◌, Bool-cases,
  ==_iff, inl, inr, ◌⊎◌,
}
use csapp_stay.Memory.Address.{dram_base}

abbrev pub Bytes : Type 0
Bytes = ℕ → ℕ

-- `for (i, j = 0; i < 8; i++, j += 8) val += ((uint64_t)pm[paddr + i]) << j`, `n` rounds left.
unfoldable pub read_bytes : ℕ → ℕ → Bytes → ℕ → ℕ → ℕ
read_bytes zero i pm paddr val = val
read_bytes (suc n) i pm paddr val =
    read_bytes n (i + 1) pm paddr ((val + pm (paddr + i) * 2 ^ (i * 8)) % 2 ^ 64)

unfoldable pub load64 : Bytes → ℕ → ℕ
unfolding read_bytes
load64 pm paddr = read_bytes 8 0 pm paddr 0

-- `pm[paddr + i] = (data >> j) & 0xff`, `n` rounds left.
unfoldable pub write_bytes : ℕ → ℕ → Bytes → ℕ → ℕ → Bytes
write_bytes zero i pm paddr word = pm
write_bytes (suc n) i pm paddr word =
    write_bytes n (i + 1) (update pm (paddr + i) (word / 2 ^ (i * 8) % 256)) paddr word

unfoldable pub store64 : Bytes → ℕ → ℕ → Bytes
unfolding write_bytes
store64 pm paddr word = write_bytes 8 0 pm paddr word

-- `bus_read_cacheline`: `block[i] = pm[dram_base + i]`, `n` rounds left.
unfoldable pub copy_block : ℕ → ℕ → Bytes → ℕ → Bytes → Bytes
copy_block zero i pm base block = block
copy_block (suc n) i pm base block = copy_block n (i + 1) pm base (update block i (pm (base + i)))

unfoldable pub bus_read_cacheline : Bytes → ℕ → Bytes → Bytes
unfolding copy_block
bus_read_cacheline pm paddr block = copy_block 64 0 pm (dram_base paddr) block

-- `bus_write_cacheline`: `pm[dram_base + i] = block[i]`, `n` rounds left.
unfoldable pub paste_block : ℕ → ℕ → Bytes → ℕ → Bytes → Bytes
paste_block zero i pm base block = pm
paste_block (suc n) i pm base block =
    paste_block n (i + 1) (update pm (base + i) (block i)) base block

unfoldable pub bus_write_cacheline : Bytes → ℕ → Bytes → Bytes
unfolding paste_block
bus_write_cacheline pm paddr block = paste_block 64 0 pm (dram_base paddr) block

-- What the write loop leaves alone.
write_bytes-outside :
    (n i : ℕ) (pm : Bytes) (a v b : ℕ)
    → (b < a + i) ⊎ (a + i + n ≤ b)
    → write_bytes n i pm a v b ≡ pm b
unfolding write_bytes
write_bytes-outside zero i pm a v b h = refl
write_bytes-outside (suc n) i pm a v b h =
    write_bytes-outside n (i + 1) _ a v b (omega arith) ∙ ground arith

write_bytes-at :
    (n i : ℕ) (pm : Bytes) (a v k : ℕ)
    → i ≤ k
    → k < i + n
    → write_bytes n i pm a v (a + k) ≡ v / 2 ^ (k * 8) % 256
unfolding write_bytes
write_bytes-at zero i pm a v k lo hi = absurd (omega arith)
write_bytes-at (suc n) i pm a v k lo hi = elim (Bool-cases (i == k)) [
  | inl e ↦
      let at : i ≡ k = (==_iff i k).0 e in
      write_bytes-outside n (i + 1) _ a v (a + k) (omega arith) ∙ rw at (ground arith)
  | inr e ↦ write_bytes-at n (i + 1) _ a v k (ground arith) (omega arith)
]

pub store64-at : (pm : Bytes) (a v k : ℕ) → k < 8 → store64 pm a v (a + k) ≡ v / 2 ^ (k * 8) % 256
unfolding store64
store64-at pm a v k h = write_bytes-at 8 0 pm a v k (omega arith) (omega arith)

pub store64-outside : (pm : Bytes) (a v b : ℕ) → (b < a) ⊎ (a + 8 ≤ b) → store64 pm a v b ≡ pm b
unfolding store64
store64-outside pm a v b h = write_bytes-outside 8 0 pm a v b (omega arith)

-- Without the cache, a 64-bit word below 2^64 reads back as it was written.
pub load64-store64 : (pm : Bytes) (a v : ℕ) → v < 2 ^ 64 → load64 (store64 pm a v) a ≡ v
unfolding load64
load64-store64 pm a v h =
    let at = store64-at pm a v in
    omega (
      arith,
      at 0 (omega arith),
      at 1 (omega arith),
      at 2 (omega arith),
      at 3 (omega arith),
      at 4 (omega arith),
      at 5 (omega arith),
      at 6 (omega arith),
      at 7 (omega arith),
    )

read_bytes_congr :
    (n i : ℕ) (pm qm : Bytes) (a val : ℕ)
    → ((k : ℕ) → k < i + n → pm (a + k) ≡ qm (a + k))
    → read_bytes n i pm a val ≡ read_bytes n i qm a val
unfolding read_bytes
read_bytes_congr zero i pm qm a val h = refl
read_bytes_congr (suc n) i pm qm a val h =
    rw (h i (omega arith)) (read_bytes_congr n (i + 1) pm qm a _ (λ k l. h k (omega arith)))

-- Without the cache, a 64-bit write leaves every word that it does not overlap.
pub load64-store64_apart :
    (pm : Bytes) (a b v : ℕ) → (b + 8 ≤ a) ⊎ (a + 8 ≤ b) → load64 (store64 pm a v) b ≡ load64 pm b
unfolding load64
load64-store64_apart pm a b v h =
    read_bytes_congr 8 0 (store64 pm a v) pm b 0
      (λ k l. store64-outside pm a v (b + k) (omega arith))

copy_block-at :
    (n i : ℕ) (pm : Bytes) (base : ℕ) (block : Bytes) (k : ℕ)
    → k < i + n
    → (k < i → block k ≡ pm (base + k))
    → copy_block n i pm base block k ≡ pm (base + k)
unfolding copy_block
copy_block-at zero i pm base block k hi h = h (omega arith)
copy_block-at (suc n) i pm base block k hi h =
    copy_block-at n (i + 1) pm base _ k (omega arith) (λ l. ground (arith, h))

pub bus_read_cacheline-at :
    (pm : Bytes) (p : ℕ) (block : Bytes) (k : ℕ)
    → k < 64
    → bus_read_cacheline pm p block k ≡ pm (dram_base p + k)
unfolding bus_read_cacheline
bus_read_cacheline-at pm p block k h =
    copy_block-at 64 0 pm (dram_base p) block k (omega arith) (λ l. absurd (omega arith))

paste_block-at :
    (n i : ℕ) (pm : Bytes) (base : ℕ) (block : Bytes) (k : ℕ)
    → k < i + n
    → (k < i → pm (base + k) ≡ block k)
    → paste_block n i pm base block (base + k) ≡ block k
unfolding paste_block
paste_block-at zero i pm base block k hi h = h (omega arith)
paste_block-at (suc n) i pm base block k hi h =
    paste_block-at n (i + 1) _ base block k (omega arith) (λ l. elim (Bool-cases (i == k)) [
      | inl e ↦ let at : i ≡ k = (==_iff i k).0 e in rw at (ground arith)
      | inr e ↦ ground (arith, h)
    ])

pub bus_write_cacheline-at :
    (pm : Bytes) (p : ℕ) (block : Bytes) (k : ℕ)
    → k < 64
    → bus_write_cacheline pm p block (dram_base p + k) ≡ block k
unfolding bus_write_cacheline
bus_write_cacheline-at pm p block k h =
    paste_block-at 64 0 pm (dram_base p) block k (omega arith) (λ l. absurd (omega arith))

read_bytes-bound :
    (n i : ℕ) (pm : Bytes) (a val : ℕ) → val < 2 ^ 64 → read_bytes n i pm a val < 2 ^ 64
unfolding read_bytes
read_bytes-bound zero i pm a val h = h
read_bytes-bound (suc n) i pm a val h = read_bytes-bound n (i + 1) pm a _ (omega arith)

pub load64-bound : (pm : Bytes) (a : ℕ) → load64 pm a < 2 ^ 64
unfolding load64
load64-bound pm a = read_bytes-bound 8 0 pm a 0 (omega arith)
