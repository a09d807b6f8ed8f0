-- ===== src/Memory/Runs.antt =====
-- src/headware/cpu/sram.c and memory/dram.c at concrete inputs: a memory whose bytes are their
-- addresses, behind an empty cache.
use csapp_stay.Prelude.{[], ◌∷◌, ◌⊎◌, ◌≤◌, ℕ, ◌≡◌, refl, ◌%◌, ◌<◌, arith, some, update}
use csapp_stay.Memory.Address.{paddr_value}
use csapp_stay.Memory.Bytes.{Bytes, store64}
use csapp_stay.Memory.Sram.{invalid, CacheLine, Memory, sram_cache_read, sram_cache_write}
use csapp_stay.Memory.Sram.Coherent.{Represents}
use csapp_stay.Memory.Sram.Reads.{EvictsDirty, Returned, sram_cache_read-Returned}
use csapp_stay.Memory.Sram.Writes.{Stored, sram_cache_write-Stored}
use csapp_stay.Memory.Dram.{cpu_write64bits_dram, cpu_writeinst_dram, cpu_readinst_dram, text_of}
use csapp_stay.Memory.Dram.Texts.{text_of-cpu_writeinst_dram}
use csapp_stay.Memory.Dram.Words.{cpu_write64bits_dram-Represents}

abbrev empty_line : CacheLine
empty_line = record { state = invalid; time = 0; tag = 0; block = λ k. 0 }

abbrev empty_cache : Bytes → Memory
empty_cache pm = record { sets = λ i k. empty_line; pm = pm }

empty_cache-Represents : (pm : Bytes) → Represents (empty_cache pm) pm
empty_cache-Represents pm = record {
  unique = λ c i j hi hj ne vi vj. absurd (vi refl);
  cached = λ b i hb hi v t. absurd (v refl);
  backed = λ b hb d. refl;
}

-- An access to an empty cache fills a line.
empty_cache-quiet : (pm : Bytes) (a i : ℕ) → ¬ EvictsDirty (empty_cache pm) a i
empty_cache-quiet pm a i (e, d) = cc

abbrev pm : Bytes
pm k = k % 256

abbrev m : Memory
m = empty_cache pm

sram_cache_read-Returned_example : Returned pm (paddr_value 300) (sram_cache_read m 300)
sram_cache_read-Returned_example =
    sram_cache_read-Returned 300 (empty_cache-Represents pm) (empty_cache-quiet pm 300)

sram_cache_write-Stored_example :
    Stored (update pm (paddr_value 300) 9) (paddr_value 300) (sram_cache_write m 300 9)
sram_cache_write-Stored_example =
    sram_cache_write-Stored 300 9 (empty_cache-Represents pm) (empty_cache-quiet pm 300)

cpu_write64bits_dram-Represents_example :
    (m' : Memory) × (cpu_write64bits_dram 1 m 304 9999 ≡ some m')
    × Represents m' (store64 pm 304 9999)
cpu_write64bits_dram-Represents_example =
    cpu_write64bits_dram-Represents 304 9999
      (record { multiple = omega arith; small = omega arith }) (empty_cache-Represents pm)
      (empty_cache-quiet pm 304)

-- 77 at address 8, and 5 in the fifth byte at address 16.
abbrev words : Bytes
words = update (update (λ k. 0) 8 77) 20 5

words-byte : (k : ℕ) → words k < 256
words-byte k = ground arith

-- "ret" at address 128.
text_of-cpu_writeinst_dram_example :
    (pm' : Bytes) × (cpu_writeinst_dram pm 128 (b'r' ∷ b'e' ∷ b't' ∷ []) ≡ some pm')
    × (text_of (cpu_readinst_dram pm' 128) ≡ some (b'r' ∷ b'e' ∷ b't' ∷ []))
    × ((b : ℕ) → (b < 128) ⊎ (192 ≤ b) → pm' b ≡ pm b)
text_of-cpu_writeinst_dram_example =
    text_of-cpu_writeinst_dram pm 128 (b'r' ∷ b'e' ∷ b't' ∷ [])
      (omega arith, (omega arith, (omega arith, tt))) (omega arith)
