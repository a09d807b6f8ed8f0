-- ===== src/Memory/Interface.antt =====
-- The memory as the processor's instructions use it: the two functions of headers/memory.h, with
-- the settings of DEBUG_ENABLE_SRAM_CACHE as two instances.
use csapp_stay.Prelude.{ℕ, ◌≡◌, refl, Option, some, ◌+◌, ◌≤◌}
use csapp_stay.Memory.Address.{physical_memory_space}
use csapp_stay.Memory.Bytes.{Bytes, load64, store64}
use csapp_stay.Memory.Sram.{Memory}
use csapp_stay.Memory.Dram.{cpu_read64bits_dram, cpu_write64bits_dram}

-- `none` is a failed assertion.
pub record Ram : Type 1 where
  pub Store : Type 0
  pub read64 : Store → ℕ → Option (Store × ℕ)
  pub write64 : Store → ℕ → ℕ → Option Store

abbrev pub dram : ℕ → Ram
dram enabled = record {
  Store = Memory;
  read64 = cpu_read64bits_dram enabled;
  write64 = cpu_write64bits_dram enabled;
}

-- What a program relies on: the accesses in range are those of one
-- flat array of bytes.
pub record IsFlat (ram : Ram) : Type 1 where
  pub view : ram.Store → Bytes
  pub read64-view :
      (s : ram.Store) (a : ℕ)
      → a + 8 ≤ physical_memory_space
      → (s' : ram.Store) × (ram.read64 s a ≡ some (s', load64 (view s) a)) × (view s' ≡ view s)
  pub write64-view :
      (s : ram.Store) (a v : ℕ)
      → a + 8 ≤ physical_memory_space
      → (s' : ram.Store) × (ram.write64 s a v ≡ some s') × (view s' ≡ store64 (view s) a v)

pub uncached_read : (m : Memory) (a : ℕ) → cpu_read64bits_dram 0 m a ≡ some (m, load64 m.pm a)
unfolding cpu_read64bits_dram
uncached_read m a = refl

pub uncached_write :
    (m : Memory) (a v : ℕ)
    → cpu_write64bits_dram 0 m a v ≡ some (record m { pm = store64 m.pm a v })
unfolding cpu_write64bits_dram
uncached_write m a v = refl

-- Without the cache, the memory is flat.
abbrev pub dram-IsFlat : IsFlat (dram 0)
dram-IsFlat = record {
  view = Memory.pm;
  read64-view = λ m a h. (m, uncached_read m a, refl);
  write64-view = λ m a v h. (record m { pm = store64 m.pm a v }, uncached_write m a v, refl);
}
