-- ===== src/Memory/Sram/Runs.antt =====
-- src/headware/cpu/sram.c at a concrete input: a set that is full of dirty lines.
use csapp_stay.Prelude.{◌≡◌, refl, ◌%◌, ◌+◌, ◌-◌, ◌*◌, some}
use csapp_stay.Memory.Address.{paddr_value, cache_offset}
use csapp_stay.Memory.Sram.{
  dirty, CacheSet, Memory, set_of, outcome, scan_set, scan, scan_line, find_hit, hits, choose,
  choose_free, choose_victim, sram_cache_read,
}
use csapp_stay.Memory.Sram.Reads.{EvictsDirty, sram_cache_read-victim}

-- Line `k` of the full set has tag `k`, and 100 + `k` in each byte.
abbrev full_set : CacheSet
full_set k = record { state = dirty; time = 8 - k; tag = k; block = λ j. 100 + k }

abbrev full : Memory
full = record { sets = λ i. full_set; pm = λ k. k % 256 }

-- Tag 9 is in no line; line 0 is the oldest.
full-EvictsDirty : EvictsDirty full (9 * 4096) 0
unfolding outcome scan_set scan scan_line find_hit hits choose choose_free choose_victim
full-EvictsDirty = (refl, refl)

sram_cache_read-victim_example :
    (m' : Memory) × (sram_cache_read full (9 * 4096)
      ≡ some (
        m',
        (set_of full (paddr_value (9 * 4096)) 0).block (cache_offset (paddr_value (9 * 4096))),
      ))
sram_cache_read-victim_example = sram_cache_read-victim full (9 * 4096) 0 full-EvictsDirty
