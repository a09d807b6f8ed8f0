-- ===== src/Memory/Address.antt =====
-- headers/address.h: the bit fields of `address_t`, and `va2pa` of headware/cpu/mmu.c.
use csapp_stay.Prelude.{ℕ, ◌+◌, ◌*◌, ◌/◌, ◌%◌, ◌^◌, ◌<◌, ◌≡◌, arith}

abbrev pub physical_memory_space : ℕ
physical_memory_space = 65536

-- `.paddr_value = v` keeps 52 bits.
abbrev pub paddr_value : ℕ → ℕ
paddr_value v = v % 2 ^ 52

abbrev pub cache_offset : ℕ → ℕ
cache_offset p = p % 2 ^ 6

abbrev pub cache_index : ℕ → ℕ
cache_index p = p / 2 ^ 6 % 2 ^ 6

abbrev pub cache_tag : ℕ → ℕ
cache_tag p = p / 2 ^ 12 % 2 ^ 40

-- `(paddr >> SRAM_CACHE_OFFSET_LEN) << SRAM_CACHE_OFFSET_LEN`
abbrev pub dram_base : ℕ → ℕ
dram_base p = p / 2 ^ 6 * 2 ^ 6

unfoldable pub va2pa : ℕ → ℕ
va2pa vaddr = vaddr % physical_memory_space

-- Two addresses of one line differ in the offset only.
pub same_line :
    (p b : ℕ)
    → p < 2 ^ 52
    → b < 2 ^ 52
    → cache_index p ≡ cache_index b
    → cache_tag p ≡ cache_tag b
    → dram_base p + cache_offset b ≡ b
same_line p b hp hb i t = omega arith
