-- ===== src/Memory.antt =====
-- src/headware: the physical memory `pm` (memory/dram.c), the address fields (headers/address.h)
-- and the SRAM cache in front of it (cpu/sram.c, without CACHE_SIMULATION_VERIFICATION).
pub mod Address
pub mod Bytes
pub mod Sram
pub mod Dram
pub mod Interface
mod Runs
