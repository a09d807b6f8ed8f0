-- ===== src/Linker.antt =====
-- src/linker: the static linker, the parser of object files and the resolution of symbols.
pub mod Symbols
pub mod Elf
pub mod Relocations
pub mod Numerals
pub mod Sections
pub mod Merges
pub mod Processing
pub mod Linking
pub mod Driver
