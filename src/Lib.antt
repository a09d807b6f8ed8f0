-- ===== src/Lib.antt =====
-- Verification of csapp_stay, a simulator of a processor with its caches, memory and linker.
--
-- The simulated processor (src/headware/cpu/isa.c) executes instructions given as text: an
-- instruction is fetched from the physical memory (src/headware/memory/dram.c) through the address
-- translation (src/headware/cpu/mmu.c), parsed with the help of a prefix tree of names
-- (src/algorithm/trie.c) and of a conversion of numerals (src/common/convert.c), and given to a
-- handler, which reads and writes 64-bit words of the memory. With DEBUG_ENABLE_SRAM_CACHE these go
-- byte by byte through a write-back cache (src/headware/cpu/sram.c), which moves lines over the I/O
-- bus functions of dram.c. src/headware/cpu/mesi.c is a program of its own: the MESI protocol for
-- one line in five caches, with a random test.
--
-- Mesi models mesi.c: the globals `cache` and `mem_value` are the record `Machine`, and each of
-- read_cacheline, write_cacheline, evict_cacheline and check_state is a function of its name, with
-- the bus loops as recursions over the number of processors that are left. Mesi/Run has `main`,
-- with `rand` as a parameter, and the one cell that the caches refine.
--
-- Memory models dram.c, address.h, mmu.c and sram.c. Memory/Address has the fields of `address_t`,
-- Memory/Bytes the little-endian words and the transfers of a line, Memory/Sram the cache with `pm`
-- behind it as the record `Memory`, Memory/Dram the functions that the processor calls, for both
-- settings of DEBUG_ENABLE_SRAM_CACHE. An access of the cache is the ageing scan, the choice of a
-- line (`Outcome`) and what is done to it. Memory/Sram/Coherent says which flat memory a cache and
-- `pm` stand for. Memory/Interface is what the processor relies on; its instance `dram 0` is the
-- memory without the cache.
--
-- Cpu models the operands, the flags and the handlers of isa.c over that interface. The registers
-- are the bytes of `cpu_reg_t`, and a register operand is an offset in them, where the source has a
-- pointer.
--
-- Cpu/Names has the tables of lazy_init_trie, Cpu/Parser the two automata of parse_instruction and
-- parse_operand (the buffers as lists, with `none` where the source would write past one), and
-- Cpu/Cycle the instruction cycle that joins fetch, parser and handlers.
--
-- Convert models convert.c's automaton: a state for each value of `state`, `none` for the failure.
-- Array models Dynamic_array.c, with `none` for an access outside the block. Trie models trie.c:
-- nodes as a tree, with what malloc returns as a parameter.
--
-- Hash models hashtable.c: the buckets are a heap, since entries of the directory share them, with
-- the directory and the buckets as functions of the index and the address. The loop of the insert
-- has fuel, one round for each split and one for the last; Hash/Inserts says how much is enough,
-- and Hash/Stuck when none is. Hash/Tables has the invariant, Hash/Splits to Hash/SplitBucket that
-- a split keeps it.
--
-- LinkedList models linkedlist.c: a heap of nodes, with `none` for an address that is not
-- allocated, so an access to it is a fault. LinkedList/Rings says when a heap holds a ring: the
-- nodes are given by the sequences of their addresses and values. The loops of the lookup and of
-- the release have fuel: a round for each node and one more ends the release, while no fuel ends
-- the lookup of a missing value.
--
-- Cleanup models src/common/cleanup.c on the dynamic array: what a function at an address does is
-- an argument. Tags models src/common/tagmalloc.c on the linked list and the cleanup events, with
-- heaps of the blocks and of their data, where an access to what was freed is a fault; the
-- addresses that malloc returns are arguments.
--
-- Linker/Elf models src/linker/parseELF.c on the hash table and the numerals: a file is the list of
-- the lines that fgets returns, which fit its buffer, and a string the bytes before the NUL.
-- Linker/Elf/Files has the tables of parse_elf, Linker/Elf/Dictionary the constants, whose
-- insertion has fuel for eight rounds each, which is enough. Linker/Symbols models the symbol
-- resolution of src/linker/staticlink.c: an entry of the map is a symbol with the number of its
-- file, in place of the two pointers. Linker/Sections has the section headers of the linked file
-- and the rows printed from them, and Linker/Relocations the addresses at run time and the two
-- relocation handlers, on the rows of the buffer as bytes. Linker/Merges models merge_section on
-- the files that Linker/Elf/Files parses, with the rows of the buffer as texts; a pointer to a
-- symbol is the number of its file and its index there. Linker/Processing models the search of
-- relocation_processing for the symbols of each relocation, and Linker/Linking the composition in
-- link_elf, where the rows are texts until the relocations and bytes from there on. Linker/Driver
-- models the program of src/linker/linker.c, which reads, links and writes files by these passes:
-- what is read at a path is an argument, and what is written is its result.
--
-- In the linker an int that a uint64_t is converted to is its remainder modulo 2^32 where its sign
-- matters (Counts, as_int), and `none` is an access outside an array or the overflow of an int,
-- which C leaves undefined. A relocation is written to the buffer as one array, so that it can go
-- on in the next row.
-- The entries of the linked file's symbol table that merge_section does not set are printed as
-- malloc left them: what that is is the argument `block`.
--
-- Machine integers are natural numbers below 2^64 with the reduction written out; other `int`
-- counters of the cache and the protocol's values are plain numbers. Loops over fixed ranges are
-- structural recursions on the rounds left, which the callers set to the source's bound, so no
-- function but the hash table's insert and the list's lookup and release can run out of fuel. Not
-- modelled: printing, the release of memory in the trie, the array and the tables of an object
-- file, the simulation mode of the cache (CACHE_SIMULATION_VERIFICATION), and the red-black tree
-- of src/algorithm, which has no code. An index outside `pm` is not checked by the source; the
-- theorems about the processor assume the words in range.
pub mod Prelude
pub mod Mesi
pub mod Memory
pub mod Convert
pub mod Trie
pub mod Cpu
pub mod Linker
pub mod Array
pub mod Hash
pub mod LinkedList
pub mod Cleanup
pub mod Tags
