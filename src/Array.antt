-- ===== src/Array.antt =====
-- src/algorithm/Dynamic_array.c: the array that doubles when it is full. An index is the 32-bit
-- pattern of the `int`. `none` is an access outside the block of `table`, which the source does not
-- check.
pub mod Elements
mod Runs
use csapp_stay.Prelude.{
  ℕ, zero, suc, ◌+◌, ◌-◌, ◌*◌, ◌/◌, ◌%◌, ◌^◌, Bool, true, false, Option, none, some, ◌==◌, ltb, leb,
  ◌&&◌, ◌||◌, update, if◌then◌else◌,
}

-- `array_t`; `table i` for i below `size` is the block.
pub record Array : Type 0 where
  pub size : ℕ
  pub count : ℕ
  pub table : ℕ → ℕ

-- `block` is what `malloc` returns.
unfoldable pub array_construct : (ℕ → ℕ) → ℕ → Array
array_construct block size = record { size = size; count = 0; table = block }

-- `tmp_arr->table[i] = old_table[i]`, with `n` rounds left at index `i`.
pub copy_table : ℕ → ℕ → (ℕ → ℕ) → (ℕ → ℕ) → ℕ → ℕ
copy_table zero i old new = new
copy_table (suc n) i old new = copy_table n (i + 1) old (update new i (old i))

-- The array with twice the size where it is full.
pub grow : (ℕ → ℕ) → Array → Array
grow block arr =
    if arr.count == arr.size
    then record {
      size = arr.size * 2 % 2 ^ 32;
      count = arr.count;
      table = copy_table arr.count 0 arr.table block;
    }
    else arr

pub array_insert : (ℕ → ℕ) → Array → ℕ → Option Array
array_insert block arr val =
    let g = grow block arr in
    if ltb g.count g.size
    then some (record g { table = update g.table g.count val; count = g.count + 1 })
    else none

-- `arr->table[i - 1] = arr->table[i]`, with `n` rounds left at index `i`; index -1 is outside.
pub shift_left : ℕ → ℕ → (ℕ → ℕ) → Option (ℕ → ℕ)
shift_left zero i table = some table
shift_left (suc n) zero table = none
shift_left (suc n) (suc i) table = shift_left n (suc (suc i)) (update table i (table (suc i)))

-- `arr->count--` on 32 bits, and the halving, which keeps the elements that fit.
pub shrink : Array → (ℕ → ℕ) → Array
shrink arr table =
    let count = (arr.count + (2 ^ 32 - 1)) % 2 ^ 32 in
    record {
      size = if leb count (arr.size / 4) && ltb 0 count then arr.size / 2 else arr.size;
      count = count;
      table = table;
    }

-- The array and the returned flag.
pub array_delete : Array → ℕ → Option (Array × ℕ)
array_delete arr index =
    if leb (2 ^ 31) index || ltb arr.count index
    then some (arr, 0)
    else elim (shift_left (arr.count - index) index arr.table) [
      | none ↦ none
      | some table ↦ some (shrink arr table, 1)
    ]

-- `none` inside is the returned 0; an `index` equal to `count` is not refused.
pub array_get : Array → ℕ → Option ℕ
array_get arr index = if ltb arr.count index then none else some (arr.table index)
