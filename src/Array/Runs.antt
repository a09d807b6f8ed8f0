-- ===== src/Array/Runs.antt =====
-- src/algorithm/Dynamic_array.c at concrete inputs: three elements in a block of three.
use csapp_stay.Prelude.{◌+◌, ◌≡◌, refl, arith, some, none}
use csapp_stay.Array.{Array, array_delete, shift_left, shrink}
use csapp_stay.Array.Elements.{IsArray}

abbrev three : Array
three = record { size = 3; count = 3; table = λ k. k + 10 }

three-IsArray : IsArray three
three-IsArray = record { fits = omega arith; room = omega arith; small = omega arith }

-- Deleting index 0 writes before the block, and deleting index 3 is not refused.
array_delete-first : array_delete three 0 ≡ none
unfolding array_delete shift_left
array_delete-first = refl

array_delete-past : array_delete three 3 ≡ some (record three { count = 2 }, 1)
unfolding array_delete shift_left shrink
array_delete-past = refl
