-- ===== src/Convert/Runs.antt =====
-- src/common/convert.c at concrete inputs.
use csapp_stay.Prelude.{◌≡◌, refl, arith, [], ◌∷◌, map, some, ◌-◌, ◌^◌}
use csapp_stay.Convert.{string2uint, run, step}
use csapp_stay.Convert.Numerals.{digit, string2uint-decimal, value_from}

-- " -28 " and "0x1f".
string2uint_spaces : string2uint (b' ' ∷ b'-' ∷ b'2' ∷ b'8' ∷ b' ' ∷ []) ≡ some (2 ^ 64 - 28)
unfolding string2uint run step
string2uint_spaces = refl

-- "0x" and "-" are accepted as 0.
string2uint_prefix : string2uint (b'0' ∷ b'x' ∷ []) ≡ some 0
unfolding string2uint run step
string2uint_prefix = refl

-- "30000000000000000000" is above 2^64, and accepted as 30000000000000000000 - 2^64.
string2uint_wrap :
    string2uint (
      map digit
        (3 ∷ 0 ∷ 0 ∷ 0 ∷ 0 ∷ 0 ∷ 0 ∷ 0 ∷ 0 ∷ 0 ∷ 0 ∷ 0 ∷ 0 ∷ 0 ∷ 0 ∷ 0 ∷ 0 ∷ 0 ∷ 0 ∷ 0 ∷ []))
    ≡ some (30000000000000000000 - 2 ^ 64)
unfolding string2uint run step
string2uint_wrap = refl

string2uint-decimal_example : string2uint (map digit (5 ∷ 1 ∷ 2 ∷ [])) ≡ some 512
unfolding value_from
string2uint-decimal_example =
    string2uint-decimal 5 (1 ∷ 2 ∷ []) (omega arith, (omega arith, (omega arith, tt))) (omega arith)
