-- ===== src/Number/Tests.antt =====
-- Runs of `num2str`, and the concrete input for its theorem.
use vely.Base.{◌≡◌, refl, none, some, ◌++◌, Bytes, ℤ, codes, arith, All}
use vely.Number.{num2str, sign, magnitude}
use vely.Number.Digits.{num2str_lem, text_value, IsDigitOf, IsNumeral}

abbrev minus_255 : ℤ
minus_255 = ℤ.negsuc 254

in_hex : num2str minus_255 16 ≡ some (codes "-ff")
unfolding num2str
in_hex = refl

in_unary : num2str minus_255 1 ≡ none
unfolding num2str
in_unary = refl

num2str_lem_example :
    (s : Bytes) × (num2str minus_255 16 ≡ some (sign minus_255 ++ s))
    × (text_value 16 0 s ≡ magnitude minus_255)
    × All (IsDigitOf 16) s
    × IsNumeral s
num2str_lem_example = num2str_lem minus_255 16 (omega arith) (omega arith) (omega arith)
