-- ===== src/Number.antt =====
-- velyrt.c: a number as text in a base, by `vely_num2str`. The list is the result, and its length is what
-- `res_len` gets.
pub mod Digits
pub mod Tests
use vely.Base.{
  ℕ, zero, suc, ◌+◌, ◌-◌, ◌/◌, ◌%◌, Bool, true, false, ◌||◌, Option, none, some, List, [], ◌∷◌,
  ◌++◌, ltb, ◌==◌, if◌then◌else◌, Bytes, ℤ, pos, negsuc,
}

-- The magnitude and the sign of a number, as the code takes them apart.
abbrev pub magnitude : ℤ → ℕ
magnitude (pos n) = n
magnitude (negsuc n) = n + 1

abbrev pub sign : ℤ → Bytes
sign (pos n) = []
sign (negsuc n) = 45 ∷ []

-- The remainders, the last digit first. A number of 64 bits has no more than 64 of them.
unfoldable pub mods : ℕ → ℕ → ℕ → List ℕ
mods zero base a = []
mods (suc fuel) base a =
    let rest = mods fuel base (a / base) in if a == 0 then [] else a % base ∷ rest

unfoldable pub digit_char : ℕ → ℕ
digit_char d = if ltb d 10 then 48 + d else 97 + d - 10

-- Fills the result in from its end.
unfoldable pub fill : List ℕ → Bytes → Bytes
unfolding digit_char
fill [] res = res
fill (d ∷ ds) res = fill ds (digit_char d ∷ res)

unfoldable pub num2str : ℤ → ℕ → Option Bytes
unfolding mods fill
num2str al base =
    if ltb base 2 || ltb 36 base
    then none
    else if magnitude al == 0
    then some (48 ∷ [])
    else some (sign al ++ fill (mods 64 base (magnitude al)) [])
