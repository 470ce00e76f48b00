-- ===== src/Json/Grammar.antt =====
-- The numbers of RFC 7159.
use vely.Base.{ℕ, ◌≡◌, ◌≢◌, ◌⊎◌, Bool, true, false, ◌||◌, [], ◌∷◌, ◌++◌, get_or, All, Bytes}
use vely.Json.{is_digit}

abbrev pub IsDigit : ℕ → Type 0
IsDigit c = is_digit c ≡ true

-- One digit or more.
abbrev pub IsRun : Bytes → Type 0
IsRun [] = ⊥
IsRun (c ∷ w) = All IsDigit (c ∷ w)

-- exp, or nothing.
pub data IsExponent : Bytes → Bool → Type 0 where
  no_exponent : IsExponent [] false
  exponent : (e : ℕ) (w : Bytes) → (e ≡ 101) ⊎ (e ≡ 69) → IsRun w → IsExponent (e ∷ w) true
  signed_exponent :
      (e s : ℕ) (w : Bytes)
      → (e ≡ 101) ⊎ (e ≡ 69)
      → (s ≡ 43) ⊎ (s ≡ 45)
      → IsRun w
      → IsExponent (e ∷ s ∷ w) true

-- frac, or nothing.
pub data IsFraction : Bytes → Bool → Type 0 where
  no_fraction : IsFraction [] false
  fraction : (w : Bytes) → IsRun w → IsFraction (46 ∷ w) true

-- int: a zero alone, or digits of which the first is no zero.
pub data IsInteger : Bytes → Type 0 where
  only_zero : IsInteger (48 ∷ [])
  integer : (c : ℕ) (w : Bytes) → c ≢ 48 → All IsDigit (c ∷ w) → IsInteger (c ∷ w)

pub data IsMinus : Bytes → Type 0 where
  no_minus : IsMinus []
  minus : IsMinus (45 ∷ [])

-- number = [ minus ] int [ frac ] [ exp ], and whether it has one of the last two.
pub record IsNumber (w : Bytes) (real : Bool) : Type 0 where
  pub sign : Bytes
  pub int : Bytes
  pub frac : Bytes
  pub exp : Bytes
  pub has_frac : Bool
  pub has_exp : Bool
  pub is_sign : IsMinus sign
  pub is_int : IsInteger int
  pub is_frac : IsFraction frac has_frac
  pub is_exp : IsExponent exp has_exp
  pub is_whole : w ≡ sign ++ (int ++ (frac ++ exp))
  pub is_real : real ≡ has_frac || has_exp

-- What may stand behind a number: no digit, no point and no letter of an exponent.
abbrev pub Ends : Bytes → Type 0
Ends rest =
    (is_digit (get_or rest 0 0) ≡ false)
    × (get_or rest 0 0 ≢ 46)
    × (get_or rest 0 0 ≢ 101)
    × (get_or rest 0 0 ≢ 69)
