-- ===== src/Number/Digits.antt =====
-- The value of what `num2str` writes.
use vely.Base.{
  ℕ, zero, suc, ◌+◌, ◌-◌, ◌*◌, ◌/◌, ◌%◌, ◌^◌, ◌≤◌, ◌<◌, ◌≡◌, refl, sym, ◌∙◌, ap, Bool, true, false,
  ◌||◌, some, List, [], ◌∷◌, ◌++◌, ltb, ◌==◌, ==_iff, if◌then◌else◌, Bytes, ℤ, All, arith, passes,
  passes_at, Bool-cases, inl, inr, ◌⊎◌, ◌≢◌, ==_ne, ℕ_discrete,
}
use native.Mathlib.Nat.{
  mul-le-mul_left, div-lt_iff_lt-mul, div-add-mod, mod-lt, mul_comm, zero-mul, pow-suc,
}
use vely.Number.{magnitude, sign, mods, digit_char, fill, num2str}

-- A digit of a base up to 36, and the number that a row of digits stands for in a base.
unfoldable pub char_value : ℕ → ℕ
char_value c = if ltb c 58 then c - 48 else c - 87

unfoldable pub text_value : ℕ → ℕ → Bytes → ℕ
unfolding char_value
text_value base n [] = n
text_value base n (c ∷ s) = text_value base (n * base + char_value c) s

value : ℕ → List ℕ → ℕ
value base [] = 0
value base (d ∷ ds) = value base ds * base + d

abbrev is_same : ℕ → Bool
unfolding char_value digit_char
is_same d = char_value (digit_char d) == d

all_same : passes is_same 36 ≡ true
unfolding passes is_same char_value digit_char
all_same = refl

char_value-digit_char : (d : ℕ) → d < 36 → char_value (digit_char d) ≡ d
unfolding is_same
char_value-digit_char d h =
    (==_iff (char_value (digit_char d)) d).0 (passes_at is_same 36 d h all_same)

text_value-fill :
    (base : ℕ) (ds : List ℕ) (s : Bytes)
    → All (λ d. d < 36) ds
    → text_value base 0 (fill ds s) ≡ text_value base (value base ds) s
unfolding fill value text_value
text_value-fill base [] s h = refl
text_value-fill base (d ∷ ds) s (small, h) =
    text_value-fill base ds (digit_char d ∷ s) h
    ∙ ap (λ v. text_value base (value base ds * base + v) s) (char_value-digit_char d small)

step : (f base a : ℕ) → 2 ≤ base → a < 2 ^ (suc f) → a / base < 2 ^ f
step f base a two below =
    let wide : 2 ^ f * 2 ≤ 2 ^ f * base = mul-le-mul_left (2 ^ f) two in
    let twice : 2 ^ (suc f) ≡ 2 ^ f * 2 = pow-suc 2 f in
    let fits : a < 2 ^ f * base = omega (arith, wide, twice, below) in
    (div-lt_iff_lt-mul {k = base} {x = a} {y = 2 ^ f} (omega (arith, two))).1 fits

value-mods : (f base a : ℕ) → 2 ≤ base → a < 2 ^ f → value base (mods f base a) ≡ a
unfolding value mods
value-mods zero base a two below = let one : 2 ^ 0 ≡ 1 = refl in omega (arith, below, one)
value-mods (suc f) base a two below = elim (Bool-cases (a == 0)) [
  | inl y ↦ rw y (sym ((==_iff a 0).0 y))
  | inr n ↦
      rw (n, value-mods f base (a / base) two (step f base a two below))
        (ap (λ n. n + a % base) (mul_comm (a / base) base) ∙ div-add-mod a base)
]

mods-All : (f base a : ℕ) → 2 ≤ base → base ≤ 36 → All (λ d. d < 36) (mods f base a)
unfolding mods
mods-All zero base a two wide = tt
mods-All (suc f) base a two wide = elim (Bool-cases (a == 0)) [
  | inl y ↦ rw y tt
  | inr n ↦
      rw n (
        omega (arith, mod-lt a {m = base} (omega (arith, two))),
        mods-All f base (a / base) two wide,
      )
]

num2str-zero :
    (al : ℤ) (base : ℕ)
    → (ltb base 2 || ltb 36 base) ≡ false
    → (magnitude al == 0) ≡ true
    → num2str al base ≡ some (48 ∷ [])
unfolding num2str
num2str-zero al base fine z = rw (num2str, fine, z)

num2str-some :
    (al : ℤ) (base : ℕ)
    → (ltb base 2 || ltb 36 base) ≡ false
    → (magnitude al == 0) ≡ false
    → num2str al base ≡ some (sign al ++ fill (mods 64 base (magnitude al)) [])
unfolding num2str
num2str-some al base fine z = rw (num2str, fine, z)

zero_sign : (al : ℤ) → magnitude al ≡ 0 → some (48 ∷ []) ≡ some (sign al ++ 48 ∷ [])
zero_sign (ℤ.pos n) z = refl
zero_sign (ℤ.negsuc n) z = absurd (omega (arith, z))

zero_value : (base : ℕ) → text_value base 0 (48 ∷ []) ≡ 0
unfolding text_value char_value
zero_value base = let z : 0 * base ≡ 0 = zero-mul base in omega (arith, z)

text_value-nil : (base n : ℕ) → text_value base n [] ≡ n
unfolding text_value
text_value-nil base n = refl

-- A character 0 to 9 or a to z that is a digit of the base.
abbrev pub IsDigitOf : ℕ → ℕ → Type 0
IsDigitOf base c = (((48 ≤ c) × (c ≤ 57)) ⊎ ((97 ≤ c) × (c ≤ 122))) × (char_value c < base)

-- The digit 0 alone, or digits of which the first is another one.
abbrev pub Leads : Bytes → Type 0
Leads [] = ⊥
Leads (c ∷ s) = c ≢ 48

abbrev pub IsNumeral : Bytes → Type 0
IsNumeral s = (s ≡ 48 ∷ []) ⊎ Leads s

digit_char_range :
    (d : ℕ)
    → d < 36
    → ((48 ≤ digit_char d) × (digit_char d ≤ 57)) ⊎ ((97 ≤ digit_char d) × (digit_char d ≤ 122))
unfolding digit_char
digit_char_range d h = ground arith

digit_char-IsDigitOf : (base d : ℕ) → base ≤ 36 → d < base → IsDigitOf base (digit_char d)
digit_char-IsDigitOf base d wide h =
    let small : d < 36 = omega arith in
    (digit_char_range d small, omega (arith, char_value-digit_char d small))

fill-All :
    (base : ℕ) (ds : List ℕ) (s : Bytes)
    → base ≤ 36
    → All (λ d. d < base) ds
    → All (IsDigitOf base) s
    → All (IsDigitOf base) (fill ds s)
unfolding fill
fill-All base [] s wide h k = k
fill-All base (d ∷ ds) s wide (hd, h) k =
    fill-All base ds (digit_char d ∷ s) wide h (digit_char-IsDigitOf base d wide hd, k)

mods-below : (f base a : ℕ) → 2 ≤ base → All (λ d. d < base) (mods f base a)
unfolding mods
mods-below zero base a two = tt
mods-below (suc f) base a two = elim (Bool-cases (a == 0)) [
  | inl y ↦ rw y tt
  | inr n ↦ rw n (mod-lt a {m = base} (omega (arith, two)), mods-below f base (a / base) two)
]

digit_char-ne : (d : ℕ) → d ≢ 0 → digit_char d ≢ 48
unfolding digit_char
digit_char-ne d n = ground (arith, n)

mods-zero : (f base : ℕ) → mods f base 0 ≡ []
unfolding mods
mods-zero zero base = refl
mods-zero (suc f) base = refl

fill-Leads :
    (f base a : ℕ) (s : Bytes) → 2 ≤ base → a < 2 ^ f → a ≢ 0 → Leads (fill (mods f base a) s)
unfolding mods fill
fill-Leads zero base a s two below n =
    let one : 2 ^ 0 ≡ 1 = refl in absurd (n (omega (arith, below, one)))
fill-Leads (suc f) base a s two below n = elim (ℕ_discrete (a / base) 0) [
  | yes z ↦
      let small : a % base ≢ 0 = λ e. n (omega (arith, rw (z, e) at (div-add-mod a base))) in
      rw (==_ne a 0 n, z, mods-zero f base) (digit_char-ne (a % base) small)
  | no more ↦
      rw (==_ne a 0 n) (
        fill-Leads f base (a / base) (digit_char (a % base) ∷ s) two (step f base a two below) more)
]

-- For a base from 2 to 36 and a number of magnitude below 2 ^ 63, the text is the sign and then
-- digits of that base, from 0 to 9 and a to z, that stand for the magnitude: the digit 0 alone, or digits
-- that do not begin with 0.
pub num2str_lem :
    (al : ℤ) (base : ℕ)
    → 2 ≤ base
    → base ≤ 36
    → magnitude al < 2 ^ 63
    → (s : Bytes) × (num2str al base ≡ some (sign al ++ s))
      × (text_value base 0 s ≡ magnitude al)
      × All (IsDigitOf base) s
      × IsNumeral s
unfolding digit_char
num2str_lem al base two wide fits =
    let narrow : 2 ^ 63 ≤ 2 ^ 64 = omega arith in
    let fine : (ltb base 2 || ltb 36 base) ≡ false = ground (arith, two, wide) in
    elim (Bool-cases (magnitude al == 0)) [
      | inl y ↦
          let z : magnitude al ≡ 0 = (==_iff (magnitude al) 0).0 y in
          (
            48 ∷ [],
            num2str-zero al base fine y ∙ zero_sign al z,
            zero_value base ∙ sym z,
            (digit_char-IsDigitOf base 0 wide (omega (arith, two)), tt),
            inl refl,
          )
      | inr n ↦ (
        fill (mods 64 base (magnitude al)) [],
        num2str-some al base fine n,
        text_value-fill base (mods 64 base (magnitude al)) []
              (mods-All 64 base (magnitude al) two wide)
            ∙ text_value-nil base (value base (mods 64 base (magnitude al)))
            ∙ value-mods 64 base (magnitude al) two (omega (arith, fits, narrow)),
        fill-All base (mods 64 base (magnitude al)) [] wide (mods-below 64 base (magnitude al) two)
            tt,
        inr (
            fill-Leads 64 base (magnitude al) [] two (omega (arith, fits, narrow))
              (λ z. cc ((==_iff (magnitude al) 0).1 z, n))),
      )
    ]
