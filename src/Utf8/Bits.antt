-- ===== src/Utf8/Bits.antt =====
-- The mask tests of `encode_utf8` as comparisons of bytes.
use vely.Base.{
  ℕ, ◌<◌, ◌≡◌, refl, Bool, true, false, leb, ltb, ◌==◌, bit_and, passes, passes_at, arith,
}
use vely.Utf8.{is_continuation}

abbrev same : Bool → Bool → Bool
same true b = b
same false true = false
same false false = true

same_sound : (a b : Bool) → same a b ≡ true → a ≡ b
same_sound a b h = ground arith

abbrev agrees : (ℕ → Bool) → (ℕ → Bool) → ℕ → Bool
agrees f g x = same (f x) (g x)

agrees_table :
    (passes (agrees (λ x. bit_and x 128 == 0) (λ x. ltb x 128)) 256 ≡ true)
    × (passes (agrees (λ x. bit_and x 128 == 128) (λ x. leb 128 x)) 256 ≡ true)
    × (passes (agrees (λ x. bit_and x 192 == 192) (λ x. leb 192 x)) 256 ≡ true)
    × (passes (agrees (λ x. bit_and x 224 == 224) (λ x. leb 224 x)) 256 ≡ true)
    × (passes (agrees (λ x. bit_and x 240 == 240) (λ x. leb 240 x)) 256 ≡ true)
unfolding passes
agrees_table = (refl, refl, refl, refl, refl)

below_agrees : (f g : ℕ → Bool) → passes (agrees f g) 256 ≡ true → (x : ℕ) → x < 256 → f x ≡ g x
below_agrees f g t x h = same_sound _ _ (passes_at (agrees f g) 256 x h t)

pub is_ascii_lem : (x : ℕ) → x < 256 → (bit_and x 128 == 0) ≡ ltb x 128
is_ascii_lem = below_agrees _ (λ x. ltb x 128) agrees_table.0

pub is_continuation_lem : (x : ℕ) → x < 256 → is_continuation x ≡ leb 128 x
unfolding is_continuation
is_continuation_lem = below_agrees _ (λ x. leb 128 x) agrees_table.1

pub lead_two_lem : (x : ℕ) → x < 256 → (bit_and x 192 == 192) ≡ leb 192 x
lead_two_lem = below_agrees _ (λ x. leb 192 x) agrees_table.2

pub lead_three_lem : (x : ℕ) → x < 256 → (bit_and x 224 == 224) ≡ leb 224 x
lead_three_lem = below_agrees _ (λ x. leb 224 x) agrees_table.3

pub lead_four_lem : (x : ℕ) → x < 256 → (bit_and x 240 == 240) ≡ leb 240 x
lead_four_lem = below_agrees _ (λ x. leb 240 x) agrees_table.4
