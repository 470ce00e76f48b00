-- ===== src/Json/Hex.antt =====
-- Four hexadecimal digits and the number they stand for.
use vely.Base.{
  ℕ, ◌+◌, ◌*◌, ◌/◌, ◌%◌, ◌<◌, ◌≡◌, refl, ◌∙◌, ap, Bool, true, some, ◌∷◌, ◌++◌, Bytes, passes,
  passes_at, agrees, agrees→eq, arith,
}
use vely.Codec.{to_hex}
use vely.Json.{hex_value, topower, get_hex_loop, get_hex, hex16}

abbrev reads_digit : ℕ → Bool
unfolding to_hex hex_value
reads_digit d = agrees (hex_value (to_hex d)) d

digits_read : passes reads_digit 16 ≡ true
unfolding passes reads_digit to_hex hex_value
digits_read = refl

hex_value-to_hex : (d : ℕ) → d < 16 → hex_value (to_hex d) ≡ some d
unfolding reads_digit
hex_value-to_hex d h = agrees→eq (hex_value (to_hex d)) d (passes_at reads_digit 16 d h digits_read)

four_digits :
    (c0 c1 c2 c3 d0 d1 d2 d3 : ℕ) (t : Bytes)
    → hex_value c0 ≡ some d0
    → hex_value c1 ≡ some d1
    → hex_value c2 ≡ some d2
    → hex_value c3 ≡ some d3
    → get_hex (c0 ∷ c1 ∷ c2 ∷ c3 ∷ t) ≡ some (d0 * 4096 + d1 * 256 + d2 * 16 + d3)
unfolding get_hex get_hex_loop topower
four_digits c0 c1 c2 c3 d0 d1 d2 d3 t h0 h1 h2 h3 =
    rw (get_hex, get_hex_loop, h0, h1, h2, h3) (ap some (omega arith))

pub get_hex-hex16 : (u : ℕ) (t : Bytes) → u < 65536 → get_hex (hex16 u ++ t) ≡ some u
unfolding hex16
get_hex-hex16 u t h =
    four_digits _ _ _ _ _ _ _ _ t (hex_value-to_hex (u / 4096 % 16) (omega arith))
      (hex_value-to_hex (u / 256 % 16) (omega arith)) (hex_value-to_hex (u / 16 % 16) (omega arith))
      (hex_value-to_hex (u % 16) (omega arith))
    ∙ ap some (omega arith)
