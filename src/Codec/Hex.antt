-- ===== src/Codec/Hex.antt =====
-- Bytes as hexadecimal digits and back.
use vely.Base.{
  ℕ, suc, ◌/◌, ◌%◌, ◌<◌, ◌≡◌, refl, ◌∙◌, ap, Bool, true, none, some, [], ◌∷◌, ◌++◌, length, Bytes,
  All, passes, passes_at, agrees, agrees→eq,
}
use vely.Codec.{to_hex, hex_digits, bin2hex, hex2bin, url_pair, url_dig}

abbrev reads_hex : ℕ → Bool
unfolding to_hex url_pair
reads_hex c = agrees (url_pair (to_hex (c / 16) ∷ to_hex (c % 16) ∷ [])) c

bytes_read_hex : passes reads_hex 256 ≡ true
unfolding passes reads_hex to_hex url_pair url_dig
bytes_read_hex = refl

pair_lem : (c : ℕ) → c < 256 → url_pair (to_hex (c / 16) ∷ to_hex (c % 16) ∷ []) ≡ some c
unfolding url_pair reads_hex
pair_lem c h =
    agrees→eq (url_pair (to_hex (c / 16) ∷ to_hex (c % 16) ∷ [])) c
      (passes_at reads_hex 256 c h bytes_read_hex)

url_pair-two : (x y : ℕ) (w : Bytes) → url_pair (x ∷ y ∷ w) ≡ url_pair (x ∷ y ∷ [])
unfolding url_pair
url_pair-two x y w = refl

read_hex :
    (x y b n : ℕ) (w : Bytes)
    → url_pair (x ∷ y ∷ []) ≡ some b
    → hex2bin (suc (suc n)) (x ∷ y ∷ w) ≡ b ∷ hex2bin n w
unfolding hex2bin
read_hex x y b n w h =
    ap (λ o. elim o [ none ↦ [] | some b ↦ b ∷ hex2bin n w ]) (url_pair-two x y w ∙ h)

-- Bytes below 256 come back from their hexadecimal digits, and of what stands behind the digits
-- nothing is read.
pub hex2bin-bin2hex :
    (v rest : Bytes)
    → All (λ c. c < 256) v
    → hex2bin (length (bin2hex [] v)) (bin2hex [] v ++ rest) ≡ v
unfolding bin2hex hex2bin
hex2bin-bin2hex [] rest h = refl
hex2bin-bin2hex (c ∷ v) rest (byte, h) =
    read_hex (to_hex (c / 16)) (to_hex (c % 16)) c (length (hex_digits v)) (hex_digits v ++ rest)
      (pair_lem c byte)
    ∙ ap (λ w. c ∷ w) (hex2bin-bin2hex v rest h)
