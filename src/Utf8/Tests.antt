-- ===== src/Utf8/Tests.antt =====
-- Runs of the UTF-8 routines, and instances of their theorems.
use vely.Base.{◌≡◌, refl, [], ◌∷◌, Bytes, pos}
use vely.Utf8.{encode_utf8, decode_utf8, is_continuation, ok, err, third_byte}
use vely.Utf8.RoundTrip.{Outcome, encode-decode}

euro : decode_utf8 (pos 0x20AC) ≡ ok (0xE2 ∷ 0x82 ∷ 0xAC ∷ [])
unfolding decode_utf8
euro = refl

abbrev euro_bytes : Bytes
euro_bytes = 0xE2 ∷ 0x82 ∷ 0xAC ∷ []

euro_read : encode_utf8 euro_bytes ≡ ok (0x20AC, 3)
unfolding encode_utf8 is_continuation
euro_read = refl

euro_cut : encode_utf8 (0xE2 ∷ 0x82 ∷ []) ≡ err third_byte
unfolding encode_utf8 is_continuation
euro_cut = refl

encode-decode_example : Outcome 0x1F600
encode-decode_example = encode-decode 0x1F600
