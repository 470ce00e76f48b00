-- ===== src/Codec/Tests.antt =====
-- Runs of the encodings, and the concrete inputs for their theorems.
use vely.Base.{◌≡◌, refl, [], ◌∷◌, ◌++◌, length, Bytes, codes, arith}
use vely.Codec.{encode_web, decode_web, encode_url, decode_url, bin2hex, hex2bin}
use vely.Codec.Web.{decode_web-encode_web}
use vely.Codec.Url.{decode_url-encode_url, encode_url_signed}
use vely.Codec.Hex.{hex2bin-bin2hex}

abbrev markup : Bytes
markup = codes "<a&b>"

abbrev query : Bytes
query = codes "a b+c%"

-- The two bytes of an accented letter, between two ASCII letters.
abbrev accented : Bytes
accented = 99 ∷ 195 ∷ 169 ∷ 101 ∷ []

encoded_markup : encode_web markup ≡ codes "&lt;a&amp;b&gt;"
unfolding encode_web
encoded_markup = refl

encoded_query : encode_url query ≡ codes "a%20b%2Bc%25"
unfolding encode_url
encoded_query = refl

encoded_accented : encode_url accented ≡ codes "c%-#%+)e"
unfolding encode_url
encoded_accented = refl

decode_web-encode_web_example :
    decode_web 0 (length (encode_web markup)) (encode_web markup) ≡ markup
decode_web-encode_web_example = decode_web-encode_web markup (
  λ e. absurd (omega arith),
  (
    λ e. absurd (omega arith),
    (λ e. absurd (omega arith), (λ e. absurd (omega arith), (λ e. absurd (omega arith), tt))),
  ),
)

decode_url-encode_url_example : decode_url 0 (length (encode_url query)) (encode_url query) ≡ query
decode_url-encode_url_example =
    decode_url-encode_url query
      (omega arith, (omega arith, (omega arith, (omega arith, (omega arith, (omega arith, tt))))))

encode_url_signed_example :
    decode_url 0 (length (encode_url accented)) (encode_url accented) ≡ 99 ∷ []
encode_url_signed_example =
    encode_url_signed (99 ∷ []) (169 ∷ 101 ∷ []) 195 (omega arith, tt) (omega arith) (omega arith)

hex2bin-bin2hex_example :
    hex2bin (length (bin2hex [] accented)) (bin2hex [] accented ++ codes "00") ≡ accented
hex2bin-bin2hex_example =
    hex2bin-bin2hex accented (codes "00")
      (omega arith, (omega arith, (omega arith, (omega arith, tt))))
