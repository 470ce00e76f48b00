-- ===== src/Json/Tests.antt =====
-- Runs of the JSON routines, and the concrete inputs for their theorems.
use vely.Base.{
  ◌≡◌, refl, false, true, [], ◌∷◌, ◌++◌, Bytes, codes, arith, inl, inr, length, List, ◌+◌, some,
  none, ◌↔◌, ◌≤◌, ◌*◌,
}
use vely.Utf8.{
  is_continuation, encode_utf8, decode_utf8, get_utf8_surrogate, make_from_utf8_surrogate,
}
use vely.Codec.{to_hex}
use vely.Json.RoundTrip.{ReadsBack, json_to_utf8-utf8_to_json}
use vely.Json.Name.{
  JsonNode, fullname, fullname_size, names_text, node_text, index_text, put_digits, path_name,
  fullname_lem,
}
use vely.Json.Bounds.{length-utf8_to_json}
use vely.Json.Grammar.{IsNumber}
use vely.Json.Sound.{json_num_iff}
use vely.Json.{
  json_num, json_integer, json_fraction, json_exponent, is_digit, digits, utf8_to_json,
  json_to_utf8, done, decoded, pass_string, pass_loop, encode_step, code_point, byte_code,
  unicode_code, hex16, decode_loop, decode_step, escape_step, short_escape, unicode_step,
  second_half, get_hex, get_hex_loop, hex_value, topower,
}

-- A quotation mark, an accented letter and a sign past 0xFFFF.
abbrev sample : Bytes
sample = 34 ∷ 195 ∷ 169 ∷ 240 ∷ 159 ∷ 152 ∷ 128 ∷ 97 ∷ []

sample_json :
    utf8_to_json 0 8 sample
    ≡ done (92 ∷ 34 ∷ 92 ∷ codes "u00e9" ++ 92 ∷ codes "ud83d" ++ 92 ∷ codes "ude00a")
unfolding utf8_to_json encode_step encode_utf8 code_point byte_code unicode_code hex16
    get_utf8_surrogate to_hex is_continuation
sample_json = refl

sample_back :
    json_to_utf8 true
      (92 ∷ 34 ∷ 92 ∷ codes "u00e9" ++ 92 ∷ codes "ud83d" ++ 92 ∷ codes "ude00a" ++ 34 ∷ 32 ∷ [])
    ≡ done (decoded sample 21 true)
unfolding json_to_utf8 decode_loop decode_step escape_step short_escape unicode_step second_half
    get_hex get_hex_loop hex_value topower decode_utf8 make_from_utf8_surrogate
sample_back = refl

json_to_utf8-utf8_to_json_example : (w : Bytes) × ReadsBack (34 ∷ 0xE9 ∷ 0x1F600 ∷ []) w
json_to_utf8-utf8_to_json_example = json_to_utf8-utf8_to_json (34 ∷ 0xE9 ∷ 0x1F600 ∷ []) (
  (omega arith, omega arith, λ e. absurd (omega arith), inl (omega arith)),
  (
    (omega arith, omega arith, λ e. absurd (omega arith), inl (omega arith)),
    ((omega arith, omega arith, λ e. absurd (omega arith), inr (omega arith)), tt),
  ),
)

length-utf8_to_json_example : 21 ≤ 3 * 8
length-utf8_to_json_example = length-utf8_to_json sample (omega arith) sample_json

double : json_num (codes "-12.50e+3,") ≡ some (9, true)
unfolding json_num json_integer json_fraction json_exponent is_digit digits
double = refl

leading_zero : json_num (codes "012") ≡ none
unfolding json_num json_integer json_fraction json_exponent is_digit digits
leading_zero = refl

no_comma : is_digit 44 ≡ false
unfolding is_digit
no_comma = refl

json_num_iff_example :
    (json_num (codes "-12.50e+3" ++ codes ",") ≡ some (9, true)) ↔ IsNumber (codes "-12.50e+3") true
json_num_iff_example =
    json_num_iff (codes "-12.50e+3") (codes ",") true
      (no_comma, λ e. absurd (omega arith), λ e. absurd (omega arith), λ e. absurd (omega arith))

-- An escaped quotation mark is passed over, and the next one ends the string.
passed : pass_string true (97 ∷ 92 ∷ 34 ∷ 98 ∷ 34 ∷ 44 ∷ []) ≡ some (done 4)
unfolding pass_string pass_loop
passed = refl

-- Without quotation marks around the text, one inside it is never passed.
stays : pass_string false (97 ∷ 34 ∷ 98 ∷ []) ≡ none
unfolding pass_string pass_loop
stays = refl

-- The node `"a"[20]."b"`.
abbrev path : List JsonNode
path =
    record { name = codes "a"; name_len = 1; index = some 20 }
    ∷ record { name = codes "b"; name_len = 1; index = none }
    ∷ []

path_text : fullname path ≡ 34 ∷ 97 ∷ 34 ∷ codes "[20]." ++ 34 ∷ 98 ∷ 34 ∷ []
unfolding fullname names_text node_text index_text put_digits
path_text = refl

fullname_lem_example :
    (length (fullname path) + 1 ≤ fullname_size path) × (fullname path ≡ path_name path)
fullname_lem_example = fullname_lem path ((omega arith, omega arith), ((omega arith, tt), tt))
