-- ===== src/Json.antt =====
-- json.c: JSON strings and numbers. `json_to_utf8` reads a JSON string, `utf8_to_json` writes one and
-- `json_num` finds the end of a number. A `char *` is the list of the bytes before its terminator, and
-- a read past the list is a read of the terminator. A string is decoded in place, and written behind
-- what is yet to be read: the model gives the text that is left there, and how far the code has read.
pub mod Name
pub mod Parse
pub mod Nodes
pub mod Hex
pub mod Write
pub mod Read
pub mod RoundTrip
pub mod Bounds
pub mod Grammar
pub mod Complete
pub mod Exponent
pub mod Sound
pub mod Tests
use vely.Base.{
  ℕ, zero, suc, ◌+◌, ◌-◌, ◌*◌, ◌/◌, ◌%◌, Bool, true, false, not, ◌&&◌, ◌||◌, Option, none, some, [],
  ◌∷◌, ◌++◌, leb, ◌==◌, if◌then◌else◌, get_or, drop, length, Bytes, ℤ, pos, bit_and,
}
use vely.Utf8.{
  Utf8Error, ok, err, encode_utf8, decode_utf8, make_from_utf8_surrogate, get_utf8_surrogate,
}
use vely.Codec.{to_hex}

-- VV_ERR_JSON_BADUTF, VV_ERR_JSON_SURROGATE, VV_ERR_JSON_BADESCAPE, VV_ERR_JSON_NOQUOTE, and the
-- messages of utf8.c.
pub data JsonError : Type 0 where
  bad_utf surrogate bad_escape no_quote : JsonError
  utf8 : Utf8Error → JsonError

pub data JsonResult {ℓ} (A : Type ℓ) : Type ℓ where
  done : A → JsonResult A
  bad : JsonError → JsonResult A

unfoldable pub topower : ℕ → ℕ → ℕ
topower b zero = 1
topower b (suc p) = topower b p * b

-- The value of a digit in `vely_get_hex`.
unfoldable pub hex_value : ℕ → Option ℕ
hex_value c =
    if leb 48 c && leb c 57
    then some (c - 48)
    else if leb 97 c && leb c 102
    then some (c - 97 + 10)
    else if leb 65 c && leb c 70
    then some (c - 65 + 10)
    else none

-- The loop, with `3 - k` as the first argument's predecessor.
unfoldable pub get_hex_loop : ℕ → ℕ → Bytes → Option ℕ
get_hex_loop zero r v = some r
get_hex_loop (suc left) r v = elim (hex_value (get_or v 0 0)) [
  | none ↦ none
  | some d ↦ get_hex_loop left (r + d * topower 16 left) (drop 1 v)
]

-- `none` is VV_ERR_JSON_BADUTF.
unfoldable pub get_hex : Bytes → Option ℕ
get_hex v = get_hex_loop 4 0 v

-- What is written for a byte and what stands behind it, and how many bytes behind it are read.
pub data Step : Type 0 where
  put : Bytes → ℕ → Step
  fail : JsonError → Step

abbrev pub put_code : ℤ → ℕ → Step
put_code u skip = elim (decode_utf8 u) [ ok w ↦ put w skip | err e ↦ fail (utf8 e) ]

-- Behind the first half of a pair, which `r` is, where `v` is what follows its digits.
unfoldable pub second_half : ℕ → Bytes → Step
second_half r v =
    if get_or v 0 0 == 92 && get_or v 1 0 == 117
    then elim (get_hex (drop 2 v)) [
      | none ↦ fail bad_utf
      | some r1 ↦ put_code (make_from_utf8_surrogate r r1) 11
    ]
    else fail surrogate

-- Behind a backslash and a `u`.
unfoldable pub unicode_step : Bytes → Step
unicode_step v = elim (get_hex v) [
  | none ↦ fail bad_utf
  | some r ↦ if leb 0xD800 r && leb r 0xDFFF then second_half r (drop 4 v) else put_code (pos r) 5
]

-- The byte that a backslash and `c` stand for.
unfoldable pub short_escape : ℕ → Option ℕ
short_escape c =
    if c == 34 || c == 92 || c == 47
    then some c
    else if c == 98
    then some 8
    else if c == 102
    then some 12
    else if c == 110
    then some 10
    else if c == 114
    then some 13
    else if c == 116
    then some 9
    else none

-- Behind a backslash.
unfoldable pub escape_step : Bytes → Step
escape_step v = elim (short_escape (get_or v 0 0)) [
  | some b ↦ put (b ∷ []) 1
  | none ↦ if get_or v 0 0 == 117 then unicode_step (drop 1 v) else fail bad_escape
]

unfoldable pub decode_step : ℕ → Bytes → Step
decode_step c v = if c == 92 then escape_step v else put (c ∷ []) 0

-- The text written, how many bytes were read, and whether a quotation mark ended it.
pub record Decoded : Type 0 where
  pub text : Bytes
  pub used : ℕ
  pub closed : Bool

abbrev pub decoded : Bytes → ℕ → Bool → Decoded
decoded w n b = record { text = w; used = n; closed = b }

abbrev pub more : Bytes → JsonResult Decoded → JsonResult Decoded
more w (done d) = done (decoded (w ++ d.text) (suc d.used) d.closed)
more w (bad e) = bad e

-- The loop where `enc` is set. `skip` is how many bytes `i` has been moved on by.
unfoldable pub decode_loop : ℕ → Bytes → JsonResult Decoded
decode_loop skip [] = done (decoded [] 0 false)
decode_loop (suc skip) (c ∷ v) = more [] (decode_loop skip v)
decode_loop zero (c ∷ v) =
    if c == 34
    then done (decoded [] 0 true)
    else elim (decode_step c v) [ put w n ↦ more w (decode_loop n v) | fail e ↦ bad e ]

abbrev pub require_quote : Bool → JsonResult Decoded → JsonResult Decoded
require_quote quoted (bad e) = bad e
require_quote quoted (done d) = if not d.closed && quoted then bad no_quote else done d

-- `vely_json_to_utf8` where `enc` is set, behind the opening quotation mark if there is one.
unfoldable pub json_to_utf8 : Bool → Bytes → JsonResult Decoded
json_to_utf8 quoted v = require_quote quoted (decode_loop 0 v)

abbrev pub one_more : Option (ℕ × Bool) → Option (ℕ × Bool)
one_more none = none
one_more (some (n, b)) = some (suc n, b)

-- The loop where `enc` is not set: how many bytes were read, and whether a quotation mark ended it.
-- `none` is where the code stays at a quotation mark for ever.
unfoldable pub pass_loop : Bool → ℕ → Bytes → Option (ℕ × Bool)
pass_loop quoted skip [] = some (0, false)
pass_loop quoted (suc skip) (c ∷ v) = one_more (pass_loop quoted skip v)
pass_loop quoted zero (c ∷ v) =
    let rest =
      one_more (pass_loop quoted (if c == 92 && not (get_or v 0 0 == 0) then 1 else 0) v) in
    if c == 34 then (if quoted then some (0, true) else none) else rest

-- `vely_json_to_utf8` where `enc` is not set: how far the string goes.
unfoldable pub pass_string : Bool → Bytes → Option (JsonResult ℕ)
pass_string quoted v = elim (pass_loop quoted 0 v) [
  | none ↦ none
  | some (n, closed) ↦ some (if not closed && quoted then bad no_quote else done n)
]

-- VV_HEX_FROM_INT16.
unfoldable pub hex16 : ℕ → Bytes
hex16 u =
    to_hex (u / 4096 % 16) ∷ to_hex (u / 256 % 16) ∷ to_hex (u / 16 % 16) ∷ to_hex (u % 16) ∷ []

unfoldable pub unicode_code : ℕ → Bytes
unicode_code u = 92 ∷ 117 ∷ hex16 u

unfoldable pub code_point : ℕ → Bytes
code_point u =
    if leb 0x10000 u
    then unicode_code (get_utf8_surrogate u).0 ++ unicode_code (get_utf8_surrogate u).1
    else unicode_code u

unfoldable pub byte_code : ℕ → Bytes
byte_code c =
    if c == 34
    then 92 ∷ 34 ∷ []
    else if c == 92
    then 92 ∷ 92 ∷ []
    else if c == 8
    then 92 ∷ 98 ∷ []
    else if c == 12
    then 92 ∷ 102 ∷ []
    else if c == 10
    then 92 ∷ 110 ∷ []
    else if c == 13
    then 92 ∷ 114 ∷ []
    else if c == 9
    then 92 ∷ 116 ∷ []
    else c ∷ []

unfoldable pub encode_step : Bytes → Step
encode_step v =
    if bit_and (get_or v 0 0) 192 == 192
    then elim (encode_utf8 v) [ ok r ↦ put (code_point r.0) (r.1 - 1) | err e ↦ fail (utf8 e) ]
    else put (byte_code (get_or v 0 0)) 0

abbrev pub prepend : Bytes → JsonResult Bytes → JsonResult Bytes
prepend w (done r) = done (w ++ r)
prepend w (bad e) = bad e

-- The loop of `vely_utf8_to_json`: `left` is `len - i` and `v` is what stands at `val + i`.
unfoldable pub utf8_to_json : ℕ → ℕ → Bytes → JsonResult Bytes
utf8_to_json skip zero v = done []
utf8_to_json (suc skip) (suc left) v = utf8_to_json skip left (drop 1 v)
utf8_to_json zero (suc left) v = elim (encode_step v) [
  | put w n ↦ prepend w (utf8_to_json n left (drop 1 v))
  | fail e ↦ bad e
]

-- `isdigit`.
unfoldable pub is_digit : ℕ → Bool
is_digit c = leb 48 c && leb c 57

-- How often `while (isdigit (val[i])) i++` runs.
unfoldable pub digits : Bytes → ℕ
digits [] = 0
digits (c ∷ v) = let rest = digits v in if is_digit c then suc rest else 0

-- The exponent, where `v` stands at `val + i`: how far the number goes, and whether it is a double.
unfoldable pub json_exponent : ℕ → Bool → Bytes → Option (ℕ × Bool)
json_exponent i isdbl v =
    if get_or v 0 0 == 101 || get_or v 0 0 == 69
    then (let sign = if get_or v 1 0 == 43 || get_or v 1 0 == 45 then 2 else 1 in
        if is_digit (get_or v sign 0) then some (i + sign + digits (drop sign v), true) else none)
    else some (i, isdbl)

-- The decimal point.
unfoldable pub json_fraction : ℕ → Bytes → Option (ℕ × Bool)
json_fraction i v =
    if get_or v 0 0 == 46
    then (let count = digits (drop 1 v) in
        if is_digit (get_or v 1 0)
        then json_exponent (i + 1 + count) true (drop (1 + count) v)
        else none)
    else json_exponent i false v

-- The digits behind the sign.
unfoldable pub json_integer : ℕ → Bytes → Option (ℕ × Bool)
json_integer i v =
    if is_digit (get_or v 0 0) && not (get_or v 0 0 == 48 && not (digits v == 1))
    then json_fraction (i + digits v) (drop (digits v) v)
    else none

-- How many bytes of `val` are a number, and whether it is a double; `none` is VV_ERR_JSON_NUMBER.
unfoldable pub json_num : Bytes → Option (ℕ × Bool)
json_num v = if get_or v 0 0 == 45 then json_integer 1 (drop 1 v) else json_integer 0 v
