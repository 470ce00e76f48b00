-- ===== src/Codec.antt =====
-- velyrtc.c and velyrt.c: web and URL encoding (`vely_encode_base`), its inverse (`vely_decode`), and
-- bytes written as hexadecimal digits (`vely_bin2hex`, `vely_hex2bin`). A loop runs over the bytes that
-- are left. The code decodes in place, and writes behind what it has yet to read. A `char` has a sign.
pub mod Web
pub mod Url
pub mod Hex
pub mod Tests
use vely.Base.{
  ℕ, zero, suc, ◌+◌, ◌-◌, ◌*◌, ◌/◌, ◌%◌, Bool, true, false, ◌&&◌, ◌||◌, Option, none, some, List,
  [], ◌∷◌, ◌++◌, leb, ltb, ◌==◌, if◌then◌else◌, get_or, drop, Bytes, codes, strip,
}

unfoldable pub web_code : ℕ → Bytes
web_code c =
    if c == 38
    then codes "&amp;"
    else if c == 34
    then codes "&quot;"
    else if c == 39
    then codes "&apos;"
    else if c == 60
    then codes "&lt;"
    else if c == 62
    then codes "&gt;"
    else if c == 0
    then []
    else c ∷ []

unfoldable pub encode_web : Bytes → Bytes
unfolding web_code
encode_web [] = []
encode_web (c ∷ v) = web_code c ++ encode_web v

-- `isalnum` in the C locale.
unfoldable pub is_alnum : ℕ → Bool
is_alnum c = (leb 48 c && leb c 57) || (leb 65 c && leb c 90) || (leb 97 c && leb c 122)

unfoldable pub url_safe : ℕ → Bool
unfolding is_alnum
url_safe c = is_alnum c || c == 45 || c == 46 || c == 95 || c == 126

unfoldable pub upper_digit : ℕ → ℕ
upper_digit d = if leb 10 d then 65 + d - 10 else 48 + d

-- A `char` of 128 and more is `c - 256`, whose quotient and remainder by 16 are not positive.
unfoldable pub url_code : ℕ → Bytes
unfolding url_safe upper_digit
url_code c =
    if url_safe c
    then c ∷ []
    else if ltb c 128
    then 37 ∷ upper_digit (c / 16) ∷ upper_digit (c % 16) ∷ []
    else 37 ∷ (48 - (256 - c) / 16) ∷ (48 - (256 - c) % 16) ∷ []

unfoldable pub encode_url : Bytes → Bytes
unfolding url_code
encode_url [] = []
encode_url (c ∷ v) = url_code c ++ encode_url v

-- `!strncmp (v, p, strlen (p))`.
abbrev pub begins : Bytes → Bytes → Bool
unfolding strip
begins p v = elim (strip p v) [ none ↦ false | some _ ↦ true ]

-- The byte for an ampersand before `v`, and how many more bytes it takes.
unfoldable pub entity : Bytes → ℕ × ℕ
unfolding begins
entity v =
    if begins (codes "amp;") v
    then (38, 4)
    else if begins (codes "quot;") v
    then (34, 5)
    else if begins (codes "apos;") v
    then (39, 5)
    else if begins (codes "lt;") v
    then (60, 3)
    else if begins (codes "gt;") v
    then (62, 3)
    else (38, 0)

unfoldable pub web_char : ℕ → Bytes → ℕ × ℕ
unfolding entity
web_char c v = if c == 38 then entity v else (c, 0)

-- `skip` is how many bytes `i` has been moved on by.
unfoldable pub decode_web : ℕ → ℕ → Bytes → Bytes
unfolding web_char
decode_web skip zero v = []
decode_web skip (suc left) [] = []
decode_web (suc skip) (suc left) (c ∷ v) = decode_web skip left v
decode_web zero (suc left) (c ∷ v) =
    let rest = decode_web (web_char c v).1 left v in (web_char c v).0 ∷ rest

-- URLDIG, where `none` is its `break`.
unfoldable pub url_dig : ℕ → Option ℕ
url_dig x =
    if leb 65 x && leb x 70
    then some (x - 65 + 10)
    else if leb 97 x && leb x 102
    then some (x - 97 + 10)
    else if leb 48 x && leb x 57
    then some (x - 48)
    else none

-- The byte that two digits stand for. Behind the end is the terminator.
unfoldable pub url_pair : Bytes → Option ℕ
unfolding url_dig
url_pair v = elim (url_dig (get_or v 0 0)) [
  | none ↦ none
  | some h ↦ elim (url_dig (get_or v 1 0)) [ none ↦ none | some l ↦ some (h * 16 + l) ]
]

unfoldable pub decode_url : ℕ → ℕ → Bytes → Bytes
decode_url skip zero v = []
decode_url skip (suc left) [] = []
decode_url (suc skip) (suc left) (c ∷ v) = decode_url skip left v
decode_url zero (suc left) (c ∷ v) =
    let plain = decode_url 0 left v in
    let pair = decode_url 2 left v in
    if c == 37
    then elim (url_pair v) [ none ↦ [] | some b ↦ b ∷ pair ]
    else if c == 43
    then 32 ∷ plain
    else c ∷ plain

-- VV_TO_HEX.
unfoldable pub to_hex : ℕ → ℕ
to_hex d = if leb d 9 then 48 + d else 97 - 10 + d

unfoldable pub hex_digits : Bytes → Bytes
unfolding to_hex
hex_digits [] = []
hex_digits (c ∷ v) = to_hex (c / 16) ∷ to_hex (c % 16) ∷ hex_digits v

-- `pref` is empty where the code has NULL.
unfoldable pub bin2hex : Bytes → Bytes → Bytes
unfolding hex_digits
bin2hex pref v = pref ++ hex_digits v

unfoldable pub hex2bin : ℕ → Bytes → Bytes
hex2bin zero v = []
hex2bin (suc zero) v = elim (url_pair v) [ none ↦ [] | some b ↦ b ∷ [] ]
hex2bin (suc (suc left)) v =
    let rest = hex2bin left (drop 2 v) in elim (url_pair v) [ none ↦ [] | some b ↦ b ∷ rest ]
