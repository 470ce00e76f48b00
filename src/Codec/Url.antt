-- ===== src/Codec/Url.antt =====
-- URL encoding and back, and what becomes of bytes that are no ASCII.
use vely.Base.{
  ℕ, suc, ◌-◌, agrees, agrees→eq, is_none, is_none→eq, lt→ltb, ◌/◌, ◌%◌, ◌≤◌, ◌<◌, ◌≡◌, refl, ◌∙◌,
  ap, Bool, true, false, not, ◌&&◌, ◌||◌, none, some, [], ◌∷◌, ◌++◌, ◌==◌, if◌then◌else◌, length,
  Bytes, All, arith, passes, passes_at, ltb, Bool-cases, inl, inr,
}
use vely.Codec.{
  url_safe, url_code, encode_url, url_pair, decode_url, is_alnum, upper_digit, url_dig,
}

-- Whether `url_pair` reads what `url_code` writes for a byte.
abbrev reads_back : ℕ → Bool
unfolding url_safe upper_digit url_pair
reads_back c =
    if url_safe c
    then not (c == 37) && not (c == 43)
    else agrees (url_pair (upper_digit (c / 16) ∷ upper_digit (c % 16) ∷ [])) c

ascii_reads_back : passes reads_back 128 ≡ true
unfolding passes reads_back url_safe is_alnum upper_digit url_pair url_dig
ascii_reads_back = refl

-- A byte that is no ASCII is written as what is no pair of digits.
abbrev no_pair : ℕ → Bool
unfolding url_safe url_pair
no_pair c =
    ltb c 128
    || (not (url_safe c) && is_none (url_pair ((48 - (256 - c) / 16) ∷ (48 - (256 - c) % 16) ∷ [])))

bytes_no_pair : passes no_pair 256 ≡ true
unfolding passes no_pair url_safe is_alnum url_pair url_dig
bytes_no_pair = refl

and-left : (a b : Bool) → (not a && b) ≡ true → a ≡ false
and-left true b h = cc
and-left false b h = refl

and-right : (a b : Bool) → (not a && b) ≡ true → b ≡ true
and-right true b h = cc
and-right false b h = h

is_ascii : (c : ℕ) → c < 128 → reads_back c ≡ true
is_ascii c h = passes_at reads_back 128 c h ascii_reads_back

read_plain :
    (c : ℕ) (w : Bytes)
    → (not (c == 37) && not (c == 43)) ≡ true
    → decode_url 0 (suc (length w)) (c ∷ w) ≡ c ∷ decode_url 0 (length w) w
unfolding decode_url
read_plain c w h = ground (arith, h)

url_code-safe : (c : ℕ) → url_safe c ≡ true → url_code c ≡ c ∷ []
unfolding url_code
url_code-safe c y = rw (url_code, y)

url_code-ascii :
    (c : ℕ)
    → url_safe c ≡ false
    → c < 128
    → url_code c ≡ 37 ∷ upper_digit (c / 16) ∷ upper_digit (c % 16) ∷ []
unfolding url_code
url_code-ascii c n h = rw (url_code, n, lt→ltb c 128 h)

url_code-high :
    (c : ℕ)
    → 128 ≤ c
    → url_safe c ≡ false
    → url_code c ≡ 37 ∷ (48 - (256 - c) / 16) ∷ (48 - (256 - c) % 16) ∷ []
unfolding url_code
url_code-high c h n = let high : ltb c 128 ≡ false = ground (arith, h) in rw (url_code, n, high)

reads-safe :
    (c : ℕ) → url_safe c ≡ true → reads_back c ≡ true → (not (c == 37) && not (c == 43)) ≡ true
unfolding reads_back
reads-safe c y t = rw (reads_back, y) at t

reads-unsafe :
    (c : ℕ)
    → url_safe c ≡ false
    → reads_back c ≡ true
    → agrees (url_pair (upper_digit (c / 16) ∷ upper_digit (c % 16) ∷ [])) c ≡ true
unfolding reads_back
reads-unsafe c n t = rw (reads_back, n) at t

no_pair-unsafe : (c : ℕ) → 128 ≤ c → no_pair c ≡ true → url_safe c ≡ false
unfolding no_pair
no_pair-unsafe c h t =
    let high : ltb c 128 ≡ false = ground (arith, h) in
    and-left (url_safe c) (is_none (url_pair ((48 - (256 - c) / 16) ∷ (48 - (256 - c) % 16) ∷ [])))
      (rw (no_pair, high) at t)

no_pair-none :
    (c : ℕ)
    → 128 ≤ c
    → no_pair c ≡ true
    → is_none (url_pair ((48 - (256 - c) / 16) ∷ (48 - (256 - c) % 16) ∷ [])) ≡ true
unfolding no_pair
no_pair-none c h t =
    let high : ltb c 128 ≡ false = ground (arith, h) in
    and-right (url_safe c) (is_none (url_pair ((48 - (256 - c) / 16) ∷ (48 - (256 - c) % 16) ∷ [])))
      (rw (no_pair, high) at t)

url_pair-two : (x y : ℕ) (w : Bytes) → url_pair (x ∷ y ∷ w) ≡ url_pair (x ∷ y ∷ [])
unfolding url_pair
url_pair-two x y w = refl

read_pair :
    (x y b : ℕ) (w : Bytes)
    → url_pair (x ∷ y ∷ []) ≡ some b
    → decode_url 0 (suc (suc (suc (length w)))) (37 ∷ x ∷ y ∷ w) ≡ b ∷ decode_url 0 (length w) w
unfolding decode_url
read_pair x y b w h = rw (url_pair-two x y w, h)

read_none :
    (x y : ℕ) (w : Bytes)
    → url_pair (x ∷ y ∷ []) ≡ none
    → decode_url 0 (suc (suc (suc (length w)))) (37 ∷ x ∷ y ∷ w) ≡ []
unfolding decode_url
read_none x y w h = rw (url_pair-two x y w, h)

-- A code of an ASCII byte is read as the byte, and the rest after it.
url_code_lem :
    (c : ℕ) (w : Bytes)
    → c < 128
    → decode_url 0 (length (url_code c ++ w)) (url_code c ++ w) ≡ c ∷ decode_url 0 (length w) w
url_code_lem c w h = elim (Bool-cases (url_safe c)) [
  | inl y ↦ rw (url_code-safe c y) (read_plain c w (reads-safe c y (is_ascii c h)))
  | inr n ↦ rw (url_code-ascii c n h) (
      read_pair (upper_digit (c / 16)) (upper_digit (c % 16)) c w (
        agrees→eq (url_pair (upper_digit (c / 16) ∷ upper_digit (c % 16) ∷ [])) c
          (reads-unsafe c n (is_ascii c h))))
]

-- URL encoding and decoding give an ASCII text back.
pub decode_url-encode_url :
    (v : Bytes) → All (λ c. c < 128) v → decode_url 0 (length (encode_url v)) (encode_url v) ≡ v
unfolding encode_url
decode_url-encode_url [] h = unfold decode_url in refl
decode_url-encode_url (c ∷ v) (ascii, h) =
    url_code_lem c (encode_url v) ascii ∙ ap (λ w. c ∷ w) (decode_url-encode_url v h)

-- A byte of 128 and more is encoded as what is no pair of digits, and decoding stops before it: of a
-- text only the ASCII bytes in front of its first other byte come back.
pub encode_url_signed :
    (v rest : Bytes) (c : ℕ)
    → All (λ b. b < 128) v
    → 128 ≤ c
    → c < 256
    → decode_url 0 (length (encode_url (v ++ c ∷ rest))) (encode_url (v ++ c ∷ rest)) ≡ v
unfolding encode_url
encode_url_signed [] rest c h high byte =
    let t : no_pair c ≡ true = passes_at no_pair 256 c byte bytes_no_pair in
    rw (url_code-high c high (no_pair-unsafe c high t)) (
      read_none (48 - (256 - c) / 16) (48 - (256 - c) % 16) (encode_url rest) (
        is_none→eq (url_pair ((48 - (256 - c) / 16) ∷ (48 - (256 - c) % 16) ∷ []))
          (no_pair-none c high t)))
encode_url_signed (b ∷ v) rest c (ascii, h) high byte =
    url_code_lem b (encode_url (v ++ c ∷ rest)) ascii
    ∙ ap (λ w. b ∷ w) (encode_url_signed v rest c h high byte)
