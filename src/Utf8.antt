-- ===== src/Utf8.antt =====
-- utf8.c: bytes to code point, code point to bytes, and UTF-16 surrogates. The naming is the
-- source's: `encode_utf8` reads UTF-8 bytes, `decode_utf8` writes them. A `char *` is the list of the
-- bytes before its terminator, and a read past the list is a read of the terminator. `x << k` is
-- `x * 2 ^ k`, `x >> k` is `x / 2 ^ k` and `x & (2 ^ k - 1)` is `x % 2 ^ k`. What `*u` and `r` hold
-- after an error is left out: no caller reads it.
pub mod Bits
pub mod RoundTrip
pub mod Reads
pub mod Tests
use vely.Base.{
  ℕ, ◌+◌, ◌-◌, ◌*◌, ◌/◌, ◌%◌, ◌^◌, Bool, [], ◌∷◌, leb, ◌==◌, if◌then◌else◌, get_or, Bytes, ℤ, pos,
  negsuc, sub_ℕ, bit_and,
}

-- The messages VV_UTF8_ERR_SECOND_BYTE to VV_UTF8_ERR_OUT_OF_RANGE.
pub data Utf8Error : Type 0 where
  second_byte third_byte fourth_byte invalid illegal_feff out_of_range : Utf8Error

-- A result, or -1 with `*e` set.
pub data Utf8Result (A : Type 0) : Type 0 where
  ok : A → Utf8Result A
  err : Utf8Error → Utf8Result A

-- Both are `num32` arguments; the difference is a signed one.
unfoldable pub make_from_utf8_surrogate : ℕ → ℕ → ℤ
make_from_utf8_surrogate u0 u1 = sub_ℕ (u0 * 2 ^ 10 + u1 + 0x10000) (0xD800 * 2 ^ 10 + 0xDC00)

unfoldable pub get_utf8_surrogate : ℕ → ℕ × ℕ
get_utf8_surrogate u = (0xD800 - 0x10000 / 2 ^ 10 + u / 2 ^ 10, 0xDC00 + u % 2 ^ 10)

-- The test of a byte after the first.
unfoldable pub is_continuation : ℕ → Bool
is_continuation b = bit_and b 128 == 128

-- The code point and the number of bytes that it took.
unfoldable pub encode_utf8 : Bytes → Utf8Result (ℕ × ℕ)
encode_utf8 r =
    let r0 = get_or r 0 0 in
    let r1 = get_or r 1 0 in
    let r2 = get_or r 2 0 in
    let r3 = get_or r 3 0 in
    if bit_and r0 128 == 0
    then ok (r0, 1)
    else if bit_and r0 240 == 240
    then (if is_continuation r1
        then (if is_continuation r2
            then (if is_continuation r3
                then ok
                    (r0 % 2 ^ 3 * 2 ^ 18 + r1 % 2 ^ 6 * 2 ^ 12 + r2 % 2 ^ 6 * 2 ^ 6 + r3 % 2 ^ 6, 4)
                else err fourth_byte)
            else err third_byte)
        else err second_byte)
    else if bit_and r0 224 == 224
    then (if is_continuation r1
        then (if is_continuation r2
            then ok (r0 % 2 ^ 4 * 2 ^ 12 + r1 % 2 ^ 6 * 2 ^ 6 + r2 % 2 ^ 6, 3)
            else err third_byte)
        else err second_byte)
    else if bit_and r0 192 == 192
    then (if is_continuation r1 then ok (r0 % 2 ^ 5 * 2 ^ 6 + r1 % 2 ^ 6, 2) else err second_byte)
    else err invalid

-- The bytes written to `r`; their number is what is returned. A negative `u` is at most 0x7F, and
-- the cast to `unsigned char` takes it modulo 256.
unfoldable pub decode_utf8 : ℤ → Utf8Result Bytes
decode_utf8 (negsuc n) = ok ((255 - n % 256) ∷ [])
decode_utf8 (pos u) =
    if leb u 0x7F
    then ok (u ∷ [])
    else if leb u 0x7FF
    then ok ((192 + u / 2 ^ 6) ∷ (128 + u % 2 ^ 6) ∷ [])
    else if leb u 0xFFFF
    then (if u == 0xFEFF
        then err illegal_feff
        else ok ((224 + u / 2 ^ 12) ∷ (128 + u / 2 ^ 6 % 2 ^ 6) ∷ (128 + u % 2 ^ 6) ∷ []))
    else if leb u 0x10FFFF
    then ok (
        (240 + u / 2 ^ 18)
        ∷ (128 + u / 2 ^ 12 % 2 ^ 6)
        ∷ (128 + u / 2 ^ 6 % 2 ^ 6)
        ∷ (128 + u % 2 ^ 6)
        ∷ [])
    else err out_of_range
