-- ===== src/Utf8/Reads.antt =====
-- What `encode_utf8` takes from its buffer, and what it accepts beyond the standard.
use vely.Base.{
  ℕ, zero, suc, ◌+◌, ◌/◌, ◌%◌, ◌^◌, ◌≤◌, ◌<◌, ◌≡◌, ◌≢◌, refl, true, [], ◌∷◌, length, get_or, All,
  Bytes, pos, arith, ap, ◌∙◌,
}
use vely.Utf8.{encode_utf8, decode_utf8, is_continuation, ok}
use vely.Utf8.Bits.{is_ascii_lem}
use vely.Utf8.RoundTrip.{encode_two}

-- The terminator is no continuation byte.
continuation_inside : (xs : Bytes) (i : ℕ) → is_continuation (get_or xs i 0) ≡ true → i < length xs
unfolding is_continuation
continuation_inside [] i h = cc
continuation_inside (x ∷ xs) zero h = omega arith
continuation_inside (x ∷ xs) (suc i) h = omega (arith, continuation_inside xs i h)

-- A successful read of a text that is not empty takes between one and four bytes, none past the
-- end of the text, and gives a number below 2 ^ 21.
pub encode_utf8_bounds :
    (r : Bytes) {u n : ℕ}
    → All (λ b. b < 256) r
    → r ≢ []
    → encode_utf8 r ≡ ok (u, n)
    → (1 ≤ n) × (n ≤ 4) × (n ≤ length r) × (u < 2 ^ 21)
unfolding encode_utf8
encode_utf8_bounds [] b h e = absurd (h refl)
encode_utf8_bounds (x ∷ xs) {u} {n} b h e = ground (
  arith,
  is_ascii_lem x b.0,
  continuation_inside xs 0,
  continuation_inside xs 1,
  continuation_inside xs 2,
)

-- The reader also takes the two-byte form of every ASCII character, which RFC 3629 forbids and
-- which the writer never produces: it writes that character as one byte.
pub encode_utf8_overlong :
    (a : ℕ) (rest : Bytes)
    → a < 128
    → (encode_utf8 ((192 + a / 2 ^ 6) ∷ (128 + a % 2 ^ 6) ∷ rest) ≡ ok (a, 2))
      × (decode_utf8 (pos a) ≡ ok (a ∷ []))
unfolding decode_utf8
encode_utf8_overlong a rest h = (
  encode_two (192 + a / 2 ^ 6) (128 + a % 2 ^ 6) rest (omega arith) (omega arith) (omega arith)
        (omega arith)
      ∙ ap (λ n. ok (n, 2)) (omega arith),
  ground arith,
)
