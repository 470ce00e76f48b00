-- ===== src/Utf8/RoundTrip.antt =====
-- Writing a code point as UTF-8 and reading it back; splitting into surrogates and joining them.
use vely.Base.{
  ℕ, ◌+◌, ◌*◌, ◌/◌, ◌%◌, ◌^◌, ◌≤◌, ◌<◌, ◌≡◌, ◌≢◌, ◌⊎◌, [], ◌∷◌, ◌++◌, length, All, Bytes, pos,
  arith, ap, ◌∙◌, inl, inr, dec_le, ℕ_discrete,
}
use vely.Utf8.{
  encode_utf8, decode_utf8, make_from_utf8_surrogate, get_utf8_surrogate, ok, err, illegal_feff,
  out_of_range,
}
use vely.Utf8.Bits.{is_ascii_lem, is_continuation_lem, lead_two_lem, lead_three_lem, lead_four_lem}

pub encode_one : (a : ℕ) (rest : Bytes) → a < 128 → encode_utf8 (a ∷ rest) ≡ ok (a, 1)
unfolding encode_utf8
encode_one a rest h = ground (arith, is_ascii_lem a)

pub encode_two :
    (a b : ℕ) (rest : Bytes)
    → 192 ≤ a
    → a < 224
    → 128 ≤ b
    → b < 256
    → encode_utf8 (a ∷ b ∷ rest) ≡ ok (a % 2 ^ 5 * 2 ^ 6 + b % 2 ^ 6, 2)
unfolding encode_utf8
encode_two a b rest h k l m = ground (
  arith,
  is_ascii_lem a,
  lead_two_lem a,
  lead_three_lem a,
  lead_four_lem a,
  is_continuation_lem b,
)

pub encode_three :
    (a b c : ℕ) (rest : Bytes)
    → 224 ≤ a
    → a < 240
    → 128 ≤ b
    → b < 256
    → 128 ≤ c
    → c < 256
    → encode_utf8 (a ∷ b ∷ c ∷ rest) ≡ ok (a % 2 ^ 4 * 2 ^ 12 + b % 2 ^ 6 * 2 ^ 6 + c % 2 ^ 6, 3)
unfolding encode_utf8
encode_three a b c rest h k l m n o = ground (
  arith,
  is_ascii_lem a,
  lead_three_lem a,
  lead_four_lem a,
  is_continuation_lem b,
  is_continuation_lem c,
)

pub encode_four :
    (a b c d : ℕ) (rest : Bytes)
    → 240 ≤ a
    → a < 256
    → 128 ≤ b
    → b < 256
    → 128 ≤ c
    → c < 256
    → 128 ≤ d
    → d < 256
    → encode_utf8 (a ∷ b ∷ c ∷ d ∷ rest)
      ≡ ok (a % 2 ^ 3 * 2 ^ 18 + b % 2 ^ 6 * 2 ^ 12 + c % 2 ^ 6 * 2 ^ 6 + d % 2 ^ 6, 4)
unfolding encode_utf8
encode_four a b c d rest h k l m n o p q = ground (
  arith,
  is_ascii_lem a,
  lead_four_lem a,
  is_continuation_lem b,
  is_continuation_lem c,
  is_continuation_lem d,
)

-- What a successful write leaves: bytes, that are read back with their number whatever follows.
pub record Writes (u : ℕ) (bs : Bytes) : Type 0 where
  pub wrote : decode_utf8 (pos u) ≡ ok bs
  pub bytes : All (λ b. b < 256) bs
  pub short : length bs ≤ 4
  pub reads : (rest : Bytes) → encode_utf8 (bs ++ rest) ≡ ok (u, length bs)

abbrev pub Outcome : ℕ → Type 0
Outcome u =
    ((bs : Bytes) × Writes u bs)
    ⊎ ((u ≡ 0xFEFF) × (decode_utf8 (pos u) ≡ err illegal_feff))
    ⊎ ((0x10FFFF < u) × (decode_utf8 (pos u) ≡ err out_of_range))

write_one : (u : ℕ) → u ≤ 0x7F → Writes u (u ∷ [])
unfolding decode_utf8
write_one u h = record {
  wrote = ground arith;
  bytes = omega arith;
  short = omega arith;
  reads = λ rest. encode_one u rest (omega arith);
}

write_two : (u : ℕ) → 0x7F < u → u ≤ 0x7FF → Writes u ((192 + u / 2 ^ 6) ∷ (128 + u % 2 ^ 6) ∷ [])
unfolding decode_utf8
write_two u h k = record {
  wrote = ground arith;
  bytes = omega arith;
  short = omega arith;
  reads = λ rest.
      encode_two (192 + u / 2 ^ 6) (128 + u % 2 ^ 6) rest (omega arith) (omega arith) (omega arith)
        (omega arith)
      ∙ ap (λ n. ok (n, 2)) (omega arith);
}

write_three :
    (u : ℕ)
    → 0x7FF < u
    → u ≤ 0xFFFF
    → u ≢ 0xFEFF
    → Writes u ((224 + u / 2 ^ 12) ∷ (128 + u / 2 ^ 6 % 2 ^ 6) ∷ (128 + u % 2 ^ 6) ∷ [])
unfolding decode_utf8
write_three u h k n = record {
  wrote = ground arith;
  bytes = omega arith;
  short = omega arith;
  reads = λ rest.
      encode_three (224 + u / 2 ^ 12) (128 + u / 2 ^ 6 % 2 ^ 6) (128 + u % 2 ^ 6) rest (omega arith)
        (omega arith) (omega arith) (omega arith) (omega arith) (omega arith)
      ∙ ap (λ n. ok (n, 3)) (omega arith);
}

write_four :
    (u : ℕ)
    → 0xFFFF < u
    → u ≤ 0x10FFFF
    → Writes u (
        (240 + u / 2 ^ 18)
        ∷ (128 + u / 2 ^ 12 % 2 ^ 6)
        ∷ (128 + u / 2 ^ 6 % 2 ^ 6)
        ∷ (128 + u % 2 ^ 6)
        ∷ [])
unfolding decode_utf8
write_four u h k = record {
  wrote = ground arith;
  bytes = omega arith;
  short = omega arith;
  reads = λ rest.
      encode_four (240 + u / 2 ^ 18) (128 + u / 2 ^ 12 % 2 ^ 6) (128 + u / 2 ^ 6 % 2 ^ 6)
        (128 + u % 2 ^ 6) rest (omega arith) (omega arith) (omega arith) (omega arith) (omega arith)
        (omega arith) (omega arith) (omega arith)
      ∙ ap (λ n. ok (n, 4)) (omega arith);
}

-- A code point up to 0x10FFFF other than 0xFEFF is written as at most four bytes, each below 256,
-- and `encode_utf8` reads them back, whatever follows, as the same code point and the same number
-- of bytes. 0xFEFF and every number past 0x10FFFF are refused, each with its own message.
pub encode-decode : (u : ℕ) → Outcome u
unfolding decode_utf8
encode-decode u = elim (dec_le u 0x7F) [
  | yes a ↦ inl (_, write_one u a)
  | no a ↦ elim (dec_le u 0x7FF) [
    | yes b ↦ inl (_, write_two u (omega arith) b)
    | no b ↦ elim (dec_le u 0xFFFF) [
      | yes c ↦ elim (ℕ_discrete u 0xFEFF) [
        | yes d ↦ inr (inl (d, ground arith))
        | no d ↦ inl (_, write_three u (omega arith) c d)
      ]
      | no c ↦ elim (dec_le u 0x10FFFF) [
        | yes d ↦ inl (_, write_four u (omega arith) d)
        | no d ↦ inr (inr (omega arith, ground arith))
      ]
    ]
  ]
]

-- Splitting a code point past 0xFFFF gives a high and a low surrogate, each in its range, and
-- joining the two gives the code point back.
pub make-get :
    (u : ℕ)
    → 0x10000 ≤ u
    → u ≤ 0x10FFFF
    → (make_from_utf8_surrogate (get_utf8_surrogate u).0 (get_utf8_surrogate u).1 ≡ pos u)
      × (0xD800 ≤ (get_utf8_surrogate u).0)
      × ((get_utf8_surrogate u).0 ≤ 0xDBFF)
      × (0xDC00 ≤ (get_utf8_surrogate u).1)
      × ((get_utf8_surrogate u).1 ≤ 0xDFFF)
unfolding make_from_utf8_surrogate get_utf8_surrogate
make-get u lo hi = ground arith
