-- ===== src/Json/Write.antt =====
-- Writing code points as parts of a JSON string.
use vely.Base.{
  ℕ, suc, ◌≤◌, ◌<◌, ◌≡◌, ◌≢◌, refl, ◌∙◌, sym, ap, subst, ◌⊎◌, inl, inr, List, [], ◌∷◌, ◌++◌, leb,
  if◌then◌else◌, length, Bytes, pos, arith, dec_lt, drop,
}
use vely.Utf8.{encode_utf8, decode_utf8, Utf8Result, ok, err}
use vely.Utf8.Bits.{is_ascii_lem, lead_two_lem, lead_three_lem, lead_four_lem}
use vely.Utf8.RoundTrip.{Writes, encode-decode}
use vely.Json.{put, utf8_to_json, encode_step, code_point, byte_code, prepend}

-- The code points from 1 to 0x10FFFF but for the surrogates and for 0xFEFF.
abbrev pub IsScalar : ℕ → Type 0
IsScalar u = (1 ≤ u) × (u ≤ 0x10FFFF) × (u ≢ 0xFEFF) × ((u < 0xD800) ⊎ (0xDFFF < u))

abbrev pub bytes_of : Utf8Result Bytes → Bytes
bytes_of (ok w) = w
bytes_of (err e) = []

-- A text in UTF-8.
unfoldable pub utf8_text : List ℕ → Bytes
utf8_text [] = []
utf8_text (u ∷ us) = bytes_of (decode_utf8 (pos u)) ++ utf8_text us

abbrev pub json_code : ℕ → Bytes
json_code u = if leb 128 u then code_point u else byte_code u

-- A text as a JSON string.
unfoldable pub json_text : List ℕ → Bytes
json_text [] = []
json_text (u ∷ us) = json_code u ++ json_text us

pub scalar_bytes : (u : ℕ) → IsScalar u → (bs : Bytes) × Writes u bs
scalar_bytes u h = elim (encode-decode u) [
  | inl w ↦ w
  | inr (inl x) ↦ absurd (h.2 x.0)
  | inr (inr x) ↦ absurd (omega arith)
]

-- A sequence of several bytes begins with 192 or more.
first_byte :
    (a : ℕ) (rest : Bytes) {u n : ℕ}
    → a < 256
    → 128 ≤ u
    → encode_utf8 (a ∷ rest) ≡ ok (u, n)
    → 192 ≤ a
unfolding encode_utf8
first_byte a rest h k e =
    ground (arith, is_ascii_lem a, lead_two_lem a, lead_three_lem a, lead_four_lem a)

skip_bytes :
    (w t : Bytes) → utf8_to_json (length w) (length (w ++ t)) (w ++ t) ≡ utf8_to_json 0 (length t) t
unfolding utf8_to_json
skip_bytes [] t = refl
skip_bytes (a ∷ w) t = skip_bytes w t

ascii_step : (c : ℕ) (t : Bytes) → c < 128 → encode_step (c ∷ t) ≡ put (byte_code c) 0
unfolding encode_step
ascii_step c t h = ground (arith, lead_two_lem c)

pub lead_step :
    (c : ℕ) (t : Bytes) {u n : ℕ}
    → 192 ≤ c
    → c < 256
    → encode_utf8 (c ∷ t) ≡ ok (u, suc n)
    → encode_step (c ∷ t) ≡ put (code_point u) n
unfolding encode_step
lead_step c t h k e = rw (lead_two_lem c k, e) (ground arith)

pub step_lem :
    (left : ℕ) (v : Bytes) {w : Bytes} {n : ℕ}
    → encode_step v ≡ put w n
    → utf8_to_json 0 (suc left) v ≡ prepend w (utf8_to_json n left (drop 1 v))
unfolding utf8_to_json
step_lem left v e = rw (utf8_to_json, e)

-- One code point is written as its code.
abbrev pub Encodes : ℕ → Bytes → Type 0
Encodes u bs =
    (t : Bytes)
    → utf8_to_json 0 (length (bs ++ t)) (bs ++ t)
      ≡ prepend (json_code u) (utf8_to_json 0 (length t) t)

ascii-Encodes : (u : ℕ) → u < 128 → Encodes u (u ∷ [])
ascii-Encodes u h t =
    step_lem (length t) (u ∷ t) (ascii_step u t h)
    ∙ ap (λ c. prepend c (utf8_to_json 0 (length t) t)) (ground arith)

rest-Encodes : (u a : ℕ) (ws : Bytes) → 128 ≤ u → a < 256 → Writes u (a ∷ ws) → Encodes u (a ∷ ws)
rest-Encodes u a ws h k w t =
    step_lem (length (ws ++ t)) (a ∷ ws ++ t)
      (lead_step a (ws ++ t) (first_byte a (ws ++ t) k h (w.reads t)) k (w.reads t))
    ∙ ap (prepend (code_point u)) (skip_bytes ws t)
    ∙ ap (λ c. prepend c (utf8_to_json 0 (length t) t)) (ground arith)

pub ascii_bytes : (u : ℕ) (bs : Bytes) → u < 128 → decode_utf8 (pos u) ≡ ok bs → bs ≡ u ∷ []
unfolding decode_utf8
ascii_bytes u bs h e = ground arith

no_bytes : (u : ℕ) → encode_utf8 [] ≢ ok (u, 0)
unfolding encode_utf8
no_bytes u e = ground arith

pub code-Encodes : (u : ℕ) (bs : Bytes) → Writes u bs → Encodes u bs
code-Encodes u [] w = absurd (no_bytes u (w.reads []))
code-Encodes u (a ∷ ws) w = elim (dec_lt u 128) [
  | yes h ↦ subst (Encodes u) (sym (ascii_bytes u (a ∷ ws) h w.wrote)) (ascii-Encodes u h)
  | no h ↦ rest-Encodes u a ws (omega arith) w.bytes.0 w
]
