-- ===== src/Json/Bounds.antt =====
-- How long a text gets as a JSON string.
use vely.Base.{
  ℕ, zero, suc, ◌+◌, ◌*◌, ◌≤◌, ◌<◌, ◌≡◌, ◌⊎◌, inl, inr, ap, sym, subst, dec_le, refl, ◌∙◌, [], ◌∷◌,
  length, length-append, All, Bytes, arith,
}
use vely.Utf8.{Utf8Result, Utf8Error, encode_utf8, ok, err}
use vely.Json.Write.{lead_step, step_lem}
use vely.Utf8.Reads.{encode_utf8_bounds}
use vely.Utf8.Bits.{is_ascii_lem, lead_two_lem, lead_three_lem, lead_four_lem}
use vely.Json.{
  JsonError, done, bad, put, fail, Step, utf8_to_json, encode_step, code_point, byte_code,
  unicode_code, hex16, prepend, JsonResult, utf8,
}

length-byte_code : (c : ℕ) → length (byte_code c) ≤ 2
unfolding byte_code
length-byte_code c = ground arith

short_code : (u : ℕ) → u < 0x10000 → length (code_point u) ≡ 6
unfolding code_point unicode_code hex16
short_code u h = ground arith

long_code : (u : ℕ) → length (code_point u) ≤ 12
unfolding code_point unicode_code hex16
long_code u = ground arith

length-code_point : (u n : ℕ) → 2 ≤ n → (u < 0x10000) ⊎ (n ≡ 4) → length (code_point u) ≤ 3 * n
length-code_point u n h (inl k) = omega (arith, short_code u k)
length-code_point u n h (inr k) = omega (arith, long_code u)

-- A sequence has two bytes or more, and four where the code point is past 0xFFFF.
sequence_length :
    (c : ℕ) (v : Bytes) {u n : ℕ}
    → c < 256
    → 192 ≤ c
    → encode_utf8 (c ∷ v) ≡ ok (u, n)
    → (2 ≤ n) × ((u < 0x10000) ⊎ (n ≡ 4))
unfolding encode_utf8
sequence_length c v h k e =
    ground (arith, is_ascii_lem c, lead_two_lem c, lead_three_lem c, lead_four_lem c)

abbrev written : Step → Bytes
written (put w n) = w
written (fail e) = []

abbrev skipped : Step → ℕ
skipped (put w n) = n
skipped (fail e) = 0

abbrev Within : ℕ → Bytes → ℕ → Type 0
Within size w n = (n ≤ size) × (length w ≤ 3 * suc n)

within_lem :
    (s : Step) {w1 w : Bytes} {n1 n : ℕ} (size : ℕ)
    → s ≡ put w1 n1
    → s ≡ put w n
    → Within size w1 n1
    → Within size w n
within_lem s {w1} {w} {n1} {n} size a b h =
    let e = ap written (sym a ∙ b) in
    let k = ap skipped (sym a ∙ b) in subst (Within size w) k (subst (λ x. Within size x n1) e h)

lead_fail :
    (c : ℕ) (v : Bytes) {x : Utf8Error}
    → 192 ≤ c
    → c < 256
    → encode_utf8 (c ∷ v) ≡ err x
    → encode_step (c ∷ v) ≡ fail (utf8 x)
unfolding encode_step
lead_fail c v h k e = rw (lead_two_lem c k, e) (ground arith)

lead_length :
    (c : ℕ) (v : Bytes) (r : Utf8Result (ℕ × ℕ)) {w : Bytes} {n : ℕ}
    → All (λ b. b < 256) (c ∷ v)
    → 192 ≤ c
    → encode_utf8 (c ∷ v) ≡ r
    → encode_step (c ∷ v) ≡ put w n
    → Within (length v) w n
lead_length c v (err x) h k r e = cc (lead_fail c v k h.0 r)
lead_length c v (ok (u, zero)) h k r e = absurd (omega (arith, sequence_length c v h.0 k r))
lead_length c v (ok (u, suc m)) h k r e =
    let b = encode_utf8_bounds (c ∷ v) h (λ x. cc) r in
    let l = sequence_length c v h.0 k r in
    within_lem (encode_step (c ∷ v)) (length v) (lead_step c v k h.0 r) e
      (omega arith, length-code_point u (suc m) l.0 l.1)

plain_step : (c : ℕ) (v : Bytes) → c < 256 → c < 192 → encode_step (c ∷ v) ≡ put (byte_code c) 0
unfolding encode_step
plain_step c v h k = ground (arith, lead_two_lem c)

step_length :
    (c : ℕ) (v : Bytes) {w : Bytes} {n : ℕ}
    → All (λ b. b < 256) (c ∷ v)
    → encode_step (c ∷ v) ≡ put w n
    → Within (length v) w n
step_length c v h e = elim (dec_le 192 c) [
  | yes k ↦ lead_length c v (encode_utf8 (c ∷ v)) h k refl e
  | no k ↦
      within_lem (encode_step (c ∷ v)) (length v) (plain_step c v h.0 (omega arith)) e
        (omega arith, omega (arith, length-byte_code c))
]

abbrev bytes_done : JsonResult Bytes → Bytes
bytes_done (done w) = w
bytes_done (bad e) = []

prepend-done :
    (w : Bytes) (r : JsonResult Bytes) {x : Bytes}
    → prepend w r ≡ done x
    → (y : Bytes) × (r ≡ done y) × (length x ≡ length w + length y)
prepend-done w (done y) e = (y, refl, ap length (sym (ap bytes_done e)) ∙ length-append w y)
prepend-done w (bad b) e = cc

abbrev Fits : ℕ → Bytes → Type 0
Fits skip v =
    (w : Bytes) → utf8_to_json skip (length v) v ≡ done w → length w + 3 * skip ≤ 3 * length v

step_fail :
    (left : ℕ) (v : Bytes) {x : JsonError}
    → encode_step v ≡ fail x
    → utf8_to_json 0 (suc left) v ≡ bad x
unfolding utf8_to_json
step_fail left v e = rw (utf8_to_json, e) refl

step-Fits :
    (c : ℕ) (v : Bytes) (s : Step) {w : Bytes}
    → All (λ b. b < 256) (c ∷ v)
    → ((n : ℕ) → n ≤ length v → Fits n v)
    → encode_step (c ∷ v) ≡ s
    → utf8_to_json 0 (suc (length v)) (c ∷ v) ≡ done w
    → length w ≤ 3 * suc (length v)
unfolding utf8_to_json
step-Fits c v (fail x) h ih s e = cc (step_fail (length v) (c ∷ v) s)
step-Fits c v (put w1 n) h ih s e =
    let (a, b) = step_length c v h s in
    let (y, r, l) = prepend-done w1 _ (sym (step_lem (length v) (c ∷ v) s) ∙ e) in
    omega (arith, ih n a y r)

text-Fits : (skip : ℕ) (v : Bytes) → All (λ b. b < 256) v → skip ≤ length v → Fits skip v
unfolding utf8_to_json
text-Fits skip [] h k w e = omega (arith, ap length (ap bytes_done e))
text-Fits (suc skip) (c ∷ v) h k w e = omega (arith, text-Fits skip v h.1 (omega arith) w e)
text-Fits zero (c ∷ v) h k w e =
    omega (arith, step-Fits c v (encode_step (c ∷ v)) h (λ n. text-Fits n v h.1) refl e)

-- The JSON string of a whole text takes at most three times the bytes of the text, which is what
-- `vely_utf8_to_json` allocates, next to the terminator.
pub length-utf8_to_json :
    (v : Bytes) {w : Bytes}
    → All (λ b. b < 256) v
    → utf8_to_json 0 (length v) v ≡ done w
    → length w ≤ 3 * length v
length-utf8_to_json v {w} h e = omega (arith, text-Fits 0 v h (omega arith) w e)
