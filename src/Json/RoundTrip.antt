-- ===== src/Json/RoundTrip.antt =====
-- Writing a text as a JSON string and reading it back.
use vely.Base.{
  ℕ, ◌+◌, ◌≡◌, refl, ◌∙◌, sym, ap, Bool, true, false, List, [], ◌∷◌, ◌++◌, length, All, Bytes, pos,
  arith, append_assoc, append-nil, length-append,
}
use vely.Utf8.{decode_utf8}
use vely.Json.{
  JsonResult, done, bad, Decoded, decoded, decode_loop, utf8_to_json, prepend, json_to_utf8,
  require_quote,
}
use vely.Json.Write.{
  IsScalar, bytes_of, json_code, utf8_text, json_text, scalar_bytes, Encodes, code-Encodes,
}
use vely.Json.Read.{after, after_zero, Decodes, code-Decodes}

-- What both directions say of one code point.
code_lem :
    (u : ℕ)
    → IsScalar u
    → Encodes u (bytes_of (decode_utf8 (pos u)))
      × Decodes (json_code u) (bytes_of (decode_utf8 (pos u)))
code_lem u s =
    let (bs, w) = scalar_bytes u s in
    rw (ap bytes_of w.wrote) (code-Encodes u bs w, code-Decodes u bs s w)

encode_text :
    (us : List ℕ)
    → All IsScalar us
    → utf8_to_json 0 (length (utf8_text us)) (utf8_text us) ≡ done (json_text us)
unfolding utf8_text json_text utf8_to_json
encode_text [] h = refl
encode_text (u ∷ us) (s, h) =
    (code_lem u s).0 (utf8_text us) ∙ ap (prepend (json_code u)) (encode_text us h)

after-after :
    (w w1 : Bytes) (n n1 : ℕ) (r : JsonResult Decoded)
    → after w n (after w1 n1 r) ≡ after (w ++ w1) (n + n1) r
after-after w w1 n n1 (bad e) = refl
after-after w w1 n n1 (done d) =
    ap (λ v. done (decoded v (n + (n1 + d.used)) d.closed)) (sym (append_assoc w w1 d.text))
    ∙ ap (λ k. done (decoded ((w ++ w1) ++ d.text) k d.closed)) (omega arith)

decode_text :
    (us : List ℕ) (e : Bytes)
    → All IsScalar us
    → decode_loop 0 (json_text us ++ e)
      ≡ after (utf8_text us) (length (json_text us)) (decode_loop 0 e)
unfolding utf8_text json_text
decode_text [] e h = sym (after_zero (decode_loop 0 e))
decode_text (u ∷ us) e (s, h) =
    ap (decode_loop 0) (append_assoc (json_code u) (json_text us) e)
    ∙ (code_lem u s).1 (json_text us ++ e)
    ∙ ap (after (bytes_of (decode_utf8 (pos u))) (length (json_code u))) (decode_text us e h)
    ∙ after-after (bytes_of (decode_utf8 (pos u))) (utf8_text us) (length (json_code u))
        (length (json_text us)) (decode_loop 0 e)
    ∙ ap (λ n. after (bytes_of (decode_utf8 (pos u)) ++ utf8_text us) n (decode_loop 0 e))
        (sym (length-append (json_code u) (json_text us)))

at_end : (w : Bytes) (n : ℕ) (b : Bool) → after w n (done (decoded [] 0 b)) ≡ done (decoded w n b)
at_end w n b =
    ap (λ v. done (decoded v (n + 0) b)) (append-nil w)
    ∙ ap (λ k. done (decoded w k b)) (omega arith)

-- The JSON string of a text, that is read back.
pub record ReadsBack (us : List ℕ) (w : Bytes) : Type 0 where
  pub written : utf8_to_json 0 (length (utf8_text us)) (utf8_text us) ≡ done w
  pub quoted_read :
      (rest : Bytes)
      → json_to_utf8 true (w ++ 34 ∷ rest) ≡ done (decoded (utf8_text us) (length w) true)
  pub plain_read : json_to_utf8 false w ≡ done (decoded (utf8_text us) (length w) false)

pub json_text-ReadsBack : (us : List ℕ) → All IsScalar us → ReadsBack us (json_text us)
unfolding json_to_utf8 decode_loop
json_text-ReadsBack us h = record {
  written = encode_text us h;
  quoted_read = λ rest.
      ap (require_quote true)
        (decode_text us (34 ∷ rest) h ∙ at_end (utf8_text us) (length (json_text us)) true);
  plain_read = ap (require_quote false) (
      ap (decode_loop 0) (sym (append-nil (json_text us)))
      ∙ decode_text us [] h
      ∙ at_end (utf8_text us) (length (json_text us)) false);
}

-- A text of code points from 1 to 0x10FFFF, with no surrogate and no 0xFEFF, is written as a JSON
-- string, and `json_to_utf8` reads the same text back from it, between quotation marks, where it
-- stops at the closing one, and without them, where it stops at the end.
pub json_to_utf8-utf8_to_json : (us : List ℕ) → All IsScalar us → (w : Bytes) × ReadsBack us w
json_to_utf8-utf8_to_json us h = (json_text us, json_text-ReadsBack us h)
