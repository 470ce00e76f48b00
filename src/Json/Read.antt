-- ===== src/Json/Read.antt =====
-- Reading the parts of a JSON string back.
use vely.Base.{
  ℕ, suc, ◌+◌, ◌≤◌, ◌<◌, ◌≡◌, ◌≢◌, refl, ◌∙◌, sym, ap, subst, ◌⊎◌, some, [], ◌∷◌, ◌++◌, ==_ne,
  length, Bytes, pos, arith, dec_lt, ℕ_discrete, ℤ,
}
use vely.Utf8.{decode_utf8, ok, get_utf8_surrogate, make_from_utf8_surrogate}
use vely.Utf8.RoundTrip.{Writes, make-get}
use vely.Json.{
  JsonResult, done, bad, Decoded, decoded, decode_loop, decode_step, escape_step, short_escape,
  unicode_step, second_half, put_code, put, more, code_point, byte_code, unicode_code, hex16,
}
use vely.Json.Hex.{get_hex-hex16}
use vely.Json.Write.{IsScalar, json_code, ascii_bytes}

-- What reading goes on with: text written, and bytes read.
abbrev pub after : Bytes → ℕ → JsonResult Decoded → JsonResult Decoded
after w n (bad e) = bad e
after w n (done d) = done (decoded (w ++ d.text) (n + d.used) d.closed)

pub after_zero : (r : JsonResult Decoded) → after [] 0 r ≡ r
after_zero (bad e) = refl
after_zero (done d) = ap (λ n. done (decoded d.text n d.closed)) (omega arith)

more-after :
    (w : Bytes) (n : ℕ) (r : JsonResult Decoded) → more w (after [] n r) ≡ after w (suc n) r
more-after w n (bad e) = refl
more-after w n (done d) = ap (λ k. done (decoded (w ++ d.text) k d.closed)) (omega arith)

skip_loop : (w t : Bytes) → decode_loop (length w) (w ++ t) ≡ after [] (length w) (decode_loop 0 t)
unfolding decode_loop
skip_loop [] t = sym (after_zero (decode_loop 0 t))
skip_loop (a ∷ w) t = ap (more []) (skip_loop w t) ∙ more-after [] (length w) (decode_loop 0 t)

loop_lem :
    (c : ℕ) (v : Bytes) {w : Bytes} {n : ℕ}
    → c ≢ 34
    → decode_step c v ≡ put w n
    → decode_loop 0 (c ∷ v) ≡ more w (decode_loop n v)
unfolding decode_loop
loop_lem c v h e = rw (decode_loop, ==_ne c 34 h, e)

unicode_lem :
    (u : ℕ) (t : Bytes)
    → u ≤ 0xFFFF
    → (u < 0xD800) ⊎ (0xDFFF < u)
    → unicode_step (hex16 u ++ t) ≡ put_code (pos u) 5
unfolding unicode_step
unicode_lem u t h k = rw (unicode_step, get_hex-hex16 u t (omega arith)) (ground arith)

pair_lem :
    (u u1 : ℕ) (t : Bytes)
    → 0xD800 ≤ u
    → u ≤ 0xDFFF
    → u1 ≤ 0xFFFF
    → unicode_step (hex16 u ++ unicode_code u1 ++ t) ≡ put_code (make_from_utf8_surrogate u u1) 11
unfolding unicode_step second_half unicode_code hex16
pair_lem u u1 t h k l =
    rw
      (
        unicode_step,
        get_hex-hex16 u (unicode_code u1 ++ t) (omega arith),
        get_hex-hex16 u1 t (omega arith),
      )
      (ground arith)

-- A code of `n + 1` bytes that a step reads.
read_code :
    (c : ℕ) (w t : Bytes) {bs : Bytes}
    → c ≢ 34
    → decode_step c (w ++ t) ≡ put bs (length w)
    → decode_loop 0 (c ∷ w ++ t) ≡ after bs (suc (length w)) (decode_loop 0 t)
read_code c w t {bs} h e =
    loop_lem c (w ++ t) h e
    ∙ ap (more bs) (skip_loop w t)
    ∙ more-after bs (length w) (decode_loop 0 t)

abbrev pub Decodes : Bytes → Bytes → Type 0
Decodes w bs = (t : Bytes) → decode_loop 0 (w ++ t) ≡ after bs (length w) (decode_loop 0 t)

plain-Decodes : (c : ℕ) → c ≢ 34 → c ≢ 92 → Decodes (c ∷ []) (c ∷ [])
unfolding decode_step
plain-Decodes c h k t = read_code c [] t {bs = c ∷ []} h (rw (decode_step, ==_ne c 92 k) refl)

short-Decodes : (c b : ℕ) → short_escape c ≡ some b → Decodes (92 ∷ c ∷ []) (b ∷ [])
unfolding decode_step escape_step
short-Decodes c b e t =
    read_code 92 (c ∷ []) t {bs = b ∷ []} (λ x. absurd (omega arith)) (rw (escape_step, e) refl)

abbrev DecodesByte : ℕ → Type 0
DecodesByte u = Decodes (byte_code u) (u ∷ [])

ascii-Decodes : (u : ℕ) → DecodesByte u
unfolding byte_code short_escape
ascii-Decodes u = elim (ℕ_discrete u 34) [
  | yes e ↦ subst DecodesByte (sym e) (short-Decodes 34 34 refl)
  | no quote ↦ elim (ℕ_discrete u 92) [
    | yes e ↦ subst DecodesByte (sym e) (short-Decodes 92 92 refl)
    | no slash ↦ elim (ℕ_discrete u 8) [
      | yes e ↦ subst DecodesByte (sym e) (short-Decodes 98 8 refl)
      | no b ↦ elim (ℕ_discrete u 12) [
        | yes e ↦ subst DecodesByte (sym e) (short-Decodes 102 12 refl)
        | no f ↦ elim (ℕ_discrete u 10) [
          | yes e ↦ subst DecodesByte (sym e) (short-Decodes 110 10 refl)
          | no n ↦ elim (ℕ_discrete u 13) [
            | yes e ↦ subst DecodesByte (sym e) (short-Decodes 114 13 refl)
            | no r ↦ elim (ℕ_discrete u 9) [
              | yes e ↦ subst DecodesByte (sym e) (short-Decodes 116 9 refl)
              | no t ↦
                  subst (λ w. Decodes w (u ∷ [])) {x = u ∷ []} (sym (ground arith))
                    (plain-Decodes u quote slash)
            ]
          ]
        ]
      ]
    ]
  ]
]

put_code_lem : (u : ℤ) (n : ℕ) {bs : Bytes} → decode_utf8 u ≡ ok bs → put_code u n ≡ put bs n
put_code_lem u n e = rw (put_code, e) refl

u_step : (v : Bytes) → decode_step 92 (117 ∷ v) ≡ unicode_step v
unfolding decode_step escape_step short_escape
u_step v = refl

unicode-Decodes :
    (u : ℕ) (bs : Bytes)
    → u ≤ 0xFFFF
    → (u < 0xD800) ⊎ (0xDFFF < u)
    → Writes u bs
    → Decodes (unicode_code u) bs
unfolding unicode_code hex16
unicode-Decodes u bs h k w t =
    read_code 92 (117 ∷ hex16 u) t (λ x. absurd (omega arith))
      (u_step (hex16 u ++ t) ∙ unicode_lem u t h k ∙ put_code_lem (pos u) 5 w.wrote)

pair-Decodes :
    (u u0 u1 : ℕ) (bs : Bytes)
    → make_from_utf8_surrogate u0 u1 ≡ pos u
    → 0xD800 ≤ u0
    → u0 ≤ 0xDFFF
    → u1 ≤ 0xFFFF
    → Writes u bs
    → Decodes (unicode_code u0 ++ unicode_code u1) bs
unfolding unicode_code hex16
pair-Decodes u u0 u1 bs e h k l w t =
    read_code 92 (117 ∷ hex16 u0 ++ unicode_code u1) t (λ x. absurd (omega arith))
      (u_step (hex16 u0 ++ unicode_code u1 ++ t)
        ∙ pair_lem u0 u1 t h k l
        ∙ ap (λ z. put_code z 11) e
        ∙ put_code_lem (pos u) 11 w.wrote)

pub code-Decodes : (u : ℕ) (bs : Bytes) → IsScalar u → Writes u bs → Decodes (json_code u) bs
unfolding code_point
code-Decodes u bs s w = elim (dec_lt u 128) [
  | yes h ↦
      subst (Decodes (json_code u)) (sym (ascii_bytes u bs h w.wrote))
        (subst (λ v. Decodes v (u ∷ [])) {x = byte_code u} (ground arith) (ascii-Decodes u))
  | no h ↦ elim (dec_lt u 0x10000) [
    | yes k ↦
        subst (λ v. Decodes v bs) {x = unicode_code u} (ground arith)
          (unicode-Decodes u bs (omega arith) s.3 w)
    | no k ↦
        let (e, a, b, c, d) = make-get u (omega arith) s.1 in
        subst (λ v. Decodes v bs)
          {x = unicode_code (get_utf8_surrogate u).0 ++ unicode_code (get_utf8_surrogate u).1}
          (ground arith) (pair-Decodes u _ _ bs e a (omega arith) (omega arith) w)
  ]
]
