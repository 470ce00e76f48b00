-- ===== src/Codec/Web.antt =====
-- Web encoding and back.
use vely.Base.{
  ℕ, ◌≡◌, ◌≢◌, refl, sym, ◌∙◌, ap, subst, Bool, false, [], ◌∷◌, ◌++◌, ◌==◌, ==_ne, length, Bytes,
  strip, All, ℕ_discrete, All-append, ◌||◌,
}
use vely.Codec.{web_code, encode_web, entity, web_char, decode_web}

abbrev Reads : Bytes → ℕ → Type 0
Reads w c =
    decode_web 0 (length (web_code c ++ w)) (web_code c ++ w) ≡ c ∷ decode_web 0 (length w) w

-- A code is read as the byte it stands for, and the rest after it.
web_code_lem :
    (c : ℕ) (w : Bytes)
    → c ≢ 0
    → decode_web 0 (length (web_code c ++ w)) (web_code c ++ w) ≡ c ∷ decode_web 0 (length w) w
unfolding web_code decode_web web_char entity strip
web_code_lem c w some_byte = elim (ℕ_discrete c 38) [
  | yes e ↦ subst (Reads w) (sym e) refl
  | no amp ↦ elim (ℕ_discrete c 34) [
    | yes e ↦ subst (Reads w) (sym e) refl
    | no quot ↦ elim (ℕ_discrete c 39) [
      | yes e ↦ subst (Reads w) (sym e) refl
      | no apos ↦ elim (ℕ_discrete c 60) [
        | yes e ↦ subst (Reads w) (sym e) refl
        | no lt ↦ elim (ℕ_discrete c 62) [
          | yes e ↦ subst (Reads w) (sym e) refl
          | no gt ↦ rw (
            ==_ne c 38 amp,
            ==_ne c 34 quot,
            ==_ne c 39 apos,
            ==_ne c 60 lt,
            ==_ne c 62 gt,
            ==_ne c 0 some_byte,
            ==_ne c 38 amp,
          )
        ]
      ]
    ]
  ]
]

-- Web encoding and decoding give a text without null bytes back.
pub decode_web-encode_web :
    (v : Bytes) → All (λ c. c ≢ 0) v → decode_web 0 (length (encode_web v)) (encode_web v) ≡ v
unfolding encode_web
decode_web-encode_web [] h = unfold decode_web in refl
decode_web-encode_web (c ∷ v) (some_byte, h) =
    web_code_lem c (encode_web v) some_byte ∙ ap (λ w. c ∷ w) (decode_web-encode_web v h)

unfoldable pub is_markup : ℕ → Bool
is_markup c = c == 34 || c == 39 || c == 60 || c == 62 || c == 0

plain : (c : ℕ) → c ≢ 34 → c ≢ 39 → c ≢ 60 → c ≢ 62 → c ≢ 0 → is_markup c ≡ false
unfolding is_markup
plain c quot apos lt gt some_byte =
    rw (
      is_markup,
      ==_ne c 34 quot,
      ==_ne c 39 apos,
      ==_ne c 60 lt,
      ==_ne c 62 gt,
      ==_ne c 0 some_byte,
    )

abbrev IsPlain : ℕ → Type 0
IsPlain c = All (λ b. is_markup b ≡ false) (web_code c)

web_code-All : (c : ℕ) → All (λ b. is_markup b ≡ false) (web_code c)
unfolding web_code is_markup
web_code-All c = elim (ℕ_discrete c 38) [
  | yes e ↦ subst IsPlain (sym e) (refl, (refl, (refl, (refl, (refl, tt)))))
  | no amp ↦ elim (ℕ_discrete c 34) [
    | yes e ↦ subst IsPlain (sym e) (refl, (refl, (refl, (refl, (refl, (refl, tt))))))
    | no quot ↦ elim (ℕ_discrete c 39) [
      | yes e ↦ subst IsPlain (sym e) (refl, (refl, (refl, (refl, (refl, (refl, tt))))))
      | no apos ↦ elim (ℕ_discrete c 60) [
        | yes e ↦ subst IsPlain (sym e) (refl, (refl, (refl, (refl, tt))))
        | no lt ↦ elim (ℕ_discrete c 62) [
          | yes e ↦ subst IsPlain (sym e) (refl, (refl, (refl, (refl, tt))))
          | no gt ↦ elim (ℕ_discrete c 0) [
            | yes e ↦ subst IsPlain (sym e) tt
            | no some_byte ↦
                rw
                  (
                    ==_ne c 38 amp,
                    ==_ne c 34 quot,
                    ==_ne c 39 apos,
                    ==_ne c 60 lt,
                    ==_ne c 62 gt,
                    ==_ne c 0 some_byte,
                  )
                  (plain c quot apos lt gt some_byte, tt)
          ]
        ]
      ]
    ]
  ]
]

-- Web encoding leaves no quotation mark, apostrophe, angle bracket or null byte, whatever the text.
pub encode_web-All : (v : Bytes) → All (λ b. is_markup b ≡ false) (encode_web v)
unfolding encode_web
encode_web-All [] = tt
encode_web-All (c ∷ v) =
    All-append (λ b. is_markup b ≡ false) (web_code c) (encode_web v) (web_code-All c)
      (encode_web-All v)
