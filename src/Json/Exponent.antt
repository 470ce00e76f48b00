-- ===== src/Json/Exponent.antt =====
-- What `vely_json_num` reads behind the digits and the point is an exponent of the grammar, or nothing.
use vely.Base.{
  ℕ, ◌+◌, ◌≤◌, ◌≡◌, ◌≢◌, refl, ◌∙◌, ap, sym, ◌⊎◌, inl, inr, Bool, true, false, ◌||◌, Option, some,
  none, [], ◌∷◌, ◌++◌, ==_ne, length, get_or, All, Bytes, arith, Bool-cases, ℕ_discrete,
}
use vely.Json.{is_digit, digits, json_exponent}
use vely.Json.Grammar.{IsDigit, IsRun, IsExponent, no_exponent, exponent, signed_exponent}
use vely.Json.Complete.{digits_run, exponent_lem, signed_lem, or_true, or_false}

-- A text that begins with a digit begins with a run of them.
pub run_lem :
    (v : Bytes)
    → is_digit (get_or v 0 0) ≡ true
    → (w : Bytes) × (rest : Bytes) × (v ≡ w ++ rest)
      × (length w ≡ digits v)
      × IsRun w
      × (1 ≤ length w)
run_lem v h = let (w, rest, e, l, a, n) = digits_run v in go w rest e l a n
  where
    go :
        (w rest : Bytes)
        → v ≡ w ++ rest
        → length w ≡ digits v
        → All IsDigit w
        → is_digit (get_or rest 0 0) ≡ false
        → (w : Bytes) × (rest : Bytes) × (v ≡ w ++ rest)
          × (length w ≡ digits v)
          × IsRun w
          × (1 ≤ length w)
    go [] rest e l a n = cc (ap (λ x. is_digit (get_or x 0 0)) e)
    go (c ∷ w) rest e l a n = (c ∷ w, rest, e, l, a, omega arith)

one_of_cases : (a b c : ℕ) → ((c ≡ a) ⊎ (c ≡ b)) ⊎ ((c ≢ a) × (c ≢ b))
one_of_cases a b c = elim (ℕ_discrete c a) [
  | yes e ↦ inl (inl e)
  | no n ↦ elim (ℕ_discrete c b) [ yes e ↦ inl (inr e) | no m ↦ inr (n, m) ]
]

abbrev pair_of : Option (ℕ × Bool) → ℕ × Bool
pair_of none = (0, false)
pair_of (some p) = p

abbrev SplitExponent : ℕ → Bool → Bytes → ℕ → Bool → Type 0
SplitExponent i d v n r =
    (w : Bytes) × (rest : Bytes) × (b : Bool) × (v ≡ w ++ rest)
    × (n ≡ i + length w)
    × IsExponent w b
    × (r ≡ d || b)

none_exponent :
    (i : ℕ) (d : Bool) (v : Bytes)
    → get_or v 0 0 ≢ 101
    → get_or v 0 0 ≢ 69
    → json_exponent i d v ≡ some (i, d)
unfolding json_exponent
none_exponent i d v h k =
    rw (json_exponent, ==_ne (get_or v 0 0) 101 h, ==_ne (get_or v 0 0) 69 k) refl

bad_exponent :
    (i : ℕ) (d : Bool) (e : ℕ) (v : Bytes)
    → (e ≡ 101) ⊎ (e ≡ 69)
    → get_or v 0 0 ≢ 43
    → get_or v 0 0 ≢ 45
    → is_digit (get_or v 0 0) ≡ false
    → json_exponent i d (e ∷ v) ≡ none
unfolding json_exponent
bad_exponent i d e v h p m k =
    rw (json_exponent, ==_ne (get_or v 0 0) 43 p, ==_ne (get_or v 0 0) 45 m, k) (ground arith)

bad_signed :
    (i : ℕ) (d : Bool) (e s : ℕ) (v : Bytes)
    → (e ≡ 101) ⊎ (e ≡ 69)
    → (s ≡ 43) ⊎ (s ≡ 45)
    → is_digit (get_or v 0 0) ≡ false
    → json_exponent i d (e ∷ s ∷ v) ≡ none
unfolding json_exponent
bad_signed i d e s v h l k = ground arith

plain_split :
    (i : ℕ) (d : Bool) (v : Bytes) {n : ℕ} {r : Bool}
    → get_or v 0 0 ≢ 101
    → get_or v 0 0 ≢ 69
    → json_exponent i d v ≡ some (n, r)
    → SplitExponent i d v n r
plain_split i d v h k e =
    let f = sym (none_exponent i d v h k) ∙ e in
    (
      [],
      v,
      false,
      refl,
      sym (ap (λ o. (pair_of o).0) f) ∙ (omega arith),
      no_exponent,
      sym (ap (λ o. (pair_of o).1) f) ∙ sym (or_false d),
    )

unsigned_split :
    (i : ℕ) (d : Bool) (e : ℕ) (v : Bytes) {n : ℕ} {r : Bool}
    → (e ≡ 101) ⊎ (e ≡ 69)
    → get_or v 0 0 ≢ 43
    → get_or v 0 0 ≢ 45
    → json_exponent i d (e ∷ v) ≡ some (n, r)
    → SplitExponent i d (e ∷ v) n r
unsigned_split i d e v h p m x = elim (Bool-cases (is_digit (get_or v 0 0))) [
  | inr k ↦ cc (bad_exponent i d e v h p m k)
  | inl k ↦
      let (w, rest, y, l, a, _) = run_lem v k in
      let f = sym (exponent_lem i d e v h p m k) ∙ x in
      (
        e ∷ w,
        rest,
        true,
        ap (λ x. e ∷ x) y,
        sym (ap (λ o. (pair_of o).0) f) ∙ (omega arith),
        exponent e w h a,
        sym (ap (λ o. (pair_of o).1) f) ∙ sym (or_true d),
      )
]

signed_split :
    (i : ℕ) (d : Bool) (e s : ℕ) (v : Bytes) {n : ℕ} {r : Bool}
    → (e ≡ 101) ⊎ (e ≡ 69)
    → (s ≡ 43) ⊎ (s ≡ 45)
    → json_exponent i d (e ∷ s ∷ v) ≡ some (n, r)
    → SplitExponent i d (e ∷ s ∷ v) n r
signed_split i d e s v h p x = elim (Bool-cases (is_digit (get_or v 0 0))) [
  | inr k ↦ cc (bad_signed i d e s v h p k)
  | inl k ↦
      let (w, rest, y, l, a, _) = run_lem v k in
      let f = sym (signed_lem i d e s v h p k) ∙ x in
      (
        e ∷ s ∷ w,
        rest,
        true,
        ap (λ x. e ∷ s ∷ x) y,
        sym (ap (λ o. (pair_of o).0) f) ∙ (omega arith),
        signed_exponent e s w h p a,
        sym (ap (λ o. (pair_of o).1) f) ∙ sym (or_true d),
      )
]

after_letter :
    (i : ℕ) (d : Bool) (e : ℕ) (v : Bytes) {n : ℕ} {r : Bool}
    → (e ≡ 101) ⊎ (e ≡ 69)
    → json_exponent i d (e ∷ v) ≡ some (n, r)
    → SplitExponent i d (e ∷ v) n r
after_letter i d e [] l x =
    unsigned_split i d e [] l (λ e. absurd (omega arith)) (λ e. absurd (omega arith)) x
after_letter i d e (s ∷ v) l x = elim (one_of_cases 43 45 s) [
  | inr p ↦ unsigned_split i d e (s ∷ v) l p.0 p.1 x
  | inl p ↦ signed_split i d e s v l p x
]

pub exponent_split :
    (i : ℕ) (d : Bool) (v : Bytes) {n : ℕ} {r : Bool}
    → json_exponent i d v ≡ some (n, r)
    → SplitExponent i d v n r
exponent_split i d [] x =
    plain_split i d [] (λ e. absurd (omega arith)) (λ e. absurd (omega arith)) x
exponent_split i d (e ∷ v) x = elim (one_of_cases 101 69 e) [
  | inr a ↦ plain_split i d (e ∷ v) a.0 a.1 x
  | inl l ↦ after_letter i d e v l x
]
