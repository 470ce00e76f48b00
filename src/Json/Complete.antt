-- ===== src/Json/Complete.antt =====
-- `vely_json_num` takes every number of the grammar, where a delimiter follows it.
use vely.Base.{
  ℕ, suc, ◌+◌, ◌≤◌, ◌≡◌, ◌≢◌, refl, ◌∙◌, ap, sym, ◌⊎◌, inl, inr, Bool, true, false, not, ◌&&◌, ◌||◌,
  some, [], ◌∷◌, ◌++◌, ◌==◌, ==_ne, length, drop, get_or, All, Bytes, arith, append_assoc,
  length-append, Bool-cases, ℕ_discrete,
}
use vely.Json.{is_digit, digits, json_exponent, json_fraction, json_integer, json_num}
use vely.Json.Grammar.{
  IsDigit, IsExponent, IsFraction, IsInteger, IsMinus, IsNumber, Ends, no_exponent, exponent,
  signed_exponent, no_fraction, fraction, only_zero, integer, no_minus, minus,
}

-- What a run of digits is read as, and what is left behind it.
digits-append :
    (w rest : Bytes)
    → All IsDigit w
    → is_digit (get_or rest 0 0) ≡ false
    → digits (w ++ rest) ≡ length w
unfolding digits
digits-append [] [] h k = refl
digits-append [] (c ∷ rest) h k = ground arith
digits-append (c ∷ w) rest h k = rw (h.0) (ap suc (digits-append w rest h.1 k))

pub drop-append : (w rest : Bytes) → drop (length w) (w ++ rest) ≡ rest
drop-append [] rest = refl
drop-append (c ∷ w) rest = drop-append w rest

-- A text begins with its digits.
pub digits_run :
    (v : Bytes)
    → (w : Bytes) × (rest : Bytes) × (v ≡ w ++ rest)
      × (length w ≡ digits v)
      × All IsDigit w
      × (is_digit (get_or rest 0 0) ≡ false)
unfolding digits is_digit
digits_run [] = ([], [], refl, refl, tt, refl)
digits_run (c ∷ v) =
    let (w, rest, e, l, a, n) = digits_run v in
    elim (Bool-cases (is_digit c)) [
      | inl y ↦ (c ∷ w, rest, ap (λ x. c ∷ x) e, rw (digits, y) (ap suc l), (y, a), n)
      | inr y ↦ ([], c ∷ v, refl, rw (digits, y) refl, tt, y)
    ]

exponent_head :
    {w : Bytes} {b : Bool} (rest : Bytes)
    → IsExponent w b
    → Ends rest
    → (is_digit (get_or (w ++ rest) 0 0) ≡ false) × (get_or (w ++ rest) 0 0 ≢ 46)
unfolding is_digit
exponent_head rest no_exponent h = (h.0, h.1)
exponent_head rest (exponent e w k r) h = ground arith
exponent_head rest (signed_exponent e s w k l r) h = ground arith

run_digit : (c : ℕ) → IsDigit c → (48 ≤ c) × (c ≤ 57)
unfolding is_digit
run_digit c h = ground arith

-- The exponent behind its letter, as the code reads it.
pub exponent_lem :
    (i : ℕ) (d : Bool) (e : ℕ) (v : Bytes)
    → (e ≡ 101) ⊎ (e ≡ 69)
    → get_or v 0 0 ≢ 43
    → get_or v 0 0 ≢ 45
    → is_digit (get_or v 0 0) ≡ true
    → json_exponent i d (e ∷ v) ≡ some (i + 1 + digits v, true)
unfolding json_exponent
exponent_lem i d e v h p m k =
    rw (json_exponent, ==_ne (get_or v 0 0) 43 p, ==_ne (get_or v 0 0) 45 m, k) (ground arith)

pub signed_lem :
    (i : ℕ) (d : Bool) (e s : ℕ) (v : Bytes)
    → (e ≡ 101) ⊎ (e ≡ 69)
    → (s ≡ 43) ⊎ (s ≡ 45)
    → is_digit (get_or v 0 0) ≡ true
    → json_exponent i d (e ∷ s ∷ v) ≡ some (i + 2 + digits v, true)
unfolding json_exponent
signed_lem i d e s v h l k = ground arith

pub or_true : (d : Bool) → d || true ≡ true
or_true true = refl
or_true false = refl

pub or_false : (d : Bool) → d || false ≡ d
or_false true = refl
or_false false = refl

exponent_complete :
    (i : ℕ) (d : Bool) {w : Bytes} {b : Bool} (rest : Bytes)
    → IsExponent w b
    → Ends rest
    → json_exponent i d (w ++ rest) ≡ some (i + length w, d || b)
unfolding json_exponent
exponent_complete i d rest no_exponent h =
    rw (json_exponent, ==_ne (get_or rest 0 0) 101 h.2, ==_ne (get_or rest 0 0) 69 h.3)
      (ap (λ n. some (n, d)) (omega arith) ∙ ap (λ b. some (i + 0, b)) (sym (or_false d)))
exponent_complete i d rest (exponent e [] k r) h = absurd r
exponent_complete i d rest (exponent e (c ∷ w) k r) h =
    let bounds = run_digit c r.0 in
    exponent_lem i d e (c ∷ w ++ rest) k (omega arith) (omega arith) r.0
    ∙ ap (λ n. some (i + 1 + n, true)) (digits-append (c ∷ w) rest r h.0)
    ∙ ap (λ n. some (n, true)) (omega arith)
    ∙ ap (λ b. some (i + suc (suc (length w)), b)) (sym (or_true d))
exponent_complete i d rest (signed_exponent e s [] k l r) h = absurd r
exponent_complete i d rest (signed_exponent e s (c ∷ w) k l r) h =
    signed_lem i d e s (c ∷ w ++ rest) k l r.0
    ∙ ap (λ n. some (i + 2 + n, true)) (digits-append (c ∷ w) rest r h.0)
    ∙ ap (λ n. some (n, true)) (omega arith)
    ∙ ap (λ b. some (i + suc (suc (suc (length w))), b)) (sym (or_true d))

fraction_head :
    {f e : Bytes} {b b1 : Bool} (rest : Bytes)
    → IsFraction f b
    → IsExponent e b1
    → Ends rest
    → is_digit (get_or (f ++ (e ++ rest)) 0 0) ≡ false
unfolding is_digit
fraction_head rest no_fraction x h = (exponent_head rest x h).0
fraction_head rest (fraction w r) x h = refl

drop_suc : (n c : ℕ) (v : Bytes) → drop (1 + n) (c ∷ v) ≡ drop n v
drop_suc n c v = ap (λ k. drop k (c ∷ v)) {y = suc n} (omega arith)

pub fraction_lem :
    (i : ℕ) (v : Bytes)
    → is_digit (get_or v 0 0) ≡ true
    → json_fraction i (46 ∷ v) ≡ json_exponent (i + 1 + digits v) true (drop (digits v) v)
unfolding json_fraction
fraction_lem i v h =
    rw (json_fraction, h) (ap (json_exponent (i + 1 + digits v) true) (drop_suc (digits v) 46 v))

fraction_complete :
    (i : ℕ) {f e : Bytes} {b b1 : Bool} (rest : Bytes)
    → IsFraction f b
    → IsExponent e b1
    → Ends rest
    → json_fraction i (f ++ (e ++ rest)) ≡ some (i + length f + length e, b || b1)
unfolding json_fraction
fraction_complete i {e = e} {b1 = b1} rest no_fraction x h =
    rw (json_fraction, ==_ne (get_or (e ++ rest) 0 0) 46 (exponent_head rest x h).1)
      (exponent_complete i false rest x h ∙ ap (λ n. some (n, b1)) (omega arith))
fraction_complete i rest (fraction [] r) x h = absurd r
fraction_complete i {e = e} {b1 = b1} rest (fraction (c ∷ w) r) x h =
    let many = digits-append (c ∷ w) (e ++ rest) r (exponent_head rest x h).0 in
    fraction_lem i (c ∷ w ++ (e ++ rest)) r.0
    ∙ ap (λ n. json_exponent (i + 1 + n) true (drop n (c ∷ w ++ (e ++ rest)))) many
    ∙ ap (json_exponent (i + 1 + suc (length w)) true) (drop-append (c ∷ w) (e ++ rest))
    ∙ exponent_complete (i + 1 + suc (length w)) true rest x h
    ∙ ap (λ n. some (n, true)) (omega arith)

-- The digits of an integer are all there are, and a zero stands alone.
integer_digits :
    {w : Bytes}
    → IsInteger w
    → All IsDigit w
      × (is_digit (get_or w 0 0) ≡ true)
      × (get_or w 0 0 ≡ 48 → length w ≡ 1)
      × (1 ≤ length w)
unfolding is_digit
integer_digits only_zero = ((refl, tt), refl, λ e. refl, omega arith)
integer_digits (integer c w n a) = (a, a.0, λ e. absurd (n e), omega arith)

zero_alone :
    (v : Bytes)
    → (get_or v 0 0 ≡ 48 → digits v ≡ 1)
    → (get_or v 0 0 == 48 && not (digits v == 1)) ≡ false
zero_alone v k = elim (ℕ_discrete (get_or v 0 0) 48) [
  | yes e ↦ rw (k e, e) refl
  | no n ↦ rw (==_ne (get_or v 0 0) 48 n) refl
]

pub integer_lem :
    (i : ℕ) (v : Bytes)
    → is_digit (get_or v 0 0) ≡ true
    → (get_or v 0 0 ≡ 48 → digits v ≡ 1)
    → json_integer i v ≡ json_fraction (i + digits v) (drop (digits v) v)
unfolding json_integer
integer_lem i v h k = rw (json_integer, h, zero_alone v k) refl

get_or-append : (w v : Bytes) → 1 ≤ length w → get_or (w ++ v) 0 0 ≡ get_or w 0 0
get_or-append [] v h = absurd (omega arith)
get_or-append (c ∷ w) v h = refl

integer_complete :
    (i : ℕ) {w f e : Bytes} {b b1 : Bool} (rest : Bytes)
    → IsInteger w
    → IsFraction f b
    → IsExponent e b1
    → Ends rest
    → json_integer i (w ++ (f ++ (e ++ rest))) ≡ some (i + length w + length f + length e, b || b1)
integer_complete i {w} {f} {e} rest n x y h =
    let v = f ++ (e ++ rest) in
    let (a, d, z, p) = integer_digits n in
    let head = get_or-append w v p in
    let many = digits-append w v a (fraction_head rest x y h) in
    integer_lem i (w ++ v) (ap is_digit head ∙ d) (λ k. many ∙ z (sym head ∙ k))
    ∙ ap (λ n. json_fraction (i + n) (drop n (w ++ v))) many
    ∙ ap (json_fraction (i + length w)) (drop-append w v)
    ∙ fraction_complete (i + length w) rest x y h

sign_lem :
    {s : Bytes} (v : Bytes)
    → IsMinus s
    → is_digit (get_or v 0 0) ≡ true
    → json_num (s ++ v) ≡ json_integer (length s) v
unfolding json_num is_digit
sign_lem v no_minus h = ground arith
sign_lem v minus h = refl

pub append_four : (s a b c r : Bytes) → (s ++ (a ++ (b ++ c))) ++ r ≡ s ++ (a ++ (b ++ (c ++ r)))
append_four s a b c r =
    append_assoc s (a ++ (b ++ c)) r
    ∙ ap (λ x. s ++ x) (append_assoc a (b ++ c) r ∙ ap (λ x. a ++ x) (append_assoc b c r))

pub length-append_four :
    (s a b c : Bytes) → length (s ++ (a ++ (b ++ c))) ≡ length s + length a + length b + length c
length-append_four s a b c =
    omega (arith, length-append s (a ++ (b ++ c)), length-append a (b ++ c), length-append b c)

pub num_complete :
    {w : Bytes} {real : Bool} (rest : Bytes)
    → IsNumber w real
    → Ends rest
    → json_num (w ++ rest) ≡ some (length w, real)
num_complete {w} rest n h =
    let v = n.frac ++ (n.exp ++ rest) in
    let (a, d, z, p) = integer_digits n.is_int in
    ap (λ x. json_num (x ++ rest)) n.is_whole
    ∙ ap json_num (append_four n.sign n.int n.frac n.exp rest)
    ∙ sign_lem (n.int ++ v) n.is_sign (ap is_digit (get_or-append n.int v p) ∙ d)
    ∙ integer_complete (length n.sign) rest n.is_int n.is_frac n.is_exp h
    ∙ ap (λ k. some (k, n.has_frac || n.has_exp))
        (sym (ap length n.is_whole ∙ length-append_four n.sign n.int n.frac n.exp))
    ∙ ap (λ b. some (length w, b)) (sym n.is_real)
