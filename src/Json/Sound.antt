-- ===== src/Json/Sound.antt =====
-- What `vely_json_num` accepts is a number of the grammar.
use vely.Base.{
  ℕ, ◌+◌, ◌≤◌, ◌≡◌, ◌≢◌, ◌↔◌, refl, ◌∙◌, ap, sym, subst, inl, inr, Bool, true, false, ◌||◌, some,
  none, [], ◌∷◌, ◌++◌, ==_ne, length, drop, get_or, Bytes, arith, Bool-cases, ℕ_discrete,
}
use vely.Json.{is_digit, digits, json_exponent, json_fraction, json_integer, json_num}
use vely.Json.Grammar.{
  IsRun, IsExponent, IsFraction, IsInteger, IsMinus, IsNumber, Ends, no_fraction, fraction,
  only_zero, integer, no_minus, minus,
}
use vely.Json.Complete.{
  fraction_lem, integer_lem, append_four, length-append_four, drop-append, num_complete,
}
use vely.Json.Exponent.{run_lem, exponent_split}

abbrev SplitFraction : ℕ → Bytes → ℕ → Bool → Type 0
SplitFraction i v n r =
    (f : Bytes) × (e : Bytes) × (rest : Bytes) × (b : Bool) × (b1 : Bool) × (v ≡ f ++ (e ++ rest))
    × (n ≡ i + length f + length e)
    × IsFraction f b
    × IsExponent e b1
    × (r ≡ b || b1)

none_fraction :
    (i : ℕ) (v : Bytes) → get_or v 0 0 ≢ 46 → json_fraction i v ≡ json_exponent i false v
unfolding json_fraction
none_fraction i v h = rw (json_fraction, ==_ne (get_or v 0 0) 46 h) refl

bad_fraction :
    (i : ℕ) (v : Bytes) → is_digit (get_or v 0 0) ≡ false → json_fraction i (46 ∷ v) ≡ none
unfolding json_fraction
bad_fraction i v h = rw (json_fraction, h) refl

no_point :
    (i : ℕ) (v : Bytes) {n : ℕ} {r : Bool}
    → get_or v 0 0 ≢ 46
    → json_fraction i v ≡ some (n, r)
    → SplitFraction i v n r
no_point i v h x =
    let (w, rest, b, e, l, a, y) = exponent_split i false v (sym (none_fraction i v h) ∙ x) in
    ([], w, rest, false, b, e, omega arith, no_fraction, a, y)

point :
    (i : ℕ) (v : Bytes) {n : ℕ} {r : Bool}
    → json_fraction i (46 ∷ v) ≡ some (n, r)
    → SplitFraction i (46 ∷ v) n r
point i v x = elim (Bool-cases (is_digit (get_or v 0 0))) [
  | inr k ↦ cc (bad_fraction i v k)
  | inl k ↦
      let (f, t, y, l, a, _) = run_lem v k in
      let left = ap (drop (digits v)) y ∙ ap (λ n. drop n (f ++ t)) (sym l) ∙ drop-append f t in
      let (w, rest, b, e, m, c, z) =
        exponent_split (i + 1 + digits v) true t
          (ap (json_exponent (i + 1 + digits v) true) (sym left) ∙ sym (fraction_lem i v k) ∙ x) in
      (
        46 ∷ f,
        w,
        rest,
        true,
        b,
        ap (λ x. 46 ∷ x) (y ∙ ap (λ x. f ++ x) e),
        omega arith,
        fraction f a,
        c,
        z,
      )
]

fraction_split :
    (i : ℕ) (v : Bytes) {n : ℕ} {r : Bool} → json_fraction i v ≡ some (n, r) → SplitFraction i v n r
fraction_split i [] x = no_point i [] (λ e. absurd (omega arith)) x
fraction_split i (c ∷ v) {n} {r} x = elim (ℕ_discrete c 46) [
  | yes e ↦
      subst (λ c. SplitFraction i (c ∷ v) n r) (sym e)
        (point i v (subst (λ c. json_fraction i (c ∷ v) ≡ some (n, r)) e x))
  | no m ↦ no_point i (c ∷ v) m x
]

abbrev SplitInteger : ℕ → Bytes → ℕ → Bool → Type 0
SplitInteger i v n r =
    (w : Bytes) × (f : Bytes) × (e : Bytes) × (rest : Bytes) × (b : Bool) × (b1 : Bool) × (v
      ≡ w ++ (f ++ (e ++ rest)))
    × (n ≡ i + length w + length f + length e)
    × IsInteger w
    × IsFraction f b
    × IsExponent e b1
    × (r ≡ b || b1)

word-IsInteger : (w : Bytes) → IsRun w → (get_or w 0 0 ≡ 48 → length w ≡ 1) → IsInteger w
word-IsInteger [] a h = absurd a
word-IsInteger (c ∷ []) a h = elim (ℕ_discrete c 48) [
  | yes e ↦ subst (λ c. IsInteger (c ∷ [])) (sym e) only_zero
  | no n ↦ integer c [] n a
]
word-IsInteger (c ∷ d ∷ w) a h = integer c (d ∷ w) (λ e. absurd (omega (arith, h e))) a

no_digit : (i : ℕ) (v : Bytes) → is_digit (get_or v 0 0) ≡ false → json_integer i v ≡ none
unfolding json_integer
no_digit i v h = rw (json_integer, h) refl

long_zero : (i : ℕ) (v : Bytes) → get_or v 0 0 ≡ 48 → digits v ≢ 1 → json_integer i v ≡ none
unfolding json_integer
long_zero i v h k = rw (json_integer, h, ==_ne (digits v) 1 k) (ground arith)

-- A number that is taken has a leading zero only where the zero is alone.
zero_once :
    (i : ℕ) (v : Bytes) {o : ℕ × Bool}
    → json_integer i v ≡ some o
    → get_or v 0 0 ≡ 48
    → digits v ≡ 1
zero_once i v x h = elim (ℕ_discrete (digits v) 1) [ yes e ↦ e | no n ↦ cc (long_zero i v h n) ]

get_or-append : (w v : Bytes) → 1 ≤ length w → get_or (w ++ v) 0 0 ≡ get_or w 0 0
get_or-append [] v h = absurd (omega arith)
get_or-append (c ∷ w) v h = refl

integer_split :
    (i : ℕ) (v : Bytes) {n : ℕ} {r : Bool} → json_integer i v ≡ some (n, r) → SplitInteger i v n r
integer_split i v x = elim (Bool-cases (is_digit (get_or v 0 0))) [
  | inr k ↦ cc (no_digit i v k)
  | inl k ↦
      let (w, t, y, l, a, p) = run_lem v k in
      let z = zero_once i v x in
      let left = ap (drop (digits v)) y ∙ ap (λ n. drop n (w ++ t)) (sym l) ∙ drop-append w t in
      let (f, e, rest, b, b1, q, m, c, d, u) =
        fraction_split (i + digits v) t
          (ap (json_fraction (i + digits v)) (sym left) ∙ sym (integer_lem i v k z) ∙ x) in
      let head = ap (λ x. get_or x 0 0) y ∙ get_or-append w t p in
      (
        w,
        f,
        e,
        rest,
        b,
        b1,
        y ∙ ap (λ x. w ++ x) q,
        omega arith,
        word-IsInteger w a (λ g. l ∙ z (head ∙ g)),
        c,
        d,
        u,
      )
]

abbrev Accepts : Bytes → ℕ → Bool → Type 0
Accepts v n r = (w : Bytes) × (rest : Bytes) × (v ≡ w ++ rest) × (n ≡ length w) × IsNumber w r

signed_number :
    (s v : Bytes) {n : ℕ} {r : Bool}
    → IsMinus s
    → json_integer (length s) v ≡ some (n, r)
    → Accepts (s ++ v) n r
signed_number s v h x =
    let (w, f, e, rest, b, b1, y, l, a, c, d, u) = integer_split (length s) v x in
    (
      s ++ (w ++ (f ++ e)),
      rest,
      ap (λ v. s ++ v) y ∙ sym (append_four s w f e rest),
      l ∙ sym (length-append_four s w f e),
      record {
        sign = s;
        int = w;
        frac = f;
        exp = e;
        has_frac = b;
        has_exp = b1;
        is_sign = h;
        is_int = a;
        is_frac = c;
        is_exp = d;
        is_whole = refl;
        is_real = u;
      },
    )

unsigned_num : (v : Bytes) → get_or v 0 0 ≢ 45 → json_num v ≡ json_integer 0 v
unfolding json_num
unsigned_num v h = rw (json_num, ==_ne (get_or v 0 0) 45 h) refl

minus_num : (v : Bytes) → json_num (45 ∷ v) ≡ json_integer 1 v
unfolding json_num
minus_num v = refl

-- What is taken for a number is one, and the flag says whether it has a fraction or an exponent.
json_num_sound : (v : Bytes) {n : ℕ} {r : Bool} → json_num v ≡ some (n, r) → Accepts v n r
json_num_sound [] x =
    signed_number [] [] no_minus (sym (unsigned_num [] (λ e. absurd (omega arith))) ∙ x)
json_num_sound (c ∷ v) {n} {r} x = elim (ℕ_discrete c 45) [
  | no m ↦ signed_number [] (c ∷ v) no_minus (sym (unsigned_num (c ∷ v) m) ∙ x)
  | yes e ↦
      subst (λ c. Accepts (c ∷ v) n r) (sym e)
        (signed_number (45 ∷ []) v minus
          (sym (minus_num v) ∙ subst (λ c. json_num (c ∷ v) ≡ some (n, r)) e x))
]

same_prefix : (w w1 rest rest1 : Bytes) → w ++ rest ≡ w1 ++ rest1 → length w ≡ length w1 → w ≡ w1
same_prefix [] [] rest rest1 e l = refl
same_prefix [] (d ∷ w1) rest rest1 e l = absurd (omega arith)
same_prefix (c ∷ w) [] rest rest1 e l = absurd (omega arith)
same_prefix (c ∷ w) (d ∷ w1) rest rest1 e l =
    let heads = ap (λ x. get_or x 0 0) e in
    let tails = ap (drop 1) e in
    let more = same_prefix w w1 rest rest1 tails (omega arith) in
    ap (λ x. x ∷ w) heads ∙ ap (λ x. d ∷ x) more

-- Before a byte that cannot go on with a number, which is no digit, point or letter `e`, a text is
-- taken whole as a number exactly where the grammar of RFC 7159 has it, and it is called a double
-- exactly where it has a fraction or an exponent.
pub json_num_iff :
    (w rest : Bytes) (real : Bool)
    → Ends rest
    → (json_num (w ++ rest) ≡ some (length w, real)) ↔ IsNumber w real
json_num_iff w rest real h = (
  λ x.
      let (w1, rest1, y, l, n) = json_num_sound (w ++ rest) x in
      subst (λ v. IsNumber v real) (sym (same_prefix w w1 rest rest1 y l)) n,
  λ n. num_complete rest n h,
)
