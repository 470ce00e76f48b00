-- ===== src/Trim/Ends.antt =====
-- What the two routines leave of a text.
use vely.Base.{
  ℕ, zero, suc, ◌+◌, ◌-◌, ◌≤◌, ◌≡◌, refl, sym, ◌∙◌, ap, true, false, [], ◌∷◌, leb, get_or, take,
  drop, length, if◌then◌else◌, Bytes, Bool-cases, inl, inr, arith,
}
use vely.Json.Parse.{is_space}
use vely.Trim.{count_lead, trim_back, trim, back_to, trim_ptr}

-- The text without the spaces at its beginning, and without those at its end.
unfoldable pub trim_left : Bytes → Bytes
trim_left [] = []
trim_left (c ∷ s) = let rest = trim_left s in if is_space c then rest else c ∷ s

abbrev put_before : ℕ → Bytes → Bytes
put_before c [] = if is_space c then [] else c ∷ []
put_before c (d ∷ s) = c ∷ d ∷ s

unfoldable pub trim_right : Bytes → Bytes
trim_right [] = []
trim_right (c ∷ s) = put_before c (trim_right s)

drop-count_lead : (s : Bytes) → drop (count_lead s) s ≡ trim_left s
unfolding count_lead trim_left
drop-count_lead [] = refl
drop-count_lead (c ∷ s) = elim (Bool-cases (is_space c)) [
  | inl y ↦
      let next : count_lead s + 1 ≡ suc (count_lead s) = omega arith in
      rw y (ap (λ k. drop k (c ∷ s)) next ∙ drop-count_lead s)
  | inr n ↦ rw n refl
]

count_lead-le : (s : Bytes) → count_lead s + length (trim_left s) ≡ length s
unfolding count_lead trim_left
count_lead-le [] = refl
count_lead-le (c ∷ s) = ground (arith, count_lead-le s)

-- What the loop from the end makes of a byte before the others.
abbrev kept : ℕ → ℕ → ℕ
kept c zero = if is_space c then 0 else 1
kept c (suc k) = suc (suc k)

-- The loop from the end, at the first byte and at those behind it.
trim_back-step : (n c : ℕ) (s : Bytes) → trim_back (suc n) (c ∷ s) ≡ kept c (trim_back n s)
unfolding trim_back
trim_back-step zero c s = refl
trim_back-step (suc n) c s = elim (Bool-cases (is_space (get_or s n 0))) [
  | inl y ↦ rw y (trim_back-step n c s)
  | inr y ↦ rw y refl
]

cons_lem :
    (c k : ℕ) (s r : Bytes)
    → k ≡ length r
    → take k s ≡ r
    → (kept c k ≡ length (put_before c r)) × (take (kept c k) (c ∷ s) ≡ put_before c r)
cons_lem c k s [] e t = elim (Bool-cases (is_space c)) [
  | inl y ↦ (rw (e, y) refl, rw (e, y) refl)
  | inr n ↦ (rw (e, n) refl, rw (e, n) refl)
]
cons_lem c k s (d ∷ r) e t = (
  ap (kept c) e,
  ap (λ k. take (kept c k) (c ∷ s)) e ∙ ap (λ q. c ∷ q) (ap (λ k. take k s) (sym e) ∙ t),
)

trim_back_lem :
    (s : Bytes)
    → (trim_back (length s) s ≡ length (trim_right s))
      × (take (trim_back (length s) s) s ≡ trim_right s)
unfolding trim_right trim_back
trim_back_lem [] = (refl, refl)
trim_back_lem (c ∷ s) =
    let (l, t) = trim_back_lem s in
    rw (trim_back-step (length s) c s) (cons_lem c (trim_back (length s) s) s (trim_right s) l t)

trim_back-le : (n : ℕ) (s : Bytes) → trim_back n s ≤ n
unfolding trim_back
trim_back-le zero s = omega arith
trim_back-le (suc n) s = ground (arith, trim_back-le n s)

get_or-drop : (m k i : ℕ) (s : Bytes) → m ≡ k + i → get_or s m 0 ≡ get_or (drop k s) i 0
get_or-drop m zero i s e = ap (λ n. get_or s n 0) (omega (arith, e))
get_or-drop m (suc k) i [] e = refl
get_or-drop zero (suc k) i (c ∷ s) e = absurd (omega (arith, e))
get_or-drop (suc m) (suc k) i (c ∷ s) e = get_or-drop m k i s (omega (arith, e))

take-nil : (n : ℕ) → ◌≡◌ {A = Bytes} [] (take n [])
take-nil zero = refl
take-nil (suc n) = refl

pair : {A : Type 0} {a c : A} {b d : ℕ} → a ≡ c → b ≡ d → ◌≡◌ {A = A × ℕ} (a, b) (c, d)
pair {c = c} {b = b} e f = ap (λ x. (x, b)) e ∙ ap (λ y. (c, y)) f

drop-take : (m k n : ℕ) (s : Bytes) → m ≡ k + n → drop k (take m s) ≡ take n (drop k s)
drop-take m zero n s e = ap (λ i. take i s) (omega (arith, e))
drop-take zero (suc k) n s e = absurd (omega (arith, e))
drop-take (suc m) (suc k) n [] e = take-nil n
drop-take (suc m) (suc k) n (c ∷ s) e = drop-take m k n s (omega (arith, e))

-- The loop of `vely_trim_ptr` is that of `vely_trim` on the text behind the leading spaces.
module _ (s : ℕ) (str : Bytes) where
  back_to_lem :
      (e n j : ℕ)
      → e ≡ s + n
      → back_to s e j str ≡ (s + trim_back n (drop s str), j + (n - trim_back n (drop s str)))
  unfolding back_to trim_back
  back_to_lem zero zero j q = pair (omega (arith, q)) (omega arith)
  back_to_lem zero (suc n) j q = absurd (omega (arith, q))
  back_to_lem (suc e) zero j q =
      let past : leb s e ≡ false = ground (arith, q) in
      rw past (pair (omega (arith, q)) (omega arith))
  back_to_lem (suc e) (suc n) j q =
      let inside : leb s e ≡ true = ground (arith, q) in
      let same = get_or-drop e s n str (omega (arith, q)) in
      let less = trim_back-le n (drop s str) in
      elim (Bool-cases (is_space (get_or (drop s str) n 0))) [
        | inl y ↦
            rw (inside, same, y)
              (back_to_lem e n (j + 1) (omega (arith, q)) ∙ pair refl (omega (arith, less)))
        | inr y ↦ rw (inside, same, y) (pair (omega (arith, q)) (omega arith))
      ]

trimmed :
    (d tl : Bytes) (k : ℕ)
    → d ≡ tl
    → k ≡ length tl
    → (take (trim_back k d) d ≡ trim_right tl) × (trim_back k d ≡ length (trim_right tl))
trimmed d tl k e f = let (l, t) = trim_back_lem tl in (rw (e, f) t, rw (e, f) l)

-- Both routines leave the text without the spaces at its beginning and without those at its end, and
-- report its length.
pub trim-trim_ptr :
    (str : Bytes)
    → let left = trim_right (trim_left str) in
      (trim str ≡ (left, length left)) × (trim_ptr str ≡ (left, length left))
unfolding trim trim_ptr
trim-trim_ptr str =
    let s = count_lead str in
    let n : ℕ = length str - s in
    let cut = drop-count_lead str in
    let lead = count_lead-le str in
    let (t, l) = trimmed (drop s str) (trim_left str) n cut (omega (arith, lead)) in
    let less = trim_back-le n (drop s str) in
    (
      pair t l,
      ap (λ r. (drop s (take r.0 str), length str - s - r.1))
            (back_to_lem s str (length str) n 0 (omega (arith, lead)))
          ∙ pair (drop-take _ s (trim_back n (drop s str)) str refl ∙ t) (omega (arith, less, l)),
    )
