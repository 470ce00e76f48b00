-- ===== src/Cookies/Text.antt =====
-- The text of a cookie: where its parts begin and end.
use vely.Base.{
  ℕ, zero, suc, ◌≤◌, ◌≡◌, ◌≢◌, refl, ◌∙◌, ap, Bool, true, false, ◌&&◌, Option, none, some, [], ◌∷◌,
  ◌++◌, ◌==◌, ==_refl, ==_ne, take, length, Bytes, All, strip, strip-append, strip_sound, same_text,
  arith, ℕ_discrete,
}
use vely.Cookies.{
  is_control, one_of, name_okay, value_okay, up_to_semi, lower, strip_case, after_case, after_equal,
  behind_name, first_of, cookie_rest, cookie_option,
}

-- Texts without a byte.
abbrev pub Lacks : ℕ → Bytes → Type 0
Lacks c = All (λ d. d ≢ c)

and_right : (a b : Bool) → a && b ≡ true → b ≡ true
and_right true b h = h
and_right false b h = cc

pub value_okay-Lacks : (first : Bool) (s : Bytes) → value_okay first s ≡ true → Lacks 59 s
unfolding value_okay one_of is_control
value_okay-Lacks first [] h = tt
value_okay-Lacks first (c ∷ s) h = (λ e. cc (rw e at h), value_okay-Lacks false s (and_right _ _ h))

pub name_okay-Lacks : (s : Bytes) → name_okay s ≡ true → Lacks 61 s
unfolding name_okay one_of is_control
name_okay-Lacks [] h = tt
name_okay-Lacks (c ∷ s) h = (λ e. cc (rw e at h), name_okay-Lacks s (and_right _ _ h))

-- Texts that begin with a semicolon.
abbrev pub Closes : Bytes → Type 0
Closes t = (r : Bytes) × (t ≡ 59 ∷ r)

pub up_to_semi-append : (s t : Bytes) → Closes t → up_to_semi (s ++ t) ≡ up_to_semi s
unfolding up_to_semi
up_to_semi-append [] t (r, e) = rw e
up_to_semi-append (c ∷ s) t h = rw (up_to_semi-append s t h)

pub up_to_semi-Lacks : (s : Bytes) → Lacks 59 s → up_to_semi s ≡ s
unfolding up_to_semi
up_to_semi-Lacks [] h = refl
up_to_semi-Lacks (c ∷ s) (n, h) = rw (==_ne c 59 n, up_to_semi-Lacks s h)

pub cookie_option-Closes :
    (w : Bytes) (o : Option Bytes) (t : Bytes) → Closes t → Closes (cookie_option (59 ∷ w) o ++ t)
unfolding cookie_option
cookie_option-Closes w none t h = h
cookie_option-Closes w (some []) t h = h
cookie_option-Closes w (some (c ∷ s)) t h = (_, refl)

strip_case-append : (w s : Bytes) → strip_case w (w ++ s) ≡ some s
unfolding strip_case
strip_case-append [] s = refl
strip_case-append (x ∷ w) s = rw (==_refl (lower x), strip_case-append w s)

lower_semi : (c : ℕ) → c ≢ 59 → (lower 59 == lower c) ≡ false
unfolding lower
lower_semi c n = ground (arith, n)

strip_case_ne :
    (x y : ℕ) (w s : Bytes) → (lower x == lower y) ≡ false → strip_case (x ∷ w) (y ∷ s) ≡ none
unfolding strip_case
strip_case_ne x y w s h = rw h

-- The first semicolon begins what is searched for.
pub after_case-append :
    (w s r : Bytes) → Lacks 59 s → after_case (59 ∷ w) (s ++ ((59 ∷ w) ++ r)) ≡ some r
unfolding after_case
after_case-append w [] r h =
    ap (λ o. first_of o (after_case (59 ∷ w) (w ++ r))) (strip_case-append (59 ∷ w) r)
after_case-append w (c ∷ s) r (n, h) =
    ap (λ o. first_of o (after_case (59 ∷ w) (s ++ ((59 ∷ w) ++ r))))
      (strip_case_ne 59 c w (s ++ ((59 ∷ w) ++ r)) (lower_semi c n))
    ∙ after_case-append w s r h

-- The cookie of a name begins with it and an equal sign.
pub cookie_rest-append : (name s : Bytes) → cookie_rest name (name ++ (61 ∷ s)) ≡ some s
unfolding cookie_rest after_equal
cookie_rest-append name s = ap behind_name (strip-append name (61 ∷ s))

just : {s v : Bytes} → ◌≡◌ {A = Option Bytes} (some s) (some v) → s ≡ v
just h = cc h

after_equal_sound : (r v : Bytes) → after_equal r ≡ some v → r ≡ 61 ∷ v
unfolding after_equal
after_equal_sound [] v h = cc
after_equal_sound (c ∷ s) v h = elim (ℕ_discrete c 61) [
  | yes e ↦ ap (λ x. x ∷ s) e ∙ ap (λ r. 61 ∷ r) (just (rw e at h))
  | no n ↦ cc (rw (==_ne c 61 n) at h)
]

pub cookie_rest_sound :
    (name text v : Bytes) → cookie_rest name text ≡ some v → text ≡ name ++ (61 ∷ v)
unfolding cookie_rest
cookie_rest_sound name text v h = go (strip name text) refl h
  where
    go : (o : Option Bytes) → strip name text ≡ o → behind_name o ≡ some v → text ≡ name ++ (61 ∷ v)
    go none e h = cc h
    go (some r) e h = strip_sound name text r e ∙ ap (λ r. name ++ r) (after_equal_sound r v h)

-- And it is not the cookie of another name.
pub cookie_rest_other :
    (name other s : Bytes)
    → Lacks 61 name
    → Lacks 61 other
    → same_text name other ≡ false
    → cookie_rest other (name ++ (61 ∷ s)) ≡ none
unfolding cookie_rest same_text strip after_equal
cookie_rest_other [] [] s h k e = cc e
cookie_rest_other [] (o ∷ other) s h (n, k) e = rw (==_ne o 61 n)
cookie_rest_other (c ∷ name) [] s (n, h) k e = rw (==_ne c 61 n)
cookie_rest_other (c ∷ name) (o ∷ other) s (n, h) (m, k) e = elim (ℕ_discrete o c) [
  | yes q ↦ rw (q, ==_refl c) (cookie_rest_other name other s h k (rw (q, ==_refl c) at e))
  | no d ↦ rw (==_ne o c d)
]

pub take_all : (n : ℕ) (s : Bytes) → length s ≤ n → take n s ≡ s
take_all zero [] h = refl
take_all zero (c ∷ s) h = absurd (omega arith)
take_all (suc n) [] h = refl
take_all (suc n) (c ∷ s) h = ap (λ r. c ∷ r) (take_all n s (omega arith))
