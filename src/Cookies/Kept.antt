-- ===== src/Cookies/Kept.antt =====
-- What is found after a cookie has been set or deleted.
use vely.Base.{
  ℕ, ◌+◌, ◌≤◌, ◌≡◌, ◌⊎◌, refl, sym, ◌∙◌, ap, subst, Bool, true, false, not, Option, none, some,
  List, [], ◌∷◌, ◌++◌, set, take, length, Bytes, codes, All, same_text, append_assoc, inl, inr,
  arith, if◌then◌else◌,
}
use vely.Cookies.{
  Cookie, CookieError, CookieOptions, Outcome, okay, reported, Found, program_cookie, name_okay,
  value_okay, cookie_checks, first_error, check_set_cookie, safety_clause, up_to_semi, after_case,
  option_text, found_at, find_cookie, cookie_option, cookie_text, write_cookie, set_checked,
  set_cookie,
}
use vely.Cookies.Text.{
  Lacks, Closes, value_okay-Lacks, name_okay-Lacks, up_to_semi-append, up_to_semi-Lacks,
  cookie_option-Closes, after_case-append, cookie_rest-append, cookie_rest_other, take_all,
}
use vely.Cookies.Slots.{searched, find_from-append_other}

passes :
    {A : Type 0} (b : Bool) (e : CookieError) (k : Outcome A) (a : A)
    → (if b then reported e else k) ≡ okay a
    → (b ≡ false) × (k ≡ okay a)
passes true e k a h = cc h
passes false e k a h = (refl, h)

not-false : (b : Bool) → not b ≡ false → b ≡ true
not-false true h = refl
not-false false h = cc h

pub Outcome-cases :
    {A : Type 0} (r : Outcome A) → ((e : CookieError) × (r ≡ reported e)) ⊎ ((a : A) × (r ≡ okay a))
Outcome-cases (reported e) = inl (e, refl)
Outcome-cases (okay a) = inr (a, refl)

pub content : {A : Type 0} {a b : A} → ◌≡◌ {A = Outcome A} (okay a) (okay b) → a ≡ b
content h = cc h

first_error_lem :
    (l : List (Bool × CookieError)) (s clause : Bytes)
    → first_error l s ≡ okay clause
    → All (λ t. t.0 ≡ false) l × (s ≡ clause)
first_error_lem [] s clause h = (tt, content h)
first_error_lem ((true, e) ∷ l) s clause h = cc h
first_error_lem ((false, e) ∷ l) s clause h =
    let (a, c) = first_error_lem l s clause h in ((refl, a), c)

-- What a check that is passed says.
pub check_lem :
    (name val secure samesite httponly clause : Bytes)
    → check_set_cookie name val secure samesite httponly ≡ okay clause
    → Lacks 61 name × Lacks 59 val × (safety_clause secure samesite httponly ≡ clause)
unfolding check_set_cookie cookie_checks
check_lem name val secure samesite httponly clause h =
    let ((n, (_, (v, _))), c) =
      first_error_lem (cookie_checks name val secure samesite httponly)
        (safety_clause secure samesite httponly) clause h in
    (
      name_okay-Lacks name (not-false (name_okay name) n),
      value_okay-Lacks true val (not-false (value_okay true val) v),
      c,
    )

-- `text`, a cookie of the name with `v` behind the equal sign, has been written: it is found, and
-- cookies of other names are found as before.
pub record Written (cs cs1 : List Cookie) (name v : Bytes) : Type 0 where
  pub ind : ℕ
  pub search : find_cookie cs1 name ≡ some (found_at ind v)
  pub others :
      (other : Bytes)
      → Lacks 61 name
      → Lacks 61 other
      → same_text name other ≡ false
      → find_cookie cs1 other ≡ find_cookie cs other

module _ (cs cs1 : List Cookie) (name s : Bytes) where
  abbrev whole : Bytes
  whole = name ++ (61 ∷ s)

  write_cookie-Written :
      write_cookie cs (find_cookie cs name) whole ≡ okay cs1 → Written cs cs1 name s
  unfolding write_cookie find_cookie
  write_cookie-Written h = elim (searched 0 name cs) [
    | inl a ↦
        let (_, e) = passes _ _ _ cs1 (rw a.search at h) in
        subst (λ c. Written cs c name s) (content e)
          (record {
            ind = 0 + length cs;
            search = a.added whole s (cookie_rest-append name s);
            others = λ other k l n.
                find_from-append_other 0 other cs whole (cookie_rest_other name other s k l n);
          })
    | inr (i, p) ↦
        let none_before : i ≡ 0 + i = omega arith in
        let e =
          ap (λ k. set cs k (program_cookie whole)) none_before ∙ content (rw p.search at h) in
        subst (λ c. Written cs c name s) e
          (record {
            ind = 0 + i;
            search = p.replaced whole s (cookie_rest-append name s);
            others =
                λ other k l n. p.others other whole k l n (cookie_rest_other name other s k l n);
          })
  ]

-- The path that is found, where one was given.
abbrev pub ReadsPath : Option Bytes → Option Bytes → Type 0
ReadsPath none found = Unit
ReadsPath (some []) found = Unit
ReadsPath (some (c ∷ p)) found = found ≡ some (up_to_semi (c ∷ p))

clause-Closes : (secure samesite httponly : Bytes) → Closes (safety_clause secure samesite httponly)
unfolding safety_clause
clause-Closes secure samesite httponly = (_, refl)

module _ (value : Bytes) (lacks : Lacks 59 value) (t : Bytes) (closes : Closes t) where
  reads_value :
      (path : Option Bytes)
      → up_to_semi (value ++ (cookie_option (codes "; Path=") path ++ t)) ≡ value
  reads_value path =
      up_to_semi-append value _ (cookie_option-Closes (codes " Path=") path t closes)
      ∙ up_to_semi-Lacks value lacks

  reads_path :
      (path : Option Bytes)
      → ReadsPath path (
          option_text
            (after_case (codes "; Path=") (value ++ (cookie_option (codes "; Path=") path ++ t))))
  unfolding cookie_option
  reads_path none = tt
  reads_path (some []) = tt
  reads_path (some (c ∷ p)) =
      let w = codes " Path=" in
      let r = (c ∷ p) ++ t in
      ap (λ u. option_text (after_case (59 ∷ w) (value ++ u))) (append_assoc (59 ∷ w) (c ∷ p) t)
      ∙ ap option_text (after_case-append w value r lacks)
      ∙ ap some (up_to_semi-append (c ∷ p) t closes)

module _ (cs cs1 : List Cookie) (name value : Bytes) (o : CookieOptions) where
  abbrev text_length : ℕ
  text_length =
      length
        (cookie_text name value o.path o.expires (safety_clause o.secure o.samesite o.httponly))

  abbrev tail : Bytes
  tail =
      cookie_option (codes "; Expires=") o.expires ++ safety_clause o.secure o.samesite o.httponly

  abbrev rest : Bytes
  rest = value ++ (cookie_option (codes "; Path=") o.path ++ tail)

  set_cookie-Written :
      set_cookie false cs name value o ≡ okay cs1
      → text_length ≤ 2048
      → Lacks 61 name × Lacks 59 value × Written cs cs1 name rest
  unfolding set_cookie set_checked cookie_text
  set_cookie-Written h fits =
      elim (Outcome-cases (check_set_cookie name value o.secure o.samesite o.httponly)) [
        | inl (e, c) ↦ cc (rw c at h)
        | inr (clause, c) ↦
            let (n, v, same) = check_lem name value o.secure o.samesite o.httponly clause c in
            let written =
              subst
                (λ l.
                  write_cookie cs (find_cookie cs name)
                    (take 2048 (cookie_text name value o.path o.expires l))
                  ≡ okay cs1)
                (sym same) (rw c at h) in
            (
              n,
              v,
              write_cookie-Written cs cs1 name rest
                  (rw (take_all 2048 (name ++ (61 ∷ rest)) fits) at written),
            )
      ]

  -- A cookie that has been set, in a text of no more than 2048 bytes, is found with its value and, where
  -- one was given, its path as far as a semicolon.
  pub find_cookie-set_cookie :
      set_cookie false cs name value o ≡ okay cs1
      → text_length ≤ 2048
      → (f : Found) × (find_cookie cs1 name ≡ some f) × (f.value ≡ value) × ReadsPath o.path f.path
  unfolding found_at
  find_cookie-set_cookie h fits =
      let (n, v, w) = set_cookie-Written h fits in
      let closes =
        cookie_option-Closes (codes " Expires=") o.expires _
          (clause-Closes o.secure o.samesite o.httponly) in
      (
        found_at w.ind rest,
        w.search,
        reads_value value v tail closes o.path,
        reads_path value v tail closes o.path,
      )

  -- Setting a cookie, in a text of no more than 2048 bytes, changes nothing of what is found under
  -- another name without an equal sign.
  pub find_cookie-set_cookie_other :
      (other : Bytes)
      → Lacks 61 other
      → same_text name other ≡ false
      → set_cookie false cs name value o ≡ okay cs1
      → text_length ≤ 2048
      → find_cookie cs1 other ≡ find_cookie cs other
  find_cookie-set_cookie_other other k d h fits =
      let (n, v, w) = set_cookie-Written h fits in w.others other n k d
