-- ===== src/Request/Params.antt =====
-- Where a parameter stands, and what a change of it does.
use vely.Base.{
  ℕ, zero, suc, ◌+◌, ◌≤◌, ◌≡◌, ◌⊎◌, refl, ◌∙◌, inl, inr, Bool, true, false, not, ◌&&◌, Option, none,
  some, List, [], ◌∷◌, ◌++◌, set, length, if◌then◌else◌, Bytes, same_text, same_text→eq,
  same_text_comm, Bool-cases, arith,
}
use vely.Request.{Param, param_at, agree, behind, find_param}

-- The value of the first parameter of a name, and where it stands.
unfoldable pub value_under : Bytes → List Param → Option Bytes
value_under q [] = none
value_under q (p ∷ ps) =
    let rest = value_under q ps in if same_text p.name q then some p.value else rest

unfoldable pub position : Bytes → List Param → Option ℕ
position q [] = none
position q (p ∷ ps) =
    let rest = position q ps in if same_text p.name q then some zero else behind rest

unfoldable pub count_named : Bytes → List Param → ℕ
count_named q [] = 0
count_named q (p ∷ ps) =
    let rest = count_named q ps in if same_text p.name q then rest + 1 else rest

-- The parameter of a name, where it stands at `i` and there is no other.
pub record Located (name : Bytes) (ps : List Param) (i : ℕ) : Type 0 where
  pub place : position name ps ≡ some i
  pub seen : find_param (param_at i ps).found name ps ≡ some i
  pub unseen : find_param (not (param_at i ps).found) name ps ≡ none
  pub value : value_under name ps ≡ some (param_at i ps).value
  pub values :
      (f : Bool) (v q : Bytes)
      → value_under q (set ps i (record (param_at i ps) { found = f; value = v }))
        ≡ (if same_text name q then some v else value_under q ps)
  pub counts :
      (f : Bool) (v q : Bytes)
      → count_named q (set ps i (record (param_at i ps) { found = f; value = v }))
        ≡ count_named q ps
  pub places :
      (f : Bool) (v q : Bytes)
      → position q (set ps i (record (param_at i ps) { found = f; value = v })) ≡ position q ps

pub record Missing (name : Bytes) (ps : List Param) : Type 0 where
  pub place : position name ps ≡ none
  pub seen : (b : Bool) → find_param b name ps ≡ none
  pub value : value_under name ps ≡ none
  pub count : count_named name ps ≡ 0

agree_self : (b : Bool) → agree b b ≡ true
agree_self true = refl
agree_self false = refl

agree-not : (b : Bool) → agree b (not b) ≡ false
agree-not true = refl
agree-not false = refl

and_false : (b : Bool) → b && false ≡ false
and_false true = refl
and_false false = refl

again_if :
    {A : Type 0} (b : Bool) (x z y : A)
    → (if b then x else y) ≡ (if b then x else if b then z else y)
again_if true x z y = refl
again_if false x z y = refl

swap_if :
    {A : Type 0} (a b : Bool) (x v y : A)
    → (a ≡ true → b ≡ false)
    → (if a then x else if b then v else y) ≡ (if b then v else if a then x else y)
swap_if true b x v y h = rw (h refl)
swap_if false b x v y h = refl

apart : (s t q : Bytes) → same_text s t ≡ false → same_text s q ≡ true → same_text t q ≡ false
apart s t q n y = same_text_comm t q ∙ rw (← same_text→eq s q y) n

missing : (name : Bytes) (ps : List Param) → count_named name ps ≡ 0 → Missing name ps
unfolding position find_param value_under count_named
missing name [] c = record { place = refl; seen = λ b. refl; value = refl; count = refl }
missing name (p ∷ ps) c = elim (Bool-cases (same_text p.name name)) [
  | inl y ↦ absurd (omega (arith, rw y at c))
  | inr y ↦
      let m = missing name ps (rw y at c) in
      record {
        place = rw (y, m.place);
        seen = λ b. rw (y, m.seen b, and_false (agree p.found b));
        value = rw (y, m.value);
        count = c;
      }
]

-- A parameter of the name at the beginning.
here :
    (name : Bytes) (p : Param) (ps : List Param)
    → same_text p.name name ≡ true
    → Missing name ps
    → Located name (p ∷ ps) zero
unfolding position find_param value_under count_named param_at
here name p ps y m =
    let same = same_text→eq p.name name y in
    record {
      place = rw y;
      seen = rw (agree_self p.found, y);
      unseen = rw (agree-not p.found, m.seen (not p.found));
      value = rw y;
      values =
          λ f v q. rw same (again_if (same_text name q) (some v) (some p.value) (value_under q ps));
      counts = λ f v q. refl;
      places = λ f v q. refl;
    }

-- Or behind a parameter of another name.
there :
    (name : Bytes) (p : Param) (ps : List Param) (i : ℕ)
    → same_text p.name name ≡ false
    → Located name ps i
    → Located name (p ∷ ps) (suc i)
unfolding position find_param value_under count_named param_at
there name p ps i n l = record {
  place = rw (n, l.place);
  seen = rw (n, and_false, l.seen);
  unseen = rw (n, and_false, l.unseen);
  value = rw (n, l.value);
  values = λ f v q. rw (l.values f v q) (
      swap_if (same_text p.name q) (same_text name q) (some p.value) (some v) (value_under q ps)
        (apart p.name name q n));
  counts = λ f v q. rw (l.counts f v q);
  places = λ f v q. rw (l.places f v q);
}

-- Either there is no parameter of the name, or it stands somewhere.
pub located :
    (name : Bytes) (ps : List Param)
    → count_named name ps ≤ 1
    → Missing name ps ⊎ ((i : ℕ) × Located name ps i)
unfolding count_named
located name [] h = inl (missing name [] refl)
located name (p ∷ ps) h = elim (Bool-cases (same_text p.name name)) [
  | inl y ↦ inr (zero, here name p ps y (missing name ps (omega (arith, rw y at h))))
  | inr n ↦ elim (located name ps (rw n at h)) [
    | inl m ↦ inl (missing name (p ∷ ps) (rw (n, m.count)))
    | inr (i, l) ↦ inr (suc i, there name p ps i n l)
  ]
]

-- A parameter that is added at the end.
module _ (p : Param) (q : Bytes) where
  pub value_under-append_other :
      (ps : List Param)
      → same_text p.name q ≡ false
      → value_under q (ps ++ p ∷ []) ≡ value_under q ps
  unfolding value_under
  value_under-append_other [] n = rw n
  value_under-append_other (o ∷ ps) n = rw (value_under-append_other ps n)

  pub count_named-append :
      (ps : List Param)
      → count_named q (ps ++ p ∷ []) ≡ count_named q ps + (if same_text p.name q then 1 else 0)
  unfolding count_named
  count_named-append [] = ground arith
  count_named-append (o ∷ ps) = ground (arith, count_named-append ps)

  module _ (y : same_text p.name q ≡ true) where
    pub value_under-append :
        (ps : List Param) → value_under q ps ≡ none → value_under q (ps ++ p ∷ []) ≡ some p.value
    unfolding value_under
    value_under-append [] h = rw y
    value_under-append (o ∷ ps) h = elim (Bool-cases (same_text o.name q)) [
      | inl x ↦ cc (rw x at h)
      | inr x ↦ rw x (value_under-append ps (rw x at h))
    ]

    pub position-append :
        (ps : List Param) → count_named q ps ≡ 0 → position q (ps ++ p ∷ []) ≡ some (length ps)
    unfolding position count_named
    position-append [] h = rw y
    position-append (o ∷ ps) h = elim (Bool-cases (same_text o.name q)) [
      | inl x ↦ absurd (omega (arith, rw x at h))
      | inr x ↦ rw (x, position-append ps (rw x at h))
    ]
