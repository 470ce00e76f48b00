-- ===== src/Cookies/Slots.antt =====
-- Where a cookie is found after a write.
use vely.Base.{
  ℕ, zero, suc, ◌+◌, ◌≡◌, ◌⊎◌, refl, false, ap, none, some, List, [], ◌∷◌, ◌++◌, set, length, Bytes,
  same_text, inl, inr, arith, Option-cases,
}
use vely.Cookies.{Cookie, program_cookie, cookie_rest, found_at, find_from}
use vely.Cookies.Text.{Lacks, cookie_rest_sound, cookie_rest_other}

-- The search for a name from `ci`: nothing is found, or the cookie at `i` of those that are left is.
-- A cookie of this name takes its place, or comes behind the others.
pub record Absent (ci : ℕ) (name : Bytes) (cs : List Cookie) : Type 0 where
  pub search : find_from ci name cs ≡ none
  pub added :
      (text v : Bytes)
      → cookie_rest name text ≡ some v
      → find_from ci name (cs ++ program_cookie text ∷ []) ≡ some (found_at (ci + length cs) v)

pub record Present (ci : ℕ) (name : Bytes) (cs : List Cookie) (i : ℕ) : Type 0 where
  pub rest : Bytes
  pub search : find_from ci name cs ≡ some (found_at (ci + i) rest)
  pub replaced :
      (text v : Bytes)
      → cookie_rest name text ≡ some v
      → find_from ci name (set cs i (program_cookie text)) ≡ some (found_at (ci + i) v)
  pub others :
      (other text : Bytes)
      → Lacks 61 name
      → Lacks 61 other
      → same_text name other ≡ false
      → cookie_rest other text ≡ none
      → find_from ci other (set cs i (program_cookie text)) ≡ find_from ci other cs

module _ (ci : ℕ) (name : Bytes) where
  found_here :
      (c : Cookie) (cs : List Cookie) (v : Bytes)
      → cookie_rest name c.content ≡ some v
      → Present ci name (c ∷ cs) zero
  unfolding find_from
  found_here c cs v e = record {
    rest = v;
    search = rw (find_from, e) (ap (λ k. some (found_at k v)) (omega arith));
    replaced = λ text w f. rw (find_from, f) (ap (λ k. some (found_at k w)) (omega arith));
    others = λ other text k l n f.
        let old = cookie_rest_sound name c.content v e in
        let gone : cookie_rest other c.content ≡ none =
          rw old (cookie_rest_other name other v k l n) in
        rw (find_from, f, gone);
  }

  found_there :
      (c : Cookie) (cs : List Cookie) (i : ℕ)
      → cookie_rest name c.content ≡ none
      → Present (ci + 1) name cs i
      → Present ci name (c ∷ cs) (suc i)
  unfolding find_from
  found_there c cs i e p = record {
    rest = p.rest;
    search = rw (find_from, e, p.search) (ap (λ k. some (found_at k p.rest)) (omega arith));
    replaced = λ text w f.
        rw (find_from, e, p.replaced text w f) (ap (λ k. some (found_at k w)) (omega arith));
    others = λ other text k l n f. rw (find_from, p.others other text k l n f);
  }

  not_here :
      (c : Cookie) (cs : List Cookie)
      → cookie_rest name c.content ≡ none
      → Absent (ci + 1) name cs
      → Absent ci name (c ∷ cs)
  unfolding find_from
  not_here c cs e a = record {
    search = rw (find_from, e, a.search);
    added = λ text w f.
        rw (find_from, e, a.added text w f) (ap (λ k. some (found_at k w)) (omega arith));
  }

pub searched :
    (ci : ℕ) (name : Bytes) (cs : List Cookie)
    → Absent ci name cs ⊎ ((i : ℕ) × Present ci name cs i)
unfolding find_from
searched ci name [] = inl (record {
  search = refl;
  added = λ text v f. rw (find_from, f) (ap (λ k. some (found_at k v)) (omega arith));
})
searched ci name (c ∷ cs) = elim (Option-cases (cookie_rest name c.content)) [
  | inr (v, e) ↦ inr (zero, found_here ci name c cs v e)
  | inl e ↦ elim (searched (ci + 1) name cs) [
    | inl a ↦ inl (not_here ci name c cs e a)
    | inr (i, p) ↦ inr (suc i, found_there ci name c cs i e p)
  ]
]

-- A cookie of another name at the end.
pub find_from-append_other :
    (ci : ℕ) (other : Bytes) (cs : List Cookie) (text : Bytes)
    → cookie_rest other text ≡ none
    → find_from ci other (cs ++ program_cookie text ∷ []) ≡ find_from ci other cs
unfolding find_from
find_from-append_other ci other [] text e = rw (find_from, e)
find_from-append_other ci other (c ∷ cs) text e =
    rw (find_from, find_from-append_other (ci + 1) other cs text e)
