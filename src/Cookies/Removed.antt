-- ===== src/Cookies/Removed.antt =====
-- What is found after a cookie has been deleted.
use vely.Base.{
  ℕ, ◌+◌, ◌≤◌, ◌≡◌, refl, sym, ◌∙◌, ap, subst, false, Option, some, List, [], ◌∷◌, ◌++◌, set, take,
  length, Bytes, codes, same_text, inl, inr, arith,
}
use vely.Cookies.{
  Cookie, okay, Found, program_cookie, check_set_cookie, safety_clause, up_to_semi, found_at,
  find_cookie, deleted_text, deleted_path, delete_checked, delete_cookie, epoch,
}
use vely.Cookies.Text.{Lacks, up_to_semi-append, cookie_rest-append, cookie_rest_other, take_all}
use vely.Cookies.Slots.{Present, searched}
use vely.Cookies.Kept.{Outcome-cases, content, check_lem}

-- What a cookie that is deleted looks like, and the cookies of other names.
pub record Deleted (cs cs1 : List Cookie) (name : Bytes) (i : ℕ) : Type 0 where
  pub found : Found
  pub search : find_cookie cs1 name ≡ some found
  pub value : found.value ≡ codes "deleted"
  pub ind : found.ind ≡ i
  pub others :
      (other : Bytes)
      → Lacks 61 other
      → same_text name other ≡ false
      → find_cookie cs1 other ≡ find_cookie cs other

index : {a b : ℕ} → ◌≡◌ {A = Option ℕ} (some a) (some b) → a ≡ b
index h = cc h

module _ (cs cs1 : List Cookie) (name p secure : Bytes) (i : ℕ) where
  abbrev clause : Bytes
  clause = safety_clause secure [] []

  abbrev rest : Bytes
  rest = codes "deleted" ++ (deleted_path (some p) ++ (epoch ++ clause))

  delete_present :
      (k : ℕ)
      → Present 0 name cs k
      → Lacks 61 name
      → set cs (0 + k) (program_cookie (name ++ (61 ∷ rest))) ≡ cs1
      → 0 + k ≡ i
      → Deleted cs cs1 name i
  unfolding find_cookie found_at deleted_path
  delete_present k q n e same =
      let straight : k ≡ 0 + k = omega arith in
      let whole = name ++ (61 ∷ rest) in
      subst (λ c. Deleted cs c name i) (ap (λ k. set cs k (program_cookie whole)) straight ∙ e)
        (record {
          found = found_at (0 + k) rest;
          search = q.replaced whole rest (cookie_rest-append name rest);
          value =
              up_to_semi-append (codes "deleted") (deleted_path (some p) ++ (epoch ++ clause))
                (_, refl)
              ∙ (unfold up_to_semi in refl);
          ind = same;
          others =
              λ other l d. q.others other whole n l d (cookie_rest_other name other rest n l d);
        })

  delete_checked-Deleted :
      (k : ℕ) (old : Bytes)
      → Present 0 name cs k
      → delete_checked cs name
          (some p)
          (found_at (0 + k) old)
          (check_set_cookie name (codes "deleted") secure [] [])
        ≡ okay (cs1, some i)
      → length (deleted_text name (some p) clause) ≤ 299
      → Deleted cs cs1 name i
  unfolding delete_checked deleted_text found_at
  delete_checked-Deleted k old q h fits =
      elim (Outcome-cases (check_set_cookie name (codes "deleted") secure [] [])) [
        | inl (e, c) ↦ cc (rw c at h)
        | inr (l, c) ↦
            let (n, _, same) = check_lem name (codes "deleted") secure [] [] l c in
            let pair = content (rw c at h) in
            let whole = name ++ (61 ∷ rest) in
            let text : take 299 (deleted_text name (some p) l) ≡ whole =
              ap (λ l. take 299 (deleted_text name (some p) l)) (sym same)
              ∙ take_all 299 whole fits in
            delete_present k q n
              (ap (λ t. set cs (0 + k) (program_cookie t)) (sym text) ∙ ap (λ r. r.0) pair)
              (index (ap (λ r. r.1) pair))
      ]

  -- A cookie that has been deleted for a path, in a text of no more than 299 bytes, is found with the value
  -- `deleted` at the returned index, and what is found under another name without an equal sign is as
  -- before.
  pub find_cookie-delete_cookie :
      delete_cookie cs name (some p) secure ≡ okay (cs1, some i)
      → length (deleted_text name (some p) clause) ≤ 299
      → Deleted cs cs1 name i
  unfolding delete_cookie find_cookie
  find_cookie-delete_cookie h fits = elim (searched 0 name cs) [
    | inl a ↦ cc (rw a.search at h)
    | inr (k, q) ↦ delete_checked-Deleted k q.rest q (rw q.search at h) fits
  ]
