-- ===== src/Hash/Fnv.antt =====
-- The hash function: its bound, and a key list hashed and compared as one text.
use mathlib.Core.List.{flatten}
use vely.Base.{
  ℕ, ◌*◌, ◌%◌, ◌^◌, bit_xor, ◌<◌, ◌≡◌, refl, sym, ◌∙◌, Bool, true, false, Option, none, some, List,
  [], ◌∷◌, ◌++◌, Bytes, strip, strip-strip, strip-none, Option-cases, inl, inr, arith, ap,
}
use vely.Hash.{
  fnv_comp, fnv_list, fnv_offset_basis, compute_hash, match_list, sign_extend, fnv_prime,
}

pub compute_hash-lt :
    (d : Bytes) (l : Option (List Bytes)) (size : ℕ) → 0 < size → compute_hash d l size < size
unfolding compute_hash
compute_hash-lt d none size h = omega arith
compute_hash-lt d (some dlist) size h = omega arith

fnv_comp-append : (h : ℕ) (s t : Bytes) → fnv_comp h (s ++ t) ≡ fnv_comp (fnv_comp h s) t
unfolding fnv_comp
fnv_comp-append h [] t = refl
fnv_comp-append h (c ∷ s) t = fnv_comp-append (bit_xor h (sign_extend c) * fnv_prime % 2 ^ 32) s t

fnv_list-flatten : (h : ℕ) (ss : List Bytes) → fnv_list h ss ≡ fnv_comp h (flatten ss)
unfolding fnv_list flatten
fnv_list-flatten h [] = unfold fnv_comp in refl
fnv_list-flatten h (s ∷ ss) =
    fnv_list-flatten (fnv_comp h s) ss ∙ sym (fnv_comp-append h s (flatten ss))

-- A key list hashes as the one text that its elements make up.
pub compute_hash-flatten :
    (d : Bytes) (ss : List Bytes) (size : ℕ)
    → compute_hash d (some ss) size ≡ compute_hash (flatten ss) none size
unfolding compute_hash
compute_hash-flatten d ss size = ap (λ h. h % size) (fnv_list-flatten fnv_offset_basis ss)

abbrev is_some : Option Bytes → Bool
is_some none = false
is_some (some r) = true

-- Whether a text begins with `p`.
abbrev pub starts : Bytes → Bytes → Bool
starts p s = is_some (strip p s)

pub match_list-flatten : (els : List Bytes) (s : Bytes) → match_list els s ≡ starts (flatten els) s
unfolding match_list flatten
match_list-flatten [] s = unfold strip in refl
match_list-flatten (el ∷ els) s = elim (Option-cases (strip el s)) [
  | inl e ↦ rw (e, match_list) (sym (ap is_some (strip-none el (flatten els) s e)))
  | inr (r, e) ↦
      rw (e, match_list)
        (match_list-flatten els r ∙ sym (ap is_some (strip-strip el (flatten els) s r e)))
]
