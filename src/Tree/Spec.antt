-- ===== src/Tree/Spec.antt =====
-- What a tree stands for: the list of its keys with their data, in the order of the keys. The operations
-- on such a list, for a comparison `cmp` of one key with the keys of the list.
use Prim.Native.Nat.Ordering.{lt, eq, gt}
use Prim.Native.Nat.{Ordering}
use vely.Base.{
  ℕ, ◌≡◌, refl, ◌∙◌, ap, Option, none, some, List, [], ◌∷◌, ◌++◌, Bytes, All, All-left, All-right,
  inl, inr,
}
use vely.Tree.Steps.{Ordering-cases}

abbrev pub Pair : Type 0
Pair = Bytes × ℕ

-- Puts a pair in at its place, unless its key is there.
abbrev pub put : (Bytes → Ordering) → Pair → List Pair → List Pair
put cmp e [] = e ∷ []
put cmp e (x ∷ es) = elim (cmp x.0) [ lt ↦ e ∷ x ∷ es | eq ↦ x ∷ es | gt ↦ x ∷ put cmp e es ]

abbrev pub take_out : (Bytes → Ordering) → List Pair → List Pair
take_out cmp [] = []
take_out cmp (x ∷ es) = elim (cmp x.0) [ lt ↦ x ∷ es | eq ↦ es | gt ↦ x ∷ take_out cmp es ]

abbrev pub find : (Bytes → Ordering) → List Pair → Option Pair
find cmp [] = none
find cmp (x ∷ es) = elim (cmp x.0) [ lt ↦ none | eq ↦ some x | gt ↦ find cmp es ]

-- The last pair whose key is not above the key sought, and the first whose key is not below it.
abbrev pub last_below : (Bytes → Ordering) → List Pair → Option Pair
last_below cmp [] = none
last_below cmp (x ∷ es) = elim (cmp x.0) [
  | lt ↦ none
  | eq ↦ some x
  | gt ↦ elim (last_below cmp es) [ none ↦ some x | some y ↦ some y ]
]

abbrev pub first_above : (Bytes → Ordering) → List Pair → Option Pair
first_above cmp [] = none
first_above cmp (x ∷ es) = elim (cmp x.0) [ lt ↦ some x | eq ↦ some x | gt ↦ first_above cmp es ]

-- The comparison goes along with the order: the keys below come first, and one key is equal at most.
abbrev pub IsCut : (Bytes → Ordering) → List Pair → Type 0
IsCut cmp [] = Unit
IsCut cmp (x ∷ es) = ((cmp x.0 ≡ gt → ⊥) → All (λ y. cmp y.0 ≡ lt) es) × IsCut cmp es

abbrev pub AllBelow : (Bytes → Ordering) → List Pair → Type 0
AllBelow cmp es = All (λ y. cmp y.0 ≡ gt) es

abbrev pub AllAbove : (Bytes → Ordering) → List Pair → Type 0
AllAbove cmp es = All (λ y. cmp y.0 ≡ lt) es

module _ (cmp : Bytes → Ordering) where
  pub put-above :
      (e x : Pair) (l r : List Pair) → cmp x.0 ≡ lt → put cmp e (l ++ x ∷ r) ≡ put cmp e l ++ x ∷ r
  put-above e x [] r h = rw h refl
  put-above e x (y ∷ l) r h =
      elim (cmp y.0)
        as (λ o.
          (elim o [
            | lt ↦ e ∷ y ∷ (l ++ x ∷ r)
            | eq ↦ y ∷ (l ++ x ∷ r)
            | gt ↦ y ∷ put cmp e (l ++ x ∷ r)
          ])
          ≡ (elim o [ lt ↦ e ∷ y ∷ l | eq ↦ y ∷ l | gt ↦ y ∷ put cmp e l ]) ++ x ∷ r) [
            | lt ↦ refl
            | eq ↦ refl
            | gt ↦ ap (λ s. y ∷ s) (put-above e x l r h)
          ]

  pub put-below :
      (e : Pair) (l r : List Pair) → AllBelow cmp l → put cmp e (l ++ r) ≡ l ++ put cmp e r
  put-below e [] r h = refl
  put-below e (y ∷ l) r (hy, h) = rw hy (ap (λ s. y ∷ s) (put-below e l r h))

  pub put-equal :
      (e x : Pair) (l r : List Pair)
      → AllBelow cmp l
      → cmp x.0 ≡ eq
      → put cmp e (l ++ x ∷ r) ≡ l ++ x ∷ r
  put-equal e x l r h q = put-below e l (x ∷ r) h ∙ ap (λ s. l ++ s) (rw (put, q))

  pub put-beyond :
      (e x : Pair) (l r : List Pair)
      → AllBelow cmp l
      → cmp x.0 ≡ gt
      → put cmp e (l ++ x ∷ r) ≡ l ++ x ∷ put cmp e r
  put-beyond e x l r h q = put-below e l (x ∷ r) h ∙ ap (λ s. l ++ s) (rw (put, q))

  pub take_out-above :
      (x : Pair) (l r : List Pair)
      → cmp x.0 ≡ lt
      → take_out cmp (l ++ x ∷ r) ≡ take_out cmp l ++ x ∷ r
  take_out-above x [] r h = rw h refl
  take_out-above x (y ∷ l) r h =
      elim (cmp y.0)
        as (λ o.
          (elim o [ lt ↦ y ∷ (l ++ x ∷ r) | eq ↦ l ++ x ∷ r | gt ↦ y ∷ take_out cmp (l ++ x ∷ r) ])
          ≡ (elim o [ lt ↦ y ∷ l | eq ↦ l | gt ↦ y ∷ take_out cmp l ]) ++ x ∷ r) [
            | lt ↦ refl
            | eq ↦ refl
            | gt ↦ ap (λ s. y ∷ s) (take_out-above x l r h)
          ]

  pub take_out-below :
      (l r : List Pair) → AllBelow cmp l → take_out cmp (l ++ r) ≡ l ++ take_out cmp r
  take_out-below [] r h = refl
  take_out-below (y ∷ l) r (hy, h) = rw hy (ap (λ s. y ∷ s) (take_out-below l r h))

  pub take_out-equal :
      (x : Pair) (l r : List Pair)
      → AllBelow cmp l
      → cmp x.0 ≡ eq
      → take_out cmp (l ++ x ∷ r) ≡ l ++ r
  take_out-equal x l r h q = take_out-below l (x ∷ r) h ∙ ap (λ s. l ++ s) (rw (take_out, q))

  pub take_out-beyond :
      (x : Pair) (l r : List Pair)
      → AllBelow cmp l
      → cmp x.0 ≡ gt
      → take_out cmp (l ++ x ∷ r) ≡ l ++ x ∷ take_out cmp r
  take_out-beyond x l r h q = take_out-below l (x ∷ r) h ∙ ap (λ s. l ++ s) (rw (take_out, q))

  pub find-above : (x : Pair) (l r : List Pair) → cmp x.0 ≡ lt → find cmp (l ++ x ∷ r) ≡ find cmp l
  find-above x [] r h = rw h refl
  find-above x (y ∷ l) r h =
      elim (cmp y.0)
        as (λ o.
          (elim o [ lt ↦ none | eq ↦ some y | gt ↦ find cmp (l ++ x ∷ r) ])
          ≡ (elim o [ lt ↦ none | eq ↦ some y | gt ↦ find cmp l ])) [
            | lt ↦ refl
            | eq ↦ refl
            | gt ↦ find-above x l r h
          ]

  pub find-below : (l r : List Pair) → AllBelow cmp l → find cmp (l ++ r) ≡ find cmp r
  find-below [] r h = refl
  find-below (y ∷ l) r (hy, h) = rw hy (find-below l r h)

  pub find-equal :
      (x : Pair) (l r : List Pair) → AllBelow cmp l → cmp x.0 ≡ eq → find cmp (l ++ x ∷ r) ≡ some x
  find-equal x l r h q = find-below l (x ∷ r) h ∙ rw (find, q)

  pub find-beyond :
      (x : Pair) (l r : List Pair)
      → AllBelow cmp l
      → cmp x.0 ≡ gt
      → find cmp (l ++ x ∷ r) ≡ find cmp r
  find-beyond x l r h q = find-below l (x ∷ r) h ∙ rw (find, q)

  pub IsCut-left : (l r : List Pair) → IsCut cmp (l ++ r) → IsCut cmp l
  IsCut-left [] r h = tt
  IsCut-left (x ∷ l) r (hx, h) = (λ n. All-left (λ y. cmp y.0 ≡ lt) l r (hx n), IsCut-left l r h)

  pub IsCut-right : (l r : List Pair) → IsCut cmp (l ++ r) → IsCut cmp r
  IsCut-right [] r h = h
  IsCut-right (x ∷ l) r (hx, h) = IsCut-right l r h

  -- Where a key is not above, the keys before it are below.
  pub cut-below :
      (l : List Pair) (x : Pair) (r : List Pair)
      → IsCut cmp (l ++ x ∷ r)
      → (cmp x.0 ≡ lt → ⊥)
      → AllBelow cmp l
  cut-below [] x r h n = tt
  cut-below (y ∷ l) x r (hy, h) n = (
    elim (Ordering-cases (cmp y.0)) [
      | inl e ↦ absurd (n (All-right (λ y. cmp y.0 ≡ lt) l (x ∷ r) (hy (λ g. cc))).0)
      | inr (inl e) ↦ absurd (n (All-right (λ y. cmp y.0 ≡ lt) l (x ∷ r) (hy (λ g. cc))).0)
      | inr (inr e) ↦ e
    ],
    cut-below l x r h n,
  )
