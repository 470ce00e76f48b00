-- ===== src/Tree/Nearest.antt =====
-- The searches for the nearest pair, over a list that is put together from two and a pair between.
use Prim.Native.Nat.Ordering.{lt, eq, gt}
use Prim.Native.Nat.{Ordering}
use vely.Base.{
  ◌≡◌, refl, ◌∙◌, ap, Option, none, some, List, [], ◌∷◌, ◌++◌, Bytes, inl, inr, Option-cases,
}
use vely.Tree.Spec.{Pair, last_below, first_above, AllBelow}

abbrev pub or_else : Option Pair → Option Pair → Option Pair
or_else none b = b
or_else (some y) b = some y

module _ (cmp : Bytes → Ordering) where
  pub last_below-above :
      (x : Pair) (l r : List Pair) → cmp x.0 ≡ lt → last_below cmp (l ++ x ∷ r) ≡ last_below cmp l
  last_below-above x [] r h = rw (last_below, h)
  last_below-above x (y ∷ l) r h =
      elim (cmp y.0)
        as (λ o.
          (elim o [
            | lt ↦ none
            | eq ↦ some y
            | gt ↦ elim (last_below cmp (l ++ x ∷ r)) [ none ↦ some y | some z ↦ some z ]
          ])
          ≡ (elim o [
            | lt ↦ none
            | eq ↦ some y
            | gt ↦ elim (last_below cmp l) [ none ↦ some y | some z ↦ some z ]
          ])) [
            | lt ↦ refl
            | eq ↦ refl
            | gt ↦
                ap (λ (b : Option Pair). elim b [ none ↦ some y | some z ↦ some z ])
                  (last_below-above x l r h)
          ]

  last_below-some :
      (l s : List Pair) (y : Pair)
      → AllBelow cmp l
      → last_below cmp s ≡ some y
      → last_below cmp (l ++ s) ≡ some y
  last_below-some [] s y h e = e
  last_below-some (x ∷ l) s y (hx, h) e = rw (last_below, hx) (rw (last_below-some l s y h e) refl)

  pub last_below-equal :
      (x : Pair) (l r : List Pair)
      → AllBelow cmp l
      → cmp x.0 ≡ eq
      → last_below cmp (l ++ x ∷ r) ≡ some x
  last_below-equal x l r h q = last_below-some l (x ∷ r) x h (rw (last_below, q))

  pub last_below-beyond :
      (x : Pair) (l r : List Pair)
      → AllBelow cmp l
      → cmp x.0 ≡ gt
      → last_below cmp (l ++ x ∷ r) ≡ or_else (last_below cmp r) (some x)
  last_below-beyond x l r h q = elim (Option-cases (last_below cmp r)) [
    | inl e ↦ last_below-some l (x ∷ r) x h (rw (last_below, q) (rw e refl)) ∙ rw e refl
    | inr (y, e) ↦ last_below-some l (x ∷ r) y h (rw (last_below, q) (rw e refl)) ∙ rw e refl
  ]

  pub first_above-above :
      (x : Pair) (l r : List Pair)
      → cmp x.0 ≡ lt
      → first_above cmp (l ++ x ∷ r) ≡ or_else (first_above cmp l) (some x)
  first_above-above x [] r h = rw (first_above, h)
  first_above-above x (y ∷ l) r h =
      elim (cmp y.0)
        as (λ o.
          (elim o [ lt ↦ some y | eq ↦ some y | gt ↦ first_above cmp (l ++ x ∷ r) ])
          ≡ or_else (elim o [ lt ↦ some y | eq ↦ some y | gt ↦ first_above cmp l ]) (some x)) [
            | lt ↦ refl
            | eq ↦ refl
            | gt ↦ first_above-above x l r h
          ]

  first_above-below :
      (l s : List Pair) → AllBelow cmp l → first_above cmp (l ++ s) ≡ first_above cmp s
  first_above-below [] s h = refl
  first_above-below (y ∷ l) s (hy, h) = rw (first_above, hy) (first_above-below l s h)

  pub first_above-equal :
      (x : Pair) (l r : List Pair)
      → AllBelow cmp l
      → cmp x.0 ≡ eq
      → first_above cmp (l ++ x ∷ r) ≡ some x
  first_above-equal x l r h q = first_above-below l (x ∷ r) h ∙ rw (first_above, q)

  pub first_above-beyond :
      (x : Pair) (l r : List Pair)
      → AllBelow cmp l
      → cmp x.0 ≡ gt
      → first_above cmp (l ++ x ∷ r) ≡ first_above cmp r
  first_above-beyond x l r h q = first_above-below l (x ∷ r) h ∙ rw (first_above, q)
