-- ===== src/Tree/Find.antt =====
-- The searches against the list that the tree stands for.
use Prim.Native.Nat.Ordering.{lt}
use Prim.Native.Nat.{Ordering}
use vely.Base.{
  ◌≡◌, refl, sym, ◌∙◌, ap, Bool, Option, none, some, List, [], ◌∷◌, ◌++◌, Bytes, All, inl, inr,
}
use vely.Tree.{Tree, Cell, null, branch}
use vely.Tree.Steps.{Ordering-cases}
use vely.Tree.Search.{tree_search, lesser_loop, greater_loop, but_equal, min_loop, max_loop}
use vely.Tree.Entries.{entries}
use vely.Tree.Spec.{
  Pair, find, last_below, first_above, IsCut, find-above, find-equal, find-beyond, IsCut-left,
  IsCut-right, cut-below,
}
use vely.Tree.Nearest.{
  or_else, last_below-above, last_below-equal, last_below-beyond, first_above-above,
  first_above-equal, first_above-beyond,
}

abbrev pub pair_of : Option Cell → Option Pair
pair_of none = none
pair_of (some c) = some (c.key, c.value)

or_else_assoc : (a b c : Option Pair) → or_else (or_else a b) c ≡ or_else a (or_else b c)
or_else_assoc none b c = refl
or_else_assoc (some y) b c = refl

pub or_else-none : (a : Option Pair) → or_else a none ≡ a
or_else-none none = refl
or_else-none (some y) = refl

or_else-some :
    (a : Option Pair) (x : Pair) (b : Option Pair)
    → or_else (or_else a (some x)) b ≡ or_else a (some x)
or_else-some none x b = refl
or_else-some (some y) x b = refl

module _ (cmp : Bytes → Ordering) where
  pub search-find :
      (t : Tree) → IsCut cmp (entries t) → pair_of (tree_search cmp t) ≡ find cmp (entries t)
  unfolding tree_search
  search-find null cut = refl
  search-find (branch l c r) cut =
      let x : Pair = (c.key, c.value) in
      elim (Ordering-cases (cmp c.key)) [
        | inl e ↦
            rw (tree_search, e)
              (search-find l (IsCut-left cmp (entries l) (x ∷ entries r) cut)
                ∙ sym (find-above cmp x (entries l) (entries r) e))
        | inr (inl e) ↦
            rw (tree_search, e)
              (sym (
                find-equal cmp x (entries l) (entries r)
                  (cut-below cmp (entries l) x (entries r) cut (λ h. cc)) e))
        | inr (inr e) ↦
            rw (tree_search, e)
              (search-find r (IsCut-right cmp (entries l) (x ∷ entries r) cut).1
                ∙ sym (
                    find-beyond cmp x (entries l) (entries r)
                      (cut-below cmp (entries l) x (entries r) cut (λ h. cc)) e))
      ]

  pub lesser_loop-last_below :
      (prev : Option Cell) (t : Tree)
      → IsCut cmp (entries t)
      → pair_of (lesser_loop cmp prev t) ≡ or_else (last_below cmp (entries t)) (pair_of prev)
  unfolding lesser_loop
  lesser_loop-last_below prev null cut = refl
  lesser_loop-last_below prev (branch l c r) cut =
      let x : Pair = (c.key, c.value) in
      elim (Ordering-cases (cmp c.key)) [
        | inl e ↦
            rw (lesser_loop, e)
              (lesser_loop-last_below prev l (IsCut-left cmp (entries l) (x ∷ entries r) cut)
                ∙ ap (λ a. or_else a (pair_of prev))
                    (sym (last_below-above cmp x (entries l) (entries r) e)))
        | inr (inl e) ↦
            rw (lesser_loop, e)
              (ap (λ a. or_else a (pair_of prev))
                (sym (
                  last_below-equal cmp x (entries l) (entries r)
                    (cut-below cmp (entries l) x (entries r) cut (λ h. cc)) e)))
        | inr (inr e) ↦
            rw (lesser_loop, e)
              (lesser_loop-last_below (some c) r (IsCut-right cmp (entries l) (x ∷ entries r) cut).1
                ∙ sym (or_else-some (last_below cmp (entries r)) x (pair_of prev))
                ∙ ap (λ a. or_else a (pair_of prev))
                    (sym (
                      last_below-beyond cmp x (entries l) (entries r)
                        (cut-below cmp (entries l) x (entries r) cut (λ h. cc)) e)))
      ]

  pub greater_loop-first_above :
      (prev : Option Cell) (t : Tree)
      → IsCut cmp (entries t)
      → pair_of (greater_loop cmp prev t) ≡ or_else (first_above cmp (entries t)) (pair_of prev)
  unfolding greater_loop
  greater_loop-first_above prev null cut = refl
  greater_loop-first_above prev (branch l c r) cut =
      let x : Pair = (c.key, c.value) in
      elim (Ordering-cases (cmp c.key)) [
        | inl e ↦
            rw (greater_loop, e)
              (greater_loop-first_above (some c) l (IsCut-left cmp (entries l) (x ∷ entries r) cut)
                ∙ sym (or_else-some (first_above cmp (entries l)) x (pair_of prev))
                ∙ ap (λ a. or_else a (pair_of prev))
                    (sym (first_above-above cmp x (entries l) (entries r) e)))
        | inr (inl e) ↦
            rw (greater_loop, e)
              (ap (λ a. or_else a (pair_of prev))
                (sym (
                  first_above-equal cmp x (entries l) (entries r)
                    (cut-below cmp (entries l) x (entries r) cut (λ h. cc)) e)))
        | inr (inr e) ↦
            rw (greater_loop, e)
              (greater_loop-first_above prev r (IsCut-right cmp (entries l) (x ∷ entries r) cut).1
                ∙ ap (λ a. or_else a (pair_of prev))
                    (sym (
                      first_above-beyond cmp x (entries l) (entries r)
                        (cut-below cmp (entries l) x (entries r) cut (λ h. cc)) e)))
      ]

module _ (other : Ordering) (equal : Bool) where
  -- The comparison that passes over the equal key goes along with the order too.
  but_equal-All :
      (cmp : Bytes → Ordering) (es : List Pair)
      → All (λ y. cmp y.0 ≡ lt) es
      → All (λ y. but_equal other equal (cmp y.0) ≡ lt) es
  but_equal-All cmp [] h = tt
  but_equal-All cmp (x ∷ es) (hx, h) = (ap (but_equal other equal) hx, but_equal-All cmp es h)

  pub but_equal-IsCut :
      (cmp : Bytes → Ordering) (es : List Pair)
      → IsCut cmp es
      → IsCut (λ k. but_equal other equal (cmp k)) es
  but_equal-IsCut cmp [] cut = tt
  but_equal-IsCut cmp (x ∷ es) (hx, cut) = (
    λ n. but_equal-All cmp es (hx (λ e. n (ap (but_equal other equal) e))),
    but_equal-IsCut cmp es cut,
  )

-- The ends of a list.
abbrev pub first_of : List Pair → Option Pair
first_of [] = none
first_of (x ∷ es) = some x

abbrev pub last_of : List Pair → Option Pair
last_of [] = none
last_of (x ∷ es) = or_else (last_of es) (some x)

first_of-append : (l r : List Pair) → first_of (l ++ r) ≡ or_else (first_of l) (first_of r)
first_of-append [] r = refl
first_of-append (x ∷ l) r = refl

last_of-append : (l r : List Pair) → last_of (l ++ r) ≡ or_else (last_of r) (last_of l)
last_of-append [] r = sym (or_else-none (last_of r))
last_of-append (x ∷ l) r =
    ap (λ a. or_else a (some x)) (last_of-append l r)
    ∙ or_else_assoc (last_of r) (last_of l) (some x)

first_of-branch :
    (l : Tree) (c : Cell) (r : Tree)
    → first_of (entries (branch l c r)) ≡ or_else (first_of (entries l)) (some (c.key, c.value))
first_of-branch l c r = first_of-append (entries l) ((c.key, c.value) ∷ entries r)

last_of-branch :
    (l : Tree) (c : Cell) (r : Tree)
    → last_of (entries (branch l c r)) ≡ or_else (last_of (entries r)) (some (c.key, c.value))
last_of-branch l c r =
    last_of-append (entries l) ((c.key, c.value) ∷ entries r)
    ∙ or_else-some (last_of (entries r)) (c.key, c.value) (last_of (entries l))

pub min_loop-first_of : (t : Tree) → pair_of (min_loop t) ≡ first_of (entries t)
unfolding min_loop
min_loop-first_of null = refl
min_loop-first_of (branch null c r) = refl
min_loop-first_of (branch (branch ll lc lr) c r) =
    min_loop-first_of (branch ll lc lr)
    ∙ first_of-branch ll lc lr
    ∙ sym (or_else-some (first_of (entries ll)) (lc.key, lc.value) (some (c.key, c.value)))
    ∙ ap (λ a. or_else a (some (c.key, c.value))) (sym (first_of-branch ll lc lr))
    ∙ sym (first_of-branch (branch ll lc lr) c r)

pub max_loop-last_of : (t : Tree) → pair_of (max_loop t) ≡ last_of (entries t)
unfolding max_loop
max_loop-last_of null = refl
max_loop-last_of (branch l c null) = sym (last_of-branch l c null)
max_loop-last_of (branch l c (branch rl rc rr)) =
    max_loop-last_of (branch rl rc rr)
    ∙ last_of-branch rl rc rr
    ∙ sym (or_else-some (last_of (entries rr)) (rc.key, rc.value) (some (c.key, c.value)))
    ∙ ap (λ a. or_else a (some (c.key, c.value))) (sym (last_of-branch rl rc rr))
    ∙ sym (last_of-branch l c (branch rl rc rr))
