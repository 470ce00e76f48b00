-- ===== src/Tree/Searches.antt =====
-- What the searches of tree.c find in the tree that a program holds.
use Prim.Native.Nat.Ordering.{lt, gt, eq}
use Prim.Native.Nat.{Ordering}
use vely.Base.{
  ◌≡◌, refl, sym, ◌∙◌, ap, Bool, true, false, if◌then◌else◌, All, ◌≢◌, Option, none, some, List, [],
  ◌∷◌, Bytes,
}
use vely.Tree.Api.{Root}
use vely.Tree.Search.{
  tree_search, search_lesser_equal, search_greater_equal, but_equal, min_loop, max_loop,
}
use vely.Tree.Entries.{entries}
use vely.Tree.Spec.{Pair, find, last_below, first_above, IsCut}
use vely.Tree.Keys.{sorted-IsCut}
use vely.Tree.Find.{
  pair_of, or_else-none, search-find, lesser_loop-last_below, greater_loop-first_above,
  but_equal-IsCut, first_of, last_of, min_loop-first_of, max_loop-last_of,
}
use vely.Tree.Valid.{IsValid, order_of}

-- Which keys a search for the lesser keys may give, and one for the greater.
abbrev pub before_or_at : Bool → Ordering → Bool
before_or_at equal Ordering.lt = false
before_or_at equal Ordering.eq = equal
before_or_at equal Ordering.gt = true

abbrev pub behind_or_at : Bool → Ordering → Bool
behind_or_at equal Ordering.lt = true
behind_or_at equal Ordering.eq = equal
behind_or_at equal Ordering.gt = false

-- The last and the first pair of a list that pass a test.
abbrev pub last_where : (Pair → Bool) → List Pair → Option Pair
last_where p [] = none
last_where p (x ∷ es) = elim (last_where p es) [
  | some y ↦ some y
  | none ↦ if p x then some x else none
]

abbrev pub first_where : (Pair → Bool) → List Pair → Option Pair
first_where p [] = none
first_where p (x ∷ es) = if p x then some x else first_where p es

abbrev last_or : Option Pair → Bool → Pair → Option Pair
last_or o b x = elim o [ some y ↦ some y | none ↦ if b then some x else none ]

last_or-none : (o : Option Pair) (b : Bool) (x : Pair) → o ≡ none → b ≡ false → last_or o b x ≡ none
last_or-none none true x e f = cc f
last_or-none none false x e f = refl
last_or-none (some y) b x e f = cc e

below_step :
    (equal : Bool) (o : Ordering) (x : Pair) (a b : Option Pair)
    → (o ≢ gt → b ≡ none)
    → a ≡ b
    → elim (but_equal lt equal o) [
      | lt ↦ none
      | eq ↦ some x
      | gt ↦ elim a [ none ↦ some x | some y ↦ some y ]
    ]
      ≡ last_or b (before_or_at equal o) x
below_step equal Ordering.lt x a b h e = sym (last_or-none b false x (h (λ q. cc q)) refl)
below_step true Ordering.eq x a b h e = sym (ap (λ o. last_or o true x) (h (λ q. cc q)))
below_step false Ordering.eq x a b h e = sym (last_or-none b false x (h (λ q. cc q)) refl)
below_step equal Ordering.gt x none b h e = ap (λ o. last_or o true x) e
below_step equal Ordering.gt x (some y) b h e = ap (λ o. last_or o true x) e

above_step :
    (equal : Bool) (o : Ordering) (x : Pair) (a b : Option Pair)
    → a ≡ b
    → elim (but_equal gt equal o) [ lt ↦ some x | eq ↦ some x | gt ↦ a ]
      ≡ (if behind_or_at equal o then some x else b)
above_step equal Ordering.lt x a b e = refl
above_step true Ordering.eq x a b e = refl
above_step false Ordering.eq x a b e = e
above_step equal Ordering.gt x a b e = e

module _ (cmp : Bytes → Ordering) (equal : Bool) where
  last_where-none :
      (es : List Pair)
      → All (λ y. cmp y.0 ≡ lt) es
      → last_where (λ y. before_or_at equal (cmp y.0)) es ≡ none
  last_where-none [] h = refl
  last_where-none (x ∷ es) (hx, h) =
      last_or-none (last_where (λ y. before_or_at equal (cmp y.0)) es)
        (before_or_at equal (cmp x.0)) x (last_where-none es h) (ap (before_or_at equal) hx)

  last_below-where :
      (es : List Pair)
      → IsCut cmp es
      → last_below (λ k. but_equal lt equal (cmp k)) es
        ≡ last_where (λ y. before_or_at equal (cmp y.0)) es
  last_below-where [] cut = refl
  last_below-where (x ∷ es) (hx, cut) =
      below_step equal (cmp x.0) x (last_below (λ k. but_equal lt equal (cmp k)) es)
        (last_where (λ y. before_or_at equal (cmp y.0)) es) (λ n. last_where-none es (hx n))
        (last_below-where es cut)

  first_above-where :
      (es : List Pair)
      → first_above (λ k. but_equal gt equal (cmp k)) es
        ≡ first_where (λ y. behind_or_at equal (cmp y.0)) es
  first_above-where [] = refl
  first_above-where (x ∷ es) =
      above_step equal (cmp x.0) x (first_above (λ k. but_equal gt equal (cmp k)) es)
        (first_where (λ y. behind_or_at equal (cmp y.0)) es) (first_above-where es)

-- In a valid tree, the searches find what the list holds: the pair of the key; the last pair whose key is
-- before it, and the first whose key is behind it, where the key itself counts if `equal` is set and not
-- otherwise; and, by the loops that a tree without a linked list is searched with, the first and the last
-- pair of all. They find nothing where there is none.
pub searches_lem :
    (root : Root) (key : Bytes) (equal : Bool)
    → IsValid root
    → (pair_of (tree_search (order_of root key) root.top)
        ≡ find (order_of root key) (entries root.top))
      × (pair_of (search_lesser_equal (order_of root key) equal root.top)
          ≡ last_where (λ y. before_or_at equal (order_of root key y.0)) (entries root.top))
      × (pair_of (search_greater_equal (order_of root key) equal root.top)
          ≡ first_where (λ y. behind_or_at equal (order_of root key y.0)) (entries root.top))
      × (pair_of (min_loop root.top) ≡ first_of (entries root.top))
      × (pair_of (max_loop root.top) ≡ last_of (entries root.top))
unfolding search_lesser_equal search_greater_equal
searches_lem root key equal v =
    let cmp = order_of root key in
    let cut = sorted-IsCut (order_of root) v.order key (entries root.top) v.sorted in
    let below : Bytes → Ordering = λ k. but_equal lt equal (cmp k) in
    let above : Bytes → Ordering = λ k. but_equal gt equal (cmp k) in
    (
      search-find cmp root.top cut,
      lesser_loop-last_below below none root.top
            (but_equal-IsCut lt equal cmp (entries root.top) cut)
          ∙ or_else-none (last_below below (entries root.top))
          ∙ last_below-where cmp equal (entries root.top) cut,
      greater_loop-first_above above none root.top
            (but_equal-IsCut gt equal cmp (entries root.top) cut)
          ∙ or_else-none (first_above above (entries root.top))
          ∙ first_above-where cmp equal (entries root.top),
      min_loop-first_of root.top,
      max_loop-last_of root.top,
    )
