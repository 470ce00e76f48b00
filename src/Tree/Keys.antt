-- ===== src/Tree/Keys.antt =====
-- Orders of keys: what an order has to obey, that sorted lists stay sorted, and the two orders that the
-- library has.
use Prim.Native.Nat.Ordering.{lt, eq, gt}
use Prim.Native.Nat.{Ordering, compare}
use vely.Base.{◌≡◌, refl, sym, ◌∙◌, ap, subst, List, [], ◌∷◌, Bytes, length, All, inl, inr, arith}
use vely.Tree.Api.{KeyType, type_str, type_num, strncmp, tree_compare}
use mathlib.Core.Path.{fun_ext}
use vely.Tree.Steps.{Ordering-cases}
use vely.Tree.Spec.{Pair, put, take_out, IsCut}

pub record IsKeyOrder (k : Bytes → Bytes → Ordering) : Type 0 where
  pub same : (a : Bytes) → k a a ≡ eq
  pub flip_lt : (a b : Bytes) → k a b ≡ lt → k b a ≡ gt
  pub flip_gt : (a b : Bytes) → k a b ≡ gt → k b a ≡ lt
  pub alike : (a b c : Bytes) → k a b ≡ eq → k a c ≡ k b c
  pub trans : (a b c : Bytes) → k a b ≡ lt → k b c ≡ lt → k a c ≡ lt

module _ (k : Bytes → Bytes → Ordering) where
  abbrev pub AllOver : Bytes → List Pair → Type 0
  AllOver a es = All (λ y. k a y.0 ≡ lt) es

  abbrev pub IsSorted : List Pair → Type 0
  IsSorted [] = Unit
  IsSorted (x ∷ es) = AllOver x.0 es × IsSorted es

module _ (k : Bytes → Bytes → Ordering) (o : IsKeyOrder k) where
  AllOver-trans : (a b : Bytes) (es : List Pair) → k a b ≡ lt → AllOver k b es → AllOver k a es
  AllOver-trans a b [] h all = tt
  AllOver-trans a b (y ∷ es) h (hy, all) = (o.trans a b y.0 h hy, AllOver-trans a b es h all)

  AllOver-alike : (a b : Bytes) (es : List Pair) → k a b ≡ eq → AllOver k b es → AllOver k a es
  AllOver-alike a b [] h all = tt
  AllOver-alike a b (y ∷ es) h (hy, all) = (o.alike a b y.0 h ∙ hy, AllOver-alike a b es h all)

  pub sorted-IsCut : (key : Bytes) (es : List Pair) → IsSorted k es → IsCut (k key) es
  sorted-IsCut key [] s = tt
  sorted-IsCut key (x ∷ es) (hx, s) = (
    λ n. elim (Ordering-cases (k key x.0)) [
      | inl e ↦ AllOver-trans key x.0 es e hx
      | inr (inl e) ↦ AllOver-alike key x.0 es e hx
      | inr (inr e) ↦ absurd (n e)
    ],
    sorted-IsCut key es s,
  )

  AllOver-put :
      (a : Bytes) (e : Pair) (es : List Pair)
      → k a e.0 ≡ lt
      → AllOver k a es
      → AllOver k a (put (k e.0) e es)
  AllOver-put a e [] h all = (h, tt)
  AllOver-put a e (x ∷ es) h (hx, all) = elim (Ordering-cases (k e.0 x.0)) [
    | inl q ↦ rw (put, q) (h, (hx, all))
    | inr (inl q) ↦ rw (put, q) (hx, all)
    | inr (inr q) ↦ rw (put, q) (hx, AllOver-put a e es h all)
  ]

  pub put-IsSorted : (e : Pair) (es : List Pair) → IsSorted k es → IsSorted k (put (k e.0) e es)
  put-IsSorted e [] s = (tt, tt)
  put-IsSorted e (x ∷ es) (hx, s) = elim (Ordering-cases (k e.0 x.0)) [
    | inl q ↦ rw (put, q) ((q, AllOver-trans e.0 x.0 es q hx), (hx, s))
    | inr (inl q) ↦ rw (put, q) (hx, s)
    | inr (inr q) ↦ rw (put, q) (AllOver-put x.0 e es (o.flip_gt e.0 x.0 q) hx, put-IsSorted e es s)
  ]

  AllOver-take_out :
      (cmp : Bytes → Ordering) (a : Bytes) (es : List Pair)
      → AllOver k a es
      → AllOver k a (take_out cmp es)
  AllOver-take_out cmp a [] all = tt
  AllOver-take_out cmp a (x ∷ es) (hx, all) = elim (Ordering-cases (cmp x.0)) [
    | inl q ↦ rw (take_out, q) (hx, all)
    | inr (inl q) ↦ rw (take_out, q) all
    | inr (inr q) ↦ rw (take_out, q) (hx, AllOver-take_out cmp a es all)
  ]

  pub take_out-IsSorted :
      (cmp : Bytes → Ordering) (es : List Pair) → IsSorted k es → IsSorted k (take_out cmp es)
  take_out-IsSorted cmp [] s = tt
  take_out-IsSorted cmp (x ∷ es) (hx, s) = elim (Ordering-cases (cmp x.0)) [
    | inl q ↦ rw (take_out, q) (hx, s)
    | inr (inl q) ↦ rw (take_out, q) s
    | inr (inr q) ↦ rw (take_out, q) (AllOver-take_out cmp x.0 es hx, take_out-IsSorted cmp es s)
  ]

-- The order of C strings.
unfoldable pub lex : Bytes → Bytes → Ordering
lex [] [] = eq
lex [] (y ∷ t) = lt
lex (x ∷ s) [] = gt
lex (x ∷ s) (y ∷ t) = elim (compare x y) [ lt ↦ lt | eq ↦ lex s t | gt ↦ gt ]

lex-same : (a : Bytes) → lex a a ≡ eq
unfolding lex
lex-same [] = refl
lex-same (x ∷ a) = ground (arith, lex-same a)

lex-flip_lt : (a b : Bytes) → lex a b ≡ lt → lex b a ≡ gt
unfolding lex
lex-flip_lt [] [] h = cc
lex-flip_lt [] (y ∷ b) h = refl
lex-flip_lt (x ∷ a) [] h = cc
lex-flip_lt (x ∷ a) (y ∷ b) h = ground (arith, lex-flip_lt a b)

lex-flip_gt : (a b : Bytes) → lex a b ≡ gt → lex b a ≡ lt
unfolding lex
lex-flip_gt [] [] h = cc
lex-flip_gt [] (y ∷ b) h = cc
lex-flip_gt (x ∷ a) [] h = refl
lex-flip_gt (x ∷ a) (y ∷ b) h = ground (arith, lex-flip_gt a b)

lex→eq : (a b : Bytes) → lex a b ≡ eq → a ≡ b
unfolding lex
lex→eq [] [] h = refl
lex→eq [] (y ∷ b) h = cc
lex→eq (x ∷ a) [] h = cc
lex→eq (x ∷ a) (y ∷ b) h = ground (arith, lex→eq a b)

lex_trans : (a b c : Bytes) → lex a b ≡ lt → lex b c ≡ lt → lex a c ≡ lt
unfolding lex
lex_trans [] [] c h g = g
lex_trans [] (y ∷ b) [] h g = cc
lex_trans [] (y ∷ b) (z ∷ c) h g = refl
lex_trans (x ∷ a) [] c h g = cc
lex_trans (x ∷ a) (y ∷ b) [] h g = cc
lex_trans (x ∷ a) (y ∷ b) (z ∷ c) h g = ground (arith, lex_trans a b c)

pub lex-IsKeyOrder : IsKeyOrder lex
lex-IsKeyOrder = record {
  same = lex-same;
  flip_lt = lex-flip_lt;
  flip_gt = lex-flip_gt;
  alike = λ a b c h. ap (λ s. lex s c) (lex→eq a b h);
  trans = lex_trans;
}

-- `strncmp` over the length of the first string, and the test behind it, make up this order.
pub compare-str : (a b : Bytes) → tree_compare type_str a (length a) b ≡ lex a b
unfolding tree_compare strncmp lex
compare-str [] [] = refl
compare-str [] (y ∷ b) = ground arith
compare-str (x ∷ a) [] = refl
compare-str (x ∷ a) (y ∷ b) = ground (arith, compare-str a b)

strncmp-lex : (a b : Bytes) → length a ≡ length b → strncmp a b (length a) ≡ lex a b
unfolding strncmp lex
strncmp-lex [] [] h = refl
strncmp-lex [] (y ∷ b) h = absurd (omega arith)
strncmp-lex (x ∷ a) [] h = absurd (omega arith)
strncmp-lex (x ∷ a) (y ∷ b) h = ground (arith, strncmp-lex a b)

-- The order of numbers that are written without leading zeros.
unfoldable pub num_lex : Bytes → Bytes → Ordering
unfolding lex
num_lex a b = elim (compare (length a) (length b)) [ lt ↦ lt | eq ↦ lex a b | gt ↦ gt ]

num_lex→eq : (a b : Bytes) → num_lex a b ≡ eq → a ≡ b
unfolding num_lex
num_lex→eq a b h = ground (arith, lex→eq a b)

num_lex-IsKeyOrder : IsKeyOrder num_lex
unfolding num_lex
num_lex-IsKeyOrder = record {
  same = λ a. ground (arith, lex-same a);
  flip_lt = λ a b h. ground (arith, lex-flip_lt a b);
  flip_gt = λ a b h. ground (arith, lex-flip_gt a b);
  alike = λ a b c h. ap (λ s. num_lex s c) (num_lex→eq a b h);
  trans = λ a b c h g. ground (arith, lex_trans a b c);
}

pub compare-num : (a b : Bytes) → tree_compare type_num a (length a) b ≡ num_lex a b
unfolding tree_compare num_lex
compare-num a b = ground (arith, strncmp-lex a b)

-- What the comparison is, for a key in its whole length.
abbrev pub key_order : KeyType → Bytes → Bytes → Ordering
key_order type_str = lex
key_order type_num = num_lex

abbrev pub whole : KeyType → Bytes → Bytes → Ordering
whole t a b = tree_compare t a (length a) b

whole-key_order : (t : KeyType) → whole t ≡ key_order t
whole-key_order type_str = fun_ext (λ a. fun_ext (λ b. compare-str a b))
whole-key_order type_num = fun_ext (λ a. fun_ext (λ b. compare-num a b))

-- For a key in its whole length, the comparison of the library is the order of C strings for keys that
-- are text; for keys that are numbers a shorter one is less, and those of one length stand in the
-- order of C strings. Both are total orders, in which only a key itself compares as equal.
pub tree_compare_lem :
    (t : KeyType)
    → ((a b : Bytes) → tree_compare t a (length a) b ≡ key_order t a b)
      × IsKeyOrder (λ a b. tree_compare t a (length a) b)
      × ((a b : Bytes) → tree_compare t a (length a) b ≡ eq → a ≡ b)
tree_compare_lem type_str = (
  compare-str,
  subst IsKeyOrder (sym (whole-key_order type_str)) lex-IsKeyOrder,
  λ a b h. lex→eq a b (sym (compare-str a b) ∙ h),
)
tree_compare_lem type_num = (
  compare-num,
  subst IsKeyOrder (sym (whole-key_order type_num)) num_lex-IsKeyOrder,
  λ a b h. num_lex→eq a b (sym (compare-num a b) ∙ h),
)
