-- ===== src/Tree/Search.antt =====
-- tree.c: the searches. A node that is found is its `Cell`, and `none` is VV_ERR_EXIST. The loops go down
-- one branch of the tree.
use Prim.Native.Nat.Ordering.{lt, eq, gt}
use Prim.Native.Nat.{Ordering}
use vely.Base.{ℕ, ◌+◌, Bool, Option, none, some, if◌then◌else◌, leb, Bytes}
use vely.Tree.{Tree, Cell, null, branch, height_of}

unfoldable pub tree_search : (Bytes → Ordering) → Tree → Option Cell
tree_search cmp null = none
tree_search cmp (branch l c r) = elim (cmp c.key) [
  | lt ↦ tree_search cmp l
  | eq ↦ some c
  | gt ↦ tree_search cmp r
]

-- The comparison where the equal key does not count: it goes on to the lesser keys, or to the greater.
abbrev pub but_equal : Ordering → Bool → Ordering → Ordering
but_equal other equal lt = lt
but_equal other equal eq = if equal then eq else other
but_equal other equal gt = gt

unfoldable pub lesser_loop : (Bytes → Ordering) → Option Cell → Tree → Option Cell
lesser_loop cmp prev null = prev
lesser_loop cmp prev (branch l c r) = elim (cmp c.key) [
  | lt ↦ lesser_loop cmp prev l
  | eq ↦ some c
  | gt ↦ lesser_loop cmp (some c) r
]

unfoldable pub search_lesser_equal : (Bytes → Ordering) → Bool → Tree → Option Cell
unfolding lesser_loop
search_lesser_equal cmp equal t = lesser_loop (λ k. but_equal lt equal (cmp k)) none t

unfoldable pub greater_loop : (Bytes → Ordering) → Option Cell → Tree → Option Cell
greater_loop cmp prev null = prev
greater_loop cmp prev (branch l c r) = elim (cmp c.key) [
  | lt ↦ greater_loop cmp (some c) l
  | eq ↦ some c
  | gt ↦ greater_loop cmp prev r
]

unfoldable pub search_greater_equal : (Bytes → Ordering) → Bool → Tree → Option Cell
unfolding greater_loop
search_greater_equal cmp equal t = greater_loop (λ k. but_equal gt equal (cmp k)) none t

-- The loops of `vv_tree_min_f` and `vv_tree_max_f` without a linked list.
unfoldable pub min_loop : Tree → Option Cell
min_loop null = none
min_loop (branch null c r) = some c
min_loop (branch (branch ll lc lr) c r) = min_loop (branch ll lc lr)

unfoldable pub max_loop : Tree → Option Cell
max_loop null = none
max_loop (branch l c null) = some c
max_loop (branch l c (branch rl rc rr)) = max_loop (branch rl rc rr)

-- `vv_tree_bal`: how many nodes are out of balance.
unfoldable pub tree_bal : Tree → ℕ
tree_bal null = 0
tree_bal (branch l c r) =
    tree_bal l
    + tree_bal r
    + (if leb (height_of l) (height_of r + 1)
        then (if leb (height_of r) (height_of l + 1) then 0 else 1)
        else 1)
