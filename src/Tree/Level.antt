-- ===== src/Tree/Level.antt =====
-- The check of the balance, `vv_tree_bal`, and what it says of the shape of a tree.
use Prim.Native.Nat.{max}
use vely.Base.{ℕ, ◌+◌, ◌≤◌, ◌≡◌, refl, true, ◌↔◌, arith, leb}
use vely.Tree.{Tree, null, branch, height_of}
use vely.Tree.Api.{Root}
use vely.Tree.Search.{tree_bal}
use vely.Tree.Heights.{IsAvl, IsAlmost}
use vely.Tree.Valid.{IsValid}

-- How tall a tree is, by its shape alone.
abbrev pub tall : Tree → ℕ
tall null = 0
tall (branch l c r) = max (tall l) (tall r) + 1

-- The heights that the nodes below the root hold are right.
abbrev pub IsMeasured : Tree → Type 0
IsMeasured null = Unit
IsMeasured (branch l c r) =
    IsMeasured l × IsMeasured r × (height_of l ≡ tall l) × (height_of r ≡ tall r)

-- At each node, the two sides differ by one at most.
abbrev pub IsLevel : Tree → Type 0
IsLevel null = Unit
IsLevel (branch l c r) = IsLevel l × IsLevel r × (tall l ≤ tall r + 1) × (tall r ≤ tall l + 1)

level-tree_bal : (t : Tree) → IsMeasured t → IsLevel t → tree_bal t ≡ 0
unfolding tree_bal
level-tree_bal null m h = refl
level-tree_bal (branch l c r) (ml, mr, el, er) (hl, hr, low, high) =
    let below : leb (height_of l) (height_of r + 1) ≡ true = ground (arith, low, el, er) in
    let above : leb (height_of r) (height_of l + 1) ≡ true = ground (arith, high, el, er) in
    rw (level-tree_bal l ml hl, level-tree_bal r mr hr, below, above)

tree_bal-IsLevel : (t : Tree) → IsMeasured t → tree_bal t ≡ 0 → IsLevel t
unfolding tree_bal
tree_bal-IsLevel null m h = tt
tree_bal-IsLevel (branch l c r) (ml, mr, el, er) h =
    let zl : tree_bal l ≡ 0 = omega (arith, h) in
    let zr : tree_bal r ≡ 0 = omega (arith, h) in
    (
      tree_bal-IsLevel l ml zl,
      tree_bal-IsLevel r mr zr,
      ground (arith, h, el, er),
      ground (arith, h, el, er),
    )

avl-IsMeasured : (t : Tree) → IsAvl t → IsMeasured t × (height_of t ≡ tall t)
avl-IsMeasured null a = (tt, refl)
avl-IsMeasured (branch l c r) (al, ar, near, h) =
    let (ml, el) = avl-IsMeasured l al in
    let (mr, er) = avl-IsMeasured r ar in ((ml, mr, el, er), omega (arith, h, el, er))

pub valid-IsMeasured : (root : Root) → IsValid root → IsMeasured root.top
valid-IsMeasured root v = almost root.top v.shape
  where
    almost : (t : Tree) → IsAlmost t → IsMeasured t
    almost null a = tt
    almost (branch l c r) (al, ar, near) =
        let (ml, el) = avl-IsMeasured l al in let (mr, er) = avl-IsMeasured r ar in (ml, mr, el, er)

-- Where the nodes below the root hold the heights of their trees, the library's own check finds no node
-- out of balance exactly if at each node the two sides differ in height by one at most.
pub tree_bal_iff : (t : Tree) → IsMeasured t → (tree_bal t ≡ 0) ↔ IsLevel t
tree_bal_iff t m = (tree_bal-IsLevel t m, level-tree_bal t m)
