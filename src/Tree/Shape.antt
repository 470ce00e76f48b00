-- ===== src/Tree/Shape.antt =====
-- Insertion and deletion keep the tree balanced.
use Prim.Native.Nat.{max}
use Prim.Native.Nat.{Ordering}
use native.Mathlib.Nat.{max_comm}
use vely.Base.{
  ℕ, ◌+◌, ◌≤◌, ◌≡◌, refl, sym, ◌∙◌, ap, subst, Bool, true, arith, Bytes, dec_le, inl, inr,
  Bool-cases,
}
use vely.Tree.{
  Outcome, Removal, Tree, Cell, null, branch, lesser, greater, height_of, settle, tree_insert,
  grown, is_null, add_lesser, add_greater, tree_delete, delete_found, find_leaf_del, shrunk,
  missing,
}
use vely.Tree.Links.{Store}
use vely.Tree.Steps.{
  Ordering-cases, insert-lt, insert-eq, insert-gt, delete-lt, delete-eq, delete-gt,
}
use vely.Tree.Heights.{Near, IsAvl, IsAlmost, real, IsAvl→IsAlmost, real-IsAvl}
use vely.Tree.Settle.{settle-lesser, settle-greater}

-- A tree of height `h` has grown by one at most, or has lost one at most.
abbrev pub Grown : ℕ → Tree → Type 0
Grown h t = IsAlmost t × (h ≤ real t) × (real t ≤ h + 1)

abbrev pub Shrunk : ℕ → Tree → Type 0
Shrunk h t = IsAlmost t × (real t ≤ h) × (h ≤ real t + 1)

grows :
    (h k g x : ℕ)
    → Near h k
    → h ≤ g
    → g ≤ h + 1
    → max g k ≤ x
    → x ≤ max g k + 1
    → (Near g k → x ≡ max g k + 1)
    → (max h k + 1 ≤ x) × (x ≤ max h k + 1 + 1)
grows h k g x near low high below above keeps = elim (dec_le g (k + 1)) [
  | yes n ↦ let e = keeps (n, omega arith) in (omega arith, omega arith)
  | no n ↦ (omega arith, omega arith)
]

shrinks :
    (h k g x : ℕ)
    → Near h k
    → g ≤ h
    → h ≤ g + 1
    → max g k ≤ x
    → x ≤ max g k + 1
    → (Near g k → x ≡ max g k + 1)
    → (x ≤ max h k + 1) × (max h k + 1 ≤ x + 1)
shrinks h k g x near low high below above keeps = elim (dec_le k (g + 1)) [
  | yes n ↦ let e = keeps (omega arith, n) in (omega arith, omega arith)
  | no n ↦ (omega arith, omega arith)
]

grown-lesser :
    (l : Tree) (c : Cell) (r : Tree) (o : Outcome)
    → IsAlmost (branch l c r)
    → max (height_of l) (height_of r) ≤ 122
    → Grown (height_of l) o.tree
    → (is_null l ≡ true → IsAvl o.tree × (height_of o.tree ≡ 1))
    → Grown (real (branch l c r)) (grown lesser (is_null l) (branch l c r) o).tree
unfolding grown
grown-lesser null c r o (al, ar, near) small (at, low, high) leaf =
    let (a, h) = leaf refl in ((a, ar, (omega arith, omega arith)), omega arith, omega arith)
grown-lesser (branch ll lc lr) c r o (al, ar, near) small (at, low, high) leaf =
    let (almost, below, above, keeps) =
      settle-lesser (branch ll lc lr) c r o.tree o.up ar at (omega arith) (omega arith)
        (omega arith) in
    let t : Tree = (settle lesser (branch (branch ll lc lr) c r) (o.tree, o.up)).0 in
    let (more, less) =
      grows lc.height (height_of r) (real o.tree) (real t) near low high below above keeps in
    (almost, more, less)

grown-greater :
    (l : Tree) (c : Cell) (r : Tree) (o : Outcome)
    → IsAlmost (branch l c r)
    → max (height_of l) (height_of r) ≤ 122
    → Grown (height_of r) o.tree
    → (is_null r ≡ true → IsAvl o.tree × (height_of o.tree ≡ 1))
    → Grown (real (branch l c r)) (grown greater (is_null r) (branch l c r) o).tree
unfolding grown
grown-greater l c null o (al, ar, near) small (at, low, high) leaf =
    let (a, h) = leaf refl in ((al, a, (omega arith, omega arith)), omega arith, omega arith)
grown-greater l c (branch rl rc rr) o (al, ar, near) small (at, low, high) leaf =
    let (almost, below, above, keeps) =
      settle-greater l c (branch rl rc rr) o.tree o.up al at (omega arith) (omega arith)
        (omega arith) in
    let t : Tree = (settle greater (branch l c (branch rl rc rr)) (o.tree, o.up)).0 in
    let (more, less) =
      grows rc.height (height_of l) (real o.tree) (real t) (omega arith, omega arith) low high
        (omega arith) (omega arith)
        (λ near.
          keeps (omega arith, omega arith)
          ∙ ap (λ n. n + 1) (max_comm (height_of l) (real o.tree))) in
    (almost, omega arith, omega arith)

tree_insert-leaf :
    (cmp : Bytes → Ordering) (key : Bytes) (value : ℕ) (st : Store) (t : Tree)
    → is_null t ≡ true
    → IsAvl (tree_insert cmp key value st t).tree
      × (height_of (tree_insert cmp key value st t).tree ≡ 1)
unfolding tree_insert
tree_insert-leaf cmp key value st null e = ((tt, tt, (omega arith, omega arith), refl), refl)
tree_insert-leaf cmp key value st (branch l c r) e = absurd (cc)

pub tree_insert-Grown :
    (cmp : Bytes → Ordering) (key : Bytes) (value : ℕ) (st : Store) (t : Tree)
    → IsAlmost t
    → real t ≤ 123
    → Grown (real t) (tree_insert cmp key value st t).tree
unfolding tree_insert
tree_insert-Grown cmp key value st null a small =
    ((tt, tt, (omega arith, omega arith)), omega arith, omega arith)
tree_insert-Grown cmp key value st (branch l c r) (al, ar, near) small =
    let below =
      subst (λ h. Grown h (tree_insert cmp key value (add_lesser st c.node l) l).tree)
        (real-IsAvl l al)
        (tree_insert-Grown cmp key value (add_lesser st c.node l) l (IsAvl→IsAlmost l al)
          (omega (arith, real-IsAvl l al))) in
    let above =
      subst (λ h. Grown h (tree_insert cmp key value (add_greater st c.node r) r).tree)
        (real-IsAvl r ar)
        (tree_insert-Grown cmp key value (add_greater st c.node r) r (IsAvl→IsAlmost r ar)
          (omega (arith, real-IsAvl r ar))) in
    elim (Ordering-cases (cmp c.key)) [
      | inl e ↦
          subst (λ o. Grown (real (branch l c r)) o.tree) (sym (insert-lt cmp key value st l c r e))
            (grown-lesser l c r (tree_insert cmp key value (add_lesser st c.node l) l)
              (al, ar, near) (omega arith) below
              (tree_insert-leaf cmp key value (add_lesser st c.node l) l))
      | inr (inl e) ↦
          subst (λ o. Grown (real (branch l c r)) o.tree) (sym (insert-eq cmp key value st l c r e))
            ((al, ar, near), omega arith, omega arith)
      | inr (inr e) ↦
          subst (λ o. Grown (real (branch l c r)) o.tree) (sym (insert-gt cmp key value st l c r e))
            (grown-greater l c r (tree_insert cmp key value (add_greater st c.node r) r)
              (al, ar, near) (omega arith) above
              (tree_insert-leaf cmp key value (add_greater st c.node r) r))
    ]

lesser-Shrunk :
    (l : Tree) (c : Cell) (r : Tree) (t : Tree) (up : Bool)
    → IsAlmost (branch l c r)
    → max (height_of l) (height_of r) ≤ 122
    → Shrunk (height_of l) t
    → Shrunk (real (branch l c r)) (settle lesser (branch l c r) (t, up)).0
lesser-Shrunk l c r t up (al, ar, near) small (at, low, high) =
    let (almost, below, above, keeps) =
      settle-lesser l c r t up ar at (omega arith) (omega arith) (omega arith) in
    let s : Tree = (settle lesser (branch l c r) (t, up)).0 in
    let (more, less) =
      shrinks (height_of l) (height_of r) (real t) (real s) near low high below above keeps in
    (almost, more, less)

greater-Shrunk :
    (l : Tree) (c : Cell) (r : Tree) (t : Tree) (up : Bool)
    → IsAlmost (branch l c r)
    → max (height_of l) (height_of r) ≤ 122
    → Shrunk (height_of r) t
    → Shrunk (real (branch l c r)) (settle greater (branch l c r) (t, up)).0
greater-Shrunk l c r t up (al, ar, near) small (at, low, high) =
    let (almost, below, above, keeps) =
      settle-greater l c r t up al at (omega arith) (omega arith) (omega arith) in
    let s : Tree = (settle greater (branch l c r) (t, up)).0 in
    let (more, less) =
      shrinks (height_of r) (height_of l) (real t) (real s) (omega arith, omega arith) low high
        (omega arith) (omega arith)
        (λ near.
          keeps (omega arith, omega arith) ∙ ap (λ n. n + 1) (max_comm (height_of l) (real t))) in
    (almost, omega arith, omega arith)

find_leaf_del-Shrunk :
    (st : Store) (found : ℕ) (l : Tree) (c : Cell) (r : Tree)
    → IsAlmost (branch l c r)
    → max (height_of l) (height_of r) ≤ 122
    → Shrunk (real (branch l c r)) (find_leaf_del st found l c r).tree
unfolding find_leaf_del
find_leaf_del-Shrunk st found null c r (al, ar, near) small =
    let h = real-IsAvl r ar in (IsAvl→IsAlmost r ar, omega arith, omega arith)
find_leaf_del-Shrunk st found (branch ll lc lr) c r (al, ar, near) small =
    let (all, alr, near', h) = al in
    let o : Removal = find_leaf_del st found ll lc lr in
    lesser-Shrunk (branch ll lc lr) c r o.tree o.up (al, ar, near) small
      (subst (λ k. Shrunk k o.tree) (sym h)
        (find_leaf_del-Shrunk st found ll lc lr (all, alr, near') (omega arith)))

delete_found-Shrunk :
    (st : Store) (l : Tree) (c : Cell) (r : Tree)
    → IsAlmost (branch l c r)
    → max (height_of l) (height_of r) ≤ 122
    → Shrunk (real (branch l c r)) (delete_found st l c r).tree
unfolding delete_found
delete_found-Shrunk st l c null (al, ar, near) small =
    let h = real-IsAvl l al in (IsAvl→IsAlmost l al, omega arith, omega arith)
delete_found-Shrunk st l c (branch rl rc rr) (al, ar, near) small =
    let (arl, arr, near', h) = ar in
    let o : Removal = find_leaf_del st c.node rl rc rr in
    greater-Shrunk l (record c { key = o.rkey; value = o.res }) (branch rl rc rr) o.tree o.up
      (al, ar, near) small
      (subst (λ k. Shrunk k o.tree) (sym h)
        (find_leaf_del-Shrunk st c.node rl rc rr (arl, arr, near') (omega arith)))

missing_keeps : (st : Store) (t : Tree) → IsAlmost t → Shrunk (real t) (missing st t).tree
unfolding missing
missing_keeps st t a = (a, omega arith, omega arith)

pub tree_delete-Shrunk :
    (cmp : Bytes → Ordering) (st : Store) (t : Tree)
    → IsAlmost t
    → real t ≤ 123
    → Shrunk (real t) (tree_delete cmp st t).tree
unfolding shrunk
tree_delete-Shrunk cmp st null a small = unfold tree_delete in missing_keeps st null a
tree_delete-Shrunk cmp st (branch l c r) (al, ar, near) small =
    let below =
      subst (λ h. Shrunk h (tree_delete cmp st l).tree) (real-IsAvl l al)
        (tree_delete-Shrunk cmp st l (IsAvl→IsAlmost l al) (omega (arith, real-IsAvl l al))) in
    let above =
      subst (λ h. Shrunk h (tree_delete cmp st r).tree) (real-IsAvl r ar)
        (tree_delete-Shrunk cmp st r (IsAvl→IsAlmost r ar) (omega (arith, real-IsAvl r ar))) in
    elim (Ordering-cases (cmp c.key)) [
      | inl e ↦
          subst (λ o. Shrunk (real (branch l c r)) o.tree) (sym (delete-lt cmp st l c r e))
            (elim (Bool-cases (is_null l)) [
              | inl y ↦ rw y (missing_keeps st (branch l c r) (al, ar, near))
              | inr n ↦ rw n (
                  lesser-Shrunk l c r (tree_delete cmp st l).tree (tree_delete cmp st l).up
                    (al, ar, near) (omega arith) below)
            ])
      | inr (inl e) ↦
          subst (λ o. Shrunk (real (branch l c r)) o.tree) (sym (delete-eq cmp st l c r e))
            (delete_found-Shrunk st l c r (al, ar, near) (omega arith))
      | inr (inr e) ↦
          subst (λ o. Shrunk (real (branch l c r)) o.tree) (sym (delete-gt cmp st l c r e))
            (elim (Bool-cases (is_null r)) [
              | inl y ↦ rw y (missing_keeps st (branch l c r) (al, ar, near))
              | inr n ↦ rw n (
                  greater-Shrunk l c r (tree_delete cmp st r).tree (tree_delete cmp st r).up
                    (al, ar, near) (omega arith) above)
            ])
    ]
