-- ===== src/Tree/Steps.antt =====
-- One step of insertion and of deletion, for each result of the comparison.
use Prim.Native.Nat.Ordering.{lt, eq, gt}
use Prim.Native.Nat.{Ordering}
use vely.Base.{ℕ, ◌≡◌, ◌⊎◌, inl, inr, refl, false, if◌then◌else◌, Bytes, none}
use vely.Hash.{err_exist}
use vely.Tree.{
  Tree, Cell, branch, lesser, greater, is_null, tree_insert, grown, add_lesser, add_greater,
  tree_delete, delete_found, shrunk, missing,
}
use vely.Tree.Links.{Store}

pub Ordering-cases : (o : Ordering) → (o ≡ lt) ⊎ ((o ≡ eq) ⊎ (o ≡ gt))
Ordering-cases lt = inl refl
Ordering-cases eq = inr (inl refl)
Ordering-cases gt = inr (inr refl)

module _ (cmp : Bytes → Ordering) (key : Bytes) (value : ℕ) (st : Store) (l : Tree) (c : Cell)
    (r : Tree) where
  pub insert-lt :
      cmp c.key ≡ lt
      → tree_insert cmp key value st (branch l c r)
        ≡ grown lesser
            (is_null l)
            (branch l c r)
            (tree_insert cmp key value (add_lesser st c.node l) l)
  unfolding tree_insert
  insert-lt e = rw (tree_insert, e)

  pub insert-eq :
      cmp c.key ≡ eq
      → tree_insert cmp key value st (branch l c r)
        ≡ record { tree = branch l c r; up = false; store = st; current = none; status = err_exist }
  unfolding tree_insert
  insert-eq e = rw (tree_insert, e)

  pub insert-gt :
      cmp c.key ≡ gt
      → tree_insert cmp key value st (branch l c r)
        ≡ grown greater
            (is_null r)
            (branch l c r)
            (tree_insert cmp key value (add_greater st c.node r) r)
  unfolding tree_insert
  insert-gt e = rw (tree_insert, e)

module _ (cmp : Bytes → Ordering) (st : Store) (l : Tree) (c : Cell) (r : Tree) where
  pub delete-lt :
      cmp c.key ≡ lt
      → tree_delete cmp st (branch l c r) ≡ (
          if is_null l
          then missing st (branch l c r)
          else shrunk lesser (branch l c r) (tree_delete cmp st l))
  unfolding tree_delete
  delete-lt e = rw (tree_delete, e)

  pub delete-eq : cmp c.key ≡ eq → tree_delete cmp st (branch l c r) ≡ delete_found st l c r
  unfolding tree_delete
  delete-eq e = rw (tree_delete, e)

  pub delete-gt :
      cmp c.key ≡ gt
      → tree_delete cmp st (branch l c r) ≡ (
          if is_null r
          then missing st (branch l c r)
          else shrunk greater (branch l c r) (tree_delete cmp st r))
  unfolding tree_delete
  delete-gt e = rw (tree_delete, e)
