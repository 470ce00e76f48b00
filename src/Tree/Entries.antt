-- ===== src/Tree/Entries.antt =====
-- A tree read from its lowest key to its highest. Rotations change nothing in it.
use vely.Base.{
  ℕ, ◌+◌, ◌≡◌, refl, sym, ◌∙◌, ap, Bool, true, List, [], ◌∷◌, ◌++◌, leb, ltb, Bytes, append_assoc,
  append-nil, Bool-cases, inl, inr,
}
use vely.Tree.{
  Tree, Cell, null, branch, lesser, greater, height_of, tree_height, child, hang, rotate_right,
  rotate_left, lean_left, lean_right, balance, settle, Removal, find_leaf_del, Outcome, grown,
  is_null, delete_found,
}
use vely.Tree.Links.{Store}
use vely.Tree.Settle.{hang-lesser, hang-greater, settle-hang_lesser, settle-hang_greater}
use vely.Tree.Spec.{Pair}

module _ {A : Type 0} (f : ℕ → Bytes → ℕ → A) where
  abbrev pub item : Cell → A
  item c = f c.node c.key c.value

  abbrev pub walk : Tree → List A
  walk null = []
  walk (branch l c r) = walk l ++ item c ∷ walk r

  walk-tree_height : (t : Tree) → walk (tree_height t) ≡ walk t
  unfolding tree_height
  walk-tree_height null = refl
  walk-tree_height (branch l c r) = refl

  walk-rotate_right : (t : Tree) → walk (rotate_right t) ≡ walk t
  unfolding rotate_right tree_height
  walk-rotate_right null = refl
  walk-rotate_right (branch null c r) = refl
  walk-rotate_right (branch (branch ll lc lg) c r) =
      sym (append_assoc (walk ll) (item lc ∷ walk lg) (item c ∷ walk r))

  walk-rotate_left : (t : Tree) → walk (rotate_left t) ≡ walk t
  unfolding rotate_left tree_height
  walk-rotate_left null = refl
  walk-rotate_left (branch l c null) = refl
  walk-rotate_left (branch l c (branch gl gc gg)) =
      append_assoc (walk l) (item c ∷ walk gl) (item gc ∷ walk gg)

  item-height : (c c' : Cell) → c' ≡ record c { height = c'.height } → item c' ≡ item c
  item-height c c' e = ap item e

  pub walk-hang_lesser :
      (l : Tree) (c : Cell) (r t : Tree) (up : Bool)
      → walk (hang lesser (branch l c r) (t, up)) ≡ walk t ++ item c ∷ walk r
  walk-hang_lesser l c r t up =
      let (c', s, e) = hang-lesser l c r t up in
      ap walk e ∙ ap (λ x. walk t ++ x ∷ walk r) (item-height c c' s)

  pub walk-hang_greater :
      (l : Tree) (c : Cell) (r t : Tree) (up : Bool)
      → walk (hang greater (branch l c r) (t, up)) ≡ walk l ++ item c ∷ walk t
  walk-hang_greater l c r t up =
      let (c', s, e) = hang-greater l c r t up in
      ap walk e ∙ ap (λ x. walk l ++ x ∷ walk t) (item-height c c' s)

  walk-lean_left : (t : Tree) → walk (lean_left t) ≡ walk t
  unfolding lean_left
  walk-lean_left null = refl
  walk-lean_left (branch l c r) =
      elim (Bool-cases (ltb (height_of (child lesser l)) (height_of (child greater l)))) [
        | inl y ↦ rw y (
            walk-hang_lesser l c r (rotate_left l) true
            ∙ ap (λ s. s ++ item c ∷ walk r) (walk-rotate_left l))
        | inr n ↦ rw n
      ]

  walk-lean_right : (t : Tree) → walk (lean_right t) ≡ walk t
  unfolding lean_right
  walk-lean_right null = refl
  walk-lean_right (branch l c r) =
      elim (Bool-cases (ltb (height_of (child greater r)) (height_of (child lesser r)))) [
        | inl y ↦ rw y (
            walk-hang_greater l c r (rotate_right r) true
            ∙ ap (λ s. walk l ++ item c ∷ s) (walk-rotate_right r))
        | inr n ↦ rw n
      ]

  pub walk-balance : (t : Tree) → walk (balance t).0 ≡ walk t
  unfolding balance
  walk-balance t =
      elim (Bool-cases (leb (height_of (child greater t) + 2) (height_of (child lesser t)))) [
        | inl y ↦ rw y (
            walk-rotate_right (lean_left (tree_height t))
            ∙ walk-lean_left (tree_height t)
            ∙ walk-tree_height t)
        | inr n ↦
            elim (Bool-cases (leb (height_of (child lesser t) + 2) (height_of (child greater t)))) [
              | inl y ↦
                  rw (n, y)
                    (walk-rotate_left (lean_right (tree_height t))
                      ∙ walk-lean_right (tree_height t)
                      ∙ walk-tree_height t)
              | inr n' ↦ rw (n, n') (walk-tree_height t)
            ]
      ]

  pub walk-settle_lesser :
      (l : Tree) (c : Cell) (r t : Tree) (up : Bool)
      → walk (settle lesser (branch l c r) (t, up)).0 ≡ walk t ++ item c ∷ walk r
  walk-settle_lesser l c r t up =
      let (c', s, e) = settle-hang_lesser l c r t up in
      ap (λ o. walk o.0) e
      ∙ walk-balance (branch (balance t).0 c' r)
      ∙ ap (λ x. walk (balance t).0 ++ x ∷ walk r) (item-height c c' s)
      ∙ ap (λ w. w ++ item c ∷ walk r) (walk-balance t)

  pub walk-settle_greater :
      (l : Tree) (c : Cell) (r t : Tree) (up : Bool)
      → walk (settle greater (branch l c r) (t, up)).0 ≡ walk l ++ item c ∷ walk t
  walk-settle_greater l c r t up =
      let (c', s, e) = settle-hang_greater l c r t up in
      ap (λ o. walk o.0) e
      ∙ walk-balance (branch l c' (balance t).0)
      ∙ ap (λ x. walk l ++ x ∷ walk (balance t).0) (item-height c c' s)
      ∙ ap (λ w. walk l ++ item c ∷ w) (walk-balance t)

abbrev pub entries : Tree → List Pair
entries = walk (λ n k v. (k, v))

abbrev pub nodes : Tree → List ℕ
nodes = walk (λ n k v. n)

pub entries-grown_lesser :
    (l : Tree) (c : Cell) (r : Tree) (o : Outcome)
    → entries (grown lesser (is_null l) (branch l c r) o).tree
      ≡ entries o.tree ++ (c.key, c.value) ∷ entries r
unfolding grown
entries-grown_lesser null c r o = refl
entries-grown_lesser (branch ll lc lr) c r o =
    walk-settle_lesser (λ n k v. (k, v)) (branch ll lc lr) c r o.tree o.up

pub entries-grown_greater :
    (l : Tree) (c : Cell) (r : Tree) (o : Outcome)
    → entries (grown greater (is_null r) (branch l c r) o).tree
      ≡ entries l ++ (c.key, c.value) ∷ entries o.tree
unfolding grown
entries-grown_greater l c null o = refl
entries-grown_greater l c (branch rl rc rr) o =
    walk-settle_greater (λ n k v. (k, v)) l c (branch rl rc rr) o.tree o.up

-- The pair that is handed up, before the rest, is what the tree was.
pub entries-find_leaf_del :
    (st : Store) (found : ℕ) (l : Tree) (c : Cell) (r : Tree)
    → (((find_leaf_del st found l c r).rkey, (find_leaf_del st found l c r).res)
        ∷ entries (find_leaf_del st found l c r).tree)
      ≡ entries (branch l c r)
unfolding find_leaf_del
entries-find_leaf_del st found null c r = refl
entries-find_leaf_del st found (branch ll lc lr) c r =
    let o : Removal = find_leaf_del st found ll lc lr in
    ap (λ s. (o.rkey, o.res) ∷ s)
      (walk-settle_lesser (λ n k v. (k, v)) (branch ll lc lr) c r o.tree o.up)
    ∙ ap (λ s. s ++ (c.key, c.value) ∷ entries r) (entries-find_leaf_del st found ll lc lr)

pub entries-delete_found :
    (st : Store) (l : Tree) (c : Cell) (r : Tree)
    → entries (delete_found st l c r).tree ≡ entries l ++ entries r
unfolding delete_found
entries-delete_found st l c null = sym (append-nil (entries l))
entries-delete_found st l c (branch rl rc rr) =
    let o : Removal = find_leaf_del st c.node rl rc rr in
    walk-settle_greater (λ n k v. (k, v)) l (record c { key = o.rkey; value = o.res })
      (branch rl rc rr) o.tree o.up
    ∙ ap (λ s. entries l ++ s) (entries-find_leaf_del st c.node rl rc rr)
