-- ===== src/Tree/Refine.antt =====
-- Insertion and deletion do to the tree what `put` and `take_out` do to the list that it stands for.
use Prim.Native.Nat.{Ordering}
use vely.Base.{
  ℕ, ◌+◌, ◌-◌, ◌≡◌, refl, sym, ◌∙◌, ap, subst, Bool, true, false, Option, none, some, List, [], ◌∷◌,
  ◌++◌, if◌then◌else◌, Bytes, inl, inr,
}
use vely.Hash.{Status, okay, err_exist}
use vely.Tree.{
  Tree, Cell, null, branch, Dir, lesser, greater, is_null, Outcome, Removal, tree_insert, grown,
  add_lesser, add_greater, tree_delete, delete_found, shrunk, missing, find_leaf_del,
}
use vely.Tree.Links.{Store, place, uncount}
use vely.Tree.Steps.{
  Ordering-cases, insert-lt, insert-eq, insert-gt, delete-lt, delete-eq, delete-gt,
}
use vely.Tree.Frame.{add_lesser-IsSame, add_greater-IsSame, unlink-IsSame, take_place-IsSame}
use vely.Tree.Entries.{
  entries, entries-grown_lesser, entries-grown_greater, entries-delete_found, walk-settle_lesser,
  walk-settle_greater,
}
use vely.Tree.Spec.{
  Pair, put, take_out, find, IsCut, put-above, put-equal, put-beyond, take_out-above,
  take_out-equal, take_out-beyond, find-above, find-equal, find-beyond, IsCut-left, IsCut-right,
  cut-below,
}

-- The status of an insertion, and how many nodes it adds.
abbrev pub put_status : Option Pair → Status
put_status none = okay
put_status (some x) = err_exist

abbrev pub added : Option Pair → ℕ → ℕ
added none n = n + 1
added (some x) n = n

pub record Inserts (cmp : Bytes → Ordering) (e : Pair) (st : Store) (es : List Pair) (o : Outcome)
    : Type 0 where
  pub entries_eq : entries o.tree ≡ put cmp e es
  pub status_eq : o.status ≡ put_status (find cmp es)
  pub count_eq : o.store.count ≡ added (find cmp es) st.count

add_lesser-count : (st : Store) (at : ℕ) (t : Tree) → (add_lesser st at t).count ≡ st.count
add_lesser-count st at t = (add_lesser-IsSame st at t).count

add_greater-count : (st : Store) (at : ℕ) (t : Tree) → (add_greater st at t).count ≡ st.count
add_greater-count st at t = (add_greater-IsSame st at t).count

grown-status :
    (d : Dir) (is_new : Bool) (t : Tree) (o : Outcome) → (grown d is_new t o).status ≡ o.status
unfolding grown
grown-status d true t o = refl
grown-status d false t o = refl

grown-count :
    (d : Dir) (is_new : Bool) (t : Tree) (o : Outcome)
    → (grown d is_new t o).store.count ≡ o.store.count
unfolding grown
grown-count d true t o = refl
grown-count d false t o = refl

module _ (cmp : Bytes → Ordering) (key : Bytes) (value : ℕ) where
  pub insert-Inserts :
      (st : Store) (t : Tree)
      → IsCut cmp (entries t)
      → Inserts cmp (key, value) st (entries t) (tree_insert cmp key value st t)
  insert-Inserts st null cut =
      unfold tree_insert in
      unfold place in record { entries_eq = refl; status_eq = refl; count_eq = refl }
  insert-Inserts st (branch l c r) cut =
      let x : Pair = (c.key, c.value) in
      elim (Ordering-cases (cmp c.key)) [
        | inl e ↦
            let k =
              insert-Inserts (add_lesser st c.node l) l
                (IsCut-left cmp (entries l) (x ∷ entries r) cut) in
            let o : Outcome = tree_insert cmp key value (add_lesser st c.node l) l in
            let f = find-above cmp x (entries l) (entries r) e in
            subst (Inserts cmp (key, value) st (entries (branch l c r)))
              (sym (insert-lt cmp key value st l c r e))
              (record {
                entries_eq =
                    entries-grown_lesser l c r o
                    ∙ ap (λ s. s ++ x ∷ entries r) k.entries_eq
                    ∙ sym (put-above cmp (key, value) x (entries l) (entries r) e);
                status_eq =
                    grown-status lesser (is_null l) (branch l c r) o
                    ∙ k.status_eq
                    ∙ ap put_status (sym f);
                count_eq =
                    grown-count lesser (is_null l) (branch l c r) o
                    ∙ k.count_eq
                    ∙ ap (added (find cmp (entries l))) (add_lesser-count st c.node l)
                    ∙ ap (λ p. added p st.count) (sym f);
              })
        | inr (inl e) ↦
            let b = cut-below cmp (entries l) x (entries r) cut (λ h. cc) in
            let f = find-equal cmp x (entries l) (entries r) b e in
            subst (Inserts cmp (key, value) st (entries (branch l c r)))
              (sym (insert-eq cmp key value st l c r e))
              (record {
                entries_eq = sym (put-equal cmp (key, value) x (entries l) (entries r) b e);
                status_eq = ap put_status (sym f);
                count_eq = ap (λ p. added p st.count) (sym f);
              })
        | inr (inr e) ↦
            let b = cut-below cmp (entries l) x (entries r) cut (λ h. cc) in
            let (above, cut') = IsCut-right cmp (entries l) (x ∷ entries r) cut in
            let k = insert-Inserts (add_greater st c.node r) r cut' in
            let o : Outcome = tree_insert cmp key value (add_greater st c.node r) r in
            let f = find-beyond cmp x (entries l) (entries r) b e in
            subst (Inserts cmp (key, value) st (entries (branch l c r)))
              (sym (insert-gt cmp key value st l c r e))
              (record {
                entries_eq =
                    entries-grown_greater l c r o
                    ∙ ap (λ s. entries l ++ x ∷ s) k.entries_eq
                    ∙ sym (put-beyond cmp (key, value) x (entries l) (entries r) b e);
                status_eq =
                    grown-status greater (is_null r) (branch l c r) o
                    ∙ k.status_eq
                    ∙ ap put_status (sym f);
                count_eq =
                    grown-count greater (is_null r) (branch l c r) o
                    ∙ k.count_eq
                    ∙ ap (added (find cmp (entries r))) (add_greater-count st c.node r)
                    ∙ ap (λ p. added p st.count) (sym f);
              })
      ]

-- The status of a deletion, what it hands out, and how many nodes it takes away.
abbrev pub take_status : Option Pair → Status
take_status none = err_exist
take_status (some x) = okay

abbrev pub taken : Option Pair → Pair
taken none = ([], 0)
taken (some x) = x

abbrev pub lessened : Option Pair → ℕ → ℕ
lessened none n = n
lessened (some x) n = n - 1

pub record Deletes (cmp : Bytes → Ordering) (st : Store) (es : List Pair) (o : Removal)
    : Type 0 where
  pub entries_eq : entries o.tree ≡ take_out cmp es
  pub status_eq : o.status ≡ take_status (find cmp es)
  pub taken_eq : ◌≡◌ {A = Pair} (o.rkey, o.res) (taken (find cmp es))
  pub count_eq : o.store.count ≡ lessened (find cmp es) st.count

find_leaf_del-facts :
    (st : Store) (found : ℕ) (l : Tree) (c : Cell) (r : Tree)
    → (find_leaf_del st found l c r).store.count ≡ st.count
unfolding find_leaf_del
find_leaf_del-facts st found null c r = (take_place-IsSame st found c.node).count
find_leaf_del-facts st found (branch ll lc lr) c r = find_leaf_del-facts st found ll lc lr

delete_found_facts :
    (st : Store) (l : Tree) (c : Cell) (r : Tree)
    → ((delete_found st l c r).status ≡ okay)
      × (◌≡◌ {A = Pair}
          ((delete_found st l c r).rkey, (delete_found st l c r).res)
          (c.key, c.value))
      × ((delete_found st l c r).store.count ≡ st.count - 1)
unfolding delete_found uncount
delete_found_facts st l c null = (refl, refl, ap (λ n. n - 1) (unlink-IsSame st c.node).count)
delete_found_facts st l c (branch rl rc rr) =
    (refl, refl, ap (λ n. n - 1) (find_leaf_del-facts st c.node rl rc rr))

module _ (cmp : Bytes → Ordering) (st : Store) where
  shrunk_lesser-Deletes :
      (l : Tree) (c : Cell) (r : Tree)
      → Deletes cmp st (entries l) (tree_delete cmp st l)
      → find cmp (entries (branch l c r)) ≡ find cmp (entries l)
      → take_out cmp (entries (branch l c r))
        ≡ take_out cmp (entries l) ++ (c.key, c.value) ∷ entries r
      → Deletes cmp st (entries (branch l c r)) (
          if is_null l
          then missing st (branch l c r)
          else shrunk lesser (branch l c r) (tree_delete cmp st l))
  unfolding missing shrunk
  shrunk_lesser-Deletes null c r k f t = record {
    entries_eq = sym t;
    status_eq = ap take_status (sym f);
    taken_eq = ap taken (sym f);
    count_eq = ap (λ p. lessened p st.count) (sym f);
  }
  shrunk_lesser-Deletes (branch ll lc lr) c r k f t =
      let o : Removal = tree_delete cmp st (branch ll lc lr) in
      record {
        entries_eq =
            walk-settle_lesser (λ n k v. (k, v)) (branch ll lc lr) c r o.tree o.up
            ∙ ap (λ s. s ++ (c.key, c.value) ∷ entries r) k.entries_eq
            ∙ sym t;
        status_eq = k.status_eq ∙ ap take_status (sym f);
        taken_eq = k.taken_eq ∙ ap taken (sym f);
        count_eq = k.count_eq ∙ ap (λ p. lessened p st.count) (sym f);
      }

  shrunk_greater-Deletes :
      (l : Tree) (c : Cell) (r : Tree)
      → Deletes cmp st (entries r) (tree_delete cmp st r)
      → find cmp (entries (branch l c r)) ≡ find cmp (entries r)
      → take_out cmp (entries (branch l c r))
        ≡ entries l ++ (c.key, c.value) ∷ take_out cmp (entries r)
      → Deletes cmp st (entries (branch l c r)) (
          if is_null r
          then missing st (branch l c r)
          else shrunk greater (branch l c r) (tree_delete cmp st r))
  unfolding missing shrunk
  shrunk_greater-Deletes l c null k f t = record {
    entries_eq = sym t;
    status_eq = ap take_status (sym f);
    taken_eq = ap taken (sym f);
    count_eq = ap (λ p. lessened p st.count) (sym f);
  }
  shrunk_greater-Deletes l c (branch rl rc rr) k f t =
      let o : Removal = tree_delete cmp st (branch rl rc rr) in
      record {
        entries_eq =
            walk-settle_greater (λ n k v. (k, v)) l c (branch rl rc rr) o.tree o.up
            ∙ ap (λ s. entries l ++ (c.key, c.value) ∷ s) k.entries_eq
            ∙ sym t;
        status_eq = k.status_eq ∙ ap take_status (sym f);
        taken_eq = k.taken_eq ∙ ap taken (sym f);
        count_eq = k.count_eq ∙ ap (λ p. lessened p st.count) (sym f);
      }

  found-Deletes :
      (l : Tree) (c : Cell) (r : Tree)
      → find cmp (entries (branch l c r)) ≡ some (c.key, c.value)
      → take_out cmp (entries (branch l c r)) ≡ entries l ++ entries r
      → Deletes cmp st (entries (branch l c r)) (delete_found st l c r)
  found-Deletes l c r f t =
      let (status, rest, count) = delete_found_facts st l c r in
      record {
        entries_eq = entries-delete_found st l c r ∙ sym t;
        status_eq = status ∙ ap take_status (sym f);
        taken_eq = rest ∙ ap taken (sym f);
        count_eq = count ∙ ap (λ p. lessened p st.count) (sym f);
      }

  pub delete-Deletes :
      (t : Tree) → IsCut cmp (entries t) → Deletes cmp st (entries t) (tree_delete cmp st t)
  delete-Deletes null cut =
      unfold tree_delete in
      unfold missing in
      record { entries_eq = refl; status_eq = refl; taken_eq = refl; count_eq = refl }
  delete-Deletes (branch l c r) cut =
      let x : Pair = (c.key, c.value) in
      elim (Ordering-cases (cmp c.key)) [
        | inl e ↦
            let k = delete-Deletes l (IsCut-left cmp (entries l) (x ∷ entries r) cut) in
            let f = find-above cmp x (entries l) (entries r) e in
            let t = take_out-above cmp x (entries l) (entries r) e in
            subst (Deletes cmp st (entries (branch l c r))) (sym (delete-lt cmp st l c r e))
              (shrunk_lesser-Deletes l c r k f t)
        | inr (inl e) ↦
            let b = cut-below cmp (entries l) x (entries r) cut (λ h. cc) in
            subst (Deletes cmp st (entries (branch l c r))) (sym (delete-eq cmp st l c r e)) (
              found-Deletes l c r (find-equal cmp x (entries l) (entries r) b e)
                (take_out-equal cmp x (entries l) (entries r) b e))
        | inr (inr e) ↦
            let b = cut-below cmp (entries l) x (entries r) cut (λ h. cc) in
            let (above, cut') = IsCut-right cmp (entries l) (x ∷ entries r) cut in
            let k = delete-Deletes r cut' in
            let f = find-beyond cmp x (entries l) (entries r) b e in
            let t = take_out-beyond cmp x (entries l) (entries r) b e in
            subst (Deletes cmp st (entries (branch l c r))) (sym (delete-gt cmp st l c r e))
              (shrunk_greater-Deletes l c r k f t)
      ]
