-- ===== src/Tree/Valid.antt =====
-- The tree that a program holds: what stays true of it, and what its operations do to the list of keys and
-- data that it stands for.
use Prim.Native.Nat.{Ordering}
use vely.Base.{
  ℕ, suc, ◌+◌, ◌-◌, ◌^◌, ◌≤◌, ◌<◌, ◌≡◌, refl, sym, ◌∙◌, ap, subst, Bool, Option, none, some, List,
  [], ◌∷◌, Bytes, length, arith, length-append, inl, inr, Option-cases,
}
use vely.Tree.{Tree, null, branch, tree_insert, tree_delete}
use vely.Tree.Links.{Store, node_create}
use vely.Tree.Api.{Root, KeyType, tree_eval, tree_create, insert_f, delete_f, with_root}
use vely.Tree.Steps.{Ordering-cases}
use vely.Tree.Heights.{IsAlmost, real}
use vely.Tree.Shape.{tree_insert-Grown, tree_delete-Shrunk}
use vely.Tree.Size.{size, real-le}
use vely.Tree.Entries.{entries}
use vely.Tree.Spec.{Pair, put, take_out, find}
use vely.Tree.Keys.{
  IsKeyOrder, IsSorted, sorted-IsCut, put-IsSorted, take_out-IsSorted, tree_compare_lem,
}
use vely.Tree.Refine.{
  put_status, added, take_status, taken, lessened, insert-Inserts, delete-Deletes, Inserts, Deletes,
}

abbrev pub order_of : Root → Bytes → Bytes → Ordering
order_of root a b = tree_eval root a none b

-- The comparison is an order and the keys stand in it, each once; siblings differ in height by one at most
-- and every height below the root is right; the counter counts.
pub record IsValid (root : Root) : Type 0 where
  pub order : IsKeyOrder (order_of root)
  pub sorted : IsSorted (order_of root) (entries root.top)
  pub shape : IsAlmost root.top
  pub counted : root.store.count ≡ length (entries root.top)

size-length : (t : Tree) → size t ≡ length (entries t)
size-length null = refl
size-length (branch l c r) =
    let e = length-append (entries l) ((c.key, c.value) ∷ entries r) in
    omega (arith, size-length l, size-length r, e)

suc-added : (o : Option Pair) (n : ℕ) → suc (added o n) ≡ added o (suc n)
suc-added none n = omega arith
suc-added (some x) n = refl

length-put :
    (cmp : Bytes → Ordering) (e : Pair) (es : List Pair)
    → length (put cmp e es) ≡ added (find cmp es) (length es)
length-put cmp e [] = omega arith
length-put cmp e (x ∷ es) = elim (Ordering-cases (cmp x.0)) [
  | inl q ↦ rw (put, find, q) (omega arith)
  | inr (inl q) ↦ rw (put, find, q) refl
  | inr (inr q) ↦
      rw (put, find, q) (ap suc (length-put cmp e es) ∙ suc-added (find cmp es) (length es))
]

found-length :
    (cmp : Bytes → Ordering) (es : List Pair) (x : Pair) → find cmp es ≡ some x → 0 < length es
found-length cmp [] x h = absurd (cc)
found-length cmp (y ∷ es) x h = omega arith

length-take_out :
    (cmp : Bytes → Ordering) (es : List Pair)
    → length (take_out cmp es) ≡ lessened (find cmp es) (length es)
length-take_out cmp [] = refl
length-take_out cmp (x ∷ es) = elim (Ordering-cases (cmp x.0)) [
  | inl q ↦ rw (take_out, find, q) refl
  | inr (inl q) ↦ rw (take_out, find, q) (omega arith)
  | inr (inr q) ↦
      rw (take_out, find, q)
        (elim (Option-cases (find cmp es)) [
          | inl e ↦ ap suc (length-take_out cmp es ∙ ap (λ o. lessened o (length es)) e) ∙ rw e refl
          | inr (y, e) ↦
              let some_left = found-length cmp es y e in
              let t : length (take_out cmp es) ≡ length es - 1 =
                length-take_out cmp es ∙ ap (λ o. lessened o (length es)) e in
              rw e (omega arith)
        ])
]

-- A comparison that a program brings along has to be an order.
abbrev pub IsLawful : Option (Bytes → Bytes → Ordering) → Type 0
IsLawful none = Unit
IsLawful (some f) = IsKeyOrder f

-- A new tree is valid and empty, in each of the library's two orders, and in each order that a program
-- brings along.
pub tree_create_lem :
    (ef : Option (Bytes → Bytes → Ordering)) (t : KeyType) (sorted process : Bool)
    → IsLawful ef
    → IsValid (tree_create ef t sorted process)
      × ◌≡◌ {A = List Pair} (entries (tree_create ef t sorted process).top) []
unfolding tree_create tree_eval
tree_create_lem none t sorted process h =
    (record { order = (tree_compare_lem t).1; sorted = tt; shape = tt; counted = refl }, refl)
tree_create_lem (some f) t sorted process h =
    (record { order = h; sorted = tt; shape = tt; counted = refl }, refl)

with_root-count : (t : Tree) (st : Store) → (with_root t st).count ≡ st.count
unfolding with_root node_create
with_root-count null st = refl
with_root-count (branch l c r) st = refl

shape-small : (root : Root) → IsValid root → root.store.count + 1 < 2 ^ 61 → real root.top ≤ 123
shape-small root v small =
    let fits : size root.top + 1 < 2 ^ 61 = omega (arith, v.counted, size-length root.top) in
    let h = real-le root.top v.shape fits in omega arith

-- Inserting into a valid tree of less than 2 ^ 61 - 1 keys keeps it valid, with that balance. The pair
-- is put in at its place in the order of the keys, unless its key is there: then the list is as it
-- was, and the status is VV_ERR_EXIST.
pub insert_f_lem :
    (root : Root) (key : Bytes) (value : ℕ)
    → IsValid root
    → root.store.count + 1 < 2 ^ 61
    → IsValid (insert_f root key none value).0
      × (entries (insert_f root key none value).0.top
          ≡ put (order_of root key) (key, value) (entries root.top))
      × ((insert_f root key none value).1.status
          ≡ put_status (find (order_of root key) (entries root.top)))
unfolding insert_f tree_eval
insert_f_lem root key value v small =
    let cmp = order_of root key in
    let cut = sorted-IsCut (order_of root) v.order key (entries root.top) v.sorted in
    let st : Store = with_root root.top root.store in
    let k : Inserts cmp (key, value) st (entries root.top) (tree_insert cmp key value st root.top) =
      insert-Inserts cmp key value st root.top cut in
    let g = tree_insert-Grown cmp key value st root.top v.shape (shape-small root v small) in
    (
      record {
        order = v.order;
        sorted =
            subst (IsSorted (order_of root)) (sym k.entries_eq)
              (put-IsSorted (order_of root) v.order (key, value) (entries root.top) v.sorted);
        shape = g.0;
        counted =
            k.count_eq
            ∙ ap (added (find cmp (entries root.top)))
                (with_root-count root.top root.store ∙ v.counted)
            ∙ sym (length-put cmp (key, value) (entries root.top))
            ∙ sym (ap length k.entries_eq);
      },
      k.entries_eq,
      k.status_eq,
    )

-- Deleting from a valid tree of less than 2 ^ 61 - 1 keys keeps it valid. The pair of the key is taken
-- out of the list and handed over, and all others stay; where there is none the list is as it was, and
-- the status is VV_ERR_EXIST.
pub delete_f_lem :
    (root : Root) (key : Bytes)
    → IsValid root
    → root.store.count + 1 < 2 ^ 61
    → IsValid (delete_f root key none).0
      × (entries (delete_f root key none).0.top ≡ take_out (order_of root key) (entries root.top))
      × ((delete_f root key none).1.status
          ≡ take_status (find (order_of root key) (entries root.top)))
      × ◌≡◌ {A = Pair}
          ((delete_f root key none).1.rkey, (delete_f root key none).1.res)
          (taken (find (order_of root key) (entries root.top)))
unfolding delete_f tree_eval
delete_f_lem root key v small =
    let cmp = order_of root key in
    let cut = sorted-IsCut (order_of root) v.order key (entries root.top) v.sorted in
    let k : Deletes cmp root.store (entries root.top) (tree_delete cmp root.store root.top) =
      delete-Deletes cmp root.store root.top cut in
    let g = tree_delete-Shrunk cmp root.store root.top v.shape (shape-small root v small) in
    (
      record {
        order = v.order;
        sorted =
            subst (IsSorted (order_of root)) (sym k.entries_eq)
              (take_out-IsSorted (order_of root) v.order cmp (entries root.top) v.sorted);
        shape = g.0;
        counted =
            k.count_eq
            ∙ ap (lessened (find cmp (entries root.top))) v.counted
            ∙ sym (length-take_out cmp (entries root.top))
            ∙ sym (ap length k.entries_eq);
      },
      k.entries_eq,
      k.status_eq,
      k.taken_eq,
    )
