-- ===== src/Tree/Api.antt =====
-- tree.c: the comparison of keys, and the routines that a program calls. A cursor is what a call leaves
-- in it; a field that the call does not set is `none`, or empty.
use Prim.Native.Nat.Ordering.{lt, eq, gt}
use Prim.Native.Nat.{Ordering, compare}
use vely.Base.{
  ℕ, zero, suc, Bool, not, ◌&&◌, Option, none, some, List, [], ◌∷◌, ◌++◌, ltb, ◌==◌, if◌then◌else◌,
  Bytes, length,
}
use vely.Hash.{Status, okay, err_exist, Flags, CStr}
use vely.Memory.{Result, ok, report}
use vely.Tree.{Tree, Cell, null, branch, tree_insert, tree_delete}
use vely.Tree.Links.{Store, unlinked, node_create}
use vely.Tree.Search.{tree_search, search_lesser_equal, search_greater_equal, min_loop, max_loop}

-- VV_TREE_TYPE_STR and VV_TREE_TYPE_NUM.
pub data KeyType : Type 0 where
  type_str type_num : KeyType

-- `eval` is a comparison of the program, which is given the key of the cursor here; `none` is NULL.
pub record Root : Type 0 where
  pub top : Tree
  pub store : Store
  pub eval : Option (Bytes → Bytes → Ordering)
  pub key_type : KeyType
  pub process : Bool

pub record Cursor : Type 0 where
  pub current : Option ℕ
  pub status : Status
  pub rkey : Bytes
  pub res : ℕ

-- `strncmp`, on strings that are shorter than `n` too.
unfoldable pub strncmp : Bytes → Bytes → ℕ → Ordering
strncmp s t zero = eq
strncmp [] [] (suc n) = eq
strncmp [] (y ∷ t) (suc n) = lt
strncmp (x ∷ s) [] (suc n) = gt
strncmp (x ∷ s) (y ∷ t) (suc n) = elim (compare x y) [ lt ↦ lt | eq ↦ strncmp s t n | gt ↦ gt ]

-- `k1` and `key_len` are the key of the cursor.
unfoldable pub tree_compare : KeyType → Bytes → ℕ → Bytes → Ordering
unfolding strncmp
tree_compare type_num k1 key_len k2 =
    let l2 = length k2 in
    if ltb key_len l2 then lt else if ltb l2 key_len then gt else strncmp k1 k2 key_len
tree_compare type_str k1 key_len k2 = elim (strncmp k1 k2 key_len) [
  | lt ↦ lt
  | eq ↦ if ltb key_len (length k2) then lt else eq
  | gt ↦ gt
]

-- VV_TREE_EVAL. A length of -1 is `none`.
unfoldable pub tree_eval : Root → Bytes → Option ℕ → Bytes → Ordering
unfolding tree_compare
tree_eval root key key_len k2 = elim root.eval [
  | some ef ↦ ef key k2
  | none ↦ elim key_len [
    | none ↦ tree_compare root.key_type key (length key) k2
    | some n ↦ tree_compare root.key_type key n k2
  ]
]

unfoldable pub tree_create : Option (Bytes → Bytes → Ordering) → KeyType → Bool → Bool → Root
tree_create ef key_type sorted process = record {
  top = null;
  store = record {
    dlist = λ n. unlinked;
    min = none;
    max = none;
    count = 0;
    sorted = sorted;
    fresh = 0;
  };
  eval = ef;
  key_type = key_type;
  process = process;
}

-- The error page is for a tree that is not empty.
unfoldable pub purge_f : Root → Result (Unit {0})
purge_f root = if root.store.count == 0 then ok tt else report

-- What a search leaves in the cursor.
unfoldable pub at_cell : Option Cell → Cursor
at_cell none = record { current = none; status = err_exist; rkey = []; res = 0 }
at_cell (some c) = record { current = some c.node; status = okay; rkey = []; res = 0 }

unfoldable pub search_f : Root → Bytes → Option ℕ → Cursor
unfolding at_cell tree_search tree_eval
search_f root key key_len = at_cell (tree_search (tree_eval root key key_len) root.top)

unfoldable pub search_lesser_equal_f : Root → Bool → Bytes → Option ℕ → Cursor
unfolding at_cell search_lesser_equal tree_eval
search_lesser_equal_f root equal key key_len =
    at_cell (search_lesser_equal (tree_eval root key key_len) equal root.top)

unfoldable pub search_greater_equal_f : Root → Bool → Bytes → Option ℕ → Cursor
unfolding at_cell search_greater_equal tree_eval
search_greater_equal_f root equal key key_len =
    at_cell (search_greater_equal (tree_eval root key key_len) equal root.top)

-- The node at an end: from the linked list where there is one, and by going down where there is none.
unfoldable pub end_cursor : Root → Option ℕ → Option Cell → Cursor
unfolding at_cell
end_cursor root listed found =
    if root.store.count == 0
    then at_cell none
    else if root.store.sorted
    then record { current = listed; status = okay; rkey = []; res = 0 }
    else at_cell found

unfoldable pub min_f : Root → Cursor
unfolding end_cursor min_loop
min_f root = end_cursor root root.store.min (min_loop root.top)

unfoldable pub max_f : Root → Cursor
unfolding end_cursor max_loop
max_f root = end_cursor root root.store.max (max_loop root.top)

unfoldable pub delete_f : Root → Bytes → Option ℕ → Root × Cursor
unfolding tree_delete tree_eval
delete_f root key key_len =
    let o = tree_delete (tree_eval root key key_len) root.store root.top in
    (
      record root { top = o.tree; store = o.store },
      record { current = none; status = o.status; rkey = o.rkey; res = o.res },
    )

-- The root node of an empty tree was created with the tree, or with the last deletion.
unfoldable pub with_root : Tree → Store → Store
unfolding node_create
with_root null st = node_create st
with_root (branch l c r) st = st

unfoldable pub insert_f : Root → Bytes → Option ℕ → ℕ → Root × Cursor
unfolding tree_insert tree_eval with_root
insert_f root key key_len value =
    let o =
      tree_insert (tree_eval root key key_len) key value (with_root root.top root.store) root.top in
    (
      record root { top = o.tree; store = o.store },
      record { current = o.current; status = o.status; rkey = []; res = 0 },
    )

-- The calls of `_vely_mem_set_process` that `vv_tree_insert_f` makes before it inserts.
unfoldable pub insert_f_marks : Flags → Root → CStr → ℕ → List ℕ
insert_f_marks f root key value =
    (if root.process && not f.process_key then key.address ∷ [] else [])
    ++ (if root.process && not f.process_data then value ∷ [] else [])
