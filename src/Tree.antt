-- ===== src/Tree.antt =====
-- tree.c: the AVL tree. A node is a `Cell` with the number of its allocation for its address, and stands
-- between its two subtrees; `null` is NULL. The root node of an empty tree, which has no key, is
-- `null` too. What a routine does to the node at `parent_tree` and `dir` is what it returns: the tree
-- that then hangs there, and whether the height of the parent is computed again. `cmp` compares the
-- key of the cursor with a key of the tree.
pub mod Links
pub mod Search
pub mod Api
pub mod Frame
pub mod Steps
pub mod Heights
pub mod Settle
pub mod Shape
pub mod Spec
pub mod Nearest
pub mod Find
pub mod Entries
pub mod Keys
pub mod Refine
pub mod Size
pub mod Valid
pub mod Searches
pub mod Level
pub mod Tests
use Prim.Native.Nat.Ordering.{lt, eq, gt}
use Prim.Native.Nat.{Ordering}
use vely.Base.{
  ℕ, zero, suc, ◌+◌, ◌%◌, Bool, true, false, Option, none, some, [], leb, ltb, if◌then◌else◌, Bytes,
}
use vely.Hash.{Status, okay, err_exist}
use vely.Tree.Links.{
  Store, node_create, link_lesser, link_greater, place, unlink, take_place, uncount,
}

pub record Cell : Type 0 where
  pub node : ℕ
  pub key : Bytes
  pub value : ℕ
  pub height : ℕ

pub data Tree : Type 0 where
  null : Tree
  branch : Tree → Cell → Tree → Tree

-- VV_TREE_LESSER and VV_TREE_GREATER.
pub data Dir : Type 0 where
  lesser greater : Dir

abbrev pub is_null : Tree → Bool
is_null null = true
is_null (branch l c r) = false

abbrev pub height_of : Tree → ℕ
height_of null = 0
height_of (branch l c r) = c.height

-- A height has 7 bits.
abbrev pub next_height : ℕ → ℕ → ℕ
next_height left_height right_height =
    (if ltb right_height left_height then left_height + 1 else right_height + 1) % 128

unfoldable pub tree_height : Tree → Tree
tree_height null = null
tree_height (branch l c r) =
    branch l (record c { height = next_height (height_of l) (height_of r) }) r

abbrev pub child : Dir → Tree → Tree
child d null = null
child lesser (branch l c r) = l
child greater (branch l c r) = r

abbrev pub set_child : Dir → Tree → Tree → Tree
set_child d n null = null
set_child lesser n (branch l c r) = branch n c r
set_child greater n (branch l c r) = branch l c n

-- The parent after one of its subtrees was worked on.
unfoldable pub hang : Dir → Tree → Tree × Bool → Tree
unfolding tree_height
hang d parent (n, up) = if up then tree_height (set_child d n parent) else set_child d n parent

-- Without the child to rotate with, the code would read through NULL; `balance` never asks for that.
unfoldable pub rotate_right : Tree → Tree
unfolding tree_height
rotate_right (branch (branch ll lc lg) c g) = branch ll lc (tree_height (branch lg c g))
rotate_right t = t

unfoldable pub rotate_left : Tree → Tree
unfolding tree_height
rotate_left (branch l c (branch gl gc gg)) = branch (tree_height (branch l c gl)) gc gg
rotate_left t = t

-- The inner rotation of `balance`, where the wrong grandchild is the taller one.
unfoldable pub lean_left : Tree → Tree
unfolding rotate_left hang
lean_left t =
    let l = child lesser t in
    if ltb (height_of (child lesser l)) (height_of (child greater l))
    then hang lesser t (rotate_left l, true)
    else t

unfoldable pub lean_right : Tree → Tree
unfolding rotate_right hang
lean_right t =
    let g = child greater t in
    if ltb (height_of (child greater g)) (height_of (child lesser g))
    then hang greater t (rotate_right g, true)
    else t

-- The callers do not balance NULL. The height that the code computes once more after a rotation is
-- the one that the rotation has just computed.
unfoldable pub balance : Tree → Tree × Bool
unfolding tree_height lean_left lean_right rotate_right rotate_left
balance t =
    let left_height = height_of (child lesser t) in
    let right_height = height_of (child greater t) in
    if leb (right_height + 2) left_height
    then (rotate_right (lean_left (tree_height t)), true)
    else if leb (left_height + 2) right_height
    then (rotate_left (lean_right (tree_height t)), true)
    else (tree_height t, false)

-- A subtree was worked on: it is balanced, and then the node above it.
unfoldable pub settle : Dir → Tree → Tree × Bool → Tree × Bool
unfolding hang balance
settle d parent o =
    let parent' = hang d parent o in balance (hang d parent' (balance (child d parent')))

-- What an insertion leaves. `current` is `none` where the code does not set it.
pub record Outcome : Type 0 where
  pub tree : Tree
  pub up : Bool
  pub store : Store
  pub current : Option ℕ
  pub status : Status

-- The node that is created where the subtree is missing, and its place in the linked list.
unfoldable pub add_lesser : Store → ℕ → Tree → Store
unfolding node_create link_lesser
add_lesser st at t = if is_null t then link_lesser (node_create st) at st.fresh else st

unfoldable pub add_greater : Store → ℕ → Tree → Store
unfolding node_create link_greater
add_greater st at t = if is_null t then link_greater (node_create st) at st.fresh else st

-- A new leaf is not balanced.
unfoldable pub grown : Dir → Bool → Tree → Outcome → Outcome
unfolding settle
grown d is_new parent o =
    if is_new
    then record o { tree = set_child d o.tree parent; up = false }
    else let (t, up) = settle d parent (o.tree, o.up) in record o { tree = t; up = up }

unfoldable pub tree_insert : (Bytes → Ordering) → Bytes → ℕ → Store → Tree → Outcome
unfolding place add_lesser add_greater grown
tree_insert cmp key value st null = record {
  tree = branch null (record { node = st.fresh; key = key; value = value; height = 1 }) null;
  up = false;
  store = place st;
  current = some st.fresh;
  status = okay;
}
tree_insert cmp key value st (branch l c r) =
    let below = tree_insert cmp key value (add_lesser st c.node l) l in
    let above = tree_insert cmp key value (add_greater st c.node r) r in
    elim (cmp c.key) [
      | lt ↦ grown lesser (is_null l) (branch l c r) below
      | eq ↦ record {
        tree = branch l c r;
        up = false;
        store = st;
        current = none;
        status = err_exist;
      }
      | gt ↦ grown greater (is_null r) (branch l c r) above
    ]

-- What a deletion leaves, with the key and the data that it took out.
pub record Removal : Type 0 where
  pub tree : Tree
  pub up : Bool
  pub store : Store
  pub rkey : Bytes
  pub res : ℕ
  pub status : Status

-- The lowest node of a tree that is not NULL is taken out, and its key and data are handed to `found`.
unfoldable pub find_leaf_del : Store → ℕ → Tree → Cell → Tree → Removal
unfolding take_place settle
find_leaf_del st found null c r = record {
  tree = r;
  up = false;
  store = take_place st found c.node;
  rkey = c.key;
  res = c.value;
  status = okay;
}
find_leaf_del st found (branch ll lc lr) c r =
    let o = find_leaf_del st found ll lc lr in
    let (t, up) = settle lesser (branch (branch ll lc lr) c r) (o.tree, o.up) in
    record o { tree = t; up = up }

-- The node is found: it goes itself, or takes the key and data of the lowest node above it.
unfoldable pub delete_found : Store → Tree → Cell → Tree → Removal
unfolding unlink uncount find_leaf_del settle
delete_found st l c null = record {
  tree = l;
  up = false;
  store = uncount (unlink st c.node);
  rkey = c.key;
  res = c.value;
  status = okay;
}
delete_found st l c (branch rl rc rr) =
    let o = find_leaf_del st c.node rl rc rr in
    let (t, up) =
      settle greater (branch l (record c { key = o.rkey; value = o.res }) (branch rl rc rr))
        (o.tree, o.up) in
    record {
      tree = t;
      up = up;
      store = uncount o.store;
      rkey = c.key;
      res = c.value;
      status = okay;
    }

unfoldable pub missing : Store → Tree → Removal
missing st t = record { tree = t; up = false; store = st; rkey = []; res = 0; status = err_exist }

unfoldable pub shrunk : Dir → Tree → Removal → Removal
unfolding settle
shrunk d parent o = let (t, up) = settle d parent (o.tree, o.up) in record o { tree = t; up = up }

-- Where nothing is found the code sets neither key nor data.
unfoldable pub tree_delete : (Bytes → Ordering) → Store → Tree → Removal
unfolding delete_found missing shrunk
tree_delete cmp st null = missing st null
tree_delete cmp st (branch l c r) =
    let below = tree_delete cmp st l in
    let above = tree_delete cmp st r in
    elim (cmp c.key) [
      | lt ↦ if is_null l then missing st (branch l c r) else shrunk lesser (branch l c r) below
      | eq ↦ delete_found st l c r
      | gt ↦ if is_null r then missing st (branch l c r) else shrunk greater (branch l c r) above
    ]
