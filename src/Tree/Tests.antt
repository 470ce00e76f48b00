-- ===== src/Tree/Tests.antt =====
-- Runs of the tree, and the concrete inputs for its theorems: three keys that come in order, so that the
-- tree turns, in a tree with a linked list.
use Prim.Native.Nat.Ordering.{eq}
use vely.Base.{◌↔◌, ◌≡◌, refl, true, false, none, some, List, [], ◌∷◌, Bytes, codes, length, arith}
use vely.Tree.Search.{
  tree_search, search_lesser_equal, search_greater_equal, min_loop, max_loop, tree_bal,
}
use vely.Tree.Api.{Root, tree_create, insert_f, delete_f, type_str, type_num, tree_compare}
use vely.Tree.Spec.{Pair, put, take_out, find}
use vely.Tree.Entries.{entries}
use vely.Tree.Refine.{put_status, take_status, taken}
use vely.Tree.Find.{pair_of, first_of, last_of}
use vely.Tree.Keys.{IsKeyOrder, key_order, tree_compare_lem}
use vely.Tree.Valid.{IsValid, order_of, tree_create_lem, insert_f_lem, delete_f_lem}
use vely.Tree.Searches.{searches_lem, last_where, first_where, before_or_at, behind_or_at}
use vely.Tree.Level.{tree_bal_iff, valid-IsMeasured, IsLevel}

abbrev start : Root
start = tree_create none type_str true false

abbrev one : Root
one = (insert_f start (codes "a") none 16).0

abbrev two : Root
two = (insert_f one (codes "b") none 32).0

abbrev three : Root
three = (insert_f two (codes "c") none 48).0

start-IsValid : IsValid start
start-IsValid = (tree_create_lem none type_str true false tt).0

counts :
    (start.store.count ≡ 0)
    × (one.store.count ≡ 1)
    × (two.store.count ≡ 2)
    × (three.store.count ≡ 3)
unfolding tree_create insert_f
counts = (refl, refl, refl, refl)

one-IsValid : IsValid one
one-IsValid = (insert_f_lem start (codes "a") 16 start-IsValid (omega (arith, counts.0))).0

two-IsValid : IsValid two
two-IsValid = (insert_f_lem one (codes "b") 32 one-IsValid (omega (arith, counts.1))).0

three-IsValid : IsValid three
three-IsValid = (insert_f_lem two (codes "c") 48 two-IsValid (omega (arith, counts.2))).0

abbrev all_three : List Pair
all_three = (codes "a", 16) ∷ (codes "b", 32) ∷ (codes "c", 48) ∷ []

three_turns :
    (entries three.top ≡ all_three) × (three.store.min ≡ some 0) × (three.store.max ≡ some 2)
unfolding tree_create insert_f
three_turns = (refl, refl, refl)

insert_f_lem_example :
    IsValid (insert_f two (codes "c") none 48).0
    × (entries (insert_f two (codes "c") none 48).0.top
        ≡ put (order_of two (codes "c")) (codes "c", 48) (entries two.top))
    × ((insert_f two (codes "c") none 48).1.status
        ≡ put_status (find (order_of two (codes "c")) (entries two.top)))
insert_f_lem_example = insert_f_lem two (codes "c") 48 two-IsValid (omega (arith, counts.2))

delete_f_lem_example :
    IsValid (delete_f three (codes "b") none).0
    × (entries (delete_f three (codes "b") none).0.top
        ≡ take_out (order_of three (codes "b")) (entries three.top))
    × ((delete_f three (codes "b") none).1.status
        ≡ take_status (find (order_of three (codes "b")) (entries three.top)))
    × ◌≡◌ {A = Pair}
        ((delete_f three (codes "b") none).1.rkey, (delete_f three (codes "b") none).1.res)
        (taken (find (order_of three (codes "b")) (entries three.top)))
delete_f_lem_example = delete_f_lem three (codes "b") three-IsValid (omega (arith, counts.3))

searches_lem_example :
    (pair_of (tree_search (order_of three (codes "b")) three.top)
      ≡ find (order_of three (codes "b")) (entries three.top))
    × (pair_of (search_lesser_equal (order_of three (codes "b")) false three.top)
        ≡ last_where (λ y. before_or_at false (order_of three (codes "b") y.0)) (entries three.top))
    × (pair_of (search_greater_equal (order_of three (codes "b")) false three.top)
        ≡ first_where
            (λ y. behind_or_at false (order_of three (codes "b") y.0))
            (entries three.top))
    × (pair_of (min_loop three.top) ≡ first_of (entries three.top))
    × (pair_of (max_loop three.top) ≡ last_of (entries three.top))
searches_lem_example = searches_lem three (codes "b") false three-IsValid

tree_bal_iff_example : (tree_bal three.top ≡ 0) ↔ IsLevel three.top
tree_bal_iff_example = tree_bal_iff three.top (valid-IsMeasured three three-IsValid)

tree_compare_lem_example :
    ((a b : Bytes) → tree_compare type_num a (length a) b ≡ key_order type_num a b)
    × IsKeyOrder (λ a b. tree_compare type_num a (length a) b)
    × ((a b : Bytes) → tree_compare type_num a (length a) b ≡ eq → a ≡ b)
tree_compare_lem_example = tree_compare_lem type_num
