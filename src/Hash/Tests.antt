-- ===== src/Hash/Tests.antt =====
-- Runs of the hash table, and instances of its theorems.
use mathlib.Core.List.{flatten}
use mathlib.Core.Option
use vely.Base.{
  ℕ, ◌+◌, ◌≤◌, ◌≡◌, refl, true, false, none, some, List, [], ◌∷◌, map, length, drop, All, Bytes,
  codes, same_text, strip,
}
use vely.Hash.{
  Hash, CStr, Entry, Reply, okay, err_exist, create_hash, delete_hash, add_hash, find_hash,
  resize_hash, rewind_hash, next_hash, compute_hash,
}
use vely.Hash.Fnv.{starts}
use vely.Hash.Chain.{has_key}
use vely.Hash.Place.{bucket, home}
use vely.Hash.Valid.{IsValid, create_hash_lem}
use vely.Hash.Find.{Finds, find_hash-list_prefix}
use vely.Hash.Add.{Writes, add_hash_lem}
use vely.Hash.Delete.{Removes, find_hash_delete}
use vely.Hash.Walk.{Yields, remaining, collect, pair_of, next_hash_lem, collect-rewind}
use vely.Hash.Resize.{Resized, resize_hash_lem, collect-resize_hash}
use vely.Hash.Search.{find_hash-flatten}
use vely.Hash.Chain.{count, find, steps}

abbrev empty : Hash
empty = create_hash 0 none false

abbrev color : CStr
color = record { address = 4096; text = codes "color" }

abbrev size_key : CStr
size_key = record { address = 8192; text = codes "size" }

abbrev one : Hash
one = (add_hash empty color none 11).hash

abbrev two : Hash
two = (add_hash one size_key none 22).hash

program : Unit {0}
unfolding create_hash add_hash find_hash resize_hash
program = tt

found_twice : (find_hash two (codes "color") none false).value ≡ 11
unfolding program
found_twice = refl

found_fragments : (find_hash two (codes "") (some (codes "si" ∷ codes "ze" ∷ [])) false).value ≡ 22
unfolding program
found_fragments = refl

replaced :
    (add_hash two (record { address = 5; text = codes "size" }) none 33).old_key ≡ some size_key
unfolding program
replaced = refl

deleted : (find_hash two (codes "size") none true).hash.tot ≡ 1
unfolding program
deleted = refl

empty-IsValid : IsValid empty
empty-IsValid = (create_hash_lem 0 false).0

one-IsValid : IsValid one
one-IsValid = (add_hash_lem empty color 11 empty-IsValid).valid

two-IsValid : IsValid two
two-IsValid = (add_hash_lem one size_key 22 one-IsValid).valid

add_hash_lem_example : Writes one size_key.text (size_key, 22) (add_hash one size_key none 22)
add_hash_lem_example = add_hash_lem one size_key 22 one-IsValid

find_hash_delete_example : Removes two (codes "size") (find_hash two (codes "size") none true)
find_hash_delete_example = find_hash_delete two (codes "size") two-IsValid

find_hash-flatten_example :
    Finds two
      (steps (has_key (codes "size")) (bucket two.table (home (codes "size") two.num_buckets)))
      (find (has_key (codes "size")) (flatten two.table))
      (find_hash two (codes "size") none false)
    × (count (has_key (codes "size")) (flatten two.table) ≤ 1)
    × (steps (has_key (codes "size")) (bucket two.table (home (codes "size") two.num_buckets))
        ≤ length (bucket two.table (home (codes "size") two.num_buckets)))
find_hash-flatten_example = find_hash-flatten two (codes "size") two-IsValid

next_hash_lem_example : Yields two (remaining two)
next_hash_lem_example = next_hash_lem two two-IsValid

collect-rewind_example :
    collect (two.tot + 1) (rewind_hash two) ≡ some (map pair_of (flatten two.table))
collect-rewind_example = collect-rewind two two-IsValid

resize_hash_lem_example : (r : Hash) × (resize_hash two 20 ≡ some r) × Resized two 20 r
resize_hash_lem_example = resize_hash_lem two 20 two-IsValid

collect-resize_hash_example :
    (r : Hash) × (resize_hash two 20 ≡ some r)
    × (collect (r.tot + 1) r ≡ some (map pair_of (flatten (drop 1 r.table))))
collect-resize_hash_example = collect-resize_hash two 20 two-IsValid

-- "k" stands in the first of ten buckets, and the traversal behind a resize to ten does not reach it.
abbrev letter : CStr
letter = record { address = 77; text = codes "k" }

abbrev lettered : Hash
lettered = (add_hash empty letter none 7).hash

skipped :
    (map pair_of (remaining (rewind_hash lettered)) ≡ (letter, 7) ∷ [])
    × (Option.map remaining (resize_hash lettered 10) ≡ some [])
unfolding program remaining vely.Hash.Walk.left_at vely.Hash.Walk.from_node flatten
skipped = (refl, refl)

-- "kj" shares the bucket of "k" among ten.
abbrev longer : CStr
longer = record { address = 78; text = codes "kj" }

abbrev collided : Hash
collided = (add_hash empty longer none 8).hash

abbrev longer_entry : Entry
longer_entry = record { node = 0; key = longer; value = 8 }

wrong_answer :
    ((find_hash collided (codes "k") (some (codes "k" ∷ [])) false).value ≡ 8)
    × ((find_hash collided (codes "k") none false).status ≡ err_exist)
unfolding program
wrong_answer = (refl, refl)

collided_bucket :
    bucket collided.table (home (flatten (codes "k" ∷ [])) collided.num_buckets) ≡ longer_entry ∷ []
unfolding program home flatten
collided_bucket = refl

find_hash-list_prefix_example :
    ((n : ℕ) × Finds collided n
        (some longer_entry)
        (find_hash collided [] (some (codes "k" ∷ [])) false))
    × (has_key (flatten (codes "k" ∷ [])) longer_entry ≡ false)
find_hash-list_prefix_example =
    find_hash-list_prefix collided [] (codes "k") [] longer_entry [] b'j' [] collided_bucket
      (unfold flatten in refl)

abbrev fragments : List Bytes
fragments = codes "si" ∷ codes "ze" ∷ []

abbrev whole_size : Bytes
whole_size = flatten fragments

size_alone :
    All
      (λ e. starts whole_size e.key.text ≡ has_key whole_size e)
      (bucket two.table (home whole_size two.num_buckets))
unfolding program home flatten strip same_text
size_alone = (refl, tt)
