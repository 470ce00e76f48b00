-- ===== src/Fifo.antt =====
-- velyrtc.c: the list of name and value pairs that are stored and retrieved in order. A pointer is its
-- address, and 0 is NULL. `items` is the array `item`, of length `num_of`.
pub mod Order
pub mod Tests
use vely.Base.{
  ℕ, zero, suc, ◌+◌, ◌-◌, Bool, true, false, Option, none, some, List, [], ◌∷◌, ◌++◌, leb,
  if◌then◌else◌, get_or, set, replicate,
}

pub record Item : Type 0 where
  pub data_ptr : ℕ
  pub name : ℕ

pub record Fifo : Type 0 where
  pub items : List Item
  pub num_of : ℕ
  pub store_ptr : ℕ
  pub retrieve_ptr : ℕ

abbrev pub null_item : Item
null_item = record { data_ptr = 0; name = 0 }

abbrev pub fifo_add : ℕ
fifo_add = 100

unfoldable pub store_init : Fifo
store_init = record { items = replicate 1 null_item; num_of = 1; store_ptr = 0; retrieve_ptr = 0 }

unfoldable pub make_room : Fifo → Fifo
make_room f =
    if leb f.num_of f.store_ptr
    then record f { items = f.items ++ replicate fifo_add null_item; num_of = f.num_of + fifo_add }
    else f

unfoldable pub store : Fifo → Item → Fifo
unfolding make_room
store f v =
    let f' = make_room f in
    record f' { items = set f'.items f'.store_ptr v; store_ptr = f'.store_ptr + 1 }

unfoldable pub retrieve : Fifo → Fifo × Item
retrieve f =
    if leb f.store_ptr f.retrieve_ptr
    then (f, null_item)
    else (record f { retrieve_ptr = f.retrieve_ptr + 1 }, get_or f.items f.retrieve_ptr null_item)

unfoldable pub rewind : Fifo → Fifo
rewind f = record f { retrieve_ptr = 0 }

-- `none` is a structure that is freed.
unfoldable pub purge : Fifo → Bool → Option Fifo
unfolding store_init
purge f recreate = if recreate then some store_init else none
