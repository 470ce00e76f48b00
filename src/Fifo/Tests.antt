-- ===== src/Fifo/Tests.antt =====
-- The concrete inputs for the theorems on the list of pairs: two pairs, one of which is retrieved.
use vely.Base.{◌≡◌, refl, [], ◌∷◌}
use vely.Fifo.{Item, Fifo, store_init, store, rewind}
use vely.Fifo.Order.{
  IsValid, contents, pending, rewind_lem, retrieve_all, store_all, retrieve_all-store_all,
  store_init-IsValid, store_all-pending,
}

abbrev first : Item
first = record { data_ptr = 32; name = 48 }

abbrev second : Item
second = record { data_ptr = 64; name = 80 }

abbrev two : Fifo
two = store_all store_init (first ∷ second ∷ [])

two-IsValid : IsValid two
two-IsValid = (store_all-pending store_init (first ∷ second ∷ []) store_init-IsValid).0

-- The second pair makes the array grow.
two-num_of : two.num_of ≡ 101
unfolding store_all store store_init
two-num_of = refl

rewind_lem_example :
    IsValid (rewind two)
    × (pending (rewind two) ≡ contents two)
    × (contents (rewind two) ≡ contents two)
rewind_lem_example = rewind_lem two two-IsValid

retrieve_all-store_all_example :
    (retrieve_all 2 two ≡ first ∷ second ∷ []) × (retrieve_all 2 (rewind two) ≡ first ∷ second ∷ [])
retrieve_all-store_all_example = retrieve_all-store_all (first ∷ second ∷ [])
