-- ===== src/Fifo/Order.antt =====
-- The list against a queue that keeps what was retrieved.
use vely.Base.{
  ℕ, zero, suc, ◌+◌, ◌≤◌, ◌<◌, ◌≡◌, ◌⊎◌, refl, sym, ◌∙◌, ap, subst, true, false, List, [], ◌∷◌,
  ◌++◌, leb, if◌then◌else◌, get_or, set, replicate, length, take, drop, length-append, length-set,
  length-replicate, arith, Bool-cases, inl, inr, append-nil, append_assoc,
}
use vely.Fifo.{Item, Fifo, null_item, fifo_add, store_init, make_room, store, retrieve, rewind}

-- The array has its length, and the two positions stand in it.
pub record IsValid (f : Fifo) : Type 0 where
  pub sized : length f.items ≡ f.num_of
  pub stored : f.store_ptr ≤ f.num_of
  pub retrieved : f.retrieve_ptr ≤ f.store_ptr

-- All that was stored, and what is still to be retrieved.
unfoldable pub contents : Fifo → List Item
contents f = take f.store_ptr f.items

unfoldable pub pending : Fifo → List Item
unfolding contents
pending f = drop f.retrieve_ptr (contents f)

take-append_le : (n : ℕ) (xs ys : List Item) → n ≤ length xs → take n (xs ++ ys) ≡ take n xs
take-append_le zero xs ys h = refl
take-append_le (suc n) [] ys h = absurd (omega arith)
take-append_le (suc n) (x ∷ xs) ys h = ap (λ l. x ∷ l) (take-append_le n xs ys (omega arith))

take-set :
    (n : ℕ) (xs : List Item) (v : Item)
    → n < length xs
    → take (suc n) (set xs n v) ≡ take n xs ++ v ∷ []
take-set zero [] v h = absurd (omega arith)
take-set zero (x ∷ xs) v h = refl
take-set (suc n) [] v h = absurd (omega arith)
take-set (suc n) (x ∷ xs) v h = ap (λ l. x ∷ l) (take-set n xs v (omega arith))

take-set_plus :
    (n : ℕ) (xs : List Item) (v : Item)
    → n < length xs
    → take (n + 1) (set xs n v) ≡ take n xs ++ v ∷ []
take-set_plus n xs v h =
    let e : n + 1 ≡ suc n = omega arith in ap (λ k. take k (set xs n v)) e ∙ take-set n xs v h

drop-append_le : (n : ℕ) (xs ys : List Item) → n ≤ length xs → drop n (xs ++ ys) ≡ drop n xs ++ ys
drop-append_le zero xs ys h = refl
drop-append_le (suc n) [] ys h = absurd (omega arith)
drop-append_le (suc n) (x ∷ xs) ys h = drop-append_le n xs ys (omega arith)

drop-take_next :
    (i n : ℕ) (xs : List Item)
    → i < n
    → n ≤ length xs
    → drop i (take n xs) ≡ get_or xs i null_item ∷ drop (suc i) (take n xs)
drop-take_next i zero xs h k = absurd (omega arith)
drop-take_next i (suc n) [] h k = absurd (omega arith)
drop-take_next zero (suc n) (x ∷ xs) h k = refl
drop-take_next (suc i) (suc n) (x ∷ xs) h k = drop-take_next i n xs (omega arith) (omega arith)

drop-take_end : (n : ℕ) (xs : List Item) → drop n (take n xs) ≡ []
drop-take_end zero xs = refl
drop-take_end (suc n) [] = refl
drop-take_end (suc n) (x ∷ xs) = drop-take_end n xs

length-take : (n : ℕ) (xs : List Item) → n ≤ length xs → length (take n xs) ≡ n
length-take zero xs h = refl
length-take (suc n) [] h = absurd (omega arith)
length-take (suc n) (x ∷ xs) h = ap suc (length-take n xs (omega arith))

take-get : (f : Fifo) → IsValid f → length (contents f) ≡ f.store_ptr
unfolding contents
take-get f v = length-take f.store_ptr f.items (omega (arith, v.sized, v.stored))

-- Growing the array keeps what is in it, and makes it longer than the position to store at.
record Grows (f f' : Fifo) : Type 0 where
  sized : length f'.items ≡ f'.num_of
  room : f.store_ptr < f'.num_of
  same_store : f'.store_ptr ≡ f.store_ptr
  same_retrieve : f'.retrieve_ptr ≡ f.retrieve_ptr
  kept : take f.store_ptr f'.items ≡ take f.store_ptr f.items

abbrev grown : Fifo → Fifo
grown f = record f { items = f.items ++ replicate fifo_add null_item; num_of = f.num_of + fifo_add }

grown-Grows : (f : Fifo) → IsValid f → Grows f (grown f)
grown-Grows f v = record {
  sized = omega (
    arith,
    length-append f.items (replicate fifo_add null_item),
    length-replicate fifo_add null_item,
    v.sized,
  );
  room = omega (arith, v.stored);
  same_store = refl;
  same_retrieve = refl;
  kept =
      take-append_le f.store_ptr f.items (replicate fifo_add null_item)
        (omega (arith, v.sized, v.stored));
}

make_room-Grows : (f : Fifo) → IsValid f → Grows f (make_room f)
unfolding make_room
make_room-Grows f v = elim (Bool-cases (leb f.num_of f.store_ptr)) [
  | inl y ↦ subst (λ b. Grows f (if b then grown f else f)) (sym y) (grown-Grows f v)
  | inr n ↦
      subst (λ b. Grows f (if b then grown f else f)) (sym n)
        (record {
          sized = v.sized;
          room = ground (arith, n);
          same_store = refl;
          same_retrieve = refl;
          kept = refl;
        })
]

module _ (f : Fifo) (v : Item) (k : IsValid f) where
  g : Grows f (make_room f)
  g = make_room-Grows f k

  store-IsValid : IsValid (store f v)
  unfolding store
  store-IsValid = record {
    sized = length-set (make_room f).items (make_room f).store_ptr v ∙ g.sized;
    stored = omega (arith, g.room, g.same_store);
    retrieved = omega (arith, g.same_store, g.same_retrieve, k.retrieved);
  }

  contents-store : contents (store f v) ≡ contents f ++ v ∷ []
  unfolding store contents
  contents-store =
      subst (λ n. take (n + 1) (set (make_room f).items n v) ≡ take f.store_ptr f.items ++ v ∷ [])
        (sym g.same_store)
        (take-set_plus f.store_ptr (make_room f).items v (omega (arith, g.sized, g.room))
          ∙ ap (λ l. l ++ v ∷ []) g.kept)

  same_place : (store f v).retrieve_ptr ≡ f.retrieve_ptr
  unfolding store
  same_place = g.same_retrieve

  pending-store : pending (store f v) ≡ pending f ++ v ∷ []
  unfolding pending
  pending-store =
      ap (drop (store f v).retrieve_ptr) contents-store
      ∙ ap (λ n. drop n (contents f ++ v ∷ [])) same_place
      ∙ drop-append_le f.retrieve_ptr (contents f) (v ∷ [])
          (omega (arith, take-get f k, k.retrieved))

-- In a valid list, storing a pair keeps the list valid and puts the pair at the end of what is stored,
-- and at the end of what is still to be retrieved.
pub store_lem :
    (f : Fifo) (v : Item)
    → IsValid f
    → IsValid (store f v)
      × (contents (store f v) ≡ contents f ++ v ∷ [])
      × (pending (store f v) ≡ pending f ++ v ∷ [])
store_lem f v k = (store-IsValid f v k, contents-store f v k, pending-store f v k)

next_place : (n : ℕ) → suc n ≡ n + 1
next_place n = omega arith

retrieve-none : (f : Fifo) → leb f.store_ptr f.retrieve_ptr ≡ true → retrieve f ≡ (f, null_item)
unfolding retrieve
retrieve-none f y = rw (retrieve, y)

retrieve-some :
    (f : Fifo)
    → leb f.store_ptr f.retrieve_ptr ≡ false
    → retrieve f
      ≡ (record f { retrieve_ptr = f.retrieve_ptr + 1 }, get_or f.items f.retrieve_ptr null_item)
unfolding retrieve
retrieve-some f n = rw (retrieve, n)

-- In a valid list, either nothing is left, and retrieving gives NULL for both and changes nothing; or
-- it gives the first of what is left, after which the others are left, and all that was stored is
-- still there.
pub retrieve_lem :
    (f : Fifo)
    → IsValid f
    → ((pending f ≡ []) × (retrieve f ≡ (f, null_item)))
      ⊎ (IsValid (retrieve f).0
          × (pending f ≡ (retrieve f).1 ∷ pending (retrieve f).0)
          × (contents (retrieve f).0 ≡ contents f))
unfolding pending contents
retrieve_lem f k = elim (Bool-cases (leb f.store_ptr f.retrieve_ptr)) [
  | inl y ↦
      let e : f.retrieve_ptr ≡ f.store_ptr = ground (arith, y, k.retrieved) in
      inl (
        ap (λ n. drop n (take f.store_ptr f.items)) e ∙ drop-take_end f.store_ptr f.items,
        retrieve-none f y,
      )
  | inr n ↦
      let below : f.retrieve_ptr < f.store_ptr = ground (arith, n) in
      inr (
        rw (retrieve-some f n) (
          record { sized = k.sized; stored = k.stored; retrieved = omega (arith, below) },
          drop-take_next f.retrieve_ptr f.store_ptr f.items below (omega (arith, k.sized, k.stored))
              ∙ ap
                  (λ n. get_or f.items f.retrieve_ptr null_item ∷ drop n (take f.store_ptr f.items))
                  (next_place f.retrieve_ptr),
          refl,
        ))
]

-- Rewinding a valid list keeps it valid, and everything that was stored is to be retrieved again.
pub rewind_lem :
    (f : Fifo)
    → IsValid f
    → IsValid (rewind f) × (pending (rewind f) ≡ contents f) × (contents (rewind f) ≡ contents f)
unfolding rewind pending contents
rewind_lem f k =
    (record { sized = k.sized; stored = k.stored; retrieved = omega arith }, refl, refl)

-- A run of stores, and a run of retrieves.
unfoldable pub store_all : Fifo → List Item → Fifo
store_all f [] = f
store_all f (v ∷ vs) = store_all (store f v) vs

unfoldable pub retrieve_all : ℕ → Fifo → List Item
retrieve_all zero f = []
retrieve_all (suc n) f = (retrieve f).1 ∷ retrieve_all n (retrieve f).0

pub store_init-IsValid : IsValid store_init
unfolding store_init
store_init-IsValid = record { sized = refl; stored = omega arith; retrieved = omega arith }

new : (pending store_init ≡ []) × (contents store_init ≡ [])
unfolding pending contents store_init
new = (refl, refl)

pub store_all-pending :
    (f : Fifo) (vs : List Item)
    → IsValid f
    → IsValid (store_all f vs)
      × (pending (store_all f vs) ≡ pending f ++ vs)
      × (contents (store_all f vs) ≡ contents f ++ vs)
unfolding store_all
store_all-pending f [] k = (k, sym (append-nil (pending f)), sym (append-nil (contents f)))
store_all-pending f (v ∷ vs) k =
    let (k', stored, left) = store_lem f v k in
    let (k'', all, whole) = store_all-pending (store f v) vs k' in
    (
      k'',
      all ∙ ap (λ l. l ++ vs) left ∙ append_assoc (pending f) (v ∷ []) vs,
      whole ∙ ap (λ l. l ++ vs) stored ∙ append_assoc (contents f) (v ∷ []) vs,
    )

retrieve_all-pending :
    (l : List Item) (f : Fifo) → IsValid f → pending f ≡ l → retrieve_all (length l) f ≡ l
unfolding retrieve_all
retrieve_all-pending [] f k e = refl
retrieve_all-pending (v ∷ l) f k e = elim (retrieve_lem f k) [
  | inl (none_left, same) ↦ absurd (let t : [] ≡ v ∷ l = sym none_left ∙ e in cc)
  | inr (k', first, kept) ↦
      let t : (retrieve f).1 ∷ pending (retrieve f).0 ≡ v ∷ l = sym first ∙ e in
      let here : (retrieve f).1 ≡ v = cc t in
      let after : pending (retrieve f).0 ≡ l = cc t in
      ap (λ x. x ∷ retrieve_all (length l) (retrieve f).0) here
      ∙ ap (λ xs. v ∷ xs) (retrieve_all-pending l (retrieve f).0 k' after)
]

-- Pairs that are stored in a new list are retrieved in the order in which they were stored, however
-- often the array has to grow for them; and after a rewind they are retrieved once more.
pub retrieve_all-store_all :
    (vs : List Item)
    → (retrieve_all (length vs) (store_all store_init vs) ≡ vs)
      × (retrieve_all (length vs) (rewind (store_all store_init vs)) ≡ vs)
retrieve_all-store_all vs =
    let (k, left, whole) = store_all-pending store_init vs store_init-IsValid in
    let (k', again, kept) = rewind_lem (store_all store_init vs) k in
    (
      retrieve_all-pending vs (store_all store_init vs) k (left ∙ ap (λ l. l ++ vs) new.0),
      retrieve_all-pending vs (rewind (store_all store_init vs)) k'
          (again ∙ whole ∙ ap (λ l. l ++ vs) new.1),
    )
