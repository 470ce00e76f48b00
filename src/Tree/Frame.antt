-- ===== src/Tree/Frame.antt =====
-- What the steps on the linked list leave alone.
use vely.Base.{ℕ, ◌≡◌, refl, ◌∙◌, Bool, true, false, Option, none, some, if◌then◌else◌}
use vely.Tree.{Tree, null, branch, add_lesser, add_greater}
use vely.Tree.Links.{
  Store, set_lesser, set_greater, set_lesser_of, set_greater_of, set_lesser_or_max,
  set_greater_or_min, node_create, link_lesser, link_greater, unlink, take_place,
}

-- The counter, the allocator and the flag are as before.
pub record IsSame (st st' : Store) : Type 0 where
  pub count : st'.count ≡ st.count
  pub fresh : st'.fresh ≡ st.fresh
  pub sorted : st'.sorted ≡ st.sorted

pub IsSame-refl : (st : Store) → IsSame st st
IsSame-refl st = record { count = refl; fresh = refl; sorted = refl }

pub IsSame-trans : (a b c : Store) → IsSame a b → IsSame b c → IsSame a c
IsSame-trans a b c p q = record {
  count = q.count ∙ p.count;
  fresh = q.fresh ∙ p.fresh;
  sorted = q.sorted ∙ p.sorted;
}

set_lesser-IsSame : (st : Store) (n : ℕ) (v : Option ℕ) → IsSame st (set_lesser st n v)
unfolding set_lesser
set_lesser-IsSame st n v = record { count = refl; fresh = refl; sorted = refl }

set_greater-IsSame : (st : Store) (n : ℕ) (v : Option ℕ) → IsSame st (set_greater st n v)
unfolding set_greater
set_greater-IsSame st n v = record { count = refl; fresh = refl; sorted = refl }

set_lesser_of-IsSame : (st : Store) (p v : Option ℕ) → IsSame st (set_lesser_of st p v)
unfolding set_lesser_of set_lesser
set_lesser_of-IsSame st none v = IsSame-refl st
set_lesser_of-IsSame st (some n) v = record { count = refl; fresh = refl; sorted = refl }

set_greater_of-IsSame : (st : Store) (p v : Option ℕ) → IsSame st (set_greater_of st p v)
unfolding set_greater_of set_greater
set_greater_of-IsSame st none v = IsSame-refl st
set_greater_of-IsSame st (some n) v = record { count = refl; fresh = refl; sorted = refl }

set_lesser_or_max-IsSame : (st : Store) (p v : Option ℕ) → IsSame st (set_lesser_or_max st p v)
unfolding set_lesser_or_max set_lesser
set_lesser_or_max-IsSame st none v = record { count = refl; fresh = refl; sorted = refl }
set_lesser_or_max-IsSame st (some n) v = record { count = refl; fresh = refl; sorted = refl }

set_greater_or_min-IsSame : (st : Store) (p v : Option ℕ) → IsSame st (set_greater_or_min st p v)
unfolding set_greater_or_min set_greater
set_greater_or_min-IsSame st none v = record { count = refl; fresh = refl; sorted = refl }
set_greater_or_min-IsSame st (some n) v = record { count = refl; fresh = refl; sorted = refl }

node_create-IsSame : (st : Store) → IsSame st (node_create st)
unfolding node_create
node_create-IsSame st = record { count = refl; fresh = refl; sorted = refl }

IsSame-if : (b : Bool) (st st' : Store) → IsSame st st' → IsSame st (if b then st' else st)
IsSame-if true st st' h = h
IsSame-if false st st' h = IsSame-refl st

pub link_lesser-IsSame : (st : Store) (at new : ℕ) → IsSame st (link_lesser st at new)
unfolding link_lesser
link_lesser-IsSame st at new =
    let h = set_greater_of-IsSame st (st.dlist at).lesser_list (some new) in
    IsSame-if st.sorted st _ (record { count = h.count; fresh = h.fresh; sorted = h.sorted })

pub link_greater-IsSame : (st : Store) (at new : ℕ) → IsSame st (link_greater st at new)
unfolding link_greater
link_greater-IsSame st at new =
    let h = set_lesser_of-IsSame st (st.dlist at).greater_list (some new) in
    IsSame-if st.sorted st _ (record { count = h.count; fresh = h.fresh; sorted = h.sorted })

pub unlink-IsSame : (st : Store) (n : ℕ) → IsSame st (unlink st n)
unfolding unlink
unlink-IsSame st n =
    let st₁ : Store = set_greater_or_min st (st.dlist n).lesser_list (st.dlist n).greater_list in
    let st₂ : Store = set_lesser_or_max st₁ (st₁.dlist n).greater_list (st₁.dlist n).lesser_list in
    IsSame-if st.sorted st st₂ (
      IsSame-trans st st₁ st₂
        (set_greater_or_min-IsSame st (st.dlist n).lesser_list (st.dlist n).greater_list)
        (set_lesser_or_max-IsSame st₁ (st₁.dlist n).greater_list (st₁.dlist n).lesser_list))

pub take_place-IsSame : (st : Store) (found leaf : ℕ) → IsSame st (take_place st found leaf)
unfolding take_place
take_place-IsSame st found leaf =
    let st₁ : Store = unlink st found in
    let st₂ : Store = set_lesser st₁ found (st₁.dlist leaf).lesser_list in
    let st₃ : Store = set_greater st₂ found (st₂.dlist leaf).greater_list in
    let st₄ : Store = set_greater_or_min st₃ (st₃.dlist leaf).lesser_list (some found) in
    let st₅ : Store = set_lesser_or_max st₄ (st₄.dlist leaf).greater_list (some found) in
    IsSame-if st.sorted st st₅ (
      IsSame-trans st st₁ st₅ (unlink-IsSame st found) (
        IsSame-trans st₁ st₂ st₅ (set_lesser-IsSame st₁ found (st₁.dlist leaf).lesser_list) (
          IsSame-trans st₂ st₃ st₅ (set_greater-IsSame st₂ found (st₂.dlist leaf).greater_list) (
            IsSame-trans st₃ st₄ st₅
              (set_greater_or_min-IsSame st₃ (st₃.dlist leaf).lesser_list (some found))
              (set_lesser_or_max-IsSame st₄ (st₄.dlist leaf).greater_list (some found))))))

pub add_lesser-IsSame : (st : Store) (at : ℕ) (t : Tree) → IsSame st (add_lesser st at t)
unfolding add_lesser
add_lesser-IsSame st at null =
    IsSame-trans st (node_create st) (link_lesser (node_create st) at st.fresh)
      (node_create-IsSame st) (link_lesser-IsSame (node_create st) at st.fresh)
add_lesser-IsSame st at (branch l c r) = IsSame-refl st

pub add_greater-IsSame : (st : Store) (at : ℕ) (t : Tree) → IsSame st (add_greater st at t)
unfolding add_greater
add_greater-IsSame st at null =
    IsSame-trans st (node_create st) (link_greater (node_create st) at st.fresh)
      (node_create-IsSame st) (link_greater-IsSame (node_create st) at st.fresh)
add_greater-IsSame st at (branch l c r) = IsSame-refl st
