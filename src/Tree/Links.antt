-- ===== src/Tree/Links.antt =====
-- tree.c: the doubly linked list of the nodes in key order. A node is its address; `dlist` gives the two
-- links of a node, and is written only where the tree is `sorted`.
use vely.Base.{ℕ, ◌+◌, ◌-◌, Bool, true, false, Option, none, some, ◌==◌, if◌then◌else◌}

pub record Link : Type 0 where
  pub lesser_list : Option ℕ
  pub greater_list : Option ℕ

-- `fresh` is the allocator: nodes numbered from there on are not allocated yet.
pub record Store : Type 0 where
  pub dlist : ℕ → Link
  pub min : Option ℕ
  pub max : Option ℕ
  pub count : ℕ
  pub sorted : Bool
  pub fresh : ℕ

abbrev pub unlinked : Link
unlinked = record { lesser_list = none; greater_list = none }

unfoldable pub set_link : (ℕ → Link) → ℕ → Link → ℕ → Link
set_link d n v i = if n == i then v else d i

unfoldable pub set_lesser : Store → ℕ → Option ℕ → Store
unfolding set_link
set_lesser st n v = record st {
  dlist = set_link st.dlist n (record (st.dlist n) { lesser_list = v });
}

unfoldable pub set_greater : Store → ℕ → Option ℕ → Store
unfolding set_link
set_greater st n v = record st {
  dlist = set_link st.dlist n (record (st.dlist n) { greater_list = v });
}

-- `if (p) p->dlist[...] = v`.
unfoldable pub set_lesser_of : Store → Option ℕ → Option ℕ → Store
unfolding set_lesser
set_lesser_of st none v = st
set_lesser_of st (some n) v = set_lesser st n v

unfoldable pub set_greater_of : Store → Option ℕ → Option ℕ → Store
unfolding set_greater
set_greater_of st none v = st
set_greater_of st (some n) v = set_greater st n v

-- The same, with the end of the list where there is no such node.
unfoldable pub set_lesser_or_max : Store → Option ℕ → Option ℕ → Store
unfolding set_lesser
set_lesser_or_max st none v = record st { max = v }
set_lesser_or_max st (some n) v = set_lesser st n v

unfoldable pub set_greater_or_min : Store → Option ℕ → Option ℕ → Store
unfolding set_greater
set_greater_or_min st none v = record st { min = v }
set_greater_or_min st (some n) v = set_greater st n v

-- The new node is the one numbered `fresh`; `place` makes it allocated.
unfoldable pub node_create : Store → Store
unfolding set_link
node_create st = record st { dlist = set_link st.dlist st.fresh unlinked }

-- Puts the node `new` before the node `at`.
unfoldable pub link_lesser : Store → ℕ → ℕ → Store
unfolding set_lesser set_greater set_greater_of
link_lesser st at new =
    if st.sorted
    then (let st₁ = set_greater_of st (st.dlist at).lesser_list (some new) in
        let st₂ = set_lesser st₁ new (st₁.dlist at).lesser_list in
        let st₃ = set_lesser st₂ at (some new) in set_greater st₃ new (some at))
    else st

unfoldable pub link_greater : Store → ℕ → ℕ → Store
unfolding set_lesser set_greater set_lesser_of
link_greater st at new =
    if st.sorted
    then (let st₁ = set_lesser_of st (st.dlist at).greater_list (some new) in
        let st₂ = set_greater st₁ new (st₁.dlist at).greater_list in
        let st₃ = set_greater st₂ at (some new) in set_lesser st₃ new (some at))
    else st

abbrev pub is_none_link : Option ℕ → Bool
is_none_link none = true
is_none_link (some n) = false

-- The new node gets its key.
unfoldable pub place : Store → Store
place st = record st {
  min =
      if st.sorted
      then if is_none_link (st.dlist st.fresh).lesser_list then some st.fresh else st.min
      else st.min;
  max =
      if st.sorted
      then if is_none_link (st.dlist st.fresh).greater_list then some st.fresh else st.max
      else st.max;
  count = st.count + 1;
  fresh = st.fresh + 1;
}

-- Takes the node `n` out of the list.
unfoldable pub unlink : Store → ℕ → Store
unfolding set_greater_or_min set_lesser_or_max
unlink st n =
    if st.sorted
    then (let st₁ = set_greater_or_min st (st.dlist n).lesser_list (st.dlist n).greater_list in
        set_lesser_or_max st₁ (st₁.dlist n).greater_list (st₁.dlist n).lesser_list)
    else st

-- Takes `found` out of the list, and puts it where `leaf` stands.
unfoldable pub take_place : Store → ℕ → ℕ → Store
unfolding unlink set_lesser set_greater set_greater_or_min set_lesser_or_max
take_place st found leaf =
    if st.sorted
    then (let st₁ = unlink st found in
        let st₂ = set_lesser st₁ found (st₁.dlist leaf).lesser_list in
        let st₃ = set_greater st₂ found (st₂.dlist leaf).greater_list in
        let st₄ = set_greater_or_min st₃ (st₃.dlist leaf).lesser_list (some found) in
        set_lesser_or_max st₄ (st₄.dlist leaf).greater_list (some found))
    else st

unfoldable pub uncount : Store → Store
uncount st = record st { count = st.count - 1 }
