-- ===== src/Hash/Chain.antt =====
-- One bucket: counting, finding and erasing the entries that pass a test, and what the loops of
-- `find_hash`, `add_hash` and `del_hash_entry` do to it.
use vely.Base.{
  ℕ, suc, ◌+◌, ◌≤◌, ◌<◌, ◌≡◌, ◌≢◌, inl, inr, refl, sym, ◌∙◌, ap, Bool, true, false, Option, none,
  some, List, [], ◌∷◌, ◌++◌, ◌==◌, if◌then◌else◌, length, Bytes, same_text, same_text→eq,
  same_text_refl, arith, Bool-cases, ==_refl,
}
use mathlib.Core.Option.{some-injective}
use vely.Hash.{Entry, CStr, find_node, link_next, find_loop, replace_loop}

abbrev pub one_if : Bool → ℕ
one_if true = 1
one_if false = 0

module _ (p : Entry → Bool) where
  unfoldable pub count : List Entry → ℕ
  count [] = 0
  count (e ∷ c) = one_if (p e) + count c

  unfoldable pub find : List Entry → Option Entry
  find [] = none
  find (e ∷ c) = if p e then some e else find c

  unfoldable pub erase : List Entry → List Entry
  erase [] = []
  erase (e ∷ c) = if p e then c else e ∷ erase c

-- The tests by key and by address.
abbrev pub has_key : Bytes → Entry → Bool
has_key q e = same_text q e.key.text

abbrev pub has_node : ℕ → Entry → Bool
has_node n e = e.node == n

module _ (p : Entry → Bool) where
  pub count-append : (a b : List Entry) → count p (a ++ b) ≡ count p a + count p b
  unfolding count
  count-append [] b = omega arith
  count-append (e ∷ a) b = omega (arith, count-append a b)

  pub find-eq-none : (c : List Entry) → count p c ≡ 0 → find p c ≡ none
  unfolding count find
  find-eq-none [] h = refl
  find-eq-none (e ∷ c) h = ground (arith, find-eq-none c)

  pub count-eq-zero : (c : List Entry) → find p c ≡ none → count p c ≡ 0
  unfolding count find
  count-eq-zero [] h = refl
  count-eq-zero (e ∷ c) h = ground (arith, count-eq-zero c)

  pub find_passes : (c : List Entry) (e : Entry) → find p c ≡ some e → p e ≡ true
  unfolding find
  find_passes [] e h = cc
  find_passes (x ∷ c) e h = elim (Bool-cases (p x)) [
    | inl y ↦ sym (ap p (some-injective _ _ (rw y at h))) ∙ y
    | inr n ↦ find_passes c e (rw n at h)
  ]

  -- Another test sees the found entry too.
  pub count-find :
      (q : Entry → Bool) (c : List Entry) (e : Entry)
      → find p c ≡ some e
      → q e ≡ true
      → 0 < count q c
  unfolding find count
  count-find q [] e h k = cc
  count-find q (x ∷ c) e h k = ground (arith, count-find q c e)

  pub count-erase :
      (q : Entry → Bool) (c : List Entry) (e : Entry)
      → find p c ≡ some e
      → count q (erase p c) + one_if (q e) ≡ count q c
  unfolding find count erase
  count-erase q [] e h = cc
  count-erase q (x ∷ c) e h = ground (arith, count-erase q c e)

  pub length-erase :
      (c : List Entry) (e : Entry) → find p c ≡ some e → length (erase p c) + 1 ≡ length c
  unfolding find erase
  length-erase [] e h = cc
  length-erase (x ∷ c) e h = ground (arith, length-erase c e)

-- The loops of the code, by these operations.
pub replace_loop-none :
    (key : CStr) (value : ℕ) (c : List Entry)
    → find (has_key key.text) c ≡ none
    → replace_loop key value c ≡ none
unfolding replace_loop find
replace_loop-none key value [] h = refl
replace_loop-none key value (e ∷ c) h = ground (arith, replace_loop-none key value c)

-- The bucket with the first entry of the key given a new key and a new value.
unfoldable pub assign : CStr → ℕ → List Entry → List Entry
assign key value [] = []
assign key value (e ∷ c) =
    if has_key key.text e then record e { key = key; value = value } ∷ c else e ∷ assign key value c

pub replace_loop-some :
    (key : CStr) (value : ℕ) (c : List Entry) (old : Entry)
    → find (has_key key.text) c ≡ some old
    → replace_loop key value c ≡ some (old, assign key value c)
unfolding replace_loop find assign
replace_loop-some key value [] old h = cc
replace_loop-some key value (e ∷ c) old h = ground (arith, replace_loop-some key value c old)

-- A test that reads only the text of the key, or only the address.
module _ (key : CStr) (value : ℕ) where
  pub count-assign_key :
      (q : Bytes) (c : List Entry) → count (has_key q) (assign key value c) ≡ count (has_key q) c
  unfolding count assign
  count-assign_key q [] = refl
  count-assign_key q (e ∷ c) = elim (Bool-cases (has_key key.text e)) [
    | inl y ↦ rw (y, same_text→eq key.text e.key.text y)
    | inr n ↦ rw n (ap (λ k. one_if (has_key q e) + k) (count-assign_key q c))
  ]

  pub count-assign_node :
      (n : ℕ) (c : List Entry) → count (has_node n) (assign key value c) ≡ count (has_node n) c
  unfolding count assign
  count-assign_node n [] = refl
  count-assign_node n (e ∷ c) = ground (arith, count-assign_node n c)

  pub length-assign : (c : List Entry) → length (assign key value c) ≡ length c
  unfolding assign
  length-assign [] = refl
  length-assign (e ∷ c) = ground (arith, length-assign c)

abbrev pub NodesUnique : List Entry → Type 0
NodesUnique c = (n : ℕ) → count (has_node n) c ≤ 1

-- What stands behind the entry at an address.
unfoldable pub after : ℕ → List Entry → List Entry
after n c = elim (find_node n c) [ none ↦ [] | some r ↦ r.1 ]

module _ (m : Entry → Bool) where
  -- The comparisons of a search.
  unfoldable pub steps : List Entry → ℕ
  steps [] = 0
  steps (e ∷ c) = if m e then 1 else suc (steps c)

  -- The entry before the one found, in a list that begins behind `p`.
  unfoldable pub before_from : Entry → List Entry → Entry
  before_from p [] = p
  before_from p (e ∷ c) = if m e then p else before_from e c

  unfoldable pub before : List Entry → Option Entry
  before [] = none
  before (e ∷ c) = if m e then none else some (before_from e c)

  abbrev pub with_prev : Option Entry → Option Entry → Option (Option Entry × Entry)
  with_prev prev none = none
  with_prev prev (some e) = some (prev, e)

pub count_here : (e : Entry) (c : List Entry) → 0 < count (has_node e.node) (e ∷ c)
unfolding count
count_here e c = rw (==_refl e.node) (omega arith)

pub count_behind :
    (q : Entry → Bool) (e : Entry) (c : List Entry) → 0 < count q c → 0 < count q (e ∷ c)
unfolding count
count_behind q e c h = omega arith

pub link_next_skip :
    (p : Entry) (c next : List Entry) (n : ℕ)
    → p.node ≢ n
    → link_next n next (p ∷ c) ≡ p ∷ link_next n next c
unfolding link_next
link_next_skip p c next n h = ground arith

pub link_next_here : (p : Entry) (c next : List Entry) → link_next p.node next (p ∷ c) ≡ p ∷ next
unfolding link_next
link_next_here p c next = rw (==_refl p.node)

pub after_here : (e : Entry) (c : List Entry) → after e.node (e ∷ c) ≡ c
unfolding after find_node
after_here e c = rw (==_refl e.node, after)

pub after_skip : (n : ℕ) (e : Entry) (c : List Entry) → e.node ≢ n → after n (e ∷ c) ≡ after n c
unfolding after find_node
after_skip n e c h = ground arith

pub node_apart :
    (p : Entry) (c : List Entry) (n : ℕ)
    → NodesUnique (p ∷ c)
    → 0 < count (has_node n) c
    → p.node ≢ n
unfolding count
node_apart p c n u h = ground (arith, u n)

pub tail-NodesUnique : (p : Entry) (c : List Entry) → NodesUnique (p ∷ c) → NodesUnique c
unfolding count
tail-NodesUnique p c u n = omega (arith, u n)

module _ (m : Entry → Bool) where
  find_loop_from :
      (p : Entry) (c : List Entry) (r : ℕ)
      → find_loop m (some p) c r
        ≡ (r + steps m c, with_prev m (some (before_from m p c)) (find m c))
  unfolding find_loop steps before_from find
  find_loop_from p [] r = ground arith
  find_loop_from p (e ∷ c) r = ground (arith, find_loop_from e c (r + 1))

  pub find_loop_lem :
      (c : List Entry) (r : ℕ)
      → find_loop m none c r ≡ (r + steps m c, with_prev m (before m c) (find m c))
  unfolding find_loop steps before find
  find_loop_lem [] r = ground arith
  find_loop_lem (e ∷ c) r = ground (arith, find_loop_from e c (r + 1))

  before_from_stop : (p e : Entry) (c : List Entry) → m e ≡ true → before_from m p (e ∷ c) ≡ p
  unfolding before_from
  before_from_stop p e c h = rw h

  before_from_skip :
      (p e : Entry) (c : List Entry) → m e ≡ false → before_from m p (e ∷ c) ≡ before_from m e c
  unfolding before_from
  before_from_skip p e c h = rw h

  before_from-mem :
      (p : Entry) (c : List Entry) → 0 < count (has_node (before_from m p c).node) (p ∷ c)
  before_from-mem p [] = unfold before_from in count_here p []
  before_from-mem p (e ∷ c) = elim (Bool-cases (m e)) [
    | inl y ↦ rw (before_from_stop p e c y) (count_here p (e ∷ c))
    | inr n ↦ rw (before_from_skip p e c n) (count_behind _ p (e ∷ c) (before_from-mem e c))
  ]

  node-find : (c : List Entry) (e : Entry) → find m c ≡ some e → 0 < count (has_node e.node) c
  node-find c e h = count-find m (has_node e.node) c e h (==_refl e.node)

  link_next_from :
      (p : Entry) (c : List Entry) (e : Entry)
      → NodesUnique (p ∷ c)
      → find m c ≡ some e
      → link_next (before_from m p c).node (after e.node c) (p ∷ c) ≡ p ∷ erase m c
  unfolding before_from find erase
  link_next_from p [] e u h = cc
  link_next_from p (x ∷ c) e u h = elim (Bool-cases (m x)) [
    | inl y ↦
        let same : x ≡ e = some-injective x e (rw y at h) in
        rw (y, ← same, after_here x c) (link_next_here p (x ∷ c) c)
    | inr n ↦
        let found : find m c ≡ some e = rw n at h in
        let rest = tail-NodesUnique p (x ∷ c) u in
        rw
          (
            n,
            link_next_skip p (x ∷ c) _ _ (node_apart p (x ∷ c) _ u (before_from-mem x c)),
            after_skip e.node x c (node_apart x c e.node rest (node-find c e found)),
          )
          (ap (λ t. p ∷ t) (link_next_from x c e rest found))
  ]

  pub before-mem :
      (c : List Entry) (p : Entry) → before m c ≡ some p → 0 < count (has_node p.node) c
  unfolding before
  before-mem [] p h = cc
  before-mem (e ∷ c) p h = elim (Bool-cases (m e)) [
    | inl y ↦ cc (rw y at h)
    | inr n ↦
        let same : before_from m e c ≡ p = some-injective _ _ (rw n at h) in
        rw (← same) (before_from-mem e c)
  ]

  -- Unlinking the entry found erases it.
  unfoldable pub unlink : Option Entry → List Entry → List Entry → List Entry
  unlink none next c = next
  unlink (some p) next c = link_next p.node next c

  pub unlink-erase :
      (c : List Entry) (e : Entry)
      → NodesUnique c
      → find m c ≡ some e
      → unlink (before m c) (after e.node c) c ≡ erase m c
  unfolding unlink before find erase
  unlink-erase [] e u h = cc
  unlink-erase (x ∷ c) e u h = elim (Bool-cases (m x)) [
    | inl y ↦ let same : x ≡ e = some-injective x e (rw y at h) in rw (y, ← same) (after_here x c)
    | inr n ↦
        let found : find m c ≡ some e = rw n at h in
        rw (n, after_skip e.node x c (node_apart x c e.node u (node-find c e found)))
          (link_next_from x c e u found)
  ]

module _ (m : Entry → Bool) where
  -- What stands behind the entry found is still there.
  pub count-after-le :
      (p : Entry → Bool) (c : List Entry) (e : Entry)
      → NodesUnique c
      → find m c ≡ some e
      → count p (after e.node c) ≤ count p (erase m c)
  unfolding find erase count
  count-after-le p [] e u h = cc
  count-after-le p (x ∷ c) e u h = elim (Bool-cases (m x)) [
    | inl y ↦
        let same : x ≡ e = some-injective x e (rw y at h) in
        rw (y, ← same, after_here x c) (omega arith)
    | inr n ↦
        let found : find m c ≡ some e = rw n at h in
        rw (n, after_skip e.node x c (node_apart x c e.node u (node-find m c e found)))
          (omega (arith, count-after-le p c e (tail-NodesUnique x c u) found))
  ]

  pub find-erase :
      (q : Bytes) (c : List Entry) (e : Entry)
      → find m c ≡ some e
      → count (has_key q) c ≤ 1
      → find (has_key q) (erase m c) ≡ (if has_key q e then none else find (has_key q) c)
  unfolding find erase count
  find-erase q [] e h u = cc
  find-erase q (x ∷ c) e h u =
      ground (arith, find-erase q c e, find-eq-none (has_key q) c, count-find m (has_key q) c e)

module _ (key : CStr) (value : ℕ) where
  pub find-assign_same :
      (c : List Entry) (old : Entry)
      → find (has_key key.text) c ≡ some old
      → (e : Entry) × (find (has_key key.text) (assign key value c) ≡ some e)
        × (e.key ≡ key)
        × (e.value ≡ value)
  unfolding find assign
  find-assign_same [] old h = absurd (cc)
  find-assign_same (x ∷ c) old h = elim (Bool-cases (has_key key.text x)) [
    | inl y ↦ (record x { key = key; value = value }, rw (y, same_text_refl key.text), refl, refl)
    | inr n ↦
        let (e, at, same, data') = find-assign_same c old (rw n at h) in
        (e, rw (n, n) at, same, data')
  ]

  pub find-assign_other :
      (q : Bytes) (c : List Entry)
      → same_text q key.text ≡ false
      → find (has_key q) (assign key value c) ≡ find (has_key q) c
  unfolding find assign
  find-assign_other q [] h = refl
  find-assign_other q (x ∷ c) h = elim (Bool-cases (has_key key.text x)) [
    | inl y ↦ rw (y, h, ← same_text→eq key.text x.key.text y, h)
    | inr n ↦ rw (n, find-assign_other q c h)
  ]
