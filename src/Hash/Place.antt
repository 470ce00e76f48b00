-- ===== src/Hash/Place.antt =====
-- The vector of buckets: what a write to one bucket does to the whole, and where an address leads.
use mathlib.Core.List.{flatten}
use vely.Base.{
  ℕ, zero, suc, ◌+◌, ◌≤◌, ◌<◌, ◌≡◌, ◌≢◌, refl, sym, ◌∙◌, ap, Bool, false, Option, none, some, List,
  [], ◌∷◌, map, ◌==◌, if◌then◌else◌, length, get_or, set, length-append, Bytes, arith, Bool-cases,
  ==_refl, ==_ne, inl, inr, get_or-set_self, get_or-set_ne, ℕ_discrete,
}
use vely.Hash.{Entry, find_node, deref, next_of, link_next, compute_hash}
use vely.Hash.Chain.{count, find, has_key, has_node, count-append, NodesUnique, after}

abbrev pub bucket : List (List Entry) → ℕ → List Entry
bucket t i = get_or t i []

module _ (p : Entry → Bool) where
  pub count-flatten-set :
      (t : List (List Entry)) (i : ℕ) (c : List Entry)
      → i < length t
      → count p (flatten (set t i c)) + count p (bucket t i) ≡ count p (flatten t) + count p c
  unfolding flatten
  count-flatten-set [] i c h = absurd (omega arith)
  count-flatten-set (x ∷ t) zero c h = simp count-append (omega arith)
  count-flatten-set (x ∷ t) (suc i) c h =
      simp count-append (omega (arith, count-flatten-set t i c (omega arith)))

  pub count-bucket-le : (t : List (List Entry)) (i : ℕ) → count p (bucket t i) ≤ count p (flatten t)
  unfolding flatten
  count-bucket-le [] i = unfold count in omega arith
  count-bucket-le (x ∷ t) zero = simp count-append (omega arith)
  count-bucket-le (x ∷ t) (suc i) = simp count-append (omega (arith, count-bucket-le t i))

pub length-flatten-set :
    (t : List (List Entry)) (i : ℕ) (c : List Entry)
    → i < length t
    → length (flatten (set t i c)) + length (bucket t i) ≡ length (flatten t) + length c
unfolding flatten
length-flatten-set [] i c h = absurd (omega arith)
length-flatten-set (x ∷ t) zero c h = simp length-append (omega arith)
length-flatten-set (x ∷ t) (suc i) c h =
    simp length-append (omega (arith, length-flatten-set t i c (omega arith)))

-- Addresses.
pub find_node-absent : (n : ℕ) (c : List Entry) → count (has_node n) c ≡ 0 → find_node n c ≡ none
unfolding find_node count
find_node-absent n [] h = refl
find_node-absent n (e ∷ c) h = ground (arith, find_node-absent n c)

find_node_skip :
    (n : ℕ) (e : Entry) (c : List Entry)
    → (e.node == n) ≡ false
    → find_node n (e ∷ c) ≡ find_node n c
unfolding find_node
find_node_skip n e c h = rw h

after_skip :
    (n : ℕ) (e : Entry) (c : List Entry) → (e.node == n) ≡ false → after n (e ∷ c) ≡ after n c
unfolding after find_node
after_skip n e c h = rw (h, after)

pub find_node-present :
    (n : ℕ) (c : List Entry)
    → 0 < count (has_node n) c
    → (e : Entry) × (find_node n c ≡ some (e, after n c)) × (e.node ≡ n)
unfolding find_node count after
find_node-present n [] h = absurd (omega arith)
find_node-present n (e ∷ c) h = elim (Bool-cases (e.node == n)) [
  | inl y ↦ (e, rw (y, after), ground arith)
  | inr no_match ↦
      let (x, found, at) = find_node-present n c (ground arith) in
      (
        x,
        find_node_skip n e c no_match
            ∙ found
            ∙ ap (λ r. some (x, r)) (sym (after_skip n e c no_match)),
        at,
      )
]

pub link_next-absent :
    (n : ℕ) (next c : List Entry) → count (has_node n) c ≡ 0 → link_next n next c ≡ c
unfolding link_next count
link_next-absent n next [] h = refl
link_next-absent n next (e ∷ c) h = ground (arith, link_next-absent n next c)

map-link_next_absent :
    (n : ℕ) (next : List Entry) (t : List (List Entry))
    → count (has_node n) (flatten t) ≡ 0
    → map (link_next n next) t ≡ t
unfolding flatten
map-link_next_absent n next [] h = refl
map-link_next_absent n next (c ∷ t) h =
    let parts : count (has_node n) c + count (has_node n) (flatten t) ≡ 0 = rw count-append at h in
    rw (link_next-absent n next c (omega arith), map-link_next_absent n next t (omega arith))

module _ (n : ℕ) where
  -- A write through an address changes the one bucket that holds it.
  pub map-link_next :
      (next : List Entry) (t : List (List Entry)) (i : ℕ)
      → count (has_node n) (flatten t) ≤ 1
      → 0 < count (has_node n) (bucket t i)
      → map (link_next n next) t ≡ set t i (link_next n next (bucket t i))
  unfolding flatten
  map-link_next next [] i u h = absurd (unfold count in omega arith)
  map-link_next next (c ∷ t) zero u h =
      let parts : count (has_node n) c + count (has_node n) (flatten t) ≤ 1 =
        rw count-append at u in
      ap (λ r. link_next n next c ∷ r) (map-link_next_absent n next t (omega arith))
  map-link_next next (c ∷ t) (suc i) u h =
      let parts : count (has_node n) c + count (has_node n) (flatten t) ≤ 1 =
        rw count-append at u in
      let inside = count-bucket-le (has_node n) t i in
      rw (link_next-absent n next c (omega arith), map-link_next next t i (omega arith) h)

  -- So does a read.
  pub deref-bucket :
      (t : List (List Entry)) (i : ℕ)
      → count (has_node n) (flatten t) ≤ 1
      → 0 < count (has_node n) (bucket t i)
      → deref n t ≡ find_node n (bucket t i)
  unfolding deref flatten
  deref-bucket [] i u h = absurd (unfold count in omega arith)
  deref-bucket (c ∷ t) zero u h = let (e, found, _) = find_node-present n c h in rw (found, deref)
  deref-bucket (c ∷ t) (suc i) u h =
      let parts : count (has_node n) c + count (has_node n) (flatten t) ≤ 1 =
        rw count-append at u in
      let inside = count-bucket-le (has_node n) t i in
      rw (find_node-absent n c (omega arith), deref) (deref-bucket t i (omega arith) h)

  pub next_of-bucket :
      (t : List (List Entry)) (i : ℕ)
      → count (has_node n) (flatten t) ≤ 1
      → 0 < count (has_node n) (bucket t i)
      → next_of n t ≡ after n (bucket t i)
  unfolding next_of after
  next_of-bucket t i u h = rw (deref-bucket t i u h, next_of, after)

pub bucket-NodesUnique :
    (t : List (List Entry)) (i : ℕ) → NodesUnique (flatten t) → NodesUnique (bucket t i)
bucket-NodesUnique t i u n = omega (arith, u n, count-bucket-le (has_node n) t i)

-- The bucket of a key.
unfoldable pub home : Bytes → ℕ → ℕ
home q n = compute_hash q none n

-- Each key stands at most once, and only in its own bucket.
abbrev pub IsPlaced : ℕ → List (List Entry) → Type 0
IsPlaced n t =
    (q : Bytes) (i : ℕ)
    → (count (has_key q) (bucket t i) ≤ 1) × (home q n ≢ i → count (has_key q) (bucket t i) ≡ 0)

-- The table as a map from keys to entries.
unfoldable pub view : ℕ → List (List Entry) → Bytes → Option Entry
view n t q = find (has_key q) (bucket t (home q n))

abbrev pub FitsIn : ℕ → ℕ → List Entry → Type 0
FitsIn n i c = (q : Bytes) → (count (has_key q) c ≤ 1) × (home q n ≢ i → count (has_key q) c ≡ 0)

pub set-IsPlaced :
    (n : ℕ) (t : List (List Entry)) (i : ℕ) (c : List Entry)
    → i < length t
    → IsPlaced n t
    → FitsIn n i c
    → IsPlaced n (set t i c)
set-IsPlaced n t i c inside placed fits q j = elim (ℕ_discrete i j) [
  | yes e ↦ rw (← e, get_or-set_self t i c [] inside) (fits q)
  | no ne ↦ rw (get_or-set_ne t i j c [] ne) (placed q j)
]

pub view-set :
    (n : ℕ) (t : List (List Entry)) (i : ℕ) (c : List Entry) (q : Bytes)
    → i < length t
    → view n (set t i c) q ≡ (if home q n == i then find (has_key q) c else view n t q)
unfolding view
view-set n t i c q inside = elim (ℕ_discrete i (home q n)) [
  | yes e ↦ rw (← e, ==_refl i, get_or-set_self t i c [] inside)
  | no ne ↦ rw (get_or-set_ne t i (home q n) c [] ne, ==_ne (home q n) i (λ e. ne (sym e)))
]
