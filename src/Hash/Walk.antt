-- ===== src/Hash/Walk.antt =====
-- `rewind_hash` and `next_hash`: a traversal yields every entry once, in the order of the table.
use mathlib.Core.List.{flatten}
use vely.Base.{
  ℕ, zero, suc, ◌+◌, ◌-◌, ◌≤◌, ◌<◌, ◌≡◌, ◌≢◌, ◌⊎◌, refl, sym, subst, ◌∙◌, ap, Bool, true, false,
  Option, none, some, List, [], ◌∷◌, ◌++◌, map, ◌==◌, length, drop, arith, Option-cases, inl, inr,
  ==_ne, ==_refl, ==_iff, ℕ_discrete,
}
use vely.Hash.{
  Hash, Entry, CStr, head_node, find_node, advance, yield, take_current, next_hash, rewind_hash,
}
use vely.Hash.Chain.{
  count, has_node, NodesUnique, after, after_here, after_skip, node_apart, tail-NodesUnique,
}
use vely.Hash.Place.{bucket, bucket-NodesUnique, find_node-present, deref-bucket}
use vely.Hash.Valid.{IsValid, IsCursor, head_node-mem, head-IsCursor, rewind_hash-IsValid}

-- The entries of a bucket from a pointer on.
unfoldable pub from_node : Option ℕ → List Entry → List Entry
from_node none c = []
from_node (some n) c = elim (find_node n c) [ none ↦ [] | some (e, r) ↦ e ∷ r ]

-- What a traversal has yet to yield.
unfoldable pub left_at : List (List Entry) → ℕ → Option ℕ → List Entry
left_at t d a = from_node a (bucket t d) ++ flatten (drop (suc d) t)

unfoldable pub remaining : Hash → List Entry
remaining h = left_at h.table h.dnext h.dcurr

drop_step : (t : List (List Entry)) (d : ℕ) → d < length t → drop d t ≡ bucket t d ∷ drop (suc d) t
drop_step [] d h = absurd (omega arith)
drop_step (c ∷ t) zero h = refl
drop_step (c ∷ t) (suc d) h = drop_step t d (omega arith)

drop-length : (t : List (List Entry)) (d : ℕ) → length t ≤ d → drop d t ≡ []
drop-length [] zero h = refl
drop-length [] (suc d) h = refl
drop-length (c ∷ t) zero h = absurd (omega arith)
drop-length (c ∷ t) (suc d) h = drop-length t d (omega arith)

from_node-head : (c : List Entry) → from_node (head_node c) c ≡ c
unfolding from_node head_node find_node
from_node-head [] = refl
from_node-head (e ∷ c) = rw (==_refl e.node, from_node)

-- From the head of a bucket on, and from the end of the bucket before it.
left_at-next :
    (t : List (List Entry)) (d : ℕ)
    → suc d < length t
    → left_at t (suc d) (head_node (bucket t (suc d))) ≡ left_at t d none
unfolding left_at flatten
left_at-next t d h =
    unfold from_node in rw (drop_step t (suc d) h, from_node-head (bucket t (suc d)))

left_at_end : (t : List (List Entry)) (d : ℕ) → length t ≤ suc d → left_at t d none ≡ []
unfolding left_at from_node flatten
left_at_end t d h = rw (drop-length t (suc d) h)

count-after : (p : Entry → Bool) (n : ℕ) (c : List Entry) → count p (after n c) ≤ count p c
unfolding after find_node count
count-after p n [] = omega arith
count-after p n (e ∷ c) = ground (arith, count-after p n c)

from_node-skip :
    (o : Option ℕ) (e : Entry) (c : List Entry)
    → ((a : ℕ) → o ≡ some a → e.node ≢ a)
    → from_node o (e ∷ c) ≡ from_node o c
unfolding from_node find_node
from_node-skip none e c h = refl
from_node-skip (some a) e c h = rw (==_ne e.node a (h a refl), from_node)

from_node-after :
    (n : ℕ) (c : List Entry) → NodesUnique c → from_node (head_node (after n c)) c ≡ after n c
from_node-after n [] u = unfold from_node head_node after find_node in refl
from_node-after n (e ∷ c) u = elim (ℕ_discrete e.node n) [
  | yes at ↦
      rw (← at, after_here e c)
        (from_node-skip (head_node c) e c
            (λ a is_head. node_apart e c a u (head_node-mem c a is_head))
          ∙ from_node-head c)
  | no ne ↦ rw (after_skip n e c ne) (
      from_node-skip (head_node (after n c)) e c (λ a is_head.
        node_apart e c a u
          (omega (arith, head_node-mem (after n c) a is_head, count-after (has_node a) n c)))
      ∙ from_node-after n c (tail-NodesUnique e c u))
]

from_node_found :
    (n : ℕ) (c : List Entry) (e : Entry) (r : List Entry)
    → find_node n c ≡ some (e, r)
    → from_node (some n) c ≡ e ∷ r
unfolding from_node
from_node_found n c e r found = rw (found, from_node)

from_node-split :
    (n : ℕ) (c : List Entry) (e : Entry)
    → NodesUnique c
    → find_node n c ≡ some (e, after n c)
    → from_node (some n) c ≡ e ∷ from_node (head_node (after n c)) c
from_node-split n c e u found =
    from_node_found n c e (after n c) found ∙ ap (λ r. e ∷ r) (sym (from_node-after n c u))

module _ (h : Hash) where
  -- The hash with its traversal at another place.
  abbrev pub at : ℕ → Option ℕ → Hash
  at d a = record h { dnext = d; dcurr = a }

  -- Where the loop of `next_hash` ends: at an entry, or behind the last bucket.
  abbrev AtEntry : ℕ → Option ℕ → Hash × Bool → Type 0
  AtEntry d a r =
      (d' : ℕ) × (n : ℕ) × (r ≡ (at d' (some n), true))
      × (left_at h.table d' (some n) ≡ left_at h.table d a)
      × IsCursor h.num_buckets h.table d' (some n)

  abbrev AtEnd : ℕ → Option ℕ → Hash × Bool → Type 0
  AtEnd d a r =
      (d' : ℕ) × (r ≡ (at d' none, false)) × (d' ≡ h.num_buckets) × (left_at h.table d a ≡ [])

  advance_stops :
      (k d : ℕ) (a : Option ℕ)
      → length h.table ≡ h.num_buckets
      → d + k ≡ h.num_buckets
      → 0 < k
      → IsCursor h.num_buckets h.table d a
      → AtEntry d a (advance k (at d a)) ⊎ AtEnd d a (advance k (at d a))
  unfolding advance
  advance_stops zero d a w e pos c = absurd (omega arith)
  advance_stops (suc k) d (some n) w e pos c = inl (d, n, refl, refl, c)
  advance_stops (suc k) d none w e pos c = elim (ℕ_discrete (d + 1) h.num_buckets) [
    | yes last ↦ inr (
      d + 1,
      rw (subst (λ m. (d + 1 == m) ≡ true) last (==_refl (d + 1))),
      last,
      left_at_end h.table d (omega arith),
    )
    | no more ↦
        let lt : d + 1 < h.num_buckets = omega arith in
        let same : suc d ≡ d + 1 = omega arith in
        let step : left_at h.table (d + 1) (head_node (bucket h.table (d + 1)))
            ≡ left_at h.table d none =
          rw same at (left_at-next h.table d (omega arith)) in
        rw (==_ne (d + 1) h.num_buckets more)
          (elim (advance_stops k (d + 1) (head_node (bucket h.table (d + 1))) w (omega arith)
            (omega arith) (head-IsCursor h.num_buckets h.table (d + 1) lt)) [
              | inl (d', n, at_r, l, c') ↦ inl (d', n, at_r, l ∙ step, c')
              | inr (d', at_r, last, l) ↦ inr (d', at_r, last, sym step ∙ l)
            ])
  ]

-- A step of a traversal of `h`: what it yields, and how it leaves the hash.
pub record Step (h : Hash) (item : Option (CStr × ℕ)) (left : List Entry) (h' : Hash) : Type 0 where
  pub steps : next_hash h ≡ some (h', item)
  pub rest : remaining h' ≡ left
  pub cursor : IsCursor h.num_buckets h.table h'.dnext h'.dcurr
  pub kept : h' ≡ at h h'.dnext h'.dcurr

abbrev pub Yields : Hash → List Entry → Type 0
Yields h [] = (h' : Hash) × Step h none [] h'
Yields h (e ∷ rest) = (h' : Hash) × Step h (some (e.key, e.value)) rest h'

next_hash_last : (h : Hash) → h.dnext ≡ h.num_buckets → next_hash h ≡ some (h, none)
unfolding next_hash
next_hash_last h last = rw ((==_iff h.dnext h.num_buckets).1 last, next_hash)

next_hash_more :
    (h : Hash) → h.dnext ≢ h.num_buckets → next_hash h ≡ yield (advance (h.num_buckets - h.dnext) h)
unfolding next_hash
next_hash_more h more = rw (==_ne h.dnext h.num_buckets more, next_hash)

module _ (h : Hash) (v : IsValid h) where
  take_current-Yields :
      (d n : ℕ)
      → IsCursor h.num_buckets h.table d (some n)
      → (e : Entry) × (take_current (at h d (some n)) (some n)
          ≡ some (at h d (head_node (after n (bucket h.table d))), some (e.key, e.value)))
        × (left_at h.table d (some n)
            ≡ e ∷ left_at h.table d (head_node (after n (bucket h.table d))))
        × IsCursor h.num_buckets h.table d (head_node (after n (bucket h.table d)))
  unfolding take_current left_at
  take_current-Yields d n c =
      let (lt, inside) = c.stands n refl in
      let (e, found, _) = find_node-present n (bucket h.table d) inside in
      (
        e,
        rw (deref-bucket n h.table d (v.nodes n) inside, take_current, found),
        ap (λ l. l ++ flatten (drop (suc d) h.table))
            (from_node-split n (bucket h.table d) e (bucket-NodesUnique h.table d v.nodes) found),
        record {
          within = c.within;
          stands = λ x is_head. (
            lt,
            omega (arith, head_node-mem _ x is_head, count-after (has_node x) n (bucket h.table d)),
          );
        },
      )

  -- The next step of a traversal of a valid hash yields the first of the entries that remain and leaves
  -- the others, or yields nothing where none remains; it never reads through a dangling pointer, and it
  -- changes nothing but the place of the traversal, which stays in order.
  pub next_hash_lem : Yields h (remaining h)
  unfolding yield remaining
  next_hash_lem = elim (ℕ_discrete h.dnext h.num_buckets) [
    | yes last ↦
        let no_entry : h.dcurr ≡ none = elim (Option-cases h.dcurr) [
          | inl e ↦ e
          | inr (n, e) ↦ absurd (omega (arith, (v.cursor.stands n e).0))
        ] in
        let over : remaining h ≡ [] =
          ap (left_at h.table h.dnext) no_entry
          ∙ left_at_end h.table h.dnext (omega (arith, v.width)) in
        subst (Yields h) (sym over)
          (h, record { steps = next_hash_last h last; rest = over; cursor = v.cursor; kept = refl })
    | no more ↦
        elim (advance_stops h (h.num_buckets - h.dnext) h.dnext h.dcurr v.width
          (omega (arith, v.cursor.within)) (omega (arith, v.cursor.within)) v.cursor) [
            | inl (d', n, at_r, l, c') ↦
                let (e, took, parts, c'') = take_current-Yields d' n c' in
                subst (Yields h) (sym parts ∙ l) (
                  at h d' (head_node (after n (bucket h.table d'))),
                  record {
                    steps = next_hash_more h more ∙ ap yield at_r ∙ took;
                    rest = refl;
                    cursor = c'';
                    kept = refl;
                  },
                )
            | inr (d', at_r, last, l) ↦ subst (Yields h) (sym l) (
              at h d' none,
              record {
                steps = next_hash_more h more ∙ ap yield at_r;
                rest = left_at_end h.table d' (omega (arith, v.width));
                cursor = record { within = omega arith; stands = λ x e. absurd (cc) };
                kept = refl;
              },
            )
          ]
  ]

-- A traversal to its end: the program's loop that asks until no key is left.
pub collect : ℕ → Hash → Option (List (CStr × ℕ))
collect zero h = none
collect (suc f) h = elim (next_hash h) [
  | none ↦ none
  | some (h', none) ↦ some []
  | some (h', some item) ↦ elim (collect f h') [ none ↦ none | some items ↦ some (item ∷ items) ]
]

abbrev pub pair_of : Entry → CStr × ℕ
pair_of e = (e.key, e.value)

moved-IsValid :
    (h : Hash) (d : ℕ) (a : Option ℕ)
    → IsValid h
    → IsCursor h.num_buckets h.table d a
    → IsValid (at h d a)
moved-IsValid h d a v c = record {
  roomy = v.roomy;
  width = v.width;
  counted = v.counted;
  placed = v.placed;
  nodes = v.nodes;
  allocated = v.allocated;
  cursor = c;
}

pub Step-IsValid :
    {h h' : Hash} {item : Option (CStr × ℕ)} {left : List Entry}
    → IsValid h
    → Step h item left h'
    → IsValid h'
Step-IsValid {h} {h'} v s =
    subst IsValid (sym s.kept) (moved-IsValid h h'.dnext h'.dcurr v s.cursor)

pub collect-remaining :
    (f : ℕ) (h : Hash) (es : List Entry)
    → IsValid h
    → remaining h ≡ es
    → length es < f
    → collect f h ≡ some (map pair_of es)
unfolding collect
collect-remaining zero h es v e fuel = absurd (omega arith)
collect-remaining (suc f) h [] v e fuel =
    let (h', s) : Yields h [] = subst (Yields h) e (next_hash_lem h v) in rw (s.steps, collect)
collect-remaining (suc f) h (x ∷ es) v e fuel =
    let (h', s) : Yields h (x ∷ es) = subst (Yields h) e (next_hash_lem h v) in
    rw (s.steps, collect, collect-remaining f h' es (Step-IsValid v s) s.rest (omega arith))

left_at-start : (t : List (List Entry)) → left_at t 0 (head_node (bucket t 0)) ≡ flatten t
unfolding left_at flatten
left_at-start [] = unfold from_node head_node in refl
left_at-start (c ∷ t) = ap (λ l. l ++ flatten t) (from_node-head c)

pub remaining-rewind : (h : Hash) → remaining (rewind_hash h) ≡ flatten h.table
unfolding remaining rewind_hash
remaining-rewind h = left_at-start h.table

-- A traversal from the start yields every entry of the table exactly once, in the table's order, and
-- then ends: as many steps as there are entries, and one more, are enough.
pub collect-rewind :
    (h : Hash)
    → IsValid h
    → collect (h.tot + 1) (rewind_hash h) ≡ some (map pair_of (flatten h.table))
collect-rewind h v =
    collect-remaining (h.tot + 1) (rewind_hash h) (flatten h.table) (rewind_hash-IsValid h v)
      (remaining-rewind h) (omega (arith, v.counted))
