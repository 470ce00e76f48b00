-- ===== src/Hash/Resize.antt =====
-- `resize_hash`: every entry is moved to a table of another size.
use mathlib.Core.List.{flatten}
use mathlib.Core.Path.{ap₂}
use vely.Base.{
  ℕ, zero, suc, ◌+◌, ◌≤◌, ◌<◌, ◌≡◌, ◌≢◌, refl, sym, ◌∙◌, ap, subst, Bool, true, false, Option, none,
  some, List, [], ◌∷◌, ◌++◌, ltb, if◌then◌else◌, length, length-append, map, drop, Bytes, same_text,
  same_text→eq, same_text_refl, same_text_comm, arith, Bool-cases, inl, inr, get_or-replicate,
}
use vely.Hash.{
  Hash, Entry, CStr, Reply, add_hash, copy_loop, resize_hash, rewind_hash, create_hash, delete_hash,
  head_node,
}
use vely.Hash.Chain.{count, find, has_key, one_if, find-eq-none, count-append}
use vely.Hash.Place.{bucket, home, view}
use vely.Hash.Valid.{IsValid, lookup, create_hash_lem, rewind_hash-IsValid}
use vely.Hash.Add.{binding, found, Writes, add_hash_lem}
use vely.Hash.Walk.{
  remaining, left_at, from_node, Yields, next_hash_lem, Step-IsValid, remaining-rewind, collect,
  collect-remaining, pair_of,
}

module _ (p : Entry → Bool) where
  find-append_left : (a b : List Entry) → count p a ≡ 0 → find p (a ++ b) ≡ find p b
  unfolding find count
  find-append_left [] b h = refl
  find-append_left (e ∷ a) b h = ground (arith, find-append_left a b)

  find-append_right : (a b : List Entry) → count p b ≡ 0 → find p (a ++ b) ≡ find p a
  unfolding find count
  find-append_right [] b h = find-eq-none p b h
  find-append_right (e ∷ a) b h = ground (arith, find-append_right a b)

  nowhere : (t : List (List Entry)) → ((i : ℕ) → count p (bucket t i) ≡ 0) → count p (flatten t) ≡ 0
  unfolding flatten
  nowhere [] h = unfold count in refl
  nowhere (c ∷ t) h = rw count-append (omega (arith, h 0, nowhere t (λ i. h (suc i))))

  -- A test that no bucket but one passes sees the whole table as that bucket.
  one_bucket :
      (t : List (List Entry)) (j : ℕ)
      → ((i : ℕ) → i ≢ j → count p (bucket t i) ≡ 0)
      → (find p (flatten t) ≡ find p (bucket t j)) × (count p (flatten t) ≡ count p (bucket t j))
  unfolding flatten
  one_bucket [] j h = (refl, refl)
  one_bucket (c ∷ t) zero h =
      let none_behind = nowhere t (λ i. h (suc i) (omega arith)) in
      (find-append_right c (flatten t) none_behind, rw count-append (omega (arith, none_behind)))
  one_bucket (c ∷ t) (suc j) h =
      let none_here = h 0 (omega arith) in
      let (finds, counts) = one_bucket t j (λ i ne. h (suc i) (omega arith)) in
      (
        find-append_left c (flatten t) none_here ∙ finds,
        rw count-append (omega (arith, none_here, counts)),
      )

-- The entries of a valid hash, taken together, read as the hash does.
pub flatten-lookup :
    (h : Hash) (q : Bytes)
    → IsValid h
    → (find (has_key q) (flatten h.table) ≡ lookup h q) × (count (has_key q) (flatten h.table) ≤ 1)
unfolding view
flatten-lookup h q v =
    let (finds, counts) =
      one_bucket (has_key q) h.table (home q h.num_buckets)
        (λ i ne. (v.placed q i).1 (λ e. ne (sym e))) in
    (finds, omega (arith, counts, (v.placed q (home q h.num_buckets)).0))

abbrev first_of : Option (CStr × ℕ) → Option (CStr × ℕ) → Option (CStr × ℕ)
first_of none b = b
first_of (some a) b = some a

-- `r` has the entries of `nh` and, under other keys, the entries `es`.
record Copied (nh : Hash) (es : List Entry) (r : Hash) : Type 0 where
  valid : IsValid r
  reads :
      (q : Bytes)
      → binding (lookup r q) ≡ first_of (binding (lookup nh q)) (binding (find (has_key q) es))
  total : r.tot ≡ nh.tot + length es
  buckets : r.num_buckets ≡ nh.num_buckets
  scope : r.process ≡ nh.process
  hits : r.hits ≡ nh.hits
  comparisons : r.reads ≡ nh.reads

binding-none : (o : Option Entry) → binding o ≡ none → o ≡ none
binding-none none h = refl
binding-none (some e) h = absurd (cc)

Copied-nil : (nh : Hash) → IsValid nh → Copied nh [] nh
unfolding find
Copied-nil nh w = record {
  valid = w;
  reads = λ q. elim (binding (lookup nh q)) as (λ b. b ≡ first_of b none) [
    | none ↦ refl
    | some a ↦ refl
  ];
  total = omega arith;
  buckets = refl;
  scope = refl;
  hits = refl;
  comparisons = refl;
}

module _ (nh : Hash) (x : Entry) (es : List Entry) (w : IsValid nh)
    (once : (q : Bytes) → count (has_key q) (x ∷ es) ≤ 1)
    (apart : (q : Bytes) → 0 < count (has_key q) (x ∷ es) → lookup nh q ≡ none) where
  abbrev reply : Reply
  reply = add_hash nh x.key none x.value

  written : Writes nh x.key.text (x.key, x.value) reply
  written = add_hash_lem nh x.key x.value w

  key_here : (q : Bytes) → same_text x.key.text q ≡ true → has_key q x ≡ true
  key_here q y = rw (← same_text→eq x.key.text q y) (same_text_refl x.key.text)

  first_absent : lookup nh x.key.text ≡ none
  first_absent = apart x.key.text (unfold count in rw (same_text_refl x.key.text) (omega arith))

  rest_once : (q : Bytes) → count (has_key q) es ≤ 1
  rest_once q = unfold count in omega (arith, once q)

  rest_apart : (q : Bytes) → 0 < count (has_key q) es → lookup reply.hash q ≡ none
  unfolding count
  rest_apart q more = elim (Bool-cases (same_text x.key.text q)) [
    | inl y ↦
        let two : one_if (has_key q x) + count (has_key q) es ≤ 1 = once q in
        absurd (omega (arith, ap one_if (key_here q y)))
    | inr n ↦ binding-none _ (written.reads q ∙ rw n (ap binding (apart q (omega arith))))
  ]

  merge :
      (q : Bytes)
      → first_of (binding (lookup reply.hash q)) (binding (find (has_key q) es))
        ≡ first_of (binding (lookup nh q)) (binding (find (has_key q) (x ∷ es)))
  unfolding find
  merge q = elim (Bool-cases (same_text x.key.text q)) [
    | inl y ↦
        let absent : lookup nh q ≡ none = rw (same_text→eq x.key.text q y) at first_absent in
        let written_here : binding (lookup reply.hash q) ≡ some (x.key, x.value) =
          written.reads q ∙ rw y in
        rw (written_here, absent, key_here q y)
    | inr n ↦
        let kept : binding (lookup reply.hash q) ≡ binding (lookup nh q) = written.reads q ∙ rw n in
        let other : has_key q x ≡ false = same_text_comm q x.key.text ∙ n in rw (kept, other)
  ]

  Copied-cons : (r : Hash) → Copied reply.hash es r → Copied nh (x ∷ es) r
  Copied-cons r c = record {
    valid = c.valid;
    reads = λ q. c.reads q ∙ merge q;
    total = omega (arith, c.total, written.total, ap found first_absent);
    buckets = c.buckets ∙ written.buckets;
    scope = c.scope ∙ written.scope;
    hits = c.hits ∙ written.hits;
    comparisons = c.comparisons ∙ written.comparisons;
  }

copy_loop_lem :
    (f : ℕ) (h nh : Hash) (es : List Entry)
    → IsValid h
    → IsValid nh
    → remaining h ≡ es
    → length es < f
    → ((q : Bytes) → count (has_key q) es ≤ 1)
    → ((q : Bytes) → 0 < count (has_key q) es → lookup nh q ≡ none)
    → (r : Hash) × (copy_loop f h nh ≡ some r) × Copied nh es r
unfolding copy_loop
copy_loop_lem zero h nh es v w e fuel once apart = absurd (omega arith)
copy_loop_lem (suc f) h nh [] v w e fuel once apart =
    let (h', s) : Yields h [] = subst (Yields h) e (next_hash_lem h v) in
    (nh, rw (s.steps, copy_loop), Copied-nil nh w)
copy_loop_lem (suc f) h nh (x ∷ es) v w e fuel once apart =
    let (h', s) : Yields h (x ∷ es) = subst (Yields h) e (next_hash_lem h v) in
    let wr = add_hash_lem nh x.key x.value w in
    let (r, run, c) =
      copy_loop_lem f h' (add_hash nh x.key none x.value).hash es (Step-IsValid v s) wr.valid s.rest
        (omega arith) (rest_once nh x es w once apart) (rest_apart nh x es w once apart) in
    (r, rw (s.steps, copy_loop) run, Copied-cons nh x es w once apart r c)

-- `r` is the hash `h` after a resize to `size` buckets.
pub record Resized (h : Hash) (size : ℕ) (r : Hash) : Type 0 where
  pub valid : IsValid r
  pub reads : (q : Bytes) → binding (lookup r q) ≡ binding (lookup h q)
  pub total : r.tot ≡ h.tot
  pub buckets : r.num_buckets ≡ (if ltb size 10 then 10 else size)
  pub scope : r.process ≡ h.process
  pub hits : r.hits ≡ 0
  pub comparisons : r.reads ≡ 0
  -- The traversal stands in the first bucket, behind its last entry.
  pub place : (r.dnext ≡ 0) × (r.dcurr ≡ none)

abbrev swapped : Hash → Hash → Hash
swapped h nh = record (create_hash h.num_buckets none h.process) {
  table = nh.table;
  tot = nh.tot;
  hits = nh.hits;
  reads = nh.reads;
  num_buckets = nh.num_buckets;
  process = nh.process;
  fresh = nh.fresh;
}

swapped_place : (h nh : Hash) → ((swapped h nh).dnext ≡ 0) × ((swapped h nh).dcurr ≡ none)
unfolding create_hash rewind_hash
swapped_place h nh = (
  refl,
  ap head_node (get_or-replicate (if ltb h.num_buckets 10 then 10 else h.num_buckets) 0 [])
      ∙ (unfold head_node in refl),
)

swapped-IsValid : (h nh : Hash) → IsValid nh → IsValid (swapped h nh)
swapped-IsValid h nh w =
    let (d, a) = swapped_place h nh in
    record {
      roomy = w.roomy;
      width = w.width;
      counted = w.counted;
      placed = w.placed;
      nodes = w.nodes;
      allocated = w.allocated;
      cursor = record { within = omega (arith, d); stands = λ x e. absurd (cc (a, e)) };
    }

-- Resizing always ends, within one step more than there are entries. The result is valid and has the
-- asked number of buckets but at least ten; it holds the same data and the same stored keys under
-- every text, and counts as many; its statistics start again from zero, and its traversal stands
-- behind the last entry of the first bucket.
pub resize_hash_lem :
    (h : Hash) (size : ℕ)
    → IsValid h
    → (r : Hash) × (resize_hash h size ≡ some r) × Resized h size r
unfolding resize_hash delete_hash
resize_hash_lem h size v =
    let (empty, nothing, buckets, total, scope) = create_hash_lem size h.process in
    let (nh, run, c) =
      copy_loop_lem (h.tot + 1) (rewind_hash h) (create_hash size none h.process) (flatten h.table)
        (rewind_hash-IsValid h v) empty (remaining-rewind h) (omega (arith, v.counted))
        (λ q. (flatten-lookup h q v).1) (λ q _. nothing q) in
    let (d, a) = swapped_place h nh in
    (
      swapped h nh,
      rw (run, resize_hash),
      record {
        valid = swapped-IsValid h nh c.valid;
        reads = λ q. c.reads q ∙ rw (nothing q, (flatten-lookup h q v).0);
        total = c.total ∙ omega (arith, total, v.counted);
        buckets = c.buckets ∙ buckets;
        scope = c.scope ∙ scope;
        hits = c.hits ∙ (unfold create_hash rewind_hash in refl);
        comparisons = c.comparisons ∙ (unfold create_hash rewind_hash in refl);
        place = (d, a);
      },
    )

resize_hash-remaining :
    (h : Hash) (size : ℕ) (r : Hash) → Resized h size r → remaining r ≡ flatten (drop 1 r.table)
unfolding remaining left_at from_node
resize_hash-remaining h size r z = ap₂ (left_at r.table) z.place.0 z.place.1

length-flatten-drop : (t : List (List Entry)) → length (flatten (drop 1 t)) ≤ length (flatten t)
unfolding flatten
length-flatten-drop [] = omega arith
length-flatten-drop (c ∷ t) = omega (arith, length-append c (flatten t))

-- A traversal of a valid hash that goes on after a resize, without a rewind, passes over the first bucket:
-- asked until no key is left, it yields the entries of the other buckets and none of the first.
pub collect-resize_hash :
    (h : Hash) (size : ℕ)
    → IsValid h
    → (r : Hash) × (resize_hash h size ≡ some r)
      × (collect (r.tot + 1) r ≡ some (map pair_of (flatten (drop 1 r.table))))
collect-resize_hash h size v =
    let (r, run, z) = resize_hash_lem h size v in
    (
      r,
      run,
      collect-remaining (r.tot + 1) r (flatten (drop 1 r.table)) z.valid
          (resize_hash-remaining h size r z)
          (omega (arith, z.valid.counted, length-flatten-drop r.table)),
    )
