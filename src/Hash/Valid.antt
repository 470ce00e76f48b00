-- ===== src/Hash/Valid.antt =====
-- The invariant of a hash, its abstract map, and the constructor.
use mathlib.Core.List.{flatten}
use vely.Base.{
  ℕ, zero, suc, ◌≤◌, ◌<◌, ◌≡◌, refl, ◌∙◌, ap, Bool, true, false, Option, none, some, List, [], ◌∷◌,
  ltb, if◌then◌else◌, length, replicate, length-replicate, get_or-replicate, Bytes, arith,
}
use vely.Hash.{Hash, Entry, create_hash, delete_hash, rewind_hash, head_node}
use vely.Hash.Chain.{count, find, has_key, has_node, NodesUnique}
use vely.Hash.Place.{bucket, home, IsPlaced, view}

-- `dcurr`, where it is set, is an entry of the bucket `dnext`.
pub record IsCursor (n : ℕ) (t : List (List Entry)) (dnext : ℕ) (dcurr : Option ℕ) : Type 0 where
  pub within : dnext ≤ n
  pub stands : (a : ℕ) → dcurr ≡ some a → (dnext < n) × (0 < count (has_node a) (bucket t dnext))

pub record IsValid (h : Hash) : Type 0 where
  pub roomy : 10 ≤ h.num_buckets
  pub width : length h.table ≡ h.num_buckets
  pub counted : length (flatten h.table) ≡ h.tot
  pub placed : IsPlaced h.num_buckets h.table
  pub nodes : NodesUnique (flatten h.table)
  pub allocated : (a : ℕ) → 0 < count (has_node a) (flatten h.table) → a < h.fresh
  pub cursor : IsCursor h.num_buckets h.table h.dnext h.dcurr

-- The entry that the hash holds under a text.
abbrev pub lookup : Hash → Bytes → Option Entry
lookup h q = view h.num_buckets h.table q

flatten-replicate : (n : ℕ) → flatten {A = Entry} (replicate n []) ≡ []
unfolding flatten
flatten-replicate zero = refl
flatten-replicate (suc n) = flatten-replicate n

pub head_node-mem : (c : List Entry) (a : ℕ) → head_node c ≡ some a → 0 < count (has_node a) c
unfolding head_node count
head_node-mem [] a h = cc
head_node-mem (e ∷ c) a h = ground arith

pub head-IsCursor :
    (n : ℕ) (t : List (List Entry)) (i : ℕ) → i < n → IsCursor n t i (head_node (bucket t i))
head-IsCursor n t i h = record {
  within = omega arith;
  stands = λ a e. (h, head_node-mem (bucket t i) a e);
}

-- Rewinding keeps the invariant, and every entry.
pub rewind_hash-IsValid : (h : Hash) → IsValid h → IsValid (rewind_hash h)
unfolding rewind_hash
rewind_hash-IsValid h v = record {
  roomy = v.roomy;
  width = v.width;
  counted = v.counted;
  placed = v.placed;
  nodes = v.nodes;
  allocated = v.allocated;
  cursor = head-IsCursor h.num_buckets h.table 0 (omega (arith, v.roomy));
}

at_least_ten : (size : ℕ) → 10 ≤ (if ltb size 10 then 10 else size)
at_least_ten size = ground arith

module _ (n : ℕ) where
  abbrev no_entries : List (List Entry)
  no_entries = replicate n []

  bucket-empty : (i : ℕ) → bucket no_entries i ≡ []
  bucket-empty i = get_or-replicate n i []

  count-empty : (p : Entry → Bool) (i : ℕ) → count p (bucket no_entries i) ≡ 0
  count-empty p i = ap (count p) (bucket-empty i) ∙ (unfold count in refl)

  count-flatten_empty : (p : Entry → Bool) → count p (flatten no_entries) ≡ 0
  count-flatten_empty p = ap (count p) (flatten-replicate n) ∙ (unfold count in refl)

  view-empty : (q : Bytes) → view n no_entries q ≡ none
  unfolding view
  view-empty q = ap (find (has_key q)) (bucket-empty (home q n)) ∙ (unfold find in refl)

-- A new hash that brings no table of its own is valid, holds nothing under any text, and has the
-- asked number of buckets but at least ten.
pub create_hash_lem :
    (size : ℕ) (process : Bool)
    → let h = create_hash size none process in
      IsValid h
      × ((q : Bytes) → lookup h q ≡ none)
      × (h.num_buckets ≡ (if ltb size 10 then 10 else size))
      × (h.tot ≡ 0)
      × (h.process ≡ process)
unfolding create_hash rewind_hash
create_hash_lem size process =
    let n : ℕ = if ltb size 10 then 10 else size in
    let large : 10 ≤ n = at_least_ten size in
    (
      record {
        roomy = large;
        width = length-replicate n [];
        counted = ap length (flatten-replicate n);
        placed =
            λ q i. (omega (arith, count-empty n (has_key q) i), λ _. count-empty n (has_key q) i);
        nodes = λ a. omega (arith, count-flatten_empty n (has_node a));
        allocated = λ a h. absurd (omega (arith, count-flatten_empty n (has_node a)));
        cursor = head-IsCursor n (no_entries n) 0 (omega arith);
      },
      view-empty n,
      refl,
      refl,
      refl,
    )

-- Purging empties the hash: what is created again has as many buckets and the same scope, is valid,
-- holds nothing, and keeps the statistics; with no hash, or unless asked to create again, none is left.
pub delete_hash_lem :
    (h : Hash)
    → 10 ≤ h.num_buckets
    → ((r : Hash) × (delete_hash (some h) true ≡ some r)
        × IsValid r
        × ((q : Bytes) → lookup r q ≡ none)
        × (r.num_buckets ≡ h.num_buckets)
        × (r.tot ≡ 0)
        × (r.process ≡ h.process)
        × (r.hits ≡ h.hits)
        × (r.reads ≡ h.reads))
      × (delete_hash (some h) false ≡ none)
      × ((recreate : Bool) → delete_hash none recreate ≡ none)
unfolding delete_hash
delete_hash_lem h roomy =
    let (valid, nothing, buckets, total, scope) = create_hash_lem h.num_buckets h.process in
    (
      (
        record (create_hash h.num_buckets none h.process) { hits = h.hits; reads = h.reads },
        refl,
        record {
          roomy = valid.roomy;
          width = valid.width;
          counted = valid.counted;
          placed = valid.placed;
          nodes = valid.nodes;
          allocated = valid.allocated;
          cursor = valid.cursor;
        },
        nothing,
        buckets ∙ ground arith,
        total,
        scope,
        refl,
        refl,
      ),
      refl,
      λ _. refl,
    )
