-- ===== src/Hash/Delete.antt =====
-- `find_hash` with deletion, and `del_hash_entry`.
use mathlib.Core.List.{flatten}
use vely.Base.{
  ℕ, zero, suc, ◌+◌, ◌≤◌, ◌<◌, ◌≡◌, ◌≢◌, refl, ◌∙◌, ap, Bool, true, false, Option, none, some, List,
  [], ◌∷◌, ◌==◌, if◌then◌else◌, length, set, Bytes, same_text, same_text→eq, same_text_comm, arith,
  Option-cases, Bool-cases, inl, inr, length-set, ==_ne, ==_refl, ==_iff, ℕ_discrete,
  get_or-set_self, get_or-set_ne, ◌-◌,
}
use vely.Hash.{
  Hash, Entry, Reply, find_hash, found_hash, del_hash_entry, next_of, relink, move_dcurr, is_match,
}
use vely.Hash.Fnv.{compute_hash-lt}
use vely.Hash.Chain.{
  count, find, erase, has_key, has_node, NodesUnique, after, before, steps, with_prev,
  find_loop_lem, find_passes, before-mem, unlink, unlink-erase, count-append, find-erase,
  count-after-le, count-erase, length-erase, count-find,
}
use vely.Hash.Place.{
  bucket, home, view, set-IsPlaced, view-set, count-flatten-set, count-bucket-le,
  length-flatten-set, next_of-bucket, map-link_next, bucket-NodesUnique,
}
use mathlib.Core.Option.{some-injective}
use vely.Hash.Find.{value_of, status_of, key_of}
use vely.Hash.Add.{found}
use vely.Hash.Valid.{head_node-mem, IsValid, IsCursor, lookup}

-- Two buckets that hold one address are one bucket.
same_bucket :
    (t : List (List Entry)) (n i j : ℕ)
    → count (has_node n) (flatten t) ≤ 1
    → 0 < count (has_node n) (bucket t i)
    → 0 < count (has_node n) (bucket t j)
    → i ≡ j
unfolding flatten
same_bucket [] n i j u a b = absurd (unfold count in omega arith)
same_bucket (c ∷ t) n zero zero u a b = refl
same_bucket (c ∷ t) n zero (suc j) u a b =
    let parts : count (has_node n) c + count (has_node n) (flatten t) ≤ 1 = rw count-append at u in
    absurd (omega (arith, count-bucket-le (has_node n) t j))
same_bucket (c ∷ t) n (suc i) zero u a b =
    let parts : count (has_node n) c + count (has_node n) (flatten t) ≤ 1 = rw count-append at u in
    absurd (omega (arith, count-bucket-le (has_node n) t i))
same_bucket (c ∷ t) n (suc i) (suc j) u a b =
    let parts : count (has_node n) c + count (has_node n) (flatten t) ≤ 1 = rw count-append at u in
    ap suc (same_bucket t n i j (omega arith) a b)

set-bucket-mem :
    (t : List (List Entry)) (i j x : ℕ) (c : List Entry)
    → i < length t
    → 0 < count (has_node x) (bucket t j)
    → (i ≡ j → 0 < count (has_node x) c)
    → 0 < count (has_node x) (bucket (set t i c) j)
set-bucket-mem t i j x c inside old same = elim (ℕ_discrete i j) [
  | yes e ↦ rw (← e, get_or-set_self t i c [] inside) (same e)
  | no ne ↦ rw (get_or-set_ne t i j c [] ne) old
]

module _ (h : Hash) (v : IsValid h) (i : ℕ) (inside : i < length h.table) (m : Entry → Bool)
    (e : Entry) (hit : find m (bucket h.table i) ≡ some e) where
  abbrev chain : List Entry
  chain = bucket h.table i

  abbrev shorter : List (List Entry)
  shorter = set h.table i (erase m chain)

  here : 0 < count (has_node e.node) chain
  here = count-find m (has_node e.node) chain e hit (==_refl e.node)

  chain-NodesUnique : NodesUnique chain
  chain-NodesUnique = bucket-NodesUnique h.table i v.nodes

  next_lem : next_of e.node h.table ≡ after e.node chain
  next_lem = next_of-bucket e.node h.table i (v.nodes e.node) here

  relink-before :
      (prev : Option Entry)
      → before m chain ≡ prev
      → relink h.table i prev (after e.node chain)
        ≡ set h.table i (unlink m prev (after e.node chain) chain)
  unfolding unlink relink
  relink-before none at = refl
  relink-before (some p) at =
      map-link_next p.node (after e.node chain) h.table i (v.nodes p.node) (before-mem m chain p at)

  table_lem : relink h.table i (before m chain) (after e.node chain) ≡ shorter
  table_lem =
      relink-before (before m chain) refl
      ∙ ap (set h.table i) (unlink-erase m chain e chain-NodesUnique hit)

  -- The state that unlinking leaves.
  abbrev left : Hash
  left = record h {
    table = shorter;
    dcurr = move_dcurr e.node (after e.node chain) h.dcurr;
    tot = h.tot - 1;
  }

  del_hash_entry_lem : del_hash_entry h e (before m chain) (some i) ≡ left
  unfolding del_hash_entry
  del_hash_entry_lem = rw (next_lem, table_lem)

  move-IsCursor :
      (d : Option ℕ)
      → IsCursor h.num_buckets h.table h.dnext d
      → IsCursor h.num_buckets shorter h.dnext (move_dcurr e.node (after e.node chain) d)
  unfolding move_dcurr
  move-IsCursor none k = record { within = k.within; stands = λ x at. absurd (cc) }
  move-IsCursor (some d) k = elim (Bool-cases (d == e.node)) [
    | inl y ↦ record {
      within = k.within;
      stands = λ x at.
          let (lt, at_d) = k.stands d refl in
          let same : i ≡ h.dnext =
            same_bucket h.table e.node i h.dnext (v.nodes e.node) here
              (rw ((==_iff d e.node).0 y) at at_d) in
          let behind = head_node-mem (after e.node chain) x (rw y at at) in
          let kept = count-after-le m (has_node x) chain e chain-NodesUnique hit in
          (
            lt,
            rw (← same, get_or-set_self h.table i (erase m chain) [] inside)
                (omega (arith, behind, kept)),
          );
    }
    | inr n ↦ record {
      within = k.within;
      stands = λ x at.
          let (lt, at_d) = k.stands d refl in
          let same : d ≡ x = some-injective d x (rw n at at) in
          (
            lt,
            set-bucket-mem h.table i h.dnext x (erase m chain) inside (rw same at at_d) (λ off.
                let in_chain : 0 < count (has_node x) chain = rw (same, ← off) at at_d in
                ground (arith, count-erase m (has_node x) chain e hit)),
          );
    }
  ]

  left-IsValid : IsValid left
  left-IsValid =
      let fewer = λ (p : Entry → Bool). count-erase m p chain e hit in
      let total = λ (p : Entry → Bool). count-flatten-set p h.table i (erase m chain) inside in
      record {
        roomy = v.roomy;
        width = length-set h.table i _ ∙ v.width;
        counted = omega (
          arith,
          length-flatten-set h.table i (erase m chain) inside,
          v.counted,
          length-erase m chain e hit,
        );
        placed = set-IsPlaced h.num_buckets h.table i (erase m chain) inside v.placed (λ q.
            let (once, away) = v.placed q i in
            (omega (arith, fewer (has_key q)), λ ne. omega (arith, fewer (has_key q), away ne)));
        nodes = λ x. omega (arith, fewer (has_node x), total (has_node x), v.nodes x);
        allocated =
            λ x some_x. v.allocated x (omega (arith, fewer (has_node x), total (has_node x)));
        cursor = move-IsCursor h.dcurr v.cursor;
      }

  -- Afterwards the text of the erased key is free, and every other text reads as before.
  left-lookup : (q : Bytes) → lookup left q ≡ (if same_text q e.key.text then none else lookup h q)
  left-lookup q = elim (ℕ_discrete (home q h.num_buckets) i) [
    | yes at ↦
        view-set h.num_buckets h.table i (erase m chain) q inside
        ∙ rw (at, ==_refl i) (find-erase m q chain e hit (v.placed q i).0 ∙ unfold view in rw at)
    | no off ↦
        view-set h.num_buckets h.table i (erase m chain) q inside
        ∙ rw (==_ne _ i off, other_text off) refl
  ]
    where
      other_text : home q h.num_buckets ≢ i → same_text q e.key.text ≡ false
      other_text off = elim (Bool-cases (same_text q e.key.text)) [
        | inl y ↦
            absurd (omega (arith, count-find m (has_key q) chain e hit y, (v.placed q i).1 off))
        | inr n ↦ n
      ]

  tot-pos : 0 < h.tot
  tot-pos =
      omega (arith, length-flatten-set h.table i [] inside, v.counted, length-erase m chain e hit)

-- `r` is the answer of a deletion under `key` from `h`.
pub record Removes (h : Hash) (key : Bytes) (r : Reply) : Type 0 where
  pub value : r.value ≡ value_of (lookup h key)
  pub status : r.status ≡ status_of (lookup h key)
  pub old_key : r.old_key ≡ key_of (lookup h key)
  pub reads : (q : Bytes) → lookup r.hash q ≡ (if same_text key q then none else lookup h q)
  pub total : r.hash.tot + found (lookup h key) ≡ h.tot
  pub buckets : r.hash.num_buckets ≡ h.num_buckets
  pub scope : r.hash.process ≡ h.process
  pub valid : IsValid r.hash

abbrev counted_search : Hash → ℕ → Hash
counted_search h n = record h { hits = h.hits + 1; reads = n }

counted-IsValid : (h : Hash) (n : ℕ) → IsValid h → IsValid (counted_search h n)
counted-IsValid h n v = record {
  roomy = v.roomy;
  width = v.width;
  counted = v.counted;
  placed = v.placed;
  nodes = v.nodes;
  allocated = v.allocated;
  cursor = v.cursor;
}

module _ (h : Hash) (key : Bytes) (n : ℕ) (v : IsValid h) where
  abbrev here_in : List Entry
  here_in = bucket h.table (home key h.num_buckets)

  abbrev answer : Option Entry → Reply
  answer o =
      found_hash h true (home key h.num_buckets)
        (n, with_prev (has_key key) (before (has_key key) here_in) o)

  -- Deleting what is not there is reading: under the searched text there is nothing anyway.
  absent-Removes : lookup h key ≡ none → Removes h key (answer none)
  unfolding found_hash
  absent-Removes absent = record {
    value = rw absent;
    status = rw absent;
    old_key = rw absent;
    reads = λ q. elim (Bool-cases (same_text key q)) [
      | inl y ↦ rw (y, ← same_text→eq key q y) absent
      | inr no_match ↦ rw no_match
    ];
    total = rw absent (omega arith);
    buckets = refl;
    scope = refl;
    valid = counted-IsValid h n v;
  }

  present-Removes : (e : Entry) → lookup h key ≡ some e → Removes h key (answer (some e))
  unfolding found_hash
  present-Removes e present =
      let h' = counted_search h n in
      let v' = counted-IsValid h n v in
      let i = home key h.num_buckets in
      let m = has_key key in
      let inside : i < length h.table =
        unfold home in
        omega (arith, v.width, compute_hash-lt key none h.num_buckets (omega (arith, v.roomy))) in
      let hit : find m here_in ≡ some e = unfold view in present in
      let same : key ≡ e.key.text = same_text→eq key e.key.text (find_passes m here_in e hit) in
      rw (del_hash_entry_lem h' v' i inside m e hit) (record {
        value = rw present;
        status = rw present;
        old_key = rw present;
        reads = λ q. left-lookup h' v' i inside m e hit q ∙ rw (← same, same_text_comm q key);
        total = rw present (omega (arith, tot-pos h' v' i inside m e hit));
        buckets = refl;
        scope = refl;
        valid = left-IsValid h' v' i inside m e hit;
      })

-- Deleting under a key keeps the invariant, and answers with the data and the stored key that the
-- hash held under its text, or with NULL and VV_ERR_EXIST. Afterwards the hash holds nothing under
-- that text and under every other text the entry that it held before, and it counts one less
-- exactly when there was something to delete.
pub find_hash_delete :
    (h : Hash) (key : Bytes) → IsValid h → Removes h key (find_hash h key none true)
unfolding find_hash is_match home view
find_hash_delete h key v =
    let m = has_key key in
    let c = bucket h.table (home key h.num_buckets) in
    let n = h.reads + steps m c in
    rw (find_loop_lem m c h.reads) (elim (Option-cases (find m c)) [
      | inl absent ↦ rw absent (absent-Removes h key n v absent)
      | inr (e, present) ↦ rw present (present-Removes h key n v e present)
    ])
