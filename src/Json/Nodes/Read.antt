-- ===== src/Json/Nodes/Read.antt =====
-- What is read from a document by a name, and one node after the other.
use vely.Base.{
  ℕ, zero, suc, ◌+◌, ◌-◌, ◌≡◌, ◌⊎◌, refl, sym, ◌∙◌, ap, subst, Bool, true, false, not, Option, none,
  some, List, [], ◌∷◌, ltb, length, if◌then◌else◌, Bytes, same_text, inl, inr, arith, Bool-cases,
}
use vely.Hash.{Hash, CStr, Entry, Reply, Status, okay, err_exist, create_hash, add_hash, find_hash}
use vely.Hash.Valid.{IsValid, lookup, create_hash_lem}
use vely.Hash.Find.{Finds, value_of, status_of, find_hash-lookup}
use vely.Hash.Add.{add_hash_lem, binding}
use vely.Json.Parse.{JsonLeaf, JsonKind}
use vely.Json.Nodes.{JsonDoc, c_text, node_key, fill, add_json_hash, node_at, read_found, read_json}

-- The last node with a name.
unfoldable pub last_named : Bytes → List JsonLeaf → Option JsonLeaf
last_named q [] = none
last_named q (n ∷ ns) = elim (last_named q ns) [
  | some m ↦ some m
  | none ↦ if same_text (c_text n.name) q then some n else none
]

abbrev datum : Option Entry → Option ℕ
datum none = none
datum (some e) = some e.value

-- The number of the node under `q` in `h1`, where `k` nodes are not in `ns`, or else what was there.
abbrev Holds : Bytes → ℕ → List JsonLeaf → Option ℕ → Option ℕ → Type 0
Holds q k ns old new =
    ((last_named q ns ≡ none) × (new ≡ old))
    ⊎ ((i : ℕ) × (last_named q ns ≡ some (node_at i ns)) × (new ≡ some (k + i)))

abbrev second : Option (CStr × ℕ) → Option ℕ
second none = none
second (some b) = some b.1

second-binding : (o : Option Entry) → second (binding o) ≡ datum o
second-binding none = refl
second-binding (some e) = refl

second-if :
    (b : Bool) (x : CStr × ℕ) (o : Option (CStr × ℕ))
    → second (if b then some x else o) ≡ (if b then some x.1 else second o)
second-if true x o = refl
second-if false x o = refl

-- One more node before the others.
extend :
    (q : Bytes) (k : ℕ) (n : JsonLeaf) (ns : List JsonLeaf) (old mid new : Option ℕ)
    → mid ≡ (if same_text (c_text n.name) q then some k else old)
    → Holds q (k + 1) ns mid new
    → Holds q k (n ∷ ns) old new
unfolding last_named node_at
extend q k n ns old mid new e (inr (i, m, x)) =
    inr (suc i, rw (m, node_at), x ∙ ap some (omega arith))
extend q k n ns old mid new e (inl (m, x)) = elim (Bool-cases (same_text (c_text n.name) q)) [
  | inl y ↦ inr (zero, rw (m, y, node_at), x ∙ e ∙ rw y (ap some (omega arith)))
  | inr y ↦ inl (rw (m, y), x ∙ e ∙ rw y)
]

fill_lem :
    (q : Bytes) (k : ℕ) (ns : List JsonLeaf) (h : Hash)
    → IsValid h
    → Holds q k ns (datum (lookup h q)) (datum (lookup (fill k ns h) q))
unfolding fill last_named
fill_lem q k [] h v = inl (refl, refl)
fill_lem q k (n ∷ ns) h v =
    let r = add_hash h (node_key k n) none k in
    let w = add_hash_lem h (node_key k n) k v in
    let mid =
      sym (second-binding (lookup r.hash q))
      ∙ ap second (w.reads q)
      ∙ second-if (same_text (c_text n.name) q) (node_key k n, k) (binding (lookup h q))
      ∙ ap (λ o. if same_text (c_text n.name) q then some k else o) (second-binding (lookup h q)) in
    extend q k n ns (datum (lookup h q)) (datum (lookup r.hash q))
      (datum (lookup (fill (k + 1) ns r.hash) q)) mid (fill_lem q (k + 1) ns r.hash w.valid)

-- What a search says.
abbrev Says : Option ℕ → ℕ → Status → Type 0
Says none v s = (v ≡ 0) × (s ≡ err_exist)
Says (some x) v s = (v ≡ x) × (s ≡ okay)

says : (o : Option Entry) → Says (datum o) (value_of o) (status_of o)
says none = (refl, refl)
says (some e) = (refl, refl)

-- The answer for a node.
abbrev pub answer : Option JsonLeaf → Option (Bytes × JsonKind)
answer none = none
answer (some n) = some (n.str, n.kind)

-- `h` after a search that made `n` comparisons.
abbrev pub searched : Hash → ℕ → Hash
searched h n = record h { hits = h.hits + 1; reads = h.reads + n }

read_found_lem :
    (q : Bytes) (j : JsonDoc) (h : Hash) (n : ℕ) (o : Option Entry) (r : Reply)
    → Finds h n o r
    → Holds q 1 j.nodes none (datum o)
    → read_found j r ≡ (record j { hash = some (searched h n) }, answer (last_named q j.nodes))
unfolding read_found
read_found_lem q j h n o r f (inl (m, x)) =
    let (v, s) = subst (λ d. Says d (value_of o) (status_of o)) x (says o) in
    rw (f.status, f.hash, s, m)
read_found_lem q j h n o r f (inr (i, m, x)) =
    let (v, s) = subst (λ d. Says d (value_of o) (status_of o)) x (says o) in
    let number : r.value - 1 ≡ i = omega (arith, f.value, v) in rw (f.status, f.hash, s, number, m)

module _ (j : JsonDoc) (on : j.usehash ≡ true) where
  abbrev table : Hash
  table = fill 1 j.nodes (
      create_hash (if ltb j.maxhash (length j.nodes) then j.maxhash else length j.nodes) none false)

  add_json_hash_lem : add_json_hash j ≡ record j { hash = some table }
  unfolding add_json_hash
  add_json_hash_lem = ap (λ b. if b then record j { hash = some table } else j) on

  table-Holds : (q : Bytes) → Holds q 1 j.nodes none (datum (lookup table q))
  table-Holds q =
      let (valid, nothing, _, _, _) =
        create_hash_lem (if ltb j.maxhash (length j.nodes) then j.maxhash else length j.nodes)
          false in
      subst (λ o. Holds q 1 j.nodes (datum o) (datum (lookup table q))) (nothing q)
        (fill_lem q 1 j.nodes _ valid)

  -- Behind vely_add_json_hash a document gives for a key the text and the type of the last node whose
  -- name, up to its terminator, is the key, or VV_ERR_EXIST where there is no such node. Reading
  -- changes the statistics of the hash table only.
  pub read_json-add_json_hash :
      (key : Bytes)
      → (h : Hash) × ((add_json_hash j).hash ≡ some h)
        × ((n : ℕ) × (read_json (add_json_hash j) key none
              ≡ some (record j { hash = some (searched h n) }, answer (last_named key j.nodes))))
  unfolding read_json
  read_json-add_json_hash key =
      let r = find_hash table key none false in
      let (n, f, _) = find_hash-lookup table key in
      let j' = record j { hash = some table } in
      (
        table,
        ap (λ d. d.hash) add_json_hash_lem,
        (
          n,
          ap (λ d. read_json d key none) add_json_hash_lem
              ∙ ap (λ b. if not b then some (j', none) else some (read_found j' r)) on
              ∙ ap some (read_found_lem key j' table n (lookup table key) r f (table-Holds key)),
        ),
      )
