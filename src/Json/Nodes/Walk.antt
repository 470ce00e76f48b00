-- ===== src/Json/Nodes/Walk.antt =====
-- The traversal of a document.
use vely.Base.{
  ℕ, zero, suc, ◌+◌, ◌≤◌, ◌<◌, ◌≡◌, refl, ◌∙◌, ap, sym, true, false, not, Option, none, some, List,
  [], ◌∷◌, ltb, ◌||◌, length, drop, if◌then◌else◌, inl, inr, arith, Bool-cases, ltb→lt,
}
use vely.Json.Parse.{JsonLeaf}
use vely.Json.Nodes.{JsonDoc, node_at, begin_json, next_json}

abbrev before : JsonLeaf → Option (List JsonLeaf × JsonDoc) → Option (List JsonLeaf × JsonDoc)
before n none = none
before n (some (ns, j)) = some (n ∷ ns, j)

abbrev turn :
    (JsonDoc → Option (List JsonLeaf × JsonDoc))
    → JsonDoc × Option JsonLeaf
    → Option (List JsonLeaf × JsonDoc)
turn go (j, none) = some ([], j)
turn go (j, some n) = before n (go j)

-- What `vely_next_json` gives until VV_ERR_EXIST, on fuel, and the document then.
unfoldable pub collect_json : ℕ → JsonDoc → Option (List JsonLeaf × JsonDoc)
collect_json zero j = none
collect_json (suc fuel) j = turn (collect_json fuel) (next_json j)

drop_node :
    (i : ℕ) (ns : List JsonLeaf) → i < length ns → drop i ns ≡ node_at i ns ∷ drop (suc i) ns
unfolding node_at
drop_node zero [] h = absurd (omega arith)
drop_node (suc i) [] h = absurd (omega arith)
drop_node zero (n ∷ ns) h = refl
drop_node (suc i) (n ∷ ns) h = drop_node i ns (omega arith)

drop_all : (ns : List JsonLeaf) → drop (length ns) ns ≡ []
drop_all [] = refl
drop_all (n ∷ ns) = drop_all ns

module _ (j : JsonDoc) (on : j.usehash ≡ true) where
  next_json-inside :
      ltb j.dnext (length j.nodes) ≡ true
      → next_json j ≡ (record j { dnext = j.dnext + 1 }, some (node_at j.dnext j.nodes))
  unfolding next_json
  next_json-inside y =
      let test : (not j.usehash || not (ltb j.dnext (length j.nodes))) ≡ false = rw (on, y) in
      ap
        (λ b.
          if b
          then (j, none)
          else (record j { dnext = j.dnext + 1 }, some (node_at j.dnext j.nodes)))
        test

  next_json-over : ltb j.dnext (length j.nodes) ≡ false → next_json j ≡ (j, none)
  unfolding next_json
  next_json-over y =
      let test : (not j.usehash || not (ltb j.dnext (length j.nodes))) ≡ true = rw (on, y) in
      ap
        (λ b.
          if b
          then (j, none)
          else (record j { dnext = j.dnext + 1 }, some (node_at j.dnext j.nodes)))
        test

collect_from :
    (fuel : ℕ) (j : JsonDoc)
    → j.usehash ≡ true
    → j.dnext ≤ length j.nodes
    → length j.nodes < j.dnext + fuel
    → collect_json fuel j ≡ some (drop j.dnext j.nodes, record j { dnext = length j.nodes })
unfolding collect_json
collect_from zero j on h k = absurd (omega arith)
collect_from (suc fuel) j on h k = elim (Bool-cases (ltb j.dnext (length j.nodes))) [
  | inl y ↦
      let inside = ltb→lt j.dnext (length j.nodes) y in
      let next = record j { dnext = j.dnext + 1 } in
      let up : suc j.dnext ≡ j.dnext + 1 = omega arith in
      ap (turn (collect_json fuel)) (next_json-inside j on y)
      ∙ ap (before (node_at j.dnext j.nodes))
          (collect_from fuel next on (omega arith) (omega arith))
      ∙ ap (λ l. some (l, record j { dnext = length j.nodes }))
          (sym (
            drop_node j.dnext j.nodes inside
            ∙ ap (λ k. node_at j.dnext j.nodes ∷ drop k j.nodes) up))
  | inr y ↦
      let end : j.dnext ≡ length j.nodes = ground arith in
      ap (turn (collect_json fuel)) (next_json-over j on y)
      ∙ ap (λ l. some (l, j)) (sym (ap (λ k. drop k j.nodes) end ∙ drop_all j.nodes))
      ∙ ap (λ k. some (drop j.dnext j.nodes, record j { dnext = k })) end
]

-- From the beginning of a document that has a hash, the calls of vely_next_json give its nodes in
-- order and then VV_ERR_EXIST, and leave the position behind the last one.
pub collect_json-begin_json :
    (j : JsonDoc)
    → j.usehash ≡ true
    → collect_json (length j.nodes + 1) (begin_json j)
      ≡ some (j.nodes, record j { dnext = length j.nodes })
unfolding begin_json
collect_json-begin_json j on =
    collect_from (length j.nodes + 1) (record j { dnext = 0 }) on (omega arith) (omega arith)
