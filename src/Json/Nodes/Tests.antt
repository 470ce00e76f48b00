-- ===== src/Json/Nodes/Tests.antt =====
-- Runs of reading from a document, and the concrete inputs for its theorems.
use vely.Base.{ℕ, ◌≡◌, refl, true, none, some, Option, [], ◌∷◌, Bytes, codes, ◌+◌, ◌*◌, ◌≤◌}
use vely.Json.Parse.{JsonKind, number_kind, string_kind}
use vely.Hash.{Hash, create_hash, add_hash, find_hash}
use vely.Json.Nodes.{
  JsonDoc, set_json, add_json_hash, fill, read_json, read_found, NodeRoom, write_nodes, add_room,
  no_room, del_json, hash_table, whole,
}
use vely.Json.Nodes.Read.{last_named, answer, searched, read_json-add_json_hash}
use vely.Json.Nodes.Room.{write_nodes_lem}

abbrev answered : Option (JsonDoc × Option (Bytes × JsonKind)) → Option (Option (Bytes × JsonKind))
answered none = none
answered (some (j, r)) = some r

-- Two nodes of one name: the second is read.
abbrev twice : JsonDoc
twice = record (set_json none true none) {
  nodes =
      record { name = codes "a"; kind = number_kind; str = codes "1" }
      ∷ record { name = codes "a"; kind = string_kind; str = codes "x" }
      ∷ [];
}

second_read :
    answered (read_json (add_json_hash twice) (codes "a") none)
    ≡ some (some (codes "x", string_kind))
unfolding set_json add_json_hash fill read_json read_found create_hash add_hash find_hash
second_read = refl

missing : answered (read_json (add_json_hash twice) (codes "b") none) ≡ some none
unfolding set_json add_json_hash fill read_json read_found create_hash add_hash find_hash
missing = refl

read_json-add_json_hash_example :
    (h : Hash) × ((add_json_hash twice).hash ≡ some h)
    × ((n : ℕ) × (read_json (add_json_hash twice) (codes "a") none
          ≡ some (
            record twice { hash = some (searched h n) },
            answer (last_named (codes "a") twice.nodes),
          )))
unfolding set_json
read_json-add_json_hash_example = read_json-add_json_hash twice refl (codes "a")

write_nodes_lem_example :
    (r : NodeRoom) × (write_nodes 100 (add_room (no_room 4096)) ≡ some r)
    × (r.node_c ≡ 100)
    × (100 ≤ r.node_tot)
    × (r.node_tot ≤ 2 * 100 + 32)
write_nodes_lem_example = write_nodes_lem 100 4096

-- A document that was refused before its first value leaves the list of nodes behind.
nothing_freed : del_json (set_json none true none) ≡ hash_table none ∷ whole ∷ []
unfolding set_json del_json
nothing_freed = refl
