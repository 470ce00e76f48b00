-- ===== src/Json/Nodes.antt =====
-- json.c: a document as it is kept, `vely_json`, and reading from it: vely_set_json,
-- vely_add_json_hash, vely_read_json, vely_begin_json and vely_next_json, with the parser between the
-- first two. The hash table has the number of a node, from 1, for its address, and a name ends at
-- its terminator. Each function has `none` for an access through a pointer that is NULL.
pub mod Read
pub mod Walk
pub mod Whole
pub mod Room
pub mod Tests
use vely.Base.{
  ℕ, zero, suc, ◌++◌, leb, ◌*◌, ◌+◌, ◌-◌, Bool, true, false, not, Option, none, some, List, [], ◌∷◌,
  ltb, ◌==◌, get_or, length, if◌then◌else◌, Bytes, ◌||◌,
}
use vely.Hash.{Hash, CStr, Reply, okay, err_exist, create_hash, add_hash, find_hash}
use vely.Json.Name.{JsonNode}
use vely.Json.Parse.{
  JsonLeaf, JsonKind, string_kind, NodeCall, Parser, Settings, Run, json_new, ended, strayed, spent,
}

pub record JsonDoc : Type 0 where
  pub nodes : List JsonLeaf
  pub hash : Option Hash
  pub maxhash : ℕ
  pub dnext : ℕ
  pub usehash : Bool
  pub node_handler : Option (List NodeCall → Bool)

-- `none` is -1, for which 10000 is taken; another size below 0 is a size below 10.
unfoldable pub set_json : Option ℕ → Bool → Option (List NodeCall → Bool) → JsonDoc
set_json maxhash usehash nodeh =
    let m : ℕ = elim maxhash [ none ↦ 10000 | some n ↦ n ] in
    record {
      nodes = [];
      hash = none;
      maxhash = if ltb m 10 then 10 else m;
      dnext = 0;
      usehash = usehash;
      node_handler = nodeh;
    }

-- A name as the C library reads it.
unfoldable pub c_text : Bytes → Bytes
c_text [] = []
c_text (c ∷ s) = let rest = c_text s in if c == 0 then [] else c ∷ rest

-- The name of a node as a key; its address is not read.
abbrev pub node_key : ℕ → JsonLeaf → CStr
node_key k n = record { address = k; text = c_text n.name }

-- The loop of `vely_add_json_hash`, from the node of number `k`.
unfoldable pub fill : ℕ → List JsonLeaf → Hash → Hash
unfolding c_text
fill k [] h = h
fill k (n ∷ ns) h = fill (k + 1) ns (add_hash h (node_key k n) none k).hash

-- It is called with a hash only; without one there are no nodes.
unfoldable pub add_json_hash : JsonDoc → JsonDoc
unfolding fill
add_json_hash j =
    let c = length j.nodes in
    let size : ℕ = if ltb j.maxhash c then j.maxhash else c in
    if j.usehash then record j { hash = some (fill 1 j.nodes (create_hash size none false)) } else j

abbrev pub settings_of : JsonDoc → Bool → ℕ → Settings
settings_of j dec len = record {
  use_hash = j.usehash;
  handler = j.node_handler;
  dec = dec;
  len = len;
}

-- What the root call of the parser leaves in the document.
unfoldable pub parsed : JsonDoc → Run → Option (Parser × JsonDoc)
unfolding add_json_hash
parsed j (ended p) = some (p, add_json_hash (record j { nodes = p.nodes }))
parsed j strayed = none
parsed j spent = none

-- The root call of the parser on a document that has been set up.
unfoldable pub parse_json :
    ℕ → JsonDoc → Bool → ℕ → List JsonNode → Bytes → Option (Parser × JsonDoc)
unfolding parsed
parse_json fuel j dec kept old val =
    let s = settings_of j dec (length val) in parsed j (json_new fuel s kept old val)

-- `nodes[i]`.
unfoldable pub node_at : ℕ → List JsonLeaf → JsonLeaf
node_at i ns = get_or ns i (record { name = []; kind = string_kind; str = [] })

-- `vely_read_json` after the search; `none` inside is VV_ERR_EXIST.
unfoldable pub read_found : JsonDoc → Reply → JsonDoc × Option (Bytes × JsonKind)
unfolding node_at
read_found j r =
    let n = node_at (r.value - 1) j.nodes in
    let j' = record j { hash = some r.hash } in
    elim r.status [ err_exist ↦ (j', none) | okay ↦ (j', some (n.str, n.kind)) ]

unfoldable pub read_json :
    JsonDoc → Bytes → Option (List Bytes) → Option (JsonDoc × Option (Bytes × JsonKind))
unfolding read_found
read_json j key keylist =
    if not j.usehash
    then some (j, none)
    else elim j.hash [ none ↦ none | some h ↦ some (read_found j (find_hash h key keylist false)) ]

unfoldable pub begin_json : JsonDoc → JsonDoc
begin_json j = record j { dnext = 0 }

-- `none` is VV_ERR_EXIST.
unfoldable pub next_json : JsonDoc → JsonDoc × Option JsonLeaf
unfolding node_at
next_json j =
    if not j.usehash || not (ltb j.dnext (length j.nodes))
    then (j, none)
    else (record j { dnext = j.dnext + 1 }, some (node_at j.dnext j.nodes))

-- What `vely_del_json` releases, in its order; a name by the index of its node.
pub data Released : Type 0 where
  name_at : ℕ → Released
  all_nodes : Released
  hash_table : Option Hash → Released
  whole : Released

-- The loop of `vely_del_json`, from the node at `i`.
unfoldable pub free_names : ℕ → List JsonLeaf → List Released
free_names i [] = []
free_names i (n ∷ ns) = name_at i ∷ free_names (i + 1) ns

unfoldable pub del_json : JsonDoc → List Released
unfolding free_names
del_json j =
    let nodes = if length j.nodes == 0 then [] else all_nodes ∷ [] in
    let hash = if j.usehash then hash_table j.hash ∷ [] else [] in
    free_names 0 j.nodes ++ nodes ++ hash ++ whole ∷ []

-- How many nodes there are, how many there is room for, and by how much the room grew last.
pub record NodeRoom : Type 0 where
  pub node_c : ℕ
  pub node_tot : ℕ
  pub incby : ℕ

-- `vely_add_json`.
unfoldable pub add_room : NodeRoom → NodeRoom
add_room r =
    let first : ℕ = if r.node_tot == 0 then 16 else r.incby in
    let more : ℕ = if ltb first 4096 then first * 2 else first in
    if leb r.node_tot r.node_c
    then record r { node_tot = r.node_tot + more; incby = more }
    else record r { incby = first }

-- VV_ADD_JSON: the room for a node, and the node written, where that is inside of the room.
unfoldable pub write_node : NodeRoom → Option NodeRoom
unfolding add_room
write_node r =
    let r' = add_room r in
    if ltb r'.node_c r'.node_tot then some (record r' { node_c = r'.node_c + 1 }) else none

-- The nodes of a document, one after the other.
unfoldable pub write_nodes : ℕ → NodeRoom → Option NodeRoom
unfolding write_node
write_nodes zero r = some r
write_nodes (suc n) r = elim (write_node r) [ none ↦ none | some r' ↦ write_nodes n r' ]

-- The room at the root call; `old` is what the static variable holds from the document before.
abbrev pub no_room : ℕ → NodeRoom
no_room old = record { node_c = 0; node_tot = 0; incby = old }
