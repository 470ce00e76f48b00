-- ===== src/Json/Parse/FullNames.antt =====
-- The leaves of a document under the names that `vely_json_fullname` writes, and under those of their paths.
use vely.Base.{ℕ, ◌+◌, ◌≤◌, ◌≡◌, refl, ◌∙◌, ap, List, [], ◌∷◌, ◌++◌, All, arith}
use vely.Json.Name.{JsonNode, IsStored, fullname, path_name, fullname-path_name}
use vely.Json.Parse.{JsonLeaf}
use vely.Json.Parse.Document.{
  Value, Item, Members, Values, leaf, object, plain, array, no_members, member, no_values, value,
  leaves_value, leaves_item, leaves_members, leaves_values, count_values, named, indexed, leaf_kind,
  leaf_text, IsValue, IsItem, IsMembers, IsValues, is_leaf, is_object, is_plain, is_array,
  is_member, is_value,
}

below-IsStored :
    (path : List JsonNode) (n : JsonNode)
    → All IsStored path
    → IsStored n
    → All IsStored (path ++ (n ∷ []))
below-IsStored [] n h s = (s, tt)
below-IsStored (m ∷ path) n (k, h) s = (k, below-IsStored path n h s)

both : {a b c d : List JsonLeaf} → a ≡ c → b ≡ d → a ++ b ≡ c ++ d
both {b = b} {c = c} e f = ap (λ l. l ++ b) e ∙ ap (λ l. c ++ l) f

mutual
  unfolding leaves_value leaves_item leaves_members leaves_values count_values

  pub value_names :
      (v : Value)
      → IsValue v
      → (path : List JsonNode) → All IsStored path
      → leaves_value fullname path v ≡ leaves_value path_name path v
  value_names (leaf l) (is_leaf is) path h =
      ap (λ w. record { name = w; kind = leaf_kind l; str = leaf_text l } ∷ [])
        (fullname-path_name path h)
  value_names (object name i ms) (is_object nm it mm) path h =
      both (item_names i it path (named name) h (omega arith, tt)) (members_names ms mm path h)

  item_names :
      (i : Item)
      → IsItem i
      → (path : List JsonNode) (n : JsonNode) → All IsStored path
      → IsStored n
      → leaves_item fullname path n i ≡ leaves_item path_name path n i
  item_names (plain v) (is_plain is) path n h s =
      value_names v is (path ++ (n ∷ [])) (below-IsStored path n h s)
  item_names (array v vs) (is_array is ws fits) path n h s =
      both
        (value_names v is (path ++ (indexed n 0 ∷ []))
          (below-IsStored path (indexed n 0) h (s.0, omega arith)))
        (values_names vs ws path n 1 h s (omega arith))

  members_names :
      (ms : Members)
      → IsMembers ms
      → (path : List JsonNode) → All IsStored path
      → leaves_members fullname path ms ≡ leaves_members path_name path ms
  members_names no_members is path h = refl
  members_names (member name i ms) (is_member nm it mm) path h =
      both (item_names i it path (named name) h (omega arith, tt)) (members_names ms mm path h)

  values_names :
      (vs : Values)
      → IsValues vs
      → (path : List JsonNode) (n : JsonNode) (k : ℕ) → All IsStored path
      → IsStored n
      → k + count_values vs ≤ 9223372036854775808
      → leaves_values fullname path n k vs ≡ leaves_values path_name path n k vs
  values_names no_values is path n k h s fits = refl
  values_names (value v vs) (is_value is ws) path n k h s fits =
      both
        (value_names v is (path ++ (indexed n k ∷ []))
          (below-IsStored path (indexed n k) h (s.0, omega arith)))
        (values_names vs ws path n (k + 1) h s (omega arith))
