-- ===== src/Json/Parse/Document.antt =====
-- Documents as data: a value is a leaf or an object, and a member of an object may be an array of
-- values, none of which is an array itself. How they are written, and the leaves that they have.
use vely.Base.{
  ℕ, ◌+◌, ◌<◌, ◌≢◌, Bool, some, none, List, [], ◌∷◌, ◌++◌, Bytes, codes, All, length, if◌then◌else◌,
}
use Prim.Native.Nat.{max}
use vely.Json.Grammar.{IsNumber}
use vely.Json.Write.{IsScalar, json_text, utf8_text}
use vely.Json.Name.{JsonNode}
use vely.Json.Parse.{JsonLeaf, JsonKind, string_kind, number_kind, real_kind, bool_kind, null_kind}

pub data Leaf : Type 0 where
  number : Bytes → Bool → Leaf
  string : List ℕ → Leaf
  yes_word no_word null_word : Leaf

mutual
  pub data Value : Type 0 where
    leaf : Leaf → Value
    object : Bytes → Item → Members → Value

  pub data Item : Type 0 where
    plain : Value → Item
    array : Value → Values → Item

  pub data Members : Type 0 where
    no_members : Members
    member : Bytes → Item → Members → Members

  pub data Values : Type 0 where
    no_values : Values
    value : Value → Values → Values

-- What is written, before `t`.
unfoldable pub put_leaf : Leaf → Bytes → Bytes
put_leaf (number w real) t = w ++ t
put_leaf (string us) t = 34 ∷ json_text us ++ (34 ∷ t)
put_leaf yes_word t = codes "true" ++ t
put_leaf no_word t = codes "false" ++ t
put_leaf null_word t = codes "null" ++ t

unfoldable pub put_name : Bytes → Bytes → Bytes
put_name name t = 34 ∷ name ++ (34 ∷ 58 ∷ t)

unfoldable mutual
  pub put_value : Value → Bytes → Bytes
  put_value (leaf l) t = put_leaf l t
  put_value (object name i ms) t = 123 ∷ put_name name (put_item i (put_members ms (125 ∷ t)))

  pub put_item : Item → Bytes → Bytes
  put_item (plain v) t = put_value v t
  put_item (array v vs) t = 91 ∷ put_value v (put_values vs (93 ∷ t))

  pub put_members : Members → Bytes → Bytes
  put_members no_members t = t
  put_members (member name i ms) t = 44 ∷ put_name name (put_item i (put_members ms t))

  pub put_values : Values → Bytes → Bytes
  put_values no_values t = t
  put_values (value v vs) t = 44 ∷ put_value v (put_values vs t)

unfoldable pub leaf_kind : Leaf → JsonKind
leaf_kind (number w real) = if real then real_kind else number_kind
leaf_kind (string us) = string_kind
leaf_kind yes_word = bool_kind
leaf_kind no_word = bool_kind
leaf_kind null_word = null_kind

unfoldable pub leaf_text : Leaf → Bytes
leaf_text (number w real) = w
leaf_text (string us) = utf8_text us
leaf_text yes_word = codes "true"
leaf_text no_word = codes "false"
leaf_text null_word = codes "null"

abbrev pub named : Bytes → JsonNode
named name = record { name = name; name_len = length name; index = none }

abbrev pub indexed : JsonNode → ℕ → JsonNode
indexed n k = record n { index = some k }

-- The leaves, with the names that `name_of` gives them under the names of `path`.
unfoldable mutual
  pub leaves_value : (List JsonNode → Bytes) → List JsonNode → Value → List JsonLeaf
  leaves_value name_of path (leaf l) =
      record { name = name_of path; kind = leaf_kind l; str = leaf_text l } ∷ []
  leaves_value name_of path (object name i ms) =
      leaves_item name_of path (named name) i ++ leaves_members name_of path ms

  pub leaves_item : (List JsonNode → Bytes) → List JsonNode → JsonNode → Item → List JsonLeaf
  leaves_item name_of path n (plain v) = leaves_value name_of (path ++ (n ∷ [])) v
  leaves_item name_of path n (array v vs) =
      leaves_value name_of (path ++ (indexed n 0 ∷ [])) v ++ leaves_values name_of path n 1 vs

  pub leaves_members : (List JsonNode → Bytes) → List JsonNode → Members → List JsonLeaf
  leaves_members name_of path no_members = []
  leaves_members name_of path (member name i ms) =
      leaves_item name_of path (named name) i ++ leaves_members name_of path ms

  pub leaves_values :
      (List JsonNode → Bytes) → List JsonNode → JsonNode → ℕ → Values → List JsonLeaf
  leaves_values name_of path n k no_values = []
  leaves_values name_of path n k (value v vs) =
      leaves_value name_of (path ++ (indexed n k ∷ [])) v ++ leaves_values name_of path n (k + 1) vs

-- How many calls of the parser are open at once.
unfoldable mutual
  pub height_value : Value → ℕ
  height_value (leaf l) = 1
  height_value (object name i ms) = 1 + max (height_item i) (height_members ms)

  pub height_item : Item → ℕ
  height_item (plain v) = height_value v
  height_item (array v vs) = 1 + max (height_value v) (height_values vs)

  pub height_members : Members → ℕ
  height_members no_members = 0
  height_members (member name i ms) = max (height_item i) (height_members ms)

  pub height_values : Values → ℕ
  height_values no_values = 0
  height_values (value v vs) = max (height_value v) (height_values vs)

-- How many values stand behind the first of an array.
unfoldable pub count_values : Values → ℕ
count_values no_values = 0
count_values (value v vs) = count_values vs + 1

-- Numbers of the grammar, strings of code points that can be written, and names without a quotation
-- mark, a backslash or the terminator. The index of each value of an array has at most 63 bits.
abbrev pub IsLeaf : Leaf → Type 0
IsLeaf (number w real) = IsNumber w real
IsLeaf (string us) = All IsScalar us
IsLeaf yes_word = Unit
IsLeaf no_word = Unit
IsLeaf null_word = Unit

abbrev pub IsName : Bytes → Type 0
IsName = All (λ c. (c ≢ 34) × (c ≢ 92) × (c ≢ 0))

mutual
  pub data IsValue : Value → Type 0 where
    is_leaf : {l : Leaf} → IsLeaf l → IsValue (leaf l)
    is_object :
        {name : Bytes} {i : Item} {ms : Members}
        → IsName name
        → IsItem i
        → IsMembers ms
        → IsValue (object name i ms)

  pub data IsItem : Item → Type 0 where
    is_plain : {v : Value} → IsValue v → IsItem (plain v)
    is_array :
        {v : Value} {vs : Values}
        → IsValue v
        → IsValues vs
        → count_values vs < 9223372036854775808
        → IsItem (array v vs)

  pub data IsMembers : Members → Type 0 where
    is_no_members : IsMembers no_members
    is_member :
        {name : Bytes} {i : Item} {ms : Members}
        → IsName name
        → IsItem i
        → IsMembers ms
        → IsMembers (member name i ms)

  pub data IsValues : Values → Type 0 where
    is_no_values : IsValues no_values
    is_value : {v : Value} {vs : Values} → IsValue v → IsValues vs → IsValues (value v vs)
