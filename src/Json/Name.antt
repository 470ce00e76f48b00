-- ===== src/Json/Name.antt =====
-- json.c: `vely_json_fullname`, the name of a node with those of the nodes above it.
use vely.Base.{
  ℕ, zero, suc, ◌+◌, ◌*◌, ◌/◌, ◌%◌, ◌^◌, ◌≤◌, ◌<◌, ◌≡◌, refl, ◌∙◌, ap, Bool, true, false, Option,
  none, some, List, [], ◌∷◌, ◌++◌, ◌==◌, ==_ne, if◌then◌else◌, length, length-append, take, All,
  Bytes, arith, ℕ_discrete, ltb, Bool-cases, ltb→lt, inl, inr, ◌≢◌, sym, append_assoc, append-nil,
}
use native.Mathlib.Nat.{pow-suc}

-- `json_node`: the bytes that stand at `name`, and `none` where the index is -1.
pub record JsonNode : Type 0 where
  pub name : Bytes
  pub name_len : ℕ
  pub index : Option ℕ

-- The loop that counts digits. An index has 63 bits, and no more than 19 digits.
unfoldable pub count_digits : ℕ → ℕ → ℕ
count_digits zero a = 0
count_digits (suc fuel) a = let rest = count_digits fuel (a / 10) in if a == 0 then 0 else suc rest

unfoldable pub index_len : ℕ → ℕ
index_len a = if a == 0 then 1 else count_digits 20 a

-- What `nlen` is advanced by.
unfoldable pub node_len : JsonNode → ℕ
node_len n = elim n.index [
  | none ↦ 1 + 2 + n.name_len
  | some a ↦ 1 + 2 + n.name_len + 2 + index_len a
]

unfoldable pub names_len : List JsonNode → ℕ
names_len [] = 0
names_len (n ∷ list) = node_len n + names_len list

-- The bytes that are allocated.
unfoldable pub fullname_size : List JsonNode → ℕ
fullname_size [] = 3
fullname_size (n ∷ list) = names_len (n ∷ list) + 1

-- The loop that writes digits, from the last one on, where `done` holds those written.
unfoldable pub put_digits : ℕ → ℕ → Bytes → Bytes
put_digits zero a done = done
put_digits (suc fuel) a done =
    let rest = put_digits fuel (a / 10) ((48 + a % 10) ∷ done) in if a == 0 then done else rest

unfoldable pub index_text : ℕ → Bytes
index_text a = if a == 0 then 48 ∷ [] else put_digits 20 a []

unfoldable pub node_text : Bool → JsonNode → Bytes
node_text first n =
    (if first then 34 ∷ [] else 46 ∷ 34 ∷ [])
    ++ take n.name_len n.name
    ++ 34 ∷ []
    ++ elim n.index [ none ↦ [] | some a ↦ 91 ∷ index_text a ++ 93 ∷ [] ]

unfoldable pub names_text : Bool → List JsonNode → Bytes
names_text first [] = []
names_text first (n ∷ list) = node_text first n ++ names_text false list

unfoldable pub fullname : List JsonNode → Bytes
fullname [] = 34 ∷ 34 ∷ []
fullname (n ∷ list) = names_text true (n ∷ list)

-- A number in decimal digits, the first of which is no zero but for the number 0; fuel of the number
-- itself is enough.
unfoldable pub decimal_digits : ℕ → ℕ → Bytes
decimal_digits zero a = (48 + a % 10) ∷ []
decimal_digits (suc fuel) a =
    let rest = decimal_digits fuel (a / 10) in
    if ltb a 10 then (48 + a) ∷ [] else rest ++ ((48 + a % 10) ∷ [])

unfoldable pub decimal_text : ℕ → Bytes
unfolding decimal_digits
decimal_text a = decimal_digits a a

-- A normalized name: the names in quotation marks, with dots between them and with the indices in brackets.
unfoldable pub part_name : JsonNode → Bytes
unfolding decimal_text
part_name n =
    34 ∷ take n.name_len n.name
    ++ (34 ∷ elim n.index [ none ↦ [] | some a ↦ 91 ∷ decimal_text a ++ 93 ∷ [] ])

unfoldable pub path_name : List JsonNode → Bytes
unfolding part_name
path_name [] = 34 ∷ 34 ∷ []
path_name (n ∷ []) = part_name n
path_name (n ∷ m ∷ list) = part_name n ++ (46 ∷ path_name (m ∷ list))

length-put_digits :
    (fuel a : ℕ) (w : Bytes) → length (put_digits fuel a w) ≡ count_digits fuel a + length w
unfolding put_digits count_digits
length-put_digits zero a w = omega arith
length-put_digits (suc fuel) a w =
    ground (arith, length-put_digits fuel (a / 10) ((48 + a % 10) ∷ w))

tenth : (fuel a : ℕ) → a < 10 ^ suc fuel → a / 10 < 10 ^ fuel
tenth fuel a h = let more : 10 ^ suc fuel ≡ 10 ^ fuel * 10 = pow-suc 10 fuel in omega arith

abbrev digits_or_none : ℕ → ℕ → Bytes
digits_or_none fuel a = if a == 0 then [] else decimal_digits fuel a

put_digits_lem :
    (fuel g a : ℕ) (w : Bytes)
    → a < 10 ^ fuel
    → a ≤ g
    → put_digits fuel a w ≡ digits_or_none g a ++ w
unfolding put_digits decimal_digits
put_digits_lem zero g a w h k = let z : a ≡ 0 = omega arith in rw (put_digits, z) refl
put_digits_lem (suc fuel) zero a w h k = let z : a ≡ 0 = omega arith in rw (put_digits, z) refl
put_digits_lem (suc fuel) (suc g) a w h k = elim (ℕ_discrete a 0) [
  | yes e ↦ rw (put_digits, e) refl
  | no n ↦
      let last = 48 + a % 10 in
      let more = put_digits_lem fuel g (a / 10) (last ∷ w) (tenth fuel a h) (omega arith) in
      rw (put_digits, ==_ne a 0 n)
        (more ∙ elim (Bool-cases (ltb a 10)) [
          | inl y ↦
              let below = ltb→lt a 10 y in
              let z : a / 10 ≡ 0 = omega arith in
              let r : a % 10 ≡ a = omega arith in
              rw (decimal_digits, y, z) (ap (λ d. (48 + d) ∷ w) r)
          | inr y ↦
              let m : a / 10 ≢ 0 = ground arith in
              rw (decimal_digits, y, ==_ne (a / 10) 0 m)
                (sym (append_assoc (decimal_digits g (a / 10)) (last ∷ []) w))
        ])
]

length-index_text : (a : ℕ) → length (index_text a) ≡ index_len a
unfolding index_text index_len
length-index_text a = ground (arith, length-put_digits 20 a [])

index_text-decimal_text : (a : ℕ) → a < 2 ^ 63 → index_text a ≡ decimal_text a
unfolding index_text decimal_text decimal_digits
index_text-decimal_text a h = elim (ℕ_discrete a 0) [
  | yes e ↦ rw (index_text, e) refl
  | no n ↦
      rw (index_text, ==_ne a 0 n)
        (put_digits_lem 20 a a [] (omega arith) (omega arith)
          ∙ rw (==_ne a 0 n) (append-nil (decimal_digits a a)))
]

length-take : (n : ℕ) (w : Bytes) → n ≤ length w → length (take n w) ≡ n
length-take zero w h = refl
length-take (suc n) [] h = absurd (omega arith)
length-take (suc n) (c ∷ w) h = omega (arith, length-take n w)

abbrev pub IsSmall : Option ℕ → Type 0
IsSmall none = Unit
IsSmall (some a) = a < 2 ^ 63

-- A node whose name stands in memory, with an index of 63 bits where it has one.
abbrev pub IsStored : JsonNode → Type 0
IsStored n = (n.name_len ≤ length n.name) × IsSmall n.index

abbrev rest_text : Option ℕ → Bytes
rest_text o = elim o [ none ↦ [] | some a ↦ 91 ∷ index_text a ++ 93 ∷ [] ]

abbrev rest_len : Option ℕ → ℕ → ℕ
rest_len o n = elim o [ none ↦ 1 + 2 + n | some a ↦ 1 + 2 + n + 2 + index_len a ]

length-rest_text : (o : Option ℕ) (n : ℕ) → length (rest_text o) + (1 + 2 + n) ≡ rest_len o n
length-rest_text none n = omega arith
length-rest_text (some a) n =
    omega (arith, length-append (index_text a) (93 ∷ []), length-index_text a)

length-parts :
    (a b c d : Bytes) → length (a ++ b ++ c ++ d) ≡ length a + length b + length c + length d
length-parts a b c d =
    omega (arith, length-append (a ++ b ++ c) d, length-append (a ++ b) c, length-append a b)

length-node_text :
    (n : JsonNode)
    → n.name_len ≤ length n.name
    → (length (node_text true n) + 1 ≡ node_len n) × (length (node_text false n) ≡ node_len n)
unfolding node_text node_len
length-node_text n h =
    let t = length-take n.name_len n.name h in
    let r = length-rest_text n.index n.name_len in
    (
      ap (λ k. k + 1)
            (length-parts (34 ∷ []) (take n.name_len n.name) (34 ∷ []) (rest_text n.index))
          ∙ omega arith
          ∙ r,
      length-parts (46 ∷ 34 ∷ []) (take n.name_len n.name) (34 ∷ []) (rest_text n.index)
          ∙ omega arith
          ∙ r,
    )

length-names_text :
    (list : List JsonNode) → All IsStored list → length (names_text false list) ≡ names_len list
unfolding names_text names_len
length-names_text [] h = refl
length-names_text (n ∷ list) (s, h) = omega (
  arith,
  length-append (node_text false n) (names_text false list),
  length-node_text n s.0,
  length-names_text list h,
)

rest_text-decimal :
    (o : Option ℕ)
    → IsSmall o
    → rest_text o ≡ elim o [ none ↦ [] | some a ↦ 91 ∷ decimal_text a ++ 93 ∷ [] ]
rest_text-decimal none h = refl
rest_text-decimal (some a) h = ap (λ w. 91 ∷ w ++ 93 ∷ []) (index_text-decimal_text a h)

node_text-part_name : (n : JsonNode) → IsStored n → node_text true n ≡ part_name n
unfolding node_text part_name
node_text-part_name n (k, h) =
    let w = take n.name_len n.name in
    ap (λ r. 34 ∷ r)
      (append_assoc w (34 ∷ []) (rest_text n.index)
        ∙ ap (λ r. w ++ (34 ∷ r)) (rest_text-decimal n.index h))

names_text-path_name :
    (n : JsonNode) (list : List JsonNode)
    → All IsStored (n ∷ list)
    → names_text true (n ∷ list) ≡ path_name (n ∷ list)
unfolding names_text path_name node_text
names_text-path_name n [] (s, h) = append-nil (node_text true n) ∙ node_text-part_name n s
names_text-path_name n (m ∷ list) (s, h) =
    ap (λ w. w ++ (46 ∷ names_text true (m ∷ list))) (node_text-part_name n s)
    ∙ ap (λ w. part_name n ++ (46 ∷ w)) (names_text-path_name m list h)

pub fullname-path_name : (list : List JsonNode) → All IsStored list → fullname list ≡ path_name list
unfolding fullname path_name
fullname-path_name [] h = refl
fullname-path_name (n ∷ list) h = names_text-path_name n list h

-- Where each name stands in memory and each index has at most 63 bits, the full name is the names in
-- quotation marks with dots between them, each with its index, if it has one, in brackets and in decimal
-- digits; and it fits with its terminator into what is allocated for it.
pub fullname_lem :
    (list : List JsonNode)
    → All IsStored list
    → (length (fullname list) + 1 ≤ fullname_size list) × (fullname list ≡ path_name list)
unfolding fullname fullname_size names_text names_len
fullname_lem [] h = (omega arith, fullname-path_name [] h)
fullname_lem (n ∷ list) (s, h) = (
  omega (
    arith,
    length-append (node_text true n) (names_text false list),
    length-node_text n s.0,
    length-names_text list h,
  ),
  fullname-path_name (n ∷ list) (s, h),
)
