-- ===== src/Json/Parse/Calls.antt =====
-- What a call of the parser for a nested value leaves behind, and how its caller goes on.
use vely.Base.{
  ℕ, zero, suc, ◌+◌, ◌-◌, ◌≤◌, ◌<◌, ◌≡◌, refl, ◌∙◌, ap, subst, false, some, none, List, [], ◌∷◌,
  ◌++◌, Bytes, length, length-append, leb, arith, append_assoc, inl, inr,
}
use vely.Json.Name.{JsonNode, fullname}
use vely.Json.Parse.{
  Frame, Parser, JsonLeaf, Run, ended, run, enter, resume, end_call, fresh, advance,
}
use vely.Json.Parse.Ends.{IsDone, run-IsDone}
use vely.Json.Parse.Document.{
  Value, Item, Members, Values, leaf, object, plain, array, no_members, member, no_values, value,
  put_value, put_item, put_members, put_values, put_name, leaves_value, leaves_item, height_value,
  height_item, named, IsName, IsValue, IsItem,
}
use vely.Json.Parse.Steps.{
  Stands, IsBlank, reading, passed, naming, before_colon, in_object, in_array, run-colon,
}
use vely.Json.Parse.Names.{deeper, run-name}
use vely.Json.Parse.Leaves.{IsDelimited}

pub relevel :
    {len : ℕ} {path junk : List JsonNode} {lc k depth : ℕ} {ns : List JsonLeaf} {t : Bytes}
    {p : Parser}
    → lc ≡ k
    → Stands len path junk lc depth ns t p
    → Stands len path junk k depth ns t p
relevel {len} {path} {junk} {depth = depth} {ns = ns} {t = t} {p = p} e h =
    subst (λ k. Stands len path junk k depth ns t p) e h

pub regroup :
    {len : ℕ} {path junk : List JsonNode} {lc depth : ℕ} (ns ns1 ns2 : List JsonLeaf) {t : Bytes}
    {p : Parser}
    → Stands len path junk lc depth ((ns ++ ns1) ++ ns2) t p
    → Stands len path junk lc depth (ns ++ (ns1 ++ ns2)) t p
regroup {len} {path} {junk} {lc} {depth} ns ns1 ns2 {t} {p} h =
    subst (λ l. Stands len path junk lc depth l t p) (append_assoc ns ns1 ns2) h

-- A call that comes to an end before `t`, with more leaves.
abbrev pub Reads : ℕ → List JsonNode → ℕ → ℕ → List JsonLeaf → Bytes → Run → Type 0
Reads len path lc depth ns t r =
    (q : Parser) × (junk : List JsonNode) × (r ≡ ended q) × Stands len path junk lc depth ns t q

-- Another loop that goes on before `t`, on fuel that is enough.
abbrev pub GoesOn : ℕ → List JsonNode → ℕ → ℕ → List JsonLeaf → Bytes → Frame → Run → Type 0
GoesOn len path lc depth ns t f r =
    (fuel : ℕ) × (q : Parser) × (junk : List JsonNode) × (r ≡ run fuel (reading len) f q)
    × (len < q.at + fuel)
    × Stands len path junk lc depth ns t q

module _ {len : ℕ} {path junk : List JsonNode} {depth : ℕ} {ns : List JsonLeaf} {t : Bytes} where
  pub closing :
      (p : Parser) {lc : ℕ}
      → Stands len path junk lc (depth + 1) ns t p
      → Stands len path junk lc depth ns t (record p { depth = p.depth - 1 })
  closing p h = record {
    text = h.text;
    place = h.place;
    names = h.names;
    level = h.level;
    deep = omega (arith, h.deep);
    leaves = h.leaves;
    clear = h.clear;
    blank = h.blank;
    room = h.room;
    whole = h.whole;
  }

  pub entered :
      (p : Parser) (go : Parser → Run)
      → Stands len path junk (length path) depth ns t p
      → length path ≤ depth
      → depth + 1 ≤ 31
      → (enter go p ≡ go (record p { depth = p.depth + 1; lc = p.lc + 1 }))
        × Stands len path junk
            (length path + 1)
            (depth + 1)
            ns
            t
            (record p { depth = p.depth + 1; lc = p.lc + 1 })
  entered p go h k l =
      let shallow : leb 32 (p.depth + 1) ≡ false = ground (arith, h.deep) in
      let short : leb 32 (p.lc + 1) ≡ false = ground (arith, h.level) in
      (
        rw (shallow, short) refl,
        record {
          text = h.text;
          place = h.place;
          names = h.names;
          level = ap (λ k. k + 1) h.level;
          deep = ap (λ k. k + 1) h.deep;
          leaves = h.leaves;
          clear = h.clear;
          blank = h.blank;
          room = h.room;
          whole = h.whole;
        },
      )

-- A call that is read, and the loop that it returns to.
pub returned :
    {len : ℕ} {path : List JsonNode} {lc depth : ℕ} {ns : List JsonLeaf} {t : Bytes} (fuel : ℕ)
    (f : Frame) (p : Parser)
    → 1 ≤ fuel
    → len < p.at + fuel
    → Reads len path lc depth ns t (run fuel (reading len) fresh p)
    → GoesOn len path lc depth ns t f
        (resume (run fuel (reading len) f) (run fuel (reading len) fresh p))
returned {len} fuel f p h k (q, junk, e, st) =
    let past : p.at ≤ q.at = subst (IsDone p.at) e (run-IsDone fuel (reading len) fresh p h k) in
    (
      fuel,
      q,
      junk,
      ap (resume (run fuel (reading len) f)) e
          ∙ ap (λ o. elim o [ none ↦ run fuel (reading len) f q | some e ↦ end_call q ]) st.clear,
      omega arith,
      st,
    )

pub members-IsDelimited : (ms : Members) (t : Bytes) → IsDelimited (put_members ms (125 ∷ t))
unfolding put_members
members-IsDelimited no_members t = inr (inr refl)
members-IsDelimited (member name i ms) t = inl refl

pub values-IsDelimited : (vs : Values) (t : Bytes) → IsDelimited (put_values vs (93 ∷ t))
unfolding put_values
values-IsDelimited no_values t = inr (inl refl)
values-IsDelimited (value v vs) t = inl refl

pub height_value_pos : (v : Value) → 1 ≤ height_value v
unfolding height_value
height_value_pos (leaf l) = omega arith
height_value_pos (object name i ms) = omega arith

pub height_item_pos : (i : Item) → 1 ≤ height_item i
unfolding height_item
height_item_pos (plain v) = height_value_pos v
height_item_pos (array v vs) = omega arith

-- What is to be shown of a value.
abbrev pub ValueReads : Value → Type 0
ValueReads v =
    (fuel len : ℕ) (path junk : List JsonNode) (depth : ℕ) (ns : List JsonLeaf) (t : Bytes)
    (p : Parser)
    → IsValue v
    → IsDelimited t
    → p.nulled ≡ 0
    → length path ≤ depth
    → depth + height_value v ≤ 31
    → len < p.at + fuel
    → Stands len path junk (length path + 1) (depth + 1) ns (put_value v t) p
    → Reads len path (length path) depth (ns ++ leaves_value fullname path v) t
        (run fuel (reading len) fresh p)

-- What is to be shown of an item.
abbrev pub ItemReads : Item → Type 0
ItemReads i =
    (fuel len : ℕ) (path : List JsonNode) (n : JsonNode) (junk : List JsonNode) (depth : ℕ)
    (ns : List JsonLeaf) (t : Bytes) (p : Parser)
    → IsBlank n
    → IsItem i
    → IsDelimited t
    → p.nulled ≡ 0
    → length path + 1 ≤ depth
    → depth + height_item i ≤ 31
    → len < p.at + fuel
    → Stands len (path ++ (n ∷ [])) junk (length path + 1 + 1) (depth + 1) ns (put_item i t) p
    → Reads len path (length path + 1) depth (ns ++ leaves_item fullname path n i) t
        (run fuel (reading len) fresh p)

-- An element of an array, and back to the array.
pub read_element :
    (v : Value)
    → ValueReads v
    → (fuel len : ℕ) (path junk : List JsonNode) (depth : ℕ) (ns : List JsonLeaf) (u : Bytes)
      (q : Parser)
    → IsValue v
    → IsDelimited u
    → q.nulled ≡ 0
    → length path ≤ depth + 1
    → depth + 1 + height_value v ≤ 31
    → len < q.at + fuel
    → Stands len path junk (length path) (depth + 1) ns (put_value v u) q
    → GoesOn len path
        (length path)
        (depth + 1)
        (ns ++ leaves_value fullname path v)
        u
        in_array
        (resume (run fuel (reading len) in_array) (enter (run fuel (reading len) fresh) q))
read_element v reads fuel len path junk depth ns u q is d z k l m h =
    let (e, st) =
      entered q (run fuel (reading len) fresh) h k (omega (arith, height_value_pos v)) in
    let q1 = record q { depth = q.depth + 1; lc = q.lc + 1 } in
    let (f, r, junk1, e1, m1, st1) =
      returned fuel in_array q1 (omega (arith, h.place)) m
        (reads fuel len path junk (depth + 1) ns u q1 is d z k l m st) in
    (f, r, junk1, ap (resume (run fuel (reading len) in_array)) e ∙ e1, m1, st1)

pub length-put_name :
    (name u : Bytes) → length (put_name name u) ≡ suc (length name + suc (suc (length u)))
unfolding put_name
length-put_name name u = omega (arith, length-append name (34 ∷ 58 ∷ u))

-- A name, its colon and what follows it.
module _ (name : Bytes) (i : Item) (reads : ItemReads i) (len : ℕ) (path : List JsonNode)
    (depth : ℕ) (ns : List JsonLeaf) (u : Bytes) where
  pub read_named :
      (fuel : ℕ) (junk : List JsonNode) (p : Parser)
      → IsItem i
      → IsDelimited u
      → length path ≤ depth
      → depth + 1 + height_item i ≤ 31
      → len < p.at + fuel
      → Stands len path (named name ∷ junk) (length path + 1) (depth + 1) ns (58 ∷ put_item i u) p
      → GoesOn len path
          (length path + 1)
          (depth + 1)
          (ns ++ leaves_item fullname path (named name) i)
          u
          in_object
          (run fuel (reading len) before_colon p)
  read_named zero junk p it d k l m h = absurd (omega (arith, h.place))
  read_named (suc fuel) junk p it d k l m h =
      let q = advance 1 (record p { nulled = 0 }) in
      let size = length-append path (named name ∷ []) in
      let (e, st) =
        entered q (run fuel (reading len) fresh)
          (relevel (omega arith) (deeper (omega arith) (passed p h))) (omega arith)
          (omega (arith, height_item_pos i)) in
      let q1 = record q { depth = q.depth + 1; lc = q.lc + 1 } in
      let (f, r, junk1, e1, m1, st1) =
        returned fuel in_object q1 (omega (arith, h.place)) (omega arith) (
          reads fuel len path (named name) junk (depth + 1) ns u q1 refl it d refl (omega arith) l
            (omega arith) (relevel (omega arith) st)) in
      (
        f,
        r,
        junk1,
        run-colon fuel p h ∙ ap (resume (run fuel (reading len) in_object)) e ∙ e1,
        m1,
        st1,
      )

  pub read_member :
      (fuel : ℕ) (junk : List JsonNode) (p : Parser)
      → IsName name
      → IsItem i
      → IsDelimited u
      → length path ≤ depth
      → depth + 1 + height_item i ≤ 31
      → len < p.at + fuel
      → Stands len path junk (length path + 1) (depth + 1) ns (put_name name (put_item i u)) p
      → GoesOn len path
          (length path + 1)
          (depth + 1)
          (ns ++ leaves_item fullname path (named name) i)
          u
          in_object
          (run fuel (reading len) naming p)
  read_member zero junk p nm it d k l m h = absurd (omega (arith, h.place))
  read_member (suc fuel) [] p nm it d k l m h = absurd (omega (arith, h.room))
  read_member (suc fuel) (n ∷ junk) p nm it d k l m h =
      let (q, e, st) = run-name fuel name p nm h in
      let (f, r, junk1, e1, m1, st1) =
        read_named fuel junk q it d k l
          (omega (arith, h.place, st.place, length-put_name name (put_item i u))) st in
      (f, r, junk1, e ∙ e1, m1, st1)
