-- ===== src/Json/Parse/Refine.antt =====
-- The parser reads the documents that are written as they should be.
use vely.Base.{
  ℕ, zero, suc, ◌+◌, ◌-◌, ◌≤◌, ◌<◌, refl, sym, ◌∙◌, subst, none, List, [], ◌∷◌, ◌++◌, Bytes, length,
  length-append, arith, append-nil,
}
use vely.Json.Name.{JsonNode, fullname}
use vely.Json.Parse.{Parser, JsonLeaf, run, advance}
use vely.Json.Parse.Document.{
  Value, Item, Members, Values, leaf, object, plain, array, no_members, member, no_values, value,
  put_value, put_item, put_members, put_values, leaves_value, leaves_item, leaves_members,
  leaves_values, height_value, height_item, height_members, height_values, named, indexed,
  IsMembers, IsValues, is_leaf, is_object, is_plain, is_array, is_member, is_value,
}
use vely.Json.Parse.Steps.{
  Stands, reading, passed, lower, in_object, in_array, run-open_object, run-next_member,
  run-close_object,
}
use vely.Json.Parse.Names.{shallower, run-open_array, run-next_value, run-close_array}
use vely.Json.Parse.Leaves.{leaf_lem}
use vely.Json.Parse.Calls.{
  relevel, regroup, Reads, closing, members-IsDelimited, values-IsDelimited, ValueReads, ItemReads,
  read_element, read_member,
}

mutual
  unfolding put_value put_item put_members put_values leaves_value leaves_item leaves_members
      leaves_values height_value height_item height_members height_values

  read_value : (v : Value) → ValueReads v
  read_value v zero len path junk depth ns t p is d z k l m h = absurd (omega (arith, h.place))
  read_value (leaf x) (suc fuel) len path junk depth ns t p (is_leaf is) d z k l m h =
      let (q, e, st) = leaf_lem fuel x p is d z h in (q, junk, e, st)
  read_value (object name i ms) (suc fuel) len path junk depth ns t p (is_object nm it mm) d z k l m
        h =
      let p1 = advance 1 (record p { nulled = 0 }) in
      let (f2, p2, junk2, e2, m2, h2) =
        read_member name i (read_item i) len path depth ns (put_members ms (125 ∷ t)) fuel junk p1
          nm it (members-IsDelimited ms t) k (omega arith) (omega arith) (passed p h) in
      let (q, junk3, e3, h3) =
        read_members ms f2 len path junk2 depth (ns ++ leaves_item fullname path (named name) i) t
          p2 mm k (omega arith) m2 h2 in
      (q, junk3, run-open_object fuel p h ∙ e2 ∙ e3, regroup ns _ _ h3)

  read_item : (i : Item) → ItemReads i
  read_item i zero len path n junk depth ns t p b is d z k l m h = absurd (omega (arith, h.place))
  read_item (plain v) (suc fuel) len path n junk depth ns t p b (is_plain is) d z k l m h =
      let size = length-append path (n ∷ []) in
      let (q, junk1, e, st) =
        read_value v (suc fuel) len (path ++ (n ∷ [])) junk depth ns t p is d z (omega arith) l m
          (relevel (omega arith) h) in
      (q, n ∷ junk1, e, shallower b (relevel (omega arith) st))
  read_item (array v vs) (suc fuel) len path n junk depth ns t p b (is_array is ws fits) d z k l m
        h =
      let path1 = path ++ (indexed n 0 ∷ []) in
      let size = length-append path (indexed n 0 ∷ []) in
      let (q, e, st, z1) = run-open_array path n fuel p b h in
      let (f, r, junk1, e1, m1, st1) =
        read_element v (read_value v) fuel len path1 junk depth ns (put_values vs (93 ∷ t)) q is
          (values-IsDelimited vs t) z1 (omega arith) (omega arith)
          (omega (arith, h.place, st.place)) (relevel (omega arith) st) in
      let (q2, junk2, e2, st2) =
        read_values vs 0 f len path n junk1 depth (ns ++ leaves_value fullname path1 v) t r ws k
          (omega arith) m1 (relevel (omega arith) st1) in
      (q2, junk2, e ∙ e1 ∙ e2, regroup ns _ _ st2)

  read_members :
      (ms : Members) (fuel len : ℕ) (path junk : List JsonNode) (depth : ℕ) (ns : List JsonLeaf)
      (t : Bytes) (p : Parser)
      → IsMembers ms
      → length path ≤ depth
      → depth + 1 + height_members ms ≤ 31
      → len < p.at + fuel
      → Stands len path junk (length path + 1) (depth + 1) ns (put_members ms (125 ∷ t)) p
      → Reads len path
          (length path)
          depth
          (ns ++ leaves_members fullname path ms)
          t
          (run fuel (reading len) in_object p)
  read_members ms zero len path junk depth ns t p is k l m h = absurd (omega (arith, h.place))
  read_members no_members (suc fuel) len path junk depth ns t p is k l m h =
      let q = advance 1 (record p { nulled = 0 }) in
      (
        record q { lc = q.lc - 1; depth = q.depth - 1 },
        junk,
        run-close_object fuel p h,
        subst
            (λ l.
              Stands len path junk (length path) depth l t
                (record q { lc = q.lc - 1; depth = q.depth - 1 }))
            (sym (append-nil ns))
            (closing (record q { lc = q.lc - 1 }) (lower q (passed p h) refl)),
      )
  read_members (member name i ms) (suc fuel) len path junk depth ns t p (is_member nm it mm) k l m
        h =
      let p1 = advance 1 (record p { nulled = 0 }) in
      let (f2, p2, junk2, e2, m2, h2) =
        read_member name i (read_item i) len path depth ns (put_members ms (125 ∷ t)) fuel junk p1
          nm it (members-IsDelimited ms t) k (omega arith) (omega arith) (passed p h) in
      let (q, junk3, e3, h3) =
        read_members ms f2 len path junk2 depth (ns ++ leaves_item fullname path (named name) i) t
          p2 mm k (omega arith) m2 h2 in
      (q, junk3, run-next_member fuel p h ∙ e2 ∙ e3, regroup ns _ _ h3)

  read_values :
      (vs : Values) (i fuel len : ℕ) (path : List JsonNode) (n : JsonNode) (junk : List JsonNode)
      (depth : ℕ) (ns : List JsonLeaf) (t : Bytes) (p : Parser)
      → IsValues vs
      → length path + 1 ≤ depth
      → depth + 1 + height_values vs ≤ 31
      → len < p.at + fuel
      → Stands len
          (path ++ (indexed n i ∷ []))
          junk
          (length path + 1)
          (depth + 1)
          ns
          (put_values vs (93 ∷ t))
          p
      → Reads len path
          (length path + 1)
          depth
          (ns ++ leaves_values fullname path n (i + 1) vs)
          t
          (run fuel (reading len) in_array p)
  read_values vs i zero len path n junk depth ns t p is k l m h = absurd (omega (arith, h.place))
  read_values no_values i (suc fuel) len path n junk depth ns t p is k l m h =
      let (q, e, st) = run-close_array path (indexed n i) fuel p h in
      let q1 = record q { depth = q.depth - 1 } in
      (
        q1,
        record n { index = none } ∷ junk,
        e,
        subst
            (λ l. Stands len path (record n { index = none } ∷ junk) (length path + 1) depth l t q1)
            (sym (append-nil ns)) (shallower refl (closing q st)),
      )
  read_values (value v vs) i (suc fuel) len path n junk depth ns t p (is_value it ws) k l m h =
      let path1 = path ++ (indexed n (i + 1) ∷ []) in
      let size = length-append path (indexed n (i + 1) ∷ []) in
      let (q, e, st, z1) = run-next_value path (indexed n i) fuel p i refl h in
      let (f, r, junk1, e1, m1, st1) =
        read_element v (read_value v) fuel len path1 junk depth ns (put_values vs (93 ∷ t)) q it
          (values-IsDelimited vs t) z1 (omega arith) (omega arith)
          (omega (arith, h.place, st.place)) (relevel (omega arith) st) in
      let (q2, junk2, e2, st2) =
        read_values vs (i + 1) f len path n junk1 depth (ns ++ leaves_value fullname path1 v) t r ws
          k (omega arith) m1 (relevel (omega arith) st1) in
      (q2, junk2, e ∙ e1 ∙ e2, regroup ns _ _ st2)
