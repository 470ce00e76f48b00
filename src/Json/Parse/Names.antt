-- ===== src/Json/Parse/Names.antt =====
-- Rounds of the parser that change the list of names.
use vely.Base.{
  ℕ, zero, suc, ◌+◌, ◌-◌, ◌<◌, ◌≡◌, refl, sym, ◌∙◌, ap, true, false, some, none, Option, List, [],
  ◌∷◌, ◌++◌, Bytes, length, length-append, get_or, set, drop, ◌==◌, ==_ne, ==_refl, ltb, arith,
  append_assoc, All-append, All-left, All-right,
}
use vely.Json.{done, decode_loop, decode_step, json_to_utf8, decoded}
use vely.Json.Name.{JsonNode}
use vely.Json.Parse.{
  Parser, JsonLeaf, Action, on_token, on_comma, check, token, run, enter, follow, resume, end_call,
  fresh, advance, at_name, change_index, next_index, read_string, read_text, name_memory, no_name,
}
use vely.Json.Parse.Document.{named, indexed, IsName, put_name}
use vely.Json.Parse.Steps.{
  lower, Stands, IsWhole, IsBlank, reading, run-at, passed, naming, before_colon, in_array,
}

at_name_lem :
    (p : Parser) (k : ℕ) (go : ℕ → Action) → p.lc ≡ k + 1 → k < length p.list → at_name p go ≡ go k
unfolding at_name
at_name_lem p k go e h =
    let some_name : (p.lc == 0) ≡ false = ==_ne p.lc 0 (λ z. absurd (omega arith)) in
    let inside : ltb (length p.list) p.lc ≡ false = ground arith in
    rw (at_name, some_name, inside) (ap go (omega arith))

set-append : (l r : List JsonNode) (n m : JsonNode) → set (l ++ (n ∷ r)) (length l) m ≡ l ++ (m ∷ r)
set-append [] r n m = refl
set-append (x ∷ l) r n m = ap (λ z. x ∷ z) (set-append l r n m)

get_or-append_self : (l r : List JsonNode) (n d : JsonNode) → get_or (l ++ (n ∷ r)) (length l) d ≡ n
get_or-append_self [] r n d = refl
get_or-append_self (x ∷ l) r n d = get_or-append_self l r n d

drop-nil : (n : ℕ) → drop {A = ℕ} n [] ≡ []
drop-nil zero = refl
drop-nil (suc n) = refl

pub drop_next : (n : ℕ) (r : Bytes) → drop (n + 1) r ≡ drop n (drop 1 r)
drop_next n [] = drop-nil (n + 1) ∙ sym (drop-nil n)
drop_next n (c ∷ r) = ap (λ k. drop k (c ∷ r)) {y = suc n} (omega arith)

pub drop-length : (w v : Bytes) → drop (length w) (w ++ v) ≡ v
drop-length [] v = refl
drop-length (c ∷ w) v = drop-length w v

plain_loop :
    (name t : Bytes)
    → IsName name
    → decode_loop 0 (name ++ (34 ∷ t)) ≡ done (decoded name (length name) true)
unfolding decode_loop decode_step
plain_loop [] t h = refl
plain_loop (c ∷ name) t h =
    rw (decode_loop, ==_ne c 34 h.0.0, decode_step, ==_ne c 92 h.0.1, plain_loop name t h.1) refl

pub name_string :
    (v name t : Bytes)
    → IsName name
    → v ≡ name ++ (34 ∷ t)
    → read_string true v ≡ done (name, length name)
unfolding read_string json_to_utf8
name_string v name t h e = rw (e, read_string, json_to_utf8, plain_loop name t h) refl

-- The path with one name more.
pub deeper :
    {len : ℕ} {path junk : List JsonNode} {n : JsonNode} {lc depth : ℕ} {ns : List JsonLeaf}
    {t : Bytes} {p : Parser}
    → IsWhole n
    → Stands len path (n ∷ junk) lc depth ns t p
    → Stands len (path ++ (n ∷ [])) junk lc depth ns t p
deeper {path = path} {junk = junk} {n = n} w h = record {
  text = h.text;
  place = h.place;
  names = h.names ∙ sym (append_assoc path (n ∷ []) junk);
  level = h.level;
  deep = h.deep;
  leaves = h.leaves;
  clear = h.clear;
  blank = h.blank.1;
  room = omega (arith, length-append path (n ∷ []), h.room);
  whole = All-append IsWhole path (n ∷ []) h.whole (w, tt);
}

pub shallower :
    {len : ℕ} {path junk : List JsonNode} {n : JsonNode} {lc depth : ℕ} {ns : List JsonLeaf}
    {t : Bytes} {p : Parser}
    → IsBlank n
    → Stands len (path ++ (n ∷ [])) junk lc depth ns t p
    → Stands len path (n ∷ junk) lc depth ns t p
shallower {path = path} {junk = junk} {n = n} b h = record {
  text = h.text;
  place = h.place;
  names = h.names ∙ append_assoc path (n ∷ []) junk;
  level = h.level;
  deep = h.deep;
  leaves = h.leaves;
  clear = h.clear;
  blank = (b, h.blank);
  room = omega (arith, length-append path (n ∷ []), h.room);
  whole = All-left IsWhole path (n ∷ []) h.whole;
}

abbrev name_here : Bytes → ℕ → Parser → Parser
name_here name k p = record (advance (length name + 2) p) {
  list = set p.list k (record (get_or p.list k no_name) {
    name = name_memory (drop 1 p.rest) (length name) name;
    name_len = length name;
  });
}

drop_behind : (w : Bytes) (c : ℕ) (v : Bytes) → drop (length w + 1) (w ++ (c ∷ v)) ≡ v
drop_behind [] c v = refl
drop_behind (x ∷ w) c v =
    ap (λ k. drop k (x ∷ w ++ (c ∷ v))) {y = suc (length w + 1)} (omega arith) ∙ drop_behind w c v

memory_lem : (raw name : Bytes) → name_memory raw (length name) name ≡ name
unfolding name_memory
memory_lem raw name = rw (name_memory, ==_refl (length name)) refl

named_at :
    (l path junk : List JsonNode) (n : JsonNode) (m name : Bytes)
    → l ≡ path ++ (n ∷ junk)
    → IsBlank n
    → m ≡ name
    → set l
        (length path)
        (record (get_or l (length path) no_name) { name = m; name_len = length name })
      ≡ path ++ (named name ∷ junk)
named_at l path junk n m name e b same =
    ap
      (λ l.
        set l (length path)
          (record (get_or l (length path) no_name) { name = m; name_len = length name }))
      e
    ∙ ap
        (λ (x : JsonNode).
          set (path ++ (n ∷ junk)) (length path) (record x { name = m; name_len = length name }))
        (get_or-append_self path junk n no_name)
    ∙ set-append path junk n _
    ∙ ap (λ m. path ++ (record { name = m; name_len = length name; index = n.index } ∷ junk)) same
    ∙ ap (λ i. path ++ (record { name = name; name_len = length name; index = i } ∷ junk)) b

-- A name is put behind those of the path.
pub run-name :
    {len : ℕ} {path junk : List JsonNode} {n : JsonNode} {depth : ℕ} {ns : List JsonLeaf}
    {u : Bytes} (fuel : ℕ) (name : Bytes) (p : Parser)
    → IsName name
    → Stands len path (n ∷ junk) (length path + 1) depth ns (put_name name u) p
    → (q : Parser) × (run (suc fuel) (reading len) naming p ≡ run fuel (reading len) before_colon q)
      × Stands len path (named name ∷ junk) (length path + 1) depth ns (58 ∷ u) q
unfolding on_token token check put_name
run-name {len} {path} {junk} {n} {u = u} fuel name p plain h =
    let p0 = record p { nulled = 0 } in
    let behind = (passed p h).text in
    let inside : length path < length p.list =
      omega (arith, ap length h.names, length-append path (n ∷ junk)) in
    (
      name_here name (length path) p0,
      run-at fuel naming p h
          ∙ ap (λ r. follow (run fuel (reading len)) (read_text (reading len) naming r p0))
              (name_string (drop 1 p.rest) name (58 ∷ u) plain behind)
          ∙ ap (follow (run fuel (reading len))) (at_name_lem p0 (length path) _ h.level inside),
      record {
        text =
            ap (λ k. drop k p.rest) {y = length name + 1 + 1} (omega arith)
            ∙ drop_next (length name + 1) p.rest
            ∙ ap (drop (length name + 1)) behind
            ∙ drop_behind name 34 (58 ∷ u);
        place = omega (arith, h.place, length-append name (34 ∷ 58 ∷ u));
        names =
            named_at p.list path junk n _ name h.names h.blank.0 (memory_lem (drop 1 p.rest) name);
        level = h.level;
        deep = h.deep;
        leaves = h.leaves;
        clear = h.clear;
        blank = (refl, h.blank.1);
        room = omega (arith, h.room);
        whole = h.whole;
      },
    )

indexed_at :
    (g : Option ℕ → Option ℕ) (l path junk : List JsonNode) (n : JsonNode) (o : Option ℕ)
    → l ≡ path ++ (n ∷ junk)
    → g n.index ≡ o
    → set l (length path) (record (get_or l (length path) no_name) {
      index = g (get_or l (length path) no_name).index;
    })
      ≡ path ++ (record n { index = o } ∷ junk)
indexed_at g l path junk n o e b =
    ap
      (λ l. set l (length path) (record (get_or l (length path) no_name) {
        index = g (get_or l (length path) no_name).index;
      }))
      e
    ∙ ap (λ (x : JsonNode). set (path ++ (n ∷ junk)) (length path) (record x { index = g x.index }))
        (get_or-append_self path junk n no_name)
    ∙ set-append path junk n _
    ∙ ap (λ o. path ++ (record n { index = o } ∷ junk)) b

module _ (path : List JsonNode) (n : JsonNode) {len : ℕ} {junk : List JsonNode} {depth : ℕ}
    {ns : List JsonLeaf} {t : Bytes} where
  inside_list :
      (p : Parser) {lc : ℕ}
      → Stands len (path ++ (n ∷ [])) junk lc depth ns t p
      → length path < length p.list
  inside_list p h = omega (
    arith,
    ap length h.names,
    length-append (path ++ (n ∷ [])) junk,
    length-append path (n ∷ []),
    h.room,
  )

  index-Stands :
      (g : Option ℕ → Option ℕ) (o : Option ℕ) (p : Parser)
      → g n.index ≡ o
      → Stands len (path ++ (n ∷ [])) junk (length path + 1) depth ns t p
      → Stands len
          (path ++ (record n { index = o } ∷ []))
          junk
          (length path + 1)
          depth
          ns
          t
          (change_index g (length path) p)
  index-Stands g o p e h = record {
    text = h.text;
    place = h.place;
    names =
        indexed_at g p.list path junk n o (h.names ∙ append_assoc path (n ∷ []) junk) e
        ∙ sym (append_assoc path (record n { index = o } ∷ []) junk);
    level = h.level;
    deep = h.deep;
    leaves = h.leaves;
    clear = h.clear;
    blank = h.blank;
    room = omega (
      arith,
      length-append path (n ∷ []),
      length-append path (record n { index = o } ∷ []),
      h.room,
    );
    whole =
        All-append IsWhole path (record n { index = o } ∷ [])
          (All-left IsWhole path (n ∷ []) h.whole)
          ((All-right IsWhole path (n ∷ []) h.whole).0, tt);
  }

  at_index :
      (p : Parser) (go : ℕ → Action)
      → Stands len (path ++ (n ∷ [])) junk (length path + 1) depth ns t p
      → at_name p go ≡ go (length path)
  at_index p go h = at_name_lem p (length path) go h.level (inside_list p h)

module _ (path : List JsonNode) (n : JsonNode) {len : ℕ} {junk : List JsonNode} {depth : ℕ}
    {ns : List JsonLeaf} {u : Bytes} (fuel : ℕ) (p : Parser) where
  -- An array begins: its name gets the index 0.
  pub run-open_array :
      IsBlank n
      → Stands len (path ++ (n ∷ [])) junk (length path + 1 + 1) depth ns (91 ∷ u) p
      → (q : Parser) × (run (suc fuel) (reading len) fresh p
          ≡ resume (run fuel (reading len) in_array) (enter (run fuel (reading len) fresh) q))
        × Stands len (path ++ (indexed n 0 ∷ [])) junk (length path + 1) depth ns u q
        × (q.nulled ≡ 0)
  unfolding on_token token check
  run-open_array b h =
      let p0 = record p { nulled = 0 } in
      let q = record (advance 1 p0) { lc = p.lc - 1 } in
      let at_q = lower (advance 1 p0) (passed p h) refl in
      (
        change_index next_index (length path) q,
        run-at fuel fresh p h ∙ ap (follow (run fuel (reading len))) (at_index path n q _ at_q),
        index-Stands path n next_index (some 0) q (ap next_index b) at_q,
        refl,
      )

  -- A comma in an array: the index goes up by one.
  pub run-next_value :
      (k : ℕ)
      → n.index ≡ some k
      → Stands len (path ++ (n ∷ [])) junk (length path + 1) depth ns (44 ∷ u) p
      → (q : Parser) × (run (suc fuel) (reading len) in_array p
          ≡ resume (run fuel (reading len) in_array) (enter (run fuel (reading len) fresh) q))
        × Stands len (path ++ (indexed n (k + 1) ∷ [])) junk (length path + 1) depth ns u q
        × (q.nulled ≡ 0)
  unfolding on_token token check on_comma
  run-next_value k b h =
      let q = advance 1 (record p { nulled = 0 }) in
      let at_q = passed p h in
      (
        change_index next_index (length path) q,
        run-at fuel in_array p h ∙ ap (follow (run fuel (reading len))) (at_index path n q _ at_q),
        index-Stands path n next_index (some (k + 1)) q (ap next_index b) at_q,
        refl,
      )

  -- An array ends: its name has no index.
  pub run-close_array :
      Stands len (path ++ (n ∷ [])) junk (length path + 1) depth ns (93 ∷ u) p
      → (q : Parser) × (run (suc fuel) (reading len) in_array p ≡ end_call q)
        × Stands len (path ++ (record n { index = none } ∷ [])) junk (length path + 1) depth ns u q
  unfolding on_token token check
  run-close_array h =
      let q = advance 1 (record p { nulled = 0 }) in
      let at_q = passed p h in
      (
        change_index (λ _. none) (length path) q,
        run-at fuel in_array p h ∙ ap (follow (run fuel (reading len))) (at_index path n q _ at_q),
        index-Stands path n (λ _. none) none q refl at_q,
      )
