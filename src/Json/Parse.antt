-- ===== src/Json/Parse.antt =====
-- json.c: the parser, `vely_json_new`. `Parser` has the static variables and what `*i` stands at: `rest` is
-- `val + *i`. A call of the parser for a nested value is a frame of its own, and `step` is one round of
-- its loop. `lc` is `list_c + 1`, and an index outside of the list of names, or a copy
-- from a name that is NULL, is a fault of the model.
-- Bytes that are written behind `*i` are kept in the names and values that point to them.
pub mod Ends
pub mod Document
pub mod Steps
pub mod Names
pub mod Leaves
pub mod Calls
pub mod FullNames
pub mod Refine
pub mod Tests
use vely.Base.{
  ℕ, zero, suc, ◌+◌, ◌-◌, Bool, true, false, not, ◌&&◌, ◌||◌, Option, none, some, List, [], ◌∷◌,
  ◌++◌, leb, ltb, ◌==◌, if◌then◌else◌, get_or, set, take, drop, length, map, Bytes, codes,
}
use vely.Codec.{begins}
use vely.Json.{
  JsonError, no_quote, JsonResult, done, bad, Decoded, decoded, json_to_utf8, pass_string, json_num,
}
use vely.Json.Name.{JsonNode, fullname}

-- The messages that `errm` is set to; `text` has those of `vely_json_to_utf8`.
pub data ParseError : Type 0 where
  bad_number unknown colon_expected name_expected comma_end_object comma_end_array : ParseError
  unrecognized syntax too_deep interrupted : ParseError
  text : JsonError → ParseError

-- VV_JSON_TYPE_STRING to VV_JSON_TYPE_NULL.
pub data JsonKind : Type 0 where
  string_kind number_kind real_kind bool_kind null_kind : JsonKind

-- `vely_jsonn`.
pub record JsonLeaf : Type 0 where
  pub name : Bytes
  pub kind : JsonKind
  pub str : Bytes

-- A call of the node handler.
pub record NodeCall : Type 0 where
  pub names : List JsonNode
  pub value : Bytes
  pub kind : JsonKind

-- What does not change while a document is parsed. `handler` is the program's own function, and says
-- whether VV_OKAY is returned; it may depend on all of the calls so far, the last one first.
pub record Settings : Type 0 where
  pub use_hash : Bool
  pub handler : Option (List NodeCall → Bool)
  pub dec : Bool
  pub len : ℕ

pub record Parser : Type 0 where
  pub at : ℕ
  pub rest : Bytes
  pub list : List JsonNode
  pub lc : ℕ
  pub depth : ℕ
  pub nodes : List JsonLeaf
  pub calls : List NodeCall
  pub nulled : ℕ
  pub errm : Option ParseError
  pub ec : Option ℕ

-- The flags of one call: `expected_comma_or_end_array`, `expected_comma_or_end_object`,
-- `expected_colon`, `expected_name`, `isarr` and `isobj`.
pub record Frame : Type 0 where
  pub array_end : Bool
  pub object_end : Bool
  pub colon : Bool
  pub name : Bool
  pub isarr : Bool
  pub isobj : Bool

abbrev pub fresh : Frame
fresh = record {
  array_end = false;
  object_end = false;
  colon = false;
  name = false;
  isarr = false;
  isobj = false;
}

-- What a round does: `goto endj`, another round, or the parser for a nested value and then, where it
-- gives -1, another round. `stray` is an access outside of the list of names, or
-- through a name that is NULL.
pub data Action : Type 0 where
  leave : Parser → Action
  again nested : Frame → Parser → Action
  stray : Action

abbrev pub failed : ParseError → Parser → Action
failed e p = leave (record p { ec = some p.at; errm = some e })

-- The first flag that is set is an error.
unfoldable pub check : List (Bool × ParseError) → Parser → Action → Action
check [] p a = a
check ((true, e) ∷ l) p a = failed e p
check ((false, e) ∷ l) p a = check l p a

abbrev pub advance : ℕ → Parser → Parser
advance n p = record p { at = p.at + n; rest = drop n p.rest }

-- `list[list_c]`, where there is such a name.
unfoldable pub at_name : Parser → (ℕ → Action) → Action
at_name p go = if p.lc == 0 || ltb (length p.list) p.lc then stray else go (p.lc - 1)

abbrev pub no_name : JsonNode
no_name = record { name = []; name_len = 0; index = none }

abbrev pub change_index : (Option ℕ → Option ℕ) → ℕ → Parser → Parser
change_index g k p =
    let n = get_or p.list k no_name in
    record p { list = set p.list k (record n { index = g n.index }) }

abbrev pub next_index : Option ℕ → Option ℕ
next_index none = some 0
next_index (some a) = some (a + 1)

abbrev pub add_node : Bool → JsonKind → Bytes → Parser → Parser
add_node use_hash kind str p =
    if use_hash
    then record p {
      nodes =
          p.nodes
          ++ record { name = fullname (take (p.lc - 1) p.list); kind = kind; str = str } ∷ [];
    }
    else p

abbrev pub call_handler : Option (List NodeCall → Bool) → JsonKind → Bytes → Parser → Parser × Bool
call_handler none kind str p = (p, true)
call_handler (some h) kind str p =
    let n = get_or p.list (p.lc - 1) no_name in
    let calls = record { names = take (p.lc - 1) p.list; value = str; kind = kind } ∷ p.calls in
    let q = record p { list = set p.list (p.lc - 1) (record n { name = [] }); calls = calls } in
    if h calls then (q, true) else (record q { ec = some q.at; errm = some interrupted }, false)

-- VV_ADD_JSON, and whether it does not go to `endj`.
unfoldable pub add_json : Settings → JsonKind → Bytes → Parser → Parser × Bool
add_json s kind str p = call_handler s.handler kind str (add_node s.use_hash kind str p)

-- Whether at each name there are as many bytes as are copied from it. At a name that is NULL there are
-- none, and what `name_len` says may come from a name before.
unfoldable pub names_kept : List JsonNode → Bool
names_kept [] = true
names_kept (n ∷ list) = let rest = names_kept list in leb n.name_len (length n.name) && rest

-- VV_ADD_JSON, and after it `n` bytes are passed and the value ends.
unfoldable pub end_value : Settings → JsonKind → Bytes → ℕ → Parser → Action
end_value s kind str n p =
    let (q, okay) = add_json s kind str p in
    if s.use_hash && not (names_kept (take (p.lc - 1) p.list))
    then stray
    else leave (if okay then record (advance n q) { lc = q.lc - 1 } else q)

-- BINDV at `n` bytes from here, with the byte kept in `nulled`.
abbrev pub bind : ℕ → Parser → Parser
bind n p = record p { nulled = get_or p.rest n 0; rest = set p.rest n 0 }

-- What stands at a string that has been read: its text and, where it got shorter, the terminator and
-- what is left of the bytes behind it.
unfoldable pub name_memory : Bytes → ℕ → Bytes → Bytes
name_memory raw used t =
    if length t == used then t else t ++ (0 ∷ drop (length t + 1) (take used raw))

-- `vely_json_to_utf8` behind a quotation mark: the text and how many bytes it took. `none` does not
-- occur, since the string is quoted.
unfoldable pub read_string : Bool → Bytes → JsonResult (Bytes × ℕ)
read_string dec v =
    if dec
    then elim (json_to_utf8 true v) [ done d ↦ done (d.text, d.used) | bad e ↦ bad e ]
    else elim (pass_string true v) [
      | none ↦ bad no_quote
      | some r ↦ elim r [ done n ↦ done (take n v, n) | bad e ↦ bad e ]
    ]

-- The cases of the `switch`.
pub data Token : Type 0 where
  open_object close_object open_array close_array name_end comma blank quote digit : Token
  letter_t letter_f letter_n other : Token

unfoldable pub token : ℕ → Token
token c =
    if c == 123
    then open_object
    else if c == 125
    then close_object
    else if c == 91
    then open_array
    else if c == 93
    then close_array
    else if c == 58
    then name_end
    else if c == 44
    then comma
    else if c == 32 || c == 9 || c == 10 || c == 13
    then blank
    else if c == 34
    then quote
    else if c == 45 || (leb 48 c && leb c 57)
    then digit
    else if c == 116
    then letter_t
    else if c == 102
    then letter_f
    else if c == 110
    then letter_n
    else other

-- The checks before a number or a word.
unfoldable pub check_value : Frame → Parser → Action → Action
check_value f p a =
    check
      ((f.colon, colon_expected)
        ∷ (f.array_end, comma_end_array)
        ∷ (f.object_end, comma_end_object)
        ∷ (f.name, name_expected)
        ∷ [])
      p a

abbrev pub word : Settings → Frame → Bytes → JsonKind → Parser → Action
word s f w kind p = check_value f p (
    if begins w p.rest then end_value s kind w (length w) (bind (length w) p) else failed unknown p)

abbrev pub read_number : Settings → Option (ℕ × Bool) → Parser → Action
read_number s none p = failed bad_number p
read_number s (some (n, real)) p =
    end_value s (if real then real_kind else number_kind) (take n p.rest) n (bind n p)

abbrev pub read_text : Settings → Frame → JsonResult (Bytes × ℕ) → Parser → Action
read_text s f (bad e) p = leave (record p { errm = some (text e) })
read_text s f (done (t, used)) p =
    if f.name
    then at_name p (λ k.
      again (record f { name = false; colon = true })
        (record (advance (used + 2) p) {
          list = set p.list k (record (get_or p.list k no_name) {
            name = name_memory (drop 1 p.rest) used t;
            name_len = used;
          });
        }))
    else end_value s string_kind t 1 (advance (used + 1) p)

unfoldable pub on_comma : Frame → Parser → Action
on_comma f p = check ((f.colon, colon_expected) ∷ (f.name, name_expected) ∷ []) p (
    let g = record f { array_end = false; object_end = false } in
    let q = advance 1 p in
    if f.isobj
    then again (record g { name = true }) q
    else if f.isarr
    then at_name q (λ k. nested (record g { array_end = true }) (change_index next_index k q))
    else failed unrecognized q)

-- One round of the loop, by the case of the `switch`.
unfoldable pub on_token : Settings → Token → Frame → Parser → Action
on_token s open_object f p =
    check
      ((f.colon, colon_expected)
        ∷ (f.name, name_expected)
        ∷ (f.array_end, comma_end_array)
        ∷ (f.object_end, comma_end_object)
        ∷ [])
      p (again (record f { name = true; isobj = true }) (advance 1 p))
on_token s close_object f p =
    check
      ((f.colon, colon_expected) ∷ (f.array_end, comma_end_array) ∷ (f.name, name_expected) ∷ []) p
      (leave (record (advance 1 p) { lc = p.lc - 1 }))
on_token s open_array f p =
    check
      ((f.colon, colon_expected)
        ∷ (f.array_end, comma_end_array)
        ∷ (f.object_end, comma_end_object)
        ∷ (f.name, name_expected)
        ∷ [])
      p
      (let q = record (advance 1 p) { lc = p.lc - 1 } in
        at_name q
          λ k. nested (record f { isarr = true; array_end = true }) (change_index next_index k q))
on_token s close_array f p =
    check
      ((f.colon, colon_expected) ∷ (f.object_end, comma_end_object) ∷ (f.name, name_expected) ∷ [])
      p (let q = advance 1 p in at_name q λ k. leave (change_index (λ _. none) k q))
on_token s name_end f p =
    check
      ((f.array_end, comma_end_array)
        ∷ (f.object_end, comma_end_object)
        ∷ (f.name, name_expected)
        ∷ [])
      p (nested (record f { colon = false; object_end = true }) (advance 1 p))
on_token s comma f p = on_comma f p
on_token s blank f p = again f (advance 1 p)
on_token s quote f p =
    check
      ((f.colon, colon_expected)
        ∷ (f.array_end, comma_end_array)
        ∷ (f.object_end, comma_end_object)
        ∷ [])
      p (read_text s f (read_string s.dec (drop 1 p.rest)) p)
on_token s digit f p = check_value f p (read_number s (json_num p.rest) p)
on_token s letter_t f p = word s f (codes "true") bool_kind p
on_token s letter_f f p = word s f (codes "false") bool_kind p
on_token s letter_n f p = word s f (codes "null") null_kind p
on_token s other f p = failed unrecognized p

-- `nchar`, which is taken from `nulled` if a byte is kept there.
unfoldable pub step : Settings → Frame → Parser → Action
step s f p =
    on_token s (token (if p.nulled == 0 then get_or p.rest 0 0 else p.nulled)) f
      (record p { nulled = 0 })

-- What a call of the parser ends in. `spent` is the end of the fuel.
pub data Run : Type 0 where
  ended : Parser → Run
  strayed spent : Run

abbrev pub end_call : Parser → Run
end_call p = ended (record p { depth = p.depth - 1 })

-- What follows a nested call: `endj` where it has set `ec`, and else another round.
abbrev pub resume : (Parser → Run) → Run → Run
resume go (ended p) = elim p.ec [ none ↦ go p | some e ↦ end_call p ]
resume go strayed = strayed
resume go spent = spent

abbrev pub refuse : Parser → Run
refuse p = end_call (record p { ec = some p.at; errm = some too_deep })

-- What a call does before its loop. VV_JSON_MAX_NESTED is 32.
abbrev pub enter : (Parser → Run) → Parser → Run
enter go p =
    if leb 32 (p.depth + 1)
    then refuse (record p { depth = p.depth + 1 })
    else if leb 32 (p.lc + 1)
    then refuse (record p { depth = p.depth + 1; lc = p.lc + 1 })
    else go (record p { depth = p.depth + 1; lc = p.lc + 1 })

-- A round, and what it asks for.
abbrev pub follow : (Frame → Parser → Run) → Action → Run
follow go (leave p) = end_call p
follow go (again f p) = go f p
follow go (nested f p) = resume (go f) (enter (go fresh) p)
follow go stray = strayed

-- The loop. A round asks for calls of the loop, on one fuel less.
unfoldable pub run : ℕ → Settings → Frame → Parser → Run
run zero s f p = spent
run (suc fuel) s f p = elim (ltb p.at s.len) [
  | true ↦ follow (run fuel s) (step s f p)
  | false ↦ end_call (record p { lc = p.lc - 1 })
]

-- `isspace`.
unfoldable pub is_space : ℕ → Bool
is_space c = c == 32 || (leb 9 c && leb c 13)

unfoldable pub skip_space : ℕ → Bytes → ℕ
skip_space i [] = i
skip_space i (c ∷ v) = let rest = skip_space (i + 1) v in if is_space c then rest else i

-- The end of the root call: what stands behind the value must be space.
unfoldable pub finish : Settings → Parser → Parser
finish s p =
    let i = skip_space p.at p.rest in
    if ltb i s.len
    then elim p.ec [
      | none ↦ record p { at = i; ec = some i; errm = some syntax }
      | some e ↦ record p { at = i }
    ]
    else record p { at = i }

abbrev pub finish_run : Settings → Run → Run
finish_run s (ended p) = ended (finish s p)
finish_run s strayed = strayed
finish_run s spent = spent

-- The root call sets each name to NULL and each index to -1, and leaves the lengths as they are.
abbrev pub unname : JsonNode → JsonNode
unname n = record n { name = []; index = none }

-- The list and `nulled` are static: `old` is the list from the call before, of VV_JSON_MAX_NESTED names,
-- and `kept` what that call has left in `nulled`.
abbrev pub start : ℕ → List JsonNode → Bytes → Parser
start kept old val = record {
  at = 0;
  rest = val;
  list = map unname old;
  lc = 0;
  depth = 0;
  nodes = [];
  calls = [];
  nulled = kept;
  errm = none;
  ec = none;
}

-- The root call of `vely_json_new`.
unfoldable pub json_new : ℕ → Settings → ℕ → List JsonNode → Bytes → Run
json_new fuel s kept old val = finish_run s (enter (run fuel s fresh) (start kept old val))
