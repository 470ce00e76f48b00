-- ===== src/Json/Parse/Steps.antt =====
-- Rounds of the parser over a document that is written as it should be.
use vely.Base.{
  ℕ, suc, ◌+◌, ◌-◌, ◌≤◌, ◌≡◌, refl, ap, true, false, Bool, none, List, ◌∷◌, ◌++◌, Bytes, All,
  if◌then◌else◌, length, get_or, drop, ◌==◌, ltb, lt→ltb, arith,
}
use vely.Json.Name.{JsonNode}
use vely.Json.Parse.{
  Settings, Parser, Frame, JsonLeaf, step, on_token, on_comma, check, token, run, enter, follow,
  resume, end_call, fresh, advance,
}

-- The settings: the leaves are kept for the hash table, no handler is called, strings are decoded.
abbrev pub reading : ℕ → Settings
reading n = record { use_hash = true; handler = none; dec = true; len = n }

-- The text that is read on, where a byte may be kept in `nulled`.
abbrev pub seen : ℕ → Bytes → Bytes
seen kept r = if kept == 0 then r else kept ∷ drop 1 r

abbrev pub IsBlank : JsonNode → Type 0
IsBlank n = n.index ≡ none

-- A name of which the bytes are there.
abbrev pub IsWhole : JsonNode → Type 0
IsWhole n = n.name_len ≤ length n.name

-- The parser before `t`, under the names of `path` and with `ns` for leaves. The names behind those
-- of `path` are of values that are past.
pub record Stands (len : ℕ) (path junk : List JsonNode) (lc depth : ℕ) (ns : List JsonLeaf)
    (t : Bytes) (p : Parser) : Type 0 where
  pub text : seen p.nulled p.rest ≡ t
  pub place : p.at + length t ≡ len
  pub names : p.list ≡ path ++ junk
  pub level : p.lc ≡ lc
  pub deep : p.depth ≡ depth
  pub leaves : p.nodes ≡ ns
  pub clear : p.ec ≡ none
  pub blank : All IsBlank junk
  pub room : length path + length junk ≡ 32
  pub whole : All IsWhole path

seen_if :
    (b : Bool) (kept : ℕ) (r : Bytes) {c : ℕ} {t : Bytes}
    → (if b then r else kept ∷ drop 1 r) ≡ c ∷ t
    → ((if b then get_or r 0 0 else kept) ≡ c) × (drop 1 r ≡ t)
seen_if true kept r e = (ap (λ x. get_or x 0 0) e, ap (drop 1) e)
seen_if false kept r e = (ap (λ x. get_or x 0 0) e, ap (drop 1) e)

module _ {len : ℕ} {path junk : List JsonNode} {lc depth : ℕ} {ns : List JsonLeaf} where
  -- A round before `c` is that of its case.
  step-at :
      {c : ℕ} {t : Bytes} (p : Parser) (f : Frame)
      → Stands len path junk lc depth ns (c ∷ t) p
      → step (reading len) f p ≡ on_token (reading len) (token c) f (record p { nulled = 0 })
  unfolding step
  step-at p f h =
      ap (λ c. on_token (reading len) (token c) f (record p { nulled = 0 }))
        (seen_if (p.nulled == 0) p.nulled p.rest h.text).0

  pub run-at :
      (fuel : ℕ) {c : ℕ} {t : Bytes} (f : Frame) (p : Parser)
      → Stands len path junk lc depth ns (c ∷ t) p
      → run (suc fuel) (reading len) f p
        ≡ follow
            (run fuel (reading len))
            (on_token (reading len) (token c) f (record p { nulled = 0 }))
  unfolding run
  run-at fuel f p h =
      let inside : ltb p.at len ≡ true = lt→ltb p.at len (omega (arith, h.place)) in
      rw (run, inside, step-at p f h) refl

  -- Behind `c`.
  pub passed :
      {c : ℕ} {t : Bytes} (p : Parser)
      → Stands len path junk lc depth ns (c ∷ t) p
      → Stands len path junk lc depth ns t (advance 1 (record p { nulled = 0 }))
  passed p h = record {
    text = (seen_if (p.nulled == 0) p.nulled p.rest h.text).1;
    place = omega (arith, h.place);
    names = h.names;
    level = h.level;
    deep = h.deep;
    leaves = h.leaves;
    clear = h.clear;
    blank = h.blank;
    room = h.room;
    whole = h.whole;
  }

abbrev pub naming : Frame
naming = record fresh { name = true; isobj = true }

abbrev pub before_colon : Frame
before_colon = record fresh { colon = true; isobj = true }

abbrev pub in_object : Frame
in_object = record fresh { object_end = true; isobj = true }

abbrev pub in_array : Frame
in_array = record fresh { array_end = true; isarr = true }

module _ {len : ℕ} {path junk : List JsonNode} {lc depth : ℕ} {ns : List JsonLeaf} {t : Bytes}
    (fuel : ℕ) (p : Parser) where
  pub run-open_object :
      Stands len path junk lc depth ns (123 ∷ t) p
      → run (suc fuel) (reading len) fresh p
        ≡ run fuel (reading len) naming (advance 1 (record p { nulled = 0 }))
  unfolding on_token token check
  run-open_object h = run-at fuel fresh p h

  pub run-next_member :
      Stands len path junk lc depth ns (44 ∷ t) p
      → run (suc fuel) (reading len) in_object p
        ≡ run fuel (reading len) naming (advance 1 (record p { nulled = 0 }))
  unfolding on_token token check on_comma
  run-next_member h = run-at fuel in_object p h

  pub run-close_object :
      Stands len path junk lc depth ns (125 ∷ t) p
      → run (suc fuel) (reading len) in_object p
        ≡ end_call (record (advance 1 (record p { nulled = 0 })) { lc = p.lc - 1 })
  unfolding on_token token check
  run-close_object h = run-at fuel in_object p h

  pub run-colon :
      Stands len path junk lc depth ns (58 ∷ t) p
      → run (suc fuel) (reading len) before_colon p
        ≡ resume
            (run fuel (reading len) in_object)
            (enter (run fuel (reading len) fresh) (advance 1 (record p { nulled = 0 })))
  unfolding on_token token check
  run-colon h = run-at fuel before_colon p h

module _ {len : ℕ} {path junk : List JsonNode} {depth : ℕ} {ns : List JsonLeaf} {t : Bytes} where
  pub lower :
      (p : Parser) {lc k : ℕ}
      → Stands len path junk lc depth ns t p
      → lc ≡ k + 1
      → Stands len path junk k depth ns t (record p { lc = p.lc - 1 })
  lower p h e = record {
    text = h.text;
    place = h.place;
    names = h.names;
    level = omega (arith, h.level);
    deep = h.deep;
    leaves = h.leaves;
    clear = h.clear;
    blank = h.blank;
    room = h.room;
    whole = h.whole;
  }
