-- ===== src/Json/Parse/Leaves.antt =====
-- The parser at a leaf: a number, a string or a word.
use vely.Base.{
  ℕ, suc, ◌+◌, ◌-◌, ◌≡◌, ◌⊎◌, refl, ◌∙◌, ap, subst, true, false, Bool, some, none, List, [], ◌∷◌,
  ◌++◌, Bytes, All, if◌then◌else◌, length, length-append, get_or, set, take, drop, ==_ne, arith,
  codes, strip, strip-append, not, leb,
}
use vely.Codec.{begins}
use vely.Json.{done, bad, is_digit, json_num, json_to_utf8}
use vely.Json.Grammar.{IsNumber, Ends, IsInteger, IsMinus, only_zero, integer, no_minus, minus}
use vely.Json.Complete.{num_complete}
use vely.Json.Write.{IsScalar, json_text, utf8_text}
use vely.Json.RoundTrip.{json_text-ReadsBack}
use vely.Json.Name.{JsonNode, fullname}
use vely.Json.Parse.{
  names_kept, stray, leave, Frame, Parser, JsonKind, JsonLeaf, on_token, check, check_value, token,
  digit, Run, ended, run, follow, fresh, advance, read_string, read_text, read_number, end_value,
  add_json, bind, string_kind, number_kind, real_kind, bool_kind, null_kind, word, failed, unknown,
}
use vely.Json.Parse.Document.{
  Leaf, number, string, yes_word, no_word, null_word, put_leaf, leaf_kind, leaf_text, IsLeaf,
}
use vely.Json.Parse.Steps.{IsWhole, Stands, reading, run-at, passed, seen}
use vely.Json.Parse.Names.{drop_next, drop-length}

-- What may stand behind a value: nothing, a comma or a closing bracket.
abbrev pub IsDelimited : Bytes → Type 0
IsDelimited [] = Unit
IsDelimited (c ∷ t) = (c ≡ 44) ⊎ (c ≡ 93) ⊎ (c ≡ 125)

delimited-Ends : (t : Bytes) → IsDelimited t → Ends t
unfolding is_digit
delimited-Ends [] h =
    (refl, λ e. absurd (omega arith), λ e. absurd (omega arith), λ e. absurd (omega arith))
delimited-Ends (c ∷ t) h = ground arith

digit_token : (c : ℕ) → is_digit c ≡ true → token c ≡ digit
unfolding token is_digit
digit_token c h = ground arith

first_digit :
    {s i : Bytes} (r : Bytes)
    → IsMinus s
    → IsInteger i
    → (c : ℕ) × (v : Bytes) × (s ++ (i ++ r) ≡ c ∷ v) × (token c ≡ digit)
unfolding token
first_digit {i = i} r minus n = (45, i ++ r, refl, refl)
first_digit r no_minus only_zero = (48, r, refl, refl)
first_digit r no_minus (integer c w n a) = (c, w ++ r, refl, digit_token c a.0)

number_head :
    {w : Bytes} {real : Bool}
    → IsNumber w real
    → (c : ℕ) × (v : Bytes) × (w ≡ c ∷ v) × (token c ≡ digit)
number_head n =
    let (c, v, e, d) = first_digit (n.frac ++ n.exp) n.is_sign n.is_int in (c, v, n.is_whole ∙ e, d)

kept_byte :
    (w t : Bytes)
    → (get_or (w ++ t) (length w) 0 ≡ get_or t 0 0)
      × (drop (length w) (set (w ++ t) (length w) 0) ≡ set t 0 0)
kept_byte [] t = (refl, refl)
kept_byte (c ∷ w) t = kept_byte w t

seen-kept : (t : Bytes) → IsDelimited t → seen (get_or t 0 0) (set t 0 0) ≡ t
seen-kept [] h = refl
seen-kept (c ∷ t) h = rw (==_ne c 0 (ground arith)) refl

take-length : (l r : List JsonNode) → take (length l) (l ++ r) ≡ l
take-length [] r = refl
take-length (x ∷ l) r = ap (λ z. x ∷ z) (take-length l r)

abbrev pub leaf_of : List JsonNode → JsonKind → Bytes → JsonLeaf
leaf_of path kind str = record { name = fullname path; kind = kind; str = str }

-- What a value leaves, where the parser then stands at `a`, before `r`.
abbrev closed : JsonKind → Bytes → ℕ → ℕ → Bytes → Parser → Parser
closed kind str a kept r p = record p {
  at = a;
  rest = r;
  nulled = kept;
  nodes = p.nodes ++ (leaf_of (take (p.lc - 1) p.list) kind str ∷ []);
  lc = p.lc - 1;
  depth = p.depth - 1;
}

end_value_lem :
    (len : ℕ) (kind : JsonKind) (str : Bytes) (n : ℕ) (p : Parser) (go : Frame → Parser → Run)
    → names_kept (take (p.lc - 1) p.list) ≡ true
    → follow go (end_value (reading len) kind str n p)
      ≡ ended (closed kind str (p.at + n) p.nulled (drop n p.rest) p)
unfolding end_value add_json
end_value_lem len kind str n p go k =
    let q = (add_json (reading len) kind str p).0 in
    ap (λ b. follow go (if not b then stray else leave (record (advance n q) { lc = q.lc - 1 }))) k

rest_lem : (kept : ℕ) (r u : Bytes) → kept ≡ 0 → seen kept r ≡ u → r ≡ u
rest_lem kept r u z h = subst (λ k. seen k r ≡ u) z h

take-word : (w t : Bytes) → take (length w) (w ++ t) ≡ w
take-word [] t = refl
take-word (c ∷ w) t = ap (λ z. c ∷ z) (take-word w t)

abbrev bound : JsonKind → Bytes → Parser → Parser
bound kind w p =
    closed kind w (p.at + length w) (get_or p.rest (length w) 0)
      (drop (length w) (set p.rest (length w) 0)) p

word_lem :
    (len : ℕ) (w t : Bytes) (kind : JsonKind) (p : Parser) (go : Frame → Parser → Run)
    → names_kept (take (p.lc - 1) p.list) ≡ true
    → p.rest ≡ w ++ t
    → follow go (word (reading len) fresh w kind (record p { nulled = 0 })) ≡ ended (bound kind w p)
unfolding check_value check strip
word_lem len w t kind p go k e =
    let p0 = record p { nulled = 0 } in
    let found : begins w p.rest ≡ true =
      ap (begins w) e ∙ ap (λ o. elim o [ none ↦ false | some _ ↦ true ]) (strip-append w t) in
    ap
      (λ b. follow go (
        if b
        then end_value (reading len) kind w (length w) (bind (length w) p0)
        else failed unknown p0))
      found
    ∙ end_value_lem len kind w (length w) (bind (length w) p0) go k

whole-names_kept : (path : List JsonNode) → All IsWhole path → names_kept path ≡ true
unfolding names_kept
whole-names_kept [] h = refl
whole-names_kept (n ∷ path) (w, h) =
    let inside : leb n.name_len (length n.name) ≡ true = ground (arith, w) in
    rw (inside, whole-names_kept path h) refl

module _ {len : ℕ} {path junk : List JsonNode} {depth : ℕ} {ns : List JsonLeaf} where
  above :
      {u : Bytes} (p : Parser)
      → Stands len path junk (length path + 1) depth ns u p
      → take (p.lc - 1) p.list ≡ path
  above p h =
      ap (λ k. take k p.list) {y = length path} (omega (arith, h.level))
      ∙ ap (take (length path)) h.names
      ∙ take-length path junk

  stored :
      {u : Bytes} (p : Parser)
      → Stands len path junk (length path + 1) depth ns u p
      → names_kept (take (p.lc - 1) p.list) ≡ true
  stored p h = ap names_kept (above p h) ∙ whole-names_kept path h.whole

number_lem :
    {len : ℕ} {path junk : List JsonNode} {ns : List JsonLeaf} (depth : ℕ) (t : Bytes) (fuel : ℕ)
    (w : Bytes) (real : Bool) (p : Parser)
    → IsNumber w real
    → IsDelimited t
    → p.rest ≡ w ++ t
    → Stands len path junk (length path + 1) (depth + 1) ns (w ++ t) p
    → run (suc fuel) (reading len) fresh p
      ≡ ended (bound (if real then real_kind else number_kind) w p)
unfolding on_token check_value check
number_lem {len} {path} {junk} {ns} depth t fuel w real p is d e h =
    let (c, v, y, tok) = number_head is in
    let go = run fuel (reading len) in
    let kind = if real then real_kind else number_kind in
    let p0 = record p { nulled = 0 } in
    run-at fuel fresh p (
      subst (λ x. Stands len path junk (length path + 1) (depth + 1) ns x p) (ap (λ x. x ++ t) y) h)
    ∙ ap (λ k. follow go (on_token (reading len) k fresh p0)) tok
    ∙ ap (λ o. follow go (read_number (reading len) o p0))
        (ap json_num e ∙ num_complete t is (delimited-Ends t d))
    ∙ ap (λ str. follow go (end_value (reading len) kind str (length w) (bind (length w) p0)))
        (ap (take (length w)) e ∙ take-word w t)
    ∙ end_value_lem len kind w (length w) (bind (length w) p0) go (stored p h)

module _ {len : ℕ} {path junk : List JsonNode} {depth : ℕ} {ns : List JsonLeaf} where
  closed-Stands :
      (kind : JsonKind) (str : Bytes) (a kept : ℕ) (r : Bytes) (p : Parser) {t u : Bytes}
      → Stands len path junk (length path + 1) (depth + 1) ns u p
      → seen kept r ≡ t
      → a + length t ≡ len
      → Stands len path junk
          (length path)
          depth
          (ns ++ (leaf_of path kind str ∷ []))
          t
          (closed kind str a kept r p)
  closed-Stands kind str a kept r p h text place =
      let under = above p h in
      record {
        text = text;
        place = place;
        names = h.names;
        level = omega (arith, h.level);
        deep = omega (arith, h.deep);
        leaves =
            ap (λ l. l ++ (leaf_of (take (p.lc - 1) p.list) kind str ∷ [])) h.leaves
            ∙ ap (λ l. ns ++ (leaf_of l kind str ∷ [])) under;
        clear = h.clear;
        blank = h.blank;
        room = h.room;
        whole = h.whole;
      }

  -- A value whose bytes `w` stand here, with the byte behind it kept.
  bound-Stands :
      (kind : JsonKind) (w : Bytes) (p : Parser) {t : Bytes}
      → p.rest ≡ w ++ t
      → IsDelimited t
      → Stands len path junk (length path + 1) (depth + 1) ns (w ++ t) p
      → Stands len path junk
          (length path)
          depth
          (ns ++ (leaf_of path kind w ∷ []))
          t
          (bound kind w p)
  bound-Stands kind w p {t} e d h =
      closed-Stands kind w _ _ _ p h
        (ap (λ r. seen (get_or r (length w) 0) (drop (length w) (set r (length w) 0))) e
          ∙ ap (λ k. seen k (drop (length w) (set (w ++ t) (length w) 0))) (kept_byte w t).0
          ∙ ap (seen (get_or t 0 0)) (kept_byte w t).1
          ∙ seen-kept t d)
        (omega (arith, h.place, length-append w t))

  string_lem :
      (fuel : ℕ) (us : List ℕ) (p : Parser) {t : Bytes}
      → All IsScalar us
      → Stands len path junk (length path + 1) (depth + 1) ns (34 ∷ json_text us ++ (34 ∷ t)) p
      → (q : Parser) × (run (suc fuel) (reading len) fresh p ≡ ended q)
        × Stands len path junk
            (length path)
            depth
            (ns ++ (leaf_of path string_kind (utf8_text us) ∷ []))
            t
            q
  unfolding on_token token check read_string
  string_lem fuel us p {t} is h =
      let go = run fuel (reading len) in
      let p0 = record p { nulled = 0 } in
      let w = json_text us in
      let behind = (passed p h).text in
      let q = advance (length w + 1) p0 in
      (
        closed string_kind (utf8_text us) (q.at + 1) 0 (drop 1 q.rest) p0,
        run-at fuel fresh p h
            ∙ ap
                (λ r. follow go (
                  read_text (reading len) fresh
                    (elim r [ done d ↦ done (d.text, d.used) | bad e ↦ bad e ]) p0))
                (ap (json_to_utf8 true) behind ∙ (json_text-ReadsBack us is).quoted_read t)
            ∙ end_value_lem len string_kind (utf8_text us) 1 q go (stored p h),
        closed-Stands string_kind (utf8_text us) (q.at + 1) 0 (drop 1 q.rest) p h
            (ap (drop 1)
              (drop_next (length w) p.rest ∙ ap (drop (length w)) behind ∙ drop-length w (34 ∷ t)))
            (omega (arith, h.place, length-append w (34 ∷ t))),
      )

  pub leaf_lem :
      (fuel : ℕ) (l : Leaf) (p : Parser) {t : Bytes}
      → IsLeaf l
      → IsDelimited t
      → p.nulled ≡ 0
      → Stands len path junk (length path + 1) (depth + 1) ns (put_leaf l t) p
      → (q : Parser) × (run (suc fuel) (reading len) fresh p ≡ ended q)
        × Stands len path junk
            (length path)
            depth
            (ns ++ (leaf_of path (leaf_kind l) (leaf_text l) ∷ []))
            t
            q
  unfolding put_leaf leaf_kind leaf_text on_token token
  leaf_lem fuel (number w real) p {t} is d z h =
      let e = rest_lem p.nulled p.rest (w ++ t) z h.text in
      (_, number_lem depth t fuel w real p is d e h, bound-Stands _ w p e d h)
  leaf_lem fuel (string us) p is d z h = string_lem fuel us p is h
  leaf_lem fuel yes_word p {t} is d z h =
      let e = rest_lem p.nulled p.rest (codes "true" ++ t) z h.text in
      (
        _,
        run-at fuel fresh p h ∙ word_lem len (codes "true") t bool_kind p _ (stored p h) e,
        bound-Stands _ _ p e d h,
      )
  leaf_lem fuel no_word p {t} is d z h =
      let e = rest_lem p.nulled p.rest (codes "false" ++ t) z h.text in
      (
        _,
        run-at fuel fresh p h ∙ word_lem len (codes "false") t bool_kind p _ (stored p h) e,
        bound-Stands _ _ p e d h,
      )
  leaf_lem fuel null_word p {t} is d z h =
      let e = rest_lem p.nulled p.rest (codes "null" ++ t) z h.text in
      (
        _,
        run-at fuel fresh p h ∙ word_lem len (codes "null") t null_kind p _ (stored p h) e,
        bound-Stands _ _ p e d h,
      )
