-- ===== src/Json/Parse/Ends.antt =====
-- The parser comes to an end: each round passes a byte at least, or is the last one.
use vely.Base.{
  inl, inr, ◌⊎◌, ℕ, zero, suc, ◌≤◌, ◌<◌, ◌≡◌, refl, ◌∙◌, Bool, true, false, none, some, Option,
  List, [], ◌∷◌, ltb, leb, if◌then◌else◌, Bytes, arith, Bool-cases, ltb→lt, ◌||◌, ◌-◌, ◌+◌, drop,
  codes, ◌==◌, length, not, ◌&&◌, take,
}
use vely.Codec.{begins}
use vely.Json.{json_num, JsonResult, done, bad}
use vely.Json.Name.{JsonNode}
use vely.Json.Parse.{
  names_kept, check_value, Settings, Parser, Frame, fresh, Action, leave, again, nested, stray,
  check, ParseError, at_name, advance, JsonKind, add_json, end_value, call_handler, add_node, bind,
  word, read_number, read_text, on_comma, on_token, step, Token, Run, ended, strayed, spent, run,
  enter, follow, resume, json_new, finish_run, end_call, start, finish, open_object, close_object,
  open_array, close_array, name_end, comma, blank, quote, digit, letter_t, letter_f, letter_n,
  other, NodeCall, read_string,
}

-- A round that goes on has passed a byte, and one that leaves has not gone back.
data Moves (k : ℕ) : Action → Type 0 where
  left : {p : Parser} → k ≤ p.at → Moves k (leave p)
  onward : {f : Frame} {p : Parser} → k < p.at → Moves k (again f p)
  inward : {f : Frame} {p : Parser} → k < p.at → Moves k (nested f p)
  astray : Moves k stray

check-Moves :
    (k : ℕ) (l : List (Bool × ParseError)) (p : Parser) (a : Action)
    → k ≤ p.at
    → Moves k a
    → Moves k (check l p a)
unfolding check
check-Moves k [] p a h m = m
check-Moves k ((true, e) ∷ l) p a h m = left h
check-Moves k ((false, e) ∷ l) p a h m = check-Moves k l p a h m

either-Moves :
    (k : ℕ) (b : Bool) (x y : Action) → Moves k x → Moves k y → Moves k (if b then x else y)
either-Moves k true x y hx hy = hx
either-Moves k false x y hx hy = hy

at_name-Moves :
    (k : ℕ) (p : Parser) (go : ℕ → Action) → ((j : ℕ) → Moves k (go j)) → Moves k (at_name p go)
unfolding at_name
at_name-Moves k p go m =
    either-Moves k (p.lc == 0 || ltb (length p.list) p.lc) stray (go (p.lc - 1)) astray
      (m (p.lc - 1))

-- VV_ADD_JSON moves nothing.
abbrev Stands : Parser → Parser → Type 0
Stands p q = (q.at ≡ p.at) × (q.rest ≡ p.rest)

answer-Stands :
    (b : Bool) (p q r : Parser)
    → Stands p q
    → Stands p r
    → Stands p (if◌then◌else◌ {A = Parser × Bool} b (q, true) (r, false)).0
answer-Stands true p q r hq hr = hq
answer-Stands false p q r hq hr = hr

call_handler-Stands :
    (h : Option (List NodeCall → Bool)) (kind : JsonKind) (str : Bytes) (p : Parser)
    → Stands p (call_handler h kind str p).0
call_handler-Stands none kind str p = (refl, refl)
call_handler-Stands (some h) kind str p = answer-Stands (h _) p _ _ (refl, refl) (refl, refl)

add_node-Stands :
    (b : Bool) (kind : JsonKind) (str : Bytes) (p : Parser) → Stands p (add_node b kind str p)
add_node-Stands true kind str p = (refl, refl)
add_node-Stands false kind str p = (refl, refl)

add_json-Stands :
    (s : Settings) (kind : JsonKind) (str : Bytes) (p : Parser) → Stands p (add_json s kind str p).0
unfolding add_json
add_json-Stands s kind str p =
    let a = add_node-Stands s.use_hash kind str p in
    let b = call_handler-Stands s.handler kind str (add_node s.use_hash kind str p) in
    (b.0 ∙ a.0, b.1 ∙ a.1)

value_end :
    (k n : ℕ) (b : Bool) (q : Parser)
    → k ≤ q.at
    → Moves k (leave (if b then record (advance n q) { lc = q.lc - 1 } else q))
value_end k n true q h = left (omega arith)
value_end k n false q h = left h

end_value-Moves :
    (k : ℕ) (s : Settings) (kind : JsonKind) (str : Bytes) (n : ℕ) (p : Parser)
    → k ≤ p.at
    → Moves k (end_value s kind str n p)
unfolding end_value
end_value-Moves k s kind str n p h =
    let same = (add_json-Stands s kind str p).0 in
    either-Moves k (s.use_hash && not (names_kept (take (p.lc - 1) p.list))) stray _ astray
      (value_end k n (add_json s kind str p).1 (add_json s kind str p).0 (omega arith))

text-Moves :
    (s : Settings) (f : Frame) (r : JsonResult (Bytes × ℕ)) (p : Parser)
    → Moves p.at (read_text s f r p)
text-Moves s f (bad e) p = left (omega arith)
text-Moves s f (done (t, used)) p =
    let behind : p.at ≤ (advance (used + 1) p).at = omega arith in
    either-Moves p.at f.name _ _ (at_name-Moves p.at p _ (λ k. onward (omega arith)))
      (end_value-Moves p.at s _ t 1 (advance (used + 1) p) behind)

number-Moves : (s : Settings) (r : Option (ℕ × Bool)) (p : Parser) → Moves p.at (read_number s r p)
number-Moves s none p = left (omega arith)
number-Moves s (some (n, real)) p = end_value-Moves p.at s _ _ n (bind n p) (omega arith)

word-Moves :
    (s : Settings) (f : Frame) (w : Bytes) (kind : JsonKind) (p : Parser)
    → Moves p.at (word s f w kind p)
unfolding check_value
word-Moves s f w kind p =
    let here : p.at ≤ p.at = omega arith in
    check-Moves p.at _ p _ here (
      either-Moves p.at (begins w p.rest) _ _
        (end_value-Moves p.at s kind w (length w) (bind (length w) p) here) (left here))

comma-Moves : (f : Frame) (p : Parser) → Moves p.at (on_comma f p)
unfolding on_comma
comma-Moves f p =
    let here : p.at ≤ p.at = omega arith in
    let next : p.at < (advance 1 p).at = omega arith in
    let behind : p.at ≤ (advance 1 p).at = omega arith in
    check-Moves p.at _ p _ here (
      either-Moves p.at f.isobj _ _ (onward next) (
        either-Moves p.at f.isarr _ _ (at_name-Moves p.at (advance 1 p) _ (λ k. inward next))
          (left behind)))

token-Moves : (s : Settings) (t : Token) (f : Frame) (p : Parser) → Moves p.at (on_token s t f p)
unfolding on_token check_value
token-Moves s open_object f p = check-Moves p.at _ p _ (omega arith) (onward (omega arith))
token-Moves s close_object f p = check-Moves p.at _ p _ (omega arith) (left (omega arith))
token-Moves s open_array f p =
    check-Moves p.at _ p _ (omega arith) (at_name-Moves p.at _ _ (λ k. inward (omega arith)))
token-Moves s close_array f p =
    check-Moves p.at _ p _ (omega arith) (at_name-Moves p.at _ _ (λ k. left (omega arith)))
token-Moves s name_end f p = check-Moves p.at _ p _ (omega arith) (inward (omega arith))
token-Moves s comma f p = comma-Moves f p
token-Moves s blank f p = onward (omega arith)
token-Moves s quote f p =
    check-Moves p.at _ p _ (omega arith) (text-Moves s f (read_string s.dec (drop 1 p.rest)) p)
token-Moves s digit f p = check-Moves p.at _ p _ (omega arith) (number-Moves s (json_num p.rest) p)
token-Moves s letter_t f p = word-Moves s f (codes "true") _ p
token-Moves s letter_f f p = word-Moves s f (codes "false") _ p
token-Moves s letter_n f p = word-Moves s f (codes "null") _ p
token-Moves s other f p = left (omega arith)

step-Moves : (s : Settings) (f : Frame) (p : Parser) → Moves p.at (step s f p)
unfolding step
step-Moves s f p = token-Moves s _ f (record p { nulled = 0 })

abbrev pub IsDone : ℕ → Run → Type 0
IsDone k (ended p) = k ≤ p.at
IsDone k strayed = Unit
IsDone k spent = ⊥

-- Calls of the loop that come to an end on the fuel that is left.
abbrev Enough : ℕ → ℕ → (Frame → Parser → Run) → Type 0
Enough len k go = (f : Frame) (p : Parser) → k < p.at → IsDone k (go f p)

weaken : (j k : ℕ) (r : Run) → k ≤ j → IsDone j r → IsDone k r
weaken j k (ended p) h d = omega arith
weaken j k strayed h d = tt
weaken j k spent h d = d

either-IsDone :
    (k : ℕ) (b : Bool) (x y : Run) → IsDone k x → IsDone k y → IsDone k (if b then x else y)
either-IsDone k true x y hx hy = hx
either-IsDone k false x y hx hy = hy

enter-IsDone :
    (go : Parser → Run) (p : Parser)
    → ((q : Parser) → q.at ≡ p.at → IsDone q.at (go q))
    → IsDone p.at (enter go p)
enter-IsDone go p d =
    let here : p.at ≤ p.at = omega arith in
    either-IsDone p.at (leb 32 (p.depth + 1)) _ _ here (
      either-IsDone p.at (leb 32 (p.lc + 1)) _ _ here
        (d (record p { depth = p.depth + 1; lc = p.lc + 1 }) refl))

resume-IsDone :
    (k : ℕ) (go : Parser → Run) (r : Run)
    → ((q : Parser) → k ≤ q.at → IsDone q.at (go q))
    → IsDone k r
    → IsDone k (resume go r)
resume-IsDone k go (ended p) d h =
    elim p.ec as (λ o. IsDone k (elim o [ none ↦ go p | some e ↦ end_call p ])) [
      | none ↦ weaken p.at k (go p) h (d p h)
      | some e ↦ h
    ]
resume-IsDone k go strayed d h = tt
resume-IsDone k go spent d h = h

follow-IsDone :
    (k : ℕ) (go : Frame → Parser → Run) (a : Action)
    → ((f : Frame) (p : Parser) → k < p.at → IsDone p.at (go f p))
    → Moves k a
    → IsDone k (follow go a)
follow-IsDone k go (leave p) d (left m) = m
follow-IsDone k go (again f p) d (onward m) = weaken p.at k (go f p) (omega arith) (d f p m)
follow-IsDone k go (nested f p) d (inward m) = weaken p.at k _ (omega arith) (
    resume-IsDone p.at (go f) (enter (go fresh) p) (λ q h. d f q (omega arith))
      (enter-IsDone (go fresh) p (λ q e. d fresh q (omega arith))))
follow-IsDone k go stray d astray = tt

-- A call of the loop ends where its fuel reaches past the end of the document.
pub run-IsDone :
    (fuel : ℕ) (s : Settings) (f : Frame) (p : Parser)
    → 1 ≤ fuel
    → s.len < p.at + fuel
    → IsDone p.at (run fuel s f p)
unfolding run
run-IsDone zero s f p h k = absurd (omega arith)
run-IsDone (suc fuel) s f p h k = elim (Bool-cases (ltb p.at s.len)) [
  | inr n ↦ let here : p.at ≤ p.at = omega arith in rw (run, n) here
  | inl y ↦
      let inside = ltb→lt p.at s.len y in
      rw (run, y)
        (follow-IsDone p.at (run fuel s) (step s f p)
          (λ g q l. run-IsDone fuel s g q (omega arith) (omega arith)) (step-Moves s f p))
]

finished :
    (s : Settings) (k : ℕ) (r : Run)
    → IsDone k r
    → (finish_run s r ≡ strayed) ⊎ ((p : Parser) × (finish_run s r ≡ ended p))
finished s k (ended p) d = inr (finish s p, refl)
finished s k strayed d = inl refl
finished s k spent d = absurd d

-- The parser comes to an end on every document, whatever the settings are and whatever the parse
-- before has left behind, which is a byte that is kept and the list of names: fuel of one more than
-- the length that is given is enough. It ends with a result, or with an access outside of the list of
-- names or through a name that is NULL.
pub json_new-ends :
    (s : Settings) (kept : ℕ) (old : List JsonNode) (val : Bytes)
    → (json_new (s.len + 1) s kept old val ≡ strayed)
      ⊎ ((p : Parser) × (json_new (s.len + 1) s kept old val ≡ ended p))
unfolding json_new
json_new-ends s kept old val = finished s 0 _ (
    enter-IsDone (run (s.len + 1) s fresh) (start kept old val)
      (λ q e. run-IsDone (s.len + 1) s fresh q (omega arith) (omega arith)))
