-- ===== src/Request/Unique.antt =====
-- What the program sees of the parameters, where no name is given twice: a value for each name.
use vely.Base.{
  ℕ, ◌+◌, ◌≤◌, ◌≡◌, refl, ◌∙◌, ap, sym, subst, inl, inr, Bool, true, false, not, Option, none, some,
  List, [], if◌then◌else◌, Bytes, same_text, Bool-cases, arith, same_text_refl, same_text→eq,
}
use vely.Request.{
  Param, Inputs, param_at, find_param, take_param, no_param, get_input_param, write_param,
  set_input,
}
use vely.Request.Params.{
  value_under, position, count_named, Located, Missing, located, value_under-append,
  value_under-append_other, count_named-append, position-append,
}

abbrev pub IsUnique : List Param → Type 0
IsUnique ps = (q : Bytes) → count_named q ps ≤ 1

abbrev pub or_empty : Option Bytes → Bytes
or_empty none = []
or_empty (some v) = v

-- The answer of a search for `name`: the value, no other change of the parameters than in what has
-- been found, and where it stands.
pub record Gets (r : Inputs) (name : Bytes) (is_task : Bool) (o : Inputs × Bytes) : Type 0 where
  pub value : o.1 ≡ or_empty (value_under name r.ipars)
  pub values : (q : Bytes) → value_under q o.0.ipars ≡ value_under q r.ipars
  pub counts : (q : Bytes) → count_named q o.0.ipars ≡ count_named q r.ipars
  pub places : (q : Bytes) → position q o.0.ipars ≡ position q r.ipars
  pub place : o.0.found_input_param ≡ position name r.ipars
  pub task : o.0.task ≡ (if is_task then position name r.ipars else r.task)

again :
    (name q : Bytes) (ps : List Param) (v : Bytes)
    → value_under name ps ≡ some v
    → (if same_text name q then some v else value_under q ps) ≡ value_under q ps
again name q ps v e = elim (Bool-cases (same_text name q)) [
  | inl y ↦ rw y (sym e ∙ ap (λ s. value_under s ps) (same_text→eq name q y))
  | inr n ↦ rw n
]

take_param-Gets :
    (r : Inputs) (name : Bytes) (is_task : Bool) (i : ℕ)
    → Located name r.ipars i
    → Gets r name is_task (take_param r i is_task)
unfolding take_param
take_param-Gets r name is_task i l = record {
  value = rw l.value;
  values = λ q.
      l.values true (param_at i r.ipars).value q
      ∙ again name q r.ipars (param_at i r.ipars).value l.value;
  counts = λ q. l.counts true (param_at i r.ipars).value q;
  places = λ q. l.places true (param_at i r.ipars).value q;
  place = sym l.place;
  task = rw l.place;
}

no_param-Gets :
    (r : Inputs) (name : Bytes) (is_task : Bool)
    → Missing name r.ipars
    → Gets r name is_task (no_param r is_task)
unfolding no_param
no_param-Gets r name is_task m = record {
  value = rw m.value;
  values = λ q. refl;
  counts = λ q. refl;
  places = λ q. refl;
  place = sym m.place;
  task = rw m.place;
}

-- Which of the two rounds finds the parameter.
abbrev found_in : Inputs → Bool → Option ℕ → Option ℕ → Inputs × Bytes
found_in r is_task first second = elim first [
  | some i ↦ take_param r i is_task
  | none ↦ elim second [ some i ↦ take_param r i is_task | none ↦ no_param r is_task ]
]

get_input_param-found :
    (r : Inputs) (name : Bytes) (is_task : Bool) (i : ℕ) (b : Bool)
    → find_param b name r.ipars ≡ some i
    → find_param (not b) name r.ipars ≡ none
    → get_input_param r name is_task ≡ take_param r i is_task
unfolding get_input_param
get_input_param-found r name is_task i false e n =
    ap (λ o. found_in r is_task o (find_param true name r.ipars)) e
get_input_param-found r name is_task i true e n =
    ap (λ o. found_in r is_task o (find_param true name r.ipars)) n ∙ ap (found_in r is_task none) e

-- Where the name is not given twice, vely_get_input_param gives its value, or the empty string
-- where it is not given, whichever parameters have been asked for before; it sets the index and, if asked
-- to, the task to where the parameter stands, or to -1, and changes the value of no parameter.
pub get_input_param_lem :
    (r : Inputs) (name : Bytes) (is_task : Bool)
    → count_named name r.ipars ≤ 1
    → Gets r name is_task (get_input_param r name is_task)
unfolding get_input_param
get_input_param_lem r name is_task h = elim (located name r.ipars h) [
  | inl m ↦
      subst (Gets r name is_task)
        (sym (
          ap (λ o. found_in r is_task o (find_param true name r.ipars)) (m.seen false)
          ∙ ap (found_in r is_task none) (m.seen true)))
        (no_param-Gets r name is_task m)
  | inr (i, l) ↦
      subst (Gets r name is_task)
        (sym (get_input_param-found r name is_task i (param_at i r.ipars).found l.seen l.unseen))
        (take_param-Gets r name is_task i l)
]

-- The effect of a write of `val` under `name`.
pub record Sets (r : Inputs) (name val : Bytes) (o : Inputs × ℕ) : Type 0 where
  pub values :
      (q : Bytes)
      → value_under q o.0.ipars ≡ (if same_text name q then some val else value_under q r.ipars)
  pub unique : IsUnique o.0.ipars
  pub place : position name o.0.ipars ≡ some o.1
  pub task : o.0.task ≡ r.task

module _ (r : Inputs) (name val : Bytes) (h : IsUnique r.ipars) where
  one_more :
      (q : Bytes)
      → Missing name r.ipars
      → count_named q r.ipars + (if same_text name q then 1 else 0) ≤ 1
  one_more q m = elim (Bool-cases (same_text name q)) [
    | inl y ↦ rw y (omega (arith, rw (same_text→eq name q y) at m.count))
    | inr n ↦ rw n (omega (arith, h q))
  ]

  write_new :
      position name r.ipars ≡ none
      → Missing name r.ipars
      → Sets r name val (write_param r name val none)
  unfolding write_param
  write_new e m = record {
    values = λ q. elim (Bool-cases (same_text name q)) [
      | inl y ↦ rw y (value_under-append _ q y r.ipars (rw (same_text→eq name q y) at m.value))
      | inr n ↦ rw n (value_under-append_other _ q r.ipars n)
    ];
    unique = λ q. rw (count_named-append _ q r.ipars) (one_more q m);
    place = position-append _ name (same_text_refl name) r.ipars m.count;
    task = refl;
  }

  write_old : (i : ℕ) → Located name r.ipars i → Sets r name val (write_param r name val (some i))
  unfolding write_param
  write_old i l = record {
    values = λ q. l.values false val q;
    unique = λ q. rw (l.counts false val q) (h q);
    place = l.places false val name ∙ l.place;
    task = refl;
  }

  write_lem : Sets r name val (write_param r name val (position name r.ipars))
  write_lem = elim (located name r.ipars (h name)) [
    | inl m ↦ rw m.place (write_new m.place m)
    | inr (i, l) ↦ rw l.place (write_old i l)
  ]

-- Where no name is given twice, vely_set_input gives the name this value and no other name another
-- one, keeps the names apart, and returns where the parameter then stands; the task stays.
pub set_input_lem :
    (r : Inputs) (name val : Bytes) → IsUnique r.ipars → Sets r name val (set_input r name val)
unfolding set_input
set_input_lem r name val h =
    let r' = (get_input_param r name false).0 in
    let g = get_input_param_lem r name false (h name) in
    let w = write_lem r' name val (λ q. rw (g.counts q) (h q)) in
    let s : Sets r' name val (set_input r name val) =
      subst (λ o. Sets r' name val (write_param r' name val o)) (g.places name ∙ sym g.place) w in
    record {
      values = λ q. s.values q ∙ ap (λ v. if same_text name q then some val else v) (g.values q);
      unique = s.unique;
      place = s.place;
      task = s.task ∙ g.task;
    }
