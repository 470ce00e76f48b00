-- ===== src/Request/Tests.antt =====
-- Runs on the input parameters and the cookies, and the concrete inputs for their theorems.
use vely.Base.{
  ◌≡◌, refl, true, false, none, [], ◌∷◌, Bytes, codes, same_text, same_text→eq, subst, arith,
  Bool-cases, inl, inr, ◌≤◌,
}
use vely.Request.{Param, Inputs, find_param, param_at, take_param, get_input_param, set_input}
use vely.Request.Params.{count_named}
use vely.Request.Unique.{IsUnique, Gets, Sets, get_input_param_lem, set_input_lem}

abbrev given : Bytes → Bytes → Param
given name value = record { found = false; name = name; value = value }

abbrev inputs : Inputs
inputs = record {
  ipars = given (codes "a") (codes "1") ∷ given (codes "b") (codes "2") ∷ [];
  task = none;
  found_input_param = none;
}

inputs-IsUnique : IsUnique inputs.ipars
unfolding count_named same_text
inputs-IsUnique q = elim (Bool-cases (same_text (codes "a") q)) [
  | inl a ↦ subst (λ q. count_named q inputs.ipars ≤ 1) (same_text→eq (codes "a") q a) (omega arith)
  | inr a ↦ rw a (ground arith)
]

get_input_param_lem_example : Gets inputs (codes "b") true (get_input_param inputs (codes "b") true)
unfolding count_named same_text
get_input_param_lem_example = get_input_param_lem inputs (codes "b") true (omega arith)

set_input_lem_example :
    Sets inputs (codes "c") (codes "3") (set_input inputs (codes "c") (codes "3"))
set_input_lem_example = set_input_lem inputs (codes "c") (codes "3") inputs-IsUnique

-- A name that is given twice: each call gives another value.
abbrev twice : Inputs
twice = record inputs { ipars = given (codes "a") (codes "1") ∷ given (codes "a") (codes "2") ∷ [] }

first_value : (get_input_param twice (codes "a") false).1 ≡ codes "1"
unfolding get_input_param find_param take_param param_at same_text
first_value = refl

second_value :
    (get_input_param (get_input_param twice (codes "a") false).0 (codes "a") false).1 ≡ codes "2"
unfolding get_input_param find_param take_param param_at same_text
second_value = refl
