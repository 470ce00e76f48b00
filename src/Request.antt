-- ===== src/Request.antt =====
-- velyrt.c: the input parameters of a request, by `vely_get_input_param` and `vely_set_input`. An
-- index is `none` where the code has -1.
pub mod Params
pub mod Unique
pub mod Tests
use vely.Base.{
  ℕ, zero, suc, ◌+◌, Bool, true, false, not, ◌&&◌, Option, none, some, List, [], ◌∷◌, ◌++◌, get_or,
  set, length, if◌then◌else◌, Bytes, same_text,
}

-- `vely_ipar`.
pub record Param : Type 0 where
  pub found : Bool
  pub name : Bytes
  pub value : Bytes

-- What `vely_input_req` has of them, and the static variable beside it.
pub record Inputs : Type 0 where
  pub ipars : List Param
  pub task : Option ℕ
  pub found_input_param : Option ℕ

-- `ipars[i]`.
unfoldable pub param_at : ℕ → List Param → Param
param_at i ps = get_or ps i (record { found = false; name = []; value = [] })

abbrev pub agree : Bool → Bool → Bool
agree true b = b
agree false b = not b

abbrev pub behind : Option ℕ → Option ℕ
behind none = none
behind (some i) = some (suc i)

-- The inner loop: the first parameter of the name whose `found` is `comp_found`.
unfoldable pub find_param : Bool → Bytes → List Param → Option ℕ
unfolding same_text
find_param comp_found name [] = none
find_param comp_found name (p ∷ ps) =
    let rest = find_param comp_found name ps in
    if agree p.found comp_found && same_text p.name name then some zero else behind rest

-- What is done where a parameter is found at `i`.
unfoldable pub take_param : Inputs → ℕ → Bool → Inputs × Bytes
unfolding param_at
take_param r i is_task =
    let p = param_at i r.ipars in
    (
      record {
        ipars = set r.ipars i (record p { found = true });
        task = if is_task then some i else r.task;
        found_input_param = some i;
      },
      p.value,
    )

-- What is done where no parameter is found.
unfoldable pub no_param : Inputs → Bool → Inputs × Bytes
no_param r is_task =
    (record r { task = if is_task then none else r.task; found_input_param = none }, [])

unfoldable pub get_input_param : Inputs → Bytes → Bool → Inputs × Bytes
unfolding find_param take_param no_param
get_input_param r name is_task = elim (find_param false name r.ipars) [
  | some i ↦ take_param r i is_task
  | none ↦ elim (find_param true name r.ipars) [
    | some i ↦ take_param r i is_task
    | none ↦ no_param r is_task
  ]
]

-- `vely_set_input` after the search.
unfoldable pub write_param : Inputs → Bytes → Bytes → Option ℕ → Inputs × ℕ
unfolding param_at
write_param r name val (some i) = (
  record r { ipars = set r.ipars i (record (param_at i r.ipars) { value = val; found = false }) },
  i,
)
write_param r name val none = (
  record r { ipars = r.ipars ++ record { found = false; name = name; value = val } ∷ [] },
  length r.ipars,
)

unfoldable pub set_input : Inputs → Bytes → Bytes → Inputs × ℕ
unfolding get_input_param write_param
set_input r name val =
    let (r', value) = get_input_param r name false in write_param r' name val r'.found_input_param
