-- ===== src/Json/Parse/Tests.antt =====
-- Runs of the parser, and the concrete inputs for its theorems.
use vely.Base.{
  ◌≡◌, refl, false, true, [], ◌∷◌, ◌+◌, length, Bytes, codes, ℕ, ◌==◌, if◌then◌else◌, none, some,
  Option, map, replicate, List, ◌⊎◌, inl, arith,
}
use vely.Json.{
  json_to_utf8, decode_loop, decode_step, json_num, json_integer, json_fraction, json_exponent,
  is_digit, digits, byte_code,
}
use vely.Json.Name.{
  fullname, path_name, part_name, decimal_text, names_text, node_text, index_text, put_digits,
}
use vely.Utf8.{decode_utf8}
use vely.Json.Grammar.{IsNumber, no_minus, integer, no_fraction, no_exponent}
use vely.Json.Write.{json_text, utf8_text}
use vely.Json.Parse.Document.{
  count_values, Value, leaf, object, number, string, yes_word, array, plain, member, no_members,
  value, no_values, put_value, put_leaf, put_name, leaf_text, leaves_value, IsValue, is_object,
  is_array, is_leaf, is_value, is_no_values, is_member, is_plain, is_no_members,
}
use vely.Json.Parse.Ends.{json_new-ends}
use vely.Json.Parse.{
  names_kept, Parser, no_name, check, check_value, at_name, Settings, JsonLeaf, ParseError, Run,
  ended, strayed, spent, json_new, run, step, token, on_token, on_comma, read_string, name_memory,
  add_json, end_value, finish, skip_space, is_space, syntax, name_expected, comma_end_array,
}

abbrev settings : ℕ → Settings
settings n = record { use_hash = true; handler = none; dec = true; len = n }

-- A document, with `"` for the quotation mark.
abbrev pub unquote : Bytes → Bytes
unquote = map (λ c. if c == 39 then 34 else c)

abbrev parse : Bytes → Run
unfolding json_new
parse v = json_new (length v + 1) (settings (length v)) 0 (replicate 32 no_name) v

abbrev summary : JsonLeaf → Bytes × Bytes
summary n = (n.name, n.str)

abbrev outcome : Run → Option (Option ℕ × Option ParseError × List (Bytes × Bytes))
outcome (ended p) = some (p.ec, p.errm, map summary p.nodes)
outcome strayed = none
outcome spent = none

small :
    outcome (parse (unquote (codes "{'a':[1,-2.5],'b':{'c':'x'} }")))
    ≡ some (
      none,
      none,
      (unquote (codes "'a'[0]"), codes "1")
          ∷ (unquote (codes "'a'[1]"), codes "-2.5")
          ∷ (unquote (codes "'b'.'c'"), codes "x")
          ∷ [],
    )
unfolding parse json_new run step token check check_value at_name on_token on_comma read_string
    name_memory add_json end_value names_kept finish skip_space is_space json_to_utf8 decode_loop
    decode_step json_num json_integer json_fraction json_exponent is_digit digits fullname
    names_text node_text index_text put_digits
small = refl

unclosed :
    outcome (parse (unquote (codes "{'a':1")))
    ≡ some (none, none, (unquote (codes "'a'"), codes "1") ∷ [])
unfolding parse json_new run step token check check_value at_name on_token on_comma read_string
    name_memory add_json end_value names_kept finish skip_space is_space json_to_utf8 decode_loop
    decode_step json_num json_integer json_fraction json_exponent is_digit digits fullname
    names_text node_text index_text put_digits
unclosed = refl

empty_object : outcome (parse (codes "{}")) ≡ some (some 1, some name_expected, [])
unfolding parse json_new run step token check check_value at_name on_token on_comma finish
    skip_space is_space
empty_object = refl

empty_array : outcome (parse (unquote (codes "{'a':[]}"))) ≡ some (some 7, some comma_end_array, [])
unfolding parse json_new run step token check check_value at_name on_token on_comma read_string
    name_memory add_json end_value names_kept finish skip_space is_space json_to_utf8 decode_loop
    decode_step
empty_array = refl

-- A document of a colon and a value, where the list is that of a document before with a name.
stale_name :
    (json_new
      (2 + 1)
      (settings 2)
      0
      (record no_name { name_len = 1 } ∷ replicate 31 no_name)
      (codes ":1"))
    ≡ strayed
unfolding json_new run step token check check_value at_name on_token on_comma add_json end_value
    names_kept finish skip_space is_space json_num json_integer json_fraction json_exponent is_digit
    digits fullname names_text node_text
stale_name = refl

root_array : parse (codes "[1]") ≡ strayed
unfolding parse json_new run step token check check_value at_name on_token
root_array = refl

space_behind :
    outcome (parse (codes "12 "))
    ≡ some (some 2, some syntax, (unquote (codes "''"), codes "12") ∷ [])
unfolding parse json_new run step token check check_value at_name on_token on_comma read_string
    name_memory add_json end_value names_kept finish skip_space is_space json_num json_integer
    json_fraction json_exponent is_digit digits fullname
space_behind = refl

json_new-ends_example :
    (json_new (9 + 1) (settings 9) 0 (replicate 32 no_name) (unquote (codes "{'a':[1,2")) ≡ strayed)
    ⊎ ((p : Parser) × (json_new
            (9 + 1)
            (settings 9)
            0
            (replicate 32 no_name)
            (unquote (codes "{'a':[1,2"))
          ≡ ended p))
json_new-ends_example =
    json_new-ends (settings 9) 0 (replicate 32 no_name) (unquote (codes "{'a':[1,2"))

-- `{"a":[1,true],"b":{"c":"x"}}`.
abbrev pub sample : Value
sample =
    object (codes "a") (array (leaf (number (codes "1") false)) (value (leaf yes_word) no_values)) (
      member (codes "b") (plain (object (codes "c") (plain (leaf (string (codes "x")))) no_members))
        no_members)

sample_text : put_value sample [] ≡ unquote (codes "{'a':[1,true],'b':{'c':'x'}}")
unfolding put_value put_leaf put_name json_text byte_code
sample_text = refl

sample_leaves :
    map summary (leaves_value path_name [] sample)
    ≡ (unquote (codes "'a'[0]"), codes "1")
      ∷ (unquote (codes "'a'[1]"), codes "true")
      ∷ (unquote (codes "'b'.'c'"), codes "x")
      ∷ []
unfolding leaves_value leaf_text utf8_text path_name part_name decimal_text decode_utf8
sample_leaves = refl

one-IsNumber : IsNumber (codes "1") false
unfolding is_digit
one-IsNumber = record {
  sign = [];
  int = codes "1";
  frac = [];
  exp = [];
  has_frac = false;
  has_exp = false;
  is_sign = no_minus;
  is_int = integer 49 [] (omega arith) (refl, tt);
  is_frac = no_fraction;
  is_exp = no_exponent;
  is_whole = refl;
  is_real = refl;
}

pub sample-IsValue : IsValue sample
unfolding count_values
sample-IsValue =
    is_object ((omega arith, omega arith, omega arith), tt)
      (is_array (is_leaf one-IsNumber) (is_value (is_leaf tt) is_no_values) (omega arith))
      (is_member ((omega arith, omega arith, omega arith), tt)
        (is_plain (
          is_object ((omega arith, omega arith, omega arith), tt)
            (is_plain (is_leaf ((omega arith, omega arith, omega arith, inl (omega arith)), tt)))
            is_no_members))
        is_no_members)
