-- ===== src/Cookies.antt =====
-- velyrt.c: the cookies of a request, by `vely_check_set_cookie`, `vely_find_cookie`,
-- `vely_set_cookie` and `vely_delete_cookie`. A `char` is signed, so that a byte of 128 and more is
-- below 33. `vely_report_error` ends the request, and is a result here.
pub mod Text
pub mod Slots
pub mod Kept
pub mod Removed
pub mod Tests
use vely.Base.{
  ℕ, zero, suc, ◌+◌, Bool, true, false, not, ◌&&◌, ◌||◌, Option, none, some, List, [], ◌∷◌, ◌++◌,
  leb, ltb, ◌==◌, get_or, set, take, length, if◌then◌else◌, Bytes, codes, same_text, strip,
}

-- `vely_cookies`; `content` is its `data`.
pub record Cookie : Type 0 where
  pub content : Bytes
  pub is_set_by_program : Bool

-- What is reported.
pub data CookieError : Type 0 where
  name_invalid name_empty value_invalid value_empty secure_invalid : CookieError
  http_only_invalid same_site_invalid data_output too_many : CookieError

pub data Outcome (A : Type 0) : Type 0 where
  okay : A → Outcome A
  reported : CookieError → Outcome A

unfoldable pub one_of : ℕ → Bytes → Bool
one_of c [] = false
one_of c (d ∷ s) = c == d || one_of c s

unfoldable pub is_control : ℕ → Bool
is_control c = ltb c 33 || leb 128 c || c == 127

-- The bytes `()@,;:\"/[]?={}` are not for names.
unfoldable pub name_okay : Bytes → Bool
unfolding is_control one_of
name_okay [] = true
name_okay (c ∷ s) =
    not (is_control c || one_of c (61 ∷ 92 ∷ 34 ∷ codes "()@,;:/[]?{}")) && name_okay s

-- A quotation mark is for the first byte and the last one.
unfoldable pub value_okay : Bool → Bytes → Bool
unfolding is_control one_of
value_okay first [] = true
value_okay first (c ∷ s) =
    not (
      is_control c || one_of c (59 ∷ 44 ∷ 92 ∷ []) || (c == 34 && not first && not (length s == 0)))
    && value_okay false s

-- The end of `vely_check_set_cookie`, which fits into the 200 bytes of its buffer.
unfoldable pub safety_clause : Bytes → Bytes → Bytes → Bytes
safety_clause secure samesite httponly =
    codes "; "
    ++ secure
    ++ httponly
    ++ (if length samesite == 0 then [] else codes "SameSite=" ++ samesite)

-- What is wrong with the arguments, in the order of the tests.
unfoldable pub cookie_checks : Bytes → Bytes → Bytes → Bytes → Bytes → List (Bool × CookieError)
unfolding name_okay value_okay same_text
cookie_checks name val secure samesite httponly =
    (not (name_okay name), name_invalid)
    ∷ (length name == 0, name_empty)
    ∷ (not (value_okay true val), value_invalid)
    ∷ (length val == 0, value_empty)
    ∷ (not (same_text secure (codes "Secure; ")) && not (same_text secure []), secure_invalid)
    ∷ (
      not (same_text httponly (codes "HttpOnly; ")) && not (same_text httponly []),
      http_only_invalid,
    )
    ∷ (
      not (length samesite == 0)
          && not (same_text samesite (codes "Strict"))
          && not (same_text samesite (codes "Lax"))
          && not (same_text samesite (codes "None")),
      same_site_invalid,
    )
    ∷ []

abbrev pub first_error : List (Bool × CookieError) → Bytes → Outcome Bytes
first_error [] clause = okay clause
first_error ((true, e) ∷ l) clause = reported e
first_error ((false, e) ∷ l) clause = first_error l clause

unfoldable pub check_set_cookie : Bytes → Bytes → Bytes → Bytes → Bytes → Outcome Bytes
unfolding cookie_checks safety_clause
check_set_cookie name val secure samesite httponly =
    first_error (cookie_checks name val secure samesite httponly)
      (safety_clause secure samesite httponly)

-- What stands before the first semicolon.
unfoldable pub up_to_semi : Bytes → Bytes
up_to_semi [] = []
up_to_semi (c ∷ s) = let rest = up_to_semi s in if c == 59 then [] else c ∷ rest

unfoldable pub lower : ℕ → ℕ
lower c = if leb 65 c && leb c 90 then c + 32 else c

-- What follows `w` at the beginning, and behind its first occurrence, in upper or lower case.
unfoldable pub strip_case : Bytes → Bytes → Option Bytes
unfolding lower
strip_case [] s = some s
strip_case (x ∷ w) [] = none
strip_case (x ∷ w) (y ∷ s) = let rest = strip_case w s in if lower x == lower y then rest else none

abbrev pub first_of : Option Bytes → Option Bytes → Option Bytes
first_of (some p) q = some p
first_of none q = q

unfoldable pub after_case : Bytes → Bytes → Option Bytes
unfolding strip_case
after_case w [] = strip_case w []
after_case w (c ∷ s) = first_of (strip_case w (c ∷ s)) (after_case w s)

abbrev pub option_text : Option Bytes → Option Bytes
option_text none = none
option_text (some s) = some (up_to_semi s)

unfoldable pub after_equal : Bytes → Option Bytes
after_equal [] = none
after_equal (c ∷ s) = if c == 61 then some s else none

abbrev pub behind_name : Option Bytes → Option Bytes
behind_name none = none
behind_name (some r) = after_equal r

-- What stands behind the name and the equal sign, where the cookie has this name.
unfoldable pub cookie_rest : Bytes → Bytes → Option Bytes
unfolding strip
cookie_rest name content = behind_name (strip name content)

-- What `vely_find_cookie` gives where it finds a cookie.
pub record Found : Type 0 where
  pub ind : ℕ
  pub value : Bytes
  pub path : Option Bytes
  pub exp : Option Bytes

unfoldable pub found_at : ℕ → Bytes → Found
unfolding up_to_semi after_case
found_at ci val = record {
  ind = ci;
  value = up_to_semi val;
  path = option_text (after_case (codes "; Path=") val);
  exp = option_text (after_case (codes "; Expires=") val);
}

abbrev pub found_or : ℕ → Option Bytes → Option Found → Option Found
found_or ci none rest = rest
found_or ci (some val) rest = some (found_at ci val)

-- The loop of `vely_find_cookie`, from the cookie at `ci`.
unfoldable pub find_from : ℕ → Bytes → List Cookie → Option Found
unfolding cookie_rest found_at
find_from ci cookie_name [] = none
find_from ci cookie_name (c ∷ cs) =
    found_or ci (cookie_rest cookie_name c.content) (find_from (ci + 1) cookie_name cs)

unfoldable pub find_cookie : List Cookie → Bytes → Option Found
unfolding find_from
find_cookie cs cookie_name = find_from 0 cookie_name cs

-- An option of a cookie, where it is given and not empty.
unfoldable pub cookie_option : Bytes → Option Bytes → Bytes
cookie_option w none = []
cookie_option w (some []) = []
cookie_option w (some (c ∷ s)) = w ++ (c ∷ s)

-- The four formats of `cookie_temp`.
unfoldable pub cookie_text : Bytes → Bytes → Option Bytes → Option Bytes → Bytes → Bytes
unfolding cookie_option
cookie_text name value path expires clause =
    name
    ++ (61 ∷ value
        ++ (cookie_option (codes "; Path=") path
            ++ (cookie_option (codes "; Expires=") expires ++ clause)))

abbrev pub program_cookie : Bytes → Cookie
program_cookie content = record { content = content; is_set_by_program = true }

-- The cookie is written where it was found, or at the end; VV_MAX_COOKIES is 256.
unfoldable pub write_cookie : List Cookie → Option Found → Bytes → Outcome (List Cookie)
write_cookie cs (some f) content = okay (set cs f.ind (program_cookie content))
write_cookie cs none content =
    if leb 256 (length cs + 1) then reported too_many else okay (cs ++ program_cookie content ∷ [])

-- What is given to `vely_set_cookie` behind the name and the value.
pub record CookieOptions : Type 0 where
  pub path : Option Bytes
  pub expires : Option Bytes
  pub samesite : Bytes
  pub httponly : Bytes
  pub secure : Bytes

-- `vely_set_cookie` behind the check; VV_MAX_COOKIE_SIZE is 2048, and what is longer is cut.
unfoldable pub set_checked :
    List Cookie → Bytes → Bytes → CookieOptions → Outcome Bytes → Outcome (List Cookie)
unfolding find_cookie cookie_text write_cookie
set_checked cs name value o (reported e) = reported e
set_checked cs name value o (okay clause) =
    write_cookie cs (find_cookie cs name)
      (take 2048 (cookie_text name value o.path o.expires clause))

unfoldable pub set_cookie :
    Bool → List Cookie → Bytes → Bytes → CookieOptions → Outcome (List Cookie)
unfolding check_set_cookie set_checked
set_cookie data_was_output cs name value o =
    if data_was_output
    then reported data_output
    else set_checked cs name value o (check_set_cookie name value o.secure o.samesite o.httponly)

abbrev pub epoch : Bytes
epoch = codes "; Max-Age=0; Expires=Thu, 01 Jan 1970 01:01:01 GMT"

unfoldable pub deleted_path : Option Bytes → Bytes
deleted_path none = []
deleted_path (some p) = codes "; Path=" ++ p

-- What a deleted cookie is set to.
unfoldable pub deleted_text : Bytes → Option Bytes → Bytes → Bytes
unfolding deleted_path
deleted_text name path clause =
    name ++ (61 ∷ codes "deleted" ++ (deleted_path path ++ (epoch ++ clause)))

-- `vely_delete_cookie` where the cookie is found, behind the check; its buffer has 300 bytes.
unfoldable pub delete_checked :
    List Cookie → Bytes → Option Bytes → Found → Outcome Bytes → Outcome (List Cookie × Option ℕ)
unfolding deleted_text
delete_checked cs name path f (reported e) = reported e
delete_checked cs name path f (okay clause) = okay (
  set cs f.ind (program_cookie (take 299 (deleted_text name (first_of path f.path) clause))),
  some f.ind,
)

abbrev pub delete_found :
    List Cookie → Bytes → Option Bytes → Bytes → Option Found → Outcome (List Cookie × Option ℕ)
delete_found cs name path secure none = okay (cs, none)
delete_found cs name path secure (some f) =
    delete_checked cs name path f (check_set_cookie name (codes "deleted") secure [] [])

unfoldable pub delete_cookie :
    List Cookie → Bytes → Option Bytes → Bytes → Outcome (List Cookie × Option ℕ)
unfolding find_cookie delete_checked check_set_cookie
delete_cookie cs name path secure = delete_found cs name path secure (find_cookie cs name)
