-- ===== src/Cookies/Tests.antt =====
-- Runs on cookies, and the concrete inputs for their theorems.
use vely.Base.{◌≡◌, refl, false, none, some, [], ◌∷◌, List, codes, same_text, arith, strip}
use vely.Cookies.{
  Cookie, CookieOptions, okay, reported, Found, program_cookie, set_cookie, set_checked,
  check_set_cookie, cookie_checks, name_okay, value_okay, is_control, one_of, safety_clause,
  find_cookie, find_from, cookie_rest, after_equal, up_to_semi, after_case, strip_case, lower,
  found_at, cookie_option, cookie_text, write_cookie, delete_cookie, delete_checked, deleted_text,
  deleted_path, value_invalid,
}
use vely.Cookies.Removed.{Deleted, find_cookie-delete_cookie}
use vely.Cookies.Kept.{ReadsPath, find_cookie-set_cookie, find_cookie-set_cookie_other}

abbrev options : CookieOptions
options = record {
  path = some (codes "/shop");
  expires = none;
  samesite = codes "Lax";
  httponly = codes "HttpOnly; ";
  secure = [];
}

abbrev jar : List Cookie
jar =
    record { content = codes "size=7"; is_set_by_program = false }
    ∷ record { content = codes "color=red"; is_set_by_program = false }
    ∷ []

abbrev painted : List Cookie
painted =
    record { content = codes "size=7"; is_set_by_program = false }
    ∷ program_cookie (codes "color=blue; Path=/shop; HttpOnly; SameSite=Lax")
    ∷ []

program : Unit {0}
unfolding set_cookie set_checked check_set_cookie cookie_checks name_okay value_okay is_control
    one_of safety_clause find_cookie find_from cookie_rest after_equal up_to_semi after_case
    strip_case lower found_at cookie_option cookie_text write_cookie delete_cookie delete_checked
    deleted_text deleted_path same_text strip
program = tt

set_color : set_cookie false jar (codes "color") (codes "blue") options ≡ okay painted
unfolding program
set_color = refl

bad_value : set_cookie false jar (codes "color") (codes "a;b") options ≡ reported value_invalid
unfolding program
bad_value = refl

find_cookie-set_cookie_example :
    (f : Found) × (find_cookie painted (codes "color") ≡ some f)
    × (f.value ≡ codes "blue")
    × ReadsPath (some (codes "/shop")) f.path
unfolding program
find_cookie-set_cookie_example =
    find_cookie-set_cookie jar painted (codes "color") (codes "blue") options refl (omega arith)

find_cookie-set_cookie_other_example :
    find_cookie painted (codes "size") ≡ find_cookie jar (codes "size")
unfolding program
find_cookie-set_cookie_other_example =
    find_cookie-set_cookie_other jar painted (codes "color") (codes "blue") options (codes "size")
      (omega arith, (omega arith, (omega arith, (omega arith, tt)))) refl refl (omega arith)

abbrev without : List Cookie
without =
    program_cookie
      (codes "size=deleted; Path=/; Max-Age=0; Expires=Thu, 01 Jan 1970 01:01:01 GMT; ")
    ∷ record { content = codes "color=red"; is_set_by_program = false }
    ∷ []

find_cookie-delete_cookie_example : Deleted jar without (codes "size") 0
unfolding program
find_cookie-delete_cookie_example =
    find_cookie-delete_cookie jar without (codes "size") (codes "/") [] 0 refl (omega arith)
