-- ===== src/Trim/Tests.antt =====
-- Runs of trimming, and the concrete input for its theorem.
use vely.Base.{◌≡◌, refl, Bytes, codes, length}
use vely.Json.Parse.{is_space}
use vely.Trim.{trim, trim_ptr, count_lead, trim_back, back_to}
use vely.Trim.Ends.{trim_left, trim_right, trim-trim_ptr}

abbrev padded : Bytes
padded = codes "  a b "

inner : trim padded ≡ (codes "a b", 3)
unfolding trim count_lead trim_back is_space
inner = refl

only_spaces : trim_ptr (codes "  ") ≡ (codes "", 0)
unfolding trim_ptr count_lead back_to is_space
only_spaces = refl

trim-trim_ptr_example :
    (trim padded ≡ (trim_right (trim_left padded), length (trim_right (trim_left padded))))
    × (trim_ptr padded ≡ (trim_right (trim_left padded), length (trim_right (trim_left padded))))
trim-trim_ptr_example = trim-trim_ptr padded
