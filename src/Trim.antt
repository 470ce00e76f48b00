-- ===== src/Trim.antt =====
-- velyrtc.c: `vely_trim` and `vely_trim_ptr`, on a text without its terminator. Each gives the text
-- that is left with the length that it reports.
pub mod Ends
pub mod Tests
use vely.Base.{
  ℕ, zero, suc, ◌+◌, ◌-◌, Bool, true, false, ◌&&◌, [], ◌∷◌, leb, get_or, take, drop, length,
  if◌then◌else◌, Bytes,
}
use vely.Json.Parse.{is_space}

-- The loop over the leading spaces, which ends at the terminator at the latest.
unfoldable pub count_lead : Bytes → ℕ
unfolding is_space
count_lead [] = 0
count_lead (c ∷ s) = let rest = count_lead s in if is_space c then rest + 1 else 0

-- The loop of `vely_trim` from the end, at one byte before `n`: what `i + 1` is then.
unfoldable pub trim_back : ℕ → Bytes → ℕ
unfolding is_space
trim_back zero str = 0
trim_back (suc i) str =
    let rest = trim_back i str in if is_space (get_or str i 0) then rest else suc i

unfoldable pub trim : Bytes → Bytes × ℕ
unfolding count_lead trim_back
trim str =
    let i = count_lead str in
    let moved = drop i str in let len = trim_back (length str - i) moved in (take len moved, len)

-- The loop of `vely_trim_ptr`: what `e + 1` is then, and `j`.
unfoldable pub back_to : ℕ → ℕ → ℕ → Bytes → ℕ × ℕ
unfolding is_space
back_to s zero j str = (0, j)
back_to s (suc e) j str =
    let rest = back_to s e (j + 1) str in
    if leb s e && is_space (get_or str e 0) then rest else (suc e, j)

-- The returned pointer is `str + s`.
unfoldable pub trim_ptr : Bytes → Bytes × ℕ
unfolding count_lead back_to
trim_ptr str =
    let s = count_lead str in
    let (e, j) = back_to s (length str) 0 str in (drop s (take e str), length str - s - j)
