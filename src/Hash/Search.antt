-- ===== src/Hash/Search.antt =====
-- What a search finds, in the table as a whole.
use mathlib.Core.List.{flatten}
use vely.Base.{◌≤◌, sym, subst, none, false, length, Bytes}
use vely.Hash.{Hash, find_hash, is_match}
use vely.Hash.Chain.{count, find, has_key, steps}
use vely.Hash.Place.{bucket, home, view}
use vely.Hash.Valid.{IsValid}
use vely.Hash.Find.{Finds, find_hash-find, steps-le}
use vely.Hash.Resize.{flatten-lookup}

-- In a valid hash, searching for a key gives the data and the stored key of the entry with its text,
-- of which there is one at most among all that the table holds, or NULL and VV_ERR_EXIST where there is
-- none. It changes nothing but the statistics, by one search and by one comparison for each
-- entry of the key's bucket up to the one that is found, or for each where none is.
pub find_hash-flatten :
    (h : Hash) (key : Bytes)
    → IsValid h
    → Finds h
        (steps (has_key key) (bucket h.table (home key h.num_buckets)))
        (find (has_key key) (flatten h.table))
        (find_hash h key none false)
      × (count (has_key key) (flatten h.table) ≤ 1)
      × (steps (has_key key) (bucket h.table (home key h.num_buckets))
          ≤ length (bucket h.table (home key h.num_buckets)))
unfolding view home is_match
find_hash-flatten h key v =
    let (same, once) = flatten-lookup h key v in
    let c = bucket h.table (home key h.num_buckets) in
    (
      subst (λ o. Finds h (steps (has_key key) c) o (find_hash h key none false)) (sym same)
          (find_hash-find h key none),
      once,
      steps-le (has_key key) c,
    )
