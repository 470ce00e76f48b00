-- ===== src/Hash/Find.antt =====
-- `find_hash` without deletion: by one key, and by a list of key fragments.
use mathlib.Core.List.{flatten}
use mathlib.Core.Path.{fun_ext, subst, subst₂}
use vely.Base.{
  ℕ, ◌+◌, ◌≤◌, ◌≡◌, refl, ◌∙◌, ap, Bool, true, false, Option, none, some, List, [], ◌∷◌, ◌++◌,
  length, Bytes, strip-append, same_text, same_text-append, arith, All,
}
use vely.Hash.{
  Hash, Entry, CStr, Reply, Status, okay, err_exist, find_hash, found_hash, is_match, compute_hash,
}
use vely.Hash.Fnv.{compute_hash-flatten, match_list-flatten, starts}
use vely.Hash.Chain.{find, steps, before, with_prev, find_loop_lem, has_key}
use vely.Hash.Place.{bucket, home, view}
use vely.Hash.Valid.{lookup}

-- What a search that found `o` returns: the data and the stored key, or NULL and VV_ERR_EXIST.
abbrev pub value_of : Option Entry → ℕ
value_of none = 0
value_of (some e) = e.value

abbrev pub status_of : Option Entry → Status
status_of none = err_exist
status_of (some e) = okay

abbrev pub key_of : Option Entry → Option CStr
key_of none = none
key_of (some e) = some e.key

-- A search that makes `n` comparisons, finds `o` and changes nothing but the statistics.
pub record Finds (h : Hash) (n : ℕ) (o : Option Entry) (r : Reply) : Type 0 where
  pub value : r.value ≡ value_of o
  pub status : r.status ≡ status_of o
  pub old_key : r.old_key ≡ key_of o
  pub hash : r.hash ≡ record h { hits = h.hits + 1; reads = h.reads + n }

pub steps-le : (m : Entry → Bool) (c : List Entry) → steps m c ≤ length c
unfolding steps
steps-le m [] = omega arith
steps-le m (e ∷ c) = ground (arith, steps-le m c)

found_hash-keep :
    (h : Hash) (i n : ℕ) (m : Entry → Bool) (prev : Option Entry) (o : Option Entry)
    → Finds h n o (found_hash h false i (h.reads + n, with_prev m prev o))
unfolding found_hash
found_hash-keep h i n m prev none = record {
  value = refl;
  status = refl;
  old_key = refl;
  hash = refl;
}
found_hash-keep h i n m prev (some e) = record {
  value = refl;
  status = refl;
  old_key = refl;
  hash = refl;
}

pub find_hash-find :
    (h : Hash) (key : Bytes) (keylist : Option (List Bytes))
    → let m = is_match key keylist in
      let c = bucket h.table (compute_hash key keylist h.num_buckets) in
      Finds h (steps m c) (find m c) (find_hash h key keylist false)
unfolding find_hash
find_hash-find h key keylist =
    let m = is_match key keylist in
    let i = compute_hash key keylist h.num_buckets in
    let c = bucket h.table i in
    rw (find_loop_lem m c h.reads) (found_hash-keep h i (steps m c) m (before m c) (find m c))

-- Searching for a key gives the data and the stored key that the hash holds under its text, or NULL
-- and VV_ERR_EXIST where it holds none; it changes nothing but the statistics, by one search and by
-- the comparisons made, which are no more than the entries of the key's bucket.
pub find_hash-lookup :
    (h : Hash) (key : Bytes)
    → (n : ℕ) × Finds h n (lookup h key) (find_hash h key none false)
      × (n ≤ length (bucket h.table (home key h.num_buckets)))
unfolding view home is_match
find_hash-lookup h key =
    let c = bucket h.table (home key h.num_buckets) in
    (steps (has_key key) c, find_hash-find h key none, steps-le (has_key key) c)

find_agree : (p q : Entry → Bool) (c : List Entry) → All (λ e. p e ≡ q e) c → find p c ≡ find q c
unfolding find
find_agree p q [] h = refl
find_agree p q (e ∷ c) (here, rest) = rw (here, find_agree p q c rest)

find_head : (p : Entry → Bool) (e : Entry) (c : List Entry) → p e ≡ true → find p (e ∷ c) ≡ some e
unfolding find
find_head p e c h = rw h

module _ (h : Hash) (key el : Bytes) (els : List Bytes) where
  abbrev whole : Bytes
  whole = flatten (el ∷ els)

  abbrev target : List Entry
  target = bucket h.table (home whole h.num_buckets)

  -- A search by fragments looks for the first entry whose key begins with all of them together.
  find_hash-fragments :
      (n : ℕ) × Finds h n
        (find (λ e. starts whole e.key.text) target)
        (find_hash h key (some (el ∷ els)) false)
  unfolding home
  find_hash-fragments =
      let m = is_match key (some (el ∷ els)) in
      let i = compute_hash key (some (el ∷ els)) h.num_buckets in
      let same : m ≡ (λ e. starts whole e.key.text) =
        fun_ext (λ e. unfold is_match in match_list-flatten (el ∷ els) e.key.text) in
      let place : i ≡ home whole h.num_buckets =
        compute_hash-flatten key (el ∷ els) h.num_buckets in
      (
        steps (λ e. starts whole e.key.text) target,
        subst₂
            (λ (p : Entry → Bool) (j : ℕ).
              Finds h (steps p (bucket h.table j)) (find p (bucket h.table j))
                (find_hash h key (some (el ∷ els)) false))
            same place (find_hash-find h key (some (el ∷ els))),
      )

  -- Where no key of the bucket goes on behind the fragments, a search by fragments gives what a
  -- search by the whole key gives.
  pub find_hash-list :
      All (λ e. starts whole e.key.text ≡ has_key whole e) target
      → (n : ℕ) × Finds h n (lookup h whole) (find_hash h key (some (el ∷ els)) false)
  unfolding view
  find_hash-list whole_only =
      let (n, f) = find_hash-fragments in (n, rw (find_agree _ _ target whole_only) at f)

  -- But it also takes an entry whose key goes on: the first entry of the bucket, under a text that
  -- begins with the fragments, is found, though the hash may hold nothing under the whole key.
  pub find_hash-list_prefix :
      (e : Entry) (c : List Entry) (x : ℕ) (more : Bytes)
      → target ≡ e ∷ c
      → e.key.text ≡ whole ++ x ∷ more
      → ((n : ℕ) × Finds h n (some e) (find_hash h key (some (el ∷ els)) false))
        × (has_key whole e ≡ false)
  find_hash-list_prefix e c x more at longer =
      let (n, f) = find_hash-fragments in
      let begins : starts whole e.key.text ≡ true = rw (longer, strip-append whole (x ∷ more)) in
      (
        (
          n,
          subst (λ o. Finds h n o (find_hash h key (some (el ∷ els)) false))
              (ap (find (λ e. starts whole e.key.text)) at ∙ find_head _ e c begins) f,
        ),
        ap (same_text whole) longer ∙ same_text-append whole x more,
      )
