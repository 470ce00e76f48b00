-- ===== src/Hash.antt =====
-- hash.c: the chained hash table. A `char *` key is its address with the text that it points to,
-- which does not change while the table holds it; data are addresses, and 0 is NULL. A list element
-- of the C code is an `Entry`, with the number of its allocation in place of its address; a bucket is
-- the list that starts at `table[i]`, and `->next` is the list behind an entry. Counters are plain
-- numbers: they would wrap only past 2 ^ 63. Allocation succeeds, since the code exits where it fails.
pub mod Fnv
pub mod Chain
pub mod Place
pub mod Valid
pub mod Find
pub mod Add
pub mod Delete
pub mod Walk
pub mod Resize
pub mod Search
pub mod Tests
use vely.Base.{
  ℕ, zero, suc, ◌+◌, ◌-◌, ◌*◌, ◌%◌, ◌^◌, Bool, true, false, not, ◌&&◌, Option, none, some, List, [],
  ◌∷◌, ◌++◌, map, ltb, ◌==◌, if◌then◌else◌, get_or, set, replicate, Bytes, same_text, strip,
  bit_xor,
}

-- A string that the program points to.
pub record CStr : Type 0 where
  pub address : ℕ
  pub text : Bytes

pub record Entry : Type 0 where
  pub node : ℕ
  pub key : CStr
  pub value : ℕ

-- `fresh` is the allocator: entries numbered from there on are not allocated yet.
pub record Hash : Type 0 where
  pub num_buckets : ℕ
  pub table : List (List Entry)
  pub dnext : ℕ
  pub dcurr : Option ℕ
  pub tot : ℕ
  pub hits : ℕ
  pub reads : ℕ
  pub process : Bool
  pub fresh : ℕ

-- VV_OKAY and VV_ERR_EXIST.
pub data Status : Type 0 where
  okay err_exist : Status

-- The globals `vely_mem_process_key` and `vely_mem_process_data`.
pub record Flags : Type 0 where
  pub process_key : Bool
  pub process_data : Bool

-- `d[i]` is a signed char, and is widened to 32 bits before the exclusive or.
unfoldable pub sign_extend : ℕ → ℕ
sign_extend c = if ltb c 128 then c else c + 2 ^ 32 - 256

abbrev pub fnv_prime : ℕ
fnv_prime = 16777619

abbrev pub fnv_offset_basis : ℕ
fnv_offset_basis = 2166136261

-- VV_FNVCOMP for each byte.
unfoldable pub fnv_comp : ℕ → Bytes → ℕ
unfolding sign_extend
fnv_comp h [] = h
fnv_comp h (c ∷ s) = fnv_comp (bit_xor h (sign_extend c) * fnv_prime % 2 ^ 32) s

unfoldable pub fnv_list : ℕ → List Bytes → ℕ
unfolding fnv_comp
fnv_list h [] = h
fnv_list h (s ∷ ss) = fnv_list (fnv_comp h s) ss

-- The key list, where it is given, is used instead of the key.
unfoldable pub compute_hash : Bytes → Option (List Bytes) → ℕ → ℕ
unfolding fnv_comp fnv_list
compute_hash d none size = fnv_comp fnv_offset_basis d % size
compute_hash d (some dlist) size = fnv_list fnv_offset_basis dlist % size

-- A pointer to the first entry of a list.
unfoldable pub head_node : List Entry → Option ℕ
head_node [] = none
head_node (e ∷ c) = some e.node

unfoldable pub rewind_hash : Hash → Hash
unfolding head_node
rewind_hash h = record h { dnext = 0; dcurr = head_node (get_or h.table 0 []) }

-- `in_h` is the table of a caller that brings its own. A negative size is a size below 10.
unfoldable pub create_hash : ℕ → Option (List (List Entry)) → Bool → Hash
unfolding rewind_hash
create_hash size in_h process =
    let n = if ltb size 10 then 10 else size in
    rewind_hash (record {
      num_buckets = n;
      table = elim in_h [ none ↦ replicate n [] | some t ↦ t ];
      dnext = 0;
      dcurr = none;
      tot = 0;
      hits = 0;
      reads = 0;
      process = process;
      fresh = 0;
    })

-- `none` is NULL on entry, and a freed structure on return.
unfoldable pub delete_hash : Option Hash → Bool → Option Hash
unfolding create_hash
delete_hash none recreate = none
delete_hash (some h) recreate =
    if recreate
    then some (record (create_hash h.num_buckets none h.process) { hits = h.hits; reads = h.reads })
    else none

-- The entry at an address, and the list behind it.
unfoldable pub find_node : ℕ → List Entry → Option (Entry × List Entry)
find_node n [] = none
find_node n (e ∷ c) = if e.node == n then some (e, c) else find_node n c

unfoldable pub deref : ℕ → List (List Entry) → Option (Entry × List Entry)
unfolding find_node
deref n [] = none
deref n (c ∷ cs) = elim (find_node n c) [ none ↦ deref n cs | some r ↦ some r ]

-- `todel->next`.
unfoldable pub next_of : ℕ → List (List Entry) → List Entry
unfolding deref
next_of n t = elim (deref n t) [ none ↦ [] | some r ↦ r.1 ]

-- `prev->next = next`, in the list that holds `prev`.
unfoldable pub link_next : ℕ → List Entry → List Entry → List Entry
link_next prev next [] = []
link_next prev next (e ∷ c) = if e.node == prev then e ∷ next else e ∷ link_next prev next c

-- What unlinking writes: the bucket itself, or the entry before.
unfoldable pub relink : List (List Entry) → ℕ → Option Entry → List Entry → List (List Entry)
unfolding link_next
relink t hashind none next = set t hashind next
relink t hashind (some prev) next = map (link_next prev.node next) t

-- `dcurr` moves on if it stands at the deleted entry.
unfoldable pub move_dcurr : ℕ → List Entry → Option ℕ → Option ℕ
unfolding head_node
move_dcurr todel next none = none
move_dcurr todel next (some n) = if n == todel then head_node next else some n

-- `hashind` is `none` for -1.
unfoldable pub del_hash_entry : Hash → Entry → Option Entry → Option ℕ → Hash
unfolding next_of relink move_dcurr compute_hash
del_hash_entry h todel prev hashind =
    let next = next_of todel.node h.table in
    let ind : ℕ = elim hashind [
      | none ↦ compute_hash todel.key.text none h.num_buckets
      | some i ↦ i
    ] in
    record h {
      table = relink h.table ind prev next;
      dcurr = move_dcurr todel.node next h.dcurr;
      tot = h.tot - 1;
    }

-- The comparison with the elements of a key list: each must stand where the one before it ended.
-- `memcmp` past the end of the key meets the terminator, which no element holds.
unfoldable pub match_list : List Bytes → Bytes → Bool
unfolding strip
match_list [] s = true
match_list (el ∷ els) s = elim (strip el s) [ none ↦ false | some r ↦ match_list els r ]

unfoldable pub is_match : Bytes → Option (List Bytes) → Entry → Bool
unfolding match_list same_text
is_match key none e = same_text key e.key.text
is_match key (some []) e = false
is_match key (some (el ∷ els)) e = match_list (el ∷ els) e.key.text

-- The loop of `find_hash`: the comparisons made, and the entry found with the one before it.
unfoldable pub find_loop :
    (Entry → Bool) → Option Entry → List Entry → ℕ → ℕ × Option (Option Entry × Entry)
find_loop m prev [] reads = (reads, none)
find_loop m prev (e ∷ c) reads =
    let rest = find_loop m (some e) c (reads + 1) in
    if m e then (reads + 1, some (prev, e)) else rest

-- What `find_hash` and `add_hash` return, by their result and their output arguments.
pub record Reply : Type 0 where
  pub hash : Hash
  pub value : ℕ
  pub status : Status
  pub old_key : Option CStr

-- `find_hash` after its loop.
unfoldable pub found_hash : Hash → Bool → ℕ → ℕ × Option (Option Entry × Entry) → Reply
unfolding del_hash_entry
found_hash h del hashind (reads, none) = record {
  hash = record h { hits = h.hits + 1; reads = reads };
  value = 0;
  status = err_exist;
  old_key = none;
}
found_hash h del hashind (reads, some (prev, e)) =
    let h' = record h { hits = h.hits + 1; reads = reads } in
    record {
      hash = if del then del_hash_entry h' e prev (some hashind) else h';
      value = e.value;
      status = okay;
      old_key = some e.key;
    }

unfoldable pub find_hash : Hash → Bytes → Option (List Bytes) → Bool → Reply
unfolding find_loop is_match compute_hash found_hash
find_hash h key keylist del =
    let hashind = compute_hash key keylist h.num_buckets in
    found_hash h del hashind
      (find_loop (is_match key keylist) none (get_or h.table hashind []) h.reads)

-- The loop of `add_hash` over a bucket that is not empty: the entry as it was, and the bucket with
-- its data and its key replaced.
unfoldable pub replace_loop : CStr → ℕ → List Entry → Option (Entry × List Entry)
unfolding same_text
replace_loop key value [] = none
replace_loop key value (e ∷ c) =
    let rest : Option (Entry × List Entry) = elim (replace_loop key value c) [
      | none ↦ none
      | some (old, c') ↦ some (old, e ∷ c')
    ] in
    if same_text key.text e.key.text
    then some (e, record e { key = key; value = value } ∷ c)
    else rest

-- `add_hash` once the bucket is known; an empty bucket is one where the key is not found.
unfoldable pub add_at : Hash → CStr → ℕ → ℕ → Reply
unfolding replace_loop
add_at h key value hashind =
    let bucket = get_or h.table hashind [] in
    elim (replace_loop key value bucket) [
      | some (old, bucket') ↦ record {
        hash = record h { table = set h.table hashind bucket' };
        value = old.value;
        status = err_exist;
        old_key = some old.key;
      }
      | none ↦ record {
        hash = record h {
          table =
              set h.table hashind (record { node = h.fresh; key = key; value = value } ∷ bucket);
          tot = h.tot + 1;
          fresh = h.fresh + 1;
        };
        value = 0;
        status = okay;
        old_key = none;
      }
    ]

unfoldable pub add_hash : Hash → CStr → Option (List Bytes) → ℕ → Reply
unfolding add_at compute_hash
add_hash h key keylist value = add_at h key value (compute_hash key.text keylist h.num_buckets)

-- The calls of `_vely_mem_set_process` that `add_hash` makes before it writes.
unfoldable pub add_hash_marks : Flags → Hash → CStr → ℕ → List ℕ
add_hash_marks f h key value =
    (if h.process && not f.process_key then key.address ∷ [] else [])
    ++ (if h.process && not f.process_data then value ∷ [] else [])

-- The loop of `next_hash`, on the number of buckets that are left; `true` if it ends at an entry.
unfoldable pub advance : ℕ → Hash → Hash × Bool
unfolding head_node
advance zero h = (h, false)
advance (suc k) h = elim h.dcurr [
  | some n ↦ (h, true)
  | none ↦
      let i = h.dnext + 1 in
      let rest = advance k (record h { dnext = i; dcurr = head_node (get_or h.table i []) }) in
      if i == h.num_buckets then (record h { dnext = i }, false) else rest
]

-- The entry at `dcurr`, which is left behind; `none` is a read through a dangling pointer.
unfoldable pub take_current : Hash → Option ℕ → Option (Hash × Option (CStr × ℕ))
unfolding deref head_node
take_current h none = none
take_current h (some n) = elim (deref n h.table) [
  | none ↦ none
  | some (e, c) ↦ some (record h { dcurr = head_node c }, some (e.key, e.value))
]

-- `next_hash` after its loop.
unfoldable pub yield : Hash × Bool → Option (Hash × Option (CStr × ℕ))
unfolding take_current
yield (h, true) = take_current h h.dcurr
yield (h, false) = some (h, none)

unfoldable pub next_hash : Hash → Option (Hash × Option (CStr × ℕ))
unfolding advance yield
next_hash h =
    if h.dnext == h.num_buckets then some (h, none) else yield (advance (h.num_buckets - h.dnext) h)

-- The loop of `resize_hash`; fuel above the number of entries is enough.
unfoldable pub copy_loop : ℕ → Hash → Hash → Option Hash
unfolding next_hash add_hash
copy_loop zero h nh = none
copy_loop (suc f) h nh = elim (next_hash h) [
  | none ↦ none
  | some (h', none) ↦ some nh
  | some (h', some (key, value)) ↦ copy_loop f h' (add_hash nh key none value).hash
]

unfoldable pub resize_hash : Hash → ℕ → Option Hash
unfolding copy_loop create_hash rewind_hash delete_hash
resize_hash h newsize =
    elim (copy_loop (h.tot + 1) (rewind_hash h) (create_hash newsize none h.process)) [
      | none ↦ none
      | some nh ↦ elim (delete_hash (some h) true) [
        | none ↦ none
        | some h' ↦ some (record h' {
          table = nh.table;
          tot = nh.tot;
          hits = nh.hits;
          reads = nh.reads;
          num_buckets = nh.num_buckets;
          process = nh.process;
          fresh = nh.fresh;
        })
      ]
    ]
