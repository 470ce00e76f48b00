-- ===== src/Hash/Add.antt =====
-- `add_hash`: a new key, a key that the hash holds already, and a key given with its fragments.
use mathlib.Core.List.{flatten}
use vely.Base.{
  ℕ, ◌+◌, ◌≤◌, ◌<◌, ◌≡◌, refl, ◌∙◌, ap, false, Option, none, some, List, [], ◌∷◌, ◌==◌,
  if◌then◌else◌, length, set, Bytes, same_text, same_text→eq, same_text_refl, same_text_comm, arith,
  Option-cases, Bool-cases, inl, inr, length-set, ==_ne, ==_refl, ℕ_discrete, get_or-set_self,
  get_or-set_ne,
}
use vely.Hash.{Hash, Entry, CStr, Reply, Status, add_hash, add_at, okay, err_exist}
use vely.Hash.Fnv.{compute_hash-lt, compute_hash-flatten}
use vely.Hash.Chain.{
  count, find, has_key, has_node, one_if, count-eq-zero, replace_loop-none, replace_loop-some,
  assign, count-assign_key, count-assign_node, length-assign, find-assign_same, find-assign_other,
}
use vely.Hash.Place.{
  bucket, home, view, set-IsPlaced, view-set, FitsIn, count-flatten-set, length-flatten-set,
}
use vely.Hash.Valid.{IsValid, IsCursor, lookup}
use vely.Hash.Find.{value_of, key_of}

-- The stored key and the data of an entry.
abbrev pub binding : Option Entry → Option (CStr × ℕ)
binding none = none
binding (some e) = some (e.key, e.value)

abbrev pub found : Option Entry → ℕ
found none = 0
found (some e) = 1

-- A write says VV_ERR_EXIST where the key was there.
abbrev pub write_status : Option Entry → Status
write_status none = okay
write_status (some e) = err_exist

-- `r` is the answer of a write under `key` to a hash `h` that holds `value` there afterwards.
pub record Writes (h : Hash) (key : Bytes) (value : CStr × ℕ) (r : Reply) : Type 0 where
  pub old : r.value ≡ value_of (lookup h key)
  pub status : r.status ≡ write_status (lookup h key)
  pub old_key : r.old_key ≡ key_of (lookup h key)
  pub reads :
      (q : Bytes)
      → binding (lookup r.hash q) ≡ (if same_text key q then some value else binding (lookup h q))
  pub total : r.hash.tot + found (lookup h key) ≡ h.tot + 1
  pub buckets : r.hash.num_buckets ≡ h.num_buckets
  pub scope : r.hash.process ≡ h.process
  pub hits : r.hash.hits ≡ h.hits
  pub comparisons : r.hash.reads ≡ h.reads
  pub place : (r.hash.dnext ≡ h.dnext) × (r.hash.dcurr ≡ h.dcurr)
  pub valid : IsValid r.hash

-- A change of one bucket that keeps the addresses in it.
pub set-IsCursor :
    (n : ℕ) (t : List (List Entry)) (d : ℕ) (a : Option ℕ) (i : ℕ) (c : List Entry)
    → i < length t
    → ((x : ℕ) → count (has_node x) (bucket t i) ≤ count (has_node x) c)
    → IsCursor n t d a
    → IsCursor n (set t i c) d a
set-IsCursor n t d a i c inside keep k = record {
  within = k.within;
  stands = λ x e. elim (ℕ_discrete i d) [
    | yes same ↦ (
      (k.stands x e).0,
      rw (← same, get_or-set_self t i c [] inside)
          (omega (arith, keep x, rw (← same) at ((k.stands x e).1))),
    )
    | no ne ↦ ((k.stands x e).0, rw (get_or-set_ne t i d c [] ne) (k.stands x e).1)
  ];
}

module _ (h : Hash) (key : CStr) (value : ℕ) (v : IsValid h) where
  abbrev slot : ℕ
  slot = home key.text h.num_buckets

  abbrev chain : List Entry
  chain = bucket h.table slot

  inside : slot < length h.table
  unfolding home
  inside =
      omega (arith, v.width, compute_hash-lt key.text none h.num_buckets (omega (arith, v.roomy)))

  abbrev new_entry : Entry
  new_entry = record { node = h.fresh; key = key; value = value }

  add_new :
      lookup h key.text ≡ none
      → add_hash h key none value ≡ record {
        hash = record h {
          table = set h.table slot (new_entry ∷ chain);
          tot = h.tot + 1;
          fresh = h.fresh + 1;
        };
        value = 0;
        status = okay;
        old_key = none;
      }
  unfolding add_hash view home
  add_new absent = rw (replace_loop-none key value chain absent, add_hash, add_at)

  add_old :
      (old : Entry)
      → lookup h key.text ≡ some old
      → add_hash h key none value ≡ record {
        hash = record h { table = set h.table slot (assign key value chain) };
        value = old.value;
        status = err_exist;
        old_key = some old.key;
      }
  unfolding add_hash view home
  add_old old present = rw (replace_loop-some key value chain old present, add_hash, add_at)

  new-FitsIn : lookup h key.text ≡ none → FitsIn h.num_buckets slot (new_entry ∷ chain)
  unfolding count view
  new-FitsIn absent q = elim (Bool-cases (same_text q key.text)) [
    | inl y ↦
        let same : q ≡ key.text = same_text→eq q key.text y in
        let none_here : count (has_key q) chain ≡ 0 =
          ap (λ s. count (has_key s) chain) same ∙ count-eq-zero (has_key key.text) chain absent in
        (rw y (omega arith), λ ne. absurd (ne (ap (λ s. home s h.num_buckets) same)))
    | inr n ↦ let (once, away) = v.placed q slot in rw n (omega arith, λ ne. omega (arith, away ne))
  ]

  old-FitsIn : FitsIn h.num_buckets slot (assign key value chain)
  old-FitsIn q = rw (count-assign_key key value q chain) (v.placed q slot)

  fresh_unused : (x : ℕ) → h.fresh ≤ x → count (has_node x) (flatten h.table) ≡ 0
  fresh_unused x old = elim (ℕ_discrete (count (has_node x) (flatten h.table)) 0) [
    | yes e ↦ e
    | no ne ↦ absurd (omega (arith, v.allocated x (omega arith)))
  ]

  -- Both writes, once the bucket `c` is known to fit.
  module _ (c : List Entry) where
    reads_elsewhere :
        (q : Bytes)
        → find (has_key q) c ≡ find (has_key q) chain
        → view h.num_buckets (set h.table slot c) q ≡ lookup h q
    reads_elsewhere q same = elim (ℕ_discrete (home q h.num_buckets) slot) [
      | yes e ↦
          view-set h.num_buckets h.table slot c q inside
          ∙ (rw (e, ==_refl slot) (same ∙ unfold view in (rw e)))
      | no off ↦ view-set h.num_buckets h.table slot c q inside ∙ (rw (==_ne _ slot off))
    ]

    reads_here : view h.num_buckets (set h.table slot c) key.text ≡ find (has_key key.text) c
    reads_here = view-set h.num_buckets h.table slot c key.text inside ∙ (rw (==_refl slot))

  new_table : List (List Entry)
  new_table = set h.table slot (new_entry ∷ chain)

  count_new :
      (x : ℕ)
      → count (has_node x) (flatten new_table)
        ≡ count (has_node x) (flatten h.table) + one_if (h.fresh == x)
  unfolding count new_table
  count_new x =
      omega (arith, count-flatten-set (has_node x) h.table slot (new_entry ∷ chain) inside)

  new-IsValid :
      lookup h key.text ≡ none
      → IsValid (record h { table = new_table; tot = h.tot + 1; fresh = h.fresh + 1 })
  unfolding new_table count
  new-IsValid absent = record {
    roomy = v.roomy;
    width = length-set h.table slot _ ∙ v.width;
    counted = omega (arith, length-flatten-set h.table slot (new_entry ∷ chain) inside, v.counted);
    placed =
        set-IsPlaced h.num_buckets h.table slot (new_entry ∷ chain) inside v.placed
          (new-FitsIn absent);
    nodes = λ x. ground (arith, count_new x, v.nodes x, fresh_unused x);
    allocated = λ x some_x. ground (arith, count_new x, v.allocated x);
    cursor =
        set-IsCursor h.num_buckets h.table h.dnext h.dcurr slot (new_entry ∷ chain) inside
          (λ x. omega arith) v.cursor;
  }

  old-IsValid : IsValid (record h { table = set h.table slot (assign key value chain) })
  old-IsValid =
      let c = assign key value chain in
      let same = λ (x : ℕ). count-assign_node key value x chain in
      let total =
        λ (x : ℕ). count-flatten-set (has_node x) h.table slot (assign key value chain) inside in
      record {
        roomy = v.roomy;
        width = length-set h.table slot _ ∙ v.width;
        counted = omega (
          arith,
          length-flatten-set h.table slot c inside,
          v.counted,
          length-assign key value chain,
        );
        placed = set-IsPlaced h.num_buckets h.table slot c inside v.placed old-FitsIn;
        nodes = λ x. omega (arith, total x, same x, v.nodes x);
        allocated = λ x some_x. v.allocated x (omega (arith, total x, same x));
        cursor =
            set-IsCursor h.num_buckets h.table h.dnext h.dcurr slot c inside
              (λ x. omega (arith, same x)) v.cursor;
      }

  new_reads :
      lookup h key.text ≡ none
      → (q : Bytes)
      → binding (view h.num_buckets new_table q)
        ≡ (if same_text key.text q then some (key, value) else binding (lookup h q))
  unfolding new_table find
  new_reads absent q = elim (Bool-cases (same_text key.text q)) [
    | inl y ↦
        let e : key.text ≡ q = same_text→eq key.text q y in
        rw (y, ← e, reads_here (new_entry ∷ chain), same_text_refl key.text)
    | inr n ↦
        let other : same_text q key.text ≡ false = same_text_comm q key.text ∙ n in
        rw n (ap binding (reads_elsewhere (new_entry ∷ chain) q (rw other)))
  ]

  old_reads :
      (old : Entry)
      → lookup h key.text ≡ some old
      → (q : Bytes)
      → binding (view h.num_buckets (set h.table slot (assign key value chain)) q)
        ≡ (if same_text key.text q then some (key, value) else binding (lookup h q))
  unfolding view
  old_reads old present q = elim (Bool-cases (same_text key.text q)) [
    | inl y ↦
        let e : key.text ≡ q = same_text→eq key.text q y in
        let (x, at, same, data') = find-assign_same key value chain old present in
        rw (y, ← e, reads_here (assign key value chain), at, same, data')
    | inr n ↦
        let other : same_text q key.text ≡ false = same_text_comm q key.text ∙ n in
        rw n (
          ap binding (
            reads_elsewhere (assign key value chain) q (find-assign_other key value q chain other)))
  ]

  -- Writing under a key keeps the invariant, and answers with what the hash held under its text: the
  -- old data and the old stored key with VV_ERR_EXIST, or NULL and VV_OKAY. Afterwards the hash holds
  -- the given key, the very pointer, with the given data under that text, and under every other text
  -- what it held before; it counts one more exactly when the text is new.
  pub add_hash_lem : Writes h key.text (key, value) (add_hash h key none value)
  add_hash_lem = elim (Option-cases (lookup h key.text)) [
    | inl absent ↦ rw (add_new absent) (record {
      old = rw absent;
      status = rw absent;
      old_key = rw absent;
      reads = unfold new_table in new_reads absent;
      total = rw absent (omega arith);
      buckets = refl;
      scope = refl;
      hits = refl;
      comparisons = refl;
      place = (refl, refl);
      valid = unfold new_table in new-IsValid absent;
    })
    | inr (old, present) ↦ rw (add_old old present) (record {
      old = rw present;
      status = rw present;
      old_key = rw present;
      reads = old_reads old present;
      total = rw present (omega arith);
      buckets = refl;
      scope = refl;
      hits = refl;
      comparisons = refl;
      place = (refl, refl);
      valid = old-IsValid;
    })
  ]

-- A key given with its fragments as a list is written as the key alone is, if the fragments make it up.
pub add_hash-list :
    (h : Hash) (key : CStr) (ss : List Bytes) (value : ℕ)
    → flatten ss ≡ key.text
    → add_hash h key (some ss) value ≡ add_hash h key none value
unfolding add_hash
add_hash-list h key ss value e = rw (compute_hash-flatten key.text ss h.num_buckets, e)
