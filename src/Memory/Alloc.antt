-- ===== src/Memory/Alloc.antt =====
-- `malloc`, `free` and `realloc` over the invariant, while the memory of Vely is in use.
use vely.Base.{
  ℕ, ◌+◌, ◌-◌, ◌≡◌, ◌≢◌, inl, inr, refl, sym, ◌∙◌, ap, subst, Bool, true, false, ◌||◌, none, some,
  leb, ◌==◌, ==_refl, ==_ne, arith, ℕ_discrete, Option-cases,
}
use vely.Memory.{
  Mem, ok, align, entry, update, set_free, vmset, add_mem, add_at, malloc, free, free_at, realloc,
  get_memory, is_valid,
}
use vely.Memory.Free.{add_mem_lem, Takes}
use vely.Memory.Valid.{
  IsValid, IsOwned, holds, holds-none, holds-some, placed, placed-IsValid, holds-placed,
  holds-placed_self, left, left-IsValid, left-here, left_block, left-ne, holds-left, some_inj,
}

-- The process bit that the next block finds in its entry.
unfoldable pub reused : Mem → Bool
reused m = elim m.vm_first_free [ none ↦ false | some r ↦ (entry m.vm r).is_process ]

add_mem-reused : (m : Mem) (p : ℕ) → IsValid m → (entry m.vm (add_mem m p).1).is_process ≡ reused m
unfolding add_mem add_at reused
add_mem-reused m p v = elim (Option-cases m.vm_first_free) [
  | inl e ↦ rw e (ap (λ x. x.is_process) (v.linked.clean m.vm_curr (omega arith)))
  | inr (r, e) ↦ rw e
]

malloc-managed :
    (m : Mem) (p : ℕ) → m.mem_os ≡ false → malloc m p ≡ vmset (add_mem m p).0 p (add_mem m p).1
unfolding malloc
malloc-managed m p e = rw e

-- In a valid memory in managed mode (`mem_os` is 0), for an address where no block stands and which is not
-- that of the empty string less the size of an index, `malloc` keeps the memory valid and gives
-- the address behind the index. A block then stands there, and all others are as before. The block is
-- of the process if process memory is asked for, or if the entry that is used again was once of the
-- process, and of the request otherwise.
pub malloc_lem :
    (m : Mem) (p : ℕ)
    → IsValid m
    → m.mem_os ≡ false
    → m.heap p ≡ none
    → p + align ≢ m.empty_string
    → IsValid (malloc m p).0
      × ((malloc m p).1 ≡ p + align)
      × (holds (malloc m p).0 p ≡ some (reused m || m.mem_process))
      × ((q : ℕ) → p ≢ q → holds (malloc m p).0 q ≡ holds m q)
unfolding vmset
malloc_lem m p v os fresh far =
    let t : Takes m p (add_mem m p).0 (add_mem m p).1 = add_mem_lem m p v.linked in
    rw (malloc-managed m p os) (
      placed-IsValid m v p (add_mem m p).0 (add_mem m p).1 t fresh far,
      refl,
      holds-placed_self m v p (add_mem m p).0 (add_mem m p).1 t fresh
          ∙ ap (λ b. some (b || m.mem_process)) (add_mem-reused m p v),
      holds-placed m v p (add_mem m p).0 (add_mem m p).1 t fresh,
    )

pub malloc-os : (m : Mem) (p : ℕ) → IsValid m → m.mem_os ≡ false → (malloc m p).0.mem_os ≡ false
unfolding vmset
malloc-os m p v os =
    let t : Takes m p (add_mem m p).0 (add_mem m p).1 = add_mem_lem m p v.linked in
    ap (λ r. r.0.mem_os) (malloc-managed m p os) ∙ ap (λ x. x.mem_os) t.kept ∙ os

module _ (m : Mem) (v : IsValid m) (os : m.mem_os ≡ false) (p i : ℕ)
    (block : m.heap p ≡ some i) where
  behind : (p + align) - align ≡ p
  behind = omega arith

  get_memory-block : get_memory m (p + align) ≡ some i
  unfolding get_memory
  get_memory-block = ap m.heap behind ∙ block

  is_valid-block : is_valid m (p + align) i ≡ true
  unfolding is_valid
  is_valid-block =
      let o : IsOwned m i p = v.tracked p i block in
      let last : leb m.vm_curr i ≡ false = ground (arith, o.inside) in
      rw (last, o.points, behind) (==_refl p)

  no_null : ((p + align == m.empty_string) || (p + align == 0)) ≡ false
  no_null =
      rw (
        ==_ne (p + align) m.empty_string (v.apart p i block),
        ==_ne (p + align) 0 (λ e. omega arith),
      )

  free-free_at : (check : Bool) → free m (p + align) check ≡ ok (free_at m (p + align) check i)
  unfolding free
  free-free_at check = simp (no_null, os, get_memory-block)

  free_at-left : (check : Bool) → free_at m (p + align) check i ≡ (left m v p i block, true)
  unfolding free_at
  free_at-left true = rw (is_valid-block, (v.tracked p i block).used, behind)
  free_at-left false = rw ((v.tracked p i block).used, behind)

  pub free-left : (check : Bool) → free m (p + align) check ≡ ok (left m v p i block, true)
  free-left check = free-free_at check ∙ ap ok (free_at-left check)

  abbrev moved : ℕ → ℕ → Mem × ℕ
  moved q p' =
      let l : Mem = record (set_free m i) { heap = update m.heap q none } in
      vmset (add_mem l p').0 p' (add_mem l p').1

  realloc-left : (p' : ℕ) (safe : Bool) → realloc m (p + align) p' safe ≡ ok (moved p p')
  unfolding realloc
  realloc-left p' true =
      subst (λ q. realloc m (p + align) p' true ≡ ok (moved q p')) behind
        (simp (no_null, os, get_memory-block, is_valid-block))
  realloc-left p' false =
      subst (λ q. realloc m (p + align) p' false ≡ ok (moved q p')) behind
        (simp (no_null, os, get_memory-block))

-- In a valid memory in managed mode (`mem_os` is 0), `free` of the pointer to a block succeeds, checked or not, and keeps the memory
-- valid: the block is gone, and all others are as before.
pub free_lem :
    (m : Mem) (p i : ℕ) (check : Bool)
    → IsValid m
    → m.mem_os ≡ false
    → m.heap p ≡ some i
    → (m' : Mem) × (free m (p + align) check ≡ ok (m', true))
      × IsValid m'
      × (holds m' p ≡ none)
      × ((q : ℕ) → p ≢ q → holds m' q ≡ holds m q)
free_lem m p i check v os block = (
  left m v p i block,
  free-left m v os p i block check,
  left-IsValid m v p i block,
  holds-none (left m v p i block) p (left_block m v p i block),
  holds-left m v p i block,
)

pub left-reused :
    (m : Mem) (p i : ℕ) (v : IsValid m) (block : m.heap p ≡ some i)
    → reused (left m v p i block) ≡ (entry m.vm i).is_process
unfolding reused set_free
left-reused m p i v block = ap (λ x. x.is_process) (left-here m v p i block)

-- In a valid memory in managed mode (`mem_os` is 0), `realloc` of the pointer to a block, for which the C library gives the same
-- address or one where no block stands, and not that of the empty string less the size of an index, succeeds and keeps the memory valid. The block stands at the
-- new address only; one of the process stays one, and one of the request becomes one where process
-- memory is asked for. All other blocks are as before.
pub realloc_lem :
    (m : Mem) (p p' i : ℕ) (safe b : Bool)
    → IsValid m
    → m.mem_os ≡ false
    → m.heap p ≡ some i
    → holds m p ≡ some b
    → (p ≢ p' → m.heap p' ≡ none)
    → p' + align ≢ m.empty_string
    → (m' : Mem) × (realloc m (p + align) p' safe ≡ ok (m', p' + align))
      × IsValid m'
      × (holds m' p' ≡ some (b || m.mem_process))
      × (p ≢ p' → holds m' p ≡ none)
      × ((q : ℕ) → p ≢ q → p' ≢ q → holds m' q ≡ holds m q)
unfolding vmset set_free
realloc_lem m p p' i safe b v os block kind fresh far =
    let l : Mem = left m v p i block in
    let vl : IsValid l = left-IsValid m v p i block in
    let t : Takes l p' (add_mem l p').0 (add_mem l p').1 = add_mem_lem l p' vl.linked in
    let fresh' : l.heap p' ≡ none = elim (ℕ_discrete p p') [
      | yes e ↦ ap l.heap (sym e) ∙ left_block m v p i block
      | no ne ↦ left-ne m v p i block p' ne ∙ fresh ne
    ] in
    let bit : (entry m.vm i).is_process ≡ b = some_inj (sym (holds-some m p i block) ∙ kind) in
    (
      placed l vl p' (add_mem l p').0 (add_mem l p').1 t fresh',
      realloc-left m v os p i block p' safe,
      placed-IsValid l vl p' (add_mem l p').0 (add_mem l p').1 t fresh' far,
      holds-placed_self l vl p' (add_mem l p').0 (add_mem l p').1 t fresh'
          ∙ ap (λ b. some (b || m.mem_process))
              (add_mem-reused l p' vl ∙ left-reused m p i v block ∙ bit),
      λ ne.
          holds-placed l vl p' (add_mem l p').0 (add_mem l p').1 t fresh' p (λ e. ne (sym e))
          ∙ holds-none l p (left_block m v p i block),
      λ q ne ne'.
          holds-placed l vl p' (add_mem l p').0 (add_mem l p').1 t fresh' q ne'
          ∙ holds-left m v p i block q ne,
    )
