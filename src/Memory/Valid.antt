-- ===== src/Memory/Valid.antt =====
-- The invariant of the memory list, and its two steps: a block that is entered, and one that is left.
use vely.Base.{
  ℕ, ◌+◌, ◌<◌, ◌≡◌, ◌≢◌, inl, inr, sym, ◌∙◌, ap, subst, Bool, true, false, ◌||◌, Option, none, some,
  ==_refl, ==_ne, arith, ℕ_discrete, Option-cases,
}
use vely.Memory.{Vml, Mem, align, entry, take_entry, update, set_free}
use vely.Memory.Free.{IsLinked, Takes, set_free-IsLinked, entry-set_self, entry-set_ne}

-- The entry `i` is in use for the block at `p`.
pub record IsOwned (m : Mem) (i : ℕ) (p : ℕ) : Type 0 where
  pub inside : i < m.vm_curr
  pub used : (entry m.vm i).is_free ≡ false
  pub no_file : (entry m.vm i).is_file ≡ false
  pub points : (entry m.vm i).ptr ≡ some p

-- Entries and blocks point to each other, the freed entries are linked, and no block stands where a
-- pointer into it would be VV_EMPTY_STRING.
pub record IsValid (m : Mem) : Type 0 where
  pub linked : IsLinked m.vm m.vm_curr m.vm_first_free
  pub owned : (i p : ℕ) → IsOwned m i p → m.heap p ≡ some i
  pub tracked : (p i : ℕ) → m.heap p ≡ some i → IsOwned m i p
  pub apart : (p i : ℕ) → m.heap p ≡ some i → p + align ≢ m.empty_string

-- What the list knows of an address: nothing, or that a block of the request (`false`) or of the
-- process (`true`) stands there.
unfoldable pub holds : Mem → ℕ → Option Bool
holds m p = elim (m.heap p) [ none ↦ none | some i ↦ some (entry m.vm i).is_process ]

pub some_ne : {A : Type 0} {a : A} → some a ≢ none
some_ne e = subst (λ o. elim o [ none ↦ ⊥ | some a ↦ Unit ]) e tt

pub some_inj : {A : Type 0} {a b : A} → some a ≡ some b → a ≡ b
some_inj {A} {a} {b} e = ap (λ o. elim o [ none ↦ a | some x ↦ x ]) e

pub holds-none : (m : Mem) (q : ℕ) → m.heap q ≡ none → holds m q ≡ none
unfolding holds
holds-none m q e = rw (holds, e)

pub holds-some :
    (m : Mem) (q i : ℕ) → m.heap q ≡ some i → holds m q ≡ some (entry m.vm i).is_process
unfolding holds
holds-some m q i e = rw (holds, e)

pub true_ne : true ≢ false
true_ne e = subst (λ b. elim b [ true ↦ Unit | false ↦ ⊥ ]) e tt

pub update_self : (h : ℕ → Option ℕ) (p : ℕ) (v : Option ℕ) → update h p v p ≡ v
unfolding update
update_self h p v = rw (==_refl p)

pub update_ne : (h : ℕ → Option ℕ) (p q : ℕ) (v : Option ℕ) → p ≢ q → update h p v q ≡ h q
unfolding update
update_ne h p q v ne = rw (==_ne p q ne)

IsOwned-congr :
    (m m' : Mem) (i p : ℕ)
    → i < m'.vm_curr
    → entry m'.vm i ≡ entry m.vm i
    → IsOwned m i p
    → IsOwned m' i p
IsOwned-congr m m' i p h e o = record {
  inside = h;
  used = rw e o.used;
  no_file = rw e o.no_file;
  points = rw e o.points;
}

module _ (m : Mem) (v : IsValid m) (p : ℕ) (m' : Mem) (r : ℕ) (t : Takes m p m' r)
    (fresh : m.heap p ≡ none) where
  abbrev pub placed : Mem
  placed = record m' { heap = update m'.heap p (some r) }

  heap_eq : m'.heap ≡ m.heap
  heap_eq = ap (λ x. x.heap) t.kept

  at_block : placed.heap p ≡ some r
  at_block = update_self m'.heap p (some r)

  pub placed-ne : (q : ℕ) → p ≢ q → placed.heap q ≡ m.heap q
  placed-ne q ne = update_ne m'.heap p q (some r) ne ∙ ap (λ h. h q) heap_eq

  block-IsOwned : IsOwned placed r p
  unfolding take_entry
  block-IsOwned = record {
    inside = t.taken;
    used = ap (λ x. x.is_free) t.here;
    no_file = ap (λ x. x.is_file) t.here ∙ t.no_file;
    points = ap (λ x. x.ptr) t.here;
  }

  not_taken : (i q : ℕ) → m.heap q ≡ some i → i ≢ r
  not_taken i q e ir =
      let o : IsOwned m r q = subst (λ n. IsOwned m n q) ir (v.tracked q i e) in
      true_ne (sym (t.unused o.inside) ∙ o.used)

  placed-tracked : (q i : ℕ) → placed.heap q ≡ some i → IsOwned placed i q
  placed-tracked q i e = elim (ℕ_discrete p q) [
    | yes pq ↦
        let ri : r ≡ i = some_inj (sym at_block ∙ ap placed.heap pq ∙ e) in
        subst (λ n. IsOwned placed n q) ri (subst (IsOwned placed r) pq block-IsOwned)
    | no ne ↦
        let old : m.heap q ≡ some i = sym (placed-ne q ne) ∙ e in
        let o : IsOwned m i q = v.tracked q i old in
        IsOwned-congr m placed i q (omega (arith, o.inside, t.more))
          (t.others i (not_taken i q old)) o
  ]

  placed-owned : (i q : ℕ) → IsOwned placed i q → placed.heap q ≡ some i
  placed-owned i q o = elim (ℕ_discrete i r) [
    | yes ir ↦
        let at_r : IsOwned placed r q = subst (λ n. IsOwned placed n q) ir o in
        let pq : p ≡ q = some_inj (sym block-IsOwned.points ∙ at_r.points) in
        ap placed.heap (sym pq) ∙ at_block ∙ ap some (sym ir)
    | no ne ↦
        let old : m.heap q ≡ some i =
          v.owned i q (IsOwned-congr placed m i q (t.old i o.inside ne) (sym (t.others i ne)) o) in
        placed-ne q (λ pq. some_ne (sym old ∙ ap m.heap (sym pq) ∙ fresh)) ∙ old
  ]

  pub placed-IsValid : p + align ≢ m.empty_string → IsValid placed
  placed-IsValid far = record {
    linked = t.linked;
    owned = placed-owned;
    tracked = placed-tracked;
    apart = λ q i e. elim (ℕ_discrete p q) [
      | yes pq ↦ λ x. far (ap (λ n. n + align) pq ∙ x ∙ ap (λ x. x.empty_string) t.kept)
      | no ne ↦ λ x. v.apart q i (sym (placed-ne q ne) ∙ e) (x ∙ ap (λ x. x.empty_string) t.kept)
    ];
  }

  pub holds-placed : (q : ℕ) → p ≢ q → holds placed q ≡ holds m q
  holds-placed q ne = elim (Option-cases (m.heap q)) [
    | inl e ↦ holds-none placed q (placed-ne q ne ∙ e) ∙ sym (holds-none m q e)
    | inr (i, e) ↦
        holds-some placed q i (placed-ne q ne ∙ e)
        ∙ ap (λ x. some x.is_process) (t.others i (not_taken i q e))
        ∙ sym (holds-some m q i e)
  ]

  pub holds-placed_self : holds placed p ≡ some ((entry m.vm r).is_process || m.mem_process)
  unfolding take_entry
  holds-placed_self = holds-some placed p r at_block ∙ ap (λ x. some x.is_process) t.here

module _ (m : Mem) (v : IsValid m) (p : ℕ) (r : ℕ) (block : m.heap p ≡ some r) where
  abbrev pub left : Mem
  left = record (set_free m r) { heap = update m.heap p none }

  r-IsOwned : IsOwned m r p
  r-IsOwned = v.tracked p r block

  abbrev pub freed : Vml
  freed = record (entry m.vm r) { ptr = none; is_free = true; next_free = m.vm_first_free }

  pub left-here : entry left.vm r ≡ freed
  unfolding set_free
  left-here = entry-set_self m.vm r freed (omega (arith, r-IsOwned.inside, v.linked.bound))

  pub left-others : (i : ℕ) → r ≢ i → entry left.vm i ≡ entry m.vm i
  unfolding set_free
  left-others i ne = entry-set_ne m.vm r i freed ne

  pub left_block : left.heap p ≡ none
  left_block = update_self m.heap p none

  pub left-ne : (q : ℕ) → p ≢ q → left.heap q ≡ m.heap q
  left-ne q ne = update_ne m.heap p q none ne

  pub still_in : (q i : ℕ) → left.heap q ≡ some i → (p ≢ q) × (m.heap q ≡ some i) × (r ≢ i)
  still_in q i e =
      let pq : p ≢ q = λ x. some_ne (sym e ∙ ap left.heap (sym x) ∙ left_block) in
      let old : m.heap q ≡ some i = sym (left-ne q pq) ∙ e in
      (
        pq,
        old,
        λ ri. pq (
            some_inj (
              sym r-IsOwned.points ∙ ap (λ n. (entry m.vm n).ptr) ri ∙ (v.tracked q i old).points)),
      )

  left_owned : (i q : ℕ) → IsOwned left i q → left.heap q ≡ some i
  unfolding set_free
  left_owned i q o = elim (ℕ_discrete r i) [
    | yes e ↦ absurd (
        true_ne (
          sym (ap (λ x. x.is_free) left-here)
          ∙ subst (λ n. (entry left.vm n).is_free ≡ false) (sym e) o.used))
    | no ne ↦
        let old : m.heap q ≡ some i =
          v.owned i q (IsOwned-congr left m i q o.inside (sym (left-others i ne)) o) in
        left-ne q (λ pq. ne (some_inj (sym block ∙ ap m.heap pq ∙ old))) ∙ old
  ]

  left_tracked : (q i : ℕ) → left.heap q ≡ some i → IsOwned left i q
  unfolding set_free
  left_tracked q i e =
      let (pq, old, ri) = still_in q i e in
      let o : IsOwned m i q = v.tracked q i old in
      IsOwned-congr m left i q o.inside (left-others i ri) o

  pub left-IsValid : IsValid left
  unfolding set_free
  left-IsValid = record {
    linked = set_free-IsLinked m r v.linked r-IsOwned.inside r-IsOwned.used r-IsOwned.no_file;
    owned = left_owned;
    tracked = left_tracked;
    apart = λ q i e. v.apart q i (still_in q i e).1;
  }

  pub holds-left : (q : ℕ) → p ≢ q → holds left q ≡ holds m q
  holds-left q ne = elim (Option-cases (m.heap q)) [
    | inl e ↦ holds-none left q (left-ne q ne ∙ e) ∙ sym (holds-none m q e)
    | inr (i, e) ↦
        holds-some left q i (left-ne q ne ∙ e)
        ∙ ap (λ x. some x.is_process) (left-others i ((still_in q i (left-ne q ne ∙ e)).2))
        ∙ sym (holds-some m q i e)
  ]
