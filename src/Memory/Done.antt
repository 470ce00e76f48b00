-- ===== src/Memory/Done.antt =====
-- `done`, the end of a request: its loop over the entries.
use vely.Base.{
  ℕ, zero, suc, ◌+◌, ◌≤◌, ◌≡◌, ◌≢◌, inl, inr, refl, sym, ◌∙◌, ap, Bool, true, false, not, ◌&&◌,
  ◌||◌, Option, none, some, List, [], leb, if◌then◌else◌, arith, Bool-cases, Option-cases,
}
use vely.Memory.{
  Mem, ok, align, entry, Sweep, done_entry, done_loop, init_vm, done, malloc, free, set_free,
}
use vely.Memory.Free.{blank-IsLinked}
use vely.Memory.Valid.{
  IsValid, holds, holds-none, holds-some, some_inj, left, left-IsValid, left-ne, some_ne,
}
use vely.Memory.Alloc.{free-left, malloc_lem, malloc-os, reused, left-reused}
use vely.Memory.DoneEntry.{sweep, sweep-none, sweep-some, process_stays, done_entry_lem}

-- The loop from the entry `i` on.
record IsSwept (i : ℕ) (s s' : Sweep) : Type 0 where
  valid : IsValid s'.mem
  os : s'.mem.mem_os ≡ false
  quiet : s'.keep_mem ≡ false → (q : ℕ) → s'.mem.heap q ≡ none
  same : (q : ℕ) → holds s'.mem q ≡ sweep i s.mem q

past_end : (m : Mem) (i q : ℕ) → IsValid m → m.vm_curr ≤ i → holds m q ≡ sweep i m q
past_end m i q v end = elim (Option-cases (m.heap q)) [
  | inl e ↦ holds-none m q e ∙ sym (sweep-none i m q e)
  | inr (j, e) ↦
      let before : leb i j ≡ false = ground (arith, end, (v.tracked q j e).inside) in
      holds-some m q j e
      ∙ sym (
          sweep-some i m q j (entry m.vm j).is_process e refl
          ∙ ap
              (λ t.
                if t && not (entry m.vm j).is_process then none else some (entry m.vm j).is_process)
              before)
]

done_loop-next :
    (n i : ℕ) (s s' : Sweep)
    → done_entry s (entry s.mem.vm i) ≡ ok s'
    → done_loop (suc n) i s ≡ done_loop n (i + 1) s'
unfolding done_loop
done_loop-next n i s s' e = rw (done_loop, e)

done_loop_lem :
    (n i : ℕ) (s : Sweep)
    → IsValid s.mem
    → s.mem.mem_os ≡ false
    → i + n ≡ s.mem.vm_curr
    → (s.keep_mem ≡ false → (q j : ℕ) → s.mem.heap q ≡ some j → i ≤ j)
    → (s' : Sweep) × (done_loop n i s ≡ ok s') × IsSwept i s s'
unfolding done_loop
done_loop_lem zero i s v os sum quiet = (
  s,
  refl,
  record {
    valid = v;
    os = os;
    quiet = λ k q. elim (Option-cases (s.mem.heap q)) [
      | inl e ↦ e
      | inr (j, e) ↦ absurd (omega (arith, quiet k q j e, (v.tracked q j e).inside))
    ];
    same = λ q. past_end s.mem i q v (omega arith);
  },
)
done_loop_lem (suc n) i s v os sum quiet =
    let (s₁, e, k) = done_entry_lem s i v os (omega arith) in
    let (s', e', w) =
      done_loop_lem n (i + 1) s₁ k.valid k.os (omega (arith, k.last)) (k.quiet quiet) in
    (
      s',
      done_loop-next n i s s₁ e ∙ e',
      record { valid = w.valid; os = w.os; quiet = w.quiet; same = λ q. w.same q ∙ k.same q },
    )

pub init_vm-IsValid : (m : Mem) → ((q : ℕ) → m.heap q ≡ none) → IsValid (init_vm m)
unfolding init_vm
init_vm-IsValid m empty = record {
  linked = blank-IsLinked;
  owned = λ i p o. absurd (omega (arith, o.inside));
  tracked = λ p i e. absurd (some_ne (sym e ∙ empty p));
  apart = λ p i e. absurd (some_ne (sym e ∙ empty p));
}

init_heap : (m : Mem) (q : ℕ) → (init_vm m).heap q ≡ m.heap q
unfolding init_vm
init_heap m q = refl

-- What is left of a block at the end of a request.
abbrev pub outlives : Option Bool → Option Bool
outlives (some true) = some true
outlives (some false) = none
outlives none = none

at_start : (b : Bool) (j : ℕ) → (if leb 0 j && not b then none else some b) ≡ outlives (some b)
at_start true j = process_stays 0 j
at_start false j = let first : leb 0 j ≡ true = ground arith in rw first

sweep-outlives : (m : Mem) (q : ℕ) → sweep 0 m q ≡ outlives (holds m q)
sweep-outlives m q = elim (Option-cases (m.heap q)) [
  | inl e ↦ sweep-none 0 m q e ∙ sym (ap outlives (holds-none m q e))
  | inr (j, e) ↦
      sweep-some 0 m q j (entry m.vm j).is_process e refl
      ∙ at_start (entry m.vm j).is_process j
      ∙ sym (ap outlives (holds-some m q j e))
]

done-done_loop :
    (m : Mem) (s : Sweep) (b : Bool)
    → done_loop m.vm_curr 0 (record { mem = m; keep_mem = false; closed = [] }) ≡ ok s
    → s.keep_mem ≡ b
    → done m ≡ ok (if b then s.mem else init_vm s.mem, s.closed)
unfolding done
done-done_loop m s b e k = rw (done, e, k)

-- In a valid memory in managed mode (`mem_os` is 0), `done` comes to an end without a fault and leaves a valid memory, in which the
-- blocks of the process stand as before and no others.
pub done_lem :
    (m : Mem)
    → IsValid m
    → m.mem_os ≡ false
    → (m' : Mem) × (closed : List ℕ) × (done m ≡ ok (m', closed))
      × IsValid m'
      × ((q : ℕ) → holds m' q ≡ outlives (holds m q))
done_lem m v os =
    let s : Sweep = record { mem = m; keep_mem = false; closed = [] } in
    let (s', e, w) = done_loop_lem m.vm_curr 0 s v os (omega arith) (λ k q j e. omega arith) in
    elim (Bool-cases s'.keep_mem) [
      | inl y ↦ (
        s'.mem,
        s'.closed,
        done-done_loop m s' true e y,
        w.valid,
        λ q. w.same q ∙ sweep-outlives m q,
      )
      | inr n ↦ (
        init_vm s'.mem,
        s'.closed,
        done-done_loop m s' false e n,
        init_vm-IsValid s'.mem (w.quiet n),
        λ q.
            holds-none (init_vm s'.mem) q (init_heap s'.mem q ∙ w.quiet n q)
            ∙ sym (holds-none s'.mem q (w.quiet n q))
            ∙ w.same q
            ∙ sweep-outlives m q,
      )
    ]

reused-freed :
    (m : Mem) (p i : ℕ) (v : IsValid m) (block : m.heap p ≡ some i) (b : Bool)
    → holds m p ≡ some b
    → reused (left m v p i block) ≡ b
reused-freed m p i v block b kind =
    left-reused m p i v block ∙ some_inj (sym (holds-some m p i block) ∙ kind)

-- The entry of a freed block keeps its process bit: in a valid memory that is not in the process
-- mode, after a block of the process is freed, the next block that `malloc` makes is one of the
-- process, and outlives `done`.
pub free-malloc-done :
    (m : Mem) (p i q : ℕ)
    → IsValid m
    → m.mem_os ≡ false
    → m.mem_process ≡ false
    → m.heap p ≡ some i
    → holds m p ≡ some true
    → m.heap q ≡ none
    → q + align ≢ m.empty_string
    → (m₁ : Mem) × (m₂ : Mem) × (closed : List ℕ) × (free m (p + align) true ≡ ok (m₁, true))
      × (done (malloc m₁ q).0 ≡ ok (m₂, closed))
      × (holds m₂ q ≡ some true)
unfolding set_free
free-malloc-done m p i q v os process block kind fresh far =
    let l : Mem = left m v p i block in
    let pq : p ≢ q = λ e. some_ne (sym block ∙ ap m.heap e ∙ fresh) in
    let (valid, at, bit, others) =
      malloc_lem l q (left-IsValid m v p i block) os (left-ne m v p i block q pq ∙ fresh) far in
    let (m₂, closed, e, valid₂, kept) =
      done_lem (malloc l q).0 valid (malloc-os l q (left-IsValid m v p i block) os) in
    let was : reused l ≡ true = reused-freed m p i v block true kind in
    (
      l,
      m₂,
      closed,
      free-left m v os p i block true,
      e,
      kept q ∙ ap outlives (bit ∙ ap (λ b. some (b || m.mem_process)) was),
    )
