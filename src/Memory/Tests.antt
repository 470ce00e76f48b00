-- ===== src/Memory/Tests.antt =====
-- Runs of the memory list, and the concrete inputs for its theorems: one block of the process.
use vely.Base.{ℕ, ◌+◌, ◌≡◌, ◌≢◌, refl, ◌∙◌, true, false, ◌||◌, Option, none, some, List, [], arith}
use vely.Memory.{
  Mem, ok, align, update, init_vm, malloc, free, realloc, done, add_mem, add_at, vmset,
}
use vely.Memory.Valid.{IsValid, holds}
use vely.Memory.Alloc.{malloc_lem, free_lem, realloc_lem, reused}
use vely.Memory.Done.{done_lem, outlives, free-malloc-done, init_vm-IsValid}

abbrev nothing : ℕ → Option ℕ
nothing p = none

abbrev new : Mem
new = init_vm (record {
  vm = [];
  vm_curr = 0;
  vm_first_free = none;
  mem_os = false;
  mem_process = true;
  mem_type = false;
  empty_string = 7;
  heap = nothing;
})

abbrev one : Mem
one = (malloc new 64).0

-- The same memory once the request has gone back from the process mode.
abbrev later : Mem
later = record one { mem_process = false }

abbrev first : ℕ
first = 64

abbrev second : ℕ
second = 96

new-IsValid : IsValid new
unfolding init_vm
new-IsValid =
    init_vm-IsValid
      (record {
        vm = [];
        vm_curr = 0;
        vm_first_free = none;
        mem_os = false;
        mem_process = true;
        mem_type = false;
        empty_string = 7;
        heap = nothing;
      })
      (λ q. refl)

far : 64 + align ≢ 7
far e = absurd (omega arith)

one-facts :
    IsValid one
    × (one.mem_os ≡ false)
    × (one.heap 64 ≡ some 0)
    × (one.heap 96 ≡ none)
    × (one.empty_string ≡ 7)
    × (holds one 64 ≡ some true)
unfolding init_vm malloc add_mem add_at vmset update reused
one-facts =
    let (valid, at, bit, others) = malloc_lem new 64 new-IsValid refl refl far in
    (valid, refl, refl, refl, refl, bit)

-- The process mode is no part of the invariant.
later-IsValid : IsValid later
later-IsValid =
    let v : IsValid one = one-facts.0 in
    record {
      linked = v.linked;
      owned = λ i p o.
          v.owned i p
            (record { inside = o.inside; used = o.used; no_file = o.no_file; points = o.points });
      tracked = λ p i e.
          let o = v.tracked p i e in
          record { inside = o.inside; used = o.used; no_file = o.no_file; points = o.points };
      apart = v.apart;
    }

later-holds : holds later 64 ≡ some true
unfolding holds
later-holds = unfold holds in one-facts.5

one-far : 96 + align ≢ one.empty_string
one-far e = absurd (let f : 96 + align ≡ 7 = e ∙ one-facts.4 in omega (arith, f))

malloc_lem_example :
    IsValid (malloc new 64).0
    × ((malloc new 64).1 ≡ 64 + align)
    × (holds (malloc new 64).0 64 ≡ some (reused new || new.mem_process))
    × ((q : ℕ) → 64 ≢ q → holds (malloc new 64).0 q ≡ holds new q)
unfolding init_vm
malloc_lem_example = malloc_lem new 64 new-IsValid refl refl far

free_lem_example :
    (m' : Mem) × (free one (64 + align) true ≡ ok (m', true))
    × IsValid m'
    × (holds m' 64 ≡ none)
    × ((q : ℕ) → 64 ≢ q → holds m' q ≡ holds one q)
free_lem_example = free_lem one 64 0 true one-facts.0 one-facts.1 one-facts.2

realloc_lem_example :
    (m' : Mem) × (realloc one (64 + align) 96 true ≡ ok (m', 96 + align))
    × IsValid m'
    × (holds m' 96 ≡ some (true || one.mem_process))
    × (first ≢ second → holds m' 64 ≡ none)
    × ((q : ℕ) → first ≢ q → second ≢ q → holds m' q ≡ holds one q)
realloc_lem_example =
    realloc_lem one 64 96 0 true true one-facts.0 one-facts.1 one-facts.2 one-facts.5
      (λ ne. one-facts.3) one-far

done_lem_example :
    (m' : Mem) × (closed : List ℕ) × (done one ≡ ok (m', closed))
    × IsValid m'
    × ((q : ℕ) → holds m' q ≡ outlives (holds one q))
done_lem_example = done_lem one one-facts.0 one-facts.1

free-malloc-done_example :
    (m₁ : Mem) × (m₂ : Mem) × (closed : List ℕ) × (free later (64 + align) true ≡ ok (m₁, true))
    × (done (malloc m₁ 96).0 ≡ ok (m₂, closed))
    × (holds m₂ 96 ≡ some true)
free-malloc-done_example =
    free-malloc-done later 64 0 96 later-IsValid one-facts.1 refl one-facts.2 later-holds
      one-facts.3 one-far
