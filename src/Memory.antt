-- ===== src/Memory.antt =====
-- velymem.c: the list of the memory that a request has allocated. `vm` is the block of pointers, of
-- length `vm_tot`, and NULL is the empty list; an index of -1 is `none`. Each block that Vely hands out
-- begins with its index in `vm`: `heap` gives, for the address of a block, the index that stands there,
-- and `none` where no such block is. What `malloc` or `realloc` returns is an argument. The status of
-- an entry is a record of its three bits.
pub mod Free
pub mod Valid
pub mod Alloc
pub mod DoneEntry
pub mod Done
pub mod Tests
use vely.Base.{
  ℕ, zero, suc, ◌+◌, ◌-◌, Bool, true, false, not, ◌&&◌, ◌||◌, Option, none, some, List, [], ◌∷◌,
  ◌++◌, leb, ◌==◌, if◌then◌else◌, length, get_or, set, replicate,
}

pub record Vml : Type 0 where
  pub ptr : Option ℕ
  pub is_free : Bool
  pub is_file : Bool
  pub is_process : Bool
  pub next_free : Option ℕ

pub record Mem : Type 0 where
  pub vm : List Vml
  pub vm_curr : ℕ
  pub vm_first_free : Option ℕ
  pub mem_os : Bool
  pub mem_process : Bool
  pub mem_type : Bool
  pub empty_string : ℕ
  pub heap : ℕ → Option ℕ

-- What a routine comes to: a value, the error page of `vely_report_error`, or a read of memory that is
-- no block.
pub data Result {ℓ} (A : Type ℓ) : Type ℓ where
  ok : A → Result A
  report : Result A
  fault : Result A

-- An entry with its status cleared.
abbrev pub blank : Vml
blank = record {
  ptr = none;
  is_free = false;
  is_file = false;
  is_process = false;
  next_free = none;
}

abbrev pub velymsize : ℕ
velymsize = 512

-- VV_ALIGN.
abbrev pub align : ℕ
align = 16

unfoldable pub entry : List Vml → ℕ → Vml
entry vm i = get_or vm i blank

unfoldable pub update : (ℕ → Option ℕ) → ℕ → Option ℕ → ℕ → Option ℕ
update heap p v q = if p == q then v else heap q

-- The writes at the end of `add_mem`: the file and the process bit stay as they are.
unfoldable pub take_entry : Bool → ℕ → Vml → Vml
take_entry process p v = record v {
  ptr = some p;
  is_free = false;
  is_process = v.is_process || process;
}

unfoldable pub grow : List Vml → ℕ → List Vml
grow vm curr = if leb (length vm) curr then vm ++ replicate velymsize blank else vm

unfoldable pub add_at : Mem → ℕ → Option ℕ → Mem × ℕ
unfolding take_entry grow entry
add_at m p (some r) = (
  record m {
    vm = set m.vm r (take_entry m.mem_process p (entry m.vm r));
    vm_first_free = (entry m.vm r).next_free;
  },
  r,
)
add_at m p none =
    let vm = grow m.vm (m.vm_curr + 1) in
    (
      record m {
        vm = set vm m.vm_curr (take_entry m.mem_process p (entry vm m.vm_curr));
        vm_curr = m.vm_curr + 1;
      },
      m.vm_curr,
    )

unfoldable pub add_mem : Mem → ℕ → Mem × ℕ
unfolding add_at
add_mem m p = add_at m p m.vm_first_free

unfoldable pub clear_mem : Mem → ℕ → Mem
unfolding entry
clear_mem m ind = record m { vm = set m.vm ind (record (entry m.vm ind) { ptr = none }) }

-- VV_MEM_FILE is the status that is set so.
unfoldable pub set_mem_file : Mem → ℕ → Mem
unfolding entry
set_mem_file m ind = record m { vm = set m.vm ind (record (entry m.vm ind) { is_file = true }) }

unfoldable pub reg_file : Mem → ℕ → Mem × ℕ
unfolding add_mem set_mem_file
reg_file m f = let (m', ind) = add_mem m f in (set_mem_file m' ind, ind)

-- Writes the index at the beginning of the block, and gives the memory behind it.
unfoldable pub vmset : Mem → ℕ → ℕ → Mem × ℕ
unfolding update
vmset m p r = (record m { heap = update m.heap p (some r) }, p + align)

-- `p` is what the C library returned. Memory of the C library has no index.
unfoldable pub malloc : Mem → ℕ → Mem × ℕ
unfolding add_mem vmset
malloc m p = let (m', r) = add_mem m p in if m.mem_os then (m, p) else vmset m' p r

unfoldable pub get_memory : Mem → ℕ → Option ℕ
get_memory m ptr = m.heap (ptr - align)

unfoldable pub set_free : Mem → ℕ → Mem
unfolding entry
set_free m r = record m {
  vm =
      set m.vm r
        (record (entry m.vm r) { ptr = none; is_free = true; next_free = m.vm_first_free });
  vm_first_free = some r;
}

-- The test that the entry `r` is in use and points to the block of `ptr`.
unfoldable pub is_valid : Mem → ℕ → ℕ → Bool
unfolding entry
is_valid m ptr r =
    if leb m.vm_curr r
    then false
    else elim (entry m.vm r).ptr [ none ↦ false | some p ↦ p == ptr - align ]

unfoldable pub mem_set_process : Mem → ℕ → Result Mem
unfolding get_memory is_valid entry
mem_set_process m ptr =
    if not m.mem_os && m.mem_process
    then elim (get_memory m ptr) [
      | none ↦ fault
      | some r ↦
          if is_valid m ptr r
          then ok (record m { vm = set m.vm r (record (entry m.vm r) { is_process = true }) })
          else report
    ]
    else ok m

-- `_vely_free` once the index is read.
unfoldable pub free_at : Mem → ℕ → Bool → ℕ → Mem × Bool
unfolding is_valid entry set_free update
free_at m ptr check r =
    if check && not (is_valid m ptr r)
    then (m, false)
    else if (entry m.vm r).is_free
    then (m, false)
    else let m' = set_free m r in (record m' { heap = update m.heap (ptr - align) none }, true)

-- The C library, where it is in use, does not know the blocks of Vely.
unfoldable pub free : Mem → ℕ → Bool → Result (Mem × Bool)
unfolding get_memory free_at
free m ptr check =
    if ptr == m.empty_string || ptr == 0
    then ok (m, true)
    else if m.mem_os
    then elim (get_memory m ptr) [ none ↦ ok (m, true) | some r ↦ fault ]
    else elim (get_memory m ptr) [ none ↦ fault | some r ↦ ok (free_at m ptr check r) ]

-- `p` is what `realloc` returned.
unfoldable pub realloc : Mem → ℕ → ℕ → Bool → Result (Mem × ℕ)
unfolding malloc get_memory is_valid set_free update add_mem vmset
realloc m ptr p safe =
    if ptr == m.empty_string || ptr == 0
    then ok (malloc m p)
    else if m.mem_os
    then elim (get_memory m ptr) [ none ↦ ok (m, p) | some r ↦ fault ]
    else elim (get_memory m ptr) [
      | none ↦ fault
      | some r ↦
          if safe && not (is_valid m ptr r)
          then report
          else let m₁ = set_free m r in
            let (m₂, r') = add_mem (record m₁ { heap = update m.heap (ptr - align) none }) p in
            ok (vmset m₂ p r')
    ]

-- A round of `done`, with whether memory is kept and the files that are closed so far.
pub record Sweep : Type 0 where
  pub mem : Mem
  pub keep_mem : Bool
  pub closed : List ℕ

unfoldable pub release : Sweep → ℕ → Result Sweep
unfolding free
release s p = elim (free s.mem (p + align) false) [
  | ok (m, _) ↦ ok (record s { mem = m })
  | report ↦ report
  | fault ↦ fault
]

unfoldable pub done_entry : Sweep → Vml → Result Sweep
unfolding release
done_entry s v = if v.is_free then ok s else elim v.ptr [
  | none ↦ ok s
  | some p ↦
      if v.is_file
      then ok (record s { closed = s.closed ++ p ∷ [] })
      else if v.is_process
      then ok (record s { keep_mem = true })
      else release s p
]

-- The loop from the entry `i` on, over the number of entries that are left.
unfoldable pub done_loop : ℕ → ℕ → Sweep → Result Sweep
unfolding done_entry entry
done_loop zero i s = ok s
done_loop (suc left) i s = elim (done_entry s (entry s.mem.vm i)) [
  | ok s' ↦ done_loop left (i + 1) s'
  | report ↦ report
  | fault ↦ fault
]

unfoldable pub init_vm : Mem → Mem
init_vm m = record m { vm = replicate velymsize blank; vm_curr = 0; vm_first_free = none }

unfoldable pub done : Mem → Result (Mem × List ℕ)
unfolding done_loop init_vm
done m = elim (done_loop m.vm_curr 0 (record { mem = m; keep_mem = false; closed = [] })) [
  | ok s ↦ ok (if s.keep_mem then s.mem else init_vm s.mem, s.closed)
  | report ↦ report
  | fault ↦ fault
]

unfoldable pub unmanaged : Mem → Mem
unmanaged m = record m { mem_type = m.mem_os; mem_os = true }

unfoldable pub managed : Mem → Mem
managed m = record m { mem_type = m.mem_os; mem_os = false }

unfoldable pub mrestore : Mem → Mem
mrestore m = record m { mem_os = m.mem_type }
