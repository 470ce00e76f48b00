-- ===== src/Memory/DoneEntry.antt =====
-- One entry in the loop of `done`, and what it leaves of each block.
use vely.Base.{
  ℕ, ◌+◌, ◌≤◌, ◌<◌, ◌≡◌, ◌≢◌, inl, inr, refl, sym, ◌∙◌, ap, Bool, true, false, not, ◌&&◌, Option,
  none, some, List, [], ◌∷◌, ◌++◌, leb, if◌then◌else◌, arith, ℕ_discrete, Bool-cases, Option-cases,
}
use vely.Memory.{Mem, ok, entry, Sweep, release, done_entry, set_free}
use vely.Memory.Valid.{
  IsValid, IsOwned, left, left-IsValid, left_block, left-ne, left-others, still_in, some_ne,
  true_ne,
}
use vely.Memory.Alloc.{free-left}

-- What is left of a block when the entries from `i` on have been gone through.
unfoldable pub sweep : ℕ → Mem → ℕ → Option Bool
sweep i m q = elim (m.heap q) [
  | none ↦ none
  | some j ↦
      if leb i j && not (entry m.vm j).is_process then none else some (entry m.vm j).is_process
]

pub sweep-none : (i : ℕ) (m : Mem) (q : ℕ) → m.heap q ≡ none → sweep i m q ≡ none
unfolding sweep
sweep-none i m q e = rw (sweep, e)

pub sweep-some :
    (i : ℕ) (m : Mem) (q j : ℕ) (b : Bool)
    → m.heap q ≡ some j
    → (entry m.vm j).is_process ≡ b
    → sweep i m q ≡ (if leb i j && not b then none else some b)
unfolding sweep
sweep-some i m q j b e bit = rw (sweep, e, bit)

leb-next : (i j : ℕ) → i ≢ j → leb (i + 1) j ≡ leb i j
leb-next i j ne = ground arith

pub process_stays : (i j : ℕ) → (if leb i j && not true then none else some true) ≡ some true
process_stays i j = elim (Bool-cases (leb i j)) [ inl y ↦ rw y | inr n ↦ rw n ]

request_goes : (i : ℕ) → (if leb i i && not false then none else some false) ≡ none
request_goes i = let same : leb i i ≡ true = ground arith in rw same

-- An entry without a block, or with one of the process, changes nothing.
sweep-next :
    (m : Mem) (i q : ℕ)
    → (m.heap q ≡ some i → (entry m.vm i).is_process ≡ true)
    → sweep (i + 1) m q ≡ sweep i m q
sweep-next m i q keeps = elim (Option-cases (m.heap q)) [
  | inl e ↦ sweep-none (i + 1) m q e ∙ sym (sweep-none i m q e)
  | inr (j, e) ↦ elim (ℕ_discrete i j) [
    | yes ij ↦
        let at : m.heap q ≡ some i = e ∙ ap some (sym ij) in
        sweep-some (i + 1) m q i true at (keeps at)
        ∙ process_stays (i + 1) i
        ∙ sym (process_stays i i)
        ∙ sym (sweep-some i m q i true at (keeps at))
    | no ne ↦
        sweep-some (i + 1) m q j (entry m.vm j).is_process e refl
        ∙ ap
            (λ t.
              if t && not (entry m.vm j).is_process then none else some (entry m.vm j).is_process)
            (leb-next i j ne)
        ∙ sym (sweep-some i m q j (entry m.vm j).is_process e refl)
  ]
]

-- One entry.
pub record IsStep (i : ℕ) (s s' : Sweep) : Type 0 where
  pub valid : IsValid s'.mem
  pub os : s'.mem.mem_os ≡ false
  pub last : s'.mem.vm_curr ≡ s.mem.vm_curr
  pub quiet :
      (s.keep_mem ≡ false → (q j : ℕ) → s.mem.heap q ≡ some j → i ≤ j)
      → s'.keep_mem ≡ false
      → (q j : ℕ) → s'.mem.heap q ≡ some j
      → i + 1 ≤ j
  pub same : (q : ℕ) → sweep (i + 1) s'.mem q ≡ sweep i s.mem q

module _ (s : Sweep) (i : ℕ) (v : IsValid s.mem) (os : s.mem.mem_os ≡ false) where
  kept-IsStep : (entry s.mem.vm i).is_process ≡ true → IsStep i s (record s { keep_mem = true })
  kept-IsStep y = record {
    valid = v;
    os = os;
    last = refl;
    quiet = λ h k. absurd (true_ne k);
    same = λ q. sweep-next s.mem i q (λ e. y);
  }

  unused-IsStep : ((p : ℕ) → IsOwned s.mem i p → ⊥) → IsStep i s s
  unused-IsStep no_block = record {
    valid = v;
    os = os;
    last = refl;
    quiet = λ h k q j e. elim (ℕ_discrete i j) [
      | yes ij ↦ absurd (no_block q (v.tracked q i (e ∙ ap some (sym ij))))
      | no ne ↦ omega (arith, h k q j e)
    ];
    same = λ q. sweep-next s.mem i q (λ e. absurd (no_block q (v.tracked q i e)));
  }

  closed-IsStep :
      (l : List ℕ)
      → ((p : ℕ) → IsOwned s.mem i p → ⊥)
      → IsStep i s (record s { closed = s.closed ++ l })
  closed-IsStep l no_block =
      let k : IsStep i s s = unused-IsStep no_block in
      record { valid = k.valid; os = k.os; last = k.last; quiet = k.quiet; same = k.same }

  left-same :
      (p : ℕ) (block : s.mem.heap p ≡ some i) (q : ℕ)
      → p ≢ q
      → sweep (i + 1) (left s.mem v p i block) q ≡ sweep i s.mem q
  left-same p block q ne =
      let l : Mem = left s.mem v p i block in
      elim (Option-cases (s.mem.heap q)) [
        | inl e ↦
            sweep-none (i + 1) l q (left-ne s.mem v p i block q ne ∙ e)
            ∙ sym (sweep-none i s.mem q e)
        | inr (j, e) ↦
            let e' : l.heap q ≡ some j = left-ne s.mem v p i block q ne ∙ e in
            let ij : i ≢ j = (still_in s.mem v p i block q j e').2 in
            let b : Bool = (entry s.mem.vm j).is_process in
            sweep-some (i + 1) l q j b e'
              (ap (λ x. x.is_process) (left-others s.mem v p i block j ij))
            ∙ ap (λ t. if t && not b then none else some b) (leb-next i j ij)
            ∙ sym (sweep-some i s.mem q j b e refl)
      ]

  release-left :
      (p j : ℕ) (block : s.mem.heap p ≡ some j)
      → release s p ≡ ok (record s { mem = left s.mem v p j block })
  unfolding release
  release-left p j block = rw (release, free-left s.mem v os p j block false)

  left-IsStep :
      (p : ℕ) (block : s.mem.heap p ≡ some i)
      → (entry s.mem.vm i).is_process ≡ false
      → IsStep i s (record s { mem = left s.mem v p i block })
  unfolding set_free
  left-IsStep p block request = record {
    valid = left-IsValid s.mem v p i block;
    os = os;
    last = refl;
    quiet = λ h k q j e.
        let old = still_in s.mem v p i block q j e in omega (arith, h k q j old.1, old.2);
    same = λ q. elim (ℕ_discrete p q) [
      | yes pq ↦
          let l : Mem = left s.mem v p i block in
          sweep-none (i + 1) l q (ap l.heap (sym pq) ∙ left_block s.mem v p i block)
          ∙ sym (request_goes i)
          ∙ sym (sweep-some i s.mem q i false (ap s.mem.heap (sym pq) ∙ block) request)
      | no ne ↦ left-same p block q ne
    ];
  }

pub done_entry_lem :
    (s : Sweep) (i : ℕ)
    → IsValid s.mem
    → s.mem.mem_os ≡ false
    → i < s.mem.vm_curr
    → (s' : Sweep) × (done_entry s (entry s.mem.vm i) ≡ ok s') × IsStep i s s'
unfolding done_entry
done_entry_lem s i v os inside = elim (Bool-cases (entry s.mem.vm i).is_free) [
  | inl y ↦ (s, rw y, unused-IsStep s i v os (λ p o. true_ne (sym y ∙ o.used)))
  | inr used ↦ elim (Option-cases (entry s.mem.vm i).ptr) [
    | inl e ↦ (s, rw (used, e), unused-IsStep s i v os (λ p o. some_ne (sym o.points ∙ e)))
    | inr (p, e) ↦ elim (Bool-cases (entry s.mem.vm i).is_file) [
      | inl y ↦ (
        record s { closed = s.closed ++ p ∷ [] },
        rw (used, e, y),
        closed-IsStep s i v os (p ∷ []) (λ q o. true_ne (sym y ∙ o.no_file)),
      )
      | inr file ↦ elim (Bool-cases (entry s.mem.vm i).is_process) [
        | inl y ↦ (record s { keep_mem = true }, rw (used, e, file, y), kept-IsStep s i v os y)
        | inr request ↦
            let o : IsOwned s.mem i p = record {
              inside = inside;
              used = used;
              no_file = file;
              points = e;
            } in
            let block : s.mem.heap p ≡ some i = v.owned i p o in
            let gone : done_entry s (entry s.mem.vm i) ≡ release s p =
              rw (used, e, file, request) in
            (
              record s { mem = left s.mem v p i block },
              gone ∙ release-left s i v os p i block,
              left-IsStep s i v os p block request,
            )
      ]
    ]
  ]
]
