-- ===== src/Memory/Free.antt =====
-- The list of freed entries in `vm`: what `add_mem` takes from it and what `set_free` puts into it.
use vely.Base.{
  ℕ, zero, suc, ◌+◌, ◌≤◌, ◌<◌, ◌≡◌, ◌≢◌, inl, inr, refl, sym, ◌∙◌, ap, subst, Bool, true, false,
  Option, none, some, List, [], ◌∷◌, ◌++◌, leb, ◌==◌, ==_refl, ==_ne, length, set, replicate,
  get_or-replicate, length-set, length-append, length-replicate, get_or-set_self, get_or-set_ne,
  arith, ℕ_discrete, dec_lt, Bool-cases, Option-cases,
}
use vely.Memory.{Vml, Mem, blank, velymsize, entry, take_entry, grow, add_at, add_mem, set_free}

abbrev pub one_if : Bool → ℕ
one_if true = 1
one_if false = 0

pub count_of : ℕ → List ℕ → ℕ
count_of i [] = 0
count_of i (x ∷ l) = one_if (x == i) + count_of i l

pub entry-set_self : (vm : List Vml) (i : ℕ) (v : Vml) → i < length vm → entry (set vm i v) i ≡ v
unfolding entry
entry-set_self vm i v h = get_or-set_self vm i v blank h

pub entry-set_ne : (vm : List Vml) (i j : ℕ) (v : Vml) → i ≢ j → entry (set vm i v) j ≡ entry vm j
unfolding entry
entry-set_ne vm i j v h = get_or-set_ne vm i j v blank h

-- The entries that `next_free` links from an index on.
abbrev pub IsChain : List Vml → Option ℕ → List ℕ → Type 0
IsChain vm none [] = Unit
IsChain vm none (x ∷ l) = ⊥
IsChain vm (some r) [] = ⊥
IsChain vm (some r) (x ∷ l) = (r ≡ x) × IsChain vm (entry vm x).next_free l

IsChain-congr :
    (vm vm' : List Vml) (first : Option ℕ) (l : List ℕ)
    → ((i : ℕ) → 0 < count_of i l → (entry vm i).next_free ≡ (entry vm' i).next_free)
    → IsChain vm first l
    → IsChain vm' first l
unfolding count_of
IsChain-congr vm vm' none [] same c = tt
IsChain-congr vm vm' none (x ∷ l) same c = c
IsChain-congr vm vm' (some r) [] same c = c
IsChain-congr vm vm' (some r) (x ∷ l) same (e, c) = (
  e,
  subst (λ n. IsChain vm' n l) (same x (rw (==_refl x) (omega arith)))
      (IsChain-congr vm vm' (entry vm x).next_free l (λ i h. same i (omega arith)) c),
)

-- The freed entries are those of the list, each once; an entry that was never taken is blank, and a
-- freed entry is no file.
pub record IsLinked (vm : List Vml) (curr : ℕ) (first : Option ℕ) : Type 0 where
  pub frees : List ℕ
  pub chain : IsChain vm first frees
  pub bound : curr ≤ length vm
  pub marked : (i : ℕ) → i < curr → count_of i frees ≡ one_if (entry vm i).is_free
  pub inside : (i : ℕ) → curr ≤ i → count_of i frees ≡ 0
  pub clean : (i : ℕ) → curr ≤ i → entry vm i ≡ blank
  pub plain : (i : ℕ) → (entry vm i).is_free ≡ true → (entry vm i).is_file ≡ false

-- The list as `init_vm` makes it.
pub blank-IsLinked : IsLinked (replicate velymsize blank) 0 none
unfolding entry count_of
blank-IsLinked = record {
  frees = [];
  chain = tt;
  bound = omega arith;
  marked = λ i h. absurd (omega arith);
  inside = λ i h. refl;
  clean = λ i h. get_or-replicate velymsize i blank;
  plain = λ i h. ap (λ x. x.is_file) (get_or-replicate velymsize i blank);
}

-- What taking an entry for the address `p` does.
pub record Takes (m : Mem) (p : ℕ) (m' : Mem) (r : ℕ) : Type 0 where
  pub here : entry m'.vm r ≡ take_entry m.mem_process p (entry m.vm r)
  pub others : (i : ℕ) → i ≢ r → entry m'.vm i ≡ entry m.vm i
  pub taken : r < m'.vm_curr
  pub more : m.vm_curr ≤ m'.vm_curr
  pub old : (i : ℕ) → i < m'.vm_curr → i ≢ r → i < m.vm_curr
  pub unused : r < m.vm_curr → (entry m.vm r).is_free ≡ true
  pub no_file : (entry m.vm r).is_file ≡ false
  pub linked : IsLinked m'.vm m'.vm_curr m'.vm_first_free
  pub kept : m' ≡ record m { vm = m'.vm; vm_curr = m'.vm_curr; vm_first_free = m'.vm_first_free }

entry-append_blank : (vm : List Vml) (n i : ℕ) → entry (vm ++ replicate n blank) i ≡ entry vm i
unfolding entry
entry-append_blank [] n i = get_or-replicate n i blank
entry-append_blank (v ∷ vm) n zero = refl
entry-append_blank (v ∷ vm) n (suc i) = entry-append_blank vm n i

entry-grow : (vm : List Vml) (curr i : ℕ) → entry (grow vm curr) i ≡ entry vm i
unfolding grow
entry-grow vm curr i = elim (Bool-cases (leb (length vm) curr)) [
  | inl y ↦ rw y (entry-append_blank vm velymsize i)
  | inr n ↦ rw n
]

lt-length-grow : (vm : List Vml) (curr : ℕ) → curr ≤ length vm → curr < length (grow vm (curr + 1))
unfolding grow
lt-length-grow vm curr h =
    ground (arith, length-append vm (replicate velymsize blank), length-replicate velymsize blank)

IsChain-some :
    (vm : List Vml) (r : ℕ) (l : List ℕ)
    → IsChain vm (some r) l
    → (l' : List ℕ) × (l ≡ r ∷ l') × IsChain vm (entry vm r).next_free l'
IsChain-some vm r [] c = absurd c
IsChain-some vm r (x ∷ l) (e, c) = (l, ap (λ n. n ∷ l) (sym e), rw (← e) at c)

IsChain-none : (vm : List Vml) (l : List ℕ) → IsChain vm none l → l ≡ []
IsChain-none vm [] c = refl
IsChain-none vm (x ∷ l) c = absurd c

count_of-cons_self : (r : ℕ) (l : List ℕ) → count_of r (r ∷ l) ≡ suc (count_of r l)
unfolding count_of
count_of-cons_self r l = rw (==_refl r) (omega arith)

count_of-cons_ne : (i r : ℕ) (l : List ℕ) → r ≢ i → count_of i (r ∷ l) ≡ count_of i l
unfolding count_of
count_of-cons_ne i r l ne = rw (==_ne r i ne) (omega arith)

-- A free entry is taken from the front of the list.
module _ (m : Mem) (p r : ℕ) (k : IsLinked m.vm m.vm_curr (some r)) where
  abbrev rest : List ℕ
  rest = (IsChain-some m.vm r k.frees k.chain).0

  frees_eq : k.frees ≡ r ∷ rest
  frees_eq = (IsChain-some m.vm r k.frees k.chain).1

  rest-chain : IsChain m.vm (entry m.vm r).next_free rest
  rest-chain = (IsChain-some m.vm r k.frees k.chain).2

  first-count : count_of r k.frees ≡ suc (count_of r rest)
  first-count = ap (count_of r) frees_eq ∙ count_of-cons_self r rest

  other-count : (i : ℕ) → r ≢ i → count_of i k.frees ≡ count_of i rest
  other-count i ne = ap (count_of i) frees_eq ∙ count_of-cons_ne i r rest ne

  first-lt : r < m.vm_curr
  first-lt = elim (dec_lt r m.vm_curr) [
    | yes h ↦ h
    | no n ↦ absurd (omega (arith, first-count, k.inside r (omega arith)))
  ]

  first-free : (entry m.vm r).is_free ≡ true
  first-free = elim (Bool-cases (entry m.vm r).is_free) [
    | inl y ↦ y
    | inr n ↦
        let at_r : count_of r k.frees ≡ one_if false = k.marked r first-lt ∙ ap one_if n in
        absurd (omega (arith, first-count, at_r))
  ]

  rest-count : count_of r rest ≡ 0
  rest-count =
      let at_r : count_of r k.frees ≡ one_if true = k.marked r first-lt ∙ ap one_if first-free in
      omega (arith, first-count, at_r)

  abbrev entry_vm : List Vml
  entry_vm = set m.vm r (take_entry m.mem_process p (entry m.vm r))

  at_first : entry entry_vm r ≡ take_entry m.mem_process p (entry m.vm r)
  at_first =
      entry-set_self m.vm r (take_entry m.mem_process p (entry m.vm r))
        (omega (arith, first-lt, k.bound))

  elsewhere : (i : ℕ) → r ≢ i → entry entry_vm i ≡ entry m.vm i
  elsewhere i ne = entry-set_ne m.vm r i (take_entry m.mem_process p (entry m.vm r)) ne

  some-IsLinked : IsLinked entry_vm m.vm_curr (entry m.vm r).next_free
  unfolding take_entry
  some-IsLinked = record {
    frees = rest;
    chain =
        IsChain-congr m.vm entry_vm (entry m.vm r).next_free rest
          (λ i h. elim (ℕ_discrete r i) [
            | yes e ↦ absurd (
                let z : count_of i rest ≡ 0 = subst (λ n. count_of n rest ≡ 0) e rest-count in
                omega (arith, z))
            | no ne ↦ ap (λ v. v.next_free) (sym (elsewhere i ne))
          ])
          rest-chain;
    bound = rw length-set k.bound;
    marked = λ i h. elim (ℕ_discrete r i) [
      | yes e ↦
          subst (λ n. count_of n rest ≡ one_if (entry entry_vm n).is_free) e
            (rw at_first rest-count)
      | no ne ↦ rw (elsewhere i ne, ← other-count i ne) (k.marked i h)
    ];
    inside = λ i h. elim (ℕ_discrete r i) [
      | yes e ↦ absurd (omega (arith, first-lt))
      | no ne ↦ sym (other-count i ne) ∙ k.inside i h
    ];
    clean = λ i h. elim (ℕ_discrete r i) [
      | yes e ↦ absurd (omega (arith, first-lt))
      | no ne ↦ elsewhere i ne ∙ k.clean i h
    ];
    plain = λ i h. elim (ℕ_discrete r i) [
      | yes e ↦
          subst (λ n. (entry entry_vm n).is_file ≡ false) e (rw at_first (k.plain r first-free))
      | no ne ↦ rw (elsewhere i ne) (k.plain i (rw (elsewhere i ne) at h))
    ];
  }

  add_at-some_lem : Takes m p (add_at m p (some r)).0 (add_at m p (some r)).1
  unfolding add_at
  add_at-some_lem = record {
    here = at_first;
    others = λ i ne. elsewhere i (λ e. ne (sym e));
    taken = first-lt;
    more = omega arith;
    old = λ i h ne. h;
    unused = λ h. first-free;
    no_file = k.plain r first-free;
    linked = some-IsLinked;
    kept = refl;
  }

-- The entry behind the last one is taken, in a list that is grown for it.
module _ (m : Mem) (p : ℕ) (k : IsLinked m.vm m.vm_curr none) (e : m.vm_first_free ≡ none) where
  abbrev grown : List Vml
  grown = grow m.vm (m.vm_curr + 1)

  abbrev longer : List Vml
  longer = set grown m.vm_curr (take_entry m.mem_process p (entry grown m.vm_curr))

  at_last : entry longer m.vm_curr ≡ take_entry m.mem_process p (entry m.vm m.vm_curr)
  at_last =
      entry-set_self grown m.vm_curr (take_entry m.mem_process p (entry grown m.vm_curr))
        (lt-length-grow m.vm m.vm_curr k.bound)
      ∙ ap (take_entry m.mem_process p) (entry-grow m.vm (m.vm_curr + 1) m.vm_curr)

  before_last : (i : ℕ) → m.vm_curr ≢ i → entry longer i ≡ entry m.vm i
  before_last i ne =
      entry-set_ne grown m.vm_curr i (take_entry m.mem_process p (entry grown m.vm_curr)) ne
      ∙ entry-grow m.vm (m.vm_curr + 1) i

  last-blank : entry m.vm m.vm_curr ≡ blank
  last-blank = k.clean m.vm_curr (omega arith)

  no-frees : k.frees ≡ []
  no-frees = IsChain-none m.vm k.frees k.chain

  none-IsLinked : IsLinked longer (m.vm_curr + 1) none
  unfolding take_entry count_of
  none-IsLinked = record {
    frees = [];
    chain = tt;
    bound = rw length-set (omega (arith, lt-length-grow m.vm m.vm_curr k.bound));
    marked = λ i h. elim (ℕ_discrete m.vm_curr i) [
      | yes e ↦ subst (λ n. 0 ≡ one_if (entry longer n).is_free) e (rw at_last refl)
      | no ne ↦ rw (before_last i ne, ← k.marked i (omega arith), no-frees)
    ];
    inside = λ i h. refl;
    clean = λ i h. elim (ℕ_discrete m.vm_curr i) [
      | yes e ↦ absurd (omega arith)
      | no ne ↦ before_last i ne ∙ k.clean i (omega arith)
    ];
    plain = λ i h. elim (ℕ_discrete m.vm_curr i) [
      | yes e ↦ subst (λ n. (entry longer n).is_file ≡ false) e (rw (at_last, last-blank))
      | no ne ↦ rw (before_last i ne) (k.plain i (rw (before_last i ne) at h))
    ];
  }

  add_at-none_lem : Takes m p (add_at m p none).0 (add_at m p none).1
  unfolding add_at
  add_at-none_lem = record {
    here = at_last;
    others = λ i ne. before_last i (λ e. ne (sym e));
    taken = omega arith;
    more = omega arith;
    old = λ i h ne. omega arith;
    unused = λ h. absurd (omega arith);
    no_file = rw last-blank;
    linked = subst (λ f. IsLinked longer (m.vm_curr + 1) f) (sym e) none-IsLinked;
    kept = refl;
  }

pub add_mem_lem :
    (m : Mem) (p : ℕ)
    → IsLinked m.vm m.vm_curr m.vm_first_free
    → Takes m p (add_mem m p).0 (add_mem m p).1
unfolding add_mem
add_mem_lem m p k = elim (Option-cases m.vm_first_free) [
  | inl e ↦
      subst (λ f. Takes m p (add_at m p f).0 (add_at m p f).1) (sym e)
        (add_at-none_lem m p (subst (IsLinked m.vm m.vm_curr) e k) e)
  | inr (r, e) ↦
      subst (λ f. Takes m p (add_at m p f).0 (add_at m p f).1) (sym e)
        (add_at-some_lem m p r (subst (IsLinked m.vm m.vm_curr) e k))
]

-- An entry that is in use, and is no file, is put on the list.
pub set_free-IsLinked :
    (m : Mem) (r : ℕ)
    → IsLinked m.vm m.vm_curr m.vm_first_free
    → r < m.vm_curr
    → (entry m.vm r).is_free ≡ false
    → (entry m.vm r).is_file ≡ false
    → IsLinked (set_free m r).vm m.vm_curr (some r)
unfolding set_free
set_free-IsLinked m r k inside used file =
    let v : Vml = record (entry m.vm r) {
      ptr = none;
      is_free = true;
      next_free = m.vm_first_free;
    } in
    let here : entry (set m.vm r v) r ≡ v = entry-set_self m.vm r v (omega (arith, k.bound)) in
    let others : (i : ℕ) → r ≢ i → entry (set m.vm r v) i ≡ entry m.vm i =
      λ i ne. entry-set_ne m.vm r i v ne in
    let zero_r : count_of r k.frees ≡ 0 = k.marked r inside ∙ ap one_if used in
    record {
      frees = r ∷ k.frees;
      chain = (
        refl,
        rw here (
            IsChain-congr m.vm (set m.vm r v) m.vm_first_free k.frees
              (λ i h. elim (ℕ_discrete r i) [
                | yes e ↦ absurd (
                    let z : count_of i k.frees ≡ 0 = subst (λ n. count_of n k.frees ≡ 0) e zero_r in
                    omega (arith, z))
                | no ne ↦ ap (λ v. v.next_free) (sym (others i ne))
              ])
              k.chain),
      );
      bound = rw length-set k.bound;
      marked = λ i h. elim (ℕ_discrete r i) [
        | yes e ↦
            subst (λ n. count_of n (r ∷ k.frees) ≡ one_if (entry (set m.vm r v) n).is_free) e
              (rw (here, count_of-cons_self) (ap suc zero_r))
        | no ne ↦ rw (others i ne, count_of-cons_ne i r k.frees ne) (k.marked i h)
      ];
      inside = λ i h. elim (ℕ_discrete r i) [
        | yes e ↦ absurd (omega arith)
        | no ne ↦ count_of-cons_ne i r k.frees ne ∙ k.inside i h
      ];
      clean = λ i h. elim (ℕ_discrete r i) [
        | yes e ↦ absurd (omega arith)
        | no ne ↦ others i ne ∙ k.clean i h
      ];
      plain = λ i h. elim (ℕ_discrete r i) [
        | yes e ↦ subst (λ n. (entry (set m.vm r v) n).is_file ≡ false) e (rw here file)
        | no ne ↦ rw (others i ne) (k.plain i (rw (others i ne) at h))
      ];
    }
