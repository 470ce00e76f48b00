-- ===== src/Tree/Settle.antt =====
-- A node whose one subtree has changed its height, once it is balanced.
use Prim.Native.Nat.{max}
use vely.Base.{ℕ, ◌+◌, ◌≤◌, ◌≡◌, refl, sym, ◌∙◌, ap, subst, Bool, true, false, arith}
use vely.Tree.{
  Tree, Cell, null, branch, lesser, greater, height_of, tree_height, child, hang, balance, settle,
}
use vely.Tree.Heights.{Near, IsAvl, IsAlmost, real, balance_lem, balance-keeps, tree_height-IsAvl}

-- A tree of height `a` at first, where one subtree is now of height `h` and the other of height `k`.
abbrev Settles : ℕ → ℕ → Tree → Type 0
Settles h k t =
    IsAlmost t × (max h k ≤ real t) × (real t ≤ max h k + 1) × (Near h k → real t ≡ max h k + 1)

refreshed :
    (t : Tree)
    → IsAlmost t
    → real t ≤ 124
    → IsAvl (balance t).0 × (height_of (balance t).0 ≡ real t)
unfolding balance tree_height
refreshed null a small = (tt, refl)
refreshed (branch l c r) (al, ar, near) small =
    rw (balance-keeps l c r near) (tree_height-IsAvl (branch l c r) (al, ar, near) (omega arith))

abbrev at_height : ℕ → Cell → Cell
at_height h c = record c { height = h }

pub hang-lesser :
    (l : Tree) (c : Cell) (r t : Tree) (up : Bool)
    → (c' : Cell) × (c' ≡ record c { height = c'.height })
      × (hang lesser (branch l c r) (t, up) ≡ branch t c' r)
unfolding hang tree_height
hang-lesser l c r t true = (_, refl, refl)
hang-lesser l c r t false = (c, refl, refl)

pub hang-greater :
    (l : Tree) (c : Cell) (r t : Tree) (up : Bool)
    → (c' : Cell) × (c' ≡ record c { height = c'.height })
      × (hang greater (branch l c r) (t, up) ≡ branch l c' t)
unfolding hang tree_height
hang-greater l c r t true = (_, refl, refl)
hang-greater l c r t false = (c, refl, refl)

pub settle-hang_lesser :
    (l : Tree) (c : Cell) (r t : Tree) (up : Bool)
    → (c' : Cell) × (c' ≡ record c { height = c'.height })
      × (settle lesser (branch l c r) (t, up) ≡ balance (branch (balance t).0 c' r))
unfolding settle
settle-hang_lesser l c r t up =
    let (c₁, s₁, e₁) = hang-lesser l c r t up in
    let (c₂, s₂, e₂) = hang-lesser t c₁ r (balance t).0 (balance t).1 in
    (
      c₂,
      s₂ ∙ ap (at_height c₂.height) s₁,
      ap (λ p. balance (hang lesser p (balance (child lesser p)))) e₁ ∙ ap balance e₂,
    )

pub settle-hang_greater :
    (l : Tree) (c : Cell) (r t : Tree) (up : Bool)
    → (c' : Cell) × (c' ≡ record c { height = c'.height })
      × (settle greater (branch l c r) (t, up) ≡ balance (branch l c' (balance t).0))
unfolding settle
settle-hang_greater l c r t up =
    let (c₁, s₁, e₁) = hang-greater l c r t up in
    let (c₂, s₂, e₂) = hang-greater l c₁ t (balance t).0 (balance t).1 in
    (
      c₂,
      s₂ ∙ ap (at_height c₂.height) s₁,
      ap (λ p. balance (hang greater p (balance (child greater p)))) e₁ ∙ ap balance e₂,
    )

pub settle-lesser :
    (l : Tree) (c : Cell) (r t : Tree) (up : Bool)
    → IsAvl r
    → IsAlmost t
    → real t ≤ height_of r + 2
    → height_of r ≤ real t + 2
    → max (real t) (height_of r) ≤ 124
    → Settles (real t) (height_of r) (settle lesser (branch l c r) (t, up)).0
settle-lesser l c r t up ar at low high small =
    let (c', s, e) = settle-hang_lesser l c r t up in
    let (a, h) = refreshed t at (omega arith) in
    let ((almost, below, above), keeps) =
      balance_lem (balance t).0 c' r a ar (omega arith) (omega arith) (omega arith) in
    subst (λ s. Settles (real t) (height_of r) s.0) (sym e)
      (
        almost,
        omega arith,
        omega arith,
        λ near. keeps (omega arith, omega arith) ∙ ap (λ k. max k (height_of r) + 1) h,
      )

pub settle-greater :
    (l : Tree) (c : Cell) (r t : Tree) (up : Bool)
    → IsAvl l
    → IsAlmost t
    → real t ≤ height_of l + 2
    → height_of l ≤ real t + 2
    → max (height_of l) (real t) ≤ 124
    → Settles (height_of l) (real t) (settle greater (branch l c r) (t, up)).0
settle-greater l c r t up al at low high small =
    let (c', s, e) = settle-hang_greater l c r t up in
    let (a, h) = refreshed t at (omega arith) in
    let ((almost, below, above), keeps) =
      balance_lem l c' (balance t).0 al a (omega arith) (omega arith) (omega arith) in
    subst (λ s. Settles (height_of l) (real t) s.0) (sym e)
      (
        almost,
        omega arith,
        omega arith,
        λ near. keeps (omega arith, omega arith) ∙ ap (λ k. max (height_of l) k + 1) h,
      )
