-- ===== src/Tree/Heights.antt =====
-- Balanced trees, and the tree that one call of `balance` leaves.
use Prim.Native.Nat.{max}
use vely.Base.{
  ℕ, ◌+◌, ◌≤◌, ◌<◌, ◌≡◌, refl, sym, true, false, leb, ltb, arith, dec_le, ltb→lt, Bool-cases, inl,
  inr,
}
use native.Mathlib.Nat.{mod-eq_of_lt}
use vely.Tree.{
  Tree, Cell, null, branch, height_of, next_height, tree_height, hang, rotate_left, rotate_right,
  lean_left, lean_right, balance,
}

abbrev pub Near : ℕ → ℕ → Type 0
Near a b = (a ≤ b + 1) × (b ≤ a + 1)

-- Every height is right, and no two siblings differ by more than one.
abbrev pub IsAvl : Tree → Type 0
IsAvl null = Unit
IsAvl (branch l c r) =
    IsAvl l
    × IsAvl r
    × Near (height_of l) (height_of r)
    × (c.height ≡ max (height_of l) (height_of r) + 1)

-- The same, except that the height of the root may be an old one.
abbrev pub IsAlmost : Tree → Type 0
IsAlmost null = Unit
IsAlmost (branch l c r) = IsAvl l × IsAvl r × Near (height_of l) (height_of r)

-- The height that the root has once it is computed.
abbrev pub real : Tree → ℕ
real null = 0
real (branch l c r) = max (height_of l) (height_of r) + 1

pub next_height_lem : (a b : ℕ) → max a b < 127 → next_height a b ≡ max a b + 1
next_height_lem a b h =
    ground (arith, mod-eq_of_lt {n = a + 1} {m = 128}, mod-eq_of_lt {n = b + 1} {m = 128})

pub IsAvl→IsAlmost : (t : Tree) → IsAvl t → IsAlmost t
IsAvl→IsAlmost null a = tt
IsAvl→IsAlmost (branch l c r) (al, ar, near, h) = (al, ar, near)

pub real-IsAvl : (t : Tree) → IsAvl t → real t ≡ height_of t
real-IsAvl null a = refl
real-IsAvl (branch l c r) (al, ar, near, h) = sym h

pub tree_height-IsAvl :
    (t : Tree)
    → IsAlmost t
    → real t ≤ 127
    → IsAvl (tree_height t) × (height_of (tree_height t) ≡ real t)
unfolding tree_height
tree_height-IsAvl null a small = (tt, refl)
tree_height-IsAvl (branch l c r) (al, ar, near) small =
    let h : next_height (height_of l) (height_of r) ≡ max (height_of l) (height_of r) + 1 =
      next_height_lem (height_of l) (height_of r) (omega (arith, small)) in
    ((al, ar, near, h), h)

-- What `balance` promises for two balanced subtrees that differ by two at most.
abbrev pub Balanced : Tree → Tree → Tree → Type 0
Balanced l r t =
    IsAlmost t
    × (max (height_of l) (height_of r) ≤ real t)
    × (real t ≤ max (height_of l) (height_of r) + 1)

single_right :
    (ll : Tree) (lc : Cell) (lg : Tree) (c : Cell) (r : Tree)
    → ltb (height_of ll) (height_of lg) ≡ false
    → rotate_right (lean_left (tree_height (branch (branch ll lc lg) c r)))
      ≡ branch ll lc (tree_height (branch lg c r))
unfolding rotate_right lean_left tree_height
single_right ll lc lg c r e = rw e

double_right :
    (ll : Tree) (lc : Cell) (x : Tree) (y : Cell) (z : Tree) (c : Cell) (r : Tree)
    → ltb (height_of ll) y.height ≡ true
    → rotate_right (lean_left (tree_height (branch (branch ll lc (branch x y z)) c r)))
      ≡ branch (tree_height (branch ll lc x)) y (tree_height (branch z c r))
unfolding rotate_right lean_left tree_height rotate_left hang
double_right ll lc x y z c r e = rw e

single_left :
    (l : Tree) (c : Cell) (gl : Tree) (gc : Cell) (gg : Tree)
    → ltb (height_of gg) (height_of gl) ≡ false
    → rotate_left (lean_right (tree_height (branch l c (branch gl gc gg))))
      ≡ branch (tree_height (branch l c gl)) gc gg
unfolding rotate_left lean_right tree_height
single_left l c gl gc gg e = rw e

double_left :
    (l : Tree) (c : Cell) (x : Tree) (y : Cell) (z : Tree) (gc : Cell) (gg : Tree)
    → ltb (height_of gg) y.height ≡ true
    → rotate_left (lean_right (tree_height (branch l c (branch (branch x y z) gc gg))))
      ≡ branch (tree_height (branch l c x)) y (tree_height (branch z gc gg))
unfolding rotate_right lean_right tree_height rotate_left hang
double_left l c x y z gc gg e = rw e

-- A node over two balanced trees, which its own height is then computed for.
pair_IsAvl :
    (l : Tree) (c : Cell) (r : Tree)
    → IsAvl l
    → IsAvl r
    → Near (height_of l) (height_of r)
    → max (height_of l) (height_of r) ≤ 126
    → IsAvl (tree_height (branch l c r))
      × (height_of (tree_height (branch l c r)) ≡ max (height_of l) (height_of r) + 1)
pair_IsAvl l c r al ar near small =
    tree_height-IsAvl (branch l c r) (al, ar, near) (omega (arith, small))

ltb→le : (a b : ℕ) → ltb a b ≡ false → b ≤ a
ltb→le a b e = ground arith

right_single :
    (ll : Tree) (lc : Cell) (lg : Tree) (c : Cell) (r : Tree)
    → IsAvl (branch ll lc lg)
    → IsAvl r
    → lc.height ≡ height_of r + 2
    → height_of r ≤ 122
    → ltb (height_of ll) (height_of lg) ≡ false
    → Balanced
        (branch ll lc lg)
        r
        (rotate_right (lean_left (tree_height (branch (branch ll lc lg) c r))))
right_single ll lc lg c r (al, ag, near, h) ar tall small e =
    let le = ltb→le (height_of ll) (height_of lg) e in
    let (a, k) = pair_IsAvl lg c r ag ar (omega arith, omega arith) (omega arith) in
    rw (single_right ll lc lg c r e) ((al, a, (omega arith, omega arith)), omega arith, omega arith)

right_turn :
    (ll : Tree) (lc : Cell) (lg : Tree) (c : Cell) (r : Tree)
    → IsAvl (branch ll lc lg)
    → IsAvl r
    → lc.height ≡ height_of r + 2
    → height_of r ≤ 122
    → Balanced
        (branch ll lc lg)
        r
        (rotate_right (lean_left (tree_height (branch (branch ll lc lg) c r))))
right_turn ll lc null c r al ar tall small =
    right_single ll lc null c r al ar tall small (ground arith)
right_turn ll lc (branch x y z) c r (al, (ax, az, near', h'), near, h) ar tall small =
    elim (Bool-cases (ltb (height_of ll) y.height)) [
      | inr e ↦
          right_single ll lc (branch x y z) c r (al, (ax, az, near', h'), near, h) ar tall small e
      | inl e ↦
          let below = ltb→lt (height_of ll) y.height e in
          let (a, k) = pair_IsAvl ll lc x al ax (omega arith, omega arith) (omega arith) in
          let (a', k') = pair_IsAvl z c r az ar (omega arith, omega arith) (omega arith) in
          rw (double_right ll lc x y z c r e)
            ((a, a', (omega arith, omega arith)), omega arith, omega arith)
    ]

left_single :
    (l : Tree) (c : Cell) (gl : Tree) (gc : Cell) (gg : Tree)
    → IsAvl l
    → IsAvl (branch gl gc gg)
    → gc.height ≡ height_of l + 2
    → height_of l ≤ 122
    → ltb (height_of gg) (height_of gl) ≡ false
    → Balanced l
        (branch gl gc gg)
        (rotate_left (lean_right (tree_height (branch l c (branch gl gc gg)))))
left_single l c gl gc gg al (agl, ag, near, h) tall small e =
    let le = ltb→le (height_of gg) (height_of gl) e in
    let (a, k) = pair_IsAvl l c gl al agl (omega arith, omega arith) (omega arith) in
    rw (single_left l c gl gc gg e) ((a, ag, (omega arith, omega arith)), omega arith, omega arith)

left_turn :
    (l : Tree) (c : Cell) (gl : Tree) (gc : Cell) (gg : Tree)
    → IsAvl l
    → IsAvl (branch gl gc gg)
    → gc.height ≡ height_of l + 2
    → height_of l ≤ 122
    → Balanced l
        (branch gl gc gg)
        (rotate_left (lean_right (tree_height (branch l c (branch gl gc gg)))))
left_turn l c null gc gg al ag tall small =
    left_single l c null gc gg al ag tall small (ground arith)
left_turn l c (branch x y z) gc gg al ((ax, az, near', h'), ag, near, h) tall small =
    elim (Bool-cases (ltb (height_of gg) y.height)) [
      | inr e ↦
          left_single l c (branch x y z) gc gg al ((ax, az, near', h'), ag, near, h) tall small e
      | inl e ↦
          let below = ltb→lt (height_of gg) y.height e in
          let (a, k) = pair_IsAvl l c x al ax (omega arith, omega arith) (omega arith) in
          let (a', k') = pair_IsAvl z gc gg az ag (omega arith, omega arith) (omega arith) in
          rw (double_left l c x y z gc gg e)
            ((a, a', (omega arith, omega arith)), omega arith, omega arith)
    ]

pub balance-keeps :
    (l : Tree) (c : Cell) (r : Tree)
    → Near (height_of l) (height_of r)
    → balance (branch l c r) ≡ (tree_height (branch l c r), false)
unfolding balance
balance-keeps l c r near =
    let not_left : leb (height_of r + 2) (height_of l) ≡ false = ground (arith, near) in
    let not_right : leb (height_of l + 2) (height_of r) ≡ false = ground (arith, near) in
    rw (not_left, not_right)

balance-right :
    (l : Tree) (c : Cell) (r : Tree)
    → height_of l ≡ height_of r + 2
    → (balance (branch l c r)).0 ≡ rotate_right (lean_left (tree_height (branch l c r)))
unfolding balance
balance-right l c r tall =
    let yes_left : leb (height_of r + 2) (height_of l) ≡ true = ground (arith, tall) in rw yes_left

balance-left :
    (l : Tree) (c : Cell) (r : Tree)
    → height_of r ≡ height_of l + 2
    → (balance (branch l c r)).0 ≡ rotate_left (lean_right (tree_height (branch l c r)))
unfolding balance
balance-left l c r tall =
    let not_left : leb (height_of r + 2) (height_of l) ≡ false = ground (arith, tall) in
    let yes_right : leb (height_of l + 2) (height_of r) ≡ true = ground (arith, tall) in
    rw (not_left, yes_right)

balance-Near :
    (l : Tree) (c : Cell) (r : Tree)
    → IsAvl l
    → IsAvl r
    → Near (height_of l) (height_of r)
    → max (height_of l) (height_of r) ≤ 124
    → Balanced l r (balance (branch l c r)).0
      × (Near (height_of l) (height_of r)
          → real (balance (branch l c r)).0 ≡ max (height_of l) (height_of r) + 1)
unfolding tree_height
balance-Near l c r al ar near small =
    rw (balance-keeps l c r near) (((al, ar, near), omega arith, omega arith), λ near. refl)

-- One call of `balance`, where the subtrees are balanced and differ by two at most.
pub balance_lem :
    (l : Tree) (c : Cell) (r : Tree)
    → IsAvl l
    → IsAvl r
    → height_of l ≤ height_of r + 2
    → height_of r ≤ height_of l + 2
    → max (height_of l) (height_of r) ≤ 124
    → Balanced l r (balance (branch l c r)).0
      × (Near (height_of l) (height_of r)
          → real (balance (branch l c r)).0 ≡ max (height_of l) (height_of r) + 1)
balance_lem null c null al ar low high small =
    balance-Near null c null al ar (omega arith, omega arith) small
balance_lem (branch ll lc lg) c null al ar low high small = elim (dec_le lc.height 1) [
  | yes h ↦ balance-Near (branch ll lc lg) c null al ar (h, omega arith) small
  | no n ↦ (
    rw (balance-right (branch ll lc lg) c null (omega arith))
        (right_turn ll lc lg c null al ar (omega arith) (omega arith)),
    λ near. absurd (omega (arith, near.0)),
  )
]
balance_lem null c (branch gl gc gg) al ar low high small = elim (dec_le gc.height 1) [
  | yes h ↦ balance-Near null c (branch gl gc gg) al ar (omega arith, h) small
  | no n ↦ (
    rw (balance-left null c (branch gl gc gg) (omega arith))
        (left_turn null c gl gc gg al ar (omega arith) (omega arith)),
    λ near. absurd (omega (arith, near.1)),
  )
]
balance_lem (branch ll lc lg) c (branch gl gc gg) al ar low high small =
    elim (dec_le lc.height (gc.height + 1)) [
      | no n ↦ (
        rw (balance-right (branch ll lc lg) c (branch gl gc gg) (omega arith))
            (right_turn ll lc lg c (branch gl gc gg) al ar (omega arith) (omega arith)),
        λ near. absurd (omega (arith, near.0)),
      )
      | yes h ↦ elim (dec_le gc.height (lc.height + 1)) [
        | yes h' ↦ balance-Near (branch ll lc lg) c (branch gl gc gg) al ar (h, h') small
        | no n ↦ (
          rw (balance-left (branch ll lc lg) c (branch gl gc gg) (omega arith))
              (left_turn (branch ll lc lg) c gl gc gg al ar (omega arith) (omega arith)),
          λ near. absurd (omega (arith, near.1)),
        )
      ]
    ]
