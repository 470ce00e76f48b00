-- ===== src/Tree/Size.antt =====
-- How tall a balanced tree of so many nodes can be: the seven bits of a height are enough.
use native.Mathlib.Nat.{pow-suc}
use vely.Base.{ℕ, zero, suc, ◌+◌, ◌*◌, ◌^◌, ◌≤◌, ◌<◌, ◌≡◌, refl, arith, dec_le}
use vely.Tree.{Tree, null, branch, height_of}
use vely.Tree.Heights.{IsAvl, IsAlmost, real}

abbrev pub size : Tree → ℕ
size null = 0
size (branch l c r) = size l + size r + 1

pub tall-size : (k : ℕ) (t : Tree) → IsAvl t → k * 2 ≤ height_of t → 2 ^ k ≤ size t + 1
tall-size zero t a h = let one : 2 ^ 0 ≡ 1 = refl in omega arith
tall-size (suc k) null a h = absurd (omega arith)
tall-size (suc k) (branch l c r) (al, ar, near, e) h =
    let below = tall-size k l al (omega arith) in
    let above = tall-size k r ar (omega arith) in
    let twice : 2 ^ (suc k) ≡ 2 ^ k * 2 = pow-suc 2 k in omega arith

-- A balanced tree of less than 2 ^ 61 nodes is at most 121 tall.
pub height-le : (t : Tree) → IsAvl t → size t + 1 < 2 ^ 61 → height_of t ≤ 121
height-le t a small = elim (dec_le (height_of t) 121) [
  | yes h ↦ h
  | no n ↦ let many = tall-size 61 t a (omega arith) in absurd (omega arith)
]

pub real-le : (t : Tree) → IsAlmost t → size t + 1 < 2 ^ 61 → real t ≤ 122
real-le null a small = omega arith
real-le (branch l c r) (al, ar, near) small =
    let below = height-le l al (omega arith) in
    let above = height-le r ar (omega arith) in omega arith
