-- ===== src/Base/Strings.antt =====
-- C strings as the lists of their bytes: `strcmp` for equality, and a prefix test by `memcmp`.
use Prim.Native.Nat.{ℕ}
use mathlib.Core.Path.{◌≡◌, refl}
use mathlib.Core.Bool.{Bool, true, false, ◌&&◌}
use mathlib.Core.Option.{Option, none, some}
use mathlib.Core.Logic.{◌≢◌}
use mathlib.Core.List.{[], ◌∷◌, ◌++◌}
use native.Mathlib.Omega.{arith}
use vely.Base.Tests.{◌==◌, ==_refl, if◌then◌else◌}
use vely.Base.ByteTable.{Bytes}

-- `!strcmp (s, t)`.
unfoldable pub same_text : Bytes → Bytes → Bool
same_text [] [] = true
same_text [] (y ∷ ys) = false
same_text (x ∷ xs) [] = false
same_text (x ∷ xs) (y ∷ ys) = x == y && same_text xs ys

pub same_text_refl : (s : Bytes) → same_text s s ≡ true
unfolding same_text
same_text_refl [] = refl
same_text_refl (x ∷ s) = ground (arith, same_text_refl s)

pub same_text→eq : (s t : Bytes) → same_text s t ≡ true → s ≡ t
unfolding same_text
same_text→eq [] [] h = refl
same_text→eq [] (y ∷ t) h = cc
same_text→eq (x ∷ s) [] h = cc
same_text→eq (x ∷ s) (y ∷ t) h = ground (arith, same_text→eq s t)

pub eq→same_text : (s t : Bytes) → s ≡ t → same_text s t ≡ true
eq→same_text s t e = rw e (same_text_refl t)

-- What follows the prefix `p` in `s`.
unfoldable pub strip : Bytes → Bytes → Option Bytes
strip [] s = some s
strip (x ∷ p) [] = none
strip (x ∷ p) (y ∷ s) = if x == y then strip p s else none

pub strip-append : (p s : Bytes) → strip p (p ++ s) ≡ some s
unfolding strip
strip-append [] s = refl
strip-append (x ∷ p) s = ground (arith, strip-append p s)

pub strip_sound : (p s r : Bytes) → strip p s ≡ some r → s ≡ p ++ r
unfolding strip
strip_sound [] s r h = ground arith
strip_sound (x ∷ p) [] r h = cc
strip_sound (x ∷ p) (y ∷ s) r h = ground (arith, strip_sound p s r)

pub strip-strip : (p q s r : Bytes) → strip p s ≡ some r → strip (p ++ q) s ≡ strip q r
unfolding strip
strip-strip [] q s r h = ground arith
strip-strip (x ∷ p) q [] r h = cc
strip-strip (x ∷ p) q (y ∷ s) r h = ground (arith, strip-strip p q s r)

pub strip-none : (p q s : Bytes) → strip p s ≡ none → strip (p ++ q) s ≡ none
unfolding strip
strip-none [] q s h = cc
strip-none (x ∷ p) q [] h = refl
strip-none (x ∷ p) q (y ∷ s) h = ground (arith, strip-none p q s)

-- A text that goes on is another text.
pub same_text-append : (s : Bytes) (x : ℕ) (t : Bytes) → same_text s (s ++ x ∷ t) ≡ false
unfolding same_text
same_text-append [] x t = refl
same_text-append (y ∷ s) x t = rw (==_refl y) (same_text-append s x t)

pub same_text_comm : (s t : Bytes) → same_text s t ≡ same_text t s
unfolding same_text
same_text_comm [] [] = refl
same_text_comm [] (y ∷ t) = refl
same_text_comm (x ∷ s) [] = refl
same_text_comm (x ∷ s) (y ∷ t) = ground (arith, same_text_comm s t)

pub same_text_ne : (s t : Bytes) → same_text s t ≡ false → t ≢ s
same_text_ne s t h e = cc (same_text_refl s)
