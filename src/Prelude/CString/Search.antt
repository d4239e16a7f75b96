-- ===== src/Prelude/CString/Search.antt =====
-- What is behind the last of a character.
use Prim.Native.Nat.{ℕ}
use mathlib.Core.Path.{◌≡◌, refl, ap}
use mathlib.Core.Bool.{false}
use mathlib.Core.List.{[], ◌∷◌, ◌++◌}
use mathlib.Core.Option.{Option, none, some}
use native.Mathlib.Omega.{arith}
use mapper_framework_c.Prelude.Tests.{◌==◌, if_holds, if◌then◌else◌}
use mapper_framework_c.Prelude.Lists.{any}
use mapper_framework_c.Prelude.CString.{Str, after_last}

after_last-none : (c : ℕ) (s : Str) → any (λ x. x == c) s ≡ false → after_last c s ≡ none
unfolding after_last
after_last-none c [] h = refl
after_last-none c (x ∷ s) h = ground (arith, after_last-none c s)

pub after_last-append :
    (c : ℕ) (s t : Str) → any (λ x. x == c) t ≡ false → after_last c (s ++ c ∷ t) ≡ some t
unfolding after_last
after_last-append c [] t h = rw (after_last-none c t h) (ground arith)
after_last-append c (x ∷ s) t h = rw (after_last-append c s t h) refl

-- Where the last `c` of a text is, and what stands behind it.
pub data LastOf (c : ℕ) (s : Str) : Option Str → Type 0 where
  behind : (front t : Str) → s ≡ front ++ c ∷ t → any (λ x. x == c) t ≡ false → LastOf c s (some t)
  absent : any (λ x. x == c) s ≡ false → LastOf c s none

pub after_last-LastOf : (c : ℕ) (s : Str) → LastOf c s (after_last c s)
unfolding after_last
after_last-LastOf c [] = absent refl
after_last-LastOf c (x ∷ s) = later (after_last c s) (after_last-LastOf c s)
  where
    later :
        (o : Option Str)
        → LastOf c s o
        → LastOf c (x ∷ s) (elim o [ some t ↦ some t | none ↦ if x == c then some s else none ])
    later (some u) (behind front t e n) = behind (x ∷ front) t (ap (λ l. x ∷ l) e) n
    later none (absent n) =
        if_holds (LastOf c (x ∷ s)) (x == c) (λ y. behind [] s (ap (λ z. z ∷ s) (ground arith)) n)
          (λ z. absent (rw z n))
