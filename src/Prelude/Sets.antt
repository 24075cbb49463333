-- ===== src/Prelude/Sets.antt =====
-- Python's `set` of strings, and `in` on a list of strings, as Boolean tests over a list. The order of
-- the elements is not observed by the program except through `sorted`.
use ker_mp.Prelude.Tests.{if◌then◌else◌}
use Prim.Native.String.{String}
use mathlib.Core.Path.{◌≡◌, refl}
use mathlib.Core.Bool.{Bool, true, false, ◌&&◌, ◌||◌}
use mathlib.Core.List.{List, [], ◌∷◌}
use native.Mathlib.Omega.{arith}
use text.Mathlib.Text.{◌==◌ as text_eq}
use text.Mathlib.TextEquality.{eq_iff}
use text.Mathlib.TextPositions.{eq_refl}

-- x in s
unfoldable pub contains : String → List String → Bool
contains x [] = false
contains x (y ∷ ys) = text_eq y x || contains x ys

-- s.add(x)
unfoldable pub add : String → List String → List String
add x s = if contains x s then s else x ∷ s

-- s.discard(x)
unfoldable pub discard : String → List String → List String
discard x [] = []
discard x (y ∷ ys) = let rest = discard x ys in if text_eq y x then rest else y ∷ rest

-- set(xs)
unfoldable pub to_set : List String → List String
to_set [] = []
to_set (x ∷ xs) = add x (to_set xs)

unfoldable pub subset : List String → List String → Bool
subset [] t = true
subset (x ∷ xs) t = contains x t && subset xs t

-- s == t on sets
unfoldable pub set_eq : List String → List String → Bool
set_eq s t = subset s t && subset t s

pub contains-add :
    (x y : String) (s : List String) → contains y (add x s) ≡ (text_eq x y || contains y s)
unfolding contains add
contains-add x y [] = refl
contains-add x y (z ∷ s) = ground (arith, contains-add x y s, eq_iff x y, eq_iff z x, eq_iff z y)

pub contains-discard :
    (x y : String) (s : List String)
    → contains y (discard x s) ≡ (if text_eq x y then false else contains y s)
unfolding contains discard
contains-discard x y [] = ground arith
contains-discard x y (z ∷ s) =
    ground (arith, contains-discard x y s, eq_iff x y, eq_iff z x, eq_iff z y)

pub contains-to_set : (y : String) (xs : List String) → contains y (to_set xs) ≡ contains y xs
unfolding contains to_set
contains-to_set y [] = refl
contains-to_set y (x ∷ xs) = ground (arith, contains-add x y (to_set xs), contains-to_set y xs)

-- `Within s t`: every element of `s` is one of `t`.
abbrev pub Within : List String → List String → Type 0
Within s t = (x : String) → contains x s ≡ true → contains x t ≡ true

pub subset→Within : (s t : List String) → subset s t ≡ true → Within s t
unfolding subset contains
subset→Within [] t h x m = cc
subset→Within (y ∷ s) t h x m = ground (
  arith,
  eq_iff y x,
  λ (p : subset s t ≡ true) (q : contains x s ≡ true). subset→Within s t p x q,
)

pub Within→subset : (s t : List String) → Within s t → subset s t ≡ true
unfolding subset contains
Within→subset [] t h = refl
Within→subset (y ∷ s) t h =
    ground (arith, h y, eq_refl y, Within→subset s t (λ x m. h x (ground arith)))

pub set_eq→Within : (s t : List String) → set_eq s t ≡ true → Within s t × Within t s
unfolding set_eq
set_eq→Within s t h = (subset→Within s t (ground arith), subset→Within t s (ground arith))

pub Within→set_eq : (s t : List String) → Within s t → Within t s → set_eq s t ≡ true
unfolding set_eq
Within→set_eq s t h k = ground (arith, Within→subset s t h, Within→subset t s k)

pub Within-discard :
    (x : String) (s t : List String) → Within s t → Within (discard x s) (discard x t)
Within-discard x s t h y m = ground (arith, contains-discard x y s, contains-discard x y t, h y)

pub Within-add :
    (x : String) (s t : List String) → Within s t → contains x t ≡ true → Within (add x s) t
Within-add x s t h k y m = ground (arith, contains-add x y s, eq_iff x y, h y)
