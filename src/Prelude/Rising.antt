-- ===== src/Prelude/Rising.antt =====
-- Lists of integers that go up.
use ker_mp.Prelude.Int.{lt_ℤ, negsuc, pos, ℤ}
use mathlib.Core.Path.{◌≡◌}
use mathlib.Core.Bool.{true, false}
use mathlib.Core.List.{List, [], ◌∷◌, ◌++◌}
use native.Mathlib.Omega.{arith}

-- a ≤ b
abbrev pub Le : ℤ → ℤ → Type 0
Le a b = lt_ℤ b a ≡ false

pub Le_refl : (a : ℤ) → Le a a
Le_refl (pos a) = ground arith
Le_refl (negsuc a) = ground arith

pub Le_trans : (a b c : ℤ) → Le a b → Le b c → Le a c
Le_trans (pos a) (pos b) (pos c) h g = ground arith
Le_trans (pos a) (pos b) (negsuc c) h g = ground arith
Le_trans (pos a) (negsuc b) c h g = ground arith
Le_trans (negsuc a) (pos b) (pos c) h g = ground arith
Le_trans (negsuc a) (pos b) (negsuc c) h g = ground arith
Le_trans (negsuc a) (negsuc b) (pos c) h g = ground arith
Le_trans (negsuc a) (negsuc b) (negsuc c) h g = ground arith

pub lt_Le_trans : (a b c : ℤ) → Le a b → lt_ℤ b c ≡ true → lt_ℤ a c ≡ true
lt_Le_trans (pos a) (pos b) (pos c) h g = ground arith
lt_Le_trans (pos a) (pos b) (negsuc c) h g = ground arith
lt_Le_trans (pos a) (negsuc b) c h g = ground arith
lt_Le_trans (negsuc a) (pos b) (pos c) h g = ground arith
lt_Le_trans (negsuc a) (pos b) (negsuc c) h g = ground arith
lt_Le_trans (negsuc a) (negsuc b) (pos c) h g = ground arith
lt_Le_trans (negsuc a) (negsuc b) (negsuc c) h g = ground arith

pub Le_of_lt : (a b : ℤ) → lt_ℤ a b ≡ true → Le a b
Le_of_lt (pos a) (pos b) h = ground arith
Le_of_lt (pos a) (negsuc b) h = ground arith
Le_of_lt (negsuc a) (pos b) h = ground arith
Le_of_lt (negsuc a) (negsuc b) h = ground arith

-- `lo < x₁ < x₂ < …`, and the last of these, or `lo`, is at most `hi`.
abbrev pub Rising : ℤ → List ℤ → ℤ → Type 0
Rising lo [] hi = Le lo hi
Rising lo (x ∷ xs) hi = (lt_ℤ lo x ≡ true) × Rising x xs hi

pub Rising-Le : (lo hi : ℤ) (xs : List ℤ) → Rising lo xs hi → Le lo hi
Rising-Le lo hi [] r = r
Rising-Le lo hi (x ∷ xs) r = Le_trans lo x hi (Le_of_lt lo x r.0) (Rising-Le x hi xs r.1)

pub Rising-from : (a b c : ℤ) (xs : List ℤ) → Le a b → Rising b xs c → Rising a xs c
Rising-from a b c [] h r = Le_trans a b c h r
Rising-from a b c (x ∷ xs) h r = (lt_Le_trans a b x h r.0, r.1)

pub Rising-up : (a b c : ℤ) (xs : List ℤ) → Rising a xs b → Le b c → Rising a xs c
Rising-up a b c [] r h = Le_trans a b c r h
Rising-up a b c (x ∷ xs) r h = (r.0, Rising-up x b c xs r.1 h)

pub Rising-append :
    (a b c : ℤ) (xs ys : List ℤ) → Rising a xs b → Rising b ys c → Rising a (xs ++ ys) c
Rising-append a b c [] ys r s = Rising-from a b c ys r s
Rising-append a b c (x ∷ xs) ys r s = (r.0, Rising-append x b c xs ys r.1 s)

pub Rising-snoc :
    (a b x : ℤ) (xs : List ℤ) → Rising a xs b → lt_ℤ b x ≡ true → Rising a (xs ++ x ∷ []) x
Rising-snoc a b x xs r h = Rising-append a b x xs (x ∷ []) r (h, Le_refl x)
