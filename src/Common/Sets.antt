-- ===== src/Common/Sets.antt =====
-- Python's sets of texts: a set is the list of its members in the order of iteration.
use Prim.Native.Nat.{◌<◌, ◌≤◌}
use Prim.Native.String.{String, compare, ◌++◌ as concat}
use mathlib.Core.Path.{◌≡◌, refl}
use mathlib.Core.Bool.{Bool, true, false, not, ◌&&◌, ◌||◌}
use mathlib.Core.List.{List, [], ◌∷◌, ◌++◌}
use native.Mathlib.Omega.{arith}
use text.Mathlib.Text.{◌==◌, is_lt}
use text.Mathlib.TextEquality.{eq_iff}
use brainless_agent.Common.Tests.{if◌then◌else◌}
use brainless_agent.Common.Lists.{is_empty, length}

-- `x in xs`
unfoldable pub contains : String → List String → Bool
contains x [] = false
contains x (y ∷ ys) = (x == y) || contains x ys

-- `xs.add(x)`
unfoldable pub add : String → List String → List String
unfolding contains
add x xs = if contains x xs then xs else xs ++ x ∷ []

-- `xs.discard(x)`
unfoldable pub discard : String → List String → List String
discard x [] = []
discard x (y ∷ ys) = if x == y then discard x ys else y ∷ discard x ys

-- `xs.issubset(ys)`
unfoldable pub subset : List String → List String → Bool
subset [] ys = true
subset (x ∷ xs) ys = contains x ys && subset xs ys

-- `xs - ys`
unfoldable pub difference : List String → List String → List String
unfolding contains
difference [] ys = []
difference (x ∷ xs) ys = if contains x ys then difference xs ys else x ∷ difference xs ys

-- `xs & ys` is empty
unfoldable pub disjoint : List String → List String → Bool
disjoint [] ys = true
disjoint (x ∷ xs) ys = not (contains x ys) && disjoint xs ys

-- `sorted(x ∷ xs)[0]`
unfoldable pub least : String → List String → String
least x [] = x
least x (y ∷ ys) = if is_lt (compare y x) then least y ys else least x ys

insert_sorted : String → List String → List String
insert_sorted x [] = x ∷ []
insert_sorted x (y ∷ ys) = if is_lt (compare y x) then y ∷ insert_sorted x ys else x ∷ y ∷ ys

-- `sorted(xs)`
unfoldable pub sorted : List String → List String
unfolding insert_sorted
sorted [] = []
sorted (x ∷ xs) = insert_sorted x (sorted xs)

-- `set(xs)`
unfoldable pub to_set : List String → List String
unfolding contains
to_set [] = []
to_set (x ∷ xs) = let rest = to_set xs in if contains x rest then rest else x ∷ rest

-- `separator.join(xs)`
unfoldable pub join : String → List String → String
join separator [] = ""
join separator (x ∷ []) = x
join separator (x ∷ y ∷ r) = concat x (concat separator (join separator (y ∷ r)))

pub contains-append :
    (x : String) (xs ys : List String) → contains x (xs ++ ys) ≡ (contains x xs || contains x ys)
unfolding contains
contains-append x [] ys = refl
contains-append x (y ∷ xs) ys = ground (arith, contains-append x xs ys)

pub contains-add :
    (x y : String) (xs : List String) → contains y (add x xs) ≡ ((y == x) || contains y xs)
unfolding add
contains-add x y xs = ground (arith, contains-append y xs (x ∷ []), eq_iff y x)

pub contains-discard :
    (x y : String) (xs : List String) → contains y (discard x xs) ≡ (not (x == y) && contains y xs)
unfolding contains discard
contains-discard x y [] = ground arith
contains-discard x y (z ∷ zs) =
    ground (arith, contains-discard x y zs, eq_iff x z, eq_iff x y, eq_iff y z)

pub subset-contains :
    (x : String) (xs ys : List String)
    → subset xs ys ≡ true
    → contains x xs ≡ true
    → contains x ys ≡ true
unfolding contains subset
subset-contains x [] ys h k = absurd (false-true k)
  where
    false-true : ◌≡◌ {A = Bool} false true → ⊥
    false-true e = cc
subset-contains x (y ∷ xs) ys h k = ground (arith, subset-contains x xs ys, eq_iff x y)

-- An empty difference is an inclusion.
pub difference-subset : (xs ys : List String) → is_empty (difference xs ys) ≡ subset xs ys
unfolding difference subset
difference-subset [] ys = refl
difference-subset (x ∷ xs) ys = ground (arith, difference-subset xs ys)

pub disjoint-contains :
    (x : String) (xs ys : List String)
    → disjoint xs ys ≡ true
    → contains x xs ≡ true
    → contains x ys ≡ false
unfolding contains disjoint
disjoint-contains x [] ys h k = ground arith
disjoint-contains x (y ∷ xs) ys h k = ground (arith, disjoint-contains x xs ys, eq_iff x y)

-- One more member of the second set leaves less of the first, if it was there.
length-difference_le :
    (x : String) (xs ys : List String) → length (difference xs (x ∷ ys)) ≤ length (difference xs ys)
unfolding difference
length-difference_le x [] ys = omega arith
length-difference_le x (y ∷ xs) ys = ground (arith, length-difference_le x xs ys)

pub length-difference_lt :
    (x : String) (xs ys : List String)
    → contains x xs ≡ true
    → contains x ys ≡ false
    → length (difference xs (x ∷ ys)) < length (difference xs ys)
unfolding difference
length-difference_lt x [] ys h k = ground (arith, h)
length-difference_lt x (y ∷ xs) ys h k = ground (
  arith,
  h,
  k,
  eq_iff x y,
  eq_iff y x,
  length-difference_le x xs ys,
  length-difference_lt x xs ys,
)

pub difference-empty : (xs : List String) → difference xs [] ≡ xs
unfolding difference
difference-empty [] = refl
difference-empty (x ∷ xs) = ground (arith, difference-empty xs)
