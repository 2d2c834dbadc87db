-- ===== src/Base/Pigeonhole.antt =====
-- Sets of identifiers within one list, and how many they share.
use Prim.Native.Nat.{ℕ, ◌+◌, ◌≤◌, ◌<◌}
use mathlib.Core.Path.{◌≡◌, refl, sym, subst}
use mathlib.Core.Logic.{inl, inr}
use mathlib.Core.Bool.{true, false, false≢true}
use mathlib.Core.List.{List, [], ◌∷◌, ◌++◌}
use native.Mathlib.Omega.{arith}
use bitbit.Base.Tests.{◌==◌, if◌then◌else◌, Bool-cases, ==_iff}
use bitbit.Base.Lists.{mem, length, All, Distinct, length-append, mem-append, All-append}
use bitbit.Base.Sets.{remove, mem-remove}

abbrev pub IsWithin : List ℕ → List ℕ → Type 0
IsWithin u = All (λ a. mem a u ≡ true)

-- The members of `xs` that stand in `ys`, and the others.
unfoldable pub common : List ℕ → List ℕ → List ℕ
common [] ys = []
common (x ∷ xs) ys = let rest = common xs ys in if mem x ys then x ∷ rest else rest

others : List ℕ → List ℕ → List ℕ
others [] ys = []
others (x ∷ xs) ys = let rest = others xs ys in if mem x ys then rest else x ∷ rest

length-common-others : (xs ys : List ℕ) → length (common xs ys) + length (others xs ys) ≡ length xs
unfolding common others
length-common-others [] ys = refl
length-common-others (x ∷ xs) ys = ground (arith, length-common-others xs ys)

length-remove-le : (a : ℕ) (u : List ℕ) → length (remove a u) ≤ length u
unfolding remove
length-remove-le a [] = omega arith
length-remove-le a (x ∷ u) = ground (arith, length-remove-le a u)

length-remove-lt : (a : ℕ) (u : List ℕ) → mem a u ≡ true → length (remove a u) < length u
unfolding remove mem
length-remove-lt a [] h = cc
length-remove-lt a (x ∷ u) h = ground (arith, length-remove-lt a u, length-remove-le a u)

IsWithin-remove :
    (x : ℕ) (xs u : List ℕ) → mem x xs ≡ false → IsWithin u xs → IsWithin (remove x u) xs
unfolding mem
IsWithin-remove x [] u h w = tt
IsWithin-remove x (y ∷ xs) u h w = ground (arith, mem-remove x y u, IsWithin-remove x xs u)

pub length-le-of_within : (xs u : List ℕ) → Distinct xs → IsWithin u xs → length xs ≤ length u
length-le-of_within [] u d w = omega arith
length-le-of_within (x ∷ xs) u d w =
    let smaller = length-le-of_within xs (remove x u) d.1 (IsWithin-remove x xs u d.0 w.1) in
    omega (arith, smaller, length-remove-lt x u w.0)

mem-others : (a : ℕ) (xs ys : List ℕ) → mem a xs ≡ false → mem a (others xs ys) ≡ false
unfolding others mem
mem-others a [] ys h = refl
mem-others a (x ∷ xs) ys h = ground (arith, mem-others a xs ys)

Distinct-others-append :
    (xs ys : List ℕ) → Distinct xs → Distinct ys → Distinct (others xs ys ++ ys)
unfolding others
Distinct-others-append [] ys d e = e
Distinct-others-append (x ∷ xs) ys d e = ground (
  arith,
  Distinct-others-append xs ys d.1 e,
  mem-append x (others xs ys) ys,
  mem-others x xs ys d.0,
)

IsWithin-others : (xs ys u : List ℕ) → IsWithin u xs → IsWithin u (others xs ys)
unfolding others
IsWithin-others [] ys u w = tt
IsWithin-others (x ∷ xs) ys u w = ground (arith, IsWithin-others xs ys u w.1)

pub common-length :
    (xs ys u : List ℕ)
    → Distinct xs
    → Distinct ys
    → IsWithin u xs
    → IsWithin u ys
    → length xs + length ys ≤ length u + length (common xs ys)
common-length xs ys u dx dy wx wy = omega (
  arith,
  length-le-of_within (others xs ys ++ ys) u (Distinct-others-append xs ys dx dy)
      (All-append _ (others xs ys) ys (IsWithin-others xs ys u wx) wy),
  length-append {0} (others xs ys) ys,
  length-common-others xs ys,
)

pub All-common : (P : ℕ → Type 0) (xs ys : List ℕ) → All P xs → All P (common xs ys)
unfolding common
All-common P [] ys h = tt
All-common P (x ∷ xs) ys h = elim (Bool-cases (mem x ys)) [
  | inl e ↦ rw e (h.0, All-common P xs ys h.1)
  | inr e ↦ rw e (All-common P xs ys h.1)
]

pub mem-common : (xs ys : List ℕ) → All (λ a. mem a ys ≡ true) (common xs ys)
unfolding common
mem-common [] ys = tt
mem-common (x ∷ xs) ys = elim (Bool-cases (mem x ys)) [
  | inl e ↦ rw e (e, mem-common xs ys)
  | inr e ↦ rw e (mem-common xs ys)
]

pub All-mem : (P : ℕ → Type 0) (a : ℕ) (ys : List ℕ) → All P ys → mem a ys ≡ true → P a
unfolding mem
All-mem P a [] h m = absurd (false≢true m)
All-mem P a (y ∷ ys) h m = elim (Bool-cases (a == y)) [
  | inl e ↦ subst P (sym ((==_iff a y).0 e)) h.0
  | inr e ↦ All-mem P a ys h.1 (rw e at m)
]

not-mem-common : (a : ℕ) (xs ys : List ℕ) → mem a xs ≡ false → mem a (common xs ys) ≡ false
unfolding common mem
not-mem-common a [] ys h = refl
not-mem-common a (x ∷ xs) ys h = ground (arith, not-mem-common a xs ys)

pub Distinct-common : (xs ys : List ℕ) → Distinct xs → Distinct (common xs ys)
unfolding common
Distinct-common [] ys d = tt
Distinct-common (x ∷ xs) ys d =
    ground (arith, Distinct-common xs ys d.1, not-mem-common x xs ys d.0)
