-- ===== src/Base/Sets.antt =====
-- Go's `map[T]bool` used as a set of identifiers: a list with no repetition.
use Prim.Native.Nat.{ℕ}
use mathlib.Core.Path.{◌≡◌}
use mathlib.Core.Bool.{true, false}
use mathlib.Core.List.{List, [], ◌∷◌, ◌++◌}
use native.Mathlib.Omega.{arith}
use bitbit.Base.Tests.{◌==◌, if◌then◌else◌}
use bitbit.Base.Lists.{mem, mem-append, Distinct, Distinct-snoc}

-- `s[a] = true`
unfoldable pub add : ℕ → List ℕ → List ℕ
add a s = if mem a s then s else s ++ a ∷ []

-- `delete(s, a)`
unfoldable pub remove : ℕ → List ℕ → List ℕ
remove a [] = []
remove a (x ∷ s) = let rest = remove a s in if a == x then rest else x ∷ rest

pub mem-add : (a j : ℕ) (s : List ℕ) → mem j (add a s) ≡ (if j == a then true else mem j s)
unfolding add mem
mem-add a j s = ground (arith, mem-append j s (a ∷ []))

pub mem-remove : (a j : ℕ) (s : List ℕ) → mem j (remove a s) ≡ (if j == a then false else mem j s)
unfolding remove mem
mem-remove a j [] = ground arith
mem-remove a j (x ∷ s) = ground (arith, mem-remove a j s)

pub add-Distinct : (a : ℕ) (s : List ℕ) → Distinct s → Distinct (add a s)
unfolding add
add-Distinct a s d = ground (arith, Distinct-snoc s a d)
