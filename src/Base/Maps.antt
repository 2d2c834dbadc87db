-- ===== src/Base/Maps.antt =====
-- Go maps keyed by an identifier, as association lists. A `range` over the map runs in the list's
-- order; the language leaves that order open, and nothing here depends on it.
use bitbit.Base.Tests.{◌==◌, if◌then◌else◌}
use bitbit.Base.Lists.{mem}
use Prim.Native.Nat.{ℕ}
use mathlib.Core.Path.{◌≡◌, refl}
use mathlib.Core.Bool.{Bool, true, false}
use mathlib.Core.Option.{Option, none, some}
use mathlib.Core.List.{List, [], ◌∷◌}
use native.Mathlib.Omega.{arith}

abbrev pub Map {ℓ} : Type ℓ → Type ℓ
Map V = List (ℕ × V)

module _ {ℓ} {V : Type ℓ} where
  unfoldable pub lookup : ℕ → Map V → Option V
  lookup k [] = none
  lookup k ((j, v) ∷ m) = if k == j then some v else lookup k m

  -- `m[k] = v`
  unfoldable pub insert : ℕ → V → Map V → Map V
  insert k v [] = (k, v) ∷ []
  insert k v ((j, w) ∷ m) = if k == j then (k, v) ∷ m else (j, w) ∷ insert k v m

  -- `delete(m, k)`
  unfoldable pub erase : ℕ → Map V → Map V
  erase k [] = []
  erase k ((j, w) ∷ m) = let rest = erase k m in if k == j then rest else (j, w) ∷ rest

  -- `_, ok := m[k]`
  abbrev pub is_some : Option V → Bool
  is_some none = false
  is_some (some v) = true

  abbrev pub get_or : Option V → V → V
  get_or none d = d
  get_or (some v) d = v

  unfoldable pub keys : Map V → List ℕ
  keys [] = []
  keys ((j, v) ∷ m) = j ∷ keys m

  pub lookup-insert :
      (key other : ℕ) (val : V) (m : Map V)
      → lookup other (insert key val m) ≡ (if other == key then some val else lookup other m)
  unfolding insert lookup
  lookup-insert key other val ((first, held) ∷ rest) =
      ground (arith, lookup-insert key other val rest)
  lookup-insert key other val [] = refl

  pub lookup-erase :
      (k j : ℕ) (m : Map V) → lookup j (erase k m) ≡ (if j == k then none else lookup j m)
  unfolding lookup erase
  lookup-erase k j [] = ground arith
  lookup-erase k j ((i, w) ∷ m) = ground (arith, lookup-erase k j m)

  pub mem-keys : (k : ℕ) (m : Map V) → mem k (keys m) ≡ is_some (lookup k m)
  unfolding keys lookup mem
  mem-keys k [] = refl
  mem-keys k ((j, v) ∷ m) = ground (arith, mem-keys k m)

pub ruleset map_laws = (lookup-insert, lookup-erase)
