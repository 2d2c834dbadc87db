-- ===== src/Dht/Closest.antt =====
-- The result of a lookup in core/dht/lookup.go, and how close to the target it is.
use bitbit.Base.{ℕ, ◌≤◌, ◌≡◌, true, false, List, [], ◌∷◌, length, mem, All}
use bitbit.Dht.Distance.{distance}
use bitbit.Dht.Lookup.{is_live, is_replied, Lookup, phase}

-- The first of two candidates is no farther from the target.
abbrev pub NoFarther : ℕ → ℕ → ℕ → Type 0
NoFarther target a b = distance a target ≤ distance b target

-- Each candidate is no farther than those after it.
abbrev pub IsSorted : ℕ → List ℕ → Type 0
IsSorted target [] = Unit
IsSorted target (x ∷ xs) = All (NoFarther target x) xs × IsSorted target xs

-- What the result of a lookup that was told of these peers is to be: at most k of them, each of which
-- has replied; and a peer that has not failed is left out only if there are k in the result, none of
-- which is farther from the target.
pub record IsClosest (l : Lookup) (peers found : List ℕ) : Type 0 where
  pub bounded : length found ≤ l.k
  pub listed : (a : ℕ) → mem a found ≡ true → mem a peers ≡ true
  pub answered : (a : ℕ) → mem a found ≡ true → is_replied (phase l.state a) ≡ true
  pub full :
      (b : ℕ)
      → mem b peers ≡ true
      → is_live (phase l.state b) ≡ true
      → mem b found ≡ false
      → length found ≡ l.k
  pub closest :
      (a b : ℕ)
      → mem a found ≡ true
      → mem b peers ≡ true
      → is_live (phase l.state b) ≡ true
      → mem b found ≡ false
      → distance a l.target ≤ distance b l.target
