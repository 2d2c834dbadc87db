-- ===== src/Manifest/Merkle.antt =====
-- The Merkle tree of a file's chunks in core/manifest/merkle.go. SHA-256 is a parameter. An index or a
-- size is a number: the source's refusals of a negative one have no counterpart. The recursions
-- run on fuel, the number of leaves.
use bitbit.Base.{
  ℕ, zero, suc, ◌-◌, ◌*◌, Bool, false, Option, none, some, List, [], ◌∷◌, ◌++◌, length, take, ltb,
  leb, ◌==◌, if◌then◌else◌,
}
use bitbit.Base.Bytes.{Bytes}
use bitbit.Base.{drop}
use bitbit.Chain.State.{hash_bytes}

unfoldable pub power_from : ℕ → ℕ → ℕ → ℕ
power_from zero k n = k
power_from (suc fuel) k n =
    let more = power_from fuel (k * 2) n in if ltb (k * 2) n then more else k

unfoldable pub largest_power_of_two_below : ℕ → ℕ
unfolding power_from
largest_power_of_two_below n = power_from n 1 n

pub record Proof : Type 0 where
  pub index : ℕ
  pub total : ℕ
  pub path : List ℕ

-- The last element of a slice, and those before it.
unfoldable pub unsnoc : List ℕ → Option (List ℕ × ℕ)
unsnoc [] = none
unsnoc (x ∷ xs) = elim (unsnoc xs) [
  | none ↦ some ([], x)
  | some (front, last) ↦ some (x ∷ front, last)
]

module _ (sha256 : Bytes → ℕ) where
  unfoldable pub leaf_hash : ℕ → ℕ
  leaf_hash leaf = sha256 (0 ∷ hash_bytes leaf)

  unfoldable pub node_hash : ℕ → ℕ → ℕ
  node_hash left right = sha256 (1 ∷ (hash_bytes left ++ hash_bytes right))

  unfoldable pub tree_hash_from : ℕ → List ℕ → ℕ
  tree_hash_from fuel [] = sha256 []
  tree_hash_from fuel (leaf ∷ []) = leaf_hash leaf
  tree_hash_from zero (leaf ∷ next ∷ more) = 0
  tree_hash_from (suc fuel) (leaf ∷ next ∷ more) =
      let leaves = leaf ∷ next ∷ more in
      let k = largest_power_of_two_below (length leaves) in
      node_hash (tree_hash_from fuel (take k leaves)) (tree_hash_from fuel (drop k leaves))

  unfoldable pub merkle_tree_hash : List ℕ → ℕ
  merkle_tree_hash leaves = tree_hash_from (length leaves) leaves

  unfoldable pub merkle_root : List ℕ → ℕ
  merkle_root leaves = merkle_tree_hash leaves

  -- Only called on a tree that has the leaf.
  unfoldable pub audit_path_from : ℕ → ℕ → List ℕ → List ℕ
  audit_path_from zero m leaves = []
  audit_path_from (suc fuel) m leaves =
      let k = largest_power_of_two_below (length leaves) in
      let left = audit_path_from fuel m (take k leaves) in
      let right = audit_path_from fuel (m - k) (drop k leaves) in
      if length leaves == 1
      then []
      else if ltb m k
      then left ++ merkle_tree_hash (drop k leaves) ∷ []
      else right ++ merkle_tree_hash (take k leaves) ∷ []

  unfoldable pub audit_path : ℕ → List ℕ → List ℕ
  audit_path m leaves = audit_path_from (length leaves) m leaves

  unfoldable pub prove : List ℕ → ℕ → Option Proof
  prove leaves index =
      if leb (length leaves) index
      then none
      else some (record { index = index; total = length leaves; path = audit_path index leaves })

  -- The recursion is on the tree's size, which shrinks; `none` is an error.
  unfoldable pub root_from_path : ℕ → ℕ → ℕ → ℕ → List ℕ → Option ℕ
  root_from_path zero m n cur path = none
  root_from_path (suc fuel) m n cur path =
      if n == 1 then elim path [ [] ↦ some cur | _ ∷ _ ↦ none ] else elim (unsnoc path) [
        | none ↦ none
        | some (rest, sibling) ↦
            let k = largest_power_of_two_below n in
            let left = root_from_path fuel m k cur rest in
            let right = root_from_path fuel (m - k) (n - k) cur rest in
            if ltb m k
            then elim left [ none ↦ none | some x ↦ some (node_hash x sibling) ]
            else elim right [ none ↦ none | some x ↦ some (node_hash sibling x) ]
      ]

  abbrev is_root : ℕ → Option ℕ → Bool
  is_root root none = false
  is_root root (some got) = got == root

  unfoldable pub verify_proof : ℕ → ℕ → Proof → Bool
  unfolding root_from_path
  verify_proof root leaf p =
      if leb p.total p.index
      then false
      else is_root root (root_from_path p.total p.index p.total (leaf_hash leaf) p.path)
