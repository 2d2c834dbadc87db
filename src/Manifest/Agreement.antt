-- ===== src/Manifest/Agreement.antt =====
-- The two Merkle trees of the repository: core/manifest/merkle.go and core/translog/translog.go.
use bitbit.Base.{
  ℕ, zero, suc, ◌-◌, ◌*◌, ◌<◌, ◌≤◌, ◌≡◌, refl, true, false, List, [], ◌∷◌, length, take, drop, leb,
  ◌==◌, arith, Bool-cases, inl, inr,
}
use bitbit.Base.Bytes.{Bytes}
use bitbit.Translog.{split_from, split, mth_from, mth, path_from, path, root}
use bitbit.Translog
use bitbit.Translog.Split.{split_largest_power, length-drop}
use bitbit.Translog.Inclusion.{length-take_le}
use bitbit.Manifest.Merkle.{
  power_from, largest_power_of_two_below, tree_hash_from, merkle_tree_hash, merkle_root,
  audit_path_from, audit_path, leaf_hash, node_hash,
}

power_from-split_from : (fuel k n : ℕ) → power_from fuel k n ≡ split_from fuel k n
unfolding power_from split_from
power_from-split_from zero k n = refl
power_from-split_from (suc fuel) k n =
    let e : k * 2 ≡ 2 * k = omega arith in rw (e, power_from-split_from fuel (2 * k) n) refl

pub same_split : (n : ℕ) → largest_power_of_two_below n ≡ split n
unfolding largest_power_of_two_below split
same_split n = power_from-split_from n 1 n

module _ (sha256 : Bytes → ℕ) where
  tree_hash_from-mth_from :
      (fuel : ℕ) (es : List ℕ) → tree_hash_from sha256 fuel es ≡ mth_from sha256 fuel es
  unfolding tree_hash_from mth_from leaf_hash Translog.leaf_hash node_hash Translog.node_hash
  tree_hash_from-mth_from fuel [] = refl
  tree_hash_from-mth_from fuel (e ∷ []) = refl
  tree_hash_from-mth_from zero (e ∷ e' ∷ es) = refl
  tree_hash_from-mth_from (suc fuel) (e ∷ e' ∷ es) =
      let entries : List ℕ = e ∷ e' ∷ es in
      let k = split (length entries) in
      rw
        (
          same_split (length entries),
          tree_hash_from-mth_from fuel (take k entries),
          tree_hash_from-mth_from fuel (drop k entries),
        )
        refl

  pub same_head : (es : List ℕ) → merkle_tree_hash sha256 es ≡ mth sha256 es
  unfolding merkle_tree_hash mth
  same_head es = tree_hash_from-mth_from (length es) es

  audit_path_from-path_from :
      (fuel m : ℕ) (es : List ℕ)
      → 1 ≤ length es
      → audit_path_from sha256 fuel m es ≡ path_from sha256 fuel m es
  unfolding audit_path_from path_from
  audit_path_from-path_from zero m es h = refl
  audit_path_from-path_from (suc fuel) m es h = elim (Bool-cases (length es == 1)) [
    | inl e ↦ let small : leb (length es) 1 ≡ true = ground (arith, e) in rw (e, small) refl
    | inr e ↦
        let big : leb (length es) 1 ≡ false = ground (arith, e, h) in
        let k = split (length es) in
        let ((i, pow), below, above) = split_largest_power (length es) (ground (arith, e, h)) in
        let left : length (take k es) ≡ k = length-take_le k es (omega (arith, below)) in
        let right = length-drop k es in
        rw
          (
            e,
            big,
            same_split (length es),
            audit_path_from-path_from fuel m (take k es) (omega (arith, left, above, h)),
            audit_path_from-path_from fuel (m - k) (drop k es) (omega (arith, right, below)),
            same_head (take k es),
            same_head (drop k es),
          )
          refl
  ]

  pub same_path : (m : ℕ) (es : List ℕ) → 1 ≤ length es → audit_path sha256 m es ≡ path sha256 m es
  unfolding audit_path path
  same_path m es h = audit_path_from-path_from (length es) m es h

-- The file tree and the transparency log agree on every list of hashes: the same root, and the same
-- audit path for every leaf.
pub trees_agree :
    (sha256 : Bytes → ℕ) (es : List ℕ)
    → (merkle_root sha256 es ≡ root sha256 es)
      × ((m : ℕ) → m < length es → audit_path sha256 m es ≡ path sha256 m es)
unfolding merkle_root root
trees_agree sha256 es = (same_head sha256 es, λ m h. same_path sha256 m es (omega (arith, h)))
