-- ===== src/Manifest/Proofs.antt =====
-- The inclusion proofs that core/manifest/merkle.go makes, against its verifier.
use bitbit.Base.{
  ℕ, zero, suc, ◌+◌, ◌-◌, ◌<◌, ◌≤◌, ◌≡◌, refl, ap, ◌∙◌, subst, true, false, some, List, [], ◌∷◌,
  ◌++◌, length, get_elem?, take, drop, ltb, leb, ◌==◌, ==_refl, if◌then◌else◌, arith, Bool-cases,
  inl, inr,
}
use bitbit.Base.Bytes.{Bytes}
use bitbit.Translog
use bitbit.Translog.{split, mth, path}
use bitbit.Translog.Split.{mth_halves, split_largest_power, length-drop}
use bitbit.Translog.Paths.{path_halves}
use bitbit.Translog.Inclusion.{length-take_le, get_elem?-take, get_elem?-drop}
use bitbit.Manifest.Merkle.{
  Proof, unsnoc, largest_power_of_two_below, merkle_tree_hash, tree_hash_from, merkle_root,
  audit_path, audit_path_from, prove, root_from_path, verify_proof, leaf_hash, node_hash,
}
use bitbit.Manifest.Agreement.{same_split, same_head, same_path}

pub unsnoc-snoc : (xs : List ℕ) (x : ℕ) → unsnoc (xs ++ x ∷ []) ≡ some (xs, x)
unfolding unsnoc
unsnoc-snoc [] x = refl
unsnoc-snoc (y ∷ xs) x = rw (unsnoc-snoc xs x) refl

module _ (sha256 : Bytes → ℕ) where
  pub single_leaf :
      (m leaf : ℕ) (es : List ℕ)
      → length es ≡ 1
      → m < length es
      → get_elem? es m ≡ some leaf
      → (audit_path sha256 m es ≡ []) × (merkle_tree_hash sha256 es ≡ leaf_hash sha256 leaf)
  unfolding audit_path audit_path_from merkle_tree_hash tree_hash_from
  single_leaf m leaf [] h l g = absurd (omega (arith, h))
  single_leaf zero leaf (e ∷ []) h l g =
      let same : e ≡ leaf = cc in (refl, ap (leaf_hash sha256) same)
  single_leaf (suc m) leaf (e ∷ []) h l g = absurd (omega (arith, l))
  single_leaf m leaf (e ∷ e' ∷ es) h l g = absurd (omega (arith, h))

  same_node : (a b : ℕ) → Translog.node_hash sha256 a b ≡ node_hash sha256 a b
  unfolding Translog.node_hash node_hash
  same_node a b = refl

  -- The halves of a tree of two leaves or more, in the words of this file.
  pub tree_halves :
      (es : List ℕ)
      → 2 ≤ length es
      → let k = largest_power_of_two_below (length es) in
        merkle_tree_hash sha256 es
        ≡ node_hash sha256
            (merkle_tree_hash sha256 (take k es))
            (merkle_tree_hash sha256 (drop k es))
  tree_halves es h =
      let k = split (length es) in
      rw
        (
          same_split (length es),
          same_head sha256 es,
          same_head sha256 (take k es),
          same_head sha256 (drop k es),
        )
        (mth_halves sha256 es h ∙ same_node (mth sha256 (take k es)) (mth sha256 (drop k es)))

  path_parts :
      (m : ℕ) (es : List ℕ)
      → 2 ≤ length es
      → let k = largest_power_of_two_below (length es) in
        audit_path sha256 m es ≡ (
          if ltb m k
          then audit_path sha256 m (take k es) ++ merkle_tree_hash sha256 (drop k es) ∷ []
          else audit_path sha256 (m - k) (drop k es) ++ merkle_tree_hash sha256 (take k es) ∷ [])
  path_parts m es h =
      let k = split (length es) in
      let ((i, pow), below, above) = split_largest_power (length es) h in
      let left : length (take k es) ≡ k = length-take_le k es (omega (arith, below)) in
      let right = length-drop k es in
      rw
        (
          same_split (length es),
          same_path sha256 m es (omega (arith, h)),
          same_path sha256 m (take k es) (omega (arith, left, above, h)),
          same_path sha256 (m - k) (drop k es) (omega (arith, right, below)),
          same_head sha256 (take k es),
          same_head sha256 (drop k es),
        )
        (path_halves sha256 m es h)

  path_proves :
      (fuel m leaf : ℕ) (es : List ℕ)
      → length es ≤ fuel
      → m < length es
      → get_elem? es m ≡ some leaf
      → root_from_path sha256 fuel m (length es) (leaf_hash sha256 leaf) (audit_path sha256 m es)
        ≡ some (merkle_tree_hash sha256 es)
  unfolding root_from_path
  path_proves zero m leaf es len hm g = absurd (omega (arith, len, hm))
  path_proves (suc fuel) m leaf es len hm g = elim (Bool-cases (length es == 1)) [
    | inl e ↦
        let (no_path, head) = single_leaf m leaf es (ground (arith, e)) hm g in
        rw (e, no_path, head) refl
    | inr e ↦
        let two : 2 ≤ length es = ground (arith, e, hm) in
        let k = largest_power_of_two_below (length es) in
        let ((i, pow), below', above') = split_largest_power (length es) two in
        let below : k < length es = omega (arith, same_split (length es), below') in
        let left : length (take k es) ≡ k = length-take_le k es (omega (arith, below)) in
        let right : length (drop k es) ≡ length es - k = length-drop k es in
        elim (Bool-cases (ltb m k)) [
          | inl l ↦
              let lm : m < k = ground (arith, l) in
              let inside =
                path_proves fuel m leaf (take k es) (omega (arith, left, below, len))
                  (omega (arith, left, lm)) (get_elem?-take k m es lm ∙ g) in
              let at_k =
                subst
                  (λ z.
                    root_from_path sha256 fuel m z (leaf_hash sha256 leaf)
                      (audit_path sha256 m (take k es))
                    ≡ some (merkle_tree_hash sha256 (take k es)))
                  left inside in
              let shape : audit_path sha256 m es
                  ≡ audit_path sha256 m (take k es) ++ merkle_tree_hash sha256 (drop k es) ∷ [] =
                path_parts m es two ∙ rw l refl in
              rw
                (
                  e,
                  shape,
                  unsnoc-snoc (audit_path sha256 m (take k es))
                      (merkle_tree_hash sha256 (drop k es)),
                  l,
                  at_k,
                  tree_halves es two,
                )
                refl
          | inr l ↦
              let lm : k ≤ m = ground (arith, l) in
              let pos_k : 0 < k = omega (arith, same_split (length es), above', two) in
              let back : k + (m - k) ≡ m = omega (arith, lm) in
              let inside =
                path_proves fuel (m - k) leaf (drop k es) (omega (arith, right, pos_k, len, two))
                  (omega (arith, right, lm, hm))
                  (get_elem?-drop k (m - k) es ∙ ap (λ z. get_elem? es z) back ∙ g) in
              let at_k =
                subst
                  (λ z.
                    root_from_path sha256 fuel (m - k) z (leaf_hash sha256 leaf)
                      (audit_path sha256 (m - k) (drop k es))
                    ≡ some (merkle_tree_hash sha256 (drop k es)))
                  right inside in
              let shape : audit_path sha256 m es
                  ≡ audit_path sha256 (m - k) (drop k es)
                    ++ merkle_tree_hash sha256 (take k es) ∷ [] =
                path_parts m es two ∙ rw l refl in
              rw
                (
                  e,
                  shape,
                  unsnoc-snoc (audit_path sha256 (m - k) (drop k es))
                      (merkle_tree_hash sha256 (take k es)),
                  l,
                  at_k,
                  tree_halves es two,
                )
                refl
        ]
  ]

  -- Every proof that `Prove` builds verifies against the root, for the leaf at its index.
  pub prove_round_trip :
      (leaves : List ℕ) (index leaf : ℕ) (p : Proof)
      → prove sha256 leaves index ≡ some p
      → get_elem? leaves index ≡ some leaf
      → verify_proof sha256 (merkle_root sha256 leaves) leaf p ≡ true
  unfolding prove verify_proof merkle_root
  prove_round_trip leaves index leaf p made here =
      let inside : index < length leaves = ground (arith, made) in
      let shape : record {
        index = index;
        total = length leaves;
        path = audit_path sha256 index leaves;
      }
          ≡ p =
        ground (arith, made) in
      let range : leb (length leaves) index ≡ false = ground (arith, inside) in
      let proved = path_proves (length leaves) index leaf leaves (omega arith) inside here in
      subst (λ (q : Proof). verify_proof sha256 (merkle_root sha256 leaves) leaf q ≡ true) shape
        (rw (range, proved, ==_refl (merkle_tree_hash sha256 leaves)) refl)
