-- ===== src/Manifest/Binding.antt =====
-- What a verified inclusion proof of core/manifest/merkle.go says of the leaves.
use bitbit.Base.{
  ℕ, zero, suc, ◌+◌, ◌-◌, ◌<◌, ◌≤◌, ◌≡◌, ◌≢◌, ◌⊎◌, refl, sym, ap, ◌∙◌, subst, true, false, none,
  some, List, [], ◌∷◌, length, get_elem?, take, drop, All, ltb, ◌==◌, arith, Bool-cases,
  Option-cases, inl, inr,
}
use bitbit.Base.Bytes.{Bytes}
use bitbit.Translog.Split.{split_largest_power, length-drop}
use bitbit.Translog.Inclusion.{length-take_le, get_elem?-take, get_elem?-drop}
use bitbit.Manifest.Merkle.{
  Proof, unsnoc, largest_power_of_two_below, merkle_tree_hash, tree_hash_from, merkle_root,
  root_from_path, verify_proof, leaf_hash, node_hash,
}
use bitbit.Manifest.Collision.{
  IsHash, leaf_input, node_input, Builds, in_left, in_right, Checks, from_start, on_left, on_right,
  under_left, under_right, Collision, same_input, leaf_input-injective, node_input-injective,
}
use bitbit.Manifest.Agreement.{same_split}
use bitbit.Manifest.Proofs.{tree_halves, single_leaf}

All-take : (k : ℕ) (es : List ℕ) → All IsHash es → All IsHash (take k es)
All-take zero es h = tt
All-take (suc k) [] h = tt
All-take (suc k) (e ∷ es) h = (h.0, All-take k es h.1)

All-drop : (k : ℕ) (es : List ℕ) → All IsHash es → All IsHash (drop k es)
unfolding drop
All-drop zero es h = h
All-drop (suc k) [] h = tt
All-drop (suc k) (e ∷ es) h = All-drop k es h.1

element :
    (es : List ℕ) (m : ℕ)
    → m < length es
    → All IsHash es
    → (e : ℕ) × (get_elem? es m ≡ some e) × IsHash e
element [] m l h = absurd (omega (arith, l))
element (e ∷ es) zero l h = (e, refl, h.0)
element (e ∷ es) (suc m) l h = element es m (omega (arith, l)) h.1

unsnoc-All :
    (P : ℕ → Type 0) (xs front : List ℕ) (last : ℕ)
    → unsnoc xs ≡ some (front, last)
    → All P xs
    → All P front × P last
unfolding unsnoc
unsnoc-All P [] front last h w = absurd (cc)
unsnoc-All P (x ∷ xs) front last h w = elim (Option-cases (unsnoc xs)) [
  | inl e ↦
      let eq : some ([], x) ≡ some (front, last) = sym (rw e refl) ∙ h in
      let no_front : [] ≡ front = cc in
      let final : x ≡ last = cc in (subst (λ z. All P z) no_front tt, subst P final w.0)
  | inr ((front', last'), e) ↦
      let eq : some (x ∷ front', last') ≡ some (front, last) = sym (rw e refl) ∙ h in
      let longer : x ∷ front' ≡ front = cc in
      let final : last' ≡ last = cc in
      let (in_front, at_last) = unsnoc-All P xs front' last' e w.1 in
      (subst (λ z. All P z) longer (w.0, in_front), subst P final at_last)
]

module _ (sha256 : Bytes → ℕ) where
  -- What the last step of a recomputation that returned did.
  record LastStep (fuel m n cur : ℕ) (path : List ℕ) (x : ℕ) : Type 0 where
    rest : List ℕ
    sibling : ℕ
    below : ℕ
    parts : unsnoc path ≡ some (rest, sibling)
    side :
        let k = largest_power_of_two_below n in
        (m < k
          × (root_from_path sha256 fuel m k cur rest ≡ some below)
          × (x ≡ node_hash sha256 below sibling))
        ⊎ (k ≤ m
            × (root_from_path sha256 fuel (m - k) (n - k) cur rest ≡ some below)
            × (x ≡ node_hash sha256 sibling below))

  last_step :
      (fuel m n cur : ℕ) (path : List ℕ) (x : ℕ)
      → n ≢ 1
      → root_from_path sha256 (suc fuel) m n cur path ≡ some x
      → LastStep fuel m n cur path x
  unfolding root_from_path
  last_step fuel m n cur path x many got =
      let e : (n == 1) ≡ false = ground (arith, many) in
      let k = largest_power_of_two_below n in
      elim (Option-cases (unsnoc path)) [
        | inl u ↦ absurd (ground (arith, e, u, got))
        | inr ((rest, sibling), u) ↦ elim (Bool-cases (ltb m k)) [
          | inl l ↦ elim (Option-cases (root_from_path sha256 fuel m k cur rest)) [
            | inl r ↦ let no : none ≡ some x = sym (rw (e, u, l, r) refl) ∙ got in absurd (cc)
            | inr (v, r) ↦
                let is : some (node_hash sha256 v sibling) ≡ some x =
                  sym (rw (e, u, l, r) refl) ∙ got in
                record {
                  rest = rest;
                  sibling = sibling;
                  below = v;
                  parts = u;
                  side = inl (ground (arith, l), r, cc);
                }
          ]
          | inr l ↦ elim (Option-cases (root_from_path sha256 fuel (m - k) (n - k) cur rest)) [
            | inl r ↦ let no : none ≡ some x = sym (rw (e, u, l, r) refl) ∙ got in absurd (cc)
            | inr (v, r) ↦
                let is : some (node_hash sha256 sibling v) ≡ some x =
                  sym (rw (e, u, l, r) refl) ∙ got in
                record {
                  rest = rest;
                  sibling = sibling;
                  below = v;
                  parts = u;
                  side = inr (ground (arith, l), r, cc);
                }
          ]
        ]
      ]

module _ (sha256 : Bytes → ℕ) (short : (xs : Bytes) → IsHash (sha256 xs)) where
  tree-IsHash : (es : List ℕ) → IsHash (merkle_tree_hash sha256 es)
  unfolding merkle_tree_hash tree_hash_from leaf_hash node_hash
  tree-IsHash [] = short []
  tree-IsHash (e ∷ []) = short _
  tree-IsHash (e ∷ e' ∷ es) = short _

  node-IsHash : (a b : ℕ) → IsHash (node_hash sha256 a b)
  unfolding node_hash
  node-IsHash a b = short _

  leaf-IsHash : (a : ℕ) → IsHash (leaf_hash sha256 a)
  unfolding leaf_hash
  leaf-IsHash a = short _

  alone :
      (fuel m cur : ℕ) (path : List ℕ) (x : ℕ)
      → root_from_path sha256 fuel m 1 cur path ≡ some x
      → cur ≡ x
  unfolding root_from_path
  alone zero m cur path x got = absurd (cc)
  alone (suc fuel) m cur [] x got = cc
  alone (suc fuel) m cur (p ∷ path) x got = absurd (cc)

  got-IsHash :
      (fuel m n cur : ℕ) (path : List ℕ) (x : ℕ)
      → IsHash cur
      → root_from_path sha256 fuel m n cur path ≡ some x
      → IsHash x
  unfolding root_from_path
  got-IsHash zero m n cur path x h got = absurd (cc)
  got-IsHash (suc fuel) m n cur path x h got = elim (Bool-cases (n == 1)) [
    | inl e ↦
        let one : n ≡ 1 = ground (arith, e) in
        subst IsHash
          (alone (suc fuel) m cur path x
            (subst (λ z. root_from_path sha256 (suc fuel) m z cur path ≡ some x) one got))
          h
    | inr e ↦
        let many : n ≢ 1 = ground (arith, e) in
        let s = last_step sha256 fuel m n cur path x many got in
        elim s.side [
          | inl (_, _, is) ↦ subst IsHash (sym is) (node-IsHash s.below s.sibling)
          | inr (_, _, is) ↦ subst IsHash (sym is) (node-IsHash s.sibling s.below)
        ]
  ]

  -- The single leaf of a tree, against the leaf of a proof.
  only_leaf :
      (es : List ℕ) (m n leaf here : ℕ) (path : List ℕ)
      → IsHash leaf
      → IsHash here
      → Builds sha256 es (leaf_input here)
      → leaf_hash sha256 leaf ≡ leaf_hash sha256 here
      → (leaf ≡ here) ⊎ Collision sha256 es leaf m n path
  unfolding leaf_hash
  only_leaf es m n leaf here path hleaf hhere built h =
      elim (same_input sha256 es leaf m n path _ _ (from_start m n path) built h) [
        | inl e ↦ inl (leaf_input-injective leaf here hleaf hhere e)
        | inr c ↦ inr c
      ]

  single_Builds :
      (es : List ℕ) (m here : ℕ)
      → length es ≡ 1
      → get_elem? es m ≡ some here
      → Builds sha256 es (leaf_input here)
  single_Builds [] m here one at_m = absurd (cc)
  single_Builds (e ∷ []) zero here one at_m =
      let same : e ≡ here = cc in
      subst (λ z. Builds sha256 (e ∷ []) (leaf_input z)) same (Builds.from_leaf e)
  single_Builds (e ∷ []) (suc m) here one at_m = absurd (cc)
  single_Builds (e ∷ e' ∷ es) m here one at_m = absurd (omega (arith, one))

  -- The last step of a check, against the root of a tree of two leaves or more.
  both_halves :
      (es : List ℕ) (leaf m a b : ℕ) (path : List ℕ)
      → 2 ≤ length es
      → IsHash a
      → IsHash b
      → Checks sha256 leaf m (length es) path (node_input a b)
      → merkle_tree_hash sha256 es ≡ node_hash sha256 a b
      → let k = largest_power_of_two_below (length es) in
        ((a ≡ merkle_tree_hash sha256 (take k es)) × (b ≡ merkle_tree_hash sha256 (drop k es)))
        ⊎ Collision sha256 es leaf m (length es) path
  unfolding node_hash
  both_halves es leaf m a b path two ha hb checked h =
      let k = largest_power_of_two_below (length es) in
      let same = sym h ∙ tree_halves sha256 es two in
      elim (same_input sha256 es leaf m (length es) path _ _ checked (Builds.from_node es two)
        same) [
          | inl e ↦ inl (
              node_input-injective a b (merkle_tree_hash sha256 (take k es))
                (merkle_tree_hash sha256 (drop k es)) ha hb (tree-IsHash (take k es))
                (tree-IsHash (drop k es)) e)
          | inr c ↦ inr c
        ]

  left_Collision :
      (es : List ℕ) (leaf m sibling : ℕ) (path rest : List ℕ)
      → 2 ≤ length es
      → unsnoc path ≡ some (rest, sibling)
      → let k = largest_power_of_two_below (length es) in
        m < k
        → Collision sha256 (take k es) leaf m k rest
        → Collision sha256 es leaf m (length es) path
  left_Collision es leaf m sibling path rest two parts low c = record {
    first = c.first;
    second = c.second;
    checked = under_left m (length es) sibling path rest parts low c.checked;
    built = in_left es two c.built;
    differ = c.differ;
    digest = c.digest;
  }

  right_Collision :
      (es : List ℕ) (leaf m sibling : ℕ) (path rest : List ℕ)
      → 2 ≤ length es
      → unsnoc path ≡ some (rest, sibling)
      → let k = largest_power_of_two_below (length es) in
        k ≤ m
        → Collision sha256 (drop k es) leaf (m - k) (length es - k) rest
        → Collision sha256 es leaf m (length es) path
  right_Collision es leaf m sibling path rest two parts high c = record {
    first = c.first;
    second = c.second;
    checked = under_right m (length es) sibling path rest parts high c.checked;
    built = in_right es two c.built;
    differ = c.differ;
    digest = c.digest;
  }

  recomputed :
      (fuel m leaf : ℕ) (es path : List ℕ)
      → length es ≤ fuel
      → m < length es
      → All IsHash es
      → All IsHash path
      → IsHash leaf
      → root_from_path sha256 fuel m (length es) (leaf_hash sha256 leaf) path
        ≡ some (merkle_tree_hash sha256 es)
      → (get_elem? es m ≡ some leaf) ⊎ Collision sha256 es leaf m (length es) path
  recomputed zero m leaf es path len inside hes hpath hleaf got =
      absurd (omega (arith, len, inside))
  recomputed (suc fuel) m leaf es path len inside hes hpath hleaf got =
      elim (Bool-cases (length es == 1)) [
        | inl e ↦
            let one : length es ≡ 1 = ground (arith, e) in
            let (here, at_m, hhere) = element es m inside hes in
            let (_, head) = single_leaf sha256 m here es one inside at_m in
            let same =
              alone (suc fuel) m (leaf_hash sha256 leaf) path (merkle_tree_hash sha256 es) (
                subst
                  (λ z.
                    root_from_path sha256 (suc fuel) m z (leaf_hash sha256 leaf) path
                    ≡ some (merkle_tree_hash sha256 es))
                  one got) in
            elim (only_leaf es m (length es) leaf here path hleaf hhere
              (single_Builds es m here one at_m) (same ∙ head)) [
                | inl eq ↦ inl (at_m ∙ ap (λ z. some z) (sym eq))
                | inr c ↦ inr c
              ]
        | inr e ↦
            let many : length es ≢ 1 = ground (arith, e) in
            let two : 2 ≤ length es = omega (arith, many, inside) in
            let k = largest_power_of_two_below (length es) in
            let (_, below', above') = split_largest_power (length es) two in
            let below : k < length es = omega (arith, same_split (length es), below') in
            let pos_k : 0 < k = omega (arith, same_split (length es), above', two) in
            let left : length (take k es) ≡ k = length-take_le k es (omega (arith, below)) in
            let right : length (drop k es) ≡ length es - k = length-drop k es in
            let s =
              last_step sha256 fuel m (length es) (leaf_hash sha256 leaf) path
                (merkle_tree_hash sha256 es) many got in
            let (hrest, hsib) = unsnoc-All IsHash path s.rest s.sibling s.parts hpath in
            elim s.side [
              | inl (low, r, is) ↦
                  let hv =
                    got-IsHash fuel m k (leaf_hash sha256 leaf) s.rest s.below (leaf-IsHash leaf)
                      r in
                  let checked =
                    on_left fuel m (length es) s.below s.sibling path s.rest s.parts low r in
                  elim (both_halves es leaf m s.below s.sibling path two hv hsib checked is) [
                    | inr c ↦ inr c
                    | inl (top, _) ↦
                        elim (recomputed fuel m leaf (take k es) s.rest
                          (omega (arith, left, below, len)) (omega (arith, left, low))
                          (All-take k es hes) hrest hleaf
                          (subst
                            (λ z.
                              root_from_path sha256 fuel m z (leaf_hash sha256 leaf) s.rest
                              ≡ some (merkle_tree_hash sha256 (take k es)))
                            (sym left) (r ∙ ap (λ z. some z) top))) [
                              | inl found ↦ inl (sym (get_elem?-take k m es low) ∙ found)
                              | inr c ↦ inr (
                                  left_Collision es leaf m s.sibling path s.rest two s.parts low (
                                    subst (λ z. Collision sha256 (take k es) leaf m z s.rest) left
                                      c))
                            ]
                  ]
              | inr (high, r, is) ↦
                  let hv =
                    got-IsHash fuel (m - k) (length es - k) (leaf_hash sha256 leaf) s.rest s.below
                      (leaf-IsHash leaf) r in
                  let back : k + (m - k) ≡ m = omega (arith, high) in
                  let checked =
                    on_right fuel m (length es) s.below s.sibling path s.rest s.parts high r in
                  elim (both_halves es leaf m s.sibling s.below path two hsib hv checked is) [
                    | inr c ↦ inr c
                    | inl (_, top) ↦
                        elim (recomputed fuel (m - k) leaf (drop k es) s.rest
                          (omega (arith, right, pos_k, len, two))
                          (omega (arith, right, high, inside)) (All-drop k es hes) hrest hleaf
                          (subst
                            (λ z.
                              root_from_path sha256 fuel (m - k) z (leaf_hash sha256 leaf) s.rest
                              ≡ some (merkle_tree_hash sha256 (drop k es)))
                            (sym right) (r ∙ ap (λ z. some z) top))) [
                              | inl found ↦ inl (
                                  ap (λ z. get_elem? es z) (sym back)
                                  ∙ sym (get_elem?-drop k (m - k) es)
                                  ∙ found)
                              | inr c ↦ inr (
                                  right_Collision es leaf m s.sibling path s.rest two s.parts high (
                                    subst (λ z. Collision sha256 (drop k es) leaf (m - k) z s.rest)
                                      right c))
                            ]
                  ]
            ]
      ]

  -- A proof made for the right number of leaves that verifies against a root is a proof of a leaf of
  -- that root: the leaf stands at the proof's index, or else one of the inputs that are hashed to check
  -- the proof collides with a different one of those that are hashed to build the tree. Digests
  -- have 32 bytes: those of the leaves, of the path and of the leaf in question.
  pub proof_binding :
      (leaves : List ℕ) (leaf : ℕ) (p : Proof)
      → All IsHash leaves
      → All IsHash p.path
      → IsHash leaf
      → p.total ≡ length leaves
      → verify_proof sha256 (merkle_root sha256 leaves) leaf p ≡ true
      → (get_elem? leaves p.index ≡ some leaf) ⊎ Collision sha256 leaves leaf p.index p.total p.path
  unfolding verify_proof merkle_root
  proof_binding leaves leaf p hes hpath hleaf total verified =
      let inside : p.index < p.total = ground (arith, verified) in
      elim (Option-cases
        (root_from_path sha256 p.total p.index p.total (leaf_hash sha256 leaf) p.path)) [
          | inl e ↦ absurd (ground (arith, e, verified))
          | inr (got, e) ↦
              let same : got ≡ merkle_tree_hash sha256 leaves =
                ground (arith, e, verified, inside) in
              subst
                (λ z.
                  (get_elem? leaves p.index ≡ some leaf)
                  ⊎ Collision sha256 leaves leaf p.index z p.path)
                (sym total)
                (recomputed (length leaves) p.index leaf leaves p.path (omega arith)
                  (omega (arith, inside, total)) hes hpath hleaf
                  (subst
                    (λ z.
                      root_from_path sha256 z p.index z (leaf_hash sha256 leaf) p.path
                      ≡ some (merkle_tree_hash sha256 leaves))
                    total (e ∙ ap (λ z. some z) same)))
        ]
