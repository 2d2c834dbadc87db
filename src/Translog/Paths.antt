-- ===== src/Translog/Paths.antt =====
-- Audit paths in core/translog/translog.go, and the loops of the verifiers.
use bitbit.Base.{
  ℕ, zero, suc, ◌-◌, ◌≤◌, ◌≡◌, inl, inr, refl, false, List, [], ◌∷◌, ◌++◌, length, take, ltb, leb,
  if◌then◌else◌, arith, Bool-cases,
}
use bitbit.Base.{drop}
use bitbit.Base.Bytes.{Bytes}
use bitbit.Translog.{split, mth, path_from, path}
use bitbit.Translog.Split.{split_largest_power, length-take, length-drop}

module _ (sha256 : Bytes → ℕ) where
  path_from-enough :
      (f g m : ℕ) (es : List ℕ)
      → length es ≤ f
      → length es ≤ g
      → path_from sha256 f m es ≡ path_from sha256 g m es
  unfolding path_from
  path_from-enough zero zero m es hf hg = refl
  path_from-enough zero (suc g) m es hf hg = ground (arith, hf)
  path_from-enough (suc f) zero m es hf hg = ground (arith, hg)
  path_from-enough (suc f) (suc g) m es hf hg = elim (Bool-cases (leb (length es) 1)) [
    | inl small ↦ rw small refl
    | inr big ↦
        let k = split (length es) in
        let (_, below, above) = split_largest_power (length es) (ground (arith, big)) in
        let left = length-take k es in
        let right = length-drop k es in
        rw
          (
            path_from-enough f g m (take k es) (omega arith) (omega arith),
            path_from-enough f g (m - k) (drop k es) (omega arith) (omega arith),
          )
          refl
  ]

  -- The audit path in a tree of two leaves or more is the path in the half that holds the leaf,
  -- followed by the head of the other half: with the fuel that it is given, `path` is the recursion
  -- of RFC 6962.
  pub path_halves :
      (m : ℕ) (es : List ℕ)
      → 2 ≤ length es
      → let k = split (length es) in
        path sha256 m es ≡ (
          if ltb m k
          then path sha256 m (take k es) ++ mth sha256 (drop k es) ∷ []
          else path sha256 (m - k) (drop k es) ++ mth sha256 (take k es) ∷ [])
  unfolding path path_from
  path_halves m [] h = absurd (omega (arith, h))
  path_halves m (e ∷ es) h =
      let entries : List ℕ = e ∷ es in
      let k = split (length entries) in
      let (_, below, above) = split_largest_power (length entries) h in
      let left = length-take k entries in
      let right = length-drop k entries in
      let big : leb (suc (length es)) 1 ≡ false = ground (arith, h) in
      rw
        (
          big,
          path_from-enough (length es) (length (take k entries)) m (take k entries) (omega arith)
              (omega arith),
          path_from-enough (length es) (length (drop k entries)) (m - k) (drop k entries)
              (omega arith) (omega arith),
        )
        refl
