-- ===== src/Translog/Split.antt =====
-- Where core/translog/translog.go splits a tree.
use bitbit.Base.{
  Bool-cases, inl, inr, ℕ, zero, suc, ◌+◌, ◌-◌, ◌*◌, ◌^◌, ◌<◌, ◌≤◌, ◌≡◌, refl, List, [], ◌∷◌,
  length, take, ltb, arith,
}
use bitbit.Base.{drop}
use bitbit.Base.Bytes.{Bytes}
use bitbit.Translog.{split_from, split, mth_from, mth, node_hash}

split_from-bounds :
    (fuel k n : ℕ)
    → 0 < k
    → k < n
    → n ≤ k + fuel
    → (split_from fuel k n < n) × (n ≤ 2 * split_from fuel k n) × (0 < split_from fuel k n)
unfolding split_from
split_from-bounds zero k n h l f = omega arith
split_from-bounds (suc fuel) k n h l f = ground (arith, split_from-bounds fuel (2 * k) n)

pub twice_pow : (j : ℕ) → 2 * 2 ^ j ≡ 2 ^ suc j
twice_pow j = omega arith

split_from_pow : (fuel j n : ℕ) → (i : ℕ) × (split_from fuel (2 ^ j) n ≡ 2 ^ i)
unfolding split_from
split_from_pow zero j n = (j, refl)
split_from_pow (suc fuel) j n = elim (Bool-cases (ltb (2 * 2 ^ j) n)) [
  | inl more ↦ let (i, e) = split_from_pow fuel (suc j) n in (i, rw (more, twice_pow j) e)
  | inr stop ↦ (j, rw stop refl)
]

-- A tree of two leaves or more is split at the largest power of two below its size.
pub split_largest_power :
    (n : ℕ) → 2 ≤ n → ((i : ℕ) × (split n ≡ 2 ^ i)) × (split n < n) × (n ≤ 2 * split n)
unfolding split
split_largest_power n h =
    let (below, above, _) = split_from-bounds n 1 n (omega arith) (omega arith) (omega arith) in
    (split_from_pow n 0 n, below, above)

pub length-take : {A : Type 0} (k : ℕ) (xs : List A) → length (take k xs) ≤ k
length-take zero xs = omega arith
length-take (suc k) [] = omega arith
length-take (suc k) (x ∷ xs) = omega (arith, length-take k xs)

pub length-drop : (k : ℕ) (xs : List ℕ) → length (drop k xs) ≡ length xs - k
unfolding drop
length-drop zero xs = omega arith
length-drop (suc k) [] = omega arith
length-drop (suc k) (x ∷ xs) = omega (arith, length-drop k xs)

module _ (sha256 : Bytes → ℕ) where
  -- More fuel than there are entries changes nothing.
  mth_from-enough :
      (f g : ℕ) (es : List ℕ)
      → length es ≤ f
      → length es ≤ g
      → mth_from sha256 f es ≡ mth_from sha256 g es
  unfolding mth_from
  mth_from-enough f g [] hf hg = refl
  mth_from-enough f g (e ∷ []) hf hg = refl
  mth_from-enough zero g (e ∷ e' ∷ es) hf hg = absurd (omega (arith, hf))
  mth_from-enough (suc f) zero (e ∷ e' ∷ es) hf hg = absurd (omega (arith, hg))
  mth_from-enough (suc f) (suc g) (e ∷ e' ∷ es) hf hg =
      let entries : List ℕ = e ∷ e' ∷ es in
      let k = split (length entries) in
      let (_, below, above) = split_largest_power (length entries) (omega arith) in
      let left = length-take k entries in
      let right = length-drop k entries in
      rw
        (
          mth_from-enough f g (take k entries) (omega arith) (omega arith),
          mth_from-enough f g (drop k entries) (omega arith) (omega arith),
        )
        refl

  -- The head of a tree of two leaves or more is the hash of the heads of its two halves: the
  -- recursion of `mth` ends, with the fuel that it is given, at the value that RFC 6962 defines.
  pub mth_halves :
      (entries : List ℕ)
      → 2 ≤ length entries
      → mth sha256 entries
        ≡ node_hash sha256
            (mth sha256 (take (split (length entries)) entries))
            (mth sha256 (drop (split (length entries)) entries))
  unfolding mth mth_from
  mth_halves [] h = absurd (omega (arith, h))
  mth_halves (e ∷ []) h = absurd (omega (arith, h))
  mth_halves (e ∷ e' ∷ es) h =
      let entries : List ℕ = e ∷ e' ∷ es in
      let k = split (length entries) in
      let (_, below, above) = split_largest_power (length entries) h in
      let left = length-take k entries in
      let right = length-drop k entries in
      rw
        (
          mth_from-enough (suc (length es)) (length (take k entries)) (take k entries) (omega arith)
              (omega arith),
          mth_from-enough (suc (length es)) (length (drop k entries)) (drop k entries) (omega arith)
              (omega arith),
        )
        refl
