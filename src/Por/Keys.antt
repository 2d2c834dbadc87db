-- ===== src/Por/Keys.antt =====
-- Keys and challenges of core/por/por.go. A source of randomness is a parameter: what `io.ReadFull`
-- gives for a number of bytes and the source after it, or none on an error.
use bitbit.Base.{
  ℕ, zero, suc, ◌+◌, ◌%◌, ◌<◌, ◌≡◌, refl, sym, ap, ◌∙◌, subst, Option, none, some, List, [], ◌∷◌,
  ◌++◌, length, take, drop, ltb, ◌==◌, if◌then◌else◌, arith, Bool-cases, Option-cases, inl, inr,
}
use bitbit.Base.Bytes.{Bytes, ascii, be_bytes, be_value}
use bitbit.Por.Scheme.{prime, Key, Challenge}
use bitbit.Por.Completeness.{IsKey}

abbrev clear_top : Bytes → Bytes
clear_top [] = []
clear_top (b ∷ buf) = b % 128 ∷ buf

module _ {R : Type 0} (read : R → ℕ → Option (Bytes × R)) where
  -- The draws until a value is below the prime.
  unfoldable pub rand_elem : ℕ → R → Option (ℕ × R)
  rand_elem zero rng = none
  rand_elem (suc fuel) rng = elim (read rng 32) [
    | none ↦ none
    | some (buf, rest) ↦
        let v = be_value (clear_top buf) in
        let again = rand_elem fuel rest in if ltb v prime then some (v, rest) else again
  ]

  -- Of the result only the coefficients are kept.
  unfoldable pub rand_elems : ℕ → ℕ → R → Option (List ℕ)
  rand_elems fuel zero rng = some []
  rand_elems fuel (suc n) rng = elim (rand_elem fuel rng) [
    | none ↦ none
    | some (a, rest) ↦ elim (rand_elems fuel n rest) [ none ↦ none | some alpha ↦ some (a ∷ alpha) ]
  ]

  -- None is an error, or that no value fits within the draws.
  unfoldable pub keygen : ℕ → ℕ → R → Option Key
  keygen fuel sectors rng = if sectors == 0 then none else elim (read rng 32) [
    | none ↦ none
    | some (prf, rest) ↦ elim (rand_elems fuel sectors rest) [
      | none ↦ none
      | some alpha ↦ some (record { sectors = sectors; prf = prf; alpha = alpha })
    ]
  ]

  unfoldable pub new_challenge : R → ℕ → ℕ → Option (Challenge × R)
  new_challenge rng blocks count = if blocks == 0 then none else elim (read rng 32) [
    | none ↦ none
    | some (seed, rest) ↦ some (
      record { seed = seed; blocks = blocks; count = if ltb blocks count then blocks else count },
      rest,
    )
  ]

  length-rand_elems :
      (fuel n : ℕ) (rng : R) (alpha : List ℕ)
      → rand_elems fuel n rng ≡ some alpha
      → length alpha ≡ n
  unfolding rand_elems
  length-rand_elems fuel zero rng alpha h = let e : [] ≡ alpha = cc in ap (λ z. length z) (sym e)
  length-rand_elems fuel (suc n) rng alpha h = elim (Option-cases (rand_elem fuel rng)) [
    | inl e ↦ let no : none ≡ some alpha = sym (rw (rand_elems, e) refl) ∙ h in absurd (cc)
    | inr ((a, rest), e) ↦ elim (Option-cases (rand_elems fuel n rest)) [
      | inl e' ↦ let no : none ≡ some alpha = sym (rw (rand_elems, e, e') refl) ∙ h in absurd (cc)
      | inr (tail, e') ↦
          let made : some (a ∷ tail) ≡ some alpha = sym (rw (rand_elems, e, e') refl) ∙ h in
          let same : a ∷ tail ≡ alpha = cc in
          ap (λ z. length z) (sym same) ∙ ap (λ z. suc z) (length-rand_elems fuel n rest tail e')
    ]
  ]

  pub keygen-IsKey :
      (fuel sectors : ℕ) (rng : R) (k : Key)
      → keygen fuel sectors rng ≡ some k
      → IsKey k × (k.sectors ≡ sectors)
  unfolding keygen
  keygen-IsKey fuel sectors rng k h = elim (Bool-cases (sectors == 0)) [
    | inl z ↦ let no : none ≡ some k = sym (rw (keygen, z) refl) ∙ h in absurd (cc)
    | inr z ↦ elim (Option-cases (read rng 32)) [
      | inl e ↦ let no : none ≡ some k = sym (rw (keygen, z, e) refl) ∙ h in absurd (cc)
      | inr ((prf, rest), e) ↦ elim (Option-cases (rand_elems fuel sectors rest)) [
        | inl e' ↦ let no : none ≡ some k = sym (rw (keygen, z, e, e') refl) ∙ h in absurd (cc)
        | inr (alpha, e') ↦
            let key : Key = record { sectors = sectors; prf = prf; alpha = alpha } in
            let made : some key ≡ some k = sym (rw (keygen, z, e, e') refl) ∙ h in
            let same : key ≡ k = cc in
            let positive : 0 < sectors = ground (arith, z) in
            subst (λ (z : Key). IsKey z × (z.sectors ≡ sectors)) same
              ((positive, length-rand_elems fuel sectors rest alpha e'), refl)
      ]
    ]
  ]

-- The deterministic source of `DeriveKey`.
pub record DetReader : Type 0 where
  pub seed : Bytes
  pub ctr : ℕ
  pub buf : Bytes

module _ (mac : Bytes → Bytes → ℕ) where
  -- A round adds 32 bytes: as many rounds as bytes wanted are enough.
  unfoldable pub refill : ℕ → ℕ → DetReader → DetReader
  refill zero wanted r = r
  refill (suc fuel) wanted r =
      let more = refill fuel wanted (record r {
        ctr = (r.ctr + 1) % 4294967296;
        buf = r.buf ++ be_bytes 32 (mac r.seed (ascii "silt/por/v1/derive" ++ be_bytes 4 r.ctr));
      }) in
      if ltb (length r.buf) wanted then more else r

  unfoldable pub det_read : DetReader → ℕ → Option (Bytes × DetReader)
  det_read r n =
      let full = refill n n r in some (take n full.buf, record full { buf = drop n full.buf })

  unfoldable pub derive_key : ℕ → Bytes → ℕ → Option Key
  derive_key fuel seed sectors =
      if sectors == 0
      then none
      else keygen det_read fuel sectors (record { seed = seed; ctr = 0; buf = [] })

  pub derive_key-IsKey :
      (fuel : ℕ) (seed : Bytes) (sectors : ℕ) (k : Key)
      → derive_key fuel seed sectors ≡ some k
      → IsKey k × (k.sectors ≡ sectors)
  unfolding derive_key
  derive_key-IsKey fuel seed sectors k h = elim (Bool-cases (sectors == 0)) [
    | inl z ↦ let no : none ≡ some k = sym (rw (derive_key, z) refl) ∙ h in absurd (cc)
    | inr z ↦
        let made : keygen det_read fuel sectors (record { seed = seed; ctr = 0; buf = [] })
            ≡ some k =
          sym (rw (derive_key, z) refl) ∙ h in
        keygen-IsKey det_read fuel sectors _ k made
  ]
