-- ===== src/Blind/RoundTrip.antt =====
-- Blinding, signing and unblinding, against the verifier: core/blindtoken/blindtoken.go.
use bitbit.Base.{
  ℕ, zero, suc, ◌+◌, ◌*◌, ◌%◌, ◌^◌, ◌<◌, ◌≡◌, refl, sym, ap, ◌∙◌, subst, true, none, some, length,
  arith, ◌==◌, ==_refl, Bool-cases, Option-cases, inl, inr,
}
use bitbit.Base.Bytes.{Bytes, be_value}
use bitbit.Chain.Types.{RsaKey}
use native.Mathlib.Nat.{mod-mod, mod-lt, mod-eq_of_lt}
use bitbit.Blind.Modular.{mul-mod_left, mul-mod_right, pow-mod, mul-pow, pow-pow}
use bitbit.Blind.Encoding.{be_value-big_bytes}
use bitbit.Blind.Rsa.{
  PrivateKey, mod_inverse, inverse_from, mod_exp, rand_int, draw_unit, blinds, zero_hash,
  read_failed, big_bytes, blind_d, sign_blinded, unblind, verify_d, full_domain_hash_d,
}

-- The two exponents of an RSA key undo each other.
abbrev pub IsKeyPair : PrivateKey → Type 0
IsKeyPair priv =
    (0 < priv.public.modulus)
    × ((x : ℕ)
        → x ^ (priv.public.exponent * priv.secret_exponent) % priv.public.modulus
          ≡ x % priv.public.modulus)

inverse_from-IsInverse :
    (fuel i r n inverse : ℕ) → inverse_from fuel i r n ≡ some inverse → (r * inverse) % n ≡ 1 % n
unfolding inverse_from
inverse_from-IsInverse zero i r n inverse h = absurd (cc)
inverse_from-IsInverse (suc fuel) i r n inverse h = elim (Bool-cases ((r * i) % n == 1 % n)) [
  | inl e ↦
      let here : some i ≡ some inverse = sym (rw e refl) ∙ h in
      let same : i ≡ inverse = cc in subst (λ z. (r * z) % n ≡ 1 % n) same (ground (arith, e))
  | inr e ↦ inverse_from-IsInverse fuel (i + 1) r n inverse (sym (rw e refl) ∙ h)
]

mod_inverse-IsInverse :
    (r n inverse : ℕ) → mod_inverse r n ≡ some inverse → (r * inverse) % n ≡ 1 % n
unfolding mod_inverse
mod_inverse-IsInverse r n inverse h = inverse_from-IsInverse n 0 r n inverse h

drawn-unit :
    (fuel n r : ℕ) (rng rest : Bytes)
    → draw_unit fuel rng n ≡ some (r, rest)
    → (inverse : ℕ) × (mod_inverse r n ≡ some inverse)
unfolding draw_unit
drawn-unit zero n r rng rest h = absurd (cc)
drawn-unit (suc fuel) n r rng rest h = elim (Option-cases (rand_int rng n)) [
  | inl e ↦ let no : none ≡ some (r, rest) = sym (rw (draw_unit, e) refl) ∙ h in absurd (cc)
  | inr ((r', rest'), e) ↦ elim (Bool-cases (r' == 0)) [
    | inl z ↦ drawn-unit fuel n r rest' rest (sym (rw (draw_unit, e, z) refl) ∙ h)
    | inr z ↦ elim (Option-cases (mod_inverse r' n)) [
      | inl u ↦ drawn-unit fuel n r rest' rest (sym (rw (draw_unit, e, z, u) refl) ∙ h)
      | inr (inverse, u) ↦
          let here : some (r', rest') ≡ some (r, rest) = sym (rw (draw_unit, e, z, u) refl) ∙ h in
          let same : r' ≡ r = cc in (inverse, subst (λ x. mod_inverse x n ≡ some inverse) same u)
    ]
  ]
]

-- What the factor r leaves once it is divided out.
unblinded_power :
    (m r e d inverse n : ℕ)
    → ((x : ℕ) → x ^ (e * d) % n ≡ x % n)
    → (r * inverse) % n ≡ 1 % n
    → ((m * (r ^ e % n) % n) ^ d % n * inverse) % n ≡ m ^ d % n
unblinded_power m r e d inverse n undo unit =
    let factors : (m * (r ^ e % n) % n) ^ d % n ≡ m ^ d * r % n =
      ap (λ z. z ^ d % n) (mul-mod_right m (r ^ e) n)
      ∙ pow-mod (m * r ^ e) d n
      ∙ ap (λ z. z % n) (mul-pow m (r ^ e) d ∙ ap (λ z. m ^ d * z) (pow-pow r e d))
      ∙ sym (mul-mod_right (m ^ d) (r ^ (e * d)) n)
      ∙ ap (λ z. m ^ d * z % n) (undo r)
      ∙ mul-mod_right (m ^ d) r n in
    let regroup : m ^ d * r * inverse ≡ m ^ d * (r * inverse) = grind arith in
    let alone : m ^ d * 1 ≡ m ^ d = omega arith in
    ap (λ z. z * inverse % n) factors
    ∙ mul-mod_left (m ^ d * r) inverse n
    ∙ ap (λ z. z % n) regroup
    ∙ sym (mul-mod_right (m ^ d) (r * inverse) n)
    ∙ ap (λ z. m ^ d * z % n) unit
    ∙ mul-mod_right (m ^ d) 1 n
    ∙ ap (λ z. z % n) alone

signature_power :
    (m e d n : ℕ) → ((x : ℕ) → x ^ (e * d) % n ≡ x % n) → m < n → (m ^ d % n) ^ e % n ≡ m
signature_power m e d n undo h =
    let turn : d * e ≡ e * d = grind arith in
    pow-mod (m ^ d) e n
    ∙ ap (λ z. z % n) (pow-pow m d e ∙ ap (λ z. m ^ z) turn)
    ∙ undo m
    ∙ mod-eq_of_lt h

unblind-by :
    (key : RsaKey) (blind_sig secret : Bytes) (r inverse : ℕ)
    → be_value secret ≡ r
    → mod_inverse r key.modulus ≡ some inverse
    → unblind key blind_sig secret ≡ big_bytes (be_value blind_sig * inverse % key.modulus)
unfolding unblind
unblind-by key blind_sig secret r inverse factor unit = rw (unblind, factor, unit) refl

module _ (sha256 : Bytes → ℕ) where
  hash-below :
      (key : RsaKey) (serial domain : Bytes)
      → 0 < key.modulus
      → full_domain_hash_d sha256 key serial domain < key.modulus
  unfolding full_domain_hash_d
  hash-below key serial domain h = mod-lt _ h

  -- What a blinding that succeeded gives, by the factor that it drew.
  blinding :
      (rng serial domain blinded secret : Bytes) (key : RsaKey)
      → blind_d sha256 rng key serial domain ≡ blinds blinded secret
      → (r : ℕ) × (inverse : ℕ) × (mod_inverse r key.modulus ≡ some inverse)
        × (big_bytes (
              full_domain_hash_d sha256 key serial domain
              * mod_exp r key.exponent key.modulus
              % key.modulus)
            ≡ blinded)
        × (big_bytes r ≡ secret)
  unfolding blind_d
  blinding rng serial domain blinded secret key h =
      let m = full_domain_hash_d sha256 key serial domain in
      let n = key.modulus in
      elim (Bool-cases (m == 0)) [
        | inl z ↦
            let no : zero_hash ≡ blinds blinded secret = sym (rw (blind_d, z) refl) ∙ h in
            absurd (cc)
        | inr z ↦ elim (Option-cases (draw_unit (length rng) rng n)) [
          | inl e ↦
              let no : read_failed ≡ blinds blinded secret = sym (rw (blind_d, z, e) refl) ∙ h in
              absurd (cc)
          | inr ((r, rest), e) ↦
              let (inverse, unit) = drawn-unit (length rng) n r rng rest e in
              let made : blinds (big_bytes (m * mod_exp r key.exponent n % n)) (big_bytes r)
                  ≡ blinds blinded secret =
                sym (rw (blind_d, z, e) refl) ∙ h in
              (r, inverse, unit, cc, cc)
        ]
      ]

  -- A serial that is blinded, signed by the holder of the private key and unblinded carries a signature
  -- that verifies under the public key, in the domain that it was blinded for, where the two
  -- exponents of the key are inverse to each other.
  pub blind_round_trip :
      (priv : PrivateKey) (rng serial domain blinded secret : Bytes)
      → IsKeyPair priv
      → blind_d sha256 rng priv.public serial domain ≡ blinds blinded secret
      → verify_d sha256 priv.public serial
          (unblind priv.public (sign_blinded priv blinded) secret)
          domain
        ≡ true
  unfolding verify_d unblind sign_blinded mod_exp
  blind_round_trip priv rng serial domain blinded secret (positive, undo) h =
      let n = priv.public.modulus in
      let e = priv.public.exponent in
      let d = priv.secret_exponent in
      let m = full_domain_hash_d sha256 priv.public serial domain in
      let (r, inverse, unit, is_blinded, is_secret) =
        blinding rng serial domain blinded secret priv.public h in
      let value : be_value blinded ≡ m * (r ^ e % n) % n =
        ap be_value (sym is_blinded) ∙ be_value-big_bytes (m * (r ^ e % n) % n) in
      let factor : be_value secret ≡ r = ap be_value (sym is_secret) ∙ be_value-big_bytes r in
      let signed : be_value (sign_blinded priv blinded) ≡ (m * (r ^ e % n) % n) ^ d % n =
        be_value-big_bytes ((be_value blinded % n) ^ d % n)
        ∙ ap (λ z. (z % n) ^ d % n) value
        ∙ ap (λ z. z ^ d % n) (mod-mod (m * (r ^ e % n)) n) in
      let opened : be_value (unblind priv.public (sign_blinded priv blinded) secret) ≡ m ^ d % n =
        ap be_value
          (unblind-by priv.public (sign_blinded priv blinded) secret r inverse factor unit)
        ∙ be_value-big_bytes (be_value (sign_blinded priv blinded) * inverse % n)
        ∙ ap (λ z. z * inverse % n) signed
        ∙ unblinded_power m r e d inverse n undo (mod_inverse-IsInverse r n inverse unit) in
      let checks : be_value (unblind priv.public (sign_blinded priv blinded) secret) ^ e % n ≡ m =
        ap (λ z. z ^ e % n) opened
        ∙ signature_power m e d n undo (hash-below priv.public serial domain positive) in
      ap (λ z. z == m) checks ∙ ==_refl m
