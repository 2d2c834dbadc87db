-- ===== src/Blind/Tests.antt =====
-- The RSA key of modulus 15 on which the theorems about core/blindtoken apply.
use bitbit.Base.{
  ◌==◌, ◌&&◌, drop, ℕ, zero, suc, ◌+◌, ◌%◌, ◌^◌, ◌<◌, ◌≡◌, refl, sym, ap, ◌∙◌, Bool, true, List, [],
  ◌∷◌, length, arith, if◌then◌else◌, Bool-cases, inl, inr,
}
use bitbit.Base.Bytes.{Bytes, mem_bytes, be_bytes, be_value, be_value_from}
use native.Mathlib.Nat.{mod-lt}
use bitbit.Chain.Types.{RsaKey}
use bitbit.Chain.State.{hash_bytes}
use bitbit.Blind.Modular.{pow-mod}
use bitbit.Blind.Rsa.{
  PrivateKey, blinds, fdh_domain, blind_d, sign_blinded, unblind, verify_d, full_domain_hash_d,
  expand, bit_len, bit_len_from, big_bytes, mod_inverse, inverse_from, mod_exp, rand_int, draw_unit,
}
use bitbit.Blind.RoundTrip.{IsKeyPair, blind_round_trip}
use bitbit.Blind.Issuer.{Issuer, spend_all, accepted, valid_among, spends_once}

abbrev pub public : RsaKey
public = record { modulus = 15; exponent = 3 }

abbrev pub private : PrivateKey
private = record { public = public; secret_exponent = 3 }

-- A digest to tell messages apart by.
abbrev toy_digest : Bytes → ℕ
toy_digest xs = 4 + length xs

powers_below : ℕ → Bool
powers_below zero = true
powers_below (suc n) = (n ^ 9 % 15 == n) && powers_below n

powers_below_sound : (n x : ℕ) → powers_below n ≡ true → x < n → x ^ 9 % 15 ≡ x
unfolding powers_below
powers_below_sound zero x all h = absurd (omega (arith, h))
powers_below_sound (suc n) x all h = elim (Bool-cases (x == n)) [
  | inl e ↦
      let same : x ≡ n = ground (arith, e) in
      let here : (n ^ 9 % 15 == n) ≡ true = ground (arith, all) in
      ap (λ z. z ^ 9 % 15) same ∙ ground (arith, here) ∙ sym same
  | inr e ↦
      let others : powers_below n ≡ true = ground (arith, all) in
      powers_below_sound n x others (ground (arith, e, h))
]

all_powers : powers_below 15 ≡ true
unfolding powers_below
all_powers = refl

below : (x : ℕ) → x < 15 → x ^ 9 % 15 ≡ x
below x h = powers_below_sound 15 x all_powers h

pub private-IsKeyPair : IsKeyPair private
private-IsKeyPair =
    (omega arith, λ x. sym (pow-mod x 9 15) ∙ below (x % 15) (mod-lt x (omega arith)))

abbrev serial : Bytes
serial = 1 ∷ 2 ∷ 3 ∷ []

abbrev pub random : Bytes
random = 0 ∷ 0 ∷ 0 ∷ 0 ∷ 0 ∷ 0 ∷ 0 ∷ 0 ∷ 2 ∷ []

-- The serial hashes to 3, and the factor drawn is 2.
blinded : blind_d toy_digest random public serial fdh_domain ≡ blinds (9 ∷ []) (2 ∷ [])
unfolding blind_d full_domain_hash_d expand bit_len bit_len_from big_bytes mod_inverse inverse_from
    mod_exp rand_int draw_unit hash_bytes be_bytes be_value be_value_from drop
blinded = refl

blind_round_trip_example :
    verify_d toy_digest public serial
      (unblind public (sign_blinded private (9 ∷ [])) (2 ∷ []))
      fdh_domain
    ≡ true
blind_round_trip_example =
    blind_round_trip toy_digest private random serial fdh_domain (9 ∷ []) (2 ∷ []) private-IsKeyPair
      blinded

-- The signature of 3 is 12.
abbrev tokens : List (Bytes × Bytes)
tokens = (serial, 5 ∷ []) ∷ (serial, 12 ∷ []) ∷ (serial, 12 ∷ []) ∷ []

abbrev issuer : Issuer
issuer = record { key = private; spent = [] }

spends_once_example : accepted serial tokens (spend_all toy_digest tokens issuer).1 ≡ (
    if mem_bytes serial [] then 0 else if valid_among toy_digest public serial tokens then 1 else 0)
spends_once_example = spends_once toy_digest serial tokens issuer
