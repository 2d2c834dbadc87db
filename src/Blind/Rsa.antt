-- ===== src/Blind/Rsa.antt =====
-- Blind RSA signatures: core/blindtoken/blindtoken.go. SHA-256 is a parameter; of math/big the model has
-- what the code uses. A source of randomness is the bytes that it has left to give, and reading
-- more than those is an error.
use bitbit.Base.{
  ℕ, zero, suc, ◌+◌, ◌*◌, ◌/◌, ◌%◌, ◌^◌, Bool, Option, none, some, [], ◌++◌, length, take, drop,
  ltb, ◌==◌, if◌then◌else◌,
}
use bitbit.Base.Bytes.{Bytes, ascii, be_bytes, be_value}
use bitbit.Chain.State.{hash_bytes}
use bitbit.Chain.Types.{RsaKey}

abbrev pub fdh_domain : Bytes
fdh_domain = ascii "silt/blindtoken/fdh/v1"

abbrev pub credit_domain : Bytes
credit_domain = ascii "silt/blindcredit/fdh/v1"

abbrev pub demand_domain : Bytes
demand_domain = ascii "silt/blinddemand/fdh/v1"

pub record PrivateKey : Type 0 where
  pub public : RsaKey
  pub secret_exponent : ℕ

-- `BitLen` of math/big.
unfoldable pub bit_len_from : ℕ → ℕ → ℕ
bit_len_from zero n = 0
bit_len_from (suc fuel) n = let rest = bit_len_from fuel (n / 2) in if n == 0 then 0 else suc rest

unfoldable pub bit_len : ℕ → ℕ
bit_len n = bit_len_from n n

-- `Bytes` of math/big: no leading zero.
unfoldable pub big_bytes : ℕ → Bytes
big_bytes n = be_bytes ((bit_len n + 7) / 8) n

-- `ModInverse` of math/big: none where there is no inverse.
unfoldable pub inverse_from : ℕ → ℕ → ℕ → ℕ → Option ℕ
inverse_from zero i r n = none
inverse_from (suc fuel) i r n =
    let rest = inverse_from fuel (i + 1) r n in if (r * i) % n == 1 % n then some i else rest

unfoldable pub mod_inverse : ℕ → ℕ → Option ℕ
mod_inverse r n = inverse_from n 0 r n

-- `Exp` of math/big.
unfoldable pub mod_exp : ℕ → ℕ → ℕ → ℕ
mod_exp b e n = b ^ e % n

-- The serial, and the randomness that is left; none where it ran out.
unfoldable pub new_serial : Bytes → Option (Bytes × Bytes)
new_serial rng = if ltb (length rng) 32 then none else some (take 32 rng, drop 32 rng)

unfoldable pub rand_int : Bytes → ℕ → Option (ℕ × Bytes)
rand_int rng max =
    let k = (bit_len max + 7) / 8 + 8 in
    if ltb (length rng) k then none else some (be_value (take k rng) % max, drop k rng)

-- The loop until r has an inverse. A round takes eight bytes or more.
unfoldable pub draw_unit : ℕ → Bytes → ℕ → Option (ℕ × Bytes)
draw_unit zero rng n = none
draw_unit (suc fuel) rng n = elim (rand_int rng n) [
  | none ↦ none
  | some (r, rest) ↦
      let again = draw_unit fuel rest n in
      if r == 0
      then again
      else elim (mod_inverse r n) [ none ↦ again | some inverse ↦ some (r, rest) ]
]

pub data BlindResult : Type 0 where
  blinds : Bytes → Bytes → BlindResult
  zero_hash : BlindResult
  read_failed : BlindResult

unfoldable pub sign_blinded : PrivateKey → Bytes → Bytes
sign_blinded priv blinded =
    let b = be_value blinded % priv.public.modulus in
    big_bytes (mod_exp b priv.secret_exponent priv.public.modulus)

unfoldable pub unblind : RsaKey → Bytes → Bytes → Bytes
unblind key blind_sig secret = elim (mod_inverse (be_value secret) key.modulus) [
  | none ↦ []
  | some inverse ↦ big_bytes (be_value blind_sig * inverse % key.modulus)
]

module _ (sha256 : Bytes → ℕ) where
  -- A round adds 32 bytes: as many rounds as bytes wanted are enough.
  unfoldable pub expand : ℕ → ℕ → ℕ → Bytes → Bytes → Bytes → Bytes
  expand zero ctr wanted serial domain out = out
  expand (suc fuel) ctr wanted serial domain out =
      let longer =
        expand fuel (ctr + 1) wanted serial domain
          (out ++ hash_bytes (sha256 (domain ++ (be_bytes 4 ctr ++ serial)))) in
      if ltb (length out) wanted then longer else out

  unfoldable pub full_domain_hash_d : RsaKey → Bytes → Bytes → ℕ
  full_domain_hash_d key serial domain =
      let wanted = (bit_len key.modulus + 7) / 8 + 8 in
      be_value (expand wanted 0 wanted serial domain []) % key.modulus

  unfoldable pub full_domain_hash : RsaKey → Bytes → ℕ
  full_domain_hash key serial = full_domain_hash_d key serial fdh_domain

  abbrev pub blinded_by : RsaKey → ℕ → Option (ℕ × Bytes) → BlindResult
  blinded_by key m none = read_failed
  blinded_by key m (some (r, rest)) =
      let re = mod_exp r key.exponent key.modulus in
      blinds (big_bytes (m * re % key.modulus)) (big_bytes r)

  unfoldable pub blind_d : Bytes → RsaKey → Bytes → Bytes → BlindResult
  blind_d rng key serial domain =
      let m = full_domain_hash_d key serial domain in
      if m == 0 then zero_hash else blinded_by key m (draw_unit (length rng) rng key.modulus)

  unfoldable pub blind : Bytes → RsaKey → Bytes → BlindResult
  blind rng key serial = blind_d rng key serial fdh_domain

  unfoldable pub blind_credit : Bytes → RsaKey → Bytes → BlindResult
  blind_credit rng key serial = blind_d rng key serial credit_domain

  unfoldable pub blind_demand : Bytes → RsaKey → Bytes → BlindResult
  blind_demand rng key serial = blind_d rng key serial demand_domain

  unfoldable pub verify_d : RsaKey → Bytes → Bytes → Bytes → Bool
  verify_d key serial sig domain =
      let m = full_domain_hash_d key serial domain in
      mod_exp (be_value sig) key.exponent key.modulus == m

  unfoldable pub verify : RsaKey → Bytes → Bytes → Bool
  verify key serial sig = verify_d key serial sig fdh_domain

  unfoldable pub verify_credit : RsaKey → Bytes → Bytes → Bool
  verify_credit key serial sig = verify_d key serial sig credit_domain

  unfoldable pub verify_demand : RsaKey → Bytes → Bytes → Bool
  verify_demand key serial sig = verify_d key serial sig demand_domain
