-- ===== src/Blind/Encoding.antt =====
-- Numbers and their shortest bytes.
use bitbit.Base.{ℕ, zero, suc, ◌+◌, ◌*◌, ◌/◌, ◌^◌, ◌<◌, ◌≤◌, ◌≡◌, arith, ◌==◌, Bool-cases, inl, inr}
use bitbit.Base.Bytes.{be_value, be_value-be_bytes}
use native.Mathlib.Nat.{pow-suc, pow-zero, pow-le-pow_right}
use bitbit.Blind.Modular.{pow-pow}
use bitbit.Blind.Rsa.{bit_len, bit_len_from, big_bytes}

below_bits : (fuel n : ℕ) → n ≤ fuel → n < 2 ^ bit_len_from fuel n
unfolding bit_len_from
below_bits zero n h = omega (arith, h, pow-zero 2)
below_bits (suc fuel) n h = elim (Bool-cases (n == 0)) [
  | inl e ↦ rw e (let z : n ≡ 0 = ground (arith, e) in omega (arith, z, pow-zero 2))
  | inr e ↦
      let positive : 0 < n = ground (arith, e) in
      let half = below_bits fuel (n / 2) (omega (arith, h, positive)) in
      rw (e, pow-suc 2 (bit_len_from fuel (n / 2))) (omega (arith, half))
]

enough_bytes : (n : ℕ) → n < 256 ^ ((bit_len n + 7) / 8)
unfolding bit_len
enough_bytes n =
    let bits = bit_len_from n n in
    let wide : 2 ^ bits ≤ 2 ^ (8 * ((bits + 7) / 8)) =
      pow-le-pow_right (omega arith) (omega arith) in
    let same : (2 ^ 8) ^ ((bits + 7) / 8) ≡ 2 ^ (8 * ((bits + 7) / 8)) =
      pow-pow 2 8 ((bits + 7) / 8) in
    omega (arith, below_bits n n (omega arith), wide, same)

pub be_value-big_bytes : (n : ℕ) → be_value (big_bytes n) ≡ n
unfolding big_bytes
be_value-big_bytes n = be_value-be_bytes ((bit_len n + 7) / 8) n (enough_bytes n)
