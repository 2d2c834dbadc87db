-- ===== src/Por/Tests.antt =====
-- A key, a unit and a challenge on which the theorem about core/por/por.go applies.
use bitbit.Base.{ℕ, ◌*◌, ◌^◌, ◌+◌, ◌≡◌, refl, true, some, [], ◌∷◌, length, arith, mem}
use bitbit.Base.Bytes.{Bytes, be_bytes}
use bitbit.Por.Scheme.{
  Key, Challenge, Proof, proved, blocks, tags, expand, expand_from, prove, verify, coefficient,
  prf_uint, prf_elem, prf_bytes, prime,
}
use bitbit.Por.Completeness.{IsKey, prove_verifies}

-- Digests that depend on the length of the message, 25 and more bytes.
abbrev toy_mac : Bytes → Bytes → ℕ
toy_mac key message = 2 ^ 200 * length message + 7

abbrev key : Key
key = record { sectors = 2; prf = 9 ∷ []; alpha = 11 ∷ 13 ∷ [] }

-- Two blocks of 62 bytes, the last of them short.
abbrev content : Bytes
content = be_bytes 70 123456789

abbrev challenge : Challenge
challenge = record { seed = 4 ∷ []; blocks = 2; count = 1 }

queries : expand toy_mac 3 challenge ≡ some (record { i = 0; nu = 2 ^ 200 * 21 + 7 } ∷ [])
unfolding expand expand_from coefficient prf_uint prf_elem prf_bytes prime be_bytes mem
queries = refl

key-IsKey : IsKey key
key-IsKey = (omega arith, refl)

covers : challenge.blocks ≡ blocks 2 (length content)
unfolding blocks be_bytes
covers = refl

prove_verifies_example :
    (p : Proof) × (prove toy_mac 3 2 content (tags toy_mac key (5 ∷ []) content) challenge
      ≡ proved p)
    × (verify toy_mac 3 key (5 ∷ []) challenge p ≡ some true)
prove_verifies_example =
    prove_verifies toy_mac 3 key (5 ∷ []) content challenge
      (record { i = 0; nu = 2 ^ 200 * 21 + 7 } ∷ []) key-IsKey covers queries
