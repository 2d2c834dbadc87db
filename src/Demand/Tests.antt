-- ===== src/Demand/Tests.antt =====
-- An issuer, a fetcher and an object on which the theorems about core/demand apply.
use bitbit.Base.{
  ℕ, zero, suc, ◌+◌, ◌≡◌, refl, true, false, none, some, List, [], ◌∷◌, length, drop, arith, mem,
}
use bitbit.Base.Int.{pos}
use bitbit.Base.Bytes.{
  Bytes, be_bytes, be_value, be_value_from, length-be_bytes, mem_bytes, bytes_equal,
  bytes_equal_refl,
}
use bitbit.Chain.State.{hash_bytes}
use bitbit.Blind.Rsa.{
  blinds, blind_d, blind_demand, verify_d, verify_demand, full_domain_hash_d, expand, bit_len,
  bit_len_from, big_bytes, mod_inverse, inverse_from, mod_exp, rand_int, draw_unit,
}
use bitbit.Blind.Tests.{public, private, private-IsKeyPair, random}
use bitbit.Por.Scheme.{
  prime, Key, Query, Challenge, blocks, default_params, tags, expand_from, coefficient, prf_uint,
  prf_elem, prf_bytes,
}
use bitbit.Por.Scheme
use bitbit.Por.Keys.{derive_key, keygen, rand_elem, rand_elems, det_read, refill}
use bitbit.Demand.Receipts.{
  Crypto, Token, DeliveryReceipt, signed, withdraw, sign_withdrawal, unblind, verify_token,
  object_key, challenge_for, ack,
}
use bitbit.Demand.Bank.{
  Bank, credited, new_bank, require_bonded_fetcher, demand_of, slots_of, redeem,
}
use bitbit.Demand.Slots.{opens, redeems, BondedSlots, demand_distinct}
use bitbit.Demand.Unbacked.{zero_proof, empty_receipt_credited}
use bitbit.Demand.Exchange.{demand_round_trip}

-- A signature is the key it was made with.
abbrev toy : Crypto
toy = record {
  sha256 = λ xs. 4 + length xs;
  mac = λ key message. 7;
  signer = λ key message. key;
  verify = λ key message sig. bytes_equal sig key;
}

abbrev fetcher : Bytes
fetcher = be_bytes 32 77

abbrev serial : Bytes
serial = 1 ∷ 2 ∷ 3 ∷ []

-- The serial hashes to 4, which is its own signature.
abbrev token : Token
token = record { serial = serial; sig = 4 ∷ [] }

unfoldable copies : ℕ → ℕ → List ℕ
copies zero v = []
copies (suc n) v = v ∷ copies n v

abbrev key : Key
key = record { sectors = 128; prf = be_bytes 32 7; alpha = copies 128 7 }

key_found : object_key toy 1 6 ≡ some key
unfolding object_key derive_key keygen rand_elems rand_elem det_read refill prime hash_bytes
    be_bytes be_value be_value_from drop copies
key_found = refl

abbrev empty_receipt : DeliveryReceipt
empty_receipt = signed toy (record {
  serial = serial;
  object = 6;
  server = 8;
  fetcher = fetcher;
  blocks = 0;
  proof = zero_proof;
  sig = [];
})

token_valid : verify_token toy public token ≡ true
unfolding verify_token verify_demand verify_d full_domain_hash_d expand bit_len bit_len_from mod_exp
    hash_bytes be_bytes be_value be_value_from
token_valid = refl

abbrev bank : Bank
unfolding new_bank
bank = new_bank

unspent : mem_bytes serial bank.spent ≡ false
unfolding mem_bytes new_bank bank
unspent = refl

ungated : bank.bonded ≡ none
unfolding new_bank bank
ungated = refl

empty_receipt_credited_example : (redeem toy 1 public token empty_receipt bank).1 ≡ credited
empty_receipt_credited_example =
    empty_receipt_credited toy 1 public token 6 8 fetcher key bank token_valid unspent ungated
      (length-be_bytes 32 77) (λ message. bytes_equal_refl fetcher) key_found

-- Every fetcher is bonded, and its key is its slot.
demand_distinct_example :
    let b =
      (redeem toy 1 public token empty_receipt (require_bonded_fetcher (λ k. some k) new_bank)).0 in
    (demand_of 6 b ≡ pos (length (slots_of 6 b))) × BondedSlots (λ k. some k) (slots_of 6 b)
demand_distinct_example =
    demand_distinct toy 1 (λ k. some k) 1 _ 6 (redeems public token empty_receipt opens)
      (omega arith)

withdrawn : withdraw toy random public serial ≡ blinds (2 ∷ []) (2 ∷ [])
unfolding withdraw blind_demand blind_d full_domain_hash_d expand bit_len bit_len_from big_bytes
    mod_inverse inverse_from mod_exp rand_int draw_unit hash_bytes be_bytes be_value be_value_from
    drop
withdrawn = refl

abbrev content : Bytes
content = 5 ∷ 6 ∷ 7 ∷ []

abbrev query : Query
query = record { i = 0; nu = 7 }

queried :
    Scheme.expand toy.mac 1 (challenge_for toy serial 6 8 (blocks default_params (length content)))
    ≡ some (query ∷ [])
unfolding Scheme.expand expand_from challenge_for blocks coefficient prf_uint prf_elem prf_bytes
    prime be_bytes mem
queried = refl

demand_round_trip_example :
    let paid = unblind public serial (sign_withdrawal private (2 ∷ [])) (2 ∷ []) in
    (r : DeliveryReceipt) × (ack toy 1 fetcher paid 6 8 content
        (tags toy.mac key (hash_bytes 6) content)
      ≡ some r)
    × ((redeem toy 1 public paid r bank).1 ≡ credited)
demand_round_trip_example =
    demand_round_trip toy 1 private random serial (2 ∷ []) (2 ∷ []) fetcher content 6 8 key
      (query ∷ []) bank private-IsKeyPair (omega arith) withdrawn unspent ungated
      (length-be_bytes 32 77) (λ message. bytes_equal_refl fetcher) key_found queried
