-- ===== src/Demand/Unbacked.antt =====
-- Receipts that no delivery stands behind: core/demand/demand.go.
use bitbit.Base.{
  ℕ, zero, suc, ◌+◌, ◌*◌, ◌%◌, ◌≡◌, refl, ap, ◌∙◌, true, false, none, some, List, [], ◌∷◌, length,
  leb, ◌==◌, arith,
}
use bitbit.Base.Bytes.{Bytes, mem_bytes, bytes_equal, bytes_equal_refl, be_value}
use bitbit.Chain.State.{hash_bytes}
use bitbit.Chain.Types.{RsaKey}
use bitbit.Por.Scheme.{
  prime, default_params, Key, Proof, encode_elem, encode_all, zero_elems, add_mu, add_prf, expand,
  expand_from, verify,
}
use bitbit.Por.Aggregates.{
  prime-positive, elem-round_trip, length-encode_elem, length-encode_all, length-zero_elems,
}
use bitbit.Por.Keys.{derive_key-IsKey}
use native.Mathlib.Nat.{mod-eq_of_lt}
use bitbit.Demand.Receipts.{
  ack_seed, Crypto, Token, DeliveryReceipt, signed, receipt_msg, verify_token, object_key,
  challenge_for,
}
use bitbit.Demand.Bank.{Bank, credited, delivered, redeem}

-- The proof that says nothing.
abbrev pub zero_proof : Proof
zero_proof = record { mu = encode_all (zero_elems 128); sigma = encode_elem 0 }

expand-none :
    (mac : Bytes → Bytes → ℕ) (draws : ℕ) (seed : Bytes) (n : ℕ)
    → expand mac draws (record { seed = seed; blocks = n; count = 0 }) ≡ some []
unfolding expand expand_from
expand-none mac zero seed n = refl
expand-none mac (suc draws) seed n = refl

add_mu-zeros : (alpha : List ℕ) (n : ℕ) → add_mu alpha (encode_all (zero_elems n)) 0 ≡ some 0
unfolding add_mu encode_all zero_elems
add_mu-zeros [] zero = refl
add_mu-zeros [] (suc n) = refl
add_mu-zeros (a ∷ alpha) zero = refl
add_mu-zeros (a ∷ alpha) (suc n) =
    let value : be_value (encode_elem 0) ≡ 0 = elem-round_trip 0 prime-positive in
    let canonical : leb prime (be_value (encode_elem 0)) ≡ false =
      ground (arith, value, prime-positive) in
    let nothing : 0 + a * 0 ≡ 0 = omega arith in
    let still : (0 + a * 0) % prime ≡ 0 =
      ap (λ z. z % prime) nothing ∙ mod-eq_of_lt prime-positive in
    rw (canonical, value, still) (add_mu-zeros alpha n)

-- A challenge of no blocks is met by the zero proof, under every key of the default size.
verify-none :
    (mac : Bytes → Bytes → ℕ) (draws : ℕ) (key : Key) (unit_id seed : Bytes) (n : ℕ)
    → key.sectors ≡ default_params
    → verify mac draws key unit_id (record { seed = seed; blocks = n; count = 0 }) zero_proof
      ≡ some true
unfolding verify add_prf
verify-none mac draws key unit_id seed n h =
    let mu_size : (length (encode_all (zero_elems 128)) == key.sectors) ≡ true =
      ground (arith, length-encode_all (zero_elems 128), length-zero_elems 128, h) in
    let sigma_size : (length (encode_elem 0) == 32) ≡ true = ground (arith, length-encode_elem 0) in
    let value : be_value (encode_elem 0) ≡ 0 = elem-round_trip 0 prime-positive in
    let canonical : leb prime (be_value (encode_elem 0)) ≡ false =
      ground (arith, value, prime-positive) in
    rw
      (
        verify,
        mu_size,
        sigma_size,
        canonical,
        expand-none mac draws seed n,
        add_mu-zeros key.alpha 128,
        value,
      )
      refl

module _ (cr : Crypto) (draws : ℕ) where
  -- A receipt that claims no blocks at all, with the zero proof and the signature of any fetcher key, is
  -- credited as witnessed demand of any object by a bank that does not require the credential, for
  -- a valid and unspent token; nothing need be delivered, or be known of the object. The object's key
  -- must be found within the draws, and signatures must verify.
  pub empty_receipt_credited :
      (issuer : RsaKey) (token : Token) (object server : ℕ) (fetcher : Bytes) (key : Key) (b : Bank)
      → verify_token cr issuer token ≡ true
      → mem_bytes token.serial b.spent ≡ false
      → b.bonded ≡ none
      → length fetcher ≡ 32
      → ((msg : Bytes) → cr.verify fetcher msg (cr.signer fetcher msg) ≡ true)
      → object_key cr draws object ≡ some key
      → (redeem cr draws issuer token
          (signed cr (record {
            serial = token.serial;
            object = object;
            server = server;
            fetcher = fetcher;
            blocks = 0;
            proof = zero_proof;
            sig = [];
          }))
          b).1
        ≡ credited
  unfolding redeem challenge_for receipt_msg object_key
  empty_receipt_credited issuer token object server fetcher key b valid unspent open_gate size signs
        found =
      let r : DeliveryReceipt = signed cr (record {
        serial = token.serial;
        object = object;
        server = server;
        fetcher = fetcher;
        blocks = 0;
        proof = zero_proof;
        sig = [];
      }) in
      let (_, sectors) = derive_key-IsKey cr.mac draws _ default_params key found in
      let proof : verify cr.mac draws key (hash_bytes object)
            (challenge_for cr token.serial object server 0) zero_proof
          ≡ some true =
        verify-none cr.mac draws key (hash_bytes object) (ack_seed cr token.serial object server) 0
          sectors in
      let accepted : delivered cr draws r ≡ true = rw (found, proof) refl in
      let same : bytes_equal token.serial token.serial ≡ true = bytes_equal_refl token.serial in
      let sized : (length fetcher == 32) ≡ true = ground (arith, size) in
      rw (redeem, valid, same, unspent, sized, signs (receipt_msg cr r), accepted, open_gate) refl
