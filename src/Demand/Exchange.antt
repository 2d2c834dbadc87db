-- ===== src/Demand/Exchange.antt =====
-- A whole retrieval, from the withdrawal of a token to the credit for its receipt: core/demand/demand.go.
use bitbit.Base.{
  ℕ, ◌<◌, ◌≡◌, refl, sym, ap, ◌∙◌, true, false, none, some, List, [], length, ltb, ◌==◌, arith,
}
use bitbit.Base.Bytes.{Bytes, mem_bytes, bytes_equal_refl}
use bitbit.Chain.State.{hash_bytes}
use bitbit.Blind.Rsa.{PrivateKey, blinds, blind_demand, verify_demand, demand_domain}
use bitbit.Blind.RoundTrip.{IsKeyPair, blind_round_trip}
use bitbit.Por.Scheme.{default_params, Key, Query, proved, blocks, tags, expand, prove}
use bitbit.Por.Completeness.{prove_verifies}
use bitbit.Por.Keys.{derive_key-IsKey}
use bitbit.Demand.Receipts.{
  Crypto, DeliveryReceipt, signed, acknowledge, receipt_msg, verify_token, object_key,
  challenge_for, withdraw, sign_withdrawal, unblind, ack,
}
use bitbit.Demand.Bank.{Bank, credited, redeem, delivered}

module _ (cr : Crypto) (draws : ℕ) where
  -- The token of a withdrawal that went through.
  token-verifies :
      (priv : PrivateKey) (rng serial blinded secret : Bytes)
      → IsKeyPair priv
      → 0 < length serial
      → withdraw cr rng priv.public serial ≡ blinds blinded secret
      → verify_token cr priv.public
          (unblind priv.public serial (sign_withdrawal priv blinded) secret)
        ≡ true
  unfolding verify_token withdraw blind_demand verify_demand unblind sign_withdrawal
  token-verifies priv rng serial blinded secret pair nonempty withdrawn =
      let there : ltb 0 (length serial) ≡ true = ground (arith, nonempty) in
      rw there
        (blind_round_trip cr.sha256 priv rng serial demand_domain blinded secret pair withdrawn)

  -- A fetcher withdraws a token blindly, receives an object's bytes with the tags under the object's key,
  -- and acknowledges them: the acknowledgement succeeds, and the bank credits its receipt, where the
  -- exponents of the issuer's key are inverse, the serial is not empty and was not spent, the
  -- credential is not required, signatures verify, the fetcher's key has 32 bytes, and the object's
  -- key and the challenge are found within the draws.
  pub demand_round_trip :
      (priv : PrivateKey) (rng serial blinded secret fetcher content : Bytes) (object server : ℕ)
      (key : Key) (qs : List Query) (b : Bank)
      → IsKeyPair priv
      → 0 < length serial
      → withdraw cr rng priv.public serial ≡ blinds blinded secret
      → mem_bytes serial b.spent ≡ false
      → b.bonded ≡ none
      → length fetcher ≡ 32
      → ((msg : Bytes) → cr.verify fetcher msg (cr.signer fetcher msg) ≡ true)
      → object_key cr draws object ≡ some key
      → expand cr.mac draws
          (challenge_for cr serial object server (blocks default_params (length content)))
        ≡ some qs
      → let token = unblind priv.public serial (sign_withdrawal priv blinded) secret in
        (r : DeliveryReceipt) × (ack cr draws fetcher token object server content
            (tags cr.mac key (hash_bytes object) content)
          ≡ some r)
        × ((redeem cr draws priv.public token r b).1 ≡ credited)
  unfolding redeem ack unblind object_key challenge_for receipt_msg
  demand_round_trip priv rng serial blinded secret fetcher content object server key qs b pair
        nonempty withdrawn unspent open_gate size signs found expanded =
      let token = unblind priv.public serial (sign_withdrawal priv blinded) secret in
      let n = blocks default_params (length content) in
      let c = challenge_for cr serial object server n in
      let tag_list = tags cr.mac key (hash_bytes object) content in
      let (is_key, sectors) = derive_key-IsKey cr.mac draws _ default_params key found in
      let whole : n ≡ blocks key.sectors (length content) =
        ap (λ z. blocks z (length content)) (sym sectors) in
      let (p, made, holds) =
        prove_verifies cr.mac draws key (hash_bytes object) content c qs is_key whole expanded in
      let proof : prove cr.mac draws default_params content tag_list c ≡ proved p =
        ap (λ z. prove cr.mac draws z content tag_list c) (sym sectors) ∙ made in
      let r : DeliveryReceipt = signed cr (record {
        serial = serial;
        object = object;
        server = server;
        fetcher = fetcher;
        blocks = n;
        proof = p;
        sig = [];
      }) in
      let acked : ack cr draws fetcher token object server content tag_list ≡ some r =
        ap (acknowledge cr fetcher token object server n) proof in
      let accepted : delivered cr draws r ≡ true = rw (found, holds) refl in
      let sized : (length fetcher == 32) ≡ true = ground (arith, size) in
      let valid : verify_token cr priv.public token ≡ true =
        token-verifies priv rng serial blinded secret pair nonempty withdrawn in
      let answer : (redeem cr draws priv.public token r b).1 ≡ credited =
        rw
          (
            redeem,
            valid,
            bytes_equal_refl serial,
            unspent,
            sized,
            signs (receipt_msg cr r),
            accepted,
            open_gate,
          )
          refl in
      (r, acked, answer)
