-- ===== src/Demand/Receipts.antt =====
-- Retrieval tokens, delivery receipts and exchange commitments: core/demand/demand.go and
-- core/demand/fairexchange.go. SHA-256, HMAC-SHA-256 and Ed25519 are parameters: `signer` signs with
-- the private key of a public key. A digest is a number, and a number of blocks is not negative.
use bitbit.Base.{
  ℕ, zero, suc, ◌/◌, ◌%◌, Bool, false, not, ◌&&◌, Option, none, some, List, [], ◌∷◌, ◌++◌, length,
  ltb, ◌==◌, if◌then◌else◌,
}
use bitbit.Base.Bytes.{Bytes, ascii}
use bitbit.Chain.State.{hash_bytes}
use bitbit.Chain.Types.{RsaKey}
use bitbit.Blind.Rsa.{PrivateKey, BlindResult, blind_demand, sign_blinded, verify_demand}
use bitbit.Blind.Rsa
use bitbit.Por.Scheme.{Key, Challenge, Proof, ProveResult, proved, default_params, blocks, prove}
use bitbit.Por.Keys.{derive_key}

abbrev pub sample_count : ℕ
sample_count = 128

pub record Token : Type 0 where
  pub serial : Bytes
  pub sig : Bytes

pub record DeliveryReceipt : Type 0 where
  pub serial : Bytes
  pub object : ℕ
  pub server : ℕ
  pub fetcher : Bytes
  pub blocks : ℕ
  pub proof : Proof
  pub sig : Bytes

pub record ExchangeCommitment : Type 0 where
  pub serial : Bytes
  pub object : ℕ
  pub server : ℕ
  pub fetcher : Bytes
  pub sig : Bytes

-- The code outside the repository.
pub record Crypto : Type 0 where
  pub sha256 : Bytes → ℕ
  pub mac : Bytes → Bytes → ℕ
  pub signer : Bytes → Bytes → Bytes
  pub verify : Bytes → Bytes → Bytes → Bool

unfoldable pub unblind : RsaKey → Bytes → Bytes → Bytes → Token
unblind key serial blind_sig secret = record {
  serial = serial;
  sig = Rsa.unblind key blind_sig secret;
}

unfoldable pub sign_withdrawal : PrivateKey → Bytes → Bytes
sign_withdrawal priv blinded = sign_blinded priv blinded

-- The low bytes first.
unfoldable pub le_bytes : ℕ → ℕ → Bytes
le_bytes zero n = []
le_bytes (suc k) n = n % 256 ∷ le_bytes k (n / 256)

unfoldable pub concat : List Bytes → Bytes
concat [] = []
concat (m ∷ mu) = m ++ concat mu

module _ (cr : Crypto) where
  unfoldable pub withdraw : Bytes → RsaKey → Bytes → BlindResult
  withdraw rng key serial = blind_demand cr.sha256 rng key serial

  unfoldable pub verify_token : RsaKey → Token → Bool
  verify_token key t = ltb 0 (length t.serial) && verify_demand cr.sha256 key t.serial t.sig

  -- None where no key is found within the draws.
  unfoldable pub object_key : ℕ → ℕ → Option Key
  object_key draws object =
      derive_key cr.mac draws
        (hash_bytes (cr.sha256 (ascii "silt/demand/por/v1" ++ hash_bytes object))) default_params

  unfoldable pub ack_seed : Bytes → ℕ → ℕ → Bytes
  ack_seed serial object server = hash_bytes (
      cr.sha256
        (ascii "silt/demand/ack/v1" ++ (serial ++ (hash_bytes object ++ hash_bytes server))))

  unfoldable pub challenge_for : Bytes → ℕ → ℕ → ℕ → Challenge
  challenge_for serial object server blocks =
      let count = if ltb blocks sample_count then blocks else sample_count in
      record { seed = ack_seed serial object server; blocks = blocks; count = count }

  unfoldable pub receipt_msg : DeliveryReceipt → Bytes
  receipt_msg r = hash_bytes (
      cr.sha256 (
        ascii "silt/demand/receipt/v1"
        ++ (r.serial
            ++ (hash_bytes r.object
                ++ (hash_bytes r.server
                    ++ (r.fetcher
                        ++ (le_bytes 8 r.blocks ++ (concat r.proof.mu ++ r.proof.sigma))))))))

  abbrev pub signed : DeliveryReceipt → DeliveryReceipt
  signed r = record r { sig = cr.signer r.fetcher (receipt_msg r) }

  abbrev pub acknowledge : Bytes → Token → ℕ → ℕ → ℕ → ProveResult → Option DeliveryReceipt
  acknowledge fetcher token object server n (proved p) = some (
      signed (record {
        serial = token.serial;
        object = object;
        server = server;
        fetcher = fetcher;
        blocks = n;
        proof = p;
        sig = [];
      }))
  acknowledge fetcher token object server n _ = none

  -- `fetcher` is the public key; none is an error of `Prove`.
  unfoldable pub ack : ℕ → Bytes → Token → ℕ → ℕ → Bytes → List Bytes → Option DeliveryReceipt
  ack draws fetcher token object server content tags =
      let n = blocks default_params (length content) in
      let c = challenge_for token.serial object server n in
      acknowledge fetcher token object server n (prove cr.mac draws default_params content tags c)

  unfoldable pub commitment_msg : Bytes → ℕ → ℕ → Bytes → Bytes
  commitment_msg serial object server fetcher = hash_bytes (
      cr.sha256 (
        ascii "silt/demand/exchange-commit/v1"
        ++ (serial ++ (hash_bytes object ++ (hash_bytes server ++ fetcher)))))

  unfoldable pub commit : Bytes → Token → ℕ → ℕ → ExchangeCommitment
  commit fetcher token object server = record {
    serial = token.serial;
    object = object;
    server = server;
    fetcher = fetcher;
    sig = cr.signer fetcher (commitment_msg token.serial object server fetcher);
  }

  unfoldable pub verify_commitment : ExchangeCommitment → Bool
  verify_commitment c =
      if not (length c.fetcher == 32)
      then false
      else cr.verify c.fetcher (commitment_msg c.serial c.object c.server c.fetcher) c.sig
