-- ===== src/Chain/Types.antt =====
-- The data of core/chain/chain.go and core/chain/equivocation.go, of ports.Entry and its token, and
-- the errors. A NodeID or a Hash is the number that its 32 bytes spell, big end first.
use bitbit.Base.{ℕ, Bool, Option, List, [], ◌∷◌, if◌then◌else◌}
use bitbit.Base.Int.{ℤ}
use bitbit.Base.Bytes.{Bytes}

-- ports.TokenSig, ports.PublishToken and ports.Entry
pub record TokenSig : Type 0 where
  pub validator : ℕ
  pub sig : Bytes

pub record PublishToken : Type 0 where
  pub serial : Bytes
  pub sigs : List TokenSig

pub record Entry : Type 0 where
  pub root : ℕ
  pub manifest_chunks : List ℕ
  pub file_size : ℤ
  pub publisher : ℕ
  pub token : Option PublishToken

pub record Attestation : Type 0 where
  pub pub_key : Bytes
  pub sig : Bytes

pub record BondReg : Type 0 where
  pub validator : Bytes
  pub root : ℕ
  pub size : ℤ
  pub answer : Bytes
  pub sig : Bytes
  pub domain : ℕ

-- `Block` without its `Slashes`, which hold blocks in their turn.
pub record Body : Type 0 where
  pub height : ℕ
  pub prev : ℕ
  pub entries : List Entry
  pub proposer : Bytes
  pub proposer_sig : Bytes
  pub atts : List Attestation
  pub revocations : List ℕ
  pub version : ℕ
  pub unrevocations : List ℕ
  pub bond_regs : List BondReg

mutual
  pub data Block : Type 0 where
    block : Body → Slashes → Block

  pub data Slashes : Type 0 where
    no_slashes : Slashes
    slash : Bytes → Block → Block → Slashes → Slashes

abbrev pub body : Block → Body
body (block x s) = x

abbrev pub slashes_of : Block → Slashes
slashes_of (block x s) = s

pub record Equivocation : Type 0 where
  pub culprit : Bytes
  pub a : Block
  pub b : Block

-- `b.Slashes` as a list
abbrev pub proofs : Slashes → List Equivocation
proofs no_slashes = []
proofs (slash culprit a b rest) = record { culprit = culprit; a = a; b = b } ∷ proofs rest

pub record WsCheckpoint : Type 0 where
  pub height : ℕ
  pub hash : ℕ

pub record Config : Type 0 where
  pub min_proposer_rep : ℤ
  pub min_attester_rep : ℤ
  pub quorum : ℤ
  pub byzantine_quorum : Bool
  pub anchors : List ℕ
  pub anchor_quorum : ℤ
  pub mature_validators : ℤ
  pub operator_margin : ℤ
  pub allow_publisher : Bool
  pub min_bond : ℤ
  pub min_bond_bytes : ℤ
  pub bond_ttl_blocks : ℕ
  pub ws_checkpoint : WsCheckpoint

abbrev pub block_version : ℕ
block_version = 1

-- An RSA public key, as `crypto/rsa` has it.
pub record RsaKey : Type 0 where
  pub modulus : ℕ
  pub exponent : ℕ

-- The code outside the repository, and the checks that are built on it: SHA-256, the canonical CBOR
-- encoding of a block, Ed25519 verification, and the blind-signature check of a token.
pub record Crypto : Type 0 where
  pub sha256 : Bytes → ℕ
  pub encode : Block → Bytes
  pub verify : Bytes → Bytes → Bytes → Bool
  pub blind_verify : RsaKey → Bytes → Bytes → Bool

pub data Error : Type 0 where
  low_reputation no_quorum bad_signature wrong_parent dup_root anchor_required : Error
  de_mature_quorum pre_checkpoint_reorg token_required token_spent publisher_entry : Error
  empty_fork no_genesis foreign_genesis revoke_unknown_root unrevoke_not_revoked : Error
  bad_bond_reg bad_slash genesis_takedown empty_block no_manifest not_first : Error
  malformed_genesis empty_genesis token_bad_sig token_few_sigs : Error

pub data Result {ℓ} (A : Type ℓ) : Type ℓ where
  err : Error → Result A
  ok : A → Result A

-- A method that returns only an `error`.
abbrev pub Check : Type 0
Check = Result (Unit {0})

-- `if err != nil { return err }` after a call, with the call's value and without.
module _ {ℓ} {B : Type ℓ} where
  infixl 5 ◌>>◌ ◌>>=◌
  abbrev pub ◌>>=◌ {κ} : {A : Type κ} → Result A → (A → Result B) → Result B
  err fault >>= next = err fault
  ok value >>= next = next value

  abbrev pub ◌>>◌ : Check → Result B → Result B
  check >> rest = check >>= λ _. rest

-- `if !test { return err }`
abbrev pub require : Bool → Error → Check
require test e = if test then ok tt else err e
