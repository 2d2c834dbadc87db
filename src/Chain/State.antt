-- ===== src/Chain/State.antt =====
-- A replica's state (`Chain` in core/chain/chain.go), the hashes and messages that are signed, and
-- who may propose and attest.
use bitbit.Base.{
  ℕ, ◌+◌, ◌-◌, ◌/◌, ◌%◌, ◌^◌, Bool, true, false, ◌&&◌, ◌||◌, not, Option, none, some, List, [], ◌∷◌,
  ◌++◌, length, ◌==◌, if◌then◌else◌,
}
use bitbit.Base.{mem}
use bitbit.Base.Int.{ℤ, pos, word64, ltb_ℤ, leb_ℤ}
use bitbit.Base.Maps.{Map, lookup, get_or}
use bitbit.Base.Bytes.{Bytes, ascii, be_bytes}
use bitbit.Chain.Types.{
  Entry, BondReg, Block, block, body, slashes_of, Config, RsaKey, Crypto, Attestation,
}

pub record Chain : Type 0 where
  pub cfg : Config
  pub rep : ℕ → ℤ
  pub blocks : List Block
  pub by_root : Map Entry
  pub revoked : List ℕ
  pub rev_log : List ℕ
  pub validators_seen : List ℕ
  pub ever_mature : Bool
  pub token_quorum : ℤ
  pub issuer_key : ℕ → Option RsaKey
  pub spent : List Bytes
  pub bonded : Map ℤ
  pub verify_bond : Option (Bytes → ℕ → ℤ → ℕ → Bytes → Bool)
  pub bond_root_owner : Map ℕ
  pub bond_root_proven : List ℕ
  pub bond_reg_height : Map ℕ
  pub bond_domain : Map ℕ
  pub slashed : List ℕ

unfoldable pub new : Config → (ℕ → ℤ) → Chain
new cfg rep = record {
  cfg = cfg;
  rep = rep;
  blocks = [];
  by_root = [];
  revoked = [];
  rev_log = [];
  validators_seen = [];
  ever_mature = false;
  token_quorum = pos 0;
  issuer_key = λ id. none;
  spent = [];
  bonded = [];
  verify_bond = none;
  bond_root_owner = [];
  bond_root_proven = [];
  bond_reg_height = [];
  bond_domain = [];
  slashed = [];
}

unfoldable pub default_config : Config
default_config = record {
  min_proposer_rep = pos 100;
  min_attester_rep = pos 100;
  quorum = pos 3;
  byzantine_quorum = false;
  anchors = [];
  anchor_quorum = pos 0;
  mature_validators = pos 0;
  operator_margin = pos 0;
  allow_publisher = false;
  min_bond = pos 0;
  min_bond_bytes = pos 0;
  bond_ttl_blocks = 0;
  ws_checkpoint = record { height = 0; hash = 0 };
}

-- `SetBondVerifier` and `RequireTokens`
unfoldable pub set_bond_verifier : (Bytes → ℕ → ℤ → ℕ → Bytes → Bool) → Chain → Chain
set_bond_verifier f c = record c { verify_bond = some f }

unfoldable pub require_tokens : ℤ → (ℕ → Option RsaKey) → Chain → Chain
require_tokens quorum issuer_key c = record c { token_quorum = quorum; issuer_key = issuer_key }

-- A Hash as the 32 bytes that it is.
unfoldable pub hash_bytes : ℕ → Bytes
hash_bytes h = be_bytes 32 h

-- The copy that `Hash` encodes: the block without its signatures.
unfoldable pub unsigned : Block → Block
unsigned b = block (record (body b) { proposer_sig = []; atts = [] }) (slashes_of b)

module _ (cr : Crypto) where
  unfoldable pub hash : Block → ℕ
  unfolding unsigned
  hash b = cr.sha256 (cr.encode (unsigned b))

  unfoldable pub proposer_id : Block → ℕ
  proposer_id b = cr.sha256 (body b).proposer

  unfoldable pub attester_id : Attestation → ℕ
  attester_id a = cr.sha256 a.pub_key

  unfoldable pub validator_id : BondReg → ℕ
  validator_id r = cr.sha256 r.validator

  -- The first eight bytes of the digest.
  unfoldable pub bond_reg_nonce : ℕ → ℕ
  bond_reg_nonce prev = cr.sha256 (ascii "silt/chain/bondreg/nonce/v1" ++ hash_bytes prev) / 2 ^ 192

  unfoldable pub revocation_leaf : ℕ → ℕ → ℕ → ℕ
  revocation_leaf op root height =
      cr.sha256 (ascii "silt/revlog/v1" ++ (op ∷ (hash_bytes root ++ be_bytes 8 height)))

  -- The head's hash, and the height that the next block must carry.
  unfoldable pub head_of : List Block → ℕ × ℕ
  head_of [] = (0, 0)
  head_of (b ∷ []) = (hash b, ((body b).height + 1) % 2 ^ 64)
  head_of (b ∷ c ∷ bs) = head_of (c ∷ bs)

  unfoldable pub head : Chain → ℕ × ℕ
  head c = head_of c.blocks

-- `signingBytes`: the domain is signed only where it is set.
unfoldable pub signing_bytes : BondReg → ℕ → Bytes
signing_bytes r nonce =
    ascii "silt/chain/bondreg/v1"
    ++ (hash_bytes r.root
        ++ (be_bytes 8 (word64 r.size)
            ++ (be_bytes 8 nonce
                ++ (if r.domain == 0
                    then []
                    else ascii "silt/chain/bondreg/domain/v1" ++ be_bytes 8 r.domain))))

abbrev pub is_set {ℓ} : {A : Type ℓ} → Option A → Bool
is_set none = false
is_set (some f) = true

unfoldable pub objective : Chain → Bool
objective c = ltb_ℤ (pos 0) c.cfg.min_bond && is_set c.verify_bond

-- `c.bonded[id]`, and `BondedSize`
unfoldable pub bonded_size : ℕ → Chain → ℤ
bonded_size id c = get_or (lookup id c.bonded) (pos 0)

unfoldable pub launch_anchor : ℕ → Chain → Bool
launch_anchor id c = mem id c.cfg.anchors && not c.ever_mature

unfoldable pub attester_qualified : ℕ → Chain → Bool
attester_qualified id c =
    if mem id c.slashed
    then false
    else if objective c
    then leb_ℤ c.cfg.min_bond (bonded_size id c) || launch_anchor id c
    else leb_ℤ c.cfg.min_attester_rep (c.rep id)

unfoldable pub proposer_qualified : ℕ → Chain → Bool
proposer_qualified id c =
    if mem id c.slashed
    then false
    else if objective c
    then leb_ℤ c.cfg.min_bond (bonded_size id c) || launch_anchor id c
    else leb_ℤ c.cfg.min_proposer_rep (c.rep id)

unfoldable pub is_bonded : ℕ → Chain → Bool
is_bonded id c =
    ltb_ℤ (pos 0) c.cfg.min_bond
    && (not (mem id c.slashed) && leb_ℤ c.cfg.min_bond (bonded_size id c))

-- The identities that `qualifiedCount` counts.
unfoldable pub qualified_of : ℤ → List ℕ → Map ℤ → List ℕ
qualified_of min_bond slashed [] = []
qualified_of min_bond slashed ((id, sz) ∷ m) =
    let rest = qualified_of min_bond slashed m in
    if leb_ℤ min_bond sz && not (mem id slashed) then id ∷ rest else rest

unfoldable pub qualified : Chain → List ℕ
qualified c = qualified_of c.cfg.min_bond c.slashed c.bonded

-- A count of zero or more: the source's clamp of a negative result never fires on one.
unfoldable pub bft_threshold : ℕ → ℕ
bft_threshold n = if n == 0 then 0 else n - (n - 1) / 3 - 1

unfoldable pub required_quorum : Chain → ℤ
required_quorum c =
    if c.cfg.byzantine_quorum && objective c
    then (let bq = pos (bft_threshold (length (qualified c))) in
        if ltb_ℤ c.cfg.quorum bq then bq else c.cfg.quorum)
    else c.cfg.quorum
