-- ===== src/Chain/Inversion.antt =====
-- What each accepted block satisfies, check by check: the successful runs of `ValidateProposal`,
-- `ValidateCommit`, `validateStructural` and `AppendGenesis`, taken apart.
use bitbit.Base.{ℕ, ◌≡◌, refl, Bool, true, false, not, ◌&&◌, List, [], length, ◌==◌}
use bitbit.Base.Int.{pos, ltb_ℤ}
use bitbit.Chain.Types.{
  Block, body, slashes_of, proofs, Crypto, Error, Result, ok, err, ◌>>=◌, ◌>>◌, Check, require,
  wrong_parent, bad_signature, low_reputation, empty_block, no_quorum, not_first, malformed_genesis,
  empty_genesis, genesis_takedown,
}
use bitbit.Chain.State.{Chain, hash, proposer_id, proposer_qualified, required_quorum}
use bitbit.Chain.Apply.{key_size, apply}
use bitbit.Chain.Rules.{
  signs, extends_head, has_nothing, is_empty, validate_parent, validate_takedowns,
  validate_bond_regs, validate_slashes, validate_entries, validate_proposal, count_atts,
  anchor_rule, de_mature_rule, validate_commit, append, validate_structural, append_structural,
  validate_genesis, append_genesis,
}

-- What the success of a chain of steps says of its first one.
module _ {ℓ} {B : Type ℓ} {done : B} where
  pub >>=-eq-ok {κ} :
      {A : Type κ} (first : Result A) (next : A → Result B)
      → (first >>= next) ≡ ok done
      → (value : A) × (first ≡ ok value) × (next value ≡ ok done)
  >>=-eq-ok (err fault) next success = cc
  >>=-eq-ok (ok value) next success = (value, refl, success)

  pub >>-eq-ok :
      (check : Check) (rest : Result B)
      → (check >> rest) ≡ ok done
      → (check ≡ ok tt) × (rest ≡ ok done)
  >>-eq-ok (err fault) rest success = cc
  >>-eq-ok (ok tt) rest success = (refl, success)

pub require-ok : (test : Bool) (fault : Error) → require test fault ≡ ok tt → test ≡ true
require-ok false fault success = cc
require-ok true fault success = refl

module _ (cr : Crypto) (c : Chain) (b : Block) where
  pub record ParentOk : Type 0 where
    pub extends : extends_head cr c b ≡ true
    pub key : (length (body b).proposer == key_size) ≡ true
    pub signed : signs cr (body b).proposer (hash cr b) (body b).proposer_sig ≡ true

  pub record ProposalOk : Type 0 where
    pub parent : ParentOk
    pub proposer : proposer_qualified (proposer_id cr b) c ≡ true
    pub something : not (has_nothing b) ≡ true
    pub takedowns : validate_takedowns c b ≡ ok tt
    pub regs : validate_bond_regs cr c b ≡ ok tt
    pub slashes : validate_slashes cr (proofs (slashes_of b)) ≡ ok tt
    pub entries : validate_entries cr c [] [] (body b).entries ≡ ok tt

  pub record CommitOk : Type 0 where
    pub proposal : ProposalOk
    pub seen : List ℕ
    pub counted : count_atts cr c b (body b).atts [] ≡ ok seen
    pub quorum : not (ltb_ℤ (pos (length seen)) (required_quorum c)) ≡ true
    pub anchors : anchor_rule c seen ≡ ok tt
    pub de_mature : de_mature_rule c (proposer_id cr b) seen ≡ ok tt

  pub record StructuralOk : Type 0 where
    pub parent : ParentOk
    pub takedowns : validate_takedowns c b ≡ ok tt
    pub slashes : validate_slashes cr (proofs (slashes_of b)) ≡ ok tt

  pub record GenesisOk : Type 0 where
    pub first : is_empty c.blocks ≡ true
    pub place : (((body b).height == 0) && ((body b).prev == 0)) ≡ true
    pub takedowns : (is_empty (body b).revocations && is_empty (body b).unrevocations) ≡ true
    pub slashes : is_empty (proofs (slashes_of b)) ≡ true

  parent-ok : validate_parent cr c b ≡ ok tt → ParentOk
  unfolding validate_parent
  parent-ok h =
      let (h₁, r₁) = >>-eq-ok (require (extends_head cr c b) wrong_parent) _ h in
      let (h₂, r₂) = >>-eq-ok (require (length (body b).proposer == key_size) bad_signature) _ r₁ in
      record {
        extends = require-ok _ wrong_parent h₁;
        key = require-ok _ bad_signature h₂;
        signed = require-ok _ bad_signature r₂;
      }

  pub proposal-ok : validate_proposal cr c b ≡ ok tt → ProposalOk
  unfolding validate_proposal
  proposal-ok h =
      let (h₁, r₁) = >>-eq-ok (validate_parent cr c b) _ h in
      let (h₂, r₂) =
        >>-eq-ok (require (proposer_qualified (proposer_id cr b) c) low_reputation) _ r₁ in
      let (h₃, r₃) = >>-eq-ok (require (not (has_nothing b)) empty_block) _ r₂ in
      let (h₄, r₄) = >>-eq-ok (validate_takedowns c b) _ r₃ in
      let (h₅, r₅) = >>-eq-ok (validate_bond_regs cr c b) _ r₄ in
      let (h₆, r₆) = >>-eq-ok (validate_slashes cr (proofs (slashes_of b))) _ r₅ in
      record {
        parent = parent-ok h₁;
        proposer = require-ok _ low_reputation h₂;
        something = require-ok _ empty_block h₃;
        takedowns = h₄;
        regs = h₅;
        slashes = h₆;
        entries = r₆;
      }

  pub commit-ok : validate_commit cr c b ≡ ok tt → CommitOk
  unfolding validate_commit
  commit-ok h =
      let (h₁, r₁) = >>-eq-ok (validate_proposal cr c b) _ h in
      let (seen, h₂, r₂) = >>=-eq-ok (count_atts cr c b (body b).atts []) _ r₁ in
      let (h₃, r₃) =
        >>-eq-ok (require (not (ltb_ℤ (pos (length seen)) (required_quorum c))) no_quorum) _ r₂ in
      let (h₄, r₄) = >>-eq-ok (anchor_rule c seen) _ r₃ in
      record {
        proposal = proposal-ok h₁;
        seen = seen;
        counted = h₂;
        quorum = require-ok _ no_quorum h₃;
        anchors = h₄;
        de_mature = r₄;
      }

  pub structural-ok : validate_structural cr c b ≡ ok tt → StructuralOk
  unfolding validate_structural
  structural-ok h =
      let (h₁, r₁) = >>-eq-ok (validate_parent cr c b) _ h in
      let (h₂, r₂) = >>-eq-ok (require (not (has_nothing b)) empty_block) _ r₁ in
      let (h₃, r₃) = >>-eq-ok (validate_takedowns c b) _ r₂ in
      let (h₄, r₄) = >>-eq-ok (validate_slashes cr (proofs (slashes_of b))) _ r₃ in
      record { parent = parent-ok h₁; takedowns = h₃; slashes = h₄ }

  pub genesis-ok : validate_genesis cr c b ≡ ok tt → GenesisOk
  unfolding validate_genesis
  genesis-ok h =
      let (h₁, r₁) = >>-eq-ok (require (is_empty c.blocks) not_first) _ h in
      let (h₂, r₂) = >>-eq-ok (require _ malformed_genesis) _ r₁ in
      let (h₃, r₃) = >>-eq-ok (require (length (body b).proposer == key_size) bad_signature) _ r₂ in
      let (h₄, r₄) =
        >>-eq-ok
          (require (signs cr (body b).proposer (hash cr b) (body b).proposer_sig) bad_signature) _
          r₃ in
      let (h₅, r₅) = >>-eq-ok (require (not (is_empty (body b).entries)) empty_genesis) _ r₄ in
      let (h₆, r₆) = >>-eq-ok (require _ genesis_takedown) _ r₅ in
      record {
        first = require-ok _ not_first h₁;
        place = require-ok _ malformed_genesis h₂;
        takedowns = require-ok _ genesis_takedown h₆;
        slashes = require-ok _ genesis_takedown r₆;
      }

  -- A block that is appended was accepted, and the new replica is what `apply` makes.
  pub append-ok :
      {c' : Chain} → append cr c b ≡ ok c' → (validate_commit cr c b ≡ ok tt) × (c' ≡ apply cr b c)
  unfolding append
  append-ok h = let (h₁, r₁) = >>-eq-ok (validate_commit cr c b) _ h in (h₁, cc)

  pub append_structural-ok :
      {c' : Chain}
      → append_structural cr c b ≡ ok c'
      → (validate_structural cr c b ≡ ok tt) × (c' ≡ apply cr b c)
  unfolding append_structural
  append_structural-ok h = let (h₁, r₁) = >>-eq-ok (validate_structural cr c b) _ h in (h₁, cc)

  pub append_genesis-ok :
      {c' : Chain}
      → append_genesis cr c b ≡ ok c'
      → (validate_genesis cr c b ≡ ok tt) × (c' ≡ apply cr b c)
  unfolding append_genesis
  append_genesis-ok h = let (h₁, r₁) = >>-eq-ok (validate_genesis cr c b) _ h in (h₁, cc)
