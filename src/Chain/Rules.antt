-- ===== src/Chain/Rules.antt =====
-- The checks of core/chain/chain.go and core/chain/equivocation.go, and the ways a block gets in.
use bitbit.Base.{
  ℕ, ◌+◌, Bool, true, false, ◌&&◌, ◌||◌, not, Option, none, some, List, [], ◌∷◌, ◌++◌, length, mem,
  ◌==◌, if◌then◌else◌,
}
use bitbit.Base.Int.{ℤ, pos, add64, mul64, quo, ltb_ℤ, leb_ℤ}
use bitbit.Base.Maps.{Map, lookup, is_some}
use bitbit.Base.Bytes.{Bytes, bytes_equal, mem_bytes}
use bitbit.Chain.Types.{
  Entry, PublishToken, TokenSig, BondReg, Block, body, slashes_of, Slashes, proofs, Crypto,
  Attestation, Equivocation, low_reputation, no_quorum, bad_signature, wrong_parent, dup_root,
  anchor_required, de_mature_quorum, token_required, token_spent, publisher_entry,
  revoke_unknown_root, unrevoke_not_revoked, bad_bond_reg, bad_slash, genesis_takedown, empty_block,
  no_manifest, not_first, malformed_genesis, empty_genesis, token_bad_sig, token_few_sigs, Result,
  ok, err, ◌>>=◌, ◌>>◌, Check, require,
}
use bitbit.Chain.State.{
  Chain, hash, hash_bytes, head, proposer_id, attester_id, bond_reg_nonce, signing_bytes, objective,
  bonded_size, attester_qualified, proposer_qualified, required_quorum,
}
use bitbit.Chain.Metric.{mature_now}
use bitbit.Chain.Apply.{key_size, apply}

abbrev pub is_empty {ℓ} : {A : Type ℓ} → List A → Bool
is_empty [] = true
is_empty (x ∷ xs) = false

module _ (cr : Crypto) where
  -- `ed25519.Verify` over a block hash
  abbrev pub signs : Bytes → ℕ → Bytes → Bool
  signs key h sig = cr.verify key (hash_bytes h) sig

  -- Does an attestation of the list carry this key's signature?
  unfoldable pub attested_by : Bytes → ℕ → List Attestation → Bool
  attested_by key h [] = false
  attested_by key h (a ∷ atts) =
      if bytes_equal a.pub_key key && signs a.pub_key h a.sig then true else attested_by key h atts

  unfoldable pub signed_block : Bytes → Block → ℕ → Bool
  unfolding attested_by
  signed_block key b h =
      if bytes_equal (body b).proposer key && signs key h (body b).proposer_sig
      then true
      else attested_by key h (body b).atts

  unfoldable pub verify_equivocation : Equivocation → Bool
  verify_equivocation e =
      if not (length e.culprit == key_size)
      then false
      else if not ((body e.a).height == (body e.b).height)
      then false
      else if hash cr e.a == hash cr e.b
      then false
      else signed_block e.culprit e.a (hash cr e.a) && signed_block e.culprit e.b (hash cr e.b)

  unfoldable pub validate_slashes : List Equivocation → Check
  validate_slashes [] = ok tt
  validate_slashes (e ∷ es) = do require (verify_equivocation e) bad_slash; validate_slashes es

  -- A verifier is wired wherever this is called.
  abbrev proves_bond : Option (Bytes → ℕ → ℤ → ℕ → Bytes → Bool) → BondReg → ℕ → Bool
  proves_bond none r nonce = false
  proves_bond (some f) r nonce = f r.validator r.root r.size nonce r.answer

  unfoldable pub validate_bond_reg : Chain → BondReg → ℕ → Check
  validate_bond_reg c r nonce = do
    require (length r.validator == key_size) bad_bond_reg
    require (cr.verify r.validator (signing_bytes r nonce) r.sig) bad_bond_reg
    require (not (ltb_ℤ r.size c.cfg.min_bond)) bad_bond_reg
    require (not (ltb_ℤ r.size c.cfg.min_bond_bytes)) bad_bond_reg
    require (proves_bond c.verify_bond r nonce) bad_bond_reg

  unfoldable pub validate_regs : Chain → ℕ → List BondReg → Check
  validate_regs c nonce [] = ok tt
  validate_regs c nonce (r ∷ rs) = do validate_bond_reg c r nonce; validate_regs c nonce rs

  unfoldable pub validate_bond_regs : Chain → Block → Check
  unfolding validate_regs
  validate_bond_regs c b =
      if objective c
      then validate_regs c (bond_reg_nonce cr (body b).prev) (body b).bond_regs
      else ok tt

-- `validateTakedowns`, a loop for each of the two lists
unfoldable pub validate_revocations : Chain → List ℕ → Check
validate_revocations c [] = ok tt
validate_revocations c (r ∷ rs) = do
  require (is_some (lookup r c.by_root)) revoke_unknown_root
  validate_revocations c rs

unfoldable pub validate_unrevocations : Chain → List ℕ → Check
validate_unrevocations c [] = ok tt
validate_unrevocations c (r ∷ rs) = do
  require (mem r c.revoked) unrevoke_not_revoked
  validate_unrevocations c rs

unfoldable pub validate_takedowns : Chain → Block → Check
unfolding validate_revocations validate_unrevocations
validate_takedowns c b = do
  validate_revocations c (body b).revocations
  validate_unrevocations c (body b).unrevocations

abbrev no_slash : Slashes → Bool
no_slash s = is_empty (proofs s)

abbrev pub has_nothing : Block → Bool
has_nothing b =
    is_empty (body b).entries
    && (is_empty (body b).revocations
        && (is_empty (body b).unrevocations
            && (is_empty (body b).bond_regs && no_slash (slashes_of b))))

-- core/publishtoken/publishtoken.go, `Verify`: the loop returns the validators that count.
module _ (cr : Crypto) where
  unfoldable pub token_step : Chain → Bytes → TokenSig → List ℕ → Result (List ℕ)
  token_step c serial s seen =
      if mem s.validator seen then ok seen else elim (c.issuer_key s.validator) [
        | none ↦ ok seen
        | some key ↦
            if not (attester_qualified s.validator c)
            then ok seen
            else if cr.blind_verify key serial s.sig
            then ok (seen ++ s.validator ∷ [])
            else err token_bad_sig
      ]

  unfoldable pub token_signers : Chain → Bytes → List TokenSig → List ℕ → Result (List ℕ)
  token_signers c serial [] seen = ok seen
  token_signers c serial (s ∷ sigs) seen = do
    seen' ← token_step c serial s seen
    token_signers c serial sigs seen'

  unfoldable pub verify_token : Chain → PublishToken → Check
  unfolding token_signers
  verify_token c t = do
    signers ← token_signers c t.serial t.sigs []
    require (not (ltb_ℤ (pos (length signers)) c.token_quorum)) token_few_sigs

  unfoldable pub validate_token : Chain → List Bytes → Option PublishToken → Check
  unfolding verify_token
  validate_token c seen none = err token_required
  validate_token c seen (some t) = do
    verify_token c t
    require (not (mem_bytes t.serial c.spent || mem_bytes t.serial seen)) token_spent

  abbrev token_rule : Chain → List Bytes → Entry → Check
  token_rule c seen e =
      if ltb_ℤ (pos 0) c.token_quorum then validate_token c seen e.token else ok tt

  abbrev pub note_serial : Chain → Entry → List Bytes → List Bytes
  note_serial c e seen =
      if ltb_ℤ (pos 0) c.token_quorum
      then elim e.token [ none ↦ seen | some t ↦ t.serial ∷ seen ]
      else seen

  unfoldable pub validate_entry : Chain → List ℕ → List Bytes → Entry → Check
  unfolding validate_token
  validate_entry c seen serials e = do
    require (not (is_some (lookup e.root c.by_root) || mem e.root seen)) dup_root
    require (not (is_empty e.manifest_chunks)) no_manifest
    require (c.cfg.allow_publisher || (e.publisher == 0)) publisher_entry
    token_rule c serials e

  -- The loop over the entries, with the roots and the serials that it has seen in this block.
  unfoldable pub validate_entries : Chain → List ℕ → List Bytes → List Entry → Check
  validate_entries c seen serials [] = ok tt
  validate_entries c seen serials (e ∷ es) = do
    validate_entry c seen serials e
    validate_entries c (e.root ∷ seen) (note_serial c e serials) es

  abbrev pub extends_head : Chain → Block → Bool
  extends_head c b = ((body b).height == (head cr c).1) && ((body b).prev == (head cr c).0)

  -- The first checks, which `ValidateProposal` and `validateStructural` share.
  unfoldable pub validate_parent : Chain → Block → Check
  validate_parent c b = do
    require (extends_head c b) wrong_parent
    require (length (body b).proposer == key_size) bad_signature
    require (signs cr (body b).proposer (hash cr b) (body b).proposer_sig) bad_signature

  unfoldable pub validate_proposal : Chain → Block → Check
  unfolding validate_parent
  validate_proposal c b = do
    validate_parent c b
    require (proposer_qualified (proposer_id cr b) c) low_reputation
    require (not (has_nothing b)) empty_block
    validate_takedowns c b
    validate_bond_regs cr c b
    validate_slashes cr (proofs (slashes_of b))
    validate_entries c [] [] (body b).entries

  -- One round of the loop over the attestations in `ValidateCommit`.
  unfoldable pub count_step : Chain → Block → Attestation → List ℕ → Result (List ℕ)
  count_step c b a seen =
      let id = attester_id cr a in
      if not (length a.pub_key == key_size)
      then ok seen
      else if mem id seen || (id == proposer_id cr b)
      then ok seen
      else if not (signs cr a.pub_key (hash cr b) a.sig)
      then err bad_signature
      else if not (attester_qualified id c)
      then ok seen
      else ok (seen ++ id ∷ [])

  unfoldable pub count_atts : Chain → Block → List Attestation → List ℕ → Result (List ℕ)
  unfolding count_step
  count_atts c b [] seen = ok seen
  count_atts c b (a ∷ atts) seen = do seen' ← count_step c b a seen; count_atts c b atts seen'

unfoldable pub count_anchors : List ℕ → List ℕ → ℕ
count_anchors anchors [] = 0
count_anchors anchors (id ∷ ids) = (if mem id anchors then 1 else 0) + count_anchors anchors ids

unfoldable pub anchor_rule : Chain → List ℕ → Check
unfolding count_anchors
anchor_rule c seen =
    if not (is_empty c.cfg.anchors) && (ltb_ℤ (pos 0) c.cfg.anchor_quorum && not c.ever_mature)
    then require (not (ltb_ℤ (pos (count_anchors c.cfg.anchors seen)) c.cfg.anchor_quorum))
        anchor_required
    else ok tt

unfoldable pub sum_bonded : ℤ → Map ℤ → ℤ
sum_bonded acc [] = acc
sum_bonded acc ((id, w) ∷ m) = sum_bonded (add64 acc w) m

unfoldable pub sum_support : Chain → ℤ → List ℕ → ℤ
sum_support c acc [] = acc
sum_support c acc (id ∷ ids) = sum_support c (add64 acc (bonded_size id c)) ids

-- ⌈2·total/3⌉
abbrev pub two_thirds : ℤ → ℤ
two_thirds total = quo (add64 (mul64 (pos 2) total) (pos 2)) (pos 3)

unfoldable pub super_quorum : Chain → ℕ → List ℕ → Check
unfolding sum_bonded sum_support
super_quorum c proposer seen =
    let total = sum_bonded (pos 0) c.bonded in
    if leb_ℤ total (pos 0)
    then ok tt
    else require (not (ltb_ℤ (sum_support c (bonded_size proposer c) seen) (two_thirds total)))
        de_mature_quorum

unfoldable pub de_mature_rule : Chain → ℕ → List ℕ → Check
unfolding super_quorum
de_mature_rule c proposer seen =
    if c.ever_mature && (objective c && not (mature_now c))
    then super_quorum c proposer seen
    else ok tt

module _ (cr : Crypto) where
  unfoldable pub validate_commit : Chain → Block → Check
  validate_commit c b = do
    validate_proposal cr c b
    seen ← count_atts cr c b (body b).atts []
    require (not (ltb_ℤ (pos (length seen)) (required_quorum c))) no_quorum
    anchor_rule c seen
    de_mature_rule c (proposer_id cr b) seen

  unfoldable pub append : Chain → Block → Result Chain
  append c b = do validate_commit c b; ok (apply cr b c)

  -- `validateStructural` counts every signature that verifies, with no test of standing.
  unfoldable pub tally_step : Block → Attestation → List ℕ → Result (List ℕ)
  tally_step b a seen =
      let id = attester_id cr a in
      if not (length a.pub_key == key_size)
      then ok seen
      else if mem id seen || (id == proposer_id cr b)
      then ok seen
      else if not (signs cr a.pub_key (hash cr b) a.sig)
      then err bad_signature
      else ok (seen ++ id ∷ [])

  unfoldable pub tally_atts : Block → List Attestation → List ℕ → Result (List ℕ)
  unfolding tally_step
  tally_atts b [] seen = ok seen
  tally_atts b (a ∷ atts) seen = do seen' ← tally_step b a seen; tally_atts b atts seen'

  unfoldable pub validate_structural : Chain → Block → Check
  unfolding tally_atts
  validate_structural c b = do
    validate_parent cr c b
    require (not (has_nothing b)) empty_block
    validate_takedowns c b
    validate_slashes cr (proofs (slashes_of b))
    seen ← tally_atts b (body b).atts []
    require (not (ltb_ℤ (pos (length seen)) c.cfg.quorum)) no_quorum

  unfoldable pub append_structural : Chain → Block → Result Chain
  append_structural c b = do validate_structural c b; ok (apply cr b c)

  unfoldable pub validate_genesis : Chain → Block → Check
  validate_genesis c b = do
    require (is_empty c.blocks) not_first
    require (((body b).height == 0) && ((body b).prev == 0)) malformed_genesis
    require (length (body b).proposer == key_size) bad_signature
    require (signs cr (body b).proposer (hash cr b) (body b).proposer_sig) bad_signature
    require (not (is_empty (body b).entries)) empty_genesis
    require (is_empty (body b).revocations && is_empty (body b).unrevocations) genesis_takedown
    require (is_empty (proofs (slashes_of b))) genesis_takedown

  unfoldable pub append_genesis : Chain → Block → Result Chain
  append_genesis c b = do validate_genesis c b; ok (apply cr b c)

  -- `ValidateBondReg`: would this registration be accepted on top of the current head?
  unfoldable pub accepts_bond_reg : Chain → BondReg → Bool
  accepts_bond_reg c r =
      if objective c
      then elim (validate_bond_reg cr c r (bond_reg_nonce cr (head cr c).0)) [
        | ok _ ↦ true
        | err _ ↦ false
      ]
      else false
