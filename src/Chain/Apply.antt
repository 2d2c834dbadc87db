-- ===== src/Chain/Apply.antt =====
-- `apply` in core/chain/chain.go: what a committed block does to a replica, in the code's order.
use bitbit.Base.{
  ℕ, ◌+◌, ◌-◌, ◌%◌, ◌^◌, Bool, true, ◌&&◌, not, Option, none, some, List, [], ◌∷◌, ◌++◌, length,
  mem, ltb, ◌==◌, if◌then◌else◌,
}
use bitbit.Base.Int.{ℤ, ltb_ℤ}
use bitbit.Base.Maps.{Map, lookup, insert, erase}
use bitbit.Base.Sets.{add, remove}
use bitbit.Base.Bytes.{Bytes}
use bitbit.Chain.Types.{
  Entry, PublishToken, BondReg, Block, body, slashes_of, proofs, Crypto, Attestation, Equivocation,
}
use bitbit.Chain.State.{
  Chain, revocation_leaf, validator_id, attester_id, proposer_id, attester_qualified,
}
use bitbit.Chain.Metric.{mature}

abbrev pub key_size : ℕ
key_size = 32

-- `RevOp` and `UnrevOp`
abbrev pub rev_op : ℕ
rev_op = b'R'

abbrev pub unrev_op : ℕ
unrev_op = b'U'

abbrev spend_token : Option PublishToken → List Bytes → List Bytes
spend_token none spent = spent
spend_token (some t) spent = t.serial ∷ spent

unfoldable pub apply_entry : Entry → Chain → Chain
apply_entry e c = record c {
  by_root = insert e.root e c.by_root;
  spent = spend_token e.token c.spent;
}

unfoldable pub apply_entries : List Entry → Chain → Chain
apply_entries [] c = c
apply_entries (e ∷ es) c = apply_entries es (apply_entry e c)

-- `c.bondRootProven[r.Root] = true`, at a height above 0
abbrev pub prove_root : Bool → ℕ → List ℕ → List ℕ
prove_root proven root s = if proven then add root s else s

-- The end of the loop body: the registration takes its root and its standing.
unfoldable pub take_root : Bool → ℕ → ℕ → BondReg → Map ℤ → Chain → Chain
take_root proven height id r bonded c = record c {
  bond_root_owner = insert r.root id c.bond_root_owner;
  bond_root_proven = prove_root proven r.root c.bond_root_proven;
  bonded = insert id r.size bonded;
  bond_reg_height = insert id height c.bond_reg_height;
  bond_domain = insert id r.domain c.bond_domain;
}

-- The root's owner, when it is another identity.
abbrev pub other_owner : Option ℕ → ℕ → Option ℕ
other_owner none id = none
other_owner (some owner) id = if owner == id then none else some owner

unfoldable pub settle_reg : Bool → ℕ → ℕ → BondReg → Chain → Chain
unfolding take_root
settle_reg proven height id r c = elim (other_owner (lookup r.root c.bond_root_owner) id) [
  | none ↦ take_root proven height id r c.bonded c
  | some owner ↦
      if proven && not (mem r.root c.bond_root_proven)
      then take_root proven height id r (erase owner c.bonded) c
      else c
]

module _ (cr : Crypto) where
  unfoldable pub apply_reg : Bool → ℕ → BondReg → Chain → Chain
  unfolding settle_reg
  apply_reg proven height r c =
      if not (length r.validator == key_size)
      then c
      else if ltb_ℤ r.size c.cfg.min_bond_bytes
      then c
      else if mem (validator_id cr r) c.slashed
      then c
      else settle_reg proven height (validator_id cr r) r c

  unfoldable pub apply_regs : Bool → ℕ → List BondReg → Chain → Chain
  apply_regs proven height [] c = c
  apply_regs proven height (r ∷ rs) c = apply_regs proven height rs (apply_reg proven height r c)

  unfoldable pub apply_revocations : ℕ → List ℕ → Chain → Chain
  apply_revocations height [] c = c
  apply_revocations height (r ∷ rs) c = apply_revocations height rs (record c {
    revoked = add r c.revoked;
    rev_log = c.rev_log ++ revocation_leaf cr rev_op r height ∷ [];
  })

  unfoldable pub apply_unrevocations : ℕ → List ℕ → Chain → Chain
  apply_unrevocations height [] c = c
  apply_unrevocations height (r ∷ rs) c = apply_unrevocations height rs (record c {
    revoked = remove r c.revoked;
    rev_log = c.rev_log ++ revocation_leaf cr unrev_op r height ∷ [];
  })

-- The TTL loop runs over the registration heights that stand when it starts. The subtraction is
-- that of `uint64`.
abbrev pub lapsed : ℕ → ℕ → ℕ → Bool
lapsed height ttl reg_height = ltb ttl ((height + 2 ^ 64 - reg_height) % 2 ^ 64)

unfoldable pub expire_from : ℕ → ℕ → Map ℕ → Chain → Chain
expire_from height ttl [] c = c
expire_from height ttl ((id, reg_height) ∷ m) c = expire_from height ttl m (
    if lapsed height ttl reg_height
    then record c { bonded = erase id c.bonded; bond_reg_height = erase id c.bond_reg_height }
    else c)

unfoldable pub expire : ℕ → Chain → Chain
unfolding expire_from
expire height c =
    if ltb 0 c.cfg.bond_ttl_blocks
    then expire_from height c.cfg.bond_ttl_blocks c.bond_reg_height c
    else c

module _ (cr : Crypto) where
  abbrev pub culprit_id : Equivocation → ℕ
  culprit_id e = cr.sha256 e.culprit

  unfoldable pub evict : List Equivocation → Chain → Chain
  evict [] c = c
  evict (e ∷ es) c =
      evict es (record c {
        slashed = add (culprit_id e) c.slashed;
        bonded = erase (culprit_id e) c.bonded;
      })

  unfoldable pub see_validators : ℕ → List Attestation → Chain → Chain
  see_validators proposer [] c = c
  see_validators proposer (a ∷ atts) c = see_validators proposer atts (
      if not (attester_id cr a == proposer) && attester_qualified (attester_id cr a) c
      then record c { validators_seen = add (attester_id cr a) c.validators_seen }
      else c)

unfoldable pub latch : Chain → Chain
latch c = if not c.ever_mature && mature c then record c { ever_mature = true } else c

abbrev pub push_block : Block → Chain → Chain
push_block b c = record c { blocks = c.blocks ++ b ∷ [] }

-- Everything that `apply` does before it looks at the attestations.
unfoldable pub settle : Crypto → Block → Chain → Chain
settle cr b c =
    let x = body b in
    let c₁ = apply_entries x.entries (push_block b c) in
    let c₂ = apply_revocations cr x.height x.revocations c₁ in
    let c₃ = apply_unrevocations cr x.height x.unrevocations c₂ in
    let c₄ = apply_regs cr (ltb 0 x.height) x.height x.bond_regs c₃ in
    evict cr (proofs (slashes_of b)) (expire x.height c₄)

unfoldable pub apply : Crypto → Block → Chain → Chain
unfolding settle
apply cr b c = latch (see_validators cr (proposer_id cr b) (body b).atts (settle cr b c))
