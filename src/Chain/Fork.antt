-- ===== src/Chain/Fork.antt =====
-- Fork choice in core/chain/chain.go: the weight of a history, reloading one's own, and
-- reconciling with a peer's.
use bitbit.Base.{
  ℕ, ◌+◌, Bool, true, false, ◌&&◌, ◌||◌, not, Option, none, some, List, [], ◌∷◌, ◌++◌, length, mem,
  get_elem?, ltb, ◌==◌, if◌then◌else◌,
}
use bitbit.Base.Int.{ℤ, pos, add64, ltb_ℤ, leb_ℤ}
use bitbit.Chain.Types.{
  Block, body, Crypto, Attestation, Entry, Error, empty_fork, no_genesis, foreign_genesis,
  pre_checkpoint_reorg, WsCheckpoint, Result, ok, err, ◌>>=◌, ◌>>◌, Check, require,
}
use bitbit.Chain.State.{
  Chain, new, hash, proposer_id, attester_id, objective, bonded_size, attester_qualified,
}
use bitbit.Chain.Apply.{key_size}
use bitbit.Chain.Rules.{signs, append, append_genesis, append_structural}

module _ (cr : Crypto) where
  -- One round of `blockWeight`: whether the attestation of this identity counts. A bad signature is
  -- passed over here.
  unfoldable pub weighs : Chain → Block → Attestation → List ℕ → Bool
  weighs c b a seen =
      (length a.pub_key == key_size)
      && (not (mem (attester_id cr a) seen || (attester_id cr a == proposer_id cr b))
          && (signs cr a.pub_key (hash cr b) a.sig && attester_qualified (attester_id cr a) c))

  abbrev vote : Chain → ℕ → ℤ
  vote c id = if objective c then bonded_size id c else pos 1

  unfoldable pub weigh_atts : Chain → Block → List Attestation → List ℕ → ℤ → ℤ
  unfolding weighs
  weigh_atts c b [] seen n = n
  weigh_atts c b (a ∷ atts) seen n =
      weigh_atts c b atts (if weighs c b a seen then attester_id cr a ∷ seen else seen)
        (if weighs c b a seen then add64 n (vote c (attester_id cr a)) else n)

  unfoldable pub block_weight : Chain → Block → ℤ
  unfolding weigh_atts
  block_weight c b = weigh_atts c b (body b).atts [] (pos 0)

  unfoldable pub weight_from : Chain → ℤ → List Block → ℤ
  weight_from c w [] = w
  weight_from c w (b ∷ bs) = weight_from c (add64 w (block_weight c b)) bs

  unfoldable pub weight : Chain → ℤ
  unfolding weight_from
  weight c = weight_from c (pos 0) c.blocks

  -- The hash of the last block. (`heavier` is only called on chains that have one.)
  unfoldable pub tip : List Block → ℕ
  tip [] = 0
  tip (b ∷ []) = hash cr b
  tip (b ∷ b' ∷ bs) = tip (b' ∷ bs)

  -- `bytesLess` on two hashes is the order of the numbers that they spell.
  unfoldable pub heavier : Chain → Chain → Bool
  heavier a b =
      if leb_ℤ (weight a) (weight b) && leb_ℤ (weight b) (weight a)
      then ltb (tip a.blocks) (tip b.blocks)
      else ltb_ℤ (weight b) (weight a)

  unfoldable pub append_all : Chain → List Block → Result Chain
  append_all c [] = ok c
  append_all c (b ∷ bs) = do c' ← append cr c b; append_all c' bs

  -- `Reload`, with the number of blocks restored and the replica as it then stands, also where a
  -- block is refused.
  unfoldable pub reload_one : Chain → ℕ → Block → Result Chain
  reload_one c i b =
      if (i == 0) && ((body b).height == 0) then append_genesis cr c b else append_structural cr c b

  unfoldable pub reload_from : Chain → ℕ → List Block → ℕ × Option Error × Chain
  reload_from c i [] = (i, none, c)
  reload_from c i (b ∷ bs) = elim (reload_one c i b) [
    | err e ↦ (i, some e, c)
    | ok c' ↦ reload_from c' (i + 1) bs
  ]

  unfoldable pub reload : Chain → List Block → ℕ × Option Error × Chain
  unfolding reload_from
  reload c blocks = reload_from c 0 blocks

-- `adopt`: the derived state of the other replica, under this one's settings.
unfoldable pub adopt : Chain → Chain → Chain
adopt t c = record c {
  blocks = t.blocks;
  by_root = t.by_root;
  revoked = t.revoked;
  rev_log = t.rev_log;
  validators_seen = t.validators_seen;
  spent = t.spent;
  bonded = t.bonded;
  bond_root_owner = t.bond_root_owner;
  bond_root_proven = t.bond_root_proven;
  bond_reg_height = t.bond_reg_height;
  bond_domain = t.bond_domain;
  slashed = t.slashed;
  ever_mature = t.ever_mature;
}

-- The throwaway replica, with this one's settings.
unfoldable pub blank : Chain → Chain
unfolding new
blank c = record (new c.cfg c.rep) {
  token_quorum = c.token_quorum;
  issuer_key = c.issuer_key;
  verify_bond = c.verify_bond;
}

module _ (cr : Crypto) where
  abbrev checkpoint_at : WsCheckpoint → Option Block → Bool
  checkpoint_at cp none = false
  checkpoint_at cp (some b) = hash cr b == cp.hash

  -- The weak-subjectivity guard; `fork[cp.Height]` is read only within the fork.
  unfoldable pub passes_checkpoint : WsCheckpoint → List Block → Bool
  passes_checkpoint cp fork =
      if ltb 0 cp.height then checkpoint_at cp (get_elem? fork cp.height) else true

  abbrev shares_genesis : Block → Block → Bool
  shares_genesis f g = ((body f).height == 0) && (hash cr f == hash cr g)

  -- The candidate history, validated from its genesis on in a fresh replica.
  unfoldable pub replay : Chain → List Block → Result Chain
  replay c [] = err empty_fork
  replay c (g ∷ rest) = do t ← append_genesis cr (blank c) g; append_all cr t rest

  unfoldable pub admissible : Chain → List Block → Check
  admissible c [] = err empty_fork
  admissible c (f ∷ fork) = elim c.blocks [
    | [] ↦ err no_genesis
    | g ∷ rest ↦ do
      require (shares_genesis f g) foreign_genesis
      require (passes_checkpoint c.cfg.ws_checkpoint (f ∷ fork)) pre_checkpoint_reorg
  ]

  abbrev choose : Chain → Chain → Bool × Chain
  choose c t = if heavier cr t c then (true, adopt t c) else (false, c)

  unfoldable pub reconcile : Chain → List Block → Result (Bool × Chain)
  reconcile c fork = do admissible c fork; t ← replay c fork; ok (choose c t)

  unfoldable pub all_entries : List Block → List Entry
  all_entries [] = []
  all_entries (b ∷ bs) = (body b).entries ++ all_entries bs
