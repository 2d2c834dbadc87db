-- ===== src/Chain/Auditable.antt =====
-- What core/chain/chain.go writes to its takedown log.
use bitbit.Base.{
  ℕ, ◌≤◌, ◌≡◌, refl, sym, ap, ◌∙◌, Bool, List, [], ◌∷◌, ◌++◌, length, map, ltb, arith,
}
use mathlib.Core.List.{append-nil, append_assoc}
use bitbit.Base.Maps.{Map}
use bitbit.Translog.{append}
use bitbit.Translog.History.{append_all, history_fixed}
use bitbit.Chain.Types.{
  Block, body, slashes_of, proofs, Crypto, Attestation, BondReg, Entry, Equivocation,
}
use bitbit.Chain.State.{Chain, proposer_id, revocation_leaf}
use bitbit.Chain.Apply.{
  apply_entry, apply_entries, apply_revocations, apply_unrevocations, apply_reg, apply_regs, rev_op,
  unrev_op, settle_reg, expire_from, expire, evict, see_validators, settle, latch, apply,
  push_block,
}
use bitbit.Chain.Latch.{Extends, here, next, grown_by}
use bitbit.Chain.Queries.{
  revocation_log_root_at, revocation_inclusion_proof, revocation_consistency_proof,
}

log_of_entries : (es : List Entry) (c : Chain) → (apply_entries es c).rev_log ≡ c.rev_log
unfolding apply_entries apply_entry
log_of_entries [] c = refl
log_of_entries (e ∷ es) c = log_of_entries es (apply_entry e c)

log_of_expiry : (h ttl : ℕ) (m : Map ℕ) (c : Chain) → (expire_from h ttl m c).rev_log ≡ c.rev_log
unfolding expire_from
log_of_expiry h ttl [] c = refl
log_of_expiry h ttl ((id, r) ∷ m) c = log_of_expiry h ttl m _ ∙ ground arith

expire-log : (h : ℕ) (c : Chain) → (expire h c).rev_log ≡ c.rev_log
unfolding expire
expire-log h c = ground (arith, log_of_expiry h c.cfg.bond_ttl_blocks c.bond_reg_height c)

module _ (cr : Crypto) where
  apply_reg-log :
      (p : Bool) (h : ℕ) (r : BondReg) (c : Chain) → (apply_reg cr p h r c).rev_log ≡ c.rev_log
  unfolding apply_reg settle_reg
  apply_reg-log p h r c = ground arith

  apply_regs-log :
      (p : Bool) (h : ℕ) (rs : List BondReg) (c : Chain)
      → (apply_regs cr p h rs c).rev_log ≡ c.rev_log
  unfolding apply_regs
  apply_regs-log p h [] c = refl
  apply_regs-log p h (r ∷ rs) c =
      apply_regs-log p h rs (apply_reg cr p h r c) ∙ apply_reg-log p h r c

  evict-log : (es : List Equivocation) (c : Chain) → (evict cr es c).rev_log ≡ c.rev_log
  unfolding evict
  evict-log [] c = refl
  evict-log (e ∷ es) c = evict-log es _

  see_validators-log :
      (p : ℕ) (atts : List Attestation) (c : Chain)
      → (see_validators cr p atts c).rev_log ≡ c.rev_log
  unfolding see_validators
  see_validators-log p [] c = refl
  see_validators-log p (a ∷ atts) c = see_validators-log p atts _ ∙ ground arith

  -- The log entries of one block: its takedowns in their order, then its reversals.
  abbrev pub events : Block → List ℕ
  events b =
      map (λ r. revocation_leaf cr rev_op r (body b).height) (body b).revocations
      ++ map (λ r. revocation_leaf cr unrev_op r (body b).height) (body b).unrevocations

  revocations-log :
      (h : ℕ) (rs : List ℕ) (c : Chain)
      → (apply_revocations cr h rs c).rev_log
        ≡ c.rev_log ++ map (λ r. revocation_leaf cr rev_op r h) rs
  unfolding apply_revocations
  revocations-log h [] c = sym (append-nil c.rev_log)
  revocations-log h (r ∷ rs) c =
      revocations-log h rs _ ∙ append_assoc c.rev_log (revocation_leaf cr rev_op r h ∷ []) _

  unrevocations-log :
      (h : ℕ) (rs : List ℕ) (c : Chain)
      → (apply_unrevocations cr h rs c).rev_log
        ≡ c.rev_log ++ map (λ r. revocation_leaf cr unrev_op r h) rs
  unfolding apply_unrevocations
  unrevocations-log h [] c = sym (append-nil c.rev_log)
  unrevocations-log h (r ∷ rs) c =
      unrevocations-log h rs _ ∙ append_assoc c.rev_log (revocation_leaf cr unrev_op r h ∷ []) _

  settle-log : (b : Block) (c : Chain) → (settle cr b c).rev_log ≡ c.rev_log ++ events b
  unfolding settle
  settle-log b c =
      let x = body b in
      evict-log (proofs (slashes_of b)) _
      ∙ expire-log x.height _
      ∙ apply_regs-log (ltb 0 x.height) x.height x.bond_regs _
      ∙ unrevocations-log x.height x.unrevocations _
      ∙ ap (λ z. z ++ map (λ r. revocation_leaf cr unrev_op r x.height) x.unrevocations)
          (revocations-log x.height x.revocations _
            ∙ ap (λ z. z ++ map (λ r. revocation_leaf cr rev_op r x.height) x.revocations)
                (log_of_entries x.entries (push_block b c)))
      ∙ append_assoc c.rev_log _ _

  latch-log : (c : Chain) → (latch c).rev_log ≡ c.rev_log
  unfolding latch
  latch-log c = ground arith

  -- No takedown is silent: a block that is applied appends to the takedown log one event for each of
  -- its takedowns and then one for each of its reversals, in their order, and nothing else.
  pub block_logs_takedowns :
      (b : Block) (c : Chain) → (apply cr b c).rev_log ≡ c.rev_log ++ events b
  unfolding apply
  block_logs_takedowns b c =
      latch-log _
      ∙ see_validators-log (proposer_id cr b) (body b).atts (settle cr b c)
      ∙ settle-log b c

  Extends-log : (c d : Chain) → Extends cr c d → (es : List ℕ) × (d.rev_log ≡ c.rev_log ++ es)
  Extends-log c d here = ([], sym (append-nil c.rev_log))
  Extends-log c d (next {d = m} x g) =
      let (b, e) = grown_by g in
      let (es, before) = Extends-log c m x in
      (
        es ++ events b,
        ap Chain.rev_log e
            ∙ block_logs_takedowns b m
            ∙ ap (λ z. z ++ events b) before
            ∙ append_assoc c.rev_log es (events b),
      )

  append_all-eq : (es l : List ℕ) → append_all es l ≡ l ++ es
  unfolding append_all append
  append_all-eq [] l = sym (append-nil l)
  append_all-eq (e ∷ es) l = append_all-eq es (l ++ e ∷ []) ∙ append_assoc l (e ∷ []) es

  -- The takedown record of one history is never rewritten: however it grows, the log's head and its
  -- inclusion and consistency proofs for each size that it has reached stay what they were.
  pub takedown_record_kept :
      (c d : Chain) (size index m : ℕ)
      → Extends cr c d
      → size ≤ length c.rev_log
      → (revocation_log_root_at cr size d ≡ revocation_log_root_at cr size c)
        × (revocation_inclusion_proof cr index size d ≡ revocation_inclusion_proof cr index size c)
        × (revocation_consistency_proof cr m size d ≡ revocation_consistency_proof cr m size c)
  unfolding revocation_log_root_at revocation_inclusion_proof revocation_consistency_proof
  takedown_record_kept c d size index m x h =
      let (es, e) = Extends-log c d x in
      let same = history_fixed cr.sha256 es c.rev_log size h in
      rw (e, sym (append_all-eq es c.rev_log))
        (same.same_root, same.same_inclusion index, same.same_consistency m)
