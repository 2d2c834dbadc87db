-- ===== src/Chain/Frame.antt =====
-- What `apply` in core/chain/chain.go leaves alone until its last step: the settings, the blocks
-- after the push, and the latch.
use bitbit.Base.{
  ℕ, ◌≡◌, refl, ◌∙◌, Bool, ◌&&◌, not, List, [], ◌∷◌, ◌++◌, ltb, ◌==◌, if◌then◌else◌, arith,
  Bool-cases, inl, inr,
}
use bitbit.Base.Maps.{Map, erase}
use bitbit.Base.Sets.{add}
use bitbit.Chain.Types.{
  Block, body, slashes_of, proofs, Crypto, Attestation, BondReg, Entry, Equivocation,
}
use bitbit.Chain.State.{Chain, proposer_id, attester_id, attester_qualified}
use bitbit.Chain.Apply.{
  apply_entry, apply_entries, apply_revocations, apply_unrevocations, apply_reg, apply_regs,
  settle_reg, expire_from, expire, evict, see_validators, settle, latch, apply, push_block, lapsed,
}
use bitbit.Chain.Fork.{blank}

-- The settings, the blocks and the latch are the same.
pub record Frame (c d : Chain) : Type 0 where
  pub settings : blank d ≡ blank c
  pub same_blocks : d.blocks ≡ c.blocks
  pub same_latch : d.ever_mature ≡ c.ever_mature

pub Frame-refl : (c : Chain) → Frame c c
Frame-refl c = record { settings = refl; same_blocks = refl; same_latch = refl }

pub Frame-trans : (c d e : Chain) → Frame c d → Frame d e → Frame c e
Frame-trans c d e f g = record {
  settings = g.settings ∙ f.settings;
  same_blocks = g.same_blocks ∙ f.same_blocks;
  same_latch = g.same_latch ∙ f.same_latch;
}

apply_entries-Frame : (es : List Entry) (c : Chain) → Frame c (apply_entries es c)
unfolding apply_entries apply_entry blank
apply_entries-Frame [] c = Frame-refl c
apply_entries-Frame (e ∷ es) c =
    Frame-trans c (apply_entry e c) _
      (record { settings = refl; same_blocks = refl; same_latch = refl })
      (apply_entries-Frame es (apply_entry e c))

settle_reg-Frame : (p : Bool) (h id : ℕ) (r : BondReg) (c : Chain) → Frame c (settle_reg p h id r c)
unfolding settle_reg blank
settle_reg-Frame p h id r c = record {
  settings = ground arith;
  same_blocks = ground arith;
  same_latch = ground arith;
}

frame :
    {c d : Chain}
    → blank d ≡ blank c
    → d.blocks ≡ c.blocks
    → d.ever_mature ≡ c.ever_mature
    → Frame c d
frame s b l = record { settings = s; same_blocks = b; same_latch = l }

expire_from-Frame : (h ttl : ℕ) (m : Map ℕ) (c : Chain) → Frame c (expire_from h ttl m c)
unfolding expire_from blank
expire_from-Frame h ttl [] c = Frame-refl c
expire_from-Frame h ttl ((id, r) ∷ m) c =
    Frame-trans c _ _ (frame (ground arith) (ground arith) (ground arith)) (
      expire_from-Frame h ttl m (
        if lapsed h ttl r
        then record c { bonded = erase id c.bonded; bond_reg_height = erase id c.bond_reg_height }
        else c))

expire-Frame : (h : ℕ) (c : Chain) → Frame c (expire h c)
unfolding expire
expire-Frame h c = elim (Bool-cases (ltb 0 c.cfg.bond_ttl_blocks)) [
  | inl e ↦ rw e (expire_from-Frame h c.cfg.bond_ttl_blocks c.bond_reg_height c)
  | inr e ↦ rw e (Frame-refl c)
]

module _ (cr : Crypto) where
  apply_reg-Frame : (p : Bool) (h : ℕ) (r : BondReg) (c : Chain) → Frame c (apply_reg cr p h r c)
  unfolding apply_reg blank
  apply_reg-Frame p h r c = frame (ground arith) (ground arith) (ground arith)

  apply_regs-Frame :
      (p : Bool) (h : ℕ) (rs : List BondReg) (c : Chain) → Frame c (apply_regs cr p h rs c)
  unfolding apply_regs
  apply_regs-Frame p h [] c = Frame-refl c
  apply_regs-Frame p h (r ∷ rs) c =
      Frame-trans c _ _ (apply_reg-Frame p h r c) (apply_regs-Frame p h rs (apply_reg cr p h r c))

  apply_revocations-Frame :
      (h : ℕ) (rs : List ℕ) (c : Chain) → Frame c (apply_revocations cr h rs c)
  unfolding apply_revocations blank
  apply_revocations-Frame h [] c = Frame-refl c
  apply_revocations-Frame h (r ∷ rs) c =
      Frame-trans c _ _ (frame refl refl refl) (apply_revocations-Frame h rs _)

  apply_unrevocations-Frame :
      (h : ℕ) (rs : List ℕ) (c : Chain) → Frame c (apply_unrevocations cr h rs c)
  unfolding apply_unrevocations blank
  apply_unrevocations-Frame h [] c = Frame-refl c
  apply_unrevocations-Frame h (r ∷ rs) c =
      Frame-trans c _ _ (frame refl refl refl) (apply_unrevocations-Frame h rs _)

  evict-Frame : (es : List Equivocation) (c : Chain) → Frame c (evict cr es c)
  unfolding evict blank
  evict-Frame [] c = Frame-refl c
  evict-Frame (e ∷ es) c = Frame-trans c _ _ (frame refl refl refl) (evict-Frame es _)

  see_validators-Frame :
      (p : ℕ) (atts : List Attestation) (c : Chain) → Frame c (see_validators cr p atts c)
  unfolding see_validators blank
  see_validators-Frame p [] c = Frame-refl c
  see_validators-Frame p (a ∷ atts) c =
      Frame-trans c _ _ (frame (ground arith) (ground arith) (ground arith)) (
        see_validators-Frame p atts (
          if not (attester_id cr a == p) && attester_qualified (attester_id cr a) c
          then record c { validators_seen = add (attester_id cr a) c.validators_seen }
          else c))

  settle-Frame : (b : Block) (c : Chain) → Frame (push_block b c) (settle cr b c)
  unfolding settle
  settle-Frame b c =
      let x = body b in
      let c₀ = push_block b c in
      let c₁ = apply_entries x.entries c₀ in
      let c₂ = apply_revocations cr x.height x.revocations c₁ in
      let c₃ = apply_unrevocations cr x.height x.unrevocations c₂ in
      let c₄ = apply_regs cr (ltb 0 x.height) x.height x.bond_regs c₃ in
      let c₅ = expire x.height c₄ in
      Frame-trans c₀ c₁ _ (apply_entries-Frame x.entries c₀) (
        Frame-trans c₁ c₂ _ (apply_revocations-Frame x.height x.revocations c₁) (
          Frame-trans c₂ c₃ _ (apply_unrevocations-Frame x.height x.unrevocations c₂) (
            Frame-trans c₃ c₄ _ (apply_regs-Frame (ltb 0 x.height) x.height x.bond_regs c₃) (
              Frame-trans c₄ c₅ _ (expire-Frame x.height c₄)
                (evict-Frame (proofs (slashes_of b)) c₅)))))

  -- The replica just before the latch is looked at.
  abbrev pub before_latch : Block → Chain → Chain
  before_latch b c = see_validators cr (proposer_id cr b) (body b).atts (settle cr b c)

  pub before_latch-Frame : (b : Block) (c : Chain) → Frame (push_block b c) (before_latch b c)
  before_latch-Frame b c =
      Frame-trans (push_block b c) (settle cr b c) _ (settle-Frame b c)
        (see_validators-Frame (proposer_id cr b) (body b).atts (settle cr b c))

  -- A block that is applied is pushed, and the settings stay.
  pub apply-blocks : (b : Block) (c : Chain) → (apply cr b c).blocks ≡ c.blocks ++ b ∷ []
  unfolding apply latch
  apply-blocks b c = ground (arith, (before_latch-Frame b c).same_blocks)

  pub apply-blank : (b : Block) (c : Chain) → blank (apply cr b c) ≡ blank c
  unfolding apply latch blank
  apply-blank b c = ground (arith, (before_latch-Frame b c).settings)
