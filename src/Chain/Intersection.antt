-- ===== src/Chain/Intersection.antt =====
-- Quorum intersection at the Byzantine threshold: `bftThreshold` and `RequiredQuorum` in
-- core/chain/chain.go.
use bitbit.Base.{
  ℕ, ◌+◌, ◌-◌, ◌/◌, ◌≤◌, ◌<◌, ◌≡◌, refl, ◌⊎◌, inl, inr, true, false, List, [], ◌∷◌, length, mem,
  All, Distinct, arith,
}
use bitbit.Base.Int.{ℤ, pos, ◌≤ℤ◌}
use bitbit.Base.Maps.{Map, lookup, get_or}
use bitbit.Base.Pigeonhole.{
  IsWithin, common, common-length, All-common, mem-common, All-mem, Distinct-common,
  length-le-of_within,
}
use bitbit.Chain.Types.{Block, Crypto, ok}
use bitbit.Chain.State.{
  Chain, proposer_id, objective, bonded_size, launch_anchor, attester_qualified, proposer_qualified,
  qualified, qualified_of, bft_threshold, required_quorum,
}
use bitbit.Chain.Rules.{validate_commit}
use bitbit.Chain.Quorum.{IsSigner, IsAttester, validate_commit_quorum}

mem-qualified_of :
    (min_bond : ℤ) (slashed : List ℕ) (id : ℕ) (m : Map ℤ)
    → pos 1 ≤ℤ min_bond
    → min_bond ≤ℤ get_or (lookup id m) (pos 0)
    → mem id slashed ≡ false
    → mem id (qualified_of min_bond slashed m) ≡ true
unfolding qualified_of mem lookup
mem-qualified_of min_bond slashed id [] h k f = absurd (omega arith)
mem-qualified_of min_bond slashed id ((j, sz) ∷ m) h k f =
    ground (arith, mem-qualified_of min_bond slashed id m h)

-- In objective mode, once the network has matured, whoever may attest or propose is counted.
module _ (c : Chain) (obj : objective c ≡ true) (matured : c.ever_mature ≡ true) where
  min_bond-pos : pos 1 ≤ℤ c.cfg.min_bond
  unfolding objective
  min_bond-pos = ground arith

  bonded-mem :
      (id : ℕ)
      → mem id c.slashed ≡ false
      → c.cfg.min_bond ≤ℤ bonded_size id c
      → mem id (qualified c) ≡ true
  unfolding qualified bonded_size
  bonded-mem id h k = mem-qualified_of c.cfg.min_bond c.slashed id c.bonded min_bond-pos k h

  attester-mem : (id : ℕ) → attester_qualified id c ≡ true → mem id (qualified c) ≡ true
  unfolding attester_qualified launch_anchor
  attester-mem id h = ground (arith, bonded-mem id)

  proposer-mem : (id : ℕ) → proposer_qualified id c ≡ true → mem id (qualified c) ≡ true
  unfolding proposer_qualified launch_anchor
  proposer-mem id h = ground (arith, bonded-mem id)

required_quorum-bft :
    (c : Chain)
    → objective c ≡ true
    → c.cfg.byzantine_quorum ≡ true
    → pos (bft_threshold (length (qualified c))) ≤ℤ required_quorum c
unfolding required_quorum
required_quorum-bft c h k = ground arith

-- The support of a block: who proposed it or has a verifying attestation of it.
abbrev pub Supports : Crypto → Block → ℕ → Type 0
Supports cr b id = (id ≡ proposer_id cr b) ⊎ IsSigner cr b id

-- The support set of an accepted block, in the setting of the Byzantine quorum.
record Support (cr : Crypto) (c : Chain) (b : Block) : Type 0 where
  ids : List ℕ
  distinct : Distinct ids
  within : IsWithin (qualified c) ids
  backing : All (Supports cr b) ids
  large : bft_threshold (length (qualified c)) + 1 ≤ length ids

module _ (cr : Crypto) (c : Chain) (obj : objective c ≡ true) (matured : c.ever_mature ≡ true)
    (byzantine : c.cfg.byzantine_quorum ≡ true) where
  attesters-Support :
      (b : Block) (seen : List ℕ)
      → All (IsAttester cr c b) seen
      → IsWithin (qualified c) seen
        × All (Supports cr b) seen
        × (mem (proposer_id cr b) seen ≡ false)
  unfolding mem
  attesters-Support b [] h = (tt, tt, refl)
  attesters-Support b (id ∷ seen) ((signer, fit, other), rest) =
      let (within, backing, apart) = attesters-Support b seen rest in
      ((attester-mem c obj matured id fit, within), (inr signer, backing), ground arith)

  commit-Support : (b : Block) → validate_commit cr c b ≡ ok tt → Support cr c b
  commit-Support b h =
      let (proposer, attested) = validate_commit_quorum cr c b h in
      let (seen, distinct, all, enough) = attested in
      let (within, backing, apart) = attesters-Support b seen all in
      record {
        ids = proposer_id cr b ∷ seen;
        distinct = (apart, distinct);
        within = (proposer-mem c obj matured (proposer_id cr b) proposer, within);
        backing = (inl refl, backing);
        large = omega (arith, enough, required_quorum-bft c obj byzantine);
      }

-- Two support sets of n - f among n share more than f.
threshold-overlap :
    (n s t k : ℕ)
    → 0 < n
    → bft_threshold n + 1 ≤ s
    → bft_threshold n + 1 ≤ t
    → s + t ≤ n + k
    → (n - 1) / 3 + 1 ≤ k
unfolding bft_threshold
threshold-overlap n s t k h hs ht hk = ground arith

both-Support :
    (cr : Crypto) (a b : Block) (ids : List ℕ)
    → All (Supports cr a) ids
    → All (Supports cr b) ids
    → All (λ id. Supports cr a id × Supports cr b id) ids
both-Support cr a b [] h k = tt
both-Support cr a b (id ∷ ids) h k = ((h.0, k.0), both-Support cr a b ids h.1 k.1)

backed-common :
    (P : ℕ → Type 0) (ys : List ℕ)
    → All P ys
    → (xs : List ℕ) → All (λ a. mem a ys ≡ true) xs
    → All P xs
backed-common P ys h [] w = tt
backed-common P ys h (x ∷ xs) w = (All-mem P x ys h w.0, backed-common P ys h xs w.1)

-- Byzantine safety of the commit rule: on a replica in objective mode with `ByzantineQuorum`, after
-- the maturity latch, the support sets of any two blocks that it accepts at the same state (the
-- proposer and those whose attestations of the block verify) share at least f + 1 distinct
-- identities, where f = ⌊(n - 1) / 3⌋ of the n validators that `qualifiedCount` counts.
pub quorum_intersection :
    (cr : Crypto) (c : Chain) (a b : Block)
    → objective c ≡ true
    → c.ever_mature ≡ true
    → c.cfg.byzantine_quorum ≡ true
    → validate_commit cr c a ≡ ok tt
    → validate_commit cr c b ≡ ok tt
    → (shared : List ℕ) × Distinct shared
      × All (λ id. Supports cr a id × Supports cr b id) shared
      × ((length (qualified c) - 1) / 3 + 1 ≤ length shared)
quorum_intersection cr c a b obj matured byzantine ha hb =
    let s = commit-Support cr c obj matured byzantine a ha in
    let t = commit-Support cr c obj matured byzantine b hb in
    let shared = common s.ids t.ids in
    (
      shared,
      Distinct-common s.ids t.ids s.distinct,
      both-Support cr a b shared (All-common _ s.ids t.ids s.backing)
          (backed-common _ t.ids t.backing shared (mem-common s.ids t.ids)),
      threshold-overlap (length (qualified c)) (length s.ids) (length t.ids) (length shared)
          (omega (arith, length-le-of_within s.ids (qualified c) s.distinct s.within, s.large))
          s.large t.large
          (common-length s.ids t.ids (qualified c) s.distinct t.distinct s.within t.within),
    )
