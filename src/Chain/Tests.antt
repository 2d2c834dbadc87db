-- ===== src/Chain/Tests.antt =====
-- Two small networks on which the theorems about core/chain apply: one by reputation, with a fork,
-- and one by bonds, after the maturity latch.
use bitbit.Base.{
  ℕ, ◌+◌, ◌-◌, ◌*◌, ◌/◌, ◌≤◌, ◌≡◌, refl, ap, true, false, none, some, List, [], ◌∷◌, ◌++◌, length,
  mem, if◌then◌else◌, Distinct, All, arith,
}
use bitbit.Base.Int.{ℤ, pos, ◌≤ℤ◌, add64}
use bitbit.Base.Bytes.{Bytes, bytes_equal, mem_bytes, be_bytes}
use bitbit.Base.Maps.{lookup, insert, erase}
use bitbit.Chain.Types.{
  Entry, Attestation, Block, block, body, no_slashes, Crypto, Result, ok, err, ◌>>◌,
}
use bitbit.Chain.State.{
  Chain, new, default_config, hash_bytes, unsigned, hash, proposer_id, attester_id, head_of, head,
  objective, bonded_size, launch_anchor, attester_qualified, proposer_qualified, qualified_of,
  qualified, bft_threshold, required_quorum,
}
use bitbit.Chain.Metric.{
  mature, mature_now, c2_metric, participants, sizes_of, total_of, counted, operator_margin,
  non_anchors,
}
use bitbit.Chain.Apply.{
  apply, settle, latch, see_validators, evict, expire, expire_from, apply_regs, apply_revocations,
  apply_unrevocations, apply_entries, apply_entry,
}
use bitbit.Chain.Rules.{
  append, append_genesis, validate_genesis, validate_commit, validate_proposal, validate_parent,
  validate_takedowns, validate_revocations, validate_unrevocations, validate_bond_regs,
  validate_slashes, validate_entries, validate_entry, validate_token, count_atts, count_step,
  anchor_rule, de_mature_rule,
}
use bitbit.Chain.Fork.{
  replay, append_all, blank, reconcile, admissible, passes_checkpoint, adopt, heavier, weight,
  weight_from, block_weight, weigh_atts, weighs, tip,
}
use bitbit.Chain.Latch.{Extends, here, next, by_commit, latch_one_way}
use bitbit.Chain.Heal.{reconcile_outcome, forks_heal}
use bitbit.Chain.Quorum.{validate_commit_quorum, IsAttester}
use bitbit.Chain.Evict.{IsSound, Extends-IsSound}
use bitbit.Chain.Takedown.{OnlyPublished, takedowns-OnlyPublished}
use bitbit.Chain.Fresh.{serials_of, DistinctBytes}
use bitbit.Chain.Fork.{append_all}
use bitbit.Chain.Once.{entries_of, Unpublished, Unspent, AllPaid, published_once, paid_once}
use bitbit.Chain.State.{require_tokens}
use bitbit.Chain.Rules.{verify_token, token_signers, token_step}
use bitbit.Base.{map}
use bitbit.Base.Int.{ltb_ℤ}
use bitbit.Chain.Auditable.{events, block_logs_takedowns, takedown_record_kept}
use bitbit.Chain.Queries.{
  revocation_log_root_at, revocation_inclusion_proof, revocation_consistency_proof,
}
use bitbit.Base.Sets.{add, remove}
use bitbit.Chain.Linked.{IsLinked, Extends-IsLinked}
use bitbit.Chain.Intersection.{quorum_intersection, Supports}

-- A key is its number and 31 zeros; it stands for a signature of it too.
abbrev key : ℕ → Bytes
key n =
    n ∷ 0 ∷ 0 ∷ 0 ∷ 0 ∷ 0 ∷ 0 ∷ 0 ∷ 0 ∷ 0 ∷ 0 ∷ 0 ∷ 0 ∷ 0 ∷ 0 ∷ 0 ∷ 0 ∷ 0 ∷ 0 ∷ 0 ∷ 0 ∷ 0 ∷ 0 ∷ 0
    ∷ 0 ∷ 0 ∷ 0 ∷ 0 ∷ 0 ∷ 0 ∷ 0 ∷ 0 ∷ []

abbrev first_byte : Bytes → ℕ
first_byte [] = 0
first_byte (x ∷ xs) = x

-- The height and the proposer tell the blocks of these networks apart.
abbrev toy : Crypto
toy = record {
  sha256 = first_byte;
  encode = λ b. ((body b).height * 10 + first_byte (body b).proposer) ∷ [];
  verify = λ k message sig. bytes_equal sig k;
  blind_verify = λ k serial sig. true;
}

abbrev entry_of : ℕ → Entry
entry_of root = record {
  root = root;
  manifest_chunks = root ∷ [];
  file_size = pos 64;
  publisher = 0;
  token = none;
}

abbrev att : ℕ → Attestation
att n = record { pub_key = key n; sig = key n }

abbrev block_of : ℕ → ℕ → ℕ → ℕ → List Attestation → Block
block_of height prev root proposer atts =
    block
      (record {
        height = height;
        prev = prev;
        entries = entry_of root ∷ [];
        proposer = key proposer;
        proposer_sig = key proposer;
        atts = atts;
        revocations = [];
        version = 1;
        unrevocations = [];
        bond_regs = [];
      })
      no_slashes

abbrev first_block : Block
first_block = block_of 0 0 7 1 []

abbrev light : Block
light = block_of 1 1 8 2 (att 3 ∷ [])

abbrev heavy : Block
heavy = block_of 1 1 9 4 (att 3 ∷ att 5 ∷ [])

abbrev by_reputation : Chain
unfolding new default_config
by_reputation = new (record default_config { quorum = pos 1 }) (λ id. pos 100)

abbrev or_else : Chain → Result Chain → Chain
or_else c (ok d) = d
or_else c (err e) = c

-- What a replica becomes that replays these blocks.
unfoldable replayed : List Block → Chain
unfolding replay append_all blank append append_genesis validate_genesis validate_commit
    validate_proposal validate_parent validate_takedowns validate_revocations validate_unrevocations
    validate_bond_regs validate_slashes validate_entries validate_entry validate_token count_atts
    count_step anchor_rule de_mature_rule required_quorum apply settle latch see_validators evict
    expire expire_from apply_regs apply_revocations apply_unrevocations apply_entries apply_entry
    mature mature_now non_anchors attester_qualified proposer_qualified objective launch_anchor
    bonded_size hash unsigned proposer_id attester_id head head_of hash_bytes be_bytes bytes_equal
    mem_bytes mem lookup insert erase new default_config
replayed bs = or_else by_reputation (replay toy by_reputation bs)

abbrev light_side : Chain
light_side = replayed (first_block ∷ light ∷ [])

abbrev heavy_side : Chain
heavy_side = replayed (first_block ∷ heavy ∷ [])

light-replays : replay toy light_side light_side.blocks ≡ ok light_side
unfolding replayed
light-replays = refl

heavy-replays : replay toy heavy_side heavy_side.blocks ≡ ok heavy_side
unfolding replayed
heavy-replays = refl

-- The replica with the light fork meets the heavy one.
light-yields : reconcile toy light_side heavy_side.blocks ≡ ok (true, heavy_side)
unfolding replayed reconcile admissible passes_checkpoint adopt heavier weight weight_from
    block_weight weigh_atts weighs tip add64
light-yields = refl

heavy-stays : reconcile toy heavy_side light_side.blocks ≡ ok (false, heavy_side)
unfolding replayed reconcile admissible passes_checkpoint adopt heavier weight weight_from
    block_weight weigh_atts weighs tip add64
heavy-stays = refl

same-settings : blank light_side ≡ blank heavy_side
unfolding replayed
same-settings = refl

forks_heal_example : tip toy heavy_side.blocks ≡ tip toy heavy_side.blocks
forks_heal_example =
    forks_heal toy light_side heavy_side heavy_side heavy_side true false same-settings
      light-replays heavy-replays light-yields heavy-stays

reconcile_outcome_example :
    (t : Chain) × (replay toy light_side heavy_side.blocks ≡ ok t)
    × (t.blocks ≡ heavy_side.blocks)
    × (heavier toy t light_side ≡ true)
    × (heavy_side ≡ (if true then t else light_side))
reconcile_outcome_example =
    reconcile_outcome toy light_side heavy_side.blocks true heavy_side light-yields

none_revoked : (r : ℕ) → mem r [] ≡ true → ⊥
unfolding mem
none_revoked r h = cc

-- On the light side a root is taken down, and the takedown is reversed.
abbrev takedown : Block
takedown =
    block (record (body (block_of 2 12 10 2 (att 3 ∷ []))) { revocations = 7 ∷ [] }) no_slashes

abbrev reversal : Block
reversal =
    block (record (body (block_of 3 22 11 2 (att 3 ∷ []))) { unrevocations = 7 ∷ [] }) no_slashes

abbrev censored : Chain
censored = apply toy takedown light_side

abbrev restored : Chain
restored = apply toy reversal censored

takedown-commits : validate_commit toy light_side takedown ≡ ok tt
unfolding replayed
takedown-commits = refl

reversal-commits : validate_commit toy censored reversal ≡ ok tt
unfolding replayed add remove
reversal-commits = refl

takedown-appends : append toy light_side takedown ≡ ok censored
unfolding append
takedown-appends = ap (λ z. z >> ok censored) takedown-commits

takedown-Extends : Extends toy light_side censored
takedown-Extends = next here (by_commit takedown takedown-appends)

reversal-Extends : Extends toy censored restored
unfolding append
reversal-Extends = next here (by_commit reversal (ap (λ z. z >> ok restored) reversal-commits))

light-OnlyPublished : OnlyPublished light_side
unfolding replayed
light-OnlyPublished r h = absurd (none_revoked r h)

takedowns-OnlyPublished_example : OnlyPublished censored
takedowns-OnlyPublished_example =
    takedowns-OnlyPublished toy light_side censored light-OnlyPublished takedown-Extends

block_logs_takedowns_example : censored.rev_log ≡ light_side.rev_log ++ events toy takedown
block_logs_takedowns_example = block_logs_takedowns toy takedown light_side

one_event : 1 ≤ length censored.rev_log
unfolding replayed
one_event = omega arith

takedown_record_kept_example :
    (revocation_log_root_at toy 1 restored ≡ revocation_log_root_at toy 1 censored)
    × (revocation_inclusion_proof toy 0 1 restored ≡ revocation_inclusion_proof toy 0 1 censored)
    × (revocation_consistency_proof toy 1 1 restored
        ≡ revocation_consistency_proof toy 1 1 censored)
takedown_record_kept_example =
    takedown_record_kept toy censored restored 1 0 1 reversal-Extends one_event

-- The replica that holds the first block alone, and two blocks that it appends.
abbrev founded : Chain
founded = replayed (first_block ∷ [])

two-append : append_all toy founded (light ∷ takedown ∷ []) ≡ ok censored
unfolding replayed add remove
two-append = refl

published_once_example :
    Distinct (map Entry.root (entries_of (light ∷ takedown ∷ [])))
    × Unpublished founded (map Entry.root (entries_of (light ∷ takedown ∷ [])))
published_once_example = published_once toy (light ∷ takedown ∷ []) founded censored two-append

-- A replica that asks for tokens, and a block with one.
abbrev gated : Chain
gated = require_tokens (pos 1) (λ id. some (record { modulus = 15; exponent = 3 })) light_side

abbrev paid_block : Block
paid_block =
    block
      (record (body (block_of 2 12 10 2 (att 3 ∷ []))) {
        entries =
            record (entry_of 10) {
              token =
                  some
                    (record { serial = 42 ∷ []; sigs = record { validator = 3; sig = [] } ∷ [] });
            }
            ∷ [];
      })
      no_slashes

paid-appends : append toy gated paid_block ≡ ok (apply toy paid_block gated)
unfolding replayed require_tokens verify_token token_signers token_step
paid-appends = refl

gated_quorum : ltb_ℤ (pos 0) gated.token_quorum ≡ true
unfolding require_tokens
gated_quorum = refl

paid-appended : append_all toy gated (paid_block ∷ []) ≡ ok (apply toy paid_block gated)
unfolding append_all
paid-appended = rw paid-appends refl

paid_once_example :
    AllPaid toy gated (paid_block ∷ [])
    × DistinctBytes (serials_of (entries_of (paid_block ∷ [])))
    × Unspent gated (serials_of (entries_of (paid_block ∷ [])))
paid_once_example =
    paid_once toy (paid_block ∷ []) gated (apply toy paid_block gated) gated_quorum paid-appended

-- Four identities with a bond each, after the maturity latch.
abbrev by_bonds : Chain
unfolding new default_config
by_bonds =
    record (new
      (record default_config {
        min_bond = pos 5;
        quorum = pos 1;
        byzantine_quorum = true;
        anchors = 4 ∷ [];
      })
      (λ id. pos 0)) {
        verify_bond = some (λ k root size nonce answer. true);
        ever_mature = true;
        bonded = (1, pos 5) ∷ (2, pos 5) ∷ (3, pos 6) ∷ (4, pos 7) ∷ [];
        bond_root_owner = (11, 1) ∷ (12, 2) ∷ (13, 3) ∷ (14, 4) ∷ [];
      }

abbrev left_block : Block
left_block = block_of 0 0 21 1 (att 2 ∷ att 3 ∷ [])

abbrev right_block : Block
right_block = block_of 0 0 22 2 (att 3 ∷ att 4 ∷ att 9 ∷ [])

-- The verdict on a block.
unfoldable verdict : Block → Result Chain
unfolding replayed participants sizes_of total_of c2_metric counted operator_margin qualified
    qualified_of bft_threshold
verdict b = append toy by_bonds b

bonds-objective : objective by_bonds ≡ true
unfolding objective by_bonds
bonds-objective = refl

left-commits : validate_commit toy by_bonds left_block ≡ ok tt
unfolding verdict
left-commits = refl

right-commits : validate_commit toy by_bonds right_block ≡ ok tt
unfolding verdict
right-commits = refl

quorum_intersection_example :
    (shared : List ℕ) × Distinct shared
    × All (λ id. Supports toy left_block id × Supports toy right_block id) shared
    × ((length (qualified by_bonds) - 1) / 3 + 1 ≤ length shared)
unfolding by_bonds
quorum_intersection_example =
    quorum_intersection toy by_bonds left_block right_block bonds-objective refl refl left-commits
      right-commits

validate_commit_quorum_example :
    (proposer_qualified (proposer_id toy left_block) by_bonds ≡ true)
    × ((seen : List ℕ) × Distinct seen
        × All (IsAttester toy by_bonds left_block) seen
        × (required_quorum by_bonds ≤ℤ pos (length seen)))
validate_commit_quorum_example = validate_commit_quorum toy by_bonds left_block left-commits

abbrev grown_left : Chain
grown_left = apply toy left_block by_bonds

left-Extends : Extends toy by_bonds grown_left
unfolding append
left-Extends = next here (by_commit left_block (ap (λ z. z >> ok grown_left) left-commits))

latch_one_way_example : (grown_left.ever_mature ≡ true) × (launch_anchor 4 grown_left ≡ false)
unfolding by_bonds
latch_one_way_example = latch_one_way toy by_bonds grown_left 4 refl left-Extends

owner_of :
    (id : ℕ) (sz : ℤ)
    → lookup id by_bonds.bonded ≡ some sz
    → (root : ℕ) × (lookup root by_bonds.bond_root_owner ≡ some id)
unfolding lookup by_bonds
owner_of id sz h = (id + 10, ground arith)

by_bonds-IsSound : IsSound by_bonds
unfolding by_bonds
by_bonds-IsSound = record {
  evicted = λ id h. absurd (none_revoked id h);
  owned = λ id sz h. owner_of id sz h;
}

Extends-IsSound_example : IsSound grown_left
Extends-IsSound_example = Extends-IsSound toy by_bonds grown_left by_bonds-IsSound left-Extends

Extends-IsLinked_example : IsLinked toy grown_left.blocks
unfolding by_bonds
Extends-IsLinked_example = Extends-IsLinked toy by_bonds grown_left refl left-Extends
