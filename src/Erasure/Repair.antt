-- ===== src/Erasure/Repair.antt =====
-- The proof of a correct repair and the verdict on its bounty: core/repairproof. SHA-256 and
-- HMAC-SHA-256 are parameters. A position is not negative.
use bitbit.Base.{
  ℕ, zero, suc, Bool, true, false, not, ◌&&◌, ◌||◌, Option, none, some, List, [], ◌∷◌, ◌++◌, length,
  get_elem?, ltb, leb, ◌==◌, if◌then◌else◌,
}
use bitbit.Base.Bytes.{Bytes, ascii}
use bitbit.Base.Maps.{Map}
use bitbit.Chain.State.{hash_bytes}
use bitbit.Por.Scheme.{Key, Proof, verify}
use bitbit.Erasure.Stripe.{
  Params, ReedSolomon, validate, StripeResult, shards_of, fails, reconstruct_stripe,
}

pub record RepairClaim : Type 0 where
  pub root : ℕ
  pub stripe : ℕ
  pub shard_pos : ℕ
  pub shard_id : ℕ
  pub holder : ℕ

pub record Decision : Type 0 where
  pub release : Bool
  pub slash : Bool

unfoldable pub confirmed : List Bool → ℕ
confirmed [] = 0
confirmed (ok ∷ votes) = if ok then suc (confirmed votes) else confirmed votes

unfoldable pub decide : Bool → List Bool → ℕ → Decision
decide correctness_ok votes tau =
    if not correctness_ok
    then record { release = false; slash = true }
    else if ltb tau 1
    then record { release = false; slash = false }
    else record { release = leb tau (confirmed votes); slash = false }

pub data Malformed : Type 0 where
  bad_params out_of_range bad_real_data padding_target target_supplied unrecoverable : Malformed

-- A verdict, or an error.
pub data Verdict : Type 0 where
  verdict : Bool → Verdict
  malformed : Malformed → Verdict

unfoldable pub empty_slots : ℕ → List (Option Bytes)
empty_slots zero = []
empty_slots (suc n) = none ∷ empty_slots n

-- `shards[pos] = b`
unfoldable pub put_slot : ℕ → Bytes → List (Option Bytes) → List (Option Bytes)
put_slot pos b [] = []
put_slot zero b (s ∷ slots) = some b ∷ slots
put_slot (suc pos) b (s ∷ slots) = s ∷ put_slot pos b slots

-- The loop over the survivors: the slots, or the error.
unfoldable pub place :
    ℕ → ℕ → Map Bytes → List (Option Bytes) → (Option Malformed) × List (Option Bytes)
place n target [] slots = (none, slots)
place n target ((pos, b) ∷ survivors) slots =
    let rest = place n target survivors (put_slot pos b slots) in
    if leb n pos
    then (some out_of_range, slots)
    else if pos == target
    then (some target_supplied, slots)
    else rest

module _ (sha256 : Bytes → ℕ) where
  -- A target out of range would panic.
  abbrev pub same_hash : ℕ → Option Bytes → Verdict
  same_hash want none = malformed out_of_range
  same_hash want (some shard) = verdict (sha256 shard == want)

  abbrev pub judged : ℕ → ℕ → StripeResult → Verdict
  judged target want (fails e) = verdict false
  judged target want (shards_of shards) = same_hash want (get_elem? shards target)

  abbrev pub recompute :
      ReedSolomon
      → Params
      → Map Bytes
      → ℕ
      → ℕ
      → ℕ
      → (Option Malformed) × List (Option Bytes)
      → Verdict
  recompute rs p survivors real target want (some e, slots) = malformed e
  recompute rs p survivors real target want (none, slots) =
      if ltb (length survivors) p.k
      then malformed unrecoverable
      else judged target want (reconstruct_stripe rs p slots real)

  unfoldable pub verify_by_recompute : ReedSolomon → Params → Map Bytes → ℕ → ℕ → ℕ → Verdict
  verify_by_recompute rs p survivors real target want =
      if not (validate p)
      then malformed bad_params
      else if leb p.n target
      then malformed out_of_range
      else if ltb real 1 || ltb p.k real
      then malformed bad_real_data
      else if not (ltb target real) && ltb target p.k
      then malformed padding_target
      else recompute rs p survivors real target want (place p.n target survivors (empty_slots p.n))

  unfoldable pub repair_challenge_seed : Bytes → ℕ → Bytes
  repair_challenge_seed base repairer =
      hash_bytes (sha256 (ascii "silt/repair/challenge/prover/v1" ++ (base ++ hash_bytes repairer)))

  -- None where the challenge is not expanded within the draws.
  abbrev pub retrievable :
      (Bytes → Bytes → ℕ) → ℕ → Option Key → Bytes → ℕ → Bytes → ℕ → ℕ → Proof → Option Bool
  retrievable mac draws none unit_id repairer base blocks count proof = some false
  retrievable mac draws (some key) unit_id repairer base blocks count proof =
      if blocks == 0
      then some false
      else let sampled = if ltb blocks count then blocks else count in
        verify mac draws key unit_id
          (record { seed = repair_challenge_seed base repairer; blocks = blocks; count = sampled })
          proof

  unfoldable pub verify_retrievability :
      (Bytes → Bytes → ℕ) → ℕ → Option Key → Bytes → ℕ → Bytes → ℕ → ℕ → Proof → Option Bool
  verify_retrievability mac draws key unit_id repairer base blocks count proof =
      retrievable mac draws key unit_id repairer base blocks count proof
