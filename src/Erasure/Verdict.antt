-- ===== src/Erasure/Verdict.antt =====
-- What the check of a repair comes to: core/repairproof/repairproof.go.
use bitbit.Base.{
  ℕ, ◌+◌, ◌≤◌, ◌≡◌, refl, sym, ap, ◌∙◌, subst, false, not, ◌&&◌, ◌||◌, Option, none, some, List, [],
  ◌∷◌, length, get_elem?, ltb, leb, ◌==◌, arith, inl, inr,
}
use bitbit.Base.Bytes.{Bytes}
use bitbit.Base.Maps.{Map}
use bitbit.Erasure.Stripe.{Params, ReedSolomon, shards_of, available, encode_stripe}
use bitbit.Erasure.Recovery.{Agrees, IsErasureCode, NoPadding}
use bitbit.Erasure.RoundTrip.{stripe_of, stripe_survives, stripe-sizes}
use bitbit.Erasure.Repair.{verdict, put_slot, empty_slots, place, verify_by_recompute}
use bitbit.Erasure.Slots.{
  Stored, IsSurvivors, Free, in_range, put-Agrees, put-available, put-NoPadding, put-Free,
  empty-Agrees, empty-available, empty-NoPadding, empty_at,
}

-- What the loop over the survivors builds.
record Placed (n k real target : ℕ) (stripe : List Bytes) (survivors : Map Bytes)
    (slots : List (Option Bytes)) : Type 0 where
  built : List (Option Bytes)
  done : place n target survivors slots ≡ (none, built)
  agrees : Agrees built stripe
  unpadded : NoPadding real k 0 built
  count : available built ≡ available slots + length survivors

placed :
    (n k real target : ℕ) (stripe : List Bytes) (survivors : Map Bytes)
    (slots : List (Option Bytes))
    → length stripe ≡ n
    → IsSurvivors real k target stripe survivors
    → Agrees slots stripe
    → NoPadding real k 0 slots
    → Free slots survivors
    → Placed n k real target stripe survivors slots
unfolding place
placed n k real target stripe [] slots size s agrees unpadded free = record {
  built = slots;
  done = refl;
  agrees = agrees;
  unpadded = unpadded;
  count = omega arith;
}
placed n k real target stripe ((pos, b) ∷ survivors) slots size (here, other, stored, fresh, more)
      agrees unpadded (free, frees) =
    let same : 0 + pos ≡ pos = omega arith in
    let next =
      placed n k real target stripe survivors (put_slot pos b slots) size more
        (put-Agrees pos b slots stripe agrees here)
        (put-NoPadding real k 0 pos b slots (subst (λ z. Stored real k z) (sym same) stored)
          unpadded)
        (put-Free pos b slots survivors fresh frees) in
    let inside : leb n pos ≡ false = ground (arith, in_range stripe pos b here, size) in
    let not_target : (pos == target) ≡ false = ground (arith, other) in
    record {
      built = next.built;
      done = rw (place, inside, not_target) next.done;
      agrees = next.agrees;
      unpadded = next.unpadded;
      count = next.count ∙ omega (arith, put-available pos b slots free);
    }

empty-Free :
    (real k target : ℕ) (stripe : List Bytes) (survivors : Map Bytes)
    → IsSurvivors real k target stripe survivors
    → Free (empty_slots (length stripe)) survivors
empty-Free real k target stripe [] h = tt
empty-Free real k target stripe ((pos, b) ∷ survivors) (here, _, _, _, more) = (
  empty_at (length stripe) pos (in_range stripe pos b here),
  empty-Free real k target stripe survivors more,
)

-- Given k or more true shards of a stripe that was encoded, at different positions other than the
-- target's, the check of a repair accepts exactly the content hash of the target's own shard: it is
-- never malformed, and its verdict is whether that hash is the one wanted. The target is a chunk or
-- parity, not padding, and the code keeps its promise.
pub recompute_exact :
    (sha256 : Bytes → ℕ) (rs : ReedSolomon) (p : Params) (chunks parity : List Bytes)
    (survivors : Map Bytes) (target want : ℕ) (shard : Bytes)
    → IsErasureCode rs
    → encode_stripe rs p chunks ≡ shards_of parity
    → IsSurvivors (length chunks) p.k target (stripe_of p chunks parity) survivors
    → p.k ≤ length survivors
    → Stored (length chunks) p.k target
    → get_elem? (stripe_of p chunks parity) target ≡ some shard
    → verify_by_recompute sha256 rs p survivors (length chunks) target want
      ≡ verdict (sha256 shard == want)
unfolding verify_by_recompute
recompute_exact sha256 rs p chunks parity survivors target want shard law made true_shards many
      stored here =
    let stripe = stripe_of p chunks parity in
    let real = length chunks in
    let (valid, order, some_chunk, few_chunks, size) = stripe-sizes rs p chunks parity law made in
    let start = empty_slots (length stripe) in
    let laid =
      placed p.n p.k real target stripe survivors start size true_shards (empty-Agrees stripe)
        (empty-NoPadding real p.k 0 (length stripe))
        (empty-Free real p.k target stripe survivors true_shards) in
    let done : place p.n target survivors (empty_slots p.n) ≡ (none, laid.built) =
      ap (λ z. place p.n target survivors (empty_slots z)) (sym size) ∙ laid.done in
    let enough : real ≤ available laid.built =
      omega (arith, laid.count, empty-available (length stripe), many, few_chunks) in
    let rebuilt =
      stripe_survives rs p chunks parity laid.built law made laid.agrees laid.unpadded enough in
    let inside : leb p.n target ≡ false = ground (arith, in_range stripe target shard here, size) in
    let real_ok : (ltb real 1 || ltb p.k real) ≡ false = ground (arith, some_chunk, few_chunks) in
    let repairable : (not (ltb target real) && ltb target p.k) ≡ false = elim stored [
      | inl o ↦ ground (arith, o)
      | inr o ↦ ground (arith, o)
    ] in
    let recoverable : ltb (length survivors) p.k ≡ false = ground (arith, many) in
    rw (verify_by_recompute, valid, inside, real_ok, repairable, done, recoverable, rebuilt, here)
      refl
