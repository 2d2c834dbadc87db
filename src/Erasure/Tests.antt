-- ===== src/Erasure/Tests.antt =====
-- A code of one data shard, which repeats it, and a stripe on which the theorems about core/erasure and
-- core/repairproof apply.
use bitbit.Base.{
  ℕ, zero, suc, ◌+◌, ◌≤◌, ◌≡◌, refl, sym, ap, ◌∙◌, subst, Bool, true, false, Option, none, some,
  List, [], ◌∷◌, length, All, take, drop, ◌==◌, if◌then◌else◌, arith, Bool-cases, inl, inr,
}
use bitbit.Base.Bytes.{Bytes, bytes_equal, bytes_equal_refl, bytes_equal_sound, zeros}
use bitbit.Erasure.Stripe.{
  Params, ReedSolomon, validate, parity_shards, same_size, copies, shards_of, available,
  encode_stripe, reconstruct_stripe,
}
use bitbit.Erasure.Recovery.{Agrees, IsErasureCode, length-copies}
use bitbit.Base.{get_elem?, mem}
use bitbit.Base.Maps.{Map, keys}
use bitbit.Erasure.Repair.{verdict, verify_by_recompute}
use bitbit.Erasure.Slots.{IsSurvivors}
use bitbit.Erasure.Verdict.{recompute_exact}
use bitbit.Erasure.RoundTrip.{stripe_of, stripe_survives}

abbrev all_are : Bytes → List Bytes → Bool
all_are b [] = true
all_are b (s ∷ shards) = if bytes_equal b s then all_are b shards else false

abbrev one_shard : ℕ → List Bytes → Bool
one_shard k [] = false
one_shard k (s ∷ shards) = if k == 1 then all_are s shards else false

abbrev repeat : ℕ → List Bytes → Option (List Bytes)
repeat k [] = none
repeat k (s ∷ shards) = if k == 1 then some (copies (suc (length shards)) s) else none

abbrev first_left : List (Option Bytes) → ℕ → Option (List Bytes)
first_left [] n = none
first_left (none ∷ slots) n = first_left slots n
first_left (some b ∷ slots) n = some (copies n b)

abbrev repetition : ReedSolomon
repetition = record {
  encode = λ k m shards. repeat k shards;
  reconstruct = λ k m slots. first_left slots (k + m);
  verify = λ k m shards. some (one_shard k shards);
}

all_are-copies : (b : Bytes) (n : ℕ) → all_are b (copies n b) ≡ true
unfolding copies
all_are-copies b zero = refl
all_are-copies b (suc n) = rw (bytes_equal_refl b) (all_are-copies b n)

all_are-eq :
    (b : Bytes) (shards : List Bytes) → all_are b shards ≡ true → shards ≡ copies (length shards) b
unfolding copies
all_are-eq b [] h = refl
all_are-eq b (s ∷ shards) h = elim (Bool-cases (bytes_equal b s)) [
  | inl e ↦
      let rest = all_are-eq b shards (sym (rw e refl) ∙ h) in
      ap (λ z. z ∷ shards) (sym (bytes_equal_sound b s e)) ∙ ap (λ z. b ∷ z) rest
  | inr e ↦ absurd (ground (arith, e, h))
]

first_left-eq :
    (b : Bytes) (n m : ℕ) (slots : List (Option Bytes))
    → Agrees slots (copies m b)
    → 1 ≤ available slots
    → first_left slots n ≡ some (copies n b)
unfolding copies available
first_left-eq b n zero [] h l = absurd (omega (arith, l))
first_left-eq b n zero (none ∷ slots) h l = absurd h
first_left-eq b n zero (some s ∷ slots) h l = absurd h
first_left-eq b n (suc m) [] h l = absurd (omega (arith, l))
first_left-eq b n (suc m) (none ∷ slots) h l = first_left-eq b n m slots h l
first_left-eq b n (suc m) (some s ∷ slots) h l = ap (λ z. some (copies n z)) h.0

copies_sized : (n size : ℕ) (b : Bytes) → length b ≡ size → All (λ s. length s ≡ size) (copies n b)
unfolding copies
copies_sized zero size b h = tt
copies_sized (suc n) size b h = (h, copies_sized n size b h)

repeated :
    (k : ℕ) (s : Bytes) (shards full : List Bytes)
    → repeat k (s ∷ shards) ≡ some full
    → (k ≡ 1) × (full ≡ copies (suc (length shards)) s)
repeated k s shards full h = elim (Bool-cases (k == 1)) [
  | inl e ↦
      let made : some (copies (suc (length shards)) s) ≡ some full = sym (rw e refl) ∙ h in
      (ground (arith, e), cc)
  | inr e ↦ let no : none ≡ some full = sym (rw e refl) ∙ h in absurd (cc)
]

kept :
    (k m : ℕ) (shards full : List Bytes)
    → repeat k shards ≡ some full
    → (take k full ≡ take k shards) × (length full ≡ length shards)
unfolding copies
kept k m [] full h = absurd (cc)
kept k m (s ∷ shards) full h =
    let (one, same) = repeated k s shards full h in
    (
      ap (λ z. take z full) one ∙ ap (λ z. take 1 z) same ∙ ap (λ z. take z (s ∷ shards)) (sym one),
      ap (λ z. length z) same ∙ length-copies (suc (length shards)) s,
    )

sized :
    (k m size : ℕ) (shards full : List Bytes)
    → repeat k shards ≡ some full
    → All (λ s. length s ≡ size) shards
    → All (λ s. length s ≡ size) full
sized k m size [] full h all = absurd (cc)
sized k m size (s ∷ shards) full h all =
    let (one, same) = repeated k s shards full h in
    subst (λ z. All (λ t. length t ≡ size) z) (sym same)
      (copies_sized (suc (length shards)) size s all.0)

right :
    (k m : ℕ) (shards full : List Bytes)
    → repeat k shards ≡ some full
    → some (one_shard k full) ≡ some true
unfolding copies
right k m [] full h = absurd (cc)
right k m (s ∷ shards) full h =
    let (one, same) = repeated k s shards full h in
    ap (λ z. some (one_shard z full)) one
    ∙ ap (λ z. some (one_shard 1 z)) same
    ∙ ap (λ z. some z) (all_are-copies s (length shards))

recovered :
    (k m : ℕ) (full : List Bytes) (slots : List (Option Bytes))
    → some (one_shard k full) ≡ some true
    → length full ≡ k + m
    → Agrees slots full
    → k ≤ available slots
    → first_left slots (k + m) ≡ some full
unfolding copies
recovered k m [] slots h len agrees l = absurd (cc)
recovered k m (s ∷ shards) slots h len agrees l = elim (Bool-cases (k == 1)) [
  | inr e ↦ let no : some false ≡ some true = sym (rw e refl) ∙ h in absurd (cc)
  | inl e ↦
      let one : k ≡ 1 = ground (arith, e) in
      let all_same : some (all_are s shards) ≡ some true = sym (rw e refl) ∙ h in
      let same : s ∷ shards ≡ copies (suc (length shards)) s =
        ap (λ z. s ∷ z) (all_are-eq s shards (cc)) in
      let left =
        first_left-eq s (k + m) (suc (length shards)) slots
          (subst (λ z. Agrees slots z) same agrees) (omega (arith, one, l)) in
      left ∙ ap (λ z. some (copies z s)) (sym len) ∙ ap (λ z. some z) (sym same)
]

repetition-IsErasureCode : IsErasureCode repetition
repetition-IsErasureCode = record {
  data_kept = kept;
  sizes_kept = sized;
  parity_right = right;
  recovers = recovered;
}

abbrev chunk : Bytes
chunk = 5 ∷ 6 ∷ []

abbrev code : Params
code = record { k = 1; n = 3 }

stripe_encoded : encode_stripe repetition code (chunk ∷ []) ≡ shards_of (chunk ∷ chunk ∷ [])
unfolding encode_stripe validate same_size copies zeros parity_shards drop
stripe_encoded = refl

-- The chunk itself and one parity shard are lost.
abbrev survivor : List (Option Bytes)
survivor = none ∷ none ∷ some chunk ∷ []

survivor-Agrees : Agrees survivor (stripe_of code (chunk ∷ []) (chunk ∷ chunk ∷ []))
unfolding copies zeros
survivor-Agrees = (refl, tt)

one_left : 1 ≤ available survivor
unfolding available
one_left = omega arith

stripe_survives_example :
    reconstruct_stripe repetition code survivor 1
    ≡ shards_of (stripe_of code (chunk ∷ []) (chunk ∷ chunk ∷ []))
stripe_survives_example =
    stripe_survives repetition code (chunk ∷ []) (chunk ∷ chunk ∷ []) survivor
      repetition-IsErasureCode stripe_encoded survivor-Agrees
      ((λ low high. refl), ((λ low high. refl), ((λ low high. absurd (omega (arith, high))), tt)))
      one_left

abbrev survivors : Map Bytes
survivors = (2, chunk) ∷ []

survivors-IsSurvivors :
    IsSurvivors 1 1 0 (stripe_of code (chunk ∷ []) (chunk ∷ chunk ∷ [])) survivors
unfolding copies zeros keys mem
survivors-IsSurvivors = (refl, (λ h. omega (arith, h)), inr (omega arith), refl, tt)

chunk_there : get_elem? (stripe_of code (chunk ∷ []) (chunk ∷ chunk ∷ [])) 0 ≡ some chunk
unfolding copies zeros
chunk_there = refl

recompute_exact_example :
    verify_by_recompute (λ xs. length xs) repetition code survivors 1 0 2
    ≡ verdict (length chunk == 2)
recompute_exact_example =
    recompute_exact (λ xs. length xs) repetition code (chunk ∷ []) (chunk ∷ chunk ∷ []) survivors 0
      2 chunk repetition-IsErasureCode stripe_encoded survivors-IsSurvivors (omega arith)
      (inl (omega arith)) chunk_there
