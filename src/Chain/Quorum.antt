-- ===== src/Chain/Quorum.antt =====
-- What a committed block has behind it: `ValidateCommit` in core/chain/chain.go.
use mathlib.Core.List.{Memᴰ}
use bitbit.Base.{
  ℕ, ◌≡◌, refl, subst, ◌≢◌, true, false, not, List, [], ◌∷◌, ◌++◌, length, mem, All, Distinct,
  All-append, Distinct-snoc, ◌⊎◌, arith, inl, inr,
}
use bitbit.Base.Int.{ℤ, pos, ◌≤ℤ◌, ltb_ℤ}
use bitbit.Chain.Types.{Block, body, Crypto, Attestation, ok}
use bitbit.Chain.State.{
  Chain, hash, proposer_id, attester_id, attester_qualified, proposer_qualified, required_quorum,
}
use bitbit.Chain.Apply.{key_size}
use bitbit.Chain.Inversion.{>>=-eq-ok, commit-ok}
use bitbit.Chain.Rules.{signs, count_step, count_atts, validate_commit}

All-of_mem {ℓ κ} :
    {A : Type ℓ} (Q : A → Type κ) (xs : List A) → ((a : A) → Memᴰ a xs → Q a) → All Q xs
All-of_mem Q [] h = tt
All-of_mem Q (x ∷ xs) h = (h x (Memᴰ.head refl), All-of_mem Q xs (λ a m. h a (Memᴰ.tail m)))

-- A signature of the identity over the block's hash stands among its attestations, and verifies.
abbrev pub IsSigner : Crypto → Block → ℕ → Type 0
IsSigner cr b id =
    (a : Attestation) × Memᴰ a (body b).atts
    × (length a.pub_key ≡ key_size)
    × (attester_id cr a ≡ id)
    × (signs cr a.pub_key (hash cr b) a.sig ≡ true)

-- An identity whose attestation counts: it signed, it is qualified, and it did not propose.
abbrev pub IsAttester : Crypto → Chain → Block → ℕ → Type 0
IsAttester cr c b id = IsSigner cr b id × (attester_qualified id c ≡ true) × (id ≢ proposer_id cr b)

module _ (cr : Crypto) (c : Chain) (b : Block) where
  abbrev Counts : Attestation → List ℕ → Type 0
  Counts a seen =
      (length a.pub_key ≡ key_size)
      × (mem (attester_id cr a) seen ≡ false)
      × (attester_id cr a ≢ proposer_id cr b)
      × (signs cr a.pub_key (hash cr b) a.sig ≡ true)
      × (attester_qualified (attester_id cr a) c ≡ true)

  count_step-cases :
      (a : Attestation) (seen seen' : List ℕ)
      → count_step cr c b a seen ≡ ok seen'
      → (seen' ≡ seen) ⊎ ((seen' ≡ seen ++ attester_id cr a ∷ []) × Counts a seen)
  unfolding count_step
  count_step-cases a seen seen' h = ground arith

  -- The loop's invariant, for a predicate that each attestation that counts gives its identity.
  count_atts-All :
      (P : ℕ → Type 0) (atts : List Attestation) (seen seen' : List ℕ)
      → All (λ a. (s : List ℕ) → Counts a s → P (attester_id cr a)) atts
      → Distinct seen
      → All P seen
      → count_atts cr c b atts seen ≡ ok seen'
      → Distinct seen' × All P seen'
  unfolding count_atts
  count_atts-All P [] seen seen' give d all h =
      let same : seen ≡ seen' = cc in (subst Distinct same d, subst (All P) same all)
  count_atts-All P (a ∷ atts) seen seen' give d all h =
      let (mid, first, rest) = >>=-eq-ok (count_step cr c b a seen) (count_atts cr c b atts) h in
      elim (count_step-cases a seen mid first) [
        | inl same ↦ count_atts-All P atts mid seen' give.1 (rw same d) (rw same all) rest
        | inr (grown, counts) ↦
            count_atts-All P atts mid seen' give.1
              (rw grown (Distinct-snoc seen (attester_id cr a) d counts.1))
              (rw grown (All-append P seen _ all (give.0 seen counts, tt))) rest
      ]

  IsAttester-of_Counts :
      (a : Attestation)
      → Memᴰ a (body b).atts
      → (s : List ℕ) → Counts a s
      → IsAttester cr c b (attester_id cr a)
  IsAttester-of_Counts a m s (size, new, other, signed, fit) =
      ((a, m, size, refl, signed), fit, other)

  count_atts_sound :
      (seen : List ℕ)
      → count_atts cr c b (body b).atts [] ≡ ok seen
      → Distinct seen × All (IsAttester cr c b) seen
  count_atts_sound seen h =
      count_atts-All (IsAttester cr c b) (body b).atts [] seen
        (All-of_mem _ (body b).atts IsAttester-of_Counts) tt tt h

not-lt : (a b : ℤ) → not (ltb_ℤ a b) ≡ true → b ≤ℤ a
not-lt a b h = ground arith

-- A block that `ValidateCommit` accepts has a quorum behind it: there are distinct identities, each
-- with a verifying attestation of this very block, qualified, and none of them the proposer, and
-- they are at least as many as `RequiredQuorum` asks for. The proposer is qualified too.
pub validate_commit_quorum :
    (cr : Crypto) (c : Chain) (b : Block)
    → validate_commit cr c b ≡ ok tt
    → (proposer_qualified (proposer_id cr b) c ≡ true)
      × ((seen : List ℕ) × Distinct seen
          × All (IsAttester cr c b) seen
          × (required_quorum c ≤ℤ pos (length seen)))
validate_commit_quorum cr c b h =
    let v = commit-ok cr c b h in
    let (distinct, all) = count_atts_sound cr c b v.seen v.counted in
    (
      v.proposal.proposer,
      (v.seen, distinct, all, not-lt (pos (length v.seen)) (required_quorum c) v.quorum),
    )
