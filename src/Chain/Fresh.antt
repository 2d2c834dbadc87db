-- ===== src/Chain/Fresh.antt =====
-- What `ValidateProposal` in core/chain/chain.go checks of the roots and the tokens of one block.
use bitbit.Base.{
  ℕ, ◌≡◌, refl, subst, true, false, ◌||◌, not, Option, none, some, List, [], ◌∷◌, map, mem, ◌==◌,
  All, Distinct, arith,
}
use bitbit.Base.Int.{pos, ltb_ℤ}
use bitbit.Base.Bytes.{Bytes, bytes_equal_sym, mem_bytes}
use bitbit.Base.Maps.{lookup, is_some}
use bitbit.Chain.Types.{
  Entry, PublishToken, Crypto, ok, dup_root, no_manifest, publisher_entry, token_spent, require,
}
use bitbit.Chain.State.{Chain}
use bitbit.Chain.Rules.{
  validate_entry, validate_entries, validate_token, verify_token, note_serial, is_empty,
}
use bitbit.Chain.Inversion.{>>-eq-ok, require-ok}

-- The entry's root is not on the chain and not among these.
pub record IsFresh (c : Chain) (seen : List ℕ) (e : Entry) : Type 0 where
  pub unpublished : lookup e.root c.by_root ≡ none
  pub unseen : mem e.root seen ≡ false

-- The serials of the entries that carry a token.
abbrev pub with_serial : Option PublishToken → List Bytes → List Bytes
with_serial none serials = serials
with_serial (some t) serials = t.serial ∷ serials

abbrev pub serials_of : List Entry → List Bytes
serials_of [] = []
serials_of (e ∷ es) = with_serial e.token (serials_of es)

abbrev pub DistinctBytes : List Bytes → Type 0
DistinctBytes [] = Unit
DistinctBytes (x ∷ xs) = (mem_bytes x xs ≡ false) × DistinctBytes xs

-- The entry has a token that verifies and whose serial is not spent on the chain, nor among these.
pub record IsPaid (cr : Crypto) (c : Chain) (seen : List Bytes) (e : Entry) : Type 0 where
  pub token : PublishToken
  pub carried : e.token ≡ some token
  pub verified : verify_token cr c token ≡ ok tt
  pub unspent : mem_bytes token.serial c.spent ≡ false
  pub unseen : mem_bytes token.serial seen ≡ false

module _ (cr : Crypto) (c : Chain) where
  entry-IsFresh :
      (seen : List ℕ) (serials : List Bytes) (e : Entry)
      → validate_entry cr c seen serials e ≡ ok tt
      → IsFresh c seen e
  unfolding validate_entry
  entry-IsFresh seen serials e h =
      let (fresh, _) =
        >>-eq-ok (require (not (is_some (lookup e.root c.by_root) || mem e.root seen)) dup_root) _
          h in
      let test =
        require-ok (not (is_some (lookup e.root c.by_root) || mem e.root seen)) dup_root fresh in
      record { unpublished = ground (arith, test); unseen = ground (arith, test) }

  token-IsPaid :
      (serials : List Bytes) (e : Entry) (o : Option PublishToken)
      → e.token ≡ o
      → validate_token cr c serials o ≡ ok tt
      → IsPaid cr c serials e
  unfolding validate_token
  token-IsPaid serials e none eq h = absurd (cc)
  token-IsPaid serials e (some t) eq h =
      let (good, rest) = >>-eq-ok (verify_token cr c t) _ h in
      let test =
        require-ok (not (mem_bytes t.serial c.spent || mem_bytes t.serial serials)) token_spent
          rest in
      record {
        token = t;
        carried = eq;
        verified = good;
        unspent = ground (arith, test);
        unseen = ground (arith, test);
      }

  entry-IsPaid :
      (seen : List ℕ) (serials : List Bytes) (e : Entry)
      → ltb_ℤ (pos 0) c.token_quorum ≡ true
      → validate_entry cr c seen serials e ≡ ok tt
      → IsPaid cr c serials e
  unfolding validate_entry
  entry-IsPaid seen serials e on h =
      let (_, r₁) =
        >>-eq-ok (require (not (is_some (lookup e.root c.by_root) || mem e.root seen)) dup_root) _
          h in
      let (_, r₂) = >>-eq-ok (require (not (is_empty e.manifest_chunks)) no_manifest) _ r₁ in
      let (_, r₃) =
        >>-eq-ok (require (c.cfg.allow_publisher || (e.publisher == 0)) publisher_entry) _ r₂ in
      token-IsPaid serials e e.token refl (rw on at r₃)

  drop_seen :
      (seen : List ℕ) (a : ℕ) (es : List Entry)
      → All (IsFresh c (a ∷ seen)) es
      → All (IsFresh c seen) es × (mem a (map Entry.root es) ≡ false)
  unfolding mem
  drop_seen seen a [] h = (tt, refl)
  drop_seen seen a (e ∷ es) h =
      let (rest, apart) = drop_seen seen a es h.1 in
      (
        (record { unpublished = h.0.unpublished; unseen = ground (arith, h.0.unseen) }, rest),
        ground (arith, h.0.unseen, apart),
      )

  -- Entries that are paid for where this serial was seen too are so without it, and none has it.
  drop_serial :
      (serials : List Bytes) (a : Bytes) (es : List Entry)
      → All (IsPaid cr c (a ∷ serials)) es
      → All (IsPaid cr c serials) es × (mem_bytes a (serials_of es) ≡ false)
  unfolding mem_bytes
  drop_serial serials a [] h = (tt, refl)
  drop_serial serials a (e ∷ es) h =
      let (rest, apart) = drop_serial serials a es h.1 in
      (
        (
          record {
            token = h.0.token;
            carried = h.0.carried;
            verified = h.0.verified;
            unspent = h.0.unspent;
            unseen = ground (arith, h.0.unseen);
          },
          rest,
        ),
        rw h.0.carried (ground (arith, h.0.unseen, apart, bytes_equal_sym h.0.token.serial a)),
      )

  pub entries-IsFresh :
      (seen : List ℕ) (serials : List Bytes) (es : List Entry)
      → validate_entries cr c seen serials es ≡ ok tt
      → All (IsFresh c seen) es × Distinct (map Entry.root es)
  unfolding validate_entries
  entries-IsFresh seen serials [] h = (tt, tt)
  entries-IsFresh seen serials (e ∷ es) h =
      let (first, others) = >>-eq-ok (validate_entry cr c seen serials e) _ h in
      let (fresh, distinct) =
        entries-IsFresh (e.root ∷ seen) (note_serial cr c e serials) es others in
      let (rest, apart) = drop_seen seen e.root es fresh in
      ((entry-IsFresh seen serials e first, rest), (apart, distinct))

  IsPaid-apart :
      (serials : List Bytes) (e : Entry) (es : List Entry) (paid : IsPaid cr c serials e)
      → All (IsPaid cr c (paid.token.serial ∷ serials)) es
      → DistinctBytes (serials_of es)
      → All (IsPaid cr c serials) (e ∷ es) × DistinctBytes (serials_of (e ∷ es))
  IsPaid-apart serials e es paid others distinct =
      let (rest, apart) = drop_serial serials paid.token.serial es others in
      ((paid, rest), rw paid.carried (apart, distinct))

  pub entries-IsPaid :
      (seen : List ℕ) (serials : List Bytes) (es : List Entry)
      → ltb_ℤ (pos 0) c.token_quorum ≡ true
      → validate_entries cr c seen serials es ≡ ok tt
      → All (IsPaid cr c serials) es × DistinctBytes (serials_of es)
  unfolding validate_entries
  entries-IsPaid seen serials [] on h = (tt, tt)
  entries-IsPaid seen serials (e ∷ es) on h =
      let (first, others) = >>-eq-ok (validate_entry cr c seen serials e) _ h in
      let paid = entry-IsPaid seen serials e on first in
      let noted : note_serial cr c e serials ≡ paid.token.serial ∷ serials =
        rw (on, paid.carried) refl in
      let (rest, distinct) =
        entries-IsPaid (e.root ∷ seen) (note_serial cr c e serials) es on others in
      IsPaid-apart serials e es paid (subst (λ z. All (IsPaid cr c z) es) noted rest) distinct
