-- ===== src/Chain/Takedown.antt =====
-- Takedowns and publications (core/chain/chain.go): `byRoot`, `revoked` and the entries of the
-- blocks.
use bitbit.Base.{
  ℕ, ◌≡◌, refl, sym, subst, inl, inr, Bool, true, ◌&&◌, not, List, [], ◌∷◌, mem, All, ltb, ◌==◌,
  arith, ==_iff, Bool-cases,
}
use bitbit.Base.Maps.{Map, lookup, lookup-insert, is_some, erase}
use bitbit.Base.Sets.{add, mem-add, mem-remove}
use bitbit.Chain.Types.{
  Block, body, slashes_of, proofs, Crypto, Attestation, BondReg, Entry, Equivocation, ok, require,
  revoke_unknown_root,
}
use bitbit.Chain.State.{Chain, proposer_id, attester_id, attester_qualified}
use bitbit.Chain.Apply.{
  apply_entry, apply_entries, apply_revocations, apply_unrevocations, apply_reg, apply_regs,
  expire_from, expire, evict, see_validators, settle, latch, apply, push_block, lapsed, culprit_id,
}
use bitbit.Chain.Rules.{validate_revocations, validate_takedowns, is_empty}
use bitbit.Chain.Inversion.{
  >>-eq-ok, require-ok, append-ok, append_structural-ok, append_genesis-ok, commit-ok,
  structural-ok, genesis-ok,
}
use bitbit.Chain.Latch.{Grows, by_commit, by_reload, by_genesis, Extends, here, next}

-- A root that the chain has committed.
abbrev pub IsPublished : Chain → ℕ → Type 0
IsPublished c r = is_some (lookup r c.by_root) ≡ true

abbrev pub OnlyPublished : Chain → Type 0
OnlyPublished c = (r : ℕ) → mem r c.revoked ≡ true → IsPublished c r

-- A state that knows the same roots and spent tokens, and has revoked no more.
pub record Keeps (c d : Chain) : Type 0 where
  pub roots : d.by_root ≡ c.by_root
  pub takedowns : d.revoked ≡ c.revoked
  pub tokens : d.spent ≡ c.spent

Keeps-refl : (c : Chain) → Keeps c c
Keeps-refl c = record { roots = refl; takedowns = refl; tokens = refl }

Keeps-trans : (c d e : Chain) → Keeps c d → Keeps d e → Keeps c e
Keeps-trans c d e f g = record {
  roots = cc (f.roots, g.roots);
  takedowns = cc (f.takedowns, g.takedowns);
  tokens = cc (f.tokens, g.tokens);
}

keeps :
    {c d : Chain} → d.by_root ≡ c.by_root → d.revoked ≡ c.revoked → d.spent ≡ c.spent → Keeps c d
keeps f g h = record { roots = f; takedowns = g; tokens = h }

expire_from-Keeps : (h ttl : ℕ) (m : Map ℕ) (c : Chain) → Keeps c (expire_from h ttl m c)
unfolding expire_from
expire_from-Keeps h ttl [] c = Keeps-refl c
expire_from-Keeps h ttl ((id, r) ∷ m) c = elim (Bool-cases (lapsed h ttl r)) [
  | inl e ↦ rw e (
      Keeps-trans c _ _ (keeps refl refl refl) (
        expire_from-Keeps h ttl m
          (record c { bonded = erase id c.bonded; bond_reg_height = erase id c.bond_reg_height })))
  | inr e ↦ rw e (expire_from-Keeps h ttl m c)
]

expire-Keeps : (h : ℕ) (c : Chain) → Keeps c (expire h c)
unfolding expire
expire-Keeps h c = elim (Bool-cases (ltb 0 c.cfg.bond_ttl_blocks)) [
  | inl e ↦ rw e (expire_from-Keeps h c.cfg.bond_ttl_blocks c.bond_reg_height c)
  | inr e ↦ rw e (Keeps-refl c)
]

latch-Keeps : (c : Chain) → Keeps c (latch c)
unfolding latch
latch-Keeps c = keeps (ground arith) (ground arith) (ground arith)

module _ (cr : Crypto) where
  apply_reg-Keeps : (p : Bool) (h : ℕ) (r : BondReg) (c : Chain) → Keeps c (apply_reg cr p h r c)
  unfolding apply_reg
  apply_reg-Keeps p h r c = keeps (ground arith) (ground arith) (ground arith)

  apply_regs-Keeps :
      (p : Bool) (h : ℕ) (rs : List BondReg) (c : Chain) → Keeps c (apply_regs cr p h rs c)
  unfolding apply_regs
  apply_regs-Keeps p h [] c = Keeps-refl c
  apply_regs-Keeps p h (r ∷ rs) c =
      Keeps-trans c _ _ (apply_reg-Keeps p h r c) (apply_regs-Keeps p h rs (apply_reg cr p h r c))

  evict-Keeps : (es : List Equivocation) (c : Chain) → Keeps c (evict cr es c)
  unfolding evict
  evict-Keeps [] c = Keeps-refl c
  evict-Keeps (e ∷ es) c = Keeps-trans c _ _ (keeps refl refl refl) (
      evict-Keeps es (record c {
        slashed = add (culprit_id cr e) c.slashed;
        bonded = erase (culprit_id cr e) c.bonded;
      }))

  see_validators-Keeps :
      (p : ℕ) (atts : List Attestation) (c : Chain) → Keeps c (see_validators cr p atts c)
  unfolding see_validators
  see_validators-Keeps p [] c = Keeps-refl c
  see_validators-Keeps p (a ∷ atts) c =
      elim (Bool-cases (not (attester_id cr a == p) && attester_qualified (attester_id cr a) c)) [
        | inl e ↦ rw e (
            Keeps-trans c _ _ (keeps refl refl refl) (
              see_validators-Keeps p atts
                (record c { validators_seen = add (attester_id cr a) c.validators_seen })))
        | inr e ↦ rw e (see_validators-Keeps p atts c)
      ]

  -- The part of the block that touches the roots and the takedowns.
  abbrev pub recorded : Block → Chain → Chain
  recorded b c =
      let x = body b in
      apply_unrevocations cr x.height x.unrevocations
        (apply_revocations cr x.height x.revocations (apply_entries x.entries (push_block b c)))

  pub apply-Keeps : (b : Block) (c : Chain) → Keeps (recorded b c) (apply cr b c)
  unfolding apply settle
  apply-Keeps b c =
      let x = body b in
      let c₃ = recorded b c in
      let c₄ = apply_regs cr (ltb 0 x.height) x.height x.bond_regs c₃ in
      let c₅ = expire x.height c₄ in
      let c₆ = evict cr (proofs (slashes_of b)) c₅ in
      let c₇ = see_validators cr (proposer_id cr b) x.atts c₆ in
      Keeps-trans c₃ c₄ _ (apply_regs-Keeps (ltb 0 x.height) x.height x.bond_regs c₃) (
        Keeps-trans c₄ c₅ _ (expire-Keeps x.height c₄) (
          Keeps-trans c₅ c₆ _ (evict-Keeps (proofs (slashes_of b)) c₅) (
            Keeps-trans c₆ c₇ _ (see_validators-Keeps (proposer_id cr b) x.atts c₆)
              (latch-Keeps c₇))))

pub validate_revocations-All :
    (c : Chain) (rs : List ℕ) → validate_revocations c rs ≡ ok tt → All (IsPublished c) rs
unfolding validate_revocations
validate_revocations-All c [] h = tt
validate_revocations-All c (r ∷ rs) h =
    let (first, rest) = >>-eq-ok (require (is_some (lookup r c.by_root)) revoke_unknown_root) _ h in
    (require-ok _ revoke_unknown_root first, validate_revocations-All c rs rest)

takedowns-All :
    (c : Chain) (b : Block)
    → validate_takedowns c b ≡ ok tt
    → All (IsPublished c) (body b).revocations
unfolding validate_takedowns
takedowns-All c b h =
    validate_revocations-All c (body b).revocations
      (>>-eq-ok (validate_revocations c (body b).revocations) _ h).0

IsPublished-insert :
    (r : ℕ) (e : Entry) (c : Chain) → IsPublished c r → IsPublished (apply_entry e c) r
unfolding apply_entry
IsPublished-insert r e c h = ground (arith, lookup-insert e.root r e c.by_root)

IsPublished-entries :
    (es : List Entry) (r : ℕ) (c : Chain) → IsPublished c r → IsPublished (apply_entries es c) r
unfolding apply_entries
IsPublished-entries [] r c h = h
IsPublished-entries (e ∷ es) r c h =
    IsPublished-entries es r (apply_entry e c) (IsPublished-insert r e c h)

revoked-entries : (es : List Entry) (c : Chain) → (apply_entries es c).revoked ≡ c.revoked
unfolding apply_entries apply_entry
revoked-entries [] c = refl
revoked-entries (e ∷ es) c = revoked-entries es (apply_entry e c)

All-IsPublished :
    (es : List Entry) (c : Chain) (rs : List ℕ)
    → All (IsPublished c) rs
    → All (IsPublished (apply_entries es c)) rs
All-IsPublished es c [] h = tt
All-IsPublished es c (r ∷ rs) h = (IsPublished-entries es r c h.0, All-IsPublished es c rs h.1)

module _ (cr : Crypto) where
  revocations-only :
      (h : ℕ) (rs : List ℕ) (c : Chain)
      → OnlyPublished c
      → All (IsPublished c) rs
      → OnlyPublished (apply_revocations cr h rs c)
  unfolding apply_revocations
  revocations-only h [] c v all = v
  revocations-only h (r ∷ rs) c v all =
      revocations-only h rs _
        (λ j m. elim (Bool-cases (j == r)) [
          | inl same ↦ subst (IsPublished c) (sym ((==_iff j r).0 same)) all.0
          | inr other ↦ v j (ground (arith, mem-add r j c.revoked))
        ])
        all.1

  unrevocations-only :
      (h : ℕ) (rs : List ℕ) (c : Chain)
      → OnlyPublished c
      → OnlyPublished (apply_unrevocations cr h rs c)
  unfolding apply_unrevocations
  unrevocations-only h [] c v = v
  unrevocations-only h (r ∷ rs) c v =
      unrevocations-only h rs _ (λ j m. v j (ground (arith, mem-remove r j c.revoked)))

  apply-only :
      (b : Block) (c : Chain)
      → OnlyPublished c
      → All (IsPublished c) (body b).revocations
      → OnlyPublished (apply cr b c)
  apply-only b c v all =
      let x = body b in
      let c₁ = apply_entries x.entries (push_block b c) in
      let kept = apply-Keeps cr b c in
      let only = unrevocations-only x.height x.unrevocations _ (
        revocations-only x.height x.revocations c₁
          (λ j m.
            IsPublished-entries x.entries j (push_block b c)
              (v j (rw (revoked-entries x.entries (push_block b c)) at m)))
          (All-IsPublished x.entries (push_block b c) x.revocations all)) in
      λ j m.
        subst (λ z. is_some (lookup j z) ≡ true) (sym kept.roots)
          (only j (subst (λ z. mem j z ≡ true) kept.takedowns m))

  no-revocations : (rs : List ℕ) (c : Chain) → is_empty rs ≡ true → All (IsPublished c) rs
  no-revocations [] c h = tt
  no-revocations (r ∷ rs) c h = absurd (cc)

  Grows-only : (c d : Chain) → OnlyPublished c → Grows cr c d → OnlyPublished d
  Grows-only c d v (by_commit b g) =
      let (ok_b, e) = append-ok cr c b g in
      subst OnlyPublished (sym e)
        (apply-only b c v (takedowns-All c b (commit-ok cr c b ok_b).proposal.takedowns))
  Grows-only c d v (by_reload b g) =
      let (ok_b, e) = append_structural-ok cr c b g in
      subst OnlyPublished (sym e)
        (apply-only b c v (takedowns-All c b (structural-ok cr c b ok_b).takedowns))
  Grows-only c d v (by_genesis b g) =
      let (ok_b, e) = append_genesis-ok cr c b g in
      let none_named : is_empty (body b).revocations ≡ true =
        ground (arith, (genesis-ok cr c b ok_b).takedowns) in
      subst OnlyPublished (sym e)
        (apply-only b c v (no-revocations (body b).revocations c none_named))

-- No censorship of what is not there: from a replica whose takedowns name published roots, such as
-- an empty one, every way of growing the history (a commit, a reload, a genesis) leaves a replica
-- whose takedowns all name roots that are committed on it.
pub takedowns-OnlyPublished :
    (cr : Crypto) (c d : Chain) → OnlyPublished c → Extends cr c d → OnlyPublished d
takedowns-OnlyPublished cr c d v here = v
takedowns-OnlyPublished cr c d v (next {d = m} x g) =
    Grows-only cr m d (takedowns-OnlyPublished cr c m v x) g
