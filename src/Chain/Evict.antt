-- ===== src/Chain/Evict.antt =====
-- Standing on the chain (core/chain/chain.go): the slashed identities, the bonds and the owners of
-- bond roots.
use bitbit.Base.{
  ℕ, ◌≡◌, ◌≢◌, refl, sym, subst, ◌⊎◌, inl, inr, Bool, true, false, ◌&&◌, not, List, [], ◌∷◌, some,
  none, mem, length, ltb, ◌==◌, arith, Bool-cases, Option-cases,
}
use bitbit.Base.Int.{ℤ, ltb_ℤ}
use bitbit.Base.Maps.{Map, lookup, erase, lookup-insert, lookup-erase}
use bitbit.Base.Sets.{mem-add}
use bitbit.Chain.Types.{
  Block, body, slashes_of, proofs, Crypto, Attestation, BondReg, Entry, Equivocation,
}
use bitbit.Chain.State.{Chain, proposer_id, attester_id, attester_qualified, validator_id}
use bitbit.Chain.Apply.{
  key_size, apply_entry, apply_entries, apply_revocations, apply_unrevocations, apply_reg,
  apply_regs, settle_reg, expire_from, expire, evict, see_validators, settle, latch, apply,
  push_block, take_root, lapsed, other_owner, culprit_id,
}
use bitbit.Chain.Metric.{mature}
use bitbit.Chain.Latch.{grown_by, Extends, here, next}

-- No slashed identity has a bond, and every identity with a bond owns a bond root.
pub record IsSound (c : Chain) : Type 0 where
  pub evicted : (id : ℕ) → mem id c.slashed ≡ true → lookup id c.bonded ≡ none
  pub owned :
      (id : ℕ) (sz : ℤ)
      → lookup id c.bonded ≡ some sz
      → (root : ℕ) × (lookup root c.bond_root_owner ≡ some id)

same-IsSound :
    {c d : Chain}
    → d.slashed ≡ c.slashed
    → d.bonded ≡ c.bonded
    → d.bond_root_owner ≡ c.bond_root_owner
    → IsSound c
    → IsSound d
same-IsSound s b o v = record {
  evicted = λ id m.
      subst (λ z. lookup id z ≡ none) (sym b) (v.evicted id (subst (λ z. mem id z ≡ true) s m));
  owned = λ id sz h.
      let (root, e) = v.owned id sz (subst (λ z. lookup id z ≡ some sz) b h) in
      (root, subst (λ z. lookup root z ≡ some id) (sym o) e);
}

apply_entries-IsSound : (es : List Entry) (c : Chain) → IsSound c → IsSound (apply_entries es c)
unfolding apply_entries apply_entry
apply_entries-IsSound [] c v = v
apply_entries-IsSound (e ∷ es) c v =
    apply_entries-IsSound es (apply_entry e c) (same-IsSound refl refl refl v)

-- Dropping a bond keeps both.
erase-IsSound :
    (id : ℕ) (heights : Map ℕ) (c : Chain)
    → IsSound c
    → IsSound (record c { bonded = erase id c.bonded; bond_reg_height = heights })
erase-IsSound id heights c v = record {
  evicted = λ j m. ground (arith, lookup-erase id j c.bonded, v.evicted j m);
  owned = λ j sz h. v.owned j sz (ground (arith, lookup-erase id j c.bonded));
}

take_root-evicted :
    (p : Bool) (h id : ℕ) (r : BondReg) (bonds : Map ℤ) (c : Chain)
    → mem id c.slashed ≡ false
    → ((j : ℕ) → mem j c.slashed ≡ true → lookup j bonds ≡ none)
    → (j : ℕ) → mem j c.slashed ≡ true
    → lookup j (take_root p h id r bonds c).bonded ≡ none
unfolding take_root
take_root-evicted p h id r bonds c f v j m = ground (arith, lookup-insert id j r.size bonds, v j m)

-- Taking a root over, where the bonds that are kept are not its former owner's.
take_root-owned :
    (p : Bool) (h id : ℕ) (r : BondReg) (bonds : Map ℤ) (c : Chain)
    → ((j : ℕ) (sz : ℤ)
        → lookup j bonds ≡ some sz
        → (root : ℕ) × (lookup root c.bond_root_owner ≡ some j) × ((root ≢ r.root) ⊎ (j ≡ id)))
    → (j : ℕ) (sz : ℤ) → lookup j (take_root p h id r bonds c).bonded ≡ some sz
    → (root : ℕ) × (lookup root (take_root p h id r bonds c).bond_root_owner ≡ some j)
unfolding take_root
take_root-owned p h id r bonds c v j sz e = elim (Bool-cases (j == id)) [
  | inl same ↦ (r.root, ground (arith, lookup-insert r.root r.root id c.bond_root_owner))
  | inr other ↦
      let (root, owner, apart) = v j sz (ground (arith, lookup-insert id j r.size bonds)) in
      (root, ground (arith, lookup-insert r.root root id c.bond_root_owner))
]

-- A free root, or the identity's own: no other identity's bond rests on it.
kept-free :
    (id root : ℕ) (c : Chain)
    → IsSound c
    → other_owner (lookup root c.bond_root_owner) id ≡ none
    → (j : ℕ) (sz : ℤ) → lookup j c.bonded ≡ some sz
    → (x : ℕ) × (lookup x c.bond_root_owner ≡ some j) × ((x ≢ root) ⊎ (j ≡ id))
kept-free id root c v free j sz h =
    let (x, owner) = v.owned j sz h in
    (
      x,
      owner,
      elim (Bool-cases (x == root)) [
        | inl same ↦ inr (grind arith)
        | inr other ↦ inl (ground arith)
      ],
    )

-- A root that is taken over: its former owner's bond is dropped.
kept-displaced :
    (root owner : ℕ) (id : ℕ) (c : Chain)
    → IsSound c
    → other_owner (lookup root c.bond_root_owner) id ≡ some owner
    → (j : ℕ) (sz : ℤ) → lookup j (erase owner c.bonded) ≡ some sz
    → (x : ℕ) × (lookup x c.bond_root_owner ≡ some j) × ((x ≢ root) ⊎ (j ≡ id))
kept-displaced root owner id c v taken j sz h =
    let (x, mine) = v.owned j sz (ground (arith, lookup-erase owner j c.bonded)) in
    (x, mine, inl (λ e. absurd (grind (arith, lookup-erase owner j c.bonded))))

displaced-evicted :
    (owner : ℕ) (c : Chain)
    → IsSound c
    → (j : ℕ) → mem j c.slashed ≡ true
    → lookup j (erase owner c.bonded) ≡ none
displaced-evicted owner c v j m = ground (arith, lookup-erase owner j c.bonded, v.evicted j m)

take_root-slashed :
    (p : Bool) (h id : ℕ) (r : BondReg) (bonds : Map ℤ) (c : Chain)
    → (take_root p h id r bonds c).slashed ≡ c.slashed
unfolding take_root
take_root-slashed p h id r bonds c = refl

-- What a registration does to the state is one of three things.
settle_reg-cases :
    (p : Bool) (h id : ℕ) (r : BondReg) (c : Chain)
    → (settle_reg p h id r c ≡ c)
      ⊎ ((other_owner (lookup r.root c.bond_root_owner) id ≡ none)
          × (settle_reg p h id r c ≡ take_root p h id r c.bonded c))
      ⊎ ((owner : ℕ) × (other_owner (lookup r.root c.bond_root_owner) id ≡ some owner)
          × (settle_reg p h id r c ≡ take_root p h id r (erase owner c.bonded) c))
unfolding settle_reg
settle_reg-cases p h id r c =
    elim (Option-cases (other_owner (lookup r.root c.bond_root_owner) id)) [
      | inl free ↦ inr (inl (free, rw (free, settle_reg)))
      | inr (owner, taken) ↦ elim (Bool-cases (p && not (mem r.root c.bond_root_proven))) [
        | inl proves ↦ inr (inr (owner, taken, rw (taken, settle_reg, proves)))
        | inr fails ↦ inl (rw (taken, settle_reg, fails))
      ]
    ]

settle_reg-IsSound :
    (p : Bool) (h id : ℕ) (r : BondReg) (c : Chain)
    → mem id c.slashed ≡ false
    → IsSound c
    → IsSound (settle_reg p h id r c)
settle_reg-IsSound p h id r c f v = elim (settle_reg-cases p h id r c) [
  | inl same ↦ rw same v
  | inr (inl (free, e)) ↦ rw e (record {
    evicted = λ j m.
        take_root-evicted p h id r c.bonded c f v.evicted j
          (rw (take_root-slashed p h id r c.bonded c) at m);
    owned = take_root-owned p h id r c.bonded c (kept-free id r.root c v free);
  })
  | inr (inr (owner, taken, e)) ↦ rw e (record {
    evicted = λ j m.
        take_root-evicted p h id r (erase owner c.bonded) c f (displaced-evicted owner c v) j
          (rw (take_root-slashed p h id r (erase owner c.bonded) c) at m);
    owned =
        take_root-owned p h id r (erase owner c.bonded) c
          (kept-displaced r.root owner id c v taken);
  })
]

expire_from-IsSound :
    (h ttl : ℕ) (m : Map ℕ) (c : Chain) → IsSound c → IsSound (expire_from h ttl m c)
unfolding expire_from
expire_from-IsSound h ttl [] c v = v
expire_from-IsSound h ttl ((id, reg) ∷ m) c v = elim (Bool-cases (lapsed h ttl reg)) [
  | inl e ↦ rw e (expire_from-IsSound h ttl m _ (erase-IsSound id (erase id c.bond_reg_height) c v))
  | inr e ↦ rw e (expire_from-IsSound h ttl m c v)
]

expire-IsSound : (h : ℕ) (c : Chain) → IsSound c → IsSound (expire h c)
unfolding expire
expire-IsSound h c v = elim (Bool-cases (ltb 0 c.cfg.bond_ttl_blocks)) [
  | inl e ↦ rw e (expire_from-IsSound h c.cfg.bond_ttl_blocks c.bond_reg_height c v)
  | inr e ↦ rw e v
]

module _ (cr : Crypto) where
  apply_reg-IsSound :
      (p : Bool) (h : ℕ) (r : BondReg) (c : Chain) → IsSound c → IsSound (apply_reg cr p h r c)
  unfolding apply_reg
  apply_reg-IsSound p h r c v = elim (Bool-cases (length r.validator == key_size)) [
    | inr e ↦ rw e v
    | inl e ↦ rw e (elim (Bool-cases (ltb_ℤ r.size c.cfg.min_bond_bytes)) [
      | inl small ↦ rw small v
      | inr fits ↦ rw fits (elim (Bool-cases (mem (validator_id cr r) c.slashed)) [
        | inl out ↦ rw out v
        | inr good ↦ rw good (settle_reg-IsSound p h (validator_id cr r) r c good v)
      ])
    ])
  ]

  apply_regs-IsSound :
      (p : Bool) (h : ℕ) (rs : List BondReg) (c : Chain)
      → IsSound c
      → IsSound (apply_regs cr p h rs c)
  unfolding apply_regs
  apply_regs-IsSound p h [] c v = v
  apply_regs-IsSound p h (r ∷ rs) c v =
      apply_regs-IsSound p h rs (apply_reg cr p h r c) (apply_reg-IsSound p h r c v)

  apply_revocations-IsSound :
      (h : ℕ) (rs : List ℕ) (c : Chain) → IsSound c → IsSound (apply_revocations cr h rs c)
  unfolding apply_revocations
  apply_revocations-IsSound h [] c v = v
  apply_revocations-IsSound h (r ∷ rs) c v =
      apply_revocations-IsSound h rs _ (same-IsSound refl refl refl v)

  apply_unrevocations-IsSound :
      (h : ℕ) (rs : List ℕ) (c : Chain) → IsSound c → IsSound (apply_unrevocations cr h rs c)
  unfolding apply_unrevocations
  apply_unrevocations-IsSound h [] c v = v
  apply_unrevocations-IsSound h (r ∷ rs) c v =
      apply_unrevocations-IsSound h rs _ (same-IsSound refl refl refl v)

  evict-IsSound : (es : List Equivocation) (c : Chain) → IsSound c → IsSound (evict cr es c)
  unfolding evict
  evict-IsSound [] c v = v
  evict-IsSound (e ∷ es) c v = evict-IsSound es _ (record {
    evicted = λ j m. ground (
      arith,
      lookup-erase (culprit_id cr e) j c.bonded,
      mem-add (culprit_id cr e) j c.slashed,
      v.evicted j,
    );
    owned = λ j sz h. v.owned j sz (ground (arith, lookup-erase (culprit_id cr e) j c.bonded));
  })

  see_validators-IsSound :
      (p : ℕ) (atts : List Attestation) (c : Chain)
      → IsSound c
      → IsSound (see_validators cr p atts c)
  unfolding see_validators
  see_validators-IsSound p [] c v = v
  see_validators-IsSound p (a ∷ atts) c v =
      elim (Bool-cases (not (attester_id cr a == p) && attester_qualified (attester_id cr a) c)) [
        | inl e ↦ rw e (see_validators-IsSound p atts _ (same-IsSound refl refl refl v))
        | inr e ↦ rw e (see_validators-IsSound p atts c v)
      ]

latch-IsSound : (c : Chain) → IsSound c → IsSound (latch c)
unfolding latch
latch-IsSound c v = elim (Bool-cases (not c.ever_mature && mature c)) [
  | inl e ↦ rw e (same-IsSound refl refl refl v)
  | inr e ↦ rw e v
]

apply-IsSound : (cr : Crypto) (b : Block) (c : Chain) → IsSound c → IsSound (apply cr b c)
unfolding apply settle
apply-IsSound cr b c v = latch-IsSound _ (
    see_validators-IsSound cr (proposer_id cr b) (body b).atts _ (
      evict-IsSound cr (proofs (slashes_of b)) _ (
        expire-IsSound (body b).height _ (
          apply_regs-IsSound cr (ltb 0 (body b).height) (body b).height (body b).bond_regs _ (
            apply_unrevocations-IsSound cr (body b).height (body b).unrevocations _ (
              apply_revocations-IsSound cr (body b).height (body b).revocations _ (
                apply_entries-IsSound (body b).entries (push_block b c)
                  (same-IsSound refl refl refl v))))))))

-- On every history, however its blocks got in: an identity that is slashed for a double-sign has no
-- bonded standing, and an identity with bonded standing owns a bond root. The start is any replica
-- where this holds, such as an empty one.
pub Extends-IsSound : (cr : Crypto) (c d : Chain) → IsSound c → Extends cr c d → IsSound d
Extends-IsSound cr c d v here = v
Extends-IsSound cr c d v (next {d = m} x g) =
    let (b, e) = grown_by g in
    subst IsSound (sym e) (apply-IsSound cr b m (Extends-IsSound cr c m v x))
