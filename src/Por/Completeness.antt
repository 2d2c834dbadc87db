-- ===== src/Por/Completeness.antt =====
-- An honest holder's proof against its verifier: core/por/por.go.
use bitbit.Base.{
  ℕ, zero, suc, ◌+◌, ◌%◌, ◌<◌, ◌≡◌, refl, sym, ap, ◌∙◌, subst, true, false, none, some, List, [],
  ◌∷◌, ◌++◌, length, All, All-append, mem, ltb, leb, ◌==◌, arith, Bool-cases, inl, inr,
}
use bitbit.Base.Bytes.{Bytes, ascii, be_value}
use native.Mathlib.Nat.{mod-lt, mod-eq_of_lt}
use bitbit.Por.Scheme.{
  prime, blocks, Key, Challenge, Query, Proof, encode_elem, zero_elems, encode_all, proved,
  tags_from, tags, expand_from, expand, prove, add_prf, verify, coefficient, prf_uint,
}
use bitbit.Por.Sums.{Congruent, dot}
use bitbit.Por.Aggregates.{
  Small, prime-positive, elem-round_trip, length-encode_elem, zero_elems-All, length-zero_elems,
  dot-zero_elems, length-encode_all, add_mu-total, aggregated, add_prf-Small,
}

-- A key as `Keygen` makes it: one secret coefficient for each sector of a block.
abbrev pub IsKey : Key → Type 0
IsKey k = (0 < k.sectors) × (length k.alpha ≡ k.sectors)

Congruent-eq : (a b : ℕ) → Small a → Small b → Congruent a b → a ≡ b
Congruent-eq a b h k c = sym (mod-eq_of_lt h) ∙ c ∙ mod-eq_of_lt k

module _ (mac : Bytes → Bytes → ℕ) where
  length-tags_from :
      (k : Key) (unit_id content : Bytes) (n i : ℕ)
      → length (tags_from mac k unit_id content n i) ≡ n
  unfolding tags_from
  length-tags_from k unit_id content zero i = refl
  length-tags_from k unit_id content (suc n) i =
      ap (λ z. suc z) (length-tags_from k unit_id content n (i + 1))

  -- The blocks that a challenge samples are blocks of the unit.
  expand_from-All :
      (fuel ctr : ℕ) (c : Challenge) (used : List ℕ) (built qs : List Query)
      → All (λ (q : Query). q.i < c.blocks) built
      → expand_from mac fuel ctr c used built ≡ some qs
      → All (λ (q : Query). q.i < c.blocks) qs
  unfolding expand_from
  expand_from-All zero ctr c used built qs h got = elim (Bool-cases (ltb (length built) c.count)) [
    | inl e ↦ absurd (ground (arith, e, got))
    | inr e ↦
        let same : some built ≡ some qs = sym (rw e refl) ∙ got in
        let eq : built ≡ qs = cc in subst (λ z. All (λ (q : Query). q.i < c.blocks) z) eq h
  ]
  expand_from-All (suc fuel) ctr c used built qs h got =
      let i = prf_uint mac c.seed (ascii "index") ctr % c.blocks in
      elim (Bool-cases (ltb (length built) c.count)) [
        | inr e ↦
            let same : some built ≡ some qs = sym (rw (expand_from, e) refl) ∙ got in
            let eq : built ≡ qs = cc in subst (λ z. All (λ (q : Query). q.i < c.blocks) z) eq h
        | inl e ↦ elim (Bool-cases (c.blocks == 0)) [
          | inl z ↦ let no : none ≡ some qs = sym (rw (expand_from, e, z) refl) ∙ got in absurd (cc)
          | inr z ↦ elim (Bool-cases (mem i used)) [
            | inl m ↦
                expand_from-All fuel (ctr + 1) c used built qs h
                  (sym (rw (expand_from, e, z, m) refl) ∙ got)
            | inr m ↦
                let q : Query = record { i = i; nu = coefficient mac c i } in
                let positive : 0 < c.blocks = ground (arith, z) in
                expand_from-All fuel (ctr + 1) c (i ∷ used) (built ++ q ∷ []) qs
                  (All-append (λ (q : Query). q.i < c.blocks) built (q ∷ []) h
                    (mod-lt _ positive, tt))
                  (sym (rw (expand_from, e, z, m) refl) ∙ got)
          ]
        ]
      ]

  -- The tags of a unit and a challenge that covers all its blocks are enough to prove it: whenever the
  -- challenge is expanded within the draws allowed, `Prove` gives a proof, and `Verify` accepts it under
  -- the key that the tags were made with, for any secret key, content and unit.
  pub prove_verifies :
      (draws : ℕ) (k : Key) (unit_id content : Bytes) (c : Challenge) (qs : List Query)
      → IsKey k
      → c.blocks ≡ blocks k.sectors (length content)
      → expand mac draws c ≡ some qs
      → (p : Proof) × (prove mac draws k.sectors content (tags mac k unit_id content) c ≡ proved p)
        × (verify mac draws k unit_id c p ≡ some true)
  unfolding prove verify tags expand
  prove_verifies draws k unit_id content c qs (positive, sized) whole expanded =
      let n = blocks k.sectors (length content) in
      let tag_list = tags_from mac k unit_id content n 0 in
      let zeros = zero_elems k.sectors in
      let range =
        subst (λ z. All (λ (q : Query). q.i < z) qs) whole
          (expand_from-All draws 0 c [] [] qs tt expanded) in
      let start : Congruent 0 (0 + dot k.alpha zeros) =
        let e : 0 + dot k.alpha zeros ≡ 0 = omega (arith, dot-zero_elems k.alpha k.sectors) in
        ap (λ z. z % prime) (sym e) in
      let a =
        aggregated mac k unit_id content n qs 0 zeros 0 range prime-positive
          (zero_elems-All k.sectors) (length-zero_elems k.sectors ∙ sym sized) start in
      let (r, got, below, same) =
        add_mu-total k.alpha a.mu_end (add_prf mac k unit_id qs 0) a.sized a.smalls
          (add_prf-Small mac k unit_id qs 0 prime-positive) in
      let p : Proof = record { mu = encode_all a.mu_end; sigma = encode_elem a.sigma_end } in
      let sigma : be_value (encode_elem a.sigma_end) ≡ a.sigma_end =
        elem-round_trip a.sigma_end a.small in
      let equal : a.sigma_end ≡ r = Congruent-eq a.sigma_end r a.small below (a.agree ∙ sym same) in
      let has_sectors : (k.sectors == 0) ≡ false = ground (arith, positive) in
      let covers : (c.blocks == length tag_list) ≡ true =
        ground (arith, whole, length-tags_from k unit_id content n 0) in
      let mu_size : (length (encode_all a.mu_end) == k.sectors) ≡ true =
        ground (arith, length-encode_all a.mu_end, a.sized, sized) in
      let sigma_size : (length (encode_elem a.sigma_end) == 32) ≡ true =
        ground (arith, length-encode_elem a.sigma_end) in
      let canonical : leb prime (be_value (encode_elem a.sigma_end)) ≡ false =
        ground (arith, sigma, a.small) in
      let closed : (be_value (encode_elem a.sigma_end) == r) ≡ true =
        ground (arith, sigma, equal) in
      (
        p,
        rw (has_sectors, covers, expanded, a.done) refl,
        rw (mu_size, sigma_size, canonical, expanded, got, closed) refl,
      )
