-- ===== src/Chain/Queries.antt =====
-- What a replica answers about its state (core/chain/chain.go): its takedown log, with the proofs of
-- core/translog, and its blocks, entries, and issuers.
use bitbit.Base.{ℕ, Bool, ◌&&◌, Option, List, [], ◌∷◌, length, take, mem, map, ltb, if◌then◌else◌}
use bitbit.Base.Int.{ℤ, pos, ltb_ℤ, leb_ℤ, pos_part}
use bitbit.Base.Maps.{Map, lookup}
use bitbit.Translog.{root, root_at, inclusion_proof, consistency_proof}
use bitbit.Chain.Types.{Entry, Crypto}
use bitbit.Chain.State.{Chain}

unfoldable pub is_slashed : ℕ → Chain → Bool
is_slashed id c = mem id c.slashed

unfoldable pub is_revoked : ℕ → Chain → Bool
is_revoked r c = mem r c.revoked

module _ (cr : Crypto) where
  unfoldable pub revocation_log_root : Chain → ℕ
  revocation_log_root c = root cr.sha256 c.rev_log

  unfoldable pub revocation_log_root_at : ℕ → Chain → Option ℕ
  revocation_log_root_at size c = root_at cr.sha256 size c.rev_log

  unfoldable pub revocation_inclusion_proof : ℕ → ℕ → Chain → Option (List ℕ)
  revocation_inclusion_proof index size c = inclusion_proof cr.sha256 index size c.rev_log

  unfoldable pub revocation_consistency_proof : ℕ → ℕ → Chain → Option (List ℕ)
  revocation_consistency_proof m n c = consistency_proof cr.sha256 m n c.rev_log

unfoldable pub revocation_log_size : Chain → ℕ
revocation_log_size c = length c.rev_log

unfoldable pub lookup_root : ℕ → Chain → Option Entry
lookup_root r c = lookup r c.by_root

-- The order of `CanonicalIssuers`: the heavier bond first, then the smaller identifier.
unfoldable pub issuer_before : ℕ × ℤ → ℕ × ℤ → Bool
issuer_before (i, x) (j, y) = if leb_ℤ x y && leb_ℤ y x then ltb i j else ltb_ℤ y x

unfoldable pub put_issuer : ℕ × ℤ → List (ℕ × ℤ) → List (ℕ × ℤ)
unfolding issuer_before
put_issuer x [] = x ∷ []
put_issuer x (y ∷ ys) =
    let rest = put_issuer x ys in if issuer_before y x then y ∷ rest else x ∷ y ∷ ys

unfoldable pub issuers_of : ℤ → Map ℤ → List (ℕ × ℤ)
unfolding put_issuer
issuers_of min_bond [] = []
issuers_of min_bond ((id, size) ∷ m) =
    let rest = issuers_of min_bond m in
    if leb_ℤ min_bond size && ltb_ℤ (pos 0) size then put_issuer (id, size) rest else rest

abbrev identity_of : ℕ × ℤ → ℕ
identity_of (id, size) = id

unfoldable pub canonical_issuers : ℤ → Chain → List ℕ
unfolding issuers_of
canonical_issuers limit c =
    let list = issuers_of c.cfg.min_bond c.bonded in
    map identity_of (if ltb_ℤ (pos 0) limit then take (pos_part limit) list else list)
