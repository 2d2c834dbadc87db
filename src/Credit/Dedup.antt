-- ===== src/Credit/Dedup.antt =====
-- The owners of bond roots: `rootOwner` in core/credit/credit.go.
use bitbit.Base.{ℕ, ◌≡◌, ◌≢◌, refl, Bool, true, false, some, List, [], ◌∷◌, arith}
use bitbit.Base.Int.{ℤ, pos}
use bitbit.Base.Maps.{lookup, lookup-insert}
use bitbit.Credit.{
  Account, Ledger, acct, register, zero_hash, owned_by_other, record_bond_challenge, unbonded,
  record_serve, record_audit, slash_equivocation, slash_false_repair, decay_stale, charge_publish,
}
use bitbit.Credit.Escrow.{fund_escrow, record_serve_to_object, pay_bounty, modify_escrow}
use bitbit.Credit.Ops.{
  Op, registers, serves, audits, challenges, equivocates, lies, decays, publishes, funds,
  serves_object, pays, apply, run,
}
use bitbit.Credit.Accounts.{acct-modify_self, modify-root_owner}

register-root_owner : (n : ℕ) (l : Ledger) → (register n l).root_owner ≡ l.root_owner
unfolding register
register-root_owner n l = ground arith

modify_escrow-root_owner :
    (root : ℕ) (f : _) (l : Ledger) → (modify_escrow root f l).root_owner ≡ l.root_owner
unfolding modify_escrow
modify_escrow-root_owner root f l = refl

challenge-owner :
    (prover root : ℕ) (proven : ℤ) (passed : Bool) (tick r p : ℕ) (l : Ledger)
    → r ≢ zero_hash
    → lookup r l.root_owner ≡ some p
    → lookup r (record_bond_challenge prover root proven passed tick l).root_owner ≡ some p
unfolding record_bond_challenge owned_by_other
challenge-owner prover root proven passed tick r p l nz h =
    grind (arith, modify-root_owner, lookup-insert)

-- Once a root is owned, no operation gives it to anybody else.
owner-apply :
    (op : Op) (r p : ℕ) (l : Ledger)
    → r ≢ zero_hash
    → lookup r l.root_owner ≡ some p
    → lookup r (apply op l).root_owner ≡ some p
unfolding apply record_serve record_audit slash_equivocation slash_false_repair decay_stale
    charge_publish fund_escrow record_serve_to_object pay_bounty
owner-apply (challenges n root b passed t) r p l nz h = challenge-owner n root b passed t r p l nz h
owner-apply (registers n) r p l nz h = grind (arith, register-root_owner)
owner-apply (serves s q b) r p l nz h = grind (arith, modify-root_owner)
owner-apply (audits n b) r p l nz h = grind (arith, modify-root_owner)
owner-apply (equivocates n) r p l nz h = grind (arith, modify-root_owner)
owner-apply (lies n) r p l nz h = grind (arith, modify-root_owner)
owner-apply (decays now age) r p l nz h = h
owner-apply (publishes n) r p l nz h = grind (arith, modify-root_owner, register-root_owner)
owner-apply (funds o n x) r p l nz h =
    grind (arith, modify-root_owner, register-root_owner, modify_escrow-root_owner)
owner-apply (serves_object s q o b) r p l nz h =
    grind (arith, modify-root_owner, modify_escrow-root_owner)
owner-apply (pays o n x) r p l nz h = grind (arith, modify-root_owner, modify_escrow-root_owner)

owner-run :
    (ops : List Op) (r p : ℕ) (l : Ledger)
    → r ≢ zero_hash
    → lookup r l.root_owner ≡ some p
    → lookup r (run ops l).root_owner ≡ some p
unfolding run
owner-run [] r p l nz h = h
owner-run (op ∷ ops) r p l nz h = owner-run ops r p (apply op l) nz (owner-apply op r p l nz h)

-- A passed challenge of an identity on a non-zero root that is free, or its own, claims it.
claim-owner :
    (p root : ℕ) (proven : ℤ) (tick : ℕ) (l : Ledger)
    → root ≢ zero_hash
    → owned_by_other root p l ≡ false
    → lookup root (record_bond_challenge p root proven true tick l).root_owner ≡ some p
unfolding record_bond_challenge
claim-owner p root proven tick l nz h = grind (arith, lookup-insert)

owned-other :
    (root p q : ℕ) (l : Ledger)
    → root ≢ zero_hash
    → lookup root l.root_owner ≡ some p
    → p ≢ q
    → owned_by_other root q l ≡ true
unfolding owned_by_other
owned-other root p q l nz h ne = ground arith

other-earns_nothing :
    (p q root : ℕ) (proven : ℤ) (tick : ℕ) (l : Ledger)
    → root ≢ zero_hash
    → p ≢ q
    → lookup root l.root_owner ≡ some p
    → Account.bonded_bytes (acct q (record_bond_challenge q root proven true tick l)) ≡ pos 0
unfolding record_bond_challenge
other-earns_nothing p q root proven tick l nz ne h =
    rw (owned-other root p q l nz h ne, acct-modify_self q (unbonded tick) l)

-- One root, one identity, for ever: after `p` has passed a challenge on a non-zero root that no
-- other identity owned, and after any further operations, a challenge on that root that another
-- identity `q` passes leaves `q` with no bonded bytes, and the root with `p`.
pub bond_root_dedup :
    (p q root : ℕ) (proven proven' : ℤ) (tick tick' : ℕ) (ops : List Op) (l : Ledger)
    → root ≢ zero_hash
    → p ≢ q
    → owned_by_other root p l ≡ false
    → let later = run ops (record_bond_challenge p root proven true tick l) in
      let shared = record_bond_challenge q root proven' true tick' later in
      (Account.bonded_bytes (acct q shared) ≡ pos 0) × (lookup root shared.root_owner ≡ some p)
bond_root_dedup p q root proven proven' tick tick' ops l nz ne free =
    let later = run ops (record_bond_challenge p root proven true tick l) in
    let owned = owner-run ops root p _ nz (claim-owner p root proven tick l nz free) in
    (
      other-earns_nothing p q root proven' tick' later nz ne owned,
      challenge-owner q root proven' true tick' root p later nz owned,
    )
