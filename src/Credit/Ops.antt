-- ===== src/Credit/Ops.antt =====
-- Every method of the ledger that changes it, as one operation each.
use bitbit.Base.{ℕ, Bool, List, [], ◌∷◌}
use bitbit.Base.Int.{ℤ}
use bitbit.Credit.{
  Ledger, register, record_serve, record_audit, record_bond_challenge, slash_equivocation,
  slash_false_repair, decay_stale, charge_publish,
}
use bitbit.Credit.Escrow.{fund_escrow, record_serve_to_object, pay_bounty}

pub data Op : Type 0 where
  registers : ℕ → Op
  serves : ℕ → ℕ → ℤ → Op
  audits : ℕ → Bool → Op
  challenges : ℕ → ℕ → ℤ → Bool → ℕ → Op
  equivocates : ℕ → Op
  lies : ℕ → Op
  decays : ℕ → ℕ → Op
  publishes : ℕ → Op
  funds : ℕ → ℕ → ℤ → Op
  serves_object : ℕ → ℕ → ℕ → ℤ → Op
  pays : ℕ → ℕ → ℤ → Op

unfoldable pub apply : Op → Ledger → Ledger
apply (registers n) l = register n l
apply (serves server requester bytes) l = record_serve server requester bytes l
apply (audits prover passed) l = record_audit prover passed l
apply (challenges prover root proven passed tick) l =
    record_bond_challenge prover root proven passed tick l
apply (equivocates id) l = slash_equivocation id l
apply (lies id) l = slash_false_repair id l
apply (decays now max_age) l = decay_stale now max_age l
apply (publishes n) l = (charge_publish n l).1
apply (funds root funder amount) l = (fund_escrow root funder amount l).1
apply (serves_object server requester root bytes) l =
    (record_serve_to_object server requester root bytes l).1
apply (pays root repairer amount) l = (pay_bounty root repairer amount l).1

unfoldable pub run : List Op → Ledger → Ledger
run [] l = l
run (op ∷ ops) l = run ops (apply op l)
