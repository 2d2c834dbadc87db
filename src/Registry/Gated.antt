-- ===== src/Registry/Gated.antt =====
-- The registry behind the credit ledger: core/registry/gated.go. `Publish` holds no lock over its calls
-- of the log and the ledger: it is modelled as a call that no other one interleaves.
use bitbit.Base.{ℕ, not, List, ◌==◌, if◌then◌else◌}
use bitbit.Credit.{Ledger, Outcome, insufficient_credit, can_publish, charge_publish}
use bitbit.Credit
use bitbit.Chain.Types.{Entry}
use bitbit.Registry.Log.{Log, Reply, Found, missing, publisher_required, panicked}
use bitbit.Registry.Log

pub record Gated : Type 0 where
  pub log : Log
  pub ledger : Ledger

unfoldable pub new_gated : Ledger → Gated
new_gated ledger = record { log = Log.new; ledger = ledger }

-- `g.ledger.ChargePublish(e.Publisher)` after the entry is in the log.
abbrev charged : Log → Outcome × Ledger → Gated × Reply
charged log (Credit.ok, ledger) = (record { log = log; ledger = ledger }, Log.ok)
charged log (insufficient_credit, ledger) =
    (record { log = log; ledger = ledger }, Log.insufficient_credit)

abbrev logged : Entry → Ledger → Log × Reply → Gated × Reply
logged e ledger (log, Log.ok) = charged log (charge_publish e.publisher ledger)
logged e ledger (log, reply) = (record { log = log; ledger = ledger }, reply)

abbrev republished : Ledger → Log × Reply → Gated × Reply
republished ledger (log, reply) = (record { log = log; ledger = ledger }, reply)

-- The credit gate of an entry whose root is new.
abbrev gate : Entry → Gated → Gated × Reply
gate e g =
    let (affordable, ledger) = can_publish e.publisher g.ledger in
    if not affordable
    then (record g { ledger = ledger }, Log.insufficient_credit)
    else logged e ledger (Log.publish e g.log)

unfoldable pub publish : Entry → Gated → Gated × Reply
publish e g =
    if e.publisher == 0 then (g, publisher_required) else elim (Log.lookup_entry e.root g.log) [
      | Log.missing ↦ gate e g
      | Log.holds existing ↦ republished g.ledger (Log.publish e g.log)
      | Log.out_of_range ↦ (g, panicked)
    ]

unfoldable pub lookup_entry : ℕ → Gated → Found
lookup_entry root g = Log.lookup_entry root g.log

unfoldable pub all : Gated → List Entry
all g = Log.all g.log
