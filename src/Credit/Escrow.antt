-- ===== src/Credit/Escrow.antt =====
-- core/credit/escrow.go: the durability reserve that each object has, and the bounties it pays.
use bitbit.Base.{ℕ, ◌==◌, none, some, if◌then◌else◌}
use bitbit.Base.Int.{ℤ, pos, add64, sub64, mul64, quo, ltb_ℤ, leb_ℤ}
use bitbit.Base.Maps.{lookup, insert, get_or}
use bitbit.Credit.{
  Account, Ledger, ObjectEscrow, Outcome, ok, insufficient_credit, acct, register, modify, fetched,
}

abbrev pub skim_num : ℤ
skim_num = pos 1

abbrev pub skim_den : ℤ
skim_den = pos 8

abbrev pub empty_escrow : ObjectEscrow
empty_escrow = record { balance = pos 0; funded = pos 0; paid = pos 0; repairs = pos 0 }

-- What `l.escrowFor(root)` reads; its insertion of an empty reserve is a part of `modify_escrow`.
unfoldable pub escrow_for : ℕ → Ledger → ObjectEscrow
escrow_for root l = get_or (lookup root l.escrow) empty_escrow

-- A write through the pointer that `l.escrowFor(root)` returns.
unfoldable pub modify_escrow : ℕ → (ObjectEscrow → ObjectEscrow) → Ledger → Ledger
modify_escrow root f l = record l { escrow = insert root (f (escrow_for root l)) l.escrow }

abbrev pub deposited : ℤ → ObjectEscrow → ObjectEscrow
deposited x e = record e { balance = add64 e.balance x; funded = add64 e.funded x }

abbrev pub withdrawn : ℤ → ObjectEscrow → ObjectEscrow
withdrawn x e = record e {
  balance = sub64 e.balance x;
  paid = add64 e.paid x;
  repairs = add64 e.repairs (pos 1);
}

abbrev pub spend : ℤ → Account → Account
spend x a = record a { balance = sub64 a.balance x }

abbrev pub earn : ℤ → Account → Account
earn x a = record a { balance = add64 a.balance x }

unfoldable pub fund_escrow : ℕ → ℕ → ℤ → Ledger → Outcome × Ledger
fund_escrow root funder amount l =
    if leb_ℤ amount (pos 0)
    then (ok, l)
    else if ltb_ℤ (Account.balance (acct funder l)) amount
    then (insufficient_credit, register funder l)
    else (ok, modify_escrow root (deposited amount) (modify funder (spend amount) l))

-- `bytes * SkimNum / SkimDen`
unfoldable pub skim_of : ℤ → ℤ
skim_of bytes = quo (mul64 bytes skim_num) skim_den

abbrev served : ℤ → Account → Account
served bytes a = record a {
  balance = add64 a.balance (sub64 bytes (skim_of bytes));
  served_bytes = add64 a.served_bytes bytes;
}

unfoldable pub record_serve_to_object : ℕ → ℕ → ℕ → ℤ → Ledger → ℤ × Ledger
record_serve_to_object server requester root bytes l =
    if leb_ℤ bytes (pos 0) then (pos 0, l) else if server == requester then (pos 0, l) else (
      skim_of bytes,
      modify_escrow root (deposited (skim_of bytes))
          (modify requester (fetched bytes) (modify server (served bytes) l)),
    )

-- What a bounty of `amount` takes from a reserve of `available`.
unfoldable pub payable : ℤ → ℤ → ℤ
payable amount available = if ltb_ℤ available amount then available else amount

unfoldable pub pay_from : ℕ → ℕ → ℤ → ObjectEscrow → Ledger → ℤ × Ledger
unfolding payable
pay_from root repairer amount e l = if leb_ℤ e.balance (pos 0) then (pos 0, l) else (
  payable amount e.balance,
  modify repairer (earn (payable amount e.balance))
      (modify_escrow root (withdrawn (payable amount e.balance)) l),
)

unfoldable pub pay_bounty : ℕ → ℕ → ℤ → Ledger → ℤ × Ledger
unfolding pay_from
pay_bounty root repairer amount l =
    if leb_ℤ amount (pos 0) then (pos 0, l) else elim (lookup root l.escrow) [
      | none ↦ (pos 0, l)
      | some e ↦ pay_from root repairer amount e l
    ]

abbrev pub lost_shards : ℤ → ℤ → ℤ
lost_shards n reachable = if ltb_ℤ (sub64 n reachable) (pos 0) then pos 0 else sub64 n reachable

unfoldable pub bounty_for : ℤ → ℤ → ℤ → ℤ → ℤ
bounty_for base k n reachable =
    if leb_ℤ base (pos 0)
    then pos 0
    else if leb_ℤ k (pos 0)
    then pos 0
    else if ltb_ℤ n k
    then pos 0
    else (let lost = lost_shards n reachable in
        let max_lost = sub64 n k in
        mul64 base (add64 (if ltb_ℤ max_lost lost then max_lost else lost) (pos 1)))

-- The observers read the reserve, or 0 where there is none; `escrow_snapshot` reads all four.
unfoldable pub escrow_balance : ℕ → Ledger → ℤ
escrow_balance root l = elim (lookup root l.escrow) [ none ↦ pos 0 | some e ↦ e.balance ]

unfoldable pub escrow_funded : ℕ → Ledger → ℤ
escrow_funded root l = elim (lookup root l.escrow) [ none ↦ pos 0 | some e ↦ e.funded ]

unfoldable pub escrow_paid : ℕ → Ledger → ℤ
escrow_paid root l = elim (lookup root l.escrow) [ none ↦ pos 0 | some e ↦ e.paid ]

unfoldable pub escrow_repairs : ℕ → Ledger → ℤ
escrow_repairs root l = elim (lookup root l.escrow) [ none ↦ pos 0 | some e ↦ e.repairs ]

-- A `ports.DurabilitySnapshot` has the four fields of a reserve, under the same names.
unfoldable pub durability_snapshot : ℕ → Ledger → ObjectEscrow
durability_snapshot root l = elim (lookup root l.escrow) [ none ↦ empty_escrow | some e ↦ e ]
