-- ===== src/Credit/Tests.antt =====
-- A small ledger on which the theorems about core/credit apply.
use bitbit.Base.{◌⊎◌, ◌+◌, ◌-◌, ◌*◌, ◌^◌, min, ◌≡◌, refl, true, false, some, [], ◌∷◌, arith}
use bitbit.Base.Int.{pos, negsuc, ◌≤ℤ◌, ◌+ℤ◌, ◌-ℤ◌}
use bitbit.Base.Maps.{lookup}
use bitbit.Credit.{
  Account, ObjectEscrow, Ledger, new, fresh, acct, ok, owned_by_other, reputation,
  record_bond_challenge, slash_equivocation,
}
use bitbit.Credit.Escrow.{escrow_for, fund_escrow, pay_bounty, bounty_for}
use bitbit.Credit.Ops.{serves, equivocates, registers, lies, apply, run}
use bitbit.Credit.Standing.{
  IsModest, count_limit, balance_firewall, reputation_one_source, slash_equivocation_buries,
}
use bitbit.Credit.Dedup.{bond_root_dedup}
use bitbit.Credit.Reserves.{wealth, fund_escrow_conserves, pay_bounty_conserves, bounty_for-eq}

-- A node that holds a bond and has been caught twice, and a plain one.
abbrev alice : Account
alice = record (fresh (pos 500)) { bonded_bytes = pos 131_072; audits_failed = pos 2 }

abbrev bob : Account
bob = fresh (pos 40)

abbrev reserve : ObjectEscrow
reserve = record { balance = pos 90; funded = pos 100; paid = pos 10; repairs = pos 1 }

abbrev books : Ledger
unfolding new
books = record (new (pos 10) (pos 40)) {
  accounts = (1, alice) ∷ (2, bob) ∷ [];
  order = 1 ∷ 2 ∷ [];
  root_owner = (77, 1) ∷ [];
  escrow = (9, reserve) ∷ [];
}

alice-IsModest : IsModest count_limit (acct 1 books)
unfolding acct lookup books
alice-IsModest = record {
  bond = refl;
  bond_fits = omega arith;
  audit_count = (refl, omega arith);
  fail_count = (refl, omega arith);
  lie_count = (refl, omega arith);
  double_sign_count = (refl, omega arith);
}

alice_listed : lookup 1 books.accounts ≡ some alice
unfolding lookup books
alice_listed = refl

bob_listed : lookup 2 books.accounts ≡ some bob
unfolding lookup books
bob_listed = refl

reserve_listed : lookup 9 books.escrow ≡ some reserve
unfolding lookup books
reserve_listed = refl

balance_firewall_example :
    (reputation 1 (apply (serves 1 2 (pos 64)) books)).0 ≡ (reputation 1 books).0
balance_firewall_example = balance_firewall (serves 1 2 (pos 64)) 1 books tt

reputation_one_source_example : (reputation 1 (apply (lies 1) books)).0 ≤ℤ (reputation 1 books).0
reputation_one_source_example = reputation_one_source (lies 1) 1 books (λ m. m) alice-IsModest

slash_equivocation_buries_example :
    (reputation 1 (slash_equivocation 1 books)).0 ≤ℤ negsuc (2 ^ 40 - 1)
slash_equivocation_buries_example = slash_equivocation_buries 1 books alice-IsModest

unowned : owned_by_other 50 2 books ≡ false
unfolding owned_by_other lookup books
unowned = refl

bond_root_dedup_example :
    let later =
      run
        (registers 5 ∷ equivocates 2 ∷ [])
        (record_bond_challenge 2 50 (pos 4_096) true 3 books) in
    let shared = record_bond_challenge 1 50 (pos 8_192) true 4 later in
    (Account.bonded_bytes (acct 1 shared) ≡ pos 0) × (lookup 50 shared.root_owner ≡ some 2)
bond_root_dedup_example =
    bond_root_dedup 2 1 50 (pos 4_096) (pos 8_192) 3 4 (registers 5 ∷ equivocates 2 ∷ []) books
      (λ h. omega (arith, h)) (λ h. omega (arith, h)) unowned

fund_escrow_conserves_example :
    let (r, l) = fund_escrow 9 1 (pos 60) books in
    (r ≡ ok)
    × (Account.balance (acct 1 l) ≡ pos 500 -ℤ pos 60)
    × (ObjectEscrow.balance (escrow_for 9 l) ≡ ObjectEscrow.balance (escrow_for 9 books) +ℤ pos 60)
    × (wealth l ≡ wealth books)
unfolding escrow_for lookup books ◌+ℤ◌
fund_escrow_conserves_example =
    fund_escrow_conserves 9 1 (pos 60) alice books alice_listed (omega arith) (omega arith)
      (omega arith) (omega arith)

pay_bounty_conserves_example :
    let (paid, l) = pay_bounty 9 2 (pos 120) books in
    (paid ≤ℤ pos 120)
    × (paid ≤ℤ pos 90)
    × ((paid ≡ pos 120) ⊎ (paid ≡ pos 90))
    × (Account.balance (acct 2 l) ≡ pos 40 +ℤ paid)
    × (ObjectEscrow.balance (escrow_for 9 l) ≡ pos 90 -ℤ paid)
    × (pos 0 ≤ℤ ObjectEscrow.balance (escrow_for 9 l))
    × (wealth l ≡ wealth books)
unfolding ◌+ℤ◌
pay_bounty_conserves_example =
    pay_bounty_conserves 9 2 (pos 120) bob reserve books reserve_listed bob_listed (omega arith)
      (omega arith) (omega arith) (omega arith) (omega arith)

bounty_for-eq_example :
    bounty_for (pos 100) (pos 4) (pos 6) (pos 5) ≡ pos (100 * (min (6 - 4) (6 - 5) + 1))
bounty_for-eq_example =
    bounty_for-eq 100 4 6 5 (omega arith) (omega arith) (omega arith) (omega arith) (omega arith)
      (omega arith)
