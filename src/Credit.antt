-- ===== src/Credit.antt =====
-- core/credit/credit.go: the ledger of balances and of standing. A `*account` is an entry of the
-- map, and a method that writes through the pointer is an update of that entry. Go's `int64` and
-- `int` are integers that wrap into 64 bits, ticks are `uint64`, a NodeID or a Hash is the number
-- that its 32 bytes spell, so that the zero value is 0.
mod Tests
pub mod Escrow
pub mod Instruments
pub mod Ops
pub mod Accounts
pub mod Standing
pub mod Dedup
pub mod Reserves
use bitbit.Base.{
  ℕ, ◌-◌, Bool, true, false, ◌&&◌, Option, none, some, List, [], ◌∷◌, ◌++◌, ltb, ◌==◌,
  if◌then◌else◌, not,
}
use bitbit.Base.Int.{ℤ, pos, add64, sub64, mul64, quo, ltb_ℤ, leb_ℤ}
use bitbit.Base.Maps.{Map, lookup, insert, is_some, get_or}

pub record Account : Type 0 where
  pub balance : ℤ
  pub served_bytes : ℤ
  pub fetched_bytes : ℤ
  pub audits_passed : ℤ
  pub audits_failed : ℤ
  pub bonded_bytes : ℤ
  pub bond_fails : ℤ
  pub first_seen_tick : ℕ
  pub last_bond_tick : ℕ
  pub equivocations : ℤ
  pub false_repairs : ℤ

-- core/credit/escrow.go, `objectEscrow`
pub record ObjectEscrow : Type 0 where
  pub balance : ℤ
  pub funded : ℤ
  pub paid : ℤ
  pub repairs : ℤ

pub record Ledger : Type 0 where
  pub fee : ℤ
  pub grant : ℤ
  pub accounts : Map Account
  pub order : List ℕ
  pub root_owner : Map ℕ
  pub escrow : Map ObjectEscrow
  pub audit_reward : ℤ
  pub audit_slash : ℤ

abbrev pub zero_hash : ℕ
zero_hash = 0

unfoldable pub new : ℤ → ℤ → Ledger
new fee grant = record {
  fee = fee;
  grant = grant;
  accounts = [];
  order = [];
  root_owner = [];
  escrow = [];
  audit_reward = pos 1_000;
  audit_slash = pos 25_000;
}

-- `&account{balance: l.grant}`
abbrev pub fresh : ℤ → Account
fresh grant = record {
  balance = grant;
  served_bytes = pos 0;
  fetched_bytes = pos 0;
  audits_passed = pos 0;
  audits_failed = pos 0;
  bonded_bytes = pos 0;
  bond_fails = pos 0;
  first_seen_tick = 0;
  last_bond_tick = 0;
  equivocations = pos 0;
  false_repairs = pos 0;
}

unfoldable pub register : ℕ → Ledger → Ledger
register n l =
    if is_some (lookup n l.accounts)
    then l
    else record l { accounts = insert n (fresh l.grant) l.accounts; order = l.order ++ n ∷ [] }

-- What `l.acct(n)` reads: the account, or the one that `Register` has just made.
unfoldable pub acct : ℕ → Ledger → Account
acct n l = get_or (lookup n l.accounts) (fresh l.grant)

-- A write through the pointer that `l.acct(n)` returns.
unfoldable pub modify : ℕ → (Account → Account) → Ledger → Ledger
modify n f l = let l' = register n l in record l' { accounts = insert n (f (acct n l)) l'.accounts }

abbrev credited : ℤ → Account → Account
credited bytes a = record a {
  balance = add64 a.balance bytes;
  served_bytes = add64 a.served_bytes bytes;
}

abbrev pub fetched : ℤ → Account → Account
fetched bytes a = record a { fetched_bytes = add64 a.fetched_bytes bytes }

unfoldable pub record_serve : ℕ → ℕ → ℤ → Ledger → Ledger
record_serve server requester bytes l =
    if leb_ℤ bytes (pos 0)
    then l
    else if server == requester
    then l
    else modify requester (fetched bytes) (modify server (credited bytes) l)

abbrev pub audited : ℤ → ℤ → Bool → Account → Account
audited reward slash true a = record a {
  balance = add64 a.balance reward;
  audits_passed = add64 a.audits_passed (pos 1);
}
audited reward slash false a = record a {
  balance = sub64 a.balance slash;
  audits_failed = add64 a.audits_failed (pos 1);
}

unfoldable pub record_audit : ℕ → Bool → Ledger → Ledger
record_audit prover passed l = modify prover (audited l.audit_reward l.audit_slash passed) l

-- The first lines of `RecordBondChallenge`.
abbrev pub seen_at : ℕ → Account → Account
seen_at tick a = record a {
  first_seen_tick = if a.first_seen_tick == 0 then tick else a.first_seen_tick;
}

-- Whether `rootOwner` gives the root to another identity.
unfoldable pub owned_by_other : ℕ → ℕ → Ledger → Bool
owned_by_other root prover l =
    if root == zero_hash
    then false
    else elim (lookup root l.root_owner) [ none ↦ false | some owner ↦ not (owner == prover) ]

abbrev pub unbonded : ℕ → Account → Account
unbonded tick a = record (seen_at tick a) { bonded_bytes = pos 0 }

abbrev pub proved : ℕ → ℤ → Account → Account
proved tick bytes a = record (seen_at tick a) { bonded_bytes = bytes; last_bond_tick = tick }

abbrev pub failed_bond : ℕ → Account → Account
failed_bond tick a = record (seen_at tick a) {
  bonded_bytes = pos 0;
  bond_fails = add64 a.bond_fails (pos 1);
}

-- `l.rootOwner[root] = prover`, for a root that is not the zero hash
abbrev claim : ℕ → ℕ → Ledger → Ledger
claim root prover l =
    if root == zero_hash then l else record l { root_owner = insert root prover l.root_owner }

unfoldable pub record_bond_challenge : ℕ → ℕ → ℤ → Bool → ℕ → Ledger → Ledger
record_bond_challenge prover root proven passed tick l =
    if passed
    then (if owned_by_other root prover l
        then modify prover (unbonded tick) l
        else claim root prover (modify prover (proved tick proven) l))
    else modify prover (failed_bond tick) l

abbrev pub equivocation_slash : ℤ
equivocation_slash = pos (0x100_0000_0000)

abbrev pub double_signed : Account → Account
double_signed a = record a { equivocations = add64 a.equivocations (pos 1); bonded_bytes = pos 0 }

unfoldable pub slash_equivocation : ℕ → Ledger → Ledger
slash_equivocation id l = modify id double_signed l

abbrev pub false_repair_slash : ℤ
false_repair_slash = pos 1_000_000

abbrev pub lied : Account → Account
lied a = record a { false_repairs = add64 a.false_repairs (pos 1) }

unfoldable pub slash_false_repair : ℕ → Ledger → Ledger
slash_false_repair id l = modify id lied l

-- The test in `DecayStale`; its subtraction cannot wrap, since `now` is the larger.
abbrev pub is_stale : ℕ → ℕ → Account → Bool
is_stale now max_age a =
    ltb_ℤ (pos 0) a.bonded_bytes
    && (ltb a.last_bond_tick now && ltb max_age (now - a.last_bond_tick))

abbrev pub decayed : ℕ → ℕ → Account → Account
decayed now max_age a = if is_stale now max_age a then record a { bonded_bytes = pos 0 } else a

unfoldable pub decay_all : ℕ → ℕ → Map Account → Map Account
decay_all now max_age [] = []
decay_all now max_age ((n, a) ∷ m) = (n, decayed now max_age a) ∷ decay_all now max_age m

unfoldable pub decay_stale : ℕ → ℕ → Ledger → Ledger
decay_stale now max_age l = record l { accounts = decay_all now max_age l.accounts }

abbrev pub bond_unit : ℤ
bond_unit = pos 0x1_0000

unfoldable pub standing : Account → ℤ
standing a =
    sub64
      (sub64
        (sub64 (sub64 (quo a.bonded_bytes bond_unit) (mul64 a.audits_failed (pos 250)))
          (mul64 a.bond_fails (pos 250)))
        (mul64 a.false_repairs false_repair_slash))
      (mul64 a.equivocations equivocation_slash)

-- The readers register the node that they are asked about, so they return the ledger too.
unfoldable pub reputation : ℕ → Ledger → ℤ × Ledger
reputation n l = (standing (acct n l), register n l)

unfoldable pub balance : ℕ → Ledger → ℤ × Ledger
balance n l = (Account.balance (acct n l), register n l)

unfoldable pub can_publish : ℕ → Ledger → Bool × Ledger
can_publish n l = (leb_ℤ l.fee (Account.balance (acct n l)), register n l)

pub data Outcome : Type 0 where
  ok insufficient_credit : Outcome

abbrev pub debited : ℤ → Account → Account
debited x a = record a { balance = sub64 a.balance x }

unfoldable pub charge_publish : ℕ → Ledger → Outcome × Ledger
charge_publish n l =
    if ltb_ℤ (Account.balance (acct n l)) l.fee
    then (insufficient_credit, register n l)
    else (ok, modify n (debited l.fee) l)

-- Every registered balance, in registration order. (`l.accounts[n]` is never missing for an `n` of
-- `l.order`; a nil pointer there would panic.)
unfoldable pub balances_of : List ℕ → Map Account → List (Option ℤ)
balances_of [] m = []
balances_of (n ∷ ns) m =
    elim (lookup n m) [ none ↦ none | some a ↦ some (Account.balance a) ] ∷ balances_of ns m

unfoldable pub balances : Ledger → List (Option ℤ)
unfolding balances_of
balances l = balances_of l.order l.accounts
