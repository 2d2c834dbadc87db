-- ===== src/Registry/Charging.antt =====
-- What a publish through the credit gate of core/registry/gated.go costs.
use bitbit.Base.{
  ℕ, ◌≡◌, ◌≢◌, refl, sym, ap, ◌∙◌, subst, true, false, ◌⊎◌, none, some, [], ◌∷◌, ◌++◌, ◌==◌,
  if◌then◌else◌, arith, ==_refl, Bool-cases, Option-cases, inl, inr,
}
use bitbit.Base.Int.{ℤ, sub64, leb_ℤ, ltb_ℤ}
use bitbit.Chain.Types.{Entry}
use bitbit.Credit.{Ledger, Account, acct, register, can_publish, charge_publish, modify, debited}
use bitbit.Credit
use bitbit.Credit.Accounts.{acct-register, acct-modify}
use bitbit.Registry.Log.{
  Log, Reply, dup_publish, insufficient_credit, publisher_required, lookup_entry, same_content,
}
use bitbit.Registry.Log
use bitbit.Registry.Gated.{Gated, publish}
use bitbit.Registry.Refinement.{IsIndexed, find, found, publish-known, publish-new}

-- Nothing was bought: the log stands, and so does every account.
pub record Unchanged (g g' : Gated) : Type 0 where
  pub log : g'.log.entries ≡ g.log.entries
  pub accounts : (k : ℕ) → acct k g'.ledger ≡ acct k g.ledger

abbrev balance_of : ℕ → Gated → ℤ
balance_of n g = Account.balance (acct n g.ledger)

-- The entry is new and its publisher paid the fee.
pub record Charged (e : Entry) (g g' : Gated) (reply : Reply) : Type 0 where
  pub answer : reply ≡ Log.ok
  pub unknown : find e.root g.log.entries ≡ none
  pub affordable : leb_ℤ g.ledger.fee (balance_of e.publisher g) ≡ true
  pub log : g'.log.entries ≡ g.log.entries ++ e ∷ []
  pub fee : balance_of e.publisher g' ≡ sub64 (balance_of e.publisher g) g.ledger.fee
  pub others : (k : ℕ) → k ≢ e.publisher → acct k g'.ledger ≡ acct k g.ledger

-- The answers that leave everything as it was, and when they are given.
abbrev pub Refused : Entry → Gated → Reply → Type 0
Refused e g Log.ok =
    (held : Entry) × (find e.root g.log.entries ≡ some held) × (same_content held e ≡ true)
Refused e g dup_publish =
    (held : Entry) × (find e.root g.log.entries ≡ some held) × (same_content held e ≡ false)
Refused e g insufficient_credit =
    (find e.root g.log.entries ≡ none) × (leb_ℤ g.ledger.fee (balance_of e.publisher g) ≡ false)
Refused e g publisher_required = e.publisher ≡ 0
Refused e g Log.panicked = ⊥

free :
    (e held : Entry) (g : Gated) (reply : Reply)
    → (e.publisher == 0) ≡ false
    → lookup_entry e.root g.log ≡ Log.holds held
    → Log.publish e g.log ≡ (g.log, reply)
    → publish e g ≡ (g, reply)
unfolding publish
free e held g reply z h step = rw (publish, z, h, step) refl

poor :
    (e : Entry) (g : Gated)
    → (e.publisher == 0) ≡ false
    → lookup_entry e.root g.log ≡ Log.missing
    → leb_ℤ g.ledger.fee (balance_of e.publisher g) ≡ false
    → publish e g ≡ (record g { ledger = register e.publisher g.ledger }, insufficient_credit)
unfolding can_publish publish
poor e g z h short = rw (publish, z, h, short) refl

register-fee : (n : ℕ) (l : Ledger) → (register n l).fee ≡ l.fee
unfolding register
register-fee n l = ground arith

charge-ok :
    (n : ℕ) (l : Ledger)
    → leb_ℤ l.fee (Account.balance (acct n l)) ≡ true
    → charge_publish n (register n l) ≡ (Credit.ok, modify n (debited l.fee) (register n l))
unfolding charge_publish
charge-ok n l has =
    let enough : ltb_ℤ (Account.balance (acct n l)) l.fee ≡ false = ground (arith, has) in
    rw (charge_publish, acct-register n n l, register-fee n l, enough) refl

bought :
    (e : Entry) (g : Gated) (l' : Log)
    → (e.publisher == 0) ≡ false
    → lookup_entry e.root g.log ≡ Log.missing
    → leb_ℤ g.ledger.fee (balance_of e.publisher g) ≡ true
    → Log.publish e g.log ≡ (l', Log.ok)
    → publish e g ≡ (
      record {
        log = l';
        ledger = modify e.publisher (debited g.ledger.fee) (register e.publisher g.ledger);
      },
      Log.ok,
    )
unfolding can_publish publish
bought e g l' z h has step = rw (publish, z, h, has, step, charge-ok e.publisher g.ledger has) refl

-- What may come of a publish.
abbrev pub Settled : Entry → Gated → Gated × Reply → Type 0
Settled e g (g', reply) = Charged e g g' reply ⊎ (Unchanged g g' × Refused e g reply)

Settled-known :
    (e held : Entry) (g : Gated)
    → IsIndexed g.log
    → (e.publisher == 0) ≡ false
    → find e.root g.log.entries ≡ some held
    → Settled e g (publish e g)
Settled-known e held g ix z known = elim (Bool-cases (same_content held e)) [
  | inl c ↦
      let step : Log.publish e g.log ≡ (g.log, Log.ok) =
        publish-known e held g.log ix known ∙ rw c refl in
      subst (λ r. Settled e g r) (sym (free e held g _ z (ix e.root ∙ ap found known) step))
        (inr (record { log = refl; accounts = λ k. refl }, (held, known, c)))
  | inr c ↦
      let step : Log.publish e g.log ≡ (g.log, dup_publish) =
        publish-known e held g.log ix known ∙ rw c refl in
      subst (λ r. Settled e g r) (sym (free e held g _ z (ix e.root ∙ ap found known) step))
        (inr (record { log = refl; accounts = λ k. refl }, (held, known, c)))
]

Settled-new :
    (e : Entry) (g : Gated)
    → IsIndexed g.log
    → (e.publisher == 0) ≡ false
    → find e.root g.log.entries ≡ none
    → Settled e g (publish e g)
Settled-new e g ix z unknown =
    let n = e.publisher in
    let missing_index = ix e.root ∙ ap found unknown in
    elim (Bool-cases (leb_ℤ g.ledger.fee (balance_of n g))) [
      | inl has ↦
          let debit = debited g.ledger.fee in
          let after : (k : ℕ)
              → acct k (modify n debit (register n g.ledger))
                ≡ (if k == n then debit (acct k g.ledger) else acct k g.ledger) =
            λ k.
              acct-modify n k debit (register n g.ledger)
              ∙ ap (λ a. if k == n then debit a else a) (acct-register n k g.ledger) in
          let own : acct n (modify n debit (register n g.ledger)) ≡ debit (acct n g.ledger) =
            after n ∙ rw (==_refl n) refl in
          subst (λ r. Settled e g r)
            (sym (bought e g _ z missing_index has (publish-new e g.log ix unknown)))
            (inl (record {
              answer = refl;
              unknown = unknown;
              affordable = has;
              log = refl;
              fee = ap Account.balance own;
              others = λ k other.
                  let e' : (k == n) ≡ false = ground (arith, other) in after k ∙ rw e' refl;
            }))
      | inr short ↦
          subst (λ r. Settled e g r) (sym (poor e g z missing_index short))
            (inr
              (record { log = refl; accounts = λ k. acct-register n k g.ledger }, (unknown, short)))
    ]

-- Every publish through the gate either appends a new entry and debits its publisher, who had the
-- fee, by exactly that fee, or leaves the log and all accounts as they were; then the answer tells
-- why: the same content is published already (no error), the root is taken by other content, the
-- publisher lacks the fee, or there is no publisher. Never is an index out of range. The index of the
-- log must agree with its entries, as it does from the start.
pub gated_publish : (e : Entry) (g : Gated) → IsIndexed g.log → Settled e g (publish e g)
unfolding publish
gated_publish e g ix = elim (Bool-cases (e.publisher == 0)) [
  | inl z ↦
      let anonymous : publish e g ≡ (g, publisher_required) = rw (publish, z) refl in
      subst (λ r. Settled e g r) (sym anonymous)
        (inr (record { log = refl; accounts = λ k. refl }, ground (arith, z)))
  | inr z ↦ elim (Option-cases (find e.root g.log.entries)) [
    | inl unknown ↦ Settled-new e g ix z unknown
    | inr (held, known) ↦ Settled-known e held g ix z known
  ]
]
