-- ===== src/Credit/Standing.antt =====
-- What moves standing (`Reputation`), over core/credit/credit.go and core/credit/escrow.go.
use bitbit.Base.{
  ℕ, ◌+◌, ◌-◌, ◌*◌, ◌/◌, ◌^◌, ◌≤◌, ◌<◌, ◌≡◌, refl, ap, ◌∙◌, true, false, arith, Bool-cases, inl,
  inr,
}
use bitbit.Base.Int.{
  ℤ, pos, pos_part, neg_part, ◌≤ℤ◌, quo, mul64, sub64, add64, negsuc, sub_ℕ, mul64-pos,
}
use bitbit.Credit.{
  Account, Ledger, acct, reputation, standing, record_serve, audited, failed_bond, double_signed,
  lied, decayed, is_stale, record_audit, record_bond_challenge, slash_equivocation,
  slash_false_repair, charge_publish, bond_unit, modify,
}
use bitbit.Credit.Escrow.{fund_escrow, record_serve_to_object, pay_bounty, modify_escrow}
use bitbit.Credit.Ops.{
  Op, registers, serves, audits, challenges, equivocates, lies, decays, publishes, funds,
  serves_object, pays, apply,
}
use bitbit.Credit.Accounts.{acct-register, acct-modify, acct-modify_self, acct-decay_stale}

-- The operations of the balance economy: what is served, charged, funded and paid, and an audit
-- that is passed.
abbrev pub IsNeutral : Op → Type 0
IsNeutral (registers n) = Unit
IsNeutral (serves server requester bytes) = Unit
IsNeutral (audits prover passed) = passed ≡ true
IsNeutral (challenges prover root proven passed tick) = ⊥
IsNeutral (equivocates id) = ⊥
IsNeutral (lies id) = ⊥
IsNeutral (decays now max_age) = ⊥
IsNeutral (publishes n) = Unit
IsNeutral (funds root funder amount) = Unit
IsNeutral (serves_object server requester root bytes) = Unit
IsNeutral (pays root repairer amount) = Unit

-- An update that leaves the inputs of `Reputation` alone leaves it alone for everybody.
standing-modify :
    (n k : ℕ) (f : Account → Account) (l : Ledger)
    → standing (f (acct k l)) ≡ standing (acct k l)
    → standing (acct k (modify n f l)) ≡ standing (acct k l)
standing-modify n k f l h = ground (arith, acct-modify n k f l)

acct-modify_escrow : (root k : ℕ) (f : _) (l : Ledger) → acct k (modify_escrow root f l) ≡ acct k l
unfolding acct modify_escrow
acct-modify_escrow root k f l = refl

neutral-standing :
    (op : Op) (k : ℕ) (l : Ledger)
    → IsNeutral op
    → standing (acct k (apply op l)) ≡ standing (acct k l)
unfolding apply record_serve record_audit charge_publish fund_escrow record_serve_to_object
    pay_bounty standing
neutral-standing (registers n) k l h = ground (arith, acct-register n k l)
neutral-standing (serves server requester bytes) k l h = grind (arith, acct-modify)
neutral-standing (audits prover passed) k l h = grind (arith, acct-modify)
neutral-standing (challenges prover root proven passed tick) k l h = absurd h
neutral-standing (equivocates id) k l h = absurd h
neutral-standing (lies id) k l h = absurd h
neutral-standing (decays now max_age) k l h = absurd h
neutral-standing (publishes n) k l h = grind (arith, acct-modify, acct-register)
neutral-standing (funds root funder amount) k l h =
    grind (arith, acct-modify, acct-register, acct-modify_escrow)
neutral-standing (serves_object server requester root bytes) k l h =
    grind (arith, acct-modify, acct-modify_escrow)
neutral-standing (pays root repairer amount) k l h = grind (arith, acct-modify, acct-modify_escrow)

-- The firewall between the two economies: no operation of the balance economy (registering,
-- serving, a passed audit, a publish fee, an escrow deposit, a serve with its skim, a bounty)
-- changes the reputation of any node.
pub balance_firewall :
    (op : Op) (k : ℕ) (l : Ledger)
    → IsNeutral op
    → (reputation k (apply op l)).0 ≡ (reputation k l).0
unfolding reputation
balance_firewall op k l h = neutral-standing op k l h

-- An account whose four counters are below `c` and whose bond is a length. Nothing in `Reputation`
-- overflows while `c` is at most 2²⁰ + 1.
pub record IsModest (c : ℕ) (a : Account) : Type 0 where
  pub bond : neg_part a.bonded_bytes ≡ 0
  pub bond_fits : pos_part a.bonded_bytes < 2 ^ 63
  pub audit_count : (neg_part a.audits_failed ≡ 0) × (pos_part a.audits_failed < c)
  pub fail_count : (neg_part a.bond_fails ≡ 0) × (pos_part a.bond_fails < c)
  pub lie_count : (neg_part a.false_repairs ≡ 0) × (pos_part a.false_repairs < c)
  pub double_sign_count : (neg_part a.equivocations ≡ 0) × (pos_part a.equivocations < c)

-- The penalties of an account, as a plain number.
abbrev pub penalty : ℕ → ℕ → ℕ → ℕ → ℕ
penalty af bf fr eq = 250 * af + 250 * bf + 1_000_000 * fr + 2 ^ 40 * eq

-- `sub_ℕ`, kept shut.
diff : ℕ → ℕ → ℤ
diff a b = sub_ℕ a b

sub64-diff : (a b p : ℕ) → a < 2 ^ 63 → b + p < 2 ^ 63 → sub64 (diff a b) (pos p) ≡ diff a (b + p)
unfolding sub64 diff
sub64-diff a b p h k = ground arith

quo-unit : (b : ℕ) → quo (pos b) bond_unit ≡ diff (b / 2 ^ 16) 0
unfolding quo diff
quo-unit b = ground arith

sub64_steps :
    (b p q r s : ℕ)
    → b < 2 ^ 63
    → p + q + r + s < 2 ^ 63
    → sub64 (sub64 (sub64 (sub64 (diff b 0) (pos p)) (pos q)) (pos r)) (pos s)
      ≡ sub_ℕ b (p + q + r + s)
unfolding diff
sub64_steps b p q r s h k =
    ap (λ z. sub64 (sub64 (sub64 z (pos q)) (pos r)) (pos s)) (sub64-diff b 0 p h (omega arith))
    ∙ ap (λ z. sub64 (sub64 z (pos r)) (pos s)) (sub64-diff b (0 + p) q h (omega arith))
    ∙ ap (λ z. sub64 z (pos s)) (sub64-diff b (0 + p + q) r h (omega arith))
    ∙ sub64-diff b (0 + p + q + r) s h (omega arith)
    ∙ ap (sub_ℕ b) (omega arith)

abbrev pub count_limit : ℕ
count_limit = 2 ^ 20

IsCount : ℤ → Type 0
IsCount z = (neg_part z ≡ 0) × (pos_part z < count_limit + 1)

score :
    (b af bf fr eq : ℤ)
    → neg_part b ≡ 0
    → pos_part b < 2 ^ 63
    → IsCount af
    → IsCount bf
    → IsCount fr
    → IsCount eq
    → sub64
        (sub64
          (sub64 (sub64 (quo b bond_unit) (mul64 af (pos 250))) (mul64 bf (pos 250)))
          (mul64 fr (pos 1_000_000)))
        (mul64 eq (pos 0x100_0000_0000))
      ≡ sub_ℕ
          (pos_part b / 2 ^ 16)
          (penalty (pos_part af) (pos_part bf) (pos_part fr) (pos_part eq))
unfolding IsCount
score (pos b) (pos af) (pos bf) (pos fr) (pos eq) h k haf hbf hfr heq =
    simp
      (
        mul64-pos af 250 (omega arith),
        mul64-pos bf 250 (omega arith),
        mul64-pos fr 1_000_000 (omega arith),
        mul64-pos eq 0x100_0000_0000 (omega arith),
      )
      (rw (quo-unit b) (
        sub64_steps (b / 2 ^ 16) (af * 250) (bf * 250) (fr * 1_000_000) (eq * 0x100_0000_0000)
          (omega arith) (omega arith)
        ∙ ap (sub_ℕ (b / 2 ^ 16)) (omega arith)))
score _ _ _ _ _ h k haf hbf hfr heq = absurd (omega arith)

-- Reputation, without overflow: the bond in units less the penalties.
standing-eq :
    (a : Account)
    → IsModest (count_limit + 1) a
    → standing a
      ≡ sub_ℕ (pos_part a.bonded_bytes / 2 ^ 16) (
          penalty
            (pos_part a.audits_failed)
            (pos_part a.bond_fails)
            (pos_part a.false_repairs)
            (pos_part a.equivocations))
unfolding standing IsCount
standing-eq a h =
    score a.bonded_bytes a.audits_failed a.bond_fails a.false_repairs a.equivocations h.bond
      h.bond_fits h.audit_count h.fail_count h.lie_count h.double_sign_count

-- Less bond and more offences.
record IsWorse (a b : Account) : Type 0 where
  modest : IsModest (count_limit + 1) b
  bond : pos_part b.bonded_bytes ≤ pos_part a.bonded_bytes
  audits_failed : pos_part a.audits_failed ≤ pos_part b.audits_failed
  bond_fails : pos_part a.bond_fails ≤ pos_part b.bond_fails
  false_repairs : pos_part a.false_repairs ≤ pos_part b.false_repairs
  equivocations : pos_part a.equivocations ≤ pos_part b.equivocations

diff-mono : (x y u v : ℕ) → y ≤ x → u ≤ v → sub_ℕ y v ≤ℤ sub_ℕ x u
diff-mono x y u v h k = ground arith

standing-mono : (a b : Account) → IsModest count_limit a → IsWorse a b → standing b ≤ℤ standing a
standing-mono a b h w =
    rw (standing-eq a (omega arith), standing-eq b w.modest)
      (diff-mono (pos_part a.bonded_bytes / 2 ^ 16) (pos_part b.bonded_bytes / 2 ^ 16) _ _
        (omega arith) (omega arith))

add64-one :
    (z : ℤ)
    → neg_part z ≡ 0
    → pos_part z < 2 ^ 62
    → (neg_part (add64 z (pos 1)) ≡ 0) × (pos_part (add64 z (pos 1)) ≡ pos_part z + 1)
unfolding add64
add64-one (pos n) h k = ground arith
add64-one (negsuc n) h k = absurd (omega arith)

-- The operations that can raise a reputation: a bond challenge that is passed, and no other.
abbrev pub IsMint : Op → Type 0
IsMint (challenges prover root proven passed tick) = passed ≡ true
IsMint (registers n) = ⊥
IsMint (serves server requester bytes) = ⊥
IsMint (audits prover passed) = ⊥
IsMint (equivocates id) = ⊥
IsMint (lies id) = ⊥
IsMint (decays now max_age) = ⊥
IsMint (publishes n) = ⊥
IsMint (funds root funder amount) = ⊥
IsMint (serves_object server requester root bytes) = ⊥
IsMint (pays root repairer amount) = ⊥

-- What `modify` does to one account, for a step that is known to lower standing.
modify-lowers :
    (n k : ℕ) (f : Account → Account) (l : Ledger)
    → standing (f (acct k l)) ≤ℤ standing (acct k l)
    → standing (acct k (modify n f l)) ≤ℤ standing (acct k l)
modify-lowers n k f l h = ground (arith, acct-modify n k f l)

neutral-lowers :
    (op : Op) (k : ℕ) (l : Ledger)
    → IsNeutral op
    → standing (acct k (apply op l)) ≤ℤ standing (acct k l)
neutral-lowers op k l h = rw (neutral-standing op k l h) (omega arith)

module _ (a : Account) (h : IsModest count_limit a) where
  failed_audit-IsWorse : (reward slash : ℤ) → IsWorse a (audited reward slash false a)
  failed_audit-IsWorse reward slash =
      omega (arith, add64-one a.audits_failed (omega arith) (omega arith))

  failed_bond-IsWorse : (tick : ℕ) → IsWorse a (failed_bond tick a)
  failed_bond-IsWorse tick = omega (arith, add64-one a.bond_fails (omega arith) (omega arith))

  double_signed-IsWorse : IsWorse a (double_signed a)
  double_signed-IsWorse = omega (arith, add64-one a.equivocations (omega arith) (omega arith))

  lied-IsWorse : IsWorse a (lied a)
  lied-IsWorse = omega (arith, add64-one a.false_repairs (omega arith) (omega arith))

  decayed-IsWorse : (now max_age : ℕ) → IsWorse a (decayed now max_age a)
  decayed-IsWorse now max_age = elim (Bool-cases (is_stale now max_age a)) [
    | inl e ↦ rw e (omega arith)
    | inr e ↦ rw e (omega arith)
  ]

offence-lowers :
    (op : Op) (k : ℕ) (l : Ledger)
    → ¬ IsMint op
    → IsModest count_limit (acct k l)
    → standing (acct k (apply op l)) ≤ℤ standing (acct k l)
unfolding apply record_audit record_bond_challenge slash_equivocation slash_false_repair
offence-lowers (registers n) k l m h = neutral-lowers (registers n) k l tt
offence-lowers (serves s r b) k l m h = neutral-lowers (serves s r b) k l tt
offence-lowers (audits n true) k l m h = neutral-lowers (audits n true) k l refl
offence-lowers (audits n false) k l m h =
    modify-lowers n k _ l (
      standing-mono (acct k l) _ h (failed_audit-IsWorse (acct k l) h l.audit_reward l.audit_slash))
offence-lowers (challenges n r b true t) k l m h = absurd (m refl)
offence-lowers (challenges n r b false t) k l m h =
    modify-lowers n k _ l (standing-mono (acct k l) _ h (failed_bond-IsWorse (acct k l) h t))
offence-lowers (equivocates n) k l m h =
    modify-lowers n k _ l (standing-mono (acct k l) _ h (double_signed-IsWorse (acct k l) h))
offence-lowers (lies n) k l m h =
    modify-lowers n k _ l (standing-mono (acct k l) _ h (lied-IsWorse (acct k l) h))
offence-lowers (decays now age) k l m h =
    rw (acct-decay_stale now age k l)
      (standing-mono (acct k l) _ h (decayed-IsWorse (acct k l) h now age))
offence-lowers (publishes n) k l m h = neutral-lowers (publishes n) k l tt
offence-lowers (funds r n x) k l m h = neutral-lowers (funds r n x) k l tt
offence-lowers (serves_object s r o b) k l m h = neutral-lowers (serves_object s r o b) k l tt
offence-lowers (pays r n x) k l m h = neutral-lowers (pays r n x) k l tt

-- Standing has one source: no operation but a passed bond challenge raises the reputation of any
-- node, as long as that node's four counters are below 2²⁰ and its bond is not negative.
pub reputation_one_source :
    (op : Op) (k : ℕ) (l : Ledger)
    → ¬ IsMint op
    → IsModest count_limit (acct k l)
    → (reputation k (apply op l)).0 ≤ℤ (reputation k l).0
unfolding reputation
reputation_one_source op k l m h = offence-lowers op k l m h

deep-diff : (p : ℕ) → 2 ^ 40 ≤ p → sub_ℕ (0 / 2 ^ 16) p ≤ℤ negsuc (2 ^ 40 - 1)
deep-diff p h = ground arith

double_signed-standing :
    (a : Account) → IsModest count_limit a → standing (double_signed a) ≤ℤ negsuc (2 ^ 40 - 1)
double_signed-standing a h =
    rw (standing-eq (double_signed a) (double_signed-IsWorse a h).modest)
      (deep-diff _ (omega (arith, add64-one a.equivocations (omega arith) (omega arith))))

-- A proven double-sign leaves a reputation of -2⁴⁰ or less, whatever bond stood before, if the
-- four counters are below 2²⁰.
pub slash_equivocation_buries :
    (id : ℕ) (l : Ledger)
    → IsModest count_limit (acct id l)
    → (reputation id (slash_equivocation id l)).0 ≤ℤ negsuc (2 ^ 40 - 1)
unfolding reputation slash_equivocation
slash_equivocation_buries id l h =
    rw (acct-modify_self id double_signed l) (double_signed-standing (acct id l) h)
