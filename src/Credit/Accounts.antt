-- ===== src/Credit/Accounts.antt =====
-- What a read of one account sees after a write to another, or to itself.
use bitbit.Base.{ℕ, ◌≡◌, refl, [], ◌∷◌, some, ◌==◌, if◌then◌else◌, arith}
use bitbit.Base.Maps.{Map, lookup, insert, lookup-insert, get_or}
use bitbit.Credit.{Account, Ledger, register, acct, modify, fresh, decay_all, decay_stale, decayed}

pub acct-register : (n k : ℕ) (l : Ledger) → acct k (register n l) ≡ acct k l
unfolding acct register
acct-register n k l = ground (arith, lookup-insert n k (fresh l.grant) l.accounts)

pub acct-modify :
    (n k : ℕ) (f : Account → Account) (l : Ledger)
    → acct k (modify n f l) ≡ (if k == n then f (acct k l) else acct k l)
unfolding acct modify register
acct-modify n k f l = ground (
  arith,
  lookup-insert n k (f (acct n l)) (register n l).accounts,
  lookup-insert n k (f (acct n l)) l.accounts,
  lookup-insert n k (fresh l.grant) l.accounts,
)

pub acct-modify_self :
    (n : ℕ) (f : Account → Account) (l : Ledger) → acct n (modify n f l) ≡ f (acct n l)
acct-modify_self n f l = ground (arith, acct-modify n n f l)

lookup-decay_all :
    (now max_age k : ℕ) (g : Account) (m : Map Account)
    → decayed now max_age g ≡ g
    → get_or (lookup k (decay_all now max_age m)) g ≡ decayed now max_age (get_or (lookup k m) g)
unfolding lookup decay_all
lookup-decay_all now max_age k g [] h = ground arith
lookup-decay_all now max_age k g ((n, a) ∷ m) h =
    ground (arith, lookup-decay_all now max_age k g m h)

pub acct-decay_stale :
    (now max_age k : ℕ) (l : Ledger)
    → acct k (decay_stale now max_age l) ≡ decayed now max_age (acct k l)
unfolding acct decay_stale
acct-decay_stale now max_age k l = lookup-decay_all now max_age k (fresh l.grant) l.accounts refl

-- The settings never change, and neither does the owner map under an update of an account.
pub modify-grant : (n : ℕ) (f : Account → Account) (l : Ledger) → (modify n f l).grant ≡ l.grant
unfolding modify register
modify-grant n f l = ground arith

pub modify-root_owner :
    (n : ℕ) (f : Account → Account) (l : Ledger) → (modify n f l).root_owner ≡ l.root_owner
unfolding modify register
modify-root_owner n f l = ground arith

pub modify-escrow : (n : ℕ) (f : Account → Account) (l : Ledger) → (modify n f l).escrow ≡ l.escrow
unfolding modify register
modify-escrow n f l = ground arith

pub modify-accounts :
    (n : ℕ) (f : Account → Account) (l : Ledger) (a : Account)
    → lookup n l.accounts ≡ some a
    → (modify n f l).accounts ≡ insert n (f a) l.accounts
unfolding modify register acct
modify-accounts n f l a h = rw h
