-- ===== src/Credit/Reserves.antt =====
-- The durability reserves of core/credit/escrow.go: where credit goes, and what a bounty pays.
use bitbit.Base.{
  ℕ, ◌+◌, ◌*◌, ◌^◌, ◌≤◌, ◌<◌, ◌≡◌, ◌⊎◌, refl, ap, ◌∙◌, false, some, [], ◌∷◌, if◌then◌else◌, arith,
  min, ◌-◌,
}
use bitbit.Base.Int.{
  ℤ, pos, negsuc, InRange, ◌≤ℤ◌, ◌+ℤ◌, ◌-ℤ◌, int_laws, add64, sub64, add64-eq, sub64-eq, mul64,
  leb_ℤ, ltb_ℤ, mul64-pos, add64-pos,
}
use bitbit.Base.Maps.{Map, lookup, insert, lookup-insert, get_or}
use bitbit.Credit.{Account, Ledger, ObjectEscrow, ok, acct, modify}
use bitbit.Credit.Escrow.{
  fund_escrow, pay_bounty, modify_escrow, escrow_for, deposited, withdrawn, spend, earn, payable,
  bounty_for, empty_escrow, lost_shards,
}
use bitbit.Credit.Accounts.{acct-modify_self, modify-accounts, modify-escrow}

-- All credit in the balances of a list of accounts, and in a list of reserves; exact sums.
abbrev pub total_balance : Map Account → ℤ
total_balance [] = pos 0
total_balance ((n, a) ∷ m) = Account.balance a +ℤ total_balance m

abbrev pub total_reserve : Map ObjectEscrow → ℤ
total_reserve [] = pos 0
total_reserve ((n, e) ∷ m) = ObjectEscrow.balance e +ℤ total_reserve m

unfoldable pub wealth : Ledger → ℤ
wealth l = total_balance l.accounts +ℤ total_reserve l.escrow

total_balance-insert :
    (k : ℕ) (a b : Account) (m : Map Account)
    → lookup k m ≡ some a
    → total_balance (insert k b m) +ℤ Account.balance a ≡ total_balance m +ℤ Account.balance b
unfolding lookup insert
total_balance-insert k a b [] h = cc
total_balance-insert k a b ((j, c) ∷ m) h = grind (int_laws, total_balance-insert k a b m)

total_reserve-insert :
    (k : ℕ) (e : ObjectEscrow) (m : Map ObjectEscrow)
    → total_reserve (insert k e m) +ℤ ObjectEscrow.balance (get_or (lookup k m) empty_escrow)
      ≡ total_reserve m +ℤ ObjectEscrow.balance e
unfolding lookup insert
total_reserve-insert k e [] = omega int_laws
total_reserve-insert k e ((j, c) ∷ m) = grind (int_laws, total_reserve-insert k e m)

modify_escrow-wealth :
    (root : ℕ) (f : ObjectEscrow → ObjectEscrow) (l : Ledger)
    → wealth (modify_escrow root f l) +ℤ ObjectEscrow.balance (escrow_for root l)
      ≡ wealth l +ℤ ObjectEscrow.balance (f (escrow_for root l))
unfolding wealth modify_escrow escrow_for
modify_escrow-wealth root f l =
    grind (int_laws, total_reserve-insert root (f (escrow_for root l)) l.escrow)

modify-wealth :
    (n : ℕ) (f : Account → Account) (a : Account) (l : Ledger)
    → lookup n l.accounts ≡ some a
    → wealth (modify n f l) +ℤ Account.balance a ≡ wealth l +ℤ Account.balance (f a)
unfolding wealth
modify-wealth n f a l h =
    rw (modify-accounts n f l a h, modify-escrow n f l)
      (grind (int_laws, total_balance-insert n a (f a) l.accounts h))

-- A positive amount that fits the balance leaves it exactly.
sub64-exact : (b x : ℤ) → InRange b → pos 1 ≤ℤ x → x ≤ℤ b → sub64 b x ≡ b -ℤ x
unfolding ◌-ℤ◌
sub64-exact b x r p h = sub64-eq b x (ground arith)

acct-found : (n : ℕ) (a : Account) (l : Ledger) → lookup n l.accounts ≡ some a → acct n l ≡ a
unfolding acct
acct-found n a l h = rw h

escrow_for-modify_escrow :
    (root : ℕ) (f : ObjectEscrow → ObjectEscrow) (l : Ledger)
    → escrow_for root (modify_escrow root f l) ≡ f (escrow_for root l)
unfolding escrow_for modify_escrow
escrow_for-modify_escrow root f l =
    grind (arith, lookup-insert root root (f (escrow_for root l)) l.escrow)

escrow_for-modify :
    (root n : ℕ) (f : Account → Account) (l : Ledger)
    → escrow_for root (modify n f l) ≡ escrow_for root l
unfolding escrow_for
escrow_for-modify root n f l = rw (modify-escrow n f l)

acct-modify_escrow :
    (root n : ℕ) (f : ObjectEscrow → ObjectEscrow) (l : Ledger)
    → acct n (modify_escrow root f l) ≡ acct n l
unfolding acct modify_escrow
acct-modify_escrow root n f l = refl

fund_escrow-eq :
    (root funder : ℕ) (amount : ℤ) (l : Ledger)
    → pos 1 ≤ℤ amount
    → amount ≤ℤ Account.balance (acct funder l)
    → fund_escrow root funder amount l
      ≡ (ok, modify_escrow root (deposited amount) (modify funder (spend amount) l))
unfolding fund_escrow
fund_escrow-eq root funder amount l h k = ground arith

-- Out of one place and into another leaves the sum.
two_moves : (w₀ w₁ w₂ e x b : ℤ) → w₁ +ℤ b ≡ w₀ +ℤ (b -ℤ x) → w₂ +ℤ e ≡ w₁ +ℤ (e +ℤ x) → w₂ ≡ w₀
two_moves w₀ w₁ w₂ e x b h k = grind int_laws

-- Prepaying a reserve moves credit and makes none: where the funder has an account with the
-- amount on it, and the reserve does not overflow, the call succeeds, the funder's balance falls by
-- the amount, the reserve rises by it, and all balances and reserves together hold what they held.
pub fund_escrow_conserves :
    (root funder : ℕ) (amount : ℤ) (a : Account) (l : Ledger)
    → lookup funder l.accounts ≡ some a
    → InRange a.balance
    → pos 1 ≤ℤ amount
    → amount ≤ℤ a.balance
    → InRange (ObjectEscrow.balance (escrow_for root l) +ℤ amount)
    → let (r, l') = fund_escrow root funder amount l in
      (r ≡ ok)
      × (Account.balance (acct funder l') ≡ a.balance -ℤ amount)
      × (ObjectEscrow.balance (escrow_for root l')
          ≡ ObjectEscrow.balance (escrow_for root l) +ℤ amount)
      × (wealth l' ≡ wealth l)
fund_escrow_conserves root funder amount a l found range positive covered fits =
    let e = escrow_for root l in
    let paid = modify funder (spend amount) l in
    let same = acct-found funder a l found in
    rw (fund_escrow-eq root funder amount l positive (rw same covered)) (
      refl,
      rw
          (
            acct-modify_escrow root funder (deposited amount) paid,
            acct-modify_self funder (spend amount) l,
            same,
          )
          (sub64-exact a.balance amount range positive covered),
      rw
          (
            escrow_for-modify_escrow root (deposited amount) paid,
            escrow_for-modify root funder (spend amount) l,
          )
          (add64-eq e.balance amount fits),
      two_moves _ (wealth paid) _ e.balance amount a.balance
          (rw (← sub64-exact a.balance amount range positive covered)
            (modify-wealth funder (spend amount) a l found))
          (rw (← add64-eq e.balance amount fits, ← escrow_for-modify root funder (spend amount) l)
            (modify_escrow-wealth root (deposited amount) paid)),
    )

-- What a bounty pays: the amount asked for, or all of a reserve that holds less.
payable-bounds :
    (amount available : ℤ)
    → pos 1 ≤ℤ amount
    → pos 1 ≤ℤ available
    → (pos 1 ≤ℤ payable amount available)
      × (payable amount available ≤ℤ available)
      × (payable amount available ≤ℤ amount)
      × ((payable amount available ≡ amount) ⊎ (payable amount available ≡ available))
unfolding payable
payable-bounds amount available h k = ground arith

positive-not_le : (x : ℤ) → pos 1 ≤ℤ x → leb_ℤ x (pos 0) ≡ false
positive-not_le x h = ground arith

pay_bounty-eq :
    (root repairer : ℕ) (amount : ℤ) (e : ObjectEscrow) (l : Ledger)
    → lookup root l.escrow ≡ some e
    → pos 1 ≤ℤ amount
    → pos 1 ≤ℤ e.balance
    → pay_bounty root repairer amount l ≡ (
      payable amount e.balance,
      modify repairer
          (earn (payable amount e.balance))
          (modify_escrow root (withdrawn (payable amount e.balance)) l),
    )
unfolding pay_bounty
pay_bounty-eq root repairer amount e l found h k =
    rw (positive-not_le amount h, found, positive-not_le e.balance k)

escrow_for-found :
    (root : ℕ) (e : ObjectEscrow) (l : Ledger)
    → lookup root l.escrow ≡ some e
    → escrow_for root l ≡ e
unfolding escrow_for
escrow_for-found root e l h = rw h

escrow_for-paid :
    (root repairer : ℕ) (x : ℤ) {e : ObjectEscrow} (l : Ledger)
    → escrow_for root l ≡ e
    → ObjectEscrow.balance
        (escrow_for root (modify repairer (earn x) (modify_escrow root (withdrawn x) l)))
      ≡ sub64 e.balance x
escrow_for-paid root repairer x l h = rw (
  escrow_for-modify root repairer (earn x) (modify_escrow root (withdrawn x) l),
  escrow_for-modify_escrow root (withdrawn x) l,
  h,
)

still-found :
    (root n : ℕ) (f : ObjectEscrow → ObjectEscrow) (l : Ledger) {a : Account}
    → lookup n l.accounts ≡ some a
    → lookup n (modify_escrow root f l).accounts ≡ some a
unfolding modify_escrow
still-found root n f l h = h

-- Between two sums that fit lies every sum with something smaller.
fits_below : (a b x : ℤ) → InRange a → InRange (a +ℤ b) → pos 1 ≤ℤ x → x ≤ℤ b → InRange (a +ℤ x)
unfolding ◌+ℤ◌
fits_below a b (negsuc x) low high positive below = absurd (ground arith)
fits_below a (negsuc b) (pos x) low high positive below = absurd (ground arith)
fits_below (pos a) (pos b) (pos x) low high positive below = ground arith
fits_below (negsuc a) (pos b) (pos x) low high positive below = ground arith

sub-nonneg : (b x : ℤ) → x ≤ℤ b → pos 0 ≤ℤ b -ℤ x
sub-nonneg b x h = omega int_laws

-- A bounty moves credit and makes none: on a reserve that holds something, for a registered
-- repairer whose balance and the reserve together do not overflow, it pays the smaller of the amount and the reserve, the
-- reserve falls and the repairer's balance rises by what was paid, and all balances and reserves
-- together hold what they held.
pub pay_bounty_conserves :
    (root repairer : ℕ) (amount : ℤ) (a : Account) (e : ObjectEscrow) (l : Ledger)
    → lookup root l.escrow ≡ some e
    → lookup repairer l.accounts ≡ some a
    → InRange e.balance
    → pos 1 ≤ℤ amount
    → pos 1 ≤ℤ e.balance
    → InRange a.balance
    → InRange (a.balance +ℤ e.balance)
    → let (paid, l') = pay_bounty root repairer amount l in
      (paid ≤ℤ amount)
      × (paid ≤ℤ e.balance)
      × ((paid ≡ amount) ⊎ (paid ≡ e.balance))
      × (Account.balance (acct repairer l') ≡ a.balance +ℤ paid)
      × (ObjectEscrow.balance (escrow_for root l') ≡ e.balance -ℤ paid)
      × (pos 0 ≤ℤ ObjectEscrow.balance (escrow_for root l'))
      × (wealth l' ≡ wealth l)
pay_bounty_conserves root repairer amount a e l reserve found range positive holds now most =
    let x = payable amount e.balance in
    let less = modify_escrow root (withdrawn x) l in
    let bounds = payable-bounds amount e.balance positive holds in
    let held = escrow_for-found root e l reserve in
    let left = escrow_for-paid root repairer x l held in
    let exact = sub64-exact e.balance x range bounds.0 bounds.1 in
    let fits = fits_below a.balance e.balance x now most bounds.0 bounds.1 in
    rw (pay_bounty-eq root repairer amount e l reserve positive holds) (
      bounds.2,
      bounds.1,
      bounds.3,
      rw
          (
            acct-modify_self repairer (earn x) less,
            acct-modify_escrow root repairer (withdrawn x) l,
            acct-found repairer a l found,
          )
          (add64-eq a.balance x fits),
      rw left exact,
      rw (left, exact) (sub-nonneg e.balance x bounds.1),
      two_moves _ (wealth less) _ a.balance x e.balance
          (rw (held, exact) at (modify_escrow-wealth root (withdrawn x) l))
          (rw (← add64-eq a.balance x fits) (
            modify-wealth repairer (earn x) a less
              (still-found root repairer (withdrawn x) l found))),
    )

-- The operands of `BountyFor` within its guards, as numbers.
lost_shards-eq : (n r : ℕ) → n < 2 ^ 62 → r < 2 ^ 62 → lost_shards (pos n) (pos r) ≡ pos (n - r)
unfolding sub64
lost_shards-eq n r h k = ground arith

sub64-pos : (n k : ℕ) → n < 2 ^ 62 → k ≤ n → sub64 (pos n) (pos k) ≡ pos (n - k)
unfolding sub64
sub64-pos n k h le = ground arith

clamp-eq : (m lost : ℕ) → (if ltb_ℤ (pos m) (pos lost) then pos m else pos lost) ≡ pos (min m lost)
clamp-eq m lost = ground arith

multiplier :
    (b m lost : ℕ)
    → m < 2 ^ 62
    → b * (m + 1) < 2 ^ 63
    → mul64 (pos b) (add64 (if ltb_ℤ (pos m) (pos lost) then pos m else pos lost) (pos 1))
      ≡ pos (b * (min m lost + 1))
multiplier b m lost h fits =
    ap (λ z. mul64 (pos b) (add64 z (pos 1))) (clamp-eq m lost)
    ∙ ap (mul64 (pos b)) (add64-pos (min m lost) 1 (omega arith))
    ∙ mul64-pos b (min m lost + 1) (grind (arith, scaled b (min m lost) m (omega arith)))
  where
    scaled : (b x m : ℕ) → x ≤ m → b * (x + 1) ≤ b * (m + 1)
    scaled b x m h = grind arith

-- The bounty for one shard of a stripe of `n` shards, `k` of which rebuild it, is the base times
-- one more than the shards lost, and the factor never exceeds n - k + 1: for a positive base and
-- 0 < k ≤ n, where the largest bounty fits an int64.
pub bounty_for-eq :
    (b k n r : ℕ)
    → 0 < b
    → 0 < k
    → k ≤ n
    → n < 2 ^ 62
    → r < 2 ^ 62
    → b * (n - k + 1) < 2 ^ 63
    → bounty_for (pos b) (pos k) (pos n) (pos r) ≡ pos (b * (min (n - k) (n - r) + 1))
unfolding bounty_for
bounty_for-eq b k n r hb hk le hn hr fits =
    rw (lost_shards-eq n r hn hr, sub64-pos n k hn le)
      (ground (arith, multiplier b (n - k) (n - r)))
