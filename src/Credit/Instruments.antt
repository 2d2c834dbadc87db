-- ===== src/Credit/Instruments.antt =====
-- core/credit/instruments.go: how long a reserve lasts. `G` is a float and is left out.
use bitbit.Base.{ℕ, ◌*◌, ◌/◌, ◌^◌, Bool, true, false, ltb, if◌then◌else◌}
use bitbit.Base.Int.{ℤ, pos, pos_part, quo, leb_ℤ}
use bitbit.Credit.{ObjectEscrow}

unfoldable pub cost_per_repair : ObjectEscrow → ℤ
cost_per_repair s = if leb_ℤ s.repairs (pos 0) then pos 0 else quo s.paid s.repairs

-- Behind the guards all three numbers are positive, and `big.Int` has no bound.
abbrev big_quotient : ℤ → ℤ → ℤ → ℕ
big_quotient balance elapsed paid = pos_part elapsed * pos_part balance / pos_part paid

unfoldable pub horizon : ObjectEscrow → ℤ → ℤ × Bool
horizon s elapsed =
    if leb_ℤ s.paid (pos 0)
    then (pos 0, false)
    else if leb_ℤ elapsed (pos 0)
    then (pos 0, false)
    else if leb_ℤ s.balance (pos 0)
    then (pos 0, true)
    else (let r = big_quotient s.balance elapsed s.paid in
        if ltb r (2 ^ 63) then (pos r, true) else (pos 0x7fff_ffff_ffff_ffff, true))
