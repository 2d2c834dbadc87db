-- ===== src/Chain/Latch.antt =====
-- The maturity latch (`everMature`) of core/chain/chain.go.
use bitbit.Base.{ℕ, ◌≡◌, true, false, arith, subst, sym}
use bitbit.Chain.Types.{Block, Crypto, ok}
use bitbit.Chain.State.{Chain, launch_anchor}
use bitbit.Chain.Apply.{apply, latch}
use bitbit.Chain.Rules.{append, append_structural, append_genesis}
use bitbit.Chain.Frame.{before_latch-Frame}
use bitbit.Chain.Inversion.{append-ok, append_structural-ok, append_genesis-ok}

-- One more block on a replica: appended by consensus, re-read from disk, or the genesis.
pub data Grows (cr : Crypto) (c c' : Chain) : Type 0 where
  by_commit : (b : Block) → append cr c b ≡ ok c' → Grows cr c c'
  by_reload : (b : Block) → append_structural cr c b ≡ ok c' → Grows cr c c'
  by_genesis : (b : Block) → append_genesis cr c b ≡ ok c' → Grows cr c c'

pub grown_by : {cr : Crypto} {c c' : Chain} → Grows cr c c' → (b : Block) × (c' ≡ apply cr b c)
grown_by (by_commit b h) = (b, (append-ok _ _ b h).1)
grown_by (by_reload b h) = (b, (append_structural-ok _ _ b h).1)
grown_by (by_genesis b h) = (b, (append_genesis-ok _ _ b h).1)

-- Any number of blocks.
pub data Extends (cr : Crypto) (c : Chain) : Chain → Type 0 where
  here : Extends cr c c
  next : {d e : Chain} → Extends cr c d → Grows cr d e → Extends cr c e

latch-apply :
    (cr : Crypto) (b : Block) (c : Chain) → c.ever_mature ≡ true → (apply cr b c).ever_mature ≡ true
unfolding apply latch
latch-apply cr b c h = ground (arith, (before_latch-Frame cr b c).same_latch)

latch-Extends :
    (cr : Crypto) (c d : Chain) → c.ever_mature ≡ true → Extends cr c d → d.ever_mature ≡ true
latch-Extends cr c d h here = h
latch-Extends cr c e h (next {d = d} x g) =
    let (b, grown) = grown_by g in
    subst (λ z. Chain.ever_mature z ≡ true) (sym grown)
      (latch-apply cr b d (latch-Extends cr c d h x))

-- Along any growth of one history the latch is one way, and a launch anchor is never re-armed: once
-- it is set, no later block clears it, whichever way the block gets in, and no identity qualifies
-- as a launch anchor any more.
pub latch_one_way :
    (cr : Crypto) (c d : Chain) (id : ℕ)
    → c.ever_mature ≡ true
    → Extends cr c d
    → (d.ever_mature ≡ true) × (launch_anchor id d ≡ false)
unfolding launch_anchor
latch_one_way cr c d id h x = let kept = latch-Extends cr c d h x in (kept, ground arith)
