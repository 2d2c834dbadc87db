-- ===== src/Chain/Linked.antt =====
-- The links of the history: heights and parent hashes of the blocks in core/chain/chain.go.
use bitbit.Base.{ℕ, ◌+◌, ◌%◌, ◌^◌, ◌≡◌, sym, subst, true, List, [], ◌∷◌, ◌++◌, arith}
use bitbit.Chain.Types.{Block, body, Crypto}
use bitbit.Chain.State.{Chain, hash, head, head_of}
use bitbit.Chain.Apply.{apply}
use bitbit.Chain.Rules.{is_empty}
use bitbit.Chain.Frame.{apply-blocks}
use bitbit.Chain.Inversion.{
  append-ok, append_structural-ok, append_genesis-ok, commit-ok, structural-ok, genesis-ok,
  ParentOk,
}
use bitbit.Chain.Latch.{Grows, by_commit, by_reload, by_genesis, Extends, here, next}

module _ (cr : Crypto) where
  -- Each block carries the next height (a uint64) and the hash of the block before it.
  abbrev pub IsLinkedFrom : ℕ → ℕ → List Block → Type 0
  IsLinkedFrom prev height [] = Unit
  IsLinkedFrom prev height (b ∷ bs) =
      ((body b).height ≡ height)
      × ((body b).prev ≡ prev)
      × IsLinkedFrom (hash cr b) ((height + 1) % 2 ^ 64) bs

  abbrev pub IsLinked : List Block → Type 0
  IsLinked = IsLinkedFrom 0 0

  linked-snoc :
      (prev height : ℕ) (x : Block) (bs : List Block) (b : Block)
      → IsLinkedFrom prev height (x ∷ bs)
      → (body b).height ≡ (head_of cr (x ∷ bs)).1
      → (body b).prev ≡ (head_of cr (x ∷ bs)).0
      → IsLinkedFrom prev height ((x ∷ bs) ++ b ∷ [])
  unfolding head_of
  linked-snoc prev height x [] b h e f = ground arith
  linked-snoc prev height x (y ∷ bs) b h e f =
      (h.0, h.1, linked-snoc (hash cr x) ((height + 1) % 2 ^ 64) y bs b h.2 e f)

  IsLinked-push :
      (bs : List Block) (b : Block)
      → IsLinked bs
      → (body b).height ≡ (head_of cr bs).1
      → (body b).prev ≡ (head_of cr bs).0
      → IsLinked (bs ++ b ∷ [])
  unfolding head_of
  IsLinked-push [] b h e f = (e, f, tt)
  IsLinked-push (x ∷ bs) b h e f = linked-snoc 0 0 x bs b h e f

  IsLinked-apply :
      (c : Chain) (b : Block) → IsLinked c.blocks → ParentOk cr c b → IsLinked (apply cr b c).blocks
  unfolding head
  IsLinked-apply c b h p =
      rw (apply-blocks cr b c)
        (IsLinked-push c.blocks b h (ground (arith, p.extends)) (ground (arith, p.extends)))

  IsLinked-genesis :
      (bs : List Block) (b : Block)
      → is_empty bs ≡ true
      → (body b).height ≡ 0
      → (body b).prev ≡ 0
      → IsLinked (bs ++ b ∷ [])
  IsLinked-genesis [] b e h p = (h, p, tt)
  IsLinked-genesis (x ∷ bs) b e h p = absurd (cc)

  IsLinked-Grows : (c d : Chain) → IsLinked c.blocks → Grows cr c d → IsLinked d.blocks
  IsLinked-Grows c d h (by_commit b g) =
      let (v, e) = append-ok cr c b g in
      subst (λ z. IsLinked (Chain.blocks z)) (sym e)
        (IsLinked-apply c b h (commit-ok cr c b v).proposal.parent)
  IsLinked-Grows c d h (by_reload b g) =
      let (v, e) = append_structural-ok cr c b g in
      subst (λ z. IsLinked (Chain.blocks z)) (sym e)
        (IsLinked-apply c b h (structural-ok cr c b v).parent)
  IsLinked-Grows c d h (by_genesis b g) =
      let (v, e) = append_genesis-ok cr c b g in
      let ok_g = genesis-ok cr c b v in
      subst (λ z. IsLinked (Chain.blocks z)) (sym e)
        (rw (apply-blocks cr b c) (
          IsLinked-genesis c.blocks b ok_g.first (ground (arith, ok_g.place))
            (ground (arith, ok_g.place))))

  -- From an empty replica on, however blocks get in, the blocks form one chain: the first has height
  -- 0 and the zero parent, and each further one the next height and its predecessor's hash.
  pub Extends-IsLinked : (c d : Chain) → c.blocks ≡ [] → Extends cr c d → IsLinked d.blocks
  Extends-IsLinked c d e here = rw e tt
  Extends-IsLinked c d e (next {d = m} x g) = IsLinked-Grows m _ (Extends-IsLinked c m e x) g
