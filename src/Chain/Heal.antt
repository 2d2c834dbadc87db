-- ===== src/Chain/Heal.antt =====
-- Reconciliation (core/chain/chain.go): what a replica adopts, and two replicas that exchange
-- forks.
use bitbit.Base.{
  ◌≡◌, refl, sym, ap, ◌∙◌, subst, Bool, true, false, List, [], ◌∷◌, ◌++◌, arith, if◌then◌else◌,
}
use mathlib.Core.List.{append-nil, append_assoc}
use bitbit.Base.Int.{◌≤ℤ◌}
use bitbit.Chain.Types.{Block, Crypto, Result, ok, ◌>>=◌}
use bitbit.Chain.State.{Chain}
use bitbit.Chain.Rules.{append, append_genesis}
use bitbit.Chain.Fork.{
  append_all, adopt, blank, replay, admissible, reconcile, heavier, weight, tip,
}
use bitbit.Chain.Frame.{apply-blocks, apply-blank}
use bitbit.Chain.Inversion.{>>=-eq-ok, >>-eq-ok, append-ok, append_genesis-ok}

-- With the same settings, to adopt is to become.
adopt-eq : (c t : Chain) → blank t ≡ blank c → adopt t c ≡ t
unfolding adopt blank
adopt-eq c t h = ground (
  arith,
  ap Chain.cfg h,
  ap Chain.rep h,
  ap Chain.token_quorum h,
  ap Chain.issuer_key h,
  ap Chain.verify_bond h,
)

blank-blank : (c : Chain) → blank (blank c) ≡ blank c
unfolding blank
blank-blank c = refl

ok-injective : {A : Type 0} {x y : A} → Result.ok x ≡ ok y → x ≡ y
ok-injective h = cc

module _ (cr : Crypto) where
  append_all-blank : (bs : List Block) (c t : Chain) → append_all cr c bs ≡ ok t → blank t ≡ blank c
  unfolding append_all
  append_all-blank [] c t h = let e : c ≡ t = cc in ap blank (sym e)
  append_all-blank (b ∷ bs) c t h =
      let (d, first, rest) = >>=-eq-ok (append cr c b) (λ c'. append_all cr c' bs) h in
      let (_, e) = append-ok cr c b first in
      append_all-blank bs d t rest ∙ ap blank e ∙ apply-blank cr b c

  append_all-blocks :
      (bs : List Block) (c t : Chain) → append_all cr c bs ≡ ok t → t.blocks ≡ c.blocks ++ bs
  unfolding append_all
  append_all-blocks [] c t h =
      let e : c ≡ t = cc in ap Chain.blocks (sym e) ∙ sym (append-nil c.blocks)
  append_all-blocks (b ∷ bs) c t h =
      let (d, first, rest) = >>=-eq-ok (append cr c b) (λ c'. append_all cr c' bs) h in
      let (_, e) = append-ok cr c b first in
      append_all-blocks bs d t rest
      ∙ ap (λ z. z ++ bs) (ap Chain.blocks e ∙ apply-blocks cr b c)
      ∙ append_assoc c.blocks (b ∷ []) bs

  blank-blocks : (c : Chain) → (blank c).blocks ≡ []
  unfolding blank
  blank-blocks c = refl

  replay-ok :
      (c t : Chain) (fork : List Block)
      → replay cr c fork ≡ ok t
      → (blank t ≡ blank c) × (t.blocks ≡ fork)
  unfolding replay
  replay-ok c t [] h = absurd (cc)
  replay-ok c t (g ∷ rest) h =
      let (s, first, others) =
        >>=-eq-ok (append_genesis cr (blank c) g) (λ s. append_all cr s rest) h in
      let (_, e) = append_genesis-ok cr (blank c) g first in
      (
        append_all-blank rest s t others ∙ ap blank e ∙ apply-blank cr g (blank c) ∙ blank-blank c,
        append_all-blocks rest s t others
            ∙ ap (λ z. z ++ rest)
                (ap Chain.blocks e
                  ∙ apply-blocks cr g (blank c)
                  ∙ ap (λ z. z ++ g ∷ []) (blank-blocks c)),
      )

  -- A replay reads of the replica only its settings.
  replay-same :
      (a b : Chain) (fork : List Block) → blank a ≡ blank b → replay cr a fork ≡ replay cr b fork
  unfolding replay
  replay-same a b [] h = refl
  replay-same a b (g ∷ rest) h = ap (λ z. append_genesis cr z g >>= λ t. append_all cr t rest) h

-- The outcomes of a reconciliation that is not refused: the fork has been replayed in full from its
-- genesis, and the replica becomes that replay where it wins fork choice against it, and is kept
-- as it was where it does not.
pub reconcile_outcome :
    (cr : Crypto) (c : Chain) (fork : List Block) (adopted : Bool) (c' : Chain)
    → reconcile cr c fork ≡ ok (adopted, c')
    → (t : Chain) × (replay cr c fork ≡ ok t)
      × (t.blocks ≡ fork)
      × (heavier cr t c ≡ adopted)
      × (c' ≡ (if adopted then t else c))
unfolding reconcile
reconcile_outcome cr c fork adopted c' h =
    let (_, inner) = >>-eq-ok (admissible cr c fork) _ h in
    let (t, replayed, last) = >>=-eq-ok (replay cr c fork) _ inner in
    let (settings, blocks) = replay-ok cr c t fork replayed in
    let same = adopt-eq c t settings in
    (t, replayed, blocks, ground (arith, same), ground (arith, same))

picked_weight :
    (cr : Crypto) (c t : Chain) (adopted : Bool)
    → heavier cr t c ≡ adopted
    → weight cr c ≤ℤ weight cr (if adopted then t else c)
unfolding heavier
picked_weight cr c t true h = ground (arith)
picked_weight cr c t false h = ground (arith)

-- Fork choice never goes back: after a reconciliation that is not refused the replica's weight is
-- at least what it was.
pub reconcile_weight :
    (cr : Crypto) (c : Chain) (fork : List Block) (adopted : Bool) (c' : Chain)
    → reconcile cr c fork ≡ ok (adopted, c')
    → weight cr c ≤ℤ weight cr c'
reconcile_weight cr c fork adopted c' h =
    let (t, _, _, wins, e) = reconcile_outcome cr c fork adopted c' h in
    subst (λ z. weight cr c ≤ℤ weight cr z) (sym e) (picked_weight cr c t adopted wins)

-- `heavier` picks one of two chains, unless they have the same tip.
heavier-asym : (cr : Crypto) (a b : Chain) → heavier cr a b ≡ true → heavier cr b a ≡ false
unfolding heavier
heavier-asym cr a b h = ground arith

heavier-tie :
    (cr : Crypto) (a b : Chain)
    → heavier cr a b ≡ false
    → heavier cr b a ≡ false
    → tip cr a.blocks ≡ tip cr b.blocks
unfolding heavier
heavier-tie cr a b h k = ground arith

-- Whichever of two chains each side picks, both end on the same tip.
picked_tip :
    (cr : Crypto) (a b : Chain) (x y : Bool)
    → heavier cr b a ≡ x
    → heavier cr a b ≡ y
    → tip cr (if x then b else a).blocks ≡ tip cr (if y then a else b).blocks
picked_tip cr a b true true h k = let n = heavier-asym cr a b k in absurd (cc)
picked_tip cr a b true false h k = refl
picked_tip cr a b false true h k = refl
picked_tip cr a b false false h k = heavier-tie cr a b k h

-- Two forked replicas heal: where both have the same settings and see the same reputation of every
-- identity, each is what a replay of its own blocks gives, and each reconciles with the other's blocks
-- without being refused, then both end on the same head hash.
pub forks_heal :
    (cr : Crypto) (a b a' b' : Chain) (x y : Bool)
    → blank a ≡ blank b
    → replay cr a a.blocks ≡ ok a
    → replay cr b b.blocks ≡ ok b
    → reconcile cr a b.blocks ≡ ok (x, a')
    → reconcile cr b a.blocks ≡ ok (y, b')
    → tip cr a'.blocks ≡ tip cr b'.blocks
forks_heal cr a b a' b' x y settings own_a own_b ra rb =
    let (s, rs, _, ws, es) = reconcile_outcome cr a b.blocks x a' ra in
    let (t, rt, _, wt, et) = reconcile_outcome cr b a.blocks y b' rb in
    let is_b : s ≡ b = ok-injective (sym rs ∙ replay-same cr a b b.blocks settings ∙ own_b) in
    let is_a : t ≡ a = ok-injective (sym rt ∙ sym (replay-same cr a b a.blocks settings) ∙ own_a) in
    let ea : a' ≡ (if x then b else a) = es ∙ ap (λ z. if x then z else a) is_b in
    let eb : b' ≡ (if y then a else b) = et ∙ ap (λ z. if y then z else b) is_a in
    ap (λ z. tip cr z.blocks) ea
    ∙ picked_tip cr a b x y (ap (λ z. heavier cr z a) (sym is_b) ∙ ws)
        (ap (λ z. heavier cr z b) (sym is_a) ∙ wt)
    ∙ ap (λ z. tip cr z.blocks) (sym eb)
