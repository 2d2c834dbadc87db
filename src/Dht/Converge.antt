-- ===== src/Dht/Converge.antt =====
-- What the iterative lookup of core/dht/lookup.go leaves its driver to do, and what it holds when
-- it is done.
use bitbit.Base.{ℕ, ◌+◌, ◌-◌, ◌<◌, ◌≡◌, ◌≢◌, refl, true, false, List, [], ◌∷◌, arith}
use bitbit.Base.Maps.{Map}
use bitbit.Dht.Lookup.{
  Phase, unqueried, inflight, replied, failed, is_unqueried, is_inflight, is_replied, is_live,
  Lookup, phase, count, in_flight, pick, top_k, result, ask, next_queries, any_unqueried, done,
}

live-replied :
    (p : Phase) → is_unqueried p ≡ false → is_inflight p ≡ false → is_replied p ≡ is_live p
live-replied unqueried h k = absurd (cc)
live-replied inflight h k = absurd (cc)
live-replied replied h k = refl
live-replied failed h k = refl

not_replied : (p : Phase) → is_live p ≡ false → is_replied p ≡ false
not_replied failed h = refl
not_replied unqueried h = absurd (cc)
not_replied inflight h = absurd (cc)
not_replied replied h = absurd (cc)

count-head :
    (s : Map Phase) (id : ℕ) (ids : List ℕ)
    → count is_inflight s (id ∷ ids) ≡ 0
    → (is_inflight (phase s id) ≡ false) × (count is_inflight s ids ≡ 0)
unfolding count
count-head s id ids h = ground arith

pick-settled :
    (s : Map Phase) (k n : ℕ) (ids : List ℕ)
    → count is_inflight s ids ≡ 0
    → any_unqueried s (pick is_live s k n ids) ≡ false
    → pick is_replied s k n ids ≡ pick is_live s k n ids
unfolding pick any_unqueried
pick-settled s k n [] h u = refl
pick-settled s k n (id ∷ ids) h u =
    let (now, later) = count-head s id ids h in
    ground (
      arith,
      live-replied (phase s id),
      not_replied (phase s id),
      pick-settled s k (n + 1) ids later,
      pick-settled s k n ids later,
    )

-- When the lookup is done, all of its best candidates have replied.
pub result_complete : (l : Lookup) → done l ≡ true → result l ≡ top_k l
unfolding done result top_k in_flight
result_complete l h = pick-settled l.state l.k 0 l.order (ground arith) (ground arith)

ask-nonempty :
    (budget n : ℕ) (s : Map Phase) (ids : List ℕ)
    → any_unqueried s ids ≡ true
    → (ask budget n s ids).0 ≢ []
unfolding ask any_unqueried
ask-nonempty budget n s [] h = absurd (cc)
ask-nonempty budget n s (id ∷ ids) h = ground (arith, ask-nonempty budget n s ids)

-- A lookup that is not done and waits for nobody has somebody to contact, where alpha is not 0: a
-- driver that reports on every query never stalls.
pub never_stalls :
    (l : Lookup) → 0 < l.alpha → in_flight l ≡ 0 → done l ≡ false → (next_queries l).0 ≢ []
unfolding done next_queries
never_stalls l pos idle h =
    let open_one : any_unqueried l.state (top_k l) ≡ true = ground arith in
    ground (arith, ask-nonempty (l.alpha - in_flight l) 0 l.state (top_k l) open_one)
