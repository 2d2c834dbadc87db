-- ===== src/Dht/Once.antt =====
-- How often the iterative lookup of core/dht/lookup.go contacts a peer, and the distances of
-- core/dht/dht.go.
use bitbit.Base.{
  ℕ, zero, suc, ◌+◌, ◌-◌, ◌*◌, ◌/◌, ◌^◌, ◌<◌, ◌≤◌, ◌≡◌, ◌≢◌, refl, false, List, [], ◌∷◌, ◌++◌,
  if◌then◌else◌, arith,
}
use native.Mathlib.Numerals.{unary_clauses}
use bitbit.Base.Maps.{Map, insert, lookup-insert}
use bitbit.Dht.Distance.{xor_bits, distance, id_bits}
use bitbit.Dht.Bound.{occurs, occurs-append, phase-insert}
use bitbit.Dht.Lookup.{
  Phase, unqueried, inflight, replied, failed, is_unqueried, Lookup, phase, ask, next_queries, add,
  admit, admit_all, sorted, new_lookup, settle, on_reply, on_failure, top_k, in_flight,
}

-- 1 where the peer is still to be contacted.
unfoldable pub chance : Map Phase → ℕ → ℕ
chance s a = if is_unqueried (phase s a) then 1 else 0

ask-spends :
    (budget n : ℕ) (s : Map Phase) (ids : List ℕ) (a : ℕ)
    → occurs a (ask budget n s ids).0 + chance (ask budget n s ids).1 a ≤ chance s a
unfolding ask occurs chance
ask-spends budget n s [] a = omega arith
ask-spends budget n s (id ∷ ids) a = ground (
  arith,
  phase-insert s id a inflight,
  ask-spends budget (n + 1) (insert id inflight s) ids a,
  ask-spends budget n s ids a,
)

next_queries-spends :
    (l : Lookup) (a : ℕ)
    → occurs a (next_queries l).0 + chance (next_queries l).1.state a ≤ chance l.state a
unfolding next_queries occurs
next_queries-spends l a = ground (arith, ask-spends (l.alpha - in_flight l) 0 l.state (top_k l) a)

settle-spends :
    (from : ℕ) (p : Phase) (l : Lookup) (a : ℕ)
    → is_unqueried p ≡ false
    → chance (settle from p l).state a ≤ chance l.state a
unfolding settle chance
settle-spends from p l a h = ground (arith, phase-insert l.state from a p)

admit-spends : (id : ℕ) (l : Lookup) (a : ℕ) → chance (admit id l).state a ≤ chance l.state a
unfolding admit chance phase
admit-spends id l a = ground (arith, lookup-insert id a unqueried l.state)

admit_all-spends :
    (ids : List ℕ) (l : Lookup) (a : ℕ) → chance (admit_all ids l).state a ≤ chance l.state a
unfolding admit_all
admit_all-spends [] l a = omega arith
admit_all-spends (id ∷ ids) l a =
    omega (arith, admit-spends id l a, admit_all-spends ids (admit id l) a)

add-spends : (ids : List ℕ) (l : Lookup) (a : ℕ) → chance (add ids l).state a ≤ chance l.state a
unfolding add sorted
add-spends ids l a = admit_all-spends ids l a

chance_le : (s : Map Phase) (a : ℕ) → chance s a ≤ 1
unfolding chance
chance_le s a = ground arith

-- A lookup in use, with every peer that it has told its driver to contact.
pub data Drives : Lookup → List ℕ → Type 0 where
  starts : (target k alpha : ℕ) (seeds : List ℕ) → Drives (new_lookup target k alpha seeds) []
  queries :
      {l : Lookup} {asked : List ℕ}
      → Drives l asked
      → Drives (next_queries l).1 (asked ++ (next_queries l).0)
  replies :
      {l : Lookup} {asked : List ℕ} (from : ℕ) (closer : List ℕ)
      → Drives l asked
      → Drives (on_reply from closer l) asked
  fails :
      {l : Lookup} {asked : List ℕ} (from : ℕ) → Drives l asked → Drives (on_failure from l) asked

nothing_asked : (s : Map Phase) (a : ℕ) → occurs a [] + chance s a ≤ 1
unfolding occurs
nothing_asked s a = omega (arith, chance_le s a)

spent_once :
    (l : Lookup) (asked : List ℕ) (a : ℕ) → Drives l asked → occurs a asked + chance l.state a ≤ 1
unfolding on_reply on_failure
spent_once l asked a (starts target k alpha seeds) =
    nothing_asked (new_lookup target k alpha seeds).state a
spent_once l asked a (queries {l = d} {asked = before} r) = omega (
  arith,
  spent_once d before a r,
  next_queries-spends d a,
  occurs-append a before (next_queries d).0,
)
spent_once l asked a (replies {l = d} from closer r) = omega (
  arith,
  spent_once d asked a r,
  settle-spends from replied d a refl,
  add-spends closer (settle from replied d) a,
)
spent_once l asked a (fails {l = d} from r) =
    omega (arith, spent_once d asked a r, settle-spends from failed d a refl)

-- However a lookup is driven, it never tells its driver to contact the same peer twice.
pub asked_once : (l : Lookup) (asked : List ℕ) (a : ℕ) → Drives l asked → occurs a asked ≤ 1
asked_once l asked a r = omega (arith, spent_once l asked a r)

xor_bits-injective : (w t a b : ℕ) → a < 2 ^ w → b < 2 ^ w → xor_bits w a t ≡ xor_bits w b t → a ≡ b
unfolding xor_bits
xor_bits-injective zero t a b ha hb h = omega (arith)
xor_bits-injective (suc w) t a b ha hb h =
    let ha' : a < 2 ^ w * 2 = simp unary_clauses at ha in
    let hb' : b < 2 ^ w * 2 = simp unary_clauses at hb in
    let halves : a / 2 ≡ b / 2 =
      xor_bits-injective w (t / 2) (a / 2) (b / 2) (omega arith) (omega arith) (ground arith) in
    ground (arith, halves)

-- Every point sees every other one at a distance of its own: two different identifiers of 256 bits
-- are at different distances from any target.
pub distance_unidirectional :
    (target a b : ℕ) → a < 2 ^ 256 → b < 2 ^ 256 → a ≢ b → distance a target ≢ distance b target
unfolding distance
distance_unidirectional target a b ha hb n h = n (xor_bits-injective id_bits target a b ha hb h)
