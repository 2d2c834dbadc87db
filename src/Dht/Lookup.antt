-- ===== src/Dht/Lookup.antt =====
-- The iterative lookup of core/dht/lookup.go, the state machine that a node drives. `k` and `alpha`
-- are not negative.
use bitbit.Base.{
  ℕ, ◌+◌, ◌-◌, Bool, true, false, ◌||◌, not, Option, none, some, List, [], ◌∷◌, ◌++◌, ltb, leb,
  ◌==◌, if◌then◌else◌,
}
use bitbit.Base.Maps.{Map, lookup, insert, is_some}
use bitbit.Dht.Distance.{sort_by_distance}

pub data Phase : Type 0 where
  unqueried inflight replied failed : Phase

abbrev pub is_unqueried : Phase → Bool
is_unqueried unqueried = true
is_unqueried _ = false

abbrev pub is_inflight : Phase → Bool
is_inflight inflight = true
is_inflight _ = false

abbrev pub is_replied : Phase → Bool
is_replied replied = true
is_replied _ = false

abbrev pub is_live : Phase → Bool
is_live failed = false
is_live _ = true

pub record Lookup : Type 0 where
  pub target : ℕ
  pub k : ℕ
  pub alpha : ℕ
  pub state : Map Phase
  pub order : List ℕ

-- `l.state[id]`: a missing key reads as the zero value.
abbrev pub or_unqueried : Option Phase → Phase
or_unqueried none = unqueried
or_unqueried (some p) = p

unfoldable pub phase : Map Phase → ℕ → Phase
phase s id = or_unqueried (lookup id s)

-- One candidate of `add`.
unfoldable pub admit : ℕ → Lookup → Lookup
admit id l =
    if is_some (lookup id l.state)
    then l
    else record l { state = insert id unqueried l.state; order = l.order ++ id ∷ [] }

unfoldable pub admit_all : List ℕ → Lookup → Lookup
admit_all [] l = l
admit_all (id ∷ ids) l = admit_all ids (admit id l)

unfoldable pub sorted : Lookup → Lookup
sorted l = record l { order = sort_by_distance l.target l.order }

unfoldable pub add : List ℕ → Lookup → Lookup
unfolding admit_all sorted
add ids l = sorted (admit_all ids l)

unfoldable pub new_lookup : ℕ → ℕ → ℕ → List ℕ → Lookup
new_lookup target k alpha seeds =
    add seeds (record { target = target; k = k; alpha = alpha; state = []; order = [] })

-- How many candidates stand in a phase that passes the test.
unfoldable pub count : (Phase → Bool) → Map Phase → List ℕ → ℕ
count p s [] = 0
count p s (id ∷ ids) = (if p (phase s id) then 1 else 0) + count p s ids

unfoldable pub in_flight : Lookup → ℕ
in_flight l = count is_inflight l.state l.order

-- The loop of `topK` and `Result`: the first candidates that pass, `n` of the `k` being collected.
unfoldable pub pick : (Phase → Bool) → Map Phase → ℕ → ℕ → List ℕ → List ℕ
pick p s k n [] = []
pick p s k n (id ∷ ids) =
    let rest = pick p s k (if p (phase s id) then n + 1 else n) ids in
    if p (phase s id) then id ∷ (if n + 1 == k then [] else rest) else rest

unfoldable pub top_k : Lookup → List ℕ
top_k l = pick is_live l.state l.k 0 l.order

unfoldable pub result : Lookup → List ℕ
result l = pick is_replied l.state l.k 0 l.order

-- The loop of `NextQueries`, with `n` peers collected: the peers to contact, and the state with
-- those in flight.
unfoldable pub ask : ℕ → ℕ → Map Phase → List ℕ → List ℕ × Map Phase
ask budget n s [] = ([], s)
ask budget n s (id ∷ ids) =
    let new = is_unqueried (phase s id) in
    let s' = if new then insert id inflight s else s in
    let rest = ask budget (if new then n + 1 else n) s' ids in
    if new then (if n + 1 == budget then (id ∷ [], s') else (id ∷ rest.0, rest.1)) else rest

unfoldable pub next_queries : Lookup → List ℕ × Lookup
next_queries l =
    if leb l.alpha (in_flight l)
    then ([], l)
    else let asked = ask (l.alpha - in_flight l) 0 l.state (top_k l) in
      (asked.0, record l { state = asked.1 })

-- The answer or the failure of a peer that is in flight.
unfoldable pub settle : ℕ → Phase → Lookup → Lookup
settle from p l =
    if is_inflight (phase l.state from) then record l { state = insert from p l.state } else l

unfoldable pub on_reply : ℕ → List ℕ → Lookup → Lookup
unfolding settle
on_reply from closer l = add closer (settle from replied l)

unfoldable pub on_failure : ℕ → Lookup → Lookup
unfolding settle
on_failure from l = settle from failed l

unfoldable pub any_unqueried : Map Phase → List ℕ → Bool
any_unqueried s [] = false
any_unqueried s (id ∷ ids) = is_unqueried (phase s id) || any_unqueried s ids

unfoldable pub done : Lookup → Bool
done l = if ltb 0 (in_flight l) then false else not (any_unqueried l.state (top_k l))
