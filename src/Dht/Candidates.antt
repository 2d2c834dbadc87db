-- ===== src/Dht/Candidates.antt =====
-- The candidates of a lookup in core/dht/lookup.go, and the peers that it was told of.
use bitbit.Base.{
  ℕ, ◌+◌, ◌-◌, ◌≡◌, refl, sym, ◌∙◌, ap, Bool, true, ◌||◌, Option, none, some, List, [], ◌∷◌, ◌++◌,
  mem, mem-append, ltb, ◌==◌, arith,
}
use bitbit.Base.Maps.{Map, lookup, insert, is_some, lookup-insert}
use bitbit.Dht.Distance.{sort_by}
use bitbit.Dht.Lookup.{
  Phase, unqueried, inflight, replied, failed, is_inflight, is_live, Lookup, phase, or_unqueried,
  in_flight, pick, top_k, ask, next_queries, add, admit, admit_all, sorted, new_lookup, settle,
  on_reply, on_failure,
}
use bitbit.Dht.Bound.{occurs, occurs-sort, Reaches, starts, queries, replies, fails}

-- The peers that a lookup in use was told of: its seeds, and those that the answers named.
abbrev pub named : (l : Lookup) → Reaches l → List ℕ
named l (starts target k alpha seeds) = seeds
named l (queries {l = d} r) = named d r
named l (replies {l = d} from closer r) = closer ++ named d r
named l (fails {l = d} from r) = named d r

-- Whoever has a phase is listed.
abbrev Tracked : Lookup → Type 0
Tracked l = (a : ℕ) → is_some (lookup a l.state) ≡ true → mem a l.order ≡ true

mem-occurs : (a : ℕ) (xs : List ℕ) → mem a xs ≡ ltb 0 (occurs a xs)
unfolding mem occurs
mem-occurs a [] = refl
mem-occurs a (x ∷ xs) = ground (arith, mem-occurs a xs)

mem-sort : (t a : ℕ) (xs : List ℕ) → mem a (sort_by (λ z. z) t xs) ≡ mem a xs
mem-sort t a xs =
    mem-occurs a (sort_by (λ z. z) t xs)
    ∙ ap (λ z. ltb 0 z) (occurs-sort t a xs)
    ∙ sym (mem-occurs a xs)

admit-mem :
    (id : ℕ) (l : Lookup) (b : ℕ)
    → Tracked l
    → mem b (admit id l).order ≡ ((b == id) || mem b l.order)
unfolding admit mem
admit-mem id l b w = ground (arith, w id, mem-append b l.order (id ∷ []))

admit-Tracked : (id : ℕ) (l : Lookup) → Tracked l → Tracked (admit id l)
unfolding admit mem
admit-Tracked id l w a h =
    ground (arith, w a, lookup-insert id a unqueried l.state, mem-append a l.order (id ∷ []))

admit_all-mem :
    (ids : List ℕ) (l : Lookup) (b : ℕ)
    → Tracked l
    → mem b (admit_all ids l).order ≡ (mem b ids || mem b l.order)
unfolding admit_all mem
admit_all-mem [] l b w = refl
admit_all-mem (id ∷ ids) l b w =
    ground (arith, admit_all-mem ids (admit id l) b (admit-Tracked id l w), admit-mem id l b w)

admit_all-Tracked : (ids : List ℕ) (l : Lookup) → Tracked l → Tracked (admit_all ids l)
unfolding admit_all
admit_all-Tracked [] l w = w
admit_all-Tracked (id ∷ ids) l w = admit_all-Tracked ids (admit id l) (admit-Tracked id l w)

add-mem :
    (ids : List ℕ) (l : Lookup) (b : ℕ)
    → Tracked l
    → mem b (add ids l).order ≡ (mem b ids || mem b l.order)
unfolding add sorted
add-mem ids l b w =
    mem-sort (admit_all ids l).target b (admit_all ids l).order ∙ admit_all-mem ids l b w

add-Tracked : (ids : List ℕ) (l : Lookup) → Tracked l → Tracked (add ids l)
unfolding add sorted
add-Tracked ids l w a h =
    mem-sort (admit_all ids l).target a (admit_all ids l).order ∙ admit_all-Tracked ids l w a h

phase-known : (s : Map Phase) (a : ℕ) → is_inflight (phase s a) ≡ true → is_some (lookup a s) ≡ true
unfolding phase
phase-known s a h = inflight-known (lookup a s) h
  where
    inflight-known : (o : Option Phase) → is_inflight (or_unqueried o) ≡ true → is_some o ≡ true
    inflight-known none h = absurd (cc)
    inflight-known (some p) h = refl

settle-Tracked : (from : ℕ) (p : Phase) (l : Lookup) → Tracked l → Tracked (settle from p l)
unfolding settle
settle-Tracked from p l w a h =
    ground (arith, w a, w from, phase-known l.state from, lookup-insert from a p l.state)

settle-order : (from : ℕ) (p : Phase) (l : Lookup) → (settle from p l).order ≡ l.order
unfolding settle
settle-order from p l = ground arith

ask-keys :
    (budget n : ℕ) (s : Map Phase) (ids : List ℕ) (a : ℕ)
    → is_some (lookup a (ask budget n s ids).1) ≡ true
    → (is_some (lookup a s) || mem a ids) ≡ true
unfolding ask mem
ask-keys budget n s [] a h = ground arith
ask-keys budget n s (id ∷ ids) a h = ground (
  arith,
  lookup-insert id a inflight s,
  ask-keys budget (n + 1) (insert id inflight s) ids a,
  ask-keys budget n s ids a,
)

pub pick-listed :
    (p : Phase → Bool) (s : Map Phase) (k n a : ℕ) (ids : List ℕ)
    → mem a (pick p s k n ids) ≡ true
    → mem a ids ≡ true
unfolding pick mem
pick-listed p s k n a [] h = absurd (cc)
pick-listed p s k n a (id ∷ ids) h =
    ground (arith, pick-listed p s k (n + 1) a ids, pick-listed p s k n a ids)

next_queries-Tracked : (l : Lookup) → Tracked l → Tracked (next_queries l).1
unfolding next_queries top_k
next_queries-Tracked l w a h = ground (
  arith,
  w a,
  ask-keys (l.alpha - in_flight l) 0 l.state (pick is_live l.state l.k 0 l.order) a,
  pick-listed is_live l.state l.k 0 a l.order,
)

next_queries-order : (l : Lookup) → (next_queries l).1.order ≡ l.order
unfolding next_queries
next_queries-order l = ground arith

empty-Tracked :
    (target k alpha : ℕ)
    → Tracked (record { target = target; k = k; alpha = alpha; state = []; order = [] })
unfolding lookup
empty-Tracked target k alpha a h = absurd (cc)

tracked : (l : Lookup) → Reaches l → Tracked l
unfolding new_lookup on_reply on_failure
tracked l (starts target k alpha seeds) = add-Tracked seeds _ (empty-Tracked target k alpha)
tracked l (queries {l = d} r) = next_queries-Tracked d (tracked d r)
tracked l (replies {l = d} from closer r) =
    add-Tracked closer (settle from replied d) (settle-Tracked from replied d (tracked d r))
tracked l (fails {l = d} from r) = settle-Tracked from failed d (tracked d r)

-- The candidates are the peers that the lookup was told of.
pub candidates : (l : Lookup) (r : Reaches l) (b : ℕ) → mem b l.order ≡ mem b (named l r)
unfolding new_lookup on_reply on_failure mem
candidates l (starts target k alpha seeds) b =
    let empty : Lookup = record { target = target; k = k; alpha = alpha; state = []; order = [] } in
    let all = add-mem seeds empty b (empty-Tracked target k alpha) in ground (arith, all)
candidates l (queries {l = d} r) b = ap (λ z. mem b z) (next_queries-order d) ∙ candidates d r b
candidates l (replies {l = d} from closer r) b =
    add-mem closer (settle from replied d) b (settle-Tracked from replied d (tracked d r))
    ∙ ap (λ z. mem b closer || mem b z) (settle-order from replied d)
    ∙ ap (λ z. mem b closer || z) (candidates d r b)
    ∙ sym (mem-append b closer (named d r))
candidates l (fails {l = d} from r) b =
    ap (λ z. mem b z) (settle-order from failed d) ∙ candidates d r b
