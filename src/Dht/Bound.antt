-- ===== src/Dht/Bound.antt =====
-- The queries in flight and the candidates of the iterative lookup of core/dht/lookup.go.
use bitbit.Base.{
  ℕ, ◌+◌, ◌-◌, ◌<◌, ◌≤◌, ◌≡◌, refl, Bool, true, false, List, [], ◌∷◌, ◌++◌, ◌==◌, if◌then◌else◌,
  arith,
}
use bitbit.Base.Maps.{Map, lookup, insert, is_some, lookup-insert}
use bitbit.Dht.Distance.{place, sort_by, closer}
use bitbit.Dht.Lookup.{
  Phase, unqueried, inflight, replied, failed, is_inflight, Lookup, phase, count, in_flight, ask,
  next_queries, add, admit, admit_all, sorted, new_lookup, settle, on_reply, on_failure, top_k,
}

-- How often an identifier stands in a list.
unfoldable pub occurs : ℕ → List ℕ → ℕ
occurs a [] = 0
occurs a (x ∷ xs) = (if a == x then 1 else 0) + occurs a xs

pub phase-insert :
    (s : Map Phase) (k j : ℕ) (p : Phase)
    → phase (insert k p s) j ≡ (if j == k then p else phase s j)
unfolding phase
phase-insert s k j p = ground (arith, lookup-insert k j p s)

pub occurs-append : (a : ℕ) (xs ys : List ℕ) → occurs a (xs ++ ys) ≡ occurs a xs + occurs a ys
unfolding occurs
occurs-append a [] ys = omega arith
occurs-append a (x ∷ xs) ys = ground (arith, occurs-append a xs ys)

count-append :
    (p : Phase → Bool) (s : Map Phase) (xs ys : List ℕ)
    → count p s (xs ++ ys) ≡ count p s xs + count p s ys
unfolding count
count-append p s [] ys = omega arith
count-append p s (x ∷ xs) ys = ground (arith, count-append p s xs ys)

-- Sorting keeps every count.
occurs-place : (t a x : ℕ) (xs : List ℕ) → occurs a (place (λ z. z) t x xs) ≡ occurs a (x ∷ xs)
unfolding occurs place
occurs-place t a x [] = refl
occurs-place t a x (y ∷ ys) = ground (arith, occurs-place t a x ys)

pub occurs-sort : (t a : ℕ) (xs : List ℕ) → occurs a (sort_by (λ z. z) t xs) ≡ occurs a xs
unfolding occurs sort_by
occurs-sort t a [] = refl
occurs-sort t a (x ∷ xs) =
    ground (arith, occurs-place t a x (sort_by (λ z. z) t xs), occurs-sort t a xs)

count-place :
    (t : ℕ) (p : Phase → Bool) (s : Map Phase) (x : ℕ) (xs : List ℕ)
    → count p s (place (λ z. z) t x xs) ≡ count p s (x ∷ xs)
unfolding count place
count-place t p s x [] = refl
count-place t p s x (y ∷ ys) = ground (arith, count-place t p s x ys)

count-sort :
    (t : ℕ) (p : Phase → Bool) (s : Map Phase) (xs : List ℕ)
    → count p s (sort_by (λ z. z) t xs) ≡ count p s xs
unfolding count sort_by
count-sort t p s [] = refl
count-sort t p s (x ∷ xs) =
    ground (arith, count-place t p s x (sort_by (λ z. z) t xs), count-sort t p s xs)

-- What one write to the state does to the number in flight.
count-insert :
    (s : Map Phase) (k : ℕ) (p : Phase) (xs : List ℕ)
    → count is_inflight (insert k p s) xs ≤ count is_inflight s xs + occurs k xs
unfolding count occurs
count-insert s k p [] = omega arith
count-insert s k p (x ∷ xs) = ground (arith, count-insert s k p xs, phase-insert s k x p)

count-settle :
    (s : Map Phase) (k : ℕ) (p : Phase) (xs : List ℕ)
    → is_inflight p ≡ false
    → count is_inflight (insert k p s) xs ≤ count is_inflight s xs
unfolding count
count-settle s k p [] h = omega arith
count-settle s k p (x ∷ xs) h = ground (arith, count-settle s k p xs h, phase-insert s k x p)

-- The candidates are listed once each, each has an entry in the state, and no more than alpha are
-- in flight.
pub record WellFormed (l : Lookup) : Type 0 where
  pub once : (a : ℕ) → occurs a l.order ≤ 1
  pub listed : (a : ℕ) → 0 < occurs a l.order → is_some (lookup a l.state) ≡ true
  pub bounded : in_flight l ≤ l.alpha

ask-bound :
    (xs : List ℕ) (once : (a : ℕ) → occurs a xs ≤ 1) (budget n : ℕ) (s : Map Phase) (ids : List ℕ)
    → n < budget
    → count is_inflight (ask budget n s ids).1 xs + n ≤ count is_inflight s xs + budget
unfolding ask
ask-bound xs once budget n s [] h = omega arith
ask-bound xs once budget n s (id ∷ ids) h = ground (
  arith,
  count-insert s id inflight xs,
  once id,
  ask-bound xs once budget (n + 1) (insert id inflight s) ids,
  ask-bound xs once budget n s ids,
)

-- The state's keys only grow.
ask-listed :
    (budget n : ℕ) (s : Map Phase) (ids : List ℕ) (a : ℕ)
    → is_some (lookup a s) ≡ true
    → is_some (lookup a (ask budget n s ids).1) ≡ true
unfolding ask
ask-listed budget n s [] a h = h
ask-listed budget n s (id ∷ ids) a h = ground (
  arith,
  lookup-insert id a inflight s,
  ask-listed budget (n + 1) (insert id inflight s) ids a,
  ask-listed budget n s ids a,
)

next_queries-WellFormed : (l : Lookup) → WellFormed l → WellFormed (next_queries l).1
unfolding next_queries in_flight
next_queries-WellFormed l w = record {
  once = ground (arith, w.once);
  listed =
      λ a h. ground (arith, w.listed a, ask-listed (l.alpha - in_flight l) 0 l.state (top_k l) a);
  bounded =
      ground
        (arith, w.bounded, ask-bound l.order w.once (l.alpha - in_flight l) 0 l.state (top_k l));
}

settle-WellFormed :
    (from : ℕ) (p : Phase) (l : Lookup)
    → is_inflight p ≡ false
    → WellFormed l
    → WellFormed (settle from p l)
unfolding settle in_flight
settle-WellFormed from p l h w = record {
  once = ground (arith, w.once);
  listed = λ a k. ground (arith, w.listed a, lookup-insert from a p l.state);
  bounded = ground (arith, w.bounded, count-settle l.state from p l.order h);
}

-- An identifier that the state lacks is not among the candidates.
unlisted :
    (l : Lookup)
    → WellFormed l
    → (a : ℕ) → is_some (lookup a l.state) ≡ false
    → occurs a l.order ≡ 0
unlisted l w a h = ground (arith, w.listed a)

admit-WellFormed : (id : ℕ) (l : Lookup) → WellFormed l → WellFormed (admit id l)
unfolding admit in_flight occurs count
admit-WellFormed id l w = record {
  once = λ a. ground (arith, w.once a, unlisted l w id, occurs-append a l.order (id ∷ []));
  listed = λ a h.
      ground (
        arith,
        w.listed a,
        lookup-insert id a unqueried l.state,
        occurs-append a l.order (id ∷ []),
      );
  bounded = ground (
    arith,
    w.bounded,
    count-settle l.state id unqueried l.order refl,
    count-append is_inflight (insert id unqueried l.state) l.order (id ∷ []),
    phase-insert l.state id id unqueried,
  );
}

admit_all-WellFormed : (ids : List ℕ) (l : Lookup) → WellFormed l → WellFormed (admit_all ids l)
unfolding admit_all
admit_all-WellFormed [] l w = w
admit_all-WellFormed (id ∷ ids) l w =
    admit_all-WellFormed ids (admit id l) (admit-WellFormed id l w)

sorted-WellFormed : (l : Lookup) → WellFormed l → WellFormed (sorted l)
unfolding sorted in_flight
sorted-WellFormed l w = record {
  once = λ a. ground (arith, w.once a, occurs-sort l.target a l.order);
  listed = λ a h. ground (arith, w.listed a, occurs-sort l.target a l.order);
  bounded = ground (arith, w.bounded, count-sort l.target is_inflight l.state l.order);
}

add-WellFormed : (ids : List ℕ) (l : Lookup) → WellFormed l → WellFormed (add ids l)
unfolding add
add-WellFormed ids l w = sorted-WellFormed (admit_all ids l) (admit_all-WellFormed ids l w)

new_lookup-WellFormed :
    (target k alpha : ℕ) (seeds : List ℕ) → WellFormed (new_lookup target k alpha seeds)
unfolding new_lookup occurs in_flight count
new_lookup-WellFormed target k alpha seeds = add-WellFormed seeds _ (record {
  once = λ a. omega arith;
  listed = λ a h. absurd (omega arith);
  bounded = omega arith;
})

-- A lookup in use: started, then driven by any sequence of calls of its methods.
pub data Reaches : Lookup → Type 0 where
  starts : (target k alpha : ℕ) (seeds : List ℕ) → Reaches (new_lookup target k alpha seeds)
  queries : {l : Lookup} → Reaches l → Reaches (next_queries l).1
  replies : {l : Lookup} (from : ℕ) (closer : List ℕ) → Reaches l → Reaches (on_reply from closer l)
  fails : {l : Lookup} (from : ℕ) → Reaches l → Reaches (on_failure from l)

-- However its methods are called, the candidates of a lookup are listed once each and at most alpha
-- queries are in flight.
pub lookup_bounded : (l : Lookup) → Reaches l → WellFormed l
unfolding on_reply on_failure
lookup_bounded l (starts target k alpha seeds) = new_lookup-WellFormed target k alpha seeds
lookup_bounded l (queries {l = d} r) = next_queries-WellFormed d (lookup_bounded d r)
lookup_bounded l (replies {l = d} from closer r) =
    add-WellFormed closer (settle from replied d)
      (settle-WellFormed from replied d refl (lookup_bounded d r))
lookup_bounded l (fails {l = d} from r) = settle-WellFormed from failed d refl (lookup_bounded d r)
