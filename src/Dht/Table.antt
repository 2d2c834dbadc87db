-- ===== src/Dht/Table.antt =====
-- The k-bucket routing table of core/dht/table.go. `k` and the domain cap are ints that the code
-- tests against a length or against 0 alone, where a negative one acts as 0 does.
use bitbit.Base.{
  ℕ, zero, suc, ◌+◌, Bool, false, ◌&&◌, not, Option, none, some, List, [], ◌∷◌, ◌++◌, length, take,
  mem, ltb, leb, ◌==◌, if◌then◌else◌,
}
use bitbit.Dht.Distance.{id_bits, bucket_index, sort_by_distance}

-- `domain_of` is a function that the node hands over, as it answers at the time: it reads the domains
-- that the node has learnt so far. `none` stands for nil.
pub record Table : Type 0 where
  pub self : ℕ
  pub k : ℕ
  pub buckets : ℕ → List ℕ
  pub domain_of : Option (ℕ → ℕ)
  pub per_domain_cap : ℕ

unfoldable pub new_table : ℕ → ℕ → Table
new_table self k = record {
  self = self;
  k = k;
  buckets = λ i. [];
  domain_of = none;
  per_domain_cap = 0;
}

unfoldable pub set_diversity : Option (ℕ → ℕ) → ℕ → Table → Table
set_diversity domain_of cap t = record t { domain_of = domain_of; per_domain_cap = cap }

-- `domainOf` of the node after `peerDomains[from] = domain`; for the node itself the answer is fixed.
unfoldable pub answering : ℕ → ℕ → ℕ → (ℕ → ℕ) → ℕ → ℕ
answering self from domain f id = if id == self then f id else if id == from then domain else f id

-- A message from a peer that declares a domain, 0 where it declares none: the table is the same, but
-- its function answers otherwise from then on. (`handle` in core/node/node.go)
unfoldable pub learn : ℕ → ℕ → Table → Table
learn from domain t = if domain == 0 then t else elim t.domain_of [
  | none ↦ t
  | some f ↦ record t { domain_of = some (answering t.self from domain f) }
]

-- How many of these peers are in domain `d`.
unfoldable pub in_domain : (ℕ → ℕ) → ℕ → List ℕ → ℕ
in_domain f d [] = 0
in_domain f d (e ∷ b) = (if f e == d then 1 else 0) + in_domain f d b

unfoldable pub domain_saturated : List ℕ → ℕ → Table → Bool
domain_saturated b id t = elim t.domain_of [
  | none ↦ false
  | some f ↦
      if t.per_domain_cap == 0
      then false
      else if f id == 0
      then false
      else leb t.per_domain_cap (in_domain f (f id) b)
]

-- `t.buckets[i] = b`
unfoldable pub put_bucket : ℕ → List ℕ → Table → Table
put_bucket i b t = record t { buckets = λ j. if j == i then b else t.buckets j }

-- The bucket without the first entry that is this peer.
unfoldable pub without : ℕ → List ℕ → List ℕ
without id [] = []
without id (x ∷ b) = let rest = without id b in if id == x then b else x ∷ rest

-- The bucket after a peer was seen: one it holds becomes the newest.
unfoldable pub refreshed : ℕ → List ℕ → List ℕ
refreshed id b = without id b ++ id ∷ []

unfoldable pub observe : ℕ → Table → Table
observe id t = elim (bucket_index t.self id) [
  | none ↦ t
  | some i ↦
      let b = t.buckets i in
      if mem id b
      then put_bucket i (refreshed id b) t
      else if ltb (length b) t.k && not (domain_saturated b id t)
      then put_bucket i (b ++ id ∷ []) t
      else t
]

unfoldable pub drop_peer : ℕ → Table → Table
drop_peer id t = elim (bucket_index t.self id) [
  | none ↦ t
  | some i ↦ if mem id (t.buckets i) then put_bucket i (without id (t.buckets i)) t else t
]

-- The buckets below the `n`-th, in their order.
unfoldable pub peers_below : ℕ → Table → List ℕ
peers_below zero t = []
peers_below (suc n) t = peers_below n t ++ t.buckets n

unfoldable pub closest : ℕ → ℕ → Table → List ℕ
closest target n t = take n (sort_by_distance target (peers_below id_bits t))

unfoldable pub size_below : ℕ → Table → ℕ
size_below zero t = 0
size_below (suc n) t = size_below n t + length (t.buckets n)

unfoldable pub size : Table → ℕ
size t = size_below id_bits t
