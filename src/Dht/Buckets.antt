-- ===== src/Dht/Buckets.antt =====
-- The buckets of the routing table of core/dht/table.go, and whom they take in.
use bitbit.Base.{
  ◌⊎◌, inl, inr, ℕ, ◌+◌, ◌<◌, ◌≤◌, ◌≡◌, ◌≢◌, sym, ap, ◌∙◌, subst, true, false, ◌&&◌, not, Option,
  none, some, List, [], ◌∷◌, ◌++◌, length, mem, mem-append, length-append, ltb, ◌==◌, arith,
  Bool-cases, Option-cases,
}
use bitbit.Dht.Distance.{bucket_index}
use bitbit.Dht.Table.{
  Table, new_table, set_diversity, in_domain, domain_saturated, without, refreshed, put_bucket,
  observe, drop_peer, learn,
}

in_domain-append :
    (f : ℕ → ℕ) (d : ℕ) (xs ys : List ℕ)
    → in_domain f d (xs ++ ys) ≡ in_domain f d xs + in_domain f d ys
unfolding in_domain
in_domain-append f d [] ys = omega arith
in_domain-append f d (x ∷ xs) ys = ground (arith, in_domain-append f d xs ys)

-- Taking a held peer out of its bucket.
length-without : (id : ℕ) (b : List ℕ) → mem id b ≡ true → length (without id b) + 1 ≡ length b
unfolding without mem
length-without id [] h = absurd (cc)
length-without id (x ∷ b) h = ground (arith, length-without id b)

mem-without : (id a : ℕ) (b : List ℕ) → mem a (without id b) ≡ true → mem a b ≡ true
unfolding without mem
mem-without id a [] h = h
mem-without id a (x ∷ b) h = ground (arith, mem-without id a b)

mem-without-other : (id a : ℕ) (b : List ℕ) → a ≢ id → mem a b ≡ true → mem a (without id b) ≡ true
unfolding without mem
mem-without-other id a [] n h = h
mem-without-other id a (x ∷ b) n h = ground (arith, mem-without-other id a b n)

-- A bucket: its peers belong in it, and it holds at most k of them.
pub record Kept (t : Table) (i : ℕ) (b : List ℕ) : Type 0 where
  pub placed : (a : ℕ) → mem a b ≡ true → bucket_index t.self a ≡ some i
  pub sized : length b ≤ t.k

abbrev pub WellFormed : Table → Type 0
WellFormed t = (i : ℕ) → Kept t i (t.buckets i)

refreshed-Kept :
    (t : Table) (i id : ℕ) (b : List ℕ) → mem id b ≡ true → Kept t i b → Kept t i (refreshed id b)
unfolding refreshed mem
refreshed-Kept t i id b held w = record {
  placed = λ a h.
      ground
        (arith, w.placed a, w.placed id, mem-append a (without id b) (id ∷ []), mem-without id a b);
  sized = ground (arith, w.sized, length-without id b, length-append (without id b) (id ∷ []));
}

without-Kept :
    (t : Table) (i id : ℕ) (b : List ℕ) → mem id b ≡ true → Kept t i b → Kept t i (without id b)
without-Kept t i id b held w = record {
  placed = λ a h. w.placed a (mem-without id a b h);
  sized = ground (arith, w.sized, length-without id b);
}

newest-Kept :
    (t : Table) (i id : ℕ) (b : List ℕ)
    → bucket_index t.self id ≡ some i
    → ltb (length b) t.k ≡ true
    → Kept t i b
    → Kept t i (b ++ id ∷ [])
unfolding mem
newest-Kept t i id b here room w = record {
  placed = λ a h. ground (arith, w.placed a, mem-append a b (id ∷ []));
  sized = ground (arith, w.sized, length-append b (id ∷ []));
}

put-Kept :
    (t : Table) (i : ℕ) (b : List ℕ) → WellFormed t → Kept t i b → WellFormed (put_bucket i b t)
unfolding put_bucket
put-Kept t i b w new j = elim (Bool-cases (j == i)) [
  | inl e ↦
      let same : j ≡ i = ground arith in
      record { placed = λ a h. ground (arith, new.placed a); sized = ground (arith, new.sized) }
  | inr e ↦ record {
    placed = λ a h. ground (arith, (w j).placed a);
    sized = ground (arith, (w j).sized);
  }
]

-- The two ways in which `observe` can change the table, and the third, in which it does not.
observe-cases :
    (id : ℕ) (t : Table) (i : ℕ)
    → bucket_index t.self id ≡ some i
    → ((mem id (t.buckets i) ≡ true) × (observe id t ≡ put_bucket i (refreshed id (t.buckets i)) t))
      ⊎ (((ltb (length (t.buckets i)) t.k ≡ true)
            × (domain_saturated (t.buckets i) id t ≡ false)
            × (observe id t ≡ put_bucket i (t.buckets i ++ id ∷ []) t))
          ⊎ (observe id t ≡ t))
unfolding observe
observe-cases id t i e = elim (Bool-cases (mem id (t.buckets i))) [
  | inl h ↦ inl (h, ground arith)
  | inr h ↦
      elim (Bool-cases
        (ltb (length (t.buckets i)) t.k && not (domain_saturated (t.buckets i) id t))) [
          | inl g ↦ inr (inl (ground arith, ground arith, ground arith))
          | inr g ↦ inr (inr (ground arith))
        ]
]

observe-none : (id : ℕ) (t : Table) → bucket_index t.self id ≡ none → observe id t ≡ t
unfolding observe
observe-none id t e = ground arith

observe-WellFormed : (id : ℕ) (t : Table) → WellFormed t → WellFormed (observe id t)
observe-WellFormed id t w = elim (Option-cases (bucket_index t.self id)) [
  | inl e ↦ subst WellFormed (sym (observe-none id t e)) w
  | inr (i, e) ↦ elim (observe-cases id t i e) [
    | inl (held, same) ↦
        subst WellFormed (sym same)
          (put-Kept t i _ w (refreshed-Kept t i id (t.buckets i) held (w i)))
    | inr (inl (room, free, same)) ↦
        subst WellFormed (sym same)
          (put-Kept t i _ w (newest-Kept t i id (t.buckets i) e room (w i)))
    | inr (inr same) ↦ subst WellFormed (sym same) w
  ]
]

drop_peer-cases :
    (id : ℕ) (t : Table)
    → (drop_peer id t ≡ t)
      ⊎ ((i : ℕ) × (mem id (t.buckets i) ≡ true)
          × (drop_peer id t ≡ put_bucket i (without id (t.buckets i)) t))
unfolding drop_peer
drop_peer-cases id t = elim (Option-cases (bucket_index t.self id)) [
  | inl e ↦ inl (ground arith)
  | inr (i, e) ↦ elim (Bool-cases (mem id (t.buckets i))) [
    | inl h ↦ inr (i, h, ground arith)
    | inr h ↦ inl (ground arith)
  ]
]

drop_peer-WellFormed : (id : ℕ) (t : Table) → WellFormed t → WellFormed (drop_peer id t)
drop_peer-WellFormed id t w = elim (drop_peer-cases id t) [
  | inl same ↦ subst WellFormed (sym same) w
  | inr (i, held, same) ↦
      subst WellFormed (sym same) (put-Kept t i _ w (without-Kept t i id (t.buckets i) held (w i)))
]

learn-WellFormed : (from domain : ℕ) (t : Table) → WellFormed t → WellFormed (learn from domain t)
unfolding learn
learn-WellFormed from domain t w i = record {
  placed = λ a h. ground (arith, (w i).placed a);
  sized = ground (arith, (w i).sized);
}

-- A routing table in use: built with its domain function and cap, then shown peers, told of dead ones
-- and of the domains that peers declare, in any order; a peer may declare another domain later.
pub data Reaches : Table → Type 0 where
  starts :
      (self k : ℕ) (domain_of : Option (ℕ → ℕ)) (cap : ℕ)
      → Reaches (set_diversity domain_of cap (new_table self k))
  observes : {t : Table} (id : ℕ) → Reaches t → Reaches (observe id t)
  drops : {t : Table} (id : ℕ) → Reaches t → Reaches (drop_peer id t)
  learns : {t : Table} (from domain : ℕ) → Reaches t → Reaches (learn from domain t)

pub table-WellFormed : (t : Table) → Reaches t → WellFormed t
unfolding set_diversity new_table mem
table-WellFormed t (starts self k domain_of n) =
    λ i. record { placed = λ a h. absurd (cc); sized = omega arith }
table-WellFormed t (observes {t = s} id r) = observe-WellFormed id s (table-WellFormed s r)
table-WellFormed t (drops {t = s} id r) = drop_peer-WellFormed id s (table-WellFormed s r)
table-WellFormed t (learns {t = s} from domain r) =
    learn-WellFormed from domain s (table-WellFormed s r)

-- A bucket that has not met the cap in this peer's domain has room for the peer.
room-capped :
    (t : Table) (id : ℕ) (b : List ℕ) (f : ℕ → ℕ)
    → t.domain_of ≡ some f
    → 0 < t.per_domain_cap
    → 0 < f id
    → domain_saturated b id t ≡ false
    → in_domain f (f id) (b ++ id ∷ []) ≤ t.per_domain_cap
unfolding domain_saturated in_domain
room-capped t id b f e cap known free = ground (arith, in_domain-append f (f id) b (id ∷ []))

put_bucket_self : (i : ℕ) (b : List ℕ) (t : Table) → (put_bucket i b t).buckets i ≡ b
unfolding put_bucket
put_bucket_self i b t = ground arith

-- A newcomer that a table in use takes in: it goes to the bucket of its distance, where all peers
-- belong, which had room for it and where, it included, no more peers than the cap share its domain,
-- as the node knows the domains at that time, where it knows that of the newcomer and the cap is on.
-- Those already there stay.
pub admission_capped :
    (t : Table) (id i : ℕ) (f : ℕ → ℕ)
    → Reaches t
    → bucket_index t.self id ≡ some i
    → mem id (t.buckets i) ≡ false
    → mem id ((observe id t).buckets i) ≡ true
    → t.domain_of ≡ some f
    → 0 < t.per_domain_cap
    → 0 < f id
    → ((observe id t).buckets i ≡ t.buckets i ++ id ∷ [])
      × Kept t i (t.buckets i ++ id ∷ [])
      × (in_domain f (f id) (t.buckets i ++ id ∷ []) ≤ t.per_domain_cap)
admission_capped t id i f r here new inside domains cap known = elim (observe-cases id t i here) [
  | inl (held, _) ↦ absurd (cc)
  | inr (inl (room, free, same)) ↦ (
    ap (λ z. Table.buckets z i) same ∙ put_bucket_self i (t.buckets i ++ id ∷ []) t,
    newest-Kept t i id (t.buckets i) here room (table-WellFormed t r i),
    room-capped t id (t.buckets i) f domains cap known free,
  )
  | inr (inr same) ↦
      let still : mem id (t.buckets i) ≡ true =
        subst (λ z. mem id (Table.buckets z i) ≡ true) same inside in
      absurd (cc)
]

kept_by_put :
    (t : Table) (i j a : ℕ) (b : List ℕ)
    → (mem a (t.buckets i) ≡ true → mem a b ≡ true)
    → mem a (t.buckets j) ≡ true
    → mem a ((put_bucket i b t).buckets j) ≡ true
unfolding put_bucket
kept_by_put t i j a b keep h = elim (Bool-cases (j == i)) [
  | inl e ↦ let same : j ≡ i = ground arith in ground (arith, keep)
  | inr e ↦ ground arith
]

mem-refreshed : (id a : ℕ) (b : List ℕ) → mem a b ≡ true → mem a (refreshed id b) ≡ true
unfolding refreshed mem
mem-refreshed id a b h =
    ground (arith, mem-append a (without id b) (id ∷ []), mem-without-other id a b)

mem-snoc : (id a : ℕ) (b : List ℕ) → mem a b ≡ true → mem a (b ++ id ∷ []) ≡ true
unfolding mem
mem-snoc id a b h = ground (arith, mem-append a b (id ∷ []))

-- To see a peer never displaces another one: what was in a bucket stays in it, so that no flood of
-- newcomers can evict an incumbent.
pub incumbents_stay :
    (id : ℕ) (t : Table) (j a : ℕ)
    → mem a (t.buckets j) ≡ true
    → mem a ((observe id t).buckets j) ≡ true
incumbents_stay id t j a h = elim (Option-cases (bucket_index t.self id)) [
  | inl e ↦ subst (λ z. mem a (Table.buckets z j) ≡ true) (sym (observe-none id t e)) h
  | inr (i, e) ↦ elim (observe-cases id t i e) [
    | inl (held, same) ↦
        subst (λ z. mem a (Table.buckets z j) ≡ true) (sym same)
          (kept_by_put t i j a _ (mem-refreshed id a (t.buckets i)) h)
    | inr (inl (room, free, same)) ↦
        subst (λ z. mem a (Table.buckets z j) ≡ true) (sym same)
          (kept_by_put t i j a _ (mem-snoc id a (t.buckets i)) h)
    | inr (inr same) ↦ subst (λ z. mem a (Table.buckets z j) ≡ true) (sym same) h
  ]
]
