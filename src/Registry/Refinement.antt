-- ===== src/Registry/Refinement.antt =====
-- The registry of core/registry/registry.go against its specification: a list of entries, one for each root, in
-- which a root is found by searching.
use bitbit.Base.{
  ℕ, zero, suc, ◌≡◌, refl, sym, ap, ◌∙◌, subst, Option, none, some, List, [], ◌∷◌, ◌++◌, length,
  get_elem?, get_elem?-append_last, ◌==◌, if◌then◌else◌, arith, Bool-cases, Option-cases, inl, inr,
}
use bitbit.Base.Maps.{lookup, insert, lookup-insert}
use bitbit.Chain.Types.{Entry}
use bitbit.Registry.Log.{
  Log, Reply, ok, dup_publish, Found, missing, holds, new, same_content, publish, lookup_entry, all,
}

abbrev pub find : ℕ → List Entry → Option Entry
find root [] = none
find root (e ∷ es) = if root == e.root then some e else find root es

abbrev pub found : Option Entry → Found
found none = missing
found (some e) = holds e

-- What a publish does to the list, and its answer.
abbrev spec_publish : Entry → List Entry → List Entry × Reply
spec_publish e es = elim (find e.root es) [
  | none ↦ (es ++ e ∷ [], ok)
  | some held ↦ (es, if same_content held e then ok else dup_publish)
]

abbrev pub publish_all : List Entry → Log → Log × List Reply
publish_all [] l = (l, [])
publish_all (e ∷ es) l =
    let (l', reply) = publish e l in
    let (last, replies) = publish_all es l' in (last, reply ∷ replies)

abbrev pub spec_all : List Entry → List Entry → List Entry × List Reply
spec_all [] es = (es, [])
spec_all (e ∷ more) es =
    let (es', reply) = spec_publish e es in
    let (last, replies) = spec_all more es' in (last, reply ∷ replies)

-- The index answers as a search does.
abbrev pub IsIndexed : Log → Type 0
IsIndexed l = (root : ℕ) → lookup_entry root l ≡ found (find root l.entries)

find-snoc :
    (root : ℕ) (es : List Entry) (e : Entry)
    → find root (es ++ e ∷ [])
      ≡ elim (find root es) [ none ↦ (if root == e.root then some e else none) | some x ↦ some x ]
find-snoc root [] e = refl
find-snoc root (x ∷ es) e = ground (arith, find-snoc root es e)

get_elem?-longer :
    (es more : List Entry) (i : ℕ) (x : Entry)
    → get_elem? es i ≡ some x
    → get_elem? (es ++ more) i ≡ some x
get_elem?-longer [] more i x h = absurd (cc)
get_elem?-longer (e ∷ es) more zero x h = h
get_elem?-longer (e ∷ es) more (suc i) x h = get_elem?-longer es more i x h

-- What the index holds, by the answer of a lookup.
of-missing : (root : ℕ) (l : Log) → lookup_entry root l ≡ missing → lookup root l.by_root ≡ none
unfolding lookup_entry
of-missing root l h = ground (arith, h)

of-holds :
    (root : ℕ) (l : Log) (e : Entry)
    → lookup_entry root l ≡ holds e
    → (i : ℕ) × (lookup root l.by_root ≡ some i) × (get_elem? l.entries i ≡ some e)
unfolding lookup_entry
of-holds root l e h = elim (Option-cases (lookup root l.by_root)) [
  | inl m ↦ absurd (ground (arith, m, h))
  | inr (i, m) ↦ (i, m, ground (arith, m, h))
]

-- One publish, by what the search finds.
pub publish-known :
    (e held : Entry) (l : Log)
    → IsIndexed l
    → find e.root l.entries ≡ some held
    → publish e l ≡ (l, if same_content held e then ok else dup_publish)
unfolding publish
publish-known e held l ix h =
    let (i, m, g) = of-holds e.root l held (ix e.root ∙ ap found h) in
    elim (Bool-cases (same_content held e)) [
      | inl c ↦ rw (publish, m, g, c) refl
      | inr c ↦ rw (publish, m, g, c) refl
    ]

pub publish-new :
    (e : Entry) (l : Log)
    → IsIndexed l
    → find e.root l.entries ≡ none
    → publish e l ≡ (
      record l {
        by_root = insert e.root (length l.entries) l.by_root;
        entries = l.entries ++ e ∷ [];
      },
      ok,
    )
unfolding publish
publish-new e l ix h = rw (publish, of-missing e.root l (ix e.root ∙ ap found h)) refl

added-IsIndexed :
    (e : Entry) (l : Log)
    → IsIndexed l
    → find e.root l.entries ≡ none
    → IsIndexed (record l {
      by_root = insert e.root (length l.entries) l.by_root;
      entries = l.entries ++ e ∷ [];
    })
unfolding lookup_entry
added-IsIndexed e l ix h root =
    let added = lookup-insert e.root root (length l.entries) l.by_root in
    elim (Bool-cases (root == e.root)) [
      | inl same ↦
          let root-eq : root ≡ e.root = ground (arith, same) in
          let unknown : find root l.entries ≡ none = ap (λ z. find z l.entries) root-eq ∙ h in
          rw
            (
              lookup_entry,
              added,
              same,
              get_elem?-append_last l.entries e,
              find-snoc root l.entries e,
              unknown,
              same,
            )
            refl
      | inr other ↦ elim (Option-cases (find root l.entries)) [
        | inl unknown ↦
            let no_index = of-missing root l (ix root ∙ ap found unknown) in
            rw (lookup_entry, added, other, no_index, find-snoc root l.entries e, unknown, other)
              refl
        | inr (x, known) ↦
            let (i, m, g) = of-holds root l x (ix root ∙ ap found known) in
            rw
              (
                lookup_entry,
                added,
                other,
                m,
                get_elem?-longer l.entries (e ∷ []) i x g,
                find-snoc root l.entries e,
                known,
              )
              refl
      ]
    ]

spec_publish-new :
    (e : Entry) (es : List Entry) → find e.root es ≡ none → spec_publish e es ≡ (es ++ e ∷ [], ok)
spec_publish-new e es h = rw (spec_publish, h) refl

spec_publish-known :
    (e held : Entry) (es : List Entry)
    → find e.root es ≡ some held
    → spec_publish e es ≡ (es, if same_content held e then ok else dup_publish)
spec_publish-known e held es h = rw (spec_publish, h) refl

publish_all-step :
    (e : Entry) (es : List Entry) (l : Log) (r : Log × Reply)
    → publish e l ≡ r
    → publish_all (e ∷ es) l ≡ ((publish_all es r.0).0, r.1 ∷ (publish_all es r.0).1)
publish_all-step e es l r h =
    ap (λ (z : Log × Reply). ((publish_all es z.0).0, z.1 ∷ (publish_all es z.0).1)) h

spec_all-step :
    (e : Entry) (es held : List Entry) (r : List Entry × Reply)
    → spec_publish e held ≡ r
    → spec_all (e ∷ es) held ≡ ((spec_all es r.0).0, r.1 ∷ (spec_all es r.0).1)
spec_all-step e es held r h =
    ap (λ (z : List Entry × Reply). ((spec_all es z.0).0, z.1 ∷ (spec_all es z.0).1)) h

-- What the two runs have in common.
abbrev Agree : Log × List Reply → List Entry × List Reply → Type 0
Agree (l, replies) (spec, expected) = (replies ≡ expected) × (l.entries ≡ spec) × IsIndexed l

Agree-step :
    (e : Entry) (es : List Entry) (l l' : Log) (answer : Reply)
    → publish e l ≡ (l', answer)
    → spec_publish e l.entries ≡ (l'.entries, answer)
    → Agree (publish_all es l') (spec_all es l'.entries)
    → Agree (publish_all (e ∷ es) l) (spec_all (e ∷ es) l.entries)
Agree-step e es l l' answer did should (replies, state, ix) =
    let did' = publish_all-step e es l _ did in
    let should' = spec_all-step e es l.entries _ should in
    subst (λ z. Agree z (spec_all (e ∷ es) l.entries)) (sym did')
      (subst (λ z. Agree ((publish_all es l').0, answer ∷ (publish_all es l').1) z) (sym should')
        (ap (λ z. answer ∷ z) replies, state, ix))

-- Published in turn, starting from an indexed registry.
refines :
    (es : List Entry) (l : Log) → IsIndexed l → Agree (publish_all es l) (spec_all es l.entries)
refines [] l ix = (refl, refl, ix)
refines (e ∷ es) l ix = elim (Option-cases (find e.root l.entries)) [
  | inl unknown ↦
      let l' = record l {
        by_root = insert e.root (length l.entries) l.by_root;
        entries = l.entries ++ e ∷ [];
      } in
      Agree-step e es l l' ok (publish-new e l ix unknown) (spec_publish-new e l.entries unknown)
        (refines es l' (added-IsIndexed e l ix unknown))
  | inr (held, known) ↦
      Agree-step e es l l (if same_content held e then ok else dup_publish)
        (publish-known e held l ix known) (spec_publish-known e held l.entries known)
        (refines es l ix)
]

-- After entries are published in turn to an empty registry, each publish has answered what the
-- specification answers, `All` gives the specification's list, and `Lookup` answers for every root as
-- a search of that list does; no index is out of range.
pub registry_refines :
    (es : List Entry)
    → let (l, replies) = publish_all es new in
      let (spec, expected) = spec_all es [] in
      (replies ≡ expected)
      × (all l ≡ spec)
      × ((root : ℕ) → lookup_entry root l ≡ found (find root spec))
unfolding all lookup_entry lookup
registry_refines es =
    let (replies, state, ix) = refines es new (λ root. refl) in
    (replies, state, λ root. ix root ∙ ap (λ z. found (find root z)) state)
