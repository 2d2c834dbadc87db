-- ===== src/Chain/Metric.antt =====
-- The concentration measurement of core/chain/chain.go (`C2Metric`), and the maturity that rests on
-- it. The floating-point fields (HHI, Gini, TopShare) are left out: nothing decides by them.
use bitbit.Base.{
  ℕ, suc, ◌/◌, Bool, true, false, List, [], ◌∷◌, ◌++◌, length, mem, ltb, ◌==◌, ◌||◌, ◌&&◌,
  if◌then◌else◌, map,
}
use bitbit.Base.Int.{ℤ, pos, pos_part, add64, quo, ltb_ℤ, leb_ℤ}
use bitbit.Base.Maps.{Map, lookup, insert, get_or}
use bitbit.Chain.State.{Chain, objective, bonded_size}

pub record C2 : Type 0 where
  pub nakamoto_bonds : ℕ
  pub nakamoto_operators : ℕ
  pub cost_to_corrupt_bytes : ℤ
  pub total_bonded_bytes : ℤ
  pub participants : ℕ
  pub margin : ℕ
  pub nakamoto_domains : ℕ
  pub distinct_domains : ℕ

unfoldable pub operator_margin : Chain → ℕ
operator_margin c =
    if ltb_ℤ c.cfg.operator_margin (pos 1) then 1 else pos_part c.cfg.operator_margin

-- The identities that the loop does not skip: who has attested, holds a bond of the admission size,
-- and is neither an anchor nor slashed.
unfoldable pub counted : Chain → ℕ → Bool
counted c id =
    if mem id c.cfg.anchors || mem id c.slashed
    then false
    else leb_ℤ c.cfg.min_bond (bonded_size id c)

unfoldable pub participants : Chain → List ℕ → List ℕ
participants c [] = []
participants c (id ∷ ids) =
    let rest = participants c ids in if counted c id then id ∷ rest else rest

unfoldable pub sizes_of : Chain → List ℕ → List ℤ
sizes_of c [] = []
sizes_of c (id ∷ ids) = bonded_size id c ∷ sizes_of c ids

unfoldable pub total_of : ℤ → List ℤ → ℤ
total_of acc [] = acc
total_of acc (x ∷ xs) = total_of (add64 acc x) xs

-- `domainWeight` and `zeroDomainWeights`
unfoldable pub group : Chain → List ℕ → Map ℤ → List ℤ → Map ℤ × List ℤ
group c [] weights zeros = (weights, zeros)
group c (id ∷ ids) weights zeros =
    let d = get_or (lookup id c.bond_domain) 0 in
    let sz = bonded_size id c in
    group c ids
      (if d == 0 then weights else insert d (add64 (get_or (lookup d weights) (pos 0)) sz) weights)
      (if d == 0 then zeros ++ sz ∷ [] else zeros)

abbrev weight_of : ℕ × ℤ → ℤ
weight_of (d, w) = w

unfoldable pub groups : Chain → List ℕ → List ℤ
unfolding group
groups c ids = let (weights, zeros) = group c ids [] [] in map weight_of weights ++ zeros

-- `sort.Slice` with `>`: descending order, which fixes the list of sizes.
unfoldable pub insert_desc : ℤ → List ℤ → List ℤ
insert_desc x [] = x ∷ []
insert_desc x (y ∷ ys) = if ltb_ℤ x y then y ∷ insert_desc x ys else x ∷ (y ∷ ys)

unfoldable pub sort_desc : List ℤ → List ℤ
sort_desc [] = []
sort_desc (x ∷ xs) = insert_desc x (sort_desc xs)

-- The loop that sums the sizes until they exceed the threshold; `i` sizes stand before `xs`.
unfoldable pub nakamoto_from : ℤ → ℤ → ℕ → List ℤ → ℕ
nakamoto_from threshold cum i [] = i
nakamoto_from threshold cum i (x ∷ xs) =
    let rest = nakamoto_from threshold (add64 cum x) (suc i) xs in
    if ltb_ℤ threshold (add64 cum x) then suc i else rest

unfoldable pub nakamoto : ℤ → List ℤ → ℕ
nakamoto threshold xs = nakamoto_from threshold (pos 0) 0 (sort_desc xs)

abbrev measured : ℤ → ℕ → List ℤ → List ℤ → C2
measured total margin sizes gs = record {
  nakamoto_bonds = nakamoto (quo total (pos 3)) sizes;
  nakamoto_operators = nakamoto (quo total (pos 3)) sizes / margin;
  cost_to_corrupt_bytes = add64 (quo total (pos 3)) (pos 1);
  total_bonded_bytes = total;
  participants = length sizes;
  margin = margin;
  nakamoto_domains = nakamoto (quo total (pos 3)) gs;
  distinct_domains = length gs;
}

-- The early return: with no weight every coefficient stays 0.
abbrev unmeasured : ℕ → List ℤ → C2
unmeasured margin sizes = record {
  nakamoto_bonds = 0;
  nakamoto_operators = 0;
  cost_to_corrupt_bytes = pos 0;
  total_bonded_bytes = pos 0;
  participants = length sizes;
  margin = margin;
  nakamoto_domains = 0;
  distinct_domains = 0;
}

abbrev is_zero : ℤ → Bool
is_zero z = leb_ℤ z (pos 0) && leb_ℤ (pos 0) z

unfoldable pub c2_metric : Chain → C2
unfolding operator_margin nakamoto sizes_of total_of participants groups
c2_metric c =
    let ids = participants c c.validators_seen in
    let sizes = sizes_of c ids in
    let total = total_of (pos 0) sizes in
    if is_zero total
    then unmeasured (operator_margin c) sizes
    else measured total (operator_margin c) sizes (groups c ids)

-- Legacy mode: how many validators have been seen that are no anchors.
unfoldable pub non_anchors : List ℕ → List ℕ → ℕ
non_anchors anchors [] = 0
non_anchors anchors (id ∷ ids) =
    let rest = non_anchors anchors ids in if mem id anchors then rest else suc rest

abbrev smaller : ℕ → ℕ → ℕ
smaller k d = if ltb d k then d else k

unfoldable pub mature_now : Chain → Bool
mature_now c =
    if objective c
    then (let m = c2_metric c in
        leb_ℤ c.cfg.mature_validators (pos (smaller m.nakamoto_operators m.nakamoto_domains)))
    else leb_ℤ c.cfg.mature_validators (pos (non_anchors c.cfg.anchors c.validators_seen))

unfoldable pub mature : Chain → Bool
mature c = if leb_ℤ c.cfg.mature_validators (pos 0) then true else mature_now c
