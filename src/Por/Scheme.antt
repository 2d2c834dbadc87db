-- ===== src/Por/Scheme.antt =====
-- The Shacham-Waters scheme with private verification: core/por/por.go. HMAC-SHA-256 is a parameter,
-- its digest a number. A big.Int here is never negative, and neither is an index or a size. The
-- two loops that draw until a value fits run on fuel, the number of draws; without it, and where Go
-- panics, there is no result.
use bitbit.Base.{
  ℕ, zero, suc, ◌+◌, ◌-◌, ◌*◌, ◌/◌, ◌%◌, ◌^◌, Bool, false, not, ◌||◌, Option, none, some, List, [],
  ◌∷◌, ◌++◌, length, get_elem?, take, drop, mem, ltb, leb, ◌==◌, if◌then◌else◌,
}
use bitbit.Base.Bytes.{Bytes, ascii, be_bytes, be_value}

unfoldable pub prime : ℕ
prime = 2 ^ 255 - 19

abbrev pub sector_bytes : ℕ
sector_bytes = 31

abbrev pub elem_bytes : ℕ
elem_bytes = 32

abbrev pub default_params : ℕ
default_params = 128

abbrev pub block_bytes : ℕ → ℕ
block_bytes sectors = sectors * sector_bytes

unfoldable pub blocks : ℕ → ℕ → ℕ
blocks sectors n = if n == 0 then 0 else (n + block_bytes sectors - 1) / block_bytes sectors

-- Go keeps `sectors` in a Params; `alpha` has as many elements.
pub record Key : Type 0 where
  pub sectors : ℕ
  pub prf : Bytes
  pub alpha : List ℕ

pub record Challenge : Type 0 where
  pub seed : Bytes
  pub blocks : ℕ
  pub count : ℕ

pub record Query : Type 0 where
  pub i : ℕ
  pub nu : ℕ

pub record Proof : Type 0 where
  pub mu : List Bytes
  pub sigma : Bytes

unfoldable pub encode_elem : ℕ → Bytes
encode_elem v = be_bytes elem_bytes v

unfoldable pub sector_of : ℕ → Bytes → ℕ → ℕ → ℕ
sector_of sectors content i j =
    let off = i * block_bytes sectors + j * sector_bytes in
    if leb (length content) off then 0 else be_value (take sector_bytes (drop off content))

-- The loop over the sectors of a block, from sector j on.
unfoldable pub tag_from : ℕ → Bytes → ℕ → ℕ → List ℕ → ℕ → ℕ
tag_from sectors content i j [] sigma = sigma
tag_from sectors content i j (a ∷ alpha) sigma =
    let mij = sector_of sectors content i j in
    tag_from sectors content i (j + 1) alpha (if mij == 0 then sigma else (sigma + a * mij) % prime)

-- What one query adds to the aggregates, from sector j on.
unfoldable pub add_sectors : ℕ → Bytes → Query → ℕ → List ℕ → List ℕ
add_sectors sectors content q j [] = []
add_sectors sectors content q j (m ∷ mu) =
    let mij = sector_of sectors content q.i j in
    (if mij == 0 then m else (m + q.nu * mij) % prime) ∷ add_sectors sectors content q (j + 1) mu

-- None where a tag is missing, which panics.
unfoldable pub aggregate : ℕ → Bytes → List Bytes → List Query → ℕ → List ℕ → Option (ℕ × List ℕ)
aggregate sectors content tags [] sigma mu = some (sigma, mu)
aggregate sectors content tags (q ∷ qs) sigma mu = elim (get_elem? tags q.i) [
  | none ↦ none
  | some tag ↦
      aggregate sectors content tags qs ((sigma + q.nu * be_value tag) % prime)
        (add_sectors sectors content q 0 mu)
]

unfoldable pub zero_elems : ℕ → List ℕ
zero_elems zero = []
zero_elems (suc n) = 0 ∷ zero_elems n

unfoldable pub encode_all : List ℕ → List Bytes
encode_all [] = []
encode_all (m ∷ mu) = encode_elem m ∷ encode_all mu

-- The right-hand side's loop over the aggregates; none where one is not below the prime.
unfoldable pub add_mu : List ℕ → List Bytes → ℕ → Option ℕ
add_mu (a ∷ alpha) (m ∷ mu) rhs =
    let rest = add_mu alpha mu ((rhs + a * be_value m) % prime) in
    if leb prime (be_value m) then none else rest
add_mu _ _ rhs = some rhs

abbrev pub closes : ℕ → Option ℕ → Bool
closes lhs none = false
closes lhs (some rhs) = lhs == rhs

pub data ProveResult : Type 0 where
  proved : Proof → ProveResult
  bad_params : ProveResult
  mismatch : ProveResult
  no_result : ProveResult

module _ (mac : Bytes → Bytes → ℕ) where
  unfoldable pub prf_i : Key → Bytes → ℕ → ℕ
  prf_i k unit_id i =
      mac k.prf
        (ascii "silt/por/v1/blk" ++ (be_bytes 4 (length unit_id) ++ (unit_id ++ be_bytes 8 i)))
      % prime

  unfoldable pub prf_bytes : Bytes → Bytes → ℕ → ℕ
  prf_bytes seed domain ctr = mac seed (ascii "silt/por/v1/" ++ (domain ++ be_bytes 4 ctr))

  unfoldable pub prf_uint : Bytes → Bytes → ℕ → ℕ
  prf_uint seed domain ctr = prf_bytes seed domain ctr / 2 ^ 192

  unfoldable pub prf_elem : Bytes → Bytes → ℕ → ℕ
  prf_elem seed domain ctr = prf_bytes seed domain ctr

  unfoldable pub tag : Key → Bytes → Bytes → ℕ → Bytes
  tag k unit_id content i = encode_elem (tag_from k.sectors content i 0 k.alpha (prf_i k unit_id i))

  -- The tags of n blocks from block i on.
  unfoldable pub tags_from : Key → Bytes → Bytes → ℕ → ℕ → List Bytes
  tags_from k unit_id content zero i = []
  tags_from k unit_id content (suc n) i =
      tag k unit_id content i ∷ tags_from k unit_id content n (i + 1)

  unfoldable pub tags : Key → Bytes → Bytes → List Bytes
  tags k unit_id content = tags_from k unit_id content (blocks k.sectors (length content)) 0

  unfoldable pub coefficient : Challenge → ℕ → ℕ
  coefficient c i = let nu = prf_elem c.seed (ascii "coeff") i % prime in if nu == 0 then 1 else nu

  unfoldable pub expand_from : ℕ → ℕ → Challenge → List ℕ → List Query → Option (List Query)
  expand_from zero ctr c used qs = if ltb (length qs) c.count then none else some qs
  expand_from (suc fuel) ctr c used qs =
      let i = prf_uint c.seed (ascii "index") ctr % c.blocks in
      let redraw = expand_from fuel (ctr + 1) c used qs in
      let next =
        expand_from fuel (ctr + 1) c (i ∷ used)
          (qs ++ record { i = i; nu = coefficient c i } ∷ []) in
      if not (ltb (length qs) c.count)
      then some qs
      else if c.blocks == 0
      then none
      else if mem i used
      then redraw
      else next

  unfoldable pub expand : ℕ → Challenge → Option (List Query)
  expand draws c = expand_from draws 0 c [] []

  abbrev pub proof_of : Option (ℕ × List ℕ) → ProveResult
  proof_of none = no_result
  proof_of (some (sigma, mu)) = proved (record { mu = encode_all mu; sigma = encode_elem sigma })

  abbrev pub prove_with : ℕ → Bytes → List Bytes → Option (List Query) → ProveResult
  prove_with sectors content tags none = no_result
  prove_with sectors content tags (some qs) =
      proof_of (aggregate sectors content tags qs 0 (zero_elems sectors))

  unfoldable pub prove : ℕ → ℕ → Bytes → List Bytes → Challenge → ProveResult
  prove draws sectors content tags c =
      if sectors == 0
      then bad_params
      else if not (c.blocks == length tags)
      then mismatch
      else prove_with sectors content tags (expand draws c)

  -- The right-hand side's loop over the queries.
  unfoldable pub add_prf : Key → Bytes → List Query → ℕ → ℕ
  add_prf k unit_id [] rhs = rhs
  add_prf k unit_id (q ∷ qs) rhs = add_prf k unit_id qs ((rhs + q.nu * prf_i k unit_id q.i) % prime)

  abbrev pub verify_with : Key → Bytes → Proof → Option (List Query) → Option Bool
  verify_with k unit_id p none = none
  verify_with k unit_id p (some qs) =
      some (closes (be_value p.sigma) (add_mu k.alpha p.mu (add_prf k unit_id qs 0)))

  unfoldable pub verify : ℕ → Key → Bytes → Challenge → Proof → Option Bool
  verify draws k unit_id c p =
      if not (length p.mu == k.sectors) || not (length p.sigma == elem_bytes)
      then some false
      else if leb prime (be_value p.sigma)
      then some false
      else verify_with k unit_id p (expand draws c)
