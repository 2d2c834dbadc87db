-- ===== src/Por/Aggregates.antt =====
-- What an honest holder's aggregates come to: core/por/por.go.
use bitbit.Base.{
  ℕ, zero, suc, ◌+◌, ◌*◌, ◌%◌, ◌^◌, ◌<◌, ◌≤◌, ◌≡◌, refl, sym, ap, ◌∙◌, false, some, List, [], ◌∷◌,
  length, get_elem?, All, leb, ◌==◌, if◌then◌else◌, arith, Bool-cases, inl, inr,
}
use bitbit.Base.Bytes.{Bytes, be_value, length-be_bytes, be_value-be_bytes}
use native.Mathlib.Nat.{mod-lt}
use bitbit.Por.Scheme.{
  prime, sector_of, Key, Query, encode_elem, tag_from, add_sectors, aggregate, zero_elems,
  encode_all, add_mu, prf_i, tag, tags_from, add_prf,
}
use bitbit.Por.Sums.{
  Congruent, Congruent-mod, Congruent-add, Congruent-mul, block_sum, dot, tag_from-Congruent,
  length-add_sectors, add_sectors-Congruent, add_sectors-All,
}

abbrev pub Small : ℕ → Type 0
Small m = m < prime

pub prime-positive : 0 < prime
unfolding prime
prime-positive = omega arith

pub prime-fits : prime ≤ 256 ^ 32
unfolding prime
prime-fits = omega arith

pub elem-round_trip : (v : ℕ) → v < prime → be_value (encode_elem v) ≡ v
unfolding encode_elem
elem-round_trip v h = be_value-be_bytes 32 v (omega (arith, h, prime-fits))

pub length-encode_elem : (v : ℕ) → length (encode_elem v) ≡ 32
unfolding encode_elem
length-encode_elem v = length-be_bytes 32 v

tag_from-Small :
    (sectors : ℕ) (content : Bytes) (i j : ℕ) (alpha : List ℕ) (sigma : ℕ)
    → Small sigma
    → Small (tag_from sectors content i j alpha sigma)
unfolding tag_from
tag_from-Small sectors content i j [] sigma h = h
tag_from-Small sectors content i j (a ∷ alpha) sigma h =
    let m = sector_of sectors content i j in
    tag_from-Small sectors content i (j + 1) alpha
      (if m == 0 then sigma else (sigma + a * m) % prime)
      (elim (Bool-cases (m == 0)) [
        | inl e ↦ rw e h
        | inr e ↦ rw e (mod-lt (sigma + a * m) prime-positive)
      ])

pub zero_elems-All : (n : ℕ) → All Small (zero_elems n)
unfolding zero_elems
zero_elems-All zero = tt
zero_elems-All (suc n) = (prime-positive, zero_elems-All n)

pub length-zero_elems : (n : ℕ) → length (zero_elems n) ≡ n
unfolding zero_elems
length-zero_elems zero = refl
length-zero_elems (suc n) = ap (λ z. suc z) (length-zero_elems n)

pub dot-zero_elems : (alpha : List ℕ) (n : ℕ) → dot alpha (zero_elems n) ≡ 0
unfolding zero_elems
dot-zero_elems [] zero = refl
dot-zero_elems [] (suc n) = refl
dot-zero_elems (a ∷ alpha) zero = refl
dot-zero_elems (a ∷ alpha) (suc n) = omega (arith, dot-zero_elems alpha n)

pub length-encode_all : (mu : List ℕ) → length (encode_all mu) ≡ length mu
unfolding encode_all
length-encode_all [] = refl
length-encode_all (m ∷ mu) = ap (λ z. suc z) (length-encode_all mu)

-- The right-hand side, once the aggregates are in.
pub add_mu-total :
    (alpha mu : List ℕ) (rhs : ℕ)
    → length mu ≡ length alpha
    → All Small mu
    → Small rhs
    → (r : ℕ) × (add_mu alpha (encode_all mu) rhs ≡ some r)
      × Small r
      × Congruent r (rhs + dot alpha mu)
unfolding add_mu encode_all
add_mu-total [] [] rhs len small h =
    (rhs, refl, h, let e : rhs + 0 ≡ rhs = omega arith in ap (λ z. z % prime) (sym e))
add_mu-total [] (m ∷ mu) rhs len small h = absurd (omega (arith, len))
add_mu-total (a ∷ alpha) [] rhs len small h = absurd (omega (arith, len))
add_mu-total (a ∷ alpha) (m ∷ mu) rhs len small h =
    let (r, got, below, same) =
      add_mu-total alpha mu ((rhs + a * m) % prime) (omega (arith, len)) small.1
        (mod-lt (rhs + a * m) prime-positive) in
    let value : be_value (encode_elem m) ≡ m = elem-round_trip m small.0 in
    let canonical : leb prime (be_value (encode_elem m)) ≡ false = ground (arith, value, small.0) in
    let regroup : rhs + a * m + dot alpha mu ≡ rhs + (a * m + dot alpha mu) = omega arith in
    (
      r,
      rw (canonical, value) got,
      below,
      same
          ∙ Congruent-add _ _ (dot alpha mu) (dot alpha mu) (Congruent-mod (rhs + a * m)) refl
          ∙ ap (λ z. z % prime) regroup,
    )

module _ (mac : Bytes → Bytes → ℕ) where
  prf_i-Small : (k : Key) (unit_id : Bytes) (i : ℕ) → Small (prf_i mac k unit_id i)
  unfolding prf_i
  prf_i-Small k unit_id i = mod-lt _ prime-positive

  pub add_prf-Small :
      (k : Key) (unit_id : Bytes) (qs : List Query) (rhs : ℕ)
      → Small rhs
      → Small (add_prf mac k unit_id qs rhs)
  unfolding add_prf
  add_prf-Small k unit_id [] rhs h = h
  add_prf-Small k unit_id (q ∷ qs) rhs h =
      add_prf-Small k unit_id qs _ (mod-lt (rhs + q.nu * prf_i mac k unit_id q.i) prime-positive)

  tag_at :
      (k : Key) (unit_id content : Bytes) (n i0 i : ℕ)
      → i < n
      → get_elem? (tags_from mac k unit_id content n i0) i
        ≡ some (tag mac k unit_id content (i0 + i))
  unfolding tags_from
  tag_at k unit_id content zero i0 i h = absurd (omega (arith, h))
  tag_at k unit_id content (suc n) i0 zero h = let e : i0 + 0 ≡ i0 = omega arith in rw e refl
  tag_at k unit_id content (suc n) i0 (suc i) h =
      let e : i0 + 1 + i ≡ i0 + suc i = omega arith in
      tag_at k unit_id content n (i0 + 1) i (omega (arith, h))
      ∙ ap (λ z. some (tag mac k unit_id content z)) e

  tag_value :
      (k : Key) (unit_id content : Bytes) (i : ℕ)
      → Congruent
          (be_value (tag mac k unit_id content i))
          (prf_i mac k unit_id i + block_sum k.sectors content i 0 k.alpha)
  unfolding tag
  tag_value k unit_id content i =
      let sigma = tag_from k.sectors content i 0 k.alpha (prf_i mac k unit_id i) in
      ap (λ z. z % prime)
        (elem-round_trip sigma (
          tag_from-Small k.sectors content i 0 k.alpha (prf_i mac k unit_id i)
            (prf_i-Small k unit_id i)))
      ∙ tag_from-Congruent k.sectors content i 0 k.alpha (prf_i mac k unit_id i)

  -- What the aggregates of a list of queries come to, next to the right-hand side.
  pub record Aggregated (k : Key) (unit_id content : Bytes) (tag_list : List Bytes)
      (qs : List Query) (sigma : ℕ) (mu : List ℕ) (rhs : ℕ) : Type 0 where
    pub sigma_end : ℕ
    pub mu_end : List ℕ
    pub done : aggregate k.sectors content tag_list qs sigma mu ≡ some (sigma_end, mu_end)
    pub small : Small sigma_end
    pub smalls : All Small mu_end
    pub sized : length mu_end ≡ length k.alpha
    pub agree : Congruent sigma_end (add_prf mac k unit_id qs rhs + dot k.alpha mu_end)

  pub aggregated :
      (k : Key) (unit_id content : Bytes) (n : ℕ) (qs : List Query) (sigma : ℕ) (mu : List ℕ)
      (rhs : ℕ)
      → All (λ (q : Query). q.i < n) qs
      → Small sigma
      → All Small mu
      → length mu ≡ length k.alpha
      → Congruent sigma (rhs + dot k.alpha mu)
      → Aggregated k unit_id content (tags_from mac k unit_id content n 0) qs sigma mu rhs
  unfolding aggregate add_prf
  aggregated k unit_id content n [] sigma mu rhs range small smalls sized agree = record {
    sigma_end = sigma;
    mu_end = mu;
    done = refl;
    small = small;
    smalls = smalls;
    sized = sized;
    agree = agree;
  }
  aggregated k unit_id content n (q ∷ qs) sigma mu rhs range small smalls sized agree =
      let t = be_value (tag mac k unit_id content q.i) in
      let p = prf_i mac k unit_id q.i in
      let sectors = block_sum k.sectors content q.i 0 k.alpha in
      let held = dot k.alpha mu in
      let mu' = add_sectors k.sectors content q 0 mu in
      let regroup : rhs + held + q.nu * (p + sectors) ≡ rhs + q.nu * p + (held + q.nu * sectors) =
        grind arith in
      let step : Congruent ((sigma + q.nu * t) % prime)
          ((rhs + q.nu * p) % prime + dot k.alpha mu') =
        Congruent-mod (sigma + q.nu * t)
        ∙ Congruent-add sigma (rhs + held) (q.nu * t) (q.nu * (p + sectors)) agree
            (Congruent-mul q.nu t (p + sectors) (tag_value k unit_id content q.i))
        ∙ ap (λ z. z % prime) regroup
        ∙ sym (
            Congruent-add _ _ _ _ (Congruent-mod (rhs + q.nu * p))
              (add_sectors-Congruent k.sectors content q 0 k.alpha mu sized)) in
      let rest =
        aggregated k unit_id content n qs ((sigma + q.nu * t) % prime) mu'
          ((rhs + q.nu * p) % prime) range.1 (mod-lt (sigma + q.nu * t) prime-positive)
          (add_sectors-All k.sectors content q 0 mu prime-positive smalls)
          (length-add_sectors k.sectors content q 0 mu ∙ sized) step in
      let at_zero : 0 + q.i ≡ q.i = omega arith in
      let here : get_elem? (tags_from mac k unit_id content n 0) q.i
          ≡ some (tag mac k unit_id content q.i) =
        tag_at k unit_id content n 0 q.i range.0
        ∙ ap (λ z. some (tag mac k unit_id content z)) at_zero in
      record {
        sigma_end = rest.sigma_end;
        mu_end = rest.mu_end;
        done = rw (aggregate, here) rest.done;
        small = rest.small;
        smalls = rest.smalls;
        sized = rest.sized;
        agree = rest.agree;
      }
