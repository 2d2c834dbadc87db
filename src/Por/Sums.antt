-- ===== src/Por/Sums.antt =====
-- Sums modulo a number: what the tags and the aggregates of core/por/por.go add up to.
use bitbit.Base.{
  ℕ, suc, ◌+◌, ◌*◌, ◌%◌, ◌<◌, ◌≡◌, refl, sym, ap, ◌∙◌, List, [], ◌∷◌, length, All, arith, ◌==◌,
  if◌then◌else◌, Bool-cases, inl, inr,
}
use bitbit.Base.Bytes.{Bytes}
use native.Mathlib.Nat.{add-mod, mod-mod, mod-lt}
use bitbit.Blind.Modular.{mul-mod_right}
use bitbit.Por.Scheme.{prime, sector_of, tag_from, add_sectors, Query}

-- Congruence modulo the prime of the scheme.
abbrev pub Congruent : ℕ → ℕ → Type 0
Congruent a b = a % prime ≡ b % prime

pub Congruent-mod : (a : ℕ) → Congruent (a % prime) a
Congruent-mod a = mod-mod a prime

pub Congruent-add : (a b c d : ℕ) → Congruent a b → Congruent c d → Congruent (a + c) (b + d)
Congruent-add a b c d h k =
    add-mod a c prime
    ∙ ap (λ z. (z + c % prime) % prime) h
    ∙ ap (λ z. (b % prime + z) % prime) k
    ∙ sym (add-mod b d prime)

pub Congruent-mul : (x a b : ℕ) → Congruent a b → Congruent (x * a) (x * b)
Congruent-mul x a b h =
    sym (mul-mod_right x a prime) ∙ ap (λ z. x * z % prime) h ∙ mul-mod_right x b prime

-- The sectors of a block from sector j on, each times its secret coefficient.
abbrev pub block_sum : ℕ → Bytes → ℕ → ℕ → List ℕ → ℕ
block_sum sectors content i j [] = 0
block_sum sectors content i j (a ∷ alpha) =
    a * sector_of sectors content i j + block_sum sectors content i (j + 1) alpha

abbrev pub dot : List ℕ → List ℕ → ℕ
dot (a ∷ alpha) (m ∷ mu) = a * m + dot alpha mu
dot _ _ = 0

-- A step of either loop that leaves out a zero term.
skip_zero : (m acc x : ℕ) → Congruent (if m == 0 then acc else (acc + x * m) % prime) (acc + x * m)
skip_zero m acc x = elim (Bool-cases (m == 0)) [
  | inl e ↦
      let z : m ≡ 0 = ground (arith, e) in
      let same : acc + x * m ≡ acc = ap (λ k. acc + x * k) z ∙ omega arith in
      rw e (ap (λ k. k % prime) (sym same))
  | inr e ↦ rw e (Congruent-mod (acc + x * m))
]

pub tag_from-Congruent :
    (sectors : ℕ) (content : Bytes) (i j : ℕ) (alpha : List ℕ) (sigma : ℕ)
    → Congruent
        (tag_from sectors content i j alpha sigma)
        (sigma + block_sum sectors content i j alpha)
unfolding tag_from
tag_from-Congruent sectors content i j [] sigma =
    let e : sigma + 0 ≡ sigma = omega arith in ap (λ z. z % prime) (sym e)
tag_from-Congruent sectors content i j (a ∷ alpha) sigma =
    let m = sector_of sectors content i j in
    let rest = block_sum sectors content i (j + 1) alpha in
    let regroup : sigma + a * m + rest ≡ sigma + (a * m + rest) = omega arith in
    let step : Congruent (if m == 0 then sigma else (sigma + a * m) % prime) (sigma + a * m) =
      skip_zero m sigma a in
    tag_from-Congruent sectors content i (j + 1) alpha
      (if m == 0 then sigma else (sigma + a * m) % prime)
    ∙ Congruent-add _ _ rest rest step refl
    ∙ ap (λ z. z % prime) regroup

pub length-add_sectors :
    (sectors : ℕ) (content : Bytes) (q : Query) (j : ℕ) (mu : List ℕ)
    → length (add_sectors sectors content q j mu) ≡ length mu
unfolding add_sectors
length-add_sectors sectors content q j [] = refl
length-add_sectors sectors content q j (m ∷ mu) =
    ap (λ z. suc z) (length-add_sectors sectors content q (j + 1) mu)

pub add_sectors-Congruent :
    (sectors : ℕ) (content : Bytes) (q : Query) (j : ℕ) (alpha mu : List ℕ)
    → length mu ≡ length alpha
    → Congruent
        (dot alpha (add_sectors sectors content q j mu))
        (dot alpha mu + q.nu * block_sum sectors content q.i j alpha)
unfolding add_sectors
add_sectors-Congruent sectors content q j [] [] h =
    let e : 0 + q.nu * 0 ≡ 0 = omega arith in ap (λ z. z % prime) (sym e)
add_sectors-Congruent sectors content q j [] (m ∷ mu) h = absurd (omega (arith, h))
add_sectors-Congruent sectors content q j (a ∷ alpha) [] h = absurd (omega (arith, h))
add_sectors-Congruent sectors content q j (a ∷ alpha) (m ∷ mu) h =
    let x = sector_of sectors content q.i j in
    let rest = block_sum sectors content q.i (j + 1) alpha in
    let others = dot alpha mu in
    let regroup : a * (m + q.nu * x) + (others + q.nu * rest)
        ≡ a * m + others + q.nu * (a * x + rest) =
      grind arith in
    Congruent-add _ _ _ _ (Congruent-mul a _ _ (skip_zero x m q.nu))
      (add_sectors-Congruent sectors content q (j + 1) alpha mu (omega (arith, h)))
    ∙ ap (λ z. z % prime) regroup

pub add_sectors-All :
    (sectors : ℕ) (content : Bytes) (q : Query) (j : ℕ) (mu : List ℕ)
    → 0 < prime
    → All (λ m. m < prime) mu
    → All (λ m. m < prime) (add_sectors sectors content q j mu)
unfolding add_sectors
add_sectors-All sectors content q j [] p h = tt
add_sectors-All sectors content q j (m ∷ mu) p h = (
  elim (Bool-cases (sector_of sectors content q.i j == 0)) [
    | inl e ↦ rw e h.0
    | inr e ↦ rw e (mod-lt (m + q.nu * sector_of sectors content q.i j) p)
  ],
  add_sectors-All sectors content q (j + 1) mu p h.1,
)
