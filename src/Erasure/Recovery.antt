-- ===== src/Erasure/Recovery.antt =====
-- The slots of a stripe whose shards are lost in part: core/erasure/erasure.go.
use bitbit.Base.{
  ℕ, zero, suc, ◌+◌, ◌-◌, ◌⊎◌, min, max, ◌<◌, ◌≤◌, ◌≡◌, refl, sym, ap, ◌∙◌, subst, true, ◌&&◌,
  Option, none, some, List, [], ◌∷◌, ◌++◌, length, All, take, ltb, leb, ◌==◌, arith, Bool-cases,
  inl, inr,
}
use bitbit.Base.Bytes.{Bytes, zeros, length-zeros}
use bitbit.Erasure.Stripe.{ReedSolomon, same_size, copies, first_size, fill_padding, available}

-- The shards that are there are those of the stripe.
abbrev pub Agrees : List (Option Bytes) → List Bytes → Type 0
Agrees [] [] = Unit
Agrees (none ∷ slots) (s ∷ shards) = Agrees slots shards
Agrees (some b ∷ slots) (s ∷ shards) = (b ≡ s) × Agrees slots shards
Agrees _ _ = ⊥

-- What the Reed-Solomon library promises: it encodes what it is given, an encoded stripe has the right
-- parity, and any k of its shards give back all of it.
pub record IsErasureCode (rs : ReedSolomon) : Type 0 where
  pub data_kept :
      (k m : ℕ) (shards full : List Bytes)
      → rs.encode k m shards ≡ some full
      → (take k full ≡ take k shards) × (length full ≡ length shards)
  pub sizes_kept :
      (k m size : ℕ) (shards full : List Bytes)
      → rs.encode k m shards ≡ some full
      → All (λ s. length s ≡ size) shards
      → All (λ s. length s ≡ size) full
  pub parity_right :
      (k m : ℕ) (shards full : List Bytes)
      → rs.encode k m shards ≡ some full
      → rs.verify k m full ≡ some true
  pub recovers :
      (k m : ℕ) (full : List Bytes) (slots : List (Option Bytes))
      → rs.verify k m full ≡ some true
      → length full ≡ k + m
      → Agrees slots full
      → k ≤ available slots
      → rs.reconstruct k m slots ≡ some full

-- From position i on, the shards at the positions of the padding are zero.
abbrev pub PadZero : ℕ → ℕ → ℕ → ℕ → List Bytes → Type 0
PadZero real k size i [] = Unit
PadZero real k size i (s ∷ shards) =
    (real ≤ i → i < k → s ≡ zeros size) × PadZero real k size (i + 1) shards

-- From position i on, the slots of the padding are empty: padding is never stored.
abbrev pub NoPadding : ℕ → ℕ → ℕ → List (Option Bytes) → Type 0
NoPadding real k i [] = Unit
NoPadding real k i (s ∷ slots) = (real ≤ i → i < k → s ≡ none) × NoPadding real k (i + 1) slots

-- How many positions of the padding stand among n from position i on.
abbrev pub padding_from : ℕ → ℕ → ℕ → ℕ → ℕ
padding_from real k i n = min k (i + n) - max real i

-- The padding that is filled in.
abbrev pub Filled : ℕ → ℕ → ℕ → ℕ → List (Option Bytes) → List Bytes → Type 0
Filled real k size i slots full =
    (filled : List (Option Bytes)) × (fill_padding real k size i slots ≡ some filled)
    × Agrees filled full
    × (available filled ≡ available slots + padding_from real k i (length slots))

pub fill-Agrees :
    (real k size i : ℕ) (slots : List (Option Bytes)) (full : List Bytes)
    → Agrees slots full
    → PadZero real k size i full
    → NoPadding real k i slots
    → Filled real k size i slots full
unfolding fill_padding available
fill-Agrees real k size i [] [] h z np = ([], refl, tt, omega arith)
fill-Agrees real k size i [] (s ∷ full) h z np = absurd h
fill-Agrees real k size i (none ∷ slots) [] h z np = absurd h
fill-Agrees real k size i (some b ∷ slots) [] h z np = absurd h
fill-Agrees real k size i (none ∷ slots) (s ∷ full) h z np =
    let (filled, got, same, count) = fill-Agrees real k size (i + 1) slots full h z.1 np.1 in
    elim (Bool-cases (leb real i && ltb i k)) [
      | inl e ↦
          let low : real ≤ i = ground (arith, e) in
          let high : i < k = ground (arith, e) in
          (
            some (zeros size) ∷ filled,
            rw (fill_padding, e, got) refl,
            (sym (z.0 low high), same),
            omega (arith, count, low, high),
          )
      | inr e ↦
          let outside : (i < real) ⊎ (k ≤ i) = ground (arith, e) in
          (
            none ∷ filled,
            rw (fill_padding, e, got) refl,
            same,
            elim outside [ inl o ↦ omega (arith, count, o) | inr o ↦ omega (arith, count, o) ],
          )
    ]
fill-Agrees real k size i (some b ∷ slots) (s ∷ full) h z np =
    let (filled, got, same, count) = fill-Agrees real k size (i + 1) slots full h.1 z.1 np.1 in
    elim (Bool-cases (leb real i && ltb i k)) [
      | inl e ↦
          let gone : some b ≡ none = np.0 (ground (arith, e)) (ground (arith, e)) in absurd (cc)
      | inr e ↦
          let outside : (i < real) ⊎ (k ≤ i) = ground (arith, e) in
          (
            some b ∷ filled,
            rw (fill_padding, e, got) refl,
            (h.0, same),
            elim outside [ inl o ↦ omega (arith, count, o) | inr o ↦ omega (arith, count, o) ],
          )
    ]

pub PadZero-append :
    (real k size i : ℕ) (xs ys : List Bytes)
    → PadZero real k size i xs
    → PadZero real k size (i + length xs) ys
    → PadZero real k size i (xs ++ ys)
PadZero-append real k size i [] ys h h' =
    let e : i + 0 ≡ i = omega arith in subst (λ j. PadZero real k size j ys) e h'
PadZero-append real k size i (x ∷ xs) ys h h' =
    let e : i + suc (length xs) ≡ i + 1 + length xs = omega arith in
    (h.0, PadZero-append real k size (i + 1) xs ys h.1 (subst (λ j. PadZero real k size j ys) e h'))

pub PadZero-before :
    (real k size i : ℕ) (xs : List Bytes) → i + length xs ≤ real → PadZero real k size i xs
PadZero-before real k size i [] h = tt
PadZero-before real k size i (x ∷ xs) h = (
  λ low high. absurd (omega (arith, h, low)),
  PadZero-before real k size (i + 1) xs (omega (arith, h)),
)

pub PadZero-after : (real k size i : ℕ) (xs : List Bytes) → k ≤ i → PadZero real k size i xs
PadZero-after real k size i [] h = tt
PadZero-after real k size i (x ∷ xs) h = (
  λ low high. absurd (omega (arith, h, high)),
  PadZero-after real k size (i + 1) xs (omega (arith, h)),
)

pub PadZero-copies : (real k size i n : ℕ) → PadZero real k size i (copies n (zeros size))
unfolding copies
PadZero-copies real k size i zero = tt
PadZero-copies real k size i (suc n) = (λ low high. refl, PadZero-copies real k size (i + 1) n)

pub length-copies : (n : ℕ) (b : Bytes) → length (copies n b) ≡ n
unfolding copies
length-copies zero b = refl
length-copies (suc n) b = ap (λ z. suc z) (length-copies n b)

pub copies-All : (n size : ℕ) → All (λ s. length s ≡ size) (copies n (zeros size))
unfolding copies
copies-All zero size = tt
copies-All (suc n) size = (length-zeros size, copies-All n size)

pub same_size-All :
    (size : ℕ) (shards : List Bytes)
    → same_size size shards ≡ true
    → All (λ s. length s ≡ size) shards
unfolding same_size
same_size-All size [] h = tt
same_size-All size (s ∷ shards) h = elim (Bool-cases (length s == size)) [
  | inl e ↦ (ground (arith, e), same_size-All size shards (sym (rw e refl) ∙ h))
  | inr e ↦ absurd (ground (arith, e, h))
]

pub first_size-eq :
    (size : ℕ) (slots : List (Option Bytes)) (full : List Bytes)
    → Agrees slots full
    → All (λ s. length s ≡ size) full
    → 0 < available slots
    → first_size slots ≡ size
unfolding first_size available
first_size-eq size [] full h sizes some_left = absurd (omega (arith, some_left))
first_size-eq size (none ∷ slots) [] h sizes some_left = absurd h
first_size-eq size (some b ∷ slots) [] h sizes some_left = absurd h
first_size-eq size (none ∷ slots) (s ∷ full) h sizes some_left =
    first_size-eq size slots full h sizes.1 some_left
first_size-eq size (some b ∷ slots) (s ∷ full) h sizes some_left = ap (λ z. length z) h.0 ∙ sizes.0
