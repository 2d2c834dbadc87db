-- ===== src/Erasure/Slots.antt =====
-- The slots that survivors are put in: core/repairproof/repairproof.go.
use bitbit.Base.{
  ℕ, zero, suc, ◌+◌, ◌<◌, ◌≤◌, ◌≡◌, ◌≢◌, ◌⊎◌, refl, sym, ap, ◌∙◌, subst, false, Option, none, some,
  List, [], ◌∷◌, length, get_elem?, mem, ◌==◌, arith, Bool-cases, inl, inr,
}
use bitbit.Base.Bytes.{Bytes}
use bitbit.Base.Maps.{Map, keys}
use bitbit.Erasure.Stripe.{available}
use bitbit.Erasure.Recovery.{Agrees, NoPadding}
use bitbit.Erasure.Repair.{put_slot, empty_slots}

-- A position that holds a shard, not padding.
abbrev pub Stored : ℕ → ℕ → ℕ → Type 0
Stored real k pos = (pos < real) ⊎ (k ≤ pos)

-- Shards of the stripe at different positions, none of them the target's.
abbrev pub IsSurvivors : ℕ → ℕ → ℕ → List Bytes → Map Bytes → Type 0
IsSurvivors real k target stripe [] = Unit
IsSurvivors real k target stripe ((pos, b) ∷ survivors) =
    (get_elem? stripe pos ≡ some b)
    × (pos ≢ target)
    × Stored real k pos
    × (mem pos (keys survivors) ≡ false)
    × IsSurvivors real k target stripe survivors

-- No survivor's slot is taken.
abbrev pub Free : List (Option Bytes) → Map Bytes → Type 0
Free slots [] = Unit
Free slots ((pos, b) ∷ survivors) = (get_elem? slots pos ≡ some none) × Free slots survivors

pub in_range :
    (stripe : List Bytes) (pos : ℕ) (b : Bytes)
    → get_elem? stripe pos ≡ some b
    → pos < length stripe
in_range [] pos b h = absurd (cc)
in_range (s ∷ stripe) zero b h = omega arith
in_range (s ∷ stripe) (suc pos) b h = omega (arith, in_range stripe pos b h)

pub put-Agrees :
    (pos : ℕ) (b : Bytes) (slots : List (Option Bytes)) (full : List Bytes)
    → Agrees slots full
    → get_elem? full pos ≡ some b
    → Agrees (put_slot pos b slots) full
unfolding put_slot
put-Agrees pos b [] [] h g = tt
put-Agrees pos b [] (s ∷ full) h g = absurd h
put-Agrees pos b (none ∷ slots) [] h g = absurd h
put-Agrees pos b (some x ∷ slots) [] h g = absurd h
put-Agrees zero b (none ∷ slots) (s ∷ full) h g = let same : b ≡ s = cc in (same, h)
put-Agrees zero b (some x ∷ slots) (s ∷ full) h g = let same : b ≡ s = cc in (same, h.1)
put-Agrees (suc pos) b (none ∷ slots) (s ∷ full) h g = put-Agrees pos b slots full h g
put-Agrees (suc pos) b (some x ∷ slots) (s ∷ full) h g = (h.0, put-Agrees pos b slots full h.1 g)

pub put-available :
    (pos : ℕ) (b : Bytes) (slots : List (Option Bytes))
    → get_elem? slots pos ≡ some none
    → available (put_slot pos b slots) ≡ suc (available slots)
unfolding put_slot available
put-available pos b [] h = absurd (cc)
put-available zero b (none ∷ slots) h = refl
put-available zero b (some x ∷ slots) h = absurd (cc)
put-available (suc pos) b (none ∷ slots) h = put-available pos b slots h
put-available (suc pos) b (some x ∷ slots) h = ap (λ z. suc z) (put-available pos b slots h)

pub put-NoPadding :
    (real k i pos : ℕ) (b : Bytes) (slots : List (Option Bytes))
    → Stored real k (i + pos)
    → NoPadding real k i slots
    → NoPadding real k i (put_slot pos b slots)
unfolding put_slot
put-NoPadding real k i pos b [] h np = tt
put-NoPadding real k i zero b (s ∷ slots) h np = (
  λ low high. absurd (elim h [ inl o ↦ omega (arith, o, low) | inr o ↦ omega (arith, o, high) ]),
  np.1,
)
put-NoPadding real k i (suc pos) b (s ∷ slots) h np =
    let e : i + suc pos ≡ i + 1 + pos = omega arith in
    (np.0, put-NoPadding real k (i + 1) pos b slots (subst (λ z. Stored real k z) e h) np.1)

put-other :
    (pos other : ℕ) (b : Bytes) (slots : List (Option Bytes))
    → pos ≢ other
    → get_elem? (put_slot pos b slots) other ≡ get_elem? slots other
unfolding put_slot
put-other pos other b [] h = refl
put-other zero zero b (s ∷ slots) h = absurd (h refl)
put-other zero (suc other) b (s ∷ slots) h = refl
put-other (suc pos) zero b (s ∷ slots) h = refl
put-other (suc pos) (suc other) b (s ∷ slots) h =
    put-other pos other b slots (λ e. h (ap (λ z. suc z) e))

pub put-Free :
    (pos : ℕ) (b : Bytes) (slots : List (Option Bytes)) (survivors : Map Bytes)
    → mem pos (keys survivors) ≡ false
    → Free slots survivors
    → Free (put_slot pos b slots) survivors
unfolding keys mem
put-Free pos b slots [] h f = tt
put-Free pos b slots ((q, c) ∷ survivors) h f = elim (Bool-cases (pos == q)) [
  | inl e ↦ absurd (ground (arith, e, h))
  | inr e ↦ (
    put-other pos q b slots (ground (arith, e)) ∙ f.0,
    put-Free pos b slots survivors (sym (rw e refl) ∙ h) f.1,
  )
]

pub empty-Agrees : (full : List Bytes) → Agrees (empty_slots (length full)) full
unfolding empty_slots
empty-Agrees [] = tt
empty-Agrees (s ∷ full) = empty-Agrees full

pub empty-available : (n : ℕ) → available (empty_slots n) ≡ 0
unfolding empty_slots available
empty-available zero = refl
empty-available (suc n) = empty-available n

pub empty-NoPadding : (real k i n : ℕ) → NoPadding real k i (empty_slots n)
unfolding empty_slots
empty-NoPadding real k i zero = tt
empty-NoPadding real k i (suc n) = (λ low high. refl, empty-NoPadding real k (i + 1) n)

pub empty_at : (n pos : ℕ) → pos < n → get_elem? (empty_slots n) pos ≡ some none
unfolding empty_slots
empty_at zero pos h = absurd (omega (arith, h))
empty_at (suc n) zero h = refl
empty_at (suc n) (suc pos) h = empty_at n pos (omega (arith, h))
