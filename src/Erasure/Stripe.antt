-- ===== src/Erasure/Stripe.antt =====
-- Stripes of k data shards and n - k parity shards: core/erasure/erasure.go. The Reed-Solomon library
-- is a parameter. A shard that is missing (a nil slice) is none; k, n and a count are not negative.
-- What an attempt that fails leaves in the caller's slots is not modelled.
use bitbit.Base.{
  ℕ, zero, suc, ◌+◌, ◌-◌, ◌/◌, Bool, true, false, not, ◌&&◌, ◌||◌, Option, none, some, List, [],
  ◌∷◌, ◌++◌, length, drop, ltb, leb, ◌==◌, if◌then◌else◌,
}
use bitbit.Base.Bytes.{Bytes, bytes_equal, zeros}

pub record Params : Type 0 where
  pub k : ℕ
  pub n : ℕ

-- The code for k data and m parity shards: the shards with their parity filled in, the shards with the
-- missing ones filled in, and whether the parity is right; none is an error.
pub record ReedSolomon : Type 0 where
  pub encode : ℕ → ℕ → List Bytes → Option (List Bytes)
  pub reconstruct : ℕ → ℕ → List (Option Bytes) → Option (List Bytes)
  pub verify : ℕ → ℕ → List Bytes → Option Bool

abbrev pub default_params : Params
default_params = record { k = 10; n = 16 }

-- Whether there is no error.
unfoldable pub validate : Params → Bool
validate p = if ltb p.k 1 || leb p.n p.k then false else not (ltb 256 p.n)

unfoldable pub parity_shards : Params → ℕ
parity_shards p = p.n - p.k

unfoldable pub stripes : Params → ℕ → ℕ
stripes p m = (m + p.k - 1) / p.k

unfoldable pub same_size : ℕ → List Bytes → Bool
same_size size [] = true
same_size size (d ∷ shards_in) = if not (length d == size) then false else same_size size shards_in

unfoldable pub copies : ℕ → Bytes → List Bytes
copies zero b = []
copies (suc n) b = b ∷ copies n b

pub data StripeError : Type 0 where
  bad_params shard_count empty_shards bad_size bad_code bad_padding too_few bad_parity : StripeError

pub data StripeResult : Type 0 where
  shards_of : List Bytes → StripeResult
  fails : StripeError → StripeResult

-- The length of the first shard that is there; 0 without one.
unfoldable pub first_size : List (Option Bytes) → ℕ
first_size [] = 0
first_size (none ∷ slots) = first_size slots
first_size (some s ∷ slots) = length s

abbrev pub cons_slot : Option Bytes → Option (List (Option Bytes)) → Option (List (Option Bytes))
cons_slot s none = none
cons_slot s (some slots) = some (s ∷ slots)

-- One position of the padding; none where it is not zero.
abbrev pub pad_slot : ℕ → Option Bytes → Option (List (Option Bytes)) → Option (List (Option Bytes))
pad_slot size none rest = cons_slot (some (zeros size)) rest
pad_slot size (some s) rest = if bytes_equal s (zeros size) then cons_slot (some s) rest else none

-- The slots from position i on.
unfoldable pub fill_padding : ℕ → ℕ → ℕ → ℕ → List (Option Bytes) → Option (List (Option Bytes))
fill_padding real k size i [] = some []
fill_padding real k size i (s ∷ slots) =
    let rest = fill_padding real k size (i + 1) slots in
    if leb real i && ltb i k then pad_slot size s rest else cons_slot s rest

unfoldable pub available : List (Option Bytes) → ℕ
available [] = 0
available (none ∷ slots) = available slots
available (some s ∷ slots) = suc (available slots)

abbrev pub parity_of : ℕ → Option (List Bytes) → StripeResult
parity_of k none = fails bad_code
parity_of k (some shards) = shards_of (drop k shards)

abbrev pub first_length : List Bytes → ℕ
first_length [] = 0
first_length (d ∷ shards_in) = length d

abbrev pub checked : List Bytes → Option Bool → StripeResult
checked shards none = fails bad_code
checked shards (some false) = fails bad_parity
checked shards (some true) = shards_of shards

module _ (rs : ReedSolomon) where
  unfoldable pub encode_stripe : Params → List Bytes → StripeResult
  encode_stripe p shards_in =
      let size = first_length shards_in in
      let shards =
        shards_in
        ++ (copies (p.k - length shards_in) (zeros size) ++ copies (p.n - p.k) (zeros size)) in
      if not (validate p)
      then fails bad_params
      else if (length shards_in == 0) || ltb p.k (length shards_in)
      then fails shard_count
      else if size == 0
      then fails empty_shards
      else if not (same_size size shards_in)
      then fails bad_size
      else parity_of p.k (rs.encode p.k (parity_shards p) shards)

  abbrev pub rebuilt : Params → Option (List Bytes) → StripeResult
  rebuilt p none = fails bad_code
  rebuilt p (some shards) = checked shards (rs.verify p.k (parity_shards p) shards)

  abbrev pub reconstruct_filled : Params → Option (List (Option Bytes)) → StripeResult
  reconstruct_filled p none = fails bad_padding
  reconstruct_filled p (some slots) =
      if ltb (available slots) p.k
      then fails too_few
      else rebuilt p (rs.reconstruct p.k (parity_shards p) slots)

  unfoldable pub reconstruct_stripe : Params → List (Option Bytes) → ℕ → StripeResult
  reconstruct_stripe p slots real =
      let size = first_size slots in
      if not (validate p)
      then fails bad_params
      else if not (length slots == p.n)
      then fails shard_count
      else if ltb real 1 || ltb p.k real
      then fails shard_count
      else if size == 0
      then fails empty_shards
      else reconstruct_filled p (fill_padding real p.k size 0 slots)
