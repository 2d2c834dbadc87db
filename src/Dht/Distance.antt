-- ===== src/Dht/Distance.antt =====
-- The XOR metric of core/dht/dht.go. An identifier is the number that its 32 bytes spell with the
-- highest first, so that the order of two distances is the order of their first differing bytes.
use bitbit.Base.{
  ℕ, zero, suc, ◌+◌, ◌*◌, ◌/◌, ◌%◌, ◌^◌, Bool, Option, none, some, List, [], ◌∷◌, ltb, leb, ◌==◌,
  if◌then◌else◌,
}

abbrev pub id_bits : ℕ
id_bits = 256

-- The exclusive or of the low `w` bits.
unfoldable pub xor_bits : ℕ → ℕ → ℕ → ℕ
xor_bits zero a b = 0
xor_bits (suc w) a b = (if a % 2 == b % 2 then 0 else 1) + 2 * xor_bits w (a / 2) (b / 2)

unfoldable pub distance : ℕ → ℕ → ℕ
distance a b = xor_bits id_bits a b

unfoldable pub closer : ℕ → ℕ → ℕ → Bool
closer target a b = ltb (distance a target) (distance b target)

-- The highest set bit below bit `w`.
unfoldable pub highest_bit : ℕ → ℕ → Option ℕ
highest_bit zero x = none
highest_bit (suc w) x = let below = highest_bit w x in if leb (2 ^ w) x then some w else below

-- `none` is the source's -1.
unfoldable pub bucket_index : ℕ → ℕ → Option ℕ
bucket_index self id = highest_bit id_bits (distance self id)

-- `sort.Slice` by `Closer`. Items with distinct identifiers have only one sorted order.
module _ {A : Type 0} (id_of : A → ℕ) (target : ℕ) where
  unfoldable pub place : A → List A → List A
  place x [] = x ∷ []
  place x (y ∷ ys) =
      let rest = place x ys in if closer target (id_of y) (id_of x) then y ∷ rest else x ∷ y ∷ ys

  unfoldable pub sort_by : List A → List A
  sort_by [] = []
  sort_by (x ∷ xs) = place x (sort_by xs)

abbrev pub sort_by_distance : ℕ → List ℕ → List ℕ
sort_by_distance target ids = sort_by (λ x. x) target ids
