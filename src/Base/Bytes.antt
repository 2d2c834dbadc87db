-- ===== src/Base/Bytes.antt =====
-- Byte strings: Go's `[]byte`, the bytes of a text, and numbers in big-endian order.
use Prim.Native.Nat.{ℕ, zero, suc, ◌+◌, ◌*◌, ◌^◌, ◌<◌, ◌/◌, ◌%◌}
use Prim.Native.Char.{code}
use Prim.Native.String.{String}
use mathlib.Core.Path.{◌≡◌, refl, sym, ◌∙◌, subst}
use mathlib.Core.Logic.{◌≢◌, ◌⊎◌, inl, inr}
use native.Mathlib.Omega.{arith}
use native.Mathlib.Numerals.{unary_clauses}
use bitbit.Base.Lists.{length, length-append}
use mathlib.Core.Bool.{Bool, true, false, ◌&&◌}
use mathlib.Core.List.{append_assoc, List, [], ◌∷◌, ◌++◌}
use bitbit.Base.Tests.{◌==◌, ==_refl, Bool-cases, if◌then◌else◌}

abbrev pub Bytes : Type 0
Bytes = List ℕ

-- The bytes of an ASCII text.
abbrev pub ascii : String → Bytes
ascii (String.◌∷◌ letter text) = code letter ∷ ascii text
ascii String.[] = []

-- The low `k` bytes of a number, the highest first.
unfoldable pub be_bytes : ℕ → ℕ → Bytes
be_bytes zero n = []
be_bytes (suc k) n = be_bytes k (n / 256) ++ (n % 256) ∷ []

unfoldable pub bytes_equal : Bytes → Bytes → Bool
bytes_equal [] [] = true
bytes_equal (x ∷ xs) (y ∷ ys) = (x == y) && bytes_equal xs ys
bytes_equal _ _ = false

unfoldable pub mem_bytes : Bytes → List Bytes → Bool
mem_bytes a [] = false
mem_bytes a (x ∷ xs) = if bytes_equal a x then true else mem_bytes a xs

pub bytes_equal_refl : (xs : Bytes) → bytes_equal xs xs ≡ true
unfolding bytes_equal
bytes_equal_refl [] = refl
bytes_equal_refl (x ∷ xs) = rw (==_refl x, bytes_equal_refl xs) refl

pub bytes_equal_sound : (xs ys : Bytes) → bytes_equal xs ys ≡ true → xs ≡ ys
unfolding bytes_equal
bytes_equal_sound [] [] h = refl
bytes_equal_sound [] (y ∷ ys) h = absurd (cc)
bytes_equal_sound (x ∷ xs) [] h = absurd (cc)
bytes_equal_sound (x ∷ xs) (y ∷ ys) h = grind (arith, bytes_equal_sound xs ys)

pub bytes_equal_sym : (xs ys : Bytes) → bytes_equal xs ys ≡ bytes_equal ys xs
unfolding bytes_equal
bytes_equal_sym [] [] = refl
bytes_equal_sym [] (y ∷ ys) = refl
bytes_equal_sym (x ∷ xs) [] = refl
bytes_equal_sym (x ∷ xs) (y ∷ ys) = ground (arith, bytes_equal_sym xs ys)

-- Byte strings are equal or not.
pub bytes_cases : (xs ys : Bytes) → (xs ≡ ys) ⊎ (xs ≢ ys)
bytes_cases xs ys = elim (Bool-cases (bytes_equal xs ys)) [
  | inl e ↦ inl (bytes_equal_sound xs ys e)
  | inr e ↦ inr (λ h. differ xs ys e h)
]
  where
    differ : (xs ys : Bytes) → bytes_equal xs ys ≡ false → xs ≢ ys
    differ xs ys e h =
        let same : bytes_equal xs ys ≡ true =
          subst (λ z. bytes_equal xs z ≡ true) h (bytes_equal_refl xs) in
        absurd (cc)

pub length-be_bytes : (k n : ℕ) → length (be_bytes k n) ≡ k
unfolding be_bytes
length-be_bytes zero n = refl
length-be_bytes (suc k) n =
    omega
      (arith, length-append (be_bytes k (n / 256)) ((n % 256) ∷ []), length-be_bytes k (n / 256))

-- A number that fits is known by its bytes, whatever follows them.
pub be_bytes-injective :
    (k a b : ℕ) (xs ys : Bytes)
    → a < 256 ^ k
    → b < 256 ^ k
    → be_bytes k a ++ xs ≡ be_bytes k b ++ ys
    → (a ≡ b) × (xs ≡ ys)
unfolding be_bytes
be_bytes-injective zero a b xs ys ha hb h = (omega (arith, ha, hb), h)
be_bytes-injective (suc k) a b xs ys ha hb h =
    let ha' : a < 256 ^ k * 256 = simp unary_clauses at ha in
    let hb' : b < 256 ^ k * 256 = simp unary_clauses at hb in
    let regroup : be_bytes k (a / 256) ++ (a % 256) ∷ xs ≡ be_bytes k (b / 256) ++ (b % 256) ∷ ys =
      sym (append_assoc (be_bytes k (a / 256)) ((a % 256) ∷ []) xs)
      ∙ h
      ∙ append_assoc (be_bytes k (b / 256)) ((b % 256) ∷ []) ys in
    let (high, rest) =
      be_bytes-injective k (a / 256) (b / 256) ((a % 256) ∷ xs) ((b % 256) ∷ ys)
        (omega (arith, ha')) (omega (arith, hb')) regroup in
    let low : a % 256 ≡ b % 256 = cc in (omega (arith, high, low), cc)

-- The number that bytes in big-endian order stand for, after those read before them.
unfoldable pub be_value_from : ℕ → Bytes → ℕ
be_value_from high [] = high
be_value_from high (b ∷ bs) = be_value_from (high * 256 + b) bs

unfoldable pub be_value : Bytes → ℕ
be_value bs = be_value_from 0 bs

be_value_from-append :
    (high : ℕ) (xs ys : Bytes)
    → be_value_from high (xs ++ ys) ≡ be_value_from (be_value_from high xs) ys
unfolding be_value_from
be_value_from-append high [] ys = refl
be_value_from-append high (x ∷ xs) ys = be_value_from-append (high * 256 + x) xs ys

pub be_value-be_bytes : (k n : ℕ) → n < 256 ^ k → be_value (be_bytes k n) ≡ n
unfolding be_value be_value_from be_bytes
be_value-be_bytes zero n h = omega (arith, h)
be_value-be_bytes (suc k) n h =
    let h' : n < 256 ^ k * 256 = simp unary_clauses at h in
    let high : be_value_from 0 (be_bytes k (n / 256)) ≡ n / 256 =
      be_value-be_bytes k (n / 256) (omega (arith, h')) in
    be_value_from-append 0 (be_bytes k (n / 256)) (n % 256 ∷ []) ∙ rw high (omega arith)

-- `make([]byte, n)`
unfoldable pub zeros : ℕ → Bytes
zeros zero = []
zeros (suc n) = 0 ∷ zeros n

pub length-zeros : (n : ℕ) → length (zeros n) ≡ n
unfolding zeros
length-zeros zero = refl
length-zeros (suc n) = omega (arith, length-zeros n)
