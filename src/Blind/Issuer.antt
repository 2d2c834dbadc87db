-- ===== src/Blind/Issuer.antt =====
-- The issuer of blind tokens: core/blindtoken/issuer.go. The charge for a token is a parameter: the
-- charger's state after it, and whether it was paid.
use bitbit.Base.{
  ℕ, suc, ◌+◌, ◌^◌, ◌<◌, ◌≡◌, refl, sym, ap, ◌∙◌, Bool, true, false, not, Option, none, some, List,
  [], ◌∷◌, ◌++◌, length, length-append, take, drop, take-append, drop-append, ltb, arith,
  if◌then◌else◌, Bool-cases, ◌&&◌, inl, inr,
}
use bitbit.Base.Bytes.{
  Bytes, be_bytes, be_value, mem_bytes, bytes_equal, bytes_equal_sound, length-be_bytes,
  be_value-be_bytes,
}
use bitbit.Chain.Types.{RsaKey}
use bitbit.Blind.Rsa.{PrivateKey, big_bytes, sign_blinded, verify}
use bitbit.Blind.Encoding.{be_value-big_bytes}
use mathlib.Core.List.{append_assoc}

unfoldable pub marshal_pub : RsaKey → Bytes
marshal_pub key =
    let nb = big_bytes key.modulus in be_bytes 4 (length nb) ++ (nb ++ be_bytes 4 key.exponent)

-- None is an error.
unfoldable pub parse_pub : Bytes → Option RsaKey
parse_pub b =
    if ltb (length b) 8
    then none
    else let n = be_value (take 4 b) in
      if ltb (length b) (8 + n)
      then none
      else some (record {
        modulus = be_value (take n (drop 4 b));
        exponent = be_value (take 4 (drop (4 + n) b));
      })

-- Keyed by the serials that are spent.
pub record Issuer : Type 0 where
  pub key : PrivateKey
  pub spent : List Bytes

unfoldable pub new_issuer : PrivateKey → Issuer
new_issuer key = record { key = key; spent = [] }

unfoldable pub public_key : Issuer → RsaKey
public_key i = i.key.public

pub data Spent : Type 0 where
  ok bad_token double_spend : Spent

unfoldable pub issue : {C : Type 0} → (C → C × Bool) → Bytes → C → Issuer → C × Option Bytes
issue charge blinded c i =
    let (c', paid) = charge c in
    if not paid then (c', none) else (c', some (sign_blinded i.key blinded))

-- How many of the tokens with a serial were accepted.
abbrev pub accepted : Bytes → List (Bytes × Bytes) → List Spent → ℕ
accepted serial ((s, sig) ∷ tokens) (ok ∷ answers) =
    if bytes_equal serial s
    then suc (accepted serial tokens answers)
    else accepted serial tokens answers
accepted serial (token ∷ tokens) (answer ∷ answers) = accepted serial tokens answers
accepted serial _ _ = 0

module _ (sha256 : Bytes → ℕ) where
  unfoldable pub spend : Bytes → Bytes → Issuer → Issuer × Spent
  spend serial sig i =
      if not (verify sha256 i.key.public serial sig)
      then (i, bad_token)
      else if mem_bytes serial i.spent
      then (i, double_spend)
      else (record i { spent = serial ∷ i.spent }, ok)

  -- The answers to tokens that are presented in turn.
  abbrev pub spend_all : List (Bytes × Bytes) → Issuer → Issuer × List Spent
  spend_all [] i = (i, [])
  spend_all ((serial, sig) ∷ tokens) i =
      let (i', answer) = spend serial sig i in
      let (last, answers) = spend_all tokens i' in (last, answer ∷ answers)

  -- Whether a token with the serial is among those presented and verifies.
  abbrev pub valid_among : RsaKey → Bytes → List (Bytes × Bytes) → Bool
  valid_among key serial [] = false
  valid_among key serial ((s, sig) ∷ tokens) =
      if bytes_equal serial s && verify sha256 key s sig
      then true
      else valid_among key serial tokens

  abbrev expected : Bytes → List (Bytes × Bytes) → Issuer → ℕ
  expected serial tokens i =
      if mem_bytes serial i.spent
      then 0
      else if valid_among i.key.public serial tokens
      then 1
      else 0

  spend_all-step :
      (serial s sig : Bytes) (tokens : List (Bytes × Bytes)) (i i' : Issuer) (answer : Spent)
      → spend s sig i ≡ (i', answer)
      → accepted serial ((s, sig) ∷ tokens) (spend_all ((s, sig) ∷ tokens) i).1
        ≡ accepted serial ((s, sig) ∷ tokens) (answer ∷ (spend_all tokens i').1)
  spend_all-step serial s sig tokens i i' answer h =
      ap
        (λ (r : Issuer × Spent).
          accepted serial ((s, sig) ∷ tokens) (r.1 ∷ (spend_all tokens r.0).1))
        h

  -- The serial of an accepted or a spent token, compared with another.
  same_mem :
      (serial s : Bytes) (xs : List Bytes)
      → bytes_equal serial s ≡ true
      → mem_bytes serial xs ≡ mem_bytes s xs
  same_mem serial s xs e = ap (λ z. mem_bytes z xs) (bytes_equal_sound serial s e)

  unverified :
      (serial s sig : Bytes) (tokens : List (Bytes × Bytes)) (i : Issuer)
      → verify sha256 i.key.public s sig ≡ false
      → expected serial tokens i ≡ expected serial ((s, sig) ∷ tokens) i
  unverified serial s sig tokens i v = ground (arith, v)

  already :
      (serial s sig : Bytes) (tokens : List (Bytes × Bytes)) (i : Issuer)
      → mem_bytes s i.spent ≡ true
      → expected serial tokens i ≡ expected serial ((s, sig) ∷ tokens) i
  already serial s sig tokens i m = elim (Bool-cases (bytes_equal serial s)) [
    | inl e ↦
        let held : mem_bytes serial i.spent ≡ true = same_mem serial s i.spent e ∙ m in
        ground (arith, held)
    | inr e ↦ ground (arith, e)
  ]

  first :
      (serial s sig : Bytes) (tokens : List (Bytes × Bytes)) (i : Issuer) (rest : ℕ)
      → verify sha256 i.key.public s sig ≡ true
      → mem_bytes s i.spent ≡ false
      → rest ≡ expected serial tokens (record i { spent = s ∷ i.spent })
      → (if bytes_equal serial s then suc rest else rest) ≡ expected serial ((s, sig) ∷ tokens) i
  unfolding mem_bytes
  first serial s sig tokens i rest v m h = elim (Bool-cases (bytes_equal serial s)) [
    | inl e ↦
        let fresh : mem_bytes serial i.spent ≡ false = same_mem serial s i.spent e ∙ m in
        ground (arith, fresh, e, v, h)
    | inr e ↦ ground (arith, e, h)
  ]

  -- Of the tokens that are presented in turn with one serial, exactly one is accepted where one of them
  -- verifies and the serial was not spent before, and none otherwise.
  pub spends_once :
      (serial : Bytes) (tokens : List (Bytes × Bytes)) (i : Issuer)
      → accepted serial tokens (spend_all tokens i).1 ≡ (
          if mem_bytes serial i.spent
          then 0
          else if valid_among i.key.public serial tokens
          then 1
          else 0)
  unfolding spend
  spends_once serial [] i = ground arith
  spends_once serial ((s, sig) ∷ tokens) i = elim (Bool-cases (verify sha256 i.key.public s sig)) [
    | inl v ↦ elim (Bool-cases (mem_bytes s i.spent)) [
      | inl m ↦
          let rejected : spend s sig i ≡ (i, double_spend) = rw (spend, v, m) refl in
          spend_all-step serial s sig tokens i i double_spend rejected
          ∙ spends_once serial tokens i
          ∙ already serial s sig tokens i m
      | inr m ↦
          let i' = record i { spent = s ∷ i.spent } in
          let taken : spend s sig i ≡ (i', ok) = rw (spend, v, m) refl in
          spend_all-step serial s sig tokens i i' ok taken
          ∙ first serial s sig tokens i _ v m (spends_once serial tokens i')
    ]
    | inr v ↦
        let rejected : spend s sig i ≡ (i, bad_token) = rw (spend, v) refl in
        spend_all-step serial s sig tokens i i bad_token rejected
        ∙ spends_once serial tokens i
        ∙ unverified serial s sig tokens i v
  ]

-- A public key whose modulus has fewer than 2 ^ 32 bytes and whose exponent is below 2 ^ 32 is read back
-- from its bytes, whatever follows them.
pub parse-marshal :
    (key : RsaKey) (more : Bytes)
    → length (big_bytes key.modulus) < 2 ^ 32
    → key.exponent < 2 ^ 32
    → parse_pub (marshal_pub key ++ more) ≡ some key
unfolding parse_pub marshal_pub
parse-marshal key more h k =
    let nb = big_bytes key.modulus in
    let size = be_bytes 4 (length nb) in
    let tail = be_bytes 4 key.exponent ++ more in
    let b = marshal_pub key ++ more in
    let shape : b ≡ size ++ (nb ++ tail) =
      append_assoc size (nb ++ be_bytes 4 key.exponent) more
      ∙ ap (λ z. size ++ z) (append_assoc nb (be_bytes 4 key.exponent) more) in
    let sized : length size ≡ 4 = length-be_bytes 4 (length nb) in
    let announced : be_value (take 4 b) ≡ length nb =
      ap (λ z. be_value (take 4 z)) shape
      ∙ ap be_value (take-append size (nb ++ tail) 4 (sym sized))
      ∙ be_value-be_bytes 4 (length nb) (omega (arith, h)) in
    let long : length b ≡ 8 + length nb + length more =
      ap (λ z. length z) shape
      ∙ omega (
        arith,
        sized,
        length-append size (nb ++ tail),
        length-append nb tail,
        length-append (be_bytes 4 key.exponent) more,
        length-be_bytes 4 key.exponent,
      ) in
    let modulus : be_value (take (length nb) (drop 4 b)) ≡ key.modulus =
      ap (λ z. be_value (take (length nb) (drop 4 z))) shape
      ∙ ap (λ z. be_value (take (length nb) z)) (drop-append size (nb ++ tail) 4 (sym sized))
      ∙ ap be_value (take-append nb tail (length nb) refl)
      ∙ be_value-big_bytes key.modulus in
    let exponent : be_value (take 4 (drop (4 + length nb) b)) ≡ key.exponent =
      ap (λ z. be_value (take 4 (drop (4 + length nb) z))) (shape ∙ sym (append_assoc size nb tail))
      ∙ ap (λ z. be_value (take 4 z))
          (drop-append (size ++ nb) tail (4 + length nb)
            (omega (arith, length-append size nb, sized)))
      ∙ ap be_value
          (take-append (be_bytes 4 key.exponent) more 4 (sym (length-be_bytes 4 key.exponent)))
      ∙ be_value-be_bytes 4 key.exponent (omega (arith, k)) in
    let enough : ltb (length b) 8 ≡ false = ground (arith, long) in
    let whole : ltb (length b) (8 + length nb) ≡ false = ground (arith, long) in
    rw (parse_pub, enough, announced, whole, modulus, exponent) refl
