-- ===== src/Demand/Bank.antt =====
-- The server's demand ledger: `Bank` of core/demand/demand.go.
use bitbit.Base.{
  ℕ, Bool, false, not, ◌||◌, Option, none, some, List, [], ◌∷◌, length, ◌==◌, if◌then◌else◌,
}
use bitbit.Base.Int.{ℤ, pos, add64}
use bitbit.Base.Maps.{Map, lookup, insert, get_or}
use bitbit.Base.Bytes.{Bytes, mem_bytes, bytes_equal}
use bitbit.Chain.State.{hash_bytes}
use bitbit.Chain.Types.{RsaKey}
use bitbit.Por.Scheme.{Key, verify}
use bitbit.Demand.Receipts.{
  Crypto, Token, DeliveryReceipt, verify_token, object_key, challenge_for, receipt_msg,
}

-- `bonded` is the BondCheck: the slot of a fetcher's key, if it is bonded.
pub record Bank : Type 0 where
  pub spent : List Bytes
  pub demand : Map ℤ
  pub bonded : Option (Bytes → Option Bytes)
  pub credited : Map (List Bytes)

unfoldable pub new_bank : Bank
new_bank = record { spent = []; demand = []; bonded = none; credited = [] }

unfoldable pub require_bonded_fetcher : (Bytes → Option Bytes) → Bank → Bank
require_bonded_fetcher check b = record b { bonded = some check }

unfoldable pub demand_of : ℕ → Bank → ℤ
demand_of object b = get_or (lookup object b.demand) (pos 0)

unfoldable pub slots_of : ℕ → Bank → List Bytes
slots_of object b = get_or (lookup object b.credited) []

pub data Answer : Type 0 where
  credited not_issued serial_mismatch double_spend bad_signature bad_proof not_bonded
        already_counted :
      Answer

-- `b.demand[r.Object]++`
abbrev pub count_one : ℕ → Bank → Bank × Answer
count_one object b =
    (record b { demand = insert object (add64 (demand_of object b) (pos 1)) b.demand }, credited)

abbrev pub count_slot : ℕ → Option Bytes → Bank → Bank × Answer
count_slot object none b = (b, not_bonded)
count_slot object (some slot) b =
    if mem_bytes slot (slots_of object b)
    then (b, already_counted)
    else count_one object
        (record b { credited = insert object (slot ∷ slots_of object b) b.credited })

-- The credential gate, once the token is spent.
abbrev pub admit : DeliveryReceipt → Option (Bytes → Option Bytes) → Bank → Bank × Answer
admit r none b = count_one r.object b
admit r (some check) b = count_slot r.object (check r.fetcher) b

-- A proof that cannot be checked within the draws counts as one that fails.
abbrev pub holds_proof : Option Bool → Bool
holds_proof none = false
holds_proof (some ok) = ok

module _ (cr : Crypto) (draws : ℕ) where
  abbrev pub proof_ok : DeliveryReceipt → Option Key → Bool
  proof_ok r none = false
  proof_ok r (some key) = holds_proof (
      verify cr.mac draws key (hash_bytes r.object)
        (challenge_for cr r.serial r.object r.server r.blocks) r.proof)

  abbrev pub delivered : DeliveryReceipt → Bool
  delivered r = proof_ok r (object_key cr draws r.object)

  unfoldable pub redeem : RsaKey → Token → DeliveryReceipt → Bank → Bank × Answer
  redeem issuer token r b =
      if not (verify_token cr issuer token)
      then (b, not_issued)
      else if not (bytes_equal token.serial r.serial)
      then (b, serial_mismatch)
      else if mem_bytes r.serial b.spent
      then (b, double_spend)
      else if not (length r.fetcher == 32) || not (cr.verify r.fetcher (receipt_msg cr r) r.sig)
      then (b, bad_signature)
      else if not (delivered r)
      then (b, bad_proof)
      else admit r b.bonded (record b { spent = r.serial ∷ b.spent })
