-- ===== src/Demand/Slots.antt =====
-- What demand costs once the bonded-fetcher credential is required: core/demand/demand.go.
use bitbit.Base.{
  ℕ, suc, ◌-◌, ◌^◌, ◌<◌, ◌≤◌, ◌≡◌, refl, sym, ap, ◌∙◌, subst, Bool, true, false, not, ◌||◌, Option,
  none, some, List, [], ◌∷◌, length, ◌==◌, if◌then◌else◌, arith, ◌⊎◌, Bool-cases, inl, inr,
}
use bitbit.Base.Int.{pos, add64, add64-pos}
use bitbit.Base.Maps.{lookup, insert, lookup-insert}
use bitbit.Base.Bytes.{Bytes, mem_bytes, bytes_equal}
use bitbit.Chain.Types.{RsaKey}
use bitbit.Demand.Receipts.{Crypto, Token, DeliveryReceipt, receipt_msg, verify_token}
use bitbit.Demand.Bank.{
  Bank, Answer, new_bank, require_bonded_fetcher, demand_of, slots_of, count_slot, count_one, admit,
  redeem, delivered, not_issued, serial_mismatch, double_spend, bad_signature, bad_proof,
}

-- Different slots, each that of some bonded fetcher's key.
abbrev pub BondedSlots : (Bytes → Option Bytes) → List Bytes → Type 0
BondedSlots check [] = Unit
BondedSlots check (s ∷ slots) =
    (mem_bytes s slots ≡ false) × ((key : Bytes) × (check key ≡ some s)) × BondedSlots check slots

module _ (cr : Crypto) (draws : ℕ) (check : Bytes → Option Bytes) where
  -- A bank that requires the credential, after a number of receipts.
  pub data Redeems : ℕ → Bank → Type 0 where
    opens : Redeems 0 (require_bonded_fetcher check new_bank)
    redeems :
        {n : ℕ} {b : Bank} (issuer : RsaKey) (token : Token) (r : DeliveryReceipt)
        → Redeems n b
        → Redeems (suc n) (redeem cr draws issuer token r b).0

  record IsCounted (n : ℕ) (b : Bank) : Type 0 where
    gate : b.bonded ≡ some check
    count : (object : ℕ) → demand_of object b ≡ pos (length (slots_of object b))
    bound : (object : ℕ) → length (slots_of object b) ≤ n
    slots : (object : ℕ) → BondedSlots check (slots_of object b)

  later : (n : ℕ) (b : Bank) → IsCounted n b → IsCounted (suc n) b
  later n b c = record {
    gate = c.gate;
    count = c.count;
    bound = λ o. omega (arith, c.bound o);
    slots = c.slots;
  }

  spending :
      (n : ℕ) (serial : Bytes) (b : Bank)
      → IsCounted n b
      → IsCounted n (record b { spent = serial ∷ b.spent })
  unfolding demand_of slots_of
  spending n serial b c = record {
    gate = c.gate;
    count = c.count;
    bound = c.bound;
    slots = c.slots;
  }

  opened : IsCounted 0 (require_bonded_fetcher check new_bank)
  unfolding require_bonded_fetcher new_bank demand_of slots_of lookup
  opened = record { gate = refl; count = λ o. refl; bound = λ o. omega arith; slots = λ o. tt }

  counted :
      (n object : ℕ) (slot : Bytes) (b : Bank)
      → (key : Bytes) × (check key ≡ some slot)
      → mem_bytes slot (slots_of object b) ≡ false
      → n < 2 ^ 63 - 1
      → IsCounted n b
      → IsCounted
          (suc n)
          (count_one object
            (record b { credited = insert object (slot ∷ slots_of object b) b.credited })).0
  unfolding demand_of slots_of
  counted n object slot b bonded_key fresh small c =
      let seen = slots_of object b in
      let held = demand_of object b in
      record {
        gate = c.gate;
        count = λ o. elim (Bool-cases (o == object)) [
          | inl e ↦
              rw
                (
                  lookup-insert object o (add64 held (pos 1)) b.demand,
                  lookup-insert object o (slot ∷ seen) b.credited,
                  e,
                )
                (ap (λ z. add64 z (pos 1)) (c.count object)
                  ∙ add64-pos (length seen) 1 (omega (arith, small, c.bound object))
                  ∙ ap (λ z. pos z) (omega arith))
          | inr e ↦
              rw
                (
                  lookup-insert object o (add64 held (pos 1)) b.demand,
                  lookup-insert object o (slot ∷ seen) b.credited,
                  e,
                )
                (c.count o)
        ];
        bound = λ o. elim (Bool-cases (o == object)) [
          | inl e ↦
              rw (lookup-insert object o (slot ∷ seen) b.credited, e)
                (omega (arith, c.bound object))
          | inr e ↦
              rw (lookup-insert object o (slot ∷ seen) b.credited, e) (omega (arith, c.bound o))
        ];
        slots = λ o. elim (Bool-cases (o == object)) [
          | inl e ↦
              rw (lookup-insert object o (slot ∷ seen) b.credited, e)
                (fresh, bonded_key, c.slots object)
          | inr e ↦ rw (lookup-insert object o (slot ∷ seen) b.credited, e) (c.slots o)
        ];
      }

  slot-IsCounted :
      (n object : ℕ) (key : Bytes) (found : Option Bytes) (b : Bank)
      → check key ≡ found
      → n < 2 ^ 63 - 1
      → IsCounted n b
      → IsCounted (suc n) (count_slot object found b).0
  slot-IsCounted n object key none b asked small c = later n b c
  slot-IsCounted n object key (some slot) b asked small c =
      elim (Bool-cases (mem_bytes slot (slots_of object b))) [
        | inl m ↦ rw m (later n b c)
        | inr m ↦ rw m (counted n object slot b (key, asked) m small c)
      ]

  abbrev Outcome : Bank → Bank → Bank × Answer → Type 0
  Outcome b t x = (x.0 ≡ b) ⊎ (x.0 ≡ t)

  settled :
      (b t : Bank) (test : Bool) (answer : Answer) (other : Bank × Answer)
      → Outcome b t other
      → Outcome b t (if test then (b, answer) else other)
  settled b t true answer other h = inl refl
  settled b t false answer other h = h

  redeem-cases :
      (issuer : RsaKey) (token : Token) (r : DeliveryReceipt) (b : Bank)
      → Outcome b
          (admit r b.bonded (record b { spent = r.serial ∷ b.spent })).0
          (redeem cr draws issuer token r b)
  unfolding redeem
  redeem-cases issuer token r b =
      let final = admit r b.bonded (record b { spent = r.serial ∷ b.spent }) in
      let proof_bad = not (delivered cr draws r) in
      let sig_bad =
        not (length r.fetcher == 32) || not (cr.verify r.fetcher (receipt_msg cr r) r.sig) in
      let step4 = settled b final.0 proof_bad bad_proof final (inr refl) in
      let step3 =
        settled b final.0 sig_bad bad_signature (if proof_bad then (b, bad_proof) else final)
          step4 in
      let rest3 =
        if sig_bad then (b, bad_signature) else if proof_bad then (b, bad_proof) else final in
      let step2 = settled b final.0 (mem_bytes r.serial b.spent) double_spend rest3 step3 in
      let rest2 = if mem_bytes r.serial b.spent then (b, double_spend) else rest3 in
      let step1 =
        settled b final.0 (not (bytes_equal token.serial r.serial)) serial_mismatch rest2 step2 in
      let rest1 = if not (bytes_equal token.serial r.serial) then (b, serial_mismatch) else rest2 in
      settled b final.0 (not (verify_token cr issuer token)) not_issued rest1 step1

  Redeems-IsCounted : (n : ℕ) (b : Bank) → Redeems n b → n < 2 ^ 63 → IsCounted n b
  Redeems-IsCounted _ _ opens small = opened
  Redeems-IsCounted _ _ (redeems {n = n} {b = b} issuer token r before) small =
      let c = Redeems-IsCounted n b before (omega (arith, small)) in
      let spent : Bank = record b { spent = r.serial ∷ b.spent } in
      elim (redeem-cases issuer token r b) [
        | inl same ↦ subst (λ z. IsCounted (suc n) z) (sym same) (later n b c)
        | inr done ↦
            let gated : (redeem cr draws issuer token r b).0
                ≡ (count_slot r.object (check r.fetcher) spent).0 =
              done ∙ ap (λ z. (admit r z spent).0) c.gate in
            subst (λ z. IsCounted (suc n) z) (sym gated)
              (slot-IsCounted n r.object r.fetcher (check r.fetcher) spent refl
                (omega (arith, small)) (spending n r.serial b c))
      ]

  -- Once the credential is required, from the opening of the bank on, the demand of each object is the
  -- number of the slots credited on it, which are all different, and each of which the check gave
  -- for some fetcher's key, as long as fewer than 2 ^ 63 receipts have been presented.
  pub demand_distinct :
      (n : ℕ) (b : Bank) (object : ℕ)
      → Redeems n b
      → n < 2 ^ 63
      → (demand_of object b ≡ pos (length (slots_of object b)))
        × BondedSlots check (slots_of object b)
  demand_distinct n b object h small =
      let c = Redeems-IsCounted n b h small in (c.count object, c.slots object)
