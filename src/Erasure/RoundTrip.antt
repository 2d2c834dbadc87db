-- ===== src/Erasure/RoundTrip.antt =====
-- Stripes that lose shards and are rebuilt: core/erasure/erasure.go.
use bitbit.Base.{
  suc, ◌+◌, ◌-◌, ◌<◌, ◌≤◌, ◌≡◌, ◌≢◌, refl, sym, ap, ◌∙◌, subst, true, false, ◌||◌, Option, none,
  some, List, [], ◌∷◌, ◌++◌, length, length-append, All, All-append, take, drop, take-append,
  take-drop, ltb, ◌==◌, arith, Bool-cases, Option-cases, inl, inr,
}
use bitbit.Base.Bytes.{Bytes, zeros}
use mathlib.Core.List.{append_assoc}
use bitbit.Erasure.Stripe.{
  Params, ReedSolomon, validate, parity_shards, same_size, copies, shards_of, fails, bad_params,
  shard_count, empty_shards, bad_size, bad_code, first_size, available, encode_stripe,
  reconstruct_stripe, first_length,
}
use bitbit.Erasure.Recovery.{
  Agrees, IsErasureCode, NoPadding, PadZero, fill-Agrees, PadZero-append, PadZero-before,
  PadZero-after, PadZero-copies, length-copies, copies-All, same_size-All, first_size-eq,
}

-- The stripe of a file's chunks: the chunks, the implicit zero shards and the parity.
abbrev pub stripe_of : Params → List Bytes → List Bytes → List Bytes
stripe_of p chunks parity =
    chunks ++ (copies (p.k - length chunks) (zeros (first_length chunks)) ++ parity)

-- What an encoding that succeeded has checked and done.
record Encoded (rs : ReedSolomon) (p : Params) (chunks parity : List Bytes) : Type 0 where
  full : List Bytes
  valid : validate p ≡ true
  some_chunk : 0 < length chunks
  few_chunks : length chunks ≤ p.k
  size : first_length chunks ≢ 0
  sizes : same_size (first_length chunks) chunks ≡ true
  done :
      rs.encode p.k
        (parity_shards p)
        (stripe_of p chunks (copies (p.n - p.k) (zeros (first_length chunks))))
      ≡ some full
  tail : drop p.k full ≡ parity

encoded :
    (rs : ReedSolomon) (p : Params) (chunks parity : List Bytes)
    → encode_stripe rs p chunks ≡ shards_of parity
    → Encoded rs p chunks parity
unfolding encode_stripe
encoded rs p chunks parity h =
    let shards = stripe_of p chunks (copies (p.n - p.k) (zeros (first_length chunks))) in
    elim (Bool-cases (validate p)) [
      | inr v ↦
          let no : fails bad_params ≡ shards_of parity = sym (rw (encode_stripe, v) refl) ∙ h in
          absurd (cc)
      | inl v ↦ elim (Bool-cases ((length chunks == 0) || ltb p.k (length chunks))) [
        | inl c ↦
            let no : fails shard_count ≡ shards_of parity =
              sym (rw (encode_stripe, v, c) refl) ∙ h in
            absurd (cc)
        | inr c ↦ elim (Bool-cases (first_length chunks == 0)) [
          | inl e ↦
              let no : fails empty_shards ≡ shards_of parity =
                sym (rw (encode_stripe, v, c, e) refl) ∙ h in
              absurd (cc)
          | inr e ↦ elim (Bool-cases (same_size (first_length chunks) chunks)) [
            | inr s ↦
                let no : fails bad_size ≡ shards_of parity =
                  sym (rw (encode_stripe, v, c, e, s) refl) ∙ h in
                absurd (cc)
            | inl s ↦ elim (Option-cases (rs.encode p.k (parity_shards p) shards)) [
              | inl o ↦
                  let no : fails bad_code ≡ shards_of parity =
                    sym (rw (encode_stripe, v, c, e, s, o) refl) ∙ h in
                  absurd (cc)
              | inr (full, o) ↦
                  let made : shards_of (drop p.k full) ≡ shards_of parity =
                    sym (rw (encode_stripe, v, c, e, s, o) refl) ∙ h in
                  record {
                    full = full;
                    valid = v;
                    some_chunk = ground (arith, c);
                    few_chunks = ground (arith, c);
                    size = ground (arith, e);
                    sizes = s;
                    done = o;
                    tail = cc;
                  }
            ]
          ]
        ]
      ]
    ]

Agrees-length :
    (slots : List (Option Bytes)) (full : List Bytes)
    → Agrees slots full
    → length slots ≡ length full
Agrees-length [] [] h = refl
Agrees-length [] (s ∷ full) h = absurd h
Agrees-length (none ∷ slots) [] h = absurd h
Agrees-length (some b ∷ slots) [] h = absurd h
Agrees-length (none ∷ slots) (s ∷ full) h = ap (λ z. suc z) (Agrees-length slots full h)
Agrees-length (some b ∷ slots) (s ∷ full) h = ap (λ z. suc z) (Agrees-length slots full h.1)

valid-order : (p : Params) → validate p ≡ true → p.k < p.n
unfolding validate
valid-order p h = ground (arith, h)

shards_total : (p : Params) → p.k < p.n → p.n ≡ p.k + parity_shards p
unfolding parity_shards
shards_total p h = omega (arith, h)

-- The stripe is what the library encoded.
full-eq :
    (rs : ReedSolomon) (p : Params) (chunks parity : List Bytes)
    → IsErasureCode rs
    → (e : Encoded rs p chunks parity) → e.full ≡ stripe_of p chunks parity
full-eq rs p chunks parity law e =
    let pad = copies (p.k - length chunks) (zeros (first_length chunks)) in
    let blank = copies (p.n - p.k) (zeros (first_length chunks)) in
    let head_size : p.k ≡ length (chunks ++ pad) = omega (
      arith,
      length-append chunks pad,
      length-copies (p.k - length chunks) (zeros (first_length chunks)),
      e.few_chunks,
    ) in
    let kept = (law.data_kept p.k (parity_shards p) (stripe_of p chunks blank) e.full e.done).0 in
    let head : take p.k e.full ≡ chunks ++ pad =
      kept
      ∙ ap (λ z. take p.k z) (sym (append_assoc chunks pad blank))
      ∙ take-append (chunks ++ pad) blank p.k head_size in
    sym (take-drop p.k e.full)
    ∙ ap (λ z. z ++ drop p.k e.full) head
    ∙ ap (λ z. (chunks ++ pad) ++ z) e.tail
    ∙ append_assoc chunks pad parity

-- What an encoding that succeeded says of the parameters and the stripe.
pub stripe-sizes :
    (rs : ReedSolomon) (p : Params) (chunks parity : List Bytes)
    → IsErasureCode rs
    → encode_stripe rs p chunks ≡ shards_of parity
    → (validate p ≡ true)
      × (p.k < p.n)
      × (0 < length chunks)
      × (length chunks ≤ p.k)
      × (length (stripe_of p chunks parity) ≡ p.n)
stripe-sizes rs p chunks parity law made =
    let e = encoded rs p chunks parity made in
    let pad = copies (p.k - length chunks) (zeros (first_length chunks)) in
    let blank = copies (p.n - p.k) (zeros (first_length chunks)) in
    let order : p.k < p.n = valid-order p e.valid in
    let input_size : length (stripe_of p chunks blank) ≡ p.n = omega (
      arith,
      length-append chunks (pad ++ blank),
      length-append pad blank,
      length-copies (p.k - length chunks) (zeros (first_length chunks)),
      length-copies (p.n - p.k) (zeros (first_length chunks)),
      e.few_chunks,
      order,
    ) in
    let full_size : length e.full ≡ p.n =
      (law.data_kept p.k (parity_shards p) (stripe_of p chunks blank) e.full e.done).1
      ∙ input_size in
    (
      e.valid,
      order,
      e.some_chunk,
      e.few_chunks,
      ap (λ z. length z) (sym (full-eq rs p chunks parity law e)) ∙ full_size,
    )

-- With a code that keeps its promise, a stripe that was encoded is rebuilt whole from what is left of
-- it, its padding (which is never stored) and as many shards as it has chunks or more, whichever
-- they are.
pub stripe_survives :
    (rs : ReedSolomon) (p : Params) (chunks parity : List Bytes) (slots : List (Option Bytes))
    → IsErasureCode rs
    → encode_stripe rs p chunks ≡ shards_of parity
    → Agrees slots (stripe_of p chunks parity)
    → NoPadding (length chunks) p.k 0 slots
    → length chunks ≤ available slots
    → reconstruct_stripe rs p slots (length chunks) ≡ shards_of (stripe_of p chunks parity)
unfolding reconstruct_stripe
stripe_survives rs p chunks parity slots law made agrees unpadded left =
    let e = encoded rs p chunks parity made in
    let n_chunks = length chunks in
    let size = first_length chunks in
    let pad = copies (p.k - n_chunks) (zeros size) in
    let blank = copies (p.n - p.k) (zeros size) in
    let stripe = stripe_of p chunks parity in
    let (_, order, _, _, stripe_size) = stripe-sizes rs p chunks parity law made in
    let same : e.full ≡ stripe = full-eq rs p chunks parity law e in
    let pad_size : length pad ≡ p.k - n_chunks = length-copies (p.k - n_chunks) (zeros size) in
    let slots_size : length slots ≡ p.n = Agrees-length slots stripe agrees ∙ stripe_size in
    let chunk_sizes = same_size-All size chunks e.sizes in
    let input_sizes =
      All-append (λ s. length s ≡ size) chunks (pad ++ blank) chunk_sizes
        (All-append (λ s. length s ≡ size) pad blank (copies-All (p.k - n_chunks) size)
          (copies-All (p.n - p.k) size)) in
    let stripe_sizes =
      subst (λ z. All (λ s. length s ≡ size) z) same
        (law.sizes_kept p.k (parity_shards p) size (stripe_of p chunks blank) e.full e.done
          input_sizes) in
    let zero_padding : PadZero n_chunks p.k size 0 stripe =
      PadZero-append n_chunks p.k size 0 chunks (pad ++ parity)
        (PadZero-before n_chunks p.k size 0 chunks (omega arith))
        (PadZero-append n_chunks p.k size (0 + n_chunks) pad parity
          (PadZero-copies n_chunks p.k size (0 + n_chunks) (p.k - n_chunks))
          (PadZero-after n_chunks p.k size (0 + n_chunks + length pad) parity
            (omega (arith, pad_size, e.few_chunks)))) in
    let (filled, got, agrees', count) =
      fill-Agrees n_chunks p.k size 0 slots stripe agrees zero_padding unpadded in
    let enough : p.k ≤ available filled =
      omega (arith, count, slots_size, left, e.few_chunks, order) in
    let right_parity : rs.verify p.k (parity_shards p) stripe ≡ some true =
      subst (λ z. rs.verify p.k (parity_shards p) z ≡ some true) same
        (law.parity_right p.k (parity_shards p) (stripe_of p chunks blank) e.full e.done) in
    let whole : length stripe ≡ p.k + parity_shards p = stripe_size ∙ shards_total p order in
    let back = law.recovers p.k (parity_shards p) stripe filled right_parity whole agrees' enough in
    let size_found : first_size slots ≡ size =
      first_size-eq size slots stripe agrees stripe_sizes (omega (arith, left, e.some_chunk)) in
    let count_ok : (length slots == p.n) ≡ true = ground (arith, slots_size) in
    let real_ok : (ltb n_chunks 1 || ltb p.k n_chunks) ≡ false =
      ground (arith, e.some_chunk, e.few_chunks) in
    let size_ok : (size == 0) ≡ false = ground (arith, e.size) in
    let avail_ok : ltb (available filled) p.k ≡ false = ground (arith, enough) in
    rw
      (
        reconstruct_stripe, e.valid, count_ok, real_ok, size_found, size_ok, got, avail_ok, back,
        right_parity,
      )
      refl
