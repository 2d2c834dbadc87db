-- ===== src/Chunk/RoundTrip.antt =====
-- Splitting and joining: core/chunk/chunk.go.
use bitbit.Base.{
  ℕ, zero, suc, ◌+◌, ◌-◌, ◌^◌, ◌<◌, ◌≤◌, ◌≡◌, ◌⊎◌, ◌&&◌, not, refl, sym, ap, ◌∙◌, subst, min, Bool,
  true, false, Option, none, List, [], ◌∷◌, ◌++◌, length, length-append, take, drop, take-append,
  drop-append, take-drop, take_all, length-drop_sub, length-take-min, All, ltb, ◌==◌, arith,
  Bool-cases, inl, inr,
}
use bitbit.Base.Bytes.{Bytes, be_bytes, zeros, length-be_bytes, length-zeros, be_value-be_bytes}
use bitbit.Chunk.Frames.{
  frames_of, JoinError, frame_of, split_from, split, claimed, payload, join_from, join,
}
use mathlib.Core.List.{append_assoc, append-nil}

length-frame_of : (p : ℕ) (content : Bytes) → length (frame_of p content) ≡ p + 8
unfolding frame_of
length-frame_of p content =
    let n = min p (length content) in
    omega (
      arith,
      length-append (be_bytes 8 n) (take p content ++ zeros (p - n)),
      length-be_bytes 8 n,
      length-append (take p content) (zeros (p - n)),
      length-take-min p content,
      length-zeros (p - n),
    )

claimed-frame_of :
    (p : ℕ) (content : Bytes) → p < 2 ^ 63 → claimed (frame_of p content) ≡ min p (length content)
unfolding frame_of claimed
claimed-frame_of p content h =
    let n = min p (length content) in
    rw (take-append (be_bytes 8 n) (take p content ++ zeros (p - n)) 8 (sym (length-be_bytes 8 n)))
      (be_value-be_bytes 8 n (omega (arith, h)))

shape :
    (p : ℕ) (content : Bytes)
    → frame_of p content
      ≡ be_bytes 8 (min p (length content))
        ++ (take p content ++ zeros (p - min p (length content)))
unfolding frame_of
shape p content = refl

payload-frame_of :
    (p : ℕ) (content : Bytes) → p < 2 ^ 63 → payload (frame_of p content) ≡ take p content
unfolding payload
payload-frame_of p content h = rw (claimed-frame_of p content h) (body p content)
  where
    body :
        (p : ℕ) (content : Bytes)
        → take (min p (length content)) (drop 8 (frame_of p content)) ≡ take p content
    body p content =
        let n = min p (length content) in
        let tail : drop 8 (frame_of p content) ≡ take p content ++ zeros (p - n) =
          ap (λ z. drop 8 z) (shape p content)
          ∙ drop-append (be_bytes 8 n) (take p content ++ zeros (p - n)) 8
              (sym (length-be_bytes 8 n)) in
        rw tail (take-append (take p content) (zeros (p - n)) n (sym (length-take-min p content)))

-- The three ways out of a round of `Split`'s loop.
split-end :
    (fuel p : ℕ) (built : List Bytes) → split_from (suc fuel) p false built [] ≡ frames_of built
unfolding split_from
split-end fuel p built = let e : (min p 0 == 0) ≡ true = ground arith in rw e refl

split-last :
    (fuel p : ℕ) (built : List Bytes) (content : Bytes)
    → 0 < length content
    → length content < p
    → split_from (suc fuel) p false built content ≡ frames_of (built ++ frame_of p content ∷ [])
unfolding split_from
split-last fuel p built content h l =
    let some_read : (min p (length content) == 0) ≡ false = ground (arith, h, l) in
    let less : ltb (min p (length content)) p ≡ true = ground (arith, h, l) in
    rw (some_read, less) refl

split-more :
    (fuel p : ℕ) (built : List Bytes) (content : Bytes)
    → 0 < p
    → p ≤ length content
    → split_from (suc fuel) p false built content
      ≡ split_from fuel p false (built ++ frame_of p content ∷ []) (drop p content)
unfolding split_from
split-more fuel p built content h l =
    let some_read : (min p (length content) == 0) ≡ false = ground (arith, h, l) in
    let whole : ltb (min p (length content)) p ≡ false = ground (arith, h, l) in
    rw (some_read, whole) refl

module _ {W : Type 0} (write : W → Bytes → W × Bool) (contents : W → Bytes)
    (writes : (w : W) (b : Bytes)
      → (contents (write w b).0 ≡ contents w ++ b) × ((write w b).1 ≡ true)) where
  abbrev Joined : W → Bytes → W × Option JoinError → Type 0
  Joined w content r = (r.1 ≡ none) × (contents r.0 ≡ contents w ++ content)

  -- Frames that a loop of `Split` builds for the content, and what `Join` makes of them.
  abbrev Pieces : ℕ → ℕ → Bytes → Type 0
  Pieces fuel p content =
      (frames : List Bytes) × ((built : List Bytes)
        → split_from fuel p false built content ≡ frames_of (built ++ frames))
      × All (λ f. length f ≡ p + 8) frames
      × ((total i : ℕ) (w : W)
          → total ≡ i + length frames
          → Joined w content (join_from write total i w frames))

  join-frame :
      (total i p : ℕ) (w : W) (content : Bytes) (frames : List Bytes)
      → 0 < p
      → p < 2 ^ 63
      → 0 < length content
      → (total ≡ i + 1) ⊎ (p ≤ length content)
      → join_from write total i w (frame_of p content ∷ frames)
        ≡ join_from write total (i + 1) (write w (take p content)).0 frames
  unfolding join_from
  join-frame total i p w content frames hp hq full last =
      let n = min p (length content) in
      let size : length (frame_of p content) - 8 ≡ p = omega (arith, length-frame_of p content) in
      let big : ltb (length (frame_of p content)) 9 ≡ false =
        ground (arith, length-frame_of p content, hp) in
      let room : ltb p n ≡ false = ground arith in
      let whole : (ltb i (total - 1) && not (n == p)) ≡ false = elim last [
        | inl e ↦ ground (arith, e)
        | inr e ↦ ground (arith, e)
      ] in
      rw
        (
          big,
          claimed-frame_of p content hq,
          size,
          room,
          whole,
          payload-frame_of p content hq,
          (writes w (take p content)).1,
        )
        refl

  join-end : (total i : ℕ) (w : W) → Joined w [] (join_from write total i w [])
  unfolding join_from
  join-end total i w = (refl, sym (append-nil (contents w)))

  -- One frame joined, and then the others.
  Joined-frame :
      (w : W) (one others content : Bytes) (r r' : W × Option JoinError)
      → one ++ others ≡ content
      → r ≡ r'
      → Joined (write w one).0 others r'
      → Joined w content r
  Joined-frame w one others content r r' parts same (good, all) = (
    ap (λ (z : W × Option JoinError). z.1) same ∙ good,
    ap (λ (z : W × Option JoinError). contents z.0) same
        ∙ all
        ∙ ap (λ z. z ++ others) (writes w one).0
        ∙ append_assoc (contents w) one others
        ∙ ap (λ z. contents w ++ z) parts,
  )

  pieces :
      (fuel p : ℕ) (content : Bytes)
      → 0 < p
      → p < 2 ^ 63
      → length content < fuel
      → Pieces fuel p content
  pieces zero p content hp hq h = absurd (omega (arith, h))
  pieces (suc fuel) p [] hp hq h = (
    [],
    λ built. split-end fuel p built ∙ ap (λ z. frames_of z) (sym (append-nil built)),
    tt,
    λ total i w t. join-end total i w,
  )
  pieces (suc fuel) p (b ∷ bs) hp hq h = elim (Bool-cases (ltb (length (b ∷ bs)) p)) [
    | inl e ↦
        let content = b ∷ bs in
        let short : length content < p = ground (arith, e) in
        (
          frame_of p content ∷ [],
          λ built. split-last fuel p built content (omega arith) short,
          (length-frame_of p content, tt),
          λ total i w t.
              let step =
                join-frame total i p w content [] hp hq (omega arith) (inl (omega (arith, t))) in
              Joined-frame w (take p content) [] content _ _
                (append-nil (take p content) ∙ take_all p content (omega (arith, short))) step
                (join-end total (i + 1) (write w (take p content)).0),
        )
    | inr e ↦
        let content = b ∷ bs in
        let full : p ≤ length content = ground (arith, e) in
        let (frames, made, sizes, joins) =
          pieces fuel p (drop p content) hp hq
            (omega (arith, length-drop_sub p content, h, hp, full)) in
        (
          frame_of p content ∷ frames,
          λ built.
              split-more fuel p built content hp full
              ∙ made (built ++ frame_of p content ∷ [])
              ∙ ap (λ z. frames_of z) (append_assoc built (frame_of p content ∷ []) frames),
          (length-frame_of p content, sizes),
          λ total i w t.
              let step = join-frame total i p w content frames hp hq (omega arith) (inr full) in
              Joined-frame w (take p content) (drop p content) content _ _ (take-drop p content)
                step (joins total (i + 1) (write w (take p content)).0 (omega (arith, t))),
        )
  ]

  -- A stream that does not fail is split into frames that all have the chunk size, at a chunk size from 9
  -- to 2 ^ 63 - 1, the empty stream too, and `Join` gives the stream back from them, to a writer whose
  -- writes are made.
  pub join-split :
      (content : Bytes) (chunk_size : ℕ) (w : W)
      → 9 ≤ chunk_size
      → chunk_size < 2 ^ 63
      → (frames : List Bytes) × (split (record { content = content; fails = false }) chunk_size
          ≡ frames_of frames)
        × All (λ f. length f ≡ chunk_size) frames
        × ((join write w frames).1 ≡ none)
        × (contents (join write w frames).0 ≡ contents w ++ content)
  unfolding split join
  join-split content chunk_size w h h' =
      let p = chunk_size - 8 in
      let whole : p + 8 ≡ chunk_size = omega (arith, h) in
      let big : ltb chunk_size 9 ≡ false = ground (arith, h) in
      let (frames, made, sizes, joins) =
        pieces (suc (length content)) p content (omega (arith, h)) (omega (arith, h'))
          (omega arith) in
      (
        frames,
        rw big (made []),
        subst (λ z. All (λ f. length f ≡ z) frames) whole sizes,
        (joins (length frames) 0 w (omega arith)).0,
        (joins (length frames) 0 w (omega arith)).1,
      )
