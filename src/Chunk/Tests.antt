-- ===== src/Chunk/Tests.antt =====
-- A stream of twelve bytes on which the theorem about core/chunk/chunk.go applies.
use bitbit.Base.{◌≡◌, refl, Bool, true, false, none, List, [], ◌∷◌, ◌++◌, length, All, arith}
use bitbit.Base.Bytes.{Bytes}
use bitbit.Chunk.Frames.{frames_of, split, join}
use bitbit.Chunk.RoundTrip.{join-split}

-- `bytes.Buffer`: every write is made.
abbrev write : Bytes → Bytes → Bytes × Bool
write held more = (held ++ more, true)

abbrev stream : Bytes
stream = 7 ∷ 0 ∷ 3 ∷ 4 ∷ 5 ∷ 6 ∷ 7 ∷ 8 ∷ 9 ∷ 0 ∷ 0 ∷ 0 ∷ []

join-split_example :
    (frames : List Bytes) × (split (record { content = stream; fails = false }) 13
      ≡ frames_of frames)
    × All (λ f. length f ≡ 13) frames
    × ((join write [] frames).1 ≡ none)
    × ((join write [] frames).0 ≡ [] ++ stream)
join-split_example =
    join-split write (λ held. held) (λ held more. (refl, refl)) stream 13 [] (omega arith)
      (omega arith)
