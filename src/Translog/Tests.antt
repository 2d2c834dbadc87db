-- ===== src/Translog/Tests.antt =====
-- A log on which the theorems about core/translog apply.
use bitbit.Base.{ℕ, ◌+◌, ◌*◌, ◌≡◌, [], ◌∷◌}
use bitbit.Base.Bytes.{Bytes}
use bitbit.Translog.{mth}
use bitbit.Translog.{Log, path, inclusion_proof, root_at, verify_inclusion}
use bitbit.Translog.Inclusion.{inclusion_round_trip}
use bitbit.Base.{some, true, refl}

-- A digest to tell trees apart by.
unfoldable toy_digest : Bytes → ℕ
toy_digest [] = 1
toy_digest (x ∷ xs) = x + 3 * toy_digest xs

abbrev three : Log
three = 5 ∷ 6 ∷ 7 ∷ []

proof_given : inclusion_proof toy_digest 1 3 three ≡ some (path toy_digest 1 three)
unfolding inclusion_proof
proof_given = refl

head_given : root_at toy_digest 3 three ≡ some (mth toy_digest three)
unfolding root_at
head_given = refl

inclusion_round_trip_example :
    verify_inclusion toy_digest 6 1 3 (mth toy_digest three) (path toy_digest 1 three) ≡ true
inclusion_round_trip_example =
    inclusion_round_trip toy_digest three 1 3 6 (mth toy_digest three) (path toy_digest 1 three)
      proof_given head_given refl
