-- ===== src/Translog.antt =====
-- The transparency log of core/translog/translog.go: RFC 6962 tree heads, audit paths and consistency
-- proofs. SHA-256 is a parameter. An index or a size is a number: the source's refusals of a
-- negative one have no counterpart. The recursions on shorter slices, and the loops that
-- shift a number down, run on fuel.
mod Tests
pub mod Split
pub mod History
pub mod Paths
pub mod Inclusion
use bitbit.Base.{
  ℕ, zero, suc, ◌+◌, ◌-◌, ◌*◌, ◌/◌, ◌%◌, Bool, true, false, ◌&&◌, ◌||◌, not, Option, none, some,
  List, [], ◌∷◌, ◌++◌, length, take, ltb, leb, ◌==◌, if◌then◌else◌,
}
use bitbit.Base.{drop}
use bitbit.Base.Bytes.{Bytes}
use bitbit.Chain.State.{hash_bytes}

abbrev pub Log : Type 0
Log = List ℕ

-- The entry is appended, and the new size returned.
unfoldable pub append : ℕ → Log → ℕ × Log
append entry l = (length (l ++ entry ∷ []), l ++ entry ∷ [])

unfoldable pub split_from : ℕ → ℕ → ℕ → ℕ
split_from zero k n = k
split_from (suc fuel) k n =
    let more = split_from fuel (2 * k) n in if ltb (2 * k) n then more else k

-- From 1 up, `n` doublings pass `n`.
unfoldable pub split : ℕ → ℕ
unfolding split_from
split n = split_from n 1 n

module _ (sha256 : Bytes → ℕ) where
  unfoldable pub leaf_hash : ℕ → ℕ
  leaf_hash entry = sha256 (0 ∷ hash_bytes entry)

  unfoldable pub node_hash : ℕ → ℕ → ℕ
  node_hash left right = sha256 (1 ∷ (hash_bytes left ++ hash_bytes right))

  unfoldable pub mth_from : ℕ → List ℕ → ℕ
  mth_from fuel [] = sha256 []
  mth_from fuel (e ∷ []) = leaf_hash e
  mth_from zero (e ∷ e' ∷ es) = 0
  mth_from (suc fuel) (e ∷ e' ∷ es) =
      let entries = e ∷ e' ∷ es in
      let k = split (length entries) in
      node_hash (mth_from fuel (take k entries)) (mth_from fuel (drop k entries))

  -- Each half is shorter, so that the length is fuel enough.
  unfoldable pub mth : List ℕ → ℕ
  mth entries = mth_from (length entries) entries

  unfoldable pub path_from : ℕ → ℕ → List ℕ → List ℕ
  path_from zero m entries = []
  path_from (suc fuel) m entries =
      let k = split (length entries) in
      let left = path_from fuel m (take k entries) in
      let right = path_from fuel (m - k) (drop k entries) in
      if leb (length entries) 1
      then []
      else if ltb m k
      then left ++ mth (drop k entries) ∷ []
      else right ++ mth (take k entries) ∷ []

  unfoldable pub path : ℕ → List ℕ → List ℕ
  path m entries = path_from (length entries) m entries

  unfoldable pub subproof_from : ℕ → ℕ → List ℕ → Bool → List ℕ
  subproof_from zero m entries whole = []
  subproof_from (suc fuel) m entries whole =
      let k = split (length entries) in
      let left = subproof_from fuel m (take k entries) whole in
      let right = subproof_from fuel (m - k) (drop k entries) false in
      if m == length entries
      then (if whole then [] else mth entries ∷ [])
      else if leb m k
      then left ++ mth (drop k entries) ∷ []
      else right ++ mth (take k entries) ∷ []

  unfoldable pub subproof : ℕ → List ℕ → Bool → List ℕ
  subproof m entries whole = subproof_from (length entries) m entries whole

  unfoldable pub root : Log → ℕ
  root l = mth l

  -- `none` is ErrRange.
  unfoldable pub root_at : ℕ → Log → Option ℕ
  root_at size l = if ltb (length l) size then none else some (mth (take size l))

  unfoldable pub inclusion_proof : ℕ → ℕ → Log → Option (List ℕ)
  inclusion_proof index size l =
      if ltb (length l) size || leb size index then none else some (path index (take size l))

  unfoldable pub consistency_proof : ℕ → ℕ → Log → Option (List ℕ)
  consistency_proof m n l =
      if ltb n m || ltb (length l) n
      then none
      else if (m == 0) || (m == n)
      then some []
      else some (subproof m (take n l) true)

-- `for fn&1 == 0 && fn != 0 { fn >>= 1; sn >>= 1 }`
unfoldable pub strip_even : ℕ → ℕ → ℕ → ℕ × ℕ
strip_even zero fn sn = (fn, sn)
strip_even (suc fuel) fn sn =
    let rest = strip_even fuel (fn / 2) (sn / 2) in
    if (fn % 2 == 0) && not (fn == 0) then rest else (fn, sn)

-- `for fn&1 == 1 { fn >>= 1; sn >>= 1 }`
unfoldable pub strip_odd : ℕ → ℕ → ℕ → ℕ × ℕ
strip_odd zero fn sn = (fn, sn)
strip_odd (suc fuel) fn sn =
    let rest = strip_odd fuel (fn / 2) (sn / 2) in if fn % 2 == 1 then rest else (fn, sn)

-- The two counters after one element of a proof.
unfoldable pub ascend : ℕ → ℕ → ℕ × ℕ
ascend fn sn =
    let at = if (fn == sn) && (fn % 2 == 0) then strip_even fn fn sn else (fn, sn) in
    (at.0 / 2, at.1 / 2)

-- Whether the next element of a proof is the left sibling.
abbrev from_left : ℕ → ℕ → Bool
from_left fn sn = (fn % 2 == 1) || (fn == sn)

-- The bitwise and of the low `w` bits.
unfoldable pub and_bits : ℕ → ℕ → ℕ → ℕ
and_bits zero a b = 0
and_bits (suc w) a b = (a % 2) * (b % 2) + 2 * and_bits w (a / 2) (b / 2)

unfoldable pub is_pow2 : ℕ → Bool
is_pow2 x = ltb 0 x && (and_bits 63 x (x - 1) == 0)

module _ (sha256 : Bytes → ℕ) where
  unfoldable pub climb : List ℕ → ℕ → ℕ → ℕ → Option (ℕ × ℕ)
  climb [] fn sn r = some (sn, r)
  climb (p ∷ proof) fn sn r =
      let next = ascend fn sn in
      let rest =
        climb proof next.0 next.1
          (if from_left fn sn then node_hash sha256 p r else node_hash sha256 r p) in
      if sn == 0 then none else rest

  abbrev arrives : Option (ℕ × ℕ) → ℕ → Bool
  arrives none head = false
  arrives (some (sn, r)) head = (sn == 0) && (r == head)

  unfoldable pub verify_inclusion : ℕ → ℕ → ℕ → ℕ → List ℕ → Bool
  unfolding climb
  verify_inclusion entry index size head proof =
      if leb size index
      then false
      else arrives (climb proof index (size - 1) (leaf_hash sha256 entry)) head

  unfoldable pub climb_both : List ℕ → ℕ → ℕ → ℕ → ℕ → Option (ℕ × ℕ × ℕ)
  climb_both [] fn sn fr sr = some (sn, fr, sr)
  climb_both (c ∷ proof) fn sn fr sr =
      let next = ascend fn sn in
      let rest =
        climb_both proof next.0 next.1 (if from_left fn sn then node_hash sha256 c fr else fr)
          (if from_left fn sn then node_hash sha256 c sr else node_hash sha256 sr c) in
      if sn == 0 then none else rest

  abbrev arrives_both : Option (ℕ × ℕ × ℕ) → ℕ → ℕ → Bool
  arrives_both none old new = false
  arrives_both (some (sn, fr, sr)) old new = (sn == 0) && ((fr == old) && (sr == new))

  -- The rest of the check, once the first node of the path is known.
  unfoldable pub check_path : ℕ → ℕ → ℕ → ℕ → List ℕ → Bool
  unfolding climb_both
  check_path old m new n [] = false
  check_path old m new n (p ∷ proof) =
      let start = strip_odd m (m - 1) (n - 1) in
      arrives_both (climb_both proof start.0 start.1 p p) old new

  abbrev no_proof : List ℕ → Bool
  no_proof [] = true
  no_proof (p ∷ proof) = false

  unfoldable pub verify_consistency : ℕ → ℕ → ℕ → ℕ → List ℕ → Bool
  verify_consistency old m new n proof =
      if ltb n m
      then false
      else if m == 0
      then no_proof proof
      else if m == n
      then no_proof proof && (old == new)
      else check_path old m new n (if is_pow2 m then old ∷ proof else proof)
