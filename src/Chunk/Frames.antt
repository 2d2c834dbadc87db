-- ===== src/Chunk/Frames.antt =====
-- Splitting a stream into frames and joining them: core/chunk/chunk.go. A reader is what it still
-- has to give and whether it then fails, in place of the end of the file; `io.ReadFull` on it gives as
-- many bytes as there are, up to the buffer's length. A writer is a parameter: its state after a
-- write, and whether the write was made. Sizes are numbers: a Go `int` is below 2 ^ 63.
use bitbit.Base.{
  ℕ, zero, suc, ◌+◌, ◌-◌, min, Bool, not, ◌&&◌, Option, none, some, List, [], ◌∷◌, ◌++◌, length,
  take, drop, ltb, ◌==◌, if◌then◌else◌,
}
use bitbit.Base.Bytes.{Bytes, be_bytes, be_value, zeros}

abbrev pub header_size : ℕ
header_size = 8

abbrev pub min_chunk_size : ℕ
min_chunk_size = header_size + 1

pub record Reader : Type 0 where
  pub content : Bytes
  pub fails : Bool

pub data SplitResult : Type 0 where
  frames_of : List Bytes → SplitResult
  too_small : SplitResult
  read_failed : SplitResult

pub data JoinError : Type 0 where
  frame_small : ℕ → JoinError
  claims_more : ℕ → ℕ → JoinError
  frame_short : ℕ → ℕ → JoinError
  write_failed : JoinError

-- Header, payload and padding.
unfoldable pub frame_of : ℕ → Bytes → Bytes
frame_of payload_size content =
    let n = min payload_size (length content) in
    be_bytes header_size n ++ (take payload_size content ++ zeros (payload_size - n))

-- `frames` is what the loop has built so far.
unfoldable pub split_from : ℕ → ℕ → Bool → List Bytes → Bytes → SplitResult
split_from zero payload_size fails frames content = frames_of frames
split_from (suc fuel) payload_size fails frames content =
    let n = min payload_size (length content) in
    let frames' = frames ++ frame_of payload_size content ∷ [] in
    let rest = split_from fuel payload_size fails frames' (drop payload_size content) in
    if n == 0
    then (if fails then read_failed else frames_of frames)
    else if ltb n payload_size && fails
    then read_failed
    else if ltb n payload_size
    then frames_of frames'
    else rest

-- A round takes a byte at least, so the content's length and one more rounds are enough.
unfoldable pub split : Reader → ℕ → SplitResult
split r chunk_size =
    if ltb chunk_size min_chunk_size
    then too_small
    else split_from (suc (length r.content)) (chunk_size - header_size) r.fails [] r.content

unfoldable pub claimed : Bytes → ℕ
claimed frame = be_value (take header_size frame)

unfoldable pub payload : Bytes → Bytes
payload frame = take (claimed frame) (drop header_size frame)

module _ {W : Type 0} (write : W → Bytes → W × Bool) where
  unfoldable pub join_from : ℕ → ℕ → W → List Bytes → W × Option JoinError
  join_from total i w [] = (w, none)
  join_from total i w (frame ∷ frames) =
      let n = claimed frame in
      let payload_size = length frame - header_size in
      let (w', ok) = write w (payload frame) in
      let rest = join_from total (i + 1) w' frames in
      if ltb (length frame) min_chunk_size
      then (w, some (frame_small i))
      else if ltb payload_size n
      then (w, some (claims_more i n))
      else if ltb i (total - 1) && not (n == payload_size)
      then (w, some (frame_short i n))
      else if not ok
      then (w', some write_failed)
      else rest

  unfoldable pub join : W → List Bytes → W × Option JoinError
  join w frames = join_from (length frames) 0 w frames
