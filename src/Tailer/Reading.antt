-- ===== src/Tailer/Reading.antt =====
-- `readLine`, and what one turn of `loop` writes between two waits for the timer.
use juju_utils.Common.{ℕ, zero, suc, List, [], ◌∷◌, ◌++◌, length, if◌then◌else◌, nat_beq}
use juju_utils.Common.Bytes.{Bytes}
use juju_utils.Tailer.{Filter, is_valid, delimiter}

-- What bufio's `ReadSlice` returns, and what is left to read: a slice that ends with the delimiter,
-- a full buffer with none, or all that is left with none.
pub data Slice : Type 0 where
  delimited : Bytes → Bytes → Slice
  full : Bytes → Bytes → Slice
  eof : Bytes → Slice

abbrev pub prepend : ℕ → Slice → Slice
prepend c (delimited slice rest) = delimited (c ∷ slice) rest
prepend c (full slice rest) = full (c ∷ slice) rest
prepend c (eof slice) = eof (c ∷ slice)

unfoldable pub read_slice : ℕ → Bytes → Slice
read_slice zero s = full [] s
read_slice (suc buffer_size) [] = eof []
read_slice (suc buffer_size) (c ∷ s) =
    if nat_beq c delimiter then delimited (c ∷ []) s else prepend c (read_slice buffer_size s)

-- How `readLine` returns: with a line, or at the end of the file, with the bytes that it steps back.
pub data Line : Type 0 where
  reads : Bytes → Bytes → Line
  steps_back : Bytes → Line

-- What `readLine` makes of a slice; `line` is what it has read of the line, and `next` goes on.
abbrev pub take_slice : (Bytes → Bytes → Line) → Filter → Bytes → Slice → Line
take_slice next filter line (delimited slice rest) =
    if is_valid filter (line ++ slice) then reads (line ++ slice) rest else next [] rest
take_slice next filter line (full slice rest) = next (line ++ slice) rest
take_slice next filter line (eof slice) = steps_back (line ++ slice)

-- `readLine`; `fuel` is more than what is left to read.
unfoldable pub read_line : ℕ → ℕ → Filter → Bytes → Bytes → Line
unfolding read_slice
read_line zero buffer_size filter line s = steps_back line
read_line (suc fuel) buffer_size filter line s =
    take_slice (read_line fuel buffer_size filter) filter line (read_slice buffer_size s)

-- The inner loop of `loop`: the lines that are written, and what is left to read again.
abbrev pub write_line : (Bytes → List Bytes × Bytes) → Line → List Bytes × Bytes
write_line next (reads line rest) = let (lines, left) = next rest in (line ∷ lines, left)
write_line next (steps_back left) = ([], left)

unfoldable pub poll : ℕ → ℕ → Filter → Bytes → List Bytes × Bytes
unfolding read_line
poll zero buffer_size filter s = ([], s)
poll (suc fuel) buffer_size filter s =
    write_line (poll fuel buffer_size filter) (read_line (suc (length s)) buffer_size filter [] s)

-- `loop`, with what has been appended to the file before each poll.
unfoldable pub tail : ℕ → Filter → Bytes → List Bytes → List Bytes
unfolding poll
tail buffer_size filter left [] = []
tail buffer_size filter left (chunk ∷ chunks) =
    let (lines, left') = poll (suc (length (left ++ chunk))) buffer_size filter (left ++ chunk) in
    lines ++ tail buffer_size filter left' chunks
