-- ===== src/Tailer.antt =====
-- tailer/tailer.go. The file is a list of bytes; a filter that is nil is `none`.
pub mod Lines
pub mod Seeking
pub mod Rounds
pub mod Sought
pub mod Reading
pub mod Polling
pub mod Following
use juju_utils.Common.{
  ℕ, zero, suc, ◌+◌, ◌-◌, ◌*◌, Bool, true, false, Option, none, some, List, [], ◌∷◌, ◌++◌, length,
  take, drop, replicate, if◌then◌else◌, ltb, leb, nat_beq,
}
use juju_utils.Common.Bytes.{Bytes}
use juju_utils.Common.Results.{Result, ok, err}

-- `delimiter`.
abbrev pub delimiter : ℕ
delimiter = 10

-- `TailerFilterFunc`, and `isValid`.
abbrev pub Filter : Type 0
Filter = Option (Bytes → Bool)

unfoldable pub is_valid : Filter → Bytes → Bool
is_valid none line = true
is_valid (some filter) line = filter line

-- `bytes.LastIndex(buffer, delimiters)`; `none` is -1.
unfoldable pub last_index : Bytes → Option ℕ
last_index [] = none
last_index (c ∷ s) = elim (last_index s) [
  | some i ↦ some (suc i)
  | none ↦ if nat_beq c delimiter then some 0 else none
]

-- How the inner loop of `SeekLastLines` ends: it breaks the outer loop with a position, or only itself.
pub data Scan : Type 0 where
  seeks : ℕ → Scan
  stops : ℕ → ℕ → Scan

-- A round of the inner loop, by where the last line end before `end - 1` is; `next` goes on with
-- `end` and `found`.
abbrev pub scan_line : (ℕ → ℕ → Scan) → Filter → ℕ → ℕ → Bytes → ℕ → ℕ → Option ℕ → Scan
scan_line next filter lines offset buffer end found none = stops end found
scan_line next filter lines offset buffer end found (some i) =
    let start = suc i in
    if is_valid filter (drop start (take end buffer))
    then if leb lines (found + 1) then seeks (offset + start) else next start (found + 1)
    else next start found

-- The inner loop, which ends before `end` is 0; `fuel` is at least `end`.
unfoldable pub scan : ℕ → Filter → ℕ → ℕ → Bytes → ℕ → ℕ → Scan
scan zero filter lines offset buffer end found = stops end found
scan (suc fuel) filter lines offset buffer end found =
    scan_line (scan fuel filter lines offset buffer) filter lines offset buffer end found
      (last_index (take (end - 1) buffer))

-- The variables of the outer loop; `capacity` is `cap(buffer)`.
pub record Seeker : Type 0 where
  pub offset : ℕ
  pub capacity : ℕ
  pub buffer : Bytes
  pub found : ℕ

-- `space` once the buffer has grown, if it had to, and the capacity that the buffer has then.
abbrev pub grown : ℕ → Seeker → ℕ
grown buffer_size s =
    if ltb (s.capacity - length s.buffer) buffer_size then s.capacity * 2 else s.capacity

abbrev pub space : ℕ → Seeker → ℕ
space buffer_size s =
    let free = grown buffer_size s - length s.buffer in if ltb s.offset free then s.offset else free

-- How a round of the outer loop ends: with the final position, or with the loop's variables.
pub data Round : Type 0 where
  positions : ℕ → Round
  continues : Seeker → Round

abbrev pub scanned : ℕ → ℕ → Bytes → Scan → Round
scanned offset capacity buffer (seeks p) = positions p
scanned offset capacity buffer (stops end found) =
    continues
      (record { offset = offset; capacity = capacity; buffer = take end buffer; found = found })

-- The round after the read, by where the last line in the buffer ends.
abbrev pub search_buffer : Filter → ℕ → ℕ → ℕ → ℕ → Bytes → Option ℕ → Round
search_buffer filter lines offset capacity found buffer none =
    continues (record { offset = offset; capacity = capacity; buffer = []; found = found })
search_buffer filter lines offset capacity found buffer (some i) =
    scanned offset capacity buffer (scan (suc i) filter lines offset buffer (suc i) found)

-- A round of the outer loop on the file `content`.
unfoldable pub round : ℕ → Filter → ℕ → Bytes → Seeker → Round
unfolding last_index scan
round buffer_size filter lines content s =
    let n = space buffer_size s in
    let offset = s.offset - n in
    let buffer : Bytes = take n (drop offset content) ++ s.buffer in
    search_buffer filter lines offset (grown buffer_size s) s.found buffer (last_index buffer)

-- The test of an error, and the end of a round.
abbrev pub unless_fault : {E : Type 0} → Option E → Result E ℕ → Result E ℕ
unless_fault (some e) r = err e
unless_fault none r = r

abbrev pub after_round : {E : Type 0} → (Seeker → Result E ℕ) → Round → Result E ℕ
after_round next (positions p) = ok p
after_round next (continues s) = next s

-- The outer loop, whose offset gets smaller in each round, and then `seekPos`; `fault` is the error of
-- `Seek` or `ReadFull` at an offset, if there is one.
unfoldable pub seek_loop :
    {E : Type 0} → ℕ → ℕ → Filter → ℕ → Bytes → (ℕ → Option E) → Seeker → Result E ℕ
unfolding round
seek_loop zero buffer_size filter lines content fault s = ok 0
seek_loop (suc fuel) buffer_size filter lines content fault s =
    if ltb 0 s.offset
    then unless_fault (fault (s.offset - space buffer_size s)) (
        after_round (seek_loop fuel buffer_size filter lines content fault)
          (round buffer_size filter lines content s))
    else ok 0

-- The outer loop's variables at its start.
abbrev pub first_seeker : ℕ → Bytes → Seeker
first_seeker buffer_size content = record {
  offset = length content;
  capacity = buffer_size;
  buffer = replicate buffer_size 0;
  found = 0;
}

-- The final positioning: the position that is left. If this `Seek` fails, its error is ignored, and the
-- reader stands at `misplaced`.
unfoldable pub positioned : {E : Type 0} → Option ℕ → Result E ℕ → Result E ℕ
positioned misplaced (err e) = err e
positioned none (ok p) = ok p
positioned (some misplaced) (ok p) = ok misplaced

-- `SeekLastLines`: the position that it leaves when it returns nil, where `fault` at the file's length is
-- the error of the first `Seek`, and `misplaced` says whether the final one fails.
unfoldable pub seek_last_lines :
    {E : Type 0} → ℕ → Bytes → (ℕ → Option E) → Option ℕ → ℕ → Filter → Result E ℕ
unfolding seek_loop positioned
seek_last_lines buffer_size content fault misplaced lines filter =
    unless_fault (fault (length content)) (
      if nat_beq lines 0
      then ok (length content)
      else positioned misplaced (
          seek_loop (length content) buffer_size filter lines content fault
            (first_seeker buffer_size content)))
