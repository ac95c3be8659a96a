-- ===== src/Examples/Tails.antt =====
-- Tailers at concrete inputs.
use juju_utils.Common.{
  if◌then◌else◌, ℕ, ◌≡◌, refl, arith, Option, none, some, [], ◌∷◌, ◌++◌, length, take, drop,
  nat_beq,
}
use juju_utils.Common.Bytes.{Bytes, codes}
use juju_utils.Common.Results.{ok, err}
use juju_utils.Tailer.{Filter, seek_last_lines, is_valid}
use juju_utils.Tailer.Lines.{tailed}
use juju_utils.Tailer.Reading.{tail}
use juju_utils.Tailer.Polling.{concat, tail_lem}
use juju_utils.Tailer.Sought.{min, IsSought, seek_last_lines-IsSought}
use juju_utils.Tailer.Following.{seek_last_lines-tail}

abbrev file : Bytes
file = codes "first\nsecond\n\nlast\npart"

abbrev no_fault : ℕ → Option ℕ
no_fault at = none

abbrev only_empty : Filter
only_empty = some (λ line. nat_beq (length line) 1)

-- With a buffer of 4 bytes, the last two lines.
last_two : seek_last_lines 4 file no_fault none 2 none ≡ ok 13
unfolding seek_last_lines is_valid
last_two = refl

broken_read :
    seek_last_lines {E = ℕ} 4 file (λ at. if nat_beq at 19 then some 7 else none) none 2 none
    ≡ err 7
unfolding seek_last_lines is_valid
broken_read = refl

-- The error of the final `Seek` is ignored: nil is returned, and the reader stands elsewhere.
position_lost : seek_last_lines 4 file no_fault (some 15) 2 none ≡ ok 15
unfolding seek_last_lines is_valid
position_lost = refl

seek_last_lines-IsSought_example :
    IsSought none file 2 no_fault (seek_last_lines 4 file no_fault none 2 none)
seek_last_lines-IsSought_example = seek_last_lines-IsSought none file 2 no_fault 4 (omega arith)

seek_last_lines-tail_example :
    (tailed none file ≡ tailed none (take 13 file) ++ tail 3 none [] (drop 13 file ∷ []))
    × (length (tail 3 none [] (drop 13 file ∷ [])) ≡ min 2 (length (tailed none file)))
seek_last_lines-tail_example =
    seek_last_lines-tail none file 2 13 4 3 no_fault (omega arith) (omega arith) last_two

tail_example :
    tail 2 only_empty [] (codes "a\n\nb" ∷ codes "\n" ∷ codes "\nc" ∷ [])
    ≡ tailed only_empty (concat (codes "a\n\nb" ∷ codes "\n" ∷ codes "\nc" ∷ []))
tail_example = tail_lem only_empty 2 (codes "a\n\nb" ∷ codes "\n" ∷ codes "\nc" ∷ []) (omega arith)
