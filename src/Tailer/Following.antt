-- ===== src/Tailer/Following.antt =====
-- `SeekLastLines`, and a tailer that starts where it leaves off.
use juju_utils.Common.{
  none, subst, ℕ, ◌≡◌, ◌<◌, ap, ◌∙◌, Option, [], ◌∷◌, ◌++◌, length, take, drop, append-nil,
}
use juju_utils.Common.Bytes.{Bytes}
use juju_utils.Common.Results.{ok}
use juju_utils.Tailer.{Filter, seek_last_lines}
use juju_utils.Tailer.Lines.{tailed}
use juju_utils.Tailer.Reading.{tail}
use juju_utils.Tailer.Polling.{tail_lem}
use juju_utils.Tailer.Sought.{min, IsSought, seek_last_lines-IsSought}

-- If `SeekLastLines` succeeds, and its final `Seek`, whose error it ignores, does not fail, then a tailer
-- with the same filter that goes on from there writes the last lines of the file that the filter accepts,
-- `lines` of them or all that there are.
pub seek_last_lines-tail :
    {E : Type 0} (f : Filter) (content : Bytes) (lines p n m : ℕ) (fault : ℕ → Option E)
    → 0 < n
    → 0 < m
    → seek_last_lines n content fault none lines f ≡ ok p
    → (tailed f content ≡ tailed f (take p content) ++ tail m f [] (drop p content ∷ []))
      × (length (tail m f [] (drop p content ∷ [])) ≡ min lines (length (tailed f content)))
seek_last_lines-tail f content lines p n m fault pn pm e =
    let sought : IsSought f content lines fault (ok p) =
      subst (IsSought f content lines fault) e
        (seek_last_lines-IsSought f content lines fault n pn) in
    let written : tail m f [] (drop p content ∷ []) ≡ tailed f (drop p content) =
      tail_lem f m (drop p content ∷ []) pm ∙ ap (tailed f) (append-nil (drop p content)) in
    rw written sought
