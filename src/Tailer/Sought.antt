-- ===== src/Tailer/Sought.antt =====
-- `SeekLastLines` leaves the position of the last lines.
use juju_utils.Common.{
  ℕ, zero, suc, ◌+◌, ◌-◌, ◌≤◌, ◌<◌, ◌≡◌, refl, ap, sym, ◌∙◌, arith, Option, none, some, List, [],
  ◌∷◌, ◌++◌, length, take, drop, replicate, if◌then◌else◌, ltb, leb, ltb→lt, nat_beq, Bool-cases,
  inl, inr, length-append, append-nil, take-length, drop-length, length-replicate,
}
use juju_utils.Common.Bytes.{Bytes}
use juju_utils.Common.Results.{Result, ok, err}
use juju_utils.Tailer.{
  Filter, delimiter, Seeker, space, Round, positions, continues, round, unless_fault, after_round,
  positioned, seek_loop, first_seeker, seek_last_lines,
}
use juju_utils.Tailer.Lines.{tailed, tailed_after, tailed-line, tailed-lacks, LacksEnd, keep}
use juju_utils.Tailer.Seeking.{Tails}
use juju_utils.Tailer.Rounds.{IsSeeking, round_lem, Goes}

abbrev pub min : ℕ → ℕ → ℕ
min a b = if leb a b then a else b

-- The position is that of the last lines that the filter accepts, `lines` of them or all that there
-- are; an error is one of the calls' errors.
abbrev pub IsSought : {E : Type 0} → Filter → Bytes → ℕ → (ℕ → Option E) → Result E ℕ → Type 0
IsSought filter content lines fault (ok p) =
    (tailed filter content ≡ tailed filter (take p content) ++ tailed filter (drop p content))
    × (length (tailed filter (drop p content)) ≡ min lines (length (tailed filter content)))
IsSought filter content lines fault (err e) = (at : ℕ) × (fault at ≡ some e)

module _ {E : Type 0} (f : Filter) (content : Bytes) (lines : ℕ) (fault : ℕ → Option E) where
  found-IsSought : (p : ℕ) → Tails f content lines p → IsSought f content lines fault (ok p)
  found-IsSought p h =
      let total : length (tailed f content) ≡ length (tailed f (take p content)) + lines =
        ap length h.split
        ∙ length-append (tailed f (take p content)) (tailed f (drop p content))
        ∙ ap (λ (n : ℕ). length (tailed f (take p content)) + n) h.count in
      (h.split, h.count ∙ ground arith)

  keep-le : (line : Bytes) (rest : List Bytes) → length (keep f line rest) ≤ length rest + 1
  keep-le line rest = ground arith

  few_lines :
      (buffer_size : ℕ) (s : Seeker)
      → s.offset ≡ 0
      → IsSeeking f content lines buffer_size s
      → length (tailed f content) ≤ lines
  few_lines buffer_size s start h = elim h.text [
    | inl (quiet, (R, e, lacks, zero_found)) ↦
        omega (arith, ap length (ap (tailed f) (e ∙ rw start refl) ∙ tailed-lacks f [] R lacks))
    | inr (b, R, e, eb, lacks, count) ↦ omega (
      arith,
      ap length (ap (tailed f) (e ∙ rw start refl) ∙ tailed-line f [] b R lacks),
      keep-le (b ++ delimiter ∷ []) (tailed f R),
      h.few,
    )
  ]

  start-IsSought : length (tailed f content) ≤ lines → IsSought f content lines fault (ok 0)
  unfolding tailed_after
  start-IsSought h = (refl, ground arith)

  went :
      (buffer_size old : ℕ) (next : Seeker → Result E ℕ)
      → ((s : Seeker)
          → s.offset < old
          → IsSeeking f content lines buffer_size s
          → IsSought f content lines fault (next s))
      → (r : Round) → Goes f content lines buffer_size old r
      → IsSought f content lines fault (after_round next r)
  went buffer_size old next ih (positions p) g = found-IsSought p g
  went buffer_size old next ih (continues s) g = ih s g.1 g.0

  guarded :
      (at : ℕ) (o : Option E) (r : Result E ℕ)
      → fault at ≡ o
      → IsSought f content lines fault r
      → IsSought f content lines fault (unless_fault o r)
  guarded at (some e) r q h = (at, q)
  guarded at none r q h = h

  seek_loop-IsSought :
      (fuel buffer_size : ℕ) (s : Seeker)
      → 0 < buffer_size
      → s.offset ≤ fuel
      → IsSeeking f content lines buffer_size s
      → IsSought f content lines fault (seek_loop fuel buffer_size f lines content fault s)
  unfolding seek_loop
  seek_loop-IsSought zero buffer_size s positive enough h =
      start-IsSought (few_lines buffer_size s (omega arith) h)
  seek_loop-IsSought (suc fuel) buffer_size s positive enough h =
      elim (Bool-cases (ltb 0 s.offset)) [
        | inr start ↦ rw start (start-IsSought (few_lines buffer_size s (ground arith) h))
        | inl left ↦ rw left (
            guarded (s.offset - space buffer_size s) _ _ refl (
              went buffer_size s.offset _
                (λ s' nearer h'. seek_loop-IsSought fuel buffer_size s' positive (omega arith) h')
                (round buffer_size f lines content s)
                (round_lem f content lines buffer_size s positive (ltb→lt 0 s.offset left) h)))
      ]

  zeros-LacksEnd : (n : ℕ) → LacksEnd (replicate n 0)
  zeros-LacksEnd zero = tt
  zeros-LacksEnd (suc n) = (ground arith, zeros-LacksEnd n)

  first-IsSeeking :
      (buffer_size : ℕ)
      → 0 < lines
      → IsSeeking f content lines buffer_size (first_seeker buffer_size content)
  first-IsSeeking buffer_size some_lines = record {
    inside = omega arith;
    room = omega arith;
    fits = omega (arith, length-replicate {0} {A = ℕ} buffer_size 0);
    few = some_lines;
    text = inl (
      zeros-LacksEnd buffer_size,
      ([], sym (append-nil (take (length content) content) ∙ take-length content), tt, refl),
    );
  }

  at_end-IsSought : lines ≡ 0 → IsSought f content lines fault (ok (length content))
  unfolding tailed_after
  at_end-IsSought none_wanted =
      let rest : drop (length content) content ≡ [] = drop-length content in
      (rw (take-length content, rest) (sym (append-nil (tailed f content))), rw rest (ground arith))

  positioned-none : (r : Result E ℕ) → positioned none r ≡ r
  unfolding positioned
  positioned-none (ok p) = refl
  positioned-none (err e) = refl

  -- `SeekLastLines` with a buffer that is not empty ends. Unless its final `Seek` fails, whose error it
  -- ignores, it leaves the position of the last lines that the filter accepts, `lines` of them or all that
  -- there are, where a text at the end with no line end counts for nothing; or it returns an error of a
  -- call at some offset.
  pub seek_last_lines-IsSought :
      (buffer_size : ℕ)
      → 0 < buffer_size
      → IsSought f content lines fault (seek_last_lines buffer_size content fault none lines f)
  unfolding seek_last_lines
  seek_last_lines-IsSought buffer_size positive =
      guarded (length content) _ _ refl (elim (Bool-cases (nat_beq lines 0)) [
        | inl no_lines ↦ rw no_lines (at_end-IsSought (ground arith))
        | inr some_lines ↦
            rw
              (
                some_lines,
                positioned-none (
                    seek_loop (length content) buffer_size f lines content fault
                      (first_seeker buffer_size content)),
              )
              (seek_loop-IsSought (length content) buffer_size _ positive (omega arith)
                (first-IsSeeking buffer_size (ground arith)))
      ])
