-- ===== src/Tailer/Rounds.antt =====
-- The outer loop of `SeekLastLines`.
use juju_utils.Common.{
  ℕ, suc, ◌+◌, ◌-◌, ◌≤◌, ◌<◌, ◌≡◌, ◌≢◌, ◌⊎◌, refl, ap, sym, ◌∙◌, arith, Option, none, some, [], ◌∷◌,
  ◌++◌, length, take, drop, Option-cases, inl, inr, append_assoc, subst, length-append,
  take-take-drop, length-take, length-take-le, length-drop, All-append,
}
use juju_utils.Common.Bytes.{Bytes}
use juju_utils.Tailer.{
  Filter, delimiter, last_index, Scan, seeks, stops, scan, Seeker, grown, space, Round, positions,
  continues, scanned, search_buffer, round,
}
use juju_utils.Tailer.Lines.{
  tailed, tailed-lacks, LacksEnd, LastLine, last_index_lem, last_index-append, append-LacksEnd,
  split_front,
}
use juju_utils.Tailer.Seeking.{Tails, Scanned, scan_lem}

module _ (f : Filter) (content : Bytes) (lines : ℕ) where
  -- What stands after the text `P`: a text with no line end, or the line in the buffer and a text
  -- with the lines found.
  abbrev pub Unended : Bytes → ℕ → Type 0
  Unended P found = (R : Bytes) × (content ≡ P ++ R) × LacksEnd R × (found ≡ 0)

  abbrev pub Ended : Bytes → Bytes → ℕ → Type 0
  Ended P buffer found =
      (b : Bytes) × (R : Bytes) × (content ≡ P ++ (b ++ delimiter ∷ R))
      × (buffer ≡ b ++ delimiter ∷ [])
      × LacksEnd b
      × (length (tailed f R) ≡ found)

  abbrev pub Follows : Bytes → Bytes → ℕ → Type 0
  Follows P buffer found = (LacksEnd buffer × Unended P found) ⊎ Ended P buffer found

  -- The same once the buffer has been read, by its last line end.
  abbrev Read : Bytes → Bytes → ℕ → Option ℕ → Type 0
  Read P buffer found none = Unended P found
  Read P buffer found (some i) =
      (a : Bytes) × (R : Bytes) × (rest : Bytes) × (buffer ≡ a ++ delimiter ∷ rest)
      × (content ≡ P ++ (a ++ delimiter ∷ R))
      × (length a ≡ i)
      × (length (tailed f R) ≡ found)

  read_lem :
      (P chunk buffer : Bytes) (found : ℕ)
      → Follows (P ++ chunk) buffer found
      → Read P (chunk ++ buffer) found (last_index (chunk ++ buffer))
  read_lem P chunk buffer found (inr (b, R, e, eb, lacks, count)) =
      let whole : chunk ++ buffer ≡ (chunk ++ b) ++ delimiter ∷ [] =
        ap (λ (t : Bytes). chunk ++ t) eb ∙ sym (append_assoc chunk b (delimiter ∷ [])) in
      rw (whole, last_index-append (chunk ++ b))
        (
          chunk ++ b,
          R,
          [],
          refl,
          e
              ∙ append_assoc P chunk (b ++ delimiter ∷ R)
              ∙ ap (λ (t : Bytes). P ++ t) (sym (append_assoc chunk b (delimiter ∷ R))),
          refl,
          count,
        )
  read_lem P chunk buffer found (inl (quiet, (R, e, lacks, zero_found))) =
      elim (Option-cases (last_index (chunk ++ buffer))) [
        | inl no_end ↦
            let free =
              append-LacksEnd chunk buffer
                (subst (LastLine (chunk ++ buffer)) no_end (last_index_lem (chunk ++ buffer))) in
            rw no_end (
              chunk ++ R,
              e ∙ append_assoc P chunk R,
              All-append (λ c. c ≢ delimiter) chunk R free.0 lacks,
              zero_found,
            )
        | inr (i, an_end) ↦
            let (x, y, split, here, after) =
              subst (LastLine (chunk ++ buffer)) an_end (last_index_lem (chunk ++ buffer)) in
            let (z, ec, ey) = split_front chunk buffer x y split quiet in
            let free : LacksEnd (z ++ R) =
              All-append (λ c. c ≢ delimiter) z R
                (append-LacksEnd z buffer (subst LacksEnd ey after)).0 lacks in
            rw an_end (
              x,
              z ++ R,
              y,
              split,
              e
                  ∙ append_assoc P chunk R
                  ∙ ap (λ (t : Bytes). P ++ t)
                      (ap (λ (t : Bytes). t ++ R) ec ∙ append_assoc x (delimiter ∷ z) R),
              here,
              ap length (tailed-lacks f [] (z ++ R) free) ∙ sym zero_found,
            )
      ]

  -- The outer loop's invariant.
  pub record IsSeeking (buffer_size : ℕ) (s : Seeker) : Type 0 where
    pub inside : s.offset ≤ length content
    pub room : buffer_size ≤ s.capacity
    pub fits : length s.buffer ≤ s.capacity
    pub few : s.found < lines
    pub text : Follows (take s.offset content) s.buffer s.found

  -- What a round leaves: it finds the position, or goes on nearer to the start.
  abbrev pub Goes : ℕ → ℕ → Round → Type 0
  Goes buffer_size offset (positions p) = Tails f content lines p
  Goes buffer_size offset (continues s) = IsSeeking buffer_size s × (s.offset < offset)

  scanned_lem :
      (buffer_size offset old capacity i found : ℕ) (buffer : Bytes)
      → offset ≤ length content
      → offset < old
      → buffer_size ≤ capacity
      → length buffer ≤ capacity
      → found < lines
      → Read (take offset content) buffer found (some i)
      → Goes buffer_size old
          (scanned offset capacity buffer (scan (suc i) f lines offset buffer (suc i) found))
  scanned_lem buffer_size offset old capacity i found buffer inside less room fits few
        (a, R, rest, eb, e, here, count) =
      go (scan (suc i) f lines offset buffer (suc i) found) (
        scan_lem f content lines (suc i) offset (suc i) found (take offset content) a R rest buffer
          eb (ap suc (sym here)) (omega arith) (length-take offset content inside) e count few)
    where
      go :
          (r : Scan)
          → Scanned f content lines (take offset content) buffer r
          → Goes buffer_size old (scanned offset capacity buffer r)
      go (seeks p) h = h
      go (stops end found') (b, R', e', line, lacks, count', few') = (
        record {
          inside = inside;
          room = room;
          fits = omega (arith, length-take-le {0} end buffer);
          few = few';
          text = inr (b, R', e', line, lacks, count');
        },
        less,
      )

  searched :
      (buffer_size offset old capacity found : ℕ) (buffer : Bytes) (last : Option ℕ)
      → offset ≤ length content
      → offset < old
      → buffer_size ≤ capacity
      → length buffer ≤ capacity
      → found < lines
      → Read (take offset content) buffer found last
      → Goes buffer_size old (search_buffer f lines offset capacity found buffer last)
  searched buffer_size offset old capacity found buffer none inside less room fits few h = (
    record { inside = inside; room = room; fits = omega arith; few = few; text = inl (tt, h) },
    less,
  )
  searched buffer_size offset old capacity found buffer (some i) inside less room fits few h =
      scanned_lem buffer_size offset old capacity i found buffer inside less room fits few h

  grown_room :
      (buffer_size : ℕ) (s : Seeker)
      → 0 < buffer_size
      → 0 < s.offset
      → buffer_size ≤ s.capacity
      → length s.buffer ≤ s.capacity
      → (buffer_size ≤ grown buffer_size s)
        × (0 < space buffer_size s)
        × (space buffer_size s ≤ s.offset)
        × (space buffer_size s + length s.buffer ≤ grown buffer_size s)
  grown_room buffer_size s positive left room fits =
      (ground arith, ground arith, ground arith, ground arith)

  -- A round of the outer loop keeps the invariant and gets nearer to the start, or finds the position.
  pub round_lem :
      (buffer_size : ℕ) (s : Seeker)
      → 0 < buffer_size
      → 0 < s.offset
      → IsSeeking buffer_size s
      → Goes buffer_size s.offset (round buffer_size f lines content s)
  unfolding round
  round_lem buffer_size s positive left h =
      let n = space buffer_size s in
      let offset = s.offset - n in
      let chunk : Bytes = take n (drop offset content) in
      let (room, some_space, inside, fits) = grown_room buffer_size s positive left h.room h.fits in
      let read : take s.offset content ≡ take offset content ++ chunk =
        sym (take-take-drop offset n s.offset content (omega arith)) in
      let follows : Follows (take offset content ++ chunk) s.buffer s.found =
        subst (λ (P : Bytes). Follows P s.buffer s.found) read h.text in
      searched buffer_size offset s.offset (grown buffer_size s) s.found (chunk ++ s.buffer)
        (last_index (chunk ++ s.buffer)) (omega (arith, h.inside)) (omega arith) room
        (omega (
          arith,
          length-append {0} chunk s.buffer,
          length-take {0} n (drop offset content)
              (omega (arith, length-drop {0} offset content, h.inside)),
        ))
        h.few (read_lem (take offset content) chunk s.buffer s.found follows)
