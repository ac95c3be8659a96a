-- ===== src/Tailer/Polling.antt =====
-- A tailer writes the lines that end, whatever the polls and the buffer make of them.
use juju_utils.Common.{
  ℕ, zero, suc, ◌≤◌, ◌<◌, ◌≡◌, ◌≢◌, refl, ap, sym, ◌∙◌, arith, List, [], ◌∷◌, ◌++◌, length,
  if◌then◌else◌, nat_beq, All-append, Bool-cases, inl, inr, append_assoc, append-nil, length-append,
}
use juju_utils.Common.Bytes.{Bytes}
use juju_utils.Tailer.{Filter, is_valid, delimiter}
use juju_utils.Tailer.Lines.{tailed, tailed_after, tailed-line, tailed-lacks, LacksEnd, keep}
use juju_utils.Tailer.Reading.{
  Slice, delimited, full, eof, prepend, read_slice, Line, reads, steps_back, take_slice, read_line,
  write_line, poll, tail,
}

-- The text after the last line end.
unfoldable pub unended_after : Bytes → Bytes → Bytes
unended_after line [] = line
unended_after line (c ∷ s) =
    let ended = unended_after [] s in
    let longer = unended_after (line ++ c ∷ []) s in if nat_beq c delimiter then ended else longer

unended-line :
    (line x rest : Bytes)
    → LacksEnd x
    → unended_after line (x ++ delimiter ∷ rest) ≡ unended_after [] rest
unfolding unended_after
unended-line line [] rest h = refl
unended-line line (c ∷ x) rest h = ground (arith, unended-line (line ++ c ∷ []) x rest h.1)

unended-append :
    (line x rest : Bytes)
    → LacksEnd x
    → unended_after line (x ++ rest) ≡ unended_after (line ++ x) rest
unfolding unended_after
unended-append line [] rest h = rw (append-nil line) refl
unended-append line (c ∷ x) rest h =
    ground (arith, unended-append (line ++ c ∷ []) x rest h.1, append_assoc line (c ∷ []) x)

tailed-lacks-append :
    (f : Filter) (line x rest : Bytes)
    → LacksEnd x
    → tailed_after f line (x ++ rest) ≡ tailed_after f (line ++ x) rest
unfolding tailed_after
tailed-lacks-append f line [] rest h = rw (append-nil line) refl
tailed-lacks-append f line (c ∷ x) rest h =
    ground (arith, tailed-lacks-append f (line ++ c ∷ []) x rest h.1, append_assoc line (c ∷ []) x)

-- What a read of at most `n` bytes returns.
abbrev Sliced : ℕ → Bytes → Slice → Type 0
Sliced n s (delimited slice rest) =
    (x : Bytes) × (slice ≡ x ++ delimiter ∷ []) × LacksEnd x × (s ≡ x ++ delimiter ∷ rest)
Sliced n s (full slice rest) = LacksEnd slice × (s ≡ slice ++ rest) × (length slice ≡ n)
Sliced n s (eof slice) = LacksEnd s × (slice ≡ s)

prepend-Sliced :
    (c n : ℕ) (s : Bytes) (r : Slice)
    → c ≢ delimiter
    → Sliced n s r
    → Sliced (suc n) (c ∷ s) (prepend c r)
prepend-Sliced c n s (delimited slice rest) h (x, e, lacks, split) =
    (c ∷ x, ap (λ (t : Bytes). c ∷ t) e, (h, lacks), ap (λ (t : Bytes). c ∷ t) split)
prepend-Sliced c n s (full slice rest) h (lacks, split, size) =
    ((h, lacks), ap (λ (t : Bytes). c ∷ t) split, ap suc size)
prepend-Sliced c n s (eof slice) h (lacks, e) = ((h, lacks), ap (λ (t : Bytes). c ∷ t) e)

read_slice-Sliced : (n : ℕ) (s : Bytes) → Sliced n s (read_slice n s)
unfolding read_slice
read_slice-Sliced zero s = (tt, refl, refl)
read_slice-Sliced (suc n) [] = (tt, refl)
read_slice-Sliced (suc n) (c ∷ s) = elim (Bool-cases (nat_beq c delimiter)) [
  | inl here ↦ rw here ([], ground arith, tt, ground arith)
  | inr other ↦
      rw other (prepend-Sliced c n s (read_slice n s) (ground arith) (read_slice-Sliced n s))
]

-- The file that has grown by the chunks.
abbrev pub concat : List Bytes → Bytes
concat [] = []
concat (chunk ∷ chunks) = chunk ++ concat chunks

unended-LacksEnd : (line s : Bytes) → LacksEnd line → LacksEnd (unended_after line s)
unfolding unended_after
unended-LacksEnd line [] h = h
unended-LacksEnd line (c ∷ s) h = elim (Bool-cases (nat_beq c delimiter)) [
  | inl here ↦ rw here (unended-LacksEnd [] s tt)
  | inr other ↦ rw other (
      unended-LacksEnd (line ++ c ∷ []) s
        (All-append (λ k. k ≢ delimiter) line (c ∷ []) h (ground arith, tt)))
]

module _ (f : Filter) where
  -- What `readLine` returns, after `line` and before `s`.
  abbrev IsLine : Bytes → Bytes → Line → Type 0
  IsLine line s (reads l rest) =
      (tailed_after f line s ≡ l ∷ tailed f rest)
      × (unended_after line s ≡ unended_after [] rest)
      × (length rest < length s)
  IsLine line s (steps_back l) = (tailed_after f line s ≡ []) × (unended_after line s ≡ l)

  later-IsLine :
      (line s line' s' : Bytes) (r : Line)
      → tailed_after f line s ≡ tailed_after f line' s'
      → unended_after line s ≡ unended_after line' s'
      → length s' ≤ length s
      → IsLine line' s' r
      → IsLine line s r
  later-IsLine line s line' s' (reads l rest) e u less (he, hu, hl) = (e ∙ he, u ∙ hu, omega arith)
  later-IsLine line s line' s' (steps_back l) e u less (he, hu) = (e ∙ he, u ∙ hu)

  take_slice-IsLine :
      (next : Bytes → Bytes → Line) (n : ℕ) (line s : Bytes) (r : Slice)
      → ((line' s' : Bytes) → length s' < length s → IsLine line' s' (next line' s'))
      → 0 < n
      → Sliced n s r
      → IsLine line s (take_slice next f line r)
  unfolding tailed_after unended_after
  take_slice-IsLine next n line s (delimited slice rest) ih positive (x, e, lacks, split) =
      let kept : tailed_after f line s ≡ keep f (line ++ slice) (tailed f rest) =
        rw (split, e) (tailed-line f line x rest lacks) in
      let left : unended_after line s ≡ unended_after [] rest =
        rw split (unended-line line x rest lacks) in
      let less : length rest < length s =
        omega (arith, ap length split, length-append {0} x (delimiter ∷ rest)) in
      elim (Bool-cases (is_valid f (line ++ slice))) [
        | inl valid ↦ rw valid (kept ∙ rw valid refl, left, less)
        | inr skipped ↦ rw skipped (
            later-IsLine line s [] rest (next [] rest) (kept ∙ rw skipped refl) left (omega arith)
              (ih [] rest less))
      ]
  take_slice-IsLine next n line s (full slice rest) ih positive (lacks, split, size) =
      let less : length rest < length s =
        omega (arith, ap length split, length-append {0} slice rest) in
      later-IsLine line s (line ++ slice) rest (next (line ++ slice) rest)
        (ap (tailed_after f line) split ∙ tailed-lacks-append f line slice rest lacks)
        (ap (unended_after line) split ∙ unended-append line slice rest lacks) (omega arith)
        (ih (line ++ slice) rest less)
  take_slice-IsLine next n line s (eof slice) ih positive (lacks, e) = (
    tailed-lacks f line s lacks,
    ap (unended_after line) (sym (append-nil s))
        ∙ unended-append line s [] lacks
        ∙ ap (λ (t : Bytes). line ++ t) (sym e),
  )

  read_line-IsLine :
      (fuel n : ℕ) (line s : Bytes)
      → length s < fuel
      → 0 < n
      → IsLine line s (read_line fuel n f line s)
  unfolding read_line
  read_line-IsLine zero n line s enough positive = absurd (omega arith)
  read_line-IsLine (suc fuel) n line s enough positive =
      take_slice-IsLine (read_line fuel n f) n line s (read_slice n s)
        (λ line' s' less. read_line-IsLine fuel n line' s' (omega arith) positive) positive
        (read_slice-Sliced n s)

  write_line_lem :
      (next : Bytes → List Bytes × Bytes) (s : Bytes) (r : Line)
      → ((s' : Bytes) → length s' < length s → next s' ≡ (tailed f s', unended_after [] s'))
      → IsLine [] s r
      → write_line next r ≡ (tailed f s, unended_after [] s)
  write_line_lem next s (reads l rest) ih (e, u, less) = rw (e, u, ih rest less) refl
  write_line_lem next s (steps_back l) ih (e, u) = rw (e, u) refl

  -- A poll of what is left to read writes the lines that end there and that the filter accepts, each
  -- as long as it is, and leaves the text after the last line end.
  pub poll_lem :
      (fuel n : ℕ) (s : Bytes)
      → length s < fuel
      → 0 < n
      → poll fuel n f s ≡ (tailed f s, unended_after [] s)
  unfolding poll
  poll_lem zero n s enough positive = absurd (omega arith)
  poll_lem (suc fuel) n s enough positive =
      write_line_lem (poll fuel n f) s (read_line (suc (length s)) n f [] s)
        (λ s' less. poll_lem fuel n s' (omega arith) positive)
        (read_line-IsLine (suc (length s)) n [] s (omega arith) positive)

  tailed-unended :
      (line s t : Bytes)
      → tailed_after f line (s ++ t)
        ≡ tailed_after f line s ++ tailed_after f (unended_after line s) t
  unfolding tailed_after unended_after
  tailed-unended line [] t = refl
  tailed-unended line (c ∷ s) t =
      ground (arith, tailed-unended [] s t, tailed-unended (line ++ c ∷ []) s t)

  tail_from :
      (n : ℕ) (left : Bytes) (chunks : List Bytes)
      → 0 < n
      → LacksEnd left
      → tail n f left chunks ≡ tailed f (left ++ concat chunks)
  unfolding tail
  tail_from n left [] positive lacks =
      sym (tailed-lacks f [] (left ++ []) (rw (append-nil left) lacks))
  tail_from n left (chunk ∷ chunks) positive lacks =
      let s : Bytes = left ++ chunk in
      let u : Bytes = unended_after [] s in
      let free : LacksEnd u = unended-LacksEnd [] s tt in
      rw (poll_lem (suc (length s)) n s (omega arith) positive, tail_from n u chunks positive free)
        (sym (
          ap (tailed f) (sym (append_assoc left chunk (concat chunks)))
          ∙ tailed-unended [] s (concat chunks)
          ∙ ap (λ (t : List Bytes). tailed f s ++ t)
              (sym (tailed-lacks-append f [] u (concat chunks) free))))

  -- However the file grows between the polls, and however long its lines are beside the buffer, the
  -- tailer writes exactly the lines that end in it and that the filter accepts, in their order.
  pub tail_lem :
      (n : ℕ) (chunks : List Bytes) → 0 < n → tail n f [] chunks ≡ tailed f (concat chunks)
  tail_lem n chunks positive = tail_from n [] chunks positive tt
