-- ===== src/Tailer/Seeking.antt =====
-- `SeekLastLines`: what stands after the position that it finds.
use juju_utils.Common.{
  ℕ, zero, suc, ◌+◌, ◌-◌, ◌≤◌, ◌<◌, ◌≡◌, ap, sym, ◌∙◌, arith, [], ◌∷◌, ◌++◌, length, take, drop,
  leb, leb→le, Bool-cases, Option-cases, inl, inr, append_assoc, subst, take-append, drop-append,
  length-append,
}
use juju_utils.Common.Bytes.{Bytes}
use juju_utils.Tailer.{Filter, is_valid, delimiter, last_index, Scan, seeks, stops, scan}
use juju_utils.Tailer.Lines.{
  tailed, tailed-line, tailed-append, LacksEnd, LastLine, last_index_lem, keep,
}

-- Reading from the position `p` passes on the last lines of what reading from the start passes on,
-- `lines` of them.
pub record Tails (filter : Filter) (content : Bytes) (lines p : ℕ) : Type 0 where
  pub split :
      tailed filter content ≡ tailed filter (take p content) ++ tailed filter (drop p content)
  pub count : length (tailed filter (drop p content)) ≡ lines

module _ (f : Filter) (content : Bytes) (lines : ℕ) where
  -- A position just after the end of a line.
  Tails-after :
      (before rest : Bytes) (p : ℕ)
      → content ≡ before ++ delimiter ∷ rest
      → p ≡ suc (length before)
      → length (tailed f rest) ≡ lines
      → Tails f content lines p
  Tails-after before rest p e at count =
      let whole : content ≡ (before ++ delimiter ∷ []) ++ rest =
        e ∙ sym (append_assoc before (delimiter ∷ []) rest) in
      let size : p ≡ length (before ++ delimiter ∷ []) =
        omega (arith, length-append {0} before (delimiter ∷ [])) in
      let head : take p content ≡ before ++ delimiter ∷ [] =
        ap (take p) whole ∙ take-append p (before ++ delimiter ∷ []) rest size in
      let tail : drop p content ≡ rest =
        ap (drop p) whole ∙ drop-append p (before ++ delimiter ∷ []) rest size in
      record {
        split = rw (head, tail) (ap (tailed f) e ∙ tailed-append f [] before rest);
        count = rw tail count;
      }

  -- How the inner loop may end.
  abbrev pub Scanned : Bytes → Bytes → Scan → Type 0
  Scanned P buffer (seeks p) = Tails f content lines p
  Scanned P buffer (stops end found) =
      (b : Bytes) × (R : Bytes) × (content ≡ P ++ (b ++ delimiter ∷ R))
      × (take end buffer ≡ b ++ delimiter ∷ [])
      × LacksEnd b
      × (length (tailed f R) ≡ found)
      × (found < lines)

  -- The line that a round of the inner loop looks at.
  slice_lem :
      (x y rest buffer : Bytes) (i end : ℕ)
      → buffer ≡ (x ++ delimiter ∷ y) ++ delimiter ∷ rest
      → length x ≡ i
      → end ≡ suc (length (x ++ delimiter ∷ y))
      → drop (suc i) (take end buffer) ≡ y ++ delimiter ∷ []
  slice_lem x y rest buffer i end e at size =
      let line : Bytes = y ++ delimiter ∷ [] in
      let front : take end buffer ≡ (x ++ delimiter ∷ y) ++ delimiter ∷ [] =
        ap (take end) (e ∙ sym (append_assoc (x ++ delimiter ∷ y) (delimiter ∷ []) rest))
        ∙ take-append end ((x ++ delimiter ∷ y) ++ delimiter ∷ []) rest
            (omega (arith, length-append {0} (x ++ delimiter ∷ y) (delimiter ∷ []))) in
      let regroup : (x ++ delimiter ∷ y) ++ delimiter ∷ [] ≡ (x ++ delimiter ∷ []) ++ line =
        append_assoc x (delimiter ∷ y) (delimiter ∷ [])
        ∙ sym (append_assoc x (delimiter ∷ []) line) in
      ap (drop (suc i)) (front ∙ regroup)
      ∙ drop-append (suc i) (x ++ delimiter ∷ []) line
          (omega (arith, length-append {0} x (delimiter ∷ [])))

  pub scan_lem :
      (fuel offset end found : ℕ) (P a R rest buffer : Bytes)
      → buffer ≡ a ++ delimiter ∷ rest
      → end ≡ suc (length a)
      → end ≤ fuel
      → length P ≡ offset
      → content ≡ P ++ (a ++ delimiter ∷ R)
      → length (tailed f R) ≡ found
      → found < lines
      → Scanned P buffer (scan fuel f lines offset buffer end found)
  unfolding scan
  scan_lem zero offset end found P a R rest buffer eb at fits size e count few =
      absurd (omega arith)
  scan_lem (suc fuel) offset end found P a R rest buffer eb at fits size e count few =
      let front : take (end - 1) buffer ≡ a =
        ap (take (end - 1)) eb ∙ take-append (end - 1) a (delimiter ∷ rest) (omega arith) in
      elim (Option-cases (last_index a)) [
        | inl none_left ↦
            let lacks : LacksEnd a = subst (LastLine a) none_left (last_index_lem a) in
            let line : take end buffer ≡ a ++ delimiter ∷ [] =
              ap (take end) (eb ∙ sym (append_assoc a (delimiter ∷ []) rest))
              ∙ take-append end (a ++ delimiter ∷ []) rest
                  (omega (arith, length-append {0} a (delimiter ∷ []))) in
            rw (front, none_left) (a, R, e, line, lacks, count, few)
        | inr (i, one_left) ↦
            let (x, y, split, here, lacks) = subst (LastLine a) one_left (last_index_lem a) in
            let line : Bytes = y ++ delimiter ∷ [] in
            let R' : Bytes = y ++ delimiter ∷ R in
            let eb' : buffer ≡ (x ++ delimiter ∷ y) ++ delimiter ∷ rest = rw (← split) eb in
            let slice : drop (suc i) (take end buffer) ≡ line =
              slice_lem x y rest buffer i end eb' here (rw (← split) at) in
            let e' : content ≡ P ++ (x ++ delimiter ∷ R') =
              e
              ∙ ap (λ (t : Bytes). P ++ t)
                  (ap (λ (t : Bytes). t ++ delimiter ∷ R) split
                    ∙ append_assoc x (delimiter ∷ y) (delimiter ∷ R)) in
            let lines_here : tailed f R' ≡ keep f line (tailed f R) = tailed-line f [] y R lacks in
            let shorter : suc i ≤ fuel =
              omega (arith, length-append {0} x (delimiter ∷ y), ap length split) in
            rw (front, one_left, slice)
              elim (Bool-cases (is_valid f line)) [
                | inl valid ↦ elim (Bool-cases (leb lines (found + 1))) [
                  | inl enough ↦
                      rw (valid, enough)
                        (Tails-after (P ++ x) R' (offset + suc i)
                          (e' ∙ sym (append_assoc P x (delimiter ∷ R')))
                          (omega (arith, length-append {0} P x))
                          (ap length lines_here
                            ∙ rw valid (omega (arith, leb→le lines (found + 1) enough))))
                  | inr more ↦
                      rw (valid, more)
                        (scan_lem fuel offset (suc i) (found + 1) P x R' (y ++ delimiter ∷ rest)
                          buffer (eb' ∙ append_assoc x (delimiter ∷ y) (delimiter ∷ rest))
                          (ap suc (sym here)) shorter size e'
                          (ap length lines_here ∙ rw valid (omega arith)) (ground arith))
                ]
                | inr not_valid ↦ rw not_valid (
                    scan_lem fuel offset (suc i) found P x R' (y ++ delimiter ∷ rest) buffer
                      (eb' ∙ append_assoc x (delimiter ∷ y) (delimiter ∷ rest)) (ap suc (sym here))
                      shorter size e' (ap length lines_here ∙ rw not_valid count) few)
              ]
      ]
