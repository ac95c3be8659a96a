-- ===== src/Timers/Rendered.antt =====
-- What `timer.String` makes of the timers of nested calls.
use juju_utils.Common.{
  ℕ, zero, suc, ◌+◌, ◌≤◌, ◌≡◌, refl, ap, ap₂, sym, ◌∙◌, arith, some, List, [], ◌∷◌, ◌++◌,
  append_assoc, append-nil, length, length-append,
}
use juju_utils.Common.Bytes.{Bytes}
use juju_utils.Common.Int.{ℤ, ◌-ℤ◌}
use juju_utils.Timers.{Timer, deref, line, texts, string}
use juju_utils.Timers.Blocks.{
  Work, Works, work, done, next, size, sizes, places, block, blocks, length-block, deref_here,
}

module _ (seconds : ℤ → Bytes) where
  -- The lines of nested calls, those of the inner ones further to the right.
  unfoldable mutual
    pub render : ℕ → Work → Bytes
    render d (work a t ws u) = line seconds d a (u -ℤ t) ++ render_all (suc d) ws

    pub render_all : ℕ → Works → Bytes
    render_all d done = []
    render_all d (next w ws) = render d w ++ render_all d ws

  mutual
    unfolding string render block size

    -- Enough fuel prints a timer with all that are below it.
    string-block :
        (w : Work) (fuel n d : ℕ) (before after ts : List Timer)
        → n ≡ length before
        → size w ≤ fuel
        → ts ≡ before ++ (block n d w ++ after)
        → string seconds fuel ts n ≡ render d w
    string-block (work a t ws u) zero n d before after ts hn hf h = absurd (omega arith)
    string-block (work a t ws u) (suc fuel) n d before after ts hn hf h =
        let here : Timer = record {
          action = a;
          start = t;
          depth = d;
          duration = u -ℤ t;
          sub_actions = places (suc n) ws;
        } in
        let inner = blocks (suc n) (suc d) ws ++ after in
        let found : deref n ts ≡ some here = rw h (deref_here n before here inner hn) in
        rw found (
          ap (λ (b : Bytes). line seconds d a (u -ℤ t) ++ b)
            (texts-blocks ws fuel (suc n) (suc d) (before ++ here ∷ []) after ts
              (omega (arith, length-append before (here ∷ []))) (omega arith)
              (h ∙ sym (append_assoc before (here ∷ []) inner))))

    texts-blocks :
        (ws : Works) (fuel n d : ℕ) (before after ts : List Timer)
        → n ≡ length before
        → sizes ws ≤ fuel
        → ts ≡ before ++ (blocks n d ws ++ after)
        → texts seconds (string seconds fuel ts) (places n ws) ≡ render_all d ws
    texts-blocks done fuel n d before after ts hn hf h = refl
    texts-blocks (next w ws) fuel n d before after ts hn hf h =
        let b = block n d w in
        let bs = blocks (n + size w) d ws in
        ap₂ (λ (x y : Bytes). x ++ y)
          (string-block w fuel n d before (bs ++ after) ts hn (omega arith)
            (h ∙ ap (λ (l : List Timer). before ++ l) (append_assoc b bs after)))
          (texts-blocks ws fuel (n + size w) d (before ++ b) after ts
            (omega (arith, length-append before b, length-block n d w)) (omega arith)
            (h
              ∙ ap (λ (l : List Timer). before ++ l) (append_assoc b bs after)
              ∙ sym (append_assoc before b (bs ++ after))))

  pub string_whole :
      (w : Work) (ts : List Timer)
      → let ts' = ts ++ block (length ts) 0 w in
        string seconds (length ts') ts' (length ts) ≡ render 0 w
  string_whole w ts =
      let b = block (length ts) 0 w in
      string-block w (length (ts ++ b)) (length ts) 0 ts [] (ts ++ b) refl
        (omega (arith, length-append ts b, length-block (length ts) 0 w))
        (ap (λ (l : List Timer). ts ++ l) (sym (append-nil b)))
