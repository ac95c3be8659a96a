-- ===== src/Shell/Quoted.antt =====
-- A shell reads back what `ShQuote` has quoted.
use juju_utils.Common.{
  ◌≡◌, refl, ap, ◌∙◌, [], ◌∷◌, ◌++◌, nat_beq, nat_beq_iff, append_assoc, append-nil, Bool-cases,
  inl, inr,
}
use juju_utils.Common.Bytes.{Bytes, codes}
use juju_utils.Shell.{sh_quote, replace_all}
use juju_utils.Shell.Reader.{between, bare, single, read}

read-replace_all :
    (w s rest : Bytes)
    → read single w (replace_all b'\'' (codes "'\"'\"'") s ++ b'\'' ∷ rest)
      ≡ read bare (w ++ s) rest
unfolding read replace_all
read-replace_all w [] rest = refl
read-replace_all w (c ∷ s) rest = elim (Bool-cases (nat_beq c b'\'')) [
  | inl quote ↦
      let e : c ≡ b'\'' = (nat_beq_iff c b'\'').0 quote in
      rw e (simp (append-nil, read-replace_all (w ++ b'\'' ∷ []) s rest, append_assoc))
  | inr other ↦ rw other (
      rw other (
        read-replace_all (w ++ c ∷ []) s rest
        ∙ ap (λ (t : Bytes). read bare t rest) (append_assoc w (c ∷ []) s)))
]

-- Whatever a text holds, the shell reads it back from what `ShQuote` makes of it as one word, or as
-- the next part of the word that it stands in, and interprets nothing in it.
pub read-sh_quote :
    (s w rest : Bytes)
    → (read between [] (sh_quote s ++ rest) ≡ read bare s rest)
      × (read bare w (sh_quote s ++ rest) ≡ read bare (w ++ s) rest)
unfolding sh_quote read
read-sh_quote s w rest = (
  rw (append_assoc (replace_all b'\'' (codes "'\"'\"'") s) (b'\'' ∷ []) rest)
      (read-replace_all [] s rest),
  rw (append_assoc (replace_all b'\'' (codes "'\"'\"'") s) (b'\'' ∷ []) rest) (
      ap (λ (t : Bytes). read single t (replace_all b'\'' (codes "'\"'\"'") s ++ b'\'' ∷ rest))
        (append-nil w)
      ∙ read-replace_all w s rest),
)
