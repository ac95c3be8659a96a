-- ===== src/Shell/Commands.antt =====
-- What a shell reads from `CommandString`.
use juju_utils.Common.{
  ℕ, ◌≡◌, refl, sym, ap, ◌∙◌, arith, Bool, true, false, not, ◌&&◌, ◌||◌, some, List, [], ◌∷◌, ◌++◌,
  if◌then◌else◌, nat_beq, append_assoc, append-nil, Bool-cases, inl, inr,
}
use juju_utils.Common.Bytes.{Bytes}
use juju_utils.Shell.{command_string, argument, escape, needs_quotes, is_space, is_escaped}
use juju_utils.Shell.Reader.{
  goes, between, bare, double, escaped_double, read, words, move, then_word, is_meta, is_blank,
}

-- A character that stands for itself between double quotes, given a backslash where `CommandString`
-- writes one, and one that does outside quotes.
abbrev pub is_quotable : ℕ → Bool
is_quotable c = not (nat_beq c b'`')

abbrev pub is_literal : ℕ → Bool
is_literal c = not (is_meta c || nat_beq c b'\'')

and-split : (a b : Bool) → (a && b) ≡ true → (a ≡ true) × (b ≡ true)
and-split a b h = (ground arith, ground arith)

or-split : (a b : Bool) → (a || b) ≡ false → (a ≡ false) × (b ≡ false)
or-split a b h = (ground arith, ground arith)

abbrev pub all : (ℕ → Bool) → Bytes → Bool
all p [] = true
all p (c ∷ s) = p c && all p s

-- An argument that `CommandString` can pass on: it is not empty, has no backquote and, where it gets
-- no quotes, nothing that a shell interprets.
abbrev pub is_readable : Bytes → Bool
is_readable [] = false
is_readable (c ∷ s) =
    if needs_quotes (c ∷ s) then all is_quotable (c ∷ s) else all is_literal (c ∷ s)

move_plain :
    (c : ℕ) → is_escaped c ≡ false → is_quotable c ≡ true → move double c ≡ goes double (c ∷ [])
move_plain c h q = ground arith

move_escaped : (c : ℕ) → is_escaped c ≡ true → move escaped_double c ≡ goes double (c ∷ [])
move_escaped c h = ground arith

space_blank : (c : ℕ) → is_space c ≡ false → is_blank c ≡ false
space_blank c h = ground arith

move_literal :
    (c : ℕ)
    → (is_space c || is_escaped c) ≡ false
    → is_literal c ≡ true
    → (move bare c ≡ goes bare (c ∷ [])) × (move between c ≡ goes bare (c ∷ []))
move_literal c h l =
    let (no_space, no_escape) = or-split (is_space c) (is_escaped c) h in
    let no_blank : is_blank c ≡ false = space_blank c no_space in (ground arith, ground arith)

read-escape :
    (w s rest : Bytes)
    → all is_quotable s ≡ true
    → read double w (escape s ++ b'"' ∷ rest) ≡ read bare (w ++ s) rest
unfolding read escape
read-escape w [] rest h = refl
read-escape w (c ∷ s) rest h =
    let (this, others) = and-split (is_quotable c) (all is_quotable s) h in
    let ih =
      read-escape (w ++ c ∷ []) s rest others
      ∙ ap (λ (t : Bytes). read bare t rest) (append_assoc w (c ∷ []) s) in
    elim (Bool-cases (is_escaped c)) [
      | inl special ↦ rw special (
          rw (move_escaped c special) (
            ap (λ (t : Bytes). read double (t ++ c ∷ []) (escape s ++ b'"' ∷ rest)) (append-nil w)
            ∙ ih))
      | inr plain ↦ rw plain (rw (move_plain c plain this) ih)
    ]

read-literal :
    (w s rest : Bytes)
    → needs_quotes s ≡ false
    → all is_literal s ≡ true
    → read bare w (escape s ++ rest) ≡ read bare (w ++ s) rest
unfolding read escape needs_quotes
read-literal w [] rest h l = ap (λ (t : Bytes). read bare t rest) (sym (append-nil w))
read-literal w (c ∷ s) rest h l =
    let (this, others) = and-split (is_literal c) (all is_literal s) l in
    let (none_here, none_later) = or-split (is_space c || is_escaped c) (needs_quotes s) h in
    let plain : is_escaped c ≡ false = (or-split (is_space c) (is_escaped c) none_here).1 in
    rw plain (
      rw ((move_literal c none_here this).0) (
        read-literal (w ++ c ∷ []) s rest none_later others
        ∙ ap (λ (t : Bytes). read bare t rest) (append_assoc w (c ∷ []) s)))

argument-quoted :
    (arg : Bytes) → needs_quotes arg ≡ true → argument arg ≡ b'"' ∷ (escape arg ++ b'"' ∷ [])
unfolding argument
argument-quoted arg h = rw h refl

argument-plain : (arg : Bytes) → needs_quotes arg ≡ false → argument arg ≡ escape arg
unfolding argument
argument-plain arg h = rw h refl

readable-quoted :
    (arg : Bytes) → is_readable arg ≡ true → needs_quotes arg ≡ true → all is_quotable arg ≡ true
readable-quoted [] h q = ground arith
readable-quoted (c ∷ s) h q = ground arith

readable-plain :
    (arg : Bytes) → is_readable arg ≡ true → needs_quotes arg ≡ false → all is_literal arg ≡ true
readable-plain [] h q = ground arith
readable-plain (c ∷ s) h q = ground arith

-- The first character of a word.
start_plain :
    (arg rest : Bytes)
    → is_readable arg ≡ true
    → needs_quotes arg ≡ false
    → read between [] (escape arg ++ rest) ≡ read bare [] (escape arg ++ rest)
unfolding read escape needs_quotes
start_plain [] rest h q = ground arith
start_plain (c ∷ s) rest h q =
    let (this, others) = and-split (is_literal c) (all is_literal s) (readable-plain (c ∷ s) h q) in
    let (none_here, none_later) = or-split (is_space c || is_escaped c) (needs_quotes s) q in
    let plain : is_escaped c ≡ false = (or-split (is_space c) (is_escaped c) none_here).1 in
    let moves = move_literal c none_here this in rw plain (rw (moves.1) (rw (moves.0) refl))

-- The shell reads one argument, between words.
read-argument :
    (arg rest : Bytes)
    → is_readable arg ≡ true
    → read between [] (argument arg ++ rest) ≡ read bare arg rest
unfolding read
read-argument arg rest h = elim (Bool-cases (needs_quotes arg)) [
  | inl quotes ↦
      rw (argument-quoted arg quotes, append_assoc (escape arg) (b'"' ∷ []) rest)
        (read-escape [] arg rest (readable-quoted arg h quotes))
  | inr none_needed ↦ rw (argument-plain arg none_needed) (
      start_plain arg rest h none_needed
      ∙ read-literal [] arg rest none_needed (readable-plain arg h none_needed))
]

abbrev pub AllReadable : List Bytes → Type 0
AllReadable [] = Unit
AllReadable (arg ∷ args) = (is_readable arg ≡ true) × AllReadable args

-- From what `CommandString` makes of arguments that it can pass on, the shell reads these arguments.
pub words-command_string :
    (args : List Bytes) → AllReadable args → words (command_string args) ≡ some args
unfolding words command_string read
words-command_string [] h = refl
words-command_string (arg ∷ []) h =
    ap (read between []) (sym (append-nil (argument arg))) ∙ read-argument arg [] h.0
words-command_string (arg ∷ next ∷ args) h =
    read-argument arg (32 ∷ command_string (next ∷ args)) h.0
    ∙ ap (then_word arg) (words-command_string (next ∷ args) h.1)

-- An empty argument before such arguments is lost.
pub words-command_string_empty :
    (args : List Bytes) → AllReadable args → words (command_string ([] ∷ args)) ≡ some args
unfolding words command_string read argument
words-command_string_empty [] h = refl
words-command_string_empty (arg ∷ args) h = words-command_string (arg ∷ args) h
