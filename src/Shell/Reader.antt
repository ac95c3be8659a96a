-- ===== src/Shell/Reader.antt =====
-- How a shell splits a command line into words, as far as quoting goes. A character that the shell
-- would interpret (an expansion, a pattern, an operator) makes the reading fail.
use juju_utils.Common.{
  ℕ, Bool, ◌||◌, Option, none, some, List, [], ◌∷◌, ◌++◌, if◌then◌else◌, nat_beq,
}
use juju_utils.Common.Bytes.{Bytes}

-- Between words, in a word outside quotes, in quotes, and after a backslash.
pub data Mode : Type 0 where
  between bare double single escaped escaped_double : Mode

pub data Move : Type 0 where
  goes : Mode → Bytes → Move
  ends : Move
  fails : Move

abbrev pub is_blank : ℕ → Bool
is_blank c = nat_beq c 32 || nat_beq c 9

abbrev pub is_meta : ℕ → Bool
is_meta c =
    nat_beq c 10
    || (nat_beq c b';'
        || (nat_beq c b'&'
            || (nat_beq c b'|'
                || (nat_beq c b'<'
                    || (nat_beq c b'>'
                        || (nat_beq c b'('
                            || (nat_beq c b')'
                                || (nat_beq c b'$'
                                    || (nat_beq c b'`'
                                        || (nat_beq c b'*'
                                            || (nat_beq c b'?'
                                                || (nat_beq c b'['
                                                    || (nat_beq c b'#'
                                                        || (nat_beq c b'~'
                                                            || (nat_beq c b'{'
                                                            || nat_beq c b'!')))))))))))))))

-- What a character does: `goes m x` adds `x` to the word.
abbrev pub move_bare : ℕ → Move
move_bare c =
    if is_blank c
    then ends
    else if nat_beq c b'"'
    then goes double []
    else if nat_beq c b'\''
    then goes single []
    else if nat_beq c b'\\'
    then goes escaped []
    else if is_meta c
    then fails
    else goes bare (c ∷ [])

abbrev pub is_special : ℕ → Bool
is_special c = nat_beq c b'$' || (nat_beq c b'`' || (nat_beq c b'"' || nat_beq c b'\\'))

abbrev pub move : Mode → ℕ → Move
move between c = if is_blank c then goes between [] else move_bare c
move bare c = move_bare c
move double c =
    if nat_beq c b'"'
    then goes bare []
    else if nat_beq c b'\\'
    then goes escaped_double []
    else if nat_beq c b'$' || nat_beq c b'`'
    then fails
    else goes double (c ∷ [])
move single c = if nat_beq c b'\'' then goes bare [] else goes single (c ∷ [])
move escaped c = if nat_beq c 10 then goes bare [] else goes bare (c ∷ [])
move escaped_double c =
    if is_special c
    then goes double (c ∷ [])
    else if nat_beq c 10
    then goes double []
    else goes double (b'\\' ∷ c ∷ [])

abbrev pub then_word : Bytes → Option (List Bytes) → Option (List Bytes)
then_word w none = none
then_word w (some ws) = some (w ∷ ws)

abbrev pub follow : (Mode → Bytes → Option (List Bytes)) → Bytes → Move → Option (List Bytes)
follow rest w (goes m x) = rest m (w ++ x)
follow rest w ends = then_word w (rest between [])
follow rest w fails = none

-- The end of the line.
abbrev pub at_end : Mode → Bytes → Option (List Bytes)
at_end between w = some []
at_end bare w = some (w ∷ [])
at_end double w = none
at_end single w = none
at_end escaped w = none
at_end escaped_double w = none

-- The words that are read, where `w` is what has been read of the first.
unfoldable pub read : Mode → Bytes → Bytes → Option (List Bytes)
read m w [] = at_end m w
read m w (c ∷ s) = follow (λ m' w'. read m' w' s) w (move m c)

unfoldable pub words : Bytes → Option (List Bytes)
unfolding read
words s = read between [] s
