-- ===== src/Examples/Shells.antt =====
-- Shell quoting at concrete inputs.
use juju_utils.Common.{◌≡◌, refl, some, none, [], ◌∷◌}
use juju_utils.Common.Bytes.{codes}
use juju_utils.Shell.{sh_quote, command_string}
use juju_utils.Shell.Reader.{words}
use juju_utils.Shell.Commands.{words-command_string}

quoted : sh_quote (codes "it's $x") ≡ codes "'it'\"'\"'s $x'"
unfolding sh_quote
quoted = refl

command :
    command_string (codes "echo" ∷ codes "a b" ∷ codes "$x" ∷ []) ≡ codes "echo \"a b\" \"\\$x\""
unfolding command_string
command = refl

-- An apostrophe is left as it is, and the shell does not find its end.
apostrophe : words (command_string (codes "echo" ∷ codes "it's" ∷ [])) ≡ none
unfolding words command_string
apostrophe = refl

words-command_string_example :
    words (command_string (codes "echo" ∷ codes "a b" ∷ codes "$x" ∷ []))
    ≡ some (codes "echo" ∷ codes "a b" ∷ codes "$x" ∷ [])
unfolding command_string
words-command_string_example =
    words-command_string (codes "echo" ∷ codes "a b" ∷ codes "$x" ∷ []) (refl, (refl, (refl, tt)))
