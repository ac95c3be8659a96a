-- ===== src/Shell.antt =====
-- trivial.go: `ShQuote` and `CommandString`, and shell/script.go: `DumpFileOnErrorScript`. A text is a
-- list of code points.
pub mod Reader
pub mod Quoted
pub mod Commands
use juju_utils.Common.{
  ℕ, ◌≡◌, Bool, true, false, ◌&&◌, ◌||◌, List, [], ◌∷◌, ◌++◌, if◌then◌else◌, leb, nat_beq,
}
use juju_utils.Common.Bytes.{Bytes, codes}

-- `strings.Replace(s, old, new, -1)` for an `old` of one character.
unfoldable pub replace_all : ℕ → Bytes → Bytes → Bytes
replace_all old new [] = []
replace_all old new (c ∷ s) = (if nat_beq c old then new else c ∷ []) ++ replace_all old new s

-- `ShQuote`.
unfoldable pub sh_quote : Bytes → Bytes
unfolding replace_all
sh_quote s = b'\'' ∷ (replace_all b'\'' (codes "'\"'\"'") s ++ b'\'' ∷ [])

-- `unicode.IsSpace`.
abbrev pub is_space : ℕ → Bool
is_space r =
    (leb 9 r && leb r 13)
    || (nat_beq r 32
        || (nat_beq r 0x85
            || (nat_beq r 0xa0
                || (nat_beq r 0x1680
                    || ((leb 0x2000 r && leb r 0x200a)
                        || (nat_beq r 0x2028
                            || (nat_beq r 0x2029
                                || (nat_beq r 0x202f
                                    || (nat_beq r 0x205f || nat_beq r 0x3000)))))))))

-- The characters that get a backslash.
abbrev pub is_escaped : ℕ → Bool
is_escaped r = nat_beq r b'"' || (nat_beq r b'$' || nat_beq r b'\\')

-- The loop over an argument: whether it needs quotes, and its text with the backslashes.
unfoldable pub needs_quotes : Bytes → Bool
needs_quotes [] = false
needs_quotes (r ∷ arg) = (is_space r || is_escaped r) || needs_quotes arg

unfoldable pub escape : Bytes → Bytes
escape [] = []
escape (r ∷ arg) = (if is_escaped r then b'\\' ∷ r ∷ [] else r ∷ []) ++ escape arg

unfoldable pub argument : Bytes → Bytes
unfolding needs_quotes escape
argument arg = if needs_quotes arg then b'"' ∷ (escape arg ++ b'"' ∷ []) else escape arg

-- `CommandString`.
unfoldable pub command_string : List Bytes → Bytes
unfolding argument
command_string [] = []
command_string (arg ∷ []) = argument arg
command_string (arg ∷ next ∷ args) = argument arg ++ 32 ∷ command_string (next ∷ args)

-- `DumpFileOnErrorScript`.
unfoldable pub dump_file_on_error_script : Bytes → Bytes
unfolding sh_quote
dump_file_on_error_script filename =
    codes "dump_file() {\n    code=$?\n    if [ $code -ne 0 -a -e "
    ++ (sh_quote filename
        ++ (codes " ]; then\n        cat "
            ++ (sh_quote filename
                ++ codes " >&2\n    fi\n    exit $code\n}\ntrap dump_file EXIT\n")))
