-- ===== src/UniqueDirectory.antt =====
-- `UniqueDirectory` and `JoinServerPath` of file.go. `decimal` is `%d`, and `stat` says of each path how
-- `os.Stat` ends.
pub mod FirstFree
use juju_utils.Common.{ℕ, zero, suc, Option, none, some, List, [], ◌∷◌, ◌++◌, if◌then◌else◌, ◌==◌}
use juju_utils.Common.Bytes.{Bytes, bytes_eq}
use juju_utils.Common.Results.{Result, ok, err}
use juju_utils.Text.Fields.{join}
use juju_utils.Text.Path.{clean, join_paths}

pub data Stat (E : Type 0) : Type 0 where
  exists missing : Stat E
  stat_error : E → Stat E

-- The directories in the order in which they are tried.
unfoldable pub candidate : (ℕ → Bytes) → Bytes → Bytes → ℕ → Bytes
unfolding join_paths
candidate decimal path name zero = join_paths path name
candidate decimal path name (suc i) = join_paths path (name ++ b'.' ∷ decimal (suc i))

module _ {E : Type 0} where
  -- In the loop: the result of a call of `os.Stat`, or what the next round gives.
  abbrev pub or_next : Bytes → Stat E → Option (Result E Bytes) → Option (Result E Bytes)
  or_next dir exists next = next
  or_next dir missing next = some (ok dir)
  or_next dir (stat_error e) next = some (err e)

  -- Before the loop an error counts as a directory that exists.
  abbrev pub or_loop : Bytes → Stat E → Option (Result E Bytes) → Option (Result E Bytes)
  or_loop dir exists loop = loop
  or_loop dir missing loop = some (ok dir)
  or_loop dir (stat_error e) loop = loop

  module _ (stat : Bytes → Stat E) (decimal : ℕ → Bytes) (path name : Bytes) where
    -- The loop from `i` on; `fuel` bounds its rounds.
    unfoldable pub search : ℕ → ℕ → Option (Result E Bytes)
    unfolding candidate
    search zero i = none
    search (suc fuel) i =
        let dir = candidate decimal path name i in or_next dir (stat dir) (search fuel (suc i))

    unfoldable pub unique_directory : ℕ → Option (Result E Bytes)
    unfolding search candidate
    unique_directory fuel =
        let dir = candidate decimal path name 0 in or_loop dir (stat dir) (search fuel 1)

-- `JoinServerPath`.
abbrev pub not_empty : List Bytes → List Bytes
not_empty [] = []
not_empty (e ∷ es) = if e == [] then not_empty es else e ∷ es

abbrev pub clean_unless_empty : List Bytes → Bytes
clean_unless_empty [] = []
clean_unless_empty (e ∷ es) = clean (join b'/' (e ∷ es))

unfoldable pub join_server_path : List Bytes → Bytes
unfolding clean join
join_server_path es = clean_unless_empty (not_empty es)
