-- ===== src/YamlFile.antt =====
-- `WriteYaml` and `ReadYaml` of trivial.go. `Yaml` is what they use of gopkg.in/yaml.v1.
pub mod RoundTrip
use juju_utils.Common.{length, ℕ, ◌≡◌, Option, none, some, List, [], ◌∷◌, ◌++◌, take, drop}
use juju_utils.Common.Bytes.{Bytes, bytes_eq, codes}
use juju_utils.Common.Results.{Result, ok, err}
use juju_utils.AtomicWrite.{File, Disk, put, Shown, becomes}

-- `Unmarshal` changes the caller's object, also when it fails.
pub record Yaml : Type 1 where
  pub Object : Type 0
  pub Error : Type 0
  pub marshal : Object → Result Error Bytes
  pub unmarshal : Bytes → Object → Object × Option Error

-- How the calls of the operating system end: the errors of opening, of writing after some bytes, and
-- of the rename.
pub record Calls (E : Type 0) : Type 0 where
  pub open_error : Option E
  pub write_error : Option (ℕ × E)
  pub rename_error : Option E

-- The file that is written before it gets its name.
abbrev pub preparing : Bytes → Bytes
preparing path = path ++ codes ".preparing"

abbrev pub contents_of : Option File → Bytes
contents_of none = []
contents_of (some f) = f.contents

abbrev pub perms_of : Option File → ℕ
perms_of none = 0o644
perms_of (some f) = f.perms

-- A file opened without O_TRUNC, with some bytes written over its beginning.
abbrev pub overwritten : Bytes → Option File → Option File
overwritten text f =
    some (record { contents = text ++ drop (length text) (contents_of f); perms = perms_of f })

module _ {E : Type 0} where
  -- `ReplaceFile`.
  abbrev pub replaced : Bytes → Bytes → Option E → Shown → Option E × Shown
  replaced from path (some e) w = (some e, w)
  replaced from path none w = (none, becomes (put path (w.disk from) (put from none w.disk)) w)

  abbrev pub written : Bytes → Bytes → Option (ℕ × E) → Option E → Shown → Option E × Shown
  written path text (some (n, e)) rename_error w = (
    some e,
    becomes (put (preparing path) (overwritten (take n text) (w.disk (preparing path))) w.disk) w,
  )
  written path text none rename_error w =
      replaced (preparing path) path rename_error
        (becomes (put (preparing path) (overwritten text (w.disk (preparing path))) w.disk) w)

  -- The open call creates the file if there is none.
  abbrev pub opened : Bytes → Bytes → Calls E → Option E → Shown → Option E × Shown
  opened path text calls (some e) w = (some e, w)
  opened path text calls none w =
      written path text calls.write_error calls.rename_error
        (becomes (put (preparing path) (overwritten [] (w.disk (preparing path))) w.disk) w)

  abbrev pub marshalled : Bytes → Calls E → Result E Bytes → Shown → Option E × Shown
  marshalled path calls (err e) w = (some e, w)
  marshalled path calls (ok text) w = opened path text calls calls.open_error w

module _ (yaml : Yaml) where
  open yaml use {Object, Error, marshal, unmarshal}

  -- `WriteYaml`, with the disks that other processes see.
  unfoldable pub write_yaml : Bytes → Object → Calls Error → Disk → Option Error × Shown
  write_yaml path obj calls d =
      marshalled path calls (marshal obj) (record { disk = d; before = [] })

  -- `ReadYaml`: the caller's object after it, and the error; `missing` is the error of reading a file that
  -- is not there.
  abbrev pub parsed : Error → Object → Option File → Object × Option Error
  parsed missing obj none = (obj, some missing)
  parsed missing obj (some f) = unmarshal f.contents obj

  unfoldable pub read_yaml : Error → Bytes → Object → Disk → Object × Option Error
  read_yaml missing path obj d = parsed missing obj (d path)
