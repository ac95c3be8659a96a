-- ===== src/FsCopy.antt =====
-- fs/copy.go: the copy of a tree of files. The source is a tree that the copy does not change; what
-- stands at the destination is a tree too.
pub mod Complete
pub mod Succeeds
use juju_utils.Common.{
  ℕ, suc, ◌+◌, ◌/◌, ◌%◌, ◌∷◌, Bool, true, false, ◌&&◌, Option, none, some, List, [], ◌++◌,
  if◌then◌else◌, take, nat_beq, ◌==◌,
}
use juju_utils.Common.Bytes.{Bytes, bytes_eq}

mutual
  pub data Node : Type 0 where
    file : Bytes → ℕ → Node
    dir : ℕ → Nodes → Node
    link : Bytes → Node
    special : ℕ → Node

  pub data Nodes : Type 0 where
    end : Nodes
    child : Bytes → Node → Nodes → Nodes

abbrev pub find : Bytes → Nodes → Option Node
find name end = none
find name (child k n rest) = if k == name then some n else find name rest

-- A directory's entries with what now stands at a name.
abbrev pub store : Bytes → Option Node → Nodes → Nodes
store name none ns = ns
store name (some n) end = child name n end
store name (some n) (child k m rest) =
    if k == name then child k n rest else child k m (store name (some n) rest)

-- `mode.Perm()`.
abbrev pub perm : ℕ → ℕ
perm mode = mode % 0o1000

-- `if mode&0500 == 0 { mode |= 0500 }`.
unfoldable pub accessible : ℕ → ℕ
accessible mode =
    if nat_beq (mode / 0o400 % 2) 0 && nat_beq (mode / 0o100 % 2) 0 then mode + 0o500 else mode

-- The calls of the operating system. `reads i` reads the next names of a directory when `i` of its
-- entries have been copied.
pub data Call : Type 0 where
  lstat_source lstat_target reads_link makes_link : Call
  opens_source creates_file changes_mode makes_dir : Call
  reads : ℕ → Call

-- What the environment does at the path of each file below the root: the errors of calls, how many
-- bytes `io.Copy` writes before an error, and the mode that the umask leaves of a new file's mode.
pub record System (E : Type 0) : Type 0 where
  pub fault : Call → List Bytes → Option E
  pub copy_error : List Bytes → Option (ℕ × E)
  pub umask : ℕ → ℕ

pub data CopyError (E : Type 0) : Type 0 where
  failed : E → CopyError E
  will_not_overwrite : List Bytes → CopyError E
  cannot_copy_mode : ℕ → CopyError E
  cannot_copy : List Bytes → E → CopyError E
  error_reading : List Bytes → E → CopyError E

-- The error, and what stands at the destination.
abbrev pub Copied : Type 0 → Type 0 → Type 0
Copied E A = Option (CopyError E) × A

module _ {E : Type 0} where
  -- `if err != nil { return err }`.
  unfoldable pub unless_fault {ℓ} :
      {A : Type ℓ} → Option E → A → Option (CopyError E) × A → Option (CopyError E) × A
  unless_fault none there r = r
  unless_fault (some e) there r = (some (failed e), there)

  unfoldable pub unless_unread : List Bytes → Option E → Nodes → Copied E Nodes → Copied E Nodes
  unless_unread path none there r = r
  unless_unread path (some e) there r = (some (error_reading path e), there)

  unfoldable pub unless_there :
      List Bytes → Option Node → Copied E (Option Node) → Copied E (Option Node)
  unless_there path none r = r
  unless_there path (some n) r = (some (will_not_overwrite path), some n)

  -- The data of a file.
  unfoldable pub copy_data : List Bytes → Bytes → ℕ → Option (ℕ × E) → Copied E (Option Node)
  copy_data path contents mode none = (none, some (file contents (perm mode)))
  copy_data path contents mode (some (n, e)) =
      (some (cannot_copy path e), some (file (take n contents) (perm mode)))

  module _ (s : System E) where
    -- The beginning of `Copy`.
    unfoldable pub start :
        List Bytes → Option Node → Copied E (Option Node) → Copied E (Option Node)
    start path there r =
        unless_fault (s.fault lstat_source path) there
          (unless_fault (s.fault lstat_target path) there (unless_there path there r))

    -- `copySymLink`.
    unfoldable pub copy_link : List Bytes → Bytes → Copied E (Option Node)
    copy_link path target =
        unless_fault (s.fault reads_link path) none
          (unless_fault (s.fault makes_link path) none (none, some (link target)))

    -- `copyFile`.
    unfoldable pub copy_file : List Bytes → Bytes → ℕ → Copied E (Option Node)
    copy_file path contents mode = unless_fault (s.fault opens_source path) none (
        unless_fault (s.fault creates_file path) none (
          unless_fault (s.fault changes_mode path) (some (file [] (s.umask (perm mode))))
            (copy_data path contents mode (s.copy_error path))))

    -- The end of `copyDir`, once the loop has ended.
    unfoldable pub close_dir : List Bytes → ℕ → Copied E Nodes → Copied E (Option Node)
    close_dir path mode (some e, ns) = (some e, some (dir (s.umask (perm mode)) ns))
    close_dir path mode (none, ns) =
        unless_fault (s.fault changes_mode path) (some (dir (s.umask (perm mode)) ns))
          (none, some (dir (perm mode) ns))

    -- `copyDir`, given how its loop ends.
    unfoldable pub copy_dir : List Bytes → ℕ → Copied E Nodes → Copied E (Option Node)
    copy_dir path mode r =
        unless_fault (s.fault opens_source path) none
          (unless_fault (s.fault makes_dir path) none (close_dir path (accessible mode) r))

    -- After the copy of one entry.
    abbrev pub after_child :
        Bytes → Nodes → Copied E (Option Node) → (Nodes → Copied E Nodes) → Copied E Nodes
    after_child name made (some e, n) next = (some e, store name n made)
    after_child name made (none, n) next = next (store name n made)

    -- `Copy`, with what stands at the destination, and the loop of `copyDir`.
    unfoldable mutual
      pub copy : Node → List Bytes → Option Node → Copied E (Option Node)
      copy (file contents mode) path there = start path there (copy_file path contents mode)
      copy (dir mode ns) path there =
          start path there (copy_dir path mode (copy_children ns path 0 end))
      copy (link target) path there = start path there (copy_link path target)
      copy (special mode) path there = start path there (some (cannot_copy_mode mode), none)

      pub copy_children : Nodes → List Bytes → ℕ → Nodes → Copied E Nodes
      copy_children end path i made = unless_unread path (s.fault (reads i) path) made (none, made)
      copy_children (child name n rest) path i made =
          unless_unread path (s.fault (reads i) path) made (
            after_child name made (copy n (path ++ name ∷ []) (find name made))
              (copy_children rest path (suc i)))
