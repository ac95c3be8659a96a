-- ===== src/FsCopy/Succeeds.antt =====
-- A copy without errors of the system succeeds, and keeps a tree whose owner has access to it.
use juju_utils.Common.{
  ℕ, suc, ◌≡◌, refl, arith, false, none, some, List, [], ◌∷◌, ◌++◌, ap, ap₂, ◌∙◌, ◌==◌,
}
use juju_utils.Common.Bytes.{Bytes, bytes_eq}
use juju_utils.FsCopy.{
  Call, Node, Nodes, file, dir, link, special, end, child, find, store, perm, accessible, System,
  start, copy_link, copy_file, copy_dir, close_dir, copy_data, unless_fault, unless_there,
  unless_unread, copy, copy_children,
}
use juju_utils.FsCopy.Complete.{whole, whole_nodes, followed_by, followed_by-end, store-followed_by}

-- No special files, and no name twice in a directory.
unfoldable mutual
  pub IsCopyable : Node → Type 0
  IsCopyable (file contents mode) = Unit
  IsCopyable (dir mode ns) = AreCopyable ns
  IsCopyable (link target) = Unit
  IsCopyable (special mode) = ⊥

  pub AreCopyable : Nodes → Type 0
  AreCopyable end = Unit
  AreCopyable (child name n rest) = IsCopyable n × (find name rest ≡ none) × AreCopyable rest

-- Modes are permissions, and the owner of a directory may read it or go through it.
unfoldable mutual
  pub IsPlain : Node → Type 0
  IsPlain (file contents mode) = perm mode ≡ mode
  IsPlain (dir mode ns) = (perm mode ≡ mode) × (accessible mode ≡ mode) × ArePlain ns
  IsPlain (link target) = Unit
  IsPlain (special mode) = Unit

  pub ArePlain : Nodes → Type 0
  ArePlain end = Unit
  ArePlain (child name n rest) = IsPlain n × ArePlain rest

-- No name of the first list is in the second.
abbrev pub Apart : Nodes → Nodes → Type 0
Apart end made = Unit
Apart (child name n rest) made = (find name made ≡ none) × Apart rest made

find-store :
    (name other : Bytes) (n : Node) (made : Nodes)
    → find other made ≡ none
    → (name == other) ≡ false
    → find other (store name (some n) made) ≡ none
find-store name other n end free distinct = ground arith
find-store name other n (child k m made) free distinct = ground (
  arith,
  find-store name other n made,
  bytes_eq.beq_iff k name,
  bytes_eq.beq_iff k other,
  bytes_eq.beq_iff name other,
)

Apart-store :
    (name : Bytes) (n : Node) (rest made : Nodes)
    → find name rest ≡ none
    → Apart rest made
    → Apart rest (store name (some n) made)
Apart-store name n end made new h = tt
Apart-store name n (child k m rest) made new h = (
  find-store name k n made h.0 (ground (arith, bytes_eq.beq_iff k name, bytes_eq.beq_iff name k)),
  Apart-store name n rest made (ground arith) h.1,
)

mutual
  unfolding whole IsPlain

  whole-plain : (n : Node) → IsPlain n → whole n ≡ n
  whole-plain (file contents mode) h = ap (file contents) h
  whole-plain (dir mode ns) h = rw (h.1, h.0, whole_nodes-plain ns h.2) refl
  whole-plain (link target) h = refl
  whole-plain (special mode) h = refl

  whole_nodes-plain : (ns : Nodes) → ArePlain ns → whole_nodes ns ≡ ns
  whole_nodes-plain end h = refl
  whole_nodes-plain (child name n rest) h =
      ap₂ (child name) (whole-plain n h.0) (whole_nodes-plain rest h.1)

Apart-end : (ns : Nodes) → Apart ns end
Apart-end end = tt
Apart-end (child k n rest) = (refl, Apart-end rest)

module _ {E : Type 0} (s : System E)
    (no_fault : (call : Call) (path : List Bytes) → s.fault call path ≡ none)
    (no_copy_error : (path : List Bytes) → s.copy_error path ≡ none) where
  mutual
    unfolding copy IsCopyable whole start copy_file copy_dir copy_link close_dir copy_data
        unless_fault unless_there unless_unread

    copy_succeeds :
        (n : Node) (path : List Bytes) → IsCopyable n → copy s n path none ≡ (none, some (whole n))
    copy_succeeds (file contents mode) path h = simp (no_fault, no_copy_error)
    copy_succeeds (dir mode ns) path h =
        rw
          (
            no_fault,
            no_fault,
            no_fault,
            no_fault,
            copy_children_succeeds ns path 0 end h (Apart-end ns),
          )
          (rw (no_fault) refl)
    copy_succeeds (link target) path h = simp (no_fault)
    copy_succeeds (special mode) path h = absurd h

    copy_children_succeeds :
        (ns : Nodes) (path : List Bytes) (i : ℕ) (made : Nodes)
        → AreCopyable ns
        → Apart ns made
        → copy_children s ns path i made ≡ (none, followed_by made (whole_nodes ns))
    copy_children_succeeds end path i made h apart = rw (no_fault, followed_by-end made) refl
    copy_children_succeeds (child name n rest) path i made h apart =
        rw (no_fault, apart.0, copy_succeeds n (path ++ name ∷ []) h.0)
          (copy_children_succeeds rest path (suc i) (store name (some (whole n)) made) h.2
              (Apart-store name (whole n) rest made h.1 apart.1)
            ∙ ap (λ (ns : Nodes). (none, ns))
                (store-followed_by name (whole n) made (whole_nodes rest) apart.0))

  -- If no call fails, `Copy` of a tree without special files, in which no directory has a name twice,
  -- succeeds where there is nothing, and makes the whole copy of it: all its files, directories and
  -- links, with the permissions of the modes, to which those of the owner to read and to go through are
  -- added for a directory that grants its owner neither.
  pub copy_complete :
      (n : Node) (path : List Bytes) → IsCopyable n → copy s n path none ≡ (none, some (whole n))
  copy_complete n path copyable = copy_succeeds n path copyable

  -- If moreover the modes are permissions, and the owner of each directory may read it or go through it,
  -- the copy is the tree itself.
  pub copy-plain :
      (n : Node) (path : List Bytes)
      → IsCopyable n
      → IsPlain n
      → copy s n path none ≡ (none, some n)
  copy-plain n path copyable plain =
      copy_succeeds n path copyable ∙ ap (λ (m : Node). (none, some m)) (whole-plain n plain)
