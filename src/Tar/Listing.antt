-- ===== src/Tar/Listing.antt =====
-- The files of a tree: by a walk to each of them, and as a list with the path of each from the root.
use juju_utils.Common.{
  subst, ◌≡◌, refl, arith, sym, ◌∙◌, Bool, true, false, ◌&&◌, Option, none, some, List, [], ◌∷◌,
  ◌++◌, if◌then◌else◌, ◌==◌, ◌↔◌, Option-cases, Bool-cases, inl, inr,
}
use juju_utils.Common.Bytes.{Bytes, bytes_eq, bytes_beq_iff}
use juju_utils.FsCopy.{Node, Nodes, file, dir, link, special, end, child, find}
use juju_utils.Text.Path.Printed.{IsName}

-- What stands at a path from the root.
abbrev pub at_child : Option Node → (Node → Option Node) → Option Node
at_child none next = none
at_child (some n) next = next n

abbrev pub in_dir : Node → Bytes → Option Node
in_dir (dir mode ns) name = find name ns
in_dir (file contents mode) name = none
in_dir (link target) name = none
in_dir (special mode) name = none

unfoldable pub at : List Bytes → Node → Option Node
at [] n = some n
at (name ∷ names) n = at_child (in_dir n name) (at names)

abbrev pub Listing : Type 0
Listing = List (List Bytes × Node)

abbrev pub prefixed : Bytes → Listing → Listing
prefixed name [] = []
prefixed name ((x, n) ∷ ls) = (name ∷ x, n) ∷ prefixed name ls

unfoldable mutual
  pub listing : Node → Listing
  listing (file contents mode) = ([], file contents mode) ∷ []
  listing (link target) = ([], link target) ∷ []
  listing (special mode) = ([], special mode) ∷ []
  listing (dir mode ns) = ([], dir mode ns) ∷ listing_nodes ns

  pub listing_nodes : Nodes → Listing
  listing_nodes end = []
  listing_nodes (child name n rest) = prefixed name (listing n) ++ listing_nodes rest

-- A directory's entries have names, with none twice.
unfoldable mutual
  pub IsNamed : Node → Type 0
  IsNamed (file contents mode) = Unit
  IsNamed (link target) = Unit
  IsNamed (special mode) = Unit
  IsNamed (dir mode ns) = AreNamed ns

  pub AreNamed : Nodes → Type 0
  AreNamed end = Unit
  AreNamed (child name n rest) = IsName name × (find name rest ≡ none) × IsNamed n × AreNamed rest

abbrev pub same_path : List Bytes → List Bytes → Bool
same_path [] [] = true
same_path [] (j ∷ y) = false
same_path (i ∷ x) [] = false
same_path (i ∷ x) (j ∷ y) = i == j && same_path x y

pub same_path_iff : (x y : List Bytes) → (same_path x y ≡ true) ↔ (x ≡ y)
same_path_iff [] [] = ground arith
same_path_iff [] (j ∷ y) = ground arith
same_path_iff (i ∷ x) [] = ground arith
same_path_iff (i ∷ x) (j ∷ y) = ground (arith, same_path_iff x y, bytes_beq_iff i j)

abbrev pub lookup : List Bytes → Listing → Option Node
lookup x [] = none
lookup x ((y, n) ∷ ls) = let rest = lookup x ls in if same_path y x then some n else rest

abbrev or_else : Option Node → Option Node → Option Node
or_else none b = b
or_else (some n) b = some n

lookup-append :
    (x : List Bytes) (ls ms : Listing) → lookup x (ls ++ ms) ≡ or_else (lookup x ls) (lookup x ms)
lookup-append x [] ms = refl
lookup-append x ((y, n) ∷ ls) ms = elim (Bool-cases (same_path y x)) [
  | inl here ↦ rw here refl
  | inr other ↦ rw other (lookup-append x ls ms)
]

lookup-prefixed :
    (j : Bytes) (x : List Bytes) (k : Bytes) (ls : Listing)
    → lookup (j ∷ x) (prefixed k ls) ≡ (if k == j then lookup x ls else none)
lookup-prefixed j x k [] = ground arith
lookup-prefixed j x k ((y, n) ∷ ls) = ground (arith, lookup-prefixed j x k ls)

lookup-listing_nodes :
    (j : Bytes) (x : List Bytes) (ns : Nodes)
    → AreNamed ns
    → lookup (j ∷ x) (listing_nodes ns) ≡ at_child (find j ns) (λ n. lookup x (listing n))
unfolding listing AreNamed
lookup-listing_nodes j x end h = refl
lookup-listing_nodes j x (child k n rest) h =
    lookup-append (j ∷ x) (prefixed k (listing n)) (listing_nodes rest)
    ∙ rw (lookup-prefixed j x k (listing n), lookup-listing_nodes j x rest h.3)
        (elim (Bool-cases (k == j)) [
          | inl here ↦
              let same = (bytes_beq_iff k j).0 here in
              rw (here, sym same, h.1) (or_else-none (lookup x (listing n)))
          | inr other ↦ rw other refl
        ])
  where
    or_else-none : (o : Option Node) → or_else o none ≡ o
    or_else-none none = refl
    or_else-none (some n) = refl

lookup_other :
    (n : Node) (j : Bytes) (x : List Bytes)
    → IsNamed n
    → lookup (j ∷ x) (listing n) ≡ at_child (in_dir n j) (λ m. lookup x (listing m))
unfolding listing IsNamed
lookup_other (file contents mode) j x h = refl
lookup_other (link target) j x h = refl
lookup_other (special mode) j x h = refl
lookup_other (dir mode ns) j x h = lookup-listing_nodes j x ns h

find-IsNamed : (j : Bytes) (ns : Nodes) (m : Node) → AreNamed ns → find j ns ≡ some m → IsNamed m
unfolding IsNamed
find-IsNamed j end m h found = absurd (ground arith)
find-IsNamed j (child k n rest) m h found = elim (Bool-cases (k == j)) [
  | inl here ↦ subst IsNamed (ground arith) h.2
  | inr other ↦ find-IsNamed j rest m h.3 (ground arith)
]

in_dir-IsNamed : (n : Node) (j : Bytes) (m : Node) → IsNamed n → in_dir n j ≡ some m → IsNamed m
unfolding IsNamed
in_dir-IsNamed (file contents mode) j m h found = absurd (ground arith)
in_dir-IsNamed (link target) j m h found = absurd (ground arith)
in_dir-IsNamed (special mode) j m h found = absurd (ground arith)
in_dir-IsNamed (dir mode ns) j m h found = find-IsNamed j ns m h found

lookup_root : (n : Node) → lookup [] (listing n) ≡ some n
unfolding listing
lookup_root (file contents mode) = refl
lookup_root (link target) = refl
lookup_root (special mode) = refl
lookup_root (dir mode ns) = refl

-- The list has what a walk finds.
pub lookup-listing : (x : List Bytes) (n : Node) → IsNamed n → lookup x (listing n) ≡ at x n
unfolding at
lookup-listing [] n h = lookup_root n
lookup-listing (j ∷ x) n h = lookup_other n j x h ∙ elim (Option-cases (in_dir n j)) [
  | inl missing ↦ rw missing refl
  | inr (m, found) ↦ rw found (lookup-listing x m (in_dir-IsNamed n j m h found))
]
