-- ===== src/FsCopy/Complete.antt =====
-- A copy that succeeds is complete.
use juju_utils.Common.{
  ℕ, suc, ◌≡◌, refl, arith, Option, none, some, List, [], ◌∷◌, ◌++◌, ap, ◌∙◌, sym,
}
use juju_utils.Common.Bytes.{Bytes, bytes_eq}
use juju_utils.FsCopy.{
  Node, Nodes, file, dir, link, special, end, reads, child, find, store, perm, accessible, System,
  CopyError, Copied, start, copy_link, copy_file, copy_dir, close_dir, copy_data, after_child,
  unless_fault, unless_there, unless_unread, copy, copy_children,
}

-- The whole copy of a tree.
unfoldable mutual
  pub whole : Node → Node
  whole (file contents mode) = file contents (perm mode)
  whole (dir mode ns) = dir (perm (accessible mode)) (whole_nodes ns)
  whole (link target) = link target
  whole (special mode) = special mode

  pub whole_nodes : Nodes → Nodes
  whole_nodes end = end
  whole_nodes (child name n rest) = child name (whole n) (whole_nodes rest)

abbrev pub followed_by : Nodes → Nodes → Nodes
followed_by end ns = ns
followed_by (child name n rest) ns = child name n (followed_by rest ns)

pub store-followed_by :
    (name : Bytes) (n : Node) (made rest : Nodes)
    → find name made ≡ none
    → followed_by (store name (some n) made) rest ≡ followed_by made (child name n rest)
store-followed_by name n end rest free = refl
store-followed_by name n (child k m made) rest free =
    ground (arith, store-followed_by name n made rest)

pub followed_by-end : (ns : Nodes) → followed_by ns end ≡ ns
followed_by-end end = refl
followed_by-end (child k n ns) = ap (child k n) (followed_by-end ns)

module _ {E : Type 0} where
  -- What a chain of calls that succeeds has come to.
  unless_fault_ok {ℓ} :
      {A : Type ℓ} (e : Option E) (there : A) (r : Option (CopyError E) × A) {a : A}
      → unless_fault e there r ≡ (none, a)
      → r ≡ (none, a)
  unfolding unless_fault
  unless_fault_ok none there r h = h
  unless_fault_ok (some e) there r h = cc

  unless_unread_ok :
      (path : List Bytes) (e : Option E) (there : Nodes) (r : Copied E Nodes) {a : Nodes}
      → unless_unread path e there r ≡ (none, a)
      → r ≡ (none, a)
  unfolding unless_unread
  unless_unread_ok path none there r h = h
  unless_unread_ok path (some e) there r h = cc

  unless_there_ok :
      (path : List Bytes) (there : Option Node) (r : Copied E (Option Node)) {a : Option Node}
      → unless_there path there r ≡ (none, a)
      → (there ≡ none) × (r ≡ (none, a))
  unfolding unless_there
  unless_there_ok path none r h = (refl, h)
  unless_there_ok path (some n) r h = absurd (cc)

  copy_data_ok :
      (path : List Bytes) (contents : Bytes) (mode : ℕ) (e : Option (ℕ × E)) {a : Option Node}
      → copy_data path contents mode e ≡ (none, a)
      → a ≡ some (file contents (perm mode))
  unfolding copy_data
  copy_data_ok path contents mode none h = cc
  copy_data_ok path contents mode (some (n, e)) h = cc

  module _ (s : System E) where
    start_ok :
        (path : List Bytes) (there : Option Node) (r : Copied E (Option Node)) {a : Option Node}
        → start s path there r ≡ (none, a)
        → (there ≡ none) × (r ≡ (none, a))
    unfolding start
    start_ok path there r h =
        unless_there_ok path there r (unless_fault_ok _ there _ (unless_fault_ok _ there _ h))

    close_dir_ok :
        (path : List Bytes) (mode : ℕ) (r : Copied E Nodes) {a : Option Node}
        → close_dir s path mode r ≡ (none, a)
        → (ns : Nodes) × (r ≡ (none, ns)) × (a ≡ some (dir (perm mode) ns))
    unfolding close_dir
    close_dir_ok path mode (some e, ns) h = absurd (cc)
    close_dir_ok path mode (none, ns) h =
        (ns, refl, ap (λ (r : Copied E (Option Node)). r.1) (sym (unless_fault_ok _ _ _ h)))

    after_child_ok :
        (name : Bytes) (made : Nodes) (r : Copied E (Option Node)) (next : Nodes → Copied E Nodes)
        {a : Nodes}
        → after_child s name made r next ≡ (none, a)
        → (n : Option Node) × (r ≡ (none, n)) × (next (store name n made) ≡ (none, a))
    after_child_ok name made (some e, n) next h = absurd (cc)
    after_child_ok name made (none, n) next h = (n, refl, h)

    mutual
      unfolding copy copy_file copy_link copy_dir whole

      copy_ok :
          (n : Node) (path : List Bytes) (there : Option Node) {a : Option Node}
          → copy s n path there ≡ (none, a)
          → (there ≡ none) × (a ≡ some (whole n))
      copy_ok (file contents mode) path there h =
          let (free, r) = start_ok path there _ h in
          (
            free,
            copy_data_ok path contents mode _
                (unless_fault_ok _ _ _ (unless_fault_ok _ _ _ (unless_fault_ok _ _ _ r))),
          )
      copy_ok (dir mode ns) path there h =
          let (free, r) = start_ok path there _ h in
          let (made, done, e) =
            close_dir_ok path (accessible mode) _
              (unless_fault_ok _ _ _ (unless_fault_ok _ _ _ r)) in
          (free, rw (sym (copy_children_ok ns path 0 end done)) e)
      copy_ok (link target) path there h =
          let (free, r) = start_ok path there _ h in
          (
            free,
            ap (λ (r : Copied E (Option Node)). r.1)
                (sym (unless_fault_ok _ _ _ (unless_fault_ok _ _ _ r))),
          )
      copy_ok (special mode) path there h = absurd (ground (arith, start_ok path there _ h))

      copy_children_ok :
          (ns : Nodes) (path : List Bytes) (i : ℕ) (made : Nodes) {a : Nodes}
          → copy_children s ns path i made ≡ (none, a)
          → a ≡ followed_by made (whole_nodes ns)
      copy_children_ok end path i made h =
          ap (λ (r : Copied E Nodes). r.1) (sym (unless_unread_ok path _ _ _ h))
          ∙ sym (followed_by-end made)
      copy_children_ok (child name n rest) path i made h =
          let one = copy s n (path ++ name ∷ []) (find name made) in
          let next = copy_children s rest path (suc i) in
          let (m, copied, rest_copied) = after_child_ok name made one next (
            unless_unread_ok path (s.fault (reads i) path) made (after_child s name made one next)
              h) in
          let (free, e) = copy_ok n (path ++ name ∷ []) (find name made) copied in
          copy_children_ok rest path (suc i) (store name m made) rest_copied
          ∙ rw e (store-followed_by name (whole n) made (whole_nodes rest) free)

    -- Whatever calls fail: if `Copy` succeeds then nothing stood at the destination before, and now the
    -- whole copy of the tree does, with nothing left out at any depth.
    pub copy-whole :
        (n : Node) (path : List Bytes) (there a : Option Node)
        → copy s n path there ≡ (none, a)
        → (there ≡ none) × (a ≡ some (whole n))
    copy-whole n path there a h = copy_ok n path there h
