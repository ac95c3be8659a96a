-- ===== src/Examples/Directories.antt =====
-- New directories at concrete inputs.
use juju_utils.Common.{ℕ, ◌≡◌, ◌≢◌, ◌⊎◌, refl, arith, ◌+◌, some, [], ◌∷◌, ◌==◌, ◌||◌, if◌then◌else◌}
use juju_utils.Common.Bytes.{Bytes, bytes_eq, codes}
use juju_utils.Common.Results.{ok}
use juju_utils.Text.Fields.{split, join}
use juju_utils.Text.Path.{add, all_up, drop_last, resolve, elements, print, clean, join_paths}
use juju_utils.UniqueDirectory.{
  Stat, exists, missing, candidate, search, unique_directory, join_server_path,
}
use juju_utils.UniqueDirectory.FirstFree.{IsFirst, unique_directory_lem}

abbrev digit : ℕ → Bytes
digit n = (48 + n) ∷ []

abbrev status : Bytes → Stat ℕ
status dir = if dir == codes "tmp/x" || dir == codes "tmp/x.1" then exists else missing

second_free :
    unique_directory status digit (codes "tmp/") (codes "x") 2 ≡ some (ok (codes "tmp/x.2"))
unfolding unique_directory search candidate join_paths clean elements resolve add all_up drop_last
    print split join
second_free = refl

x2_missing : status (candidate digit (codes "tmp/") (codes "x") 2) ≡ missing
unfolding candidate join_paths clean elements resolve add all_up drop_last print split join
x2_missing = refl

unique_directory_example :
    let r = unique_directory status digit (codes "tmp/") (codes "x") 2 in
    let first = candidate digit (codes "tmp/") (codes "x") 0 in
    ((status first ≡ missing) × (r ≡ some (ok first)))
    ⊎ ((status first ≢ missing) × IsFirst status digit (codes "tmp/") (codes "x") 1 r)
unique_directory_example =
    unique_directory_lem status digit (codes "tmp/") (codes "x") 2 2 (omega arith) (omega arith)
      (λ h. absurd (ground (arith, x2_missing, h)))

joined : join_server_path (codes "a" ∷ [] ∷ codes "../b//c/." ∷ []) ≡ codes "b/c"
unfolding join_server_path clean elements resolve add all_up drop_last print split join
joined = refl
