-- ===== src/Text/Cut.antt =====
-- `strings.SplitN(s, sep, 2)` for a separator of one byte.
use juju_utils.Common.{
  zero, suc, suc, ℕ, ◌≡◌, ◌≢◌, Option, none, some, List, [], ◌∷◌, ◌++◌, arith, ◌==◌, nat_eq,
  if◌then◌else◌, All,
}
use native.Mathlib.Decide.{ℕ_discrete}
use juju_utils.Common.Bytes.{Bytes}

abbrev pub Lacks : ℕ → Bytes → Type 0
Lacks sep = All (λ c. c ≢ sep)

abbrev before : ℕ → Option (Bytes × Bytes) → Option (Bytes × Bytes)
before c none = none
before c (some (k, v)) = some (c ∷ k, v)

-- The text before and after the first separator.
unfoldable pub cut : ℕ → Bytes → Option (Bytes × Bytes)
cut sep [] = none
cut sep (c ∷ s) = let rest = before c (cut sep s) in if c == sep then some ([], s) else rest

unfoldable pub split_in_two : ℕ → Bytes → List Bytes
unfolding cut
split_in_two sep s = elim (cut sep s) [ none ↦ s ∷ [] | some (k, v) ↦ k ∷ v ∷ [] ]

cut_here :
    (sep c : ℕ) (s k v : Bytes)
    → c ≡ sep
    → ◌≡◌ {A = Option (Bytes × Bytes)} (some ([], s)) (some (k, v))
    → (c ∷ s ≡ k ++ sep ∷ v) × Lacks sep k
cut_here sep c s [] v same e = ground arith
cut_here sep c s (d ∷ k) v same e = ground arith

before_sound :
    (sep c : ℕ) (s k v : Bytes) (o : Option (Bytes × Bytes))
    → ((k' v' : Bytes) → o ≡ some (k', v') → (s ≡ k' ++ sep ∷ v') × Lacks sep k')
    → c ≢ sep
    → before c o ≡ some (k, v)
    → (c ∷ s ≡ k ++ sep ∷ v) × Lacks sep k
before_sound sep c s k v none ih ne h = ground arith
before_sound sep c s [] v (some (k', v')) ih ne h = ground arith
before_sound sep c s (d ∷ k) v (some (k', v')) ih ne h = ground (arith, ih k v)

pub cut_sound :
    (sep : ℕ) (s k v : Bytes) → cut sep s ≡ some (k, v) → (s ≡ k ++ sep ∷ v) × Lacks sep k
unfolding cut
cut_sound sep [] k v h = ground arith
cut_sound sep (c ∷ s) k v h = elim (ℕ_discrete c sep) [
  | yes same ↦ cut_here sep c s k v same (ground arith)
  | no other ↦ before_sound sep c s k v (cut sep s) (cut_sound sep s) other (ground arith)
]

pub cut_complete : (sep : ℕ) (k v : Bytes) → Lacks sep k → cut sep (k ++ sep ∷ v) ≡ some (k, v)
unfolding cut
cut_complete sep [] v h = ground arith
cut_complete sep (c ∷ k) v h = ground (arith, cut_complete sep k v h.1)

-- `strings.Replace(s, sep, "", n)`: the text without its first `n` separators.
unfoldable pub remove : ℕ → ℕ → Bytes → Bytes
remove zero sep s = s
remove (suc n) sep [] = []
remove (suc n) sep (c ∷ s) =
    let kept = c ∷ remove (suc n) sep s in
    let dropped = remove n sep s in if c == sep then dropped else kept

pub remove_first :
    (n sep : ℕ) (s rest : Bytes)
    → Lacks sep s
    → remove (suc n) sep (s ++ sep ∷ rest) ≡ s ++ remove n sep rest
unfolding remove
remove_first n sep [] rest h = ground arith
remove_first n sep (c ∷ s) rest h = ground (arith, remove_first n sep s rest h.1)
