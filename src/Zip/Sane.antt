-- ===== src/Zip/Sane.antt =====
-- What `isSanePath` says of a path's elements.
use juju_utils.Common.{
  ◌≡◌, refl, arith, ap, ap₂, sym, true, false, some, List, [], ◌∷◌, ◌++◌, ◌==◌, Bool-cases, inl,
  inr,
}
use juju_utils.Common.Bytes.{Bytes, bytes_eq}
use juju_utils.Text.Fields.{split, join}
use juju_utils.Text.Path.{is_up, print, rel_elements}
use juju_utils.Text.Path.Under.{starts_up}
use juju_utils.Zip.{is_sane_path, after_prefix}

-- The first element of a sane path does not go up.
pub split-sane : (s : Bytes) → is_sane_path s ≡ true → starts_up (split b'/' s) ≡ false
unfolding is_sane_path split after_prefix
split-sane [] h = refl
split-sane (a ∷ []) h = ground arith
split-sane (a ∷ b ∷ []) h = ground arith
split-sane (a ∷ b ∷ c ∷ s) h = ground arith

-- A text that begins with an element that goes up.
pub up_is_not_sane :
    (es : List Bytes) → is_sane_path (print false ((b'.' ∷ b'.' ∷ []) ∷ es)) ≡ false
unfolding is_sane_path after_prefix print join
up_is_not_sane [] = refl
up_is_not_sane (e ∷ es) = refl

print-sane : (es : List Bytes) → is_sane_path (print false es) ≡ true → starts_up es ≡ false
print-sane [] h = refl
print-sane (e ∷ es) h = elim (Bool-cases (is_up e)) [
  | inl up ↦
      let same : e ≡ b'.' ∷ b'.' ∷ [] = (bytes_eq.beq_iff e (b'.' ∷ b'.' ∷ [])).0 up in
      absurd (
        ground
          (arith, up_is_not_sane es, ap (λ (d : Bytes). is_sane_path (print false (d ∷ es))) same))
  | inr down ↦ down
]

-- A sane relative path from a base leads from it without going up.
pub rel_elements-sane :
    (bs ts es : List Bytes)
    → rel_elements bs ts ≡ some es
    → is_sane_path (print false es) ≡ true
    → (ts ≡ bs ++ es) × (starts_up es ≡ false)
unfolding rel_elements
rel_elements-sane [] ts es h sane = (ground arith, print-sane es sane)
rel_elements-sane (b ∷ bs) [] es h sane = elim (Bool-cases (is_up b)) [
  | inl up ↦ absurd (ground arith)
  | inr down ↦ absurd (ground (arith, print-sane es sane))
]
rel_elements-sane (b ∷ bs) (t ∷ ts) es h sane = elim (Bool-cases (b == t)) [
  | inl same ↦
      let (e, down) = rel_elements-sane bs ts es (ground arith) sane in
      (ap₂ (λ (x : Bytes) (xs : List Bytes). x ∷ xs) (sym ((bytes_eq.beq_iff b t).0 same)) e, down)
  | inr other ↦ absurd (ground (arith, print-sane es sane))
]
