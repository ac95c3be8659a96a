-- ===== src/Text/Fields.antt =====
-- `strings.Split` at a character, `strings.Join` with it, `strings.TrimSpace` and `strings.ToLower`,
-- on ASCII texts.
use juju_utils.Common.{
  ℕ, ◌+◌, ◌≡◌, ◌≢◌, refl, ap, ◌∙◌, arith, Bool, false, ◌&&◌, ◌||◌, List, [], ◌∷◌, ◌++◌,
  if◌then◌else◌, leb, nat_beq, All, All-append, Bool-cases, inl, inr,
}
use juju_utils.Common.Bytes.{Bytes}

-- The first field goes on to the left of the others.
abbrev pub longer : ℕ → List Bytes → List Bytes
longer c [] = (c ∷ []) ∷ []
longer c (field ∷ fields) = (c ∷ field) ∷ fields

unfoldable pub split : ℕ → Bytes → List Bytes
split sep [] = [] ∷ []
split sep (c ∷ s) = let rest = split sep s in if nat_beq c sep then [] ∷ rest else longer c rest

unfoldable pub join : ℕ → List Bytes → Bytes
join sep [] = []
join sep (s ∷ []) = s
join sep (s ∷ t ∷ rest) = s ++ sep ∷ join sep (t ∷ rest)

abbrev pub is_space : ℕ → Bool
is_space c = nat_beq c 32 || (leb 9 c && leb c 13)

unfoldable pub trim_left : Bytes → Bytes
trim_left [] = []
trim_left (c ∷ s) = let rest = trim_left s in if is_space c then rest else c ∷ s

abbrev pub put : ℕ → Bytes → Bytes
put c [] = if is_space c then [] else c ∷ []
put c (d ∷ s) = c ∷ d ∷ s

unfoldable pub trim_right : Bytes → Bytes
trim_right [] = []
trim_right (c ∷ s) = put c (trim_right s)

unfoldable pub trim_space : Bytes → Bytes
unfolding trim_left trim_right
trim_space s = trim_right (trim_left s)

abbrev pub lower : ℕ → ℕ
lower c = if leb b'A' c && leb c b'Z' then c + 32 else c

unfoldable pub to_lower : Bytes → Bytes
to_lower [] = []
to_lower (c ∷ s) = lower c ∷ to_lower s

split-lacks : (sep : ℕ) (s : Bytes) → All (λ c. c ≢ sep) s → split sep s ≡ s ∷ []
unfolding split
split-lacks sep [] h = refl
split-lacks sep (c ∷ s) h = ground (arith, split-lacks sep s h.1)

split-append :
    (sep : ℕ) (s t : Bytes) → All (λ c. c ≢ sep) s → split sep (s ++ sep ∷ t) ≡ s ∷ split sep t
unfolding split
split-append sep [] t h = ground arith
split-append sep (c ∷ s) t h = ground (arith, split-append sep s t h.1)

pub split-join :
    (sep : ℕ) (s : Bytes) (rest : List Bytes)
    → All (λ t. All (λ c. c ≢ sep) t) (s ∷ rest)
    → split sep (join sep (s ∷ rest)) ≡ s ∷ rest
unfolding join
split-join sep s [] h = split-lacks sep s h.0
split-join sep s (t ∷ rest) h =
    split-append sep s (join sep (t ∷ rest)) h.0
    ∙ ap (λ (ts : List Bytes). s ∷ ts) (split-join sep t rest h.1)

module _ (P : ℕ → Type 0) where
  longer-All :
      (c : ℕ) (fields : List Bytes) → P c → All (All P) fields → All (All P) (longer c fields)
  longer-All c [] p h = ((p, tt), tt)
  longer-All c (field ∷ fields) p h = ((p, h.0), h.1)

  trim_left-All : (s : Bytes) → All P s → All P (trim_left s)
  unfolding trim_left
  trim_left-All [] h = tt
  trim_left-All (c ∷ s) h = elim (Bool-cases (is_space c)) [
    | inl space ↦ rw space (trim_left-All s h.1)
    | inr other ↦ rw other h
  ]

  put-All : (c : ℕ) (s : Bytes) → P c → All P s → All P (put c s)
  put-All c [] p h = elim (Bool-cases (is_space c)) [
    | inl space ↦ rw space tt
    | inr other ↦ rw other (p, tt)
  ]
  put-All c (d ∷ s) p h = (p, h)

  trim_right-All : (s : Bytes) → All P s → All P (trim_right s)
  unfolding trim_right
  trim_right-All [] h = tt
  trim_right-All (c ∷ s) h = put-All c (trim_right s) h.0 (trim_right-All s h.1)

  pub trim_space-All : (s : Bytes) → All P s → All P (trim_space s)
  unfolding trim_space
  trim_space-All s h = trim_right-All (trim_left s) (trim_left-All s h)

-- The fields hold no separator, and otherwise what the text holds.
pub split-All :
    (P : ℕ → Type 0) (sep : ℕ) (s : Bytes)
    → All P s
    → All (All (λ c. P c × (c ≢ sep))) (split sep s)
unfolding split
split-All P sep [] h = (tt, tt)
split-All P sep (c ∷ s) h = elim (Bool-cases (nat_beq c sep)) [
  | inl here ↦ rw here (tt, split-All P sep s h.1)
  | inr other ↦ rw other (
      longer-All (λ k. P k × (k ≢ sep)) c (split sep s) (h.0, ground arith) (split-All P sep s h.1))
]

trim_right-put : (c : ℕ) (s : Bytes) → trim_right (put c s) ≡ put c (trim_right s)
unfolding trim_right
trim_right-put c [] = ground arith
trim_right-put c (d ∷ s) = refl

trim_right_idem : (s : Bytes) → trim_right (trim_right s) ≡ trim_right s
unfolding trim_right
trim_right_idem [] = refl
trim_right_idem (c ∷ s) = trim_right-put c (trim_right s) ∙ ap (put c) (trim_right_idem s)

trim_left-put : (c : ℕ) (s : Bytes) → is_space c ≡ false → trim_left (put c s) ≡ put c s
unfolding trim_left
trim_left-put c [] h = rw h (rw h refl)
trim_left-put c (d ∷ s) h = rw h refl

trim_left-trim_right : (s : Bytes) → trim_left (trim_right (trim_left s)) ≡ trim_right (trim_left s)
unfolding trim_left trim_right
trim_left-trim_right [] = refl
trim_left-trim_right (c ∷ s) = elim (Bool-cases (is_space c)) [
  | inl space ↦ rw space (trim_left-trim_right s)
  | inr other ↦ rw other (trim_left-put c (trim_right s) other)
]

pub trim_space_idem : (s : Bytes) → trim_space (trim_space s) ≡ trim_space s
unfolding trim_space
trim_space_idem s = ap trim_right (trim_left-trim_right s) ∙ trim_right_idem (trim_left s)

-- The characters of a text in lower case.
abbrev pub IsLower : ℕ → Type 0
IsLower c = lower c ≡ c

pub to_lower-All : (s : Bytes) → All IsLower (to_lower s)
unfolding to_lower
to_lower-All [] = tt
to_lower-All (c ∷ s) = (ground arith, to_lower-All s)

pub to_lower-same : (s : Bytes) → All IsLower s → to_lower s ≡ s
unfolding to_lower
to_lower-same [] h = refl
to_lower-same (c ∷ s) h = ground (arith, h.0, to_lower-same s h.1)

pub join-All :
    (P : ℕ → Type 0) (sep : ℕ) (fields : List Bytes)
    → P sep
    → All (All P) fields
    → All P (join sep fields)
unfolding join
join-All P sep [] p h = tt
join-All P sep (s ∷ []) p h = h.0
join-All P sep (s ∷ t ∷ rest) p h =
    All-append P s (sep ∷ join sep (t ∷ rest)) h.0 (p, join-All P sep (t ∷ rest) p h.1)
