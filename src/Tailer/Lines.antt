-- ===== src/Tailer/Lines.antt =====
-- The lines of a text that a tailer passes on, and how a text splits at its last line.
use juju_utils.Common.{
  ℕ, suc, ◌≡◌, ◌≢◌, refl, ap, arith, Option, none, some, List, [], ◌∷◌, ◌++◌, length, if◌then◌else◌,
  nat_beq, All, Bool-cases, Option-cases, subst, inl, inr, append_assoc,
}
use juju_utils.Common.Bytes.{Bytes}
use juju_utils.Tailer.{Filter, is_valid, delimiter, last_index}

-- The lines that end in the text and that the filter accepts; `line` is what stands before the text
-- in its first line.
abbrev pub keep : Filter → Bytes → List Bytes → List Bytes
keep filter line rest = if is_valid filter line then line ∷ rest else rest

unfoldable pub tailed_after : Filter → Bytes → Bytes → List Bytes
tailed_after filter line [] = []
tailed_after filter line (c ∷ s) =
    let ended = keep filter (line ++ c ∷ []) (tailed_after filter [] s) in
    let longer = tailed_after filter (line ++ c ∷ []) s in
    if nat_beq c delimiter then ended else longer

abbrev pub tailed : Filter → Bytes → List Bytes
tailed filter s = tailed_after filter [] s

abbrev pub LacksEnd : Bytes → Type 0
LacksEnd s = All (λ c. c ≢ delimiter) s

pub tailed-lacks : (f : Filter) (line s : Bytes) → LacksEnd s → tailed_after f line s ≡ []
unfolding tailed_after
tailed-lacks f line [] h = refl
tailed-lacks f line (c ∷ s) h = ground (arith, tailed-lacks f (line ++ c ∷ []) s h.1)

pub tailed-line :
    (f : Filter) (line a b : Bytes)
    → LacksEnd a
    → tailed_after f line (a ++ delimiter ∷ b) ≡ keep f (line ++ (a ++ delimiter ∷ [])) (tailed f b)
unfolding tailed_after
tailed-line f line [] b h = refl
tailed-line f line (c ∷ a) b h = ground (
  arith,
  tailed-line f (line ++ c ∷ []) a b h.1,
  append_assoc line (c ∷ []) (a ++ delimiter ∷ []),
)

pub tailed-append :
    (f : Filter) (line a b : Bytes)
    → tailed_after f line (a ++ delimiter ∷ b)
      ≡ tailed_after f line (a ++ delimiter ∷ []) ++ tailed f b
unfolding tailed_after
tailed-append f line [] b = ground arith
tailed-append f line (c ∷ a) b =
    ground (arith, tailed-append f (line ++ c ∷ []) a b, tailed-append f [] a b)

-- A text without a line end, or one that ends a last line, with what stands after it.
abbrev pub LastLine : Bytes → Option ℕ → Type 0
LastLine s none = LacksEnd s
LastLine s (some i) =
    (a : Bytes) × (b : Bytes) × (s ≡ a ++ delimiter ∷ b) × (length a ≡ i) × LacksEnd b

pub last_index_lem : (s : Bytes) → LastLine s (last_index s)
unfolding last_index
last_index_lem [] = tt
last_index_lem (c ∷ s) = elim (Option-cases (last_index s)) [
  | inr (i, e) ↦
      let (a, b, split, at, lacks) = subst (LastLine s) e (last_index_lem s) in
      rw e (c ∷ a, b, ap (λ (t : Bytes). c ∷ t) split, ap suc at, lacks)
  | inl e ↦
      let lacks : LacksEnd s = subst (LastLine s) e (last_index_lem s) in
      elim (Bool-cases (nat_beq c delimiter)) [
        | inl here ↦ rw (e, here) ([], s, ground arith, refl, lacks)
        | inr other ↦ rw (e, other) (ground arith, lacks)
      ]
]

-- The last line end of a text that ends a line.
pub last_index-append : (a : Bytes) → last_index (a ++ delimiter ∷ []) ≡ some (length a)
unfolding last_index
last_index-append [] = refl
last_index-append (c ∷ a) = rw (last_index-append a) refl

pub append-LacksEnd : (a b : Bytes) → LacksEnd (a ++ b) → LacksEnd a × LacksEnd b
append-LacksEnd [] b h = (tt, h)
append-LacksEnd (c ∷ a) b h = let (ha, hb) = append-LacksEnd a b h.1 in ((h.0, ha), hb)

-- A line end before a text without one stands in the first part.
pub split_front :
    (c d x y : Bytes)
    → c ++ d ≡ x ++ delimiter ∷ y
    → LacksEnd d
    → (z : Bytes) × (c ≡ x ++ delimiter ∷ z) × (y ≡ z ++ d)
split_front [] d x y e h =
    absurd ((append-LacksEnd x (delimiter ∷ y) (subst LacksEnd e h)).1.0 refl)
split_front (k ∷ c) d [] y e h = (c, ground arith, ground arith)
split_front (k ∷ c) d (j ∷ x) y e h =
    let (z, ec, ey) = split_front c d x y (ground arith) h in (z, ground arith, ey)
