-- ===== src/Text/Classes.antt =====
-- Regular expressions that are anchored rows of character classes.
use juju_utils.Common.{
  zero, suc, ℕ, Bool, true, false, ◌&&◌, List, [], ◌∷◌, ◌++◌, ◌≡◌, refl, length, arith, replicate,
  All, ap,
}
use juju_utils.Common.Bytes.{Bytes}

abbrev pub Class : Type 0
Class = ℕ → Bool

-- `^…$`: as many characters as classes, each in its class.
unfoldable pub matches : List Class → Bytes → Bool
matches [] [] = true
matches [] (c ∷ s) = false
matches (p ∷ ps) [] = false
matches (p ∷ ps) (c ∷ s) = p c && matches ps s

pub matches-append :
    (ps qs : List Class) (s t : Bytes)
    → length ps ≡ length s
    → matches (ps ++ qs) (s ++ t) ≡ (matches ps s && matches qs t)
unfolding matches
matches-append [] qs [] t h = ground arith
matches-append [] qs (c ∷ s) t h = ground arith
matches-append (p ∷ ps) qs [] t h = ground arith
matches-append (p ∷ ps) qs (c ∷ s) t h = ground (arith, matches-append ps qs s t)

-- A text that fits a row splits where the row does.
pub matches_split :
    (ps qs : List Class) (s : Bytes)
    → matches (ps ++ qs) s ≡ true
    → (a : Bytes) × (b : Bytes) × (s ≡ a ++ b) × (matches ps a ≡ true) × (matches qs b ≡ true)
unfolding matches
matches_split [] qs s h = ([], s, refl, refl, h)
matches_split (p ∷ ps) qs [] h = ground arith
matches_split (p ∷ ps) qs (c ∷ s) h =
    let (a, b, e, ha, hb) = matches_split ps qs s (ground arith) in
    (c ∷ a, b, ap (λ l. c ∷ l) e, ground arith, hb)

pub matches-All :
    (n : ℕ) (p : Class) (s : Bytes) → matches (replicate n p) s ≡ true → All (λ c. p c ≡ true) s
unfolding matches
matches-All zero p [] h = tt
matches-All zero p (c ∷ s) h = ground arith
matches-All (suc n) p [] h = ground arith
matches-All (suc n) p (c ∷ s) h = (ground arith, matches-All n p s (ground arith))

pub All-matches :
    (p : Class) (s : Bytes) → All (λ c. p c ≡ true) s → matches (replicate (length s) p) s ≡ true
unfolding matches
All-matches p [] h = refl
All-matches p (c ∷ s) h = ground (arith, All-matches p s h.1)
