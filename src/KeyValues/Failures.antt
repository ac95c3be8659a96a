-- ===== src/KeyValues/Failures.antt =====
-- What `Parse` reports when it refuses its arguments.
use juju_utils.Common.{
  subst, ◌≡◌, ◌≢◌, refl, Bool, true, List, [], ◌∷◌, ◌++◌, nat_eq, is_some, arith, sym, ap, inl, inr,
}
use juju_utils.Common.Bytes.{Bytes, bytes_eq}
use juju_utils.Common.Results.{bind_err, Result, ok, err}
use juju_utils.GoMap.{Map, lookup}
use juju_utils.Text.Cut.{split_in_two}
use juju_utils.KeyValues.{
  ParseError, expected_key_value, duplicate, check_parts, store, parse_one, parse_from, parse,
}
use juju_utils.KeyValues.Entries.{print, IsEntry, check_parts_sound, check_parts_complete}

-- Why one argument is refused after the arguments before it gave `m`.
abbrev pub Offends : Bool → Bytes → Map Bytes Bytes → ParseError → Type 0
Offends allow kv m (expected_key_value kv') =
    (kv' ≡ kv) × ((e : Bytes × Bytes) → IsEntry allow e → kv ≢ print e)
Offends allow kv m (duplicate k) =
    (v : Bytes) × (kv ≡ print (k, v)) × IsEntry allow (k, v) × (is_some (lookup k m) ≡ true)

check_parts_err :
    (allow : Bool) (kv : Bytes) (ps : List Bytes) (x : ParseError)
    → check_parts allow kv ps ≡ err x
    → x ≡ expected_key_value kv
unfolding check_parts
check_parts_err allow kv [] x h = ground arith
check_parts_err allow kv (a ∷ []) x h = ground arith
check_parts_err allow kv (a ∷ b ∷ []) x h = ground arith
check_parts_err allow kv (a ∷ b ∷ c ∷ ps) x h = ground arith

store_err :
    (k v : Bytes) (m : Map Bytes Bytes) (x : ParseError)
    → store (k, v) m ≡ err x
    → (x ≡ duplicate k) × (is_some (lookup k m) ≡ true)
unfolding store
store_err k v m x h = ground arith

parse_one_err :
    (allow : Bool) (kv : Bytes) (m : Map Bytes Bytes) (x : ParseError)
    → parse_one allow kv m ≡ err x
    → Offends allow kv m x
unfolding parse_one
parse_one_err allow kv m x h = elim (bind_err parts (λ e. store e m) h) [
  | inr ((k, v), e, fails) ↦
      let (which, old) = store_err k v m x fails in
      let (printed, valid) = check_parts_sound allow kv (k, v) e in
      subst (λ y. Offends allow kv m y) (sym which) (v, printed, valid, old)
  | inl e ↦
      subst (λ y. Offends allow kv m y) (sym (check_parts_err allow kv (split_in_two b'=' kv) x e))
        (refl, λ entry valid printed. not_printed e entry valid printed)
]
  where
    parts : Result ParseError (Bytes × Bytes)
    parts = check_parts allow kv (split_in_two b'=' kv)

    not_printed : parts ≡ err x → (entry : Bytes × Bytes) → IsEntry allow entry → kv ≢ print entry
    not_printed e entry valid printed =
        let accepted : parts ≡ ok entry =
          subst (λ s. check_parts allow s (split_in_two b'=' s) ≡ ok entry) (sym printed)
            (check_parts_complete allow entry valid) in
        cc

parse_from_err :
    (allow : Bool) (src : List Bytes) (m : Map Bytes Bytes) (x : ParseError)
    → parse_from allow src m ≡ err x
    → (before : List Bytes) × (kv : Bytes) × (after : List Bytes) × (m' : Map Bytes Bytes) × (src
        ≡ before ++ kv ∷ after)
      × (parse_from allow before m ≡ ok m')
      × Offends allow kv m' x
unfolding parse_from
parse_from_err allow [] m x h = ground arith
parse_from_err allow (kv ∷ src) m x h =
    elim (bind_err (parse_one allow kv m) (parse_from allow src) h) [
      | inr (m', e, fails) ↦
          let (before, kv', after, m'', split, run, off) = parse_from_err allow src m' x fails in
          (kv ∷ before, kv', after, m'', ap (λ l. kv ∷ l) split, rw e run, off)
      | inl e ↦ ([], kv, src, m, refl, refl, parse_one_err allow kv m x e)
    ]

-- A failure names the first argument that is at fault: all before it were accepted, and it is
-- either no printed entry, or the entry of a key that one of those before it has set.
pub parse_fails :
    (src : List Bytes) (allow : Bool) (x : ParseError)
    → parse src allow ≡ err x
    → (before : List Bytes) × (kv : Bytes) × (after : List Bytes) × (m : Map Bytes Bytes) × (src
        ≡ before ++ kv ∷ after)
      × (parse before allow ≡ ok m)
      × Offends allow kv m x
unfolding parse
parse_fails src allow x h = parse_from_err allow src [] x h
