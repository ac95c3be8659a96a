-- ===== src/KeyValues/Entries.antt =====
-- The arguments that `Parse` accepts: the printed entries of a map, in order, and no others.
use juju_utils.Common.{
  subst, ap₂, ◌≡◌, ◌≢◌, ◌↔◌, refl, Bool, true, false, none, List, [], ◌∷◌, ◌++◌, ◌==◌, nat_eq,
  arith, map, append_assoc, append-nil, ◌∙◌, sym, ap, Bool-cases, Option-cases, inl, inr, All,
}
use juju_utils.Common.Bytes.{Bytes, bytes_eq, bytes_beq_iff}
use juju_utils.Common.Results.{bind_ok, ok}
use juju_utils.GoMap.{Map, lookup, insert, IsMap, insert-IsMap}
use juju_utils.Text.Cut.{split_in_two, cut, cut_sound, cut_complete, Lacks}
use juju_utils.KeyValues.{check_parts, store, parse_one, parse_from, parse}

-- `key=value`.
abbrev pub print : Bytes × Bytes → Bytes
print (k, v) = k ++ b'=' ∷ v

-- A key that can be printed, and a value that the flag lets through.
abbrev pub IsEntry : Bool → Bytes × Bytes → Type 0
IsEntry allow (k, v) = (k ≢ []) × Lacks b'=' k × (allow ≡ false → v ≢ [])

check_two_sound :
    (allow : Bool) (kv k v k' v' : Bytes)
    → check_parts allow kv (k' ∷ v' ∷ []) ≡ ok (k, v)
    → (k' ≡ k) × (v' ≡ v) × (k ≢ []) × (allow ≡ false → v ≢ [])
unfolding check_parts
check_two_sound allow kv k v [] v' h = ground arith
check_two_sound allow kv k v (c ∷ k') [] h = ground arith
check_two_sound allow kv k v (c ∷ k') (d ∷ v') h = ground arith

check_two_complete :
    (allow : Bool) (kv k v : Bytes)
    → k ≢ []
    → (allow ≡ false → v ≢ [])
    → check_parts allow kv (k ∷ v ∷ []) ≡ ok (k, v)
unfolding check_parts
check_two_complete allow kv [] v hk hv = absurd (hk refl)
check_two_complete true kv (c ∷ k) v hk hv = ground arith
check_two_complete false kv (c ∷ k) [] hk hv = absurd (hv refl refl)
check_two_complete false kv (c ∷ k) (d ∷ v) hk hv = ground arith

pub check_parts_sound :
    (allow : Bool) (kv : Bytes) (e : Bytes × Bytes)
    → check_parts allow kv (split_in_two b'=' kv) ≡ ok e
    → (kv ≡ print e) × IsEntry allow e
unfolding split_in_two
check_parts_sound allow kv (k, v) h = elim (Option-cases (cut b'=' kv)) [
  | inl e ↦ unfold check_parts in cc (rw (e, split_in_two) at h)
  | inr ((k', v'), e) ↦
      let (ek, ev, hk, hv) = check_two_sound allow kv k v k' v' (rw (e, split_in_two) at h) in
      let (es, lacks) = cut_sound b'=' kv k' v' e in
      ((rw (← ek, ← ev) es), (hk, (rw (← ek) lacks), hv))
]

pub check_parts_complete :
    (allow : Bool) (e : Bytes × Bytes)
    → IsEntry allow e
    → check_parts allow (print e) (split_in_two b'=' (print e)) ≡ ok e
unfolding split_in_two
check_parts_complete allow (k, v) h =
    rw (cut_complete b'=' k v h.1, split_in_two)
      (check_two_complete allow (print (k, v)) k v h.0 h.2)

insert-fresh :
    (k v : Bytes) (m : Map Bytes Bytes) → lookup k m ≡ none → insert k v m ≡ m ++ (k, v) ∷ []
unfolding insert lookup
insert-fresh k v [] h = refl
insert-fresh k v ((j, w) ∷ m) h = elim (Bool-cases (j == k)) [
  | inl same ↦ ground arith
  | inr other ↦ rw other (ap (λ l. (j, w) ∷ l) (insert-fresh k v m (ground arith)))
]

store_sound :
    (k v : Bytes) (m n : Map Bytes Bytes)
    → store (k, v) m ≡ ok n
    → (lookup k m ≡ none) × (n ≡ m ++ (k, v) ∷ [])
unfolding store
store_sound k v m n h = ground (arith, insert-fresh k v m)

store_complete :
    (k v : Bytes) (m : Map Bytes Bytes) → lookup k m ≡ none → store (k, v) m ≡ ok (m ++ (k, v) ∷ [])
unfolding store
store_complete k v m h = ground (arith, insert-fresh k v m)

absent-append :
    (j k v : Bytes) (m es : Map Bytes Bytes) → lookup j (m ++ (k, v) ∷ es) ≡ none → (k == j) ≡ false
unfolding lookup
absent-append j k v [] es h = ground arith
absent-append j k v ((i, w) ∷ m) es h = absent-append j k v m es (ground arith)

lookup-append_none :
    (k v : Bytes) (m es : Map Bytes Bytes) → IsMap (m ++ (k, v) ∷ es) → lookup k m ≡ none
unfolding lookup
lookup-append_none k v [] es h = refl
lookup-append_none k v ((j, w) ∷ m) es h = ground (
  arith,
  absent-append j k v m es h.0,
  lookup-append_none k v m es h.1,
  bytes_beq_iff j k,
  bytes_beq_iff k j,
)

parse_from_sound :
    (allow : Bool) (src : List Bytes) (m n : Map Bytes Bytes)
    → IsMap m
    → parse_from allow src m ≡ ok n
    → (es : Map Bytes Bytes) × (n ≡ m ++ es)
      × IsMap n
      × All (IsEntry allow) es
      × (src ≡ map print es)
unfolding parse_from parse_one
parse_from_sound allow [] m n w h =
    let e : m ≡ n = ground arith in
    ([], sym e ∙ sym (append-nil m), subst (λ l. IsMap l) e w, tt, refl)
parse_from_sound allow (kv ∷ src) m n w h =
    let (m', h1, h2) = bind_ok (parse_one allow kv m) (parse_from allow src) h in
    let ((k, v), h3, h4) =
      bind_ok (check_parts allow kv (split_in_two b'=' kv)) (λ e. store e m) h1 in
    let (fresh, grown) = store_sound k v m m' h4 in
    let (printed, valid) = check_parts_sound allow kv (k, v) h3 in
    let (es, e1, w1, all, e2) =
      parse_from_sound allow src m' n
        (subst (λ l. IsMap l) (insert-fresh k v m fresh ∙ sym grown) (insert-IsMap k v m w)) h2 in
    (
      (k, v) ∷ es,
      (e1 ∙ ap (λ l. l ++ es) grown ∙ append_assoc m ((k, v) ∷ []) es),
      w1,
      (valid, all),
      ap₂ ◌∷◌ printed e2,
    )

parse_from_complete :
    (allow : Bool) (es m : Map Bytes Bytes)
    → IsMap (m ++ es)
    → All (IsEntry allow) es
    → parse_from allow (map print es) m ≡ ok (m ++ es)
unfolding parse_from parse_one
parse_from_complete allow [] m w a = ap ok (sym (append-nil m))
parse_from_complete allow ((k, v) ∷ es) m w a =
    rw (check_parts_complete allow (k, v) a.0, store_complete k v m (lookup-append_none k v m es w))
      (parse_from_complete allow es (m ++ (k, v) ∷ [])
          (subst (λ l. IsMap l) (sym (append_assoc m ((k, v) ∷ []) es)) w) a.1
        ∙ ap ok (append_assoc m ((k, v) ∷ []) es))

-- `Parse` returns a map exactly when the arguments are the printed entries of that map, in order:
-- distinct keys that are not empty and hold no `=`, and values that the flag allows.
pub parse_iff :
    (src : List Bytes) (allow : Bool) (m : Map Bytes Bytes)
    → (parse src allow ≡ ok m) ↔ (IsMap m × All (IsEntry allow) m × (src ≡ map print m))
unfolding parse
parse_iff src allow m = (
  λ h.
      let (es, e, w, all, printed) = parse_from_sound allow src [] m tt h in
      (w, subst (λ l. All (IsEntry allow) l) (sym e) all, printed ∙ ap (map print) (sym e)),
  λ h. rw h.2 (parse_from_complete allow m [] h.0 h.1),
)
