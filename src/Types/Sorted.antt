-- ===== src/Types/Sorted.antt =====
-- `BTreeMap`s of strings (src/types.rs): their keys are strictly increasing.
use svn.Base.{
  ap, ◌∙◌, Bool-cases, inl, inr, Option, none, some, ◌≡◌, refl, sym, subst, arith, [], ◌∷◌, Bytes,
  bytes_eq, bytes_eq→eq, Bool, true, false, if◌then◌else◌,
}
use svn.Base.Maps.{find}
use svn.Types.{PropertyList, bytes_lt, insert_prop}

-- Every pair of neighbours is in order.
abbrev pub Above : Bytes → PropertyList → Type 0
Above k [] = Unit
Above k ((k', v) ∷ rest) = bytes_lt k k' ≡ true

abbrev pub IsSorted : PropertyList → Type 0
IsSorted [] = Unit
IsSorted ((k, v) ∷ rest) = Above k rest × IsSorted rest

-- Two strings of which neither is the other nor before it.
bytes_lt_total :
    (xs ys : Bytes) → bytes_eq xs ys ≡ false → bytes_lt xs ys ≡ false → bytes_lt ys xs ≡ true
unfolding bytes_eq bytes_lt
bytes_lt_total [] [] ne nl = absurd (cc ne)
bytes_lt_total [] (y ∷ ys) ne nl = absurd (cc nl)
bytes_lt_total (x ∷ xs) [] ne nl = refl
bytes_lt_total (x ∷ xs) (y ∷ ys) ne nl = ground (arith, bytes_lt_total xs ys)

Above-insert_prop :
    (j k v : Bytes) (m : PropertyList)
    → bytes_lt j k ≡ true
    → Above j m
    → Above j (insert_prop k v m)
unfolding insert_prop
Above-insert_prop j k v [] lt above = lt
Above-insert_prop j k v ((k', v') ∷ rest) lt above = by_tests (bytes_eq k k') (bytes_lt k k')
  where
    by_tests :
        (same before : Bool)
        → Above j (
            if same
            then (k, v) ∷ rest
            else if before
            then (k, v) ∷ (k', v') ∷ rest
            else (k', v') ∷ insert_prop k v rest)
    by_tests true before = lt
    by_tests false true = lt
    by_tests false false = above

pub insert_prop-IsSorted :
    (k v : Bytes) (m : PropertyList) → IsSorted m → IsSorted (insert_prop k v m)
unfolding insert_prop
insert_prop-IsSorted k v [] sorted = (tt, tt)
insert_prop-IsSorted k v ((k', v') ∷ rest) (above, sorted) =
    by_tests (bytes_eq k k') (bytes_lt k k') (λ e. bytes_eq→eq k k' e) (λ e. e)
      (λ ne nl. bytes_lt_total k k' ne nl) (insert_prop-IsSorted k v rest sorted)
  where
    by_tests :
        (same before : Bool)
        → (same ≡ true → k ≡ k')
        → (before ≡ true → bytes_lt k k' ≡ true)
        → (same ≡ false → before ≡ false → bytes_lt k' k ≡ true)
        → IsSorted (insert_prop k v rest)
        → IsSorted (
            if same
            then (k, v) ∷ rest
            else if before
            then (k, v) ∷ (k', v') ∷ rest
            else (k', v') ∷ insert_prop k v rest)
    by_tests true before eq lt gt later = (subst (λ t. Above t rest) (sym (eq refl)) above, sorted)
    by_tests false true eq lt gt later = (lt refl, (above, sorted))
    by_tests false false eq lt gt later =
        (Above-insert_prop k' k v rest (gt refl refl) above, later)

-- A value, and a later one where there is one.
abbrev pub over : Option Bytes → Option Bytes → Option Bytes
over earlier none = earlier
over earlier (some v) = some v

pub over_assoc : (a b c : Option Bytes) → over (over a b) c ≡ over a (over b c)
over_assoc a b none = refl
over_assoc a b (some v) = refl

pub none-over : (o : Option Bytes) → over none o ≡ o
none-over none = refl
none-over (some v) = refl

differs : (j k k' : Bytes) → bytes_eq k k' ≡ false → bytes_eq j k' ≡ true → bytes_eq j k ≡ false
differs j k k' other here = elim (Bool-cases (bytes_eq j k)) [
  | inr ne ↦ ne
  | inl eq ↦
      absurd (cc (sym other ∙ ap (λ (t : Bytes). bytes_eq t k') (sym (bytes_eq→eq j k eq)) ∙ here))
]

-- `get` behind `insert`: the new value of the name, and the old one of any other.
pub find-insert_prop :
    (j k v : Bytes) (m : PropertyList)
    → find j (insert_prop k v m) ≡ over (find j m) (if bytes_eq j k then some v else none)
unfolding insert_prop find
find-insert_prop j k v [] = sym (none-over (if bytes_eq j k then some v else none))
find-insert_prop j k v ((k', v') ∷ rest) = elim (Bool-cases (bytes_eq k k')) [
  | inl same ↦
      rw same (replaced (bytes_eq j k) (bytes_eq j k') (ap (bytes_eq j) (bytes_eq→eq k k' same)))
  | inr other ↦ rw other (elim (Bool-cases (bytes_lt k k')) [
    | inl before ↦
        rw before (in_front (bytes_eq j k) (if bytes_eq j k' then some v' else find j rest))
    | inr behind ↦ rw behind (
        ap (λ (o : Option Bytes). if bytes_eq j k' then some v' else o)
          (find-insert_prop j k v rest)
        ∙ passed (bytes_eq j k) (bytes_eq j k') (differs j k k' other))
  ])
]
  where
    in_front :
        (jk : Bool) (o : Option Bytes)
        → (if jk then some v else o) ≡ over o (if jk then some v else none)
    in_front true o = refl
    in_front false o = refl

    replaced :
        (jk jk' : Bool)
        → jk ≡ jk'
        → (if jk then some v else find j rest)
          ≡ over (if jk' then some v' else find j rest) (if jk then some v else none)
    replaced true jk' e = refl
    replaced false true e = absurd (cc e)
    replaced false false e = refl

    passed :
        (jk jk' : Bool)
        → (jk' ≡ true → jk ≡ false)
        → (if jk' then some v' else over (find j rest) (if jk then some v else none))
          ≡ over (if jk' then some v' else find j rest) (if jk then some v else none)
    passed true true h = absurd (cc (h refl))
    passed false true h = refl
    passed jk false h = refl
