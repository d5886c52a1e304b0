-- ===== src/Rasvn/Parse/Known.antt =====
-- The maps that parsers of src/rasvn/parse.rs return: `parse_proplist` and
-- `parse_mergeinfo_catalog`.
use svn.Base.{
  ◌≡◌, refl, ap, ◌∙◌, Bytes, bytes_eq, if◌then◌else◌, Option, none, some, map, subst, List, [], ◌∷◌,
  Result, ok, err, ◌>>=◌,
}
use svn.Base.Maps.{find}
use svn.Base.Utf8.{from_utf8}
use svn.Types.{PropertyList, MergeInfoCatalog, insert_prop}
use svn.Types.Sorted.{IsSorted, insert_prop-IsSorted, over, over_assoc, none-over, find-insert_prop}
use svn.Rasvn.Item.{
  SvnItem, list, string, items, to_list-items, as_string, as_list, as_bytes_string,
}
use svn.Rasvn.Edit.Decode.{push_prop, push_props, parse_proplist}
use svn.Rasvn.Parse.Scalar.{trim_slashes}
use svn.Rasvn.Parse.Entry.{push_mergeinfo, push_mergeinfos, parse_mergeinfo_catalog}

-- What holds of a result where there is one.
abbrev pub Always {ℓ κ} : {A : Type ℓ} → (A → Type κ) → Result A → Type κ
Always P (ok a) = P a
Always P (err e) = Unit

pub bind-Always {ℓ κ ι} :
    {A : Type ℓ} {B : Type κ} (P : B → Type ι) (m : Result A) (f : A → Result B)
    → ((a : A) → Always P (f a))
    → Always P (m >>= f)
bind-Always P (ok a) f h = h a
bind-Always P (err e) f h = tt

pub Always-ok {ℓ κ} :
    {A : Type ℓ} (P : A → Type κ) (m : Result A) {a : A} → Always P m → m ≡ ok a → P a
Always-ok P m h e = subst (Always P) e h

-- What a name is bound to by the last of its pairs.
unfoldable pub last_value : Bytes → List (Bytes × Bytes) → Option Bytes
last_value name [] = none
last_value name ((k, v) ∷ rest) =
    over (if bytes_eq name k then some v else none) (last_value name rest)

-- A map in the order of its names, with the last value of each.
abbrev pub IsMapOf : List (Bytes × Bytes) → PropertyList → Type 0
IsMapOf entries m = IsSorted m × ((name : Bytes) → find name m ≡ last_value name entries)

abbrev pub pair_item : Bytes × Bytes → SvnItem
pair_item (name, value) = list (items (string name ∷ string value ∷ []))

abbrev pub HaveUtf8Names : List (Bytes × Bytes) → Type 0
HaveUtf8Names [] = Unit {0}
HaveUtf8Names ((name, value) ∷ rest) = (from_utf8 name ≡ some name) × HaveUtf8Names rest

abbrev pub HaveUtf8Values : List (Bytes × Bytes) → Type 0
HaveUtf8Values [] = Unit {0}
HaveUtf8Values ((name, value) ∷ rest) = (from_utf8 value ≡ some value) × HaveUtf8Values rest

insert_all : PropertyList → List (Bytes × Bytes) → PropertyList
insert_all m [] = m
insert_all m ((k, v) ∷ rest) = insert_all (insert_prop k v m) rest

find-insert_all :
    (name : Bytes) (m : PropertyList) (entries : List (Bytes × Bytes))
    → find name (insert_all m entries) ≡ over (find name m) (last_value name entries)
unfolding insert_all last_value
find-insert_all name m [] = refl
find-insert_all name m ((k, v) ∷ rest) =
    find-insert_all name (insert_prop k v m) rest
    ∙ ap (λ (o : Option Bytes). over o (last_value name rest)) (find-insert_prop name k v m)
    ∙ over_assoc (find name m) (if bytes_eq name k then some v else none) (last_value name rest)

push_props-pair_item :
    (m : PropertyList) (entries : List (Bytes × Bytes))
    → HaveUtf8Names entries
    → push_props m (map pair_item entries) ≡ ok (insert_all m entries)
unfolding push_props push_prop insert_all as_list as_string as_bytes_string
push_props-pair_item m [] h = refl
push_props-pair_item m ((k, v) ∷ rest) (h, hs) =
    rw h (push_props-pair_item (insert_prop k v m) rest hs)

abbrev pub trim_name : Bytes × Bytes → Bytes × Bytes
trim_name (path, value) = (trim_slashes path, value)

push_mergeinfos-pair_item :
    (m : MergeInfoCatalog) (entries : List (Bytes × Bytes))
    → HaveUtf8Names entries
    → HaveUtf8Values entries
    → push_mergeinfos m (map pair_item entries) ≡ ok (insert_all m (map trim_name entries))
unfolding push_mergeinfos push_mergeinfo insert_all as_list as_string
push_mergeinfos-pair_item m [] h h' = refl
push_mergeinfos-pair_item m ((k, v) ∷ rest) (h, hs) (h', hs') =
    rw h (rw h' (push_mergeinfos-pair_item (insert_prop (trim_slashes k) v m) rest hs hs'))

insert_all-IsSorted :
    (m : PropertyList) (entries : List (Bytes × Bytes))
    → IsSorted m
    → IsSorted (insert_all m entries)
unfolding insert_all
insert_all-IsSorted m [] h = h
insert_all-IsSorted m ((k, v) ∷ rest) h =
    insert_all-IsSorted (insert_prop k v m) rest (insert_prop-IsSorted k v m h)

insert_all-IsMapOf : (entries : List (Bytes × Bytes)) → IsMapOf entries (insert_all [] entries)
unfolding find
insert_all-IsMapOf entries = (
  insert_all-IsSorted [] entries tt,
  λ name. find-insert_all name [] entries ∙ none-over (last_value name entries),
)

-- The property list that is parsed from pairs of strings, and the catalog of merge info, are the
-- maps of these pairs, where all names (and the merge info itself) are UTF-8: each name has the
-- value of its last pair and no other name has one, the paths of the catalog without their leading
-- slashes, and the names are strictly increasing.
pub parse_proplist-IsMapOf :
    (entries merges : List (Bytes × Bytes)) (rest : List SvnItem)
    → HaveUtf8Names entries
    → HaveUtf8Names merges
    → HaveUtf8Values merges
    → ((props : PropertyList) × (parse_proplist (list (items (map pair_item entries))) ≡ ok props)
        × IsMapOf entries props)
      × ((catalog : MergeInfoCatalog) × (parse_mergeinfo_catalog
              (list (items (map pair_item merges)) ∷ rest)
            ≡ ok catalog)
          × IsMapOf (map trim_name merges) catalog)
unfolding parse_proplist parse_mergeinfo_catalog as_list
parse_proplist-IsMapOf entries merges rest h h' h'' = (
  (
    insert_all [] entries,
    ap (push_props []) (to_list-items (map pair_item entries)) ∙ push_props-pair_item [] entries h,
    insert_all-IsMapOf entries,
  ),
  (
    insert_all [] (map trim_name merges),
    ap (push_mergeinfos []) (to_list-items (map pair_item merges))
        ∙ push_mergeinfos-pair_item [] merges h' h'',
    insert_all-IsMapOf (map trim_name merges),
  ),
)
