-- ===== src/Rasvn/Parse/Dirent.antt =====
-- The paths and names of `parse_list_dirent` (src/rasvn/parse.rs).
use svn.Base.{
  ℕ, ◌≡◌, refl, ap, ◌∙◌, append_assoc, append-nil, List, [], ◌∷◌, ◌++◌, Bytes, Bool, true, false,
  ◌==◌, if◌then◌else◌, get_elem?, some, ok, ok_or, ◌⊎◌, inl, inr, arith, sym, subst,
}
use svn.Types.Answers.{DirEntry}
use svn.Rasvn.Item.{SvnItem, as_string}
use svn.Rasvn.Parse.Scalar.{
  trim_slashes, parse_optional_string, parse_optional_u64, parse_optional_bool,
  parse_optional_wordish,
}
use svn.Rasvn.Parse.Known.{Always, bind-Always, Always-ok}
use svn.Rasvn.Parse.Dir.{base_name, parse_list_dirent}

abbrev pub HasNoSlash : Bytes → Type 0
HasNoSlash [] = Unit
HasNoSlash (b ∷ bs) = ((b == 47) ≡ false) × HasNoSlash bs

abbrev pub IsRelative : Bytes → Type 0
IsRelative [] = Unit
IsRelative (b ∷ bs) = (b == 47) ≡ false

-- A name without slashes is the whole path, or what stands behind a slash of it.
abbrev pub IsNameOf : Bytes → Bytes → Type 0
IsNameOf path name = (path ≡ name) ⊎ ((dir : Bytes) × (path ≡ dir ++ (47 ∷ name)))

trim_slashes-IsRelative : (bs : Bytes) → IsRelative (trim_slashes bs)
unfolding trim_slashes
trim_slashes-IsRelative [] = tt
trim_slashes-IsRelative (b ∷ bs) = by_test (b == 47) (λ e. e) (trim_slashes-IsRelative bs)
  where
    by_test :
        (slash : Bool)
        → (slash ≡ false → (b == 47) ≡ false)
        → IsRelative (trim_slashes bs)
        → IsRelative (if slash then trim_slashes bs else b ∷ bs)
    by_test true h rest = rest
    by_test false h rest = h refl

HasNoSlash-snoc :
    (xs : Bytes) (b : ℕ) → HasNoSlash xs → (b == 47) ≡ false → HasNoSlash (xs ++ (b ∷ []))
HasNoSlash-snoc [] b h e = (e, tt)
HasNoSlash-snoc (x ∷ xs) b (e', h) e = (e', HasNoSlash-snoc xs b h e)

base_name-HasNoSlash : (seg bs : Bytes) → HasNoSlash seg → HasNoSlash (base_name seg bs)
unfolding base_name
base_name-HasNoSlash seg [] h = h
base_name-HasNoSlash seg (b ∷ bs) h =
    by_test (b == 47) (λ e. e) (base_name-HasNoSlash [] bs tt)
      (base_name-HasNoSlash (seg ++ (b ∷ [])) bs)
  where
    by_test :
        (slash : Bool)
        → (slash ≡ false → (b == 47) ≡ false)
        → HasNoSlash (base_name [] bs)
        → (HasNoSlash (seg ++ (b ∷ [])) → HasNoSlash (base_name (seg ++ (b ∷ [])) bs))
        → HasNoSlash (if slash then base_name [] bs else base_name (seg ++ (b ∷ [])) bs)
    by_test true e here there = here
    by_test false e here there = there (HasNoSlash-snoc seg b h (e refl))

base_name-IsNameOf : (seg bs : Bytes) → IsNameOf (seg ++ bs) (base_name seg bs)
unfolding base_name
base_name-IsNameOf seg [] = inl (append-nil seg)
base_name-IsNameOf seg (b ∷ bs) =
    by_test (b == 47) (slash_eq b) (base_name-IsNameOf [] bs)
      (base_name-IsNameOf (seg ++ (b ∷ [])) bs)
  where
    slash_eq : (b : ℕ) → (b == 47) ≡ true → b ≡ 47
    slash_eq b h = ground arith

    by_test :
        (slash : Bool)
        → (slash ≡ true → b ≡ 47)
        → IsNameOf bs (base_name [] bs)
        → IsNameOf ((seg ++ (b ∷ [])) ++ bs) (base_name (seg ++ (b ∷ [])) bs)
        → IsNameOf
            (seg ++ (b ∷ bs))
            (if slash then base_name [] bs else base_name (seg ++ (b ∷ [])) bs)
    by_test true h (inl e) there = inr (
      seg,
      ap (λ (t : Bytes). seg ++ (b ∷ t)) e ∙ ap (λ n. seg ++ (n ∷ base_name [] bs)) (h refl),
    )
    by_test true h (inr (dir, e)) there = inr (
      seg ++ (b ∷ dir),
      ap (λ (t : Bytes). seg ++ (b ∷ t)) e
          ∙ sym (append_assoc seg (b ∷ dir) (47 ∷ base_name [] bs)),
    )
    by_test false h here there =
        subst (λ (t : Bytes). IsNameOf t (base_name (seg ++ (b ∷ [])) bs))
          (append_assoc seg (b ∷ []) bs) there

IsGood : DirEntry → Type 0
IsGood entry = IsRelative entry.path × HasNoSlash entry.name × IsNameOf entry.path entry.name

parse_list_dirent-Always : (fields : List SvnItem) → Always IsGood (parse_list_dirent fields)
unfolding parse_list_dirent IsGood
parse_list_dirent-Always [] = tt
parse_list_dirent-Always (p ∷ []) = tt
parse_list_dirent-Always (p ∷ k ∷ rest) = bind-Always IsGood (ok_or _ (as_string p)) _ λ path.
    bind-Always IsGood (parse_optional_wordish (some k) _) _ λ kind_field.
      bind-Always IsGood (ok_or _ kind_field) _ λ kind_word.
        bind-Always IsGood (parse_optional_u64 (get_elem? rest 0) _) _ λ size.
          bind-Always IsGood (parse_optional_bool (get_elem? rest 1) _) _ λ has_props.
            bind-Always IsGood (parse_optional_u64 (get_elem? rest 2) _) _ λ created_rev.
              bind-Always IsGood (parse_optional_string (get_elem? rest 3) _) _ λ created_date.
                bind-Always IsGood (parse_optional_string (get_elem? rest 4) _) _ λ last_author. (
                  trim_slashes-IsRelative path,
                  base_name-HasNoSlash [] (trim_slashes path) tt,
                  base_name-IsNameOf [] (trim_slashes path),
                )

-- Every entry that `parse_list_dirent` returns, for an answer to the `list` command, has a path that
-- does not start with a slash, and the name is the part of that path behind its last slash.
pub parse_list_dirent-IsRelative :
    (fields : List SvnItem) (entry : DirEntry)
    → parse_list_dirent fields ≡ ok entry
    → IsRelative entry.path × HasNoSlash entry.name × IsNameOf entry.path entry.name
unfolding IsGood
parse_list_dirent-IsRelative fields entry e =
    Always-ok IsGood (parse_list_dirent fields) (parse_list_dirent-Always fields) e
