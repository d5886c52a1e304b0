-- ===== src/Tests/Paths.antt =====
-- Paths canonicalized.
use svn.Base.{◌≡◌, refl, [], ◌∷◌, ◌⊎◌, Bytes, true, ok}
use svn.Path.{canonicalize_rel_path}
use svn.Path.Canonical.{Joined, canonicalize_rel_path-Joined}
use svn.Path.Canonical.Again.{canonicalize_rel_path_idem}

-- The path "\a//./b c/".
abbrev messy : Bytes
messy = 92 ∷ 97 ∷ 47 ∷ 47 ∷ 46 ∷ 47 ∷ 98 ∷ 32 ∷ 99 ∷ 47 ∷ []

abbrev tidy : Bytes
tidy = 97 ∷ 47 ∷ 98 ∷ 32 ∷ 99 ∷ []

messy_accepted : canonicalize_rel_path messy true ≡ ok tidy
unfolding canonicalize_rel_path
messy_accepted = refl

canonicalize_rel_path-Joined_example : ((tidy ≡ []) × (true ≡ true)) ⊎ Joined tidy
canonicalize_rel_path-Joined_example = canonicalize_rel_path-Joined messy tidy true messy_accepted

canonicalize_rel_path_idem_example : canonicalize_rel_path tidy true ≡ ok tidy
canonicalize_rel_path_idem_example = canonicalize_rel_path_idem messy tidy true messy_accepted
