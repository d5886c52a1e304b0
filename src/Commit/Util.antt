-- ===== src/Commit/Util.antt =====
-- The directories on the way to a path (src/commit/util.rs).
pub mod Prefixes
pub mod Token
use svn.Base.{[], ◌∷◌, ◌++◌, List, Bytes, ◌==◌, if◌then◌else◌, Option, none, some, ℕ}

-- `rsplit_once('/')`, the part in front: from what it is behind the first byte.
unfoldable pub before_last : ℕ → Option Bytes → Option Bytes
before_last b none = if b == 47 then some [] else none
before_last b (some dir) = some (b ∷ dir)

unfoldable pub rsplit_dir : Bytes → Option Bytes
unfolding before_last
rsplit_dir [] = none
rsplit_dir (b ∷ bs) = before_last b (rsplit_dir bs)

abbrev pub or_root : Option Bytes → Bytes
or_root none = []
or_root (some dir) = dir

unfoldable pub parent_dir : Bytes → Bytes
unfolding rsplit_dir
parent_dir path = or_root (rsplit_dir path)

-- `split('/')`: the part collected so far, and what follows.
unfoldable pub split : Bytes → Bytes → List Bytes
split part [] = part ∷ []
split part (b ∷ bs) =
    let next = split [] bs in
    let longer = split (part ++ (b ∷ [])) bs in if b == 47 then part ∷ next else longer

-- A part behind the directory so far.
unfoldable pub extend : Bytes → Bytes → Bytes
extend [] part = part
extend (c ∷ cs) part = (c ∷ cs) ++ (47 ∷ part)

-- The loop over the parts, empty ones left out.
unfoldable pub prefixes_loop : Bytes → List Bytes → List Bytes
unfolding extend
prefixes_loop current [] = []
prefixes_loop current ([] ∷ parts) = prefixes_loop current parts
prefixes_loop current ((b ∷ bs) ∷ parts) =
    let next = extend current (b ∷ bs) in next ∷ prefixes_loop next parts

unfoldable pub dir_prefixes : Bytes → List Bytes
unfolding split prefixes_loop
dir_prefixes [] = []
dir_prefixes (b ∷ bs) = prefixes_loop [] (split [] (b ∷ bs))
