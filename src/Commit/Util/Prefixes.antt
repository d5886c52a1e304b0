-- ===== src/Commit/Util/Prefixes.antt =====
-- The directories that a commit makes sure of, in the order in which it opens them
-- (src/commit/util.rs).
use svn.Base.{
  ℕ, [], ◌∷◌, ◌++◌, List, Bytes, ◌==◌, none, some, Bool-cases, false, inl, inr, ◌≡◌, refl, sym, ap,
  ◌∙◌, append_assoc, append-nil,
}
use svn.Path.{join}
use svn.Commit.Util.{
  before_last, rsplit_dir, or_root, parent_dir, split, extend, prefixes_loop, dir_prefixes,
}

abbrev IsPart : Bytes → Type 0
IsPart [] = Unit {0}
IsPart (b ∷ bs) = ((b == 47) ≡ false) × IsPart bs

abbrev AreParts : List Bytes → Type 0
AreParts [] = Unit {0}
AreParts (p ∷ ps) = IsPart p × AreParts ps

IsPart-append : (p : Bytes) (b : ℕ) → IsPart p → (b == 47) ≡ false → IsPart (p ++ (b ∷ []))
IsPart-append [] b h e = (e, tt)
IsPart-append (c ∷ cs) b (h, hs) e = (h, IsPart-append cs b hs e)

split-AreParts : (part bs : Bytes) → IsPart part → AreParts (split part bs)
unfolding split
split-AreParts part [] h = (h, tt)
split-AreParts part (b ∷ bs) h = elim (Bool-cases (b == 47)) [
  | inl slash ↦ rw slash (h, split-AreParts [] bs tt)
  | inr other ↦ rw other (split-AreParts (part ++ (b ∷ [])) bs (IsPart-append part b h other))
]

rsplit_dir-part : (p : Bytes) → IsPart p → rsplit_dir p ≡ none
unfolding rsplit_dir before_last
rsplit_dir-part [] h = refl
rsplit_dir-part (b ∷ bs) (h, hs) = ap (before_last b) (rsplit_dir-part bs hs) ∙ rw h refl

rsplit_dir-append : (dir part : Bytes) → IsPart part → rsplit_dir (dir ++ (47 ∷ part)) ≡ some dir
unfolding rsplit_dir before_last
rsplit_dir-append [] part h = ap (before_last 47) (rsplit_dir-part part h)
rsplit_dir-append (c ∷ cs) part h = ap (before_last c) (rsplit_dir-append cs part h)

parent_dir-extend :
    (current part : Bytes) → IsPart part → parent_dir (extend current part) ≡ current
unfolding parent_dir extend
parent_dir-extend [] part h = ap or_root (rsplit_dir-part part h)
parent_dir-extend (c ∷ cs) part h = ap or_root (rsplit_dir-append (c ∷ cs) part h)

-- Each directory is in the one before it, and the first in `parent`.
abbrev pub AreNested : Bytes → List Bytes → Type 0
AreNested parent [] = Unit {0}
AreNested parent (dir ∷ dirs) = (parent_dir dir ≡ parent) × AreNested dir dirs

prefixes_loop-AreNested :
    (current : Bytes) (parts : List Bytes)
    → AreParts parts
    → AreNested current (prefixes_loop current parts)
unfolding prefixes_loop
prefixes_loop-AreNested current [] h = tt
prefixes_loop-AreNested current ([] ∷ parts) (h, hs) = prefixes_loop-AreNested current parts hs
prefixes_loop-AreNested current ((b ∷ bs) ∷ parts) (h, hs) = (
  parent_dir-extend current (b ∷ bs) h,
  prefixes_loop-AreNested (extend current (b ∷ bs)) parts hs,
)

nested : (dir : Bytes) → AreNested [] (dir_prefixes dir)
unfolding dir_prefixes
nested [] = tt
nested (b ∷ bs) = prefixes_loop-AreNested [] (split [] (b ∷ bs)) (split-AreParts [] (b ∷ bs) tt)

-- Parts that are not empty.
abbrev IsName : Bytes → Type 0
IsName [] = ⊥
IsName (b ∷ bs) = IsPart (b ∷ bs)

abbrev pub AreNames : List Bytes → Type 0
AreNames [] = Unit {0}
AreNames (p ∷ ps) = IsName p × AreNames ps

IsName-IsPart : (p : Bytes) → IsName p → IsPart p
IsName-IsPart [] h = elim h [ ]
IsName-IsPart (b ∷ bs) h = h

split-part : (seg part : Bytes) → IsPart part → split seg part ≡ (seg ++ part) ∷ []
unfolding split
split-part seg [] h = ap (λ (t : Bytes). t ∷ []) (sym (append-nil seg))
split-part seg (b ∷ bs) (h, hs) =
    rw h (
      split-part (seg ++ (b ∷ [])) bs hs
      ∙ ap (λ (t : Bytes). t ∷ []) (append_assoc seg (b ∷ []) bs))

split-slash :
    (seg part rest : Bytes)
    → IsPart part
    → split seg (part ++ (47 ∷ rest)) ≡ (seg ++ part) ∷ split [] rest
unfolding split
split-slash seg [] rest h = ap (λ (t : Bytes). t ∷ split [] rest) (sym (append-nil seg))
split-slash seg (b ∷ bs) rest (h, hs) = rw h (
    split-slash (seg ++ (b ∷ [])) bs rest hs
    ∙ ap (λ (t : Bytes). t ∷ split [] rest) (append_assoc seg (b ∷ []) bs))

split-join : (p : Bytes) (ps : List Bytes) → AreNames (p ∷ ps) → split [] (join (p ∷ ps)) ≡ p ∷ ps
unfolding join
split-join p [] (h, hs) = split-part [] p (IsName-IsPart p h)
split-join p (q ∷ qs) (h, hs) =
    split-slash [] p (join (q ∷ qs)) (IsName-IsPart p h)
    ∙ ap (λ (t : List Bytes). p ∷ t) (split-join q qs hs)

-- The last directory, or the one at the start.
abbrev pub last_from : Bytes → List Bytes → Bytes
last_from dir [] = dir
last_from dir (d ∷ ds) = last_from d ds

join-extend :
    (c : ℕ) (cs p : Bytes) (ps : List Bytes)
    → join (extend (c ∷ cs) p ∷ ps) ≡ join ((c ∷ cs) ∷ p ∷ ps)
unfolding join extend
join-extend c cs p [] = refl
join-extend c cs p (q ∷ qs) = append_assoc (c ∷ cs) (47 ∷ p) (47 ∷ join (q ∷ qs))

loop-last :
    (c : ℕ) (cs : Bytes) (ps : List Bytes)
    → AreNames ps
    → last_from (c ∷ cs) (prefixes_loop (c ∷ cs) ps) ≡ join ((c ∷ cs) ∷ ps)
unfolding prefixes_loop join
loop-last c cs [] h = refl
loop-last c cs ([] ∷ ps) (h, hs) = absurd h
loop-last c cs ((b ∷ bs) ∷ ps) (h, hs) =
    unfold extend in loop-last c (cs ++ (47 ∷ b ∷ bs)) ps hs ∙ join-extend c cs (b ∷ bs) ps

last : (parts : List Bytes) → AreNames parts → last_from [] (dir_prefixes (join parts)) ≡ join parts
unfolding dir_prefixes split
last [] h = unfold join in refl
last ([] ∷ ps) (h, hs) = absurd h
last ((b ∷ bs) ∷ ps) (h, hs) =
    opens (join ((b ∷ bs) ∷ ps)) (split-join (b ∷ bs) ps (h, hs)) ∙ loop-last b bs ps hs
  where
    opened : split [] [] ≡ (b ∷ bs) ∷ ps → Path (List Bytes) ([] ∷ []) ((b ∷ bs) ∷ ps)
    opened e = e

    opens :
        (dir : Bytes)
        → split [] dir ≡ (b ∷ bs) ∷ ps
        → last_from [] (dir_prefixes dir) ≡ last_from (b ∷ bs) (prefixes_loop (b ∷ bs) ps)
    opens [] e = absurd (cc (opened e))
    opens (d ∷ ds) e =
        unfold prefixes_loop extend in ap (λ (t : List Bytes). last_from [] (prefixes_loop [] t)) e

-- For a directory of non-empty parts joined by slashes, the directories that a commit makes sure
-- of are in an order in which they can be opened: the first is in the root, each later one in the
-- one before it, and the last is the directory itself.
pub dir_prefixes-AreNested :
    (parts : List Bytes)
    → AreNames parts
    → AreNested [] (dir_prefixes (join parts))
      × (last_from [] (dir_prefixes (join parts)) ≡ join parts)
dir_prefixes-AreNested parts h = (nested (join parts), last parts h)
