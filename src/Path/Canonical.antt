-- ===== src/Path/Canonical.antt =====
-- What `canonicalize_rel_path` (src/path.rs) returns.
pub mod Again
use svn.Base.{
  subst, ℕ, ◌≡◌, refl, sym, ap, ◌∙◌, arith, List, [], ◌∷◌, ◌++◌, append_assoc, append-nil, Bytes,
  bytes_eq, text, Bool, true, false, ◌||◌, ◌==◌, Bool-cases, Result-cases, inl, inr, if◌then◌else◌,
  Result, ok, err, ◌⊎◌,
}
use svn.Path.{
  is_separator, trim_start, trim_end, contains_nul, split, push_part, collect_parts, join,
  any_left_out, contains_backslash, empty_path, join_parts, canonicalize_trimmed,
  canonicalize_rel_path,
}

unfoldable pub has_separator : Bytes → Bool
has_separator [] = false
has_separator (b ∷ bs) = is_separator b || has_separator bs

-- A segment that may stand in a canonical path.
pub record IsSegment (seg : Bytes) : Type 0 where
  pub not_empty : bytes_eq seg [] ≡ false
  pub not_dot : bytes_eq seg (text ".") ≡ false
  pub not_dot_dot : bytes_eq seg (text "..") ≡ false
  pub one_segment : has_separator seg ≡ false
  pub no_nul : contains_nul seg ≡ false

abbrev pub All {ℓ κ} : {A : Type ℓ} → (A → Type κ) → List A → Type κ
All P [] = Unit
All P (x ∷ xs) = P x × All P xs

-- What splitting leaves in every segment.
abbrev pub IsPlain : Bytes → Type 0
IsPlain seg = (has_separator seg ≡ false) × (contains_nul seg ≡ false)

snoc-IsPlain :
    (seg : Bytes) (b : ℕ)
    → IsPlain seg
    → is_separator b ≡ false
    → (b == 0) ≡ false
    → IsPlain (seg ++ (b ∷ []))
unfolding has_separator contains_nul
snoc-IsPlain [] b (s, n) p q = ground arith
snoc-IsPlain (x ∷ xs) b (s, n) p q = ground (arith, snoc-IsPlain xs b)

split_separator :
    (seg : Bytes) (b : ℕ) (bs : Bytes)
    → is_separator b ≡ true
    → split seg (b ∷ bs) ≡ seg ∷ split [] bs
unfolding split
split_separator seg b bs e = ground arith

split_other :
    (seg : Bytes) (b : ℕ) (bs : Bytes)
    → is_separator b ≡ false
    → split seg (b ∷ bs) ≡ split (seg ++ (b ∷ [])) bs
unfolding split
split_other seg b bs e = ground arith

nul_parts :
    (b : ℕ) (bs : Bytes)
    → contains_nul (b ∷ bs) ≡ false
    → ((b == 0) ≡ false) × (contains_nul bs ≡ false)
unfolding contains_nul
nul_parts b bs h = ground arith

split-IsPlain :
    (seg bs : Bytes) → IsPlain seg → contains_nul bs ≡ false → All IsPlain (split seg bs)
split-IsPlain seg [] h n = unfold split in (h, tt)
split-IsPlain seg (b ∷ bs) h n =
    let (not_nul, n') = nul_parts b bs n in
    elim (Bool-cases (is_separator b)) [
      | inl e ↦
          subst (All IsPlain) (sym (split_separator seg b bs e))
            (h, split-IsPlain [] bs (unfold has_separator contains_nul in (refl, refl)) n')
      | inr e ↦
          subst (All IsPlain) (sym (split_other seg b bs e))
            (split-IsPlain (seg ++ (b ∷ [])) bs (snoc-IsPlain seg b h e not_nul) n')
    ]

push_part-eq-ok :
    (seg : Bytes) (r : Result (List Bytes)) (parts : List Bytes)
    → push_part seg r ≡ ok parts
    → (rest : List Bytes) × (r ≡ ok rest) × (seg ∷ rest ≡ parts)
unfolding push_part
push_part-eq-ok seg (ok rest) parts h = (rest, refl, cc h)
push_part-eq-ok seg (err e) parts h = cc

-- A segment that is not left out is not `..`, and comes first.
kept_lem :
    (seg : Bytes) (segs parts : List Bytes)
    → bytes_eq seg [] || bytes_eq seg (text ".") ≡ false
    → collect_parts (seg ∷ segs) ≡ ok parts
    → (bytes_eq seg (text "..") ≡ false)
      × ((rest : List Bytes) × (collect_parts segs ≡ ok rest) × (seg ∷ rest ≡ parts))
unfolding collect_parts
kept_lem seg segs parts kept e = elim (Bool-cases (bytes_eq seg (text ".."))) [
  | inl up ↦ absurd (cc (rw (kept, up) at e))
  | inr fine ↦ (fine, push_part-eq-ok seg (collect_parts segs) parts (rw (kept, fine) at e))
]

left_out_lem :
    (seg : Bytes) (segs : List Bytes)
    → bytes_eq seg [] || bytes_eq seg (text ".") ≡ true
    → collect_parts (seg ∷ segs) ≡ collect_parts segs
unfolding collect_parts
left_out_lem seg segs skip = rw skip refl

neither : (a b : Bool) → a || b ≡ false → (a ≡ false) × (b ≡ false)
neither a b h = ground arith

-- The segments that are kept are neither empty nor `.` nor `..`.
collect_parts-IsSegment :
    (segs parts : List Bytes)
    → All IsPlain segs
    → collect_parts segs ≡ ok parts
    → All IsSegment parts
collect_parts-IsSegment [] parts h e =
    let p : [] ≡ parts = unfold collect_parts in cc e in subst (All IsSegment) p tt
collect_parts-IsSegment (seg ∷ segs) parts ((one, nul), plain) e =
    elim (Bool-cases (bytes_eq seg [] || bytes_eq seg (text "."))) [
      | inl skip ↦ collect_parts-IsSegment segs parts plain (sym (left_out_lem seg segs skip) ∙ e)
      | inr kept ↦
          let (fine, (rest, r, p)) = kept_lem seg segs parts kept e in
          let (full, no_dot) = neither (bytes_eq seg []) (bytes_eq seg (text ".")) kept in
          let here : IsSegment seg = record {
            not_empty = full;
            not_dot = no_dot;
            not_dot_dot = fine;
            one_segment = one;
            no_nul = nul;
          } in
          subst (All IsSegment) p (here, collect_parts-IsSegment segs rest plain r)
    ]

split-cons :
    (seg bs : Bytes) → (first : Bytes) × (segs : List Bytes) × (split seg bs ≡ first ∷ segs)
split-cons seg [] = (seg, [], unfold split in refl)
split-cons seg (b ∷ bs) = elim (Bool-cases (is_separator b)) [
  | inl e ↦ (seg, split [] bs, split_separator seg b bs e)
  | inr e ↦
      let (first, segs, h) = split-cons (seg ++ (b ∷ [])) bs in
      (first, segs, split_other seg b bs e ∙ h)
]

join-cons : (p q : Bytes) (ps : List Bytes) → join (p ∷ q ∷ ps) ≡ p ++ (47 ∷ join (q ∷ ps))
unfolding join
join-cons p q ps = refl

slash_only :
    (b : ℕ) (bs : Bytes)
    → contains_backslash (b ∷ bs) ≡ false
    → is_separator b ≡ true
    → (b ≡ 47) × (contains_backslash bs ≡ false)
unfolding contains_backslash
slash_only b bs h e = ground arith

later_backslash :
    (b : ℕ) (bs : Bytes) → contains_backslash (b ∷ bs) ≡ false → contains_backslash bs ≡ false
unfolding contains_backslash
later_backslash b bs h = ground arith

-- Joining what was split at `/` gives the text back.
join-split : (seg bs : Bytes) → contains_backslash bs ≡ false → join (split seg bs) ≡ seg ++ bs
join-split seg [] h = unfold join split in sym (append-nil seg)
join-split seg (b ∷ bs) h = elim (Bool-cases (is_separator b)) [
  | inl e ↦
      let (slash, h') = slash_only b bs h e in
      let (first, segs, c) = split-cons [] bs in
      ap join (split_separator seg b bs e ∙ ap (λ t. seg ∷ t) c)
      ∙ join-cons seg first segs
      ∙ ap (λ t. seg ++ (47 ∷ t)) (ap join (sym c) ∙ join-split [] bs h')
      ∙ ap (λ t. seg ++ (t ∷ bs)) (sym slash)
  | inr e ↦
      ap join (split_other seg b bs e)
      ∙ join-split (seg ++ (b ∷ [])) bs (later_backslash b bs h)
      ∙ append_assoc seg (b ∷ []) bs
]

-- Where no segment is left out, the parts are all the segments.
collect_parts-all :
    (segs parts : List Bytes)
    → any_left_out segs ≡ false
    → collect_parts segs ≡ ok parts
    → segs ≡ parts
collect_parts-all [] parts h e = unfold collect_parts in cc e
collect_parts-all (seg ∷ segs) parts h e =
    let (kept, h') =
      neither (bytes_eq seg [] || bytes_eq seg (text ".")) (any_left_out segs)
        (unfold any_left_out in h) in
    let (fine, (rest, r, p)) = kept_lem seg segs parts kept e in
    ap (λ t. seg ∷ t) (collect_parts-all segs rest h' r) ∙ p

-- The result on a trimmed text that is not empty.
abbrev pub Joined : Bytes → Type 0
Joined p =
    (first : Bytes) × (rest : List Bytes) × (p ≡ join (first ∷ rest)) × All IsSegment (first ∷ rest)

join_parts-Joined :
    (allow_empty needs_alloc : Bool) (trimmed : Bytes) (r : Result (List Bytes)) (p : Bytes)
    → ((parts : List Bytes) → r ≡ ok parts → All IsSegment parts)
    → (needs_alloc ≡ false → (parts : List Bytes) → r ≡ ok parts → trimmed ≡ join parts)
    → join_parts allow_empty trimmed needs_alloc r ≡ ok p
    → ((p ≡ []) × (allow_empty ≡ true)) ⊎ Joined p
unfolding join_parts
join_parts-Joined allow_empty needs_alloc trimmed (err e) p sound same h = absurd (cc h)
join_parts-Joined true needs_alloc trimmed (ok []) p sound same h = inl (sym (cc h), refl)
join_parts-Joined false needs_alloc trimmed (ok []) p sound same h = absurd (cc h)
join_parts-Joined allow_empty true trimmed (ok (x ∷ xs)) p sound same h =
    inr (x, xs, sym (cc h), sound (x ∷ xs) refl)
join_parts-Joined allow_empty false trimmed (ok (x ∷ xs)) p sound same h =
    let q : trimmed ≡ p = cc h in inr (x, xs, sym q ∙ same refl (x ∷ xs) refl, sound (x ∷ xs) refl)

canonicalize_trimmed-Joined :
    (allow_empty : Bool) (trimmed p : Bytes)
    → canonicalize_trimmed allow_empty trimmed ≡ ok p
    → ((p ≡ []) × (allow_empty ≡ true)) ⊎ Joined p
unfolding canonicalize_trimmed
canonicalize_trimmed-Joined true [] p h = inl (sym (cc h), refl)
canonicalize_trimmed-Joined false [] p h = absurd (cc h)
canonicalize_trimmed-Joined allow_empty (b ∷ bs) p h = elim (Bool-cases (contains_nul (b ∷ bs))) [
  | inl nul ↦ absurd (cc (rw nul at h))
  | inr none ↦
      let segs = split [] (b ∷ bs) in
      let plain =
        split-IsPlain [] (b ∷ bs) (unfold has_separator contains_nul in (refl, refl)) none in
      join_parts-Joined allow_empty (contains_backslash (b ∷ bs) || any_left_out segs) (b ∷ bs)
        (collect_parts segs) p (λ parts e. collect_parts-IsSegment segs parts plain e)
        (λ plainly parts e.
          let (slashes, all) = neither (contains_backslash (b ∷ bs)) (any_left_out segs) plainly in
          sym (join-split [] (b ∷ bs) slashes) ∙ ap join (collect_parts-all segs parts all e))
        (rw none at h)
]

-- A path that is accepted is empty, and only where that is allowed, or it is segments joined by
-- single `/`: none is empty, `.` or `..`, and none has a `/`, a `\` or a NUL in it.
pub canonicalize_rel_path-Joined :
    (path p : Bytes) (allow_empty : Bool)
    → canonicalize_rel_path path allow_empty ≡ ok p
    → ((p ≡ []) × (allow_empty ≡ true)) ⊎ Joined p
unfolding canonicalize_rel_path
canonicalize_rel_path-Joined path p allow_empty h =
    canonicalize_trimmed-Joined allow_empty (trim_end (trim_start path)) p h
