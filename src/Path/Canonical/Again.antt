-- ===== src/Path/Canonical/Again.antt =====
-- A canonical path (src/path.rs) canonicalized again.
use svn.Base.{
  subst, ℕ, ◌≡◌, refl, sym, ap, ◌∙◌, arith, List, [], ◌∷◌, ◌++◌, append_assoc, append-nil, Bytes,
  bytes_eq, Bool, true, false, ◌||◌, inl, inr, ok,
}
use svn.Path.{
  is_separator, trim_start, trim_end, keep_unless_last, contains_nul, split, push_part,
  collect_parts, join, any_left_out, contains_backslash, join_parts, canonicalize_trimmed,
  canonicalize_rel_path,
}
use svn.Path.Canonical.{
  has_separator, IsSegment, All, split_separator, split_other, join-cons,
  canonicalize_rel_path-Joined,
}

no_separator :
    (b : ℕ) (bs : Bytes)
    → has_separator (b ∷ bs) ≡ false
    → (is_separator b ≡ false) × (has_separator bs ≡ false)
unfolding has_separator
no_separator b bs h = ground arith

split_plain : (seg q : Bytes) → has_separator q ≡ false → split seg q ≡ (seg ++ q) ∷ []
split_plain seg [] h = unfold split in ap (λ t. t ∷ []) (sym (append-nil seg))
split_plain seg (b ∷ bs) h =
    let (one, later) = no_separator b bs h in
    split_other seg b bs one
    ∙ split_plain (seg ++ (b ∷ [])) bs later
    ∙ ap (λ t. t ∷ []) (append_assoc seg (b ∷ []) bs)

split_slash :
    (seg q more : Bytes)
    → has_separator q ≡ false
    → split seg (q ++ (47 ∷ more)) ≡ (seg ++ q) ∷ split [] more
split_slash seg [] more h =
    split_separator seg 47 more refl ∙ ap (λ t. t ∷ split [] more) (sym (append-nil seg))
split_slash seg (b ∷ bs) more h =
    let (one, later) = no_separator b bs h in
    split_other seg b (bs ++ (47 ∷ more)) one
    ∙ split_slash (seg ++ (b ∷ [])) bs more later
    ∙ ap (λ t. t ∷ split [] more) (append_assoc seg (b ∷ []) bs)

-- Splitting undoes joining.
split-join :
    (first : Bytes) (rest : List Bytes)
    → All IsSegment (first ∷ rest)
    → split [] (join (first ∷ rest)) ≡ first ∷ rest
split-join first [] (s, more) = unfold join in split_plain [] first s.one_segment
split-join first (q ∷ qs) (s, more) =
    ap (split []) (join-cons first q qs)
    ∙ split_slash [] first (join (q ∷ qs)) s.one_segment
    ∙ ap (λ t. first ∷ t) (split-join q qs more)

collect_parts-segments : (segs : List Bytes) → All IsSegment segs → collect_parts segs ≡ ok segs
unfolding collect_parts push_part
collect_parts-segments [] h = refl
collect_parts-segments (seg ∷ segs) (s, more) =
    rw (s.not_empty, s.not_dot, s.not_dot_dot, collect_parts-segments segs more) refl

contains_nul-append :
    (xs ys : Bytes)
    → contains_nul xs ≡ false
    → contains_nul ys ≡ false
    → contains_nul (xs ++ ys) ≡ false
unfolding contains_nul
contains_nul-append [] ys h k = k
contains_nul-append (x ∷ xs) ys h k = ground (arith, contains_nul-append xs ys)

slash_nul : (bs : Bytes) → contains_nul bs ≡ false → contains_nul (47 ∷ bs) ≡ false
unfolding contains_nul
slash_nul bs h = h

join-no_nul :
    (first : Bytes) (rest : List Bytes)
    → All IsSegment (first ∷ rest)
    → contains_nul (join (first ∷ rest)) ≡ false
join-no_nul first [] (s, more) = unfold join in s.no_nul
join-no_nul first (q ∷ qs) (s, more) = rw (join-cons first q qs) (
    contains_nul-append first (47 ∷ join (q ∷ qs)) s.no_nul
      (slash_nul (join (q ∷ qs)) (join-no_nul q qs more)))

-- A segment starts with a byte that is no separator.
segment_head :
    (seg : Bytes)
    → IsSegment seg
    → (b : ℕ) × (bs : Bytes) × (seg ≡ b ∷ bs) × (is_separator b ≡ false)
unfolding bytes_eq
segment_head [] s = absurd (cc s.not_empty)
segment_head (b ∷ bs) s = (b, bs, refl, (no_separator b bs s.one_segment).0)

join_head :
    (first : Bytes) (rest : List Bytes)
    → IsSegment first
    → (b : ℕ) × (bs : Bytes) × (join (first ∷ rest) ≡ b ∷ bs) × (is_separator b ≡ false)
join_head first [] s = unfold join in segment_head first s
join_head first (q ∷ qs) s =
    let (b, bs, e, plain) = segment_head first s in
    (
      b,
      bs ++ (47 ∷ join (q ∷ qs)),
      join-cons first q qs ∙ ap (λ t. t ++ (47 ∷ join (q ∷ qs))) e,
      plain,
    )

trim_start_plain : (b : ℕ) (bs : Bytes) → is_separator b ≡ false → trim_start (b ∷ bs) ≡ b ∷ bs
unfolding trim_start
trim_start_plain b bs h = ground arith

-- Trimming at the end stops at once, for bytes that end with what it keeps.
trim_end-step :
    (x y : ℕ) (ys : Bytes) → trim_end (y ∷ ys) ≡ y ∷ ys → trim_end (x ∷ y ∷ ys) ≡ x ∷ y ∷ ys
trim_end-step x y ys h = opened ∙ ap (keep_unless_last x) h ∙ kept
  where
    opened : trim_end (x ∷ y ∷ ys) ≡ keep_unless_last x (trim_end (y ∷ ys))
    opened = unfold trim_end in refl

    kept : keep_unless_last x (y ∷ ys) ≡ x ∷ y ∷ ys
    kept = unfold keep_unless_last in refl

trim_end-append :
    (xs : Bytes) (y : ℕ) (ys : Bytes)
    → trim_end (y ∷ ys) ≡ y ∷ ys
    → trim_end (xs ++ (y ∷ ys)) ≡ xs ++ (y ∷ ys)
trim_end-append [] y ys h = h
trim_end-append (x ∷ []) y ys h = trim_end-step x y ys h
trim_end-append (x ∷ x' ∷ xs) y ys h =
    trim_end-step x x' (xs ++ (y ∷ ys)) (trim_end-append (x' ∷ xs) y ys h)

trim_end-last : (b : ℕ) → is_separator b ≡ false → trim_end (b ∷ []) ≡ b ∷ []
unfolding trim_end keep_unless_last
trim_end-last b h = ground arith

trim_end-plain : (b : ℕ) (bs : Bytes) → has_separator (b ∷ bs) ≡ false → trim_end (b ∷ bs) ≡ b ∷ bs
trim_end-plain b [] h = trim_end-last b ((no_separator b [] h).0)
trim_end-plain b (c ∷ cs) h =
    trim_end-step b c cs (trim_end-plain c cs ((no_separator b (c ∷ cs) h).1))

trim_end-segment : (seg : Bytes) → IsSegment seg → trim_end seg ≡ seg
trim_end-segment seg s =
    let (b, bs, e, plain) = segment_head seg s in
    ap trim_end e
    ∙ trim_end-plain b bs (subst (λ t. has_separator t ≡ false) e s.one_segment)
    ∙ sym e

trim_end-join :
    (first : Bytes) (rest : List Bytes)
    → All IsSegment (first ∷ rest)
    → trim_end (join (first ∷ rest)) ≡ join (first ∷ rest)
trim_end-join first [] (s, more) = unfold join in trim_end-segment first s
trim_end-join first (q ∷ qs) (s, (s', more)) =
    let (b, bs, e, plain) = join_head q qs s' in
    let tail : trim_end (b ∷ bs) ≡ b ∷ bs =
      sym (ap trim_end e) ∙ trim_end-join q qs (s', more) ∙ e in
    ap trim_end (join-cons first q qs ∙ ap (λ t. first ++ (47 ∷ t)) e)
    ∙ trim_end-append first 47 (b ∷ bs) (trim_end-step 47 b bs tail)
    ∙ sym (join-cons first q qs ∙ ap (λ t. first ++ (47 ∷ t)) e)

join_parts-same :
    (allow_empty needs_alloc : Bool) (first : Bytes) (rest : List Bytes)
    → join_parts allow_empty (join (first ∷ rest)) needs_alloc (ok (first ∷ rest))
      ≡ ok (join (first ∷ rest))
unfolding join_parts
join_parts-same allow_empty true first rest = refl
join_parts-same allow_empty false first rest = refl

canonicalize_trimmed-parts :
    (allow_empty : Bool) (b : ℕ) (bs : Bytes) (parts : List Bytes)
    → contains_nul (b ∷ bs) ≡ false
    → collect_parts (split [] (b ∷ bs)) ≡ ok parts
    → canonicalize_trimmed allow_empty (b ∷ bs)
      ≡ join_parts allow_empty
          (b ∷ bs)
          (contains_backslash (b ∷ bs) || any_left_out (split [] (b ∷ bs)))
          (ok parts)
unfolding canonicalize_trimmed
canonicalize_trimmed-parts allow_empty b bs parts n e = rw (n, e) refl

-- Segments joined are canonical.
canonicalize-join :
    (first : Bytes) (rest : List Bytes) (allow_empty : Bool)
    → All IsSegment (first ∷ rest)
    → canonicalize_rel_path (join (first ∷ rest)) allow_empty ≡ ok (join (first ∷ rest))
unfolding canonicalize_rel_path
canonicalize-join first rest allow_empty (s, more) =
    let p = join (first ∷ rest) in
    let (b, bs, e, plain) = join_head first rest s in
    let start : trim_start p ≡ p = ap trim_start e ∙ trim_start_plain b bs plain ∙ sym e in
    let parts : collect_parts (split [] (b ∷ bs)) ≡ ok (first ∷ rest) =
      ap (λ t. collect_parts (split [] t)) (sym e)
      ∙ ap collect_parts (split-join first rest (s, more))
      ∙ collect_parts-segments (first ∷ rest) (s, more) in
    let nul : contains_nul (b ∷ bs) ≡ false =
      ap contains_nul (sym e) ∙ join-no_nul first rest (s, more) in
    let needs_alloc = contains_backslash (b ∷ bs) || any_left_out (split [] (b ∷ bs)) in
    ap (canonicalize_trimmed allow_empty)
      (ap trim_end start ∙ trim_end-join first rest (s, more) ∙ e)
    ∙ canonicalize_trimmed-parts allow_empty b bs (first ∷ rest) nul parts
    ∙ ap (λ t. join_parts allow_empty t needs_alloc (ok (first ∷ rest))) (sym e)
    ∙ join_parts-same allow_empty needs_alloc first rest

-- A path that is accepted is accepted again, as it is.
pub canonicalize_rel_path_idem :
    (path p : Bytes) (allow_empty : Bool)
    → canonicalize_rel_path path allow_empty ≡ ok p
    → canonicalize_rel_path p allow_empty ≡ ok p
canonicalize_rel_path_idem path p allow_empty h =
    elim (canonicalize_rel_path-Joined path p allow_empty h) [
      | inl (e, allowed) ↦
          rw (e, allowed)
            (unfold canonicalize_rel_path canonicalize_trimmed trim_start trim_end in refl)
      | inr (first, rest, e, segs) ↦ rw e (canonicalize-join first rest allow_empty segs)
    ]
