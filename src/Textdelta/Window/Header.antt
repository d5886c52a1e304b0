-- ===== src/Textdelta/Window/Header.antt =====
-- The parse of a window header: on a written header, on a part of one, and on any input.
use svn.Base.{
  ℕ, ◌+◌, ◌^◌, ◌≤◌, ◌<◌, ◌≡◌, ◌⊎◌, inl, inr, refl, ◌∙◌, arith, [], ◌++◌, Bytes, length, drop,
  drop-append, drop-append_length, length-drop, Option, none, some, Result, ok, Result-cases,
}
use svn.Svndiff.Uint.{encode_uint}
use svn.Textdelta.Uint.{
  try_decode_uint, try_decode_uint-ne-err, try_decode_uint_bounds, try_decode_uint-append,
}
use svn.Textdelta.Uint.RoundTrip.{try_decode_uint-encode_uint}
use svn.Textdelta.Window.{
  WindowHeader, with_uint, parse_sview_len, parse_tview_len, parse_ins_len, parse_new_len,
  check_window_header, try_parse_window_header, delta_window_max, max_encoded_uint_len,
  max_instruction_section_len,
}

abbrev pub encoded : ℕ → Bytes
encoded v = encode_uint v []

-- A result on part of the input, and the result on all of it: the part either asks for more
-- input, or is enough to tell.
abbrev pub Extends {ℓ} : {A : Type ℓ} → Result (Option A) → Result (Option A) → Type ℓ
Extends r r' = (r ≡ ok none) ⊎ (r ≡ r')

try_decode_uint_cases :
    (p : Bytes)
    → (try_decode_uint p ≡ ok none)
      ⊎ ((v : ℕ) × (used : ℕ) × (try_decode_uint p ≡ ok (some (v, used))))
try_decode_uint_cases p = elim (Result-cases (try_decode_uint p)) [
  | inl (none, e) ↦ inl e
  | inl (some (v, used), e) ↦ inr (v, used, e)
  | inr (x, e) ↦ absurd (try_decode_uint-ne-err p x e)
]

module _ {ℓ} {A : Type ℓ} where
  with_uint-Extends :
      (p more : Bytes) (k k' : ℕ → ℕ → Bytes → Result (Option A))
      → ((v used : ℕ) (rest : Bytes) → Extends (k v used rest) (k' v used (rest ++ more)))
      → Extends (with_uint p k) (with_uint (p ++ more) k')
  with_uint-Extends p more k k' next = elim (try_decode_uint_cases p) [
    | inl e ↦ inl (rw e)
    | inr (v, used, e) ↦
        let (fits, pos, le) = try_decode_uint_bounds p v used e in
        rw (e, try_decode_uint-append p more v used e)
          (rw (drop-append used p more le) (next v used (drop used p)))
  ]

  -- A run that reads its integer, with what the integer takes of the input.
  with_uint-eq-some :
      (p : Bytes) (k : ℕ → ℕ → Bytes → Result (Option A)) {a : A}
      → with_uint p k ≡ ok (some a)
      → (v : ℕ) × (used : ℕ) × (0 < used)
        × (used ≤ length p)
        × (k v used (drop used p) ≡ ok (some a))
  with_uint-eq-some p k h = elim (try_decode_uint_cases p) [
    | inl e ↦ absurd (cc (rw e at h))
    | inr (v, used, e) ↦
        let (fits, pos, le) = try_decode_uint_bounds p v used e in (v, used, pos, le, rw e at h)
  ]

  with_uint-encoded :
      (v : ℕ) (rest : Bytes) (k : ℕ → ℕ → Bytes → Result (Option A))
      → v < 2 ^ 64
      → with_uint (encoded v ++ rest) k ≡ k v (length (encoded v)) rest
  with_uint-encoded v rest k h =
      rw ((try_decode_uint-encode_uint v rest h).0) (rw drop-append_length)

-- What the parser returns for a part of the input, unless it asks for more, it returns for all of
-- it.
pub try_parse_window_header-Extends :
    (p more : Bytes) → Extends (try_parse_window_header p) (try_parse_window_header (p ++ more))
unfolding try_parse_window_header
try_parse_window_header-Extends p more =
    with_uint-Extends p more (parse_sview_len 0) (parse_sview_len 0) λ v₁ a p₁.
      let k₁ = parse_tview_len v₁ (0 + a) in
      with_uint-Extends p₁ more k₁ k₁ λ v₂ b p₂.
        let k₂ = parse_ins_len v₁ v₂ ((0 + a) + b) in
        with_uint-Extends p₂ more k₂ k₂ λ v₃ d p₃.
          let k₃ = parse_new_len v₁ v₂ v₃ (((0 + a) + b) + d) in
          with_uint-Extends p₃ more k₃ k₃ λ v₄ e p₄.
            let k₄ = λ (v₅ f : ℕ) (p₅ : Bytes).
              check_window_header v₁ v₂ v₃ v₄ v₅ (((((0 + a) + b) + d) + e) + f) in
            with_uint-Extends p₄ more k₄ k₄ λ v₅ f p₅. inr refl

-- Five integers as the encoder writes them, and any bytes behind.
abbrev pub five : ℕ → ℕ → ℕ → ℕ → ℕ → Bytes → Bytes
five a b d e f rest = encoded a ++ (encoded b ++ (encoded d ++ (encoded e ++ (encoded f ++ rest))))

abbrev pub five_len : ℕ → ℕ → ℕ → ℕ → ℕ → ℕ
five_len a b d e f =
    ((((0 + length (encoded a)) + length (encoded b)) + length (encoded d)) + length (encoded e))
    + length (encoded f)

-- The parser reads five written integers and hands them to the checks.
pub try_parse_window_header-five :
    (a b d e f : ℕ) (rest : Bytes)
    → a < 2 ^ 64
    → b < 2 ^ 64
    → d < 2 ^ 64
    → e < 2 ^ 64
    → f < 2 ^ 64
    → try_parse_window_header (five a b d e f rest)
      ≡ check_window_header a b d e f (five_len a b d e f)
unfolding try_parse_window_header
try_parse_window_header-five a b d e f rest ha hb hd he hf =
    with_uint-encoded a _ (parse_sview_len 0) ha
    ∙ with_uint-encoded b _ (parse_tview_len a (0 + length (encoded a))) hb
    ∙ with_uint-encoded d _ (parse_ins_len a b _) hd
    ∙ with_uint-encoded e _ (parse_new_len a b d _) he
    ∙ with_uint-encoded f rest
        (λ (v used : ℕ) (rest : Bytes). check_window_header a b d e v (
          ((((0 + length (encoded a)) + length (encoded b)) + length (encoded d))
            + length (encoded e))
          + used))
        hf

-- The bounds that a header meets: its five integers take a byte each at least, the sizes are
-- limited, and the source view does not wrap.
pub record IsBounded (w : WindowHeader) : Type 0 where
  pub header_min : 5 ≤ w.header_len
  pub tview_max : w.tview_len ≤ delta_window_max
  pub sview_max : w.sview_len ≤ delta_window_max
  pub new_max : w.new_len ≤ delta_window_max + max_encoded_uint_len
  pub ins_max : w.ins_len ≤ max_instruction_section_len
  pub sview_fits : w.sview_offset + w.sview_len < 2 ^ 64

check_window_header-IsBounded :
    (a b d e f h : ℕ) (w : WindowHeader)
    → 5 ≤ h
    → check_window_header a b d e f h ≡ ok (some w)
    → IsBounded w × (w.header_len ≡ h)
unfolding check_window_header
check_window_header-IsBounded a b d e f h w le p = ground arith

-- Every header that is parsed has at least five bytes, all of them in the input, keeps within the
-- limits of its views and sections, and has a source view that ends below 2^64.
pub try_parse_window_header-IsBounded :
    (p : Bytes) (w : WindowHeader)
    → try_parse_window_header p ≡ ok (some w)
    → IsBounded w × (w.header_len ≤ length p)
unfolding try_parse_window_header
try_parse_window_header-IsBounded p w h =
    let (v₁, a, ha, la, h₁) = with_uint-eq-some p (parse_sview_len 0) h in
    let (v₂, b, hb, lb, h₂) = with_uint-eq-some (drop a p) (parse_tview_len v₁ (0 + a)) h₁ in
    let (v₃, d, hd, ld, h₃) =
      with_uint-eq-some (drop b (drop a p)) (parse_ins_len v₁ v₂ ((0 + a) + b)) h₂ in
    let (v₄, e, he, le, h₄) =
      with_uint-eq-some (drop d (drop b (drop a p))) (parse_new_len v₁ v₂ v₃ (((0 + a) + b) + d))
        h₃ in
    let (v₅, f, hf, lf, h₅) =
      with_uint-eq-some (drop e (drop d (drop b (drop a p))))
        (λ (v g : ℕ) (rest : Bytes).
          check_window_header v₁ v₂ v₃ v₄ v (((((0 + a) + b) + d) + e) + g))
        h₄ in
    let (bounded, len) =
      check_window_header-IsBounded v₁ v₂ v₃ v₄ v₅ (((((0 + a) + b) + d) + e) + f) w (omega arith)
        h₅ in
    (
      bounded,
      omega (
        arith,
        length-drop a p,
        length-drop b (drop a p),
        length-drop d (drop b (drop a p)),
        length-drop e (drop d (drop b (drop a p))),
      ),
    )
