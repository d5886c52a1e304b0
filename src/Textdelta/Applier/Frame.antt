-- ===== src/Textdelta/Applier/Frame.antt =====
-- The windows that the encoder of src/svndiff.rs writes, as the decoder meets them.
use svn.Base.{
  ℕ, ◌+◌, ◌^◌, ◌≤◌, ◌<◌, ◌≡◌, inl, inr, refl, sym, ap, ◌∙◌, arith, [], ◌∷◌, ◌++◌, append_assoc,
  append-nil, Bytes, length, length-append, some, ok, >>=-eq-ok, ◌==◌, ◌/◌, le→ltb, Bool-cases,
  le→ltb,
}
use svn.Codec.{Codec, IsLossless}
use svn.Svndiff.Uint.{encode_uint, encode_uint-append}
use svn.Svndiff.Encode.{
  SvndiffVersion, sections, insertion, encode_new_instruction, encode_insertion_window,
}
use svn.Textdelta.Uint.{try_decode_uint_bounds}
use svn.Textdelta.Uint.RoundTrip.{try_decode_uint-encode_uint}
use svn.Textdelta.Window.{
  WindowHeader, check_window_header, decode_section, delta_window_max, max_instruction_section_len,
  try_parse_window_header,
}
use svn.Textdelta.Window.Header.{encoded, five, five_len, try_parse_window_header-five}
use svn.Textdelta.Window.Sections.{decode_section-sections}
use svn.Textdelta.Apply.{apply_window}
use svn.Textdelta.Apply.New.{apply_window_source-insertion}
use svn.Textdelta.Stream.Step.{Framed, parsed}
use svn.Textdelta.Applier.{window_data}

abbrev five_head : ℕ → ℕ → ℕ → ℕ → ℕ → Bytes
five_head a b d e f = five a b d e f []

five_head-append :
    (a b d e f : ℕ) (rest : Bytes) → five_head a b d e f ++ rest ≡ five a b d e f rest
five_head-append a b d e f rest = simp (append_assoc)

length-five_head : (a b d e f : ℕ) → length (five_head a b d e f) ≡ five_len a b d e f
length-five_head a b d e f = simp (length-append) (omega arith)

encode_five :
    (a b d e f : ℕ) (out : Bytes)
    → encode_uint f (encode_uint e (encode_uint d (encode_uint b (encode_uint a out))))
      ≡ out ++ five_head a b d e f
encode_five a b d e f out =
    encode_uint-append f _
    ∙ ap (λ (t : Bytes). t ++ encoded f)
        (encode_uint-append e _
          ∙ ap (λ (t : Bytes). t ++ encoded e)
              (encode_uint-append d _
                ∙ ap (λ (t : Bytes). t ++ encoded d)
                    (encode_uint-append b _
                      ∙ ap (λ (t : Bytes). t ++ encoded b) (encode_uint-append a out))))
    ∙ simp (append_assoc, append-nil)

encoded_bound : (v : ℕ) → v < 2 ^ 64 → length (encoded v) ≤ 10
encoded_bound v h = (try_decode_uint-encode_uint v [] h).1

-- An encoded integer is never empty: the decoder takes a byte of it.
encoded_pos : (v : ℕ) → v < 2 ^ 64 → 0 < length (encoded v)
encoded_pos v h = (try_decode_uint_bounds _ v _ ((try_decode_uint-encode_uint v [] h).0)).1

length-insertion : (d : Bytes) → length d < 2 ^ 64 → length (insertion d) ≤ 11
unfolding insertion encode_new_instruction
length-insertion [] h = omega arith
length-insertion (x ∷ xs) h = elim (Bool-cases (length (x ∷ xs) / 64 == 0)) [
  | inl e ↦ rw e (omega arith)
  | inr e ↦ rw e (rw encode_uint-append (omega (arith, encoded_bound (length (x ∷ xs)) h)))
]

abbrev insertion_header : ℕ → ℕ → ℕ → WindowHeader
insertion_header tview ins new = record {
  sview_offset = 0;
  sview_len = 0;
  tview_len = tview;
  ins_len = ins;
  new_len = new;
  header_len = five_len 0 0 tview ins new;
}

check_insertion_header :
    (tview ins new h : ℕ)
    → tview ≤ delta_window_max
    → ins ≤ 21
    → new ≤ delta_window_max + 10
    → check_window_header 0 0 tview ins new h
      ≡ ok (some (record (insertion_header tview ins new) { header_len = h }))
unfolding check_window_header
check_insertion_header tview ins new h ht hi hn = ground arith

pub record Window (c : Codec) (v : SvndiffVersion) (d : Bytes) : Type 0 where
  pub bytes : Bytes
  pub framed : Framed bytes
  pub applies : (base : Bytes) → window_data c base (parsed framed v) ≡ ok d

module _ (c : Codec) (v : SvndiffVersion) (d ins new : Bytes) where
  abbrev header_of : WindowHeader
  header_of = insertion_header (length d) (length ins) (length new)

  abbrev head_of : Bytes
  head_of = five_head 0 0 (length d) (length ins) (length new)

  module _ (small : length d ≤ delta_window_max) (ins_small : length ins ≤ 21)
      (new_small : length new ≤ delta_window_max + 10) where
    head_of_bounds : (0 < length head_of) × (length head_of ≤ 50)
    head_of_bounds = omega (
      arith,
      length-five_head 0 0 (length d) (length ins) (length new),
      encoded_pos 0 (omega arith),
      encoded_bound 0 (omega arith),
      encoded_bound (length d) (omega arith),
      encoded_bound (length ins) (omega arith),
      encoded_bound (length new) (omega arith),
    )

    head_of-parses :
        (more : Bytes) → try_parse_window_header (head_of ++ more) ≡ ok (some header_of)
    head_of-parses more = rw five_head-append (
        try_parse_window_header-five 0 0 (length d) (length ins) (length new) more (omega arith)
          (omega arith) (omega arith) (omega arith) (omega arith)
        ∙ check_insertion_header (length d) (length ins) (length new) _ small ins_small new_small)

    framed_of : Framed (head_of ++ (ins ++ new))
    framed_of =
        let (pos, short) = head_of_bounds in
        record {
          w = header_of;
          head = head_of;
          ins = ins;
          new = new;
          parses = head_of-parses;
          shape = refl;
          head_len = sym (length-five_head 0 0 (length d) (length ins) (length new));
          ins_len = refl;
          new_len = refl;
          short = short;
          nonempty = pos;
          no_offset = refl;
          no_sview = refl;
          fits = omega (arith, length-append head_of (ins ++ new), length-append ins new);
        }

    -- Given that the sections decode, the window rebuilds `d` over every base.
    window_data-insertion :
        decode_section c v ins max_instruction_section_len ≡ ok (insertion d)
        → decode_section c v new delta_window_max ≡ ok d
        → (base : Bytes)
        → window_data c base
            (record { version = v; window = header_of; ins_wire = ins; new_wire = new })
          ≡ ok d
    unfolding window_data apply_window
    window_data-insertion e₁ e₂ base =
        rw (e₁, e₂)
          (rw (le→ltb (length base) 0 (omega arith))
            (apply_window_source-insertion _ d (omega arith)))

    Window-of :
        decode_section c v ins max_instruction_section_len ≡ ok (insertion d)
        → decode_section c v new delta_window_max ≡ ok d
        → (w : Window c v d) × (w.bytes ≡ head_of ++ (ins ++ new))
    unfolding framed_of
    Window-of e₁ e₂ = (
      record {
        bytes = head_of ++ (ins ++ new);
        framed = framed_of;
        applies = window_data-insertion e₁ e₂;
      },
      refl,
    )

-- What the encoder appends for a chunk of at most the window limit is a window of that chunk.
pub encode_insertion_window-Window :
    (c : Codec)
    → IsLossless c
    → (v : SvndiffVersion) (d : Bytes) (level : ℕ) (out out' : Bytes) → length d ≤ delta_window_max
    → encode_insertion_window c v d level out ≡ ok out'
    → (w : Window c v d) × (out' ≡ out ++ w.bytes)
unfolding encode_insertion_window
encode_insertion_window-Window c lossless v d level out out' small h =
    let ((ins, new), made, written) = >>=-eq-ok (sections c v (insertion d) d level) _ h in
    from_sections ins new made (cc written)
  where
    wide : length d < 2 ^ 64
    wide = omega arith

    append_all :
        (ins new : Bytes)
        → (encode_uint (length new) (
                encode_uint
                  (length ins)
                  (encode_uint (length d) (encode_uint 0 (encode_uint 0 out))))
              ++ ins)
            ++ new
          ≡ out ++ (head_of c v d ins new ++ (ins ++ new))
    append_all ins new =
        rw (encode_five 0 0 (length d) (length ins) (length new) out) (simp append_assoc)

    from_sections :
        (ins new : Bytes)
        → sections c v (insertion d) d level ≡ ok (ins, new)
        → (encode_uint (length new) (
                encode_uint
                  (length ins)
                  (encode_uint (length d) (encode_uint 0 (encode_uint 0 out))))
              ++ ins)
            ++ new
          ≡ out'
        → (w : Window c v d) × (out' ≡ out ++ w.bytes)
    from_sections ins new made written =
        let short = length-insertion d wide in
        let ((back₁, small₁), (back₂, small₂)) =
          decode_section-sections c lossless v (insertion d) d ins new level (omega arith) wide
            made in
        let (w, e) =
          Window-of c v d ins new small (omega arith) (omega arith)
            (back₁ max_instruction_section_len (omega arith)) (back₂ delta_window_max small) in
        (w, sym written ∙ append_all ins new ∙ ap (λ (t : Bytes). out ++ t) (sym e))
