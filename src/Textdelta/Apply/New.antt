-- ===== src/Textdelta/Apply/New.antt =====
-- The window that the full-text encoder writes, applied: one instruction that copies new data.
use svn.Base.{
  ℕ, ◌+◌, ◌/◌, ◌%◌, ◌^◌, ◌<◌, ◌≡◌, inl, inr, refl, ◌∙◌, arith, [], ◌∷◌, append-nil, Bytes, length,
  take_all, ok, Bool-cases, ◌==◌, bit_and,
}
use svn.Base.Bits.{low_six, low_two, new_selector}
use svn.Svndiff.Uint.{encode_uint, encode_uint-append}
use svn.Svndiff.Encode.{encode_new_instruction, insertion}
use svn.Textdelta.Uint.RoundTrip.{try_decode_uint-encode_uint}
use svn.Textdelta.Apply.{
  Progress, operand, read_length, run_action, run_new, instruction, finish_window,
  instructions_loop, apply_window_source,
}

-- Bytes to step over up to the end.
instructions_loop_skip :
    (sv : Bytes) (tview : ℕ) (new bs : Bytes) (p : Progress)
    → instructions_loop sv tview new bs (length bs) p ≡ finish_window sv tview new p
unfolding instructions_loop
instructions_loop_skip sv tview new [] p = refl
instructions_loop_skip sv tview new (b ∷ bs) p = instructions_loop_skip sv tview new bs p

pub instructions_loop_step :
    (sv : Bytes) (tview : ℕ) (new : Bytes) (b : ℕ) (bs : Bytes) (p p' : Progress) (used : ℕ)
    → instruction sv tview new b bs p ≡ ok (used, p')
    → instructions_loop sv tview new (b ∷ bs) 0 p ≡ instructions_loop sv tview new bs used p'
unfolding instructions_loop
instructions_loop_step sv tview new b bs p p' used e = rw (e, instructions_loop)

abbrev started : Progress
started = record { npos = 0; target = [] }

abbrev filled : Bytes → Progress
filled d = record { npos = length d; target = d }

module _ (sv d : Bytes) (fits : length d < 2 ^ 64) (nonempty : 0 < length d) where
  run_new-all : run_new sv (length d) d (length d) started ≡ ok (0, filled d)
  unfolding run_new
  run_new-all = ground (arith, take_all (length d) d)

  instruction-new :
      (selector used : ℕ) (rest : Bytes)
      → bit_and (selector / 2 ^ 6) 0x3 ≡ 2
      → read_length sv (length d) d selector rest ≡ ok (length d, used)
      → instruction sv (length d) d selector rest started ≡ ok (used + 0, filled d)
  unfolding instruction run_action
  instruction-new selector used rest act len = ground (arith, run_new-all)

  finish_window-filled : finish_window sv (length d) d (filled d) ≡ ok d
  unfolding finish_window
  finish_window-filled = ground arith

  apply_short : length d < 64 → apply_window_source sv (length d) ((length d + 128) ∷ []) d ≡ ok d
  unfolding apply_window_source instructions_loop read_length
  apply_short lt =
      let act : bit_and ((length d + 128) / 2 ^ 6) 0x3 ≡ 2 = low_two _ ∙ omega arith in
      let len : bit_and (length d + 128) 0x3f ≡ length d = low_six _ ∙ omega arith in
      let done = instruction-new (length d + 128) 0 [] act (ground (arith, len)) in
      instructions_loop_step sv (length d) d _ [] started (filled d) 0 done ∙ finish_window-filled

  read_length_long :
      read_length sv (length d) d 0x80 (encode_uint (length d) [])
      ≡ ok (length d, length (encode_uint (length d) []))
  unfolding read_length operand
  read_length_long =
      let (e, bound) = try_decode_uint-encode_uint (length d) [] fits in
      let e' = rw append-nil at e in rw e' (ground arith)

  apply_long : apply_window_source sv (length d) (0x80 ∷ encode_uint (length d) []) d ≡ ok d
  unfolding apply_window_source instructions_loop
  apply_long =
      let wire = encode_uint (length d) [] in
      let done = instruction-new 0x80 (length wire) wire refl read_length_long in
      let e : length wire + 0 ≡ length wire = omega arith in
      instructions_loop_step sv (length d) d _ wire started (filled d) (length wire) (rw e at done)
      ∙ instructions_loop_skip sv (length d) d wire (filled d)
      ∙ finish_window-filled

  encode_new_instruction-applies :
      apply_window_source sv (length d) (encode_new_instruction (length d) []) d ≡ ok d
  unfolding encode_new_instruction
  encode_new_instruction-applies = elim (Bool-cases (length d / 64 == 0)) [
    | inl e ↦
        let small : length d < 64 = ground arith in
        let same : length d % 256 ≡ length d = omega arith in
        rw e (rw same (rw (new_selector (length d) small) (apply_short small)))
    | inr e ↦ rw e (rw encode_uint-append apply_long)
  ]

-- Over any source view the encoder's instruction for `d` rebuilds `d` from the new data.
pub apply_window_source-insertion :
    (sv d : Bytes) → length d < 2 ^ 64 → apply_window_source sv (length d) (insertion d) d ≡ ok d
unfolding insertion
apply_window_source-insertion sv [] fits =
    unfold apply_window_source instructions_loop finish_window in refl
apply_window_source-insertion sv (x ∷ xs) fits =
    encode_new_instruction-applies sv (x ∷ xs) fits (omega arith)
