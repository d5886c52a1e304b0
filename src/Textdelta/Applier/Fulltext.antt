-- ===== src/Textdelta/Applier/Fulltext.antt =====
-- A full text that src/svndiff.rs encodes, applied by src/textdelta/applier.rs in any chunks.
use svn.Base.{
  ℕ, ◌+◌, ◌^◌, ◌≤◌, ◌<◌, ◌≡◌, refl, sym, ap, ◌∙◌, arith, List, [], ◌∷◌, ◌++◌, append_assoc, Bytes,
  length, length-append, append_split, none, ok,
}
use svn.Codec.{Codec, IsLossless}
use svn.Svndiff.Encode.{SvndiffVersion, header, encode_fulltext_with_options}
use svn.Textdelta.CursorBuf
use svn.Textdelta.CursorBuf.View.{available-push}
use svn.Textdelta.Stream
use svn.Textdelta.Stream.{SvndiffStream}
use svn.Textdelta.Window.{delta_window_max}
use svn.Textdelta.Applier.{vec_write, apply_textdelta}
use svn.Textdelta.Applier.Drain.{WindowsOf, flat, drain_wait, drain_lem}
use svn.Textdelta.Applier.Feed.{
  IsPartial, empty-IsPartial, push-IsPartial, push-completed, completed, completed-IsReady,
  length-header,
}
use svn.Textdelta.Applier.Run.{
  run, run_chunk, run_ready, next_window-unversioned, encode_fulltext-WindowsOf,
}
use native.Mathlib.Decide.{dec_lt}

module _ (c : Codec) (v : SvndiffVersion) (base : Bytes) where
  -- A stream that holds only a part of the header writes nothing.
  run_partial_chunk :
      (chunk : Bytes) (chunks : List Bytes) (s s' : SvndiffStream) (out : Bytes)
      → Stream.push s chunk ≡ (s', ok tt)
      → s'.version ≡ none
      → run c v base (chunk ∷ chunks) s out ≡ run c v base chunks s' out
  run_partial_chunk chunk chunks s s' out e n =
      run_chunk c v base chunk chunks s s' s' out out e
        (drain_wait c v base 0 [] s' s' out _ (next_window-unversioned s' n))

  -- The chunk that completes the header: `front` of it, with `back` left for the windows.
  run_completing :
      (got : Bytes) (s : SvndiffStream) (p : IsPartial got s) (b : ℕ) (bs : Bytes)
      (chunks ds : List Bytes) (bytes : Bytes) (ws : WindowsOf c v ds bytes) (out : Bytes)
      → (got ++ (b ∷ bs)) ++ flat chunks ≡ header v ++ bytes
      → 4 ≤ length got + length (b ∷ bs)
      → length (b ∷ bs) + length (flat chunks) < 2 ^ 64
      → run c v base ((b ∷ bs) ∷ chunks) s out ≡ (out ++ flat ds, ok tt)
  run_completing got s p b bs chunks ds bytes ws out e enough fits =
      let len = length-header v in
      let (back, cut, behind) =
        append_split (got ++ (b ∷ bs)) (flat chunks) (header v) bytes e
          (omega (arith, length-append got (b ∷ bs))) in
      let (front, head, chunk-eq) =
        append_split (header v) back got (b ∷ bs) (sym cut) (omega (arith, p.incomplete)) in
      let s' = completed got s p b bs v front back in
      let ready =
        completed-IsReady got s p b bs v front back (length (flat chunks))
          (omega (arith, ap length chunk-eq, length-append front back))
          (omega (arith, ap length head, length-append got front)) in
      let joined : Stream.available s' ++ flat chunks ≡ bytes =
        ap (λ (t : Bytes). t ++ flat chunks)
          (available-push (record { buf = []; start = 0 }) back (omega arith))
        ∙ unfold CursorBuf.available in sym behind in
      let d =
        drain_lem c v base (length (flat chunks)) (flat chunks) _ ds bytes ws s' out ready joined
          (omega arith) in
      run_chunk c v base (b ∷ bs) chunks s s' d.next out d.written
        (push-completed got s p b bs v front back chunk-eq (sym head)) d.drained
      ∙ run_ready c v base chunks d.todo d.bytes d.windows d.next d.written d.ready d.left d.blocked
      ∙ ap (λ (t : Bytes). (t, ok tt)) d.content

  run_partial :
      (chunks : List Bytes) (got : Bytes) (s : SvndiffStream) (ds : List Bytes) (bytes : Bytes)
      (ws : WindowsOf c v ds bytes) (out : Bytes)
      → IsPartial got s
      → got ++ flat chunks ≡ header v ++ bytes
      → length (flat chunks) < 2 ^ 64
      → run c v base chunks s out ≡ (out ++ flat ds, ok tt)
  run_partial [] got s ds bytes ws out p e fits = absurd (
      omega (
        arith,
        ap length e,
        length-append got [],
        length-append (header v) bytes,
        length-header v,
        p.incomplete,
      ))
  run_partial ([] ∷ chunks) got s ds bytes ws out p e fits =
      run_partial_chunk [] chunks s s out (unfold Stream.push in refl) p.no_version
      ∙ run_partial chunks got s ds bytes ws out p e fits
  run_partial ((b ∷ bs) ∷ chunks) got s ds bytes ws out p e fits =
      let room = length-append (b ∷ bs) (flat chunks) in
      let e' = append_assoc got (b ∷ bs) (flat chunks) ∙ e in
      elim (dec_lt (length got + length (b ∷ bs)) 4) [
        | yes lt ↦
            let (pushed, part) = push-IsPartial got s p b bs lt in
            run_partial_chunk (b ∷ bs) chunks s _ out pushed part.no_version
            ∙ run_partial chunks (got ++ (b ∷ bs)) _ ds bytes ws out part e' (omega arith)
        | no ge ↦ run_completing got s p b bs chunks ds bytes ws out e' (omega arith) (omega arith)
      ]

-- With lossless compression libraries, what `encode_fulltext_with_options` writes for a text, in
-- windows of at most 64 KiB and of less than 2^64 bytes in all, is applied back to that text,
-- whatever the base, and however the bytes are cut into chunks; nothing is written but the text.
pub apply_textdelta-encode_fulltext :
    (c : Codec)
    → IsLossless c
    → (v : SvndiffVersion) (contents : Bytes) (zlib_level window_size : ℕ)
    → window_size ≤ delta_window_max
    → (chunks : List Bytes) → length (flat chunks) < 2 ^ 64
    → encode_fulltext_with_options c v contents zlib_level window_size ≡ ok (flat chunks)
    → (base out : Bytes) → apply_textdelta vec_write c base chunks out ≡ (out ++ contents, ok tt)
unfolding apply_textdelta
apply_textdelta-encode_fulltext c lossless v contents zlib_level window_size small chunks fits h
      base out =
    let (ds, bytes, e, ws, whole) =
      encode_fulltext-WindowsOf c lossless v zlib_level contents window_size (flat chunks) small
        h in
    run_partial c v base chunks [] Stream.empty ds bytes ws out empty-IsPartial e fits
    ∙ ap (λ (t : Bytes). (out ++ t, ok tt)) whole
