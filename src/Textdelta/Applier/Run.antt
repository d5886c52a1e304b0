-- ===== src/Textdelta/Applier/Run.antt =====
-- A stream that has its header, run over the encoded windows that are still to come; and what the
-- full-text encoder of src/svndiff.rs writes as such windows.
use svn.Base.{
  ℕ, zero, suc, ◌≤◌, ◌<◌, ◌≡◌, refl, sym, ap, ◌∙◌, arith, List, [], ◌∷◌, ◌++◌, append_assoc,
  append-nil, Bytes, length, take, drop, length-append, length-take, length-drop, take-append-drop,
  none, Result, ok, >>=-eq-ok, false,
}
use svn.Codec.{Codec, IsLossless}
use svn.Svndiff.Encode.{
  SvndiffVersion, header, chunks_loop, chunks, encode_insertion_window, encode_windows,
  encode_fulltext_with_options,
}
use svn.Textdelta.Stream
use svn.Textdelta.Stream.{SvndiffStream}
use svn.Textdelta.Stream.Step.{IsReady}
use svn.Textdelta.Window.{delta_window_max}
use svn.Textdelta.Applier.{
  window_data, vec_write, drain, after_push, after_chunk, push, finish, push_all,
}
use svn.Textdelta.Applier.Frame.{encode_insertion_window-Window}
use svn.Textdelta.Applier.Drain.{WindowsOf, flat, IsBlocked, no_pending, drain_lem}
use svn.Textdelta.Applier.Feed.{push-Fed}
use Prim.Native.Nat.{max}

-- Every chunk is within the decoder's window limit.
abbrev AreSmall : List Bytes → Type 0
AreSmall [] = Unit {0}
AreSmall (d ∷ ds) = (length d ≤ delta_window_max) × AreSmall ds

chunks_loop_lem :
    (fuel n : ℕ) (xs : Bytes)
    → 0 < n
    → n ≤ delta_window_max
    → length xs ≤ fuel
    → (flat (chunks_loop fuel n xs) ≡ xs) × AreSmall (chunks_loop fuel n xs)
unfolding chunks_loop
chunks_loop_lem zero n [] pos small h = (refl, tt)
chunks_loop_lem zero n (x ∷ xs) pos small h = absurd (omega arith)
chunks_loop_lem (suc fuel) n [] pos small h = (refl, tt)
chunks_loop_lem (suc fuel) n (x ∷ xs) pos small h =
    let (whole, rest) =
      chunks_loop_lem fuel n (drop n (x ∷ xs)) pos small (omega (arith, length-drop n (x ∷ xs))) in
    (
      ap (λ (t : Bytes). take n (x ∷ xs) ++ t) whole ∙ take-append-drop n (x ∷ xs),
      (omega (arith, length-take n (x ∷ xs)), rest),
    )

module _ (c : Codec) (lossless : IsLossless c) (v : SvndiffVersion) (level : ℕ) where
  encode_windows-WindowsOf :
      (ds : List Bytes) (out out' : Bytes)
      → AreSmall ds
      → encode_windows c v ds level out ≡ ok out'
      → (bytes : Bytes) × (out' ≡ out ++ bytes) × WindowsOf c v ds bytes
  unfolding encode_windows
  encode_windows-WindowsOf [] out out' small h = ([], cc h ∙ sym (append-nil out), refl)
  encode_windows-WindowsOf (d ∷ ds) out out' (small, smalls) h =
      let (mid, first, rest) = >>=-eq-ok (encode_insertion_window c v d level out) _ h in
      let (w, e) = encode_insertion_window-Window c lossless v d level out mid small first in
      let (tail, e', ws) = encode_windows-WindowsOf ds mid out' smalls rest in
      (
        w.bytes ++ tail,
        e' ∙ ap (λ (t : Bytes). t ++ tail) e ∙ append_assoc out w.bytes tail,
        (w, tail, refl, ws),
      )

  -- The encoder writes its header and the windows of chunks that make up the text.
  pub encode_fulltext-WindowsOf :
      (contents : Bytes) (window_size : ℕ) (wire : Bytes)
      → window_size ≤ delta_window_max
      → encode_fulltext_with_options c v contents level window_size ≡ ok wire
      → (ds : List Bytes) × (bytes : Bytes) × (wire ≡ header v ++ bytes)
        × WindowsOf c v ds bytes
        × (flat ds ≡ contents)
  unfolding encode_fulltext_with_options chunks
  encode_fulltext-WindowsOf [] window_size wire small h =
      let (w, e) =
        encode_insertion_window-Window c lossless v [] level (header v) wire (omega arith)
          (unfold encode_windows chunks_loop in h) in
      ([] ∷ [], w.bytes, e, (w, [], sym (append-nil w.bytes), refl), refl)
  encode_fulltext-WindowsOf (x ∷ xs) window_size wire small h =
      let n = max window_size 1 in
      let (whole, smalls) =
        chunks_loop_lem (length (x ∷ xs)) n (x ∷ xs) (omega arith) (omega arith) (omega arith) in
      let (out, made, same) =
        >>=-eq-ok (encode_windows c v (chunks_loop (length (x ∷ xs)) n (x ∷ xs)) level (header v)) _
          h in
      let (bytes, e, ws) =
        encode_windows-WindowsOf (chunks_loop (length (x ∷ xs)) n (x ∷ xs)) (header v) out smalls
          made in
      (chunks_loop (length (x ∷ xs)) n (x ∷ xs), bytes, sym (cc same) ∙ e, ws, whole)

finish-ready :
    {v : SvndiffVersion} {room : ℕ} (s : SvndiffStream)
    → IsReady v room s
    → Stream.available s ≡ []
    → Stream.finish s ≡ ok tt
unfolding Stream.finish Stream.is_identity
finish-ready s r e = ground (arith, r.fed, r.header_full, no_pending s r e, e)

pub next_window-unversioned :
    (s : SvndiffStream) → s.version ≡ none → Stream.next_window s ≡ (s, ok none)
unfolding Stream.next_window
next_window-unversioned s e = simp (e, Stream.next_window)

module _ (c : Codec) (v : SvndiffVersion) (base : Bytes) where
  abbrev pub run : List Bytes → SvndiffStream → Bytes → Bytes × Result (Unit {0})
  run = push_all vec_write (window_data c base) base

  -- A chunk that is pushed and drained, then the chunks behind it.
  pub run_chunk :
      (chunk : Bytes) (chunks : List Bytes) (s s' s'' : SvndiffStream) (out written : Bytes)
      → Stream.push s chunk ≡ (s', ok tt)
      → drain vec_write (window_data c base) (suc (length (Stream.available s'))) s' out
        ≡ ((s'', written), ok tt)
      → run (chunk ∷ chunks) s out ≡ run chunks s'' written
  unfolding push_all
  run_chunk chunk chunks s s' s'' out written e d =
      let pushed : push vec_write (window_data c base) s chunk out ≡ ((s'', written), ok tt) =
        unfold push after_push in ap (after_push vec_write (window_data c base) out) e ∙ d in
      ap (after_chunk vec_write (run chunks)) pushed ∙ unfold after_chunk in refl

  run_done :
      (ds : List Bytes) (bytes : Bytes) (ws : WindowsOf c v ds bytes) (s : SvndiffStream)
      (out : Bytes)
      → IsReady v 0 s
      → Stream.available s ++ [] ≡ bytes
      → IsBlocked c v ds bytes ws (Stream.available s)
      → run [] s out ≡ (out ++ flat ds, ok tt)
  unfolding push_all finish
  run_done [] bytes ws s out r e b =
      let empty = sym (append-nil _) ∙ e ∙ ws in
      let used : Stream.is_identity s ≡ false = unfold Stream.is_identity in rw r.fed in
      rw (used, append-nil) (rw (finish-ready s r empty))
  run_done (d ∷ ds) bytes (w, tail, shape, ws) s out r e b =
      absurd (omega (arith, ap length (sym (append-nil _) ∙ e ∙ shape), length-append w.bytes tail))

  pub run_ready :
      (chunks ds : List Bytes) (bytes : Bytes) (ws : WindowsOf c v ds bytes) (s : SvndiffStream)
      (out : Bytes)
      → IsReady v (length (flat chunks)) s
      → Stream.available s ++ flat chunks ≡ bytes
      → IsBlocked c v ds bytes ws (Stream.available s)
      → run chunks s out ≡ (out ++ flat ds, ok tt)
  run_ready [] ds bytes ws s out r e b = run_done ds bytes ws s out r e b
  run_ready (chunk ∷ chunks) ds bytes ws s out r e b =
      let room = length-append chunk (flat chunks) in
      let f = push-Fed v (length (flat chunks)) s chunk (rw room at r) in
      let joined : Stream.available f.next ++ flat chunks ≡ bytes =
        ap (λ (t : Bytes). t ++ flat chunks) f.joined ∙ append_assoc _ chunk (flat chunks) ∙ e in
      let d =
        drain_lem c v base (length (flat chunks)) (flat chunks) _ ds bytes ws f.next out f.ready
          joined (omega arith) in
      run_chunk chunk chunks s f.next d.next out d.written f.pushed d.drained
      ∙ run_ready chunks d.todo d.bytes d.windows d.next d.written d.ready d.left d.blocked
      ∙ ap (λ (t : Bytes). (t, ok tt)) d.content
