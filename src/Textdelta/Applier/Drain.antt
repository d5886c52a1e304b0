-- ===== src/Textdelta/Applier/Drain.antt =====
-- The appliers' loop over a stream of encoded windows, whatever part of it has arrived.
use svn.Base.{
  ℕ, zero, suc, ◌<◌, ◌≡◌, inl, inr, refl, ap, ◌∙◌, arith, List, [], ◌∷◌, ◌++◌, append_assoc,
  append-eq-nil_left, Bytes, length, none, ok, Option-cases,
}
use svn.Codec.{Codec}
use svn.Svndiff.Encode.{SvndiffVersion}
use svn.Textdelta.Stream
use svn.Textdelta.Stream.{SvndiffStream, next_window}
use svn.Textdelta.Stream.Step.{
  IsReady, Took, Pending-some, next_window-whole, next_window-part, next_window-parses,
  parse_pending-none,
}
use svn.Textdelta.Uint.{try_decode_uint}
use svn.Textdelta.Window.{try_parse_window_header}
use svn.Textdelta.Applier.{window_data, drain, after_next, vec_write}
use svn.Textdelta.Applier.Frame.{Window}
use native.Mathlib.Decide.{dec_lt}

-- The bytes of the windows of several chunks, one after the other.
abbrev pub WindowsOf : Codec → SvndiffVersion → List Bytes → Bytes → Type 0
WindowsOf c v [] bytes = bytes ≡ []
WindowsOf c v (d ∷ ds) bytes =
    (w : Window c v d) × (tail : Bytes) × (bytes ≡ w.bytes ++ tail) × WindowsOf c v ds tail

abbrev pub flat : List Bytes → Bytes
flat [] = []
flat (d ∷ ds) = d ++ flat ds

-- What is available holds no whole window.
abbrev pub IsBlocked :
    (c : Codec) (v : SvndiffVersion) (ds : List Bytes) (bytes : Bytes)
    → WindowsOf c v ds bytes
    → Bytes
    → Type 0
IsBlocked c v [] bytes ws avail = Unit {0}
IsBlocked c v (d ∷ ds) bytes (w, tail, shape, ws) avail = length avail < length w.bytes

-- Nothing is parsed from no bytes.
pub parse-empty : try_parse_window_header [] ≡ ok none
unfolding try_parse_window_header try_decode_uint
parse-empty = refl

pub no_pending :
    {v : SvndiffVersion} {room : ℕ} (s : SvndiffStream)
    → IsReady v room s
    → Stream.available s ≡ []
    → s.pending_window ≡ none
no_pending s r e = elim (Option-cases s.pending_window) [
  | inl n ↦ n
  | inr (w, p) ↦ absurd (
      cc (Pending-some (Stream.available s) p r.pending, ap try_parse_window_header e, parse-empty))
]

next_window-empty :
    {v : SvndiffVersion} {room : ℕ} (s : SvndiffStream)
    → IsReady v room s
    → Stream.available s ≡ []
    → next_window s ≡ (s, ok none)
next_window-empty {v} s r e =
    next_window-parses v s r.version_eq (no_pending s r e)
    ∙ parse_pending-none v s (ap try_parse_window_header e ∙ parse-empty)
        (omega (arith, ap length e))

module _ (c : Codec) (v : SvndiffVersion) (base : Bytes) (room : ℕ) (rest : Bytes) where
  -- The loop's end: what it wrote and what is still to come make up the chunks.
  pub record Drained (ds : List Bytes) (s : SvndiffStream) (out : Bytes) (fuel : ℕ) : Type 0 where
    pub next : SvndiffStream
    pub written : Bytes
    pub todo : List Bytes
    pub bytes : Bytes
    pub windows : WindowsOf c v todo bytes
    pub drained : drain vec_write (window_data c base) fuel s out ≡ ((next, written), ok tt)
    pub ready : IsReady v room next
    pub left : Stream.available next ++ rest ≡ bytes
    pub blocked : IsBlocked c v todo bytes windows (Stream.available next)
    pub content : written ++ flat todo ≡ out ++ flat ds

  drain_step :
      (d : Bytes) (w : Window c v d) (s : SvndiffStream) (tail out : Bytes) (fuel : ℕ)
      → (t : Took w.framed v room s tail rest)
      → drain vec_write (window_data c base) (suc fuel) s out
        ≡ drain vec_write (window_data c base) fuel t.next (out ++ d)
  unfolding drain
  drain_step d w s tail out fuel t =
      ap (after_next vec_write (window_data c base) (drain vec_write (window_data c base) fuel) out)
        t.took
      ∙ rw (w.applies base, after_next)

  pub drain_wait :
      (s s' : SvndiffStream) (out : Bytes) (fuel : ℕ)
      → next_window s ≡ (s', ok none)
      → drain vec_write (window_data c base) (suc fuel) s out ≡ ((s', out), ok tt)
  unfolding drain
  drain_wait s s' out fuel e =
      ap (after_next vec_write (window_data c base) (drain vec_write (window_data c base) fuel) out)
        e
      ∙ unfold after_next in refl

  -- With fuel above the bytes available, the loop writes the windows that are complete.
  pub drain_lem :
      (fuel : ℕ) (ds : List Bytes) (bytes : Bytes) (ws : WindowsOf c v ds bytes) (s : SvndiffStream)
      (out : Bytes)
      → IsReady v room s
      → Stream.available s ++ rest ≡ bytes
      → length (Stream.available s) < fuel
      → Drained ds s out fuel
  drain_lem zero ds bytes ws s out r e lt = absurd (omega arith)
  drain_lem (suc fuel) [] bytes ws s out r e lt = record {
    next = s;
    written = out;
    todo = [];
    bytes = bytes;
    windows = ws;
    drained = drain_wait s s out fuel (next_window-empty s r (append-eq-nil_left _ rest (e ∙ ws)));
    ready = r;
    left = e;
    blocked = tt;
    content = refl;
  }
  drain_lem (suc fuel) (d ∷ ds) bytes (w, tail, shape, ws) s out r e lt =
      elim (dec_lt (length (Stream.available s)) (length w.bytes)) [
        | yes part ↦
            let p = next_window-part w.framed v room s rest tail r (e ∙ shape) part in
            record {
              next = p.next;
              written = out;
              todo = d ∷ ds;
              bytes = bytes;
              windows = (w, tail, shape, ws);
              drained = drain_wait s p.next out fuel p.waits;
              ready = p.ready;
              left = rw p.same e;
              blocked = rw p.same part;
              content = refl;
            }
        | no whole ↦
            let t = next_window-whole w.framed v room s rest tail r (e ∙ shape) (omega arith) in
            let q =
              drain_lem fuel ds tail ws t.next (out ++ d) t.ready t.left
                (omega (arith, t.shrinks)) in
            record {
              next = q.next;
              written = q.written;
              todo = q.todo;
              bytes = q.bytes;
              windows = q.windows;
              drained = drain_step d w s tail out fuel t ∙ q.drained;
              ready = q.ready;
              left = q.left;
              blocked = q.blocked;
              content = q.content ∙ append_assoc out d (flat ds);
            }
      ]
