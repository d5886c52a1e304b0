-- ===== src/Textdelta/Applier.antt =====
-- The incremental appliers (src/textdelta/applier.rs). The writer is the caller's: a state `W`
-- with its `write_all`. The functions with and without `await` have the same steps.
pub mod Frame
pub mod Drain
pub mod Run
pub mod Fulltext
pub mod Feed
pub mod Fuel
pub mod File
use svn.Base.{
  ℕ, zero, suc, ◌+◌, [], ◌∷◌, ◌++◌, List, Bytes, text, length, take, drop, ltb, ◌==◌, if◌then◌else◌,
  Option, none, some, Result, ok, err, protocol, ◌>>=◌, ◌>>◌, ok_or, refuse_if,
}
use svn.Base.Words.{checked_add}
use svn.Codec.{Codec}
use svn.Textdelta.Apply.{apply_window, apply_window_source}
use svn.Textdelta.Stream
use svn.Textdelta.Stream.{SvndiffStream, ParsedWindow}
use svn.Textdelta.Window.{
  WindowHeader, decode_section, delta_window_max, max_instruction_section_len,
}

-- What a window writes, from a base in memory.
unfoldable pub window_data : Codec → Bytes → ParsedWindow → Result Bytes
window_data c base p = do
  instructions ← decode_section c p.version p.ins_wire max_instruction_section_len
  new_data ← decode_section c p.version p.new_wire delta_window_max
  apply_window base p.window instructions new_data

module _ {W : Type 0} (write_all : W → Bytes → W × Result (Unit {0})) where
  abbrev Pushed : Type 0
  Pushed = (SvndiffStream × W) × Result (Unit {0})

  -- The rest of a round, behind `next_window`: decode, apply and write, then go on with `again`.
  unfoldable pub after_write :
      (SvndiffStream → W → Pushed) → SvndiffStream → W × Result (Unit {0}) → Pushed
  after_write again s (out, err e) = ((s, out), err e)
  after_write again s (out, ok _) = again s out

  unfoldable pub after_next :
      (ParsedWindow → Result Bytes)
      → (SvndiffStream → W → Pushed)
      → W
      → SvndiffStream × Result (Option ParsedWindow)
      → Pushed
  unfolding after_write
  after_next data_of again out (s, err e) = ((s, out), err e)
  after_next data_of again out (s, ok none) = ((s, out), ok tt)
  after_next data_of again out (s, ok (some p)) = elim (data_of p) [
    | err e ↦ ((s, out), err e)
    | ok written ↦ after_write again s (write_all out written)
  ]

  -- `while let Some(…) = stream.next_window()?`, given what a window writes. Each round takes a
  -- window out of the buffer.
  unfoldable pub drain : (ParsedWindow → Result Bytes) → ℕ → SvndiffStream → W → Pushed
  unfolding after_next
  drain data_of zero s out = ((s, out), ok tt)
  drain data_of (suc fuel) s out =
      after_next data_of (drain data_of fuel) out (Stream.next_window s)

  unfoldable pub after_push :
      (ParsedWindow → Result Bytes) → W → SvndiffStream × Result (Unit {0}) → Pushed
  unfolding drain
  after_push data_of out (s, err e) = ((s, out), err e)
  after_push data_of out (s, ok _) = drain data_of (suc (length (Stream.available s))) s out

  unfoldable pub push : (ParsedWindow → Result Bytes) → SvndiffStream → Bytes → W → Pushed
  unfolding after_push
  push data_of s chunk out = after_push data_of out (Stream.push s chunk)

  -- An empty stream stands for the base itself.
  unfoldable pub finish : Bytes → SvndiffStream → W → W × Result (Unit {0})
  finish base s out = if Stream.is_identity s then write_all out base else (out, Stream.finish s)

  unfoldable pub after_chunk :
      (SvndiffStream → W → W × Result (Unit {0})) → Pushed → W × Result (Unit {0})
  after_chunk again ((s, out), err e) = (out, err e)
  after_chunk again ((s, out), ok _) = again s out

  -- `for chunk in chunks { applier.push(chunk, out)?; } applier.finish(out)`
  unfoldable pub push_all :
      (ParsedWindow → Result Bytes) → Bytes → List Bytes → SvndiffStream → W → W × Result (Unit {0})
  unfolding push finish after_chunk
  push_all data_of base [] s out = finish base s out
  push_all data_of base (chunk ∷ chunks) s out =
      after_chunk (push_all data_of base chunks) (push data_of s chunk out)

  unfoldable pub apply_textdelta : Codec → Bytes → List Bytes → W → W × Result (Unit {0})
  unfolding push_all
  apply_textdelta c base chunks out = push_all (window_data c base) base chunks Stream.empty out

-- `Vec<u8>` as a writer.
abbrev pub vec_write : Bytes → Bytes → Bytes × Result (Unit {0})
vec_write out written = (out ++ written, ok tt)
