-- ===== src/Textdelta/Applier/File.antt =====
-- The appliers over a base in a file (src/textdelta/applier.rs), `TextDeltaApplierFileSync` and
-- `TextDeltaApplierFile`, which have the same steps. The file system is a parameter.
pub mod Agree
use svn.Base.{
  ℕ, zero, suc, ◌+◌, [], ◌∷◌, List, Bytes, text, ltb, ◌==◌, if◌then◌else◌, Option, none, some,
  Result, ok, err, protocol, ◌>>=◌, ◌>>◌, ok_or, refuse_if,
}
use svn.Base.Words.{checked_add}
use svn.Codec.{Codec}
use svn.Textdelta.Apply.{apply_window_source}
use svn.Textdelta.Applier as Applier
use svn.Textdelta.Applier.{Pushed}
use svn.Textdelta.Stream
use svn.Textdelta.Stream.{SvndiffStream, ParsedWindow}
use svn.Textdelta.Window.{
  WindowHeader, decode_section, delta_window_max, max_instruction_section_len,
}

-- Open files as the appliers use them.
pub record FileSystem (F W : Type 0) : Type 0 where
  -- `file.metadata()?.len()`
  pub file_len : F → Result ℕ
  -- `seek(SeekFrom::Start(offset))`, then `read_exact` of a buffer.
  pub read_at : F → ℕ → ℕ → Result Bytes
  -- `seek(SeekFrom::Start(0))`, then `copy` to the writer.
  pub copy : F → W → W × Result (Unit {0})

pub record FileApplier (F : Type 0) : Type 0 where
  pub base : Option F
  pub base_len : ℕ
  pub stream : SvndiffStream

module _ {F W : Type 0} (files : FileSystem F W) where
  unfoldable pub base_size : Option F → Result ℕ
  base_size none = ok 0
  base_size (some file) = files.file_len file

  unfoldable pub new : Option F → Result (FileApplier F)
  unfolding base_size
  new base = do
    base_len ← base_size base
    ok (record { base = base; base_len = base_len; stream = Stream.empty })

  unfoldable pub read_base : Option F → ℕ → ℕ → Result Bytes
  read_base none offset len = err (protocol (text "svndiff source view out of bounds for base"))
  read_base (some file) offset len = files.read_at file offset len

  unfoldable pub read_nonempty_view : Option F → ℕ → WindowHeader → Result Bytes
  unfolding read_base
  read_nonempty_view base base_len window = do
    end ←
        ok_or (protocol (text "svndiff source view overflow"))
          (checked_add window.sview_offset window.sview_len)
    refuse_if (ltb base_len end) (protocol (text "svndiff source view out of bounds for base"))
    read_base base window.sview_offset window.sview_len

  unfoldable pub read_source_view : Option F → ℕ → WindowHeader → Result Bytes
  unfolding read_nonempty_view
  read_source_view base base_len window =
      if window.sview_len == 0 then ok [] else read_nonempty_view base base_len window

  -- What a window writes, from a base in a file.
  unfoldable pub file_window_data : Codec → Option F → ℕ → ParsedWindow → Result Bytes
  unfolding read_source_view
  file_window_data c base base_len p = do
    instructions ← decode_section c p.version p.ins_wire max_instruction_section_len
    new_data ← decode_section c p.version p.new_wire delta_window_max
    source_view ← read_source_view base base_len p.window
    apply_window_source source_view p.window.tview_len instructions new_data

  -- `base.take()`: the whole file, if there is one.
  unfoldable pub copy_base : Option F → W → W × Result (Unit {0})
  copy_base none out = (out, ok tt)
  copy_base (some file) out = files.copy file out

  unfoldable pub finish : FileApplier F → W → W × Result (Unit {0})
  unfolding copy_base
  finish a out =
      if Stream.is_identity a.stream then copy_base a.base out else (out, Stream.finish a.stream)

  module _ (write_all : W → Bytes → W × Result (Unit {0})) (c : Codec) where
    -- The applier has the stream that the loop leaves.
    unfoldable pub with_stream :
        FileApplier F → Pushed write_all → (FileApplier F × W) × Result (Unit {0})
    with_stream a ((s, out), r) = ((record a { stream = s }, out), r)

    unfoldable pub push : FileApplier F → Bytes → W → (FileApplier F × W) × Result (Unit {0})
    unfolding with_stream
    push a chunk out =
        with_stream a
          (Applier.push write_all (file_window_data c a.base a.base_len) a.stream chunk out)

    unfoldable pub after_chunk :
        (FileApplier F → W → W × Result (Unit {0}))
        → (FileApplier F × W) × Result (Unit {0})
        → W × Result (Unit {0})
    after_chunk again ((a, out), err e) = (out, err e)
    after_chunk again ((a, out), ok _) = again a out

    -- A caller's use of an applier: chunks that are pushed until one fails, and the finish.
    unfoldable pub push_all : List Bytes → FileApplier F → W → W × Result (Unit {0})
    unfolding push finish after_chunk
    push_all [] a out = finish a out
    push_all (chunk ∷ chunks) a out = after_chunk (push_all chunks) (push a chunk out)

    unfoldable pub after_new : List Bytes → W → Result (FileApplier F) → W × Result (Unit {0})
    unfolding push_all
    after_new chunks out (err e) = (out, err e)
    after_new chunks out (ok a) = push_all chunks a out

    unfoldable pub apply_textdelta_file : Option F → List Bytes → W → W × Result (Unit {0})
    unfolding after_new new
    apply_textdelta_file base chunks out = after_new chunks out (new base)
