-- ===== src/Tests/Files.antt =====
-- A document applied to a base in a file.
use svn.Base.{◌≡◌, refl, [], ◌∷◌, ◌++◌, Bytes, length, take, drop, some, ok, List}
use svn.Tests.Codecs.{stored}
use svn.Textdelta.Applier.{vec_write, apply_textdelta}
use svn.Textdelta.Applier.File.{FileSystem, apply_textdelta_file}
use svn.Textdelta.Applier.File.Agree.{Holds, apply_textdelta_file-apply_textdelta}

-- Files that are their bytes.
abbrev in_memory : FileSystem Bytes Bytes
in_memory = record {
  file_len = λ f. ok (length f);
  read_at = λ f offset n. ok (take n (drop offset f));
  copy = λ f out. (out ++ f, ok tt);
}

in_memory-Holds : (f : Bytes) → Holds in_memory f f
in_memory-Holds f = record { len = refl; reads = λ offset n h. refl; copies = λ out. refl }

-- The base's last two bytes, then a new one.
abbrev document : List Bytes
document = (0x53 ∷ 0x56 ∷ 0x4e ∷ 0 ∷ 1 ∷ 2 ∷ []) ∷ (3 ∷ 3 ∷ 1 ∷ 2 ∷ 0 ∷ 0x81 ∷ 9 ∷ []) ∷ []

document_applied :
    apply_textdelta vec_write stored (6 ∷ 7 ∷ 8 ∷ []) document [] ≡ (7 ∷ 8 ∷ 9 ∷ [], ok tt)
unfolding apply_textdelta svn.Textdelta.Stream.push svn.Textdelta.Window.from_header
    svn.Base.bytes_eq svn.Textdelta.Stream.next_window svn.Textdelta.Stream.parse_pending
    svn.Textdelta.Window.try_parse_window_header svn.Textdelta.Uint.try_decode_uint
    svn.Textdelta.CursorBuf.available svn.Textdelta.CursorBuf.push svn.Textdelta.Stream.take_window
    svn.Textdelta.Stream.window_size svn.Textdelta.Stream.check_sview
    svn.Textdelta.Applier.window_data svn.Textdelta.Window.decode_section
    svn.Textdelta.Apply.apply_window svn.Textdelta.Apply.instructions_loop svn.Base.text
    svn.Textdelta.Applier.after_chunk svn.Textdelta.Applier.after_next
    svn.Textdelta.Applier.after_push svn.Textdelta.Applier.after_write svn.Textdelta.Applier.drain
    svn.Textdelta.Applier.finish svn.Textdelta.Applier.push svn.Textdelta.Applier.push_all
    svn.Textdelta.Apply.apply_window_source svn.Textdelta.Apply.copy_target
    svn.Textdelta.Apply.finish_window svn.Textdelta.Apply.instruction svn.Textdelta.Apply.operand
    svn.Textdelta.Apply.read_length svn.Textdelta.Apply.run_action svn.Textdelta.Apply.run_new
    svn.Textdelta.Apply.run_source svn.Textdelta.Apply.run_target svn.Textdelta.CursorBuf.consume
    svn.Textdelta.Stream.finish svn.Textdelta.Stream.header_filled svn.Textdelta.Stream.is_identity
    svn.Textdelta.Stream.push_header svn.Textdelta.Stream.push_rest
    svn.Textdelta.Uint.decode_uint_loop svn.Textdelta.Uint.push_seven
    svn.Textdelta.Window.check_window_header svn.Textdelta.Window.decode_lz4_section
    svn.Textdelta.Window.decode_zlib_section svn.Textdelta.Window.lz4_payload
    svn.Textdelta.Window.parse_ins_len svn.Textdelta.Window.parse_new_len
    svn.Textdelta.Window.parse_sview_len svn.Textdelta.Window.parse_tview_len
    svn.Textdelta.Window.zlib_payload
document_applied = refl

apply_textdelta_file-apply_textdelta_example :
    apply_textdelta_file in_memory vec_write stored (some (6 ∷ 7 ∷ 8 ∷ [])) document []
    ≡ (7 ∷ 8 ∷ 9 ∷ [], ok tt)
apply_textdelta_file-apply_textdelta_example =
    apply_textdelta_file-apply_textdelta in_memory stored (some (6 ∷ 7 ∷ 8 ∷ [])) (6 ∷ 7 ∷ 8 ∷ [])
      (in_memory-Holds (6 ∷ 7 ∷ 8 ∷ [])) document [] (7 ∷ 8 ∷ 9 ∷ []) document_applied
