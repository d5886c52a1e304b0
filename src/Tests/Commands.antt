-- ===== src/Tests/Commands.antt =====
-- Commands encoded and read.
use svn.Base.{length, ◌≤◌, arith, ◌≡◌, refl, [], ◌∷◌, text, some, ok}
use svn.Base.Utf8.{is_utf8}
use svn.Path.{validate_rel_path, canonicalize_rel_path}
use svn.Editor.{EditorCommand}
use svn.Rasvn.Wire as Wire
use svn.Rasvn.Wire.Decimal.{read_decimal, AllDigits, encode_decimal_u64_value}
use svn.Rasvn.Wire.{newline}
use svn.Rasvn.Item.{word, number, string, list, items, encode_item}
use svn.Rasvn.Edit.Command.{encode_editor_command}
use svn.Rasvn.Edit.Decode.{parse_editor_event}
use svn.Rasvn.Edit.RoundTrip.{parse_editor_event-encode_editor_command}
use svn.Rasvn.Edit.Sendable.{IsEdit, command_item, command_word, command_params, event_of}

abbrev add_file : EditorCommand
add_file = EditorCommand.add_file (text "trunk/a") (text "d1") (text "c1") (some (text "b/c", 7))

add_file-IsEdit : IsEdit add_file
unfolding is_utf8 validate_rel_path canonicalize_rel_path text
add_file-IsEdit = ((refl, refl), refl, refl, (refl, refl))

parse_editor_event-encode_editor_command_example :
    (encode_editor_command add_file [] ≡ ok (newline (encode_item (command_item add_file) [])))
    × (parse_editor_event (command_word add_file) (command_params add_file)
        ≡ ok (event_of add_file))
parse_editor_event-encode_editor_command_example =
    parse_editor_event-encode_editor_command add_file [] add_file-IsEdit

-- The bytes of the item in the tests of src/rasvn/item.rs.
encode_item_example :
    encode_item
      (list (
        items (
          word (text "word")
          ∷ number 22
          ∷ string (text "string")
          ∷ list (items (word (text "sublist") ∷ []))
          ∷ [])))
      []
    ≡ text "( word 22 6:string ( sublist ) ) "
unfolding encode_item text Wire.list_end Wire.word Wire.list_start Wire.string_bytes
    Wire.encode_decimal_usize Wire.encode_decimal_u64 Wire.number Wire.decimal_loop
encode_item_example = refl

validate_rel_path_collapses :
    validate_rel_path (text "//trunk\\.//a.zip/") ≡ ok (text "trunk/a.zip")
unfolding validate_rel_path canonicalize_rel_path text
validate_rel_path_collapses = refl

encode_decimal_u64_value_example :
    (read_decimal 0 (Wire.encode_decimal_u64 65535 []) ≡ 65535)
    × AllDigits (Wire.encode_decimal_u64 65535 [])
    × (length (Wire.encode_decimal_u64 65535 []) ≤ 20)
encode_decimal_u64_value_example = encode_decimal_u64_value 65535 (omega arith)
