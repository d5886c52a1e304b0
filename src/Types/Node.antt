-- ===== src/Types/Node.antt =====
-- Words of the protocol and their types (src/types.rs). The standard library's UTF-8 `String` is
-- the list of its bytes.
use svn.Base.{Bytes, text, bytes_eq, if◌then◌else◌}

pub data NodeKind : Type 0 where
  none file dir unknown : NodeKind

unfoldable pub from_word : Bytes → NodeKind
from_word w =
    if bytes_eq w (text "none")
    then NodeKind.none
    else if bytes_eq w (text "file")
    then NodeKind.file
    else if bytes_eq w (text "dir")
    then NodeKind.dir
    else NodeKind.unknown

unfoldable pub as_str : NodeKind → Bytes
as_str NodeKind.none = text "none"
as_str NodeKind.file = text "file"
as_str NodeKind.dir = text "dir"
as_str NodeKind.unknown = text "unknown"

pub data MergeInfoInheritance : Type 0 where
  explicit inherited nearest_ancestor : MergeInfoInheritance

unfoldable pub inheritance_word : MergeInfoInheritance → Bytes
inheritance_word explicit = text "explicit"
inheritance_word inherited = text "inherited"
inheritance_word nearest_ancestor = text "nearest-ancestor"

pub data DirentField : Type 0 where
  kind size has_props created_rev time last_author word : DirentField

unfoldable pub field_word : DirentField → Bytes
field_word kind = text "kind"
field_word size = text "size"
field_word has_props = text "has-props"
field_word created_rev = text "created-rev"
field_word time = text "time"
field_word last_author = text "last-author"
field_word word = text "word"

pub data Capability : Type 0 where
  edit_pipeline svndiff1 accepts_svndiff2 absent_entries commit_rev_props merge_info depth :
      Capability
  atomic_rev_props inherited_props log_rev_props partial_replay ephemeral_txn_props : Capability
  get_file_revs_reverse list : Capability

unfoldable pub as_wire_word : Capability → Bytes
as_wire_word edit_pipeline = text "edit-pipeline"
as_wire_word svndiff1 = text "svndiff1"
as_wire_word accepts_svndiff2 = text "accepts-svndiff2"
as_wire_word absent_entries = text "absent-entries"
as_wire_word commit_rev_props = text "commit-revprops"
as_wire_word merge_info = text "mergeinfo"
as_wire_word depth = text "depth"
as_wire_word atomic_rev_props = text "atomic-revprops"
as_wire_word inherited_props = text "inherited-props"
as_wire_word log_rev_props = text "log-revprops"
as_wire_word partial_replay = text "partial-replay"
as_wire_word ephemeral_txn_props = text "ephemeral-txnprops"
as_wire_word get_file_revs_reverse = text "file-revs-reverse"
as_wire_word list = text "list"
