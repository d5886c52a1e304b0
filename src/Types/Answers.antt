-- ===== src/Types/Answers.antt =====
-- What the client returns (src/types.rs).
use svn.Base.{ℕ, List, Bytes, Option, Bool}
use svn.Types.{PropertyList}
use svn.Types.Node.{NodeKind}

pub record InheritedProps : Type 0 where
  pub path : Bytes
  pub props : PropertyList

pub record RepositoryInfo : Type 0 where
  pub uuid : Bytes
  pub root_url : Bytes
  pub capabilities : List Bytes

pub record ServerInfo : Type 0 where
  pub server_caps : List Bytes
  pub repository : RepositoryInfo

pub record CommitInfo : Type 0 where
  pub new_rev : ℕ
  pub date : Option Bytes
  pub author : Option Bytes
  pub post_commit_err : Option Bytes

pub record LocationEntry : Type 0 where
  pub rev : ℕ
  pub path : Bytes

pub record LocationSegment : Type 0 where
  pub range_start : ℕ
  pub range_end : ℕ
  pub path : Option Bytes

pub record PropDelta : Type 0 where
  pub name : Bytes
  pub value : Option Bytes

pub record FileRev : Type 0 where
  pub path : Bytes
  pub rev : ℕ
  pub rev_props : PropertyList
  pub prop_deltas : List PropDelta
  pub merged_revision : Bool
  pub delta_chunks : List Bytes

pub record LockDesc : Type 0 where
  pub path : Bytes
  pub token : Bytes
  pub owner : Bytes
  pub comment : Option Bytes
  pub created : Bytes
  pub expires : Option Bytes

pub record ChangedPath : Type 0 where
  pub action : Bytes
  pub path : Bytes
  pub copy_from_path : Option Bytes
  pub copy_from_rev : Option ℕ
  pub node_kind : Option NodeKind
  pub text_mods : Option Bool
  pub prop_mods : Option Bool

pub record LogEntry : Type 0 where
  pub rev : ℕ
  pub changed_paths : List ChangedPath
  pub author : Option Bytes
  pub date : Option Bytes
  pub message : Option Bytes
  pub rev_props : PropertyList
  pub has_children : Bool
  pub invalid_revnum : Bool
  pub subtractive_merge : Bool

pub record DirEntry : Type 0 where
  pub name : Bytes
  pub path : Bytes
  pub kind : NodeKind
  pub size : Option ℕ
  pub has_props : Option Bool
  pub created_rev : Option ℕ
  pub created_date : Option Bytes
  pub last_author : Option Bytes

pub record DirListing : Type 0 where
  pub rev : ℕ
  pub entries : List DirEntry

pub record StatEntry : Type 0 where
  pub kind : NodeKind
  pub size : Option ℕ
  pub has_props : Option Bool
  pub created_rev : Option ℕ
  pub created_date : Option Bytes
  pub last_author : Option Bytes
