-- ===== src/Textdelta/CursorBuf.antt =====
-- `CursorBuf` (src/textdelta/decode.rs): bytes with a read position, compacted now and then.
pub mod View
use svn.Base.{ℕ, ◌+◌, ◌*◌, [], ◌∷◌, ◌++◌, Bytes, length, drop, ltb, leb, ◌&&◌, if◌then◌else◌}
use svn.Base.Words.{u64_max}
use Prim.Native.Nat.{min}

pub record CursorBuf : Type 0 where
  pub buf : Bytes
  pub start : ℕ

unfoldable pub available : CursorBuf → Bytes
available c = drop c.start c.buf

unfoldable pub push : CursorBuf → Bytes → CursorBuf
push c [] = c
push c (b ∷ bs) = record c { buf = c.buf ++ (b ∷ bs) }

-- `saturating_add`, then the reset at the end of the buffer, or the compaction.
unfoldable pub consume : CursorBuf → ℕ → CursorBuf
consume c n =
    let start' = min (c.start + n) u64_max in
    if leb (length c.buf) start'
    then record { buf = []; start = 0 }
    else if ltb 4096 start' && ltb (length c.buf) (start' * 2)
    then record { buf = drop start' c.buf; start = 0 }
    else record c { start = start' }
