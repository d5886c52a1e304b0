-- ===== src/Rasvn/Conn/Call.antt =====
-- Commands and their responses (src/rasvn/conn/call.rs).
use svn.Base.{[], ◌∷◌, ◌++◌, Bytes, Bool, Result}
use svn.Rasvn.Item.{SvnItem, encode_command_item}
use svn.Rasvn.Conn.Read.{Read, ◌>>=◌, return}
use svn.Rasvn.Conn.Write.{Writer, write_wire_bytes}
use svn.Rasvn.Conn.Response.{CommandResponse, read_command_response}
use svn.Rasvn.Conn.Auth.{Identity, written, handle_auth_request}

module _ (is_blank : Bytes → Bool) (hmac_md5_hex : Bytes → Bytes → Bytes)
    (from_utf8_lossy : Bytes → Bytes) (write_all : Bytes → Bytes → Result (Unit {0}))
    (flush : Bytes → Result (Unit {0})) (who : Identity) where
  unfoldable pub send_command : Bytes → SvnItem → Writer → Writer × Result (Unit {0})
  send_command command params =
      write_wire_bytes write_all flush (encode_command_item command params [] ++ (10 ∷ []))

  unfoldable pub call : Bytes → SvnItem → Writer → Read (Writer × CommandResponse)
  unfolding send_command
  call command params w = written (send_command command params w) >>= λ w₁.
      handle_auth_request is_blank hmac_md5_hex from_utf8_lossy write_all flush who w₁ >>= λ w₂.
      read_command_response >>= λ response. return (w₂, response)
