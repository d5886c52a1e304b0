-- ===== src/Rasvn/Conn/Handshake.antt =====
-- The handshake (src/rasvn/conn/handshake.rs). The read timeout belongs to the stream, and
-- formatting with `{:?}` is a parameter.
use svn.Base.{
  ℕ, ◌+◌, ◌-◌, List, [], ◌∷◌, ◌++◌, Bytes, text, length, take, drop, leb, ltb, ◌==◌, Bool, false,
  not, ◌&&◌, if◌then◌else◌, Option, none, some, map, Result, ok, err, protocol, io, ok_or,
  refuse_if, ◌>>=◌, ◌>>◌,
}
use Prim.Native.Nat.{min}
use svn.Types.Node.{
  Capability, edit_pipeline, svndiff1, accepts_svndiff2, absent_entries, depth, merge_info,
  log_rev_props, as_wire_word,
}
use svn.Types.Answers.{RepositoryInfo, ServerInfo}
use svn.Rasvn.Item.{SvnItem, word, number, string, list, items, as_u64}
use svn.Rasvn.Wire.{encode_decimal_u64}
use svn.Rasvn.Edit.Decode.{refuse}
use svn.Rasvn.Parse.Scalar.{parse_word_list}
use svn.Rasvn.Parse.Entry.{parse_repos_info}
use svn.Rasvn.Conn.Read.{Arrival, bytes, failure, Reader, Step, Read, after_step}
use svn.Rasvn.Conn.Io.{is_whitespace}
use svn.Rasvn.Conn.Write.{Writer, write_item}
use svn.Rasvn.Conn.Response.{success_params, read_command_response}
use svn.Rasvn.Conn.Auth.{Identity, offers, written, handle_auth_request}

pub record Session : Type 0 where
  pub who : Identity
  pub url : Bytes
  pub ra_client : Bytes
  pub server_caps : List Bytes
  pub writer : Writer

-- `server_has_cap`
unfoldable pub server_has_cap : List Bytes → Bytes → Bool
unfolding offers
server_has_cap caps cap = offers cap caps

-- From the whitespace behind an opening parenthesis on.
unfoldable pub find_greeting : Bool → Bytes → Option Bytes
find_greeting saw_lparen [] = none
find_greeting saw_lparen (b ∷ bs) =
    let later = find_greeting (b == 40) bs in
    if saw_lparen && is_whitespace b then some (b ∷ bs) else later

-- Whether the last byte is an opening parenthesis.
unfoldable pub ends_with_lparen : Bool → Bytes → Bool
ends_with_lparen saw_lparen [] = saw_lparen
ends_with_lparen saw_lparen (b ∷ bs) = ends_with_lparen (b == 40) bs

unfoldable pub with_preview : Bytes → Bytes → Bytes
with_preview preview bs =
    if ltb (length preview) 1024
    then preview ++ take (min (1024 - length preview) (length bs)) bs
    else preview

module _ (debug_preview : Bytes → Bytes) where
  unfoldable pub discard : List Arrival → ℕ → Bool → Bytes → Reader → Step (Unit {0})
  unfolding find_greeting ends_with_lparen with_preview
  discard [] total saw_lparen preview r = (r, err (protocol (text "unexpected EOF")))
  discard (bytes [] ∷ rest) total saw_lparen preview r =
      (record r { input = rest }, err (protocol (text "unexpected EOF")))
  discard (failure e ∷ rest) total saw_lparen preview r = (record r { input = rest }, err (io e))
  discard (bytes (b ∷ bs) ∷ rest) total saw_lparen preview r =
      let later =
        discard rest (total + length (b ∷ bs)) (ends_with_lparen saw_lparen (b ∷ bs))
          (with_preview preview (b ∷ bs)) (record r { input = rest }) in
      if ltb 65536 (total + length (b ∷ bs))
      then (
        record r { input = rest },
        err (
            protocol (
              text
                "tunnel produced non-svn output before greeting; discarded >65536 bytes; start of output: "
              ++ debug_preview (with_preview preview (b ∷ bs)))),
      )
      else elim (find_greeting saw_lparen (b ∷ bs)) [
        | none ↦ later
        | some greeting ↦
            (record r { buf = r.buf ++ (40 ∷ greeting); pos = 0; input = rest }, ok tt)
      ]

  unfoldable pub skip_leading_garbage : Read (Unit {0})
  unfolding discard find_greeting
  skip_leading_garbage r = elim (find_greeting false (drop r.pos r.buf)) [
    | some greeting ↦ (record r { buf = 40 ∷ greeting; pos = 0 }, ok tt)
    | none ↦ discard r.input 0 false [] (record r { buf = []; pos = 0 })
  ]

unfoldable pub check_greeting : ℕ → ℕ → List Bytes → Result (List Bytes)
unfolding server_has_cap
check_greeting minver maxver caps =
    refuse_if (not (leb minver 2 && leb 2 maxver)) (
      protocol (
        text "server does not support protocol v2 (min="
        ++ encode_decimal_u64 minver []
        ++ text ", max="
        ++ encode_decimal_u64 maxver []
        ++ text ")"))
    >> refuse_if (not (server_has_cap caps (as_wire_word edit_pipeline)))
        (protocol (text "server does not support edit pipelining"))
    >> ok caps

-- The capabilities of a server that greets.
unfoldable pub greeting_caps : List SvnItem → Result (List Bytes)
unfolding check_greeting
greeting_caps (mn ∷ mx ∷ _ ∷ cs ∷ _) = do
  minver ← ok_or (protocol (text "invalid greeting minver")) (as_u64 mn)
  maxver ← ok_or (protocol (text "invalid greeting maxver")) (as_u64 mx)
  caps ← parse_word_list cs (text "greeting caps")
  check_greeting minver maxver caps
greeting_caps _ = refuse (text "greeting params too short")

abbrev pub client_caps : List Capability
client_caps =
    edit_pipeline ∷ svndiff1 ∷ accepts_svndiff2 ∷ absent_entries ∷ depth ∷ merge_info
    ∷ log_rev_props ∷ []

unfoldable pub greeting_response : Bytes → Bytes → SvnItem
greeting_response url ra_client = list (
    items (
      number 2
      ∷ list (items (map (λ cap. word (as_wire_word cap)) client_caps))
      ∷ string url
      ∷ string ra_client
      ∷ list (items [])
      ∷ []))

-- The capabilities of the repository behind those of the server, without repetitions.
unfoldable pub merge_caps : List Bytes → List Bytes → List Bytes
unfolding offers
merge_caps caps [] = caps
merge_caps caps (c ∷ cs) = merge_caps (if offers c caps then caps else (caps ++ (c ∷ []))) cs

module _ (is_blank : Bytes → Bool) (hmac_md5_hex : Bytes → Bytes → Bytes)
    (from_utf8_lossy debug_preview : Bytes → Bytes) (write_all : Bytes → Bytes → Result (Unit {0}))
    (flush : Bytes → Result (Unit {0})) where
  abbrev pub on_repository :
      Session → List Bytes → Writer → Result RepositoryInfo → Read (Session × ServerInfo)
  on_repository s caps w (err e) r = (r, err e)
  on_repository s caps w (ok repository) r =
      let merged = merge_caps caps repository.capabilities in
      (
        r,
        ok (
          record s { server_caps = merged; writer = w },
          record { server_caps = merged; repository = repository },
        ),
      )

  abbrev pub on_authenticated : Session → List Bytes → Step Writer → Step (Session × ServerInfo)
  on_authenticated s caps (r, err e) = (r, err e)
  on_authenticated s caps (r, ok w) = after_step (read_command_response r) (λ info.
      on_repository s caps w
        (success_params from_utf8_lossy info (text "repos-info") >>= parse_repos_info))

  abbrev pub on_caps : Session → Result (List Bytes) → Read (Session × ServerInfo)
  on_caps s (err e) r = (r, err e)
  on_caps s (ok caps) r = on_authenticated s caps (
      after_step
        (written (write_item write_all flush (greeting_response s.url s.ra_client) s.writer) r)
        (handle_auth_request is_blank hmac_md5_hex from_utf8_lossy write_all flush s.who))

  unfoldable pub handshake : Session → Read (Session × ServerInfo)
  unfolding skip_leading_garbage greeting_caps merge_caps greeting_response
  handshake s r =
      after_step
        ((if s.who.is_tunneled then skip_leading_garbage debug_preview else (λ r. (r, ok tt))) r)
        (λ _ r₁. after_step (read_command_response r₁) (λ greeting.
          on_caps s (success_params from_utf8_lossy greeting (text "greeting") >>= greeting_caps)))
