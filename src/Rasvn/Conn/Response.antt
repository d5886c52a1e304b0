-- ===== src/Rasvn/Conn/Response.antt =====
-- Responses to commands: `CommandResponse` (src/rasvn/conn/mod.rs) and `read_command_response`
-- (src/rasvn/conn/io.rs).
use svn.Base.{
  ◌<◌, ◌^◌, ◌≡◌, refl, ap, ◌∙◌, arith, List, [], ◌∷◌, ◌++◌, Bytes, text, bytes_eq, length, Bool,
  true, false, not, if◌then◌else◌, Option, none, some, Result, ok, err, SvnError, invalid_url,
  invalid_path, io, protocol, auth_unavailable, auth_failed, server, ServerError, ok_or, ◌>>=◌,
}
use svn.Base.Utf8.{is_utf8}
use svn.Rasvn.Item.{SvnItem, list, items, as_word, as_list, as_u64, to_list, encode_item}
use svn.Rasvn.Edit.Decode.{refuse}
use svn.Rasvn.Parse.Failure.{
  parse_server_error, error_chain, push_error, lossy_string, non_empty, with_context,
  message_summary, messages, summary_of, join_messages, display,
}
use svn.Rasvn.Conn.Read.{Reader, Step, Read}
use svn.Rasvn.Conn.Io.{read_item}
use svn.Rasvn.Conn.Write.{failure_item}
use svn.Rasvn.Conn.Stream.{upcoming}
use svn.Rasvn.Conn.Tokens.{IsToken}
use svn.Rasvn.Conn.RoundTrip.{IsReadable, AreReadable, read_item-encode_item}

pub record CommandResponse : Type 0 where
  pub success : Bool
  pub params : List SvnItem
  pub errors : List SvnItem

abbrev succeeded : List SvnItem → CommandResponse
succeeded params = record { success = true; params = params; errors = [] }

abbrev failed : List SvnItem → CommandResponse
failed errors = record { success = false; params = []; errors = errors }

-- The kind and what stands behind it.
unfoldable pub response_of : Bytes → SvnItem → Result CommandResponse
response_of kind payload =
    if bytes_eq kind (text "success")
    then (ok_or (protocol (text "command response params not a list")) (as_list payload)
        >>= λ params. ok (succeeded params))
    else if bytes_eq kind (text "failure")
    then (ok_or (protocol (text "command response errors not a list")) (as_list payload)
        >>= λ errors. ok (failed errors))
    else refuse (text "unexpected command response kind: " ++ kind)

abbrev pub with_payload : Bytes → List SvnItem → Result CommandResponse
with_payload kind (payload ∷ []) = response_of kind payload
with_payload kind _ = refuse (text "command response must contain kind and parameter list")

abbrev pub response_parts : List SvnItem → Result CommandResponse
response_parts [] = refuse (text "empty command response")
response_parts (k ∷ rest) =
    ok_or (protocol (text "command response kind not a word")) (as_word k) >>= λ kind.
    with_payload kind rest

unfoldable pub response_item : SvnItem → Result CommandResponse
unfolding response_of
response_item (list xs) = response_parts (to_list xs)
response_item _ = refuse (text "command response not a list")

abbrev pub after_response : Step SvnItem → Step CommandResponse
after_response (r, err e) = (r, err e)
after_response (r, ok x) = (r, response_item x)

unfoldable pub read_command_response : Read CommandResponse
unfolding response_item
read_command_response r = after_response (read_item r)

unfoldable pub is_failure : CommandResponse → Bool
is_failure c = not c.success

module _ (from_utf8_lossy : Bytes → Bytes) where
  unfoldable pub failure_server_error : CommandResponse → ServerError
  failure_server_error c = parse_server_error from_utf8_lossy c.errors

  unfoldable pub failure : CommandResponse → Bytes → SvnError
  unfolding failure_server_error
  failure c ctx = server (with_context ctx (failure_server_error c))

  unfoldable pub success_params : CommandResponse → Bytes → Result (List SvnItem)
  unfolding failure
  success_params c ctx = if c.success then ok c.params else err (failure c ctx)

  unfoldable pub ensure_success : CommandResponse → Bytes → Result (Unit {0})
  unfolding success_params
  ensure_success c ctx = success_params c ctx >>= λ params. ok tt

  unfoldable pub failure_message : CommandResponse → Bytes
  unfolding failure_server_error
  failure_message c = message_summary (failure_server_error c)

failure_item-IsReadable :
    (e : SvnError) → length (display e) < 2 ^ 63 → IsReadable 0 (failure_item e)
unfolding IsReadable AreReadable failure_item text is_utf8 bytes_eq
failure_item-IsReadable e h =
    let token : IsToken (text "failure") = (
      refl,
      refl,
      (refl, refl, (refl, refl, (refl, refl, (refl, refl, (refl, refl, (refl, refl, tt)))))),
    ) in
    (
      omega arith,
      (
        ((102, text "ailure", refl, refl, token, refl), refl, refl),
        (
          (omega arith, ((omega arith, (omega arith, (h, (omega arith, (omega arith, tt))))), tt)),
          tt,
        ),
      ),
    )

abbrev pub reported : SvnError → List SvnItem
reported e =
    list (
      items
        (SvnItem.number 1 ∷ SvnItem.string (display e) ∷ SvnItem.string [] ∷ SvnItem.number 0 ∷ []))
    ∷ []

display-non_empty : (e : SvnError) → non_empty (some (display e)) ≡ some (display e)
unfolding non_empty display text
display-non_empty (invalid_url m) = refl
display-non_empty (invalid_path m) = refl
display-non_empty (io m) = refl
display-non_empty (protocol m) = refl
display-non_empty auth_unavailable = refl
display-non_empty (auth_failed m) = refl
display-non_empty (server e) = refl

response-failure_item : (e : SvnError) → response_item (failure_item e) ≡ ok (failed (reported e))
unfolding response_item response_of failure_item as_word as_list bytes_eq text
response-failure_item e = refl

failure_message-reported :
    (from_utf8_lossy : Bytes → Bytes) (e : SvnError)
    → from_utf8_lossy (display e) ≡ display e
    → failure_message from_utf8_lossy (failed (reported e)) ≡ display e
unfolding failure_message failure_server_error parse_server_error error_chain push_error
    lossy_string message_summary messages summary_of join_messages as_u64
failure_message-reported from_utf8_lossy e same =
    let one =
      λ (o : Option Bytes). summary_of (elim (non_empty o) [ none ↦ [] | some m ↦ m ∷ [] ]) in
    ap (λ (t : Bytes). one (non_empty (some t))) same
    ∙ ap one (display-non_empty e)
    ∙ ap (λ (o : Option Bytes). summary_of (elim o [ none ↦ [] | some m ↦ m ∷ [] ]))
        (display-non_empty e)

-- The report of an error is read as a failure whose message is the text of the error, whichever
-- reads it comes in, where the text has less than 2 ^ 63 bytes and is not changed by the lossy
-- conversion to UTF-8.
pub read_command_response-failure_item :
    (from_utf8_lossy : Bytes → Bytes) (e : SvnError) (rest : Bytes) (r : Reader)
    → length (display e) < 2 ^ 63
    → from_utf8_lossy (display e) ≡ display e
    → upcoming r ≡ encode_item (failure_item e) [] ++ rest
    → (r' : Reader) × (c : CommandResponse) × (read_command_response r ≡ (r', ok c))
      × (is_failure c ≡ true)
      × (failure_message from_utf8_lossy c ≡ display e)
      × (upcoming r' ≡ rest)
unfolding read_command_response is_failure
read_command_response-failure_item from_utf8_lossy e rest r h same up =
    let (r', run, left) =
      read_item-encode_item (failure_item e) rest r (failure_item-IsReadable e h) up in
    (
      r',
      failed (reported e),
      ap after_response run ∙ ap (λ x. (r', x)) (response-failure_item e),
      refl,
      failure_message-reported from_utf8_lossy e same,
      left,
    )
