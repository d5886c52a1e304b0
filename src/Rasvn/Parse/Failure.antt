-- ===== src/Rasvn/Parse/Failure.antt =====
-- Server errors (`parse_server_error` in src/rasvn/parse.rs, `parse_failure` in
-- src/rasvn/edit/decode.rs, and the helpers of src/error.rs). `String::from_utf8_lossy` is a
-- parameter.
use svn.Base.{
  List, [], ◌∷◌, ◌++◌, Bytes, text, Bool, true, false, ◌||◌, Option, none, some, SvnError, server,
  invalid_url, invalid_path, io, protocol, auth_unavailable, auth_failed, ServerError,
  ServerErrorItem, leb, ◌&&◌, ◌+◌, ◌==◌, if◌then◌else◌, map,
}
use svn.Rasvn.Item.{SvnItem, word, string, list, as_string, as_u64, to_list}
use svn.Rasvn.Parse.Scalar.{unwrap_or}

-- `filter(|m| !m.is_empty())`
unfoldable pub non_empty : Option Bytes → Option Bytes
non_empty (some (b ∷ bs)) = some (b ∷ bs)
non_empty _ = none

module _ (from_utf8_lossy : Bytes → Bytes) where
  unfoldable pub lossy_string : SvnItem → Option Bytes
  lossy_string (string bytes) = some (from_utf8_lossy bytes)
  lossy_string (word w) = some w
  lossy_string x = as_string x

  unfoldable pub push_error : List SvnItem → List ServerErrorItem → List ServerErrorItem
  unfolding lossy_string non_empty
  push_error (c ∷ m ∷ f ∷ l ∷ _) chain =
      record {
        code = unwrap_or 0 (as_u64 c);
        message = non_empty (lossy_string m);
        file = non_empty (lossy_string f);
        line = as_u64 l;
      }
      ∷ chain
  push_error _ chain = chain

  unfoldable pub error_chain : List SvnItem → List ServerErrorItem
  unfolding push_error
  error_chain [] = []
  error_chain (list parts ∷ xs) = push_error (to_list parts) (error_chain xs)
  error_chain (_ ∷ xs) = error_chain xs

  unfoldable pub parse_server_error : List SvnItem → ServerError
  unfolding error_chain
  parse_server_error xs = record { context = none; chain = error_chain xs }

  unfoldable pub parse_failure : List SvnItem → SvnError
  unfolding parse_server_error
  parse_failure params = server (parse_server_error params)

unfoldable pub with_context : Bytes → ServerError → ServerError
with_context context e = record e { context = some context }

-- The messages that are there and are not empty.
unfoldable pub messages : List ServerErrorItem → List Bytes
unfolding non_empty
messages [] = []
messages (e ∷ es) = elim (non_empty e.message) [ none ↦ messages es | some m ↦ m ∷ messages es ]

-- `join("; ")`
unfoldable pub join_messages : List Bytes → Bytes
join_messages [] = []
join_messages (m ∷ []) = m
join_messages (m ∷ m' ∷ ms) = m ++ text "; " ++ join_messages (m' ∷ ms)

unfoldable pub summary_of : List Bytes → Bytes
unfolding join_messages
summary_of [] = text "unknown error"
summary_of (m ∷ ms) = join_messages (m ∷ ms)

unfoldable pub message_summary : ServerError → Bytes
unfolding summary_of messages
message_summary e = summary_of (messages e.chain)

-- `to_ascii_lowercase`
unfoldable pub to_ascii_lowercase : Bytes → Bytes
to_ascii_lowercase = map (λ b. if leb 65 b && leb b 90 then b + 32 else b)

unfoldable pub starts_with : Bytes → Bytes → Bool
starts_with [] bs = true
starts_with (n ∷ ns) [] = false
starts_with (n ∷ ns) (b ∷ bs) = n == b && starts_with ns bs

-- `contains`
unfoldable pub contains : Bytes → Bytes → Bool
unfolding starts_with
contains needle [] = starts_with needle []
contains needle (b ∷ bs) = starts_with needle (b ∷ bs) || contains needle bs

unfoldable pub any_message : Bytes → List ServerErrorItem → Bool
unfolding contains to_ascii_lowercase
any_message needle [] = false
any_message needle (e ∷ es) = elim e.message [
  | none ↦ any_message needle es
  | some m ↦ contains (to_ascii_lowercase needle) (to_ascii_lowercase m) || any_message needle es
]

unfoldable pub message_contains_case_insensitive : Bytes → ServerError → Bool
unfolding any_message
message_contains_case_insensitive needle e = any_message needle e.chain

unfoldable pub is_missing_revision : ServerError → Bool
unfolding message_contains_case_insensitive
is_missing_revision e = message_contains_case_insensitive (text "missing revision") e

unfoldable pub is_unknown_command : ServerError → Bool
unfolding message_contains_case_insensitive
is_unknown_command e =
    message_contains_case_insensitive (text "unknown command") e
    || message_contains_case_insensitive (text "unknown cmd") e

abbrev context_prefix : Option Bytes → Bytes
context_prefix none = []
context_prefix (some c) = elim c [ [] ↦ [] | b ∷ bs ↦ (b ∷ bs) ++ text ": " ]

unfoldable pub display_server_error : ServerError → Bytes
unfolding message_summary
display_server_error e = context_prefix e.context ++ message_summary e

-- `SvnError::to_string`
unfoldable pub display : SvnError → Bytes
unfolding display_server_error
display (invalid_url m) = text "invalid svn url: " ++ m
display (invalid_path m) = text "invalid path: " ++ m
display (io m) = text "io error: " ++ m
display (protocol m) = text "protocol error: " ++ m
display auth_unavailable = text "auth required but no supported mechanism"
display (auth_failed m) = text "auth failed: " ++ m
display (server e) = text "server error: " ++ display_server_error e
