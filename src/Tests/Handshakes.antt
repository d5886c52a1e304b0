-- ===== src/Tests/Handshakes.antt =====
-- A handshake with a server that asks for no authentication.
use svn.Base.{
  ◌<◌, ◌^◌, length, arith, ◌≡◌, ◌≢◌, refl, List, [], ◌∷◌, ◌++◌, Bytes, text, bytes_eq, Bool, false,
  Option, none, some, Result, ok,
}
use svn.Base.Utf8.{from_utf8, is_utf8}
use svn.Types.Node.{as_wire_word}
use svn.Types.Answers.{ServerInfo}
use svn.Rasvn.Wire as Wire
use svn.Rasvn.Wire.{encode_decimal_u64, encode_decimal_usize, decimal_loop}
use svn.Rasvn.Item.{as_word, as_u64, as_string, as_list, encode_item, encode_items}
use svn.Rasvn.Parse.Scalar.{parse_word_list, word_entry}
use svn.Rasvn.Parse.Entry.{parse_repos_info}
use svn.Rasvn.Conn.Read.{Reader, bytes, loop, rounds, weight}
use svn.Rasvn.Conn.Io.{
  receive, fill, peek_body, peek_byte, consume_byte, skip_ws_body, skip_ws, require_ws, push_digit,
  parse_digits_body, parse_digits, parse_word_body, parse_word, read_exact_body, read_exact_vec,
  number_or_string, word_or_bool, read_atom, read_list_body, read_list, read_item,
}
use svn.Rasvn.Conn.Write.{Writer, write_item, write_wire_bytes}
use svn.Rasvn.Conn.Response.{read_command_response, response_item, response_of, success_params}
use svn.Rasvn.Conn.Stream.{upcoming}
use svn.Rasvn.Conn.Exchange.{exchange-HasRun}
use svn.Rasvn.Conn.Runs.{HasRun}
use svn.Rasvn.Conn.Cram.{step_item, consent, cram_item, reply, try_mechs-cram}
use svn.Rasvn.Conn.Auth.{
  Identity, exchange_body, try_mechs, offers, select_mechs, preferred, handle_auth_request,
  handle_auth_request_response,
}
use svn.Rasvn.Conn.Choices.{AreAllowed, select_mechs-AreAllowed}
use svn.Rasvn.Conn.Handshake.{
  Session, greeting_caps, check_greeting, server_has_cap, greeting_response, merge_caps, handshake,
}
use svn.Rasvn.Conn.Pipeline.{HasPipeline, handshake-HasPipeline}

abbrev not_blank : Bytes → Bool
not_blank bs = false

abbrev no_digest : Bytes → Bytes → Bytes
no_digest key challenge = []

abbrev same : Bytes → Bytes
same bs = bs

abbrev take_all : Bytes → Bytes → Result (Unit {0})
take_all sent more = ok tt

abbrev flush : Bytes → Result (Unit {0})
flush sent = ok tt

abbrev user : Identity
user = record { username = some (text "u"); password = some (text "p"); is_tunneled = false }

abbrev choices : List (Bytes × Option Bytes)
choices = (text "CRAM-MD5", none) ∷ (text "ANONYMOUS", some []) ∷ []

choices_selected :
    select_mechs not_blank no_digest same take_all flush user
      (text "ANONYMOUS" ∷ text "CRAM-MD5" ∷ [])
    ≡ ok choices
unfolding select_mechs preferred offers bytes_eq text
choices_selected = refl

select_mechs-AreAllowed_example :
    AreAllowed not_blank no_digest same take_all flush user
      (text "ANONYMOUS" ∷ text "CRAM-MD5" ∷ [])
      choices
    × (choices ≢ [])
select_mechs-AreAllowed_example =
    select_mechs-AreAllowed not_blank no_digest same take_all flush user
      (text "ANONYMOUS" ∷ text "CRAM-MD5" ∷ []) choices choices_selected

abbrev greeting : Reader
greeting = record {
  buf = [];
  pos = 0;
  input =
      bytes (text "( success ( 2 2 ( ) ( edit-pipeline ) ) ) ")
      ∷ bytes (text "( success ( ( ) 1:r ) ) ( success ( 1:u 1:w ( svndiff1 ) ) ) ")
      ∷ [];
}

abbrev before : Session
before = record {
  who = user;
  url = text "w";
  ra_client = text "c";
  server_caps = [];
  writer = record { sent = []; attempts = [] };
}

abbrev caps : List Bytes
caps = text "edit-pipeline" ∷ text "svndiff1" ∷ []

abbrev after : Session
after = record before {
  server_caps = caps;
  writer = record {
    sent =
        text
          "( 2 ( edit-pipeline svndiff1 accepts-svndiff2 absent-entries depth mergeinfo log-revprops ) 1:w 1:c ( ) ) "
        ++ (10 ∷ []);
    attempts = [];
  };
}

abbrev info : ServerInfo
info = record {
  server_caps = caps;
  repository = record { uuid = text "u"; root_url = text "w"; capabilities = text "svndiff1" ∷ [] };
}

abbrev finished : Reader
finished = record {
  buf = text "( success ( ( ) 1:r ) ) ( success ( 1:u 1:w ( svndiff1 ) ) ) ";
  pos = 61;
  input = [];
}

handshake_done :
    handshake not_blank no_digest same same take_all flush before greeting
    ≡ (finished, ok (after, info))
unfolding text bytes_eq from_utf8 is_utf8 as_wire_word Wire.word Wire.number Wire.string_bytes
    Wire.list_start Wire.list_end encode_decimal_u64 encode_decimal_usize decimal_loop as_word
    as_u64 as_string as_list encode_item encode_items parse_word_list word_entry parse_repos_info
    loop rounds weight receive fill peek_body peek_byte consume_byte skip_ws_body skip_ws require_ws
    push_digit parse_digits_body parse_digits parse_word_body parse_word read_exact_body
    read_exact_vec number_or_string word_or_bool read_atom read_list_body read_list read_item
    write_item write_wire_bytes read_command_response response_item response_of success_params
    offers handle_auth_request handle_auth_request_response greeting_caps check_greeting
    server_has_cap greeting_response merge_caps handshake
handshake_done = refl

handshake-HasPipeline_example : HasPipeline caps × (caps ≡ caps)
handshake-HasPipeline_example =
    handshake-HasPipeline not_blank no_digest same same take_all flush before after info greeting
      finished handshake_done

exchange-HasRun_example :
    HasRun
      (exchange_body not_blank no_digest same take_all flush user (text "PLAIN"))
      before.writer
      greeting
exchange-HasRun_example =
    exchange-HasRun not_blank no_digest same take_all flush user (text "PLAIN") before.writer
      greeting

-- A digest that is the key and the challenge.
abbrev digest : Bytes → Bytes → Bytes
digest key challenge = key ++ challenge

abbrev challenged : Reader
challenged = record {
  buf = [];
  pos = 0;
  input =
      bytes (text "( step ( 2:") ∷ bytes (text "xy ) ) ( succe") ∷ bytes (text "ss ( ) ) ") ∷ [];
}

abbrev named : Writer
named = record { sent = text "( CRAM-MD5 ( ) ) " ++ (10 ∷ []); attempts = [] }

abbrev replied : Writer
replied = record {
  sent = text "( CRAM-MD5 ( ) ) " ++ (10 ∷ text "5:u pxy " ++ (10 ∷ []));
  attempts = [];
}

mechanism_written : write_item take_all flush cram_item before.writer ≡ (named, ok tt)
unfolding write_item write_wire_bytes encode_item encode_items Wire.word Wire.list_start
    Wire.list_end text
mechanism_written = refl

reply_written :
    write_item take_all flush
      (reply not_blank digest same take_all flush (text "u") (text "p") false (text "xy"))
      named
    ≡ (replied, ok tt)
unfolding write_item write_wire_bytes encode_item encode_items Wire.string_bytes
    encode_decimal_usize encode_decimal_u64 decimal_loop text
reply_written = refl

challenged-upcoming :
    upcoming challenged ≡ encode_item (step_item (text "xy")) [] ++ (encode_item consent [] ++ [])
unfolding encode_item encode_items Wire.word Wire.string_bytes Wire.list_start Wire.list_end
    encode_decimal_usize encode_decimal_u64 decimal_loop text
challenged-upcoming = refl

challenge_short : length (text "xy") < 2 ^ 63
unfolding text
challenge_short = omega arith

try_mechs-cram_example :
    (r' : Reader) × (try_mechs not_blank digest same take_all flush user
        ((text "CRAM-MD5", none) ∷ [])
        none
        before.writer
        challenged
      ≡ (r', ok replied))
    × (upcoming r' ≡ [])
try_mechs-cram_example =
    try_mechs-cram not_blank digest same take_all flush (text "u") (text "p") false (text "xy") []
      none before.writer named replied [] challenged challenge_short mechanism_written reply_written
      challenged-upcoming
