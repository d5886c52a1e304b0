-- ===== src/Rasvn/Conn/Auth.antt =====
-- Authentication without SASL (src/rasvn/conn/auth.rs). HMAC-MD5 in hexadecimal digits, and whether
-- a string is blank to `str::trim`, are parameters.
use svn.Base.{
  List, [], ◌∷◌, ◌++◌, Bytes, text, bytes_eq, Bool, true, false, not, ◌&&◌, ◌||◌, if◌then◌else◌,
  Option, none, some, get_elem?, Result, ok, err, protocol, auth_unavailable, auth_failed, ◌⊎◌, inl,
  inr,
}
use svn.Rasvn.Item.{
  SvnItem, word, string, list, items, as_word, as_list, as_string, as_bytes_string, to_list,
}
use svn.Rasvn.Parse.Scalar.{and_then, unwrap_or}
use svn.Rasvn.Conn.Read.{Step, Read, ◌>>=◌, return, fail, loop}
use svn.Rasvn.Conn.Io.{read_item}
use svn.Rasvn.Conn.Write.{Writer, write_item}
use svn.Rasvn.Conn.Response.{CommandResponse, success_params, read_command_response}

pub record Identity : Type 0 where
  pub username : Option Bytes
  pub password : Option Bytes
  pub is_tunneled : Bool

-- `iter().any(|m| m == …)`
unfoldable pub offers : Bytes → List Bytes → Bool
offers m [] = false
offers m (x ∷ xs) = bytes_eq x m || offers m xs

abbrev pub AuthMechanismChoice : Type 0
AuthMechanismChoice = Bytes × Option Bytes

abbrev pub AuthMechanismChoices : Type 0
AuthMechanismChoices = List AuthMechanismChoice

abbrev pub when : Bool → AuthMechanismChoice → AuthMechanismChoices
when true c = c ∷ []
when false c = []

abbrev pub is_some {ℓ} : {A : Type ℓ} → Option A → Bool
is_some none = false
is_some (some a) = true

unfoldable pub plain_token : Identity → Bytes
plain_token who = 0 ∷ (unwrap_or [] who.username ++ (0 ∷ unwrap_or [] who.password))

abbrev pub external : AuthMechanismChoice
external = (text "EXTERNAL", some [])

abbrev pub or_external : List Bytes → AuthMechanismChoices → AuthMechanismChoices
or_external mechs [] = when (offers (text "EXTERNAL") mechs) external
or_external mechs (c ∷ cs) = c ∷ cs

abbrev pub or_unavailable : AuthMechanismChoices → Result AuthMechanismChoices
or_unavailable [] = err auth_unavailable
or_unavailable (c ∷ cs) = ok (c ∷ cs)

unfoldable pub auth_token : List SvnItem → Option Bytes
auth_token parts =
    and_then (and_then (get_elem? parts 1) as_list)
      (λ xs. and_then (get_elem? xs 0) as_bytes_string)

unfoldable pub failure_text : List SvnItem → Bytes
failure_text parts =
    unwrap_or (text "auth failed")
      (and_then (and_then (get_elem? parts 1) as_list) (λ xs. and_then (get_elem? xs 0) as_string))

-- The words of the list; other items are left out.
abbrev pub words_of : List SvnItem → List Bytes
words_of [] = []
words_of (x ∷ xs) = elim (as_word x) [ none ↦ words_of xs | some w ↦ w ∷ words_of xs ]

abbrev pub token_tuple : Option Bytes → SvnItem
token_tuple none = list (items [])
token_tuple (some token) = list (items (string token ∷ []))

-- What a write comes to.
abbrev pub written : Writer × Result (Unit {0}) → Read Writer
written (w, ok _) r = (r, ok w)
written (w, err e) r = (r, err e)

module _ (is_blank : Bytes → Bool) (hmac_md5_hex : Bytes → Bytes → Bytes)
    (from_utf8_lossy : Bytes → Bytes) (write_all : Bytes → Bytes → Result (Unit {0}))
    (flush : Bytes → Result (Unit {0})) (who : Identity) where
  abbrev pub has_user : Option Bytes → Bool
  has_user none = false
  has_user (some u) = not (is_blank u)

  unfoldable pub preferred : List Bytes → AuthMechanismChoices
  unfolding plain_token
  preferred mechs =
      when (who.is_tunneled && offers (text "EXTERNAL") mechs) external
      ++ when (has_user who.username && is_some who.password && offers (text "CRAM-MD5") mechs)
          (text "CRAM-MD5", none)
      ++ when (has_user who.username && is_some who.password && offers (text "PLAIN") mechs)
          (text "PLAIN", some (plain_token who))
      ++ when (offers (text "ANONYMOUS") mechs) (text "ANONYMOUS", some [])

  unfoldable pub select_mechs : List Bytes → Result AuthMechanismChoices
  unfolding preferred
  select_mechs mechs = or_unavailable (or_external mechs (preferred mechs))

  abbrev pub cram_reply : Option Bytes → Option Bytes → Bytes → Result Bytes
  cram_reply none pass challenge = err (auth_failed (text "missing username"))
  cram_reply (some user) none challenge = err (auth_failed (text "missing password"))
  cram_reply (some user) (some pass) challenge = ok (user ++ (32 ∷ hmac_md5_hex pass challenge))

  unfoldable pub auth_step_reply : Bytes → Bytes → Result Bytes
  auth_step_reply mech challenge =
      if bytes_eq mech (text "CRAM-MD5")
      then cram_reply who.username who.password challenge
      else if bytes_eq mech (text "PLAIN")
          || bytes_eq mech (text "ANONYMOUS")
          || bytes_eq mech (text "EXTERNAL")
      then err (protocol (text "unexpected auth step for " ++ mech))
      else err (protocol (text "auth step not implemented for " ++ mech))

  -- One exchange: a success is `none`, a failure its message.
  abbrev pub Exchange : Type 0
  Exchange = Writer × Option Bytes

  abbrev pub send_reply : Writer → Result Bytes → Read (Writer ⊎ Exchange)
  send_reply w (err e) r = (r, err e)
  send_reply w (ok reply) r =
      (written (write_item write_all flush (string reply) w) >>= λ w'. return (inl w')) r

  abbrev pub on_step : Bytes → Writer → Option Bytes → Read (Writer ⊎ Exchange)
  on_step mech w none = fail (text "auth step missing token")
  on_step mech w (some token) = send_reply w (auth_step_reply mech token)

  unfoldable pub on_kind : Bytes → Writer → List SvnItem → Option Bytes → Read (Writer ⊎ Exchange)
  unfolding auth_token failure_text auth_step_reply
  on_kind mech w parts none = fail (text "invalid auth challenge kind")
  on_kind mech w parts (some kind) =
      if bytes_eq kind (text "step")
      then on_step mech w (auth_token parts)
      else if bytes_eq kind (text "success")
      then return (inr (w, none))
      else if bytes_eq kind (text "failure")
      then return (inr (w, some (failure_text parts)))
      else fail (text "unexpected auth challenge: " ++ kind)

  abbrev pub on_challenge : Bytes → Writer → SvnItem → Read (Writer ⊎ Exchange)
  on_challenge mech w (list xs) =
      on_kind mech w (to_list xs) (and_then (get_elem? (to_list xs) 0) as_word)
  on_challenge mech w _ = fail (text "invalid auth challenge")

  unfoldable pub exchange_body : Bytes → Writer → Read (Writer ⊎ Exchange)
  unfolding on_kind
  exchange_body mech w = read_item >>= on_challenge mech w

  abbrev pub attempt : AuthMechanismChoice → Writer → Read Exchange
  attempt (mech, initial) w =
      written (write_item write_all flush (list (items (word mech ∷ token_tuple initial ∷ []))) w)
      >>= loop (exchange_body mech)

  abbrev pub after_attempt : (Option Bytes → Writer → Read Writer) → Step Exchange → Step Writer
  after_attempt again (r, err e) = (r, err e)
  after_attempt again (r, ok (w, none)) = (r, ok w)
  after_attempt again (r, ok (w, some message)) = again (some message) w r

  unfoldable pub try_mechs : AuthMechanismChoices → Option Bytes → Writer → Read Writer
  try_mechs [] last_failure w r =
      (r, err (auth_failed (unwrap_or (text "auth failed") last_failure)))
  try_mechs (choice ∷ more) last_failure w r = after_attempt (try_mechs more) (attempt choice w r)

  abbrev pub try_selected : Writer → Result AuthMechanismChoices → Read Writer
  try_selected w (err e) r = (r, err e)
  try_selected w (ok choices) r = try_mechs choices none w r

  unfoldable pub handle_auth_request_builtin : List Bytes → Writer → Read Writer
  unfolding select_mechs try_mechs
  handle_auth_request_builtin mechs w = try_selected w (select_mechs mechs)

  abbrev pub on_mechs : Writer → Option (List SvnItem) → Read Writer
  on_mechs w none = fail (text "auth mechs not a list")
  on_mechs w (some []) = return w
  on_mechs w (some (m ∷ ms)) = handle_auth_request_builtin (words_of (m ∷ ms)) w

  abbrev pub on_params : Writer → Result (List SvnItem) → Read Writer
  on_params w (err e) r = (r, err e)
  on_params w (ok (mechs ∷ realm ∷ _)) r = on_mechs w (as_list mechs) r
  on_params w (ok _) r = fail (text "auth-request params too short") r

  unfoldable pub handle_auth_request_response : CommandResponse → Writer → Read Writer
  unfolding handle_auth_request_builtin
  handle_auth_request_response auth_req w =
      on_params w (success_params from_utf8_lossy auth_req (text "auth-request"))

  unfoldable pub handle_auth_request : Writer → Read Writer
  unfolding handle_auth_request_response
  handle_auth_request w =
      read_command_response >>= λ auth_req. handle_auth_request_response auth_req w
