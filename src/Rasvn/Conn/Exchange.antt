-- ===== src/Rasvn/Conn/Exchange.antt =====
-- The exchange of challenges and replies (src/rasvn/conn/auth.rs) reads an item in every round.
use svn.Base.{
  arith, List, Bytes, text, bytes_eq, Bool, Option, none, some, Result, ok, err, ◌⊎◌, inl,
}
use svn.Rasvn.Item.{SvnItem, word, number, string, list, bool, to_list}
use svn.Rasvn.Conn.Read.{Reader, ◌>>=◌, return}
use svn.Rasvn.Conn.Io.{read_item}
use svn.Rasvn.Conn.Write.{Writer, write_item}
use svn.Rasvn.Conn.Progress.{
  Tame, IsRound, Tame-bind, Eats-first, Eats-IsRound, return-Tame, if-Tame,
}
use svn.Rasvn.Conn.Runs.{HasRun, loop-HasRun}
use svn.Rasvn.Conn.Rounds.{fail-Tame}
use svn.Rasvn.Conn.Items.{read_item-Eats}
use svn.Rasvn.Conn.Auth.{
  Identity, written, auth_token, auth_step_reply, send_reply, on_step, on_kind, on_challenge,
  exchange_body,
}

written-Tame : (t : Writer × Result (Unit {0})) → Tame (written t)
written-Tame (w, ok u) r = omega arith
written-Tame (w, err e) r = omega arith

module _ (is_blank : Bytes → Bool) (hmac_md5_hex : Bytes → Bytes → Bytes)
    (from_utf8_lossy : Bytes → Bytes) (write_all : Bytes → Bytes → Result (Unit {0}))
    (flush : Bytes → Result (Unit {0})) (who : Identity) where
  abbrev Round : Type 0
  Round = Writer ⊎ (Writer × Option Bytes)

  send_reply-Tame :
      (w : Writer) (m : Result Bytes)
      → Tame (send_reply is_blank hmac_md5_hex from_utf8_lossy write_all flush who w m)
  send_reply-Tame w (err e) r = omega arith
  send_reply-Tame w (ok reply) r =
      Tame-bind (written (write_item write_all flush (string reply) w))
        (λ w'. return {A = Round} (inl w'))
        (written-Tame (write_item write_all flush (string reply) w))
        (λ w'. return-Tame {0} {A = Round} (inl w')) r

  on_step-Tame :
      (mech : Bytes) (w : Writer) (o : Option Bytes)
      → Tame (on_step is_blank hmac_md5_hex from_utf8_lossy write_all flush who mech w o)
  on_step-Tame mech w none = fail-Tame Round (text "auth step missing token")
  on_step-Tame mech w (some token) =
      send_reply-Tame w
        (auth_step_reply is_blank hmac_md5_hex from_utf8_lossy write_all flush who mech token)

  on_kind-Tame :
      (mech : Bytes) (w : Writer) (parts : List SvnItem) (o : Option Bytes)
      → Tame (on_kind is_blank hmac_md5_hex from_utf8_lossy write_all flush who mech w parts o)
  unfolding on_kind
  on_kind-Tame mech w parts none = fail-Tame Round (text "invalid auth challenge kind")
  on_kind-Tame mech w parts (some kind) =
      if-Tame (bytes_eq kind (text "step")) _ _ (on_step-Tame mech w (auth_token parts)) (
        if-Tame (bytes_eq kind (text "success")) _ _ (λ r. omega arith)
          (if-Tame (bytes_eq kind (text "failure")) _ _ (λ r. omega arith) (λ r. omega arith)))

  on_challenge-Tame :
      (mech : Bytes) (w : Writer) (x : SvnItem)
      → Tame (on_challenge is_blank hmac_md5_hex from_utf8_lossy write_all flush who mech w x)
  on_challenge-Tame mech w (list xs) = on_kind-Tame mech w (to_list xs) _
  on_challenge-Tame mech w (word s) = fail-Tame Round (text "invalid auth challenge")
  on_challenge-Tame mech w (number n) = fail-Tame Round (text "invalid auth challenge")
  on_challenge-Tame mech w (string s) = fail-Tame Round (text "invalid auth challenge")
  on_challenge-Tame mech w (bool b) = fail-Tame Round (text "invalid auth challenge")

  pub exchange_body-IsRound :
      (mech : Bytes) (w : Writer)
      → IsRound (exchange_body is_blank hmac_md5_hex from_utf8_lossy write_all flush who mech w)
  unfolding exchange_body
  exchange_body-IsRound mech w =
      Eats-IsRound
        (read_item
          >>= on_challenge is_blank hmac_md5_hex from_utf8_lossy write_all flush who mech w)
        (Eats-first read_item
          (on_challenge is_blank hmac_md5_hex from_utf8_lossy write_all flush who mech w)
          read_item-Eats (on_challenge-Tame mech w))

  -- The exchange of a mechanism ends, whatever the server sends and the replies and writes come to,
  -- after at most one challenge more than the bytes and reads that are to come. The outcome is that
  -- of the last challenge.
  pub exchange-HasRun :
      (mech : Bytes) (w : Writer) (r : Reader)
      → HasRun (exchange_body is_blank hmac_md5_hex from_utf8_lossy write_all flush who mech) w r
  exchange-HasRun mech =
      loop-HasRun (exchange_body is_blank hmac_md5_hex from_utf8_lossy write_all flush who mech)
        (exchange_body-IsRound mech)
