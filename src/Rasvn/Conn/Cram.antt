-- ===== src/Rasvn/Conn/Cram.antt =====
-- The exchange of CRAM-MD5 (src/rasvn/conn/auth.rs) with a server that accepts the reply.
use svn.Base.{
  ◌<◌, ◌^◌, ◌≡◌, refl, ap, ◌∙◌, arith, [], ◌∷◌, ◌++◌, Bytes, text, bytes_eq, length, Bool, Option,
  none, some, Result, ok, inl, inr,
}
use svn.Base.Utf8.{is_utf8}
use svn.Rasvn.Item.{
  SvnItem, word, string, list, items, as_word, as_list, as_bytes_string, encode_item,
}
use svn.Rasvn.Conn.Read.{Reader, after_step, return, loop}
use svn.Rasvn.Conn.Write.{Writer, write_item}
use svn.Rasvn.Conn.Stream.{
  Gets, gets, run_Gets, bind-Gets, more-Gets, done-Gets, return-Gets, upcoming,
}
use svn.Rasvn.Conn.Tokens.{IsToken}
use svn.Rasvn.Conn.RoundTrip.{IsReadable, AreReadable, encoded_item}
use svn.Rasvn.Conn.Auth.{
  Identity, AuthMechanismChoices, token_tuple, written, auth_token, auth_step_reply, on_kind,
  exchange_body, after_attempt, try_mechs,
}
use svn.Rasvn.Conn.Exchange.{exchange_body-IsRound}

-- What the server sends: a challenge, and its consent.
abbrev pub step_item : Bytes → SvnItem
step_item challenge = list (items (word (text "step") ∷ list (items (string challenge ∷ [])) ∷ []))

abbrev pub consent : SvnItem
consent = list (items (word (text "success") ∷ list (items []) ∷ []))

-- What the client sends.
abbrev pub cram_item : SvnItem
cram_item = list (items (word (text "CRAM-MD5") ∷ token_tuple none ∷ []))

step_item-IsReadable :
    (challenge : Bytes) → length challenge < 2 ^ 63 → IsReadable 0 (step_item challenge)
unfolding IsReadable AreReadable text is_utf8 bytes_eq
step_item-IsReadable challenge h =
    let token : IsToken (text "step") =
      (refl, refl, (refl, refl, (refl, refl, (refl, refl, tt)))) in
    (
      omega arith,
      (((115, text "tep", refl, refl, token, refl), refl, refl), ((omega arith, (h, tt)), tt)),
    )

consent-IsReadable : IsReadable 0 consent
unfolding IsReadable AreReadable text is_utf8 bytes_eq
consent-IsReadable =
    let token : IsToken (text "success") = (
      refl,
      refl,
      (refl, refl, (refl, refl, (refl, refl, (refl, refl, (refl, refl, (refl, refl, tt)))))),
    ) in
    (
      omega arith,
      (((115, text "uccess", refl, refl, token, refl), refl, refl), ((omega arith, tt), tt)),
    )

module _ (is_blank : Bytes → Bool) (hmac_md5_hex : Bytes → Bytes → Bytes)
    (from_utf8_lossy : Bytes → Bytes) (write_all : Bytes → Bytes → Result (Unit {0}))
    (flush : Bytes → Result (Unit {0})) (user pass : Bytes) (is_tunneled : Bool) where
  abbrev pub account : Identity
  account = record { username = some user; password = some pass; is_tunneled = is_tunneled }

  abbrev pub reply : Bytes → SvnItem
  reply challenge = string (user ++ (32 ∷ hmac_md5_hex pass challenge))

  step_round :
      (challenge : Bytes) (w w' : Writer) (rest : Bytes)
      → length challenge < 2 ^ 63
      → write_item write_all flush (reply challenge) w ≡ (w', ok tt)
      → Gets
          (exchange_body is_blank hmac_md5_hex from_utf8_lossy write_all flush account
            (text "CRAM-MD5")
            w)
          (encode_item (step_item challenge) [] ++ rest)
          (inl w')
          rest
  unfolding exchange_body on_kind auth_token auth_step_reply as_word as_list as_bytes_string text
      bytes_eq
  step_round challenge w w' rest h sent =
      bind-Gets _ (encoded_item (step_item challenge) rest (step_item-IsReadable challenge h))
        (gets (λ r e. (r, ap (λ t. after_step (written t r) (λ w₁. return (inl w₁))) sent, e)))

  consent_round :
      (w : Writer) (rest : Bytes)
      → Gets
          (exchange_body is_blank hmac_md5_hex from_utf8_lossy write_all flush account
            (text "CRAM-MD5")
            w)
          (encode_item consent [] ++ rest)
          (inr (w, none))
          rest
  unfolding exchange_body on_kind as_word text bytes_eq
  consent_round w rest =
      bind-Gets _ (encoded_item consent rest consent-IsReadable) (return-Gets (inr (w, none)) rest)

  exchange :
      (challenge : Bytes) (w w' : Writer) (rest : Bytes)
      → length challenge < 2 ^ 63
      → write_item write_all flush (reply challenge) w ≡ (w', ok tt)
      → Gets
          (loop
            (exchange_body is_blank hmac_md5_hex from_utf8_lossy write_all flush account
              (text "CRAM-MD5"))
            w)
          (encode_item (step_item challenge) [] ++ (encode_item consent [] ++ rest))
          (w', none)
          rest
  exchange challenge w w' rest h sent =
      let round =
        exchange_body-IsRound is_blank hmac_md5_hex from_utf8_lossy write_all flush account
          (text "CRAM-MD5") in
      more-Gets
        (exchange_body is_blank hmac_md5_hex from_utf8_lossy write_all flush account
          (text "CRAM-MD5"))
        round (step_round challenge w w' (encode_item consent [] ++ rest) h sent)
        (done-Gets
          (exchange_body is_blank hmac_md5_hex from_utf8_lossy write_all flush account
            (text "CRAM-MD5"))
          round (consent_round w' rest))

  -- With a server that sends a challenge and accepts the reply, the client sends the name of the
  -- mechanism and then its user name, a space and the digest of the challenge under its password,
  -- tries no further mechanism, and leaves what follows the consent, whichever reads the bytes come
  -- in. The challenge has less than 2 ^ 63 bytes, and the two items can be written.
  pub try_mechs-cram :
      (challenge : Bytes) (more : AuthMechanismChoices) (last_failure : Option Bytes)
      (w w₁ w₂ : Writer) (rest : Bytes) (r : Reader)
      → length challenge < 2 ^ 63
      → write_item write_all flush cram_item w ≡ (w₁, ok tt)
      → write_item write_all flush (reply challenge) w₁ ≡ (w₂, ok tt)
      → upcoming r ≡ encode_item (step_item challenge) [] ++ (encode_item consent [] ++ rest)
      → (r' : Reader) × (try_mechs is_blank hmac_md5_hex from_utf8_lossy write_all flush account
            ((text "CRAM-MD5", none) ∷ more)
            last_failure
            w
            r
          ≡ (r', ok w₂))
        × (upcoming r' ≡ rest)
  unfolding try_mechs
  try_mechs-cram challenge more last_failure w w₁ w₂ rest r h named replied up =
      let (r', run, left) = run_Gets (exchange challenge w₁ w₂ rest h replied) r up in
      (
        r',
        ap
              (λ t.
                after_attempt is_blank hmac_md5_hex from_utf8_lossy write_all flush account
                  (try_mechs is_blank hmac_md5_hex from_utf8_lossy write_all flush account more)
                  (after_step (written t r) (
                    loop (
                      exchange_body is_blank hmac_md5_hex from_utf8_lossy write_all flush account
                        (text "CRAM-MD5")))))
              named
            ∙ ap
                (after_attempt is_blank hmac_md5_hex from_utf8_lossy write_all flush account
                  (try_mechs is_blank hmac_md5_hex from_utf8_lossy write_all flush account more))
                run,
        left,
      )
