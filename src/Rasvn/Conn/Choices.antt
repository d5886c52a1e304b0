-- ===== src/Rasvn/Conn/Choices.antt =====
-- The mechanisms that `select_mechs` (src/rasvn/conn/auth.rs) chooses.
use svn.Base.{
  ◌≡◌, ◌≢◌, refl, sym, subst, List, [], ◌∷◌, ◌++◌, Bytes, text, bytes_eq, Bool, true, false, ◌&&◌,
  ◌||◌, Option, none, some, Result, ok, arith,
}
use svn.Rasvn.Conn.Auth.{
  Identity, offers, AuthMechanismChoice, AuthMechanismChoices, when, is_some, plain_token, external,
  or_external, or_unavailable, has_user, preferred, select_mechs,
}

and_both : (a b : Bool) → (a && b) ≡ true → (a ≡ true) × (b ≡ true)
and_both a b h = (ground arith, ground arith)

module _ (is_blank : Bytes → Bool) (hmac_md5_hex : Bytes → Bytes → Bytes)
    (from_utf8_lossy : Bytes → Bytes) (write_all : Bytes → Bytes → Result (Unit {0}))
    (flush : Bytes → Result (Unit {0})) (who : Identity) where
  -- A user name that is not blank, and a password.
  abbrev pub HasCredentials : Type 0
  HasCredentials =
      (has_user is_blank hmac_md5_hex from_utf8_lossy write_all flush who who.username ≡ true)
      × (is_some who.password ≡ true)

  -- A mechanism that the server offers, and one that needs credentials only where there are some.
  abbrev pub IsAllowed : List Bytes → AuthMechanismChoice → Type 0
  IsAllowed mechs (mech, token) =
      (offers mech mechs ≡ true)
      × ((bytes_eq mech (text "CRAM-MD5") || bytes_eq mech (text "PLAIN")) ≡ true → HasCredentials)

  abbrev pub AreAllowed : List Bytes → AuthMechanismChoices → Type 0
  AreAllowed mechs [] = Unit
  AreAllowed mechs (c ∷ cs) = IsAllowed mechs c × AreAllowed mechs cs

  when-AreAllowed :
      (mechs : List Bytes) (b : Bool) (c : AuthMechanismChoice)
      → (b ≡ true → IsAllowed mechs c)
      → AreAllowed mechs (when b c)
  when-AreAllowed mechs true c h = (h refl, tt)
  when-AreAllowed mechs false c h = tt

  append-AreAllowed :
      (mechs : List Bytes) (xs ys : AuthMechanismChoices)
      → AreAllowed mechs xs
      → AreAllowed mechs ys
      → AreAllowed mechs (xs ++ ys)
  append-AreAllowed mechs [] ys h k = k
  append-AreAllowed mechs (x ∷ xs) ys (a, h) k = (a, append-AreAllowed mechs xs ys h k)

  open_mech :
      (mechs : List Bytes) (mech token : Bytes)
      → (bytes_eq mech (text "CRAM-MD5") || bytes_eq mech (text "PLAIN")) ≡ false
      → offers mech mechs ≡ true
      → IsAllowed mechs (mech, some token)
  open_mech mechs mech token e h = (h, λ secret. absurd (cc (sym secret)))

  secret_mech :
      (mechs : List Bytes) (mech : Bytes) (token : Option Bytes)
      → (has_user is_blank hmac_md5_hex from_utf8_lossy write_all flush who who.username
          && is_some who.password
          && offers mech mechs)
        ≡ true
      → IsAllowed mechs (mech, token)
  secret_mech mechs mech token h = (ground arith, λ _. (ground arith, ground arith))

  preferred-AreAllowed :
      (mechs : List Bytes)
      → AreAllowed mechs (preferred is_blank hmac_md5_hex from_utf8_lossy write_all flush who mechs)
  unfolding preferred text bytes_eq
  preferred-AreAllowed mechs =
      append-AreAllowed mechs _ (when _ (text "ANONYMOUS", some []))
        (append-AreAllowed mechs _ (when _ (text "PLAIN", some (plain_token who)))
          (append-AreAllowed mechs (when _ external) (when _ (text "CRAM-MD5", none))
            (when-AreAllowed mechs (who.is_tunneled && offers (text "EXTERNAL") mechs) external
              (λ h.
                let (tunneled, offered) =
                  and_both who.is_tunneled (offers (text "EXTERNAL") mechs) h in
                open_mech mechs (text "EXTERNAL") [] refl offered))
            (when-AreAllowed mechs _ (text "CRAM-MD5", none)
              (λ h. secret_mech mechs (text "CRAM-MD5") none h)))
          (when-AreAllowed mechs _ (text "PLAIN", some (plain_token who))
            (λ h. secret_mech mechs (text "PLAIN") (some (plain_token who)) h)))
        (when-AreAllowed mechs (offers (text "ANONYMOUS") mechs) (text "ANONYMOUS", some [])
          (λ h. open_mech mechs (text "ANONYMOUS") [] refl h))

  or_external-AreAllowed :
      (mechs : List Bytes) (choices : AuthMechanismChoices)
      → AreAllowed mechs choices
      → AreAllowed mechs (or_external mechs choices)
  unfolding text bytes_eq
  or_external-AreAllowed mechs [] h =
      when-AreAllowed mechs (offers (text "EXTERNAL") mechs) external
        (λ offered. open_mech mechs (text "EXTERNAL") [] refl offered)
  or_external-AreAllowed mechs (c ∷ cs) h = h

  or_unavailable-eq :
      (found choices : AuthMechanismChoices)
      → or_unavailable found ≡ ok choices
      → (found ≡ choices) × (choices ≢ [])
  or_unavailable-eq [] choices e = absurd (cc e)
  or_unavailable-eq (c ∷ cs) choices e = (cc e, λ empty. nonempty (value e) empty)
    where
      value : {xs ys : AuthMechanismChoices} → ok xs ≡ ok ys → xs ≡ ys
      value e = cc e

      nonempty : {x : AuthMechanismChoice} {xs ys : AuthMechanismChoices} → x ∷ xs ≡ ys → ys ≢ []
      nonempty e empty = cc (e, empty)

  -- The mechanisms that are tried are some of those that the server offers, at least one, and one
  -- that needs a password only where a user name that is not blank and a password are there.
  pub select_mechs-AreAllowed :
      (mechs : List Bytes) (choices : AuthMechanismChoices)
      → select_mechs is_blank hmac_md5_hex from_utf8_lossy write_all flush who mechs ≡ ok choices
      → AreAllowed mechs choices × (choices ≢ [])
  unfolding select_mechs
  select_mechs-AreAllowed mechs choices e =
      let found =
        or_external mechs
          (preferred is_blank hmac_md5_hex from_utf8_lossy write_all flush who mechs) in
      let (same, some_choice) = or_unavailable-eq found choices e in
      (
        subst (AreAllowed mechs) same (
            or_external-AreAllowed mechs
              (preferred is_blank hmac_md5_hex from_utf8_lossy write_all flush who mechs)
              (preferred-AreAllowed mechs)),
        some_choice,
      )
