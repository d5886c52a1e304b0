-- ===== src/Rasvn/Conn/Pipeline.antt =====
-- What a handshake (src/rasvn/conn/handshake.rs) that succeeds has negotiated.
use svn.Base.{
  ℕ, ◌≡◌, refl, subst, List, [], ◌∷◌, ◌++◌, Bytes, text, leb, Bool, true, false, not, ◌&&◌,
  if◌then◌else◌, Result, ok, err, SvnError, ok_or, refuse_if, ◌>>=◌, ◌>>◌, arith,
}
use svn.Types.Node.{edit_pipeline, as_wire_word}
use svn.Types.Answers.{RepositoryInfo, ServerInfo}
use svn.Rasvn.Item.{SvnItem, as_u64}
use svn.Rasvn.Parse.Scalar.{parse_word_list}
use svn.Rasvn.Parse.Entry.{parse_repos_info}
use svn.Rasvn.Parse.Known.{Always, bind-Always}
use svn.Rasvn.Conn.Read.{Reader, Step, Read, after_step}
use svn.Rasvn.Conn.Write.{Writer, write_item}
use svn.Rasvn.Conn.Response.{success_params, read_command_response}
use svn.Rasvn.Conn.Auth.{offers, written, handle_auth_request}
use svn.Rasvn.Conn.Handshake.{
  Session, server_has_cap, check_greeting, greeting_caps, greeting_response, merge_caps,
  on_repository, on_authenticated, on_caps, skip_leading_garbage, handshake,
}

-- The edit pipeline is among the capabilities.
abbrev pub HasPipeline : List Bytes → Type 0
HasPipeline caps = server_has_cap caps (as_wire_word edit_pipeline) ≡ true

refused-Always :
    (b : Bool) (e : SvnError) (caps : List Bytes)
    → (b ≡ false → HasPipeline caps)
    → Always HasPipeline (refuse_if b e >> ok caps)
refused-Always true e caps h = tt
refused-Always false e caps h = h refl

first-Always :
    (b : Bool) (e : SvnError) (m : Result (Unit {0})) (caps : List Bytes)
    → Always HasPipeline (m >> ok caps)
    → Always HasPipeline (refuse_if b e >> m >> ok caps)
first-Always true e m caps h = tt
first-Always false e m caps h = h

check_greeting-Always :
    (minver maxver : ℕ) (caps : List Bytes) → Always HasPipeline (check_greeting minver maxver caps)
unfolding check_greeting
check_greeting-Always minver maxver caps =
    first-Always (not (leb minver 2 && leb 2 maxver)) _
      (refuse_if (not (server_has_cap caps (as_wire_word edit_pipeline))) _) caps
      (refused-Always (not (server_has_cap caps (as_wire_word edit_pipeline))) _ caps
        (not_not (server_has_cap caps (as_wire_word edit_pipeline))))
  where
    not_not : (b : Bool) → not b ≡ false → b ≡ true
    not_not b h = ground arith

greeting_caps-Always : (params : List SvnItem) → Always HasPipeline (greeting_caps params)
unfolding greeting_caps
greeting_caps-Always [] = tt
greeting_caps-Always (a ∷ []) = tt
greeting_caps-Always (a ∷ b ∷ []) = tt
greeting_caps-Always (a ∷ b ∷ c ∷ []) = tt
greeting_caps-Always (a ∷ b ∷ c ∷ d ∷ rest) =
    bind-Always HasPipeline (ok_or _ (as_u64 a)) _ λ minver.
      bind-Always HasPipeline (ok_or _ (as_u64 b)) _ λ maxver.
        bind-Always HasPipeline (parse_word_list d _) _
          λ caps. check_greeting-Always minver maxver caps

offers-append : (m : Bytes) (xs ys : List Bytes) → offers m xs ≡ true → offers m (xs ++ ys) ≡ true
unfolding offers
offers-append m [] ys h = absurd (cc h)
offers-append m (x ∷ xs) ys h = ground (arith, offers-append m xs ys)

merge_caps-HasPipeline :
    (caps cs : List Bytes) → HasPipeline caps → HasPipeline (merge_caps caps cs)
unfolding merge_caps server_has_cap
merge_caps-HasPipeline caps [] h = h
merge_caps-HasPipeline caps (c ∷ cs) h =
    by_test (offers c caps) (merge_caps-HasPipeline caps cs h) (
      merge_caps-HasPipeline (caps ++ (c ∷ [])) cs
        (offers-append (as_wire_word edit_pipeline) caps (c ∷ []) h))
  where
    by_test :
        (b : Bool)
        → HasPipeline (merge_caps caps cs)
        → HasPipeline (merge_caps (caps ++ (c ∷ [])) cs)
        → HasPipeline (merge_caps (if b then caps else (caps ++ (c ∷ []))) cs)
    by_test true there here = there
    by_test false there here = here

-- What holds of a value that is read.
abbrev Reads {ℓ κ} : {A : Type ℓ} → (A → Type κ) → Step A → Type κ
Reads P (r, ok a) = P a
Reads P (r, err e) = Unit

after_step-Reads {ℓ κ ι} :
    {A : Type ℓ} {B : Type κ} (P : B → Type ι) (t : Step A) (f : A → Read B)
    → ((a : A) (r : Reader) → Reads P (f a r))
    → Reads P (after_step t f)
after_step-Reads P (r, ok a) f h = h a r
after_step-Reads P (r, err e) f h = tt

-- The capabilities of the session are those that are returned, and have the edit pipeline.
abbrev IsNegotiated : Session × ServerInfo → Type 0
IsNegotiated (s, info) = HasPipeline s.server_caps × (info.server_caps ≡ s.server_caps)

module _ (is_blank : Bytes → Bool) (hmac_md5_hex : Bytes → Bytes → Bytes)
    (from_utf8_lossy debug_preview : Bytes → Bytes) (write_all : Bytes → Bytes → Result (Unit {0}))
    (flush : Bytes → Result (Unit {0})) where
  on_repository-Reads :
      (s : Session) (caps : List Bytes) (w : Writer) (m : Result RepositoryInfo) (r : Reader)
      → HasPipeline caps
      → Reads IsNegotiated (
          on_repository is_blank hmac_md5_hex from_utf8_lossy debug_preview write_all flush s caps w
            m r)
  on_repository-Reads s caps w (err e) r h = tt
  on_repository-Reads s caps w (ok repository) r h =
      (merge_caps-HasPipeline caps repository.capabilities h, refl)

  on_authenticated-Reads :
      (s : Session) (caps : List Bytes) (t : Step Writer)
      → HasPipeline caps
      → Reads IsNegotiated (
          on_authenticated is_blank hmac_md5_hex from_utf8_lossy debug_preview write_all flush s
            caps t)
  on_authenticated-Reads s caps (r, err e) h = tt
  on_authenticated-Reads s caps (r, ok w) h =
      after_step-Reads IsNegotiated (read_command_response r) _ λ info r₁.
        on_repository-Reads s caps w
          (success_params from_utf8_lossy info (text "repos-info") >>= parse_repos_info) r₁ h

  on_caps-Reads :
      (s : Session) (m : Result (List Bytes)) (r : Reader)
      → Always HasPipeline m
      → Reads IsNegotiated
          (on_caps is_blank hmac_md5_hex from_utf8_lossy debug_preview write_all flush s m r)
  on_caps-Reads s (err e) r h = tt
  on_caps-Reads s (ok caps) r h =
      on_authenticated-Reads s caps
        (after_step
          (written (write_item write_all flush (greeting_response s.url s.ra_client) s.writer) r)
          (handle_auth_request is_blank hmac_md5_hex from_utf8_lossy write_all flush s.who))
        h

  handshake-Reads :
      (s : Session) (r : Reader)
      → Reads IsNegotiated
          (handshake is_blank hmac_md5_hex from_utf8_lossy debug_preview write_all flush s r)
  unfolding handshake
  handshake-Reads s r =
      after_step-Reads IsNegotiated
        ((if s.who.is_tunneled then skip_leading_garbage debug_preview else (λ r. (r, ok tt))) r) _
        λ u r₁. after_step-Reads IsNegotiated (read_command_response r₁) _ λ greeting r₂.
          on_caps-Reads s
            (success_params from_utf8_lossy greeting (text "greeting") >>= greeting_caps) r₂
            (bind-Always HasPipeline (success_params from_utf8_lossy greeting (text "greeting"))
              greeting_caps greeting_caps-Always)

  -- A handshake that succeeds was made with a server that has the edit pipeline, and leaves in the
  -- session the capabilities that it returns, whatever the repository adds to those of the greeting.
  pub handshake-HasPipeline :
      (s s' : Session) (info : ServerInfo) (r r' : Reader)
      → handshake is_blank hmac_md5_hex from_utf8_lossy debug_preview write_all flush s r
        ≡ (r', ok (s', info))
      → HasPipeline s'.server_caps × (info.server_caps ≡ s'.server_caps)
  handshake-HasPipeline s s' info r r' e = subst (Reads IsNegotiated) e (handshake-Reads s r)
