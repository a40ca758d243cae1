-- ===== src/Server/Admission.antt =====
-- internal/relay/handler.go and internal/auth: who joins a group of a server, from the first message
-- of the connection to the claims of its token.
use sesori_relay_server.Prelude.{
  ℕ, ℤ, ◌≡◌, ◌⊎◌, ◌∙◌, refl, sym, ap, Bool, true, arith, Option, none, some, Text,
}
use sesori_relay_server.Auth.Acceptance.{IsAccess}
use sesori_relay_server.Auth.Claims.{AuthResult, Claims}
use sesori_relay_server.Auth.KeyStore.{Backend, KeyStore, refresh}
use sesori_relay_server.Auth.Verify.{
  Header, Token, Jwt, Verdict, validate, ChecksSignature, validate_sound,
}
use sesori_relay_server.Connect.{
  Joining, joins, Authenticator, read_and_validate_auth, accepted_connection, after_outcome,
  handle_web_socket,
}
use sesori_relay_server.Connect.Slots.{user_of, read_and_validate_auth-joins}
use sesori_relay_server.Handler.Effects.{Incoming, text}
use sesori_relay_server.Protocol.Messages.{Json, RoleAuthMessage}
use sesori_relay_server.RateLimiter.{RateLimiter}
use sesori_relay_server.Server.{authenticator_of}

-- A connection that joins was read by the authenticator.
handle_web_socket-joins :
    (json : Json) (auth : Authenticator) (rl : RateLimiter) (ip : Text) (upgraded : Bool)
    (groups : ℕ) (first : Option Incoming) (j : Joining)
    → (handle_web_socket json auth rl ip upgraded groups first).1 ≡ joins j
    → (verify : Text → Verdict) × (auth ≡ some verify)
      × (read_and_validate_auth json verify first ≡ joins j)
unfolding handle_web_socket accepted_connection after_outcome
handle_web_socket-joins json none rl ip upgraded groups first j h = absurd (ground arith)
handle_web_socket-joins json (some verify) rl ip upgraded groups first j h =
    (verify, refl, ground arith)

module _ {F : Type 0} (int64 : F → ℤ) (backend : Backend) (jwt : Jwt F) where
  -- The first message carries a token of the user, which the key store's key signs, as it is or
  -- after a refresh.
  abbrev pub IsAuthentic :
      (Text → Header → Option ℕ → Token F → Type 0) → Json → KeyStore → Text → Text → Type 0
  IsAuthentic IsSigned json ks input user_id =
      (m : RoleAuthMessage) × (r : AuthResult) × (ks' : KeyStore) × (header : Header)
      × (token : Token F) × (claims : Claims F) × (json.role_auth input ≡ some m)
      × (header.is_rsa ≡ true)
      × ((ks' ≡ ks) ⊎ (ks' ≡ (refresh backend ks).0))
      × IsSigned m.token header ks'.key token
      × (token.claims ≡ some claims)
      × IsAccess int64 claims r
      × (user_id ≡ r.user_id)

  -- Let the JWT library return a token only where the key function gave a key for the token's
  -- header and the token is signed by that key. A connection attempt that gets as far as a group
  -- was made to a server with a key store; its first message is a text that decodes as an
  -- authentication message; the token in it has an RSA header, is signed with the key of the store,
  -- as it is or after a refresh, and has the claims of an access token; and the group is that of
  -- the user in these claims.
  pub handle_web_socket-IsAuthentic :
      (IsSigned : Text → Header → Option ℕ → Token F → Type 0)
      → ChecksSignature int64 backend jwt IsSigned
      → (json : Json) (auth : Option KeyStore) (rl : RateLimiter) (ip : Text) (upgraded : Bool)
        (groups : ℕ) (first : Option Incoming) (j : Joining)
      → (handle_web_socket json
          (authenticator_of int64 backend jwt auth)
          rl
          ip
          upgraded
          groups
          first).1
        ≡ joins j
      → (ks : KeyStore) × (input : Text) × (auth ≡ some ks)
        × (first ≡ some (text input))
        × IsAuthentic IsSigned json ks input (user_of j)
  unfolding authenticator_of
  handle_web_socket-IsAuthentic IsSigned checks json none rl ip upgraded groups first j h =
      let (_, on, _) = handle_web_socket-joins json none rl ip upgraded groups first j h in
      absurd (cc)
  handle_web_socket-IsAuthentic IsSigned checks json (some ks) rl ip upgraded groups first j h =
      let verify : Text → Verdict = λ token. (validate int64 backend jwt ks token).1 in
      let (v, on, read) =
        handle_web_socket-joins json (some verify) rl ip upgraded groups first j h in
      let same : v ≡ verify = ground arith in
      let (input, is_first, (m, r, decoded, accepts, user, _)) =
        read_and_validate_auth-joins json verify first j
          (ap (λ f. read_and_validate_auth json f first) (sym same) ∙ read) in
      let (header, token, claims, rsa, store, signed, has, access) =
        validate_sound int64 backend jwt IsSigned checks ks
          (validate int64 backend jwt ks m.token).0 m.token r
          (ap (λ a. ((validate int64 backend jwt ks m.token).0, a)) accepts) in
      (
        ks,
        input,
        refl,
        is_first,
        (
          m,
          r,
          (validate int64 backend jwt ks m.token).0,
          header,
          token,
          claims,
          decoded,
          rsa,
          store,
          signed,
          has,
          access,
          user,
        ),
      )
