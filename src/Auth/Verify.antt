-- ===== src/Auth/Verify.antt =====
-- internal/auth/jwt.go: `verifyToken`, `Validate` and `Authenticate`. The JWT library is a
-- parameter: `parse` checks a token with the key that the key function gives for its header.
use sesori_relay_server.Prelude.{
  ℕ, ℤ, ◌≡◌, ◌↔◌, ◌⊎◌, ◌∙◌, refl, sym, ap, subst, inl, inr, Bool, true, arith, Option, none, some,
  Text, if◌then◌else◌, Option-cases,
}
use sesori_relay_server.Protocol.CloseCodes.{close_auth_required, close_auth_failure}
use sesori_relay_server.Protocol.Messages.{Json, as_role_auth, parse_message}
use sesori_relay_server.Auth.Acceptance.{IsAccess, validate_claims_iff}
use sesori_relay_server.Auth.Claims.{
  Claims, AuthResult, ClaimError, Result, ok, err, invalid_type, validate_claims,
}
use sesori_relay_server.Auth.KeyStore.{Backend, KeyStore, FetchError, public_key, refresh}

-- `t.Method` is an RSA signing method or not.
pub record Header : Type 0 where
  pub is_rsa : Bool

-- `token.Claims`, `none` where it is no `jwt.MapClaims`.
pub record Token (F : Type 0) : Type 0 where
  pub claims : Option (Claims F)

-- `jwt.Parse`; `none` is an error, also that of the key function.
pub record Jwt (F : Type 0) : Type 0 where
  pub parse : Text → (Header → Option (Option ℕ)) → Option (Token F)

-- The key function: the stored key, for RSA methods only.
unfoldable pub key_func : KeyStore → Header → Option (Option ℕ)
unfolding public_key
key_func ks header = if header.is_rsa then some (public_key ks) else none

pub data AuthError : Type 0 where
  verification_failed : AuthError
  bad_claims : ClaimError → AuthError

pub data Verdict : Type 0 where
  accepted : AuthResult → Verdict
  rejected : AuthError → Verdict

-- What `Authenticate` does with the connection: the close code, or the result.
pub data Outcome : Type 0 where
  closed : ℕ → Outcome
  authenticated : AuthResult → Outcome

unfoldable pub verdict_outcome : Verdict → Outcome
verdict_outcome (accepted r) = authenticated r
verdict_outcome (rejected e) = closed close_auth_failure

module _ {F : Type 0} (int64 : F → ℤ) (backend : Backend) (jwt : Jwt F) where
  -- The second attempt, with the key store after the refresh and the error of the refresh.
  unfoldable pub retry : Text → KeyStore × Option FetchError → KeyStore × Option (Token F)
  retry raw (ks, some e) = (ks, none)
  retry raw (ks, none) = (ks, jwt.parse raw (key_func ks))

  unfoldable pub verify_token : KeyStore → Text → KeyStore × Option (Token F)
  unfolding retry
  verify_token ks raw = elim (jwt.parse raw (key_func ks)) [
    | some token ↦ (ks, some token)
    | none ↦ retry raw (refresh backend ks)
  ]

  unfoldable pub claims_verdict : Result AuthResult → Verdict
  claims_verdict (ok r) = accepted r
  claims_verdict (err e) = rejected (bad_claims e)

  claims_verdict-accepted :
      (v : Result AuthResult) (r : AuthResult) → claims_verdict v ≡ accepted r → v ≡ ok r
  unfolding claims_verdict
  claims_verdict-accepted (ok s) r h = ground arith
  claims_verdict-accepted (err e) r h = cc

  unfoldable pub token_verdict : Option (Token F) → Verdict
  unfolding claims_verdict
  token_verdict none = rejected verification_failed
  token_verdict (some token) = elim token.claims [
    | none ↦ rejected (bad_claims invalid_type)
    | some claims ↦ claims_verdict (validate_claims int64 claims)
  ]

  unfoldable pub validate : KeyStore → Text → KeyStore × Verdict
  validate ks raw = let (ks', token) = verify_token ks raw in (ks', token_verdict token)

  -- `Authenticate`, given what the first read returns.
  unfoldable pub authenticate : Json → KeyStore → Option Text → KeyStore × Outcome
  unfolding verdict_outcome
  authenticate json ks none = (ks, closed close_auth_required)
  authenticate json ks (some input) = elim (as_role_auth (parse_message json input)) [
    | none ↦ (ks, closed close_auth_failure)
    | some message ↦
        let (ks', verdict) = validate ks message.token in (ks', verdict_outcome verdict)
  ]

  token_verdict-accepted :
      (token : Option (Token F)) (r : AuthResult)
      → token_verdict token ≡ accepted r
      → (t : Token F) × (claims : Claims F) × (token ≡ some t)
        × (t.claims ≡ some claims)
        × IsAccess int64 claims r
  unfolding token_verdict
  token_verdict-accepted none r h = absurd (cc)
  token_verdict-accepted (some t) r h = elim (Option-cases t.claims) [
    | inl e ↦ absurd (ground arith)
    | inr (claims, e) ↦ (
      t,
      claims,
      refl,
      e,
      (validate_claims_iff int64 claims r).0
          (claims_verdict-accepted (validate_claims int64 claims) r (ground arith)),
    )
  ]

  retry-parsed :
      (raw : Text) (p : KeyStore × Option FetchError) (token : Token F)
      → (retry raw p).1 ≡ some token
      → ((retry raw p).0 ≡ p.0) × (jwt.parse raw (key_func (retry raw p).0) ≡ some token)
  unfolding retry
  retry-parsed raw (ks, some e) token h = absurd (cc)
  retry-parsed raw (ks, none) token h = (refl, h)

  -- The returned token is the one that `Parse` returns with the key that the store then has.
  verify_token-parsed :
      (ks : KeyStore) (raw : Text) (token : Token F)
      → (verify_token ks raw).1 ≡ some token
      → (((verify_token ks raw).0 ≡ ks) ⊎ ((verify_token ks raw).0 ≡ (refresh backend ks).0))
        × (jwt.parse raw (key_func (verify_token ks raw).0) ≡ some token)
  unfolding verify_token
  verify_token-parsed ks raw token h = elim (Option-cases (jwt.parse raw (key_func ks))) [
    | inl fails ↦
        let e : verify_token ks raw ≡ retry raw (refresh backend ks) = ground arith in
        let (same_ks, parsed) =
          retry-parsed raw (refresh backend ks) token (sym (ap (λ p. p.1) e) ∙ h) in
        (inr (ap (λ p. p.0) e ∙ same_ks), rw e parsed)
    | inr (t, parses) ↦
        let e : verify_token ks raw ≡ (ks, some t) = ground arith in
        (inl (ap (λ p. p.0) e), rw e (parses ∙ sym (ap (λ p. p.1) e) ∙ h))
  ]

  key_func-some :
      (ks : KeyStore) (header : Header) (key : Option ℕ)
      → key_func ks header ≡ some key
      → (header.is_rsa ≡ true) × (ks.key ≡ key)
  unfolding key_func
  key_func-some ks header key h = (ground arith, ground arith)

  -- What the JWT library documents of `Parse`: it returns a token only if the key function gave a
  -- key for the token's header and the signature is one of that key by that method.
  abbrev pub ChecksSignature : (Text → Header → Option ℕ → Token F → Type 0) → Type 0
  ChecksSignature IsSigned =
      (raw : Text) (kf : Header → Option (Option ℕ)) (token : Token F)
      → jwt.parse raw kf ≡ some token
      → (header : Header) × (key : Option ℕ) × (kf header ≡ some key)
        × IsSigned raw header key token

  -- Let the JWT library return a token only where the key function gave a key for the token's
  -- header and the token is signed by that key. If Validate accepts a token, then the header
  -- names an RSA method, the token is signed with the key that the store has afterwards, the
  -- store is the one before or the one after a refresh, and the token's claims are those of an
  -- access token with the returned user and expiry.
  pub validate_sound :
      (IsSigned : Text → Header → Option ℕ → Token F → Type 0)
      → ChecksSignature IsSigned
      → (ks ks' : KeyStore) (raw : Text) (r : AuthResult) → validate ks raw ≡ (ks', accepted r)
      → (header : Header) × (token : Token F) × (claims : Claims F) × (header.is_rsa ≡ true)
        × ((ks' ≡ ks) ⊎ (ks' ≡ (refresh backend ks).0))
        × IsSigned raw header ks'.key token
        × (token.claims ≡ some claims)
        × IsAccess int64 claims r
  unfolding validate
  validate_sound IsSigned checks ks ks' raw r h =
      let stored : (verify_token ks raw).0 ≡ ks' = ap (λ p. p.0) h in
      let (token, claims, verified, has, access) =
        token_verdict-accepted (verify_token ks raw).1 r (ap (λ p. p.1) h) in
      let (store, parsed) = verify_token-parsed ks raw token verified in
      let (header, key, given, signed) =
        checks raw (key_func (verify_token ks raw).0) token parsed in
      let (rsa, is_key) = key_func-some (verify_token ks raw).0 header key given in
      (
        header,
        token,
        claims,
        rsa,
        subst (λ k. (k ≡ ks) ⊎ (k ≡ (refresh backend ks).0)) stored store,
        subst (λ k. IsSigned raw header k token) (sym is_key ∙ ap (λ k. k.key) stored) signed,
        has,
        access,
      )

  -- The stored key verifies the token, or it does not, and the refreshed key does.
  abbrev pub Verified : KeyStore → KeyStore → Text → Token F → Type 0
  Verified ks ks' raw token =
      ((ks' ≡ ks) × (jwt.parse raw (key_func ks) ≡ some token))
      ⊎ ((jwt.parse raw (key_func ks) ≡ none)
          × (refresh backend ks ≡ (ks', none))
          × (jwt.parse raw (key_func ks') ≡ some token))

  retry_iff :
      (raw : Text) (p : KeyStore × Option FetchError) (ks' : KeyStore) (token : Token F)
      → (retry raw p ≡ (ks', some token))
        ↔ ((p ≡ (ks', none)) × (jwt.parse raw (key_func ks') ≡ some token))
  unfolding retry
  retry_iff raw (ks, some e) ks' token = (λ h. cc, λ h. cc)
  retry_iff raw (ks, none) ks' token = (λ h. ground arith, λ h. ground arith)

  verify_token_iff :
      (ks ks' : KeyStore) (raw : Text) (token : Token F)
      → (verify_token ks raw ≡ (ks', some token)) ↔ Verified ks ks' raw token
  unfolding verify_token
  verify_token_iff ks ks' raw token =
      let again = retry_iff raw (refresh backend ks) ks' token in
      (λ h. ground (arith, again), λ h. ground (arith, again))

  pub validate_iff :
      (ks ks' : KeyStore) (raw : Text) (r : AuthResult)
      → (validate ks raw ≡ (ks', accepted r)) ↔ (
          (token : Token F) × (claims : Claims F) × (token.claims ≡ some claims)
          × IsAccess int64 claims r
          × (((ks' ≡ ks) × (jwt.parse raw (key_func ks) ≡ some token))
              ⊎ ((jwt.parse raw (key_func ks) ≡ none)
                  × (refresh backend ks ≡ (ks', none))
                  × (jwt.parse raw (key_func ks') ≡ some token))))
  unfolding validate token_verdict claims_verdict
  validate_iff ks ks' raw r = (
    λ h.
        let (token, claims, verified, has, access) =
          token_verdict-accepted (verify_token ks raw).1 r (ap (λ p. p.1) h) in
        let both : verify_token ks raw ≡ (ks', some token) = ground (arith, ap (λ p. p.0) h) in
        (token, claims, has, access, (verify_token_iff ks ks' raw token).0 both),
    λ (token, claims, has, access, verified).
        let both = (verify_token_iff ks ks' raw token).1 verified in
        rw both (ground (arith, (validate_claims_iff int64 claims r).1 access)),
  )
