-- ===== src/Auth/Acceptance.antt =====
-- internal/auth/jwt.go: `validateClaims` and the claims of an access token.
use sesori_relay_server.Prelude.{
  ℤ, ◌≡◌, ◌≢◌, ◌↔◌, ◌⊎◌, ◌∙◌, sym, refl, ap, subst, inl, inr, arith, [], ◌∷◌, Option, none, some,
  Text, Text-discrete, bytes,
}
use sesori_relay_server.Prelude.Dict.{lookup}
use sesori_relay_server.Auth.Claims.{
  ClaimValue, str, num, boolean, null, object, arr, nil, cons, AuthResult, ClaimError, Result, ok,
  err, ◌>>=◌, require_equal, require_not_empty, missing, not_a_string, not_a_number, invalid_format,
  invalid, token_type_access, audience_mobile, issuer_backend, Claims, text_of, float_of,
  audience_of, read_claim, required_string_claim, required_float_claim, audience_claim,
  validate_claims,
}

>>=-eq-ok {ℓ κ} :
    {A : Type ℓ} {B : Type κ} (m : Result A) (f : A → Result B) (b : B)
    → (m >>= f) ≡ ok b
    → (a : A) × (m ≡ ok a) × (f a ≡ ok b)
>>=-eq-ok (ok a) f b h = (a, refl, h)
>>=-eq-ok (err e) f b h = absurd (cc)

bind_ok {ℓ κ} :
    {A : Type ℓ} {B : Type κ} (m : Result A) (f : A → Result B) (a : A) (b : B)
    → m ≡ ok a
    → f a ≡ ok b
    → (m >>= f) ≡ ok b
bind_ok m f a b h k = ap (λ x. x >>= f) h ∙ k

ok-injective {ℓ} : {A : Type ℓ} {a b : A} → ok a ≡ ok b → a ≡ b
ok-injective h = cc

require_equal-eq-ok : (a b : Text) (e : ClaimError) → (require_equal a b e ≡ ok tt) ↔ (a ≡ b)
require_equal-eq-ok a b e = (λ h. ground arith, λ h. ground arith)

require_not_empty-eq-ok : (a : Text) → (require_not_empty a ≡ ok tt) ↔ (a ≢ [])
require_not_empty-eq-ok [] = (λ h. cc, λ h. absurd (h refl))
require_not_empty-eq-ok (x ∷ a) = (λ h e. cc, λ h. refl)

module _ {F : Type 0} where
  text_of-eq-some : (v : ClaimValue F) (s : Text) → (text_of v ≡ some s) ↔ (v ≡ str s)
  text_of-eq-some (str t) s = (λ e. ground arith, λ e. ground arith)
  text_of-eq-some (num _) s = (λ e. cc, λ e. cc)
  text_of-eq-some (boolean _) s = (λ e. cc, λ e. cc)
  text_of-eq-some null s = (λ e. cc, λ e. cc)
  text_of-eq-some object s = (λ e. cc, λ e. cc)
  text_of-eq-some (arr _) s = (λ e. cc, λ e. cc)

  float_of-eq-some : (v : ClaimValue F) (f : F) → (float_of v ≡ some f) ↔ (v ≡ num f)
  float_of-eq-some (num g) f = (λ e. ground arith, λ e. ground arith)
  float_of-eq-some (str _) f = (λ e. cc, λ e. cc)
  float_of-eq-some (boolean _) f = (λ e. cc, λ e. cc)
  float_of-eq-some null f = (λ e. cc, λ e. cc)
  float_of-eq-some object f = (λ e. cc, λ e. cc)
  float_of-eq-some (arr _) f = (λ e. cc, λ e. cc)

  -- An audience: a string, or an array of one string.
  abbrev pub IsAudience : Text → ClaimValue F → Type 0
  IsAudience s v = (v ≡ str s) ⊎ (v ≡ arr (cons (str s) nil))

  audience_of-eq-some : (v : ClaimValue F) (s : Text) → (audience_of v ≡ some s) ↔ IsAudience s v
  audience_of-eq-some (str t) s = (λ e. inl (ground arith), λ e. ground arith)
  audience_of-eq-some (arr nil) s = (λ e. cc, λ e. ground arith)
  audience_of-eq-some (arr (cons v nil)) s = (
    λ e. inr (ap (λ w. arr (cons w nil)) ((text_of-eq-some v s).0 e)),
    λ e. ground (arith, text_of-eq-some v s),
  )
  audience_of-eq-some (arr (cons v (cons w vs))) s = (λ e. cc, λ e. ground arith)
  audience_of-eq-some (num _) s = (λ e. cc, λ e. ground arith)
  audience_of-eq-some (boolean _) s = (λ e. cc, λ e. ground arith)
  audience_of-eq-some null s = (λ e. cc, λ e. ground arith)
  audience_of-eq-some object s = (λ e. cc, λ e. ground arith)

  read_claim-eq-ok {ℓ} :
      {A : Type ℓ} (read : ClaimValue F → Option A) (absent wrong : ClaimError)
      (o : Option (ClaimValue F)) (a : A)
      → (read_claim read absent wrong o ≡ ok a)
        ↔ ((v : ClaimValue F) × (o ≡ some v) × (read v ≡ some a))
  read_claim-eq-ok read absent wrong none a = (λ h. cc, λ (v, e, _). absurd (cc))
  read_claim-eq-ok read absent wrong (some v) a =
      (λ h. (v, refl, ground arith), λ (w, e, r). ground arith)

  required_string_claim_iff :
      (claims : Claims F) (key s : Text)
      → (required_string_claim claims key ≡ ok s) ↔ (lookup Text-discrete key claims ≡ some (str s))
  unfolding required_string_claim
  required_string_claim_iff claims key s =
      let o = lookup Text-discrete key claims in
      let (reads, gives) = read_claim-eq-ok text_of (missing key) (not_a_string key) o s in
      (
        λ h. let (v, e, r) = reads h in e ∙ ap some ((text_of-eq-some v s).0 r),
        λ e. gives (str s, e, refl),
      )

  required_float_claim_iff :
      (claims : Claims F) (key : Text) (f : F)
      → (required_float_claim claims key ≡ ok f) ↔ (lookup Text-discrete key claims ≡ some (num f))
  unfolding required_float_claim
  required_float_claim_iff claims key f =
      let o = lookup Text-discrete key claims in
      let (reads, gives) = read_claim-eq-ok float_of (missing key) (not_a_number key) o f in
      (
        λ h. let (v, e, r) = reads h in e ∙ ap some ((float_of-eq-some v f).0 r),
        λ e. gives (num f, e, refl),
      )

  audience_claim_iff :
      (claims : Claims F) (s : Text)
      → (audience_claim claims ≡ ok s) ↔ (
          (v : ClaimValue F) × (lookup Text-discrete (bytes "aud") claims ≡ some v)
          × IsAudience s v)
  unfolding audience_claim
  audience_claim_iff claims s =
      let o = lookup Text-discrete (bytes "aud") claims in
      let (reads, gives) =
        read_claim-eq-ok audience_of (missing (bytes "aud")) invalid_format o s in
      (
        λ h. let (v, e, r) = reads h in (v, e, (audience_of-eq-some v s).0 r),
        λ (v, e, a). gives (v, e, (audience_of-eq-some v s).1 a),
      )

-- The claims of an access token for the mobile audience, of the backend, with an expiry.
pub record IsAccess {F : Type 0} (int64 : F → ℤ) (claims : Claims F) (r : AuthResult) : Type 0 where
  pub exp : F
  pub aud : ClaimValue F
  pub user : lookup Text-discrete (bytes "userId") claims ≡ some (str r.user_id)
  pub user_not_empty : r.user_id ≢ []
  pub token_type : lookup Text-discrete (bytes "tokenType") claims ≡ some (str token_type_access)
  pub audience : lookup Text-discrete (bytes "aud") claims ≡ some aud
  pub is_audience : IsAudience audience_mobile aud
  pub issuer : lookup Text-discrete (bytes "iss") claims ≡ some (str issuer_backend)
  pub expires : lookup Text-discrete (bytes "exp") claims ≡ some (num exp)
  pub expiry : r.expiry ≡ int64 exp

-- validateClaims returns a result exactly for claims with a userId that is a string and not empty,
-- the tokenType access, the audience mobile (a string or an array of just that string), the issuer
-- auth-backend and a numeric exp; the result is this user and the integer of this exp.
pub validate_claims_iff :
    {F : Type 0} (int64 : F → ℤ) (claims : Claims F) (r : AuthResult)
    → (validate_claims int64 claims ≡ ok r) ↔ IsAccess int64 claims r
unfolding validate_claims
validate_claims_iff int64 claims r = (sound, complete)
  where
    sound : validate_claims int64 claims ≡ ok r → IsAccess int64 claims r
    sound h =
        let (user_id, h1, k1) = >>=-eq-ok (required_string_claim claims (bytes "userId")) _ r h in
        let (_, h2, k2) = >>=-eq-ok (require_not_empty user_id) _ r k1 in
        let (token_type, h3, k3) =
          >>=-eq-ok (required_string_claim claims (bytes "tokenType")) _ r k2 in
        let (_, h4, k4) =
          >>=-eq-ok (require_equal token_type token_type_access (invalid (bytes "tokenType"))) _ r
            k3 in
        let (aud, h5, k5) = >>=-eq-ok (audience_claim claims) _ r k4 in
        let (_, h6, k6) =
          >>=-eq-ok (require_equal aud audience_mobile (invalid (bytes "aud"))) _ r k5 in
        let (iss, h7, k7) = >>=-eq-ok (required_string_claim claims (bytes "iss")) _ r k6 in
        let (_, h8, k8) =
          >>=-eq-ok (require_equal iss issuer_backend (invalid (bytes "iss"))) _ r k7 in
        let (exp, h9, k9) = >>=-eq-ok (required_float_claim claims (bytes "exp")) _ r k8 in
        let (v, found, is_audience) = (audience_claim_iff claims aud).0 h5 in
        let result = ok-injective k9 in
        let user = ap (λ (x : AuthResult). x.user_id) result in
        let is_access = (require_equal-eq-ok token_type token_type_access _).0 h4 in
        let is_issuer = (require_equal-eq-ok iss issuer_backend _).0 h8 in
        record {
          exp = exp;
          aud = v;
          user =
              (required_string_claim_iff claims (bytes "userId") user_id).0 h1
              ∙ ap (λ u. some (str u)) user;
          user_not_empty = subst (λ u. u ≢ []) user ((require_not_empty-eq-ok user_id).0 h2);
          token_type =
              (required_string_claim_iff claims (bytes "tokenType") token_type).0 h3
              ∙ ap (λ u. some (str u)) is_access;
          audience = found;
          is_audience =
              subst (λ a. IsAudience a v) ((require_equal-eq-ok aud audience_mobile _).0 h6)
                is_audience;
          issuer =
              (required_string_claim_iff claims (bytes "iss") iss).0 h7
              ∙ ap (λ u. some (str u)) is_issuer;
          expires = (required_float_claim_iff claims (bytes "exp") exp).0 h9;
          expiry = sym (ap (λ (x : AuthResult). x.expiry) result);
        }

    complete : IsAccess int64 claims r → validate_claims int64 claims ≡ ok r
    complete a =
        bind_ok _ _ _ _ ((required_string_claim_iff claims (bytes "userId") r.user_id).1 a.user) (
          bind_ok _ _ _ _ ((require_not_empty-eq-ok r.user_id).1 a.user_not_empty) (
            bind_ok _ _ _ _
              ((required_string_claim_iff claims (bytes "tokenType") token_type_access).1
                a.token_type)
              (bind_ok _ _ _ _ ((require_equal-eq-ok token_type_access token_type_access _).1 refl)
                (bind_ok _ _ _ _
                  ((audience_claim_iff claims audience_mobile).1 (a.aud, a.audience, a.is_audience))
                  (bind_ok _ _ _ _ ((require_equal-eq-ok audience_mobile audience_mobile _).1 refl)
                    (bind_ok _ _ _ _
                      ((required_string_claim_iff claims (bytes "iss") issuer_backend).1 a.issuer)
                      (bind_ok _ _ _ _
                        ((require_equal-eq-ok issuer_backend issuer_backend _).1 refl)
                        (bind_ok _ _ _ _
                          ((required_float_claim_iff claims (bytes "exp") a.exp).1 a.expires)
                          (ap ok
                            (λ i. record { user_id = r.user_id; expiry = sym a.expiry i }))))))))))
