-- ===== src/Tests/Tokens.antt =====
-- A token that is signed with the key 2, while the store holds the key 1 until it is refreshed.
use sesori_relay_server.Prelude.{
  pos, ℕ, ℤ, ◌≡◌, ◌↔◌, ◌⊎◌, refl, inr, arith, true, [], ◌∷◌, Option, none, some, Text,
  Text-discrete, bytes, ◌==◌, if◌then◌else◌,
}
use sesori_relay_server.Prelude.Dict.{lookup}
use sesori_relay_server.Auth.Acceptance.{IsAccess, validate_claims_iff}
use sesori_relay_server.Auth.Claims.{
  str, num, arr, cons, nil, Claims, AuthResult, ok, validate_claims,
}
use sesori_relay_server.Auth.KeyStore.{
  Backend, KeyStore, fetch_and_parse, parse_block, rsa_key, rsa, refresh,
}
use sesori_relay_server.Auth.Verify.{
  Header, Token, Jwt, accepted, key_func, validate, ChecksSignature, validate_iff,
}

abbrev ann_claims : Claims ℕ
ann_claims =
    (bytes "userId", str (bytes "ann"))
    ∷ (bytes "tokenType", str (bytes "access"))
    ∷ (bytes "aud", arr (cons (str (bytes "mobile")) nil))
    ∷ (bytes "iss", str (bytes "auth-backend"))
    ∷ (bytes "exp", num 1000)
    ∷ []

abbrev ann : AuthResult
ann = record { user_id = bytes "ann"; expiry = pos 1000 }

abbrev pub same_number : ℕ → ℤ
same_number n = pos n

ann-IsAccess : IsAccess same_number ann_claims ann
unfolding lookup Text-discrete
ann-IsAccess = record {
  exp = 1000;
  aud = arr (cons (str (bytes "mobile")) nil);
  user = refl;
  user_not_empty = λ e. cc;
  token_type = refl;
  audience = refl;
  is_audience = inr refl;
  issuer = refl;
  expires = refl;
  expiry = refl;
}

validate_claims_iff_example :
    (validate_claims same_number ann_claims ≡ ok ann) ↔ IsAccess same_number ann_claims ann
validate_claims_iff_example = validate_claims_iff same_number ann_claims ann

abbrev ann_token : Token ℕ
ann_token = record { claims = some ann_claims }

abbrev rsa_header : Header
rsa_header = record { is_rsa = true }

-- Every text is a token of `ann` that the key 2 signed.
abbrev signed_by_two : Option (Option ℕ) → Option (Token ℕ)
signed_by_two none = none
signed_by_two (some none) = none
signed_by_two (some (some key)) = if key == 2 then some ann_token else none

abbrev pub jwt : Jwt ℕ
jwt = record { parse = λ raw kf. signed_by_two (kf rsa_header) }

abbrev pub backend : Backend
backend = record {
  get = λ url. some (bytes "pem");
  pem_decode = λ body. some (bytes "block");
  parse_pkix = λ block. some (rsa 2);
}

abbrev pub old_store : KeyStore
old_store = record { url = bytes "url"; key = some 1 }

abbrev pub new_store : KeyStore
new_store = record { url = bytes "url"; key = some 2 }

old_key_fails : jwt.parse (bytes "raw") (key_func old_store) ≡ none
unfolding key_func
old_key_fails = refl

refreshed : refresh backend old_store ≡ (new_store, none)
unfolding refresh fetch_and_parse parse_block rsa_key
refreshed = refl

new_key_parses : jwt.parse (bytes "raw") (key_func new_store) ≡ some ann_token
unfolding key_func
new_key_parses = refl

-- The signature of the example: the key is 2 and the header names an RSA method.
abbrev pub IsSigned : Text → Header → Option ℕ → Token ℕ → Type 0
IsSigned raw header key token = (header.is_rsa ≡ true) × (key ≡ some 2)

signed_by_two-given :
    (raw : Text) (given : Option (Option ℕ)) (token : Token ℕ)
    → signed_by_two given ≡ some token
    → (key : Option ℕ) × (given ≡ some key) × IsSigned raw rsa_header key token
signed_by_two-given raw none token h = absurd (cc)
signed_by_two-given raw (some none) token h = absurd (cc)
signed_by_two-given raw (some (some key)) token h = (some key, refl, (refl, ground arith))

pub jwt-ChecksSignature : ChecksSignature same_number backend jwt IsSigned
jwt-ChecksSignature raw kf token h =
    let (key, given, signed) = signed_by_two-given raw (kf rsa_header) token h in
    (rsa_header, key, given, signed)

validate_iff_example :
    (validate same_number backend jwt old_store (bytes "raw") ≡ (new_store, accepted ann)) ↔ (
      (token : Token ℕ) × (claims : Claims ℕ) × (token.claims ≡ some claims)
      × IsAccess same_number claims ann
      × (((new_store ≡ old_store) × (jwt.parse (bytes "raw") (key_func old_store) ≡ some token))
          ⊎ ((jwt.parse (bytes "raw") (key_func old_store) ≡ none)
              × (refresh backend old_store ≡ (new_store, none))
              × (jwt.parse (bytes "raw") (key_func new_store) ≡ some token))))
validate_iff_example = validate_iff same_number backend jwt old_store new_store (bytes "raw") ann

-- The rotated key is accepted.
rotation : validate same_number backend jwt old_store (bytes "raw") ≡ (new_store, accepted ann)
rotation =
    validate_iff_example.1
      (ann_token, ann_claims, refl, ann-IsAccess, inr (old_key_fails, refreshed, new_key_parses))
