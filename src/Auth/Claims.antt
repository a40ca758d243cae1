-- ===== src/Auth/Claims.antt =====
-- internal/auth/jwt.go: `validateClaims` and its helpers. A `jwt.MapClaims` is a map to JSON values;
-- a float64 is an abstract `F`, and `int64` its conversion, which are parameters.
use sesori_relay_server.Prelude.{
  ℤ, [], ◌∷◌, Option, none, some, Text, Text-discrete, bytes, ite, Bool,
}
use sesori_relay_server.Prelude.Dict.{Dict, lookup}

-- The JSON values that a claim can have. Of an object only that it is one matters here.
mutual
  pub data ClaimValue (F : Type 0) : Type 0 where
    str : Text → ClaimValue F
    num : F → ClaimValue F
    boolean : Bool → ClaimValue F
    null object : ClaimValue F
    arr : ClaimItems F → ClaimValue F

  pub data ClaimItems (F : Type 0) : Type 0 where
    nil : ClaimItems F
    cons : ClaimValue F → ClaimItems F → ClaimItems F

pub record AuthResult : Type 0 where
  pub user_id : Text
  pub expiry : ℤ

pub data ClaimError : Type 0 where
  missing not_a_string not_a_number invalid : Text → ClaimError
  invalid_type empty_user_id invalid_format : ClaimError

pub data Result {ℓ} (A : Type ℓ) : Type ℓ where
  err : ClaimError → Result A
  ok : A → Result A

-- `if err != nil { return AuthResult{}, err }`.
infixl 5 ◌>>=◌
abbrev pub ◌>>=◌ {κ ℓ} : {B : Type κ} {A : Type ℓ} → Result A → (A → Result B) → Result B
err failure >>= next = err failure
ok value >>= next = next value

-- `if a != b { return error }`.
abbrev pub require_equal : Text → Text → ClaimError → Result (Unit {0})
require_equal a b e = ite (Text-discrete a b) (ok tt) (err e)

abbrev pub require_not_empty : Text → Result (Unit {0})
require_not_empty [] = err empty_user_id
require_not_empty (_ ∷ _) = ok tt

abbrev pub token_type_access : Text
token_type_access = bytes "access"

abbrev pub audience_mobile : Text
audience_mobile = bytes "mobile"

abbrev pub issuer_backend : Text
issuer_backend = bytes "auth-backend"

abbrev pub Claims : Type 0 → Type 0
Claims F = Dict Text (ClaimValue F)

module _ {F : Type 0} where
  -- `raw.(string)`.
  abbrev pub text_of : ClaimValue F → Option Text
  text_of (str s) = some s
  text_of (num _) = none
  text_of (boolean _) = none
  text_of null = none
  text_of object = none
  text_of (arr _) = none

  -- `raw.(float64)`.
  abbrev pub float_of : ClaimValue F → Option F
  float_of (num f) = some f
  float_of (str _) = none
  float_of (boolean _) = none
  float_of null = none
  float_of object = none
  float_of (arr _) = none

  -- The only element of an array, if that is a string.
  abbrev pub only_text : ClaimItems F → Option Text
  only_text nil = none
  only_text (cons v nil) = text_of v
  only_text (cons v (cons _ _)) = none

  -- The type switch of `audienceClaim`.
  abbrev pub audience_of : ClaimValue F → Option Text
  audience_of (str s) = some s
  audience_of (arr items) = only_text items
  audience_of (num _) = none
  audience_of (boolean _) = none
  audience_of null = none
  audience_of object = none

  -- A missing claim, and one of the wrong type, are different errors.
  abbrev pub read_claim {ℓ} :
      {A : Type ℓ}
      → (ClaimValue F → Option A)
      → ClaimError
      → ClaimError
      → Option (ClaimValue F)
      → Result A
  read_claim read absent wrong none = err absent
  read_claim read absent wrong (some v) = elim (read v) [ none ↦ err wrong | some a ↦ ok a ]

  unfoldable pub required_string_claim : Claims F → Text → Result Text
  required_string_claim claims key =
      read_claim text_of (missing key) (not_a_string key) (lookup Text-discrete key claims)

  unfoldable pub required_float_claim : Claims F → Text → Result F
  required_float_claim claims key =
      read_claim float_of (missing key) (not_a_number key) (lookup Text-discrete key claims)

  unfoldable pub audience_claim : Claims F → Result Text
  audience_claim claims =
      read_claim audience_of (missing (bytes "aud")) invalid_format
        (lookup Text-discrete (bytes "aud") claims)

module _ {F : Type 0} (int64 : F → ℤ) where
  unfoldable pub validate_claims : Claims F → Result AuthResult
  validate_claims claims = do
    user_id ← required_string_claim claims (bytes "userId")
    _ ← require_not_empty user_id
    token_type ← required_string_claim claims (bytes "tokenType")
    _ ← require_equal token_type token_type_access (invalid (bytes "tokenType"))
    aud ← audience_claim claims
    _ ← require_equal aud audience_mobile (invalid (bytes "aud"))
    iss ← required_string_claim claims (bytes "iss")
    _ ← require_equal iss issuer_backend (invalid (bytes "iss"))
    exp ← required_float_claim claims (bytes "exp")
    ok (record { user_id = user_id; expiry = int64 exp })
