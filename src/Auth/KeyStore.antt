-- ===== src/Auth/KeyStore.antt =====
-- internal/auth/keystore.go. The HTTP client, the PEM and the PKIX decoders are outside of the
-- repository: `Backend` is a parameter. A key is the number of an RSA public key.
pub mod Refreshes
use sesori_relay_server.Prelude.{
  ℕ, ◌≡◌, ◌⊎◌, refl, inl, inr, arith, Option, none, some, Text, Option-cases,
}

-- What `x509.ParsePKIXPublicKey` returns.
pub data PublicKey : Type 0 where
  rsa : ℕ → PublicKey
  other : PublicKey

-- `get` is the body of the response, cut at 1 MiB.
pub record Backend : Type 0 where
  pub get : Text → Option Text
  pub pem_decode : Text → Option Text
  pub parse_pkix : Text → Option PublicKey

pub record KeyStore : Type 0 where
  pub url : Text
  pub key : Option ℕ

pub data FetchError : Type 0 where
  not_fetched not_pem not_parsed not_rsa : FetchError

pub data Fetched : Type 0 where
  ok : ℕ → Fetched
  err : FetchError → Fetched

unfoldable pub new_key_store : Text → KeyStore
new_key_store url = record { url = url; key = none }

unfoldable pub public_key : KeyStore → Option ℕ
public_key ks = ks.key

unfoldable pub rsa_key : Option PublicKey → Fetched
rsa_key none = err not_parsed
rsa_key (some (rsa key)) = ok key
rsa_key (some other) = err not_rsa

unfoldable pub parse_block : Backend → Option Text → Fetched
parse_block backend none = err not_pem
parse_block backend (some block) = rsa_key (backend.parse_pkix block)

unfoldable pub fetch_and_parse : Backend → KeyStore → Fetched
fetch_and_parse backend ks = elim (backend.get ks.url) [
  | none ↦ err not_fetched
  | some body ↦ parse_block backend (backend.pem_decode body)
]

-- The new key on success; otherwise the key stays. Beside it, the error.
unfoldable pub store_key : KeyStore → Fetched → KeyStore × Option FetchError
store_key ks (ok key) = (record ks { key = some key }, none)
store_key ks (err e) = (ks, some e)

-- `Load` and `Refresh` differ in a log line.
unfoldable pub load : Backend → KeyStore → KeyStore × Option FetchError
unfolding store_key
load backend ks = store_key ks (fetch_and_parse backend ks)

unfoldable pub refresh : Backend → KeyStore → KeyStore × Option FetchError
unfolding store_key
refresh backend ks = store_key ks (fetch_and_parse backend ks)

-- Refresh either fails with the error of the fetch and leaves the key store unchanged, or a
-- response came, held a PEM block and this parsed as an RSA key, and the store has this key and the
-- same address.
pub refresh_cases :
    (backend : Backend) (ks : KeyStore)
    → ((e : FetchError) × (fetch_and_parse backend ks ≡ err e)
        × (refresh backend ks ≡ (ks, some e)))
      ⊎ ((body : Text) × (block : Text) × (key : ℕ) × (backend.get ks.url ≡ some body)
          × (backend.pem_decode body ≡ some block)
          × (backend.parse_pkix block ≡ some (rsa key))
          × (refresh backend ks ≡ (record ks { key = some key }, none)))
unfolding refresh fetch_and_parse parse_block rsa_key
refresh_cases backend ks = elim (Option-cases (backend.get ks.url)) [
  | inl e ↦ inl (not_fetched, ground arith, ground arith)
  | inr (body, got) ↦ elim (Option-cases (backend.pem_decode body)) [
    | inl e ↦ inl (not_pem, ground arith, ground arith)
    | inr (block, decoded) ↦ go body block got decoded (backend.parse_pkix block) refl
  ]
]
  where
    go :
        (body block : Text)
        → backend.get ks.url ≡ some body
        → backend.pem_decode body ≡ some block
        → (parsed : Option PublicKey) → backend.parse_pkix block ≡ parsed
        → ((e : FetchError) × (fetch_and_parse backend ks ≡ err e)
            × (refresh backend ks ≡ (ks, some e)))
          ⊎ ((body : Text) × (block : Text) × (key : ℕ) × (backend.get ks.url ≡ some body)
              × (backend.pem_decode body ≡ some block)
              × (backend.parse_pkix block ≡ some (rsa key))
              × (refresh backend ks ≡ (record ks { key = some key }, none)))
    go body block got decoded none p = inl (not_parsed, ground arith, ground arith)
    go body block got decoded (some (rsa key)) p =
        inr (body, block, key, got, decoded, p, ground arith)
    go body block got decoded (some other) p = inl (not_rsa, ground arith, ground arith)
