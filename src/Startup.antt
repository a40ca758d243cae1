-- ===== src/Startup.antt =====
-- cmd/relay/main.go: from the configuration to the server. The HTTP client and the decoders of the
-- key store are the parameter `Backend`.
pub mod Exit
use sesori_relay_server.Prelude.{
  ℕ, ◌≡◌, ◌≢◌, ◌⊎◌, ◌∙◌, refl, sym, ap, subst, inl, inr, true, false, ◌&&◌, not, arith, [], ◌∷◌,
  ◌++◌, Option, none, some, Text, bytes, if◌then◌else◌, Bool-cases, Option-cases,
}
use sesori_relay_server.AccountGroup.{is_empty_text}
use sesori_relay_server.Auth.KeyStore.{
  Backend, KeyStore, FetchError, rsa, new_key_store, load, refresh, refresh_cases,
}
use sesori_relay_server.Config.{Flags, Env, Config, resolve_config, config_with, resolve_config_lem}
use sesori_relay_server.Notifications.{Client, new_client}
use sesori_relay_server.Server.{Server, new_server, world_of}
use sesori_relay_server.RateLimiter.{default_max_per_ip, default_max_rooms}
use sesori_relay_server.World.{Reach, here, new_world}

-- After `keyStore.Load()`: `none` where the program exits with an error.
unfoldable pub loaded : KeyStore × Option FetchError → Option (Option KeyStore)
loaded (ks, some e) = none
loaded (ks, none) = some (some ks)

abbrev pub key_url : Config → Text
key_url c = c.auth_backend_url ++ bytes "/auth/public-key"

-- The authenticator, if there is to be one.
unfoldable pub authenticator : Backend → Config → Option (Option KeyStore)
unfolding loaded
authenticator backend c =
    if c.auth_enabled then loaded (load backend (new_key_store (key_url c))) else some none

unfoldable pub notifier : Config → Option Client
notifier c =
    if c.notifications_enabled
    then some (new_client c.auth_backend_url c.relay_webhook_secret)
    else none

unfoldable pub server_with : Backend → Config → Option Server
server_with backend c = elim (authenticator backend c) [
  | none ↦ none
  | some jwt_auth ↦ some (new_server c.addr jwt_auth (notifier c) c.trust_cf_connecting_ip)
]

-- `main`, up to `server.Start`; `none`: the program exits with an error.
unfoldable pub start : Backend → Flags → Env → Option Server
start backend flags env = elim (resolve_config flags env) [
  | none ↦ none
  | some c ↦ server_with backend c
]

-- The key store has a key that the backend delivered at its address.
abbrev pub HasKey : Backend → KeyStore → Type 0
HasKey backend ks =
    (body : Text) × (block : Text) × (key : ℕ) × (backend.get ks.url ≡ some body)
    × (backend.pem_decode body ≡ some block)
    × (backend.parse_pkix block ≡ some (rsa key))
    × (ks.key ≡ some key)

load-HasKey :
    (backend : Backend) (ks ks' : KeyStore)
    → load backend ks ≡ (ks', none)
    → (ks'.url ≡ ks.url) × HasKey backend ks'
unfolding load refresh
load-HasKey backend ks ks' e = elim (refresh_cases backend ks) [
  | inl (_, _, failed) ↦ absurd (ground arith)
  | inr (body, block, key, got, decoded, parsed, stored) ↦
      let same : ks' ≡ record ks { key = some key } = ground arith in
      (
        ap (λ k. k.url) same,
        (
          body,
          block,
          key,
          ap (λ k. backend.get k.url) same ∙ got,
          decoded,
          parsed,
          ap (λ k. k.key) same,
        ),
      )
]

-- What a configuration enables.
abbrev pub Enables : Config → Type 0
Enables c =
    (c.auth_enabled ≡ not (is_empty_text c.auth_backend_url))
    × (c.notifications_enabled
        ≡ not (is_empty_text c.relay_webhook_secret) && not (is_empty_text c.auth_backend_url))

pub resolve_config-Enables :
    (flags : Flags) (env : Env) (c : Config) → resolve_config flags env ≡ some c → Enables c
unfolding resolve_config config_with
resolve_config-Enables flags env c e = (ground arith, ground arith)

-- The authenticator of a server that starts: none without a backend, and otherwise one with a key.
abbrev pub IsAuthenticator : Backend → Config → Option KeyStore → Type 0
IsAuthenticator backend c auth =
    ((c.auth_backend_url ≡ []) × (auth ≡ none))
    ⊎ ((c.auth_backend_url ≢ [])
        × ((ks : KeyStore) × (auth ≡ some ks) × (ks.url ≡ key_url c) × HasKey backend ks))

pub empty-eq : (t : Text) → is_empty_text t ≡ true → t ≡ []
unfolding is_empty_text
empty-eq [] e = refl
empty-eq (c ∷ t) e = cc

pub not_empty-ne : (t : Text) → is_empty_text t ≡ false → t ≢ []
unfolding is_empty_text
not_empty-ne [] e h = cc
not_empty-ne (c ∷ t) e h = cc

loaded-eq-some :
    (p : KeyStore × Option FetchError) (auth : Option KeyStore)
    → loaded p ≡ some auth
    → (p.1 ≡ none) × (auth ≡ some p.0)
unfolding loaded
loaded-eq-some (ks, some e) auth h = absurd (cc)
loaded-eq-some (ks, none) auth h = (refl, ground arith)

authenticator-IsAuthenticator :
    (backend : Backend) (c : Config) (auth : Option KeyStore)
    → Enables c
    → authenticator backend c ≡ some auth
    → IsAuthenticator backend c auth
unfolding authenticator new_key_store
authenticator-IsAuthenticator backend c auth (enabled, _) e = elim (Bool-cases c.auth_enabled) [
  | inl on ↦
      let ks = new_key_store (key_url c) in
      let (fine, is_store) = loaded-eq-some (load backend ks) auth (ground arith) in
      let (url, has_key) = load-HasKey backend ks (load backend ks).0 (ground arith) in
      inr (
        not_empty-ne c.auth_backend_url (ground arith),
        ((load backend ks).0, is_store, url, has_key),
      )
  | inr off ↦ inl (empty-eq c.auth_backend_url (ground arith), ground arith)
]

-- The client of the reports is the backend's, and there is one only beside an authenticator.
abbrev pub IsNotifier : Config → Option KeyStore → Option Client → Type 0
IsNotifier c auth notifs =
    (client : Client)
    → notifs ≡ some client
    → (client.base_url ≡ c.auth_backend_url)
      × (client.secret ≡ c.relay_webhook_secret)
      × (client.secret ≢ [])
      × (auth ≢ none)

notifier-IsNotifier :
    (backend : Backend) (c : Config) (auth : Option KeyStore)
    → Enables c
    → IsAuthenticator backend c auth
    → IsNotifier c auth (notifier c)
unfolding notifier new_client
notifier-IsNotifier backend c auth (enabled, notifies) is_auth client e =
    let on : c.notifications_enabled ≡ true = ground arith in
    let is_client : client
        ≡ record { base_url = c.auth_backend_url; secret = c.relay_webhook_secret } =
      ground arith in
    (
      ap (λ k. k.base_url) is_client,
      ap (λ k. k.secret) is_client,
      λ h.
          not_empty-ne c.relay_webhook_secret (ground arith)
            (sym (ap (λ k. k.secret) is_client) ∙ h),
      λ h. elim is_auth [
        | inl (no_url, _) ↦ not_empty-ne c.auth_backend_url (ground arith) no_url
        | inr (_, (ks, there, _, _)) ↦ ground arith
      ],
    )

server_with-eq-some :
    (backend : Backend) (c : Config) (s : Server)
    → server_with backend c ≡ some s
    → (authenticator backend c ≡ some s.jwt_auth)
      × (s.notifications ≡ notifier c)
      × (s.addr ≡ c.addr)
      × (world_of s ≡ new_world default_max_per_ip default_max_rooms)
unfolding server_with new_server world_of new_world
server_with-eq-some backend c s e = elim (Option-cases (authenticator backend c)) [
  | inl exits ↦ absurd (ground arith)
  | inr (auth, on) ↦
      let is_server : new_server c.addr auth (notifier c) c.trust_cf_connecting_ip ≡ s =
        ground arith in
      (
        on ∙ ap some (ap (λ t. t.jwt_auth) is_server),
        sym (ap (λ t. t.notifications) is_server),
        sym (ap (λ t. t.addr) is_server),
        sym (ap world_of is_server),
      )
]

-- If the program starts its server, the flags and the environment gave a configuration and the
-- server has the address of the flag; it has no authenticator if no backend URL is configured, and
-- otherwise one whose key store fetches from this backend and has a key that the backend delivered;
-- a client for reports has the configured URL and secret, the secret is not empty, and there is an
-- authenticator beside it; and the shared state of the server is a reachable world with the default
-- limits.
pub start_lem :
    (backend : Backend) (flags : Flags) (env : Env) (s : Server)
    → start backend flags env ≡ some s
    → (c : Config) × (resolve_config flags env ≡ some c)
      × (s.addr ≡ flags.addr)
      × IsAuthenticator backend c s.jwt_auth
      × IsNotifier c s.jwt_auth s.notifications
      × Reach default_max_per_ip default_max_rooms (world_of s)
unfolding start
start_lem backend flags env s e = elim (Option-cases (resolve_config flags env)) [
  | inl exits ↦ absurd (ground arith)
  | inr (c, is_config) ↦
      let (auth, notifs, addr, fresh) = server_with-eq-some backend c s (ground arith) in
      let enables = resolve_config-Enables flags env c is_config in
      let is_auth = authenticator-IsAuthenticator backend c s.jwt_auth enables auth in
      (
        c,
        is_config,
        addr ∙ (resolve_config_lem flags env c is_config).0,
        is_auth,
        subst (IsNotifier c s.jwt_auth) (sym notifs)
            (notifier-IsNotifier backend c s.jwt_auth enables is_auth),
        subst (Reach default_max_per_ip default_max_rooms) (sym fresh) here,
      )
]
