-- ===== src/Startup/Exit.antt =====
-- cmd/relay/main.go: how the program ends. `Served` is what `server.Start` returns: the error of a
-- listener that was shut down, or another error.
use sesori_relay_server.Prelude.{
  ◌≡◌, ◌≢◌, ◌↔◌, ◌⊎◌, refl, inl, inr, false, arith, [], none, some, bytes, Bool-cases, Option-cases,
}
use sesori_relay_server.Auth.KeyStore.{
  Backend, KeyStore, FetchError, Fetched, ok, err, new_key_store, load, store_key, fetch_and_parse,
}
use sesori_relay_server.Config.{Flags, Env, Config, resolve_config, parse_bool, resolve_config-none}
use sesori_relay_server.Server.{Server}
use sesori_relay_server.Startup.{
  start, server_with, authenticator, loaded, key_url, resolve_config-Enables, empty-eq,
  not_empty-ne,
}

pub data Served : Type 0 where
  server_closed listen_failed : Served

pub data Exit : Type 0 where
  stopped exit_1 : Exit

unfoldable pub exit_of : Served → Exit
exit_of server_closed = stopped
exit_of listen_failed = exit_1

unfoldable pub main : Backend → (Server → Served) → Flags → Env → Exit
main backend serve flags env = elim (start backend flags env) [
  | none ↦ exit_1
  | some server ↦ exit_of (serve server)
]

-- The public key cannot be fetched from the backend of a configuration that names one.
abbrev pub KeyFails : Backend → Config → Type 0
KeyFails backend c =
    (c.auth_backend_url ≢ [])
    × ((e : FetchError) × (fetch_and_parse backend (new_key_store (key_url c)) ≡ err e))

load-fails :
    (backend : Backend) (ks : KeyStore)
    → (loaded (load backend ks) ≡ none) ↔ ((e : FetchError) × (fetch_and_parse backend ks ≡ err e))
unfolding loaded load store_key
load-fails backend ks = go (fetch_and_parse backend ks) refl
  where
    go :
        (f : Fetched)
        → fetch_and_parse backend ks ≡ f
        → (loaded (load backend ks) ≡ none)
          ↔ ((e : FetchError) × (fetch_and_parse backend ks ≡ err e))
    go (ok key) e = (λ h. absurd (ground arith), λ (x, h). absurd (ground arith))
    go (err x) e = (λ h. (x, e), λ _. ground arith)

authenticator-fails :
    (backend : Backend) (flags : Flags) (env : Env) (c : Config)
    → resolve_config flags env ≡ some c
    → (server_with backend c ≡ none) ↔ KeyFails backend c
unfolding authenticator server_with
authenticator-fails backend flags env c resolved =
    let (enabled, _) = resolve_config-Enables flags env c resolved in
    let fails = load-fails backend (new_key_store (key_url c)) in
    elim (Bool-cases c.auth_enabled) [
      | inl on ↦ (
        λ h. (not_empty-ne c.auth_backend_url (ground arith), fails.0 (ground arith)),
        λ (_, f). ground (arith, fails.1 f),
      )
      | inr off ↦ (
        λ h. absurd (ground arith),
        λ (named, _). absurd (named (empty-eq c.auth_backend_url (ground arith))),
      )
    ]

-- The three ways to fail.
abbrev pub Fails : Backend → (Server → Served) → Flags → Env → Type 0
Fails backend serve flags env =
    let raw = env (bytes "RELAY_TRUST_CF_CONNECTING_IP") in
    ((flags.trust_set ≡ false) × ((raw ≢ []) × (parse_bool raw ≡ none)))
    ⊎ (((c : Config) × (resolve_config flags env ≡ some c) × KeyFails backend c)
        ⊎ ((s : Server) × (start backend flags env ≡ some s) × (serve s ≡ listen_failed)))

served : (o : Served) → (exit_of o ≡ exit_1) ↔ (o ≡ listen_failed)
unfolding exit_of
served server_closed = (λ e. cc, λ e. cc)
served listen_failed = (λ e. refl, λ e. refl)

-- The program exits with an error exactly if the trust flag was not given and its variable is set
-- to a text that is no truth value, or the configuration names a backend whose public key cannot be
-- fetched and parsed, or the server was started and ended with an error other than that of a
-- shutdown.
pub main-exit_1_iff :
    (backend : Backend) (serve : Server → Served) (flags : Flags) (env : Env)
    → (main backend serve flags env ≡ exit_1) ↔ Fails backend serve flags env
unfolding main start
main-exit_1_iff backend serve flags env =
    let refused = resolve_config-none flags env in
    elim (Option-cases (resolve_config flags env)) [
      | inl bad ↦ (λ _. inl (refused.0 bad), λ _. ground arith)
      | inr (c, resolved) ↦
          let key = authenticator-fails backend flags env c resolved in
          elim (Option-cases (server_with backend c)) [
            | inl no_key ↦ (λ _. inr (inl (c, resolved, key.0 no_key)), λ _. ground arith)
            | inr (s, built) ↦ (
              λ h. inr (inr (s, ground arith, (served (serve s)).0 (ground arith))),
              λ f. elim f [
                | inl bad ↦ absurd (ground (arith, refused.1 bad))
                | inr (inl (c', is_config, fails)) ↦
                    absurd
                      (ground (arith, (authenticator-fails backend flags env c' is_config).1 fails))
                | inr (inr (s', starts, failed)) ↦ ground (arith, (served (serve s)).1)
              ],
            )
          ]
    ]
