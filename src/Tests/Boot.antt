-- ===== src/Tests/Boot.antt =====
-- A server that starts, its first connection, its key store and its log line.
use sesori_relay_server.Prelude.{
  ℕ, zero, suc, ◌+◌, ap, subst, ℕ_discrete, ◌≤◌, ◌≡◌, ◌≢◌, ◌↔◌, refl, arith, true, [], ◌∷◌, none,
  some, Text, Text-discrete, bytes, length,
}
use sesori_relay_server.AccountGroup.{is_empty_text}
use sesori_relay_server.Auth.KeyStore.{
  Backend, KeyStore, load, new_key_store, fetch_and_parse, parse_block, rsa_key, refresh,
  public_key,
}
use sesori_relay_server.Auth.Claims.{
  validate_claims, required_string_claim, audience_claim, required_float_claim,
}
use sesori_relay_server.DeviceIds.{is_bridge_id}
use sesori_relay_server.Prelude.Dict.{lookup}
use sesori_relay_server.Auth.KeyStore.Refreshes.{
  periodic_refresh, latest_key, periodic_refresh-latest_key,
}
use sesori_relay_server.Auth.Verify.{validate, verify_token, token_verdict, key_func}
use sesori_relay_server.Config.{Config, resolve_config, resolve_trust}
use sesori_relay_server.Connect.{
  handle_web_socket, joins, accepted_connection, read_and_validate_auth,
}
use sesori_relay_server.Handler.Connections.{
  Read, Fills, new_connection_id, IsHex, IsBytes, new_connection_id_lem,
}
use sesori_relay_server.Handler.Effects.{text}
use sesori_relay_server.Notifications.{new_client}
use sesori_relay_server.RateLimiter.{
  allow_connection, allow_group, new_rate_limiter, default_max_per_ip, default_max_rooms,
}
use sesori_relay_server.RateLimiter.Slots.{held}
use sesori_relay_server.Server.{Server, new_server, world_of, authenticator_of, stats_line}
use sesori_relay_server.Server.Admission.{IsAuthentic, handle_web_socket-IsAuthentic}
use sesori_relay_server.Server.Stats.{arrivals, stats_line_accurate}
use sesori_relay_server.Startup.{
  start, start_lem, IsAuthenticator, IsNotifier, authenticator, notifier, server_with,
}
use sesori_relay_server.Startup.Exit.{Served, server_closed, exit_1, main, Fails, main-exit_1_iff}
use sesori_relay_server.Tests.Messages.{flags, empty_env}
use sesori_relay_server.Tests.Sharing.{hello_json, near, ann_joins}
use sesori_relay_server.Tests.Tokens.{
  backend, jwt, IsSigned, jwt-ChecksSignature, old_store, same_number,
}
use sesori_relay_server.Tests.Worlds.{settled, settled-Reach}
use sesori_relay_server.World.{Reach, World, arrive, arrives}
use sesori_relay_server.World.Drain.{Run, step, done}
use sesori_relay_server.World.Slots.{slots}

abbrev server : Server
server =
    new_server (bytes ":8080") (some (record { url = bytes "url/auth/public-key"; key = some 2 }))
      (some (new_client (bytes "url") (bytes "secret"))) true

starts : start backend flags empty_env ≡ some server
unfolding start resolve_config resolve_trust server_with authenticator is_empty_text load
    fetch_and_parse parse_block rsa_key new_key_store notifier
starts = refl

start_lem_example :
    (c : Config) × (resolve_config flags empty_env ≡ some c)
    × (server.addr ≡ bytes ":8080")
    × IsAuthenticator backend c server.jwt_auth
    × IsNotifier c server.jwt_auth server.notifications
    × Reach default_max_per_ip default_max_rooms (world_of server)
start_lem_example = start_lem backend flags empty_env server starts

lets_in :
    (handle_web_socket hello_json
      (authenticator_of same_number backend jwt (some old_store))
      (new_rate_limiter 2 10)
      near
      true
      0
      (some (text (bytes "hello")))).1
    ≡ joins ann_joins
unfolding handle_web_socket authenticator_of allow_connection new_rate_limiter lookup
    accepted_connection allow_group read_and_validate_auth Text-discrete validate token_verdict
    verify_token key_func refresh fetch_and_parse parse_block rsa_key validate_claims
    required_string_claim is_empty_text audience_claim required_float_claim public_key is_bridge_id
lets_in = refl

handle_web_socket-IsAuthentic_example :
    (ks : KeyStore) × (input : Text) × (some old_store ≡ some ks)
    × (some (text (bytes "hello")) ≡ some (text input))
    × IsAuthentic same_number backend jwt IsSigned hello_json ks input (bytes "ann")
handle_web_socket-IsAuthentic_example =
    handle_web_socket-IsAuthentic same_number backend jwt IsSigned jwt-ChecksSignature hello_json
      (some old_store) (new_rate_limiter 2 10) near true 0 (some (text (bytes "hello"))) ann_joins
      lets_in

-- The backend of a refresh that fails.
abbrev down : Backend
down = record { get = λ url. none; pem_decode = λ body. none; parse_pkix = λ block. none }

periodic_refresh-latest_key_example :
    periodic_refresh (down ∷ backend ∷ down ∷ []) old_store
    ≡ record old_store { key = latest_key old_store.url old_store.key (down ∷ backend ∷ down ∷ []) }
periodic_refresh-latest_key_example =
    periodic_refresh-latest_key (down ∷ backend ∷ down ∷ []) old_store

-- A connection from another address comes between the two accesses.
abbrev busier : World
busier = arrive settled 7 (bytes "10.0.0.9")

newcomer : Run settled busier
unfolding lookup ℕ_discrete
newcomer = step (arrives 7 (bytes "10.0.0.9") refl refl) done

stats_line_accurate_example :
    let line = stats_line settled.limiter busier.manager in
    (line.connections.active_connections ≡ length settled.handlers)
    × (held near (slots settled.handlers) ≤ line.connections.max_connections_per_ip)
    × (line.connections.max_connections_per_ip ≤ 4)
    × (line.active_groups ≤ line.connections.active_connections + arrivals newcomer)
stats_line_accurate_example = stats_line_accurate 4 5 settled busier near newcomer settled-Reach

-- A source of random bytes that fills any buffer with zeros, and one that fails.
abbrev filled : ℕ → Text
filled zero = []
filled (suc n) = 0 ∷ filled n

abbrev still : Read
still n = some (filled n)

abbrev broken : Read
broken n = none

filled_lem : (n : ℕ) → (length (filled n) ≡ n) × IsBytes (filled n)
filled_lem zero = (refl, tt)
filled_lem (suc n) = (ap suc (filled_lem n).0, (omega arith, (filled_lem n).1))

still-Fills : Fills still
still-Fills n x e = subst (λ y. (length y ≡ n) × IsBytes y) (ground arith) (filled_lem n)

broken-Fills : Fills broken
broken-Fills n x e = absurd (cc)

new_connection_id_lem_example :
    ((new_connection_id still ≡ []) ↔ (still 16 ≡ none))
    × (new_connection_id still ≢ []
        → (length (new_connection_id still) ≡ 32) × IsHex (new_connection_id still))
    × (new_connection_id still ≡ new_connection_id broken → still 16 ≡ broken 16)
new_connection_id_lem_example = new_connection_id_lem still broken still-Fills broken-Fills

abbrev serves : Server → Served
serves _ = server_closed

main-exit_1_iff_example :
    (main down serves flags empty_env ≡ exit_1) ↔ Fails down serves flags empty_env
main-exit_1_iff_example = main-exit_1_iff down serves flags empty_env

-- The program ends with an error where the key cannot be fetched.
down_fails : main down serves flags empty_env ≡ exit_1
unfolding main start resolve_config resolve_trust server_with authenticator is_empty_text load
    fetch_and_parse new_key_store
down_fails = refl
