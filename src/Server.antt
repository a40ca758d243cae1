-- ===== src/Server.antt =====
-- internal/relay/server.go: the server's parts, its health answer and its periodic log line. An
-- authenticator is its key store (internal/auth/jwt.go).
pub mod Stats
pub mod Admission
use sesori_relay_server.Prelude.{ℕ, ℤ, Bool, [], Option, none, some, Text, bytes}
use sesori_relay_server.Auth.Claims.{Claims}
use sesori_relay_server.Auth.KeyStore.{Backend, KeyStore}
use sesori_relay_server.Auth.Verify.{Jwt, validate}
use sesori_relay_server.Connect.{Authenticator}
use sesori_relay_server.GroupManager.{GroupManager, new_group_manager, count}
use sesori_relay_server.Notifications.{Client}
use sesori_relay_server.RateLimiter.{
  RateLimiter, ConnectionStats, new_rate_limiter, default_max_per_ip, default_max_rooms,
  connection_stats,
}
use sesori_relay_server.World.{World}

pub record Server : Type 0 where
  pub addr : Text
  pub manager : GroupManager
  pub rate_limiter : RateLimiter
  pub jwt_auth : Option KeyStore
  pub notifications : Option Client
  pub trust_cf_connecting_ip : Bool

unfoldable pub new_server : Text → Option KeyStore → Option Client → Bool → Server
new_server addr jwt_auth notifs trust = record {
  addr = addr;
  manager = new_group_manager;
  rate_limiter = new_rate_limiter default_max_per_ip default_max_rooms;
  jwt_auth = jwt_auth;
  notifications = notifs;
  trust_cf_connecting_ip = trust;
}

-- The shared state of the server, before any connection.
unfoldable pub world_of : Server → World
world_of s = record { limiter = s.rate_limiter; manager = s.manager; handlers = [] }

-- What `s.jwtAuth.Validate` answers with the key store as it is.
unfoldable pub authenticator_of :
    {F : Type 0} → (F → ℤ) → Backend → Jwt F → Option KeyStore → Authenticator
authenticator_of int64 backend jwt none = none
authenticator_of int64 backend jwt (some ks) =
    some (λ token. (validate int64 backend jwt ks token).1)

-- The object that `handleHealth` encodes.
pub record Health : Type 0 where
  pub status : Text
  pub groups : ℕ

unfoldable pub handle_health : GroupManager → Health
handle_health manager = record { status = bytes "ok"; groups = count manager }

-- The numbers of a line of `logConnectionStats`. The limiter and the manager are those at two
-- accesses, `ConnectionStats` and then `Count`.
pub record StatsLine : Type 0 where
  pub connections : ConnectionStats
  pub active_groups : ℕ

unfoldable pub stats_line : RateLimiter → GroupManager → StatsLine
stats_line limiter manager = record {
  connections = connection_stats limiter;
  active_groups = count manager;
}
