-- ===== src/RateLimiter.antt =====
-- internal/relay/ratelimit.go: the per-IP connection counts and the global group limit.
-- A method that mutates `*RateLimiter` returns the new record; the mutex makes each one atomic.
pub mod Slots
pub mod Stats
use sesori_relay_server.Prelude.{
  ℕ, suc, ◌+◌, ◌-◌, Bool, true, false, List, [], ◌∷◌, Option, none, some, Text, Text-discrete, ltb,
  leb, if◌then◌else◌,
}
use sesori_relay_server.Prelude.Dict.{Dict, lookup, insert, delete}

abbrev pub default_max_per_ip : ℕ
default_max_per_ip = 20

abbrev pub default_max_rooms : ℕ
default_max_rooms = 10000

pub record ConnectionStats : Type 0 where
  pub active_connections : ℕ
  pub active_client_ips : ℕ
  pub max_connections_per_ip : ℕ
  pub rejected_connections : ℕ

pub record RateLimiter : Type 0 where
  pub max_per_ip : ℕ
  pub max_rooms : ℕ
  pub counts : Dict Text ℕ
  pub rejected_connections : ℕ

unfoldable pub new_rate_limiter : ℕ → ℕ → RateLimiter
new_rate_limiter max_per_ip max_rooms = record {
  max_per_ip = max_per_ip;
  max_rooms = max_rooms;
  counts = [];
  rejected_connections = 0;
}

-- A missing key of a map of ints reads as 0.
abbrev pub or_zero : Option ℕ → ℕ
or_zero none = 0
or_zero (some n) = n

-- `rl.counts[ip]`.
abbrev pub count_of : RateLimiter → Text → ℕ
count_of rl ip = or_zero (lookup Text-discrete ip rl.counts)

unfoldable pub allow_connection : RateLimiter → Text → RateLimiter × Bool
allow_connection rl ip =
    if leb rl.max_per_ip (count_of rl ip)
    then (record rl { rejected_connections = rl.rejected_connections + 1 }, false)
    else (record rl { counts = insert Text-discrete ip (count_of rl ip + 1) rl.counts }, true)

unfoldable pub release_connection : RateLimiter → Text → RateLimiter
release_connection rl ip = elim (lookup Text-discrete ip rl.counts) [
  | none ↦ rl
  | some count ↦
      if leb count 1
      then record rl { counts = delete Text-discrete ip rl.counts }
      else record rl { counts = insert Text-discrete ip (count - 1) rl.counts }
]

-- The body of the loop of `ConnectionStats`.
unfoldable pub add_count : ConnectionStats → ℕ → ConnectionStats
add_count stats count = record stats {
  active_connections = stats.active_connections + count;
  active_client_ips = stats.active_client_ips + 1;
  max_connections_per_ip =
      if ltb stats.max_connections_per_ip count then count else stats.max_connections_per_ip;
}

unfoldable pub add_counts : ConnectionStats → Dict Text ℕ → ConnectionStats
add_counts stats [] = stats
add_counts stats ((_, count) ∷ counts) = add_counts (add_count stats count) counts

unfoldable pub connection_stats : RateLimiter → ConnectionStats
unfolding add_counts
connection_stats rl =
    add_counts
      (record {
        active_connections = 0;
        active_client_ips = 0;
        max_connections_per_ip = 0;
        rejected_connections = rl.rejected_connections;
      })
      rl.counts

unfoldable pub allow_group : RateLimiter → ℕ → Bool
allow_group rl current_group_count = ltb current_group_count rl.max_rooms
