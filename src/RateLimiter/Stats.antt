-- ===== src/RateLimiter/Stats.antt =====
-- internal/relay/ratelimit.go: `ConnectionStats` over the slots that are held.
use sesori_relay_server.Prelude.{
  ℕ, ◌+◌, ◌≤◌, ◌≡◌, refl, sym, List, [], ◌∷◌, Text, Text-discrete, arith, length, if◌then◌else◌,
  ltb, ite,
}
use sesori_relay_server.Prelude.Dict.{Dict, Distinct, Entries, lookup}
use sesori_relay_server.RateLimiter.{
  RateLimiter, ConnectionStats, or_zero, add_count, add_counts, connection_stats,
}
use sesori_relay_server.RateLimiter.Slots.{Represents, held, InRange}

unfoldable pub total : Dict Text ℕ → ℕ
total [] = 0
total ((_, n) ∷ m) = n + total m

unfoldable pub largest : ℕ → Dict Text ℕ → ℕ
largest top [] = top
largest top ((_, n) ∷ m) = largest (if ltb top n then n else top) m

-- The loop adds up the counts, counts the keys and keeps the largest count.
add_counts_lem :
    (s : ConnectionStats) (m : Dict Text ℕ)
    → add_counts s m ≡ record s {
      active_connections = s.active_connections + total m;
      active_client_ips = s.active_client_ips + length m;
      max_connections_per_ip = largest s.max_connections_per_ip m;
    }
unfolding add_counts add_count total largest
add_counts_lem s [] = ground arith
add_counts_lem s ((_, n) ∷ m) = ground (arith, add_counts_lem (add_count s n) m)

-- The slots of one address taken out.
unfoldable pub without : Text → List Text → List Text
without ip [] = []
without ip (x ∷ xs) = ite (Text-discrete ip x) (without ip xs) (x ∷ without ip xs)

length-without : (ip : Text) (xs : List Text) → length (without ip xs) + held ip xs ≡ length xs
unfolding without held
length-without ip [] = omega arith
length-without ip (x ∷ xs) = ground (arith, length-without ip xs)

held-without :
    (ip jp : Text) (xs : List Text)
    → held jp (without ip xs) ≡ ite (Text-discrete jp ip) 0 (held jp xs)
unfolding without held
held-without ip jp [] = ground arith
held-without ip jp (x ∷ xs) = ground (arith, held-without ip jp xs)

no_slots : (xs : List Text) → ((ip : Text) → 0 ≡ held ip xs) → length xs ≡ 0
unfolding held
no_slots [] h = refl
no_slots (x ∷ xs) h = ground (arith, h x)

total-held :
    (m : Dict Text ℕ) (xs : List Text)
    → Distinct Text-discrete m
    → ((ip : Text) → or_zero (lookup Text-discrete ip m) ≡ held ip xs)
    → total m ≡ length xs
unfolding total lookup
total-held [] xs d h = sym (no_slots xs h)
total-held ((k, n) ∷ m) xs d h = omega (
  arith,
  total-held m (without k xs) d.1 (λ jp. ground (arith, h jp, d.0, held-without k jp xs)),
  length-without k xs,
  at_key,
)
  where
    at_key : n ≡ held k xs
    at_key = ground (arith, h k)

largest-le :
    (limit top : ℕ) (m : Dict Text ℕ)
    → top ≤ limit
    → Entries Text-discrete (InRange limit) m
    → largest top m ≤ limit
unfolding largest
largest-le limit top [] h e = h
largest-le limit top ((k, n) ∷ m) h e =
    largest-le limit (if ltb top n then n else top) m (ground arith) e.1

le-largest : (top : ℕ) (m : Dict Text ℕ) → top ≤ largest top m
unfolding largest
le-largest top [] = omega arith
le-largest top ((k, n) ∷ m) = ground (arith, le-largest (if ltb top n then n else top) m)

lookup-le-largest :
    (top : ℕ) (ip : Text) (m : Dict Text ℕ) → or_zero (lookup Text-discrete ip m) ≤ largest top m
unfolding largest lookup
lookup-le-largest top ip [] = omega arith
lookup-le-largest top ip ((k, n) ∷ m) =
    let next = if ltb top n then n else top in
    ground (arith, le-largest next m, lookup-le-largest next ip m)

-- While the limiter's table represents the slots that are held, ConnectionStats reports as active
-- connections the number of slots, as maximum for an address a number that no address exceeds and
-- that is at most the limit, and the count of rejected connections.
pub connection_stats_lem :
    (rl : RateLimiter) (slots : List Text)
    → Represents rl slots
    → ((connection_stats rl).active_connections ≡ length slots)
      × ((ip : Text) → held ip slots ≤ (connection_stats rl).max_connections_per_ip)
      × ((connection_stats rl).max_connections_per_ip ≤ rl.max_per_ip)
      × ((connection_stats rl).rejected_connections ≡ rl.rejected_connections)
unfolding connection_stats
connection_stats_lem rl slots r = (
  ground (arith, add_counts_lem zeros rl.counts, total-held rl.counts slots r.distinct r.counts),
  λ ip.
      ground (arith, add_counts_lem zeros rl.counts, lookup-le-largest 0 ip rl.counts, r.counts ip),
  ground (
    arith,
    add_counts_lem zeros rl.counts,
    largest-le rl.max_per_ip 0 rl.counts (omega arith) r.in_range,
  ),
  ground (arith, add_counts_lem zeros rl.counts),
)
  where
    zeros : ConnectionStats
    zeros = record {
      active_connections = 0;
      active_client_ips = 0;
      max_connections_per_ip = 0;
      rejected_connections = rl.rejected_connections;
    }
