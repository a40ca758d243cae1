-- ===== src/Server/Stats.antt =====
-- internal/relay/server.go: what the log line says of the handlers, under every interleaving.
use sesori_relay_server.Prelude.{
  ℕ, ◌+◌, ◌≤◌, ◌≡◌, ◌∙◌, refl, ap, inl, inr, arith, [], ◌∷◌, Text, ℕ_discrete, length, Bool-cases,
}
use sesori_relay_server.Prelude.Dict.{Dict, insert, length-insert, length-delete-le}
use sesori_relay_server.RateLimiter.{allow_connection}
use sesori_relay_server.RateLimiter.Slots.{held}
use sesori_relay_server.RateLimiter.Stats.{connection_stats_lem}
use sesori_relay_server.Server.{stats_line}
use sesori_relay_server.World.{
  admitted, Handler, World, Step, Reach, At, arrives, checks, gets_group, adds_bridge, adds_phone,
  removes_bridge, removes_phone, collects, ends, arrive, get_group, withdraw_bridge, withdraw_phone,
  collect, finish,
}
use sesori_relay_server.World.Branches.{check_groups_cases, join_bridge_cases, join_phone_cases}
use sesori_relay_server.World.Capacity.{groups_bounded}
use sesori_relay_server.World.Drain.{Run, done, step, Run-Reach}
use sesori_relay_server.World.Slots.{slots, Reach-Accounted}

length-slots : (hs : Dict ℕ Handler) → length (slots hs) ≡ length hs
length-slots [] = refl
length-slots (_ ∷ hs) = omega (arith, length-slots hs)

-- How many connections a step adds, at most, and how many a run.
abbrev pub arrival : {w t : World} → Step w t → ℕ
arrival (arrives i ip new e) = 1
arrival (checks i h at s e) = 0
arrival (gets_group i h u at s e) = 0
arrival (adds_bridge i h u r g c at s found own e) = 0
arrival (adds_phone i h u r g c a at s found own result e) = 0
arrival (removes_bridge i h u r g c at s found e) = 0
arrival (removes_phone i h u r g c at s found e) = 0
arrival (collects i h u r at s e) = 0
arrival (ends i h at may e) = 0

abbrev pub arrivals : {w t : World} → Run w t → ℕ
arrivals done = 0
arrivals (step st rest) = arrival st + arrivals rest

-- A handler that moves on is still one.
moved_length :
    (w t : World) (i : ℕ) (h h' : Handler)
    → At w i h
    → t.handlers ≡ insert ℕ_discrete i h' w.handlers
    → length t.handlers ≤ length w.handlers + 0
moved_length w t i h h' at e = ground (arith, ap length e, length-insert ℕ_discrete i h' w.handlers)

length-arrive :
    (w : World) (i : ℕ) (ip : Text) → length (arrive w i ip).handlers ≤ length w.handlers + 1
unfolding arrive
length-arrive w i ip =
    let h : Handler = record { ip = ip; stage = admitted } in
    elim (Bool-cases (allow_connection w.limiter ip).1) [
      | inl allowed ↦ rw allowed (ground (arith, length-insert ℕ_discrete i h w.handlers))
      | inr refused ↦ rw refused (omega arith)
    ]

Step-length : {w t : World} (st : Step w t) → length t.handlers ≤ length w.handlers + arrival st
unfolding get_group withdraw_bridge withdraw_phone collect finish
Step-length {w} {t} (arrives i ip new e) =
    ground (arith, length-arrive w i ip, ap (λ x. length x.handlers) e)
Step-length {w} {t} (checks i h at s e) = elim (check_groups_cases w i h) [
  | inl few ↦ moved_length w t i h _ at (ap (λ x. x.handlers) (e ∙ few))
  | inr many ↦ moved_length w t i h _ at (ap (λ x. x.handlers) (e ∙ many))
]
Step-length {w} {t} (gets_group i h u at s e) = moved_length w t i h _ at (ap (λ x. x.handlers) e)
Step-length {w} {t} (adds_bridge i h u r g c at s found own e) =
    elim (join_bridge_cases w i h u r g c) [
      | inl (_, added) ↦ moved_length w t i h _ at (ap (λ x. x.handlers) (e ∙ added))
      | inr (_, refused) ↦ moved_length w t i h _ at (ap (λ x. x.handlers) (e ∙ refused))
    ]
Step-length {w} {t} (adds_phone i h u r g c a at s found own result e) =
    elim (join_phone_cases w i h u r a) [
      | inl (_, added) ↦ moved_length w t i h _ at (ap (λ x. x.handlers) (e ∙ added))
      | inr (_, refused) ↦ moved_length w t i h _ at (ap (λ x. x.handlers) (e ∙ refused))
    ]
Step-length {w} {t} (removes_bridge i h u r g c at s found e) =
    moved_length w t i h _ at (ap (λ x. x.handlers) e)
Step-length {w} {t} (removes_phone i h u r g c at s found e) =
    moved_length w t i h _ at (ap (λ x. x.handlers) e)
Step-length {w} {t} (collects i h u r at s e) = moved_length w t i h _ at (ap (λ x. x.handlers) e)
Step-length {w} {t} (ends i h at may e) =
    omega (arith, ap (λ x. length x.handlers) e, length-delete-le ℕ_discrete i w.handlers)

run_length : {w t : World} (run : Run w t) → length t.handlers ≤ length w.handlers + arrivals run
run_length done = omega arith
run_length (step st rest) = omega (arith, Step-length st, run_length rest)

-- In every reachable world, let the server read the numbers of the connections, and the number of
-- groups in a world that a run of steps leads to. The log line reports as active connections the
-- number of handlers in the first world, as maximum for an address a number that no address exceeds
-- there and that is at most the limit, and at most as many groups as active connections and
-- connections that arrived in between.
pub stats_line_accurate :
    (limit rooms : ℕ) (w t : World) (ip : Text) (run : Run w t)
    → Reach limit rooms w
    → let line = stats_line w.limiter t.manager in
      (line.connections.active_connections ≡ length w.handlers)
      × (held ip (slots w.handlers) ≤ line.connections.max_connections_per_ip)
      × (line.connections.max_connections_per_ip ≤ limit)
      × (line.active_groups ≤ line.connections.active_connections + arrivals run)
unfolding stats_line
stats_line_accurate limit rooms w t ip run r =
    let a = Reach-Accounted limit rooms r in
    let (active, over, under, _) = connection_stats_lem w.limiter (slots w.handlers) a.counted in
    let live = active ∙ length-slots w.handlers in
    (
      live,
      over ip,
      omega (arith, a.limit_kept),
      omega (arith, groups_bounded limit rooms t (Run-Reach run r), run_length run),
    )
