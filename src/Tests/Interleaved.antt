-- ===== src/Tests/Interleaved.antt =====
-- The theorems on interleaved handlers, at the worlds of Tests/Worlds.antt.
use sesori_relay_server.Prelude.{
  ◌≢◌, ◌++◌, ℕ, ◌<◌, ◌≤◌, ◌≡◌, refl, arith, true, false, [], ◌∷◌, none, some, Option, List, Text,
  Text-discrete, ℕ_discrete, bytes, length,
}
use sesori_relay_server.Prelude.Dict.{lookup}
use sesori_relay_server.AccountGroup.{
  Connection, AccountGroup, Registered, remove_bridge, same, target, max_phones_per_account,
}
use sesori_relay_server.Announce.{announce_target_changes}
use sesori_relay_server.Announce.Views.{phone_view, bridge_view, name}
use sesori_relay_server.GroupManager.{count, group_at, has_live_bridge_with_id, has_bridge}
use sesori_relay_server.Handler.Bridge.{BridgeSession, bridge_message}
use sesori_relay_server.Handler.Effects.{Effect, binary}
use sesori_relay_server.Handler.Lifecycle.{open_phone, sent}
use sesori_relay_server.Handler.Phone.{phone_message}
use sesori_relay_server.Handler.Routing.{FramesTo}
use sesori_relay_server.RateLimiter.{count_of}
use sesori_relay_server.RateLimiter.Slots.{held}
use sesori_relay_server.Tests.Accounts.{desk, mobile}
use sesori_relay_server.Tests.Sessions.{laptop_session}
use sesori_relay_server.Tests.Sharing.{hello_json}
use sesori_relay_server.Tests.Worlds.{ann, near, got, with_mobile, settled, settled-Reach}
use sesori_relay_server.World.Groups.{Consistent, Reach-Consistent}
use sesori_relay_server.World.Overtaken.{overtaken_notice}
use sesori_relay_server.World.Told.{Beliefs, Told}
use sesori_relay_server.World.Told.Invariant.{Reach-Told, peers_know}
use sesori_relay_server.World.Overrun.{groups_overrun}
use sesori_relay_server.AccountGroup.{is_empty_text, default_bridge, latest_of, newer}
use sesori_relay_server.World.{Reach, World, bridge_serving, phone_serving, At, at_stage}
use sesori_relay_server.World.Capacity.{slots_exact}
use sesori_relay_server.World.Drain.{Run, world_drains}
use sesori_relay_server.World.Informed.{phone_joins_informed}
use sesori_relay_server.World.Isolation.{
  ServesPhone, ServesBridge, bridge_frames_isolated, phone_frames_isolated,
}
use sesori_relay_server.World.Live.{live_bridge_served}
use sesori_relay_server.World.Shared.{stages}
use sesori_relay_server.World.Slots.{slots}

abbrev desk_session : BridgeSession
desk_session = record laptop_session { conn = desk }

slots_exact_example :
    (count_of settled.limiter near.ip ≡ held near.ip (slots settled.handlers))
    × (count_of settled.limiter near.ip ≤ 4)
slots_exact_example = slots_exact 4 5 settled near.ip settled-Reach

world_drains_example :
    (t : World) × Run settled t
    × (t.handlers ≡ [])
    × (t.manager.groups ≡ [])
    × ((ip : Text) → count_of t.limiter ip ≡ 0)
world_drains_example = world_drains 4 5 settled settled-Reach

group_here : group_at settled.manager 0 ≡ some with_mobile
unfolding group_at lookup ℕ_discrete
group_here = refl

desk-At : At settled 1 (at_stage near (bridge_serving ann 0 desk))
unfolding group_at lookup ℕ_discrete
desk-At = refl

mobile-At : At settled 3 (at_stage near (phone_serving ann 0 mobile))
unfolding group_at lookup ℕ_discrete
mobile-At = refl

joining-At : At settled 5 got
unfolding group_at lookup ℕ_discrete
joining-At = refl

mobile_here : lookup ℕ_discrete 1 with_mobile.phones ≡ some mobile
unfolding group_at lookup ℕ_discrete
mobile_here = refl

bridge_frames_isolated_example :
    FramesTo
      (ServesPhone settled ann 0)
      (bridge_message hello_json with_mobile desk_session
        (bytes "now")
        (binary (0 ∷ 0 ∷ bytes "data"))).1
bridge_frames_isolated_example =
    bridge_frames_isolated 4 5 settled 1 (at_stage near (bridge_serving ann 0 desk)) ann 0
      with_mobile hello_json desk_session (bytes "now") (binary (0 ∷ 0 ∷ bytes "data"))
      settled-Reach desk-At refl group_here

phone_frames_isolated_example :
    FramesTo
      (ServesBridge settled ann 0)
      (phone_message hello_json with_mobile mobile true ann (bytes "now") (binary (bytes "data")))
phone_frames_isolated_example =
    phone_frames_isolated 4 5 settled 3 (at_stage near (phone_serving ann 0 mobile)) ann 0
      with_mobile hello_json mobile true (bytes "now") (binary (bytes "data")) settled-Reach
      mobile-At refl group_here

desk_live : has_live_bridge_with_id settled.manager ann (bytes "desk") ≡ true
unfolding has_live_bridge_with_id group_at lookup ℕ_discrete has_bridge same Text-discrete
desk_live = refl

live_bridge_served_example :
    (b : Connection) × (ref : ℕ) × (b.bridge_id ≡ bytes "desk")
    × (lookup Text-discrete ann settled.manager.groups ≡ some ref)
    × (stages settled.handlers b.ref ≡ some (bridge_serving ann ref b))
live_bridge_served_example =
    live_bridge_served 4 5 settled ann (bytes "desk") settled-Reach desk_live

-- The handler that joins has a phone.
abbrev glasses : Connection
glasses = record { ref = 5; conn_id = 0; bridge_id = []; connection_id = []; connected_at = 0 }

desk_here : lookup Text-discrete (bytes "desk") with_mobile.bridges ≡ some desk
unfolding lookup Text-discrete
desk_here = refl

phone_joins_informed_example :
    (g' : AccountGroup) × (added : Registered) × (es : List Effect) × (open_phone with_mobile
        glasses
      ≡ some (g', added, es))
    × (lookup ℕ_discrete added.phone.conn_id g'.phones ≡ some added.phone)
    × (phone_view 5 none (sent es) ≡ name (target g' added.phone))
    × ((b : Connection)
        → lookup Text-discrete b.bridge_id with_mobile.bridges ≡ some b
        → bridge_view b.ref added.phone.conn_id false (sent es)
          ≡ same (target g' added.phone) (some b))
    × ((q : Connection) (o : Option Text)
        → q.ref ≢ 5
        → (phone_view q.ref o (sent es) ≡ o) × (target g' q ≡ target with_mobile q))
phone_joins_informed_example =
    phone_joins_informed 4 5 settled got ann 0 with_mobile glasses none settled-Reach joining-At
      refl group_here room
  where
    room : length with_mobile.phones < max_phones_per_account
    room = omega arith

Reach-Consistent_example : Consistent settled
Reach-Consistent_example = Reach-Consistent 4 5 settled-Reach

glasses-target : target with_mobile glasses ≡ some desk
unfolding target is_empty_text default_bridge latest_of newer
glasses-target = refl

overtaken_notice_example :
    (g' : AccountGroup) × (added : Registered) × (es : List Effect) × (u : World) × (open_phone
        with_mobile glasses
      ≡ some (g', added, es))
    × Run settled u
    × (group_at u.manager 0 ≡ some (remove_bridge g' desk).0)
    × (lookup ℕ_discrete added.phone.conn_id (remove_bridge g' desk).0.phones ≡ some added.phone)
    × (phone_view 5 none (sent es ++ announce_target_changes (remove_bridge g' desk).2)
        ≡ name (target (remove_bridge g' desk).0 added.phone))
    × (phone_view 5 none (announce_target_changes (remove_bridge g' desk).2 ++ sent es)
        ≡ some (bytes "desk"))
    × (name (target (remove_bridge g' desk).0 added.phone) ≢ some (bytes "desk"))
overtaken_notice_example =
    overtaken_notice 4 5 settled got ann 0 with_mobile glasses desk settled-Reach joining-At refl
      group_here glasses-target none (omega arith)

groups_overrun_example : (w : World) × Reach 1 2 w × (count w.manager ≡ 3)
groups_overrun_example = groups_overrun 1 2 3 (omega arith) (omega arith)

-- What the connections know in that world, when they have read the notices of its past.
abbrev beliefs : Beliefs
beliefs = (Reach-Told settled-Reach).0

settled-Told : Told 4 5 settled beliefs
settled-Told = (Reach-Told settled-Reach).1

peers_know_example :
    ((p : Connection)
      → lookup ℕ_discrete p.conn_id with_mobile.phones ≡ some p
      → beliefs.target_of p.ref ≡ name (target with_mobile p))
    × ((a p : Connection)
        → lookup Text-discrete a.bridge_id with_mobile.bridges ≡ some a
        → lookup ℕ_discrete p.conn_id with_mobile.phones ≡ some p
        → beliefs.talks a.ref p.conn_id ≡ same (target with_mobile p) (some a))
    × ((a : Connection) (id : ℕ)
        → lookup Text-discrete a.bridge_id with_mobile.bridges ≡ some a
        → lookup ℕ_discrete id with_mobile.phones ≡ none
        → beliefs.talks a.ref id ≡ false)
peers_know_example = peers_know 4 5 settled beliefs 0 with_mobile settled-Told group_here
