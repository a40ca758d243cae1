-- ===== src/Tests/Pending.antt =====
-- The theorem on effects that are made late, at the world of Tests/Worlds.antt: the frame of `desk` to
-- `mobile` is pending.
use sesori_relay_server.Prelude.{
  ℕ, ◌≡◌, refl, false, [], ◌∷◌, none, some, Text, Text-discrete, ℕ_discrete, bytes,
}
use sesori_relay_server.Prelude.Dict.{lookup}
use sesori_relay_server.AccountGroup.{
  phones_targeting, targeting, same, target, is_current_bridge, default_bridge, latest_of, newer,
  is_empty_text,
}
use sesori_relay_server.GroupManager.{group_at}
use sesori_relay_server.Handler.Bridge.{BridgeSession, bridge_message, forward, to_phones}
use sesori_relay_server.Handler.Effects.{frame, binary}
use sesori_relay_server.Tests.Accounts.{desk, mobile}
use sesori_relay_server.Tests.Sessions.{laptop_session}
use sesori_relay_server.Tests.Sharing.{hello_json}
use sesori_relay_server.Tests.Worlds.{ann, near, with_mobile, settled, settled-Reach}
use sesori_relay_server.World.{bridge_serving, at_stage}
use sesori_relay_server.World.Late.{Late, Task, Owners, Circumstances, bridge_reads}
use sesori_relay_server.World.Late.Isolation.{Reach-Late, effects_isolated}
use sesori_relay_server.World.Shared.{stages, grip}

abbrev quiet : Circumstances
quiet = record {
  policy = bytes "normal";
  disconnect_policy = bytes "normal";
  has_notifications = false;
  now = bytes "now";
  live = false;
  reported = none;
}

abbrev owners : Owners
owners = (Reach-Late 4 5 quiet settled-Reach).0

abbrev desk_session : BridgeSession
desk_session = record laptop_session { conn = desk; user_id = ann }

abbrev to_mobile : Task
to_mobile = record { user_id = ann; effect = frame mobile (bytes "data") }

pending : Late 4 5 settled owners (to_mobile ∷ [])
unfolding bridge_message forward to_phones phones_targeting targeting is_current_bridge same target
    default_bridge latest_of newer is_empty_text group_at lookup ℕ_discrete Text-discrete
pending =
    bridge_reads (Reach-Late 4 5 quiet settled-Reach).1 1
      (at_stage near (bridge_serving ann 0 desk)) 0 with_mobile hello_json desk_session
      (bytes "now") (binary (0 ∷ 0 ∷ bytes "data")) refl refl refl

effects_isolated_example :
    (owners mobile.ref ≡ some ann)
    × ((i : ℕ) (u : Text) (r : ℕ)
        → grip (stages settled.handlers i) ≡ some (u, r)
        → owners i ≡ some u)
effects_isolated_example = effects_isolated 4 5 settled owners [] to_mobile [] pending
