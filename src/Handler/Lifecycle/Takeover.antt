-- ===== src/Handler/Lifecycle/Takeover.antt =====
-- internal/relay/handler.go: a bridge that connects while its id is registered.
use sesori_relay_server.Prelude.{
  ◌≡◌, ◌≢◌, ◌∙◌, refl, ap, inl, inr, arith, Bool, true, false, List, [], ◌∷◌, ◌++◌, some, Text,
  Text-discrete,
}
use sesori_relay_server.Prelude.Dict.{lookup, lookup-insert}
use sesori_relay_server.AccountGroup.{
  AccountGroup, same, changes_of, targets_of, all_phones, is_current_bridge,
}
use sesori_relay_server.AccountGroup.Methods.{add_bridge_cases, remove_bridge_cases, with_bridge}
use sesori_relay_server.Announce.{Notice, announce_target_changes, announce_presence}
use sesori_relay_server.Handler.Bridge.{
  BridgeSession, bridge_opened, bridge_closed, displace, takeover, bridge_payload, when,
}
use sesori_relay_server.Handler.Effects.{Effect, take_over, close, cancel, report_status, notices}
use sesori_relay_server.Handler.Lifecycle.{open_bridge, close_bridge, takeovers}
use sesori_relay_server.Notifications.{BridgeStatusPayload, bridge_status_connected}
use sesori_relay_server.Protocol.CloseCodes.{close_bridge_replaced}

takeovers-notices :
    (ns : List Notice) (es : List Effect) → takeovers (notices ns ++ es) ≡ takeovers es
unfolding takeovers
takeovers-notices [] es = refl
takeovers-notices (n ∷ ns) es = takeovers-notices ns es

takeovers-when : (b : Bool) (p : BridgeStatusPayload) → takeovers (when b (report_status p)) ≡ []
unfolding takeovers
takeovers-when true p = refl
takeovers-when false p = refl

-- The end of a connection that is no longer current changes nothing, and tells and reports nothing.
close_bridge-stale :
    (g : AccountGroup) (s : BridgeSession) (live : Bool) (now : Text)
    → is_current_bridge g s.conn ≡ false
    → close_bridge g s live now ≡ (g, cancel s.conn ∷ [])
unfolding close_bridge bridge_closed announce_target_changes
close_bridge-stale g s live now stale = elim (remove_bridge_cases g s.conn) [
  | inl (_, kept) ↦ rw kept refl
  | inr (current, _) ↦ absurd (ground arith)
]

-- What follows the takeover when a bridge opens: the notices, and the report.
abbrev after_takeover : AccountGroup → BridgeSession → Text → List Effect
after_takeover g s now =
    let changes = changes_of (with_bridge g s.conn) (targets_of g (all_phones g)) in
    let report = bridge_payload s bridge_status_connected now [] s.policy in
    notices (announce_target_changes changes)
    ++ (notices (announce_presence (all_phones (with_bridge g s.conn)) s.conn.bridge_id true)
        ++ when s.has_notifications (report_status report))

takeovers-after_takeover :
    (g : AccountGroup) (s : BridgeSession) (now : Text) → takeovers (after_takeover g s now) ≡ []
takeovers-after_takeover g s now =
    takeovers-notices _ _ ∙ takeovers-notices _ _ ∙ takeovers-when s.has_notifications _

open_bridge_lem :
    (g : AccountGroup) (s old : BridgeSession) (now : Text)
    → lookup Text-discrete s.conn.bridge_id g.bridges ≡ some old.conn
    → open_bridge g s now ≡ (with_bridge g s.conn, take_over old.conn ∷ after_takeover g s now)
unfolding open_bridge bridge_opened displace
open_bridge_lem g s old now found = elim (add_bridge_cases g s.conn) [
  | inl (absent, _, _) ↦ absurd (ground arith)
  | inr (_, added) ↦ rw (added, found) refl
]

-- When a bridge connects while another connection of its bridge id is registered, its handler
-- starts one goroutine for a takeover, which closes the old connection with 4007 and then cancels
-- it; and the new connection is registered under the id. In any group that has the new connection
-- under the id, the cleanup of the old connection's handler leaves the group as it is, and its only
-- effect is to cancel the old connection: no notice and no report, whether the id is live or not.
pub open_bridge-takeover :
    (g later : AccountGroup) (s old : BridgeSession) (live : Bool) (now end : Text)
    → lookup Text-discrete s.conn.bridge_id g.bridges ≡ some old.conn
    → old.conn.bridge_id ≡ s.conn.bridge_id
    → old.conn.ref ≢ s.conn.ref
    → lookup Text-discrete s.conn.bridge_id later.bridges ≡ some s.conn
    → let (g', es) = open_bridge g s now in
      (takeovers es ≡ (close old.conn close_bridge_replaced ∷ cancel old.conn ∷ []) ∷ [])
      × (lookup Text-discrete s.conn.bridge_id g'.bridges ≡ some s.conn)
      × (close_bridge later old live end ≡ (later, cancel old.conn ∷ []))
unfolding is_current_bridge same takeovers takeover
open_bridge-takeover g later s old live now end found ids refs holds =
    let id = s.conn.bridge_id in
    let old_key : lookup Text-discrete old.conn.bridge_id later.bridges ≡ some s.conn =
      ap (λ k. lookup Text-discrete k later.bridges) ids ∙ holds in
    let stale : is_current_bridge later old.conn ≡ false = ground arith in
    rw (open_bridge_lem g s old now found) (
      ap (λ rest. (close old.conn close_bridge_replaced ∷ cancel old.conn ∷ []) ∷ rest)
          (takeovers-after_takeover g s now),
      ground (arith, lookup-insert Text-discrete id id s.conn g.bridges),
      close_bridge-stale later old live end stale,
    )
