-- ===== src/Handler/Bridge.antt =====
-- internal/relay/handler.go: `handleBridge`. `group` is the group at the lock that a step takes.
use sesori_relay_server.Prelude.{
  ℕ, ◌+◌, ◌*◌, Bool, true, false, ◌&&◌, not, List, [], ◌∷◌, ◌++◌, Option, none, some, Text,
  Text-discrete, bytes, ite, ◌==◌, if◌then◌else◌,
}
use sesori_relay_server.AccountGroup.{
  Connection, AccountGroup, Added, TargetChange, is_current_bridge, phones_targeting,
  phone_targeting,
}
use sesori_relay_server.Announce.{announce_target_changes, announce_presence}
use sesori_relay_server.Handler.Effects.{
  Effect, frame, take_over, close, cancel, report_status, report_control, Incoming, text, binary,
  notices,
}
use sesori_relay_server.Notifications.{
  BridgeStatusPayload, NotifyError, bridge_not_found, bridge_status_connected,
  bridge_status_disconnected,
}
use sesori_relay_server.Protocol.CloseCodes.{
  close_account_full, close_bridge_replaced, close_bridge_revoked,
}
use sesori_relay_server.Protocol.Messages.{
  Json, PolicyMessage, policy_normal, policy_suppress, policy_conservative,
  type_bridge_connection_notification_policy,
}

unfoldable pub normalize_notification_policy : Text → Text
normalize_notification_policy policy = ite (Text-discrete policy policy_normal) policy (
    ite (Text-discrete policy policy_suppress) policy
      (ite (Text-discrete policy policy_conservative) policy policy_conservative))

-- The local variables of `handleBridge`.
pub record BridgeSession : Type 0 where
  pub conn : Connection
  pub user_id : Text
  pub policy : Text
  pub disconnect_policy : Text
  pub has_notifications : Bool

unfoldable pub new_bridge_session : Connection → Text → Text → Bool → BridgeSession
new_bridge_session conn user_id requested_policy has_notifications =
    let policy = normalize_notification_policy requested_policy in
    record {
      conn = conn;
      user_id = user_id;
      policy = policy;
      disconnect_policy = policy;
      has_notifications = has_notifications;
    }

unfoldable pub bridge_payload : BridgeSession → Text → Text → Text → Text → BridgeStatusPayload
bridge_payload s status now event policy = record {
  user_id = s.user_id;
  bridge_id = s.conn.bridge_id;
  status = status;
  timestamp = now;
  event = event;
  notification_policy = policy;
  connection_id = s.conn.connection_id;
  device_id = [];
}

-- `if s.has_notifications { go report }`.
abbrev pub when {ℓ} : {A : Type ℓ} → Bool → A → List A
when true a = a ∷ []
when false a = []

-- The goroutine of a takeover: the displaced connection is closed, and then cancelled.
unfoldable pub takeover : Connection → List Effect
takeover displaced = close displaced close_bridge_replaced ∷ cancel displaced ∷ []

-- It is started where a connection was displaced.
unfoldable pub displace : Option Connection → List Effect
displace none = []
displace (some displaced) = take_over displaced ∷ []

-- From the result of `AddBridge` to the read loop, in the handler's own goroutine; `phones` is
-- `group.AllPhones()` at its lock. What the goroutine of the report does is `status_reported`.
unfoldable pub bridge_opened : BridgeSession → Added → List Connection → Text → List Effect
unfolding displace bridge_payload
bridge_opened s added phones now =
    if added.is_ok
    then (displace added.displaced
        ++ (notices (announce_target_changes added.changes)
            ++ (notices (announce_presence phones s.conn.bridge_id true)
                ++ when s.has_notifications
                    (report_status (bridge_payload s bridge_status_connected now [] s.policy)))))
    else (cancel s.conn ∷ close s.conn close_account_full ∷ [])

-- What the goroutine of the first report does with the result of the report.
unfoldable pub status_reported : BridgeSession → Option NotifyError → List Effect
status_reported s none = []
status_reported s (some bridge_not_found) = close s.conn close_bridge_revoked ∷ []
status_reported s (some _) = []

-- The policy that an accepted policy message sets.
unfoldable pub set_policy : BridgeSession → Text → BridgeSession
set_policy s policy = record s {
  policy = policy;
  disconnect_policy = ite (Text-discrete policy policy_suppress) s.disconnect_policy policy;
}

unfoldable pub policy_update :
    AccountGroup → BridgeSession → Text → Text → BridgeSession × List Effect
unfolding set_policy bridge_payload
policy_update group s now policy =
    if is_current_bridge group s.conn
    then (
      set_policy s policy,
      report_control
            (bridge_payload s bridge_status_connected now (bytes "notification_policy") policy)
          ∷ [],
    )
    else (s, [])

unfoldable pub policy_message :
    AccountGroup → BridgeSession → Text → Option PolicyMessage → BridgeSession × List Effect
unfolding policy_update normalize_notification_policy
policy_message group s now none = (s, [])
policy_message group s now (some m) =
    ite (Text-discrete m.type type_bridge_connection_notification_policy)
      (policy_update group s now (normalize_notification_policy m.policy)) (s, [])

-- `binary.BigEndian.Uint16(data[:2])`.
abbrev pub get_u16 : ℕ → ℕ → ℕ
get_u16 hi lo = hi * 256 + lo

unfoldable pub to_phones : List Connection → Text → List Effect
to_phones [] payload = []
to_phones (phone ∷ phones) payload = frame phone payload ∷ to_phones phones payload

unfoldable pub to_phone : Option Connection → Text → List Effect
to_phone none payload = []
to_phone (some phone) payload = frame phone payload ∷ []

unfoldable pub forward : AccountGroup → Connection → ℕ → Text → List Effect
unfolding to_phones to_phone
forward group conn conn_id payload =
    if conn_id == 0
    then to_phones (phones_targeting group conn) payload
    else to_phone (phone_targeting group conn conn_id) payload

-- One round of the read loop.
unfoldable pub bridge_message :
    Json → AccountGroup → BridgeSession → Text → Incoming → BridgeSession × List Effect
unfolding policy_message forward
bridge_message json group s now (text input) = policy_message group s now (json.policy input)
bridge_message json group s now (binary []) = (s, [])
bridge_message json group s now (binary (_ ∷ [])) = (s, [])
bridge_message json group s now (binary (hi ∷ lo ∷ payload)) =
    (s, forward group s.conn (get_u16 hi lo) payload)

-- The deferred cleanup, from the result of `RemoveBridge` on; `live` is `HasLiveBridgeWithID` and
-- `phones` is `group.AllPhones()`.
unfoldable pub bridge_closed :
    BridgeSession → Bool → List TargetChange → Bool → List Connection → Text → List Effect
unfolding bridge_payload
bridge_closed s is_current changes live phones now =
    cancel s.conn
    ∷ (notices (announce_target_changes changes)
        ++ (if is_current && not live
            then (notices (announce_presence phones s.conn.bridge_id false)
                ++ when s.has_notifications (
                    report_status
                      (bridge_payload s bridge_status_disconnected now [] s.disconnect_policy)))
            else []))
