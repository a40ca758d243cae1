-- ===== src/Handler/Phone.antt =====
-- internal/relay/handler.go: `handlePhone`. `group` is the group at the lock that a step takes.
use sesori_relay_server.Prelude.{
  ℕ, ◌/◌, ◌%◌, Bool, ◌||◌, not, List, [], ◌∷◌, Option, none, some, Text, Text-discrete, bytes, ite,
  if◌then◌else◌,
}
use sesori_relay_server.AccountGroup.{
  Connection, AccountGroup, Registered, bridge_for_phone, is_empty_text,
}
use sesori_relay_server.Announce.{
  write_control, phone_connected, phone_disconnected, bridge_connected, bridge_disconnected,
}
use sesori_relay_server.DeviceIds.{is_device_id}
use sesori_relay_server.Handler.Effects.{
  Effect, notice, frame, close, cancel, report_control, Incoming, text, binary,
}
use sesori_relay_server.Notifications.{BridgeStatusPayload, bridge_status_connected}
use sesori_relay_server.Protocol.CloseCodes.{close_account_full}
use sesori_relay_server.Protocol.Messages.{Json, ObservedMessage, type_bridge_connection_observed}

-- From the result of `AddPhone` to the read loop.
unfoldable pub phone_joined : Connection → Option Connection → List Effect
unfolding write_control
phone_joined phone none = notice (write_control phone (bridge_disconnected phone.bridge_id)) ∷ []
phone_joined phone (some bridge) =
    notice (write_control bridge (phone_connected phone.conn_id))
    ∷ notice (write_control phone (bridge_connected bridge.bridge_id))
    ∷ []

unfoldable pub phone_opened : Registered → List Effect
unfolding phone_joined
phone_opened added =
    if added.is_ok
    then phone_joined added.phone added.bridge
    else (cancel added.phone ∷ close added.phone close_account_full ∷ [])

unfoldable pub observed_payload : Text → Connection → Text → Text → BridgeStatusPayload
observed_payload user_id bridge now device_id = record {
  user_id = user_id;
  bridge_id = bridge.bridge_id;
  status = bridge_status_connected;
  timestamp = now;
  event = bytes "connection_observed";
  notification_policy = [];
  connection_id = bridge.connection_id;
  device_id = device_id;
}

unfoldable pub observe : Bool → Text → Text → Text → Option Connection → List Effect
unfolding observed_payload
observe has_notifications user_id now device_id none = []
observe has_notifications user_id now device_id (some bridge) =
    if is_empty_text bridge.connection_id || not has_notifications
    then []
    else (report_control (observed_payload user_id bridge now device_id) ∷ [])

unfoldable pub observed_message :
    AccountGroup → Connection → Bool → Text → Text → Option ObservedMessage → List Effect
unfolding observe
observed_message group phone has_notifications user_id now none = []
observed_message group phone has_notifications user_id now (some m) =
    ite (Text-discrete m.type type_bridge_connection_observed)
      (if is_device_id m.device_id
        then observe has_notifications user_id now m.device_id (bridge_for_phone group phone)
        else [])
      []

-- `binary.BigEndian.PutUint16(framed[:2], id)` before the data.
unfoldable pub put_u16 : ℕ → Text → Text
put_u16 id rest = (id / 256) ∷ (id % 256) ∷ rest

unfoldable pub to_bridge : Option Connection → ℕ → Text → List Effect
unfolding put_u16
to_bridge none conn_id input = []
to_bridge (some bridge) conn_id input = frame bridge (put_u16 conn_id input) ∷ []

-- One round of the read loop.
unfoldable pub phone_message :
    Json → AccountGroup → Connection → Bool → Text → Text → Incoming → List Effect
unfolding observed_message to_bridge
phone_message json group phone has_notifications user_id now (text input) =
    observed_message group phone has_notifications user_id now (json.observed input)
phone_message json group phone has_notifications user_id now (binary input) =
    to_bridge (bridge_for_phone group phone) phone.conn_id input

-- The deferred cleanup, from the result of `RemovePhone` on.
unfoldable pub phone_closed : Connection → Option Connection → List Effect
unfolding write_control
phone_closed phone none = cancel phone ∷ []
phone_closed phone (some bridge) =
    cancel phone ∷ notice (write_control bridge (phone_disconnected phone.conn_id)) ∷ []
