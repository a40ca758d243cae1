-- ===== src/Notifications.antt =====
-- internal/notifications/client.go: the bridge-status report. The HTTP exchange is a parameter.
use sesori_relay_server.Prelude.{
  ℕ, ◌≡◌, ◌↔◌, inl, inr, ◌||◌, arith, [], ◌∷◌, ◌++◌, Option, none, some, Text, bytes, ltb, leb,
  ◌==◌, if◌then◌else◌, Option-cases,
}

abbrev pub bridge_status_connected : Text
bridge_status_connected = bytes "connected"

abbrev pub bridge_status_disconnected : Text
bridge_status_disconnected = bytes "disconnected"

pub record BridgeStatusPayload : Type 0 where
  pub user_id : Text
  pub bridge_id : Text
  pub status : Text
  pub timestamp : Text
  pub event : Text
  pub notification_policy : Text
  pub connection_id : Text
  pub device_id : Text

pub data NotifyError : Type 0 where
  bridge_not_found marshal_failed request_failed send_failed : NotifyError
  unexpected_status : ℕ → NotifyError

-- `json.Marshal`, `http.NewRequestWithContext`, and the response's status (`none`: no response).
pub record Http : Type 0 where
  pub marshal : BridgeStatusPayload → Option Text
  pub new_request : Text → Text → Option Text
  pub send : Text → Text → Option ℕ

pub record Client : Type 0 where
  pub base_url : Text
  pub secret : Text

unfoldable pub new_client : Text → Text → Client
new_client base_url secret = record { base_url = base_url; secret = secret }

abbrev pub status_url : Client → Text
status_url c = c.base_url ++ bytes "/internal/bridge-status"

-- A missing timestamp is filled in.
unfoldable pub stamped : Text → BridgeStatusPayload → BridgeStatusPayload
stamped now payload = elim payload.timestamp [
  | [] ↦ record payload { timestamp = now }
  | _ ∷ _ ↦ payload
]

-- `none` is no error.
unfoldable pub status_error : ℕ → Option NotifyError
status_error status =
    if status == 404
    then some bridge_not_found
    else (if ltb status 200 || leb 300 status then some (unexpected_status status) else none)

-- The exchange, from the marshalled body on.
unfoldable pub exchange : Http → Client → Text → Option NotifyError
exchange http c body = elim (http.new_request (status_url c) body) [
  | none ↦ some request_failed
  | some request ↦ elim (http.send c.secret request) [
    | none ↦ some send_failed
    | some status ↦ status_error status
  ]
]

unfoldable pub notify_bridge_status :
    Http → Client → Text → BridgeStatusPayload → Option NotifyError
notify_bridge_status http c now payload = elim (http.marshal (stamped now payload)) [
  | none ↦ some marshal_failed
  | some body ↦ exchange http c body
]

-- NotifyBridgeStatus reports that the bridge is not found exactly when the payload was marshalled,
-- the request was made, and its response has the status 404; every other failure or status gives
-- another result.
pub notify_bridge_status_not_found :
    (http : Http) (c : Client) (now : Text) (payload : BridgeStatusPayload)
    → (notify_bridge_status http c now payload ≡ some bridge_not_found) ↔ (
        (body : Text) × (request : Text) × (http.marshal (stamped now payload) ≡ some body)
        × (http.new_request (status_url c) body ≡ some request)
        × (http.send c.secret request ≡ some 404))
unfolding notify_bridge_status exchange status_error
notify_bridge_status_not_found http c now payload =
    (found, λ (body, request, m, r, e). ground arith)
  where
    found :
        notify_bridge_status http c now payload ≡ some bridge_not_found
        → (body : Text) × (request : Text) × (http.marshal (stamped now payload) ≡ some body)
          × (http.new_request (status_url c) body ≡ some request)
          × (http.send c.secret request ≡ some 404)
    found h = elim (Option-cases (http.marshal (stamped now payload))) [
      | inl e ↦ absurd (ground arith)
      | inr (body, m) ↦ elim (Option-cases (http.new_request (status_url c) body)) [
        | inl e ↦ absurd (ground arith)
        | inr (request, r) ↦ (body, request, m, r, ground arith)
      ]
    ]
