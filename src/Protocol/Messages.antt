-- ===== src/Protocol/Messages.antt =====
-- internal/protocol/messages.go: the message types and `ParseMessage`. `encoding/json` reads the
-- bytes: `Json` is a parameter, with one decoder for each struct; `none` is an error.
use sesori_relay_server.Prelude.{ℤ, Option, none, some, Text, Text-discrete, bytes, ite}
use sesori_relay_server.Prelude.Dict.{Dict}

abbrev pub type_auth : Text
type_auth = bytes "auth"

abbrev pub type_key_exchange : Text
type_key_exchange = bytes "key_exchange"

abbrev pub type_ready : Text
type_ready = bytes "ready"

abbrev pub type_request : Text
type_request = bytes "request"

abbrev pub type_response : Text
type_response = bytes "response"

abbrev pub type_sse_subscribe : Text
type_sse_subscribe = bytes "sse_subscribe"

abbrev pub type_sse_unsubscribe : Text
type_sse_unsubscribe = bytes "sse_unsubscribe"

abbrev pub type_sse_event : Text
type_sse_event = bytes "sse_event"

abbrev pub type_bridge_connection_notification_policy : Text
type_bridge_connection_notification_policy = bytes "bridge_connection_notification_policy"

abbrev pub type_bridge_connection_observed : Text
type_bridge_connection_observed = bytes "bridge_connection_observed"

abbrev pub role_bridge : Text
role_bridge = bytes "bridge"

abbrev pub role_phone : Text
role_phone = bytes "phone"

abbrev pub policy_normal : Text
policy_normal = bytes "normal"

abbrev pub policy_suppress : Text
policy_suppress = bytes "suppress"

abbrev pub policy_conservative : Text
policy_conservative = bytes "conservative"

pub record Envelope : Type 0 where
  pub type : Text

pub record KeyExchangeMessage : Type 0 where
  pub type : Text
  pub public_key : Text

pub record RoleAuthMessage : Type 0 where
  pub type : Text
  pub token : Text
  pub role : Text
  pub bridge_id : Text
  pub connection_notification_policy : Text

pub record PolicyMessage : Type 0 where
  pub type : Text
  pub policy : Text

pub record ObservedMessage : Type 0 where
  pub type : Text
  pub device_id : Text

pub record ReadyMessage : Type 0 where
  pub type : Text

pub record RequestMessage : Type 0 where
  pub id : Text
  pub type : Text
  pub method : Text
  pub path : Text
  pub headers : Dict Text Text
  pub body : Option Text

pub record ResponseMessage : Type 0 where
  pub id : Text
  pub type : Text
  pub status : ℤ
  pub headers : Dict Text Text
  pub body : Option Text

pub record SseSubscribeMessage : Type 0 where
  pub type : Text
  pub path : Text

pub record SseUnsubscribeMessage : Type 0 where
  pub type : Text

pub record SseEventMessage : Type 0 where
  pub type : Text
  pub data_ : Text  -- `Data`

-- `json.Unmarshal` into each of the types.
pub record Json : Type 0 where
  pub envelope : Text → Option Envelope
  pub role_auth : Text → Option RoleAuthMessage
  pub key_exchange : Text → Option KeyExchangeMessage
  pub ready : Text → Option ReadyMessage
  pub request : Text → Option RequestMessage
  pub response : Text → Option ResponseMessage
  pub sse_subscribe : Text → Option SseSubscribeMessage
  pub sse_unsubscribe : Text → Option SseUnsubscribeMessage
  pub sse_event : Text → Option SseEventMessage
  pub policy : Text → Option PolicyMessage
  pub observed : Text → Option ObservedMessage

-- The dynamic type of the result of `ParseMessage`.
pub data Message : Type 0 where
  auth : RoleAuthMessage → Message
  key_exchange : KeyExchangeMessage → Message
  ready : ReadyMessage → Message
  request : RequestMessage → Message
  response : ResponseMessage → Message
  sse_subscribe : SseSubscribeMessage → Message
  sse_unsubscribe : SseUnsubscribeMessage → Message
  sse_event : SseEventMessage → Message

pub data ParseError : Type 0 where
  envelope_failed : ParseError
  message_failed unknown_type : Text → ParseError

pub data Parsed : Type 0 where
  ok : Message → Parsed
  err : ParseError → Parsed

-- A decoded struct, or the error of its type.
abbrev pub decoded {ℓ} : {A : Type ℓ} → (A → Message) → Text → Option A → Parsed
decoded wrap type none = err (message_failed type)
decoded wrap type (some msg) = ok (wrap msg)

-- The switch on the type.
unfoldable pub parse_as : Json → Text → Text → Parsed
parse_as json input type =
    ite (Text-discrete type type_auth) (decoded auth type (json.role_auth input)) (
      ite (Text-discrete type type_key_exchange)
        (decoded key_exchange type (json.key_exchange input))
        (ite (Text-discrete type type_ready) (decoded ready type (json.ready input)) (
          ite (Text-discrete type type_request) (decoded request type (json.request input)) (
            ite (Text-discrete type type_response) (decoded response type (json.response input)) (
              ite (Text-discrete type type_sse_subscribe)
                (decoded sse_subscribe type (json.sse_subscribe input))
                (ite (Text-discrete type type_sse_unsubscribe)
                  (decoded sse_unsubscribe type (json.sse_unsubscribe input))
                  (ite (Text-discrete type type_sse_event)
                    (decoded sse_event type (json.sse_event input)) (err (unknown_type type)))))))))

unfoldable pub parse_message : Json → Text → Parsed
parse_message json input = elim (json.envelope input) [
  | none ↦ err envelope_failed
  | some envelope ↦ parse_as json input envelope.type
]

-- `parsed.(RoleAuthMessage)`, after the error check.
unfoldable pub as_role_auth : Parsed → Option RoleAuthMessage
as_role_auth (err _) = none
as_role_auth (ok (auth m)) = some m
as_role_auth (ok (key_exchange _)) = none
as_role_auth (ok (ready _)) = none
as_role_auth (ok (request _)) = none
as_role_auth (ok (response _)) = none
as_role_auth (ok (sse_subscribe _)) = none
as_role_auth (ok (sse_unsubscribe _)) = none
as_role_auth (ok (sse_event _)) = none
