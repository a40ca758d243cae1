-- ===== src/Tests/Sharing.antt =====
-- What the connections share: a limiter of two slots for each address.
use sesori_relay_server.Prelude.{
  pos, ◌≡◌, refl, true, List, [], ◌∷◌, none, some, Text, Text-discrete, bytes,
}
use sesori_relay_server.Auth.Verify.{Verdict, accepted}
use sesori_relay_server.Connect.{Joining, bridge_joins, Outcome, handle_web_socket}
use sesori_relay_server.Connect.Slots.{slots_after, handle_web_socket-Represents}
use sesori_relay_server.Handler.Effects.{text}
use sesori_relay_server.Protocol.Messages.{Json, RoleAuthMessage}
use sesori_relay_server.RateLimiter.{RateLimiter, new_rate_limiter}
use sesori_relay_server.RateLimiter.Slots.{
  Represents, Event, opens, closes, run_slots, held, give_back, new-Represents,
}

abbrev pub near : Text
near = bytes "10.0.0.1"

abbrev far : Text
far = bytes "10.0.0.2"

-- The third connection from `near` is refused, and one of the two gives its slot back.
abbrev history : List Event
history = opens near ∷ opens near ∷ opens far ∷ opens near ∷ closes near ∷ []

slots_of_history : run_slots 2 [] history ≡ far ∷ near ∷ []
unfolding run_slots give_back held Text-discrete
slots_of_history = refl

-- A client that names itself a bridge of the user `ann`.
abbrev pub hello : RoleAuthMessage
hello = record {
  type = bytes "auth";
  token = bytes "token";
  role = bytes "bridge";
  bridge_id = bytes "br_abcdefgh";
  connection_notification_policy = bytes "normal";
}

-- A decoder that reads every text as that message, and nothing else.
abbrev pub hello_json : Json
hello_json = record {
  envelope = λ _. some (record { type = bytes "auth" });
  role_auth = λ _. some hello;
  key_exchange = λ _. none;
  ready = λ _. none;
  request = λ _. none;
  response = λ _. none;
  sse_subscribe = λ _. none;
  sse_unsubscribe = λ _. none;
  sse_event = λ _. none;
  policy = λ _. none;
  observed = λ _. none;
}

abbrev accept_ann : Text → Verdict
accept_ann token = accepted (record { user_id = bytes "ann"; expiry = pos 1000 })

abbrev pub ann_joins : Joining
ann_joins = bridge_joins (bytes "ann") (bytes "br_abcdefgh") (bytes "normal")

abbrev attempt : RateLimiter × Outcome
attempt =
    handle_web_socket hello_json (some accept_ann) (new_rate_limiter 2 10) near true 0
      (some (text (bytes "hello")))

handle_web_socket-Represents_example : Represents attempt.0 (slots_after near [] attempt.1)
handle_web_socket-Represents_example =
    handle_web_socket-Represents hello_json (some accept_ann) (new_rate_limiter 2 10) near [] true 0
      (some (text (bytes "hello"))) (new-Represents 2 10)
