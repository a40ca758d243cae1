-- ===== src/Tests/Sessions.antt =====
-- The sessions of the account of Tests/Accounts.antt, and the reports of one bridge.
use sesori_relay_server.Prelude.{
  ◌≡◌, refl, true, List, [], ◌∷◌, none, some, Text, ℕ_discrete, bytes,
}
use sesori_relay_server.Prelude.Dict.{lookup}
use sesori_relay_server.AccountGroup.{
  AccountGroup, bridge_for_phone, same, target, is_empty_text, default_bridge, latest_of, newer,
  is_later,
}
use sesori_relay_server.Handler.Bridge.{BridgeSession, new_bridge_session, bridge_message}
use sesori_relay_server.Handler.Effects.{frame, Incoming, text, binary}
use sesori_relay_server.Handler.Phone.{phone_message, put_u16}
use sesori_relay_server.Handler.Policies.{
  IsSettled, KeepsEligible, read_loop, new_bridge_session-IsSettled, read_loop_policies,
}
use sesori_relay_server.Handler.Routing.{bridge_message-phone_message}
use sesori_relay_server.Notifications.{BridgeStatusPayload, bridge_status_connected}
use sesori_relay_server.Reports.{
  Sender, Step, calls, offers, finds_full, drains, Reach, here, next, sending, idle,
  sending_never_blocks, queue_latest,
}
use sesori_relay_server.Tests.Accounts.{laptop, mobile, home, home-IsValid}
use sesori_relay_server.Tests.Sharing.{hello_json}

abbrev pub laptop_session : BridgeSession
laptop_session = new_bridge_session laptop (bytes "ann") (bytes "normal") true

mobile_sends : bridge_for_phone home mobile ≡ some laptop
unfolding bridge_for_phone same lookup ℕ_discrete target is_empty_text default_bridge latest_of
    newer is_later
mobile_sends = refl

mobile_here : lookup ℕ_discrete 1 home.phones ≡ some mobile
unfolding lookup ℕ_discrete
mobile_here = refl

bridge_message-phone_message_example :
    (phone_message hello_json home mobile true (bytes "ann") (bytes "now") (binary (bytes "data"))
      ≡ frame laptop (put_u16 1 (bytes "data")) ∷ [])
    × ((bridge_message hello_json home laptop_session
          (bytes "now")
          (binary (put_u16 1 (bytes "data")))).1
        ≡ frame mobile (bytes "data") ∷ [])
unfolding new_bridge_session
bridge_message-phone_message_example =
    bridge_message-phone_message hello_json home mobile laptop_session true (bytes "ann")
      (bytes "now") (bytes "data") home-IsValid mobile_here mobile_sends

abbrev messages : List (AccountGroup × Text × Incoming)
messages = (home, bytes "now", text (bytes "{}")) ∷ (home, bytes "later", binary []) ∷ []

read_loop_policies_example :
    IsSettled (read_loop hello_json laptop_session messages)
    × KeepsEligible laptop_session (read_loop hello_json laptop_session messages)
    × ((read_loop hello_json laptop_session messages).conn ≡ laptop_session.conn)
read_loop_policies_example =
    read_loop_policies hello_json laptop_session messages
      (new_bridge_session-IsSettled laptop (bytes "ann") (bytes "normal") true)

abbrev report : Text → BridgeStatusPayload
report policy = record {
  user_id = bytes "ann";
  bridge_id = bytes "br_abcdefgh";
  status = bridge_status_connected;
  timestamp = bytes "now";
  event = bytes "notification_policy";
  notification_policy = policy;
  connection_id = bytes "c1";
  device_id = [];
}

abbrev first : BridgeStatusPayload
first = report (bytes "normal")

abbrev second : BridgeStatusPayload
second = report (bytes "suppress")

-- The first report waits in the channel.
abbrev one_waits : Sender
one_waits = record { producer = idle; queue = some first; in_flight = none; last = some first }

one_waits-Reach : Reach one_waits
one_waits-Reach = next (next here (calls first refl refl)) (offers first refl refl refl)

-- The second report finds the channel full, drops the first and is about to be sent.
abbrev second_is_sent : Sender
second_is_sent = record {
  producer = sending second;
  queue = none;
  in_flight = none;
  last = some first;
}

second_is_sent-Reach : Reach second_is_sent
second_is_sent-Reach =
    next
      (next (next one_waits-Reach (calls second refl refl))
        (finds_full second first refl refl refl))
      (drains second refl refl)

sending_never_blocks_example :
    (t : Sender) × Step second_is_sent t × (t.producer ≡ idle) × (t.queue ≡ some second)
sending_never_blocks_example = sending_never_blocks second second_is_sent-Reach refl

queue_latest_example : one_waits.last ≡ some first
queue_latest_example = queue_latest first one_waits-Reach refl
