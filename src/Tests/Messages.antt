-- ===== src/Tests/Messages.antt =====
-- A client message, a frame, a report, a forwarded address and a start of the program.
use sesori_relay_server.Prelude.{
  ◌≡◌, ◌↔◌, ◌⊎◌, refl, arith, true, [], ◌∷◌, Option, none, some, Text, Text-discrete, bytes,
}
use sesori_relay_server.AccountGroup.{is_empty_text}
use sesori_relay_server.ClientIp.{
  Net, ClientIpInfo, remote_addr, cf_connecting_ip, canonical_ip_address, remote_ip_address,
  resolve_client_ip, resolve_client_ip_cases,
}
use sesori_relay_server.Config.{
  Flags, Env, Config, parse_log_level, resolve_config, resolve_trust, info,
}
use sesori_relay_server.DeviceIds.{is_bridge_id}
use sesori_relay_server.DeviceIds.BridgeIds.{IsBridgeId, is_bridge_id_iff}
use sesori_relay_server.Notifications.{
  BridgeStatusPayload, Http, Client, bridge_not_found, status_url, stamped, notify_bridge_status,
  notify_bridge_status_not_found, bridge_status_connected,
}
use sesori_relay_server.Protocol.Framing.{
  Encryptor, encryption_failed, ok, err, frame, unframe, Decrypts, unframe-frame,
}
use sesori_relay_server.Protocol.Messages
use sesori_relay_server.Protocol.Messages.{Envelope, parse_message}
use sesori_relay_server.Protocol.Parsing.{Reads, kind, parse_message_iff}
use sesori_relay_server.Tests.Sharing.{hello, hello_json}

parse_message_iff_example :
    (parse_message hello_json (bytes "{}") ≡ Messages.ok (Messages.auth hello)) ↔ (
      (e : Envelope) × (hello_json.envelope (bytes "{}") ≡ some e)
      × (e.type ≡ kind (Messages.auth hello))
      × Reads hello_json (bytes "{}") (Messages.auth hello))
parse_message_iff_example = parse_message_iff hello_json (bytes "{}") (Messages.auth hello)

-- An encryptor that puts a byte in front.
abbrev without_first : Text → Option Text
without_first [] = none
without_first (_ ∷ cs) = some cs

abbrev sealed : Encryptor
sealed = record { encrypt = λ plaintext. some (7 ∷ plaintext); decrypt = without_first }

sealed-Decrypts : Decrypts sealed sealed
sealed-Decrypts plaintext ciphertext h = ground arith

unframe-frame_example :
    (frame (bytes "hi") sealed ≡ err encryption_failed)
    ⊎ ((framed : Text) × (frame (bytes "hi") sealed ≡ ok framed)
        × (unframe framed sealed ≡ ok (bytes "hi")))
unframe-frame_example = unframe-frame (bytes "hi") sealed sealed sealed-Decrypts

abbrev report : BridgeStatusPayload
report = record {
  user_id = bytes "ann";
  bridge_id = bytes "br_abcdefgh";
  status = bridge_status_connected;
  timestamp = [];
  event = [];
  notification_policy = bytes "normal";
  connection_id = bytes "c1";
  device_id = [];
}

-- A backend that knows no bridge.
abbrev http : Http
http = record {
  marshal = λ payload. some payload.bridge_id;
  new_request = λ url body. some body;
  send = λ secret request. some 404;
}

abbrev client : Client
client = record { base_url = bytes "url"; secret = bytes "secret" }

notify_bridge_status_not_found_example :
    (notify_bridge_status http client (bytes "now") report ≡ some bridge_not_found) ↔ (
      (body : Text) × (request : Text) × (http.marshal (stamped (bytes "now") report) ≡ some body)
      × (http.new_request (status_url client) body ≡ some request)
      × (http.send client.secret request ≡ some 404))
notify_bridge_status_not_found_example =
    notify_bridge_status_not_found http client (bytes "now") report

abbrev net : Net
net = record {
  trim_space = λ s. s;
  split_host = λ s. some (bytes "10.0.0.1");
  parse_addr = λ s. some s;
}

abbrev resolved : ClientIpInfo
resolved = resolve_client_ip net (bytes "10.0.0.1:80") (bytes "1.2.3.4" ∷ []) true

resolve_client_ip_cases_example :
    (resolved.peer_address ≡ remote_ip_address net (bytes "10.0.0.1:80"))
    × (((resolved.source ≡ remote_addr)
          × (resolved.address ≡ remote_ip_address net (bytes "10.0.0.1:80")))
        ⊎ ((value : Text) × (resolved.source ≡ cf_connecting_ip)
            × (true ≡ true)
            × (bytes "1.2.3.4" ∷ [] ≡ value ∷ [])
            × (canonical_ip_address net value ≡ some resolved.address)))
resolve_client_ip_cases_example =
    resolve_client_ip_cases net (bytes "10.0.0.1:80") (bytes "1.2.3.4" ∷ []) true

abbrev pub flags : Flags
flags = record {
  addr = bytes ":8080";
  log_level = bytes "info";
  log_level_set = true;
  auth_backend_url = bytes "url";
  relay_webhook_secret = bytes "secret";
  trust_cf_connecting_ip = true;
  trust_set = true;
}

abbrev pub empty_env : Env
empty_env name = []

abbrev pub config : Config
config = record {
  addr = bytes ":8080";
  log_level = info;
  auth_backend_url = bytes "url";
  relay_webhook_secret = bytes "secret";
  trust_cf_connecting_ip = true;
  auth_enabled = true;
  notifications_enabled = true;
}

pub starts : resolve_config flags empty_env ≡ some config
unfolding resolve_config resolve_trust parse_log_level is_empty_text Text-discrete
starts = refl

is_bridge_id_iff_example :
    (is_bridge_id (bytes "br_abc_12-X") ≡ true) ↔ IsBridgeId (bytes "br_abc_12-X")
is_bridge_id_iff_example = is_bridge_id_iff (bytes "br_abc_12-X")
