-- ===== src/Connect.antt =====
-- internal/relay/handler.go: `handleWebSocket` up to the group, with `readAndValidateAuth`.
pub mod Slots
use sesori_relay_server.Prelude.{
  ℕ, Bool, true, false, ◌&&◌, ◌||◌, not, List, [], ◌∷◌, Option, none, some, Text, Text-discrete,
  ite, if◌then◌else◌,
}
use sesori_relay_server.AccountGroup.{is_empty_text}
use sesori_relay_server.Auth.Claims.{AuthResult}
use sesori_relay_server.Auth.Verify.{Verdict, accepted, rejected}
use sesori_relay_server.DeviceIds.{is_bridge_id}
use sesori_relay_server.Handler.Effects.{Incoming, text, binary}
use sesori_relay_server.Protocol.CloseCodes.{close_auth_required, close_auth_failure}
use sesori_relay_server.Protocol.Messages.{
  Json, RoleAuthMessage, type_auth, role_bridge, role_phone,
}
use sesori_relay_server.RateLimiter.{RateLimiter, allow_connection, release_connection, allow_group}

-- `websocket.StatusPolicyViolation`, of RFC 6455.
abbrev pub status_policy_violation : ℕ
status_policy_violation = 1008

-- Who joins the group: `handleBridge` or `handlePhone` is called with these.
pub data Joining : Type 0 where
  bridge_joins : Text → Text → Text → Joining  -- user id, bridge id, requested policy
  phone_joins : Text → Text → Joining  -- user id, pinned bridge id

pub data Outcome : Type 0 where
  too_many_connections accept_failed : Outcome
  closed : ℕ → Outcome
  joins : Joining → Outcome

-- The authenticator, `none` where the server has none: the verdict on a token.
abbrev pub Authenticator : Type 0
Authenticator = Option (Text → Verdict)

unfoldable pub is_role : Text → Bool
is_role role =
    ite (Text-discrete role role_bridge) true (ite (Text-discrete role role_phone) true false)

-- From `Validate` on, for a message with a known role.
unfoldable pub join_as : RoleAuthMessage → Text → Outcome
join_as m user_id =
    ite (Text-discrete m.role role_bridge)
      (if is_empty_text m.bridge_id
        then closed close_auth_failure
        else (if is_bridge_id m.bridge_id
            then joins (bridge_joins user_id m.bridge_id m.connection_notification_policy)
            else closed close_auth_failure))
      (if not (is_empty_text m.bridge_id) && not (is_bridge_id m.bridge_id)
        then closed close_auth_failure
        else joins (phone_joins user_id m.bridge_id))

unfoldable pub with_verdict : RoleAuthMessage → Verdict → Outcome
unfolding join_as
with_verdict m (rejected e) = closed close_auth_failure
with_verdict m (accepted r) = join_as m r.user_id

unfoldable pub with_message : (Text → Verdict) → Option RoleAuthMessage → Outcome
unfolding is_role with_verdict
with_message verify none = closed close_auth_failure
with_message verify (some m) =
    ite (Text-discrete m.type type_auth)
      (if is_role m.role then with_verdict m (verify m.token) else closed close_auth_failure)
      (closed close_auth_failure)

-- `first` is the first message, `none` for an error or after five seconds.
unfoldable pub read_and_validate_auth : Json → (Text → Verdict) → Option Incoming → Outcome
unfolding with_message
read_and_validate_auth json verify none = closed close_auth_required
read_and_validate_auth json verify (some (binary _)) = closed close_auth_required
read_and_validate_auth json verify (some (text input)) = with_message verify (json.role_auth input)

-- After `websocket.Accept`; `groups` is `s.manager.Count()`.
unfoldable pub accepted_connection :
    Json → Authenticator → RateLimiter → ℕ → Option Incoming → Outcome
accepted_connection json none rl groups first = closed close_auth_required
accepted_connection json (some verify) rl groups first =
    if allow_group rl groups
    then read_and_validate_auth json verify first
    else closed status_policy_violation

-- The slot is given back at the end of a handler that was accepted, whatever the outcome; a
-- connection that joins keeps it until its read loop has ended.
unfoldable pub after_outcome : RateLimiter → Text → Outcome → RateLimiter × Outcome
after_outcome rl ip (joins j) = (rl, joins j)
after_outcome rl ip (closed code) = (release_connection rl ip, closed code)
after_outcome rl ip too_many_connections = (release_connection rl ip, too_many_connections)
after_outcome rl ip accept_failed = (release_connection rl ip, accept_failed)

-- `upgraded` is whether `websocket.Accept` succeeded.
unfoldable pub handle_web_socket :
    Json → Authenticator → RateLimiter → Text → Bool → ℕ → Option Incoming → RateLimiter × Outcome
unfolding after_outcome
handle_web_socket json auth rl ip upgraded groups first =
    let (rl', allowed) = allow_connection rl ip in
    if not allowed
    then (rl', too_many_connections)
    else (if not upgraded
        then (release_connection rl' ip, accept_failed)
        else after_outcome rl' ip (accepted_connection json auth rl' groups first))
