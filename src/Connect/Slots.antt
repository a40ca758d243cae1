-- ===== src/Connect/Slots.antt =====
-- internal/relay/handler.go: a connection attempt and the limiter, and who joins a group.
use sesori_relay_server.Prelude.{
  ℕ, ◌≡◌, ◌≢◌, ◌⊎◌, ◌∙◌, refl, sym, ap, subst, inl, inr, Bool, true, false, not, arith, List, [],
  ◌∷◌, Option, none, some, Text, Text-discrete, if◌then◌else◌, Bool-cases, Option-cases, ltb, ◌&&◌,
  if_pos, if_neg,
}
use sesori_relay_server.AccountGroup.{is_empty_text}
use sesori_relay_server.Auth.Claims.{AuthResult}
use sesori_relay_server.Auth.Verify.{Verdict, accepted, rejected}
use sesori_relay_server.Connect.{
  Joining, bridge_joins, phone_joins, Outcome, too_many_connections, accept_failed, closed, joins,
  Authenticator, is_role, join_as, with_verdict, with_message, read_and_validate_auth,
  accepted_connection, after_outcome, handle_web_socket,
}
use sesori_relay_server.DeviceIds.{is_bridge_id}
use sesori_relay_server.Handler.Effects.{Incoming, text, binary}
use sesori_relay_server.Protocol.CloseCodes.{close_auth_failure}
use sesori_relay_server.Protocol.Messages.{Json, RoleAuthMessage, type_auth, role_bridge}
use sesori_relay_server.RateLimiter.{RateLimiter, allow_connection, release_connection}
use sesori_relay_server.RateLimiter.Slots.{
  Represents, give_back, held, allow_connection-grant, release_connection-give_back,
}

-- The slots after the attempt: one more exactly for a connection that joins a group.
abbrev pub slots_after : Text → List Text → Outcome → List Text
slots_after ip slots (joins _) = ip ∷ slots
slots_after ip slots (closed _) = slots
slots_after ip slots too_many_connections = slots
slots_after ip slots accept_failed = slots

give_back-cons : (ip : Text) (slots : List Text) → give_back ip (ip ∷ slots) ≡ slots
unfolding give_back
give_back-cons ip slots = ground arith

after_outcome-Represents :
    (rl : RateLimiter) (ip : Text) (slots : List Text) (o : Outcome)
    → Represents rl (ip ∷ slots)
    → Represents (after_outcome rl ip o).0 (slots_after ip slots (after_outcome rl ip o).1)
unfolding after_outcome
after_outcome-Represents rl ip slots (joins j) r = r
after_outcome-Represents rl ip slots (closed code) r =
    subst (Represents (release_connection rl ip)) (give_back-cons ip slots)
      (release_connection-give_back rl ip (ip ∷ slots) r)
after_outcome-Represents rl ip slots too_many_connections r =
    subst (Represents (release_connection rl ip)) (give_back-cons ip slots)
      (release_connection-give_back rl ip (ip ∷ slots) r)
after_outcome-Represents rl ip slots accept_failed r =
    subst (Represents (release_connection rl ip)) (give_back-cons ip slots)
      (release_connection-give_back rl ip (ip ∷ slots) r)

-- Let the limiter's table represent the slots that are held. After a connection attempt it
-- represents the same slots, and one more from the attempt's address exactly if the attempt joins a
-- group: a refused upgrade, a missing authenticator, a full server and a refused first message all
-- give the slot back.
pub handle_web_socket-Represents :
    (json : Json) (auth : Authenticator) (rl : RateLimiter) (ip : Text) (slots : List Text)
    (upgraded : Bool) (groups : ℕ) (first : Option Incoming)
    → Represents rl slots
    → let (rl', outcome) = handle_web_socket json auth rl ip upgraded groups first in
      Represents rl' (slots_after ip slots outcome)
unfolding handle_web_socket
handle_web_socket-Represents json auth rl ip slots upgraded groups first r =
    let (decides, stays) = allow_connection-grant rl ip slots r in
    elim (Bool-cases (ltb (held ip slots) rl.max_per_ip)) [
      | inl room ↦
          let allowed : (allow_connection rl ip).1 ≡ true = ground arith in
          let taken : Represents (allow_connection rl ip).0 (ip ∷ slots) = rw room at stays in
          elim (Bool-cases upgraded) [
            | inl up ↦
                rw (allowed, handle_web_socket, up)
                  (after_outcome-Represents (allow_connection rl ip).0 ip slots
                    (accepted_connection json auth (allow_connection rl ip).0 groups first) taken)
            | inr down ↦
                rw (allowed, handle_web_socket, down)
                  (subst (Represents (release_connection (allow_connection rl ip).0 ip))
                    (give_back-cons ip slots)
                    (release_connection-give_back (allow_connection rl ip).0 ip (ip ∷ slots) taken))
          ]
      | inr full ↦
          let refused : (allow_connection rl ip).1 ≡ false = ground arith in
          let unchanged : Represents (allow_connection rl ip).0 slots = rw full at stays in
          rw (refused, handle_web_socket) unchanged
    ]

-- The ids that join: a bridge names itself by an id of the required form; a phone names no bridge or
-- one by an id of that form.
abbrev pub IsWellNamed : Joining → Type 0
IsWellNamed (bridge_joins user_id bridge_id policy) = is_bridge_id bridge_id ≡ true
IsWellNamed (phone_joins user_id pinned) = (pinned ≡ []) ⊎ (is_bridge_id pinned ≡ true)

abbrev pub user_of : Joining → Text
user_of (bridge_joins user_id bridge_id policy) = user_id
user_of (phone_joins user_id pinned) = user_id

abbrev Named : Text → Joining → Type 0
Named user_id j = (user_of j ≡ user_id) × IsWellNamed j

joins-injective : {i j : Joining} → joins i ≡ joins j → i ≡ j
joins-injective h = cc

join_as_bridge-Named :
    (m : RoleAuthMessage) (user_id : Text) (j : Joining)
    → (if is_empty_text m.bridge_id
        then closed close_auth_failure
        else (if is_bridge_id m.bridge_id
            then joins (bridge_joins user_id m.bridge_id m.connection_notification_policy)
            else closed close_auth_failure))
      ≡ joins j
    → Named user_id j
join_as_bridge-Named m user_id j h =
    let valid : is_bridge_id m.bridge_id ≡ true = ground arith in
    let is_j : joins (bridge_joins user_id m.bridge_id m.connection_notification_policy) ≡ joins j =
      ground arith in
    subst (Named user_id) (joins-injective is_j) (refl, valid)

pinned-IsWellNamed :
    (pinned : Text)
    → (not (is_empty_text pinned) && not (is_bridge_id pinned)) ≡ false
    → (pinned ≡ []) ⊎ (is_bridge_id pinned ≡ true)
unfolding is_empty_text
pinned-IsWellNamed [] h = inl refl
pinned-IsWellNamed (c ∷ cs) h = inr (ground arith)

join_as_phone-Named :
    (m : RoleAuthMessage) (user_id : Text) (j : Joining)
    → (if not (is_empty_text m.bridge_id) && not (is_bridge_id m.bridge_id)
        then closed close_auth_failure
        else joins (phone_joins user_id m.bridge_id))
      ≡ joins j
    → Named user_id j
join_as_phone-Named m user_id j h =
    let fits : (not (is_empty_text m.bridge_id) && not (is_bridge_id m.bridge_id)) ≡ false =
      ground arith in
    let is_j : joins (phone_joins user_id m.bridge_id) ≡ joins j = ground arith in
    subst (Named user_id) (joins-injective is_j) (refl, pinned-IsWellNamed m.bridge_id fits)

join_as-Named :
    (m : RoleAuthMessage) (user_id : Text) (j : Joining)
    → join_as m user_id ≡ joins j
    → Named user_id j
unfolding join_as
join_as-Named m user_id j h = elim (Text-discrete m.role role_bridge) [
  | yes e ↦
      join_as_bridge-Named m user_id j (sym (if_pos (Text-discrete m.role role_bridge) e _ _) ∙ h)
  | no ne ↦
      join_as_phone-Named m user_id j (sym (if_neg (Text-discrete m.role role_bridge) ne _ _) ∙ h)
]

with_verdict-Named :
    (m : RoleAuthMessage) (v : Verdict) (j : Joining)
    → with_verdict m v ≡ joins j
    → (r : AuthResult) × (v ≡ accepted r) × Named r.user_id j
unfolding with_verdict
with_verdict-Named m (accepted r) j h = (r, refl, join_as-Named m r.user_id j h)
with_verdict-Named m (rejected e) j h = absurd (cc)

-- The message of a connection that joins: it decodes, its token is accepted, and the connection
-- joins under the user of that token and is well named.
abbrev pub Authenticated : Json → (Text → Verdict) → Text → Joining → Type 0
Authenticated json verify input j =
    (m : RoleAuthMessage) × (r : AuthResult) × (json.role_auth input ≡ some m)
    × (verify m.token ≡ accepted r)
    × (user_of j ≡ r.user_id)
    × IsWellNamed j

with_message-none : (verify : Text → Verdict) (j : Joining) → with_message verify none ≢ joins j
unfolding with_message
with_message-none verify j h = absurd (cc)

with_message-Named :
    (verify : Text → Verdict) (m : RoleAuthMessage) (j : Joining)
    → with_message verify (some m) ≡ joins j
    → with_verdict m (verify m.token) ≡ joins j
unfolding with_message
with_message-Named verify m j h = elim (Text-discrete m.type type_auth) [
  | yes e ↦
      let role_test = sym (if_pos (Text-discrete m.type type_auth) e _ _) ∙ h in
      elim (Bool-cases (is_role m.role)) [
        | inl known ↦ rw known at role_test
        | inr unknown ↦ absurd (ground arith)
      ]
  | no ne ↦
      let wrong = sym (if_neg (Text-discrete m.type type_auth) ne _ _) ∙ h in absurd (cc wrong)
]

pub read_and_validate_auth-joins :
    (json : Json) (verify : Text → Verdict) (first : Option Incoming) (j : Joining)
    → read_and_validate_auth json verify first ≡ joins j
    → (input : Text) × (first ≡ some (text input)) × Authenticated json verify input j
unfolding read_and_validate_auth
read_and_validate_auth-joins json verify none j h = absurd (cc)
read_and_validate_auth-joins json verify (some (binary _)) j h = absurd (cc)
read_and_validate_auth-joins json verify (some (text input)) j h =
    elim (Option-cases (json.role_auth input)) [
      | inl fails ↦ absurd (with_message-none verify j (sym (ap (with_message verify) fails) ∙ h))
      | inr (m, decoded) ↦
          let (r, accepts, (user, named)) =
            with_verdict-Named m (verify m.token) j
              (with_message-Named verify m j (sym (ap (with_message verify) decoded) ∙ h)) in
          (input, refl, (m, r, decoded, accepts, user, named))
    ]

-- On a server without an authenticator no connection attempt joins a group, whatever the limiter,
-- the first message and the number of groups are.
pub handle_web_socket-no_auth :
    (json : Json) (rl : RateLimiter) (ip : Text) (upgraded : Bool) (groups : ℕ)
    (first : Option Incoming) (j : Joining)
    → (handle_web_socket json none rl ip upgraded groups first).1 ≢ joins j
unfolding handle_web_socket accepted_connection after_outcome
handle_web_socket-no_auth json rl ip upgraded groups first j h = ground arith
