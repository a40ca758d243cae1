-- ===== src/World/Late.antt =====
-- internal/relay/handler.go: the handlers side by side, with their writes, closes and reports as
-- steps of their own. What a handler starts stays pending, and each of the pending effects may be
-- made at any later time: the code makes those of one goroutine in order, and which of several
-- goroutines comes first is open. `AllPhones` is an access of its own.
pub mod Recipients
pub mod Pieces
pub mod Starts
pub mod Owners
pub mod Fits
pub mod Isolation
use sesori_relay_server.Prelude.{
  ℕ, ◌≡◌, ◌≢◌, ◌&&◌, Bool, true, false, if◌then◌else◌, ◌++◌, ite, List, [], ◌∷◌, map, Option, none,
  some, Text, ℕ_discrete, All,
}
use sesori_relay_server.AccountGroup.{
  Connection, AccountGroup, add_bridge, remove_bridge, remove_phone, all_phones,
}
use sesori_relay_server.Announce.{Notice, announce_presence}
use sesori_relay_server.GroupManager.{group_at}
use sesori_relay_server.Handler.Bridge.{
  BridgeSession, new_bridge_session, bridge_opened, takeover, status_reported, bridge_message,
  bridge_closed,
}
use sesori_relay_server.Handler.Effects.{
  Effect, notice, frame, close_now, take_over, close, cancel, report_status, report_control,
  Incoming, notices,
}
use sesori_relay_server.Handler.Phone.{phone_opened, phone_message, phone_closed}
use sesori_relay_server.Notifications.{BridgeStatusPayload, NotifyError}
use sesori_relay_server.Protocol.Messages.{Json}
use sesori_relay_server.World.{
  Handler, World, Step, new_world, At, bridge_serving, phone_serving, leaving, arrives, checks,
  gets_group, adds_bridge, adds_phone, removes_bridge, removes_phone, collects, ends,
}

-- An effect that is still to be made, by a handler for this user.
pub record Task : Type 0 where
  pub user_id : Text
  pub effect : Effect

abbrev pub for_user : Text → List Effect → List Task
for_user user_id es = map (λ e. record { user_id = user_id; effect = e }) es

-- What the other parties contribute to an access: the local variables of the session, the time, what
-- `HasLiveBridgeWithID` answers by then, and the result of the first report.
pub record Circumstances : Type 0 where
  pub policy : Text
  pub disconnect_policy : Text
  pub has_notifications : Bool
  pub now : Text
  pub live : Bool
  pub reported : Option NotifyError

-- What the goroutine of a takeover does, where a connection was displaced.
abbrev pub taken_over : Option Connection → List Effect
taken_over none = []
taken_over (some displaced) = takeover displaced

-- `handleBridge` from `AddBridge` on, with what the goroutines of the takeover and of the first report
-- do, but for the presence.
unfoldable pub bridge_opening : AccountGroup → BridgeSession → Circumstances → List Effect
bridge_opening g s x =
    let added = (add_bridge g s.conn).1 in
    bridge_opened s added [] x.now
    ++ (taken_over added.displaced
        ++ (if added.is_ok && s.has_notifications then status_reported s x.reported else []))

-- The cleanup of `handleBridge` from `RemoveBridge` on, but for the presence.
unfoldable pub bridge_closing : AccountGroup → BridgeSession → Circumstances → List Effect
bridge_closing g s x =
    let (_, is_current, changes) = remove_bridge g s.conn in
    bridge_closed s is_current changes x.live [] x.now

abbrev pub closing_session : Connection → Text → Circumstances → BridgeSession
closing_session c user_id x = record {
  conn = c;
  user_id = user_id;
  policy = x.policy;
  disconnect_policy = x.disconnect_policy;
  has_notifications = x.has_notifications;
}

-- What a handler starts after its access.
unfoldable pub starts : {w t : World} → Circumstances → Step w t → List Task
unfolding bridge_opening bridge_closing new_bridge_session
starts x (arrives i ip new e) = []
starts x (checks i h at s e) = []
starts x (gets_group i h u at s e) = []
starts x (adds_bridge i h u r g c at s found own e) =
    for_user u (bridge_opening g (new_bridge_session c u x.policy x.has_notifications) x)
starts x (adds_phone i h u r g c added at s found own result e) = for_user u (phone_opened added.1)
starts x (removes_bridge i h u r g c at s found e) =
    for_user u (bridge_closing g (closing_session c u x) x)
starts x (removes_phone i h u r g c at s found e) = for_user u (phone_closed c (remove_phone g c).1)
starts x (collects i h u r at s e) = []
starts x (ends i h at may e) = []

-- For each address, the user that the token of the connection there names, once it was read.
abbrev pub Owners : Type 0
Owners = ℕ → Option Text

abbrev pub with_owner : Owners → ℕ → Option Text → Owners
with_owner o i user j = ite (ℕ_discrete j i) user (o j)

unfoldable pub owners_after : {w t : World} → Owners → Step w t → Owners
owners_after o (arrives i ip new e) = with_owner o i none
owners_after o (checks i h at s e) = o
owners_after o (gets_group i h u at s e) = with_owner o i (some u)
owners_after o (adds_bridge i h u r g c at s found own e) = o
owners_after o (adds_phone i h u r g c added at s found own result e) = o
owners_after o (removes_bridge i h u r g c at s found e) = o
owners_after o (removes_phone i h u r g c at s found e) = o
owners_after o (collects i h u r at s e) = o
owners_after o (ends i h at may e) = o

-- A property of the connection that an effect is about, or of the report that it makes.
abbrev pub Concerns : (Connection → Type 0) → (BridgeStatusPayload → Type 0) → Effect → Type 0
Concerns P Q (notice n) = P n.to
Concerns P Q (frame c _) = P c
Concerns P Q (close_now c) = P c
Concerns P Q (take_over c) = P c
Concerns P Q (close c _) = P c
Concerns P Q (cancel c) = P c
Concerns P Q (report_status p) = Q p
Concerns P Q (report_control p) = Q p

-- The peer that a write is for.
abbrev pub written_to : Effect → Option Connection
written_to (notice n) = some n.to
written_to (frame c _) = some c
written_to (close_now _) = none
written_to (take_over _) = none
written_to (close _ _) = none
written_to (cancel _) = none
written_to (report_status _) = none
written_to (report_control _) = none

-- Memory in use is not given out: nothing pending is about a connection at this address.
abbrev pub IsUnused : ℕ → List Task → Type 0
IsUnused i ts = All (λ t. Concerns (λ c. c.ref ≢ i) (λ p. Unit {0}) t.effect) ts

abbrev pub NewAddress : {w t : World} → List Task → Step w t → Type 0
NewAddress ts (arrives i ip new e) = IsUnused i ts
NewAddress ts (checks i h at s e) = Unit {0}
NewAddress ts (gets_group i h u at s e) = Unit {0}
NewAddress ts (adds_bridge i h u r g c at s found own e) = Unit {0}
NewAddress ts (adds_phone i h u r g c added at s found own result e) = Unit {0}
NewAddress ts (removes_bridge i h u r g c at s found e) = Unit {0}
NewAddress ts (removes_phone i h u r g c at s found e) = Unit {0}
NewAddress ts (collects i h u r at s e) = Unit {0}
NewAddress ts (ends i h at may e) = Unit {0}

-- The states of the server, with the owners of the connections and what is pending.
pub data Late (max_per_ip max_rooms : ℕ) : World → Owners → List Task → Type 0 where
  begin : Late max_per_ip max_rooms (new_world max_per_ip max_rooms) (λ i. none) []
  -- An access that changes the shared state.
  accesses :
      {w t : World} {o o' : Owners} {ts ts' : List Task}
      → Late max_per_ip max_rooms w o ts
      → (st : Step w t) (x : Circumstances) → NewAddress ts st
      → o' ≡ owners_after o st
      → ts' ≡ starts x st ++ ts
      → Late max_per_ip max_rooms t o' ts'
  -- The presence when a bridge has joined.
  presents_online :
      {w : World} {o : Owners} {ts : List Task}
      → Late max_per_ip max_rooms w o ts
      → (i : ℕ) (h : Handler) (u : Text) (r : ℕ) (g : AccountGroup) (c : Connection) → At w i h
      → h.stage ≡ bridge_serving u r c
      → group_at w.manager r ≡ some g
      → Late max_per_ip max_rooms w o
          (for_user u (notices (announce_presence (all_phones g) c.bridge_id true)) ++ ts)
  -- The presence when a bridge has left; the stage does not keep the bridge's id.
  presents_offline :
      {w : World} {o : Owners} {ts : List Task}
      → Late max_per_ip max_rooms w o ts
      → (i : ℕ) (h : Handler) (u : Text) (r : ℕ) (g : AccountGroup) (bridge_id : Text) → At w i h
      → h.stage ≡ leaving u r
      → group_at w.manager r ≡ some g
      → Late max_per_ip max_rooms w o
          (for_user u (notices (announce_presence (all_phones g) bridge_id false)) ++ ts)
  -- A round of a bridge's read loop.
  bridge_reads :
      {w : World} {o : Owners} {ts : List Task}
      → Late max_per_ip max_rooms w o ts
      → (i : ℕ) (h : Handler) (r : ℕ) (g : AccountGroup) (json : Json) (s : BridgeSession)
        (now : Text) (m : Incoming)
      → At w i h
      → h.stage ≡ bridge_serving s.user_id r s.conn
      → group_at w.manager r ≡ some g
      → Late max_per_ip max_rooms w o (for_user s.user_id (bridge_message json g s now m).1 ++ ts)
  -- A round of a phone's read loop.
  phone_reads :
      {w : World} {o : Owners} {ts : List Task}
      → Late max_per_ip max_rooms w o ts
      → (i : ℕ) (h : Handler) (u : Text) (r : ℕ) (g : AccountGroup) (json : Json)
        (phone : Connection) (has_notifications : Bool) (now : Text) (m : Incoming)
      → At w i h
      → h.stage ≡ phone_serving u r phone
      → group_at w.manager r ≡ some g
      → Late max_per_ip max_rooms w o
          (for_user u (phone_message json g phone has_notifications u now m) ++ ts)
  -- A pending effect is made.
  makes :
      {w : World} {o : Owners} (before : List Task) (task : Task) (behind : List Task)
      → Late max_per_ip max_rooms w o (before ++ task ∷ behind)
      → Late max_per_ip max_rooms w o (before ++ behind)
  -- A pending write is made and fails, and `writeOrDrop` closes the peer.
  fails :
      {w : World} {o : Owners} (before : List Task) (task : Task) (behind : List Task)
      (peer : Connection)
      → Late max_per_ip max_rooms w o (before ++ task ∷ behind)
      → written_to task.effect ≡ some peer
      → Late max_per_ip max_rooms w o (before ++ record task { effect = close_now peer } ∷ behind)
