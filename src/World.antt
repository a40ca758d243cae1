-- ===== src/World.antt =====
-- internal/relay/handler.go: the handlers of the server side by side. Each has a stage, and each step
-- is one access that changes the shared limiter, manager or group, under its mutex; accesses that only
-- read are no steps here. The key of a handler is the
-- address of its connection.
pub mod Branches
pub mod Slots
pub mod Shared
pub mod Groups
pub mod Isolation
pub mod Capacity
pub mod Drain
pub mod Informed
pub mod Live
pub mod Overtaken
pub mod Overrun
pub mod Told
pub mod Late
use sesori_relay_server.Prelude.{
  ℕ, ◌≡◌, Bool, true, false, List, [], ◌∷◌, Option, none, some, Text, ℕ_discrete, if◌then◌else◌,
}
use sesori_relay_server.Prelude.Dict.{Dict, lookup, insert, delete}
use sesori_relay_server.AccountGroup.{
  Connection, AccountGroup, Added, Registered, add_bridge, remove_bridge, add_phone, remove_phone,
}
use sesori_relay_server.GroupManager.{
  GroupManager, new_group_manager, group_at, set_group, get_or_create_group, remove_group_if_empty,
  count,
}
use sesori_relay_server.RateLimiter.{
  RateLimiter, new_rate_limiter, allow_connection, release_connection, allow_group,
}

-- Where a handler stands, with the user and the group that it holds.
pub data Stage : Type 0 where
  admitted : Stage  -- it has a slot
  checked : Stage  -- the number of groups was within the limit
  joining : Text → ℕ → Stage  -- it got the group of its user
  bridge_serving phone_serving : Text → ℕ → Connection → Stage  -- its connection was registered
  leaving : Text → ℕ → Stage  -- its connection was removed
  ending : Stage  -- only the slot is left to give back

pub record Handler : Type 0 where
  pub ip : Text
  pub stage : Stage

pub record World : Type 0 where
  pub limiter : RateLimiter
  pub manager : GroupManager
  pub handlers : Dict ℕ Handler

unfoldable pub new_world : ℕ → ℕ → World
new_world max_per_ip max_rooms = record {
  limiter = new_rate_limiter max_per_ip max_rooms;
  manager = new_group_manager;
  handlers = [];
}

abbrev pub enter : World → ℕ → Handler → World
enter w i h = record w { handlers = insert ℕ_discrete i h w.handlers }

abbrev pub at_stage : Handler → Stage → Handler
at_stage h stage = record h { stage = stage }

-- A group is written back, and the handler goes on to a stage.
abbrev pub stored : World → ℕ → Handler → ℕ → AccountGroup → Stage → World
stored w i h ref g stage =
    enter (record w { manager = set_group w.manager ref g }) i (at_stage h stage)

unfoldable pub arrive : World → ℕ → Text → World
arrive w i ip =
    let (limiter, allowed) = allow_connection w.limiter ip in
    let w' = record w { limiter = limiter } in
    if allowed then enter w' i (record { ip = ip; stage = admitted }) else w'

unfoldable pub check_groups : World → ℕ → Handler → World
check_groups w i h =
    if allow_group w.limiter (count w.manager)
    then enter w i (at_stage h checked)
    else enter w i (at_stage h ending)

unfoldable pub get_group : World → ℕ → Handler → Text → World
get_group w i h user_id =
    let (manager, ref) = get_or_create_group w.manager user_id in
    enter (record w { manager = manager }) i (at_stage h (joining user_id ref))

-- A refused bridge leaves the group alone, and its handler does not clean up.
unfoldable pub join_bridge : World → ℕ → Handler → Text → ℕ → AccountGroup → Connection → World
join_bridge w i h user_id ref g bridge =
    let (g', added) = add_bridge g bridge in
    if added.is_ok
    then stored w i h ref g' (bridge_serving user_id ref bridge)
    else enter w i (at_stage h ending)

-- What the handler does with the result of `AddPhone`.
unfoldable pub join_phone : World → ℕ → Handler → Text → ℕ → AccountGroup × Registered → World
join_phone w i h user_id ref (g, added) =
    if added.is_ok
    then stored w i h ref g (phone_serving user_id ref added.phone)
    else enter w i (at_stage h ending)

unfoldable pub withdraw_bridge : World → ℕ → Handler → Text → ℕ → AccountGroup → Connection → World
withdraw_bridge w i h user_id ref g bridge =
    stored w i h ref (remove_bridge g bridge).0 (leaving user_id ref)

unfoldable pub withdraw_phone : World → ℕ → Handler → Text → ℕ → AccountGroup → Connection → World
withdraw_phone w i h user_id ref g phone =
    stored w i h ref (remove_phone g phone).0 (leaving user_id ref)

unfoldable pub collect : World → ℕ → Handler → Text → ℕ → World
collect w i h user_id ref =
    enter (record w { manager = remove_group_if_empty w.manager user_id ref }) i (at_stage h ending)

unfoldable pub finish : World → ℕ → Handler → World
finish w i h = record w {
  limiter = release_connection w.limiter h.ip;
  handlers = delete ℕ_discrete i w.handlers;
}

-- A handler with nothing to undo but its slot: it was refused, or it has cleaned up.
abbrev pub may_end : Stage → Bool
may_end admitted = true
may_end checked = true
may_end ending = true
may_end (joining _ _) = false
may_end (bridge_serving _ _ _) = false
may_end (phone_serving _ _ _) = false
may_end (leaving _ _) = false

-- The handler `h` at the address `i`.
abbrev pub At : World → ℕ → Handler → Type 0
At w i h = lookup ℕ_discrete i w.handlers ≡ some h

pub data Step (w t : World) : Type 0 where
  -- `AllowConnection` for a new connection.
  arrives :
      (i : ℕ) (ip : Text) → lookup ℕ_discrete i w.handlers ≡ none → t ≡ arrive w i ip → Step w t
  -- `AllowGroup(Count())`.
  checks : (i : ℕ) (h : Handler) → At w i h → h.stage ≡ admitted → t ≡ check_groups w i h → Step w t
  -- `GetOrCreateGroup` for the user that the token names.
  gets_group :
      (i : ℕ) (h : Handler) (user_id : Text)
      → At w i h
      → h.stage ≡ checked
      → t ≡ get_group w i h user_id
      → Step w t
  -- `AddBridge`.
  adds_bridge :
      (i : ℕ) (h : Handler) (user_id : Text) (ref : ℕ) (g : AccountGroup) (bridge : Connection)
      → At w i h
      → h.stage ≡ joining user_id ref
      → group_at w.manager ref ≡ some g
      → bridge.ref ≡ i
      → t ≡ join_bridge w i h user_id ref g bridge
      → Step w t
  -- `AddPhone`.
  adds_phone :
      (i : ℕ) (h : Handler) (user_id : Text) (ref : ℕ) (g : AccountGroup) (phone : Connection)
      (r : AccountGroup × Registered)
      → At w i h
      → h.stage ≡ joining user_id ref
      → group_at w.manager ref ≡ some g
      → phone.ref ≡ i
      → add_phone g phone ≡ some r
      → t ≡ join_phone w i h user_id ref r
      → Step w t
  -- `RemoveBridge`.
  removes_bridge :
      (i : ℕ) (h : Handler) (user_id : Text) (ref : ℕ) (g : AccountGroup) (bridge : Connection)
      → At w i h
      → h.stage ≡ bridge_serving user_id ref bridge
      → group_at w.manager ref ≡ some g
      → t ≡ withdraw_bridge w i h user_id ref g bridge
      → Step w t
  -- `RemovePhone`.
  removes_phone :
      (i : ℕ) (h : Handler) (user_id : Text) (ref : ℕ) (g : AccountGroup) (phone : Connection)
      → At w i h
      → h.stage ≡ phone_serving user_id ref phone
      → group_at w.manager ref ≡ some g
      → t ≡ withdraw_phone w i h user_id ref g phone
      → Step w t
  -- `RemoveGroupIfEmpty`.
  collects :
      (i : ℕ) (h : Handler) (user_id : Text) (ref : ℕ)
      → At w i h
      → h.stage ≡ leaving user_id ref
      → t ≡ collect w i h user_id ref
      → Step w t
  -- `ReleaseConnection`.
  ends : (i : ℕ) (h : Handler) → At w i h → may_end h.stage ≡ true → t ≡ finish w i h → Step w t

-- The states of a server with the two limits, under every interleaving of its handlers.
pub data Reach (max_per_ip max_rooms : ℕ) : World → Type 0 where
  here : Reach max_per_ip max_rooms (new_world max_per_ip max_rooms)
  next : {w t : World} → Reach max_per_ip max_rooms w → Step w t → Reach max_per_ip max_rooms t
