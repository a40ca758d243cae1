-- ===== src/AccountGroup.antt =====
-- internal/relay/account_group.go: the live connections of one account.
-- A method that mutates the group returns the new group beside its results; the group's mutex makes
-- each method one atomic step. A `*Connection` is its record, and `ref` is its address: `==` on
-- pointers compares `ref`, and nil is `none`. `ConnID` is written once, before the phone is shared.
pub mod Ordering
pub mod Default
pub mod ConnIds
pub mod Invariant
pub mod Routing
pub mod Methods
pub mod Changes
use sesori_relay_server.Prelude.{
  ℕ, zero, suc, ◌+◌, ◌%◌, ◌^◌, Bool, true, false, ◌&&◌, ◌||◌, not, List, [], ◌∷◌, map, Option, none,
  some, Text, Text-discrete, ℕ_discrete, text_ltb, ltb, leb, ◌==◌, if◌then◌else◌, length,
}
use sesori_relay_server.Prelude.Dict.{Dict, lookup, insert, delete, values}

pub record Connection : Type 0 where
  pub ref : ℕ
  pub conn_id : ℕ  -- uint16
  pub bridge_id : Text
  pub connection_id : Text
  pub connected_at : ℕ

pub record AccountGroup : Type 0 where
  pub user_id : Text
  pub bridges : Dict Text Connection
  pub phones : Dict ℕ Connection
  pub next_conn_id : ℕ  -- uint16

pub record TargetChange : Type 0 where
  pub phone : Connection
  pub previous : Option Connection
  pub previous_bridge_id : Text
  pub next : Option Connection

abbrev pub max_phones_per_account : ℕ
max_phones_per_account = 5

abbrev pub max_bridges_per_account : ℕ
max_bridges_per_account = 10

abbrev pub u16 : ℕ → ℕ
u16 n = n % 2 ^ 16

unfoldable pub new_account_group : Text → AccountGroup
new_account_group user_id = record {
  user_id = user_id;
  bridges = [];
  phones = [];
  next_conn_id = 1;
}

-- `NextConnID++`, which skips 0 when the uint16 wraps.
unfoldable pub following : ℕ → ℕ
following id = if u16 (id + 1) == 0 then 1 else u16 (id + 1)

unfoldable pub assign_conn_id : AccountGroup → AccountGroup × ℕ
assign_conn_id g = (record g { next_conn_id = following g.next_conn_id }, g.next_conn_id)

-- `==` on pointers that may be nil.
unfoldable pub same : Option Connection → Option Connection → Bool
same none none = true
same none (some b) = false
same (some a) none = false
same (some a) (some b) = a.ref == b.ref

unfoldable pub is_empty_text : Text → Bool
is_empty_text [] = true
is_empty_text (_ ∷ _) = false

-- The condition of the loop of `defaultBridgeLocked`, for a `latest` that is not nil.
unfoldable pub is_later : Connection → Connection → Bool
is_later bridge latest =
    ltb latest.connected_at bridge.connected_at
    || (bridge.connected_at == latest.connected_at && text_ltb latest.bridge_id bridge.bridge_id)

unfoldable pub newer : Option Connection → Connection → Option Connection
newer none bridge = some bridge
newer (some latest) bridge = if is_later bridge latest then some bridge else some latest

unfoldable pub latest_of : Option Connection → Dict Text Connection → Option Connection
latest_of latest [] = latest
latest_of latest ((_, bridge) ∷ rest) = latest_of (newer latest bridge) rest

unfoldable pub default_bridge : AccountGroup → Option Connection
default_bridge g = latest_of none g.bridges

unfoldable pub target : AccountGroup → Connection → Option Connection
target g phone =
    if not (is_empty_text phone.bridge_id)
    then lookup Text-discrete phone.bridge_id g.bridges
    else default_bridge g

-- `g.Bridges[bridge.BridgeID] == bridge`.
unfoldable pub is_current_bridge : AccountGroup → Connection → Bool
unfolding same
is_current_bridge g bridge = same (lookup Text-discrete bridge.bridge_id g.bridges) (some bridge)

-- The old target, while it is still connected, and its id.
unfoldable pub still_connected : AccountGroup → Option Connection → Option Connection
still_connected g none = none
still_connected g (some previous) = if is_current_bridge g previous then some previous else none

unfoldable pub id_of : Option Connection → Text
id_of none = []
id_of (some bridge) = bridge.bridge_id

-- One round of the second loop of `changeBridgesLocked`, where `g` is the group after the change.
unfoldable pub change_of : AccountGroup → Connection → Option Connection → Option TargetChange
change_of g phone previous =
    if same (target g phone) previous
    then none
    else some (record {
      phone = phone;
      previous = still_connected g previous;
      previous_bridge_id = id_of previous;
      next = target g phone;
    })

-- `append(changes, change)`, for a change that may be absent.
abbrev pub add_change : Option TargetChange → List TargetChange → List TargetChange
add_change none changes = changes
add_change (some change) changes = change ∷ changes

-- `before` holds each phone with its target before the change.
unfoldable pub changes_of : AccountGroup → List (Connection × Option Connection) → List TargetChange
changes_of g [] = []
changes_of g ((phone, previous) ∷ before) =
    add_change (change_of g phone previous) (changes_of g before)

unfoldable pub targets_of : AccountGroup → List Connection → List (Connection × Option Connection)
targets_of g [] = []
targets_of g (phone ∷ phones) = (phone, target g phone) ∷ targets_of g phones

unfoldable pub change_bridges :
    AccountGroup → (Dict Text Connection → Dict Text Connection) → AccountGroup × List TargetChange
change_bridges g mutate =
    let g' = record g { bridges = mutate g.bridges } in
    (g', changes_of g' (targets_of g (values g.phones)))

pub record Added : Type 0 where
  pub displaced : Option Connection
  pub changes : List TargetChange
  pub is_ok : Bool

unfoldable pub add_bridge : AccountGroup → Connection → AccountGroup × Added
add_bridge g bridge =
    let displaced = lookup Text-discrete bridge.bridge_id g.bridges in
    if same displaced none && leb max_bridges_per_account (length g.bridges)
    then (g, record { displaced = none; changes = []; is_ok = false })
    else (let (g', changes) = change_bridges g (insert Text-discrete bridge.bridge_id bridge) in
        (g', record { displaced = displaced; changes = changes; is_ok = true }))

unfoldable pub remove_bridge : AccountGroup → Connection → AccountGroup × Bool × List TargetChange
remove_bridge g bridge =
    if is_current_bridge g bridge
    then (let (g', changes) = change_bridges g (delete Text-discrete bridge.bridge_id) in
        (g', true, changes))
    else (g, false, [])

unfoldable pub targeting : AccountGroup → Connection → List Connection → List Connection
targeting g bridge [] = []
targeting g bridge (phone ∷ phones) =
    let rest = targeting g bridge phones in
    if same (target g phone) (some bridge) then phone ∷ rest else rest

unfoldable pub phones_targeting : AccountGroup → Connection → List Connection
phones_targeting g bridge =
    if is_current_bridge g bridge then targeting g bridge (values g.phones) else []

unfoldable pub phone_targeting : AccountGroup → Connection → ℕ → Option Connection
phone_targeting g bridge conn_id = elim (lookup ℕ_discrete conn_id g.phones) [
  | none ↦ none
  | some phone ↦
      if is_current_bridge g bridge && same (target g phone) (some bridge) then some phone else none
]

unfoldable pub all_phones : AccountGroup → List Connection
all_phones g = values g.phones

-- The loop of `AddPhone`, by fuel; `none` means that the fuel ran out.
unfoldable pub free_conn_id : ℕ → AccountGroup → Option (AccountGroup × ℕ)
free_conn_id zero g = none
free_conn_id (suc fuel) g =
    let (g', id) = assign_conn_id g in
    let rest = free_conn_id fuel g' in
    elim (lookup ℕ_discrete id g'.phones) [ none ↦ some (g', id) | some _ ↦ rest ]

-- The phone with its `ConnID` set, its target, and whether it was registered.
pub record Registered : Type 0 where
  pub phone : Connection
  pub bridge : Option Connection
  pub is_ok : Bool

unfoldable pub register : Connection → AccountGroup × ℕ → AccountGroup × Registered
register phone (g, id) =
    let phone' = record phone { conn_id = id } in
    let g' = record g { phones = insert ℕ_discrete id phone' g.phones } in
    (g', record { phone = phone'; bridge = target g' phone'; is_ok = true })

-- `none` means that the search for a free id ran out of fuel.
unfoldable pub add_phone : AccountGroup → Connection → Option (AccountGroup × Registered)
add_phone g phone =
    if leb max_phones_per_account (length g.phones)
    then some (g, record { phone = phone; bridge = none; is_ok = false })
    else (elim (free_conn_id (suc (length g.phones)) g) [
      | none ↦ none
      | some found ↦ some (register phone found)
    ])

unfoldable pub remove_phone : AccountGroup → Connection → AccountGroup × Option Connection
remove_phone g phone =
    let g' = record g { phones = delete ℕ_discrete phone.conn_id g.phones } in (g', target g' phone)

unfoldable pub bridge_for_phone : AccountGroup → Connection → Option Connection
bridge_for_phone g phone =
    if same (lookup ℕ_discrete phone.conn_id g.phones) (some phone) then target g phone else none

unfoldable pub is_empty : AccountGroup → Bool
is_empty g = length g.bridges == 0 && length g.phones == 0
