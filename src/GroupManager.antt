-- ===== src/GroupManager.antt =====
-- internal/relay/group_manager.go: the groups by user id. A `*AccountGroup` is an address in
-- `heap`, so a handler may hold a group that the manager has dropped or replaced in the meantime.
-- The manager's lock makes each method one atomic step.
pub mod Invariant
pub mod Detached
use sesori_relay_server.Prelude.{
  ℕ, suc, ◌+◌, Bool, true, false, ◌&&◌, not, List, [], Option, none, some, Text, Text-discrete,
  ℕ_discrete, ◌==◌, if◌then◌else◌, length,
}
use sesori_relay_server.Prelude.Dict.{Dict, lookup, insert, delete}
use sesori_relay_server.AccountGroup.{Connection, AccountGroup, new_account_group, is_empty, same}

pub record GroupManager : Type 0 where
  pub groups : Dict Text ℕ
  pub heap : Dict ℕ AccountGroup
  pub next_ref : ℕ

unfoldable pub new_group_manager : GroupManager
new_group_manager = record { groups = []; heap = []; next_ref = 0 }

-- The group at an address, and a write to it.
unfoldable pub group_at : GroupManager → ℕ → Option AccountGroup
group_at m ref = lookup ℕ_discrete ref m.heap

unfoldable pub set_group : GroupManager → ℕ → AccountGroup → GroupManager
set_group m ref g = record m { heap = insert ℕ_discrete ref g m.heap }

unfoldable pub get_or_create_group : GroupManager → Text → GroupManager × ℕ
get_or_create_group m user_id = elim (lookup Text-discrete user_id m.groups) [
  | some g ↦ (m, g)
  | none ↦ (
    record {
      groups = insert Text-discrete user_id m.next_ref m.groups;
      heap = insert ℕ_discrete m.next_ref (new_account_group user_id) m.heap;
      next_ref = m.next_ref + 1;
    },
    m.next_ref,
  )
]

-- `g.IsEmpty()` through the pointer.
unfoldable pub is_empty_at : GroupManager → ℕ → Bool
unfolding group_at
is_empty_at m ref = elim (group_at m ref) [ none ↦ true | some g ↦ is_empty g ]

unfoldable pub remove_group_if_empty : GroupManager → Text → ℕ → GroupManager
remove_group_if_empty m user_id group = elim (lookup Text-discrete user_id m.groups) [
  | none ↦ m
  | some g ↦
      if g == group && is_empty_at m g
      then record m { groups = delete Text-discrete user_id m.groups }
      else m
]

unfoldable pub count : GroupManager → ℕ
count m = length m.groups

-- `g.Bridges[bridgeID] != nil`.
unfoldable pub has_bridge : AccountGroup → Text → Bool
has_bridge g bridge_id = not (same (lookup Text-discrete bridge_id g.bridges) none)

unfoldable pub has_live_bridge_with_id : GroupManager → Text → Text → Bool
unfolding group_at
has_live_bridge_with_id m user_id bridge_id = elim (lookup Text-discrete user_id m.groups) [
  | none ↦ false
  | some ref ↦ elim (group_at m ref) [ none ↦ false | some g ↦ has_bridge g bridge_id ]
]
