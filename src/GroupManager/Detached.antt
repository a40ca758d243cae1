-- ===== src/GroupManager/Detached.antt =====
-- internal/relay/handler.go: the window of `handleWebSocket` between `GetOrCreateGroup` and the
-- registration in the group.
use sesori_relay_server.Prelude.{
  ℕ, ◌≡◌, ◌≢◌, refl, sym, ap, true, false, ◌∙◌, inl, inr, arith, none, some, Text, Text-discrete,
  ℕ_discrete,
}
use sesori_relay_server.Prelude.Dict.{lookup, lookup-insert, lookup-delete_self}
use sesori_relay_server.AccountGroup.{
  Connection, AccountGroup, add_bridge, is_empty, is_current_bridge,
}
use sesori_relay_server.AccountGroup.Methods.{add_bridge_cases}
use sesori_relay_server.AccountGroup.Routing.{same_self}
use sesori_relay_server.GroupManager.{
  GroupManager, group_at, set_group, get_or_create_group, is_empty_at, remove_group_if_empty,
  has_live_bridge_with_id,
}
use sesori_relay_server.GroupManager.Invariant.{IsWellFormed, without_user}

-- One handler gets the group at `ref` and adds its bridge; in between, another handler of the user
-- runs `RemoveGroupIfEmpty` on the same group.
unfoldable pub interrupted : GroupManager → Text → AccountGroup → Connection → GroupManager × ℕ
interrupted m user_id g bridge =
    let (m1, ref) = get_or_create_group m user_id in
    (set_group (remove_group_if_empty m1 user_id ref) ref (add_bridge g bridge).0, ref)

add_bridge-empty :
    (g : AccountGroup) (bridge : Connection)
    → is_empty g ≡ true
    → ((add_bridge g bridge).1.is_ok ≡ true)
      × (is_current_bridge (add_bridge g bridge).0 bridge ≡ true)
unfolding is_empty is_current_bridge
add_bridge-empty g bridge e = elim (add_bridge_cases g bridge) [
  | inl (_, full, _) ↦ absurd (ground arith)
  | inr (_, added) ↦
      let here = lookup-insert Text-discrete bridge.bridge_id bridge.bridge_id bridge g.bridges in
      rw added (refl, ground (arith, here, same_self bridge))
]

interrupted_lem :
    (m : GroupManager) (user_id : Text) (ref : ℕ) (g : AccountGroup) (bridge : Connection)
    → lookup Text-discrete user_id m.groups ≡ some ref
    → group_at m ref ≡ some g
    → is_empty g ≡ true
    → interrupted m user_id g bridge
      ≡ (set_group (without_user m user_id) ref (add_bridge g bridge).0, ref)
unfolding interrupted get_or_create_group remove_group_if_empty is_empty_at
interrupted_lem m user_id ref g bridge registered here empty = ground arith

-- A user without a registration.
absent_user :
    (m : GroupManager) (user_id bridge_id : Text)
    → lookup Text-discrete user_id m.groups ≡ none
    → (has_live_bridge_with_id m user_id bridge_id ≡ false)
      × ((get_or_create_group m user_id).1 ≡ m.next_ref)
unfolding has_live_bridge_with_id get_or_create_group
absent_user m user_id bridge_id e = (ground arith, ground arith)

-- In a well-formed manager, let a user's registered group be empty, let a handler get this group
-- for a new bridge, and let RemoveGroupIfEmpty of another handler of the user run before the bridge
-- is added. Then the bridge is accepted and current in its group, but the manager does not report
-- it as live, and the next connection of the user gets another group.
pub interrupted-detached :
    (m : GroupManager) (user_id : Text) (ref : ℕ) (g : AccountGroup) (bridge : Connection)
    → IsWellFormed m
    → lookup Text-discrete user_id m.groups ≡ some ref
    → group_at m ref ≡ some g
    → is_empty g ≡ true
    → let (m', ref') = interrupted m user_id g bridge in
      (ref' ≡ ref)
      × ((add_bridge g bridge).1.is_ok ≡ true)
      × (group_at m' ref ≡ some (add_bridge g bridge).0)
      × (is_current_bridge (add_bridge g bridge).0 bridge ≡ true)
      × (has_live_bridge_with_id m' user_id bridge.bridge_id ≡ false)
      × ((get_or_create_group m' user_id).1 ≢ ref)
unfolding set_group group_at
interrupted-detached m user_id ref g bridge w registered here empty =
    let g' = (add_bridge g bridge).0 in
    let m' = set_group (without_user m user_id) ref g' in
    let (added, current) = add_bridge-empty g bridge empty in
    let (dead, made) =
      absent_user m' user_id bridge.bridge_id
        (lookup-delete_self Text-discrete user_id m.groups w.distinct) in
    let unused : group_at m m.next_ref ≡ none = w.below m.next_ref (omega arith) in
    rw (interrupted_lem m user_id ref g bridge registered here empty) (
      refl,
      added,
      ground (arith, lookup-insert ℕ_discrete ref ref g' m.heap),
      current,
      dead,
      λ e. ground (arith, ap (λ r. lookup ℕ_discrete r m.heap) (sym made ∙ e)),
    )
