-- ===== src/AccountGroup/Methods.antt =====
-- internal/relay/account_group.go: the branches of `AddBridge` and `RemoveBridge`.
use sesori_relay_server.Prelude.{
  ◌≡◌, ◌≤◌, ◌<◌, true, false, ◌⊎◌, inl, inr, arith, [], none, Text-discrete, Bool-cases, length,
  leb, ◌&&◌,
}
use sesori_relay_server.Prelude.Dict.{lookup, insert, delete}
use sesori_relay_server.AccountGroup.{
  Connection, AccountGroup, max_bridges_per_account, same, changes_of, targets_of, change_bridges,
  add_bridge, remove_bridge, is_current_bridge, all_phones,
}

abbrev pub with_bridge : AccountGroup → Connection → AccountGroup
with_bridge g bridge = record g { bridges = insert Text-discrete bridge.bridge_id bridge g.bridges }

abbrev pub without_bridge : AccountGroup → Connection → AccountGroup
without_bridge g bridge = record g { bridges = delete Text-discrete bridge.bridge_id g.bridges }

-- AddBridge refuses a bridge only if its id is not registered and the account has its maximal
-- number of bridges, and then the group is unchanged and nothing is to be announced. Otherwise, and
-- then a new id found the account below the maximum, the bridge is registered under its id, the
-- connection that had the id is returned as displaced, and the changes are those of the phones'
-- targets between the two groups.
pub add_bridge_cases :
    (g : AccountGroup) (bridge : Connection)
    → ((lookup Text-discrete bridge.bridge_id g.bridges ≡ none)
        × (max_bridges_per_account ≤ length g.bridges)
        × (add_bridge g bridge ≡ (g, record { displaced = none; changes = []; is_ok = false })))
      ⊎ (((lookup Text-discrete bridge.bridge_id g.bridges ≡ none)
            → length g.bridges < max_bridges_per_account)
          × (add_bridge g bridge ≡ (
            with_bridge g bridge,
            record {
              displaced = lookup Text-discrete bridge.bridge_id g.bridges;
              changes = changes_of (with_bridge g bridge) (targets_of g (all_phones g));
              is_ok = true;
            },
          )))
unfolding add_bridge change_bridges same all_phones
add_bridge_cases g bridge =
    elim (Bool-cases (
      same (lookup Text-discrete bridge.bridge_id g.bridges) none
      && leb max_bridges_per_account (length g.bridges))) [
        | inl full ↦ inl (ground arith, ground arith, rw full)
        | inr room ↦ inr (λ e. ground arith, rw room)
      ]

-- Only the current connection of an id is removed.
pub remove_bridge_cases :
    (g : AccountGroup) (bridge : Connection)
    → ((is_current_bridge g bridge ≡ false) × (remove_bridge g bridge ≡ (g, false, [])))
      ⊎ ((is_current_bridge g bridge ≡ true)
          × (remove_bridge g bridge ≡ (
            without_bridge g bridge,
            true,
            changes_of (without_bridge g bridge) (targets_of g (all_phones g)),
          )))
unfolding remove_bridge change_bridges all_phones
remove_bridge_cases g bridge = elim (Bool-cases (is_current_bridge g bridge)) [
  | inl current ↦ inr (current, rw current)
  | inr stale ↦ inl (stale, rw stale)
]
