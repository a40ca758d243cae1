-- ===== src/Tests/Lifecycles.antt =====
-- Connections of the account of Tests/Accounts.antt that come and go.
use sesori_relay_server.Prelude.{
  ℕ, ◌≡◌, ◌≢◌, refl, arith, true, false, [], ◌∷◌, none, some, Text-discrete, ℕ_discrete, bytes,
}
use sesori_relay_server.Prelude.Dict.{lookup, insert}
use sesori_relay_server.AccountGroup.{
  AccountGroup, change_bridges, same, target, add_bridge, is_current_bridge, is_empty,
  new_account_group,
}
use sesori_relay_server.Announce.Views.{bridge_view}
use sesori_relay_server.GroupManager.{
  GroupManager, new_group_manager, group_at, get_or_create_group, has_live_bridge_with_id,
}
use sesori_relay_server.GroupManager.Detached.{interrupted, interrupted-detached}
use sesori_relay_server.GroupManager.Invariant.{
  new_group_manager-IsWellFormed, get_or_create_group-IsWellFormed,
}
use sesori_relay_server.Handler.Bridge.{BridgeSession}
use sesori_relay_server.Handler.Effects.{close, cancel}
use sesori_relay_server.Handler.Lifecycle.{open_bridge, close_bridge, close_phone, sent, takeovers}
use sesori_relay_server.Handler.Lifecycle.Phones.{close_phone-view}
use sesori_relay_server.Handler.Lifecycle.Takeover.{open_bridge-takeover}
use sesori_relay_server.Protocol.CloseCodes.{close_bridge_replaced}
use sesori_relay_server.Tests.Accounts.{
  desk, laptop, desk_again, mobile, tablet, home, home-IsValid,
}

close_phone-view_example :
    (bridge_view laptop.ref mobile.conn_id
        (same (target home mobile) (some laptop))
        (sent (close_phone home mobile).1)
      ≡ false)
    × (lookup ℕ_discrete mobile.conn_id (close_phone home mobile).0.phones ≡ none)
    × (target (close_phone home mobile).0 tablet ≡ target home tablet)
close_phone-view_example = close_phone-view home mobile laptop tablet home-IsValid

abbrev first_session : BridgeSession
first_session = record {
  conn = desk;
  user_id = bytes "ann";
  policy = bytes "normal";
  disconnect_policy = bytes "normal";
  has_notifications = true;
}

abbrev second_session : BridgeSession
second_session = record first_session { conn = desk_again }

desk_here : lookup Text-discrete (bytes "desk") home.bridges ≡ some desk
unfolding lookup Text-discrete
desk_here = refl

-- The group after the takeover.
abbrev taken : AccountGroup
taken = (open_bridge home second_session (bytes "now")).0

taken_here : lookup Text-discrete (bytes "desk") taken.bridges ≡ some desk_again
unfolding open_bridge add_bridge change_bridges lookup insert Text-discrete same
taken_here = refl

open_bridge-takeover_example :
    (takeovers (open_bridge home second_session (bytes "now")).1
      ≡ (close desk close_bridge_replaced ∷ cancel desk ∷ []) ∷ [])
    × (lookup Text-discrete (bytes "desk") taken.bridges ≡ some desk_again)
    × (close_bridge taken first_session false (bytes "later") ≡ (taken, cancel desk ∷ []))
open_bridge-takeover_example =
    open_bridge-takeover home taken second_session first_session false (bytes "now") (bytes "later")
      desk_here refl (λ e. omega arith) taken_here

abbrev managed : GroupManager
managed = (get_or_create_group new_group_manager (bytes "ann")).0

ann_registered : lookup Text-discrete (bytes "ann") managed.groups ≡ some 0
unfolding get_or_create_group lookup new_group_manager insert Text-discrete
ann_registered = refl

ann_group : group_at managed 0 ≡ some (new_account_group (bytes "ann"))
unfolding get_or_create_group new_group_manager group_at lookup insert ℕ_discrete Text-discrete
ann_group = refl

ann_alone : is_empty (new_account_group (bytes "ann")) ≡ true
unfolding is_empty new_account_group
ann_alone = refl

abbrev torn : GroupManager × ℕ
torn = interrupted managed (bytes "ann") (new_account_group (bytes "ann")) desk

interrupted-detached_example :
    (torn.1 ≡ 0)
    × ((add_bridge (new_account_group (bytes "ann")) desk).1.is_ok ≡ true)
    × (group_at torn.0 0 ≡ some (add_bridge (new_account_group (bytes "ann")) desk).0)
    × (is_current_bridge (add_bridge (new_account_group (bytes "ann")) desk).0 desk ≡ true)
    × (has_live_bridge_with_id torn.0 (bytes "ann") (bytes "desk") ≡ false)
    × ((get_or_create_group torn.0 (bytes "ann")).1 ≢ 0)
interrupted-detached_example =
    interrupted-detached managed (bytes "ann") 0 (new_account_group (bytes "ann")) desk
      (get_or_create_group-IsWellFormed new_group_manager (bytes "ann")
        new_group_manager-IsWellFormed)
      ann_registered ann_group ann_alone
