-- ===== src/Tests/Worlds.antt =====
-- Handlers side by side: `desk` and `mobile` of Tests/Accounts.antt are served, and a handler for
-- `desk_again` has got the group but has not joined it.
use sesori_relay_server.Prelude.{
  ℕ, ◌≡◌, refl, [], ◌∷◌, none, some, Text, Text-discrete, ℕ_discrete, bytes, true,
}
use sesori_relay_server.Prelude.Dict.{lookup, insert}
use sesori_relay_server.AccountGroup.{
  AccountGroup, Registered, new_account_group, add_bridge, add_phone, change_bridges, same,
  targets_of, changes_of, free_conn_id, assign_conn_id, following, register, target, is_empty_text,
  default_bridge, latest_of, newer, is_later,
}
use sesori_relay_server.GroupManager.{
  new_group_manager, group_at, set_group, get_or_create_group, count,
}
use sesori_relay_server.RateLimiter.{new_rate_limiter, allow_connection, allow_group}
use sesori_relay_server.Tests.Accounts.{desk, mobile}
use sesori_relay_server.World.{
  admitted, checked, joining, bridge_serving, phone_serving, Handler, World, Reach, new_world,
  arrive, check_groups, get_group, join_bridge, join_phone, arrives, checks, gets_group,
  adds_bridge, adds_phone, here, next, At, at_stage,
}

abbrev pub near : Handler
near = record { ip = bytes "10.0.0.1"; stage = admitted }

abbrev pub ann : Text
ann = bytes "ann"

abbrev pub got : Handler
got = at_stage near (joining ann 0)

-- A handler from its arrival until it has the group of `ann`.
abbrev waiting : World → ℕ → World
waiting w i = get_group (check_groups (arrive w i near.ip) i near) i (at_stage near checked) ann

waiting-Reach :
    (w : World) (i : ℕ)
    → Reach 4 5 w
    → lookup ℕ_discrete i w.handlers ≡ none
    → At (arrive w i near.ip) i near
    → At (check_groups (arrive w i near.ip) i near) i (at_stage near checked)
    → Reach 4 5 (waiting w i)
waiting-Reach w i r new at at' =
    next (next (next r (arrives i near.ip new refl)) (checks i near at refl refl))
      (gets_group i (at_stage near checked) ann at' refl refl)

-- The group with `desk`, and then with `mobile` too.
abbrev pub with_desk : AccountGroup
with_desk = record (new_account_group ann) { bridges = (bytes "desk", desk) ∷ [] }

abbrev pub with_mobile : AccountGroup
with_mobile = record with_desk { phones = (1, mobile) ∷ []; next_conn_id = 2 }

abbrev pub first : World
first = waiting (new_world 4 5) 1

abbrev pub second : World
second = join_bridge first 1 got ann 0 (new_account_group ann) desk

abbrev pub third : World
third = waiting second 3

abbrev registered : Registered
registered = record { phone = mobile; bridge = some desk; is_ok = true }

abbrev pub fourth : World
fourth = join_phone third 3 got ann 0 (with_mobile, registered)

abbrev pub fifth : World
fifth = waiting fourth 5

first-Reach : Reach 4 5 first
unfolding lookup new_world arrive allow_connection new_rate_limiter insert ℕ_discrete check_groups
    allow_group count new_group_manager get_group get_or_create_group Text-discrete
first-Reach = waiting-Reach (new_world 4 5) 1 here refl refl refl

second-Reach : Reach 4 5 second
unfolding lookup new_world arrive allow_connection new_rate_limiter insert ℕ_discrete check_groups
    allow_group count new_group_manager get_group get_or_create_group Text-discrete join_bridge
    add_bridge change_bridges set_group group_at new_account_group same targets_of changes_of
second-Reach =
    next first-Reach (adds_bridge 1 got ann 0 (new_account_group ann) desk refl refl refl refl refl)

third-Reach : Reach 4 5 third
unfolding lookup new_world arrive allow_connection new_rate_limiter insert ℕ_discrete check_groups
    allow_group count new_group_manager get_group get_or_create_group Text-discrete join_bridge
    add_bridge change_bridges set_group group_at new_account_group same targets_of changes_of
third-Reach = waiting-Reach second 3 second-Reach refl refl refl

pub fourth-Reach : Reach 4 5 fourth
unfolding lookup new_world arrive allow_connection new_rate_limiter insert ℕ_discrete check_groups
    allow_group count new_group_manager get_group get_or_create_group Text-discrete join_bridge
    add_bridge change_bridges set_group group_at new_account_group same targets_of changes_of
    join_phone add_phone free_conn_id assign_conn_id following register target is_empty_text
    default_bridge latest_of newer is_later
fourth-Reach = next third-Reach (
    adds_phone 3 got ann 0 with_desk mobile (with_mobile, registered) refl refl refl refl refl refl)

pub fifth-Reach : Reach 4 5 fifth
unfolding lookup new_world arrive allow_connection new_rate_limiter insert ℕ_discrete check_groups
    allow_group count new_group_manager get_group get_or_create_group Text-discrete join_bridge
    add_bridge change_bridges set_group group_at new_account_group same targets_of changes_of
    join_phone
fifth-Reach = waiting-Reach fourth 5 fourth-Reach refl refl refl

-- The last world, written out.
abbrev pub settled : World
settled = record {
  limiter = record {
    max_per_ip = 4;
    max_rooms = 5;
    counts = (bytes "10.0.0.1", 3) ∷ [];
    rejected_connections = 0;
  };
  manager = record { groups = (ann, 0) ∷ []; heap = (0, with_mobile) ∷ []; next_ref = 1 };
  handlers =
      (1, at_stage near (bridge_serving ann 0 desk))
      ∷ (3, at_stage near (phone_serving ann 0 mobile))
      ∷ (5, got)
      ∷ [];
}

pub settled-Reach : Reach 4 5 settled
unfolding lookup new_world arrive allow_connection new_rate_limiter insert ℕ_discrete check_groups
    allow_group count new_group_manager get_group get_or_create_group Text-discrete join_bridge
    add_bridge change_bridges set_group group_at new_account_group same targets_of changes_of
    join_phone add_phone free_conn_id assign_conn_id following register target is_empty_text
    default_bridge latest_of newer is_later
settled-Reach = fifth-Reach
