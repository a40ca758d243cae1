-- ===== src/World/Shared.antt =====
-- internal/relay/handler.go: what the manager's groups say about the stages of the handlers, and the
-- stages about the groups.
pub mod Quiet
pub mod Store
pub mod Joins
pub mod Leaves
use sesori_relay_server.Prelude.{
  ℕ, ◌≡◌, refl, sym, subst, ite, true, arith, [], Option, none, some, Text, Text-discrete,
  ℕ_discrete, fun_ext,
}
use sesori_relay_server.Prelude.Dict.{
  Dict, Distinct, lookup, insert, delete, lookup-insert, lookup-delete_self, lookup-delete_ne,
}
use sesori_relay_server.AccountGroup.{Connection, AccountGroup}
use sesori_relay_server.GroupManager.{GroupManager, group_at, is_empty_at, new_group_manager}
use sesori_relay_server.GroupManager.Invariant.{
  IsWellFormed, user_at, new_group_manager-IsWellFormed,
}
use sesori_relay_server.World.{
  Stage, admitted, checked, joining, bridge_serving, phone_serving, leaving, ending, Handler,
}

abbrev pub stage_of : Option Handler → Option Stage
stage_of none = none
stage_of (some h) = some h.stage

-- The stage of the handler at an address, `none` where there is none.
abbrev pub stages : Dict ℕ Handler → ℕ → Option Stage
stages hs i = stage_of (lookup ℕ_discrete i hs)

abbrev pub update : (ℕ → Option Stage) → ℕ → Option Stage → ℕ → Option Stage
update f i o j = ite (ℕ_discrete j i) o (f j)

pub stages-insert :
    (i : ℕ) (h : Handler) (hs : Dict ℕ Handler)
    → stages (insert ℕ_discrete i h hs) ≡ update (stages hs) i (some h.stage)
stages-insert i h hs = fun_ext (λ j. ground (arith, lookup-insert ℕ_discrete i j h hs))

pub stages-delete :
    (i : ℕ) (hs : Dict ℕ Handler)
    → Distinct ℕ_discrete hs
    → stages (delete ℕ_discrete i hs) ≡ update (stages hs) i none
stages-delete i hs d =
    fun_ext (λ j.
      ground (arith, lookup-delete_self ℕ_discrete i hs d, lookup-delete_ne ℕ_discrete i j hs))

-- The user and the group that a handler holds.
abbrev pub grip : Option Stage → Option (Text × ℕ)
grip none = none
grip (some admitted) = none
grip (some checked) = none
grip (some (joining user_id ref)) = some (user_id, ref)
grip (some (bridge_serving user_id ref _)) = some (user_id, ref)
grip (some (phone_serving user_id ref _)) = some (user_id, ref)
grip (some (leaving user_id ref)) = some (user_id, ref)
grip (some ending) = none

-- The group that a handler will fill or collect: it holds the group with no connection in it.
abbrev pub awaits : Option Stage → Option ℕ
awaits none = none
awaits (some admitted) = none
awaits (some checked) = none
awaits (some (joining _ ref)) = some ref
awaits (some (bridge_serving _ _ _)) = none
awaits (some (phone_serving _ _ _)) = none
awaits (some (leaving _ ref)) = some ref
awaits (some ending) = none

abbrev phone_in : Option AccountGroup → ℕ → Option Connection
phone_in none id = none
phone_in (some g) id = lookup ℕ_discrete id g.phones

-- The phone that is registered under an id in the group at an address.
abbrev pub phone_at : GroupManager → ℕ → ℕ → Option Connection
phone_at m ref id = phone_in (group_at m ref) id

pub record Shared (m : GroupManager) (f : ℕ → Option Stage) : Type 0 where
  pub well_formed : IsWellFormed m
  -- The group that a handler holds exists and is one of its user.
  pub holds : (i : ℕ) (u : Text) (r : ℕ) → grip (f i) ≡ some (u, r) → user_at m r ≡ some u
  -- A registered connection belongs to a handler that serves it, for the user of the group.
  pub bridges :
      (r : ℕ) (g : AccountGroup) (k : Text) (b : Connection)
      → group_at m r ≡ some g
      → lookup Text-discrete k g.bridges ≡ some b
      → f b.ref ≡ some (bridge_serving g.user_id r b)
  pub phones :
      (r : ℕ) (g : AccountGroup) (k : ℕ) (p : Connection)
      → group_at m r ≡ some g
      → lookup ℕ_discrete k g.phones ≡ some p
      → f p.ref ≡ some (phone_serving g.user_id r p)
  -- A handler serves its own connection.
  pub own_bridge :
      (i : ℕ) (u : Text) (r : ℕ) (b : Connection) → f i ≡ some (bridge_serving u r b) → b.ref ≡ i
  pub own_phone :
      (i : ℕ) (u : Text) (r : ℕ) (p : Connection) → f i ≡ some (phone_serving u r p) → p.ref ≡ i
  -- A phone that is served is registered under its id.
  pub registered :
      (i : ℕ) (u : Text) (r : ℕ) (p : Connection)
      → f i ≡ some (phone_serving u r p)
      → phone_at m r p.conn_id ≡ some p
  -- A group that the manager has and that is empty is about to be filled or collected.
  pub awaited :
      (u : Text) (r : ℕ)
      → lookup Text-discrete u m.groups ≡ some r
      → is_empty_at m r ≡ true
      → (i : ℕ) × (awaits (f i) ≡ some r)

pub new-Shared : Shared new_group_manager (stages [])
unfolding new_group_manager lookup group_at
new-Shared = record {
  well_formed = new_group_manager-IsWellFormed;
  holds = λ i u r e. cc;
  bridges = λ r g k b e. absurd (cc);
  phones = λ r g k p e. absurd (cc);
  own_bridge = λ i u r b e. absurd (cc);
  own_phone = λ i u r p e. absurd (cc);
  registered = λ i u r p e. absurd (cc);
  awaited = λ u r e. absurd (cc);
}
