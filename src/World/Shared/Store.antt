-- ===== src/World/Shared/Store.antt =====
-- internal/relay/handler.go: the steps that write a group back, by what they have in common.
use sesori_relay_server.Prelude.{
  ℕ, ◌≡◌, ◌⊎◌, ◌∙◌, refl, sym, ap, ite, false, arith, Option, some, Text, Text-discrete, ℕ_discrete,
}
use sesori_relay_server.Prelude.Dict.{lookup, lookup-insert}
use sesori_relay_server.AccountGroup.{Connection, AccountGroup, is_empty}
use sesori_relay_server.AccountGroup.Invariant.{IsValid}
use sesori_relay_server.GroupManager.{GroupManager, group_at, set_group, is_empty_at}
use sesori_relay_server.GroupManager.Invariant.{user_at, store-IsWellFormed}
use sesori_relay_server.World.{Stage, bridge_serving, phone_serving}
use sesori_relay_server.World.Shared.{Shared, update, grip, awaits}
use sesori_relay_server.World.Shared.Quiet.{awaits-grip}

pub set_group-group_at :
    (m : GroupManager) (r x : ℕ) (g : AccountGroup)
    → group_at (set_group m r g) x ≡ ite (ℕ_discrete x r) (some g) (group_at m x)
unfolding set_group group_at
set_group-group_at m r x g = lookup-insert ℕ_discrete r x g m.heap

set_group-groups :
    (m : GroupManager) (r : ℕ) (g : AccountGroup) → (set_group m r g).groups ≡ m.groups
unfolding set_group
set_group-groups m r g = refl

-- The group `g` at `r` becomes `g'`, and the handler `i`, which holds it, goes on to the stage `s`.
pub record Change (m : GroupManager) (f : ℕ → Option Stage) (i : ℕ) (u : Text) (r : ℕ)
    (g g' : AccountGroup) (s : Stage) : Type 0 where
  pub here : group_at m r ≡ some g
  pub old : grip (f i) ≡ some (u, r)
  pub new : grip (some s) ≡ some (u, r)
  pub user : g'.user_id ≡ g.user_id
  pub valid : IsValid g'
  pub bridges :
      (k : Text) (b : Connection)
      → lookup Text-discrete k g'.bridges ≡ some b
      → update f i (some s) b.ref ≡ some (bridge_serving g.user_id r b)
  pub phones :
      (k : ℕ) (p : Connection)
      → lookup ℕ_discrete k g'.phones ≡ some p
      → update f i (some s) p.ref ≡ some (phone_serving g.user_id r p)
  pub own_bridge : (b : Connection) → s ≡ bridge_serving u r b → b.ref ≡ i
  pub own_phone : (p : Connection) → s ≡ phone_serving u r p → p.ref ≡ i
  pub registered :
      (j : ℕ) (w : Text) (p : Connection)
      → update f i (some s) j ≡ some (phone_serving w r p)
      → lookup ℕ_discrete p.conn_id g'.phones ≡ some p
  pub awaited : (is_empty g' ≡ false) ⊎ (awaits (some s) ≡ some r)

module _ (m : GroupManager) (f : ℕ → Option Stage) (i : ℕ) (u : Text) (r : ℕ) (g g' : AccountGroup)
    (s : Stage) (v : Shared m f) (c : Change m f i u r g g' s) where
  user_at-set_group : (x : ℕ) → user_at (set_group m r g') x ≡ user_at m x
  user_at-set_group x = ground (arith, set_group-group_at m r x g', c.here, c.user)

  pub store-Shared : Shared (set_group m r g') (update f i (some s))
  unfolding is_empty_at
  store-Shared = record {
    well_formed = store-IsWellFormed m r g g' v.well_formed c.here c.user c.valid;
    holds =
        λ j w x e. user_at-set_group x ∙ ground (arith, v.holds j w x, v.holds i u r c.old, c.new);
    bridges = λ x h k b e found. elim (ℕ_discrete x r) [
      | yes same ↦
          let is : g' ≡ h = ground (arith, set_group-group_at m r x g') in
          let serves = c.bridges k b (ground arith) in ground (arith, serves, c.user)
      | no other ↦
          let served = v.bridges x h k b (ground (arith, set_group-group_at m r x g')) found in
          ground (arith, served, ap grip served, c.old)
    ];
    phones = λ x h k p e found. elim (ℕ_discrete x r) [
      | yes same ↦
          let is : g' ≡ h = ground (arith, set_group-group_at m r x g') in
          let serves = c.phones k p (ground arith) in ground (arith, serves, c.user)
      | no other ↦
          let served = v.phones x h k p (ground (arith, set_group-group_at m r x g')) found in
          ground (arith, served, ap grip served, c.old)
    ];
    own_bridge =
        λ j w x b e. ground (arith, v.own_bridge j w x b, c.own_bridge b, c.new, ap grip e);
    own_phone = λ j w x p e. ground (arith, v.own_phone j w x p, c.own_phone p, c.new, ap grip e);
    registered = λ j w x p e. elim (ℕ_discrete x r) [
      | yes same ↦ ground (arith, set_group-group_at m r x g', c.registered j w p, ap grip e)
      | no other ↦
          ground (arith, set_group-group_at m r x g', v.registered j w x p, c.new, ap grip e)
    ];
    awaited = λ w x e empty. elim (ℕ_discrete x r) [
      | yes same ↦ (i, ground (arith, set_group-group_at m r x g', c.awaited))
      | no other ↦
          let (j, waits) =
            v.awaited w x (sym (ap (λ d. lookup Text-discrete w d) (set_group-groups m r g')) ∙ e)
              (ground (arith, set_group-group_at m r x g')) in
          (j, ground (arith, awaits-grip (f i) u r x c.old))
    ];
  }
