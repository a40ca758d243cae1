-- ===== src/World/Live.antt =====
-- internal/relay/handler.go and group_manager.go: what `HasLiveBridgeWithID` says, under every
-- interleaving.
use sesori_relay_server.Prelude.{
  ℕ, ◌≡◌, ◌∙◌, sym, ap, subst, inl, inr, arith, true, some, Text, Text-discrete, Option-cases,
}
use sesori_relay_server.Prelude.Dict.{lookup, Entries-lookup}
use sesori_relay_server.AccountGroup.{Connection, AccountGroup, same}
use sesori_relay_server.AccountGroup.Default.{HasKey}
use sesori_relay_server.GroupManager.{GroupManager, group_at, has_live_bridge_with_id, has_bridge}
use sesori_relay_server.GroupManager.Invariant.{user_of}
use sesori_relay_server.World.{World, bridge_serving, Reach}
use sesori_relay_server.World.Groups.{Reach-Consistent}
use sesori_relay_server.World.Shared.{stages}

-- A connection of the bridge id is registered in the group of the user.
abbrev Registered : GroupManager → Text → Text → Connection → Type 0
Registered m user_id bridge_id b =
    (ref : ℕ) × (g : AccountGroup) × (lookup Text-discrete user_id m.groups ≡ some ref)
    × (group_at m ref ≡ some g)
    × (lookup Text-discrete bridge_id g.bridges ≡ some b)

has_live_bridge_with_id-Registered :
    (m : GroupManager) (user_id bridge_id : Text)
    → has_live_bridge_with_id m user_id bridge_id ≡ true
    → (b : Connection) × Registered m user_id bridge_id b
unfolding has_live_bridge_with_id has_bridge same
has_live_bridge_with_id-Registered m user_id bridge_id e =
    elim (Option-cases (lookup Text-discrete user_id m.groups)) [
      | inl unknown ↦ absurd (ground arith)
      | inr (ref, known) ↦ elim (Option-cases (group_at m ref)) [
        | inl gone ↦ absurd (ground arith)
        | inr (g, found) ↦ elim (Option-cases (lookup Text-discrete bridge_id g.bridges)) [
          | inl away ↦ absurd (ground arith)
          | inr (b, there) ↦ (b, (ref, g, known, found, there))
        ]
      ]
    ]

-- In every reachable world, if HasLiveBridgeWithID says that a bridge id of a user is live, then a
-- handler serves a bridge connection of this id for this user, in the group that the manager has
-- registered for the user.
pub live_bridge_served :
    (limit rooms : ℕ) (w : World) (user_id bridge_id : Text)
    → Reach limit rooms w
    → has_live_bridge_with_id w.manager user_id bridge_id ≡ true
    → (b : Connection) × (ref : ℕ) × (b.bridge_id ≡ bridge_id)
      × (lookup Text-discrete user_id w.manager.groups ≡ some ref)
      × (stages w.handlers b.ref ≡ some (bridge_serving user_id ref b))
live_bridge_served limit rooms w user_id bridge_id r e =
    let c = Reach-Consistent limit rooms r in
    let (b, (ref, g, known, found, there)) =
      has_live_bridge_with_id-Registered w.manager user_id bridge_id e in
    let v = c.well_formed.valid ref g found in
    let owner : some g.user_id ≡ some user_id =
      ap user_of (sym found) ∙ c.well_formed.registered user_id ref known in
    let same_user : g.user_id ≡ user_id = ground arith in
    (
      b,
      ref,
      Entries-lookup Text-discrete HasKey bridge_id b g.bridges v.bridge_keys there,
      known,
      subst (λ u. stages w.handlers b.ref ≡ some (bridge_serving u ref b)) same_user
          (c.bridges ref g bridge_id b found there),
    )
