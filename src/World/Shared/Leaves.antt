-- ===== src/World/Shared/Leaves.antt =====
-- internal/relay/handler.go: `RemoveBridge`, `RemovePhone` and `RemoveGroupIfEmpty` of a handler.
use sesori_relay_server.Prelude.{
  ℕ, ◌≡◌, ◌∙◌, refl, sym, ap, subst, false, arith, inl, inr, Option, some, Text, Text-discrete,
  ℕ_discrete,
}
use sesori_relay_server.Prelude.Dict.{
  lookup, delete, lookup-delete_self, lookup-delete_ne, Entries-lookup,
}
use sesori_relay_server.AccountGroup.{
  Connection, AccountGroup, remove_bridge, remove_phone, is_current_bridge,
}
use sesori_relay_server.AccountGroup.Default.{HasKey}
use sesori_relay_server.AccountGroup.Invariant.{
  HasId, IsValid, remove_bridge-IsValid, remove_phone-IsValid,
}
use sesori_relay_server.AccountGroup.Methods.{remove_bridge_cases, without_bridge}
use sesori_relay_server.AccountGroup.Routing.{same_self}
use sesori_relay_server.GroupManager.{
  GroupManager, group_at, set_group, is_empty_at, remove_group_if_empty,
}
use sesori_relay_server.GroupManager.Invariant.{
  IsWellFormed, user_at, without_user, remove_group_if_empty_cases,
  remove_group_if_empty-IsWellFormed,
}
use sesori_relay_server.World.{Stage, ending, leaving, bridge_serving, phone_serving}
use sesori_relay_server.World.Shared.{Shared, update}
use sesori_relay_server.World.Shared.Quiet.{ending-Shared}
use sesori_relay_server.World.Shared.Store.{Change, store-Shared}

module _ (m : GroupManager) (f : ℕ → Option Stage) (i : ℕ) (u : Text) (r : ℕ) (g : AccountGroup)
    (c : Connection) (v : Shared m f) (here : group_at m r ≡ some g) where
  -- The only entry of a bridge's handler is under its own id.
  own_key :
      (k : Text) (b : Connection)
      → f i ≡ some (bridge_serving u r c)
      → lookup Text-discrete k g.bridges ≡ some b
      → b.ref ≡ i
      → (b ≡ c) × (k ≡ c.bridge_id)
  own_key k b at found ref =
      let served = v.bridges r g k b here found in
      let is_own : b ≡ c = ground arith in
      let valid = v.well_formed.valid r g here in
      let key = Entries-lookup Text-discrete HasKey k b g.bridges valid.bridge_keys found in
      (is_own, ground arith)

  without_bridge-Change :
      f i ≡ some (bridge_serving u r c)
      → (remove_bridge g c).0 ≡ without_bridge g c
      → Change m f i u r g (without_bridge g c) (leaving u r)
  without_bridge-Change at removed =
      let valid = v.well_formed.valid r g here in
      let gone = lookup-delete_self Text-discrete c.bridge_id g.bridges valid.distinct_bridges in
      record {
        here = here;
        old = ground arith;
        new = refl;
        user = refl;
        valid = subst IsValid removed (remove_bridge-IsValid g c valid);
        bridges = λ k b e. elim (Text-discrete k c.bridge_id) [
          | yes same ↦ absurd (ground arith)
          | no other ↦
              let found : lookup Text-discrete k g.bridges ≡ some b =
                ground (arith, lookup-delete_ne Text-discrete c.bridge_id k g.bridges) in
              ground (arith, own_key k b at found, v.bridges r g k b here found)
        ];
        phones = λ k p e. ground (arith, v.phones r g k p here e);
        own_bridge = λ b e. cc;
        own_phone = λ p e. cc;
        registered = λ j w p e. ground (arith, v.registered j w r p);
        awaited = inr refl;
      }

  stale-Change :
      f i ≡ some (bridge_serving u r c)
      → is_current_bridge g c ≡ false
      → Change m f i u r g g (leaving u r)
  unfolding is_current_bridge
  stale-Change at stale = record {
    here = here;
    old = ground arith;
    new = refl;
    user = refl;
    valid = v.well_formed.valid r g here;
    bridges = λ k b e. ground (arith, own_key k b at e, v.bridges r g k b here e, same_self c);
    phones = λ k p e. ground (arith, v.phones r g k p here e);
    own_bridge = λ b e. cc;
    own_phone = λ p e. cc;
    registered = λ j w p e. ground (arith, v.registered j w r p);
    awaited = inr refl;
  }

  pub remove_bridge-Shared :
      f i ≡ some (bridge_serving u r c)
      → Shared (set_group m r (remove_bridge g c).0) (update f i (some (leaving u r)))
  remove_bridge-Shared at = elim (remove_bridge_cases g c) [
    | inl (stale, kept) ↦
        rw kept (store-Shared m f i u r g g (leaving u r) v (stale-Change at stale))
    | inr (_, removed) ↦ rw removed (
        store-Shared m f i u r g (without_bridge g c) (leaving u r) v
          (without_bridge-Change at (ap (λ x. x.0) removed)))
  ]

  remove_phone-Change :
      f i ≡ some (phone_serving u r c) → Change m f i u r g (remove_phone g c).0 (leaving u r)
  unfolding remove_phone
  remove_phone-Change at =
      let valid = v.well_formed.valid r g here in
      let gone = lookup-delete_self ℕ_discrete c.conn_id g.phones valid.distinct_phones in
      record {
        here = here;
        old = ground arith;
        new = refl;
        user = refl;
        valid = remove_phone-IsValid g c valid;
        bridges = λ k b e. ground (arith, v.bridges r g k b here e);
        phones = λ k p e. elim (ℕ_discrete k c.conn_id) [
          | yes same ↦ absurd (ground arith)
          | no other ↦
              let found : lookup ℕ_discrete k g.phones ≡ some p =
                ground (arith, lookup-delete_ne ℕ_discrete c.conn_id k g.phones) in
              let key = Entries-lookup ℕ_discrete HasId k p g.phones valid.phone_ids found in
              ground (arith, v.phones r g k p here found)
        ];
        own_bridge = λ b e. cc;
        own_phone = λ p e. cc;
        registered = λ j w p e. ground (
          arith,
          v.registered j w r p,
          v.registered i u r c at,
          v.own_phone i u r c at,
          v.own_phone j w r p,
          lookup-delete_ne ℕ_discrete c.conn_id p.conn_id g.phones,
        );
        awaited = inr refl;
      }

  pub remove_phone-Shared :
      f i ≡ some (phone_serving u r c)
      → Shared (set_group m r (remove_phone g c).0) (update f i (some (leaving u r)))
  remove_phone-Shared at =
      store-Shared m f i u r g (remove_phone g c).0 (leaving u r) v (remove_phone-Change at)

without_user-Shared :
    (m : GroupManager) (f : ℕ → Option Stage) (u : Text)
    → Shared m f
    → IsWellFormed (without_user m u)
    → Shared (without_user m u) f
unfolding group_at is_empty_at
without_user-Shared m f u v well_formed = record {
  well_formed = well_formed;
  holds = v.holds;
  bridges = v.bridges;
  phones = v.phones;
  own_bridge = v.own_bridge;
  own_phone = v.own_phone;
  registered = v.registered;
  awaited = λ w x e empty. elim (Text-discrete w u) [
    | yes same ↦ absurd (
        ground (
          arith,
          lookup-delete_self Text-discrete u m.groups v.well_formed.distinct,
          ap (λ k. lookup Text-discrete k (delete Text-discrete u m.groups)) same,
        ))
    | no other ↦ v.awaited w x (sym (lookup-delete_ne Text-discrete u w m.groups other) ∙ e) empty
  ];
}

pub collect-Shared :
    (m : GroupManager) (f : ℕ → Option Stage) (i : ℕ) (u : Text) (r : ℕ)
    → Shared m f
    → f i ≡ some (leaving u r)
    → Shared (remove_group_if_empty m u r) (update f i (some ending))
unfolding group_at
collect-Shared m f i u r v at =
    let owner : user_at m r ≡ some u = v.holds i u r (ground arith) in
    elim (remove_group_if_empty_cases m u r) [
      | inl (_, dropped) ↦
          let well_formed =
            subst IsWellFormed dropped (remove_group_if_empty-IsWellFormed m u r v.well_formed) in
          rw dropped (
            ending-Shared (without_user m u) f i u r (without_user-Shared m f u v well_formed)
              (ground arith) (ground arith)
              (λ w e _.
                let user : user_at m r ≡ some w = well_formed.registered w r e in
                let is_user : w ≡ u = ground arith in
                let gone = lookup-delete_self Text-discrete u m.groups v.well_formed.distinct in
                ground (
                  arith,
                  ap (λ k. lookup Text-discrete k (delete Text-discrete u m.groups)) is_user,
                )))
      | inr (keeps, kept) ↦ rw kept (
          ending-Shared m f i u r v (ground arith) (ground arith) (λ w e empty.
            let user : user_at m r ≡ some w = v.well_formed.registered w r e in
            let is_user : w ≡ u = ground arith in
            keeps (sym (ap (λ k. lookup Text-discrete k m.groups) is_user) ∙ e, empty)))
    ]
