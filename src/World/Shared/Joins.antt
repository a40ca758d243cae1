-- ===== src/World/Shared/Joins.antt =====
-- internal/relay/handler.go: `AddBridge` and `AddPhone` of a handler that got its group.
use sesori_relay_server.Prelude.{
  ℕ, ◌≡◌, refl, ◌<◌, subst, true, false, arith, inl, inr, Option, none, some, Text, Text-discrete,
  ℕ_discrete, length,
}
use sesori_relay_server.Prelude.Dict.{lookup, lookup-insert, insert_not_empty}
use sesori_relay_server.AccountGroup.{
  Connection, AccountGroup, Registered, is_empty, add_bridge, add_phone, max_phones_per_account,
}
use sesori_relay_server.AccountGroup.ConnIds.{IsConnId}
use sesori_relay_server.AccountGroup.Invariant.{
  IsValid, add_bridge-IsValid, add_phone_total, with_phone, with_phone-IsValid,
}
use sesori_relay_server.AccountGroup.Methods.{add_bridge_cases, with_bridge}
use sesori_relay_server.GroupManager.{GroupManager, group_at, set_group, is_empty_at}
use sesori_relay_server.World.{Stage, ending, joining, bridge_serving, phone_serving}
use sesori_relay_server.World.Shared.{Shared, update}
use sesori_relay_server.World.Shared.Quiet.{ending-Shared}
use sesori_relay_server.World.Shared.Store.{Change, store-Shared}

pub with_bridge_not_empty : (g : AccountGroup) (b : Connection) → is_empty (with_bridge g b) ≡ false
unfolding is_empty
with_bridge_not_empty g b = ground (arith, insert_not_empty Text-discrete b.bridge_id b g.bridges)

pub with_phone_not_empty :
    (g : AccountGroup) (p : Connection) (id : ℕ) → is_empty (with_phone g p id) ≡ false
unfolding is_empty
with_phone_not_empty g p id =
    ground (arith, insert_not_empty ℕ_discrete id (record p { conn_id = id }) g.phones)

pub accepted_bridge :
    (g : AccountGroup) (b : Connection)
    → (add_bridge g b).1.is_ok ≡ true
    → (add_bridge g b).0 ≡ with_bridge g b
accepted_bridge g b ok = elim (add_bridge_cases g b) [
  | inl (_, _, refused) ↦ absurd (ground arith)
  | inr (_, added) ↦ rw added refl
]

module _ (m : GroupManager) (f : ℕ → Option Stage) (i : ℕ) (u : Text) (r : ℕ) (g : AccountGroup)
    (c : Connection) (v : Shared m f) (at : f i ≡ some (joining u r)) (here : group_at m r ≡ some g)
    (own : c.ref ≡ i) where
  pub user_of_joining : g.user_id ≡ u
  user_of_joining = ground (arith, v.holds i u r)

  with_bridge-Change :
      (add_bridge g c).1.is_ok ≡ true → Change m f i u r g (with_bridge g c) (bridge_serving u r c)
  with_bridge-Change ok = record {
    here = here;
    old = ground arith;
    new = refl;
    user = refl;
    valid =
        subst IsValid (accepted_bridge g c ok)
          (add_bridge-IsValid g c (v.well_formed.valid r g here));
    bridges = λ k b e. elim (Text-discrete k c.bridge_id) [
      | yes same ↦
          ground (arith, lookup-insert Text-discrete c.bridge_id k c g.bridges, user_of_joining)
      | no other ↦
          ground
            (arith, lookup-insert Text-discrete c.bridge_id k c g.bridges, v.bridges r g k b here)
    ];
    phones = λ k p e. ground (arith, v.phones r g k p here e);
    own_bridge = λ b e. ground arith;
    own_phone = λ p e. cc;
    registered = λ j w p e. ground (arith, v.registered j w r p);
    awaited = inl (with_bridge_not_empty g c);
  }

  with_phone-Change :
      (id : ℕ)
      → length g.phones < max_phones_per_account
      → IsConnId id
      → lookup ℕ_discrete id g.phones ≡ none
      → Change m f i u r g (with_phone g c id) (phone_serving u r (record c { conn_id = id }))
  with_phone-Change id room range free =
      let c' : Connection = record c { conn_id = id } in
      record {
        here = here;
        old = ground arith;
        new = refl;
        user = refl;
        valid = with_phone-IsValid g c id (v.well_formed.valid r g here) room range free;
        bridges = λ k b e. ground (arith, v.bridges r g k b here e);
        phones = λ k p e. elim (ℕ_discrete k id) [
          | yes same ↦ ground (arith, lookup-insert ℕ_discrete id k c' g.phones, user_of_joining)
          | no other ↦
              ground (arith, lookup-insert ℕ_discrete id k c' g.phones, v.phones r g k p here)
        ];
        own_bridge = λ b e. cc;
        own_phone = λ p e. ground arith;
        registered = λ j w p e. elim (ℕ_discrete j i) [
          | yes same ↦ ground (arith, lookup-insert ℕ_discrete id p.conn_id c' g.phones)
          | no other ↦
              ground
                (arith, lookup-insert ℕ_discrete id p.conn_id c' g.phones, v.registered j w r p)
        ];
        awaited = inl (with_phone_not_empty g c id);
      }

  pub add_bridge-Shared :
      (add_bridge g c).1.is_ok ≡ true
      → Shared (set_group m r (add_bridge g c).0) (update f i (some (bridge_serving u r c)))
  add_bridge-Shared ok =
      rw (accepted_bridge g c ok) (
        store-Shared m f i u r g (with_bridge g c) (bridge_serving u r c) v (with_bridge-Change ok))

  -- A refused bridge found the account full.
  pub refused_bridge-Shared : (add_bridge g c).1.is_ok ≡ false → Shared m (update f i (some ending))
  unfolding is_empty_at is_empty
  refused_bridge-Shared refused = elim (add_bridge_cases g c) [
    | inl (_, full, _) ↦
        ending-Shared m f i u r v (ground arith) (ground arith) (λ w e empty. ground arith)
    | inr (_, added) ↦ absurd (ground arith)
  ]

  pub add_phone-Shared :
      (h : AccountGroup) (a : Registered)
      → add_phone g c ≡ some (h, a)
      → a.is_ok ≡ true
      → Shared (set_group m r h) (update f i (some (phone_serving u r a.phone)))
  add_phone-Shared h a result ok = elim (add_phone_total g c (v.well_formed.valid r g here)) [
    | inl (_, refused) ↦ absurd (ground arith)
    | inr (id, room, range, free, added) ↦
        let is_group : with_phone g c id ≡ h = ground arith in
        let is_phone : record c { conn_id = id } ≡ a.phone = ground arith in
        subst (λ x. Shared (set_group m r x) (update f i (some (phone_serving u r a.phone))))
          is_group
          (subst
            (λ x.
              Shared (set_group m r (with_phone g c id)) (update f i (some (phone_serving u r x))))
            is_phone
            (store-Shared m f i u r g (with_phone g c id)
              (phone_serving u r (record c { conn_id = id })) v
              (with_phone-Change id room range free)))
  ]

  pub refused_phone-Shared :
      (h : AccountGroup) (a : Registered)
      → add_phone g c ≡ some (h, a)
      → a.is_ok ≡ false
      → Shared m (update f i (some ending))
  unfolding is_empty_at is_empty
  refused_phone-Shared h a result refused =
      elim (add_phone_total g c (v.well_formed.valid r g here)) [
        | inl (full, _) ↦
            ending-Shared m f i u r v (ground arith) (ground arith) (λ w e empty. ground arith)
        | inr (id, _, _, _, added) ↦ absurd (ground arith)
      ]
