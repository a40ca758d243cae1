-- ===== src/World/Overtaken.antt =====
-- internal/relay/handler.go: a notice is written after the lock of the group is released, so the
-- notices of two handlers may be written in the other order than their accesses to the group.
use sesori_relay_server.Prelude.{
  ℕ, ◌<◌, ◌≡◌, ◌≢◌, ◌∙◌, refl, sym, ap, inl, inr, arith, true, List, ◌++◌, Option, some, Text,
  Text-discrete, ℕ_discrete, length, Option-cases,
}
use sesori_relay_server.Prelude.Dict.{lookup, lookup-insert, lookup-delete_self}
use sesori_relay_server.AccountGroup.{
  Connection, AccountGroup, Registered, add_phone, max_phones_per_account, target, remove_bridge,
}
use sesori_relay_server.AccountGroup.Invariant.{
  IsValid, add_phone_total, with_phone, with_phone-IsValid, remove_bridge-IsValid,
}
use sesori_relay_server.AccountGroup.Methods.{remove_bridge_cases}
use sesori_relay_server.AccountGroup.Routing.{target-lookup, target-is_current}
use sesori_relay_server.Announce.{announce_target_changes}
use sesori_relay_server.Announce.Views.{phone_view, phone_view-append, name}
use sesori_relay_server.GroupManager.{group_at}
use sesori_relay_server.Handler.Effects.{Effect}
use sesori_relay_server.Handler.Lifecycle.{open_phone, opened_phone, sent}
use sesori_relay_server.Handler.Lifecycle.Phones.{phone_joined-phone_view, target-with_phone}
use sesori_relay_server.Handler.Phone.{phone_joined, phone_opened}
use sesori_relay_server.World.{
  Stage, Step, Handler, World, Reach, next, At, joining, phone_serving, bridge_serving, leaving,
  at_stage, stored, join_phone, withdraw_bridge, adds_phone, removes_bridge,
}
use sesori_relay_server.World.Drain.{Run, done, step}
use sesori_relay_server.World.Groups.{At-stage, Reach-Consistent}
use sesori_relay_server.World.Informed.{joining-IsFresh, bridge_leaves_informed}
use sesori_relay_server.World.Shared.{stages}
use sesori_relay_server.World.Shared.Store.{set_group-group_at}

-- A bridge that left is nobody's target, nor is another of its id.
left-target :
    (g : AccountGroup) (phone q b : Connection)
    → IsValid g
    → target g phone ≡ some b
    → name (target (remove_bridge g b).0 q) ≢ some b.bridge_id
left-target g phone q b v e named = elim (Option-cases (target (remove_bridge g b).0 q)) [
  | inl no_target ↦ ground arith
  | inr (c, is_target) ↦
      let found = target-lookup (remove_bridge g b).0 q c (remove_bridge-IsValid g b v) is_target in
      elim (remove_bridge_cases g b) [
        | inl (stale, _) ↦ ground (arith, target-is_current g phone b v e)
        | inr (_, removed) ↦ ground (
          arith,
          ap (λ r. r.0) removed,
          lookup-delete_self Text-discrete b.bridge_id g.bridges v.distinct_bridges,
        )
      ]
]

remove_bridge-phones : (g : AccountGroup) (b : Connection) → (remove_bridge g b).0.phones ≡ g.phones
remove_bridge-phones g b = elim (remove_bridge_cases g b) [
  | inl (_, stale) ↦ ap (λ r. r.0.phones) stale
  | inr (_, removed) ↦ ap (λ r. r.0.phones) removed
]

-- The handler at an address, from its stage.
stages-At :
    (w : World) (i : ℕ) (user_id : Text) (ref : ℕ) (b : Connection)
    → stages w.handlers i ≡ some (bridge_serving user_id ref b)
    → (h : Handler) × At w i h × (h.stage ≡ bridge_serving user_id ref b)
stages-At w i user_id ref b e = elim (Option-cases (lookup ℕ_discrete i w.handlers)) [
  | inl nothing ↦ absurd (ground arith)
  | inr (h, at) ↦ (h, at, ground arith)
]

-- A handler at `i` writes the group at `ref` back.
module _ (w : World) (i : ℕ) (h : Handler) (ref : ℕ) (g : AccountGroup) (stage : Stage) where
  stored-group_at : group_at (stored w i h ref g stage).manager ref ≡ some g
  stored-group_at = ground (arith, set_group-group_at w.manager ref ref g)

  stored-At_ne : (j : ℕ) (k : Handler) → j ≢ i → At w j k → At (stored w i h ref g stage) j k
  stored-At_ne j k ne at =
      ground (arith, lookup-insert ℕ_discrete i j (at_stage h stage) w.handlers)

module _ (limit rooms : ℕ) (w : World) (h : Handler) (user_id : Text) (ref : ℕ) (g : AccountGroup)
    (phone b : Connection) (r : Reach limit rooms w) (at : At w phone.ref h)
    (joins : h.stage ≡ joining user_id ref) (found : group_at w.manager ref ≡ some g)
    (targets : target g phone ≡ some b) where
  -- The phone is added under an id, and then the handler of its target removes the bridge.
  phone_then_bridge :
      (id : ℕ) (a : Registered)
      → a.is_ok ≡ true
      → add_phone g phone ≡ some (with_phone g phone id, a)
      → (t u : World) × Step w t
        × Step t u
        × (group_at t.manager ref ≡ some (with_phone g phone id))
        × (group_at u.manager ref ≡ some (remove_bridge (with_phone g phone id) b).0)
  unfolding withdraw_bridge join_phone
  phone_then_bridge id a ok added =
      let c = Reach-Consistent limit rooms r in
      let valid = c.well_formed.valid ref g found in
      let there = target-lookup g phone b valid targets in
      let stage = At-stage w phone.ref h (joining user_id ref) at joins in
      let (hb, at_b, serves) =
        stages-At w b.ref g.user_id ref b (c.bridges ref g b.bridge_id b found there) in
      let other = joining-IsFresh w ref g c phone user_id ref stage found b there in
      let g' = with_phone g phone id in
      let s = phone_serving user_id ref a.phone in
      let t = stored w phone.ref h ref g' s in
      let added_at : t ≡ join_phone w phone.ref h user_id ref (g', a) = rw ok refl in
      let here = stored-group_at w phone.ref h ref g' s in
      (
        t,
        withdraw_bridge t b.ref hb g.user_id ref g' b,
        adds_phone phone.ref h user_id ref g phone (g', a) at joins found refl added added_at,
        removes_bridge b.ref hb g.user_id ref g' b
            (stored-At_ne w phone.ref h ref g' s b.ref hb other at_b) serves here refl,
        here,
        stored-group_at t b.ref hb ref (remove_bridge g' b).0 (leaving g.user_id ref),
      )

  -- Whatever the phone believed, the notices of its handler tell it the bridge.
  learns_target :
      (id : ℕ) (x : Option Text)
      → let phone' : Connection = record phone { conn_id = id } in
        phone_view phone.ref x (sent (phone_joined phone' (target (with_phone g phone id) phone')))
        ≡ some b.bridge_id
  unfolding target
  learns_target id x =
      let c = Reach-Consistent limit rooms r in
      let valid = c.well_formed.valid ref g found in
      let stage = At-stage w phone.ref h (joining user_id ref) at joins in
      let fresh = joining-IsFresh w ref g c phone user_id ref stage found in
      let phone' : Connection = record phone { conn_id = id } in
      let same_target = target-with_phone g phone phone' id in
      phone_joined-phone_view phone' (target (with_phone g phone id) phone') x
        (λ a e. fresh a (target-lookup g phone' a valid (sym same_target ∙ e)))
      ∙ ap name (same_target ∙ targets)

  -- In every reachable world, let a handler that has got its group be about to add a phone to it,
  -- while the group is below its maximal number of phones and the phone's target in it is a bridge.
  -- Then the phone can be opened and the bridge's handler can remove the bridge in the next step;
  -- the phone stays registered, and its target is then not a bridge of this id. If the notices of
  -- the phone's handler are written before those of the bridge's handler, the phone knows the id of
  -- its target (or that it has none); if they are written after them, the phone believes that its
  -- target is the bridge that left.
  pub overtaken_notice :
      (v : Option Text)
      → length g.phones < max_phones_per_account
      → (g' : AccountGroup) × (added : Registered) × (es : List Effect) × (u : World) × (open_phone
            g phone
          ≡ some (g', added, es))
        × Run w u
        × (group_at u.manager ref ≡ some (remove_bridge g' b).0)
        × (lookup ℕ_discrete added.phone.conn_id (remove_bridge g' b).0.phones ≡ some added.phone)
        × (phone_view phone.ref v (sent es ++ announce_target_changes (remove_bridge g' b).2)
            ≡ name (target (remove_bridge g' b).0 added.phone))
        × (phone_view phone.ref v (announce_target_changes (remove_bridge g' b).2 ++ sent es)
            ≡ some b.bridge_id)
        × (name (target (remove_bridge g' b).0 added.phone) ≢ some b.bridge_id)
  unfolding open_phone phone_opened opened_phone target
  overtaken_notice v room =
      let valid = (Reach-Consistent limit rooms r).well_formed.valid ref g found in
      elim (add_phone_total g phone valid) [
        | inl (full, _) ↦ absurd (omega arith)
        | inr (id, _, range, free, added) ↦
            let phone' : Connection = record phone { conn_id = id } in
            let g' = with_phone g phone id in
            let valid' = with_phone-IsValid g phone id valid room range free in
            let is_target = target-with_phone g phone phone' id ∙ targets in
            let es = phone_joined phone' (target g' phone') in
            let notices = announce_target_changes (remove_bridge g' b).2 in
            let (t, u, first, second, joined, left) = phone_then_bridge id _ refl added in
            let known : lookup ℕ_discrete id g'.phones ≡ some phone' =
              ground (arith, lookup-insert ℕ_discrete id id phone' g.phones) in
            let told =
              (bridge_leaves_informed limit rooms t ref g' b phone' (next r first) joined
                known).0 in
            (
              g',
              record { phone = phone'; bridge = target g' phone'; is_ok = true },
              es,
              u,
              rw (added, open_phone) refl,
              step first (step second done),
              left,
              ap (λ ps. lookup ℕ_discrete id ps) (remove_bridge-phones g' b) ∙ known,
              phone_view-append phone.ref v (sent es) notices
                  ∙ ap (λ x. phone_view phone.ref x notices)
                      (learns_target id v ∙ sym (ap name is_target))
                  ∙ told,
              phone_view-append phone.ref v notices (sent es)
                  ∙ learns_target id (phone_view phone.ref v notices),
              left-target g' phone' phone' b valid' is_target,
            )
      ]
