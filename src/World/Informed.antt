-- ===== src/World/Informed.antt =====
-- internal/relay/handler.go: what peers learn from the notices of a handler, under every interleaving.
use sesori_relay_server.Prelude.{
  ℕ, ◌≡◌, ◌≢◌, refl, ap, inl, inr, arith, List, [], ◌∷◌, Option, some, Text, Text-discrete,
  ℕ_discrete, ◌<◌, length, false,
}
use sesori_relay_server.Prelude.Dict.{lookup, values}
use sesori_relay_server.AccountGroup.{
  Connection, AccountGroup, Registered, max_phones_per_account, same, target, add_bridge,
  remove_bridge, all_phones,
}
use sesori_relay_server.AccountGroup.Routing.{Within, Within-lookup}
use sesori_relay_server.Announce.{announce_target_changes}
use sesori_relay_server.Announce.Bridges.{
  DistinctIds, values-DistinctIds, add_bridge-bridge_view, remove_bridge-bridge_view,
}
use sesori_relay_server.Announce.Phones.{
  DistinctRefs, Coherent, IsFresh, add_bridge-phone_view, remove_bridge-phone_view,
}
use sesori_relay_server.Announce.Views.{phone_view, bridge_view, name}
use sesori_relay_server.GroupManager.{group_at}
use sesori_relay_server.Handler.Effects.{Effect}
use sesori_relay_server.Handler.Lifecycle.{open_phone, sent}
use sesori_relay_server.Handler.Lifecycle.Phones.{open_phone-views}
use sesori_relay_server.World.{Handler, World, joining, Reach, At}
use sesori_relay_server.World.Groups.{At-stage, Reach-Consistent, Consistent}
use sesori_relay_server.World.Shared.{stages}

-- Phones that are told apart by their ids, and whose handlers are at different addresses.
DistinctIds-DistinctRefs :
    (ps : List Connection)
    → DistinctIds ps
    → ((p q : Connection) → Within p ps → Within q ps → q.ref ≡ p.ref → q ≡ p)
    → DistinctRefs ps
DistinctIds-DistinctRefs [] d one = tt
DistinctIds-DistinctRefs (p ∷ ps) d one = (
  λ q w e. d.0 q w (ap (λ c. c.conn_id) (one p q (inl refl) (inr w) e)),
  DistinctIds-DistinctRefs ps d.1 (λ p' q v w. one p' q (inr v) (inr w)),
)

module _ (w : World) (ref : ℕ) (g : AccountGroup) (c : Consistent w) where
  pub phones_distinct : group_at w.manager ref ≡ some g → DistinctRefs (all_phones g)
  unfolding all_phones
  phones_distinct found =
      let v = c.well_formed.valid ref g found in
      let found_in =
        λ (p : Connection). (Within-lookup p g.phones v.distinct_phones v.phone_ids).0 in
      DistinctIds-DistinctRefs (values g.phones)
        (values-DistinctIds g.phones v.distinct_phones v.phone_ids)
        (λ p q a b e.
          let mine = c.phones ref g p.conn_id p found (found_in p a) in
          let yours = c.phones ref g q.conn_id q found (found_in q b) in
          ground (arith, ap (stages w.handlers) e))

  pub bridges-Coherent : group_at w.manager ref ≡ some g → Coherent g.bridges g.bridges
  bridges-Coherent found a b at_a at_b e =
      let mine = c.bridges ref g a.bridge_id a found at_a in
      let yours = c.bridges ref g b.bridge_id b found at_b in
      ground (arith, ap (stages w.handlers) e)

  -- A handler that is still joining has no bridge in the group.
  pub joining-IsFresh :
      (bridge : Connection) (user_id : Text) (at : ℕ)
      → stages w.handlers bridge.ref ≡ some (joining user_id at)
      → group_at w.manager ref ≡ some g
      → IsFresh bridge g.bridges
  joining-IsFresh bridge user_id at stage found a at_a e =
      let mine = c.bridges ref g a.bridge_id a found at_a in
      ground (arith, ap (stages w.handlers) e)

-- In every reachable world, let a handler that has got its group add a bridge to it. A registered
-- phone that knew the id of its target before (or that it had none), and a bridge that is
-- registered afterwards and that knew whether this phone talked to it, know from the notices of
-- announceTargetChanges what holds in the new group.
pub bridge_joins_informed :
    (limit rooms : ℕ) (w : World) (h : Handler) (user_id : Text) (ref : ℕ) (g : AccountGroup)
    (bridge phone : Connection)
    → Reach limit rooms w
    → At w bridge.ref h
    → h.stage ≡ joining user_id ref
    → group_at w.manager ref ≡ some g
    → lookup ℕ_discrete phone.conn_id g.phones ≡ some phone
    → let (g', added) = add_bridge g bridge in
      let notices = announce_target_changes added.changes in
      (phone_view phone.ref (name (target g phone)) notices ≡ name (target g' phone))
      × ((b : Connection)
          → lookup Text-discrete b.bridge_id g'.bridges ≡ some b
          → bridge_view b.ref phone.conn_id (same (target g phone) (some b)) notices
            ≡ same (target g' phone) (some b))
unfolding all_phones
bridge_joins_informed limit rooms w h user_id ref g bridge phone r at e found known =
    let c = Reach-Consistent limit rooms r in
    let v = c.well_formed.valid ref g found in
    let stage = At-stage w bridge.ref h (joining user_id ref) at e in
    let coherent = bridges-Coherent w ref g c found in
    let fresh = joining-IsFresh w ref g c bridge user_id ref stage found in
    let within = (Within-lookup phone g.phones v.distinct_phones v.phone_ids).1 known in
    (
      add_bridge-phone_view g bridge phone v (phones_distinct w ref g c found) coherent fresh
          within,
      λ b there. add_bridge-bridge_view g bridge phone b v coherent fresh within there,
    )

-- In every reachable world, let a bridge be removed from an existing group by RemoveBridge. A
-- registered phone that knew the id of its target before (or that it had none), and a bridge that
-- is still registered and that knew whether this phone talked to it, know from the notices of
-- announceTargetChanges what holds in the new group.
pub bridge_leaves_informed :
    (limit rooms : ℕ) (w : World) (ref : ℕ) (g : AccountGroup) (bridge phone : Connection)
    → Reach limit rooms w
    → group_at w.manager ref ≡ some g
    → lookup ℕ_discrete phone.conn_id g.phones ≡ some phone
    → let (g', _, changes) = remove_bridge g bridge in
      let notices = announce_target_changes changes in
      (phone_view phone.ref (name (target g phone)) notices ≡ name (target g' phone))
      × ((b : Connection)
          → lookup Text-discrete b.bridge_id g'.bridges ≡ some b
          → bridge_view b.ref phone.conn_id (same (target g phone) (some b)) notices
            ≡ same (target g' phone) (some b))
unfolding all_phones
bridge_leaves_informed limit rooms w ref g bridge phone r found known =
    let c = Reach-Consistent limit rooms r in
    let v = c.well_formed.valid ref g found in
    let coherent = bridges-Coherent w ref g c found in
    let within = (Within-lookup phone g.phones v.distinct_phones v.phone_ids).1 known in
    (
      remove_bridge-phone_view g bridge phone v (phones_distinct w ref g c found) coherent within,
      λ b there. remove_bridge-bridge_view g bridge phone b v coherent within there,
    )

-- In every reachable world, let a handler that has got its group open a phone in it, while the
-- group is below its maximal number of phones. Then the opening returns, and the phone is
-- registered under its new id; whatever it knew before, its notices tell it the id of its target
-- (or that it has none); every registered bridge that took the new id for unused knows whether the
-- phone talks to it; and what any other connection knows of its target, and this target itself,
-- stay.
pub phone_joins_informed :
    (limit rooms : ℕ) (w : World) (h : Handler) (user_id : Text) (ref : ℕ) (g : AccountGroup)
    (phone : Connection) (v : Option Text)
    → Reach limit rooms w
    → At w phone.ref h
    → h.stage ≡ joining user_id ref
    → group_at w.manager ref ≡ some g
    → length g.phones < max_phones_per_account
    → (g' : AccountGroup) × (added : Registered) × (es : List Effect) × (open_phone g phone
        ≡ some (g', added, es))
      × (lookup ℕ_discrete added.phone.conn_id g'.phones ≡ some added.phone)
      × (phone_view phone.ref v (sent es) ≡ name (target g' added.phone))
      × ((b : Connection)
          → lookup Text-discrete b.bridge_id g.bridges ≡ some b
          → bridge_view b.ref added.phone.conn_id false (sent es)
            ≡ same (target g' added.phone) (some b))
      × ((q : Connection) (o : Option Text)
          → q.ref ≢ phone.ref
          → (phone_view q.ref o (sent es) ≡ o) × (target g' q ≡ target g q))
phone_joins_informed limit rooms w h user_id ref g phone v r at e found room =
    let c = Reach-Consistent limit rooms r in
    let stage = At-stage w phone.ref h (joining user_id ref) at e in
    open_phone-views g phone v (c.well_formed.valid ref g found) room
      (joining-IsFresh w ref g c phone user_id ref stage found)
